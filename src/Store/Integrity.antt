-- ===== src/Store/Integrity.antt =====
-- What a well-formed table of events is, and the single writes of internal/server/store/events.go.
use ai_limit_notifier.Prelude.{
  update_where, any_row, ℕ, ◌+◌, ◌≡◌, refl, ◌∙◌, ◌≢◌, Bool, true, not, ◌&&◌, Text, List, All, arith,
  some, none,
}
use ai_limit_notifier.Domain.{is_provider, is_kind}
use ai_limit_notifier.Store.Event.{Event, sent, covered, same, by_id}
use ai_limit_notifier.Store.Rows.{any_row-update, All-imp, All-update, All-of}
use ai_limit_notifier.Store.Claim.{
  claim, claims, claim_event, deliver_mark, mark_sent, retry_later, record_attempt_failure,
}
use ai_limit_notifier.Store.Distinct.{Distinct, id_of, window_key, Distinct-update}

-- A row that may cover another: of its user and window kind, and of another provider.
abbrev pub may_cover : Text → Event → Event → Bool
may_cover i r c =
    by_id i c
    && same c.user_id r.user_id
    && is_kind c.window_kind r.window_kind
    && not (is_provider c.provider r.provider)

abbrev pub IsCovered : List Event → Event → Type 0
IsCovered t r = (i : Text) × (r.covered_by ≡ some i) × (any_row (may_cover i r) t ≡ true)

pub record IsRow (t : List Event) (r : Event) : Type 0 where
  pub on_time : r.send_at ≡ r.reset_at + 60
  pub first_due : r.attempts ≡ 0 → r.next_attempt_at ≡ r.reset_at + 60
  pub stamped : r.status ≡ sent → r.sent_at ≢ none
  pub link : r.status ≡ covered → IsCovered t r

pub record IsTable (t : List Event) : Type 0 where
  pub ids : Distinct id_of t
  pub keys : Distinct window_key t
  pub rows : All (IsRow t) t

-- An update that leaves identifiers and windows alone.
abbrev pub Stable : (Event → Event) → Type 0
Stable f =
    (r : Event)
    → ((f r).id ≡ r.id)
      × ((f r).user_id ≡ r.user_id)
      × ((f r).provider ≡ r.provider)
      × ((f r).window_kind ≡ r.window_kind)

may_cover-update :
    (i : Text) (r : Event) (p : Event → Bool) (f : Event → Event) (t : List Event)
    → Stable f
    → any_row (may_cover i r) (update_where p f t) ≡ any_row (may_cover i r) t
may_cover-update i r p f t stable =
    any_row-update (may_cover i r) p f t λ c. ground (arith, stable c)

-- Rows stay well formed when the rest of the table changes in columns that links do not read.
pub rows-update :
    (p : Event → Bool) (f : Event → Event) (t : List Event)
    → Stable f
    → All (λ r. IsRow t r → p r ≡ true → IsRow t (f r)) t
    → All (IsRow t) t
    → All (IsRow (update_where p f t)) (update_where p f t)
rows-update p f t stable keep rows =
    All-imp (update_where p f t)
      (λ r v. record {
        on_time = v.on_time;
        first_due = v.first_due;
        stamped = v.stamped;
        link = λ e. let (i, by, any) = v.link e in (i, by, may_cover-update i r p f t stable ∙ any);
      })
      (All-update (IsRow t) p f t keep rows)

-- An update of a status, or of a time that is not part of the key.
pub update-IsTable :
    (p : Event → Bool) (f : Event → Event) (t : List Event)
    → Stable f
    → ((r : Event) → (f r).reset_at ≡ r.reset_at)
    → All (λ r. IsRow t r → p r ≡ true → IsRow t (f r)) t
    → IsTable t
    → IsTable (update_where p f t)
update-IsTable p f t stable fixed keep v = record {
  ids =
      Distinct-update id_of p f t (λ r s. ground (arith, stable r))
        (λ r s. ground (arith, stable s)) v.ids;
  keys =
      Distinct-update window_key p f t (λ r s. ground (arith, stable r, fixed r))
        (λ r s. ground (arith, stable s, fixed s)) v.keys;
  rows = rows-update p f t stable keep v.rows;
}

pub claim_event-IsTable :
    (t : List Event) (i : Text) (now : ℕ) → IsTable t → IsTable (claim_event t i now).0
unfolding claim_event
claim_event-IsTable t i now =
    update-IsTable (claims i now) (claim now) t (λ r. (refl, refl, refl, refl)) (λ r. refl)
      (All-of t λ r v h. ground arith)

pub mark_sent-IsTable :
    (t : List Event) (i : Text) (now : ℕ) → IsTable t → IsTable (mark_sent t i now)
unfolding mark_sent
mark_sent-IsTable t i now =
    update-IsTable (by_id i) (deliver_mark now) t (λ r. (refl, refl, refl, refl)) (λ r. refl)
      (All-of t λ r v h. ground arith)

pub record_attempt_failure-IsTable :
    (t : List Event) (i : Text) (next now : ℕ)
    → IsTable t
    → IsTable (record_attempt_failure t i next now)
unfolding record_attempt_failure
record_attempt_failure-IsTable t i next now =
    update-IsTable (by_id i) (retry_later next now) t (λ r. (refl, refl, refl, refl)) (λ r. refl)
      (All-of t λ r v h. ground arith)
