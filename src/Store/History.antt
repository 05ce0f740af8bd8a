-- ===== src/Store/History.antt =====
-- Histories of store operations (internal/server/store/events.go) and the well-formed table.
use mathlib.Core.List.{Mem}
use mathlib.Core.Path.{subst}
use ai_limit_notifier.Prelude.{
  update_where, any_row, ℕ, ◌≡◌, refl, ◌∙◌, inl, inr, Bool, true, false, not, ◌&&◌, ◌==◌, Text,
  List, [], ◌∷◌, ◌++◌, arith, Bool-cases, unix, Option, some, none,
}
use ai_limit_notifier.Store.Event.{Event, EventInput, is_pending, same, Engine, query_row, by_id}
use ai_limit_notifier.Store.Rows.{
  any_row-append, All-imp, All-update, All-append, query_row-mem, All-of,
}
use ai_limit_notifier.Store.Upsert.{
  Upserted, ok, err, move_in_place, insert_row, commit, link_and_commit, upsert_pending, upsert_new,
  upsert_found, upsert_pending_event, refresh, move, new_row, window_of, key_of,
}
use ai_limit_notifier.Store.Claim.{claim_event, mark_sent, record_attempt_failure}
use ai_limit_notifier.Store.Distinct.{
  id_of, window_key, Distinct-update, Distinct-append, id_of-symmetric, window_key-symmetric,
  move-Distinct,
}
use ai_limit_notifier.Store.Integrity.{may_cover, IsRow, IsTable, update-IsTable}
use ai_limit_notifier.Store.Linking.{Owned, mem-like, All-none, link_combinable-IsTable}
use ai_limit_notifier.Store.Integrity.{
  rows-update, claim_event-IsTable, mark_sent-IsTable, record_attempt_failure-IsTable,
}

-- What upserting may leave: an error, or a well-formed table.
abbrev After : Upserted → Type 0
After (ok u i created) = IsTable u
After (err e) = Unit {0}

commit-After :
    (i : Text) (created : Bool) (o : Option (List Event))
    → ((u : List Event) → o ≡ some u → IsTable u)
    → After (commit i created o)
unfolding commit
commit-After i created none h = tt
commit-After i created (some u) h = h u refl

link-After :
    (db : Engine) (ev : EventInput) (i : Text) (created : Bool) (window now : ℕ)
    (o : Option (List Event))
    → ((u : List Event) → o ≡ some u → IsTable u × Owned ev i u)
    → After (link_and_commit db ev i created window now o)
unfolding link_and_commit
link-After db ev i created window now none h = tt
link-After db ev i created window now (some u) h =
    let (v, own) = h u refl in
    commit-After i created _ (λ w e. link_combinable-IsTable db ev i window now u w v own e)

-- The row that is pending for the window of the input shares its columns with every row of its
-- identifier.
pub pending-Owned :
    (ev : EventInput) (t : List Event) (c : Event)
    → IsTable t
    → Mem c t
    → window_of ev c ≡ true
    → Owned ev c.id t
pending-Owned ev t c v m own = All-imp t (λ r l h. ground (arith, l h)) (mem-like c t v.ids m)

move-IsTable :
    (ev : EventInput) (existing : Text) (now : ℕ) (t : List Event)
    → any_row (λ r. not (same r.id existing) && key_of ev r) t ≡ false
    → IsTable t
    → Owned ev existing t
    → IsTable (update_where (by_id existing) (move ev now) t)
move-IsTable ev existing now t free v own = record {
  ids = Distinct-update id_of (by_id existing) (move ev now) t (λ r s. refl) (λ r s. refl) v.ids;
  keys = move-Distinct existing ev now t free own v.ids v.keys;
  rows =
      rows-update (by_id existing) (move ev now) t (λ r. (refl, refl, refl, refl))
        (All-of t λ r w h. ground arith) v.rows;
}

insert-IsTable :
    (ev : EventInput) (new_id : Text) (now : ℕ) (t : List Event)
    → any_row (by_id new_id) t ≡ false
    → any_row (key_of ev) t ≡ false
    → IsTable t
    → IsTable (t ++ new_row ev new_id now ∷ [])
insert-IsTable ev new_id now t fresh free v = record {
  ids = Distinct-append id_of t (new_row ev new_id now) id_of-symmetric fresh v.ids;
  keys = Distinct-append window_key t (new_row ev new_id now) window_key-symmetric free v.keys;
  rows =
      All-append (IsRow (t ++ new_row ev new_id now ∷ [])) t (new_row ev new_id now ∷ [])
        (All-imp t
          (λ r w. record {
            on_time = w.on_time;
            first_due = w.first_due;
            stamped = w.stamped;
            link = λ e.
                let (i, by, any) = w.link e in
                (
                  i,
                  by,
                  any_row-append (may_cover i r) t (new_row ev new_id now ∷ []) ∙ rw any refl,
                );
          })
          v.rows)
        (
          record {
            on_time = omega arith;
            first_due = λ e. omega arith;
            stamped = λ e. cc;
            link = λ e. cc;
          },
          tt,
        );
}

pub move_in_place-some :
    (ev : EventInput) (i : Text) (now : ℕ) (t u : List Event)
    → move_in_place ev i now t ≡ some u
    → (any_row (λ r. not (same r.id i) && key_of ev r) t ≡ false)
      × (update_where (by_id i) (move ev now) t ≡ u)
unfolding move_in_place
move_in_place-some ev i now t u h =
    elim (Bool-cases (any_row (λ r. not (same r.id i) && key_of ev r) t)) [
      | inl e ↦ absurd (let taken : ◌≡◌ {A = Option (List Event)} none (some u) = rw e at h in cc)
      | inr e ↦
          (e, let made : some (update_where (by_id i) (move ev now) t) ≡ some u = rw e at h in cc)
    ]

pub insert_row-some :
    (ev : EventInput) (i : Text) (now : ℕ) (t u : List Event)
    → insert_row ev i now t ≡ some u
    → (any_row (by_id i) t ≡ false)
      × (any_row (key_of ev) t ≡ false)
      × (t ++ new_row ev i now ∷ [] ≡ u)
unfolding insert_row
insert_row-some ev i now t u h = ground arith

upsert_pending-After :
    (db : Engine) (ev : EventInput) (window now : ℕ) (t : List Event) (c : Event)
    → IsTable t
    → Mem c t
    → window_of ev c ≡ true
    → After (upsert_pending db ev window now t c)
unfolding upsert_pending
upsert_pending-After db ev window now t c v m own =
    elim (Bool-cases (c.reset_at == unix ev.in_reset_at)) [
      | inl e ↦ rw e (
          update-IsTable (by_id c.id) (refresh ev now) t (λ r. (refl, refl, refl, refl)) (λ r. refl)
            (All-of t λ r w h. ground arith) v)
      | inr e ↦ rw e (link-After db ev c.id false window now (move_in_place ev c.id now t) moved)
    ]
  where
    moved : (u : List Event) → move_in_place ev c.id now t ≡ some u → IsTable u × Owned ev c.id u
    moved u h =
        let (free, e) = move_in_place-some ev c.id now t u h in
        let old : Owned ev c.id t = pending-Owned ev t c v m own in
        subst (λ w. IsTable w × Owned ev c.id w) e
          (
            move-IsTable ev c.id now t free v old,
            All-update (λ r. by_id c.id r ≡ true → window_of ev r ≡ true) (by_id c.id) (move ev now)
                t (All-of t λ r o hit. o) old,
          )

upsert_new-After :
    (db : Engine) (ev : EventInput) (new_id : Text) (window now : ℕ) (t : List Event)
    (o : Option Event)
    → IsTable t
    → After (upsert_new db ev new_id window now t o)
unfolding upsert_new
upsert_new-After db ev new_id window now t (some historical) v = v
upsert_new-After db ev new_id window now t none v =
    link-After db ev new_id true window now (insert_row ev new_id now t) inserted
  where
    inserted :
        (u : List Event) → insert_row ev new_id now t ≡ some u → IsTable u × Owned ev new_id u
    inserted u h =
        let (fresh, free, e) = insert_row-some ev new_id now t u h in
        subst (λ w. IsTable w × Owned ev new_id w) e
          (
            insert-IsTable ev new_id now t fresh free v,
            All-append (λ r. by_id new_id r ≡ true → window_of ev r ≡ true) t
                (new_row ev new_id now ∷ []) (All-none (by_id new_id) (window_of ev) t fresh)
                (λ h'. ground arith, tt),
          )

upsert_found-After :
    (db : Engine) (ev : EventInput) (new_id : Text) (window now : ℕ) (t : List Event)
    (o : Option Event)
    → query_row db (λ r. window_of ev r && is_pending r.status) t ≡ o
    → IsTable t
    → After (upsert_found db ev new_id window now t o)
unfolding upsert_found
upsert_found-After db ev new_id window now t none e v =
    upsert_new-After db ev new_id window now t _ v
upsert_found-After db ev new_id window now t (some c) e v =
    let (m, test) = query_row-mem db (λ r. window_of ev r && is_pending r.status) t c e in
    upsert_pending-After db ev window now t c v m (ground arith)

-- An error rolls the transaction back.
abbrev pub table_after : List Event → Upserted → List Event
table_after t (ok u i created) = u
table_after t (err e) = t

pub upsert-IsTable :
    (db : Engine) (t : List Event) (ev : EventInput) (new_id : Text) (window now : ℕ)
    → IsTable t
    → IsTable (table_after t (upsert_pending_event db t ev new_id window now))
unfolding upsert_pending_event
upsert-IsTable db t ev new_id window now v =
    settle (upsert_found db ev new_id window now t _)
      (upsert_found-After db ev new_id window now t _ refl v)
  where
    settle : (r : Upserted) → After r → IsTable (table_after t r)
    settle (ok u i created) w = w
    settle (err e) w = v

-- A call of one operation that writes notification_events, with its clock readings.
pub data Op : Type 0 where
  upserts : EventInput → Text → ℕ → ℕ → Op
  claims_one marks : Text → ℕ → Op
  fails : Text → ℕ → ℕ → Op

unfoldable pub step : Engine → List Event → Op → List Event
step db t (upserts ev new_id window now) =
    table_after t (upsert_pending_event db t ev new_id window now)
step db t (claims_one i now) = (claim_event t i now).0
step db t (marks i now) = mark_sent t i now
step db t (fails i next now) = record_attempt_failure t i next now

unfoldable pub run : Engine → List Event → List Op → List Event
unfolding step
run db t [] = t
run db t (op ∷ ops) = run db (step db t op) ops

step-IsTable : (db : Engine) (t : List Event) (op : Op) → IsTable t → IsTable (step db t op)
unfolding step
step-IsTable db t (upserts ev new_id window now) v = upsert-IsTable db t ev new_id window now v
step-IsTable db t (claims_one i now) v = claim_event-IsTable t i now v
step-IsTable db t (marks i now) v = mark_sent-IsTable t i now v
step-IsTable db t (fails i next now) v = record_attempt_failure-IsTable t i next now v

pub run-IsTable :
    (db : Engine) (t : List Event) (ops : List Op) → IsTable t → IsTable (run db t ops)
unfolding run
run-IsTable db t [] v = v
run-IsTable db t (op ∷ ops) v = run-IsTable db (step db t op) ops (step-IsTable db t op v)

-- Any sequence of upserts, claims, sends and failures, in any order and at any times, that starts
-- from the empty table leaves identifiers and window keys unique, the time of sending of every row,
-- and the next attempt of every row with no failed attempt, one minute after its reset, every sent
-- row with a time of sending, and every covered row with a covering row of its user and window
-- kind and of another provider.
pub run-empty-IsTable : (db : Engine) (ops : List Op) → IsTable (run db [] ops)
run-empty-IsTable db ops = run-IsTable db [] ops (record { ids = tt; keys = tt; rows = tt })
