-- ===== src/Store/Linking.antt =====
-- linkCombinable (internal/server/store/events.go) and the well-formed table.
use mathlib.Core.List.{Mem, mem-cons, not-mem-nil}
use mathlib.Core.Logic.Or
use mathlib.Core.Path.{subst}
use ai_limit_notifier.Prelude.{
  update_where, any_row, ℕ, ◌≡◌, refl, inl, inr, Bool, true, false, ◌&&◌, ◌||◌, ◌==◌, Text, List,
  [], ◌∷◌, All, arith, Bool-cases, unix, ltb, Option, some, none,
}
use ai_limit_notifier.Domain.{Provider, is_provider, is_kind}
use ai_limit_notifier.Store.Event.{Event, EventInput, same, Engine, query, query_row, by_id}
use ai_limit_notifier.Store.Rows.{
  any_row-false_mem, Bool-prop, any_row-mem, All-imp, query-mem, query_row-mem,
}
use ai_limit_notifier.Store.Upsert.{
  find_partner, later_first, cover_later, link_partner, link_combinable, cover, combinable,
  window_of,
}
use ai_limit_notifier.Store.Distinct.{Distinct, id_of}
use ai_limit_notifier.Store.Integrity.{may_cover, IsTable, update-IsTable}

-- Rows of one identifier have one user, window kind and provider.
abbrev like : Event → Event → Bool
like c r =
    same r.user_id c.user_id
    && is_kind r.window_kind c.window_kind
    && is_provider r.provider c.provider

All-tests-prop :
    (q g : Event → Bool) (t : List Event) → IsProp (All (λ r. q r ≡ true → g r ≡ true) t)
All-tests-prop q g [] = hlevel
All-tests-prop q g (r ∷ rs) = hlevel (All-tests-prop q g rs, Bool-prop)

pub All-none :
    (q g : Event → Bool) (t : List Event)
    → any_row q t ≡ false
    → All (λ r. q r ≡ true → g r ≡ true) t
unfolding any_row
All-none q g [] h = tt
All-none q g (r ∷ rs) h = (λ e. ground arith, All-none q g rs (ground arith))

pub mem-like :
    (c : Event) (t : List Event)
    → Distinct id_of t
    → Mem c t
    → All (λ r. by_id c.id r ≡ true → like c r ≡ true) t
mem-like c [] d m = tt
mem-like c (r ∷ rs) d m =
    Or.elim (All-tests-prop (by_id c.id) (like c) (r ∷ rs)) (mem-cons.0 m)
      (λ e. (λ h. ground arith, All-none (by_id c.id) (like c) rs (ground arith)))
      (λ m'.
        (λ h. ground (arith, any_row-false_mem (id_of r) rs {c = c} d.0 m'), mem-like c rs d.1 m'))

pub find_partner-mem :
    (this : Provider) (rows : List Event) (c : Event)
    → find_partner this rows ≡ some c
    → Mem c rows × (is_provider c.provider this ≡ false)
unfolding find_partner
find_partner-mem this [] c h = cc
find_partner-mem this (r ∷ rs) c h = elim (Bool-cases (is_provider r.provider this)) [
  | inl e ↦
      let (m, other) = find_partner-mem this rs c (ground arith) in (mem-cons.1 (Or.inr m), other)
  | inr e ↦ (mem-cons.1 (Or.inl (ground arith)), ground arith)
]

-- The rows of an identifier belong to the window of the input.
abbrev pub Owned : EventInput → Text → List Event → Type 0
Owned ev i t = All (λ r. by_id i r ≡ true → window_of ev r ≡ true) t

abbrev HasCover : Text → Text → List Event → Type 0
HasCover later earlier t =
    All (λ r. by_id later r ≡ true → any_row (may_cover earlier r) t ≡ true) t

-- One row covers another: a row `c` of the table, and the rows of an identifier that are of
-- its user and kind and of another provider.
has-cover :
    (later : Text) (c : Event) (t u : List Event)
    → Mem c t
    → All (λ r. by_id later r ≡ true → may_cover c.id r c ≡ true) u
    → All (λ r. by_id later r ≡ true → any_row (may_cover c.id r) t ≡ true) u
has-cover later c t [] m a = tt
has-cover later c t (r ∷ rs) m a =
    (λ h. any_row-mem (may_cover c.id r) t {c = c} m (a.0 h), has-cover later c t rs m a.1)

All-map₂ {ℓ κ μ} :
    {P : Event → Type ℓ} {Q : Event → Type κ} {R : Event → Type μ} (t : List Event)
    → ((r : Event) → P r → Q r → R r)
    → All P t
    → All Q t
    → All R t
All-map₂ [] h a b = tt
All-map₂ (r ∷ rs) h a b = (h r a.0 b.0, All-map₂ rs h a.1 b.1)

cover-IsTable :
    (later earlier : Text) (now : ℕ) (t : List Event)
    → HasCover later earlier t
    → IsTable t
    → IsTable (update_where (by_id later) (cover earlier now) t)
cover-IsTable later earlier now t has =
    update-IsTable (by_id later) (cover earlier now) t (λ r. (refl, refl, refl, refl)) (λ r. refl)
      (All-imp t
        (λ r any v h. record {
          on_time = v.on_time;
          first_due = v.first_due;
          stamped = λ e. cc;
          link = λ e. (earlier, refl, any h);
        })
        has)

All-mem :
    (q g : Event → Bool) (t : List Event) {c : Event}
    → All (λ r. q r ≡ true → g r ≡ true) t
    → Mem c t
    → q c ≡ true
    → g c ≡ true
All-mem q g [] a m h = absurd (not-mem-nil m)
All-mem q g (r ∷ rs) {c} a m h =
    Or.elim Bool-prop (mem-cons.0 m) (λ e. rw e (a.0 (rw e at h)))
      (λ m'. All-mem q g rs {c = c} a.1 m' h)

module _ (ev : EventInput) (event_id : Text) (window now : ℕ) (t : List Event)
    (this partner : Event) (v : IsTable t) (own : Owned ev event_id t) (this_in : Mem this t)
    (this_id : by_id event_id this ≡ true) (partner_in : Mem partner t)
    (fits : combinable event_id ev.in_user_id ev.in_window_kind ev.in_reset_at window partner
      ≡ true)
    (other : is_provider partner.provider this.provider ≡ false) where
  this_own : window_of ev this ≡ true
  this_own = All-mem (by_id event_id) (window_of ev) t own this_in this_id

  this-like : All (λ r. by_id event_id r ≡ true → like this r ≡ true) t
  this-like = All-imp t (λ r l h. l (ground arith)) (mem-like this t v.ids this_in)

  partner_covers : HasCover event_id partner.id t
  partner_covers =
      has-cover event_id partner t t partner_in
        (All-map₂ t (λ r l o h. ground (arith, l h, o h)) this-like own)

  this_covers : HasCover partner.id event_id t
  this_covers =
      All-imp t
        (λ r l h.
          any_row-mem (may_cover event_id r) t {c = this} this_in (ground (arith, l h, this_own)))
        (mem-like partner t v.ids partner_in)

  -- Whichever of the two events is the later one, its link is well formed.
  pub cover_later-IsTable :
      (reset_at : ℕ) → IsTable (cover_later event_id reset_at now t (some partner))
  unfolding cover_later later_first
  cover_later-IsTable reset_at =
      elim (Bool-cases (
        ltb (unix reset_at) partner.reset_at
        || (unix reset_at == partner.reset_at && ltb (unix now) partner.created_at))) [
          | inl e ↦ rw e (cover-IsTable partner.id event_id now t this_covers v)
          | inr e ↦ rw e (cover-IsTable event_id partner.id now t partner_covers v)
        ]

pub link_combinable-IsTable :
    (db : Engine) (ev : EventInput) (event_id : Text) (window now : ℕ) (t u : List Event)
    → IsTable t
    → Owned ev event_id t
    → link_combinable db t event_id ev.in_user_id ev.in_window_kind ev.in_reset_at window now
      ≡ some u
    → IsTable u
unfolding link_combinable link_partner cover_later
link_combinable-IsTable db ev event_id window now t u v own h =
    found (query_row db (by_id event_id) t) refl h
  where
    fits : Event → Bool
    fits = combinable event_id ev.in_user_id ev.in_window_kind ev.in_reset_at window

    covered_by_first :
        (this : Event)
        → query_row db (by_id event_id) t ≡ some this
        → (o : Option Event) → find_partner this.provider (query db fits t) ≡ o
        → IsTable (cover_later event_id ev.in_reset_at now t o)
    covered_by_first this e none f = v
    covered_by_first this e (some partner) f =
        let (in_rows, other) = find_partner-mem this.provider (query db fits t) partner f in
        let (partner_in, fit) = query-mem db fits t in_rows in
        let (this_in, this_id) = query_row-mem db (by_id event_id) t this e in
        cover_later-IsTable ev event_id window now t this partner v own this_in this_id partner_in
          fit other ev.in_reset_at

    found :
        (o : Option Event)
        → query_row db (by_id event_id) t ≡ o
        → link_partner event_id ev.in_reset_at now t (query db fits t) o ≡ some u
        → IsTable u
    found none e g = cc
    found (some this) e g =
        let partner = find_partner this.provider (query db fits t) in
        let same_table : cover_later event_id ev.in_reset_at now t partner ≡ u = cc in
        subst IsTable same_table (covered_by_first this e partner refl)
