-- ===== src/Store/Lasting.antt =====
-- UpsertPendingEvent (internal/server/store/events.go) and the rows that are there afterwards.
use mathlib.Core.List.{Mem, mem-cons, not-mem-nil}
use mathlib.Core.Logic.Or
use mathlib.Core.Path.{subst}
use ai_limit_notifier.Prelude.{
  update_where, any_row, ℕ, ◌≡◌, refl, ◌∙◌, inl, inr, Bool, true, false, ◌&&◌, ◌==◌, Text, List, [],
  ◌∷◌, ◌++◌, Option, none, some, All, arith, Bool-cases, unix,
}
use ai_limit_notifier.Domain.{Provider, WindowKind, is_kind}
use ai_limit_notifier.Store.Event.{
  Event, EventInput, Engine, query, query_row, by_id, is_pending, same_key,
}
use ai_limit_notifier.Store.Upsert.{
  Upserted, ok, err, find_partner, later_first, cover_later, link_partner, link_combinable,
  move_in_place, insert_row, commit, link_and_commit, upsert_pending, upsert_new, upsert_found,
  upsert_pending_event, cover, combinable, refresh, move, new_row, window_of, key_of,
}
use ai_limit_notifier.Store.Rows.{
  any_row-update, any_row-append, Bool-prop, All-imp, any_row-mem, query_row-mem, same_self,
}
use ai_limit_notifier.Store.Integrity.{IsTable}
use ai_limit_notifier.Store.History.{pending-Owned, move_in_place-some, insert_row-some}

abbrev pub Has : (Event → Bool) → Upserted → Type 0
Has q (ok u i created) = any_row q u ≡ true
Has q (err e) = Unit

any_row-update_mem :
    (q p : Event → Bool) (f : Event → Event) (t : List Event) {c : Event}
    → Mem c t
    → p c ≡ true
    → q (f c) ≡ true
    → any_row q (update_where p f t) ≡ true
unfolding any_row update_where
any_row-update_mem q p f [] m a b = absurd (not-mem-nil m)
any_row-update_mem q p f (r ∷ rs) {c} m a b =
    Or.elim Bool-prop (mem-cons.0 m) (λ e. ground arith)
      (λ m'. ground (arith, any_row-update_mem q p f rs {c = c} m' a b))

any_row-update-All :
    (q p : Event → Bool) (f : Event → Event) (t : List Event)
    → All (λ r. p r ≡ true → q r ≡ true → q (f r) ≡ true) t
    → any_row q t ≡ true
    → any_row q (update_where p f t) ≡ true
unfolding any_row update_where
any_row-update-All q p f [] a h = h
any_row-update-All q p f (r ∷ rs) a h =
    let here = a.0 in ground (arith, here, any_row-update-All q p f rs a.1)

module _ (q : Event → Bool)
    (stays : (i : Text) (now : ℕ) (r : Event) → q (cover i now r) ≡ q r) where
  cover_later-Has :
      (event_id : Text) (reset_at now : ℕ) (t : List Event) (o : Option Event)
      → any_row q t ≡ true
      → any_row q (cover_later event_id reset_at now t o) ≡ true
  unfolding cover_later
  cover_later-Has event_id reset_at now t none h = h
  cover_later-Has event_id reset_at now t (some partner) h =
      let (later, earlier) = later_first event_id reset_at partner now in
      any_row-update q (by_id later) (cover earlier now) t (stays earlier now) ∙ h

  link-Has :
      (db : Engine) (ev : EventInput) (i : Text) (created : Bool) (window now : ℕ)
      (o : Option (List Event))
      → ((u : List Event) → o ≡ some u → any_row q u ≡ true)
      → Has q (link_and_commit db ev i created window now o)
  unfolding link_and_commit link_combinable link_partner commit
  link-Has db ev i created window now none h = tt
  link-Has db ev i created window now (some u) h =
      linked (query db (combinable i ev.in_user_id ev.in_window_kind ev.in_reset_at window) u)
        (query_row db (by_id i) u)
    where
      linked :
          (rows : List Event) (this : Option Event)
          → Has q (commit i created (link_partner i ev.in_reset_at now u rows this))
      linked rows none = tt
      linked rows (some this) =
          cover_later-Has i ev.in_reset_at now u (find_partner this.provider rows) (h u refl)

-- An accepted upsert leaves a row of its user, provider, window kind and reset time.
module _ (ev : EventInput) where
  pending-key :
      (db : Engine) (window now : ℕ) (t : List Event) (c : Event)
      → Mem c t
      → window_of ev c ≡ true
      → Has (key_of ev) (upsert_pending db ev window now t c)
  unfolding upsert_pending
  pending-key db window now t c m own = elim (Bool-cases (c.reset_at == unix ev.in_reset_at)) [
    | inl e ↦ rw e (
        any_row-update (key_of ev) (by_id c.id) (refresh ev now) t (λ r. refl)
        ∙ any_row-mem (key_of ev) t m (ground arith))
    | inr e ↦ rw e (
        link-Has (key_of ev) (λ i now r. refl) db ev c.id false window now
          (move_in_place ev c.id now t) (λ u h. moved u (move_in_place-some ev c.id now t u h).1))
  ]
    where
      moved :
          (u : List Event)
          → update_where (by_id c.id) (move ev now) t ≡ u
          → any_row (key_of ev) u ≡ true
      moved u e =
          subst (λ w. any_row (key_of ev) w ≡ true) e
            (any_row-update_mem (key_of ev) (by_id c.id) (move ev now) t m (same_self c.id)
              (ground arith))

  new_row-key :
      (new_id : Text) (now : ℕ) (t : List Event)
      → any_row (key_of ev) (t ++ new_row ev new_id now ∷ []) ≡ true
  unfolding any_row
  new_row-key new_id now t =
      ground (arith, any_row-append (key_of ev) t (new_row ev new_id now ∷ []))

  new-key :
      (db : Engine) (new_id : Text) (window now : ℕ) (t : List Event) (o : Option Event)
      → query_row db (key_of ev) t ≡ o
      → Has (key_of ev) (upsert_new db ev new_id window now t o)
  unfolding upsert_new
  new-key db new_id window now t (some c) e =
      let (m, test) = query_row-mem db (key_of ev) t c e in any_row-mem (key_of ev) t m test
  new-key db new_id window now t none e =
      link-Has (key_of ev) (λ i now r. refl) db ev new_id true window now
        (insert_row ev new_id now t) (λ u h. inserted u (insert_row-some ev new_id now t u h).2)
    where
      inserted :
          (u : List Event) → t ++ new_row ev new_id now ∷ [] ≡ u → any_row (key_of ev) u ≡ true
      inserted u e = subst (λ w. any_row (key_of ev) w ≡ true) e (new_row-key new_id now t)

  found-key :
      (db : Engine) (new_id : Text) (window now : ℕ) (t : List Event) (o : Option Event)
      → query_row db (λ r. window_of ev r && is_pending r.status) t ≡ o
      → Has (key_of ev) (upsert_found db ev new_id window now t o)
  unfolding upsert_found
  found-key db new_id window now t none e =
      new-key db new_id window now t (query_row db (key_of ev) t) refl
  found-key db new_id window now t (some c) e =
      let (m, test) = query_row-mem db (λ r. window_of ev r && is_pending r.status) t c e in
      pending-key db window now t c m (ground arith)

  pub upsert-key :
      (db : Engine) (t : List Event) (new_id : Text) (window now : ℕ)
      → Has (key_of ev) (upsert_pending_event db t ev new_id window now)
  unfolding upsert_pending_event
  upsert-key db t new_id window now =
      found-key db new_id window now t (query_row db (λ r. window_of ev r && is_pending r.status) t)
        refl

-- An upsert leaves the rows of another window kind with their reset times.
module _ (ev : EventInput) (user : Text) (p : Provider) (kind : WindowKind) (reset : ℕ)
    (other : is_kind kind ev.in_window_kind ≡ false) where
  abbrev kept : Event → Bool
  kept = same_key user p kind reset

  pending-kept :
      (db : Engine) (window now : ℕ) (t : List Event) (c : Event)
      → IsTable t
      → Mem c t
      → window_of ev c ≡ true
      → any_row kept t ≡ true
      → Has kept (upsert_pending db ev window now t c)
  unfolding upsert_pending
  pending-kept db window now t c v m own had =
      elim (Bool-cases (c.reset_at == unix ev.in_reset_at)) [
        | inl e ↦ rw e (any_row-update kept (by_id c.id) (refresh ev now) t (λ r. refl) ∙ had)
        | inr e ↦ rw e (
            link-Has kept (λ i now r. refl) db ev c.id false window now
              (move_in_place ev c.id now t)
              (λ u h. moved u (move_in_place-some ev c.id now t u h).1))
      ]
    where
      moved :
          (u : List Event) → update_where (by_id c.id) (move ev now) t ≡ u → any_row kept u ≡ true
      moved u e =
          subst (λ w. any_row kept w ≡ true) e
            (any_row-update-All kept (by_id c.id) (move ev now) t
              (All-imp t (λ r o hit was. absurd (ground (arith, o hit, was, other)))
                (pending-Owned ev t c v m own))
              had)

  new-kept :
      (db : Engine) (new_id : Text) (window now : ℕ) (t : List Event) (o : Option Event)
      → any_row kept t ≡ true
      → Has kept (upsert_new db ev new_id window now t o)
  unfolding upsert_new
  new-kept db new_id window now t (some c) had = had
  new-kept db new_id window now t none had =
      link-Has kept (λ i now r. refl) db ev new_id true window now (insert_row ev new_id now t)
        (λ u h. inserted u (insert_row-some ev new_id now t u h).2)
    where
      inserted : (u : List Event) → t ++ new_row ev new_id now ∷ [] ≡ u → any_row kept u ≡ true
      inserted u e =
          subst (λ w. any_row kept w ≡ true) e
            (rw (any_row-append kept t (new_row ev new_id now ∷ [])) (rw had refl))

  found-kept :
      (db : Engine) (new_id : Text) (window now : ℕ) (t : List Event) (o : Option Event)
      → query_row db (λ r. window_of ev r && is_pending r.status) t ≡ o
      → IsTable t
      → any_row kept t ≡ true
      → Has kept (upsert_found db ev new_id window now t o)
  unfolding upsert_found
  found-kept db new_id window now t none e v had =
      new-kept db new_id window now t (query_row db (key_of ev) t) had
  found-kept db new_id window now t (some c) e v had =
      let (m, test) = query_row-mem db (λ r. window_of ev r && is_pending r.status) t c e in
      pending-kept db window now t c v m (ground arith) had

  pub upsert-kept :
      (db : Engine) (t : List Event) (new_id : Text) (window now : ℕ)
      → IsTable t
      → any_row kept t ≡ true
      → Has kept (upsert_pending_event db t ev new_id window now)
  unfolding upsert_pending_event
  upsert-kept db t new_id window now v had =
      found-kept db new_id window now t
        (query_row db (λ r. window_of ev r && is_pending r.status) t) refl v had
