-- ===== src/Store/Distinct.antt =====
-- The primary key and the UNIQUE constraint of notification_events, under its writes.
use mathlib.Core.Path.{fun_ext}
use ai_limit_notifier.Prelude.{
  update_where, any_row, ℕ, ◌≡◌, refl, ◌∙◌, inl, inr, Bool, true, false, not, ◌&&◌, Text, List, [],
  ◌∷◌, ◌++◌, All, arith, Bool-cases,
}
use ai_limit_notifier.Store.Event.{Event, EventInput, same, by_id, same_key}
use ai_limit_notifier.Store.Rows.{any_row-update, any_row-append, All-imp}
use ai_limit_notifier.Store.Upsert.{move, window_of, key_of}

-- No later row is related to an earlier one.
abbrev pub Distinct : (Event → Event → Bool) → List Event → Type 0
Distinct rel [] = Unit {0}
Distinct rel (r ∷ rs) = (any_row (rel r) rs ≡ false) × Distinct rel rs

abbrev pub id_of : Event → Event → Bool
id_of r = by_id r.id

abbrev pub window_key : Event → Event → Bool
window_key r = same_key r.user_id r.provider r.window_kind r.reset_at

pub Distinct-update :
    (rel : Event → Event → Bool) (p : Event → Bool) (f : Event → Event) (t : List Event)
    → ((r s : Event) → rel (f r) s ≡ rel r s)
    → ((r s : Event) → rel r (f s) ≡ rel r s)
    → Distinct rel t
    → Distinct rel (update_where p f t)
unfolding update_where
Distinct-update rel p f [] left right d = tt
Distinct-update rel p f (r ∷ rs) left right d = elim (Bool-cases (p r)) [
  | inl e ↦ rw (e, fun_ext (left r)) (fresh, Distinct-update rel p f rs left right d.1)
  | inr e ↦ rw e (fresh, Distinct-update rel p f rs left right d.1)
]
  where
    fresh : any_row (rel r) (update_where p f rs) ≡ false
    fresh = any_row-update (rel r) p f rs (right r) ∙ d.0

-- A new last row that is related to none of the others.
pub Distinct-append :
    (rel : Event → Event → Bool) (t : List Event) (new : Event)
    → ((r s : Event) → rel r s ≡ rel s r)
    → any_row (rel new) t ≡ false
    → Distinct rel t
    → Distinct rel (t ++ new ∷ [])
unfolding any_row
Distinct-append rel [] new symmetric h d = (refl, tt)
Distinct-append rel (r ∷ rs) new symmetric h d = (
  ground (arith, any_row-append (rel r) rs (new ∷ []), symmetric r new, d.0),
  Distinct-append rel rs new symmetric (ground arith) d.1,
)

pub id_of-symmetric : (r s : Event) → id_of r s ≡ id_of s r
id_of-symmetric r s = ground arith

pub window_key-symmetric : (r s : Event) → window_key r s ≡ window_key s r
window_key-symmetric r s = ground arith

-- Rows that an update may change: they belong to the window of the input.
any_row-move :
    (q : Event → Bool) (existing : Text) (ev : EventInput) (now : ℕ) (t : List Event)
    → any_row q t ≡ false
    → All (λ s. by_id existing s ≡ true → q (move ev now s) ≡ false) t
    → any_row q (update_where (by_id existing) (move ev now) t) ≡ false
unfolding any_row update_where
any_row-move q existing ev now [] h a = refl
any_row-move q existing ev now (r ∷ rs) h a = elim (Bool-cases (by_id existing r)) [
  | inl e ↦ rw e (rw (a.0 e) (any_row-move q existing ev now rs (ground arith) a.1))
  | inr e ↦ rw e (ground (arith, any_row-move q existing ev now rs (ground arith) a.1))
]

All-any_row : (q : Event → Bool) (t : List Event) → any_row q t ≡ false → All (λ s. q s ≡ false) t
unfolding any_row
All-any_row q [] h = tt
All-any_row q (r ∷ rs) h = (ground arith, All-any_row q rs (ground arith))

any_row-others :
    (existing : Text) (q : Event → Bool) (t : List Event)
    → any_row (by_id existing) t ≡ false
    → any_row (λ s. not (same s.id existing) && q s) t ≡ false
    → any_row q t ≡ false
unfolding any_row
any_row-others existing q [] h free = refl
any_row-others existing q (r ∷ rs) h free =
    ground (arith, any_row-others existing q rs (ground arith) (ground arith))

-- A row of another identifier does not get the key that the moved row takes.
move_apart :
    (existing : Text) (ev : EventInput) (now : ℕ) (r s : Event)
    → by_id existing r ≡ false
    → (not (same r.id existing) && key_of ev r) ≡ false
    → window_of ev s ≡ true
    → window_key r (move ev now s) ≡ false
move_apart existing ev now r s other free own = ground arith

-- The moved row's key is that of the input.
move_key :
    (ev : EventInput) (now : ℕ) (r s : Event)
    → window_of ev r ≡ true
    → window_key (move ev now r) s ≡ key_of ev s
move_key ev now r s own = ground arith

-- The check of the UNIQUE constraint in `move_in_place` keeps the keys distinct.
pub move-Distinct :
    (existing : Text) (ev : EventInput) (now : ℕ) (t : List Event)
    → any_row (λ r. not (same r.id existing) && key_of ev r) t ≡ false
    → All (λ r. by_id existing r ≡ true → window_of ev r ≡ true) t
    → Distinct id_of t
    → Distinct window_key t
    → Distinct window_key (update_where (by_id existing) (move ev now) t)
unfolding any_row update_where
move-Distinct existing ev now [] free own ids keys = tt
move-Distinct existing ev now (r ∷ rs) free own ids keys = elim (Bool-cases (by_id existing r)) [
  | inl e ↦ rw e (moved e, move-Distinct existing ev now rs (ground arith) own.1 ids.1 keys.1)
  | inr e ↦ rw e (kept e, move-Distinct existing ev now rs (ground arith) own.1 ids.1 keys.1)
]
  where
    moved :
        by_id existing r ≡ true
        → any_row (window_key (move ev now r)) (update_where (by_id existing) (move ev now) rs)
          ≡ false
    moved e =
        let others : any_row (by_id existing) rs ≡ false = ground (arith, ids.0) in
        rw (fun_ext (λ s. move_key ev now r s (own.0 e))) (
          any_row-move (key_of ev) existing ev now rs
            (any_row-others existing (key_of ev) rs others (ground arith))
            (All-imp rs (λ s no_match hit. cc) (All-any_row (by_id existing) rs others)))

    kept :
        by_id existing r ≡ false
        → any_row (window_key r) (update_where (by_id existing) (move ev now) rs) ≡ false
    kept e =
        any_row-move (window_key r) existing ev now rs keys.0
          (All-imp rs (λ s o hit. move_apart existing ev now r s e (ground arith) (o hit)) own.1)
