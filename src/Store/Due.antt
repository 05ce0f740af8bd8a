-- ===== src/Store/Due.antt =====
-- What DueEvents hands to the scheduler.
use mathlib.Core.List.{Perm}
use mathlib.Core.List.Perm
use ai_limit_notifier.Prelude.{
  ℕ, suc, zero, ◌+◌, ◌*◌, ◌≤◌, ◌≡◌, refl, ◌⊎◌, ◌↔◌, inl, inr, true, leb, List, [], ◌∷◌, ◌++◌, keep,
  length, take, All, arith, Bool-cases, nanos,
}
use ai_limit_notifier.Store.Event.{Event, pending, sending, Engine, query}
use ai_limit_notifier.Store.Rows.{All-imp}
use ai_limit_notifier.Store.Claim.{
  due, stale_sending_timeout, insert_by_attempt, order_by_attempt, due_events,
}

-- A pending event whose next attempt has come, or one that was claimed two minutes ago or more
-- and never finished.
abbrev pub IsDue : ℕ → Event → Type 0
IsDue now r =
    ((r.status ≡ pending) × (r.next_attempt_at * nanos ≤ now))
    ⊎ ((r.status ≡ sending) × (r.updated_at * nanos + stale_sending_timeout ≤ now))

pub due_iff : (now : ℕ) (r : Event) → (due now r ≡ true) ↔ IsDue now r
due_iff now r = (λ h. ground arith, λ v. ground arith)

abbrev pub IsOrdered : List Event → Type 0
IsOrdered [] = Unit {0}
IsOrdered (r ∷ rs) = All (λ s. r.next_attempt_at ≤ s.next_attempt_at) rs × IsOrdered rs

insert-All :
    (n : ℕ) (r : Event) (rs : List Event)
    → n ≤ r.next_attempt_at
    → All (λ s. n ≤ s.next_attempt_at) rs
    → All (λ s. n ≤ s.next_attempt_at) (insert_by_attempt r rs)
unfolding insert_by_attempt
insert-All n r [] h a = (h, tt)
insert-All n r (s ∷ ss) h a = ground (arith, insert-All n r ss h a.1)

insert-IsOrdered : (r : Event) (rs : List Event) → IsOrdered rs → IsOrdered (insert_by_attempt r rs)
unfolding insert_by_attempt
insert-IsOrdered r [] o = (tt, tt)
insert-IsOrdered r (s ∷ ss) o = elim (Bool-cases (leb r.next_attempt_at s.next_attempt_at)) [
  | inl e ↦ rw e ((ground arith, All-imp ss (λ x h. ground arith) o.0), o)
  | inr e ↦ rw e (insert-All s.next_attempt_at r ss (ground arith) o.0, insert-IsOrdered r ss o.1)
]

order-IsOrdered : (rs : List Event) → IsOrdered (order_by_attempt rs)
unfolding order_by_attempt
order-IsOrdered [] = tt
order-IsOrdered (r ∷ rs) = insert-IsOrdered r (order_by_attempt rs) (order-IsOrdered rs)

insert-perm : (r : Event) (rs : List Event) → Perm (insert_by_attempt r rs) (r ∷ rs)
unfolding insert_by_attempt
insert-perm r [] = Perm.refl (r ∷ [])
insert-perm r (s ∷ ss) = elim (Bool-cases (leb r.next_attempt_at s.next_attempt_at)) [
  | inl e ↦ rw e (Perm.refl (r ∷ s ∷ ss))
  | inr e ↦ rw e (Perm.trans (Perm.cons s (insert-perm r ss)) (Perm.swap r s ss))
]

order-perm : (rs : List Event) → Perm (order_by_attempt rs) rs
unfolding order_by_attempt
order-perm [] = Perm.refl []
order-perm (r ∷ rs) = Perm.trans (insert-perm r (order_by_attempt rs)) (Perm.cons r (order-perm rs))

drop : ℕ → List Event → List Event
drop zero rs = rs
drop (suc n) [] = []
drop (suc n) (r ∷ rs) = drop n rs

take-drop : (n : ℕ) (rs : List Event) → take n rs ++ drop n rs ≡ rs
unfolding drop
take-drop zero rs = refl
take-drop (suc n) [] = refl
take-drop (suc n) (r ∷ rs) = rw (take-drop n rs)

length-take-drop : (n : ℕ) (rs : List Event) → (length (take n rs) ≡ n) ⊎ (drop n rs ≡ [])
unfolding drop
length-take-drop zero rs = inl refl
length-take-drop (suc n) [] = inr refl
length-take-drop (suc n) (r ∷ rs) = ground (arith, length-take-drop n rs)

-- The batch is the first part of an arrangement of the due rows, all of them and each once, by
-- the time of their next attempt. It has at most `limit` rows, and leaves rows out only if it has
-- that many.
pub due_events_lem :
    (db : Engine) (t : List Event) (now limit : ℕ)
    → (rest : List Event) × Perm (due_events db t now limit ++ rest) (keep (due now) t)
      × IsOrdered (due_events db t now limit ++ rest)
      × ((length (due_events db t now limit) ≡ limit) ⊎ (rest ≡ []))
unfolding due_events query
due_events_lem db t now limit =
    let rows = order_by_attempt (db.scan (keep (due now) t)) in
    (
      drop limit rows,
      rw (take-drop limit rows) (Perm.trans (order-perm _) (db.scan_perm _)),
      rw (take-drop limit rows) (order-IsOrdered _),
      length-take-drop limit rows,
    )
