-- ===== src/Prelude/Lists.antt =====
-- Lists measured by native numbers, and predicates on all entries of a list.
use Prim.Native.Nat.{ℕ, zero, suc, ◌+◌, ◌≤◌}
use mathlib.Core.Path.{◌≡◌, refl}
use mathlib.Core.Logic.{inl, inr}
use mathlib.Core.List.{List, [], ◌∷◌, ◌++◌}
use mathlib.Core.Bool.{Bool, true, false, ◌||◌}
use mathlib.Core.Option.{Option, none, some}
use native.Mathlib.Omega.{arith}
use ai_limit_notifier.Prelude.Tests.{if◌then◌else◌, Bool-cases}

module _ {ℓ} {A : Type ℓ} where
  abbrev pub length : List A → ℕ
  length [] = 0
  length (x ∷ xs) = suc (length xs)

  abbrev pub take : ℕ → List A → List A
  take zero xs = []
  take (suc n) [] = []
  take (suc n) (x ∷ xs) = x ∷ take n xs

  -- The rows for which a test holds, in their order.
  unfoldable pub keep : (A → Bool) → List A → List A
  keep p [] = []
  keep p (x ∷ xs) = if p x then x ∷ keep p xs else keep p xs

  -- `UPDATE … WHERE`
  unfoldable pub update_where : (A → Bool) → (A → A) → List A → List A
  update_where p f [] = []
  update_where p f (r ∷ rs) = (if p r then f r else r) ∷ update_where p f rs

  unfoldable pub any_row : (A → Bool) → List A → Bool
  any_row p [] = false
  any_row p (r ∷ rs) = p r || any_row p rs

  unfoldable pub find_first : (A → Bool) → List A → Option A
  find_first p [] = none
  find_first p (r ∷ rs) = if p r then some r else find_first p rs

  pub length-append : (xs ys : List A) → length (xs ++ ys) ≡ length xs + length ys
  length-append [] ys = omega arith
  length-append (x ∷ xs) ys = omega (arith, length-append xs ys)

  pub length-take-le : (n : ℕ) (xs : List A) → length (take n xs) ≤ n
  length-take-le zero xs = omega arith
  length-take-le (suc n) [] = omega arith
  length-take-le (suc n) (x ∷ xs) = omega (arith, length-take-le n xs)

module _ {ℓ} {A : Type ℓ} where
  -- An update keeps the place of the first match of a test that it leaves alone.
  pub find_first-update :
      (q p : A → Bool) (f : A → A) (t : List A)
      → ((r : A) → q (f r) ≡ q r)
      → find_first q (update_where p f t)
        ≡ elim (find_first q t) [ none ↦ none | some r ↦ some (if p r then f r else r) ]
  unfolding find_first update_where
  find_first-update q p f [] h = refl
  find_first-update q p f (r ∷ rs) h = ground (arith, h r, find_first-update q p f rs h)

  pub find_first-append :
      (q : A → Bool) (t u : List A) → any_row q t ≡ false → find_first q (t ++ u) ≡ find_first q u
  unfolding find_first any_row
  find_first-append q [] u h = refl
  find_first-append q (r ∷ rs) u h = ground (arith, find_first-append q rs u)

  pub find_first-append_some :
      (q : A → Bool) (t u : List A) (r : A)
      → find_first q t ≡ some r
      → find_first q (t ++ u) ≡ some r
  unfolding find_first
  find_first-append_some q [] u r h = cc
  find_first-append_some q (x ∷ xs) u r h = ground (arith, find_first-append_some q xs u r)

  pub find_first-test : (q : A → Bool) (t : List A) (r : A) → find_first q t ≡ some r → q r ≡ true
  unfolding find_first
  find_first-test q [] r h = cc
  find_first-test q (x ∷ xs) r h = ground (arith, find_first-test q xs r)

  pub find_first-none : (q : A → Bool) (t : List A) → find_first q t ≡ none → any_row q t ≡ false
  unfolding find_first any_row
  find_first-none q [] h = refl
  find_first-none q (x ∷ xs) h = ground (arith, find_first-none q xs)

  pub find_first-exists :
      (p q : A → Bool) (t : List A) (r : A)
      → find_first p t ≡ some r
      → q r ≡ true
      → (s : A) × (find_first q t ≡ some s)
  unfolding find_first
  find_first-exists p q [] r h own = absurd (ground arith)
  find_first-exists p q (x ∷ xs) r h own = elim (Bool-cases (q x)) [
    | inl e ↦ (x, rw e)
    | inr e ↦ rw e (find_first-exists p q xs r (ground arith) own)
  ]

  -- Rows that none of a test's rows is among are left alone.
  pub keep-none :
      (p q : A → Bool) (t : List A)
      → any_row p t ≡ false
      → ((r : A) → q r ≡ true → p r ≡ true)
      → keep q t ≡ []
  unfolding any_row keep
  keep-none p q [] h imp = refl
  keep-none p q (r ∷ rs) h imp = ground (arith, keep-none p q rs (ground arith) imp, imp r)

  pub keep-append : (p : A → Bool) (t u : List A) → keep p (t ++ u) ≡ keep p t ++ keep p u
  unfolding keep
  keep-append p [] u = refl
  keep-append p (r ∷ rs) u = ground (arith, keep-append p rs u)

module _ {ℓ κ} {A : Type ℓ} (P : A → Type κ) where
  -- A predicate by recursion computes to tuples, which the tactics read and build.
  abbrev pub All : List A → Type κ
  All [] = Unit
  All (x ∷ xs) = P x × All xs
