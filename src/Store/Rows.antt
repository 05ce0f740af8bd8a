-- ===== src/Store/Rows.antt =====
-- Lemmas on the statements that the operations of the store are made of.
use mathlib.Core.List.{Mem, mem-cons, not-mem-nil}
use mathlib.Core.List.Perm
use mathlib.Core.Logic.Or
use mathlib.Core.Logic.{∥∥₁_prop}
use ai_limit_notifier.Prelude.{
  update_where, any_row, ◌≡◌, refl, inl, inr, Bool, true, false, ◌||◌, Text, List, [], ◌∷◌, ◌++◌,
  none, some, keep, All, arith, Bool-cases,
}
use ai_limit_notifier.Store.Event.{Event, same, Engine, query, query_row, head_row}

pub Bool-prop : {a b : Bool} → IsProp (a ≡ b)
Bool-prop {a} {b} = hlevel

pub same_self : (a : Text) → same a a ≡ true
same_self a = ground arith

-- A row in the table meets what all rows meet, where that is a test.
pub any_row-mem :
    (q : Event → Bool) (t : List Event) {c : Event} → Mem c t → q c ≡ true → any_row q t ≡ true
unfolding any_row
any_row-mem q [] m h = absurd (not-mem-nil m)
any_row-mem q (r ∷ rs) {c} m h =
    Or.elim Bool-prop (mem-cons.0 m) (λ e. ground arith)
      (λ m'. ground (arith, any_row-mem q rs {c = c} m' h))

pub keep-mem :
    (p : Event → Bool) (t : List Event) {c : Event} → Mem c (keep p t) → Mem c t × (p c ≡ true)
unfolding keep
keep-mem p [] m = absurd (not-mem-nil m)
keep-mem p (r ∷ rs) {c} m = elim (Bool-cases (p r)) [
  | inl e ↦
      Or.elim mem_and_test (mem-cons.0 (rw e at m)) (λ h. (mem-cons.1 (Or.inl h), rw h e))
        (λ m'. let (old, test) = keep-mem p rs {c = c} m' in (mem-cons.1 (Or.inr old), test))
  | inr e ↦ let (old, test) = keep-mem p rs {c = c} (rw e at m) in (mem-cons.1 (Or.inr old), test)
]
  where
    mem_and_test : IsProp (Mem c (r ∷ rs) × (p c ≡ true))
    mem_and_test = hlevel (∥∥₁_prop, Bool-prop)

-- A row that a query returns is in the table and passes the test.
pub query-mem :
    (db : Engine) (p : Event → Bool) (t : List Event) {c : Event}
    → Mem c (query db p t)
    → Mem c t × (p c ≡ true)
unfolding query
query-mem db p t m = keep-mem p t ((Perm.mem_iff (db.scan_perm (keep p t))).0 m)

head_row-mem : (rows : List Event) (c : Event) → head_row rows ≡ some c → Mem c rows
head_row-mem [] c h = cc
head_row-mem (r ∷ rs) c h = mem-cons.1 (Or.inl (ground arith))

pub query_row-mem :
    (db : Engine) (p : Event → Bool) (t : List Event) (c : Event)
    → query_row db p t ≡ some c
    → Mem c t × (p c ≡ true)
unfolding query_row
query_row-mem db p t c h = query-mem db p t (head_row-mem (query db p t) c h)

-- A query that returns no row: no row passes the test.
head_row-none : (rows : List Event) → head_row rows ≡ none → rows ≡ []
head_row-none [] h = refl
head_row-none (r ∷ rs) h = cc

keep-any_row : (p : Event → Bool) (t : List Event) → keep p t ≡ [] → any_row p t ≡ false
unfolding keep any_row
keep-any_row p [] h = refl
keep-any_row p (r ∷ rs) h = ground (arith, keep-any_row p rs)

pub query_row-none :
    (db : Engine) (p : Event → Bool) (t : List Event)
    → query_row db p t ≡ none
    → any_row p t ≡ false
unfolding query_row query
query_row-none db p t h =
    keep-any_row p t (Perm.eq-nil (Perm.symm (rw (head_row-none _ h) at (db.scan_perm (keep p t)))))

pub any_row-false_mem :
    (q : Event → Bool) (t : List Event) {c : Event} → any_row q t ≡ false → Mem c t → q c ≡ false
any_row-false_mem q t {c} h m = elim (Bool-cases (q c)) [
  | inl e ↦ cc (any_row-mem q t m e)
  | inr e ↦ e
]

-- An update that leaves a test alone leaves alone what the table says of it.
pub any_row-update :
    (q p : Event → Bool) (f : Event → Event) (t : List Event)
    → ((r : Event) → q (f r) ≡ q r)
    → any_row q (update_where p f t) ≡ any_row q t
unfolding any_row update_where
any_row-update q p f [] h = refl
any_row-update q p f (r ∷ rs) h = ground (arith, h r, any_row-update q p f rs h)

pub any_row-append :
    (q : Event → Bool) (t u : List Event) → any_row q (t ++ u) ≡ (any_row q t || any_row q u)
unfolding any_row
any_row-append q [] u = refl
any_row-append q (r ∷ rs) u = ground (arith, any_row-append q rs u)

pub All-of {ℓ} : {P : Event → Type ℓ} (t : List Event) → ((r : Event) → P r) → All P t
All-of [] h = tt
All-of (r ∷ rs) h = (h r, All-of rs h)

module _ {ℓ} (P : Event → Type ℓ) where
  pub All-update :
      (p : Event → Bool) (f : Event → Event) (t : List Event)
      → All (λ r. P r → p r ≡ true → P (f r)) t
      → All P t
      → All P (update_where p f t)
  unfolding update_where
  All-update p f [] h a = tt
  All-update p f (r ∷ rs) h a = elim (Bool-cases (p r)) [
    | inl e ↦ rw e (h.0 a.0 e, All-update p f rs h.1 a.1)
    | inr e ↦ rw e (a.0, All-update p f rs h.1 a.1)
  ]

  pub All-append : (t u : List Event) → All P t → All P u → All P (t ++ u)
  All-append [] u a b = b
  All-append (r ∷ rs) u a b = (a.0, All-append rs u a.1 b)

pub All-imp {ℓ κ} :
    {P : Event → Type ℓ} {Q : Event → Type κ} (t : List Event)
    → ((r : Event) → P r → Q r)
    → All P t
    → All Q t
All-imp [] h a = tt
All-imp (r ∷ rs) h a = (h r a.0, All-imp rs h a.1)
