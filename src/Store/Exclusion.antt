-- ===== src/Store/Exclusion.antt =====
-- ClaimEvent (internal/server/store/events.go) as a lock with a lease.
use ai_limit_notifier.Prelude.{
  update_where, any_row, ℕ, ◌+◌, ◌-◌, ◌≤◌, ◌<◌, ◌≡◌, refl, inl, inr, true, false, if◌then◌else◌,
  Text, List, [], ◌∷◌, keep, length, All, arith, Bool-cases, ==_iff, unix, second,
}
use ai_limit_notifier.Store.Event.{Event, sending, by_id}
use ai_limit_notifier.Store.Claim.{claim, claims, claim_event, stale_sending_timeout}
use ai_limit_notifier.Store.Distinct.{Distinct, id_of, Distinct-update}

-- Claims of one event by any number of deliverers, in the order in which SQLite serializes them.
pub wins : List Event → Text → List ℕ → ℕ
wins t i [] = 0
wins t i (now ∷ later) =
    let (t', won) = claim_event t i now in (if won then 1 else 0) + wins t' i later

-- Every row of the identifier was claimed at `start` or later.
abbrev pub Held : ℕ → Text → List Event → Type 0
Held start i = All λ r. by_id i r ≡ true → (r.status ≡ sending) × (unix start ≤ r.updated_at)

-- A claim keeps its holder from others for 119 seconds at least.
abbrev pub Lease : ℕ → List ℕ → Type 0
Lease start = All λ now. (start ≤ now) × (now < start + (stale_sending_timeout - second))

Held-refused :
    (start now : ℕ) (i : Text) (t : List Event)
    → now < start + (stale_sending_timeout - second)
    → Held start i t
    → keep (claims i now) t ≡ []
unfolding keep
Held-refused start now i [] h v = refl
Held-refused start now i (r ∷ rs) h v = ground (arith, v.0, Held-refused start now i rs h v.1)

Held-claim :
    (start now : ℕ) (i : Text) (t : List Event)
    → start ≤ now
    → Held start i t
    → Held start i (update_where (claims i now) (claim now) t)
unfolding update_where
Held-claim start now i [] h v = tt
Held-claim start now i (r ∷ rs) h v = (λ own. ground (arith, v.0), Held-claim start now i rs h v.1)

any_row-keep :
    (i : Text) (now : ℕ) (t : List Event) → any_row (by_id i) t ≡ false → keep (claims i now) t ≡ []
unfolding any_row keep
any_row-keep i now [] h = refl
any_row-keep i now (r ∷ rs) h = ground (arith, any_row-keep i now rs)

any_row-Held :
    (start : ℕ) (i : Text) (now : ℕ) (t : List Event)
    → any_row (by_id i) t ≡ false
    → Held start i (update_where (claims i now) (claim now) t)
unfolding any_row update_where
any_row-Held start i now [] h = tt
any_row-Held start i now (r ∷ rs) h =
    (λ own. ground arith, any_row-Held start i now rs (ground arith))

won-Held :
    (start now : ℕ) (i : Text) (t : List Event)
    → start ≤ now
    → Distinct id_of t
    → length (keep (claims i now) t) ≡ 1
    → Held start i (update_where (claims i now) (claim now) t)
unfolding update_where keep
won-Held start now i [] h d one = tt
won-Held start now i (r ∷ rs) h d one = elim (Bool-cases (by_id i r)) [
  | inl hit ↦
      let others : any_row (by_id i) rs ≡ false = ground arith in
      (λ own. ground (arith, any_row-keep i now rs), any_row-Held start i now rs others)
  | inr miss ↦ (λ own. ground arith, won-Held start now i rs h d.1 (ground arith))
]

Held-wins :
    (start : ℕ) (i : Text) (times : List ℕ) (t : List Event)
    → Lease start times
    → Held start i t
    → wins t i times ≡ 0
unfolding wins claim_event
Held-wins start i [] t l v = refl
Held-wins start i (now ∷ later) t l v = ground (
  arith,
  Held-refused start now i t l.0.1 v,
  Held-wins start i later _ l.1 (Held-claim start now i t l.0.0 v),
)

claim-Distinct :
    (t : List Event) (i : Text) (now : ℕ)
    → Distinct id_of t
    → Distinct id_of (claim_event t i now).0
unfolding claim_event
claim-Distinct t i now =
    Distinct-update id_of (claims i now) (claim now) t (λ r s. ground arith) (λ r s. ground arith)

-- On a table with unique identifiers, however many deliverers claim an event within 119 seconds,
-- and in whatever order, at most one of them gets it.
pub wins-le-one :
    (t : List Event) (i : Text) (start : ℕ) (times : List ℕ)
    → Distinct id_of t
    → Lease start times
    → wins t i times ≤ 1
unfolding wins
wins-le-one t i start [] d l = omega arith
wins-le-one t i start (now ∷ later) d l = elim (Bool-cases (claim_event t i now).1) [
  | inl won ↦
      rw won (omega (arith, Held-wins start i later (claim_event t i now).0 l.1 (claimed won)))
  | inr lost ↦ rw lost (
      omega
        (arith, wins-le-one (claim_event t i now).0 i start later (claim-Distinct t i now d) l.1))
]
  where
    claimed : (claim_event t i now).1 ≡ true → Held start i (claim_event t i now).0
    claimed won = unfold claim_event in won-Held start now i t l.0.0 d ((==_iff _ 1).0 won)
