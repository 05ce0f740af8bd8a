-- ===== src/Store/OneUse.antt =====
-- Redemptions of one pairing code (internal/server/store/pairing.go).
use ai_limit_notifier.Prelude.{
  ℕ, ◌⊎◌, ◌+◌, ◌≤◌, ◌≡◌, refl, Bool, true, false, if◌then◌else◌, Text, List, [], ◌∷◌, some, unix,
  update_where, find_first, arith, Option-cases, inl, inr, find_first-update, find_first-append,
}
use ai_limit_notifier.Store.Devices.{
  Device, is_some, insert_device, authenticate_device, by_hash, new_device,
}
use ai_limit_notifier.Store.Pairing.{
  PairingCode, Tables, Redeemed, Redemption, redeemed, refused, invalid_pairing_code, RedeemError,
  by_verifier, consume, unconsumed, issue, redeem_pairing_code,
}

-- One call of RedeemPairingCode: the clock, the generated identifier and the generated token.
pub record Attempt : Type 0 where
  pub at : ℕ
  pub new_id : Text
  pub raw : Text

abbrev pub tables_after : Tables → Redemption → Tables
tables_after t (redeemed r) = r.tables
tables_after t (refused e) = t

abbrev pub is_redeemed : Redemption → Bool
is_redeemed (redeemed r) = true
is_redeemed (refused e) = false

pub Redemption-cases :
    (r : Redemption) → ((x : Redeemed) × (r ≡ redeemed x)) ⊎ ((e : RedeemError) × (r ≡ refused e))
Redemption-cases (redeemed x) = inl (x, refl)
Redemption-cases (refused e) = inr (e, refl)

module _ (hash : Text → Text) where
  abbrev pub redeem : Tables → Text → Attempt → Redemption
  redeem t verifier a = redeem_pairing_code hash t verifier a.at a.new_id a.raw

  -- How many of a sequence of calls for one code succeed.
  pub redemptions : Tables → Text → List Attempt → ℕ
  redemptions t v [] = 0
  redemptions t v (a ∷ as') =
      let r = redeem t v a in
      (if is_redeemed r then 1 else 0) + redemptions (tables_after t r) v as'

  -- The code is in the table, and consumed.
  abbrev pub IsSpent : Text → List PairingCode → Type 0
  IsSpent v t =
      (c : PairingCode) × (find_first (by_verifier v) t ≡ some c) × (is_some c.consumed_at ≡ true)

  pub spent_refused :
      (t : Tables) (v : Text) (a : Attempt)
      → IsSpent v t.codes
      → redeem t v a ≡ refused invalid_pairing_code
  unfolding redeem_pairing_code
  spent_refused t v a (c, found, used) = rw (found, redeem_pairing_code) (rw used)

  consume-IsSpent :
      (t : List PairingCode) (v : Text) (c : PairingCode) (now : ℕ)
      → find_first (by_verifier v) t ≡ some c
      → is_some c.consumed_at ≡ false
      → IsSpent v (update_where (unconsumed c.id) (consume now) t)
  consume-IsSpent t v c now found fresh = (
    consume now c,
    ground (arith, find_first-update (by_verifier v) (unconsumed c.id) (consume now) t (λ r. refl)),
    refl,
  )

  -- What a successful call did: its code was there and unused, its time had not run out, and the
  -- device belongs to the code's user.
  pub redeem-inv :
      (t : Tables) (v : Text) (a : Attempt) (r : Redeemed)
      → redeem t v a ≡ redeemed r
      → (c : PairingCode) × (find_first (by_verifier v) t.codes ≡ some c)
        × (is_some c.consumed_at ≡ false)
        × (unix a.at ≤ c.expires_at)
        × (r.tables.codes ≡ update_where (unconsumed c.id) (consume a.at) t.codes)
        × (insert_device t.devices a.new_id c.user_id (hash a.raw) a.at ≡ some r.tables.devices)
        × (r.user ≡ c.user_id)
        × (r.device ≡ a.new_id)
        × (r.token ≡ a.raw)
  unfolding redeem_pairing_code issue
  redeem-inv t v a r h = elim (Option-cases (find_first (by_verifier v) t.codes)) [
    | inl e ↦ absurd (ground arith)
    | inr (c, e) ↦ (
      c,
      e,
      ground arith,
      ground arith,
      ground arith,
      ground arith,
      ground arith,
      ground arith,
      ground arith,
    )
  ]

  spent-redemptions :
      (t : Tables) (v : Text) (calls : List Attempt) → IsSpent v t.codes → redemptions t v calls ≡ 0
  unfolding redemptions
  spent-redemptions t v [] spent = refl
  spent-redemptions t v (a ∷ calls) spent =
      rw (spent_refused t v a spent) (ground (arith, spent-redemptions t v calls spent))

  redeemed-IsSpent :
      (t : Tables) (v : Text) (a : Attempt) (r : Redeemed)
      → redeem t v a ≡ redeemed r
      → IsSpent v r.tables.codes
  redeemed-IsSpent t v a r h =
      let (c, found, fresh, _, codes, _, _, _, _) = redeem-inv t v a r h in
      rw codes (consume-IsSpent t.codes v c a.at found fresh)

  -- However often a pairing code is redeemed, and at whatever times, at most one call succeeds.
  pub redemptions-le-one :
      (t : Tables) (v : Text) (calls : List Attempt) → redemptions t v calls ≤ 1
  unfolding redemptions
  redemptions-le-one t v [] = omega arith
  redemptions-le-one t v (a ∷ calls) = elim (Redemption-cases (redeem t v a)) [
    | inl (r, e) ↦
        rw e (omega (arith, spent-redemptions r.tables v calls (redeemed-IsSpent t v a r e)))
    | inr (x, e) ↦ rw e (omega (arith, redemptions-le-one t v calls))
  ]

  insert_device-last :
      (t u : List Device) (new_id user h : Text) (now : ℕ)
      → insert_device t new_id user h now ≡ some u
      → find_first (by_hash h) u ≡ some (new_device new_id user h now)
  unfolding insert_device find_first
  insert_device-last t u new_id user h now e =
      ground (arith, find_first-append (by_hash h) t (new_device new_id user h now ∷ []))

  -- The token of a successful call authenticates at once, as the new device of the code's user.
  pub redeem-authenticates :
      (t : Tables) (v : Text) (a : Attempt) (r : Redeemed)
      → redeem t v a ≡ redeemed r
      → (c : PairingCode) × (find_first (by_verifier v) t.codes ≡ some c)
        × (authenticate_device hash r.tables.devices r.token
            ≡ some (new_device r.device c.user_id (hash a.raw) a.at))
  unfolding authenticate_device
  redeem-authenticates t v a r h =
      let (c, found, fresh, intime, codes, inserted, user, device, token) = redeem-inv t v a r h in
      (
        c,
        found,
        ground (
          arith,
          insert_device-last t.devices r.tables.devices a.new_id c.user_id (hash a.raw) a.at
              inserted,
        ),
      )
