-- ===== src/Api/Linked.antt =====
-- What an answer of the pairing endpoint promises.
use ai_limit_notifier.Prelude.{
  ℕ, ◌≤◌, ◌≡◌, ◌≢◌, refl, true, false, Text, some, inl, inr, ◌⊎◌, arith, find_first, unix,
}
use ai_limit_notifier.Store.Devices.{new_device, authenticate_device, is_some}
use ai_limit_notifier.Store.Pairing.{
  PairingCode, Tables, Redemption, redeemed, refused, invalid_pairing_code, insert_failed,
  redeem_pairing_code, by_verifier,
}
use ai_limit_notifier.Store.OneUse.{Attempt, redeem-inv, redeem-authenticates}
use ai_limit_notifier.Api.Reply.{
  Reply, linked, failure, Refusal, Body, decoded, too_large, malformed, trailing,
}
use ai_limit_notifier.Auth.{validate_pairing_code_format}
use ai_limit_notifier.Api.Pair.{PairRequest, check_pair, check_pair_body, answer_pair, handle_pair}

-- The code was free and in time, and the token it is answered by is the new device's.
abbrev pub Pairs : (Text → Text) → Tables → Text → ℕ → Text → Text → Tables → Text → Text → Type 0
Pairs hash t verifier now new_id raw u device token =
    (c : PairingCode) × (find_first (by_verifier verifier) t.codes ≡ some c)
    × (is_some c.consumed_at ≡ false)
    × (unix now ≤ c.expires_at)
    × (authenticate_device hash u.devices token ≡ some (new_device device c.user_id (hash raw) now))

module _ (upper trim : Text → Text) (mac : Text → Text → Text) (hash : Text → Text) (secret : Text)
    (t : Tables) (content_type : Text) (body : Body PairRequest) (now : ℕ) (new_id raw : Text) where
  abbrev pair_answer : Tables × Reply
  pair_answer = handle_pair upper trim mac hash secret t content_type body now new_id raw

  abbrev paired : Refusal ⊎ Text → Tables × Reply
  paired c = elim c [
    | inl (status, code, detail) ↦ (t, failure status code detail)
    | inr normalized ↦
        answer_pair t (redeem_pairing_code hash t (mac secret normalized) now new_id raw)
  ]

  check_pair-format :
      (req : PairRequest) (n : Text)
      → check_pair upper trim req ≡ inr n
      → validate_pairing_code_format n ≡ true
  unfolding check_pair
  check_pair-format req n h = ground arith

  check_pair_body-format :
      (b : Body PairRequest) (n : Text)
      → check_pair_body upper trim secret content_type b ≡ inr n
      → validate_pairing_code_format n ≡ true
  unfolding check_pair_body
  check_pair_body-format (decoded req) n h = ground (arith, check_pair-format req n)
  check_pair_body-format too_large n h = absurd (ground arith)
  check_pair_body-format malformed n h = absurd (ground arith)
  check_pair_body-format (trailing req) n h = absurd (ground arith)

  redeemed-Pairs :
      (verifier : Text) (r : Redemption) (device token : Text)
      → redeem_pairing_code hash t verifier now new_id raw ≡ r
      → (answer_pair t r).1 ≡ linked device token
      → Pairs hash t verifier now new_id raw (answer_pair t r).0 device token
  unfolding answer_pair
  redeemed-Pairs verifier (redeemed r) device token e h =
      let a : Attempt = record { at = now; new_id = new_id; raw = raw } in
      let (c, found, fresh, intime, _, _, _, _, _) = redeem-inv hash t verifier a r e in
      let (c', found', auth) = redeem-authenticates hash t verifier a r e in
      (c, found, fresh, intime, ground arith)
  redeemed-Pairs verifier (refused invalid_pairing_code) device token e h = cc
  redeemed-Pairs verifier (refused insert_failed) device token e h = cc

  -- A device is linked only by a code that was well formed, known, not yet consumed and not
  -- expired, and the token of the answer authenticates at once as a new device of the code's user.
  pub pair-linked :
      (device token : Text)
      → pair_answer.1 ≡ linked device token
      → (normalized : Text) × (check_pair_body upper trim secret content_type body ≡ inr normalized)
        × (validate_pairing_code_format normalized ≡ true)
        × Pairs hash t (mac secret normalized) now new_id raw pair_answer.0 device token
  unfolding handle_pair
  pair-linked device token h =
      let (n, e, pairs) = checked (check_pair_body upper trim secret content_type body) h in
      (n, e, check_pair_body-format body n e, pairs)
    where
      checked :
          (c : Refusal ⊎ Text)
          → (paired c).1 ≡ linked device token
          → (normalized : Text) × (c ≡ inr normalized)
            × Pairs hash t (mac secret normalized) now new_id raw (paired c).0 device token
      checked (inl r) h = cc
      checked (inr n) h = (
        n,
        refl,
        redeemed-Pairs (mac secret n) (redeem_pairing_code hash t (mac secret n) now new_id raw)
            device token refl h,
      )

  -- Every answer that links no device leaves codes and devices as they were.
  pub pair-refused :
      ((device token : Text) → pair_answer.1 ≢ linked device token) → pair_answer.0 ≡ t
  unfolding handle_pair answer_pair
  pair-refused h = checked (check_pair_body upper trim secret content_type body) h
    where
      settled :
          (r : Redemption)
          → ((device token : Text) → (answer_pair t r).1 ≢ linked device token)
          → (answer_pair t r).0 ≡ t
      settled (redeemed r) h = absurd (h r.device r.token refl)
      settled (refused invalid_pairing_code) h = refl
      settled (refused insert_failed) h = refl

      checked :
          (c : Refusal ⊎ Text)
          → ((device token : Text) → (paired c).1 ≢ linked device token)
          → (paired c).0 ≡ t
      checked (inl r) h = refl
      checked (inr n) h = settled (redeem_pairing_code hash t (mac secret n) now new_id raw) h
