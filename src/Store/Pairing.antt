-- ===== src/Store/Pairing.antt =====
-- internal/server/store/pairing.go: pairing codes, their invalidation and their redemption.
use ai_limit_notifier.Prelude.{
  ℕ, ◌+◌, Bool, not, ◌&&◌, ◌||◌, ◌==◌, if◌then◌else◌, Text, List, [], ◌∷◌, ◌++◌, Option, none, some,
  unix, update_where, any_row, find_first, keep, length, ltb,
}
use ai_limit_notifier.Store.Event.{same}
use ai_limit_notifier.Store.Devices.{Device, is_some, insert_device}

pub record PairingCode : Type 0 where
  pub id : Text
  pub user_id : Text
  pub code_verifier : Text
  pub created_at : ℕ
  pub expires_at : ℕ
  pub consumed_at : Option ℕ

abbrev pub code_by_id : Text → PairingCode → Bool
code_by_id i c = same c.id i

abbrev pub by_verifier : Text → PairingCode → Bool
by_verifier v c = same c.code_verifier v

abbrev pub new_code : Text → Text → Text → ℕ → ℕ → PairingCode
new_code new_id user v now ttl = record {
  id = new_id;
  user_id = user;
  code_verifier = v;
  created_at = unix now;
  expires_at = unix (now + ttl);
  consumed_at = none;
}

-- `none` is a failed insert: a taken identifier or verifier.
unfoldable pub create_pairing_code :
    List PairingCode → Text → Text → Text → ℕ → ℕ → Option (List PairingCode)
create_pairing_code t user_id verifier new_id now ttl =
    if any_row (code_by_id new_id) t || any_row (by_verifier verifier) t
    then none
    else some (t ++ new_code new_id user_id verifier now ttl ∷ [])

abbrev pub consume : ℕ → PairingCode → PairingCode
consume now c = record c { consumed_at = some (unix now) }

abbrev pub active_of : Text → PairingCode → Bool
active_of user c = same c.user_id user && not (is_some c.consumed_at)

unfoldable pub invalidate_active_pairing_codes : List PairingCode → Text → ℕ → List PairingCode
invalidate_active_pairing_codes t user_id now = update_where (active_of user_id) (consume now) t

pub record Tables : Type 0 where
  pub codes : List PairingCode
  pub devices : List Device

pub record Redeemed : Type 0 where
  pub tables : Tables
  pub user : Text
  pub device : Text
  pub token : Text

pub data RedeemError : Type 0 where
  invalid_pairing_code insert_failed : RedeemError

pub data Redemption : Type 0 where
  redeemed : Redeemed → Redemption
  refused : RedeemError → Redemption

abbrev pub unconsumed : Text → PairingCode → Bool
unconsumed i c = code_by_id i c && not (is_some c.consumed_at)

unfoldable pub issue : List PairingCode → Text → Text → Text → Option (List Device) → Redemption
issue codes user new_id raw none = refused insert_failed
issue codes user new_id raw (some devices) = redeemed (record {
  tables = record { codes = codes; devices = devices };
  user = user;
  device = new_id;
  token = raw;
})

-- `RedeemPairingCode` in its one transaction. `new_id` and `raw` are the generated device
-- identifier and token, and `hash` is `auth.HashToken`.
unfoldable pub redeem_pairing_code : (Text → Text) → Tables → Text → ℕ → Text → Text → Redemption
redeem_pairing_code hash t verifier now new_id raw =
    elim (find_first (by_verifier verifier) t.codes) [
      | none ↦ refused invalid_pairing_code
      | some c ↦
          if is_some c.consumed_at || ltb c.expires_at (unix now)
          then refused invalid_pairing_code
          else if not (length (keep (unconsumed c.id) t.codes) == 1)
          then refused invalid_pairing_code
          else issue (update_where (unconsumed c.id) (consume now) t.codes) c.user_id new_id raw
              (insert_device t.devices new_id c.user_id (hash raw) now)
    ]
