-- ===== src/Store/Devices.antt =====
-- internal/server/store/devices.go. `hash` is `auth.HashToken`, SHA-256.
use ai_limit_notifier.Prelude.{
  ℕ, Bool, true, false, not, ◌&&◌, ◌||◌, if◌then◌else◌, Text, List, [], ◌∷◌, ◌++◌, Option, none,
  some, unix, update_where, any_row, find_first, keep, leb,
}
use ai_limit_notifier.Store.Event.{same}

pub record Device : Type 0 where
  pub id : Text
  pub user_id : Text
  pub token_hash : Text
  pub created_at : ℕ
  pub revoked_at : Option ℕ

abbrev pub device_by_id : Text → Device → Bool
device_by_id i d = same d.id i

abbrev pub by_hash : Text → Device → Bool
by_hash h d = same d.token_hash h

abbrev pub is_some {ℓ} : {A : Type ℓ} → Option A → Bool
is_some none = false
is_some (some a) = true

abbrev pub new_device : Text → Text → Text → ℕ → Device
new_device new_id user h now = record {
  id = new_id;
  user_id = user;
  token_hash = h;
  created_at = unix now;
  revoked_at = none;
}

-- `INSERT INTO devices`, which fails on a taken identifier or token hash.
unfoldable pub insert_device : List Device → Text → Text → Text → ℕ → Option (List Device)
insert_device t new_id user h now =
    if any_row (device_by_id new_id) t || any_row (by_hash h) t
    then none
    else some (t ++ new_device new_id user h now ∷ [])

-- `CreateDevice`, with the token that `auth.GenerateToken` made.
unfoldable pub create_device :
    (Text → Text) → List Device → Text → Text → Text → ℕ → Option (List Device × Text × Text)
create_device hash t user new_id raw now = elim (insert_device t new_id user (hash raw) now) [
  | none ↦ none
  | some t' ↦ some (t', new_id, raw)
]

-- `AuthenticateDevice`; `none` is ErrInvalidToken.
unfoldable pub authenticate_device : (Text → Text) → List Device → Text → Option Device
authenticate_device hash t raw = elim (find_first (by_hash (hash raw)) t) [
  | none ↦ none
  | some d ↦
      if not (same d.token_hash (hash raw))
      then none
      else if is_some d.revoked_at
      then none
      else some d
]

abbrev pub revoke : ℕ → Device → Device
revoke now d = record d { revoked_at = some (unix now) }

abbrev pub active_by_id : Text → Device → Bool
active_by_id i d = device_by_id i d && not (is_some d.revoked_at)

unfoldable pub revoke_device : List Device → Text → ℕ → List Device
revoke_device t device_id now = update_where (active_by_id device_id) (revoke now) t

-- `RevokeDeviceForUser`; `none` is ErrDeviceNotOwnedByUser.
unfoldable pub revoke_device_for_user : List Device → Text → Text → ℕ → Option (List Device)
revoke_device_for_user t user_id device_id now = elim (find_first (device_by_id device_id) t) [
  | none ↦ none
  | some d ↦ if not (same d.user_id user_id) then none else some (revoke_device t device_id now)
]

unfoldable pub insert_newest : Device → List Device → List Device
insert_newest d [] = d ∷ []
insert_newest d (e ∷ es) =
    if leb e.created_at d.created_at then d ∷ e ∷ es else e ∷ insert_newest d es

-- `ORDER BY created_at DESC`
unfoldable pub newest_first : List Device → List Device
unfolding insert_newest
newest_first [] = []
newest_first (d ∷ ds) = insert_newest d (newest_first ds)

unfoldable pub list_devices_for_user : List Device → Text → List Device
list_devices_for_user t user_id = newest_first (keep (λ d. same d.user_id user_id) t)
