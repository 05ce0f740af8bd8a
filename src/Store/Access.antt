-- ===== src/Store/Access.antt =====
-- Who is let in: issued codes, revoked devices and Telegram accounts (internal/server/store).
use ai_limit_notifier.Prelude.{
  ℕ, ◌+◌, ◌≤◌, ◌≡◌, ◌≢◌, refl, true, false, if◌then◌else◌, Text, List, [], ◌∷◌, ◌++◌, Option, none,
  some, update_where, any_row, find_first, keep, arith, Option-cases, inl, inr, find_first-update,
  find_first-append, find_first-append_some, find_first-test, find_first-exists, find_first-none,
  keep-none, keep-append,
}
use ai_limit_notifier.Prelude.Int.{ℤ}
use ai_limit_notifier.Store.Event.{same}
use ai_limit_notifier.Store.Users.{
  User, by_telegram, user_by_id, chat, telegram_user, set_telegram_chat_id, telegram_chat_id,
  find_or_create_telegram_user, user_by_telegram_id,
}
use ai_limit_notifier.Store.Devices.{
  Device, is_some, authenticate_device, by_hash, revoke, active_by_id, revoke_device, insert_device,
}
use ai_limit_notifier.Store.Pairing.{
  PairingCode, refused, invalid_pairing_code, code_by_id, by_verifier, create_pairing_code,
  invalidate_active_pairing_codes, consume, active_of, unconsumed, redeem_pairing_code, new_code,
  issue,
}
use ai_limit_notifier.Store.OneUse.{Attempt, redeem, spent_refused}

-- After the user's codes are invalidated and a new one is created, no older code of the user can
-- be redeemed.
pub replaced_refused :
    (hash : Text → Text) (t u : List PairingCode) (devices : List Device) (user v w new_id : Text)
    (now ttl : ℕ) (c : PairingCode) (a : Attempt)
    → create_pairing_code (invalidate_active_pairing_codes t user now) user v new_id now ttl
      ≡ some u
    → find_first (by_verifier w) t ≡ some c
    → c.user_id ≡ user
    → redeem hash (record { codes = u; devices = devices }) w a ≡ refused invalid_pairing_code
unfolding create_pairing_code invalidate_active_pairing_codes
replaced_refused hash t u devices user v w new_id now ttl c a h found own =
    spent_refused hash _ w a spent
  where
    old : List PairingCode
    old = update_where (active_of user) (consume now) t

    used : PairingCode
    used = if active_of user c then consume now c else c

    found_old : find_first (by_verifier w) old ≡ some used
    found_old =
        ground
          (arith, find_first-update (by_verifier w) (active_of user) (consume now) t (λ r. refl))

    spent :
        (d : PairingCode) × (find_first (by_verifier w) u ≡ some d) × (is_some d.consumed_at ≡ true)
    spent = (
      used,
      ground (
        arith,
        find_first-append_some (by_verifier w) old (new_code new_id user v now ttl ∷ []) used
            found_old,
      ),
      ground arith,
    )

create_pairing_code-some :
    (t u : List PairingCode) (user v new_id : Text) (now ttl : ℕ)
    → create_pairing_code t user v new_id now ttl ≡ some u
    → (any_row (code_by_id new_id) t ≡ false)
      × (any_row (by_verifier v) t ≡ false)
      × (t ++ new_code new_id user v now ttl ∷ [] ≡ u)
unfolding create_pairing_code
create_pairing_code-some t u user v new_id now ttl h = ground arith

module _ (t : List PairingCode) (user v new_id : Text) (now ttl : ℕ) where
  abbrev appended : List PairingCode
  appended = t ++ new_code new_id user v now ttl ∷ []

  new_code-found :
      any_row (by_verifier v) t ≡ false
      → find_first (by_verifier v) appended ≡ some (new_code new_id user v now ttl)
  unfolding find_first
  new_code-found h =
      ground (arith, find_first-append (by_verifier v) t (new_code new_id user v now ttl ∷ []))

  new_code-unconsumed :
      any_row (code_by_id new_id) t ≡ false
      → keep (unconsumed new_id) appended ≡ new_code new_id user v now ttl ∷ []
  unfolding keep
  new_code-unconsumed h = ground (
    arith,
    keep-append (unconsumed new_id) t (new_code new_id user v now ttl ∷ []),
    keep-none (code_by_id new_id) (unconsumed new_id) t h (λ r e. ground arith),
  )

issue-ne :
    (codes : List PairingCode) (user i raw : Text) (o : Option (List Device))
    → issue codes user i raw o ≢ refused invalid_pairing_code
unfolding issue
issue-ne codes user i raw none h = cc
issue-ne codes user i raw (some d) h = cc

-- The new code is not refused as an invalid code until its time has run out.
pub new_opens :
    (hash : Text → Text) (t u : List PairingCode) (devices : List Device) (user v new_id : Text)
    (now ttl : ℕ) (a : Attempt)
    → create_pairing_code (invalidate_active_pairing_codes t user now) user v new_id now ttl
      ≡ some u
    → a.at ≤ now + ttl
    → redeem hash (record { codes = u; devices = devices }) v a ≢ refused invalid_pairing_code
unfolding redeem_pairing_code
new_opens hash t u devices user v new_id now ttl a h intime e =
    let old = invalidate_active_pairing_codes t user now in
    let (fresh_id, fresh_verifier, made) = create_pairing_code-some old u user v new_id now ttl h in
    ground (
      arith,
      new_code-found old user v new_id now ttl fresh_verifier,
      new_code-unconsumed old user v new_id now ttl fresh_id,
      issue-ne (update_where (unconsumed new_id) (consume a.at) u) user a.new_id a.raw
          (insert_device devices a.new_id user (hash a.raw) a.at),
    )

-- After a revocation the tokens of the revoked device are refused, and every other token gives what
-- it gave before.
pub authenticate-revoke :
    (hash : Text → Text) (t : List Device) (device_id raw : Text) (now : ℕ)
    → authenticate_device hash (revoke_device t device_id now) raw
      ≡ elim (authenticate_device hash t raw) [
        | none ↦ none
        | some d ↦ if same d.id device_id then none else some d
      ]
unfolding authenticate_device revoke_device
authenticate-revoke hash t device_id raw now = ground (
  arith,
  find_first-update (by_hash (hash raw)) (active_by_id device_id) (revoke now) t (λ r. refl),
)

-- After a successful FindOrCreateTelegramUser the account is found as the user that was returned,
-- whose destination is the chat that was given.
pub find_or_create_lem :
    (sprint : ℤ → Text) (t u : List User) (n chat_id : ℤ) (new_id i : Text) (now : ℕ)
    → find_or_create_telegram_user sprint t n chat_id new_id now ≡ some (u, i)
    → (user_by_telegram_id u n ≡ some i) × (telegram_chat_id u i ≡ some (sprint chat_id))
unfolding find_first find_or_create_telegram_user user_by_telegram_id telegram_chat_id
    set_telegram_chat_id
find_or_create_lem sprint t u n chat_id new_id i now h =
    elim (Option-cases (find_first (by_telegram n) t)) [
      | inr (x, e) ↦
          let (y, found) =
            find_first-exists (by_telegram n) (user_by_id x.id) t x e (ground arith) in
          (
            ground (
              arith,
              find_first-update (by_telegram n) (user_by_id x.id) (chat (sprint chat_id)) t
                  (λ r. refl),
            ),
            ground (
              arith,
              find_first-test (user_by_id x.id) t y found,
              find_first-update (user_by_id x.id) (user_by_id x.id) (chat (sprint chat_id)) t
                  (λ r. refl),
            ),
          )
      | inl e ↦
          let new = telegram_user new_id now n (sprint chat_id) in
          let taken : any_row (user_by_id new_id) t ≡ false = ground arith in
          (
            ground (
              arith,
              find_first-append (by_telegram n) t (new ∷ []) (find_first-none (by_telegram n) t e),
            ),
            ground (arith, find_first-append (user_by_id new_id) t (new ∷ []) taken),
          )
    ]
