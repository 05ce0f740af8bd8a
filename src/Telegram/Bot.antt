-- ===== src/Telegram/Bot.antt =====
-- handleUpdate and its commands, internal/server/telegrambot/bot.go. `sprint` is fmt.Sprint of an
-- int64, `trim`, `upper` and `fields` are functions of package strings, `mac` is
-- auth.PairingCodeVerifier and `date` formats a device's time of creation.
use ai_limit_notifier.Prelude.{
  ℕ, ◌/◌, Bool, not, ◌||◌, if◌then◌else◌, Text, ascii, utf8, List, [], ◌∷◌, ◌++◌, Option, none,
  some, minute,
}
use ai_limit_notifier.Prelude.Int.{ℤ, pos}
use ai_limit_notifier.Store.Event.{same}
use ai_limit_notifier.Store.Users.{User, find_or_create_telegram_user}
use ai_limit_notifier.Store.Devices.{Device, list_devices_for_user, revoke_device_for_user, is_some}
use ai_limit_notifier.Store.Pairing.{
  PairingCode, create_pairing_code, invalidate_active_pairing_codes,
}
use ai_limit_notifier.Auth.{generate_pairing_code, normalize_pairing_code}
use ai_limit_notifier.Installer.Quote.{has_prefix}

pub record Message : Type 0 where
  pub from_id : Option ℤ
  pub chat_id : ℤ
  pub chat_type : Text
  pub text : Text

-- The tables that the bot works on.
pub record BotTables : Type 0 where
  pub users : List User
  pub codes : List PairingCode
  pub devices : List Device

-- What the handling of one update meets: which calls of the store and of the random source fail,
-- the clock's readings, the generated identifiers and the random bytes.
pub record BotCalls : Type 0 where
  pub find_fails : Bool
  pub invalidate_fails : Bool
  pub random_fails : Bool
  pub create_fails : Bool
  pub list_fails : Bool
  pub revoke_fails : Bool
  pub user_now : ℕ
  pub code_now : ℕ
  pub revoke_now : ℕ
  pub new_user : Text
  pub new_code_id : Text
  pub random : Text

-- The tables after an update, and the texts sent to destinations.
abbrev pub Handled : Type 0
Handled = BotTables × List (Text × Text)

module _ (sprint : ℤ → Text) (trim upper : Text → Text) (fields : Text → List Text)
    (mac : Text → Text → Text) (date : ℕ → Text) (secret : Text) (ttl : ℕ) (c : BotCalls) where
  unfoldable pub found_user : BotTables → ℤ → ℤ → Option (List User × Text)
  found_user s n chat =
      if c.find_fails
      then none
      else find_or_create_telegram_user sprint s.users n chat c.new_user c.user_now

  abbrev pub start_message : Text → Text
  start_message code =
      ascii "AI Limit Notifier\n\nConnection code:\n"
      ++ code
      ++ ascii "\n\nOn your computer, run:\nai-limit-notifier link "
      ++ code
      ++ ascii "\n\nThe code is valid for "
      ++ sprint (pos (ttl / minute))
      ++ ascii " minutes and works once."

  abbrev pub pairing_code : Text
  pairing_code = generate_pairing_code c.random

  abbrev pub pairing_verifier : Text
  pairing_verifier = mac secret (normalize_pairing_code upper trim pairing_code)

  unfoldable pub created_code : List PairingCode → Text → Option (List PairingCode)
  created_code codes user =
      if c.create_fails
      then none
      else create_pairing_code codes user pairing_verifier c.new_code_id c.code_now ttl

  unfoldable pub handle_start : BotTables → ℤ → ℤ → Handled
  handle_start s n chat = elim (found_user s n chat) [
    | none ↦ (s, [])
    | some (users, user) ↦
        if c.invalidate_fails
        then (record s { users = users }, [])
        else let codes = invalidate_active_pairing_codes s.codes user c.code_now in
          if c.random_fails
          then (record s { users = users; codes = codes }, [])
          else elim (created_code codes user) [
            | none ↦ (record s { users = users; codes = codes }, [])
            | some made ↦ (
              record s { users = users; codes = made },
              (sprint chat, start_message pairing_code) ∷ [],
            )
          ]
  ]

  unfoldable pub device_lines : List Device → Text
  device_lines [] = []
  device_lines (d ∷ ds) =
      d.id
      ++ utf8 " — "
      ++ (if is_some d.revoked_at then ascii "revoked" else ascii "active")
      ++ ascii ", linked "
      ++ date d.created_at
      ++ ascii "\n"
      ++ device_lines ds

  abbrev pub devices_message : List Device → Text
  devices_message [] = ascii "No linked devices yet. Send /start to connect one."
  devices_message (d ∷ ds) =
      ascii "Linked devices:\n\n"
      ++ device_lines (d ∷ ds)
      ++ ascii "\nTo remove a device: /revoke <device-id>"

  unfoldable pub handle_devices : BotTables → ℤ → ℤ → Handled
  handle_devices s n chat = elim (found_user s n chat) [
    | none ↦ (s, [])
    | some (users, user) ↦ if c.list_fails then (record s { users = users }, []) else (
      record s { users = users },
      (sprint chat, devices_message (list_devices_for_user s.devices user)) ∷ [],
    )
  ]

  unfoldable pub revoke_answer : BotTables → ℤ → Option (List Device) → Handled
  revoke_answer s chat none = (s, (sprint chat, ascii "Device not found.") ∷ [])
  revoke_answer s chat (some devices) =
      (record s { devices = devices }, (sprint chat, ascii "Device revoked.") ∷ [])

  unfoldable pub revoke_for : BotTables → ℤ → Text → Option (List User × Text) → Handled
  revoke_for s chat device none = (s, [])
  revoke_for s chat device (some (users, user)) =
      if c.revoke_fails
      then (record s { users = users }, [])
      else revoke_answer (record s { users = users }) chat
          (revoke_device_for_user s.devices user device c.revoke_now)

  unfoldable pub revoke_words : BotTables → ℤ → ℤ → List Text → Handled
  revoke_words s n chat (command ∷ device ∷ []) = revoke_for s chat device (found_user s n chat)
  revoke_words s n chat _ =
      (s, (sprint chat, ascii "Usage: /revoke <device-id> (see /devices)") ∷ [])

  unfoldable pub handle_revoke : BotTables → ℤ → ℤ → Text → Handled
  handle_revoke s n chat text = revoke_words s n chat (fields text)

  unfoldable pub dispatch : BotTables → ℤ → ℤ → Text → Handled
  dispatch s n chat text =
      if same text (ascii "/start") || has_prefix text (ascii "/start ")
      then handle_start s n chat
      else if same text (ascii "/devices")
      then handle_devices s n chat
      else if same text (ascii "/revoke") || has_prefix text (ascii "/revoke ")
      then handle_revoke s n chat text
      else (s, [])

  unfoldable pub handle_message : BotTables → Message → Option ℤ → Handled
  handle_message s m none = (s, [])
  handle_message s m (some n) =
      if not (same m.chat_type (ascii "private"))
      then (s, [])
      else dispatch s n m.chat_id (trim m.text)

  -- `none` is an update without a message.
  unfoldable pub handle_update : BotTables → Option Message → Handled
  handle_update s none = (s, [])
  handle_update s (some m) = handle_message s m m.from_id
