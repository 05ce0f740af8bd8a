-- ===== src/Telegram/Ownership.antt =====
-- What a chat can do to devices and codes.
use mathlib.Core.Path.{subst}
use ai_limit_notifier.Prelude.{
  ℕ, ◌≡◌, ◌≢◌, ◌∙◌, sym, refl, ap, Bool, true, false, not, ◌||◌, if◌then◌else◌, Text, ascii, List,
  [], ◌∷◌, Option, none, some, arith, find_first, find_first-update, find_first-test, Bool-cases,
  inl, inr,
}
use ai_limit_notifier.Prelude.Int.{ℤ}
use ai_limit_notifier.Store.Event.{same}
use ai_limit_notifier.Store.Users.{User, user_by_telegram_id}
use ai_limit_notifier.Store.Devices.{
  Device, device_by_id, active_by_id, revoke, revoke_device, revoke_device_for_user,
}
use ai_limit_notifier.Store.Access.{find_or_create_lem}
use ai_limit_notifier.Installer.Quote.{has_prefix}
use ai_limit_notifier.Telegram.Bot.{
  Message, BotTables, BotCalls, Handled, found_user, handle_start, handle_devices, revoke_answer,
  revoke_for, revoke_words, handle_revoke, dispatch, handle_message, handle_update,
}

same_text→≡ : (a b : Text) → same a b ≡ true → a ≡ b
same_text→≡ a b h = ground arith

revoke_for_user-foreign :
    (t u : List Device) (user device i : Text) (now : ℕ) (d : Device)
    → find_first (device_by_id i) t ≡ some d
    → user ≢ d.user_id
    → revoke_device_for_user t user device now ≡ some u
    → find_first (device_by_id i) u ≡ some d
unfolding revoke_device_for_user revoke_device
revoke_for_user-foreign t u user device i now d found other h =
    elim (Bool-cases (active_by_id device d)) [
      | inl hit ↦
          let own : same d.id i ≡ true = find_first-test (device_by_id i) t d found in
          let e : i ≡ device =
            sym (same_text→≡ d.id i own) ∙ same_text→≡ d.id device (ground arith) in
          let there : find_first (device_by_id device) t ≡ some d =
            subst (λ j. find_first (device_by_id j) t ≡ some d) e found in
          absurd (ground arith)
      | inr miss ↦ ground (
        arith,
        find_first-update (device_by_id i) (active_by_id device) (revoke now) t (λ r. refl),
      )
    ]

module _ (sprint : ℤ → Text) (trim upper : Text → Text) (fields : Text → List Text)
    (mac : Text → Text → Text) (date : ℕ → Text) (secret : Text) (ttl : ℕ) (c : BotCalls) where
  abbrev pub handled : BotTables → Option Message → Handled
  handled = handle_update sprint trim upper fields mac date secret ttl c

  abbrev pub found : BotTables → ℤ → ℤ → Option (List User × Text)
  found = found_user sprint trim upper fields mac date secret ttl c

  pub found-owner :
      (s : BotTables) (n chat : ℤ) (users : List User) (user : Text)
      → found s n chat ≡ some (users, user)
      → user_by_telegram_id users n ≡ some user
  unfolding found_user
  found-owner s n chat users user h =
      (find_or_create_lem sprint s.users users n chat c.new_user user c.user_now (ground arith)).0

  module _ (n : ℤ) (i : Text) (d : Device) where
    -- The device is as it was, unless it is the sender's.
    abbrev Kept : Handled → Type 0
    Kept h =
        user_by_telegram_id h.0.users n ≢ some d.user_id
        → find_first (device_by_id i) h.0.devices ≡ some d

    start-Kept :
        (s : BotTables) (chat : ℤ)
        → find_first (device_by_id i) s.devices ≡ some d
        → Kept (handle_start sprint trim upper fields mac date secret ttl c s n chat)
    unfolding handle_start
    start-Kept s chat f = ground (arith, f)

    devices-Kept :
        (s : BotTables) (chat : ℤ)
        → find_first (device_by_id i) s.devices ≡ some d
        → Kept (handle_devices sprint trim upper fields mac date secret ttl c s n chat)
    unfolding handle_devices
    devices-Kept s chat f = ground (arith, f)

    if-Kept : (b : Bool) (x y : Handled) → Kept x → Kept y → Kept (if b then x else y)
    if-Kept true x y h k = h
    if-Kept false x y h k = k

    answer-Kept :
        (s : BotTables) (chat : ℤ) (user device : Text) (o : Option (List Device))
        → find_first (device_by_id i) s.devices ≡ some d
        → user_by_telegram_id s.users n ≡ some user
        → revoke_device_for_user s.devices user device c.revoke_now ≡ o
        → Kept (revoke_answer sprint trim upper fields mac date secret ttl c s chat o)
    unfolding revoke_answer
    answer-Kept s chat user device none f owner e not_own = f
    answer-Kept s chat user device (some u) f owner e not_own =
        revoke_for_user-foreign s.devices u user device i c.revoke_now d f
          (λ h. not_own (owner ∙ ap some h)) e

    revoke_for-Kept :
        (s : BotTables) (chat : ℤ) (device : Text) (o : Option (List User × Text))
        → find_first (device_by_id i) s.devices ≡ some d
        → ((users : List User) (user : Text)
            → o ≡ some (users, user)
            → user_by_telegram_id users n ≡ some user)
        → Kept (revoke_for sprint trim upper fields mac date secret ttl c s chat device o)
    unfolding revoke_for
    revoke_for-Kept s chat device none f owner not_own = f
    revoke_for-Kept s chat device (some (users, user)) f owner not_own =
        let s' : BotTables = record s { users = users } in
        let o = revoke_device_for_user s.devices user device c.revoke_now in
        if-Kept c.revoke_fails (s', [])
          (revoke_answer sprint trim upper fields mac date secret ttl c s' chat o) (λ h. f)
          (answer-Kept s' chat user device o f (owner users user refl) refl) not_own

    revoke_words-Kept :
        (s : BotTables) (chat : ℤ) (words : List Text)
        → find_first (device_by_id i) s.devices ≡ some d
        → Kept (revoke_words sprint trim upper fields mac date secret ttl c s n chat words)
    unfolding revoke_words
    revoke_words-Kept s chat [] f not_own = f
    revoke_words-Kept s chat (x ∷ []) f not_own = f
    revoke_words-Kept s chat (x ∷ y ∷ z ∷ ws) f not_own = f
    revoke_words-Kept s chat (x ∷ device ∷ []) f not_own =
        revoke_for-Kept s chat device (found s n chat) f
          (λ users user. found-owner s n chat users user) not_own

    dispatch-Kept :
        (s : BotTables) (chat : ℤ) (text : Text)
        → find_first (device_by_id i) s.devices ≡ some d
        → Kept (dispatch sprint trim upper fields mac date secret ttl c s n chat text)
    unfolding dispatch handle_revoke
    dispatch-Kept s chat text f =
        let is_revoke = same text (ascii "/revoke") || has_prefix text (ascii "/revoke ") in
        let revoked = handle_revoke sprint trim upper fields mac date secret ttl c s n chat text in
        let listed = handle_devices sprint trim upper fields mac date secret ttl c s n chat in
        let rest : Handled = if is_revoke then revoked else (s, []) in
        let others : Handled = if same text (ascii "/devices") then listed else rest in
        if-Kept (same text (ascii "/start") || has_prefix text (ascii "/start "))
          (handle_start sprint trim upper fields mac date secret ttl c s n chat) others
          (start-Kept s chat f)
          (if-Kept (same text (ascii "/devices")) listed rest (devices-Kept s chat f)
            (if-Kept is_revoke revoked (s, []) (revoke_words-Kept s chat (fields text) f) (λ h. f)))

    message-Kept :
        (s : BotTables) (m : Message)
        → find_first (device_by_id i) s.devices ≡ some d
        → Kept (handle_message sprint trim upper fields mac date secret ttl c s m (some n))
    unfolding handle_message
    message-Kept s m f =
        if-Kept (not (same m.chat_type (ascii "private"))) (s, [])
          (dispatch sprint trim upper fields mac date secret ttl c s n m.chat_id (trim m.text))
          (λ h. f) (dispatch-Kept s m.chat_id (trim m.text) f)

  -- A message changes no device of another user: a device stays as it was, unless the sender's
  -- Telegram account is, after the message, the account of the device's user.
  pub handle_update-foreign :
      (s : BotTables) (m : Message) (n : ℤ) (i : Text) (d : Device)
      → m.from_id ≡ some n
      → find_first (device_by_id i) s.devices ≡ some d
      → user_by_telegram_id (handled s (some m)).0.users n ≢ some d.user_id
      → find_first (device_by_id i) (handled s (some m)).0.devices ≡ some d
  unfolding handle_update
  handle_update-foreign s m n i d e f =
      subst (λ o. Kept n i d (handle_message sprint trim upper fields mac date secret ttl c s m o))
        (sym e) (message-Kept n i d s m f)
