-- ===== src/Telegram/Issued.antt =====
-- What the codes that /start sends are good for (internal/server/telegrambot/bot.go with
-- internal/server/store/pairing.go).
use ai_limit_notifier.Prelude.{
  ℕ, ◌+◌, ◌≤◌, ◌≡◌, ◌≢◌, ◌∙◌, sym, refl, ap, Text, List, [], ◌∷◌, Option, some, find_first, arith,
  Bool-cases, Option-cases, inl, inr,
}
use ai_limit_notifier.Prelude.Int.{ℤ}
use ai_limit_notifier.Store.Users.{User, user_by_telegram_id}
use ai_limit_notifier.Store.Devices.{Device}
use ai_limit_notifier.Store.Pairing.{
  PairingCode, refused, invalid_pairing_code, by_verifier, create_pairing_code,
  invalidate_active_pairing_codes,
}
use ai_limit_notifier.Store.OneUse.{Attempt, redeem}
use ai_limit_notifier.Store.Access.{replaced_refused, new_opens}
use ai_limit_notifier.Telegram.Bot.{
  BotTables, BotCalls, Handled, found_user, start_message, pairing_code, pairing_verifier,
  created_code, handle_start,
}
use ai_limit_notifier.Telegram.Ownership.{found-owner}

module _ (sprint : ℤ → Text) (trim upper : Text → Text) (fields : Text → List Text)
    (mac : Text → Text → Text) (date : ℕ → Text) (secret : Text) (ttl : ℕ) (c : BotCalls) where
  abbrev pub started : BotTables → ℤ → ℤ → Handled
  started = handle_start sprint trim upper fields mac date secret ttl c

  abbrev pub verifier : Text
  verifier = pairing_verifier sprint trim upper fields mac date secret ttl c

  abbrev pub sent_code : ℤ → Text × Text
  sent_code chat = (
    sprint chat,
    start_message sprint trim upper fields mac date secret ttl c
        (pairing_code sprint trim upper fields mac date secret ttl c),
  )

  abbrev found : BotTables → ℤ → ℤ → Option (List User × Text)
  found = found_user sprint trim upper fields mac date secret ttl c

  -- What has happened if /start sent a message.
  record Issued (s : BotTables) (n chat : ℤ) : Type 0 where
    users : List User
    user : Text
    made : List PairingCode
    owner : found s n chat ≡ some (users, user)
    created :
        create_pairing_code
          (invalidate_active_pairing_codes s.codes user c.code_now)
          user
          verifier
          c.new_code_id
          c.code_now
          ttl
        ≡ some made
    result : started s n chat ≡ (record s { users = users; codes = made }, sent_code chat ∷ [])

  start-Issued : (s : BotTables) (n chat : ℤ) → (started s n chat).1 ≢ [] → Issued s n chat
  unfolding handle_start created_code
  start-Issued s n chat told = elim (Option-cases (found s n chat)) [
    | inl e ↦ absurd (told (rw (e, handle_start) refl))
    | inr ((users, user), e) ↦ elim (Bool-cases c.invalidate_fails) [
      | inl f ↦ absurd (told (rw (e, f, handle_start) refl))
      | inr f ↦ elim (Bool-cases c.random_fails) [
        | inl g ↦ absurd (told (rw (e, f, g, handle_start) refl))
        | inr g ↦ elim (Bool-cases c.create_fails) [
          | inl k ↦ absurd (told (rw (e, f, g, k, handle_start) refl))
          | inr k ↦
              let codes = invalidate_active_pairing_codes s.codes user c.code_now in
              elim (Option-cases
                (create_pairing_code codes user verifier c.new_code_id c.code_now ttl)) [
                  | inl e' ↦ absurd (told (rw (e, f, g, k, e', handle_start) refl))
                  | inr (made, e') ↦ record {
                    users = users;
                    user = user;
                    made = made;
                    owner = e;
                    created = e';
                    result = rw (e, f, g, k, e', handle_start) refl;
                  }
                ]
        ]
      ]
    ]
  ]

  -- If /start sent a message, no code that the user had before can be redeemed.
  pub handle_start_replaces :
      (hash : Text → Text) (s : BotTables) (n chat : ℤ) (devices : List Device) (user w : Text)
      (code : PairingCode) (a : Attempt)
      → (started s n chat).1 ≢ []
      → user_by_telegram_id (started s n chat).0.users n ≡ some user
      → find_first (by_verifier w) s.codes ≡ some code
      → code.user_id ≡ user
      → redeem hash (record { codes = (started s n chat).0.codes; devices = devices }) w a
        ≡ refused invalid_pairing_code
  handle_start_replaces hash s n chat devices user w code a told known there own =
      let i = start-Issued s n chat told in
      let owner : some i.user ≡ some user =
        sym (
          found-owner sprint trim upper fields mac date secret ttl c s n chat i.users i.user
            i.owner)
        ∙ sym (ap (λ h. user_by_telegram_id h.0.users n) i.result)
        ∙ known in
      let codes : (started s n chat).0.codes ≡ i.made = ap (λ h. h.0.codes) i.result in
      rw codes (
        replaced_refused hash s.codes i.made devices i.user verifier w c.new_code_id c.code_now ttl
          code a i.created there (ground arith))

  -- If /start sent a message, it is the one with the code, and that code is not refused as an
  -- invalid code until its time has run out.
  pub handle_start_opens :
      (hash : Text → Text) (s : BotTables) (n chat : ℤ) (devices : List Device) (a : Attempt)
      → (started s n chat).1 ≢ []
      → a.at ≤ c.code_now + ttl
      → ((started s n chat).1 ≡ sent_code chat ∷ [])
        × (redeem hash (record { codes = (started s n chat).0.codes; devices = devices }) verifier a
            ≢ refused invalid_pairing_code)
  handle_start_opens hash s n chat devices a told intime =
      let i = start-Issued s n chat told in
      let codes : (started s n chat).0.codes ≡ i.made = ap (λ h. h.0.codes) i.result in
      (
        ap (λ h. h.1) i.result,
        rw codes (
            new_opens hash s.codes i.made devices i.user verifier c.new_code_id c.code_now ttl a
              i.created intime),
      )
