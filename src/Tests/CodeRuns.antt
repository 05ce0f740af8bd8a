-- ===== src/Tests/CodeRuns.antt =====
-- Runs of /start of the bot.
use ai_limit_notifier.Prelude.{
  ℕ, ◌*◌, ◌≤◌, ◌≡◌, ◌≢◌, refl, true, false, Text, ascii, List, [], ◌∷◌, some, find_first, minute,
  arith,
}
use ai_limit_notifier.Prelude.Int.{ℤ, pos}
use ai_limit_notifier.Store.Users.{find_or_create_telegram_user, user_by_telegram_id}
use ai_limit_notifier.Store.Pairing.{
  PairingCode, new_code, refused, invalid_pairing_code, create_pairing_code,
  invalidate_active_pairing_codes,
}
use ai_limit_notifier.Store.OneUse.{Attempt, redeem}
use ai_limit_notifier.Telegram.Bot.{
  BotTables, BotCalls, Handled, handle_start, found_user, created_code,
}
use ai_limit_notifier.Telegram.Issued.{
  started, verifier, sent_code, handle_start_replaces, handle_start_opens,
}
use ai_limit_notifier.Tests.Sample.{at_second, ann, ann_user}

abbrev calls : BotCalls
calls = record {
  find_fails = false;
  invalidate_fails = false;
  random_fails = false;
  create_fails = false;
  list_fails = false;
  revoke_fails = false;
  user_now = at_second 300;
  code_now = at_second 300;
  revoke_now = at_second 300;
  new_user = ascii "u2";
  new_code_id = ascii "c2";
  random = [];
}

abbrev older : PairingCode
older = new_code (ascii "c1") ann (ascii "older") (at_second 100) (10 * minute)

abbrev tables : BotTables
tables = record { users = ann_user ∷ []; codes = older ∷ []; devices = [] }

abbrev as_is : Text → Text
as_is s = s

abbrev chat_text : ℤ → Text
chat_text n = ascii "77"

abbrev mac_of : Text → Text → Text
mac_of secret code = ascii "mac"

abbrev start : Handled
start =
    started chat_text as_is as_is (λ s. []) mac_of (λ n. []) [] (10 * minute) calls tables (pos 77)
      (pos 77)

abbrev attempt : Attempt
attempt = record { new_id = ascii "d2"; raw = ascii "raw"; at = at_second 301 }

told : start.1 ≢ []
unfolding find_first handle_start found_user find_or_create_telegram_user
    ai_limit_notifier.Store.Users.ℤ-discrete ai_limit_notifier.Prelude.ℕ_discrete created_code
    create_pairing_code ai_limit_notifier.Prelude.any_row invalidate_active_pairing_codes
    ai_limit_notifier.Prelude.update_where ai_limit_notifier.Prelude.text_discrete
    ai_limit_notifier.Store.Users.set_telegram_chat_id
told h = cc

known : user_by_telegram_id start.0.users (pos 77) ≡ some ann
unfolding user_by_telegram_id find_first handle_start found_user find_or_create_telegram_user
    ai_limit_notifier.Store.Users.ℤ-discrete ai_limit_notifier.Prelude.ℕ_discrete created_code
    create_pairing_code ai_limit_notifier.Prelude.any_row invalidate_active_pairing_codes
    ai_limit_notifier.Prelude.update_where ai_limit_notifier.Prelude.text_discrete
    ai_limit_notifier.Store.Users.set_telegram_chat_id
known = refl

handle_start_replaces_example :
    redeem as_is (record { codes = start.0.codes; devices = [] }) (ascii "older") attempt
    ≡ refused invalid_pairing_code
unfolding find_first ai_limit_notifier.Prelude.text_discrete ai_limit_notifier.Prelude.ℕ_discrete
handle_start_replaces_example =
    handle_start_replaces chat_text as_is as_is (λ s. []) mac_of (λ n. []) [] (10 * minute) calls
      as_is tables (pos 77) (pos 77) [] ann (ascii "older") older attempt told known refl refl

handle_start_opens_example :
    (start.1
      ≡ sent_code chat_text as_is as_is (λ s. []) mac_of (λ n. []) [] (10 * minute) calls (pos 77)
        ∷ [])
    × (redeem as_is
          (record { codes = start.0.codes; devices = [] })
          (verifier chat_text as_is as_is (λ s. []) mac_of (λ n. []) [] (10 * minute) calls)
          attempt
        ≢ refused invalid_pairing_code)
handle_start_opens_example =
    handle_start_opens chat_text as_is as_is (λ s. []) mac_of (λ n. []) [] (10 * minute) calls as_is
      tables (pos 77) (pos 77) [] attempt told (omega arith)
