-- ===== src/Tests/BotRuns.antt =====
-- Runs of the Telegram side.
use ai_limit_notifier.Prelude.{
  ℕ, ◌+◌, ◌*◌, ◌≤◌, ◌<◌, ◌≡◌, ◌≢◌, ◌↔◌, ◌∙◌, sym, refl, Bool, true, false, Text, ascii, List, [],
  ◌∷◌, Option, none, some, second, minute, find_first, arith,
}
use ai_limit_notifier.Prelude.Int.{ℤ, pos}
use ai_limit_notifier.Store.Users.{user_by_telegram_id}
use ai_limit_notifier.Store.Devices.{device_by_id}
use ai_limit_notifier.Scheduler.{Calls}
use ai_limit_notifier.Telegram.Send.{TelegramResponse, answered, send_message}
use ai_limit_notifier.Telegram.Bot.{Message, BotTables, BotCalls, handle_update}
use ai_limit_notifier.Telegram.Ownership.{handled, handle_update-foreign}
use ai_limit_notifier.Telegram.Polling.{
  UpdatesAnswer, Turn, Handler, BotRun, get_updates, bot_start, bot_run,
}
use ai_limit_notifier.Telegram.Offsets.{Descending, Promised, bot_run-once}
use ai_limit_notifier.Tests.Sample.{at_second, ann_user, laptop}

abbrev calls : BotCalls
calls = record {
  find_fails = false;
  invalidate_fails = false;
  random_fails = false;
  create_fails = false;
  list_fails = false;
  revoke_fails = false;
  user_now = at_second 10;
  code_now = at_second 10;
  revoke_now = at_second 10;
  new_user = ascii "u2";
  new_code_id = ascii "c1";
  random = [];
}

abbrev tables : BotTables
tables = record { users = ann_user ∷ []; codes = []; devices = laptop ∷ [] }

-- Somebody else's message about the laptop.
abbrev stranger : Message
stranger = record {
  from_id = some (pos 99);
  chat_id = pos 99;
  chat_type = ascii "private";
  text = ascii "/revoke d1";
}

abbrev as_is : Text → Text
as_is s = s

abbrev two_words : Text → List Text
two_words s = ascii "/revoke" ∷ ascii "d1" ∷ []

abbrev keyed : Text → Text → Text
keyed secret code = code

abbrev number : ℤ → Text
number n = ascii "99"

stranger_found :
    user_by_telegram_id
      (handled number as_is as_is two_words keyed
        (λ n. [])
        []
        (10 * minute)
        calls
        tables
        (some stranger)).0.users
      (pos 99)
    ≡ some (ascii "u2")
unfolding user_by_telegram_id find_first handle_update ai_limit_notifier.Telegram.Bot.handle_message
    ai_limit_notifier.Prelude.text_discrete ai_limit_notifier.Prelude.ℕ_discrete
    ai_limit_notifier.Telegram.Bot.dispatch ai_limit_notifier.Installer.Quote.has_prefix
    ai_limit_notifier.Telegram.Bot.handle_revoke ai_limit_notifier.Telegram.Bot.revoke_words
    ai_limit_notifier.Telegram.Bot.revoke_for ai_limit_notifier.Telegram.Bot.found_user
    ai_limit_notifier.Store.Users.find_or_create_telegram_user
    ai_limit_notifier.Store.Users.ℤ-discrete ai_limit_notifier.Prelude.any_row
    ai_limit_notifier.Telegram.Bot.revoke_answer
    ai_limit_notifier.Store.Devices.revoke_device_for_user ai_limit_notifier.Prelude.update_where
    ai_limit_notifier.Store.Devices.revoke_device
stranger_found = refl

stranger_known :
    user_by_telegram_id
      (handled number as_is as_is two_words keyed
        (λ n. [])
        []
        (10 * minute)
        calls
        tables
        (some stranger)).0.users
      (pos 99)
    ≢ some laptop.user_id
stranger_known h =
    let clash : some (ascii "u2") ≡ some laptop.user_id = sym stranger_found ∙ h in ground arith

handle_update-foreign_example :
    find_first
      (device_by_id (ascii "d1"))
      (handled number as_is as_is two_words keyed
        (λ n. [])
        []
        (10 * minute)
        calls
        tables
        (some stranger)).0.devices
    ≡ some laptop
unfolding find_first ai_limit_notifier.Prelude.text_discrete ai_limit_notifier.Prelude.ℕ_discrete
handle_update-foreign_example =
    handle_update-foreign number as_is as_is two_words keyed (λ n. []) [] (10 * minute) calls tables
      stranger (pos 99) (ascii "d1") laptop refl refl stranger_known

abbrev slow_down : TelegramResponse
slow_down = record { is_ok = false; retry_after = 7 }

abbrev delivery : Calls
delivery = record {
  claim_fails = false;
  chat_fails = false;
  covered_fails = false;
  weekly_fails = false;
  mark_fails = false;
  record_fails = false;
  claim_at = at_second 5060;
  mark_at = at_second 5061;
  next_at = at_second 5061;
  retry_at = at_second 5061;
  record_at = at_second 5061;
  send = λ destination message. send_message (answered 429 (some slow_down));
}

-- The bot with these parameters.
abbrev answering : Handler
answering c t m = handle_update number as_is as_is two_words keyed (λ n. []) [] (10 * minute) c t m

abbrev two_updates : Turn
two_updates = record {
  answer = λ n. UpdatesAnswer.answered 200 (
      some (record {
        updates_ok = true;
        parameters = none;
        result =
            record { update_id = n; message = some stranger }
            ∷ record { update_id = n + 2; message = none }
            ∷ [];
      }));
  calls = λ i. calls;
  save_fails = λ i. true;
}

abbrev asked_to_wait : Turn
asked_to_wait = record {
  answer = λ n.
      UpdatesAnswer.answered 429
        (some (record { updates_ok = false; parameters = some 7; result = [] }));
  calls = λ i. calls;
  save_fails = λ i. false;
}

two_updates-Promised : Promised two_updates
unfolding get_updates
two_updates-Promised n = (omega arith, (omega arith, tt))

asked_to_wait-Promised : Promised asked_to_wait
unfolding get_updates
asked_to_wait-Promised n = tt

abbrev three_turns : BotRun
three_turns =
    bot_run answering (bot_start false 5 tables) (two_updates ∷ asked_to_wait ∷ two_updates ∷ [])

bot_run-once_example :
    Descending three_turns.offset three_turns.handled
    × (second ≤ three_turns.backoff)
    × (three_turns.backoff ≤ 5 * minute)
bot_run-once_example =
    bot_run-once answering false 5 tables (two_updates ∷ asked_to_wait ∷ two_updates ∷ [])
      (two_updates-Promised, (asked_to_wait-Promised, (two_updates-Promised, tt)))
