-- ===== src/Telegram/Polling.antt =====
-- Run and getUpdates of internal/server/telegrambot/bot.go, with the offset that
-- internal/server/store/telegram_bot_state.go keeps.
use ai_limit_notifier.Prelude.{
  ℕ, ◌+◌, ◌*◌, ◌==◌, ltb, Bool, if◌then◌else◌, Text, List, [], ◌∷◌, ◌++◌, Option, none, some,
  second, minute,
}
use ai_limit_notifier.Telegram.Bot.{Message, BotTables, BotCalls, Handled}

pub record Update : Type 0 where
  pub update_id : ℕ
  pub message : Option Message

-- `parameters` is the field retry_after of that name's object; one below 0 is read as 0.
pub record UpdatesResponse : Type 0 where
  pub updates_ok : Bool
  pub parameters : Option ℕ
  pub result : List Update

-- The request failed, its body could not be read, or it has a status and a body; `none` is a body
-- that does not decode.
pub data UpdatesAnswer : Type 0 where
  request_failed read_failed : UpdatesAnswer
  answered : ℕ → Option UpdatesResponse → UpdatesAnswer

-- The updates, or an error with the wait that it asks for (0 for none).
pub data Polled : Type 0 where
  polled : List Update → Polled
  poll_error : ℕ → Polled

unfoldable pub retry_wait : Option ℕ → ℕ
retry_wait none = second
retry_wait (some after) = if ltb 0 after then after * second else second

unfoldable pub get_updates : UpdatesAnswer → Polled
get_updates request_failed = poll_error 0
get_updates read_failed = poll_error 0
get_updates (answered status none) = poll_error 0
get_updates (answered status (some r)) =
    if r.updates_ok
    then polled r.result
    else if status == 429
    then poll_error (retry_wait r.parameters)
    else poll_error 0

abbrev pub min_backoff : ℕ
min_backoff = second

abbrev pub max_backoff : ℕ
max_backoff = 5 * minute

-- The variables of the loop, the stored offset, the tables, and what the run has done: the updates
-- handled, newest first, the texts sent and the waits.
pub record BotRun : Type 0 where
  pub offset : ℕ
  pub saved_offset : ℕ
  pub backoff : ℕ
  pub tables : BotTables
  pub handled : List ℕ
  pub texts : List (Text × Text)
  pub waits : List ℕ

-- One turn of the loop: the answer to a request with an offset, and, for each update, what its
-- handling meets and whether the offset can be saved.
pub record Turn : Type 0 where
  pub answer : ℕ → UpdatesAnswer
  pub calls : ℕ → BotCalls
  pub save_fails : ℕ → Bool

-- The bot's handling of one message.
abbrev pub Handler : Type 0
Handler = BotCalls → BotTables → Option Message → Handled

unfoldable pub take_update : Handler → Turn → Update → BotRun → BotRun
take_update handler turn u b =
    let (tables', sent) = handler (turn.calls u.update_id) b.tables u.message in
    let next = u.update_id + 1 in
    record b {
      offset = next;
      saved_offset = if turn.save_fails u.update_id then b.saved_offset else next;
      tables = tables';
      handled = u.update_id ∷ b.handled;
      texts = b.texts ++ sent;
    }

unfoldable pub take_updates : Handler → Turn → List Update → BotRun → BotRun
take_updates handler turn [] b = b
take_updates handler turn (u ∷ us) b = take_updates handler turn us (take_update handler turn u b)

abbrev pub after_poll : Handler → Turn → Polled → BotRun → BotRun
after_poll handler turn (poll_error after) b =
    let doubled = b.backoff * 2 in
    record b {
      waits = (if ltb 0 after then after else b.backoff) ∷ b.waits;
      backoff = if ltb max_backoff doubled then max_backoff else doubled;
    }
after_poll handler turn (polled us) b =
    take_updates handler turn us (record b { backoff = min_backoff })

unfoldable pub bot_turn : Handler → BotRun → Turn → BotRun
bot_turn handler b turn = after_poll handler turn (get_updates (turn.answer b.offset)) b

-- `Run` for as many turns as it makes until its context ends.
unfoldable pub bot_run : Handler → BotRun → List Turn → BotRun
bot_run handler b [] = b
bot_run handler b (t ∷ ts) = bot_run handler (bot_turn handler b t) ts

-- The start of `Run`: the stored offset, or 0 if it cannot be loaded.
unfoldable pub bot_start : Bool → ℕ → BotTables → BotRun
bot_start load_fails stored tables = record {
  offset = if load_fails then 0 else stored;
  saved_offset = stored;
  backoff = min_backoff;
  tables = tables;
  handled = [];
  texts = [];
  waits = [];
}
