-- ===== src/Scheduler.antt =====
-- internal/server/scheduler/scheduler.go: one batch of due events, claimed, sent and recorded.
pub mod Message
pub mod Delivery
pub mod Fates
pub mod Ticks
use ai_limit_notifier.Prelude.{
  ℕ, suc, ◌+◌, ◌*◌, ◌^◌, Bool, true, false, not, ◌&&◌, ◌||◌, ◌==◌, ltb, if◌then◌else◌, Text, List,
  [], ◌∷◌, ◌++◌, Option, none, some, second, minute,
}
use ai_limit_notifier.Domain.{Provider, WindowKind, five_hour, is_kind}
use ai_limit_notifier.Store.Event.{Event, Engine}
use ai_limit_notifier.Store.Users.{User, telegram_chat_id}
use ai_limit_notifier.Store.Claim.{
  claim_event, mark_sent, record_attempt_failure, covered_providers, pending_weekly_reset_at,
  due_events,
}
use Message.{build_message}

abbrev pub max_backoff : ℕ
max_backoff = 15 * minute

abbrev pub no_destination_retry : ℕ
no_destination_retry = minute

abbrev pub default_batch_size : ℕ
default_batch_size = 50

-- `10 * time.Second << attempts`, which no exponent up to 10 takes past an int64.
unfoldable pub backoff : ℕ → ℕ
backoff attempts =
    let exponent = if ltb 10 attempts then 10 else attempts in
    let d = 10 * second * 2 ^ exponent in if d == 0 || ltb max_backoff d then max_backoff else d

-- What `Delivery.Send` returns: no error, a RetryableError with its `After`, another error.
pub data SendResult : Type 0 where
  delivered failed : SendResult
  retryable : ℕ → SendResult

-- What one delivery meets: which calls of the store fail, what the clock reads at each of its
-- readings, and what the transport answers to a destination and a message.
pub record Calls : Type 0 where
  pub claim_fails : Bool
  pub chat_fails : Bool
  pub covered_fails : Bool
  pub weekly_fails : Bool
  pub mark_fails : Bool
  pub record_fails : Bool
  pub claim_at : ℕ
  pub mark_at : ℕ
  pub next_at : ℕ
  pub retry_at : ℕ
  pub record_at : ℕ
  pub send : Text → Text → SendResult

-- The table after a delivery, and the messages that it handed to the transport.
pub record Outcome : Type 0 where
  pub table : List Event
  pub messages : List (Text × Text)

abbrev pub quiet : List Event → Outcome
quiet t = record { table = t; messages = [] }

unfoldable pub record_failure : Calls → Event → ℕ → List Event → List Event
record_failure c ev next t =
    if c.record_fails then t else record_attempt_failure t ev.id next c.record_at

unfoldable pub next_attempt : Calls → Event → SendResult → ℕ
next_attempt c ev (retryable after) =
    if ltb 0 after then c.retry_at + after else c.next_at + backoff ev.attempts
next_attempt c ev other = c.next_at + backoff ev.attempts

-- The table after the transport's answer.
unfoldable pub settle : Calls → Event → List Event → SendResult → List Event
settle c ev t delivered = if c.mark_fails then t else mark_sent t ev.id c.mark_at
settle c ev t failed = record_failure c ev (next_attempt c ev failed) t
settle c ev t (retryable after) = record_failure c ev (next_attempt c ev (retryable after)) t

abbrev pub is_empty {ℓ} : {A : Type ℓ} → List A → Bool
is_empty [] = true
is_empty (x ∷ xs) = false

-- The weekday hint is for a five-hour event that covers no other.
unfoldable pub weekly_hint : Engine → Calls → List Event → Event → List Provider → Option ℕ
weekly_hint db c t ev covered =
    if is_kind ev.window_kind five_hour && is_empty covered && not c.weekly_fails
    then pending_weekly_reset_at db t ev.user_id ev.provider
    else none

unfoldable pub send_to : Engine → Calls → List Event → Event → Text → Outcome
send_to db c t ev destination =
    let covered = covered_providers db t ev.id in
    let message =
      build_message ev.provider ev.window_kind covered (weekly_hint db c t ev covered) in
    record {
      table = settle c ev t (c.send destination message);
      messages = (destination, message) ∷ [];
    }

-- What follows a won claim.
unfoldable pub deliver_to : Engine → Calls → List Event → Event → Option Text → Outcome
deliver_to db c t ev none = quiet t
deliver_to db c t ev (some destination) =
    if is_empty destination
    then quiet (record_failure c ev (c.next_at + no_destination_retry) t)
    else if c.covered_fails
    then quiet t
    else send_to db c t ev destination

-- `deliverOne` of an event that DueEvents returned, against the table as it is by then.
unfoldable pub deliver_one : Engine → List User → Calls → List Event → Event → Outcome
deliver_one db users c t ev =
    if c.claim_fails
    then quiet t
    else let (t', claimed) = claim_event t ev.id c.claim_at in
      if not claimed
      then quiet t'
      else if c.chat_fails
      then quiet t'
      else deliver_to db c t' ev (telegram_chat_id users ev.user_id)

-- The loop of `Tick`; `calls` gives what the delivery of each event meets.
unfoldable pub deliver_all :
    Engine → List User → (Event → Calls) → List Event → List Event → Outcome
deliver_all db users calls t [] = quiet t
deliver_all db users calls t (ev ∷ evs) =
    let o = deliver_one db users (calls ev) t ev in
    let rest = deliver_all db users calls o.table evs in
    record { table = rest.table; messages = o.messages ++ rest.messages }

-- A batch size of 0 or less means the default.
unfoldable pub batch_size : ℕ → ℕ
batch_size n = if n == 0 then default_batch_size else n

-- `Tick`; `due_fails` is the failure of DueEvents.
unfoldable pub tick : Engine → List User → (Event → Calls) → Bool → ℕ → ℕ → List Event → Outcome
tick db users calls due_fails now size t =
    if due_fails
    then quiet t
    else deliver_all db users calls t (due_events db t now (batch_size size))
