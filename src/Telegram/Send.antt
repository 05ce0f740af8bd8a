-- ===== src/Telegram/Send.antt =====
-- TelegramDelivery.Send of internal/server/delivery/telegram.go, on what net/http and
-- encoding/json make of the answer.
use ai_limit_notifier.Prelude.{
  ℕ, ◌*◌, Bool, ◌==◌, ltb, leb, if◌then◌else◌, Option, none, some, second,
}
use ai_limit_notifier.Scheduler.{SendResult, delivered, failed, retryable}

-- A retry_after of 0 or less is 0, and so is one without parameters.
pub record TelegramResponse : Type 0 where
  pub is_ok : Bool
  pub retry_after : ℕ

-- The request failed, its body could not be read, or it has a status and a body; `none` is a
-- body that is no JSON of the response's type.
pub data HttpAnswer : Type 0 where
  request_failed read_failed : HttpAnswer
  answered : ℕ → Option TelegramResponse → HttpAnswer

unfoldable pub send_message : HttpAnswer → SendResult
send_message request_failed = retryable 0
send_message read_failed = retryable 0
send_message (answered status none) = failed
send_message (answered status (some r)) =
    if r.is_ok
    then delivered
    else if status == 429
    then retryable (if ltb 0 r.retry_after then r.retry_after * second else second)
    else if leb 500 status
    then retryable 0
    else failed
