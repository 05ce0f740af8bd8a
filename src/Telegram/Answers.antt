-- ===== src/Telegram/Answers.antt =====
-- What the answers of Telegram mean for an event.
use ai_limit_notifier.Prelude.{ℕ, ◌+◌, ◌*◌, ◌≤◌, ◌<◌, ◌≡◌, ◌↔◌, true, false, some, second, arith}
use ai_limit_notifier.Store.Event.{Event}
use ai_limit_notifier.Scheduler.{Calls, delivered, next_attempt}
use ai_limit_notifier.Telegram.Send.{TelegramResponse, HttpAnswer, answered, send_message}

send_message-delivered :
    (a : HttpAnswer)
    → (send_message a ≡ delivered)
      ↔ ((status : ℕ) × (r : TelegramResponse) × (a ≡ answered status (some r)) × (r.is_ok ≡ true))
unfolding send_message
send_message-delivered a = (λ h. ground arith, λ v. ground arith)

-- A message counts as delivered exactly when the body of the answer says so, whatever its status.
-- After an answer of 429 that does not say so, the next attempt comes no sooner than the number of
-- seconds that the answer asks for, and later than the clock's reading.
pub send_message_lem :
    (a : HttpAnswer) (c : Calls) (ev : Event) (r : TelegramResponse)
    → ((send_message a ≡ delivered) ↔ (
        (status : ℕ) × (r : TelegramResponse) × (a ≡ answered status (some r)) × (r.is_ok ≡ true)))
      × (r.is_ok ≡ false
          → (c.retry_at + r.retry_after * second
              ≤ next_attempt c ev (send_message (answered 429 (some r))))
            × (c.retry_at < next_attempt c ev (send_message (answered 429 (some r)))))
unfolding send_message next_attempt
send_message_lem a c ev r = (send_message-delivered a, λ h. ground arith)
