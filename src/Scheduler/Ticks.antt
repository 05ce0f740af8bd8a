-- ===== src/Scheduler/Ticks.antt =====
-- Whole batches, and what is left of an event (internal/server/scheduler/scheduler.go).
use native.Mathlib.Nat.{le_trans}
use ai_limit_notifier.Prelude.{
  ℕ, ◌+◌, ◌*◌, ◌≤◌, ◌≡◌, ◌⊎◌, inl, inr, Bool, if◌then◌else◌, ◌==◌, Text, List, [], ◌∷◌, Option,
  none, some, nanos, length, length-append, length-take-le, arith, Bool-cases,
}
use ai_limit_notifier.Store.Event.{Event, pending, sending, sent, Engine, query}
use ai_limit_notifier.Store.Users.{User, telegram_chat_id}
use ai_limit_notifier.Store.Claim.{
  due_events, due, order_by_attempt, claim_event, stale_sending_timeout,
}
use ai_limit_notifier.Store.Distinct.{Distinct, id_of}
use ai_limit_notifier.Store.Due.{IsDue}
use ai_limit_notifier.Scheduler.{
  Calls, delivered, send_to, deliver_to, deliver_one, deliver_all, tick, batch_size,
}
use ai_limit_notifier.Scheduler.Delivery.{row}
use ai_limit_notifier.Scheduler.Fates.{
  Fate, left_alone, interrupted, deferred, was_sent, was_refused, deliver_one-Fate,
}

-- From some time on, DueEvents counts the event among the due ones.
abbrev pub WillBeDue : Event → Type 0
WillBeDue r = (from : ℕ) × ((now : ℕ) → from ≤ now → IsDue now r)

open-WillBeDue : (r : Event) → (r.status ≡ pending) ⊎ (r.status ≡ sending) → WillBeDue r
open-WillBeDue r (inl e) = (r.next_attempt_at * nanos, λ now h. inl (e, h))
open-WillBeDue r (inr e) = (r.updated_at * nanos + stale_sending_timeout, λ now h. inr (e, h))

-- On a table with unique identifiers, a delivery of an event whose row is pending or sending either
-- hands its message over, and has the transport's success for it, or leaves an event that becomes
-- due again, whatever calls fail.
pub deliver_one_loses_nothing :
    (db : Engine) (users : List User) (c : Calls) (t : List Event) (ev r : Event)
    → Distinct id_of t
    → row ev.id t ≡ some r
    → (r.status ≡ pending) ⊎ (r.status ≡ sending)
    → (r' : Event) × (row ev.id (deliver_one db users c t ev).table ≡ some r')
      × (((d : Text) × (m : Text) × (c.send d m ≡ delivered)
            × ((deliver_one db users c t ev).messages ≡ (d, m) ∷ [])
            × (r'.status ≡ sent))
          ⊎ WillBeDue r')
deliver_one_loses_nothing db users c t ev r d h live =
    let (r', found, fate) = deliver_one-Fate db users c t ev r d h in
    (r', found, outcome r' (deliver_one db users c t ev).messages fate)
  where
    outcome :
        (r' : Event) (messages : List (Text × Text))
        → Fate db users c (claim_event t ev.id c.claim_at).0 ev r r' messages
        → ((d : Text) × (m : Text) × (c.send d m ≡ delivered)
            × (messages ≡ (d, m) ∷ [])
            × (r'.status ≡ sent))
          ⊎ WillBeDue r'
    outcome r' ms (left_alone _ e _) = inr (open-WillBeDue r' (ground arith))
    outcome r' ms (interrupted _ _ e _) = inr (open-WillBeDue r' (ground arith))
    outcome r' ms (deferred _ e _) = inr (open-WillBeDue r' (ground arith))
    outcome r' ms (was_sent d m _ _ ok e sent_one) = inl (d, m, ok, sent_one, ground arith)
    outcome r' ms (was_refused d m _ _ bad e _) = inr (open-WillBeDue r' (ground arith))

send_to-messages :
    (db : Engine) (c : Calls) (t : List Event) (ev : Event) (d : Text)
    → length (send_to db c t ev d).messages ≤ 1
unfolding send_to
send_to-messages db c t ev d = omega arith

deliver_to-messages :
    (db : Engine) (c : Calls) (t : List Event) (ev : Event) (o : Option Text)
    → length (deliver_to db c t ev o).messages ≤ 1
unfolding deliver_to
deliver_to-messages db c t ev none = omega arith
deliver_to-messages db c t ev (some d) = ground (arith, send_to-messages db c t ev d)

deliver_one-messages :
    (db : Engine) (users : List User) (c : Calls) (t : List Event) (ev : Event)
    → length (deliver_one db users c t ev).messages ≤ 1
unfolding deliver_one
deliver_one-messages db users c t ev = ground (
  arith,
  deliver_to-messages db c (claim_event t ev.id c.claim_at).0 ev
      (telegram_chat_id users ev.user_id),
)

deliver_all-messages :
    (db : Engine) (users : List User) (calls : Event → Calls) (t : List Event) (evs : List Event)
    → length (deliver_all db users calls t evs).messages ≤ length evs
unfolding deliver_all
deliver_all-messages db users calls t [] = omega arith
deliver_all-messages db users calls t (ev ∷ evs) =
    let o = deliver_one db users (calls ev) t ev in
    omega (
      arith,
      length-append o.messages (deliver_all db users calls o.table evs).messages,
      deliver_one-messages db users (calls ev) t ev,
      deliver_all-messages db users calls o.table evs,
    )

-- A tick hands over at most one message for each event of a batch, and a batch has at most
-- `size` events, or 50 where that is 0.
pub tick-messages :
    (db : Engine) (users : List User) (calls : Event → Calls) (due_fails : Bool) (now size : ℕ)
    (t : List Event)
    → length (tick db users calls due_fails now size t).messages ≤ (if size == 0 then 50 else size)
unfolding tick due_events batch_size
tick-messages db users calls due_fails now size t = elim (Bool-cases due_fails) [
  | inl e ↦ rw e (omega arith)
  | inr e ↦ rw e (
      le_trans (deliver_all-messages db users calls t _)
        (length-take-le (batch_size size) (order_by_attempt (query db (due now) t))))
]
