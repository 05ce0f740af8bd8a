-- ===== src/Scheduler/Delivery.antt =====
-- The delays between deliveries, and the rows that one delivery writes.
use ai_limit_notifier.Prelude.{
  ℕ, ◌+◌, ◌*◌, ◌^◌, ◌≤◌, ◌<◌, ◌≡◌, ◌≢◌, inl, inr, refl, Bool, true, ◌&&◌, ◌==◌, ltb, leb,
  if◌then◌else◌, Text, List, Option, none, some, second, find_first, find_first-update,
  find_first-test, arith, Bool-cases, Option-cases, passes_below, passes_below-at,
}
use ai_limit_notifier.Store.Event.{Event, Engine, by_id}
use ai_limit_notifier.Store.Users.{User, telegram_chat_id}
use ai_limit_notifier.Store.Claim.{
  claim_event, claim, claims, mark_sent, record_attempt_failure, deliver_mark, retry_later,
}
use ai_limit_notifier.Scheduler.{
  backoff, max_backoff, Calls, SendResult, delivered, failed, retryable, record_failure, settle,
  send_to, deliver_to, deliver_one, no_destination_retry,
}

abbrev pub row : Text → List Event → Option Event
row i t = find_first (by_id i) t

abbrev backoff_ok : ℕ → Bool
backoff_ok n =
    leb (10 * second) (backoff n)
    && leb (backoff n) max_backoff
    && (backoff n == (if ltb n 7 then 10 * second * 2 ^ n else max_backoff))

backoff_table : passes_below backoff_ok 11 ≡ true
unfolding passes_below backoff
backoff_table = refl

-- The delay doubles from ten seconds for each failed attempt and stops at fifteen minutes.
pub backoff_lem :
    (attempts : ℕ)
    → (10 * second ≤ backoff attempts)
      × (backoff attempts ≤ max_backoff)
      × (attempts < 7 → backoff attempts ≡ 10 * second * 2 ^ attempts)
      × (7 ≤ attempts → backoff attempts ≡ max_backoff)
unfolding backoff
backoff_lem n = elim (Bool-cases (ltb n 11)) [
  | inl small ↦ ground (arith, passes_below-at backoff_ok 11 backoff_table n (ground arith))
  | inr large ↦ (ground arith, ground arith, λ h. ground arith, λ h. ground arith)
]

pub claim-row :
    (t : List Event) (i j : Text) (now : ℕ)
    → row j (claim_event t i now).0
      ≡ elim (row j t) [ none ↦ none | some r ↦ some (if claims i now r then claim now r else r) ]
unfolding claim_event
claim-row t i j now = find_first-update (by_id j) (claims i now) (claim now) t (λ r. refl)

pub mark-row :
    (t : List Event) (i j : Text) (now : ℕ)
    → row j (mark_sent t i now)
      ≡ elim (row j t) [ none ↦ none | some r ↦ some (if by_id i r then deliver_mark now r else r) ]
unfolding mark_sent
mark-row t i j now = find_first-update (by_id j) (by_id i) (deliver_mark now) t (λ r. refl)

pub fail-row :
    (t : List Event) (i j : Text) (next now : ℕ)
    → row j (record_attempt_failure t i next now) ≡ elim (row j t) [
      | none ↦ none
      | some r ↦ some (if by_id i r then retry_later next now r else r)
    ]
unfolding record_attempt_failure
fail-row t i j next now = find_first-update (by_id j) (by_id i) (retry_later next now) t (λ r. refl)

claim-others :
    (t : List Event) (i j : Text) (now : ℕ) → j ≢ i → row j (claim_event t i now).0 ≡ row j t
claim-others t i j now h = elim (Option-cases (row j t)) [
  | inl e ↦ ground (arith, claim-row t i j now)
  | inr (r, e) ↦ ground (arith, claim-row t i j now, find_first-test (by_id j) t r e)
]

mark-others : (t : List Event) (i j : Text) (now : ℕ) → j ≢ i → row j (mark_sent t i now) ≡ row j t
mark-others t i j now h = elim (Option-cases (row j t)) [
  | inl e ↦ ground (arith, mark-row t i j now)
  | inr (r, e) ↦ ground (arith, mark-row t i j now, find_first-test (by_id j) t r e)
]

fail-others :
    (t : List Event) (i j : Text) (next now : ℕ)
    → j ≢ i
    → row j (record_attempt_failure t i next now) ≡ row j t
fail-others t i j next now h = elim (Option-cases (row j t)) [
  | inl e ↦ ground (arith, fail-row t i j next now)
  | inr (r, e) ↦ ground (arith, fail-row t i j next now, find_first-test (by_id j) t r e)
]

record_failure-others :
    (c : Calls) (ev : Event) (next : ℕ) (t : List Event) (j : Text)
    → j ≢ ev.id
    → row j (record_failure c ev next t) ≡ row j t
unfolding record_failure
record_failure-others c ev next t j h = ground (arith, fail-others t ev.id j next c.record_at h)

settle-others :
    (c : Calls) (ev : Event) (t : List Event) (s : SendResult) (j : Text)
    → j ≢ ev.id
    → row j (settle c ev t s) ≡ row j t
unfolding settle
settle-others c ev t delivered j h = ground (arith, mark-others t ev.id j c.mark_at h)
settle-others c ev t failed j h = record_failure-others c ev _ t j h
settle-others c ev t (retryable after) j h = record_failure-others c ev _ t j h

send_to-others :
    (db : Engine) (c : Calls) (t : List Event) (ev : Event) (d : Text) (j : Text)
    → j ≢ ev.id
    → row j (send_to db c t ev d).table ≡ row j t
unfolding send_to
send_to-others db c t ev d j h = settle-others c ev t _ j h

deliver_to-others :
    (db : Engine) (c : Calls) (t : List Event) (ev : Event) (o : Option Text) (j : Text)
    → j ≢ ev.id
    → row j (deliver_to db c t ev o).table ≡ row j t
unfolding deliver_to
deliver_to-others db c t ev none j h = refl
deliver_to-others db c t ev (some d) j h = ground (
  arith,
  record_failure-others c ev (c.next_at + no_destination_retry) t j h,
  send_to-others db c t ev d j h,
)

-- A delivery leaves the row of every other identifier as it is.
pub deliver_one-others :
    (db : Engine) (users : List User) (c : Calls) (t : List Event) (ev : Event) (j : Text)
    → j ≢ ev.id
    → row j (deliver_one db users c t ev).table ≡ row j t
unfolding deliver_one
deliver_one-others db users c t ev j h = ground (
  arith,
  claim-others t ev.id j c.claim_at h,
  deliver_to-others db c (claim_event t ev.id c.claim_at).0 ev (telegram_chat_id users ev.user_id) j
      h,
)
