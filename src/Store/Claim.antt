-- ===== src/Store/Claim.antt =====
-- DueEvents, CoveredProviders, PendingWeeklyResetAt, ClaimEvent, MarkSent and
-- RecordAttemptFailure of internal/server/store/events.go.
use ai_limit_notifier.Prelude.{
  update_where, ℕ, ◌+◌, ◌-◌, ◌*◌, Bool, false, ◌&&◌, ◌||◌, ◌==◌, leb, if◌then◌else◌, Text, List, [],
  ◌∷◌, Option, none, some, unix, minute, keep, length, take, map,
}
use ai_limit_notifier.Domain.{Provider, weekly}
use ai_limit_notifier.Store.Event.{
  Event, pending, sending, sent, is_pending, is_sending, same, Engine, query, query_row, by_id,
  same_window,
}

abbrev pub stale_sending_timeout : ℕ
stale_sending_timeout = 2 * minute

-- `updated_at <= now.Add(-staleSendingTimeout).Unix()`; before that much time the cutoff is
-- negative, and no row is stale.
abbrev pub stale : ℕ → Event → Bool
stale now r = leb stale_sending_timeout now && leb r.updated_at (unix (now - stale_sending_timeout))

abbrev pub claimable : ℕ → Event → Bool
claimable now r = is_pending r.status || (is_sending r.status && stale now r)

abbrev pub due : ℕ → Event → Bool
due now r =
    (is_pending r.status && leb r.next_attempt_at (unix now))
    || (is_sending r.status && stale now r)

-- `ORDER BY next_attempt_at ASC`
unfoldable pub insert_by_attempt : Event → List Event → List Event
insert_by_attempt r [] = r ∷ []
insert_by_attempt r (s ∷ ss) =
    if leb r.next_attempt_at s.next_attempt_at then r ∷ s ∷ ss else s ∷ insert_by_attempt r ss

unfoldable pub order_by_attempt : List Event → List Event
unfolding insert_by_attempt
order_by_attempt [] = []
order_by_attempt (r ∷ rs) = insert_by_attempt r (order_by_attempt rs)

unfoldable pub due_events : Engine → List Event → ℕ → ℕ → List Event
due_events db t now limit = take limit (order_by_attempt (query db (due now) t))

abbrev pub is_covered_by : Text → Event → Bool
is_covered_by i r = elim r.covered_by [ none ↦ false | some c ↦ same c i ]

unfoldable pub covered_providers : Engine → List Event → Text → List Provider
covered_providers db t event_id = map (λ r. r.provider) (query db (is_covered_by event_id) t)

unfoldable pub pending_weekly_reset_at : Engine → List Event → Text → Provider → Option ℕ
pending_weekly_reset_at db t user provider =
    elim (query_row db (λ r. same_window user provider weekly r && is_pending r.status) t) [
      | none ↦ none
      | some r ↦ some r.reset_at
    ]

abbrev pub claim : ℕ → Event → Event
claim now r = record r { status = sending; updated_at = unix now }

abbrev pub claims : Text → ℕ → Event → Bool
claims event_id now r = by_id event_id r && claimable now r

-- The result is true when exactly one row was affected.
unfoldable pub claim_event : List Event → Text → ℕ → List Event × Bool
claim_event t event_id now =
    (update_where (claims event_id now) (claim now) t, length (keep (claims event_id now) t) == 1)

abbrev pub deliver_mark : ℕ → Event → Event
deliver_mark now r = record r { status = sent; sent_at = some (unix now); updated_at = unix now }

unfoldable pub mark_sent : List Event → Text → ℕ → List Event
mark_sent t event_id now = update_where (by_id event_id) (deliver_mark now) t

abbrev pub retry_later : ℕ → ℕ → Event → Event
retry_later next now r = record r {
  status = pending;
  attempts = r.attempts + 1;
  next_attempt_at = unix next;
  updated_at = unix now;
}

unfoldable pub record_attempt_failure : List Event → Text → ℕ → ℕ → List Event
record_attempt_failure t event_id next now = update_where (by_id event_id) (retry_later next now) t
