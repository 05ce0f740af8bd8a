-- ===== src/Tests/ServerRuns.antt =====
-- Runs of the scheduler and of the HTTP interface.
use ai_limit_notifier.Prelude.{
  ℕ, zero, suc, ◌+◌, ◌*◌, ◌^◌, ◌≤◌, ◌<◌, ◌≡◌, ◌≢◌, ◌⊎◌, inl, inr, refl, Bool, true, false,
  if◌then◌else◌, ◌==◌, Text, ascii, List, [], ◌∷◌, ◌++◌, Option, none, some, second, minute, length,
  arith, find_first,
}
use ai_limit_notifier.Domain.{UsageSnapshot, percent}
use ai_limit_notifier.Store.Event.{Event, pending, sent, same}
use ai_limit_notifier.Store.Integrity.{IsTable}
use ai_limit_notifier.Store.Devices.{Device, new_device}
use ai_limit_notifier.Store.Pairing.{PairingCode, Tables, new_code}
use ai_limit_notifier.Scheduler.{Calls, delivered, deliver_one}
use ai_limit_notifier.Scheduler.Delivery.{row}
use ai_limit_notifier.Store.Claim.{claim_event}
use ai_limit_notifier.Scheduler.Fates.{Fated, deliver_one-Fate}
use ai_limit_notifier.Scheduler.Ticks.{WillBeDue, deliver_one_loses_nothing}
use ai_limit_notifier.Api.Reply.{Reply, accepted, linked, failure, decoded, malformed}
use ai_limit_notifier.Api.Limiter.{
  LimiterEntry, IpLimiter, new_ip_limiter, size, ip_limiter_max_entries,
}
use ai_limit_notifier.Api.Usage.{UsageRequest, WindowRequest, check_body, handle_usage}
use ai_limit_notifier.Api.Acks.{Stored, usage-persisted, usage-answers}
use ai_limit_notifier.Api.Bounds.{allow_all, limiter-bounded}
use ai_limit_notifier.Api.Gate.{client_ip, Limits}
use ai_limit_notifier.Api.Admission.{
  Counted, Outcome, authorized, require_auth-outcomes, client_ip-unspoofable,
}
use ai_limit_notifier.Api.Pair.{PairRequest, check_pair_body, handle_pair}
use ai_limit_notifier.Auth.{validate_pairing_code_format}
use ai_limit_notifier.Domain.Validate.{IsSnapshot}
use ai_limit_notifier.Api.Linked.{Pairs, pair-linked}
use ai_limit_notifier.Tests.Sample.{
  in_order, at_second, ann, ann_user, laptop, first_row, second_row,
}

abbrev calls : Calls
calls = record {
  claim_fails = false;
  chat_fails = false;
  covered_fails = false;
  weekly_fails = false;
  mark_fails = false;
  record_fails = false;
  claim_at = at_second 5060;
  mark_at = at_second 5061;
  next_at = at_second 5061;
  retry_at = at_second 5061;
  record_at = at_second 5061;
  send = λ destination message. delivered;
}

abbrev both_rows : List Event
both_rows = first_row ∷ second_row ∷ []

deliver_one-Fate_example :
    Fated in_order
      (ann_user ∷ [])
      calls
      (claim_event both_rows (ascii "e1") calls.claim_at).0
      first_row
      first_row
      (deliver_one in_order (ann_user ∷ []) calls both_rows first_row)
unfolding find_first ai_limit_notifier.Prelude.any_row ai_limit_notifier.Prelude.text_discrete
    ai_limit_notifier.Prelude.ℕ_discrete
deliver_one-Fate_example =
    deliver_one-Fate in_order (ann_user ∷ []) calls both_rows first_row first_row (refl, (refl, tt))
      refl

deliver_one_loses_nothing_example :
    (r' : Event) × (row
        (ascii "e1")
        (deliver_one in_order (ann_user ∷ []) calls both_rows first_row).table
      ≡ some r')
    × (((d : Text) × (m : Text) × (calls.send d m ≡ delivered)
          × ((deliver_one in_order (ann_user ∷ []) calls both_rows first_row).messages
              ≡ (d, m) ∷ [])
          × (r'.status ≡ sent))
        ⊎ WillBeDue r')
unfolding find_first ai_limit_notifier.Prelude.any_row ai_limit_notifier.Prelude.text_discrete
    ai_limit_notifier.Prelude.ℕ_discrete
deliver_one_loses_nothing_example =
    deliver_one_loses_nothing in_order (ann_user ∷ []) calls both_rows first_row first_row
      (refl, (refl, tt)) refl (inl refl)

-- Times are written as one letter.
abbrev read_time : Text → Option ℕ
read_time [] = none
read_time (b ∷ bs) = some (at_second (b * 100))

abbrev request : UsageRequest
request = record {
  schema_version = 1;
  provider = ascii "codex";
  observed_at = ascii "a";
  five_hour_request = some (record { used_percent = percent 90; reset_at = ascii "c" });
  weekly_request = some (record { used_percent = percent 40; reset_at = ascii "d" });
}

abbrev json : Text
json = ascii "application/json"

abbrev submitted : List Event × Reply
submitted =
    handle_usage read_time in_order (10 * minute) laptop [] json (decoded request) (at_second 9700)
      (ascii "e1") (at_second 9701) (ascii "e2") (at_second 9702)

submitted_accepted : submitted.1 ≡ accepted
unfolding handle_usage check_body ai_limit_notifier.Prelude.text_discrete
    ai_limit_notifier.Prelude.ℕ_discrete ai_limit_notifier.Api.Usage.check_request
    ai_limit_notifier.Domain.Provider-discrete ai_limit_notifier.Api.Usage.check_windows
    ai_limit_notifier.Api.Usage.parse_field ai_limit_notifier.Api.Usage.parse_window
    ai_limit_notifier.Domain.float_unit ai_limit_notifier.Api.Usage.check_snapshot
    ai_limit_notifier.Domain.validate_snapshot ai_limit_notifier.Domain.validate_field
    ai_limit_notifier.Domain.WindowKind-discrete ai_limit_notifier.Domain.validate_window
    ai_limit_notifier.Api.Usage.persist ai_limit_notifier.Store.Upsert.upsert_pending_event
    ai_limit_notifier.Prelude.any_row ai_limit_notifier.Prelude.keep
    ai_limit_notifier.Prelude.update_where ai_limit_notifier.Store.Event.query
    ai_limit_notifier.Store.Event.query_row ai_limit_notifier.Store.Upsert.commit
    ai_limit_notifier.Store.Upsert.cover_later ai_limit_notifier.Store.Upsert.find_partner
    ai_limit_notifier.Store.Upsert.insert_row ai_limit_notifier.Store.Upsert.later_first
    ai_limit_notifier.Store.Upsert.link_and_commit ai_limit_notifier.Store.Upsert.link_combinable
    ai_limit_notifier.Store.Upsert.link_partner ai_limit_notifier.Store.Upsert.move_in_place
    ai_limit_notifier.Store.Upsert.upsert_found ai_limit_notifier.Store.Upsert.upsert_new
    ai_limit_notifier.Store.Upsert.upsert_pending
submitted_accepted = refl

usage-persisted_example :
    (s : UsageSnapshot) × (check_body read_time json (decoded request) (at_second 9700) ≡ inr s)
    × IsSnapshot (at_second 9700) s
    × Stored laptop s.provider s.five_hour_window submitted.0
    × Stored laptop s.provider s.weekly_window submitted.0
usage-persisted_example =
    usage-persisted read_time in_order (10 * minute) laptop [] json (decoded request)
      (at_second 9700) (ascii "e1") (ascii "e2") (at_second 9701) (at_second 9702)
      (record { ids = tt; keys = tt; rows = tt }) submitted_accepted

usage-answers_example :
    ((submitted.1 ≡ accepted)
      ⊎ (submitted.1 ≡ failure 500 (ascii "persistence_failed") [])
      ⊎ (submitted.0 ≡ []))
    × IsTable submitted.0
usage-answers_example =
    usage-answers read_time in_order (10 * minute) laptop [] json (decoded request) (at_second 9700)
      (ascii "e1") (ascii "e2") (at_second 9701) (at_second 9702)
      (record { ids = tt; keys = tt; rows = tt })

-- A bucket is the number of tokens left in it.
abbrev tokens : ℕ
tokens = 2

abbrev spend_one : ℕ → ℕ → Bool × ℕ
spend_one zero now = (false, 0)
spend_one (suc n) now = (true, n)

abbrev host_a : Text
host_a = ascii "10.0.0.1"

abbrev host_b : Text
host_b = ascii "10.0.0.2"

limiter-bounded_example :
    size tokens spend_one (
      allow_all tokens spend_one
        (new_ip_limiter tokens spend_one (at_second 1))
        ((host_a, at_second 2) ∷ (host_b, at_second 3) ∷ []))
    ≤ ip_limiter_max_entries
limiter-bounded_example =
    limiter-bounded tokens spend_one (at_second 1)
      ((host_a, at_second 2) ∷ (host_b, at_second 3) ∷ [])

abbrev entry_b : LimiterEntry ℕ
entry_b = record { host = host_b; limiter = 1; last_seen = at_second 3 }

-- A limiter that is full with one entry.
abbrev one_entry : IpLimiter ℕ
one_entry = record { limiters = entry_b ∷ []; max = 1; last_sweep = at_second 3 }

abbrev as_is : Text → Text
as_is s = s

abbrev limits : Limits ℕ
limits = record { ips = one_entry; by_device_id = [] }

require_auth-outcomes_example :
    Outcome tokens tokens spend_one as_is as_is
      (laptop ∷ [])
      (ascii "Bearer token")
      (authorized tokens tokens spend_one as_is as_is
        (laptop ∷ [])
        limits
        host_b
        (ascii "Bearer token")
        (at_second 5)).1
require_auth-outcomes_example =
    require_auth-outcomes tokens tokens spend_one as_is as_is (laptop ∷ []) limits host_b
      (ascii "Bearer token") (at_second 5)

-- Every text but the empty one is an address, and the proxy is at host_a.
abbrev parse_ip : Text → Option Text
parse_ip [] = none
parse_ip (b ∷ s) = some (b ∷ s)

abbrev proxies : List (Text → Bool)
proxies = (λ ip. same ip host_a) ∷ []

client_ip-unspoofable_example :
    Counted
      (λ s. none)
      parse_ip
      as_is
      proxies
      host_a
      host_b
      (client_ip (λ s. none) parse_ip as_is proxies host_a (ascii "9.9.9.9" ++ 44 ∷ host_b))
    × (client_ip (λ s. none) parse_ip as_is proxies host_a (ascii "9.9.9.9" ++ 44 ∷ host_b)
        ≡ client_ip (λ s. none) parse_ip as_is proxies host_a host_b)
unfolding ai_limit_notifier.Prelude.any_row
client_ip-unspoofable_example =
    client_ip-unspoofable (λ s. none) parse_ip as_is proxies host_a (ascii "9.9.9.9" ++ 44 ∷ host_b)
      host_b host_b refl (refl, inr (ascii "9.9.9.9", refl)) (refl, inl refl)

abbrev keyed : Text → Text → Text
keyed secret code = code

abbrev code : PairingCode
code = new_code (ascii "c1") ann (ascii "ABCDEFGHJK") (at_second 100) (10 * minute)

abbrev one_code : Tables
one_code = record { codes = code ∷ []; devices = [] }

abbrev pair_request : PairRequest
pair_request = record {
  code = ascii "ABCD-EFGH-JK";
  client_version = ascii "1.0";
  platform = ascii "linux-amd64";
}

abbrev paired_now : Tables × Reply
paired_now =
    handle_pair as_is as_is keyed as_is (ascii "secret") one_code json (decoded pair_request)
      (at_second 200) (ascii "d2") (ascii "alnd_x")

pair-linked_example :
    (normalized : Text) × (check_pair_body as_is as_is (ascii "secret") json (decoded pair_request)
      ≡ inr normalized)
    × (validate_pairing_code_format normalized ≡ true)
    × Pairs as_is one_code normalized
        (at_second 200)
        (ascii "d2")
        (ascii "alnd_x")
        paired_now.0
        (ascii "d2")
        (ascii "alnd_x")
unfolding handle_pair check_pair_body ai_limit_notifier.Prelude.text_discrete
    ai_limit_notifier.Prelude.ℕ_discrete ai_limit_notifier.Api.Pair.check_pair
    ai_limit_notifier.Api.Pair.platform_rest ai_limit_notifier.Auth.validate_pairing_code_format
    ai_limit_notifier.Auth.normalize_pairing_code ai_limit_notifier.Prelude.keep
    ai_limit_notifier.Auth.all_crockford ai_limit_notifier.Prelude.any_row
    ai_limit_notifier.Api.Pair.answer_pair ai_limit_notifier.Store.Pairing.redeem_pairing_code
    find_first ai_limit_notifier.Store.Pairing.issue ai_limit_notifier.Store.Devices.insert_device
pair-linked_example =
    pair-linked as_is as_is keyed as_is (ascii "secret") one_code json (decoded pair_request)
      (at_second 200) (ascii "d2") (ascii "alnd_x") (ascii "d2") (ascii "alnd_x") refl

nothing_linked :
    (device token : Text)
    → (handle_pair as_is as_is keyed as_is
        (ascii "secret")
        one_code
        json
        malformed
        (at_second 200)
        (ascii "d2")
        (ascii "alnd_x")).1
      ≢ linked device token
unfolding handle_pair check_pair_body ai_limit_notifier.Prelude.text_discrete
    ai_limit_notifier.Prelude.ℕ_discrete
nothing_linked device token h = ground arith
