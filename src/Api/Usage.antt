-- ===== src/Api/Usage.antt =====
-- handleUsage and parseWindow of internal/server/api/handlers.go. `parse_time` is time.Parse with
-- the layout RFC3339.
use ai_limit_notifier.Prelude.{
  ℕ, ◌+◌, ◌*◌, not, ◌&&◌, ◌||◌, ◌==◌, ltb, if◌then◌else◌, Text, ascii, List, [], ◌∷◌, Option, none,
  some, minute, hour, inl, inr, ◌⊎◌,
}
use ai_limit_notifier.Domain.{
  Provider, codex, claude, other_provider, WindowKind, five_hour, weekly, Float64, percent,
  float_lt, is_nan, is_inf, UsageWindow, UsageSnapshot, is_none, validate_snapshot, is_provider,
}
use ai_limit_notifier.Store.Event.{Event, EventInput, Engine, same}
use ai_limit_notifier.Store.Upsert.{ok, err, upsert_pending_event}
use ai_limit_notifier.Store.Devices.{Device}
use ai_limit_notifier.Api.Reply.{
  Reply, accepted, failure, Refusal, bad_request, Body, too_large, malformed, trailing, decoded,
  is_json,
}

abbrev pub protocol_version : ℕ
protocol_version = 1

abbrev pub observed_at_skew : ℕ
observed_at_skew = 24 * hour

abbrev pub reset_at_staleness : ℕ
reset_at_staleness = 5 * minute

abbrev pub reset_at_horizon : ℕ
reset_at_horizon = 216 * hour

pub record WindowRequest : Type 0 where
  pub used_percent : Float64
  pub reset_at : Text

-- A schema version below 0 is refused as every other that is not 1.
pub record UsageRequest : Type 0 where
  pub schema_version : ℕ
  pub provider : Text
  pub observed_at : Text
  pub five_hour_request : Option WindowRequest
  pub weekly_request : Option WindowRequest

abbrev pub provider_of : Text → Provider
provider_of s =
    if same s (ascii "codex")
    then codex
    else if same s (ascii "claude")
    then claude
    else other_provider s

module _ (parse_time : Text → Option ℕ) where
  -- An error is the code of the answer.
  unfoldable pub parse_window : WindowRequest → WindowKind → ℕ → Text ⊎ UsageWindow
  parse_window w kind now =
      if is_nan w.used_percent
        || is_inf w.used_percent
        || float_lt w.used_percent (percent 0)
        || float_lt (percent 100) w.used_percent
      then inl (ascii "invalid_used_percent")
      else elim (parse_time w.reset_at) [
        | none ↦ inl (ascii "invalid_reset_at")
        | some t ↦
            if ltb (t + reset_at_staleness) now || ltb (now + reset_at_horizon) t
            then inl (ascii "implausible_reset_at")
            else inr (record { kind = kind; used_percent = w.used_percent; reset_at = t })
      ]

  unfoldable pub parse_field :
      Option WindowRequest → WindowKind → Text → ℕ → Refusal ⊎ Option UsageWindow
  parse_field none kind name now = inr none
  parse_field (some w) kind name now = elim (parse_window w kind now) [
    | inl code ↦ inl (bad_request code name)
    | inr u ↦ inr (some u)
  ]

  unfoldable pub check_snapshot : UsageSnapshot → ℕ → Refusal ⊎ UsageSnapshot
  check_snapshot s now = elim (validate_snapshot s now) [
    | none ↦ inr s
    | some e ↦ inl (bad_request (ascii "invalid_snapshot") [])
  ]

  unfoldable pub check_windows : UsageRequest → ℕ → Refusal ⊎ UsageSnapshot
  check_windows req now =
      elim (parse_field req.five_hour_request five_hour (ascii "five_hour") now) [
        | inl r ↦ inl r
        | inr f ↦ elim (parse_field req.weekly_request weekly (ascii "weekly") now) [
          | inl r ↦ inl r
          | inr w ↦
              check_snapshot
                (record {
                  provider = provider_of req.provider;
                  five_hour_window = f;
                  weekly_window = w;
                })
                now
        ]
      ]

  unfoldable pub check_request : UsageRequest → ℕ → Refusal ⊎ UsageSnapshot
  check_request req now =
      if not (req.schema_version == protocol_version)
      then inl (bad_request (ascii "unsupported_schema_version") [])
      else if not (is_provider (provider_of req.provider) codex)
          && not (is_provider (provider_of req.provider) claude)
      then inl (bad_request (ascii "unsupported_provider") [])
      else elim (parse_time req.observed_at) [
        | none ↦ inl (bad_request (ascii "invalid_observed_at") [])
        | some at ↦
            if ltb (now + observed_at_skew) at || ltb (at + observed_at_skew) now
            then inl (bad_request (ascii "implausible_observed_at") [])
            else if is_none req.five_hour_request && is_none req.weekly_request
            then inl (bad_request (ascii "no_usage_window") [])
            else check_windows req now
      ]

  unfoldable pub check_body : Text → Body UsageRequest → ℕ → Refusal ⊎ UsageSnapshot
  check_body content_type body now =
      if not (is_json content_type)
      then inl (415, ascii "invalid_content_type", [])
      else elim body [
        | too_large ↦ inl (413, ascii "body_too_large", [])
        | malformed ↦ inl (bad_request (ascii "invalid_json") [])
        | trailing req ↦
            inl (bad_request (ascii "invalid_json") (ascii "trailing content after JSON body"))
        | decoded req ↦ check_request req now
      ]

abbrev pub input_of : Device → Provider → UsageWindow → EventInput
input_of d p w = record {
  in_user_id = d.user_id;
  in_device_id = d.id;
  in_provider = p;
  in_window_kind = w.kind;
  in_reset_at = w.reset_at;
  in_used_percent = w.used_percent;
}

-- The loop over the windows, each with the identifier and the clock's reading of its upsert. Each
-- upsert commits on its own.
unfoldable pub persist :
    Engine
    → Device
    → Provider
    → ℕ
    → List Event
    → List (Option UsageWindow × Text × ℕ)
    → List Event × Reply
persist db d p combine t [] = (t, accepted)
persist db d p combine t ((none, new_id, now) ∷ ws) = persist db d p combine t ws
persist db d p combine t ((some w, new_id, now) ∷ ws) =
    elim (upsert_pending_event db t (input_of d p w) new_id combine now) [
      | ok u i created ↦ persist db d p combine u ws
      | err e ↦ (t, failure 500 (ascii "persistence_failed") [])
    ]

unfoldable pub handle_usage :
    (Text → Option ℕ)
    → Engine
    → ℕ
    → Device
    → List Event
    → Text
    → Body UsageRequest
    → ℕ
    → Text
    → ℕ
    → Text
    → ℕ
    → List Event × Reply
handle_usage parse_time db combine d t content_type body now first first_now second second_now =
    elim (check_body parse_time content_type body now) [
      | inl (status, code, detail) ↦ (t, failure status code detail)
      | inr s ↦
          persist db d s.provider combine t
            ((s.five_hour_window, first, first_now) ∷ (s.weekly_window, second, second_now) ∷ [])
    ]
