-- ===== src/Sink.antt =====
-- internal/sink/httpsink.go: one submission of an event to the server.
pub mod Delivered
pub mod Secure
use ai_limit_notifier.Prelude.{
  ℕ, zero, suc, ◌*◌, Bool, true, false, not, ◌&&◌, ◌||◌, ◌==◌, if◌then◌else◌, Text, ascii, List, [],
  ◌∷◌, ◌++◌, take, Option, none, some,
}
use ai_limit_notifier.Domain.{
  Provider, codex, claude, other_provider, WindowKind, five_hour, weekly, other_kind,
}
use ai_limit_notifier.Store.Event.{same}
use ai_limit_notifier.Agent.{Event}
use ai_limit_notifier.Api.Usage.{UsageRequest, WindowRequest}

pub record HttpSink : Type 0 where
  pub base_url : Text
  pub token : Text

abbrev pub is_loopback_host : Text → Bool
is_loopback_host host =
    same host (ascii "localhost") || same host (ascii "127.0.0.1") || same host (ascii "::1")

-- `strings.TrimSuffix(s, "/")`
unfoldable pub trim_slash : Text → Text
trim_slash [] = []
trim_slash (c ∷ []) = if c == b'/' then [] else c ∷ []
trim_slash (c ∷ d ∷ s) = c ∷ trim_slash (d ∷ s)

abbrev pub secure : Text × Text → Bool
secure (scheme, host) = same scheme (ascii "https") || is_loopback_host host

abbrev pub is_empty : Text → Bool
is_empty [] = true
is_empty (c ∷ s) = false

-- `url.Parse` gives the scheme and the host's name, or an error.
unfoldable pub new_sink : (Text → Option (Text × Text)) → Text → Text → Option HttpSink
unfolding trim_slash
new_sink parse_url endpoint token = elim (parse_url endpoint) [
  | none ↦ none
  | some u ↦
      if not (secure u)
      then none
      else if is_empty token
      then none
      else some (record { base_url = trim_slash endpoint; token = token })
]

abbrev pub provider_text : Provider → Text
provider_text codex = ascii "codex"
provider_text claude = ascii "claude"
provider_text (other_provider s) = s

abbrev place_window : WindowKind → WindowRequest → UsageRequest → UsageRequest
place_window weekly w req = record req { weekly_request = some w }
place_window five_hour w req = record req { five_hour_request = some w }
place_window (other_kind s) w req = record req { five_hour_request = some w }

-- The fields of `usageRequestWire` have the names that the server decodes, so that one type
-- stands for both. `format_time` is the layout RFC3339 in UTC.
unfoldable pub build_payload : (ℕ → Text) → Event → UsageRequest
build_payload format_time ev =
    place_window ev.window
      (record { used_percent = ev.used_percent; reset_at = format_time ev.reset_at })
      (record {
        schema_version = 1;
        provider = provider_text ev.provider;
        observed_at = format_time ev.observed_at;
        five_hour_request = none;
        weekly_request = none;
      })

-- How an exchange ends: without an answer, or with a status and a body that may not be readable.
pub data Exchange : Type 0 where
  no_answer : Exchange
  answer : ℕ → Option Text → Exchange

abbrev acknowledged : Option (Bool × Bool) → Bool
acknowledged none = false
acknowledged (some (accepted, persisted)) = accepted && persisted

abbrev read_answer : (Text → Option (Bool × Bool)) → ℕ → Option Text → Bool
read_answer parse_ack status none = false
read_answer parse_ack status (some raw) =
    if not (status == 200) then false else acknowledged (parse_ack (take 8192 raw))

-- `Send`: the body that is posted, and whether it returns without an error. `parse_ack` decodes
-- the fields "accepted" and "persisted", which are false where they are absent.
unfoldable pub send :
    (ℕ → Text) → (Text → Option (Bool × Bool)) → Event → Exchange → UsageRequest × Bool
unfolding build_payload
send format_time parse_ack ev no_answer = (build_payload format_time ev, false)
send format_time parse_ack ev (answer status body) =
    (build_payload format_time ev, read_answer parse_ack status body)
