-- ===== src/Tests/LinkRuns.antt =====
-- Runs of the adapters, the sink, the commands and the quoted words, and the theorems applied.
use ai_limit_notifier.Prelude.{
  ℕ, ◌+◌, ◌*◌, ◌≡◌, ◌≢◌, ◌↔◌, refl, inl, inr, Bool, true, false, Text, ascii, List, [], ◌∷◌, Option,
  none, some, any_row, arith, if◌then◌else◌, minute, hour, second,
}
use ai_limit_notifier.Prelude.Int.{pos}
use ai_limit_notifier.Domain.{
  codex, five_hour, Float64, percent, finite, float_unit, UsageSnapshot, validate_snapshot,
}
use ai_limit_notifier.Files.{Machine, Place, config_file, File}
use ai_limit_notifier.LocalConfig.{Config, threshold}
use ai_limit_notifier.Adapters.{
  CodexWindow, take_window, codex_window_from, codex_snapshot, time_unix,
}
use ai_limit_notifier.Adapters.Valid.{Current, codex_snapshot-valid}
use ai_limit_notifier.Agent.{Event}
use ai_limit_notifier.Api.Reply.{decoded, accepted}
use ai_limit_notifier.Api.Usage.{check_body, handle_usage, input_of}
use ai_limit_notifier.Store.Upsert.{key_of}
use ai_limit_notifier.Store.Event.{same}
use ai_limit_notifier.Tests.Sample.{in_order, laptop}
use ai_limit_notifier.Api.Pair.{PairRequest}
use ai_limit_notifier.Sink.{HttpSink, new_sink, build_payload, Exchange, answer}
use ai_limit_notifier.Sink.Delivered.{
  Sendable, snapshot_of, whole, window_of, submission-read, submission-Stored,
}
use ai_limit_notifier.Sink.Secure.{MaySend, Unslashed, new_sink_iff}
use ai_limit_notifier.Installer.Quote.{parse_words, parse_shell_quoted_words}
use ai_limit_notifier.Installer.Fuel.{parse_words-enough}
use ai_limit_notifier.Installer.Plan.{Json}
use ai_limit_notifier.Installer.Calm.{Runs}
use ai_limit_notifier.Commands.{Shell, run_link, pair_with_server}
use ai_limit_notifier.Commands.Linking.{
  config_at, linked_config, server_url_of, Kept, run_link-keeps_threshold,
}

parse_words-enough_example :
    parse_words 9 (ascii "'a' 'b'") ≡ parse_shell_quoted_words (ascii "'a' 'b'")
parse_words-enough_example = parse_words-enough 9 (ascii "'a' 'b'") (omega arith)

abbrev five : CodexWindow
five = record {
  codex_used_percent = some (percent 90);
  window_duration_mins = some (pos 300);
  codex_resets_at = some (pos 1000);
}

abbrev two_hours : ℕ
two_hours = time_unix 900

five-Current : Current two_hours (codex_snapshot none (some five))
unfolding codex_snapshot take_window codex_window_from float_unit
five-Current = (inl (λ e. absurd (ground arith)), omega arith, tt)

codex_snapshot-valid_example : validate_snapshot (codex_snapshot none (some five)) two_hours ≡ none
codex_snapshot-valid_example =
    codex_snapshot-valid none (some five) two_hours tt (λ e. absurd (ground arith)) five-Current

abbrev as_url : Text → Option (Text × Text)
as_url t = some (ascii "https", ascii "host")

abbrev host_sink : HttpSink
host_sink = record { base_url = ascii "https://host"; token = ascii "tok" }

new_sink_iff_example : (new_sink as_url (ascii "https://host/") (ascii "tok") ≡ some host_sink) ↔ (
    (u : Text × Text) × (as_url (ascii "https://host/") ≡ some u)
    × MaySend u
    × (ascii "tok" ≢ [])
    × (host_sink.token ≡ ascii "tok")
    × Unslashed (ascii "https://host/") host_sink.base_url)
new_sink_iff_example = new_sink_iff as_url (ascii "https://host/") (ascii "tok") host_sink

-- A clock format that is not RFC 3339: the seconds as one byte.
abbrev byte_time : ℕ → Text
byte_time t = (whole t) ∷ []

abbrev time_byte : Text → Option ℕ
time_byte (n ∷ []) = some n
time_byte _ = none

abbrev seen : Event
seen = record {
  provider = codex;
  window = five_hour;
  used_percent = percent 90;
  reset_at = 5000 * second + 7;
  observed_at = 4000 * second + 9;
}

seen-Sendable : Sendable (4001 * second) seen
seen-Sendable = record {
  known_provider = inl refl;
  known_window = inl refl;
  in_range = (90 * float_unit, refl, omega arith);
  reset_after_start = omega arith;
  reset_fresh = omega arith;
  reset_near = omega arith;
  observed_fresh = omega arith;
  observed_near = omega arith;
}

submission-read_example :
    check_body time_byte
      (ascii "application/json")
      (decoded (build_payload byte_time seen))
      (4001 * second)
    ≡ inr (snapshot_of seen)
submission-read_example =
    submission-read time_byte byte_time (4001 * second) seen refl refl seen-Sendable

seen_accepted :
    (handle_usage time_byte in_order
      (10 * minute)
      laptop
      []
      (ascii "application/json")
      (decoded (build_payload byte_time seen))
      (4001 * second)
      (ascii "e1")
      (4001 * second)
      (ascii "e2")
      (4001 * second)).1
    ≡ accepted
unfolding handle_usage check_body ai_limit_notifier.Prelude.text_discrete
    ai_limit_notifier.Prelude.ℕ_discrete ai_limit_notifier.Api.Usage.check_request build_payload
    ai_limit_notifier.Domain.Provider-discrete ai_limit_notifier.Api.Usage.check_windows
    ai_limit_notifier.Api.Usage.parse_field ai_limit_notifier.Api.Usage.parse_window float_unit
    ai_limit_notifier.Api.Usage.check_snapshot validate_snapshot
    ai_limit_notifier.Domain.validate_field ai_limit_notifier.Domain.WindowKind-discrete
    ai_limit_notifier.Domain.validate_window ai_limit_notifier.Api.Usage.persist any_row
    ai_limit_notifier.Prelude.keep ai_limit_notifier.Prelude.update_where
    ai_limit_notifier.Store.Event.query ai_limit_notifier.Store.Event.query_row
    ai_limit_notifier.Store.Upsert.commit ai_limit_notifier.Store.Upsert.cover_later
    ai_limit_notifier.Store.Upsert.find_partner ai_limit_notifier.Store.Upsert.insert_row
    ai_limit_notifier.Store.Upsert.later_first ai_limit_notifier.Store.Upsert.link_and_commit
    ai_limit_notifier.Store.Upsert.link_combinable ai_limit_notifier.Store.Upsert.link_partner
    ai_limit_notifier.Store.Upsert.move_in_place ai_limit_notifier.Store.Upsert.upsert_found
    ai_limit_notifier.Store.Upsert.upsert_new ai_limit_notifier.Store.Upsert.upsert_pending
    ai_limit_notifier.Store.Upsert.upsert_pending_event
seen_accepted = refl

submission-Stored_example :
    any_row
      (key_of (input_of laptop codex (window_of seen)))
      (handle_usage time_byte in_order
        (10 * minute)
        laptop
        []
        (ascii "application/json")
        (decoded (build_payload byte_time seen))
        (4001 * second)
        (ascii "e1")
        (4001 * second)
        (ascii "e2")
        (4001 * second)).0
    ≡ true
submission-Stored_example =
    submission-Stored time_byte byte_time (4001 * second) seen refl refl seen-Sendable in_order
      (10 * minute) laptop [] (ascii "e1") (ascii "e2") (4001 * second) (4001 * second)
      (record { ids = tt; keys = tt; rows = tt }) seen_accepted

abbrev old_config : Config
old_config = record {
  schema_version = 1;
  server_url = ascii "https://host";
  device_id = ascii "d1";
  device_token = ascii "t1";
  notification_threshold = percent 65;
}

abbrev relinked : Config
relinked = record old_config { device_id = ascii "d9"; device_token = ascii "t9" }

abbrev two_configs : Json
two_configs = record {
  parse_config = λ t. if same t (ascii "old") then some old_config else some relinked;
  print_config = λ c. some (ascii "new");
  parse_manifest = λ t. none;
  print_manifest = λ mf. [];
  settings_json = record {
    parse_fields = λ t. none;
    print_fields = λ fs. [];
    parse_command = λ t. none;
    print_command = λ c. c;
    is_variant = λ key. false;
  };
}

abbrev config_only : Place → Option File
config_only config_file = some (record { content = ascii "old"; mode = 384 })
config_only _ = none

abbrev linked_before : Machine
linked_before = record {
  files = config_only;
  unit_enabled = false;
  unit_active = false;
  fates = [];
  temps = 0;
}

abbrev bare_shell : Shell
bare_shell = record {
  env_server_url = [];
  env_device_token = [];
  platform = ascii "linux-amd64";
  client_version = ascii "1";
  shell_systemd = true;
}

abbrev pairs_well : Text → Option (Bool × Text × Text)
pairs_well t = some (true, ascii "d9", ascii "t9")

abbrev answers_well : Text → PairRequest → Exchange
answers_well url request = answer 200 (some [])

old-there : config_at two_configs linked_before ≡ some old_config
unfolding config_at ai_limit_notifier.Prelude.text_discrete ai_limit_notifier.Prelude.ℕ_discrete
old-there = refl

paired_well :
    pair_with_server two_configs as_url bare_shell pairs_well answers_well
      (server_url_of two_configs as_url bare_shell [] old_config)
      (ascii "CODE")
    ≡ some (ascii "d9", ascii "t9")
unfolding pair_with_server ai_limit_notifier.Prelude.text_discrete
    ai_limit_notifier.Prelude.ℕ_discrete
paired_well = refl

relinked-Kept : Kept two_configs (
    linked_config
      (server_url_of two_configs as_url bare_shell [] old_config)
      (ascii "d9")
      (ascii "t9")
      old_config)
unfolding ai_limit_notifier.Prelude.text_discrete ai_limit_notifier.Prelude.ℕ_discrete
relinked-Kept = (ascii "new", refl, refl)

run_link-keeps_threshold_example :
    (k : Machine) × (s : Config) × Runs
      (run_link two_configs as_url bare_shell pairs_well answers_well [] (ascii "CODE"))
      linked_before
      0
      k
    × (config_at two_configs k ≡ some s)
    × (threshold s ≡ threshold old_config)
    × (s.server_url ≡ server_url_of two_configs as_url bare_shell [] old_config)
    × (s.device_id ≡ ascii "d9")
    × (s.device_token ≡ ascii "t9")
run_link-keeps_threshold_example =
    run_link-keeps_threshold two_configs as_url bare_shell pairs_well answers_well [] (ascii "CODE")
      (ascii "d9") (ascii "t9") linked_before old_config old-there refl paired_well relinked-Kept
