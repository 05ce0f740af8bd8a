-- ===== src/Tests/ClientRuns.antt =====
-- Runs of the agent, the installer, the domain's checks and the pairing codes.
use ai_limit_notifier.Prelude.{
  ℕ, zero, suc, ◌+◌, ◌-◌, ◌*◌, ◌^◌, ◌≤◌, ◌<◌, ◌≡◌, ◌≢◌, ◌↔◌, ◌⊎◌, inl, inr, refl, Bool, true, false,
  not, ◌&&◌, if◌then◌else◌, ◌==◌, Text, ascii, List, [], ◌∷◌, ◌++◌, map, Option, none, some, second,
  minute, length, arith, unix,
}
use ai_limit_notifier.Domain.{
  codex, five_hour, float_unit, percent, UsageWindow, UsageSnapshot, should_schedule_reset,
  validate_snapshot,
}
use ai_limit_notifier.Domain.Validate.{IsSnapshot, validate_snapshot_iff}
use ai_limit_notifier.Agent.{
  Core, DedupKey, Answer, Observed, new_core, already_sent, observe_all, observe_window, event_key,
}
use ai_limit_notifier.Agent.Dedup.{
  confirmed, count_if, window_event, confirmed-observe_all, observe_window_retries,
}
use ai_limit_notifier.Installer.Quote.{parse_shell_quoted_words, join_quoted}
use ai_limit_notifier.Installer.RoundTrip.{parse_shell_quoted_words_iff}
use ai_limit_notifier.Installer.StatusLine.{build_status_line_command, parse_fail_open_command}
use ai_limit_notifier.Installer.Classify.{parse_fail_open_iff}
use ai_limit_notifier.Auth.{
  code_char, generate_pairing_code, normalize_pairing_code, validate_pairing_code_format,
}
use ai_limit_notifier.Auth.Codes.{lower_byte, upper_byte, code-accepted}
use ai_limit_notifier.Tests.Sample.{at_second}

abbrev window : UsageWindow
window = record { kind = five_hour; used_percent = percent 90; reset_at = at_second 5000 }

abbrev snapshot : UsageSnapshot
snapshot = record { provider = codex; five_hour_window = some window; weekly_window = none }

abbrev refuses : ℕ → Answer
refuses n = record { accepted = false; cancelled = false; cancelled_waiting = false }

abbrev accepts : ℕ → Answer
accepts n = record { accepted = true; cancelled = false; cancelled_waiting = false }

abbrev key : DedupKey
key = event_key (window_event codex window (at_second 1000))

abbrev observations : List Observed
observations =
    record {
      snapshot = snapshot;
      answers = refuses;
      observed_now = at_second 1000;
      weekly_answers = refuses;
      weekly_now = at_second 1001;
    }
    ∷ record {
      snapshot = snapshot;
      answers = accepts;
      observed_now = at_second 1100;
      weekly_answers = accepts;
      weekly_now = at_second 1101;
    }
    ∷ record {
      snapshot = snapshot;
      answers = accepts;
      observed_now = at_second 1200;
      weekly_answers = accepts;
      weekly_now = at_second 1201;
    }
    ∷ []

abbrev core : Core
core = new_core (percent 80)

confirmed-observe_all_example :
    confirmed key (observe_all core observations).1.calls + count_if (already_sent core key)
    ≡ count_if (already_sent (observe_all core observations).0 key)
confirmed-observe_all_example = confirmed-observe_all core observations key

observe_window_retries_example :
    let (c', s) = observe_window core codex (some window) refuses (at_second 1000) in
    let (c'', t) = observe_window c' codex (some window) accepts (at_second 1100) in
    (confirmed key (s.calls ++ t.calls) ≡ 1) × (already_sent c'' key ≡ true)
unfolding should_schedule_reset new_core float_unit already_sent ai_limit_notifier.Prelude.any_row
observe_window_retries_example =
    observe_window_retries core codex window refuses accepts (at_second 1000) (at_second 1100) refl
      refl refl

parse_shell_quoted_words_iff_example :
    (parse_shell_quoted_words (ascii "'a b' 'c'") ≡ some (ascii "a b" ∷ ascii "c" ∷ []))
    ↔ (ascii "'a b' 'c'" ≡ join_quoted (ascii "a b" ∷ ascii "c" ∷ []))
parse_shell_quoted_words_iff_example =
    parse_shell_quoted_words_iff (ascii "'a b' 'c'") (ascii "a b" ∷ ascii "c" ∷ [])

abbrev built : Text
built = build_status_line_command (ascii "/usr/bin/ai-limit-notifier") (ascii "echo 'hi'")

parse_fail_open_iff_example :
    (parse_fail_open_command built ≡ some (ascii "echo 'hi'"))
    ↔ ((binary : Text) × (built ≡ build_status_line_command binary (ascii "echo 'hi'")))
parse_fail_open_iff_example = parse_fail_open_iff built (ascii "echo 'hi'")

validate_snapshot_iff_example :
    (validate_snapshot snapshot (at_second 1000) ≡ none) ↔ IsSnapshot (at_second 1000) snapshot
validate_snapshot_iff_example = validate_snapshot_iff snapshot (at_second 1000)

abbrev random : Text
random = 0 ∷ 33 ∷ 66 ∷ 99 ∷ 132 ∷ 165 ∷ 198 ∷ 231 ∷ 255 ∷ 31 ∷ []

code-accepted_example :
    (normalize_pairing_code (map upper_byte) (λ s. s) (generate_pairing_code random)
      ≡ map code_char random)
    × (normalize_pairing_code
          (map upper_byte)
          (λ s. s)
          (map lower_byte (generate_pairing_code random))
        ≡ map code_char random)
    × (validate_pairing_code_format (map code_char random) ≡ true)
code-accepted_example =
    code-accepted (map upper_byte) (λ s. s) (λ s v. refl) (λ s v. refl) random refl
