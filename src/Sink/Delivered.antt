-- ===== src/Sink/Delivered.antt =====
-- What the server reads of a submission (internal/sink/httpsink.go and
-- internal/server/api/handlers.go together).
use mathlib.Core.Path.{subst}
use ai_limit_notifier.Prelude.{
  ℕ, ◌+◌, ◌*◌, ◌≤◌, ◌≡◌, ◌⊎◌, inl, inr, refl, false, ◌||◌, Text, text_discrete, ℕ_discrete, ascii,
  List, Option, none, some, second, minute, hour, unix, ltb, arith,
}
use ai_limit_notifier.Domain.{
  other_provider, other_kind, Provider-discrete, Provider, codex, claude, WindowKind, five_hour,
  weekly, Float64, percent, float_lt, is_nan, is_inf, UsageWindow, UsageSnapshot, validate_snapshot,
}
use ai_limit_notifier.Domain.Validate.{IsPercent, IsWindow, validate_snapshot_iff}
use ai_limit_notifier.Agent.{Event}
use ai_limit_notifier.Store
use ai_limit_notifier.Store.Event.{Engine}
use ai_limit_notifier.Store.Integrity.{IsTable}
use ai_limit_notifier.Store.Devices.{Device}
use ai_limit_notifier.Api.Acks.{Stored, usage-persisted}
use ai_limit_notifier.Api.Reply.{Reply, accepted, decoded}
use ai_limit_notifier.Api.Usage.{
  WindowRequest, parse_window, parse_field, check_snapshot, check_windows, check_request,
  check_body, handle_usage,
}
use ai_limit_notifier.Sink.{build_payload}

abbrev pub whole : ℕ → ℕ
whole t = unix t * second

-- An event of the agent that a server accepts at the given time.
pub record Sendable (now : ℕ) (ev : Event) : Type 0 where
  pub known_provider : (ev.provider ≡ codex) ⊎ (ev.provider ≡ claude)
  pub known_window : (ev.window ≡ five_hour) ⊎ (ev.window ≡ weekly)
  pub in_range : IsPercent 100 ev.used_percent
  pub reset_after_start : second ≤ ev.reset_at
  pub reset_fresh : now ≤ whole ev.reset_at + 5 * minute
  pub reset_near : whole ev.reset_at ≤ now + 216 * hour
  pub observed_fresh : now ≤ whole ev.observed_at + 24 * hour
  pub observed_near : whole ev.observed_at ≤ now + 24 * hour

abbrev pub window_of : Event → UsageWindow
window_of ev = record {
  kind = ev.window;
  used_percent = ev.used_percent;
  reset_at = whole ev.reset_at;
}

abbrev put_window : WindowKind → UsageWindow → UsageSnapshot → UsageSnapshot
put_window weekly w s = record s { weekly_window = some w }
put_window _ w s = record s { five_hour_window = some w }

-- The snapshot with the event's window and no other.
abbrev pub snapshot_of : Event → UsageSnapshot
snapshot_of ev =
    put_window ev.window (window_of ev)
      (record { provider = ev.provider; five_hour_window = none; weekly_window = none })

percent-passes :
    (x : Float64)
    → IsPercent 100 x
    → (is_nan x || is_inf x || float_lt x (percent 0) || float_lt (percent 100) x) ≡ false
percent-passes x (n, e, le) = rw e (ground (arith, le))

module _ (parse_time : Text → Option ℕ) (format_time : ℕ → Text) (now : ℕ) (ev : Event)
    (reset : parse_time (format_time ev.reset_at) ≡ some (whole ev.reset_at))
    (observed : parse_time (format_time ev.observed_at) ≡ some (whole ev.observed_at))
    (ok : Sendable now ev) where
  abbrev as_sent : Provider → WindowKind → Event
  as_sent p k = record ev { provider = p; window = k }

  window-read :
      (k : WindowKind)
      → parse_window parse_time
          (record { used_percent = ev.used_percent; reset_at = format_time ev.reset_at })
          k
          now
        ≡ inr (record { kind = k; used_percent = ev.used_percent; reset_at = whole ev.reset_at })
  unfolding parse_window
  window-read k =
      let late : ltb (whole ev.reset_at + 5 * minute) now ≡ false =
        ground (arith, ok.reset_fresh) in
      let early : ltb (now + 216 * hour) (whole ev.reset_at) ≡ false =
        ground (arith, ok.reset_near) in
      rw (percent-passes ev.used_percent ok.in_range, reset, late, early) refl

  sent-IsWindow :
      (k : WindowKind)
      → (k ≡ five_hour) ⊎ (k ≡ weekly)
      → IsWindow now
          (record { kind = k; used_percent = ev.used_percent; reset_at = whole ev.reset_at })
  sent-IsWindow k known = record {
    known_kind = known;
    percent_in_range = ok.in_range;
    reset_set = ground (arith, ok.reset_after_start);
    reset_fresh = ok.reset_fresh;
  }

  five-valid :
      (p : Provider)
      → (p ≡ codex) ⊎ (p ≡ claude)
      → validate_snapshot (snapshot_of (as_sent p five_hour)) now ≡ none
  five-valid p known = (validate_snapshot_iff (snapshot_of (as_sent p five_hour)) now).1 (record {
    known_provider = known;
    some_window = inl (λ e. absurd (ground arith));
    five_hour_valid = (refl, sent-IsWindow five_hour (inl refl));
    weekly_valid = tt;
  })

  weekly-valid :
      (p : Provider)
      → (p ≡ codex) ⊎ (p ≡ claude)
      → validate_snapshot (snapshot_of (as_sent p weekly)) now ≡ none
  weekly-valid p known = (validate_snapshot_iff (snapshot_of (as_sent p weekly)) now).1 (record {
    known_provider = known;
    some_window = inr (λ e. absurd (ground arith));
    five_hour_valid = tt;
    weekly_valid = (refl, sent-IsWindow weekly (inr refl));
  })

  abbrev requested : WindowRequest
  requested = record { used_percent = ev.used_percent; reset_at = format_time ev.reset_at }

  field-read :
      (k : WindowKind) (name : Text)
      → parse_field parse_time (some requested) k name now
        ≡ inr (
            some
              (record { kind = k; used_percent = ev.used_percent; reset_at = whole ev.reset_at }))
  unfolding parse_field
  field-read k name = rw (window-read k, parse_field) refl

  field-none : (k : WindowKind) (name : Text) → parse_field parse_time none k name now ≡ inr none
  unfolding parse_field
  field-none k name = refl

  snapshot-read :
      (s : UsageSnapshot) → validate_snapshot s now ≡ none → check_snapshot parse_time s now ≡ inr s
  unfolding check_snapshot
  snapshot-read s h = rw (h, check_snapshot) refl

  windows-read :
      (p : Provider) (k : WindowKind)
      → (p ≡ codex) ⊎ (p ≡ claude)
      → (k ≡ five_hour) ⊎ (k ≡ weekly)
      → check_windows parse_time (build_payload format_time (as_sent p k)) now
        ≡ inr (snapshot_of (as_sent p k))
  unfolding check_windows build_payload text_discrete ℕ_discrete
  windows-read codex five_hour hp hk =
      rw
        (
          field-read five_hour (ascii "five_hour"),
          field-none weekly (ascii "weekly"),
          check_windows,
        )
        (snapshot-read (snapshot_of (as_sent codex five_hour)) (five-valid codex hp))
  windows-read codex weekly hp hk =
      rw
        (
          field-none five_hour (ascii "five_hour"),
          field-read weekly (ascii "weekly"),
          check_windows,
        )
        (snapshot-read (snapshot_of (as_sent codex weekly)) (weekly-valid codex hp))
  windows-read claude five_hour hp hk =
      rw
        (
          field-read five_hour (ascii "five_hour"),
          field-none weekly (ascii "weekly"),
          check_windows,
        )
        (snapshot-read (snapshot_of (as_sent claude five_hour)) (five-valid claude hp))
  windows-read claude weekly hp hk =
      rw
        (
          field-none five_hour (ascii "five_hour"),
          field-read weekly (ascii "weekly"),
          check_windows,
        )
        (snapshot-read (snapshot_of (as_sent claude weekly)) (weekly-valid claude hp))
  windows-read (other_provider s) k hp hk = absurd (ground arith)
  windows-read codex (other_kind s) hp hk = absurd (ground arith)
  windows-read claude (other_kind s) hp hk = absurd (ground arith)

  abbrev Submitted : Event → Type 0
  Submitted e = check_request parse_time (build_payload format_time e) now ≡ inr (snapshot_of e)

  -- For each provider and each kind of window.
  submitted :
      (p : Provider) (k : WindowKind)
      → (p ≡ codex) ⊎ (p ≡ claude)
      → (k ≡ five_hour) ⊎ (k ≡ weekly)
      → Submitted (as_sent p k)
  unfolding check_request build_payload text_discrete ℕ_discrete Provider-discrete
  submitted p k hp hk =
      let late : ltb (now + 24 * hour) (whole ev.observed_at) ≡ false =
        ground (arith, ok.observed_near) in
      let early : ltb (whole ev.observed_at + 24 * hour) now ≡ false =
        ground (arith, ok.observed_fresh) in
      by_case p k hp hk late early
    where
      by_case :
          (p : Provider) (k : WindowKind)
          → (p ≡ codex) ⊎ (p ≡ claude)
          → (k ≡ five_hour) ⊎ (k ≡ weekly)
          → ltb (now + 24 * hour) (whole ev.observed_at) ≡ false
          → ltb (whole ev.observed_at + 24 * hour) now ≡ false
          → Submitted (as_sent p k)
      by_case codex five_hour hp hk late early =
          rw (observed, late, early) (windows-read codex five_hour hp hk)
      by_case codex weekly hp hk late early =
          rw (observed, late, early) (windows-read codex weekly hp hk)
      by_case claude five_hour hp hk late early =
          rw (observed, late, early) (windows-read claude five_hour hp hk)
      by_case claude weekly hp hk late early =
          rw (observed, late, early) (windows-read claude weekly hp hk)
      by_case (other_provider s) k hp hk late early = absurd (ground arith)
      by_case codex (other_kind s) hp hk late early = absurd (ground arith)
      by_case claude (other_kind s) hp hk late early = absurd (ground arith)

  -- A server that gets what the sink posts for an event that it can accept reads the event's
  -- provider and its window, with the reset time in whole seconds, and no other window.
  pub submission-read :
      check_body parse_time (ascii "application/json") (decoded (build_payload format_time ev)) now
      ≡ inr (snapshot_of ev)
  unfolding check_body check_request build_payload text_discrete ℕ_discrete
  submission-read = submitted ev.provider ev.window ok.known_provider ok.known_window

  module _ (db : Engine) (combine : ℕ) (d : Device) (t : List Store.Event.Event) (i j : Text)
      (first_now second_now : ℕ) where
    abbrev answered : List Store.Event.Event × Reply
    answered =
        handle_usage parse_time db combine d t (ascii "application/json")
          (decoded (build_payload format_time ev)) now i first_now j second_now

    window-Stored :
        (k : WindowKind)
        → (k ≡ five_hour) ⊎ (k ≡ weekly)
        → (u : List Store.Event.Event)
        → let s = snapshot_of (as_sent ev.provider k) in
          Stored d s.provider s.five_hour_window u
          → Stored d s.provider s.weekly_window u
          → Stored d ev.provider (some (window_of (as_sent ev.provider k))) u
    window-Stored five_hour known u first second = first
    window-Stored weekly known u first second = second
    window-Stored (other_kind s) known u first second = absurd (ground arith)

    -- For an event of Codex or Claude, of one of the two kinds of window, with a percentage in range
    -- and times near the server's, and a time format that is read back to the second: if a
    -- well-formed server acknowledges what the sink posts, its table has a row for the event, of
    -- the device's user, the provider, the kind of window and the reset time in whole seconds.
    pub submission-Stored :
        IsTable t → answered.1 ≡ accepted → Stored d ev.provider (some (window_of ev)) answered.0
    submission-Stored v done =
        let (s, read, _, first, second) =
          usage-persisted parse_time db combine d t (ascii "application/json")
            (decoded (build_payload format_time ev)) now i j first_now second_now v done in
        let same_snapshot : s ≡ snapshot_of ev = ground (arith, read, submission-read) in
        window-Stored ev.window ok.known_window answered.0
          (subst (λ x. Stored d x.provider x.five_hour_window answered.0) same_snapshot first)
          (subst (λ x. Stored d x.provider x.weekly_window answered.0) same_snapshot second)
