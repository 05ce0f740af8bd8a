-- ===== src/Domain.antt =====
-- internal/domain/usage.go: providers, usage windows and snapshots, and their validation.
pub mod Validate
use ai_limit_notifier.Prelude.{
  ℕ, ◌+◌, ◌*◌, ◌^◌, Bool, true, false, not, ◌&&◌, ◌||◌, Option, none, some, Text, text_discrete,
  ltb, ◌==◌, holds, if◌then◌else◌, minute, ℕ_discrete,
}
use ai_limit_notifier.Prelude.Int.{ℤ, pos, negsuc, ltb_ℤ}

-- A string type of the source; the last constructor stands for every other string.
pub data Provider : Type 0 where
  codex claude : Provider
  other_provider : Text → Provider

pub data WindowKind : Type 0 where
  five_hour weekly : WindowKind
  other_kind : Text → WindowKind

unfoldable pub Provider-discrete : Discrete Provider
Provider-discrete = hlevel ℕ_discrete

unfoldable pub WindowKind-discrete : Discrete WindowKind
WindowKind-discrete = hlevel ℕ_discrete

-- A float64. Every finite one is a whole multiple of 2^-1074, and `finite` counts those; the two
-- zeros are one value, which no comparison tells apart.
pub data Float64 : Type 0 where
  nan pos_inf neg_inf : Float64
  finite : ℤ → Float64

unfoldable pub float_unit : ℕ
float_unit = 2 ^ 1074

abbrev pub percent : ℕ → Float64
percent n = finite (pos (n * float_unit))

-- `a < b`
abbrev pub float_lt : Float64 → Float64 → Bool
float_lt (finite a) (finite b) = ltb_ℤ a b
float_lt (finite a) pos_inf = true
float_lt neg_inf (finite b) = true
float_lt neg_inf pos_inf = true
float_lt _ _ = false

abbrev pub is_nan : Float64 → Bool
is_nan nan = true
is_nan _ = false

-- `math.IsInf(a, 0)`
abbrev pub is_inf : Float64 → Bool
is_inf pos_inf = true
is_inf neg_inf = true
is_inf _ = false

-- `a <= b`; no comparison with a NaN holds.
abbrev pub float_le : Float64 → Float64 → Bool
float_le a b = not (is_nan a) && not (is_nan b) && not (float_lt b a)

pub record UsageWindow : Type 0 where
  pub kind : WindowKind
  pub used_percent : Float64
  pub reset_at : ℕ

pub record UsageSnapshot : Type 0 where
  pub provider : Provider
  pub five_hour_window : Option UsageWindow
  pub weekly_window : Option UsageWindow

abbrev pub default_schedule_threshold : Float64
default_schedule_threshold = percent 80

unfoldable pub clamp_percent : Float64 → Float64
clamp_percent value =
    if float_lt value (percent 0)
    then percent 0
    else if float_lt (percent 100) value
    then percent 100
    else value

unfoldable pub normalize_claude_used : Float64 → Float64
unfolding clamp_percent
normalize_claude_used used = clamp_percent used

unfoldable pub should_schedule_reset : Float64 → Float64 → Bool
should_schedule_reset used threshold =
    if float_le threshold (percent 0)
      || float_lt (percent 100) threshold
      || is_nan used
      || is_inf used
    then false
    else float_le threshold used

pub data ValidateError : Type 0 where
  unsupported_provider no_usage_window wrong_five_hour_kind wrong_weekly_kind : ValidateError
  unsupported_window percent_out_of_range reset_at_required reset_at_stale : ValidateError

abbrev pub is_provider : Provider → Provider → Bool
is_provider a b = holds (Provider-discrete a b)

abbrev pub is_kind : WindowKind → WindowKind → Bool
is_kind a b = holds (WindowKind-discrete a b)

-- `UsageWindow.Validate`. `t.Before(now.Add(-d))` is written `t + d < now`.
unfoldable pub validate_window : UsageWindow → ℕ → Option ValidateError
validate_window w now =
    if not (is_kind w.kind five_hour) && not (is_kind w.kind weekly)
    then some unsupported_window
    else if is_nan w.used_percent
        || is_inf w.used_percent
        || float_lt w.used_percent (percent 0)
        || float_lt (percent 100) w.used_percent
    then some percent_out_of_range
    else if w.reset_at == 0
    then some reset_at_required
    else if ltb (w.reset_at + 5 * minute) now
    then some reset_at_stale
    else none

-- One field of a snapshot: absent, of the wrong kind, or validated.
unfoldable pub validate_field :
    Option UsageWindow → WindowKind → ValidateError → ℕ → Option ValidateError
validate_field none kind wrong now = none
validate_field (some w) kind wrong now =
    if not (is_kind w.kind kind) then some wrong else validate_window w now

abbrev pub or_else : Option ValidateError → Option ValidateError → Option ValidateError
or_else (some e) rest = some e
or_else none rest = rest

abbrev pub is_none {ℓ} : {A : Type ℓ} → Option A → Bool
is_none none = true
is_none (some a) = false

-- `UsageSnapshot.Validate`
unfoldable pub validate_snapshot : UsageSnapshot → ℕ → Option ValidateError
validate_snapshot s now =
    if not (is_provider s.provider codex) && not (is_provider s.provider claude)
    then some unsupported_provider
    else if is_none s.five_hour_window && is_none s.weekly_window
    then some no_usage_window
    else or_else (validate_field s.five_hour_window five_hour wrong_five_hour_kind now)
        (validate_field s.weekly_window weekly wrong_weekly_kind now)
