-- ===== src/Domain/Validate.antt =====
-- What the checks of internal/domain/usage.go accept.
use ai_limit_notifier.Prelude.{
  ℕ, ◌+◌, ◌*◌, ◌≤◌, ◌<◌, ◌≡◌, ◌≢◌, ◌↔◌, ◌⊎◌, true, Option, none, some, arith, minute, refl, inl,
  inr, ltb, Bool-cases,
}
use ai_limit_notifier.Prelude.Int.{pos, negsuc}
use ai_limit_notifier.Domain.{
  codex, claude, five_hour, weekly, Float64, nan, pos_inf, neg_inf, finite, float_unit, UsageWindow,
  UsageSnapshot, should_schedule_reset, clamp_percent, validate_window, validate_snapshot,
  WindowKind, ValidateError, validate_field, wrong_five_hour_kind, wrong_weekly_kind,
}

-- A finite percentage from 0 to `top`.
abbrev pub IsPercent : ℕ → Float64 → Type 0
IsPercent top x = (n : ℕ) × (x ≡ finite (pos n)) × (n ≤ top * float_unit)

pub record IsWindow (now : ℕ) (w : UsageWindow) : Type 0 where
  pub known_kind : (w.kind ≡ five_hour) ⊎ (w.kind ≡ weekly)
  pub percent_in_range : IsPercent 100 w.used_percent
  pub reset_set : 0 < w.reset_at
  pub reset_fresh : now ≤ w.reset_at + 5 * minute

-- An absent window, or a valid one of the given kind.
abbrev pub IsField : WindowKind → ℕ → Option UsageWindow → Type 0
IsField kind now none = Unit {0}
IsField kind now (some w) = (w.kind ≡ kind) × IsWindow now w

pub record IsSnapshot (now : ℕ) (s : UsageSnapshot) : Type 0 where
  pub known_provider : (s.provider ≡ codex) ⊎ (s.provider ≡ claude)
  pub some_window : (s.five_hour_window ≢ none) ⊎ (s.weekly_window ≢ none)
  pub five_hour_valid : IsField five_hour now s.five_hour_window
  pub weekly_valid : IsField weekly now s.weekly_window

-- A window is accepted exactly when its kind is known, its percentage is a finite number from 0
-- to 100, and its reset time is set and at most five minutes past.
pub validate_window_iff :
    (w : UsageWindow) (now : ℕ) → (validate_window w now ≡ none) ↔ IsWindow now w
unfolding validate_window
validate_window_iff w now = (λ h. ground arith, λ v. ground arith)

validate_field_iff :
    (o : Option UsageWindow) (kind : WindowKind) (wrong : ValidateError) (now : ℕ)
    → (validate_field o kind wrong now ≡ none) ↔ IsField kind now o
unfolding validate_field
validate_field_iff none kind wrong now = (λ h. tt, λ v. ground arith)
validate_field_iff (some w) kind wrong now = (
  λ h. ground (arith, (validate_window_iff w now).0),
  λ v. ground (arith, (validate_window_iff w now).1),
)

-- A snapshot is accepted exactly when its provider is known, one of its windows is present, and
-- each present window is valid and stands in the field of its kind.
pub validate_snapshot_iff :
    (s : UsageSnapshot) (now : ℕ) → (validate_snapshot s now ≡ none) ↔ IsSnapshot now s
unfolding validate_snapshot
validate_snapshot_iff s now =
    let five = validate_field_iff s.five_hour_window five_hour wrong_five_hour_kind now in
    let week = validate_field_iff s.weekly_window weekly wrong_weekly_kind now in
    (λ h. ground (arith, five.0, week.0), λ v. ground (arith, five.1, week.1))

-- A reset is scheduled exactly when the threshold lies above 0 and up to 100 and the usage is
-- finite and not below it.
pub should_schedule_reset_iff :
    (used threshold : Float64)
    → (should_schedule_reset used threshold ≡ true) ↔ (
        (t : ℕ) × (u : ℕ) × (threshold ≡ finite (pos t))
        × (used ≡ finite (pos u))
        × (0 < t)
        × (t ≤ 100 * float_unit)
        × (t ≤ u))
unfolding should_schedule_reset
should_schedule_reset_iff used threshold = (λ h. ground arith, λ v. ground arith)

clamp_percent_range : (x : Float64) → x ≢ nan → IsPercent 100 (clamp_percent x)
unfolding clamp_percent float_unit
clamp_percent_range nan h = absurd (h refl)
clamp_percent_range pos_inf h = (100 * float_unit, refl, omega arith)
clamp_percent_range neg_inf h = (0, refl, omega arith)
clamp_percent_range (finite (negsuc n)) h = (0, ground arith, omega arith)
clamp_percent_range (finite (pos n)) h = elim (Bool-cases (ltb (100 * float_unit) n)) [
  | inl big ↦ (100 * float_unit, ground arith, omega arith)
  | inr small ↦ (n, ground arith, ground arith)
]

clamp_percent_keeps : (x : Float64) → IsPercent 100 x → clamp_percent x ≡ x
unfolding clamp_percent
clamp_percent_keeps x h = ground arith

-- A percentage that is a number is clamped into the range from 0 to 100, and one that is in the
-- range already is kept.
pub clamp_percent_lem :
    (x : Float64)
    → x ≢ nan
    → IsPercent 100 (clamp_percent x) × (IsPercent 100 x → clamp_percent x ≡ x)
clamp_percent_lem x h = (clamp_percent_range x h, clamp_percent_keeps x)
