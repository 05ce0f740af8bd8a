-- ===== src/Adapters/Valid.antt =====
-- The snapshots of the adapters against the checks of internal/domain/usage.go.
use ai_limit_notifier.Prelude.{
  ℕ, zero, suc, ◌+◌, ◌*◌, ◌≤◌, ◌<◌, ◌≡◌, ◌≢◌, ◌⊎◌, inl, inr, refl, sym, false, Option, none, some,
  minute, arith, Bool-cases,
}
use mathlib.Core.Path.{ap, subst}
use ai_limit_notifier.Prelude.Int.{ℤ, pos, negsuc}
use ai_limit_notifier.Domain.{
  claude, WindowKind, five_hour, weekly, Float64, nan, pos_inf, neg_inf, finite, percent, float_le,
  UsageWindow, UsageSnapshot, validate_snapshot,
}
use ai_limit_notifier.Domain.Validate.{IsPercent, IsField, validate_snapshot_iff}
use ai_limit_notifier.Adapters.{
  CodexWindow, ClaudeWindow, out_of_range, codex_read, codex_window_from, take_window,
  codex_snapshot, or_kept, claude_read, claude_window_from, parse_payload, dated, positive, is_int,
}

-- A window that is not reset too long ago.
abbrev pub Fresh : ℕ → Option UsageWindow → Type 0
Fresh now none = Unit {0}
Fresh now (some w) = now ≤ w.reset_at + 5 * minute

-- What a window of a snapshot meets at any time.
abbrev Read : WindowKind → Option UsageWindow → Type 0
Read kind none = Unit {0}
Read kind (some w) = (w.kind ≡ kind) × IsPercent 100 w.used_percent × (0 < w.reset_at)

in_range : (x : Float64) → x ≢ nan → out_of_range x ≡ false → IsPercent 100 x
in_range nan h e = absurd (h refl)
in_range pos_inf h e = absurd (ground arith)
in_range neg_inf h e = absurd (ground arith)
in_range (finite (pos n)) h e = (n, refl, ground arith)
in_range (finite (negsuc n)) h e = absurd (ground arith)

-- A number that JSON can hold.
abbrev pub NotNan : Option Float64 → Type 0
NotNan none = Unit {0}
NotNan (some x) = x ≢ nan

dated-Read :
    (kind : WindowKind) (used : Float64) (resets : ℤ)
    → IsPercent 100 used
    → Read kind (dated kind used (positive resets))
dated-Read kind used (pos zero) h = tt
dated-Read kind used (pos (suc n)) h = (refl, h, ground arith)
dated-Read kind used (negsuc n) h = tt

codex_read-Read :
    (kind : WindowKind) (expected : ℕ) (used : Option Float64) (resets mins : Option ℤ)
    → NotNan used
    → Read kind (codex_read kind expected used resets mins)
codex_read-Read kind expected none resets mins h = tt
codex_read-Read kind expected (some used) none mins h = tt
codex_read-Read kind expected (some used) (some resets) none h = tt
codex_read-Read kind expected (some used) (some resets) (some mins) h =
    elim (Bool-cases (is_int mins expected)) [
      | inr e ↦ rw e tt
      | inl e ↦ elim (Bool-cases (out_of_range used)) [
        | inl e' ↦ rw (e, e') tt
        | inr e' ↦ rw (e, e') (dated-Read kind used resets (in_range used h e'))
      ]
    ]

claude_read-Read :
    (wide : Float64 → ℕ) (kind : WindowKind) (used resets : Option Float64)
    → NotNan used
    → Read kind (claude_read wide kind used resets)
claude_read-Read wide kind none resets h = tt
claude_read-Read wide kind (some used) none h = tt
claude_read-Read wide kind (some used) (some resets) h = elim (Bool-cases (out_of_range used)) [
  | inl e ↦ rw e tt
  | inr e ↦ elim (Bool-cases (float_le resets (percent 0))) [
    | inl e' ↦ rw (e, e') tt
    | inr e' ↦ rw (e, e') (refl, in_range used h e, ground arith)
  ]
]

or_kept-Read :
    (kind : WindowKind) (new old : Option UsageWindow)
    → Read kind new
    → Read kind old
    → Read kind (or_kept new old)
or_kept-Read kind none old h h' = h'
or_kept-Read kind (some w) old h h' = h

checked-IsField :
    (now : ℕ) (kind : WindowKind) (o : Option UsageWindow)
    → (kind ≡ five_hour) ⊎ (kind ≡ weekly)
    → Read kind o
    → Fresh now o
    → IsField kind now o
checked-IsField now kind none k h f = tt
checked-IsField now kind (some w) k (same_kind, range, set) f = (
  same_kind,
  record {
    known_kind = rw same_kind k;
    percent_in_range = range;
    reset_set = set;
    reset_fresh = f;
  },
)

-- The percentages that a window reports.
abbrev pub Decoded : Option CodexWindow → Type 0
Decoded none = Unit {0}
Decoded (some w) = NotNan w.codex_used_percent

abbrev pub DecodedClaude : Option ClaudeWindow → Type 0
DecodedClaude none = Unit {0}
DecodedClaude (some w) = NotNan w.used_percentage

-- One of the windows is there, and none is reset too long ago.
abbrev pub Current : ℕ → UsageSnapshot → Type 0
Current now s =
    ((s.five_hour_window ≢ none) ⊎ (s.weekly_window ≢ none))
    × Fresh now s.five_hour_window
    × Fresh now s.weekly_window

codex_window-Read :
    (w : Option CodexWindow) (kind : WindowKind) (expected : ℕ)
    → Decoded w
    → Read kind (codex_window_from w kind expected)
unfolding codex_window_from
codex_window-Read none kind expected h = tt
codex_window-Read (some w) kind expected h = codex_read-Read kind expected _ _ _ h

claude_window-Read :
    (wide : Float64 → ℕ) (w : Option ClaudeWindow) (kind : WindowKind)
    → DecodedClaude w
    → Read kind (claude_window_from wide w kind)
unfolding claude_window_from
claude_window-Read wide none kind h = tt
claude_window-Read wide (some w) kind h = claude_read-Read wide kind _ _ h

-- A snapshot that the Codex adapter makes of any two windows whose percentages are numbers passes
-- validation, if it has a window and none that is reset more than five minutes ago.
pub codex_snapshot-valid :
    (primary secondary : Option CodexWindow) (now : ℕ)
    → Decoded primary
    → Decoded secondary
    → Current now (codex_snapshot primary secondary)
    → validate_snapshot (codex_snapshot primary secondary) now ≡ none
unfolding codex_snapshot take_window
codex_snapshot-valid p s now hp hs (some_one, f, f') = (validate_snapshot_iff _ now).1 (record {
  known_provider = inl refl;
  some_window = some_one;
  five_hour_valid =
      checked-IsField now five_hour _ (inl refl)
        (or_kept-Read five_hour _ _ (codex_window-Read s five_hour 300 hs)
          (or_kept-Read five_hour _ _ (codex_window-Read p five_hour 300 hp) tt))
        f;
  weekly_valid =
      checked-IsField now weekly _ (inr refl)
        (or_kept-Read weekly _ _ (codex_window-Read s weekly 10080 hs)
          (or_kept-Read weekly _ _ (codex_window-Read p weekly 10080 hp) tt))
        f';
})

-- The same of a snapshot that the Claude adapter makes.
pub claude_snapshot-valid :
    (wide : Float64 → ℕ) (five seven : Option ClaudeWindow) (now : ℕ) (snapshot : UsageSnapshot)
    → DecodedClaude five
    → DecodedClaude seven
    → parse_payload wide (some (five, seven)) ≡ some snapshot
    → Current now snapshot
    → validate_snapshot snapshot now ≡ none
unfolding parse_payload
claude_snapshot-valid wide five seven now snapshot hf hs e (some_one, f, f') =
    let made : snapshot ≡ record {
      provider = claude;
      five_hour_window = claude_window_from wide five five_hour;
      weekly_window = claude_window_from wide seven weekly;
    } =
      ground arith in
    (validate_snapshot_iff snapshot now).1 (record {
      known_provider = inr (ap (λ s. s.provider) made);
      some_window = some_one;
      five_hour_valid =
          checked-IsField now five_hour _ (inl refl)
            (subst (λ s. Read five_hour s.five_hour_window) (sym made)
              (claude_window-Read wide five five_hour hf))
            f;
      weekly_valid =
          checked-IsField now weekly _ (inr refl)
            (subst (λ s. Read weekly s.weekly_window) (sym made)
              (claude_window-Read wide seven weekly hs))
            f';
    })
