-- ===== src/Adapters.antt =====
-- internal/provider/codex/codex.go and ParsePayload of internal/provider/claude/claude.go: usage
-- snapshots from what other programs report.
pub mod Valid
pub mod Answers
use ai_limit_notifier.Prelude.{
  ℕ, zero, suc, ◌+◌, ◌*◌, ◌/◌, ◌^◌, Bool, true, false, not, ◌||◌, ◌&&◌, ltb, ◌==◌, if◌then◌else◌,
  List, [], ◌∷◌, Text, Option, none, some, second, holds,
}
use ai_limit_notifier.Prelude.Int.{ℤ, pos, negsuc}
use ai_limit_notifier.Domain.{
  codex, claude, WindowKind, five_hour, weekly, Float64, nan, pos_inf, neg_inf, finite, float_unit,
  percent, float_lt, float_le, UsageWindow, UsageSnapshot,
}

-- `rateWindow` of the Codex adapter: pointers that are nil where the field is missing.
pub record CodexWindow : Type 0 where
  pub codex_used_percent : Option Float64
  pub window_duration_mins : Option ℤ
  pub codex_resets_at : Option ℤ

-- `rateWindow` of the Claude adapter.
pub record ClaudeWindow : Type 0 where
  pub used_percentage : Option Float64
  pub resets_at : Option Float64

abbrev unix_epoch : ℕ
unix_epoch = 62_135_596_800

-- `time.Unix(n, 0)` from 1970 on.
abbrev pub time_unix : ℕ → ℕ
time_unix n = (unix_epoch + n) * second

abbrev pub out_of_range : Float64 → Bool
out_of_range used = float_lt used (percent 0) || float_lt (percent 100) used

abbrev pub is_int : ℤ → ℕ → Bool
is_int (pos n) k = n == k
is_int (negsuc n) k = false

-- The positive part of an integer that is above 0.
abbrev pub positive : ℤ → Option ℕ
positive (pos zero) = none
positive (pos (suc n)) = some (suc n)
positive (negsuc n) = none

abbrev pub dated : WindowKind → Float64 → Option ℕ → Option UsageWindow
dated kind used none = none
dated kind used (some n) =
    some (record { kind = kind; used_percent = used; reset_at = time_unix n })

abbrev pub codex_read : WindowKind → ℕ → Option Float64 → Option ℤ → Option ℤ → Option UsageWindow
codex_read kind expected (some used) (some resets) (some mins) =
    if not (is_int mins expected)
    then none
    else if out_of_range used
    then none
    else dated kind used (positive resets)
codex_read kind expected _ _ _ = none

-- `windowFrom` of the Codex adapter.
unfoldable pub codex_window_from : Option CodexWindow → WindowKind → ℕ → Option UsageWindow
codex_window_from none kind expected = none
codex_window_from (some w) kind expected =
    codex_read kind expected w.codex_used_percent w.codex_resets_at w.window_duration_mins

abbrev pub five_hour_mins : ℕ
five_hour_mins = 300

abbrev pub weekly_mins : ℕ
weekly_mins = 10080

abbrev pub or_kept : Option UsageWindow → Option UsageWindow → Option UsageWindow
or_kept none old = old
or_kept (some w) old = some w

-- One round of the loop over the primary and the secondary window.
unfoldable pub take_window : Option CodexWindow → UsageSnapshot → UsageSnapshot
take_window w s = record s {
  five_hour_window = or_kept (codex_window_from w five_hour five_hour_mins) s.five_hour_window;
  weekly_window = or_kept (codex_window_from w weekly weekly_mins) s.weekly_window;
}

unfoldable pub codex_snapshot : Option CodexWindow → Option CodexWindow → UsageSnapshot
codex_snapshot primary secondary = take_window secondary (
    take_window primary
      (record { provider = codex; five_hour_window = none; weekly_window = none }))

-- A line of the app server: its identifier, its error's message and its result.
pub record RpcMessage (R : Type 0) : Type 0 where
  pub id : Option ℤ
  pub error : Option Text
  pub result : R

pub data ReadError : Type 0 where
  unavailable protocol timeout : ReadError

pub data Response (A : Type 0) : Type 0 where
  response : A → Response A
  refused : ReadError → Response A

-- What the second response is decoded to: the two windows.
abbrev decoded : Option (Option CodexWindow × Option CodexWindow) → Response UsageSnapshot
decoded none = refused protocol
decoded (some (primary, secondary)) = response (codex_snapshot primary secondary)

module _ {R : Type 0} where
  abbrev answered : Option Text → R → Response R
  answered none r = response r
  answered (some message) r = refused protocol

  abbrev pub for_id : ℕ → Option (RpcMessage R) → Bool
  for_id n none = false
  for_id n (some m) = elim m.id [ none ↦ false | some k ↦ is_int k n ]

  abbrev pub answer_of : Option (RpcMessage R) → Response R
  answer_of none = refused protocol
  answer_of (some m) = answered m.error m.result

  -- `awaitResponse` on the decoded lines, `none` for one that does not decode: the answer and the
  -- lines behind it. The test says whether the context has ended when the lines run out.
  unfoldable pub await_response :
      ℕ → Bool → List (Option (RpcMessage R)) → Response R × List (Option (RpcMessage R))
  await_response n ended [] = (refused (if ended then timeout else protocol), [])
  await_response n ended (line ∷ lines) =
      let rest = await_response n ended lines in
      if for_id n line then (answer_of line, lines) else rest

  abbrev second_answer :
      (R → Option (Option CodexWindow × Option CodexWindow)) → Response R → Response UsageSnapshot
  second_answer decode (refused e) = refused e
  second_answer decode (response r) = decoded (decode r)

  -- The exchange after the process has started: whether the two requests can be written, whether
  -- the context has ended, and the lines that the process writes.
  unfoldable pub read_codex :
      (R → Option (Option CodexWindow × Option CodexWindow))
      → Bool
      → Bool
      → Bool
      → List (Option (RpcMessage R))
      → Response UsageSnapshot
  read_codex decode first_sent second_sent ended lines =
      let (first, rest) = await_response 1 ended lines in
      let (next, _) = await_response 2 ended rest in
      if not first_sent then refused unavailable else elim first [
        | refused e ↦ refused e
        | response r ↦ if not second_sent then refused unavailable else second_answer decode next
      ]

-- `int64(resets)` of a positive float: the whole part. From 2^63 on the language leaves the
-- conversion to the implementation, which is a parameter.
abbrev int64_of : (Float64 → ℕ) → Float64 → ℕ
int64_of wide (finite (pos n)) =
    if ltb n (2 ^ 63 * float_unit) then n / float_unit else wide (finite (pos n))
int64_of wide x = wide x

abbrev pub claude_read :
    (Float64 → ℕ) → WindowKind → Option Float64 → Option Float64 → Option UsageWindow
claude_read wide kind (some used) (some resets) =
    if out_of_range used
    then none
    else if float_le resets (percent 0)
    then none
    else some
        (record { kind = kind; used_percent = used; reset_at = time_unix (int64_of wide resets) })
claude_read wide kind _ _ = none

-- `windowFrom` of the Claude adapter.
unfoldable pub claude_window_from :
    (Float64 → ℕ) → Option ClaudeWindow → WindowKind → Option UsageWindow
claude_window_from wide none kind = none
claude_window_from wide (some w) kind = claude_read wide kind w.used_percentage w.resets_at

-- `ParsePayload` after decoding, which fails on malformed JSON.
unfoldable pub parse_payload :
    (Float64 → ℕ) → Option (Option ClaudeWindow × Option ClaudeWindow) → Option UsageSnapshot
parse_payload wide none = none
parse_payload wide (some (five, seven)) = some (record {
  provider = claude;
  five_hour_window = claude_window_from wide five five_hour;
  weekly_window = claude_window_from wide seven weekly;
})
