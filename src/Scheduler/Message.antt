-- ===== src/Scheduler/Message.antt =====
-- buildMessage and its labels, internal/server/scheduler/scheduler.go.
use ai_limit_notifier.Prelude.{
  ℕ, zero, suc, ◌+◌, ◌*◌, ◌/◌, ◌%◌, not, ltb, if◌then◌else◌, Text, utf8, ascii, List, [], ◌∷◌, ◌++◌,
  map, length, Option, none, some,
}
use ai_limit_notifier.Domain.{
  Provider, codex, claude, other_provider, WindowKind, five_hour, weekly, other_kind, is_kind,
}

abbrev pub provider_label : Provider → Text
provider_label codex = utf8 "🔵 Кодекс"
provider_label claude = utf8 "🟠 Клод"
provider_label (other_provider p) = p

-- The label of a kind that the map lacks is the kind itself.
abbrev pub window_label : WindowKind → Text
window_label five_hour = utf8 "5 час."
window_label weekly = utf8 "Недельный"
window_label (other_kind k) = k

abbrev pub weekday_names : List Text
weekday_names =
    utf8 "Вс" ∷ utf8 "Пн" ∷ utf8 "Вт" ∷ utf8 "Ср" ∷ utf8 "Чт" ∷ utf8 "Пт" ∷ utf8 "Сб" ∷ []

-- The day of the week in Moscow, UTC+3, of an instant in seconds; 1 January of year 1 is a
-- Monday, and Sunday has the number 0.
unfoldable pub weekday : ℕ → ℕ
weekday seconds = ((seconds + 3 * 60 * 60) / 86400 + 1) % 7

unfoldable pub nth_name : List Text → ℕ → Text
nth_name [] n = []
nth_name (t ∷ ts) zero = t
nth_name (t ∷ ts) (suc n) = nth_name ts n

unfoldable pub weekday_ru : ℕ → Text
unfolding weekday nth_name
weekday_ru seconds = nth_name weekday_names (weekday seconds)

-- `strings.Join`
unfoldable pub join : Text → List Text → Text
join sep [] = []
join sep (t ∷ []) = t
join sep (t ∷ u ∷ us) = t ++ sep ++ join sep (u ∷ us)

unfoldable pub build_message : Provider → WindowKind → List Provider → Option ℕ → Text
unfolding join
build_message provider kind covered weekly_reset_at =
    let names = provider_label provider ∷ map provider_label covered in
    let verb = if ltb 1 (length names) then utf8 "доступны" else utf8 "доступен" in
    let msg = join (utf8 " и ") names ++ ascii " " ++ window_label kind ++ ascii " " ++ verb in
    elim weekly_reset_at [
      | none ↦ msg
      | some t ↦
          if not (is_kind kind weekly)
          then msg ++ ascii " (" ++ window_label weekly ++ ascii " " ++ weekday_ru t ++ ascii ")"
          else msg
    ]
