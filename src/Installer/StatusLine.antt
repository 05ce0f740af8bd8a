-- ===== src/Installer/StatusLine.antt =====
-- BuildStatusLineCommand and ClassifyStatusLine of internal/installer/statusline.go.
use ai_limit_notifier.Prelude.{
  ℕ, zero, suc, Bool, true, false, not, ◌&&◌, ◌||◌, ◌==◌, leb, if◌then◌else◌, Text, ascii, List, [],
  ◌∷◌, ◌++◌, Option, none, some, length,
}
use ai_limit_notifier.Store.Event.{same}
use ai_limit_notifier.Installer.Quote.{has_prefix, parse_shell_quoted_words, join_quoted}

pub data StatusLineState : Type 0 where
  absent existing_non_notifier notifier_with_original notifier_without_original malformed :
      StatusLineState

pub record ClassifiedStatusLine : Type 0 where
  pub state : StatusLineState
  pub original_command : Text

-- The bytes of the white space character (unicode.IsSpace) that a text starts with, or 0.
unfoldable pub space_bytes : Text → ℕ
unfolding has_prefix
space_bytes [] = 0
space_bytes (c ∷ s) =
    if c == b' ' || (leb 9 c && leb c 13)
    then 1
    else if c == 0xc2 && (has_prefix s (0x85 ∷ []) || has_prefix s (0xa0 ∷ []))
    then 2
    else if c == 0xe1 && has_prefix s (0x9a ∷ 0x80 ∷ [])
    then 3
    else if c == 0xe3 && has_prefix s (0x80 ∷ 0x80 ∷ [])
    then 3
    else if c == 0xe2 && has_prefix s (0x81 ∷ 0x9f ∷ [])
    then 3
    else if c == 0xe2
    then wide s
    else 0
  where
    -- U+2000 to U+200A, U+2028, U+2029 and U+202F.
    wide : Text → ℕ
    wide (a ∷ b ∷ r) =
        if a == 0x80 && ((leb 0x80 b && leb b 0x8a) || b == 0xa8 || b == 0xa9 || b == 0xaf)
        then 3
        else 0
    wide _ = 0

-- `strings.TrimSpace(s) == ""`: the text holds white space only. The number is how many bytes
-- of a character are still to be passed over.
unfoldable pub is_blank : ℕ → Text → Bool
unfolding space_bytes
is_blank n [] = true
is_blank (suc n) (c ∷ s) = is_blank n s
is_blank zero (c ∷ s) = elim (space_bytes (c ∷ s)) [ zero ↦ false | suc n ↦ is_blank n s ]

-- `wrapperScriptBody`
abbrev pub wrapper_script_body : Text
wrapper_script_body =
    ascii "if [ -x \"$2\" ]; then\n  if [ -n \"$1\" ]; then\n"
    ++ ascii "    exec \"$2\" statusline-wrapper --original-command \"$1\"\n  else\n"
    ++ ascii "    exec \"$2\" statusline-wrapper --capture-only\n  fi\nelse\n"
    ++ ascii "  if [ -n \"$1\" ]; then\n    exec sh -c \"$1\"\n  else\n    exit 0\n  fi\nfi\n"

unfoldable pub script : Text
script = wrapper_script_body

abbrev pub sh : Text
sh = ascii "sh"

abbrev pub dash_c : Text
dash_c = ascii "-c"

unfoldable pub build_status_line_command : Text → Text → Text
build_status_line_command binary_path original_command =
    join_quoted (sh ∷ dash_c ∷ script ∷ sh ∷ original_command ∷ binary_path ∷ [])

-- The six tokens of a generated command; the result is the fifth.
unfoldable pub fail_open_tokens : List Text → Option Text
fail_open_tokens (a ∷ b ∷ c ∷ d ∷ original ∷ binary ∷ []) =
    if not (same a sh) || not (same b dash_c) || not (same c script) || not (same d sh)
    then none
    else some original
fail_open_tokens _ = none

unfoldable pub parse_fail_open_command : Text → Option Text
parse_fail_open_command cmd = elim (parse_shell_quoted_words cmd) [
  | none ↦ none
  | some tokens ↦ fail_open_tokens tokens
]

abbrev pub legacy_marker : Text
legacy_marker = ascii " statusline-wrapper --original-command "

-- The text behind the first occurrence of a marker, and whether the marker stands at the start
-- (`strings.Index`).
unfoldable pub after_marker : Text → Text → Option (Bool × Text)
unfolding has_prefix
after_marker marker [] = if has_prefix [] marker then some (true, []) else none
after_marker marker (c ∷ s) =
    let rest = after_marker marker s in
    if has_prefix (c ∷ s) marker
    then some (true, drop_bytes (length marker) (c ∷ s))
    else elim rest [ none ↦ none | some (_, tail) ↦ some (false, tail) ]
  where
    drop_bytes : ℕ → Text → Text
    drop_bytes zero t = t
    drop_bytes (suc n) [] = []
    drop_bytes (suc n) (_ ∷ t) = drop_bytes n t

unfoldable pub single_token : Option (List Text) → Option Text
single_token (some (original ∷ [])) = some original
single_token _ = none

unfoldable pub parse_legacy_manual_wrapper_command : Text → Option Text
parse_legacy_manual_wrapper_command cmd = elim (after_marker legacy_marker cmd) [
  | none ↦ none
  | some (true, tail) ↦ none
  | some (false, tail) ↦ single_token (parse_shell_quoted_words tail)
]

unfoldable pub contains : Text → Text → Bool
unfolding after_marker
contains s marker = elim (after_marker marker s) [ none ↦ false | some p ↦ true ]

abbrev pub managed : Text → ClassifiedStatusLine
managed [] = record { state = notifier_without_original; original_command = [] }
managed (c ∷ s) = record { state = notifier_with_original; original_command = c ∷ s }

unfoldable pub classify_other : Text → ClassifiedStatusLine
unfolding contains
classify_other command =
    if contains command (ascii "statusline-wrapper")
    then record { state = malformed; original_command = [] }
    else record { state = existing_non_notifier; original_command = command }

unfoldable pub classify_status_line : Text → ClassifiedStatusLine
classify_status_line command =
    if is_blank 0 command
    then record { state = absent; original_command = [] }
    else elim (parse_fail_open_command command) [
      | some original ↦ managed original
      | none ↦ elim (parse_legacy_manual_wrapper_command command) [
        | some original ↦ managed original
        | none ↦ classify_other command
      ]
    ]
