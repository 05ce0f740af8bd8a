-- ===== src/Installer/Quote.antt =====
-- ShellQuote and parseShellQuotedWords of internal/installer/statusline.go.
use ai_limit_notifier.Prelude.{
  ℕ, zero, suc, Bool, true, false, not, ◌&&◌, ◌==◌, if◌then◌else◌, Text, List, [], ◌∷◌, ◌++◌,
  Option, none, some, length,
}

abbrev pub apostrophe : ℕ
apostrophe = b'\''

abbrev pub space : ℕ
space = b' '

-- What stands between the apostrophe that closes a part and the next part.
abbrev pub escape_tail : Text
escape_tail = b'\\' ∷ b'\'' ∷ b'\'' ∷ []

-- `strings.HasPrefix`
unfoldable pub has_prefix : Text → Text → Bool
has_prefix s [] = true
has_prefix [] (p ∷ ps) = false
has_prefix (c ∷ s) (p ∷ ps) = c == p && has_prefix s ps

-- `strings.ReplaceAll` of each apostrophe by its escape.
unfoldable pub escape : Text → Text
escape [] = []
escape (c ∷ s) =
    let rest = escape s in if c == apostrophe then apostrophe ∷ (escape_tail ++ rest) else c ∷ rest

unfoldable pub shell_quote : Text → Text
unfolding escape
shell_quote s = apostrophe ∷ (escape s ++ apostrophe ∷ [])

abbrev pub push : ℕ → Option (Text × Text) → Option (Text × Text)
push c none = none
push c (some (w, rest)) = some (c ∷ w, rest)

-- The inner loop: the word up to its closing apostrophe, and the bytes after that. The number is
-- how many bytes of an escape are still to be passed over.
unfoldable pub read_word : ℕ → Text → Option (Text × Text)
unfolding has_prefix
read_word n [] = none
read_word (suc n) (c ∷ s) = read_word n s
read_word zero (c ∷ s) =
    let escaped = push apostrophe (read_word 3 s) in
    let plain = push c (read_word zero s) in
    if c == apostrophe then (if has_prefix s escape_tail then escaped else some ([], s)) else plain

abbrev pub cons_word : Text → Option (List Text) → Option (List Text)
cons_word w none = none
cons_word w (some ws) = some (w ∷ ws)

-- The outer loop on fuel; every round reads two bytes at least.
unfoldable pub parse_words : ℕ → Text → Option (List Text)
unfolding read_word
parse_words fuel [] = some []
parse_words zero (c ∷ s) = none
parse_words (suc fuel) (c ∷ s) = if not (c == apostrophe) then none else elim (read_word 0 s) [
  | none ↦ none
  | some (w, []) ↦ some (w ∷ [])
  | some (w, d ∷ []) ↦ none
  | some (w, d ∷ e ∷ rest) ↦
      if not (d == space) then none else cons_word w (parse_words fuel (e ∷ rest))
]

unfoldable pub parse_shell_quoted_words : Text → Option (List Text)
unfolding parse_words
parse_shell_quoted_words s = parse_words (length s) s

-- `strings.Join(words, " ")` of quoted words.
unfoldable pub join_quoted : List Text → Text
unfolding shell_quote
join_quoted [] = []
join_quoted (w ∷ []) = shell_quote w
join_quoted (w ∷ v ∷ vs) = shell_quote w ++ space ∷ join_quoted (v ∷ vs)
