-- ===== src/Installer/RoundTrip.antt =====
-- The quoting and the parsing of words (internal/installer/statusline.go) together.
use ai_limit_notifier.Prelude.{
  ℕ, zero, suc, ◌≤◌, ◌≡◌, ◌↔◌, refl, ◌∙◌, ap, true, false, ◌==◌, Text, List, [], ◌∷◌, ◌++◌, some,
  length, length-append, arith, Bool-cases, Option-cases, inl, inr,
}
use mathlib.Core.List.{append_assoc}
use ai_limit_notifier.Installer.Quote.{
  apostrophe, space, escape_tail, has_prefix, escape, shell_quote, read_word, cons_word,
  parse_words, parse_shell_quoted_words, join_quoted,
}

-- The inner loop undoes the escaping, and stops at the closing apostrophe, if no escape follows.
read_word-escape :
    (w rest : Text)
    → has_prefix rest escape_tail ≡ false
    → read_word 0 (escape w ++ apostrophe ∷ rest) ≡ some (w, rest)
unfolding read_word escape
read_word-escape [] rest h = rw h
read_word-escape (c ∷ w) rest h = ground (arith, read_word-escape w rest h)

read_word-quoted :
    (w rest : Text)
    → has_prefix rest escape_tail ≡ false
    → read_word 0 ((escape w ++ apostrophe ∷ []) ++ rest) ≡ some (w, rest)
read_word-quoted w rest h =
    rw (append_assoc (escape w) (apostrophe ∷ []) rest) (read_word-escape w rest h)

parse-last : (fuel : ℕ) (w : Text) → parse_words (suc fuel) (shell_quote w) ≡ some (w ∷ [])
unfolding parse_words shell_quote has_prefix
parse-last fuel w = rw (read_word-escape w [] refl, parse_words)

parse-more :
    (fuel : ℕ) (w : Text) (e : ℕ) (r : Text)
    → parse_words (suc fuel) (shell_quote w ++ space ∷ e ∷ r)
      ≡ cons_word w (parse_words fuel (e ∷ r))
unfolding parse_words shell_quote has_prefix
parse-more fuel w e r = rw (read_word-quoted w (space ∷ e ∷ r) refl, parse_words)

pub join-first : (w : Text) (ws : List Text) → (r : Text) × (join_quoted (w ∷ ws) ≡ apostrophe ∷ r)
unfolding join_quoted shell_quote
join-first w [] = (escape w ++ apostrophe ∷ [], refl)
join-first w (v ∷ vs) = ((escape w ++ apostrophe ∷ []) ++ space ∷ join_quoted (v ∷ vs), refl)

parse-join :
    (fuel : ℕ) (ws : List Text) → length ws ≤ fuel → parse_words fuel (join_quoted ws) ≡ some ws
unfolding join_quoted
parse-join zero [] h = unfold parse_words in refl
parse-join (suc fuel) [] h = unfold parse_words in refl
parse-join zero (w ∷ ws) h = elim h [ ]
parse-join (suc fuel) (w ∷ []) h = parse-last fuel w
parse-join (suc fuel) (w ∷ v ∷ vs) h =
    let (r, e) = join-first v vs in
    rw e (
      parse-more fuel w apostrophe r
      ∙ rw (← e) (ap (cons_word w) (parse-join fuel (v ∷ vs) (omega arith))))

length-join : (ws : List Text) → length ws ≤ length (join_quoted ws)
unfolding join_quoted shell_quote
length-join [] = omega arith
length-join (w ∷ []) = omega arith
length-join (w ∷ v ∷ vs) = omega (
  arith,
  length-append ((escape w ++ apostrophe ∷ [])) (space ∷ join_quoted (v ∷ vs)),
  length-join (v ∷ vs),
)

-- Any words, whatever bytes they hold, are read back from their quoted and joined form.
pub parse-join_quoted : (ws : List Text) → parse_shell_quoted_words (join_quoted ws) ≡ some ws
unfolding parse_shell_quoted_words
parse-join_quoted ws = parse-join (length (join_quoted ws)) ws (length-join ws)

drop : ℕ → Text → Text
drop zero s = s
drop (suc n) [] = []
drop (suc n) (c ∷ s) = drop n s

escape_tail-drop : (s : Text) → has_prefix s escape_tail ≡ true → s ≡ escape_tail ++ drop 3 s
unfolding has_prefix drop
escape_tail-drop [] h = cc
escape_tail-drop (a ∷ []) h = absurd (ground arith)
escape_tail-drop (a ∷ b ∷ []) h = absurd (ground arith)
escape_tail-drop (a ∷ b ∷ d ∷ s) h = ground arith

-- What the inner loop read is the escaped form of its word, up to an apostrophe.
read_word_sound :
    (n : ℕ) (s w rest : Text)
    → read_word n s ≡ some (w, rest)
    → drop n s ≡ escape w ++ apostrophe ∷ rest
unfolding read_word drop escape
read_word_sound n [] w rest h = absurd (ground arith)
read_word_sound (suc n) (c ∷ s) w rest h = read_word_sound n s w rest h
read_word_sound zero (c ∷ s) w rest h = elim (Bool-cases (c == apostrophe)) [
  | inl quote ↦ elim (Bool-cases (has_prefix s escape_tail)) [
    | inl escaped ↦ elim (Option-cases (read_word 3 s)) [
      | inl e ↦ absurd (ground arith)
      | inr ((v, r), e) ↦ ground (arith, escape_tail-drop s escaped, read_word_sound 3 s v r e)
    ]
    | inr closed ↦ ground arith
  ]
  | inr plain ↦ elim (Option-cases (read_word 0 s)) [
    | inl e ↦ absurd (ground arith)
    | inr ((v, r), e) ↦ ground (arith, read_word_sound 0 s v r e)
  ]
]

parse_words_sound :
    (fuel : ℕ) (s : Text) (ws : List Text) → parse_words fuel s ≡ some ws → s ≡ join_quoted ws
unfolding parse_words join_quoted shell_quote drop
parse_words_sound fuel [] ws h = ground arith
parse_words_sound zero (c ∷ s) ws h = absurd (ground arith)
parse_words_sound (suc fuel) (c ∷ s) ws h = elim (Option-cases (read_word 0 s)) [
  | inl e ↦ absurd (ground arith)
  | inr ((w, []), e) ↦
      let one : ws ≡ w ∷ [] = ground arith in rw one (ground (arith, read_word_sound 0 s w [] e))
  | inr ((w, d ∷ []), e) ↦ absurd (ground arith)
  | inr ((w, d ∷ x ∷ rest), e) ↦ elim (Option-cases (parse_words fuel (x ∷ rest))) [
    | inl none_left ↦ absurd (ground arith)
    | inr ([], found) ↦ absurd (ground (arith, parse_words_sound fuel (x ∷ rest) [] found))
    | inr (v ∷ vs, found) ↦ ground (
      arith,
      read_word_sound 0 s w (d ∷ x ∷ rest) e,
      parse_words_sound fuel (x ∷ rest) (v ∷ vs) found,
      append_assoc (escape w) (apostrophe ∷ []) (space ∷ join_quoted (v ∷ vs)),
    )
  ]
]

-- The parser accepts a text exactly when it is some words, quoted and joined by single spaces,
-- and gives those words back, whatever bytes they hold.
pub parse_shell_quoted_words_iff :
    (s : Text) (ws : List Text) → (parse_shell_quoted_words s ≡ some ws) ↔ (s ≡ join_quoted ws)
unfolding parse_shell_quoted_words
parse_shell_quoted_words_iff s ws =
    (parse_words_sound (length s) s ws, λ e. rw e (parse-join_quoted ws))
