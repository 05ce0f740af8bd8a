-- ===== src/Installer/Fuel.antt =====
-- The fuel of the parser of quoted words (internal/installer/statusline.go).
use ai_limit_notifier.Prelude.{
  ℕ, zero, suc, ◌≤◌, ◌<◌, ◌≡◌, refl, ◌==◌, Text, [], ◌∷◌, some, length, arith, Bool-cases,
  Option-cases, inl, inr,
}
use ai_limit_notifier.Installer.Quote.{
  apostrophe, escape_tail, has_prefix, read_word, parse_words, parse_shell_quoted_words,
}

-- The inner loop leaves fewer bytes than it was given.
read_word-shorter :
    (n : ℕ) (s w rest : Text) → read_word n s ≡ some (w, rest) → length rest < length s
unfolding read_word
read_word-shorter n [] w rest h = absurd (ground arith)
read_word-shorter (suc n) (c ∷ s) w rest h = ground (arith, read_word-shorter n s w rest h)
read_word-shorter zero (c ∷ s) w rest h = elim (Bool-cases (c == apostrophe)) [
  | inl quote ↦ elim (Bool-cases (has_prefix s escape_tail)) [
    | inl escaped ↦ elim (Option-cases (read_word 3 s)) [
      | inl e ↦ absurd (ground arith)
      | inr ((v, r), e) ↦ ground (arith, read_word-shorter 3 s v r e)
    ]
    | inr closed ↦ ground arith
  ]
  | inr plain ↦ elim (Option-cases (read_word 0 s)) [
    | inl e ↦ absurd (ground arith)
    | inr ((v, r), e) ↦ ground (arith, read_word-shorter 0 s v r e)
  ]
]

-- Any two amounts of fuel that the text does not exceed give the same result.
fuel_lem : (f g : ℕ) (s : Text) → length s ≤ f → length s ≤ g → parse_words f s ≡ parse_words g s
unfolding parse_words
fuel_lem f g [] hf hg = refl
fuel_lem zero g (c ∷ s) hf hg = absurd (ground arith)
fuel_lem (suc f) zero (c ∷ s) hf hg = absurd (ground arith)
fuel_lem (suc f) (suc g) (c ∷ s) hf hg = elim (Option-cases (read_word 0 s)) [
  | inl e ↦ rw e refl
  | inr ((w, []), e) ↦ rw e refl
  | inr ((w, d ∷ []), e) ↦ rw e refl
  | inr ((w, d ∷ x ∷ rest), e) ↦
      let shorter : length (d ∷ x ∷ rest) < length s = read_word-shorter 0 s w (d ∷ x ∷ rest) e in
      let same_rest : parse_words f (x ∷ rest) ≡ parse_words g (x ∷ rest) =
        fuel_lem f g (x ∷ rest) (omega (arith, shorter)) (omega (arith, shorter)) in
      rw (e, same_rest) refl
]

-- Fuel of at least the length of the text never runs out: any such amount gives the result of the
-- parser, so that the loop of the source ends with it.
pub parse_words-enough :
    (fuel : ℕ) (s : Text) → length s ≤ fuel → parse_words fuel s ≡ parse_shell_quoted_words s
unfolding parse_shell_quoted_words
parse_words-enough fuel s h = fuel_lem fuel (length s) s h (omega arith)
