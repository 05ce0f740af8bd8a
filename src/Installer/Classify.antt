-- ===== src/Installer/Classify.antt =====
-- What the classifier makes of the commands that the installer generates.
use ai_limit_notifier.Prelude.{
  ◌≡◌, ◌↔◌, refl, ◌∙◌, ap, true, false, Text, List, [], ◌∷◌, some, arith, Option-cases, inl, inr,
}
use ai_limit_notifier.Store.Event.{same}
use ai_limit_notifier.Store.Rows.{same_self}
use ai_limit_notifier.Installer.Quote.{parse_shell_quoted_words}
use ai_limit_notifier.Installer.RoundTrip.{
  parse-join_quoted, join-first, parse_shell_quoted_words_iff,
}
use ai_limit_notifier.Installer.StatusLine.{
  build_status_line_command, fail_open_tokens, parse_fail_open_command, classify_status_line,
  managed, is_blank, script, sh, dash_c,
}

fail_open_tokens-built :
    (binary original : Text)
    → fail_open_tokens (sh ∷ dash_c ∷ script ∷ sh ∷ original ∷ binary ∷ []) ≡ some original
unfolding fail_open_tokens
fail_open_tokens-built binary original = simp same_self

same→≡ : (a b : Text) → same a b ≡ true → a ≡ b
same→≡ a b h = ground arith

fail_open_tokens_sound :
    (tokens : List Text) (original : Text)
    → fail_open_tokens tokens ≡ some original
    → (binary : Text) × (tokens ≡ sh ∷ dash_c ∷ script ∷ sh ∷ original ∷ binary ∷ [])
unfolding fail_open_tokens
fail_open_tokens_sound [] o h = absurd (ground arith)
fail_open_tokens_sound (a ∷ []) o h = absurd (ground arith)
fail_open_tokens_sound (a ∷ b ∷ []) o h = absurd (ground arith)
fail_open_tokens_sound (a ∷ b ∷ c ∷ []) o h = absurd (ground arith)
fail_open_tokens_sound (a ∷ b ∷ c ∷ d ∷ []) o h = absurd (ground arith)
fail_open_tokens_sound (a ∷ b ∷ c ∷ d ∷ x ∷ []) o h = absurd (ground arith)
fail_open_tokens_sound (a ∷ b ∷ c ∷ d ∷ x ∷ y ∷ z ∷ r) o h = absurd (ground arith)
fail_open_tokens_sound (a ∷ b ∷ c ∷ d ∷ x ∷ y ∷ []) o h = (y, ground arith)

parse_fail_open-build :
    (binary original : Text)
    → parse_fail_open_command (build_status_line_command binary original) ≡ some original
unfolding parse_fail_open_command build_status_line_command
parse_fail_open-build binary original =
    rw
      (
        parse-join_quoted (sh ∷ dash_c ∷ script ∷ sh ∷ original ∷ binary ∷ []),
        parse_fail_open_command,
      )
      (fail_open_tokens-built binary original)

parse_fail_open_sound :
    (cmd original : Text)
    → parse_fail_open_command cmd ≡ some original
    → (binary : Text) × (cmd ≡ build_status_line_command binary original)
unfolding parse_fail_open_command build_status_line_command
parse_fail_open_sound cmd original h = elim (Option-cases (parse_shell_quoted_words cmd)) [
  | inl e ↦ absurd (ground arith)
  | inr (tokens, e) ↦
      let (binary, built) = fail_open_tokens_sound tokens original (ground arith) in
      (binary, (parse_shell_quoted_words_iff cmd _).0 (e ∙ ap some built))
]

-- The parser of fail-open commands recognizes exactly the commands that the installer builds,
-- and returns the original command that was built in.
pub parse_fail_open_iff :
    (cmd original : Text)
    → (parse_fail_open_command cmd ≡ some original)
      ↔ ((binary : Text) × (cmd ≡ build_status_line_command binary original))
parse_fail_open_iff cmd original =
    (parse_fail_open_sound cmd original, λ p. rw p.1 (parse_fail_open-build p.0 original))

build-not-blank :
    (binary original : Text) → is_blank 0 (build_status_line_command binary original) ≡ false
unfolding build_status_line_command is_blank
build-not-blank binary original =
    let (r, e) = join-first sh (dash_c ∷ script ∷ sh ∷ original ∷ binary ∷ []) in rw e refl

-- A generated command is classified as the notifier's, with the original command that it chains
-- to, or as the notifier's without one if there is none.
pub classify-build :
    (binary original : Text)
    → classify_status_line (build_status_line_command binary original) ≡ managed original
unfolding classify_status_line
classify-build binary original =
    rw (build-not-blank binary original, parse_fail_open-build binary original)
