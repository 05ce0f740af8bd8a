-- ===== src/Auth/Codes.antt =====
-- Generated pairing codes, typed in by hand (internal/server/auth/pairing.go).
use ai_limit_notifier.Prelude.{
  ℕ, zero, suc, ◌+◌, ◌-◌, ◌%◌, ◌≤◌, ◌==◌, ◌≡◌, ◌∙◌, sym, refl, ap, Bool, true, not, ◌&&◌, leb,
  if◌then◌else◌, Text, [], ◌∷◌, ◌++◌, map, take, any_row, length, keep, keep-append, arith,
  passes_below, passes_below-at,
}
use ai_limit_notifier.Auth.{
  code_char, generate_pairing_code, normalize_pairing_code, validate_pairing_code_format, is_dash,
  is_crockford, all_crockford, crockford_alphabet, byte_at, drop_bytes, dash,
}

-- The lower case of an ASCII letter, and the upper case.
abbrev pub lower_byte : ℕ → ℕ
lower_byte b = if leb 65 b && leb b 90 then b + 32 else b

abbrev pub upper_byte : ℕ → ℕ
upper_byte b = if leb 97 b && leb b 122 then b - 32 else b

-- A visible ASCII character.
abbrev pub is_visible : ℕ → Bool
is_visible b = leb 33 b && leb b 126

abbrev pub all_visible : Text → Bool
all_visible s = not (any_row (λ b. not (is_visible b)) s)

-- What the checks below need of a character of a code: a dash, or a character of the alphabet, that
-- survives a change of case.
abbrev good : ℕ → Bool
good b =
    is_visible (lower_byte b)
    && (upper_byte (lower_byte b) == b)
    && is_visible b
    && (upper_byte b == b)

abbrev char_ok : ℕ → Bool
char_ok b = good b && is_crockford b && not (is_dash b)

every_char : passes_below (λ i. char_ok (byte_at crockford_alphabet i)) 32 ≡ true
unfolding passes_below any_row
every_char = refl

code_char-ok : (b : ℕ) → char_ok (code_char b) ≡ true
code_char-ok b =
    passes_below-at (λ i. char_ok (byte_at crockford_alphabet i)) 32 every_char (b % 32)
      (omega arith)

-- Every byte of a text passes a test.
abbrev all_of : (ℕ → Bool) → Text → Bool
all_of p [] = true
all_of p (b ∷ bs) = p b && all_of p bs

all_of-append : (p : ℕ → Bool) (s t : Text) → all_of p (s ++ t) ≡ (all_of p s && all_of p t)
all_of-append p [] t = refl
all_of-append p (b ∷ s) t = ground (arith, all_of-append p s t)

all_of-take : (p : ℕ → Bool) (n : ℕ) (s : Text) → all_of p s ≡ true → all_of p (take n s) ≡ true
all_of-take p zero s h = refl
all_of-take p (suc n) [] h = refl
all_of-take p (suc n) (b ∷ s) h = ground (arith, all_of-take p n s)

all_of-drop :
    (p : ℕ → Bool) (n : ℕ) (s : Text) → all_of p s ≡ true → all_of p (drop_bytes n s) ≡ true
all_of-drop p zero s h = h
all_of-drop p (suc n) [] h = refl
all_of-drop p (suc n) (b ∷ s) h = all_of-drop p n s (ground arith)

chars-ok : (buf : Text) → all_of char_ok (map code_char buf) ≡ true
chars-ok [] = refl
chars-ok (b ∷ buf) = rw (code_char-ok b) (chars-ok buf)

-- Characters of the alphabet are good, hold no dash, and have the form of a code.
ok-good : (s : Text) → all_of char_ok s ≡ true → all_of good s ≡ true
ok-good [] h = refl
ok-good (b ∷ s) h = ground (arith, ok-good s)

ok-kept : (s : Text) → all_of char_ok s ≡ true → keep (λ b. not (is_dash b)) s ≡ s
unfolding keep
ok-kept [] h = refl
ok-kept (b ∷ s) h = ground (arith, ok-kept s)

ok-crockford : (s : Text) → all_of char_ok s ≡ true → all_crockford s ≡ true
unfolding all_crockford
ok-crockford [] h = refl
ok-crockford (b ∷ s) h = ground (arith, ok-crockford s)

take-drop : (n : ℕ) (s : Text) → take n s ++ drop_bytes n s ≡ s
take-drop zero s = refl
take-drop (suc n) [] = refl
take-drop (suc n) (b ∷ s) = ap (λ t. b ∷ t) (take-drop n s)

drop-eight : (s : Text) → drop_bytes 4 (drop_bytes 4 s) ≡ drop_bytes 8 s
drop-eight [] = refl
drop-eight (a ∷ []) = refl
drop-eight (a ∷ b ∷ []) = refl
drop-eight (a ∷ b ∷ c ∷ []) = refl
drop-eight (a ∷ b ∷ c ∷ d ∷ s) = refl

take-all : (n : ℕ) (s : Text) → length s ≤ n → take n s ≡ s
take-all zero [] h = refl
take-all zero (b ∷ s) h = absurd (omega arith)
take-all (suc n) [] h = refl
take-all (suc n) (b ∷ s) h = ap (λ t. b ∷ t) (take-all n s (omega arith))

length-drop : (n : ℕ) (s : Text) → length (drop_bytes n s) ≡ length s - n
length-drop zero s = omega arith
length-drop (suc n) [] = omega arith
length-drop (suc n) (b ∷ s) = omega (arith, length-drop n s)

length-chars : (buf : Text) → length (map code_char buf) ≡ length buf
length-chars [] = refl
length-chars (b ∷ buf) = ap (λ n. suc n) (length-chars buf)

-- A text of good bytes is visible in either case, and upper case gives it back.
good-visible :
    (s : Text)
    → all_of good s ≡ true
    → (all_visible s ≡ true) × (all_visible (map lower_byte s) ≡ true)
unfolding any_row
good-visible [] h = (refl, refl)
good-visible (b ∷ s) h = let (v, w) = good-visible s (ground arith) in (ground arith, ground arith)

good-upper :
    (s : Text)
    → all_of good s ≡ true
    → (map upper_byte s ≡ s) × (map upper_byte (map lower_byte s) ≡ s)
good-upper [] h = (refl, refl)
good-upper (b ∷ s) h =
    let (v, w) = good-upper s (ground arith) in
    let here : upper_byte b ≡ b = ground arith in
    let there : upper_byte (lower_byte b) ≡ b = ground arith in (cc, cc)

module _ (upper trim : Text → Text)
    (upper_law : (s : Text) → all_visible s ≡ true → upper s ≡ map upper_byte s)
    (trim_law : (s : Text) → all_visible s ≡ true → trim s ≡ s) where
  normalize-good :
      (s : Text)
      → all_of good s ≡ true
      → (normalize_pairing_code upper trim s ≡ keep (λ b. not (is_dash b)) s)
        × (normalize_pairing_code upper trim (map lower_byte s) ≡ keep (λ b. not (is_dash b)) s)
  unfolding normalize_pairing_code
  normalize-good s h =
      let (v, w) = good-visible s h in
      let (a, b) = good-upper s h in
      (
        ap (keep (λ b. not (is_dash b))) (ap upper (trim_law s v) ∙ upper_law s v ∙ a),
        ap (keep (λ b. not (is_dash b)))
            (ap upper (trim_law (map lower_byte s) w) ∙ upper_law (map lower_byte s) w ∙ b),
      )

++-nil : (s : Text) → s ++ [] ≡ s
++-nil [] = refl
++-nil (b ∷ s) = ap (λ t. b ∷ t) (++-nil s)

-- Parts of a code, joined by dashes.
dashed-good :
    (a b c : Text)
    → all_of char_ok a ≡ true
    → all_of char_ok b ≡ true
    → all_of char_ok c ≡ true
    → all_of good (a ++ dash ++ b ++ dash ++ c) ≡ true
dashed-good a b c x y z =
    rw
      (
        all_of-append good (a ++ dash ++ b ++ dash) c,
        all_of-append good (a ++ dash ++ b) dash,
        all_of-append good (a ++ dash) b,
        all_of-append good a dash,
        ok-good a x,
        ok-good b y,
        ok-good c z,
      )
      refl

dashed-kept :
    (a b c : Text)
    → all_of char_ok a ≡ true
    → all_of char_ok b ≡ true
    → all_of char_ok c ≡ true
    → keep (λ b. not (is_dash b)) (a ++ dash ++ b ++ dash ++ c) ≡ a ++ b ++ c
unfolding keep
dashed-kept a b c x y z =
    let p : ℕ → Bool = λ b. not (is_dash b) in
    rw
      (
        keep-append p (a ++ dash ++ b ++ dash) c,
        keep-append p (a ++ dash ++ b) dash,
        keep-append p (a ++ dash) b,
        keep-append p a dash,
        ok-kept a x,
        ok-kept b y,
        ok-kept c z,
        ++-nil a,
        ++-nil (a ++ b),
      )
      refl

++-assoc : (s t u : Text) → (s ++ t) ++ u ≡ s ++ (t ++ u)
++-assoc [] t u = refl
++-assoc (b ∷ s) t u = ap (λ r. b ∷ r) (++-assoc s t u)

parts-join :
    (s : Text) → length s ≡ 10 → take 4 s ++ take 4 (drop_bytes 4 s) ++ take 2 (drop_bytes 8 s) ≡ s
parts-join s h =
    let tail = take-all 2 (drop_bytes 8 s) (omega (arith, length-drop 8 s)) in
    ap (λ t. take 4 s ++ take 4 (drop_bytes 4 s) ++ t) (tail ∙ sym (drop-eight s))
    ∙ ++-assoc (take 4 s) (take 4 (drop_bytes 4 s)) (drop_bytes 4 (drop_bytes 4 s))
    ∙ ap (λ t. take 4 s ++ t) (take-drop 4 (drop_bytes 4 s))
    ∙ take-drop 4 s

code_kept :
    (buf : Text)
    → length buf ≡ 10
    → (all_of good (generate_pairing_code buf) ≡ true)
      × (keep (λ b. not (is_dash b)) (generate_pairing_code buf) ≡ map code_char buf)
unfolding generate_pairing_code
code_kept buf ten =
    let s = map code_char buf in
    let h = chars-ok buf in
    let a = all_of-take char_ok 4 s h in
    let b = all_of-take char_ok 4 (drop_bytes 4 s) (all_of-drop char_ok 4 s h) in
    let c = all_of-take char_ok 2 (drop_bytes 8 s) (all_of-drop char_ok 8 s h) in
    (
      dashed-good (take 4 s) (take 4 (drop_bytes 4 s)) (take 2 (drop_bytes 8 s)) a b c,
      dashed-kept (take 4 s) (take 4 (drop_bytes 4 s)) (take 2 (drop_bytes 8 s)) a b c
          ∙ parts-join s (length-chars buf ∙ ten),
    )

-- Where strings.ToUpper and strings.TrimSpace do on visible ASCII what is documented, every code
-- generated from ten random bytes normalizes to its ten characters, typed in upper or in lower
-- case, and they pass the check of the format.
pub code-accepted :
    (upper trim : Text → Text)
    → ((s : Text) → all_visible s ≡ true → upper s ≡ map upper_byte s)
    → ((s : Text) → all_visible s ≡ true → trim s ≡ s)
    → (buf : Text) → length buf ≡ 10
    → (normalize_pairing_code upper trim (generate_pairing_code buf) ≡ map code_char buf)
      × (normalize_pairing_code upper trim (map lower_byte (generate_pairing_code buf))
          ≡ map code_char buf)
      × (validate_pairing_code_format (map code_char buf) ≡ true)
unfolding validate_pairing_code_format
code-accepted upper trim upper_law trim_law buf ten =
    let (fine, kept) = code_kept buf ten in
    let (a, b) = normalize-good upper trim upper_law trim_law (generate_pairing_code buf) fine in
    (
      a ∙ kept,
      b ∙ kept,
      rw (length-chars buf, ten) (ok-crockford (map code_char buf) (chars-ok buf)),
    )
