-- ===== src/Auth.antt =====
-- internal/server/auth: the form of pairing codes. `upper` and `trim` are Go's strings.ToUpper and
-- strings.TrimSpace, whose Unicode tables are not modelled.
pub mod Codes
use ai_limit_notifier.Prelude.{
  ℕ, zero, suc, ◌+◌, ◌%◌, ◌==◌, Bool, true, not, ◌&&◌, ltb, if◌then◌else◌, Text, ascii, List, [],
  ◌∷◌, ◌++◌, map, take, any_row, length, keep,
}

abbrev pub crockford_alphabet : Text
crockford_alphabet = ascii "0123456789ABCDEFGHJKMNPQRSTVWXYZ"

abbrev pub pairing_code_chars : ℕ
pairing_code_chars = 10

-- The byte at an index; no caller indexes past the end.
abbrev pub byte_at : Text → ℕ → ℕ
byte_at [] n = 0
byte_at (b ∷ bs) zero = b
byte_at (b ∷ bs) (suc n) = byte_at bs n

abbrev pub drop_bytes : ℕ → Text → Text
drop_bytes zero s = s
drop_bytes (suc n) [] = []
drop_bytes (suc n) (b ∷ bs) = drop_bytes n bs

-- `b & 0x1F` is `b % 32`.
abbrev pub code_char : ℕ → ℕ
code_char b = byte_at crockford_alphabet (b % 32)

abbrev pub dash : Text
dash = ascii "-"

-- `buf` is what rand.Read filled.
unfoldable pub generate_pairing_code : Text → Text
generate_pairing_code buf =
    let chars = map code_char buf in
    take 4 chars ++ dash ++ take 4 (drop_bytes 4 chars) ++ dash ++ take 2 (drop_bytes 8 chars)

abbrev pub is_dash : ℕ → Bool
is_dash b = b == 45

unfoldable pub normalize_pairing_code : (Text → Text) → (Text → Text) → Text → Text
normalize_pairing_code upper trim raw = keep (λ b. not (is_dash b)) (upper (trim raw))

-- `strings.IndexByte(crockfordAlphabet, b) >= 0`
abbrev pub is_crockford : ℕ → Bool
is_crockford b = any_row (λ c. c == b) crockford_alphabet

unfoldable pub all_crockford : Text → Bool
all_crockford [] = true
all_crockford (b ∷ bs) = is_crockford b && all_crockford bs

unfoldable pub validate_pairing_code_format : Text → Bool
validate_pairing_code_format normalized =
    length normalized == pairing_code_chars && all_crockford normalized
