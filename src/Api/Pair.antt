-- ===== src/Api/Pair.antt =====
-- handlePair of internal/server/api/pair.go. `upper` and `trim` are functions of package strings,
-- `mac` is auth.PairingCodeVerifier (HMAC-SHA256) and `hash` auth.HashToken (SHA-256).
use ai_limit_notifier.Prelude.{
  ℕ, Bool, true, false, not, ◌&&◌, ◌||◌, ◌==◌, ltb, leb, if◌then◌else◌, Text, ascii, [], ◌∷◌,
  length, inl, inr, ◌⊎◌,
}
use ai_limit_notifier.Store.Pairing.{
  Tables, Redemption, redeemed, refused, invalid_pairing_code, insert_failed, redeem_pairing_code,
}
use ai_limit_notifier.Auth.{normalize_pairing_code, validate_pairing_code_format}
use ai_limit_notifier.Api.Reply.{
  Reply, linked, failure, Refusal, bad_request, Body, too_large, malformed, trailing, decoded,
  is_json,
}

pub record PairRequest : Type 0 where
  pub code : Text
  pub client_version : Text
  pub platform : Text

abbrev pub max_client_version_len : ℕ
max_client_version_len = 32

abbrev pub lower_alnum : ℕ → Bool
lower_alnum b = leb 97 b && leb b 122 || leb 48 b && leb b 57

unfoldable pub platform_rest : Text → Bool
platform_rest [] = true
platform_rest (b ∷ bs) = (lower_alnum b || b == 95 || b == 45) && platform_rest bs

-- `^[a-z0-9][a-z0-9_-]{0,39}$`
abbrev pub platform_matches : Text → Bool
platform_matches [] = false
platform_matches (b ∷ bs) = lower_alnum b && leb (length bs) 39 && platform_rest bs

abbrev pub invalid_code : Refusal
invalid_code = bad_request (ascii "invalid_code") []

-- The normalized code, or a refusal before the store is asked.
unfoldable pub check_pair : (Text → Text) → (Text → Text) → PairRequest → Refusal ⊎ Text
check_pair upper trim req =
    let normalized = normalize_pairing_code upper trim req.code in
    if length req.client_version == 0 || ltb max_client_version_len (length req.client_version)
    then inl (bad_request (ascii "invalid_client_version") [])
    else if not (platform_matches req.platform)
    then inl (bad_request (ascii "invalid_platform") [])
    else if not (validate_pairing_code_format normalized)
    then inl invalid_code
    else inr normalized

unfoldable pub check_pair_body :
    (Text → Text) → (Text → Text) → Text → Text → Body PairRequest → Refusal ⊎ Text
check_pair_body upper trim secret content_type body =
    if length secret == 0
    then inl (503, ascii "pairing_unavailable", [])
    else if not (is_json content_type)
    then inl (415, ascii "invalid_content_type", [])
    else elim body [
      | too_large ↦ inl (413, ascii "body_too_large", [])
      | malformed ↦ inl (bad_request (ascii "invalid_json") [])
      | trailing req ↦
          inl (bad_request (ascii "invalid_json") (ascii "trailing content after JSON body"))
      | decoded req ↦ check_pair upper trim req
    ]

unfoldable pub answer_pair : Tables → Redemption → Tables × Reply
answer_pair t (redeemed r) = (r.tables, linked r.device r.token)
answer_pair t (refused invalid_pairing_code) = (t, failure 400 (ascii "invalid_code") [])
answer_pair t (refused insert_failed) = (t, failure 500 (ascii "pairing_failed") [])

unfoldable pub handle_pair :
    (Text → Text)
    → (Text → Text)
    → (Text → Text → Text)
    → (Text → Text)
    → Text
    → Tables
    → Text
    → Body PairRequest
    → ℕ
    → Text
    → Text
    → Tables × Reply
handle_pair upper trim mac hash secret t content_type body now new_id raw =
    elim (check_pair_body upper trim secret content_type body) [
      | inl (status, code, detail) ↦ (t, failure status code detail)
      | inr normalized ↦
          answer_pair t (redeem_pairing_code hash t (mac secret normalized) now new_id raw)
    ]
