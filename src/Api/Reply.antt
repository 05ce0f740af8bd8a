-- ===== src/Api/Reply.antt =====
-- The answers of the handlers (internal/server/api/types.go and writeError).
use ai_limit_notifier.Prelude.{ℕ, Text, Bool, ◌||◌, ascii}
use ai_limit_notifier.Store.Event.{same}

-- `accepted` is 200 with a usageResponse, and `linked` 200 with a pairResponse.
pub data Reply : Type 0 where
  accepted : Reply
  linked : Text → Text → Reply
  failure : ℕ → Text → Text → Reply

-- The status, the code and the detail of an answer by writeError.
abbrev pub Refusal : Type 0
Refusal = ℕ × Text × Text

abbrev pub bad_request : Text → Text → Refusal
bad_request code detail = (400, code, detail)

-- What json.Decoder makes of a body: an error of MaxBytesReader, another error, a value with more
-- behind it, or a value.
pub data Body (A : Type 0) : Type 0 where
  too_large malformed : Body A
  trailing decoded : A → Body A

abbrev pub is_json : Text → Bool
is_json content_type =
    same content_type (ascii "application/json")
    || same content_type (ascii "application/json; charset=utf-8")
