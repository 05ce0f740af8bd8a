-- ===== src/Store/Users.antt =====
-- internal/server/store/users.go. `sprint` is `fmt.Sprint` at an int64.
use ai_limit_notifier.Prelude.{
  ℕ, Bool, false, holds, if◌then◌else◌, Text, List, [], ◌∷◌, ◌++◌, Option, none, some, unix,
  update_where, any_row, find_first, ℕ_discrete,
}
use ai_limit_notifier.Prelude.Int.{ℤ}
use ai_limit_notifier.Store.Event.{same}

pub record User : Type 0 where
  pub id : Text
  pub created_at : ℕ
  pub telegram_chat_id : Option Text
  pub telegram_user_id : Option ℤ

unfoldable pub ℤ-discrete : Discrete ℤ
ℤ-discrete = hlevel ℕ_discrete

abbrev pub user_by_id : Text → User → Bool
user_by_id i u = same u.id i

abbrev pub by_telegram : ℤ → User → Bool
by_telegram n u = elim u.telegram_user_id [ none ↦ false | some m ↦ holds (ℤ-discrete m n) ]

-- `CreateUser`; `none` is a failed insert, here on the primary key.
unfoldable pub create_user : List User → Text → ℕ → Option (List User)
create_user t new_id now =
    if any_row (user_by_id new_id) t
    then none
    else some (
        t
        ++ record {
          id = new_id;
          created_at = unix now;
          telegram_chat_id = none;
          telegram_user_id = none;
        }
          ∷ [])

abbrev pub chat : Text → User → User
chat c u = record u { telegram_chat_id = some c }

unfoldable pub set_telegram_chat_id : List User → Text → Text → List User
set_telegram_chat_id t user_id c = update_where (user_by_id user_id) (chat c) t

-- `none` is the error for a missing user, and the empty text a user with no destination.
unfoldable pub telegram_chat_id : List User → Text → Option Text
telegram_chat_id t user_id = elim (find_first (user_by_id user_id) t) [
  | none ↦ none
  | some u ↦ elim u.telegram_chat_id [ none ↦ some [] | some c ↦ some c ]
]

abbrev pub telegram_user : Text → ℕ → ℤ → Text → User
telegram_user new_id now n c = record {
  id = new_id;
  created_at = unix now;
  telegram_chat_id = some c;
  telegram_user_id = some n;
}

unfoldable pub find_or_create_telegram_user :
    (ℤ → Text) → List User → ℤ → ℤ → Text → ℕ → Option (List User × Text)
find_or_create_telegram_user sprint t n chat_id new_id now = elim (find_first (by_telegram n) t) [
  | some u ↦ some (set_telegram_chat_id t u.id (sprint chat_id), u.id)
  | none ↦
      if any_row (user_by_id new_id) t
      then none
      else some (t ++ telegram_user new_id now n (sprint chat_id) ∷ [], new_id)
]

-- `found` is false exactly on `none`.
unfoldable pub user_by_telegram_id : List User → ℤ → Option Text
user_by_telegram_id t n = elim (find_first (by_telegram n) t) [ none ↦ none | some u ↦ some u.id ]
