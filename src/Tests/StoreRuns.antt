-- ===== src/Tests/StoreRuns.antt =====
-- Runs of the store.
use mathlib.Core.List.{Perm}
use ai_limit_notifier.Prelude.{
  ℕ, ◌+◌, ◌*◌, if◌then◌else◌, ◌≤◌, ◌≡◌, ◌≢◌, ◌⊎◌, inl, inr, refl, Text, ascii, List, [], ◌∷◌, ◌++◌,
  Option, none, some, second, minute, length, keep, arith, find_first, true, false,
}
use ai_limit_notifier.Prelude.Int.{pos}
use ai_limit_notifier.Store.Event.{Event, same}
use ai_limit_notifier.Store.Integrity.{IsTable}
use ai_limit_notifier.Store.History.{Op, upserts, claims_one, marks, fails, run, run-empty-IsTable}
use ai_limit_notifier.Store.Exclusion.{wins, wins-le-one}
use ai_limit_notifier.Store.Claim.{due, due_events}
use ai_limit_notifier.Store.Due.{IsOrdered, due_events_lem}
use ai_limit_notifier.Store.Devices.{Device, new_device, authenticate_device, revoke_device}
use ai_limit_notifier.Store.Pairing.{
  PairingCode, Tables, Redeemed, redeemed, refused, invalid_pairing_code, by_verifier, new_code,
  redeem_pairing_code,
}
use ai_limit_notifier.Store.OneUse.{Attempt, redemptions, redemptions-le-one, redeem-authenticates}
use ai_limit_notifier.Store.Access.{authenticate-revoke, find_or_create_lem}
use ai_limit_notifier.Store.Users.{
  User, find_or_create_telegram_user, user_by_telegram_id, telegram_chat_id, set_telegram_chat_id,
  chat,
}
use ai_limit_notifier.Tests.Sample.{
  in_order, at_second, ann, ann_user, laptop, codex_reset, claude_reset, first_row, second_row,
}

-- Two providers whose windows reset four minutes apart, delivered once.
abbrev combined_run : List Op
combined_run =
    upserts (codex_reset 5000) (ascii "e1") (10 * minute) (at_second 1000)
    ∷ upserts (claude_reset 5240) (ascii "e2") (10 * minute) (at_second 1001)
    ∷ claims_one (ascii "e1") (at_second 5060)
    ∷ fails (ascii "e1") (at_second 5100) (at_second 5070)
    ∷ claims_one (ascii "e1") (at_second 5100)
    ∷ marks (ascii "e1") (at_second 5101)
    ∷ []

run-empty-IsTable_example : IsTable (run in_order [] combined_run)
run-empty-IsTable_example = run-empty-IsTable in_order combined_run

wins-le-one_example :
    wins
      (first_row ∷ second_row ∷ [])
      (ascii "e1")
      (at_second 5060 ∷ at_second 5061 ∷ at_second 5170 ∷ [])
    ≤ 1
unfolding ai_limit_notifier.Prelude.any_row ai_limit_notifier.Prelude.text_discrete
    ai_limit_notifier.Prelude.ℕ_discrete
wins-le-one_example =
    wins-le-one (first_row ∷ second_row ∷ []) (ascii "e1") (at_second 5060)
      (at_second 5060 ∷ at_second 5061 ∷ at_second 5170 ∷ []) (refl, (refl, tt))
      ((omega arith, omega arith), ((omega arith, omega arith), ((omega arith, omega arith), tt)))

due_events_lem_example :
    (rest : List Event) × Perm
      (due_events in_order (second_row ∷ first_row ∷ []) (at_second 9100) 1 ++ rest)
      (keep (due (at_second 9100)) (second_row ∷ first_row ∷ []))
    × IsOrdered (due_events in_order (second_row ∷ first_row ∷ []) (at_second 9100) 1 ++ rest)
    × ((length (due_events in_order (second_row ∷ first_row ∷ []) (at_second 9100) 1) ≡ 1)
        ⊎ (rest ≡ []))
due_events_lem_example = due_events_lem in_order (second_row ∷ first_row ∷ []) (at_second 9100) 1

abbrev as_is : Text → Text
as_is s = s

abbrev code : PairingCode
code = new_code (ascii "c1") ann (ascii "verifier") (at_second 100) (10 * minute)

abbrev one_code : Tables
one_code = record { codes = code ∷ []; devices = laptop ∷ [] }

abbrev attempt : Text → ℕ → Attempt
attempt i s = record { at = at_second s; new_id = i; raw = i }

redemptions-le-one_example :
    redemptions as_is one_code
      (ascii "verifier")
      (attempt (ascii "d2") 200 ∷ attempt (ascii "d3") 201 ∷ [])
    ≤ 1
redemptions-le-one_example =
    redemptions-le-one as_is one_code (ascii "verifier")
      (attempt (ascii "d2") 200 ∷ attempt (ascii "d3") 201 ∷ [])

abbrev redeemed_once : Redeemed
redeemed_once = record {
  tables = record {
    codes = record code { consumed_at = some 200 } ∷ [];
    devices = laptop ∷ new_device (ascii "d2") ann (ascii "d2") (at_second 200) ∷ [];
  };
  user = ann;
  device = ascii "d2";
  token = ascii "d2";
}

redeem-authenticates_example :
    (c : PairingCode) × (find_first (by_verifier (ascii "verifier")) (code ∷ []) ≡ some c)
    × (authenticate_device as_is redeemed_once.tables.devices (ascii "d2")
        ≡ some (new_device (ascii "d2") c.user_id (ascii "d2") (at_second 200)))
unfolding redeem_pairing_code find_first ai_limit_notifier.Prelude.text_discrete
    ai_limit_notifier.Prelude.ℕ_discrete keep ai_limit_notifier.Store.Pairing.issue
    ai_limit_notifier.Store.Devices.insert_device ai_limit_notifier.Prelude.any_row
    ai_limit_notifier.Prelude.update_where
redeem-authenticates_example =
    redeem-authenticates as_is one_code (ascii "verifier") (attempt (ascii "d2") 200) redeemed_once
      refl

-- A second code of the user, while the first is not yet used.
abbrev code_after : PairingCode
code_after = new_code (ascii "c2") ann (ascii "second") (at_second 300) (10 * minute)

abbrev two_codes : List PairingCode
two_codes = record code { consumed_at = some 300 } ∷ code_after ∷ []

authenticate-revoke_example :
    authenticate_device as_is
      (revoke_device (laptop ∷ []) (ascii "d1") (at_second 9))
      (ascii "token")
    ≡ elim (authenticate_device as_is (laptop ∷ []) (ascii "token")) [
      | none ↦ none
      | some d ↦ if same d.id (ascii "d1") then none else some d
    ]
authenticate-revoke_example =
    authenticate-revoke as_is (laptop ∷ []) (ascii "d1") (ascii "token") (at_second 9)

find_or_create_lem_example :
    (user_by_telegram_id (record ann_user { telegram_chat_id = some (ascii "78") } ∷ []) (pos 77)
      ≡ some ann)
    × (telegram_chat_id (record ann_user { telegram_chat_id = some (ascii "78") } ∷ []) ann
        ≡ some (ascii "78"))
unfolding find_or_create_telegram_user find_first ai_limit_notifier.Store.Users.ℤ-discrete
    ai_limit_notifier.Prelude.ℕ_discrete set_telegram_chat_id ai_limit_notifier.Prelude.update_where
    ai_limit_notifier.Prelude.text_discrete
find_or_create_lem_example =
    find_or_create_lem (λ n. ascii "78") (ann_user ∷ [])
      (record ann_user { telegram_chat_id = some (ascii "78") } ∷ []) (pos 77) (pos 78) (ascii "u2")
      ann (at_second 5) refl
