-- ===== src/Tests/Sample.antt =====
-- The users, devices, events and clock readings of the examples.
use mathlib.Core.List.Perm
use ai_limit_notifier.Prelude.{ℕ, ◌*◌, Text, ascii, second}
use ai_limit_notifier.Domain.{codex, claude, five_hour, percent}
use ai_limit_notifier.Store.Event.{Event, EventInput, Engine}
use ai_limit_notifier.Store.Upsert.{new_row}
use ai_limit_notifier.Store.Users.{User, telegram_user}
use ai_limit_notifier.Store.Devices.{Device, new_device}
use ai_limit_notifier.Prelude.Int.{pos}

abbrev pub in_order : Engine
in_order = record { scan = λ rows. rows; scan_perm = Perm.refl }

abbrev pub at_second : ℕ → ℕ
at_second n = n * second

abbrev pub ann : Text
ann = ascii "u1"

abbrev pub ann_user : User
ann_user = telegram_user ann (at_second 1) (pos 77) (ascii "77")

abbrev pub laptop : Device
laptop = new_device (ascii "d1") ann (ascii "token") (at_second 1)

abbrev pub codex_reset : ℕ → EventInput
codex_reset s = record {
  in_user_id = ann;
  in_device_id = ascii "d1";
  in_provider = codex;
  in_window_kind = five_hour;
  in_reset_at = at_second s;
  in_used_percent = percent 90;
}

abbrev pub claude_reset : ℕ → EventInput
claude_reset s = record (codex_reset s) { in_provider = claude }

abbrev pub first_row : Event
first_row = new_row (codex_reset 5000) (ascii "e1") (at_second 1000)

abbrev pub second_row : Event
second_row = new_row (claude_reset 9000) (ascii "e2") (at_second 1000)
