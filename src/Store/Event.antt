-- ===== src/Store/Event.antt =====
-- The table notification_events (internal/server/store/events.go and migrations.go) and the
-- statements on it that the operations are made of.
use mathlib.Core.List.{Perm}
use ai_limit_notifier.Prelude.{
  ℕ, Bool, true, false, ◌&&◌, ◌==◌, holds, Text, text_discrete, List, [], ◌∷◌, keep, Option, none,
  some,
}
use ai_limit_notifier.Domain.{Provider, WindowKind, Float64, is_provider, is_kind}

pub data EventStatus : Type 0 where
  pending sending sent covered : EventStatus

pub EventStatus-discrete : Discrete EventStatus
EventStatus-discrete = hlevel

-- Columns that the schema declares INTEGER hold whole seconds.
pub record Event : Type 0 where
  pub id : Text
  pub user_id : Text
  pub device_id : Text
  pub provider : Provider
  pub window_kind : WindowKind
  pub reset_at : ℕ
  pub used_percent : Float64
  pub send_at : ℕ
  pub status : EventStatus
  pub covered_by : Option Text
  pub attempts : ℕ
  pub next_attempt_at : ℕ
  pub created_at : ℕ
  pub updated_at : ℕ
  pub sent_at : Option ℕ

pub record EventInput : Type 0 where
  pub in_user_id : Text
  pub in_device_id : Text
  pub in_provider : Provider
  pub in_window_kind : WindowKind
  pub in_reset_at : ℕ
  pub in_used_percent : Float64

abbrev pub same : Text → Text → Bool
same a b = holds (text_discrete a b)

abbrev pub is_pending : EventStatus → Bool
is_pending pending = true
is_pending _ = false

abbrev pub is_sending : EventStatus → Bool
is_sending sending = true
is_sending _ = false

-- SQLite returns the rows of a query with no ORDER BY in an order of its own.
pub record Engine : Type 0 where
  pub scan : List Event → List Event
  pub scan_perm : (rows : List Event) → Perm (scan rows) rows

abbrev pub head_row : List Event → Option Event
head_row [] = none
head_row (r ∷ rs) = some r

-- `SELECT … WHERE`, and its first row (`QueryRow`).
unfoldable pub query : Engine → (Event → Bool) → List Event → List Event
query db p t = db.scan (keep p t)

unfoldable pub query_row : Engine → (Event → Bool) → List Event → Option Event
unfolding query
query_row db p t = head_row (query db p t)

abbrev pub by_id : Text → Event → Bool
by_id i r = same r.id i

-- The columns of the UNIQUE constraint.
abbrev pub same_window : Text → Provider → WindowKind → Event → Bool
same_window user provider kind r =
    same r.user_id user && is_provider r.provider provider && is_kind r.window_kind kind

abbrev pub same_key : Text → Provider → WindowKind → ℕ → Event → Bool
same_key user provider kind reset r = same_window user provider kind r && r.reset_at == reset
