-- ===== src/Store/Upsert.antt =====
-- UpsertPendingEvent and linkCombinable of internal/server/store/events.go. Each runs in one
-- transaction: an error leaves the table as it was.
use ai_limit_notifier.Prelude.{
  update_where, any_row, ℕ, ◌+◌, ◌-◌, Bool, true, false, not, ◌&&◌, ◌||◌, ◌==◌, ltb, leb,
  if◌then◌else◌, Text, List, [], ◌∷◌, ◌++◌, Option, none, some, unix, minute,
}
use ai_limit_notifier.Domain.{Provider, WindowKind, is_provider, is_kind}
use ai_limit_notifier.Store.Event.{
  Event, EventInput, pending, covered, is_pending, same, Engine, query, query_row, by_id,
  same_window, same_key,
}

pub data StoreError : Type 0 where
  constraint_failed no_rows : StoreError

pub data Upserted : Type 0 where
  ok : List Event → Text → Bool → Upserted
  err : StoreError → Upserted

-- The first row of another provider.
unfoldable pub find_partner : Provider → List Event → Option Event
find_partner this [] = none
find_partner this (c ∷ cs) = if is_provider c.provider this then find_partner this cs else some c

-- The row that the later of two events is, and the row that it is covered by.
unfoldable pub later_first : Text → ℕ → Event → ℕ → Text × Text
later_first event_id reset_at partner now =
    if ltb (unix reset_at) partner.reset_at
      || (unix reset_at == partner.reset_at && ltb (unix now) partner.created_at)
    then (partner.id, event_id)
    else (event_id, partner.id)

abbrev pub cover : Text → ℕ → Event → Event
cover earlier now r = record r {
  status = covered;
  covered_by = some earlier;
  updated_at = unix now;
}

-- No stored time is below 0, so the lower bound may stop there.
abbrev pub combinable : Text → Text → WindowKind → ℕ → ℕ → Event → Bool
combinable event_id user kind reset_at combine_window r =
    same r.user_id user
    && is_kind r.window_kind kind
    && is_pending r.status
    && not (same r.id event_id)
    && leb (unix (reset_at - combine_window)) r.reset_at
    && leb r.reset_at (unix (reset_at + combine_window))

unfoldable pub cover_later : Text → ℕ → ℕ → List Event → Option Event → List Event
cover_later event_id reset_at now t none = t
cover_later event_id reset_at now t (some partner) =
    let (later, earlier) = later_first event_id reset_at partner now in
    update_where (by_id later) (cover earlier now) t

unfoldable pub link_partner :
    Text → ℕ → ℕ → List Event → List Event → Option Event → Option (List Event)
link_partner event_id reset_at now t rows none = none
link_partner event_id reset_at now t rows (some this) =
    some (cover_later event_id reset_at now t (find_partner this.provider rows))

-- `linkCombinable`; `none` is its error.
unfoldable pub link_combinable :
    Engine → List Event → Text → Text → WindowKind → ℕ → ℕ → ℕ → Option (List Event)
link_combinable db t event_id user kind reset_at combine_window now =
    link_partner event_id reset_at now t
      (query db (combinable event_id user kind reset_at combine_window) t)
      (query_row db (by_id event_id) t)

-- The rows that the three writes of the operation leave.
abbrev pub refresh : EventInput → ℕ → Event → Event
refresh ev now r = record r { used_percent = ev.in_used_percent; updated_at = unix now }

abbrev pub move : EventInput → ℕ → Event → Event
move ev now r = record r {
  reset_at = unix ev.in_reset_at;
  used_percent = ev.in_used_percent;
  send_at = unix (ev.in_reset_at + minute);
  attempts = 0;
  next_attempt_at = unix (ev.in_reset_at + minute);
  updated_at = unix now;
}

abbrev pub new_row : EventInput → Text → ℕ → Event
new_row ev new_id now = record {
  id = new_id;
  user_id = ev.in_user_id;
  device_id = ev.in_device_id;
  provider = ev.in_provider;
  window_kind = ev.in_window_kind;
  reset_at = unix ev.in_reset_at;
  used_percent = ev.in_used_percent;
  send_at = unix (ev.in_reset_at + minute);
  status = pending;
  covered_by = none;
  attempts = 0;
  next_attempt_at = unix (ev.in_reset_at + minute);
  created_at = unix now;
  updated_at = unix now;
  sent_at = none;
}

abbrev pub window_of : EventInput → Event → Bool
window_of ev = same_window ev.in_user_id ev.in_provider ev.in_window_kind

abbrev pub key_of : EventInput → Event → Bool
key_of ev = same_key ev.in_user_id ev.in_provider ev.in_window_kind (unix ev.in_reset_at)

-- Writes that break the primary key or the UNIQUE constraint fail.
unfoldable pub move_in_place : EventInput → Text → ℕ → List Event → Option (List Event)
move_in_place ev existing now t =
    if any_row (λ r. not (same r.id existing) && key_of ev r) t
    then none
    else some (update_where (by_id existing) (move ev now) t)

unfoldable pub insert_row : EventInput → Text → ℕ → List Event → Option (List Event)
insert_row ev new_id now t =
    if any_row (by_id new_id) t || any_row (key_of ev) t
    then none
    else some (t ++ new_row ev new_id now ∷ [])

unfoldable pub commit : Text → Bool → Option (List Event) → Upserted
commit event_id created none = err no_rows
commit event_id created (some t) = ok t event_id created

-- The last part of the operation: link the written row, and commit.
unfoldable pub link_and_commit :
    Engine → EventInput → Text → Bool → ℕ → ℕ → Option (List Event) → Upserted
link_and_commit db ev event_id created combine_window now none = err constraint_failed
link_and_commit db ev event_id created combine_window now (some t) = commit event_id created (
    link_combinable db t event_id ev.in_user_id ev.in_window_kind ev.in_reset_at combine_window now)

-- The three cases of the pending row: none, of this reset time, or of another.
unfoldable pub upsert_pending : Engine → EventInput → ℕ → ℕ → List Event → Event → Upserted
upsert_pending db ev combine_window now t existing =
    if existing.reset_at == unix ev.in_reset_at
    then ok (update_where (by_id existing.id) (refresh ev now) t) existing.id false
    else link_and_commit db ev existing.id false combine_window now
        (move_in_place ev existing.id now t)

unfoldable pub upsert_new :
    Engine → EventInput → Text → ℕ → ℕ → List Event → Option Event → Upserted
upsert_new db ev new_id combine_window now t (some historical) = ok t historical.id false
upsert_new db ev new_id combine_window now t none =
    link_and_commit db ev new_id true combine_window now (insert_row ev new_id now t)

unfoldable pub upsert_found :
    Engine → EventInput → Text → ℕ → ℕ → List Event → Option Event → Upserted
upsert_found db ev new_id combine_window now t (some existing) =
    upsert_pending db ev combine_window now t existing
upsert_found db ev new_id combine_window now t none =
    upsert_new db ev new_id combine_window now t (query_row db (key_of ev) t)

-- `new_id` is the identifier that `uuid.NewString` makes, and `now` the clock's reading.
unfoldable pub upsert_pending_event : Engine → List Event → EventInput → Text → ℕ → ℕ → Upserted
upsert_pending_event db t ev new_id combine_window now =
    upsert_found db ev new_id combine_window now t
      (query_row db (λ r. window_of ev r && is_pending r.status) t)
