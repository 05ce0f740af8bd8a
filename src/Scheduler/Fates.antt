-- ===== src/Scheduler/Fates.antt =====
-- The event of a delivery, on every path of deliverOne (internal/server/scheduler/scheduler.go).
use mathlib.Core.Path.{subst}
use ai_limit_notifier.Store.Distinct.{Distinct, id_of}
use ai_limit_notifier.Prelude.{
  ℕ, ◌+◌, ◌≡◌, ◌≢◌, inl, inr, refl, Bool, true, false, not, ◌||◌, ◌⊎◌, if◌then◌else◌, Text, List,
  [], ◌∷◌, Option, none, some, find_first, find_first-test, keep, keep-none, any_row, arith,
  Bool-cases,
}
use ai_limit_notifier.Store.Event.{Event, Engine, by_id}
use ai_limit_notifier.Store.Users.{User, telegram_chat_id}
use ai_limit_notifier.Store.Claim.{
  claim_event, claim, claims, claimable, deliver_mark, retry_later, covered_providers,
}
use ai_limit_notifier.Scheduler.Message.{build_message}
use ai_limit_notifier.Scheduler.{
  Calls, Outcome, SendResult, delivered, failed, retryable, record_failure, next_attempt, settle,
  send_to, deliver_to, deliver_one, no_destination_retry, weekly_hint,
}
use ai_limit_notifier.Scheduler.Delivery.{row, claim-row, mark-row, fail-row}

abbrev pub is_missing : Option Text → Bool
is_missing none = true
is_missing (some d) = false

-- A call of the store behind the claim fails, or the user is unknown.
abbrev pub cut_short : Calls → List User → Event → Bool
cut_short c users ev =
    c.chat_fails
    || c.covered_fails
    || c.mark_fails
    || c.record_fails
    || is_missing (telegram_chat_id users ev.user_id)

-- The message about an event, on the table as it is after the claim: the providers of the events
-- that it covers, and the weekly hint.
abbrev pub message_about : Engine → Calls → List Event → Event → Text
message_about db c t ev =
    let covering = covered_providers db t ev.id in
    build_message ev.provider ev.window_kind covering (weekly_hint db c t ev covering)

-- The text is the event's message, and the destination its user's chat.
abbrev pub Addressed : Engine → List User → Calls → List Event → Event → Text → Text → Type 0
Addressed db users c t ev d m =
    (telegram_chat_id users ev.user_id ≡ some d) × (d ≢ []) × (m ≡ message_about db c t ev)

-- The row `r'` of the event after a delivery and its messages, by what happened to the row `r`;
-- `t` is the table after the claim.
pub data Fate (db : Engine) (users : List User) (c : Calls) (t : List Event) (ev r r' : Event)
    (messages : List (Text × Text)) : Type 0 where
  -- It was not claimed.
  left_alone :
      (c.claim_fails || not (claimable c.claim_at r)) ≡ true
      → r' ≡ r
      → messages ≡ []
      → Fate db users c t ev r r' messages
  -- It was claimed, and then a call of the store failed.
  interrupted :
      claimable c.claim_at r ≡ true
      → cut_short c users ev ≡ true
      → r' ≡ claim c.claim_at r
      → (messages ≡ [])
        ⊎ ((d : Text) × (m : Text) × Addressed db users c t ev d m × (messages ≡ (d, m) ∷ []))
      → Fate db users c t ev r r' messages
  -- It was claimed and has no destination.
  deferred :
      claimable c.claim_at r ≡ true
      → r' ≡ retry_later (c.next_at + no_destination_retry) c.record_at (claim c.claim_at r)
      → messages ≡ []
      → Fate db users c t ev r r' messages
  -- It was claimed, and its one message was delivered.
  was_sent :
      (d m : Text)
      → Addressed db users c t ev d m
      → claimable c.claim_at r ≡ true
      → c.send d m ≡ delivered
      → r' ≡ deliver_mark c.mark_at (claim c.claim_at r)
      → messages ≡ (d, m) ∷ []
      → Fate db users c t ev r r' messages
  -- It was claimed, and its one message was not delivered.
  was_refused :
      (d m : Text)
      → Addressed db users c t ev d m
      → claimable c.claim_at r ≡ true
      → c.send d m ≢ delivered
      → r' ≡ retry_later (next_attempt c ev (c.send d m)) c.record_at (claim c.claim_at r)
      → messages ≡ (d, m) ∷ []
      → Fate db users c t ev r r' messages

abbrev pub Fated : Engine → List User → Calls → List Event → Event → Event → Outcome → Type 0
Fated db users c t ev r o =
    (r' : Event) × (row ev.id o.table ≡ some r') × Fate db users c t ev r r' o.messages

module _ (db : Engine) (users : List User) (c : Calls) (ev r : Event) (t : List Event)
    (own : by_id ev.id r ≡ true) (won : claimable c.claim_at r ≡ true)
    (at_row : row ev.id t ≡ some (claim c.claim_at r)) where
  recorded :
      (next : ℕ)
      → c.record_fails ≡ false
      → row ev.id (record_failure c ev next t)
        ≡ some (retry_later next c.record_at (claim c.claim_at r))
  unfolding record_failure
  recorded next ok = ground (arith, fail-row t ev.id ev.id next c.record_at)

  unrecorded :
      (next : ℕ)
      → c.record_fails ≡ true
      → row ev.id (record_failure c ev next t) ≡ some (claim c.claim_at r)
  unfolding record_failure
  unrecorded next ok = ground arith

  refused-Fated :
      (d m : Text) (s : SendResult)
      → Addressed db users c t ev d m
      → c.send d m ≡ s
      → s ≢ delivered
      → settle c ev t s ≡ record_failure c ev (next_attempt c ev s) t
      → Fated db users c t ev r (record { table = settle c ev t s; messages = (d, m) ∷ [] })
  refused-Fated d m s to answer bad e = elim (Bool-cases c.record_fails) [
    | inl f ↦ (
      claim c.claim_at r,
      rw e (unrecorded (next_attempt c ev s) f),
      interrupted won (ground arith) refl (inr (d, m, to, refl)),
    )
    | inr f ↦ (
      retry_later (next_attempt c ev s) c.record_at (claim c.claim_at r),
      rw e (recorded (next_attempt c ev s) f),
      was_refused d m to won (rw answer bad) (rw answer) refl,
    )
  ]

  settle-Fated :
      (d m : Text) (s : SendResult)
      → Addressed db users c t ev d m
      → c.send d m ≡ s
      → Fated db users c t ev r (record { table = settle c ev t s; messages = (d, m) ∷ [] })
  unfolding settle
  settle-Fated d m delivered to answer = elim (Bool-cases c.mark_fails) [
    | inl f ↦ (
      claim c.claim_at r,
      ground arith,
      interrupted won (ground arith) refl (inr (d, m, to, refl)),
    )
    | inr f ↦ (
      deliver_mark c.mark_at (claim c.claim_at r),
      ground (arith, mark-row t ev.id ev.id c.mark_at),
      was_sent d m to won answer refl refl,
    )
  ]
  settle-Fated d m failed to answer = refused-Fated d m failed to answer (λ h. cc) refl
  settle-Fated d m (retryable after) to answer =
      refused-Fated d m (retryable after) to answer (λ h. cc) refl

  send_to-Fated :
      (d : Text)
      → telegram_chat_id users ev.user_id ≡ some d
      → d ≢ []
      → Fated db users c t ev r (send_to db c t ev d)
  unfolding send_to
  send_to-Fated d known full = settle-Fated d _ _ (known, full, refl) refl

  deliver_to-Fated :
      (o : Option Text)
      → telegram_chat_id users ev.user_id ≡ o
      → Fated db users c t ev r (deliver_to db c t ev o)
  unfolding deliver_to
  deliver_to-Fated none e =
      (claim c.claim_at r, at_row, interrupted won (ground arith) refl (inl refl))
  deliver_to-Fated (some []) e = elim (Bool-cases c.record_fails) [
    | inl f ↦ (claim c.claim_at r, unrecorded _ f, interrupted won (ground arith) refl (inl refl))
    | inr f ↦ (
      retry_later (c.next_at + no_destination_retry) c.record_at (claim c.claim_at r),
      recorded _ f,
      deferred won refl refl,
    )
  ]
  deliver_to-Fated (some (x ∷ xs)) e = elim (Bool-cases c.covered_fails) [
    | inl f ↦
        (claim c.claim_at r, ground arith, interrupted won (ground arith) refl (inl (ground arith)))
    | inr f ↦ subst (Fated db users c t ev r) (ground arith) (send_to-Fated (x ∷ xs) e (λ h. cc))
  ]

keep-claims-none :
    (i : Text) (now : ℕ) (t : List Event) → any_row (by_id i) t ≡ false → keep (claims i now) t ≡ []
keep-claims-none i now t h = keep-none (by_id i) (claims i now) t h (λ r e. ground arith)

-- The rows that a claim affects: the event's, if it is claimable.
keep-claims :
    (i : Text) (now : ℕ) (t : List Event) (r : Event)
    → Distinct id_of t
    → row i t ≡ some r
    → keep (claims i now) t ≡ (if claimable now r then r ∷ [] else [])
unfolding keep find_first
keep-claims i now [] r d h = absurd (ground arith)
keep-claims i now (x ∷ xs) r d h = elim (Bool-cases (by_id i x)) [
  | inl e ↦
      let others : any_row (by_id i) xs ≡ false = ground arith in
      ground (arith, keep-claims-none i now xs others)
  | inr e ↦ ground (arith, keep-claims i now xs r d.1)
]

pub claim_event-claimed :
    (t : List Event) (i : Text) (now : ℕ) (r : Event)
    → Distinct id_of t
    → row i t ≡ some r
    → (claim_event t i now).1 ≡ claimable now r
unfolding claim_event
claim_event-claimed t i now r d h = ground (arith, keep-claims i now t r d h)

-- On a table with unique identifiers that holds the event's row, a delivery of the event sends at
-- most one message, which is the text about the event for the chat of its user, and only after it
-- has claimed the event. It then records the event as sent if the message was delivered, and for
-- another attempt if it was not or if there is no destination. Only a failing call of the store or
-- an unknown user leaves it claimed.
pub deliver_one-Fate :
    (db : Engine) (users : List User) (c : Calls) (t : List Event) (ev r : Event)
    → Distinct id_of t
    → row ev.id t ≡ some r
    → Fated db users c (claim_event t ev.id c.claim_at).0 ev r (deliver_one db users c t ev)
unfolding deliver_one
deliver_one-Fate db users c t ev r d h = elim (Bool-cases c.claim_fails) [
  | inl f ↦ (r, ground arith, left_alone (ground arith) refl (ground (arith, claimed_iff)))
  | inr f ↦ elim (Bool-cases (claimable c.claim_at r)) [
    | inl won ↦
        let claimed : row ev.id t' ≡ some (claim c.claim_at r) =
          ground (arith, claim-row t ev.id ev.id c.claim_at, own, claimed_iff) in
        elim (Bool-cases c.chat_fails) [
          | inl g ↦ (
            claim c.claim_at r,
            ground (arith, claimed_iff),
            interrupted won (ground arith) refl (inl (ground (arith, claimed_iff))),
          )
          | inr g ↦ subst (Fated db users c t' ev r) (ground (arith, claimed_iff)) (
              deliver_to-Fated db users c ev r t' own won claimed
                (telegram_chat_id users ev.user_id) refl)
        ]
    | inr lost ↦ (
      r,
      ground (arith, claim-row t ev.id ev.id c.claim_at, own, claimed_iff),
      left_alone (ground arith) refl (ground (arith, claimed_iff)),
    )
  ]
]
  where
    t' : List Event
    t' = (claim_event t ev.id c.claim_at).0

    own : by_id ev.id r ≡ true
    own = find_first-test (by_id ev.id) t r h

    claimed_iff : (claim_event t ev.id c.claim_at).1 ≡ claimable c.claim_at r
    claimed_iff = claim_event-claimed t ev.id c.claim_at r d h
