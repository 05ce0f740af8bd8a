-- ===== src/Agent.antt =====
-- internal/agent/core.go: thresholds, deduplication and bounded delivery in the local agent.
pub mod Dedup
pub mod Feeds
pub mod Races
pub mod Repeats
use ai_limit_notifier.Prelude.{
  ℕ, zero, suc, ◌+◌, ◌*◌, ◌-◌, Bool, true, false, not, ◌&&◌, ◌||◌, ◌==◌, ltb, holds, if◌then◌else◌,
  List, [], ◌∷◌, ◌++◌, Option, none, some, second, unix, any_row, ℕ_discrete,
}
use ai_limit_notifier.Domain.{
  Provider, WindowKind, Float64, UsageWindow, UsageSnapshot, should_schedule_reset, is_provider,
  is_kind,
}

pub record Event : Type 0 where
  pub provider : Provider
  pub window : WindowKind
  pub used_percent : Float64
  pub reset_at : ℕ
  pub observed_at : ℕ

pub record RetryPolicy : Type 0 where
  pub max_attempts : ℕ
  pub base_delay : ℕ
  pub max_delay : ℕ

abbrev pub default_retry_policy : RetryPolicy
default_retry_policy = record { max_attempts = 3; base_delay = second; max_delay = 5 * second }

pub record DedupKey : Type 0 where
  pub key_provider : Provider
  pub key_window : WindowKind
  pub key_reset_at : ℕ

abbrev pub same_dedup : DedupKey → DedupKey → Bool
same_dedup k j =
    is_provider k.key_provider j.key_provider
    && is_kind k.key_window j.key_window
    && k.key_reset_at == j.key_reset_at

-- The set `sent` holds the keys that the map gives `true`.
pub record Core : Type 0 where
  pub threshold : Float64
  pub retry : RetryPolicy
  pub sent : List DedupKey

unfoldable pub new_core : Float64 → Core
new_core threshold = record { threshold = threshold; retry = default_retry_policy; sent = [] }

abbrev pub event_key : Event → DedupKey
event_key ev = record {
  key_provider = ev.provider;
  key_window = ev.window;
  key_reset_at = unix ev.reset_at;
}

-- What one call of the sink meets: whether it succeeds, whether the context is cancelled when it
-- has failed, and whether it is cancelled during the wait that follows.
pub record Answer : Type 0 where
  pub accepted : Bool
  pub cancelled : Bool
  pub cancelled_waiting : Bool

-- The calls of the sink and their answers, oldest first, and the waits between them.
pub record Trace : Type 0 where
  pub calls : List (Event × Bool)
  pub waits : List ℕ

-- The loop of `deliver` on the attempts left, for the answers from the given attempt on.
unfoldable pub deliver_loop : ℕ → ℕ → ℕ → (ℕ → Answer) → Event → Bool × Trace
deliver_loop zero max_delay delay answer ev = (false, record { calls = []; waits = [] })
deliver_loop (suc left) max_delay delay answer ev =
    let a = answer 0 in
    let doubled = delay * 2 in
    let next = if ltb max_delay doubled then max_delay else doubled in
    let (done, rest) = deliver_loop left max_delay next (λ n. answer (suc n)) ev in
    if a.accepted
    then (true, record { calls = (ev, true) ∷ []; waits = [] })
    else if left == 0 || a.cancelled
    then (false, record { calls = (ev, false) ∷ []; waits = [] })
    else if a.cancelled_waiting
    then (false, record { calls = (ev, false) ∷ []; waits = delay ∷ [] })
    else (done, record { calls = (ev, false) ∷ rest.calls; waits = delay ∷ rest.waits })

-- A policy with no attempts (0 or less in the source) means the default.
abbrev pub effective_policy : RetryPolicy → RetryPolicy
effective_policy p = if p.max_attempts == 0 then default_retry_policy else p

unfoldable pub deliver : Core → (ℕ → Answer) → Event → Bool × Trace
deliver c answer ev =
    let policy = effective_policy c.retry in
    deliver_loop policy.max_attempts policy.max_delay policy.base_delay answer ev

unfoldable pub already_sent : Core → DedupKey → Bool
already_sent c key = any_row (same_dedup key) c.sent

unfoldable pub mark_sent : Core → DedupKey → Core
mark_sent c key = record c { sent = key ∷ c.sent }

-- The rest of the loop's body once the window is known to be new.
unfoldable pub send_window : Core → (ℕ → Answer) → Event → Core × Trace
send_window c answer ev =
    let (done, trace) = deliver c answer ev in
    if done then (mark_sent c (event_key ev), trace) else (c, trace)

abbrev pub no_trace : Trace
no_trace = record { calls = []; waits = [] }

unfoldable pub observe_window :
    Core → Provider → Option UsageWindow → (ℕ → Answer) → ℕ → Core × Trace
observe_window c provider none answer now = (c, no_trace)
observe_window c provider (some w) answer now =
    let ev : Event = record {
      provider = provider;
      window = w.kind;
      used_percent = w.used_percent;
      reset_at = w.reset_at;
      observed_at = now;
    } in
    if not (should_schedule_reset w.used_percent c.threshold)
    then (c, no_trace)
    else if already_sent c (event_key ev)
    then (c, no_trace)
    else send_window c answer ev

abbrev pub join_traces : Trace → Trace → Trace
join_traces s t = record { calls = s.calls ++ t.calls; waits = s.waits ++ t.waits }

-- What the environment does during one observation: the sink's answers and the clock, for each
-- of the two windows.
pub record Observed : Type 0 where
  pub snapshot : UsageSnapshot
  pub answers : ℕ → Answer
  pub observed_now : ℕ
  pub weekly_answers : ℕ → Answer
  pub weekly_now : ℕ

unfoldable pub observe : Core → Observed → Core × Trace
observe c o =
    let (c', s) =
      observe_window c o.snapshot.provider o.snapshot.five_hour_window o.answers o.observed_now in
    let (c'', t) =
      observe_window c' o.snapshot.provider o.snapshot.weekly_window o.weekly_answers
        o.weekly_now in
    (c'', join_traces s t)

-- Any sequence of observations, one after another.
unfoldable pub observe_all : Core → List Observed → Core × Trace
observe_all c [] = (c, no_trace)
observe_all c (o ∷ os) =
    let (c', s) = observe c o in let (c'', t) = observe_all c' os in (c'', join_traces s t)
