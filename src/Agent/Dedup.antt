-- ===== src/Agent/Dedup.antt =====
-- The confirmed deliveries of a provider, window and reset time (internal/agent/core.go).
use ai_limit_notifier.Prelude.{
  ℕ, zero, suc, ◌+◌, ◌*◌, ◌≤◌, ◌<◌, ◌≡◌, refl, ap, ◌∙◌, Bool, true, false, ◌&&◌, ◌||◌, ltb,
  if◌then◌else◌, List, [], ◌∷◌, ◌++◌, Option, none, some, second, any_row, arith, Bool-cases, inl,
  inr,
}
use ai_limit_notifier.Domain.{Provider, UsageWindow, should_schedule_reset}
use ai_limit_notifier.Agent.{
  Event, DedupKey, same_dedup, Core, event_key, Answer, deliver_loop, effective_policy, deliver,
  already_sent, mark_sent, send_window, observe_window, Observed, observe, observe_all,
}

abbrev pub window_event : Provider → UsageWindow → ℕ → Event
window_event p w now = record {
  provider = p;
  window = w.kind;
  used_percent = w.used_percent;
  reset_at = w.reset_at;
  observed_at = now;
}

-- The confirmed deliveries of a key.
unfoldable pub confirmed : DedupKey → List (Event × Bool) → ℕ
confirmed k [] = 0
confirmed k ((ev, ok) ∷ calls) =
    (if ok && same_dedup k (event_key ev) then 1 else 0) + confirmed k calls

abbrev pub count_if : Bool → ℕ
count_if b = if b then 1 else 0

pub confirmed-append :
    (k : DedupKey) (s t : List (Event × Bool))
    → confirmed k (s ++ t) ≡ confirmed k s + confirmed k t
unfolding confirmed
confirmed-append k [] t = omega arith
confirmed-append k ((ev, ok) ∷ s) t = omega (arith, confirmed-append k s t)

confirmed-loop :
    (left max_delay delay : ℕ) (answer : ℕ → Answer) (ev : Event) (k : DedupKey)
    → let (done, trace) = deliver_loop left max_delay delay answer ev in
      confirmed k trace.calls ≡ count_if (done && same_dedup k (event_key ev))
unfolding deliver_loop confirmed
confirmed-loop zero max_delay delay answer ev k = refl
confirmed-loop (suc left) max_delay delay answer ev k =
    let doubled = delay * 2 in
    ground (
      arith,
      confirmed-loop left max_delay (if ltb max_delay doubled then max_delay else doubled)
          (λ n. answer (suc n)) ev k,
    )

pub confirmed-deliver :
    (c : Core) (answer : ℕ → Answer) (ev : Event) (k : DedupKey)
    → confirmed k (deliver c answer ev).1.calls
      ≡ count_if ((deliver c answer ev).0 && same_dedup k (event_key ev))
unfolding deliver
confirmed-deliver c answer ev k =
    let policy = effective_policy c.retry in
    confirmed-loop policy.max_attempts policy.max_delay policy.base_delay answer ev k

pub same_dedup→≡ : (k j : DedupKey) → same_dedup k j ≡ true → k ≡ j
same_dedup→≡ k j h = ground arith

pub already_sent-mark :
    (c : Core) (k j : DedupKey)
    → already_sent (mark_sent c j) k ≡ (same_dedup k j || already_sent c k)
unfolding already_sent mark_sent any_row
already_sent-mark c k j = refl

confirmed-send :
    (c : Core) (answer : ℕ → Answer) (ev : Event) (k : DedupKey)
    → already_sent c (event_key ev) ≡ false
    → confirmed k (send_window c answer ev).1.calls + count_if (already_sent c k)
      ≡ count_if (already_sent (send_window c answer ev).0 k)
unfolding send_window
confirmed-send c answer ev k new = elim (Bool-cases (same_dedup k (event_key ev))) [
  | inl hit ↦
      let e : k ≡ event_key ev = same_dedup→≡ k (event_key ev) hit in
      let fresh : already_sent c k ≡ false = ap (already_sent c) e ∙ new in
      ground (arith, confirmed-deliver c answer ev k, already_sent-mark c k (event_key ev))
  | inr miss ↦ ground (arith, confirmed-deliver c answer ev k, already_sent-mark c k (event_key ev))
]

-- The key's confirmed deliveries pay for its place among the sent keys.
confirmed-window :
    (c : Core) (p : Provider) (o : Option UsageWindow) (answer : ℕ → Answer) (now : ℕ)
    (k : DedupKey)
    → confirmed k (observe_window c p o answer now).1.calls + count_if (already_sent c k)
      ≡ count_if (already_sent (observe_window c p o answer now).0 k)
unfolding observe_window confirmed
confirmed-window c p none answer now k = omega arith
confirmed-window c p (some w) answer now k =
    ground (arith, confirmed-send c answer (window_event p w now) k)

confirmed-observe :
    (c : Core) (o : Observed) (k : DedupKey)
    → confirmed k (observe c o).1.calls + count_if (already_sent c k)
      ≡ count_if (already_sent (observe c o).0 k)
unfolding observe
confirmed-observe c o k =
    let first =
      observe_window c o.snapshot.provider o.snapshot.five_hour_window o.answers o.observed_now in
    let second =
      observe_window first.0 o.snapshot.provider o.snapshot.weekly_window o.weekly_answers
        o.weekly_now in
    omega (
      arith,
      confirmed-append k first.1.calls second.1.calls,
      confirmed-window c o.snapshot.provider o.snapshot.five_hour_window o.answers o.observed_now k,
      confirmed-window first.0 o.snapshot.provider o.snapshot.weekly_window o.weekly_answers
          o.weekly_now k,
    )

-- Over any sequence of observations, the confirmed deliveries of a provider, window and reset
-- time are as many as the key is newly among the sent ones: one at most, none if it was sent
-- before, and exactly one if it came to be sent.
pub confirmed-observe_all :
    (c : Core) (os : List Observed) (k : DedupKey)
    → confirmed k (observe_all c os).1.calls + count_if (already_sent c k)
      ≡ count_if (already_sent (observe_all c os).0 k)
unfolding observe_all confirmed
confirmed-observe_all c [] k = omega arith
confirmed-observe_all c (o ∷ os) k = omega (
  arith,
  confirmed-append k (observe c o).1.calls (observe_all (observe c o).0 os).1.calls,
  confirmed-observe c o k,
  confirmed-observe_all (observe c o).0 os k,
)

-- At most one confirmed delivery for a provider, window and reset time, however often usage is
-- observed and whatever the sink answers.
pub confirmed-le-one :
    (c : Core) (os : List Observed) (k : DedupKey) → confirmed k (observe_all c os).1.calls ≤ 1
confirmed-le-one c os k = ground (arith, confirmed-observe_all c os k)

loop_first :
    (left max_delay delay : ℕ) (answer : ℕ → Answer) (ev : Event)
    → 0 < left
    → (answer 0).accepted ≡ true
    → (deliver_loop left max_delay delay answer ev).0 ≡ true
unfolding deliver_loop
loop_first zero max_delay delay answer ev h ok = elim h [ ]
loop_first (suc left) max_delay delay answer ev h ok = rw ok refl

pub deliver_first :
    (c : Core) (answer : ℕ → Answer) (ev : Event)
    → (answer 0).accepted ≡ true
    → (deliver c answer ev).0 ≡ true
unfolding deliver
deliver_first c answer ev ok =
    let policy = effective_policy c.retry in
    loop_first policy.max_attempts policy.max_delay policy.base_delay answer ev (ground arith) ok

pub same_dedup_self : (k : DedupKey) → same_dedup k k ≡ true
same_dedup_self k = ground arith

observe_window-threshold :
    (c : Core) (p : Provider) (w : UsageWindow) (answer : ℕ → Answer) (now : ℕ)
    → (observe_window c p (some w) answer now).0.threshold ≡ c.threshold
unfolding observe_window send_window mark_sent
observe_window-threshold c p w answer now = ground arith

send_accepted :
    (c : Core) (answer : ℕ → Answer) (ev : Event)
    → (answer 0).accepted ≡ true
    → already_sent (send_window c answer ev).0 (event_key ev) ≡ true
unfolding send_window
send_accepted c answer ev ok = ground (
  arith,
  deliver_first c answer ev ok,
  already_sent-mark c (event_key ev) (event_key ev),
  same_dedup_self (event_key ev),
)

observe_window_accepted :
    (c : Core) (p : Provider) (w : UsageWindow) (answer : ℕ → Answer) (now : ℕ)
    → should_schedule_reset w.used_percent c.threshold ≡ true
    → (answer 0).accepted ≡ true
    → already_sent (observe_window c p (some w) answer now).0 (event_key (window_event p w now))
      ≡ true
unfolding observe_window
observe_window_accepted c p w answer now over ok =
    ground (arith, send_accepted c answer (window_event p w now) ok)

-- For a window over the threshold that is not yet among the sent ones, exactly one delivery is
-- confirmed by any first observation and a second one whose first call the sink accepts, and the
-- window is then among the sent ones.
pub observe_window_retries :
    (c : Core) (p : Provider) (w : UsageWindow) (first second : ℕ → Answer) (now later : ℕ)
    → should_schedule_reset w.used_percent c.threshold ≡ true
    → already_sent c (event_key (window_event p w now)) ≡ false
    → (second 0).accepted ≡ true
    → let (c', s) = observe_window c p (some w) first now in
      let (c'', t) = observe_window c' p (some w) second later in
      (confirmed (event_key (window_event p w now)) (s.calls ++ t.calls) ≡ 1)
      × (already_sent c'' (event_key (window_event p w now)) ≡ true)
observe_window_retries c p w first second now later over new ok =
    let k = event_key (window_event p w now) in
    let c' = (observe_window c p (some w) first now).0 in
    ground (
      arith,
      confirmed-append k (observe_window c p (some w) first now).1.calls
          (observe_window c' p (some w) second later).1.calls,
      confirmed-window c p (some w) first now k,
      confirmed-window c' p (some w) second later k,
      observe_window-threshold c p w first now,
      observe_window_accepted c' p w second later,
    )
