-- ===== src/Agent/Races.antt =====
-- Interleavings of the feeds of one core (internal/agent/codex_poller.go, claude_socket.go).
use ai_limit_notifier.Prelude.{
  ℕ, zero, suc, ◌+◌, ◌≤◌, ◌≡◌, refl, ap, ◌∙◌, Bool, true, false, not, ◌&&◌, ◌||◌, List, [], ◌∷◌,
  ◌++◌, Option, none, some, All, arith, Bool-cases, inl, inr, if◌then◌else◌,
}
use ai_limit_notifier.Domain.{
  Provider, codex, claude, Float64, UsageWindow, should_schedule_reset, is_provider,
}
use ai_limit_notifier.Agent.{
  Event, DedupKey, same_dedup, Core, new_core, event_key, Answer, already_sent, send_window,
  observe_window, no_trace, Trace,
}
use ai_limit_notifier.Agent.Dedup.{
  window_event, confirmed, count_if, confirmed-append, confirmed-deliver, already_sent-mark,
  same_dedup→≡,
}
use ai_limit_notifier.Agent.Feeds.{
  Feeds, new_feeds, begun, ended, FeedStep, codex_window, codex_done, claude_window, claude_done,
  codex_begins, codex_ends, with_flight, claude_begins, put_back, take_out, claude_ends, feed_step,
  feed_steps,
}

-- The key is not both of the event and among the sent ones.
abbrev Fresh : DedupKey → Core → Event → Type 0
Fresh k c ev = (same_dedup k (event_key ev) && already_sent c k) ≡ false

send-counted :
    (k : DedupKey) (c : Core) (answer : ℕ → Answer) (ev : Event)
    → Fresh k c ev
    → confirmed k (send_window c answer ev).1.calls + count_if (already_sent c k)
      ≡ count_if (already_sent (send_window c answer ev).0 k)
unfolding send_window
send-counted k c answer ev new =
    ground (arith, confirmed-deliver c answer ev k, already_sent-mark c k (event_key ev))

send-kept :
    (k : DedupKey) (c : Core) (answer : ℕ → Answer) (ev : Event)
    → same_dedup k (event_key ev) ≡ false
    → already_sent (send_window c answer ev).0 k ≡ already_sent c k
unfolding send_window
send-kept k c answer ev other = ground (arith, already_sent-mark c k (event_key ev))

foreign :
    (k : DedupKey) (ev : Event)
    → k.key_provider ≡ codex
    → ev.provider ≡ claude
    → same_dedup k (event_key ev) ≡ false
unfolding ai_limit_notifier.Domain.Provider-discrete
foreign k ev h g = ground arith

-- What one goroutine does with the first half's result.
abbrev concluded : Core → (ℕ → Answer) → Option Event → Core × Trace
concluded c answer none = (c, no_trace)
concluded c answer (some ev) = send_window c answer ev

-- The two halves, one right after the other, are the loop's body.
observe_window-begun :
    (c : Core) (p : Provider) (w : UsageWindow) (answer : ℕ → Answer) (now : ℕ)
    → observe_window c p (some w) answer now ≡ concluded c answer (begun c p w now)
unfolding observe_window begun
observe_window-begun c p w answer now =
    elim (Bool-cases (should_schedule_reset w.used_percent c.threshold)) [
      | inl over ↦ elim (Bool-cases (already_sent c (event_key (window_event p w now)))) [
        | inl old ↦ rw over (rw old refl)
        | inr new ↦ rw over (rw new refl)
      ]
      | inr under ↦ rw under refl
    ]

abbrev Flying : DedupKey → Core → Option Event → Type 0
Flying k c none = Unit {0}
Flying k c (some ev) = Fresh k c ev

abbrev IsClaude : Event → Type 0
IsClaude ev = ev.provider ≡ claude

-- The invariant of an interleaving for a key.
abbrev Once : DedupKey → Feeds → Type 0
Once k f =
    (confirmed k f.calls ≡ count_if (already_sent f.core k))
    × Flying k f.core f.codex_flight
    × All IsClaude f.claude_flights

ended-counted :
    (k : DedupKey) (f : Feeds) (answer : ℕ → Answer) (ev : Event)
    → Fresh k f.core ev
    → confirmed k f.calls ≡ count_if (already_sent f.core k)
    → confirmed k (ended f answer ev).calls ≡ count_if (already_sent (ended f answer ev).core k)
unfolding ended
ended-counted k f answer ev new h = omega (
  arith,
  h,
  confirmed-append k f.calls (send_window f.core answer ev).1.calls,
  send-counted k f.core answer ev new,
)

fresh_lem :
    (k : DedupKey) (c : Core) (ev : Event) → already_sent c (event_key ev) ≡ false → Fresh k c ev
fresh_lem k c ev new = elim (Bool-cases (same_dedup k (event_key ev))) [
  | inl hit ↦
      let sent : already_sent c k ≡ false =
        ap (already_sent c) (same_dedup→≡ k (event_key ev) hit) ∙ new in
      ground arith
  | inr miss ↦ ground arith
]

begun-Flying :
    (k : DedupKey) (c : Core) (p : Provider) (w : UsageWindow) (now : ℕ)
    → Flying k c (begun c p w now)
unfolding begun
begun-Flying k c p w now = elim (Bool-cases (should_schedule_reset w.used_percent c.threshold)) [
  | inl over ↦ elim (Bool-cases (already_sent c (event_key (window_event p w now)))) [
    | inl old ↦ rw over (rw old tt)
    | inr new ↦ rw over (rw new (fresh_lem k c (window_event p w now) new))
  ]
  | inr under ↦ rw under tt
]

begun-IsClaude :
    (c : Core) (p : Provider) (w : UsageWindow) (now : ℕ) (evs : List Event)
    → p ≡ claude
    → All IsClaude evs
    → All IsClaude (with_flight (begun c p w now) evs)
unfolding begun
begun-IsClaude c p w now evs e h =
    elim (Bool-cases (should_schedule_reset w.used_percent c.threshold)) [
      | inl over ↦ elim (Bool-cases (already_sent c (event_key (window_event p w now)))) [
        | inl old ↦ rw over (rw old h)
        | inr new ↦ rw over (rw new (e, h))
      ]
      | inr under ↦ rw under h
    ]

abbrev Taken : Option (Event × List Event) → Type 0
Taken none = Unit {0}
Taken (some (ev, evs)) = IsClaude ev × All IsClaude evs

put_back-Taken :
    (x : Event) (o : Option (Event × List Event)) → IsClaude x → Taken o → Taken (put_back x o)
put_back-Taken x none e h = tt
put_back-Taken x (some (ev, evs)) e (g, h) = (g, (e, h))

take_out-Taken : (i : ℕ) (evs : List Event) → All IsClaude evs → Taken (take_out i evs)
unfolding take_out
take_out-Taken i [] h = tt
take_out-Taken zero (x ∷ xs) h = h
take_out-Taken (suc i) (x ∷ xs) (e, h) = put_back-Taken x (take_out i xs) e (take_out-Taken i xs h)

module _ (k : DedupKey) (of_codex : k.key_provider ≡ codex) where
  codex_begins-Once :
      (f : Feeds) (w : UsageWindow) (now : ℕ) (o : Option Event)
      → Once k f
      → Once k (codex_begins f w now o)
  codex_begins-Once f w now none (n, fly, evs) = (n, begun-Flying k f.core codex w now, evs)
  codex_begins-Once f w now (some ev) once = once

  codex_ends-Once :
      (f : Feeds) (answer : ℕ → Answer) (o : Option Event)
      → Flying k f.core o
      → Once k f
      → Once k (codex_ends f answer o)
  unfolding ended
  codex_ends-Once f answer none g once = once
  codex_ends-Once f answer (some ev) g (n, fly, evs) = (ended-counted k f answer ev g n, tt, evs)

  claude_begins-Once :
      (f : Feeds) (p : Provider) (w : UsageWindow) (now : ℕ)
      → Once k f
      → Once k (claude_begins f p w now)
  unfolding claude_begins
  claude_begins-Once f p w now (n, fly, evs) = elim (Bool-cases (is_provider p claude)) [
    | inl hit ↦ rw hit (n, fly, begun-IsClaude f.core p w now f.claude_flights (ground arith) evs)
    | inr miss ↦ rw miss (n, fly, evs)
  ]

  Flying-kept :
      (c d : Core) (o : Option Event)
      → already_sent d k ≡ already_sent c k
      → Flying k c o
      → Flying k d o
  Flying-kept c d none e h = tt
  Flying-kept c d (some ev) e h = rw e h

  claude_ends-Once :
      (f : Feeds) (answer : ℕ → Answer) (o : Option (Event × List Event))
      → Taken o
      → Once k f
      → Once k (claude_ends f answer o)
  unfolding ended
  claude_ends-Once f answer none g once = once
  claude_ends-Once f answer (some (ev, evs)) (g, rest) (n, fly, all) =
      let other = foreign k ev of_codex g in
      (
        ended-counted k f answer ev (ground arith) n,
        Flying-kept f.core (send_window f.core answer ev).0 f.codex_flight
            (send-kept k f.core answer ev other) fly,
        rest,
      )

  step-Once : (f : Feeds) (s : FeedStep) → Once k f → Once k (feed_step f s)
  unfolding feed_step
  step-Once f (codex_window w now) once = codex_begins-Once f w now f.codex_flight once
  step-Once f (codex_done answer) (n, fly, evs) =
      codex_ends-Once f answer f.codex_flight fly (n, fly, evs)
  step-Once f (claude_window p w now) once = claude_begins-Once f p w now once
  step-Once f (claude_done i answer) (n, fly, evs) =
      claude_ends-Once f answer (take_out i f.claude_flights)
        (take_out-Taken i f.claude_flights evs) (n, fly, evs)

  steps-Once : (f : Feeds) (ss : List FeedStep) → Once k f → Once k (feed_steps f ss)
  unfolding feed_steps
  steps-Once f [] once = once
  steps-Once f (s ∷ ss) once = steps-Once (feed_step f s) ss (step-Once f s once)

-- In every interleaving of the poller of Codex with any number of connections of Claude, a window
-- and reset time of Codex has at most one confirmed delivery.
pub codex-le-one :
    (threshold : Float64) (ss : List FeedStep) (k : DedupKey)
    → k.key_provider ≡ codex
    → confirmed k (feed_steps (new_feeds threshold) ss).calls ≤ 1
unfolding new_feeds confirmed new_core already_sent ai_limit_notifier.Prelude.any_row
codex-le-one threshold ss k h =
    let (n, _, _) = steps-Once k h (new_feeds threshold) ss (refl, tt, tt) in ground (arith, n)
