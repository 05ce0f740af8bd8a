-- ===== src/Agent/Repeats.antt =====
-- Concurrent connections of Claude with one window (internal/agent/claude_socket.go and core.go).
use ai_limit_notifier.Prelude.{
  ℕ, zero, suc, ◌+◌, ◌≤◌, ◌≡◌, refl, ap, ◌∙◌, Bool, true, false, not, ◌&&◌, ◌||◌, List, [], ◌∷◌,
  ◌++◌, Option, none, some, All, arith, Bool-cases, inl, inr, if◌then◌else◌,
}
use ai_limit_notifier.Domain.{
  Provider, codex, claude, Float64, UsageWindow, should_schedule_reset, is_provider,
}
use ai_limit_notifier.Agent.{Event, Core, new_core, event_key, Answer, already_sent, send_window}
use ai_limit_notifier.Agent.Dedup.{
  deliver_first, same_dedup_self, window_event, confirmed, confirmed-append, confirmed-deliver,
}
use ai_limit_notifier.Agent.Feeds.{
  new_feeds, begun, ended, claude_window, claude_done, claude_begins, take_out, feed_step,
  feed_steps,
}

send_confirms :
    (c : Core) (answer : ℕ → Answer) (ev : Event)
    → (answer 0).accepted ≡ true
    → confirmed (event_key ev) (send_window c answer ev).1.calls ≡ 1
unfolding send_window
send_confirms c answer ev ok = ground (
  arith,
  confirmed-deliver c answer ev (event_key ev),
  deliver_first c answer ev ok,
  same_dedup_self (event_key ev),
)

begun_new :
    (c : Core) (p : Provider) (w : UsageWindow) (now : ℕ)
    → should_schedule_reset w.used_percent c.threshold ≡ true
    → already_sent c (event_key (window_event p w now)) ≡ false
    → begun c p w now ≡ some (window_event p w now)
unfolding begun
begun_new c p w now over new = rw over (rw new refl)

-- Two connections with one window over the threshold, the
-- second of which comes to it while the first one delivers, confirm two deliveries of one window
-- and reset time if the sink accepts the first call of each.
pub connections_repeat :
    (threshold : Float64) (w : UsageWindow) (now later : ℕ) (first second : ℕ → Answer)
    → should_schedule_reset w.used_percent threshold ≡ true
    → (first 0).accepted ≡ true
    → (second 0).accepted ≡ true
    → confirmed
        (event_key (window_event claude w now))
        (feed_steps (new_feeds threshold) (
          claude_window claude w now
          ∷ claude_window claude w later
          ∷ claude_done 0 first
          ∷ claude_done 0 second
          ∷ [])).calls
      ≡ 2
unfolding feed_steps feed_step claude_begins take_out new_feeds ended
    ai_limit_notifier.Domain.Provider-discrete new_core already_sent
    ai_limit_notifier.Prelude.any_row
connections_repeat threshold w now later first second over ok also =
    let c = new_core threshold in
    let k = event_key (window_event claude w now) in
    let c' = (send_window c first (window_event claude w later)).0 in
    rw (begun_new c claude w now over refl) (
      rw (begun_new c claude w later over refl) (
        omega (
          arith,
          confirmed-append k (send_window c first (window_event claude w later)).1.calls
              (send_window c' second (window_event claude w now)).1.calls,
          send_confirms c first (window_event claude w later) ok,
          send_confirms c' second (window_event claude w now) also,
        )))
