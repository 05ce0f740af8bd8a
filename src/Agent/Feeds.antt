-- ===== src/Agent/Feeds.antt =====
-- internal/agent/codex_poller.go and the connections of internal/agent/claude_socket.go: the
-- goroutines that call Observe of internal/agent/core.go on one core.
use ai_limit_notifier.Prelude.{
  ℕ, zero, suc, Bool, not, if◌then◌else◌, List, [], ◌∷◌, ◌++◌, Option, none, some,
}
use ai_limit_notifier.Domain.{
  Provider, codex, claude, Float64, UsageWindow, should_schedule_reset, is_provider,
}
use ai_limit_notifier.Agent.{Event, Core, new_core, event_key, Answer, already_sent, send_window}

-- One core and what its goroutines are at: the event that the poller delivers, the events that
-- connections deliver, and the calls of the sink, oldest first.
pub record Feeds : Type 0 where
  pub core : Core
  pub codex_flight : Option Event
  pub claude_flights : List Event
  pub calls : List (Event × Bool)

unfoldable pub new_feeds : Float64 → Feeds
new_feeds threshold = record {
  core = new_core threshold;
  codex_flight = none;
  claude_flights = [];
  calls = [];
}

-- The first half of the loop's body of `Observe`: the event to deliver, if there is one.
unfoldable pub begun : Core → Provider → UsageWindow → ℕ → Option Event
begun c provider w now =
    let ev : Event = record {
      provider = provider;
      window = w.kind;
      used_percent = w.used_percent;
      reset_at = w.reset_at;
      observed_at = now;
    } in
    if not (should_schedule_reset w.used_percent c.threshold)
    then none
    else if already_sent c (event_key ev)
    then none
    else some ev

-- What happens next: the poller or a connection comes to a window that was read or decoded, or the
-- delivery of the poller or of one of the connections ends.
pub data FeedStep : Type 0 where
  codex_window : UsageWindow → ℕ → FeedStep
  codex_done : (ℕ → Answer) → FeedStep
  claude_window : Provider → UsageWindow → ℕ → FeedStep
  claude_done : ℕ → (ℕ → Answer) → FeedStep

-- The second half, delivering and marking.
unfoldable pub ended : Feeds → (ℕ → Answer) → Event → Feeds
ended f answer ev =
    let (c, t) = send_window f.core answer ev in record f { core = c; calls = f.calls ++ t.calls }

-- The poller is one goroutine: it comes to no window while it delivers.
abbrev pub codex_begins : Feeds → UsageWindow → ℕ → Option Event → Feeds
codex_begins f w now none = record f { codex_flight = begun f.core codex w now }
codex_begins f w now (some ev) = f

abbrev pub codex_ends : Feeds → (ℕ → Answer) → Option Event → Feeds
codex_ends f answer none = f
codex_ends f answer (some ev) = record (ended f answer ev) { codex_flight = none }

abbrev pub with_flight : Option Event → List Event → List Event
with_flight none evs = evs
with_flight (some ev) evs = ev ∷ evs

unfoldable pub claude_begins : Feeds → Provider → UsageWindow → ℕ → Feeds
claude_begins f provider w now =
    if not (is_provider provider claude)
    then f
    else record f { claude_flights = with_flight (begun f.core provider w now) f.claude_flights }

abbrev pub put_back : Event → Option (Event × List Event) → Option (Event × List Event)
put_back x none = none
put_back x (some (y, ys)) = some (y, x ∷ ys)

unfoldable pub take_out : ℕ → List Event → Option (Event × List Event)
take_out i [] = none
take_out zero (x ∷ xs) = some (x, xs)
take_out (suc i) (x ∷ xs) = put_back x (take_out i xs)

abbrev pub claude_ends : Feeds → (ℕ → Answer) → Option (Event × List Event) → Feeds
claude_ends f answer none = f
claude_ends f answer (some (ev, evs)) = record (ended f answer ev) { claude_flights = evs }

unfoldable pub feed_step : Feeds → FeedStep → Feeds
feed_step f (codex_window w now) = codex_begins f w now f.codex_flight
feed_step f (codex_done answer) = codex_ends f answer f.codex_flight
feed_step f (claude_window provider w now) = claude_begins f provider w now
feed_step f (claude_done i answer) = claude_ends f answer (take_out i f.claude_flights)

unfoldable pub feed_steps : Feeds → List FeedStep → Feeds
feed_steps f [] = f
feed_steps f (s ∷ ss) = feed_steps (feed_step f s) ss
