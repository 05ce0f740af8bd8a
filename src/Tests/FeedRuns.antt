-- ===== src/Tests/FeedRuns.antt =====
-- Runs of the agent's feeds.
use ai_limit_notifier.Prelude.{ℕ, ◌≤◌, ◌≡◌, refl, true, false, List, [], ◌∷◌}
use ai_limit_notifier.Domain.{
  codex, claude, five_hour, float_unit, percent, UsageWindow, should_schedule_reset,
}
use ai_limit_notifier.Agent.{DedupKey, Answer, event_key}
use ai_limit_notifier.Agent.Dedup.{confirmed, window_event}
use ai_limit_notifier.Agent.Feeds.{
  new_feeds, FeedStep, codex_window, codex_done, claude_window, claude_done, feed_steps,
}
use ai_limit_notifier.Agent.Races.{codex-le-one}
use ai_limit_notifier.Agent.Repeats.{connections_repeat}
use ai_limit_notifier.Tests.Sample.{at_second}

abbrev nearly_full : UsageWindow
nearly_full = record { kind = five_hour; used_percent = percent 90; reset_at = at_second 5000 }

abbrev accepting : ℕ → Answer
accepting n = record { accepted = true; cancelled = false; cancelled_waiting = false }

abbrev codex_key : DedupKey
codex_key = event_key (window_event codex nearly_full (at_second 1000))

-- A connection begins and ends during a delivery of the poller, which then reads again.
abbrev interleaved : List FeedStep
interleaved =
    codex_window nearly_full (at_second 1000)
    ∷ claude_window claude nearly_full (at_second 1001)
    ∷ claude_done 0 accepting
    ∷ codex_done accepting
    ∷ codex_window nearly_full (at_second 1030)
    ∷ codex_done accepting
    ∷ []

codex-le-one_example :
    confirmed codex_key (feed_steps (new_feeds (percent 80)) interleaved).calls ≤ 1
codex-le-one_example = codex-le-one (percent 80) interleaved codex_key refl

connections_repeat_example :
    confirmed
      (event_key (window_event claude nearly_full (at_second 1000)))
      (feed_steps (new_feeds (percent 80)) (
        claude_window claude nearly_full (at_second 1000)
        ∷ claude_window claude nearly_full (at_second 1001)
        ∷ claude_done 0 accepting
        ∷ claude_done 0 accepting
        ∷ [])).calls
    ≡ 2
unfolding should_schedule_reset float_unit
connections_repeat_example =
    connections_repeat (percent 80) nearly_full (at_second 1000) (at_second 1001) accepting
      accepting refl refl refl
