-- ===== src/Telegram/Offsets.antt =====
-- The offset and the waits of the bot's loop (internal/server/telegrambot/bot.go).
use ai_limit_notifier.Prelude.{
  ℕ, ◌+◌, ◌*◌, ◌≤◌, ◌<◌, Bool, List, [], ◌∷◌, All, second, minute, arith,
}
use ai_limit_notifier.Telegram.Bot.{BotTables}
use ai_limit_notifier.Telegram.Polling.{
  Update, Polled, polled, poll_error, get_updates, min_backoff, max_backoff, BotRun, Turn, Handler,
  take_update, take_updates, after_poll, bot_turn, bot_run, bot_start,
}

-- Ascending identifiers from a number on, as Telegram promises of the updates of an offset.
abbrev Ascending : ℕ → List Update → Type 0
Ascending n [] = Unit {0}
Ascending n (u ∷ us) = (n ≤ u.update_id) × Ascending (u.update_id + 1) us

abbrev pub InOrder : ℕ → Polled → Type 0
InOrder n (polled us) = Ascending n us
InOrder n (poll_error after) = Unit {0}

-- Every answer to a request with an offset has ascending updates from the offset on.
abbrev pub Promised : Turn → Type 0
Promised t = (n : ℕ) → InOrder n (get_updates (t.answer n))

-- Descending numbers below a bound, so that no number stands there twice.
abbrev pub Descending : ℕ → List ℕ → Type 0
Descending n [] = Unit {0}
Descending n (i ∷ is) = (i < n) × Descending i is

widen : (n k : ℕ) (is : List ℕ) → n ≤ k → Descending n is → Descending k is
widen n k [] le h = tt
widen n k (i ∷ is) le (below, rest) = (omega (arith, below, le), rest)

abbrev Well : BotRun → Type 0
Well b = Descending b.offset b.handled × (min_backoff ≤ b.backoff) × (b.backoff ≤ max_backoff)

module _ (handler : Handler) where
  updates-Well :
      (t : Turn) (us : List Update) (b : BotRun)
      → Ascending b.offset us
      → Well b
      → Well (take_updates handler t us b)
  unfolding take_updates take_update
  updates-Well t [] b a w = w
  updates-Well t (u ∷ us) b (from, rest) (d, low, high) =
      updates-Well t us (take_update handler t u b) rest
        ((omega arith, widen b.offset u.update_id b.handled from d), low, high)

  poll-Well :
      (t : Turn) (p : Polled) (b : BotRun)
      → InOrder b.offset p
      → Well b
      → Well (after_poll handler t p b)
  poll-Well t (polled us) b a (d, low, high) =
      updates-Well t us (record b { backoff = min_backoff }) a (d, omega arith, omega arith)
  poll-Well t (poll_error after) b a (d, low, high) = (d, ground (arith, low), ground arith)

  run-Well : (b : BotRun) (ts : List Turn) → All Promised ts → Well b → Well (bot_run handler b ts)
  unfolding bot_run bot_turn
  run-Well b [] h w = w
  run-Well b (t ∷ ts) (h, hs) w =
      run-Well (bot_turn handler b t) ts hs
        (poll-Well t (get_updates (t.answer b.offset)) b (h b.offset) w)

  -- If every answer holds ascending updates from the requested offset on, no update is handled
  -- twice in one run of any length, whatever fails, the next request asks for updates behind all
  -- that were handled, and the backoff stays from one second to five minutes.
  pub bot_run-once :
      (load_fails : Bool) (stored : ℕ) (tables : BotTables) (ts : List Turn)
      → All Promised ts
      → let b = bot_run handler (bot_start load_fails stored tables) ts in
        Descending b.offset b.handled × (second ≤ b.backoff) × (b.backoff ≤ 5 * minute)
  unfolding bot_start
  bot_run-once load_fails stored tables ts h =
      run-Well (bot_start load_fails stored tables) ts h (tt, omega arith, omega arith)
