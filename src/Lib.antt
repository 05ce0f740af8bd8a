-- ===== src/Lib.antt =====
-- ai-limit-notifier tells a person by Telegram that the usage window of a provider (Codex, Claude)
-- has been reset. An agent on the person's machine observes the usage. Once it crosses the local
-- threshold the agent submits the window and its reset time to a server, which stores one event
-- per window, and a scheduler sends a message a minute after the reset. Devices are linked to a
-- user by pairing codes, and the installer chains the agent's capture into Claude's status line.
--
-- Which module models which part of the repository:
--   Domain, Domain.Validate           internal/domain/usage.go
--   Store.Event, .Upsert, .Claim      internal/server/store/events.go and its table in migrations.go
--   Store.Users, .Devices, .Pairing   internal/server/store/users.go, devices.go, pairing.go
--   Scheduler, Scheduler.Message      internal/server/scheduler/scheduler.go
--   Api.Usage, .Pair                  internal/server/api/handlers.go, pair.go, types.go
--   Api.Limiter, .Gate                internal/server/api/middleware.go, trustedproxy.go
--   Auth                              internal/server/auth/pairing.go
--   Telegram.Send                     internal/server/delivery/telegram.go
--   Telegram.Bot, .Polling            internal/server/telegrambot/bot.go
--   Agent                             internal/agent/core.go
--   Agent.Feeds                       the goroutines of internal/agent/codex_poller.go and
--                                     claude_socket.go that observe on one core
--   Installer.Quote, .StatusLine      internal/installer/statusline.go
--   Installer.Manifest, .Unit         internal/installer/manifest.go, systemd.go, binary.go
--   Installer.Settings                internal/provider/claude/claude.go (the settings file)
--   Installer.Plan, .Compute          internal/installer/plan.go
--   Installer.Apply                   internal/installer/apply.go and runInstall and runUninstall of
--                                     cmd/ai-limit-notifier/main.go
--   Files, Files.Replace              the calls of package os that these make
--   LocalConfig                       internal/localconfig/config.go
--   Adapters                          internal/provider/codex/codex.go, internal/provider/claude/claude.go
--   Sink                              internal/sink/httpsink.go
--   Commands                          link, config and the choices of monitor in
--                                     cmd/ai-limit-notifier/main.go
-- A definition has the name of the Go function or type in snake case or in upper camel case. The
-- other modules below a part hold its theorems: Store.Integrity, .Linking, .History, .Lasting,
-- .Exclusion and .Due are about events, Store.OneUse and .Access about codes and devices,
-- Scheduler.Delivery, .Fates and .Ticks about deliveries, Api.Acks, .Bounds, .Admission and .Linked
-- about the handlers, Agent.Dedup, .Races and .Repeats about confirmed deliveries,
-- Telegram.Answers, .Ownership, .Issued and .Offsets about the transport and the bot,
-- Installer.RoundTrip, .Fuel and .Classify about quoting, Files.Atomic about replaced files,
-- Installer.Reads, .Refused, .Calm, .Installs, .Applied, .Line, .Patched, .Laws, .Refines, .Removes
-- and .Cycle about installing and removing, Adapters.Valid and .Answers, Sink.Delivered and .Secure and
-- Commands.Linking about the client. Tests runs them on concrete inputs.
--
-- Conventions. An instant is a count of nanoseconds and a stored time its whole seconds
-- (Prelude.Time); a string is the list of its bytes. A table is the list of its rows. An operation
-- of the store takes the table and returns the new one, and a transaction that fails leaves the
-- table as it was; keys are checked where they are unique, foreign keys are not. SQLite's order of
-- a query without ORDER BY is the parameter `Engine`, any permutation of the rows. Clock readings,
-- generated identifiers, tokens and random bytes are arguments, as are hash functions, package
-- strings on Unicode, time.Parse, addresses of package net, the token bucket of
-- golang.org/x/time/rate, and what a transport or a sink answers. A
-- float64 is a multiple of 2^-1074 or one of the special values (Domain).
--
-- A file is the state of its place on a Machine (Files), with one place for each path that the
-- program names. A computation of the client takes the machine and returns a result and the machine;
-- the machine holds the fates of the calls to come, of which each works, fails or is the one during
-- which the process dies, so that a theorem about every machine is one about every failure. The uses
-- of encoding/json are parameters, and what the theorems need of them is Installer.Laws.Laws;
-- it is about settings that hold no key which differs from statusLine in case only.
-- Answers of systemctl, systemd-analyze and the network are fields of a record or arguments.
--
-- Bounds and fuel. parse_words runs on the length of the text, and every round reads two bytes at
-- least (Installer.Fuel). deliver_loop runs on the attempts left, as the loop of the source does.
-- Times before year 1 and sums past the range of an int64 are not modelled.
--
-- Not modelled: the wrapper, the commands that only print, sockets, directories, HTTP routing and
-- JSON decoding, the database driver and migrations, the server's command, starting and killing the
-- app server, the loops that wait for the next tick or reading, and the intervals of the polls: they
-- are input and output around the parts above, or run for ever.
pub mod Prelude
pub mod Domain
pub mod Store
pub mod Scheduler
pub mod Files
pub mod LocalConfig
pub mod Adapters
pub mod Installer
pub mod Agent
pub mod Auth
pub mod Api
pub mod Sink
pub mod Telegram
pub mod Commands
pub mod Tests
