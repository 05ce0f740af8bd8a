-- ===== src/Tests.antt =====
-- Runs of the modelled code on concrete inputs, and the theorems applied to them.
mod Sample
mod StoreRuns
mod ServerRuns
mod ClientRuns
mod BotRuns
mod InstallRuns
mod LinkRuns
mod FeedRuns
mod CodeRuns
