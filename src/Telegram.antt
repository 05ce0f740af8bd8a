-- ===== src/Telegram.antt =====
-- The Telegram side of the server: internal/server/delivery/telegram.go and
-- internal/server/telegrambot/bot.go.
pub mod Send
pub mod Bot
pub mod Answers
pub mod Ownership
pub mod Polling
pub mod Offsets
pub mod Issued
