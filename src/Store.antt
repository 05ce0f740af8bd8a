-- ===== src/Store.antt =====
-- internal/server/store: the durable tables and the operations on them.
pub mod Event
pub mod Upsert
pub mod Claim
pub mod Rows
pub mod Distinct
pub mod Integrity
pub mod Linking
pub mod History
pub mod Lasting
pub mod Exclusion
pub mod Due
pub mod Users
pub mod Devices
pub mod Pairing
pub mod OneUse
pub mod Access
