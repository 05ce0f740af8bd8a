-- ===== src/Api.antt =====
-- internal/server/api: the HTTP interface of the server. Requests come as the values that
-- net/http, encoding/json and time.Parse make of them.
pub mod Limiter
pub mod Reply
pub mod Usage
pub mod Bounds
pub mod Acks
pub mod Gate
pub mod Pair
pub mod Admission
pub mod Linked
