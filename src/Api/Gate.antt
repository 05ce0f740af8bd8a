-- ===== src/Api/Gate.antt =====
-- requireAuth and bearerToken of internal/server/api/middleware.go, and clientIP of
-- trustedproxy.go. Addresses are what package net makes of them: `split` is SplitHostPort, `parse`
-- ParseIP; `trim` is strings.TrimSpace.
use ai_limit_notifier.Prelude.{
  ℕ, ◌+◌, Bool, true, false, not, ◌&&◌, ◌||◌, ◌==◌, leb, if◌then◌else◌, Text, ascii, List, [], ◌∷◌,
  Option, none, some, length, take, map, any_row, inl, inr, ◌⊎◌,
}
use ai_limit_notifier.Store.Event.{same}
use ai_limit_notifier.Store.Devices.{Device, authenticate_device}
use ai_limit_notifier.Auth.{drop_bytes}
use ai_limit_notifier.Api.Limiter.{IpLimiter, DeviceEntry, allow, allow_device}
use ai_limit_notifier.Api.Reply.{Refusal}

abbrev pub is_empty : Text → Bool
is_empty [] = true
is_empty (b ∷ bs) = false

-- Case folding of an ASCII letter; no other character folds to a letter of "Bearer ".
abbrev pub fold_byte : ℕ → ℕ
fold_byte b = if leb 65 b && leb b 90 then b + 32 else b

abbrev pub bearer_prefix : Text
bearer_prefix = ascii "bearer "

unfoldable pub bearer_token : (Text → Text) → Text → Option Text
bearer_token trim header =
    let token = trim (drop_bytes 7 header) in
    if leb (length header) 7 || not (same (map fold_byte (take 7 header)) bearer_prefix)
    then none
    else if is_empty token
    then none
    else some token

-- The last of the parts that commas separate.
unfoldable pub last_part : Text → Text
last_part [] = []
last_part (b ∷ bs) =
    let rest = last_part bs in
    if any_row (λ c. c == 44) bs then rest else if b == 44 then bs else b ∷ bs

-- A network of the allowlist is the set of its addresses.
unfoldable pub contains : {Ip : Type 0} → List (Ip → Bool) → Ip → Bool
contains [] ip = false
contains (n ∷ ns) ip = n ip || contains ns ip

-- `cidr` is net.ParseCIDR, and `none` an error. The first bad value refuses them all.
unfoldable pub parse_trusted_proxies :
    {Ip : Type 0} → (Text → Option (Ip → Bool)) → List Text → Option (List (Ip → Bool))
parse_trusted_proxies cidr [] = some []
parse_trusted_proxies cidr (c ∷ cs) = elim (cidr c) [
  | none ↦ none
  | some n ↦ elim (parse_trusted_proxies cidr cs) [ none ↦ none | some ns ↦ some (n ∷ ns) ]
]

-- A failure keeps the allowlist that was set before.
unfoldable pub set_trusted_proxies :
    {Ip : Type 0}
    → (Text → Option (Ip → Bool))
    → List (Ip → Bool)
    → List Text
    → List (Ip → Bool) × Bool
set_trusted_proxies cidr old cidrs = elim (parse_trusted_proxies cidr cidrs) [
  | none ↦ (old, false)
  | some nets ↦ (nets, true)
]

abbrev pub host_of : (Text → Option Text) → Text → Text
host_of split remote = elim (split remote) [ none ↦ remote | some h ↦ h ]

unfoldable pub forwarded : {Ip : Type 0} → (Text → Option Ip) → (Text → Text) → Text → Text → Text
forwarded parse trim host xff =
    if is_empty xff
    then host
    else elim (parse (trim (last_part xff))) [ none ↦ host | some ip ↦ trim (last_part xff) ]

unfoldable pub client_ip :
    {Ip : Type 0}
    → (Text → Option Text)
    → (Text → Option Ip)
    → (Text → Text)
    → List (Ip → Bool)
    → Text
    → Text
    → Text
client_ip split parse trim nets remote xff =
    let host = host_of split remote in
    elim (parse host) [
      | none ↦ host
      | some peer ↦ if not (contains nets peer) then host else forwarded parse trim host xff
    ]

pub record Limits (Bucket : Type 0) : Type 0 where
  pub ips : IpLimiter Bucket
  pub by_device_id : List (DeviceEntry Bucket)

abbrev pub rate_limited : Refusal
rate_limited = (429, ascii "rate_limited", [])

abbrev pub unauthorized : Refusal
unauthorized = (401, ascii "unauthorized", [])

-- The token buckets are as in the limiters: the addresses' first, the devices' second. `none` is
-- every error of AuthenticateDevice.
module _ {Bucket : Type 0} (ip_bucket device_bucket : Bucket) (spend : Bucket → ℕ → Bool × Bucket)
    (trim hash : Text → Text) (devices : List Device) where
  unfoldable pub admit_device :
      Limits Bucket → ℕ → Option Device → Limits Bucket × (Refusal ⊎ Device)
  admit_device l now none = (l, inl unauthorized)
  admit_device l now (some d) =
      let (entries, allowed) = allow_device device_bucket spend l.by_device_id d.id now in
      (record l { by_device_id = entries }, if allowed then inr d else inl rate_limited)

  unfoldable pub admit_token : Limits Bucket → ℕ → Option Text → Limits Bucket × (Refusal ⊎ Device)
  admit_token l now none = (l, inl unauthorized)
  admit_token l now (some token) = admit_device l now (authenticate_device hash devices token)

  -- The handler that follows runs on `inr`, with the device.
  unfoldable pub require_auth : Limits Bucket → Text → Text → ℕ → Limits Bucket × (Refusal ⊎ Device)
  require_auth l client authorization now =
      let (ips, allowed) = allow ip_bucket spend l.ips client now in
      let limits : Limits Bucket = record l { ips = ips } in
      let (after, outcome) = admit_token limits now (bearer_token trim authorization) in
      if not allowed then (limits, inl rate_limited) else (after, outcome)

  -- The handler that follows runs on `inr`.
  unfoldable pub rate_limit_by_ip : Limits Bucket → Text → ℕ → Limits Bucket × (Refusal ⊎ Unit {0})
  rate_limit_by_ip l client now =
      let (ips, allowed) = allow ip_bucket spend l.ips client now in
      (record l { ips = ips }, if allowed then inr tt else inl rate_limited)
