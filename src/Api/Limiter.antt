-- ===== src/Api/Limiter.antt =====
-- ipLimiter and deviceLimiter of internal/server/api/middleware.go. The token bucket is
-- golang.org/x/time/rate, a parameter: `fresh` is rate.NewLimiter and `spend` is Limiter.Allow at
-- the clock's reading.
use ai_limit_notifier.Prelude.{
  ℕ, ◌-◌, ◌*◌, Bool, false, not, ltb, leb, if◌then◌else◌, Text, List, [], ◌∷◌, Option, none, some,
  minute, length, keep, update_where, find_first,
}
use ai_limit_notifier.Store.Event.{same}

abbrev pub ip_limiter_ttl : ℕ
ip_limiter_ttl = 10 * minute

abbrev pub ip_limiter_sweep_every : ℕ
ip_limiter_sweep_every = minute

abbrev pub ip_limiter_max_entries : ℕ
ip_limiter_max_entries = 10_000

pub record LimiterEntry (Bucket : Type 0) : Type 0 where
  pub host : Text
  pub limiter : Bucket
  pub last_seen : ℕ

pub record IpLimiter (Bucket : Type 0) : Type 0 where
  pub limiters : List (LimiterEntry Bucket)
  pub max : ℕ
  pub last_sweep : ℕ

pub record DeviceEntry (Bucket : Type 0) : Type 0 where
  pub device : Text
  pub device_bucket : Bucket

module _ {Bucket : Type 0} (fresh : Bucket) (spend : Bucket → ℕ → Bool × Bucket) where
  unfoldable pub new_ip_limiter : ℕ → IpLimiter Bucket
  new_ip_limiter now = record { limiters = []; max = ip_limiter_max_entries; last_sweep = now }

  abbrev pub by_host : Text → LimiterEntry Bucket → Bool
  by_host h e = same e.host h

  -- A difference of times below 0 is no more than the bounds either.
  abbrev pub is_live : ℕ → LimiterEntry Bucket → Bool
  is_live now e = not (ltb ip_limiter_ttl (now - e.last_seen))

  unfoldable pub sweep : IpLimiter Bucket → ℕ → IpLimiter Bucket
  sweep l now =
      if ltb ip_limiter_sweep_every (now - l.last_sweep)
      then record l { limiters = keep (is_live now) l.limiters; last_sweep = now }
      else l

  abbrev pub touch : Bucket → ℕ → LimiterEntry Bucket → LimiterEntry Bucket
  touch b now e = record e { limiter = b; last_seen = now }

  -- The rest of `allow` for the entry that the host has after the sweep.
  unfoldable pub allow_found :
      IpLimiter Bucket → Text → ℕ → Option (LimiterEntry Bucket) → IpLimiter Bucket × Bool
  allow_found l h now (some e) =
      let (allowed, b) = spend e.limiter now in
      (record l { limiters = update_where (by_host h) (touch b now) l.limiters }, allowed)
  allow_found l h now none =
      let (allowed, b) = spend fresh now in
      if leb l.max (length l.limiters) then (l, false) else (
        record l { limiters = record { host = h; limiter = b; last_seen = now } ∷ l.limiters },
        allowed,
      )

  unfoldable pub allow : IpLimiter Bucket → Text → ℕ → IpLimiter Bucket × Bool
  allow l h now =
      let swept = sweep l now in allow_found swept h now (find_first (by_host h) swept.limiters)

  abbrev pub size : IpLimiter Bucket → ℕ
  size l = length l.limiters

  abbrev pub by_device : Text → DeviceEntry Bucket → Bool
  by_device i e = same e.device i

  abbrev pub spent : Bucket → DeviceEntry Bucket → DeviceEntry Bucket
  spent b e = record e { device_bucket = b }

  -- `deviceLimiter.allow`, for the entry that the device has.
  unfoldable pub allow_device_found :
      List (DeviceEntry Bucket)
      → Text
      → ℕ
      → Option (DeviceEntry Bucket)
      → List (DeviceEntry Bucket) × Bool
  allow_device_found l i now (some e) =
      let (allowed, b) = spend e.device_bucket now in
      (update_where (by_device i) (spent b) l, allowed)
  allow_device_found l i now none =
      let (allowed, b) = spend fresh now in (record { device = i; device_bucket = b } ∷ l, allowed)

  unfoldable pub allow_device :
      List (DeviceEntry Bucket) → Text → ℕ → List (DeviceEntry Bucket) × Bool
  allow_device l i now = allow_device_found l i now (find_first (by_device i) l)
