-- ===== src/Api/Bounds.antt =====
-- The address limiter of internal/server/api/middleware.go: its entries and their buckets.
use ai_limit_notifier.Prelude.{
  ℕ, ◌≤◌, ◌≡◌, ◌≢◌, ◌∙◌, refl, Bool, true, false, Text, List, [], ◌∷◌, Option, none, some, length,
  keep, update_where, find_first, arith,
}
use ai_limit_notifier.Api.Limiter.{
  LimiterEntry, IpLimiter, by_host, is_live, sweep, touch, allow_found, allow, new_ip_limiter, size,
  ip_limiter_max_entries,
}

length-keep-le : {A : Type 0} (p : A → Bool) (t : List A) → length (keep p t) ≤ length t
unfolding keep
length-keep-le p [] = omega arith
length-keep-le p (r ∷ rs) = ground (arith, length-keep-le p rs)

length-update :
    {A : Type 0} (p : A → Bool) (f : A → A) (t : List A) → length (update_where p f t) ≡ length t
unfolding update_where
length-update p f [] = refl
length-update p f (r ∷ rs) = omega (arith, length-update p f rs)

module _ {Bucket : Type 0} (fresh : Bucket) (spend : Bucket → ℕ → Bool × Bucket) where
  -- Requests from any hosts at any times, one after another.
  pub allow_all : IpLimiter Bucket → List (Text × ℕ) → IpLimiter Bucket
  allow_all l [] = l
  allow_all l ((h, now) ∷ rs) = allow_all (allow fresh spend l h now).0 rs

  sweep-size :
      (l : IpLimiter Bucket) (now : ℕ)
      → size fresh spend (sweep fresh spend l now) ≤ size fresh spend l
  unfolding sweep
  sweep-size l now = ground (arith, length-keep-le (is_live fresh spend now) l.limiters)

  sweep-max : (l : IpLimiter Bucket) (now : ℕ) → (sweep fresh spend l now).max ≡ l.max
  unfolding sweep
  sweep-max l now = ground arith

  allow_found-size :
      (l : IpLimiter Bucket) (h : Text) (now : ℕ) (o : Option (LimiterEntry Bucket))
      → size fresh spend l ≤ l.max
      → (size fresh spend (allow_found fresh spend l h now o).0 ≤ l.max)
        × ((allow_found fresh spend l h now o).0.max ≡ l.max)
  unfolding allow_found
  allow_found-size l h now none fits = ground arith
  allow_found-size l h now (some e) fits =
      let b = (spend e.limiter now).1 in
      ground (arith, length-update (by_host fresh spend h) (touch fresh spend b now) l.limiters)

  allow-size :
      (l : IpLimiter Bucket) (h : Text) (now : ℕ)
      → size fresh spend l ≤ l.max
      → (size fresh spend (allow fresh spend l h now).0 ≤ l.max)
        × ((allow fresh spend l h now).0.max ≡ l.max)
  unfolding allow
  allow-size l h now fits = ground (
    arith,
    sweep-size l now,
    sweep-max l now,
    allow_found-size (sweep fresh spend l now) h now
        (find_first (by_host fresh spend h) (sweep fresh spend l now).limiters),
  )

  allow_all-size :
      (l : IpLimiter Bucket) (rs : List (Text × ℕ))
      → size fresh spend l ≤ l.max
      → size fresh spend (allow_all l rs) ≤ l.max
  unfolding allow_all
  allow_all-size l [] fits = fits
  allow_all-size l ((h, now) ∷ rs) fits =
      ground (arith, allow-size l h now fits, allow_all-size (allow fresh spend l h now).0 rs)

  -- However many hosts call a new limiter, and whenever they do, it keeps at most 10,000 entries.
  pub limiter-bounded :
      (started : ℕ) (rs : List (Text × ℕ))
      → size fresh spend (allow_all (new_ip_limiter fresh spend started) rs)
        ≤ ip_limiter_max_entries
  unfolding new_ip_limiter
  limiter-bounded started rs = allow_all-size (new_ip_limiter fresh spend started) rs (ground arith)

  find_touched :
      (h g : Text) (b : Bucket) (now : ℕ) (t : List (LimiterEntry Bucket))
      → h ≢ g
      → find_first
          (by_host fresh spend g)
          (update_where (by_host fresh spend h) (touch fresh spend b now) t)
        ≡ find_first (by_host fresh spend g) t
  unfolding find_first update_where
  find_touched h g b now [] other = refl
  find_touched h g b now (e ∷ es) other = ground (arith, find_touched h g b now es other)

  find_swept :
      (g : Text) (now : ℕ) (t : List (LimiterEntry Bucket)) (e : LimiterEntry Bucket)
      → find_first (by_host fresh spend g) t ≡ some e
      → is_live fresh spend now e ≡ true
      → find_first (by_host fresh spend g) (keep (is_live fresh spend now) t) ≡ some e
  unfolding find_first keep
  find_swept g now [] e found live = cc
  find_swept g now (d ∷ ds) e found live = ground (arith, find_swept g now ds e)

  unknown_kept :
      (h : Text) (now : ℕ) (t : List (LimiterEntry Bucket))
      → find_first (by_host fresh spend h) t ≡ none
      → find_first (by_host fresh spend h) (keep (is_live fresh spend now) t) ≡ none
  unfolding find_first keep
  unknown_kept h now [] e = refl
  unknown_kept h now (d ∷ ds) e = ground (arith, unknown_kept h now ds)

  still_unknown :
      (l : IpLimiter Bucket) (h : Text) (now : ℕ)
      → find_first (by_host fresh spend h) l.limiters ≡ none
      → find_first (by_host fresh spend h) (sweep fresh spend l now).limiters ≡ none
  unfolding sweep
  still_unknown l h now e = ground (arith, unknown_kept h now l.limiters e)

  refused_full :
      (l : IpLimiter Bucket) (h : Text) (now : ℕ)
      → l.max ≤ size fresh spend l
      → allow_found fresh spend l h now none ≡ (l, false)
  unfolding allow_found
  refused_full l h now full = ground arith

  find_after_sweep :
      (l : IpLimiter Bucket) (g : Text) (now : ℕ) (e : LimiterEntry Bucket)
      → find_first (by_host fresh spend g) l.limiters ≡ some e
      → is_live fresh spend now e ≡ true
      → find_first (by_host fresh spend g) (sweep fresh spend l now).limiters ≡ some e
  unfolding sweep
  find_after_sweep l g now e found live = ground (arith, find_swept g now l.limiters e found live)

  find_after_allow :
      (h g : Text) (now : ℕ) (m : IpLimiter Bucket) (o : Option (LimiterEntry Bucket))
      → h ≢ g
      → find_first (by_host fresh spend g) (allow_found fresh spend m h now o).0.limiters
        ≡ find_first (by_host fresh spend g) m.limiters
  unfolding allow_found find_first
  find_after_allow h g now m none other = ground arith
  find_after_allow h g now m (some d) other =
      find_touched h g (spend d.limiter now).1 now m.limiters other

  -- A call for one host leaves the bucket of every other host that was seen in the last ten
  -- minutes as it was.
  pub allow-others :
      (l : IpLimiter Bucket) (h g : Text) (now : ℕ) (e : LimiterEntry Bucket)
      → h ≢ g
      → find_first (by_host fresh spend g) l.limiters ≡ some e
      → is_live fresh spend now e ≡ true
      → find_first (by_host fresh spend g) (allow fresh spend l h now).0.limiters ≡ some e
  unfolding allow
  allow-others l h g now e other found live =
      let swept = sweep fresh spend l now in
      find_after_allow h g now swept (find_first (by_host fresh spend h) swept.limiters) other
      ∙ find_after_sweep l g now e found live

  -- A host that the limiter does not know after the sweep is refused when the limiter is full, and
  -- the entries stay as the sweep left them.
  pub allow-full :
      (l : IpLimiter Bucket) (h : Text) (now : ℕ)
      → find_first (by_host fresh spend h) l.limiters ≡ none
      → l.max ≤ size fresh spend (sweep fresh spend l now)
      → allow fresh spend l h now ≡ (sweep fresh spend l now, false)
  unfolding allow
  allow-full l h now unknown full =
      rw (still_unknown l h now unknown)
        (refused_full (sweep fresh spend l now) h now (ground (arith, sweep-max l now)))
