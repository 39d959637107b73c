-- ===== src/Httpapp/RateLimit.antt =====
-- internal/httpapp/ratelimit.go: the token bucket of each client. The program's float64 values are
-- exact rationals here: rate and burst are `rate / scale` tokens a second and `burst / scale` tokens,
-- and a bucket counts in units of 1 / (scale * 10^9) token, so that a nanosecond brings `rate` units.
-- A rate of zero stands for every rate that is not positive.
use gocord.Base.{
  ℕ, ◌+◌, ◌*◌, ◌/◌, Bool, true, false, not, List, [], ltb, ◌==◌, if◌then◌else◌, none, some, keep,
}
use gocord.Base.Int.{ℤ, pos, ◌+ℤ◌, ◌-ℤ◌, sub_ℕ, ltb_ℤ}
use gocord.Base.Assoc.{Text, lookup, insert}

abbrev pub second : ℕ
second = 1000000000

abbrev pub minute : ℕ
minute = 60 * second

pub record Bucket : Type 0 where
  pub tokens : ℤ
  pub seen : ℕ

pub record RateLimiter : Type 0 where
  pub buckets : List (Text × Bucket)
  pub rate : ℕ
  pub burst : ℕ
  pub scale : ℕ

unfoldable pub new_rate_limiter : ℕ → ℕ → ℕ → RateLimiter
new_rate_limiter rate burst scale = record {
  buckets = [];
  rate = rate;
  burst = burst;
  scale = scale;
}

-- One token, and a full bucket.
unfoldable pub one_token : RateLimiter → ℕ
one_token l = l.scale * second

unfoldable pub full : RateLimiter → ℕ
full l = l.burst * second

-- `time.Duration(l.burst/l.rate*float64(time.Second)) + time.Minute`, whole nanoseconds.
unfoldable pub idle : RateLimiter → ℕ
unfolding full
idle l = full l / l.rate + minute

-- sweepLocked: a bucket goes when `now.Sub(b.seen) > idle`.
unfoldable pub sweep : ℕ → RateLimiter → RateLimiter
unfolding idle
sweep now l =
    if l.rate == 0
    then l
    else record l { buckets = keep (λ e. not (ltb (e.1.seen + idle l) now)) l.buckets }

-- `now.Sub(b.seen).Seconds() * l.rate`; it is negative when the clock's answers come in another
-- order than the lock.
unfoldable pub gain : RateLimiter → ℕ → ℕ → ℤ
gain l now seen = sub_ℕ (now * l.rate) (seen * l.rate)

unfoldable pub refill : RateLimiter → ℕ → Bucket → Bucket
unfolding gain full ◌+ℤ◌
refill l now b =
    let tokens = b.tokens +ℤ gain l now b.seen in
    record { tokens = if ltb_ℤ (pos (full l)) tokens then pos (full l) else tokens; seen = now }

-- The end of allow: the bucket is in the map, with or without the token.
unfoldable pub spend : Text → Bucket → RateLimiter → RateLimiter × Bool
unfolding one_token ◌-ℤ◌
spend key b l =
    if ltb_ℤ b.tokens (pos (one_token l))
    then (record l { buckets = insert key b l.buckets }, false)
    else (
      record l {
        buckets = insert key (record b { tokens = b.tokens -ℤ pos (one_token l) }) l.buckets;
      },
      true,
    )

unfoldable pub allow : Text → ℕ → RateLimiter → RateLimiter × Bool
unfolding spend refill sweep
allow key now l = if l.rate == 0 then (l, true) else elim (lookup key l.buckets) [
  | none ↦ let swept = sweep now l in spend key (record { tokens = pos (full l); seen = now }) swept
  | some b ↦ spend key (refill l now b) l
]
