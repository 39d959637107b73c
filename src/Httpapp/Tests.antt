-- ===== src/Httpapp/Tests.antt =====
-- Runs of internal/httpapp/ratelimit.go at concrete inputs: two tokens, and one more a second.
use gocord.Base.{ℕ, ◌+◌, ◌*◌, ◌≤◌, ◌≡◌, refl, true, false, List, [], ◌∷◌, arith, ◌≢◌}
use gocord.Base.Int.{pos}
use gocord.Base.Assoc.{Text, codes, text_eq, lookup, insert}
use gocord.Httpapp.RateLimit.{
  second, RateLimiter, new_rate_limiter, one_token, full, idle, sweep, gain, refill, spend, allow,
}
use gocord.Httpapp.Level.{level, level-sweep}
use gocord.Httpapp.Allow.{LimiterIsValid, Spends, allow-Spends}
use gocord.Httpapp.Budget.{admitted, admitted-le}

abbrev limiter : RateLimiter
limiter = new_rate_limiter 1 2 1

some_rate : limiter.rate ≢ 0
unfolding new_rate_limiter
some_rate = λ e. omega arith

limiter-IsValid : LimiterIsValid limiter 5
unfolding new_rate_limiter
limiter-IsValid = record { buckets_valid = tt; distinct = tt }

-- The client has used its tokens; another has been idle for longer than a minute and two seconds.
abbrev used : RateLimiter
used = record {
  buckets =
      (codes "a", record { tokens = pos 0; seen = 80 * second })
      ∷ (codes "b", record { tokens = pos 0; seen = 10 })
      ∷ [];
  rate = 1;
  burst = 2;
  scale = 1;
}

allow_tests :
    ((allow (codes "a") (80 * second) used).1 ≡ false)
    × ((allow (codes "a") (81 * second) used).1 ≡ true)
    × ((allow (codes "b") (81 * second) used).1 ≡ true)
unfolding allow spend refill sweep gain one_token full idle lookup insert text_eq
allow_tests = (refl, refl, refl)

used-IsValid : LimiterIsValid used (80 * second)
unfolding text_eq lookup
used-IsValid = record {
  buckets_valid = (
    record { held = refl; seen_before = omega arith },
    (record { held = refl; seen_before = omega arith }, tt),
  );
  distinct = (refl, (refl, tt));
}

level-sweep_example :
    level (codes "b") (80 * second) (sweep (80 * second) used)
    ≡ level (codes "b") (80 * second) used
level-sweep_example = level-sweep (codes "b") (80 * second) used used-IsValid.distinct

used_rate : used.rate ≢ 0
used_rate = λ e. omega arith

allow-Spends_example :
    Spends used
      (codes "a")
      (80 * second)
      (allow (codes "a") (80 * second) used).0
      (allow (codes "a") (80 * second) used).1
allow-Spends_example = allow-Spends used (codes "a") (80 * second) used_rate used-IsValid

abbrev calls : List (Text × ℕ)
calls = (codes "a", 0) ∷ (codes "a", 0) ∷ (codes "b", 0) ∷ (codes "a", second) ∷ []

admitted-le_example :
    admitted (codes "a") calls 5 limiter * one_token limiter ≤ full limiter + second * limiter.rate
admitted-le_example = admitted-le (codes "a") calls 5 limiter some_rate limiter-IsValid
