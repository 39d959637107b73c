-- ===== src/Httpapp/Budget.antt =====
-- internal/httpapp/ratelimit.go: how many calls of a key are let through in a run of calls, whatever
-- other keys call in between and whatever is swept.
use gocord.Base.{
  ℕ, suc, ◌+◌, ◌-◌, ◌*◌, ◌≤◌, ◌≡◌, sym, ap, ◌∙◌, inl, inr, ◌≢◌, Bool, true, false, ◌&&◌, List, [],
  ◌∷◌, if◌then◌else◌, some, arith, Bool-cases, Option-cases,
}
use gocord.Base.Assoc.{Text, text_eq, text_eq_iff, lookup, AllValues, AllValues-lookup}
use gocord.Httpapp.RateLimit.{second, Bucket, RateLimiter, one_token, full, allow}
use gocord.Httpapp.Level.{BucketIsValid, bucket_level, level}
use gocord.Httpapp.Allow.{LimiterIsValid, SameRates, Spends, allow-Spends, level-le}

-- A call: the key, and the nanoseconds since the call before it.
abbrev Call : Type 0
Call = Text × ℕ

abbrev pub elapsed : List Call → ℕ
elapsed [] = 0
elapsed ((key, gap) ∷ calls) = gap + elapsed calls

-- How many calls of the key are let through.
abbrev pub admitted : Text → List Call → ℕ → RateLimiter → ℕ
admitted key [] now l = 0
admitted key ((j, gap) ∷ calls) now l =
    let r = allow j (now + gap) l in
    let rest = admitted key calls (now + gap) r.0 in if text_eq j key && r.1 then suc rest else rest

later :
    (m : List (Text × Bucket)) (now gap : ℕ)
    → AllValues (BucketIsValid now) m
    → AllValues (BucketIsValid (now + gap)) m
later [] now gap v = tt
later ((j, b) ∷ m) now gap (p, v) =
    (record { held = p.held; seen_before = omega (arith, p.seen_before) }, later m now gap v)

later-IsValid :
    (l : RateLimiter) (now gap : ℕ) → LimiterIsValid l now → LimiterIsValid l (now + gap)
later-IsValid l now gap v = record {
  buckets_valid = later l.buckets now gap v.buckets_valid;
  distinct = v.distinct;
}

bucket_level-later :
    (l : RateLimiter) (now gap : ℕ) (b : Bucket)
    → BucketIsValid now b
    → bucket_level l (now + gap) (some b) ≤ bucket_level l now (some b) + gap * l.rate
bucket_level-later l now gap b v =
    let k = now - b.seen in
    let e : now + gap - b.seen ≡ k + gap = omega (arith, v.seen_before) in
    let grown : (now + gap - b.seen) * l.rate ≡ k * l.rate + gap * l.rate =
      omega (arith, ap (λ (t : ℕ). t * l.rate) e) in
    ground arith

-- A level grows by the rate at most.
level-later :
    (l : RateLimiter) (key : Text) (now gap : ℕ)
    → LimiterIsValid l now
    → level key (now + gap) l ≤ level key now l + gap * l.rate
unfolding level
level-later l key now gap v = elim (Option-cases (lookup key l.buckets)) [
  | inl e ↦ rw e (omega arith)
  | inr (b, e) ↦ rw e (
      bucket_level-later l now gap b
        (AllValues-lookup (BucketIsValid now) key b l.buckets v.buckets_valid e))
]

-- A call of a key takes what it admits off the level of a key.
allow-pays :
    (l l' : RateLimiter) (key j : Text) (now : ℕ) (ok : Bool)
    → Spends l j now l' ok
    → (if text_eq j key && ok then one_token l else 0) + level key now l' ≤ level key now l
allow-pays l l' key j now ok s =
    let h = s.levels key in
    let d = s.decided in
    elim (Bool-cases (text_eq j key)) [
      | inl same ↦
          let e = ap (λ k. level k now l) ((text_eq_iff j key).0 same) in
          elim (Bool-cases ok) [ inl let_in ↦ ground arith | inr kept_out ↦ ground arith ]
      | inr other ↦ ground arith
    ]

one_token-same : (l l' : RateLimiter) → SameRates l l' → one_token l' ≡ one_token l
unfolding one_token
one_token-same l l' same = ap (λ n. n * second) same.2

-- The sums of one call and of the calls after it.
payment :
    (hit : Bool) (rest token before after start gap time rate : ℕ)
    → (if hit then token else 0) + after ≤ before
    → before ≤ start + gap * rate
    → rest * token ≤ after + time * rate
    → (if hit then suc rest else rest) * token ≤ start + (gap + time) * rate
payment true rest token before after start gap time rate paid grown later = grind arith
payment false rest token before after start gap time rate paid grown later = grind arith

admitted-le_level :
    (key : Text) (calls : List Call) (now : ℕ) (l : RateLimiter)
    → l.rate ≢ 0
    → LimiterIsValid l now
    → admitted key calls now l * one_token l ≤ level key now l + elapsed calls * l.rate
admitted-le_level key [] now l some_rate v = omega arith
admitted-le_level key ((j, gap) ∷ calls) now l some_rate v =
    let time = now + gap in
    let r = allow j time l in
    let s = allow-Spends l j time some_rate (later-IsValid l now gap v) in
    let token = one_token-same l r.0 s.rates in
    let rest = admitted-le_level key calls time r.0 (λ e. some_rate (sym s.rates.0 ∙ e)) s.left in
    let paid = allow-pays l r.0 key j time r.1 s in
    let grown = level-later l key now gap v in
    let rated = ap (λ n. elapsed calls * n) s.rates.0 in
    let priced = ap (λ n. admitted key calls time r.0 * n) token in
    payment (text_eq j key && r.1) (admitted key calls time r.0) (one_token l) (level key time l)
      (level key time r.0) (level key now l) gap (elapsed calls) l.rate paid grown
      (omega (arith, rest, rated, priced))

-- In a run of calls, at any times and of any keys, those of one key that the limiter lets through
-- are not more than a full bucket and what the rate brings in the time of the run, for a limiter
-- with a rate that any earlier calls have left.
pub admitted-le :
    (key : Text) (calls : List Call) (now : ℕ) (l : RateLimiter)
    → l.rate ≢ 0
    → LimiterIsValid l now
    → admitted key calls now l * one_token l ≤ full l + elapsed calls * l.rate
admitted-le key calls now l some_rate v =
    omega (arith, admitted-le_level key calls now l some_rate v, level-le l key now)
