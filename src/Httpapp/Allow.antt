-- ===== src/Httpapp/Allow.antt =====
-- internal/httpapp/ratelimit.go: allow in terms of levels.
use gocord.Base.{
  ℕ, ◌+◌, ◌-◌, ◌*◌, ◌≤◌, ◌≡◌, refl, sym, ap, subst, ◌∙◌, inl, inr, ◌≢◌, Bool, false, not, ltb, leb,
  ◌==◌, if◌then◌else◌, none, some, All-keep, arith, Bool-cases, Option-cases,
}
use gocord.Base.Int.{ℤ, pos, ◌-ℤ◌}
use gocord.Base.Keys.{Distinct, Distinct-insert}
use gocord.Base.Assoc.{
  Text, text_eq, lookup, insert, lookup-insert, AllValues-lookup, AllValues-insert,
}
use gocord.Httpapp.RateLimit.{
  second, Bucket, RateLimiter, one_token, full, idle, sweep, refill, spend, allow,
}
use gocord.Httpapp.Level.{
  BucketIsValid, BucketsAreValid, bucket_level, level, level-sweep, refill-level, Distinct-keep,
}

-- The limiter between two calls: its buckets were left before `now`, under distinct keys.
pub record LimiterIsValid (l : RateLimiter) (now : ℕ) : Type 0 where
  pub buckets_valid : BucketsAreValid l now
  pub distinct : Distinct l.buckets

abbrev pub SameRates : RateLimiter → RateLimiter → Type 0
SameRates l l' = (l'.rate ≡ l.rate) × (l'.burst ≡ l.burst) × (l'.scale ≡ l.scale)

-- The level that a call leaves of a level: a token less if the call is let through.
abbrev pub taken : Bool → ℕ → ℕ → ℕ
taken ok token n = if ok then n - token else n

-- What a call does to the levels.
pub record Spends (l : RateLimiter) (key : Text) (now : ℕ) (l' : RateLimiter) (ok : Bool)
    : Type 0 where
  pub decided : ok ≡ leb (one_token l) (level key now l)
  pub levels :
      (j : Text)
      → level j now l'
        ≡ (if text_eq key j then taken ok (one_token l) (level key now l) else level j now l)
  pub left : LimiterIsValid l' now
  pub rates : SameRates l l'

abbrev holding : ℕ → ℤ → Bucket
holding now tokens = record { tokens = tokens; seen = now }

abbrev fresh : ℕ → ℕ → Bucket
fresh n now = holding now (pos n)

abbrev put : Text → Bucket → RateLimiter → RateLimiter
put key b m = record m { buckets = insert key b m.buckets }

put-IsValid :
    (m : RateLimiter) (key : Text) (now n : ℕ)
    → LimiterIsValid m now
    → LimiterIsValid (put key (fresh n now) m) now
put-IsValid m key now n v = record {
  buckets_valid =
      AllValues-insert (BucketIsValid now) key (fresh n now) m.buckets
        (record { held = refl; seen_before = omega arith }) v.buckets_valid;
  distinct = Distinct-insert key (fresh n now) m.buckets v.distinct;
}

level-put :
    (m : RateLimiter) (key j : Text) (now n : ℕ)
    → n ≤ full m
    → level j now (put key (fresh n now) m) ≡ (if text_eq key j then n else level j now m)
unfolding level full
level-put m key j now n bound =
    let gained : (now - now) * m.rate ≡ 0 = grind arith in
    ground (arith, lookup-insert key j (fresh n now) m.buckets)

spend_lem :
    (l : RateLimiter) (key : Text) (now n : ℕ)
    → let ok = leb (one_token l) n in
      spend key (fresh n now) l ≡ (put key (fresh (taken ok (one_token l) n) now) l, ok)
unfolding spend one_token ◌-ℤ◌
spend_lem l key now n = elim (Bool-cases (ltb n (l.scale * second))) [
  | inl low ↦ ground arith
  | inr enough ↦ ground arith
]

taken-le : (ok : Bool) (token n m : ℕ) → n ≤ m → taken ok token n ≤ m
taken-le ok token n m h = ground arith

spend-Spends :
    (l : RateLimiter) (key : Text) (now n : ℕ)
    → LimiterIsValid l now
    → level key now l ≡ n
    → n ≤ full l
    → Spends l key now (spend key (fresh n now) l).0 (spend key (fresh n now) l).1
unfolding full one_token
spend-Spends l key now n v here bound =
    let ok = leb (one_token l) n in
    let kept = taken ok (one_token l) n in
    rw spend_lem (record {
      decided = ap (leb (one_token l)) (sym here);
      levels =
          λ j. rw here (level-put l key j now kept (taken-le ok (one_token l) n (full l) bound));
      left = put-IsValid l key now kept v;
      rates = (refl, refl, refl);
    })

pub level-le : (l : RateLimiter) (key : Text) (now : ℕ) → level key now l ≤ full l
unfolding level
level-le l key now = elim (Option-cases (lookup key l.buckets)) [
  | inl e ↦ rw e (omega arith)
  | inr (b, e) ↦ rw e (ground arith)
]

sweep-IsValid :
    (l : RateLimiter) (now : ℕ) → LimiterIsValid l now → LimiterIsValid (sweep now l) now
unfolding sweep
sweep-IsValid l now v = elim (Bool-cases (l.rate == 0)) [
  | inl off ↦ rw off v
  | inr on ↦
      let p = λ (e : Text × Bucket). not (ltb (e.1.seen + idle l) now) in
      rw on (record {
        buckets_valid = All-keep (λ e. BucketIsValid now e.1) p l.buckets v.buckets_valid;
        distinct = Distinct-keep p l.buckets v.distinct;
      })
]

sweep-SameRates : (l : RateLimiter) (now : ℕ) → SameRates l (sweep now l)
unfolding sweep
sweep-SameRates l now = elim (Bool-cases (l.rate == 0)) [
  | inl off ↦ rw off (refl, refl, refl)
  | inr on ↦ rw on (refl, refl, refl)
]

one_token-sweep : (l : RateLimiter) (now : ℕ) → one_token (sweep now l) ≡ one_token l
unfolding one_token
one_token-sweep l now = ap (λ n. n * second) (sweep-SameRates l now).2

full-sweep : (l : RateLimiter) (now : ℕ) → full (sweep now l) ≡ full l
unfolding full
full-sweep l now = ap (λ n. n * second) (sweep-SameRates l now).1

level-none :
    (l : RateLimiter) (key : Text) (now : ℕ)
    → lookup key l.buckets ≡ none
    → level key now l ≡ full l
unfolding level
level-none l key now e = rw e refl

-- A call on swept buckets is a call on the buckets.
Spends-sweep :
    (l l' : RateLimiter) (key : Text) (now : ℕ) (ok : Bool)
    → Distinct l.buckets
    → Spends (sweep now l) key now l' ok
    → Spends l key now l' ok
Spends-sweep l l' key now ok d s =
    let same = sweep-SameRates l now in
    let token = one_token-sweep l now in
    let here = level-sweep key now l d in
    record {
      decided = cc;
      levels = λ j. let there = level-sweep j now l d in let h = s.levels j in cc;
      left = s.left;
      rates = (s.rates.0 ∙ same.0, s.rates.1 ∙ same.1, s.rates.2 ∙ same.2);
    }

level-some :
    (l : RateLimiter) (key : Text) (now : ℕ) (b : Bucket)
    → lookup key l.buckets ≡ some b
    → level key now l ≡ bucket_level l now (some b)
unfolding level
level-some l key now b e = rw e refl

refill-fresh :
    (l : RateLimiter) (now n : ℕ) (b : Bucket)
    → (refill l now b).tokens ≡ pos n
    → refill l now b ≡ fresh n now
unfolding refill
refill-fresh l now n b e = ap (holding now) e

-- A call of a limiter with a rate, whose buckets are valid, is let through exactly when the level of
-- its key is at least a token. It takes the token off that level, changes no other level, and leaves
-- valid buckets and the same rates.
pub allow-Spends :
    (l : RateLimiter) (key : Text) (now : ℕ)
    → l.rate ≢ 0
    → LimiterIsValid l now
    → Spends l key now (allow key now l).0 (allow key now l).1
unfolding allow
allow-Spends l key now some_rate v =
    let on : (l.rate == 0) ≡ false = ground arith in
    elim (Option-cases (lookup key l.buckets)) [
      | inl e ↦
          rw (on, e)
            (Spends-sweep l _ key now _ v.distinct (
              spend-Spends (sweep now l) key now (full l) (sweep-IsValid l now v)
                (level-sweep key now l v.distinct ∙ level-none l key now e)
                (omega (arith, full-sweep l now))))
      | inr (b, e) ↦
          let n = bucket_level l now (some b) in
          let filled =
            refill-level l now b
              (AllValues-lookup (BucketIsValid now) key b l.buckets v.buckets_valid e) in
          let here = level-some l key now b e in
          rw (on, e)
            (subst (λ (c : Bucket). Spends l key now (spend key c l).0 (spend key c l).1)
              (sym (refill-fresh l now n b filled))
              (spend-Spends l key now n v here (omega (arith, here, level-le l key now))))
    ]
