-- ===== src/Httpapp/Level.antt =====
-- internal/httpapp/ratelimit.go: an abstract view of the limiter, in which no bucket is ever swept:
-- the level of every key at every time. allow implements it.
use gocord.Base.{
  ℕ, ◌+◌, ◌-◌, ◌*◌, ◌/◌, ◌≤◌, ◌<◌, ◌≡◌, refl, sym, ap, ◌∙◌, ◌⊎◌, inl, inr, ◌≢◌, Bool, false, not,
  List, [], ◌∷◌, ltb, ◌==◌, if◌then◌else◌, Option, none, some, keep, arith, Bool-cases,
}
use gocord.Base.Int.{pos, pos_part, neg_part, ◌+ℤ◌}
use native.Mathlib.Nat.{div-add-mod, mod-lt}
use gocord.Base.Keys.{Distinct}
use gocord.Base.Assoc.{Text, text_eq, text_eq_iff, lookup, AllValues}
use gocord.Httpapp.RateLimit.{Bucket, RateLimiter, full, idle, sweep, gain, refill}

-- A bucket that the code has left at a time before `now`.
pub record BucketIsValid (now : ℕ) (b : Bucket) : Type 0 where
  pub held : neg_part b.tokens ≡ 0
  pub seen_before : b.seen ≤ now

abbrev pub BucketsAreValid : RateLimiter → ℕ → Type 0
BucketsAreValid l now = AllValues (BucketIsValid now) l.buckets

-- The units that a bucket has at a time: what it held and what has come since, up to a full bucket.
abbrev pub cap_at : ℕ → ℕ → ℕ
cap_at bound n = if ltb bound n then bound else n

abbrev pub bucket_level : RateLimiter → ℕ → Option Bucket → ℕ
bucket_level l now none = full l
bucket_level l now (some b) = cap_at (full l) (pos_part b.tokens + (now - b.seen) * l.rate)

unfoldable pub level : Text → ℕ → RateLimiter → ℕ
level key now l = bucket_level l now (lookup key l.buckets)

-- A bucket that is swept is full: it has been idle for longer than it takes to fill.
swept_full :
    (l : RateLimiter) (now : ℕ) (b : Bucket)
    → l.rate ≢ 0
    → b.seen + idle l < now
    → bucket_level l now (some b) ≡ full l
unfolding idle
swept_full l now b some_rate old =
    let q = full l / l.rate in
    let k = now - b.seen - (q + 1) in
    let e : now - b.seen ≡ q + 1 + k = omega arith in
    let filled : full l ≤ (now - b.seen) * l.rate = omega (
      arith,
      ap (λ (t : ℕ). t * l.rate) e,
      div-add-mod (full l) l.rate,
      mod-lt (full l) {m = l.rate} (omega arith),
    ) in
    ground arith

lookup-keep-none :
    (p : Text × Bucket → Bool) (key : Text) (m : List (Text × Bucket))
    → lookup key m ≡ none
    → lookup key (keep p m) ≡ none
unfolding lookup
lookup-keep-none p key [] e = refl
lookup-keep-none p key ((j, b) ∷ m) e = ground (arith, lookup-keep-none p key m)

-- With distinct keys, a key finds after a filter what it found before, or its entry was dropped.
abbrev Dropped : (Text × Bucket → Bool) → Text → List (Text × Bucket) → Type 0
Dropped p key m =
    (b : Bucket) × (lookup key m ≡ some b) × (p (key, b) ≡ false) × (lookup key (keep p m) ≡ none)

lookup-keep :
    (p : Text × Bucket → Bool) (key : Text) (m : List (Text × Bucket))
    → Distinct m
    → (lookup key (keep p m) ≡ lookup key m) ⊎ Dropped p key m
unfolding lookup
lookup-keep p key [] d = inl refl
lookup-keep p key ((j, b) ∷ m) d = elim (Bool-cases (text_eq j key)) [
  | inl same ↦
      let e = (text_eq_iff j key).0 same in
      elim (Bool-cases (p (j, b))) [
        | inl stays ↦ inl (rw stays (rw same))
        | inr goes ↦ inr (
          b,
          rw same,
          ap (λ k. p (k, b)) (sym e) ∙ goes,
          rw goes (lookup-keep-none p key m (rw (← e) d.0)),
        )
      ]
  | inr other ↦ elim (lookup-keep p key m d.1) [
    | inl same ↦ inl (ground arith)
    | inr (c, found, goes, gone) ↦ inr (c, ground arith, goes, ground arith)
  ]
]

-- Sweeping a limiter whose keys are distinct changes no key's level, so that a swept bucket is as
-- good as a fresh one.
pub level-sweep :
    (key : Text) (now : ℕ) (l : RateLimiter)
    → Distinct l.buckets
    → level key now (sweep now l) ≡ level key now l
unfolding level sweep full
level-sweep key now l d = elim (Bool-cases (l.rate == 0)) [
  | inl off ↦ rw off
  | inr on ↦ rw on (elim (lookup-keep (λ e. not (ltb (e.1.seen + idle l) now)) key l.buckets d) [
    | inl same ↦ rw same
    | inr (b, found, goes, gone) ↦
        rw (gone, found) (sym (swept_full l now b (ground arith) (ground arith)))
  ])
]

pub refill-level :
    (l : RateLimiter) (now : ℕ) (b : Bucket)
    → BucketIsValid now b
    → (refill l now b).tokens ≡ pos (bucket_level l now (some b))
unfolding refill gain ◌+ℤ◌
refill-level l now b v =
    let k = now - b.seen in
    let e : now ≡ b.seen + k = omega arith in
    let held : b.tokens ≡ pos (pos_part b.tokens) = ground arith in
    let grown : now * l.rate ≡ b.seen * l.rate + k * l.rate =
      omega (arith, ap (λ (t : ℕ). t * l.rate) e) in
    ground arith

pub Distinct-keep :
    (p : Text × Bucket → Bool) (m : List (Text × Bucket)) → Distinct m → Distinct (keep p m)
Distinct-keep p [] d = tt
Distinct-keep p ((j, b) ∷ m) d = elim (Bool-cases (p (j, b))) [
  | inl stays ↦ rw stays (lookup-keep-none p j m d.0, Distinct-keep p m d.1)
  | inr goes ↦ rw goes (Distinct-keep p m d.1)
]
