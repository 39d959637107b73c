-- ===== src/Web/Backoff.antt =====
-- web/ui.go: the delay before scheduleSignalingReconnect opens a new socket.
use native.Mathlib.Nat.{mul-le-mul_right, mul-le-mul_left}
use native.Mathlib.Nat.{mul-div-le, le-div_iff_mul-le}
use native.Mathlib.Nat.{one-le-pow, two-pow-succ}
use gocord.Base.{
  inl, inr, suc, arith, ◌≤◌, ◌<◌, ◌≡◌, leb, Bool-cases, leb→le, ℕ, ◌+◌, ◌*◌, ◌/◌, ◌^◌, min,
}

abbrev pub signaling_retry_base_ms : ℕ
signaling_retry_base_ms = 1000

abbrev pub signaling_retry_max_ms : ℕ
signaling_retry_max_ms = 15000

abbrev pub ice_disconnect_grace_ms : ℕ
ice_disconnect_grace_ms = 2500

abbrev pub peer_return_timeout_ms : ℕ
peer_return_timeout_ms = 60000

unfoldable pub backoff : ℕ → ℕ
backoff attempt = min signaling_retry_max_ms (signaling_retry_base_ms * 2 ^ attempt)

-- What Math.random answers, as a fraction.
pub record Fraction : Type 0 where
  pub top : ℕ
  pub bottom : ℕ

-- Math.round(backoff * (0.5 + Math.random() * 0.5)), where Math.round rounds a half up.
unfoldable pub delay : Fraction → ℕ → ℕ
unfolding backoff
delay random attempt =
    (backoff attempt * (random.bottom + random.top) + random.bottom) / (2 * random.bottom)

backoff_bounds :
    (attempt : ℕ)
    → (signaling_retry_base_ms ≤ backoff attempt) × (backoff attempt ≤ signaling_retry_max_ms)
unfolding backoff
backoff_bounds attempt = grind (arith, one-le-pow attempt 2 (omega arith))

backoff-suc : (attempt : ℕ) → backoff (suc attempt) ≡ min 15000 (2 * backoff attempt)
unfolding backoff
backoff-suc attempt = ground (arith, two-pow-succ attempt)

module _ (b k d q : ℕ) (h : k < d) (above : q * (2 * d) ≤ b * (d + k) + d)
    (below : b * (d + k) + d < (q + 1) * (2 * d)) where
  half-le : b ≤ 2 * q
  half-le = elim (Bool-cases (leb b (2 * q))) [
    | inl e ↦ leb→le b (2 * q) e
    | inr e ↦
        let more : 2 * q + 1 ≤ b = ground arith in absurd (grind (arith, mul-le-mul_right d more))
  ]

  le_whole : q ≤ b
  le_whole = elim (Bool-cases (leb q b)) [
    | inl e ↦ leb→le q b e
    | inr e ↦
        let more : b + 1 ≤ q = ground arith in
        let less : k + 1 ≤ d = omega (arith, h) in
        absurd (grind (arith, mul-le-mul_right (2 * d) more, mul-le-mul_left b less))
  ]

quotient_bounds : (n m : ℕ) → 0 < m → ((n / m) * m ≤ n) × (n < (n / m + 1) * m)
quotient_bounds n m h = (
  grind (arith, mul-div-le n m),
  elim (Bool-cases (leb ((n / m + 1) * m) n)) [
    | inl e ↦ absurd (omega (arith, (le-div_iff_mul-le h).1 (leb→le ((n / m + 1) * m) n e)))
    | inr e ↦ ground arith
  ],
)

-- Whatever Math.random answers, a new socket is opened after at least half a second and at most
-- fifteen seconds, and after at least half of the backoff and not more than it; the backoff doubles
-- with each attempt until it is fifteen seconds.
pub delay_bounds :
    (random : Fraction) (attempt : ℕ)
    → random.top < random.bottom
    → (500 ≤ delay random attempt)
      × (delay random attempt ≤ 15000)
      × (backoff attempt ≤ 2 * delay random attempt)
      × (delay random attempt ≤ backoff attempt)
      × (backoff (suc attempt) ≡ min 15000 (2 * backoff attempt))
unfolding delay
delay_bounds random attempt h =
    let d = random.bottom in
    let n = backoff attempt * (d + random.top) + d in
    let q = quotient_bounds n (2 * d) (omega (arith, h)) in
    let low = half-le (backoff attempt) random.top d (n / (2 * d)) h q.0 q.1 in
    let high = le_whole (backoff attempt) random.top d (n / (2 * d)) h q.0 q.1 in
    let b = backoff_bounds attempt in
    (omega (arith, low, b.0), omega (arith, high, b.1), low, high, backoff-suc attempt)
