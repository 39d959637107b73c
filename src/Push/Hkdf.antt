-- ===== src/Push/Hkdf.antt =====
-- internal/push/encrypt.go: hkdfExtract and hkdfExpand.
use gocord.Base.{
  ℕ, zero, suc, ◌+◌, ◌%◌, ◌≤◌, ◌≡◌, List, [], ◌∷◌, ◌++◌, Option, option_or, length, length-append,
  length-take, take, replicate, ltb, if◌then◌else◌, arith, Bool-cases, inl, inr,
}
use gocord.Push.Crypto.{Crypto, CryptoIsLawful}

module _ (c : Crypto) where
  -- A nil salt is none; an empty one is not nil.
  unfoldable pub hkdf_extract : Option (List ℕ) → List ℕ → List ℕ
  hkdf_extract salt ikm = c.hmac (option_or salt (replicate 32 0)) ikm

  -- The loop, with the rounds that are left, `okm`, `t` and the counter, which is a byte.
  unfoldable pub expand_from : List ℕ → List ℕ → ℕ → ℕ → List ℕ → List ℕ → ℕ → List ℕ
  expand_from prk info n zero okm t counter = okm
  expand_from prk info n (suc rounds) okm t counter =
      let t' = c.hmac prk (t ++ info ++ counter ∷ []) in
      let rest = expand_from prk info n rounds (okm ++ t') t' ((counter + 1) % 256) in
      if ltb (length okm) n then rest else okm

  unfoldable pub hkdf_expand : List ℕ → List ℕ → ℕ → List ℕ
  unfolding expand_from
  hkdf_expand prk info n = take n (expand_from prk info n n [] [] 1)

  module _ (laws : CryptoIsLawful c) where
    -- Each round adds 32 bytes, so that a round for each byte is more than enough.
    length-expand_from :
        (prk info : List ℕ) (n rounds : ℕ) (okm t : List ℕ) (counter : ℕ)
        → n ≤ rounds + length okm
        → n ≤ length (expand_from prk info n rounds okm t counter)
    unfolding expand_from
    length-expand_from prk info n zero okm t counter h = omega (arith, h)
    length-expand_from prk info n (suc rounds) okm t counter h =
        let t' = c.hmac prk (t ++ info ++ counter ∷ []) in
        elim (Bool-cases (ltb (length okm) n)) [
          | inl more ↦ rw more (
              length-expand_from prk info n rounds (okm ++ t') t' ((counter + 1) % 256) (
                omega
                  (arith, length-append okm t', laws.length-hmac prk (t ++ info ++ counter ∷ []))))
          | inr enough ↦ rw enough (ground arith)
        ]

    -- With an HMAC of 32 bytes, hkdfExpand ends with exactly as many bytes as it is asked for.
    pub length-hkdf_expand : (prk info : List ℕ) (n : ℕ) → length (hkdf_expand prk info n) ≡ n
    unfolding hkdf_expand
    length-hkdf_expand prk info n =
        length-take n (expand_from prk info n n [] [] 1)
          (length-expand_from prk info n n [] [] 1 (omega arith))
