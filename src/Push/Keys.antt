-- ===== src/Push/Keys.antt =====
-- internal/push/vapid.go: that saved VAPID keys load again.
use gocord.Base.{
  ℕ, suc, ◌-◌, ◌≤◌, ◌≡◌, refl, ap, sym, ◌∙◌, inl, inr, false, List, [], ◌∷◌, ◌++◌, some, length,
  length-append, length-replicate, get_elem?, replicate, ltb, ◌==◌, All, arith, Bool-cases, ==_iff,
}
use gocord.Base.Assoc.{Text, text_eq, text_eq_refl}
use gocord.Base64.{encode, raw_url_encoding}
use gocord.Base64.Chars.{IsByte}
use gocord.Text.{trim_space}
use gocord.Push.Flexible.{decode_flexible-encode, IsDense-encode, trim_space-IsDense}
use gocord.Push.Vapid.{
  Curve, keys_of, set_bytes, pad_scalar, PrivateKey, VapidKeys, loaded, new_vapid_keys,
  check_public, load_scalar, load_vapid_keys,
}

length-set_bytes-le : (bs : List ℕ) → length (set_bytes bs) ≤ length bs
unfolding set_bytes
length-set_bytes-le [] = omega arith
length-set_bytes-le (b ∷ bs) = ground (arith, length-set_bytes-le bs)

-- Leading zeros put back.
pad-set_bytes : (bs : List ℕ) → replicate (length bs - length (set_bytes bs)) 0 ++ set_bytes bs ≡ bs
unfolding set_bytes
pad-set_bytes [] = refl
pad-set_bytes (b ∷ bs) = elim (Bool-cases (b == 0)) [
  | inl zero' ↦
      let n = length (set_bytes bs) in
      let k : suc (length bs) - n ≡ suc (length bs - n) = omega (arith, length-set_bytes-le bs) in
      let nought : 0 ≡ b = ground arith in
      rw zero' (
        ap (λ (j : ℕ). replicate j 0 ++ set_bytes bs) k
        ∙ ap (λ (rest : List ℕ). 0 ∷ rest) (pad-set_bytes bs)
        ∙ ap (λ (x : ℕ). x ∷ bs) nought)
  | inr other ↦
      let k : suc (length bs) - suc (length bs) ≡ 0 = omega arith in
      rw other (ap (λ (j : ℕ). replicate j 0 ++ (b ∷ bs)) k)
]

pad_scalar_lem : (d : List ℕ) → length d ≤ 32 → pad_scalar d ≡ replicate (32 - length d) 0 ++ d
unfolding pad_scalar
pad_scalar_lem d h = elim (Bool-cases (ltb (length d) 32)) [
  | inl short ↦ rw short refl
  | inr long ↦
      let k : 0 ≡ 32 - length d = ground arith in rw long (ap (λ (j : ℕ). replicate j 0 ++ d) k)
]

-- A scalar of 32 bytes survives big.Int.
pub pad_scalar-set_bytes : (bs : List ℕ) → length bs ≡ 32 → pad_scalar (set_bytes bs) ≡ bs
pad_scalar-set_bytes bs e =
    pad_scalar_lem (set_bytes bs) (omega (arith, length-set_bytes-le bs))
    ∙ ap (λ (n : ℕ). replicate (n - length (set_bytes bs)) 0 ++ set_bytes bs) (sym e)
    ∙ pad-set_bytes bs

pub length-pad_scalar : (d : List ℕ) → length d ≤ 32 → length (pad_scalar d) ≡ 32
length-pad_scalar d h =
    ap length (pad_scalar_lem d h)
    ∙ omega (
      arith,
      length-append (replicate (32 - length d) 0) d,
      length-replicate {A = ℕ} (32 - length d) 0,
    )

le_of_ltb : (a b : ℕ) → ltb a b ≡ false → b ≤ a
le_of_ltb a b h = ground arith

pub encode-filled :
    (bs : List ℕ) (n : ℕ) → length bs ≡ suc n → text_eq (encode raw_url_encoding bs) [] ≡ false
unfolding encode text_eq
encode-filled [] n e = absurd (omega (arith, e))
encode-filled (a ∷ []) n e = refl
encode-filled (a ∷ b ∷ []) n e = refl
encode-filled (a ∷ b ∷ c ∷ bs) n e = refl

module _ (c : Curve) where
  -- What ecdsa.GenerateKey makes: a scalar below 2^256 and its point, which Marshal writes in the
  -- uncompressed form.
  pub record IsKeyPair (priv : PrivateKey c) : Type 0 where
    pub canonical : set_bytes (pad_scalar priv.d) ≡ priv.d
    pub scalar_bytes : All IsByte (pad_scalar priv.d)
    pub has_point : c.scalar_base_mult (pad_scalar priv.d) ≡ priv.point
    pub point_bytes : All IsByte (c.marshal priv.point)
    pub uncompressed : get_elem? (c.marshal priv.point) 0 ≡ some 4

  pub new_vapid_keys-loaded :
      (priv : PrivateKey c) (keys : VapidKeys c)
      → new_vapid_keys c priv ≡ loaded keys
      → (length (c.marshal priv.point) ≡ 65) × (length priv.d ≤ 32) × (keys_of c priv ≡ keys)
  unfolding new_vapid_keys
  new_vapid_keys-loaded priv keys e = elim (Bool-cases (length (c.marshal priv.point) == 65)) [
    | inr short ↦ absurd (cc (rw (short, new_vapid_keys) at e))
    | inl right ↦ elim (Bool-cases (ltb 32 (length priv.d))) [
      | inl large ↦ absurd (cc (rw large at (rw (right, new_vapid_keys) at e)))
      | inr fits ↦
          let made = rw fits at (rw (right, new_vapid_keys) at e) in
          (
            (==_iff (length (c.marshal priv.point)) 65).0 right,
            le_of_ltb 32 (length priv.d) fits,
            cc made,
          )
    ]
  ]

  check_public-same :
      (bs : List ℕ) (keys : VapidKeys c)
      → All IsByte bs
      → length bs ≡ 65
      → get_elem? bs 0 ≡ some 4
      → keys.public_key_bytes ≡ bs
      → check_public c (encode raw_url_encoding bs) keys ≡ loaded keys
  unfolding check_public
  check_public-same bs keys h len first same =
      let t = encode raw_url_encoding bs in
      let filled : text_eq (trim_space t) [] ≡ false =
        rw (trim_space-IsDense t (IsDense-encode raw_url_encoding bs h))
          (encode-filled bs 64 (len ∙ omega arith)) in
      rw filled (
        rw (decode_flexible-encode raw_url_encoding bs h)
          (rw len (rw first (rw (same, text_eq_refl bs) refl))))

  load_scalar-same :
      (priv : PrivateKey c) (keys : VapidKeys c) (text : Text)
      → IsKeyPair priv
      → new_vapid_keys c priv ≡ loaded keys
      → length (pad_scalar priv.d) ≡ 32
      → load_scalar c text (pad_scalar priv.d) ≡ check_public c text keys
  unfolding load_scalar
  load_scalar-same priv keys text p e len = rw len (rw (p.canonical, p.has_point) (rw e refl))

  -- Keys that were generated, and saved as their two texts, load again as the same keys.
  pub load_vapid_keys-new_vapid_keys :
      (priv : PrivateKey c) (keys : VapidKeys c)
      → IsKeyPair priv
      → new_vapid_keys c priv ≡ loaded keys
      → load_vapid_keys c keys.public_key_base64 keys.private_key_base64 ≡ loaded keys
  unfolding load_vapid_keys
  load_vapid_keys-new_vapid_keys priv keys p e =
      let (len, small, made) = new_vapid_keys-loaded priv keys e in
      let secret = pad_scalar priv.d in
      rw (← made) (
        rw (load_vapid_keys, decode_flexible-encode raw_url_encoding secret p.scalar_bytes)
          (load_scalar-same priv (keys_of c priv) (encode raw_url_encoding (c.marshal priv.point)) p
              (e ∙ ap loaded (sym made)) (length-pad_scalar priv.d small)
            ∙ check_public-same (c.marshal priv.point) (keys_of c priv) p.point_bytes len
                p.uncompressed refl))
