-- ===== src/Push/RoundTrip.antt =====
-- internal/push/encrypt.go: DecryptPayload undoes EncryptPayload.
use gocord.Base.{
  ℕ, ◌+◌, ◌≤◌, ◌≡◌, refl, ap, ◌∙◌, true, false, List, [], ◌∷◌, ◌++◌, some, option_or, length,
  length-append, get_elem?, take, take-append, drop, drop-append, replicate, ltb, append_assoc,
  arith, subst,
}
use gocord.Rooms.State.{Reader}
use gocord.Push.Crypto.{Crypto, CryptoIsLawful}
use gocord.Push.Hkdf.{length-hkdf_expand}
use gocord.Push.Encrypt.{
  bytes, fit, last_nonzero, unpad, derive_prk, derive_cek, derive_nonce, seal_payload,
  encrypt_payload, open_payload, open_record, decrypt_payload, decrypt_at, decrypt_from, cek_info,
  nonce_info,
}

fit_same : (n : ℕ) (xs : List ℕ) → length xs ≡ n → fit n xs ≡ xs
unfolding fit
fit_same n xs e =
    subst (λ (k : ℕ). take k (xs ++ replicate k 0) ≡ xs) e
      (take-append xs (replicate (length xs) 0))

take-append_at : (n : ℕ) (xs ys : List ℕ) → length xs ≡ n → take n (xs ++ ys) ≡ xs
take-append_at n xs ys e = subst (λ (k : ℕ). take k (xs ++ ys) ≡ xs) e (take-append xs ys)

drop-append_at : (n : ℕ) (xs ys : List ℕ) → length xs ≡ n → drop n (xs ++ ys) ≡ ys
drop-append_at n xs ys e = subst (λ (k : ℕ). drop k (xs ++ ys) ≡ ys) e (drop-append xs ys)

get_elem?-append :
    (xs : List ℕ) (b : ℕ) (ys : List ℕ) → get_elem? (xs ++ b ∷ ys) (length xs) ≡ some b
get_elem?-append [] b ys = refl
get_elem?-append (x ∷ xs) b ys = get_elem?-append xs b ys

get_elem?-append_at :
    (n : ℕ) (xs : List ℕ) (b : ℕ) (ys : List ℕ)
    → length xs ≡ n
    → get_elem? (xs ++ b ∷ ys) n ≡ some b
get_elem?-append_at n xs b ys e =
    subst (λ (k : ℕ). get_elem? (xs ++ b ∷ ys) k ≡ some b) e (get_elem?-append xs b ys)

last_nonzero-append : (text : List ℕ) → last_nonzero (text ++ 2 ∷ []) ≡ some (text, 2)
unfolding last_nonzero
last_nonzero-append [] = refl
last_nonzero-append (b ∷ text) = rw (last_nonzero-append text)

unpad-append : (text : List ℕ) → unpad (text ++ 2 ∷ []) ≡ bytes text
unfolding unpad
unpad-append text = rw (unpad, last_nonzero-append text)

-- The message of a sender: salt, record size, length of the key, key, ciphertext.
abbrev layout : List ℕ → List ℕ → List ℕ → List ℕ
layout salt as_pub sealed = salt ++ 0 ∷ 0 ∷ 16 ∷ 0 ∷ 65 ∷ (as_pub ++ sealed)

module _ (salt as_pub sealed : List ℕ) (hs : length salt ≡ 16) (ha : length as_pub ≡ 65) where
  length-layout : length (layout salt as_pub sealed) ≡ 86 + length sealed
  length-layout = omega (
    arith,
    length-append salt (0 ∷ 0 ∷ 16 ∷ 0 ∷ 65 ∷ (as_pub ++ sealed)),
    length-append as_pub sealed,
  )

  id_len-layout : get_elem? (layout salt as_pub sealed) 20 ≡ some 65
  id_len-layout = rw (← append_assoc salt (0 ∷ 0 ∷ 16 ∷ 0 ∷ []) (65 ∷ (as_pub ++ sealed))) (
      get_elem?-append_at 20 (salt ++ 0 ∷ 0 ∷ 16 ∷ 0 ∷ []) 65 (as_pub ++ sealed)
        (omega (arith, length-append salt (0 ∷ 0 ∷ 16 ∷ 0 ∷ []))))

  salt-layout : take 16 (layout salt as_pub sealed) ≡ salt
  salt-layout = take-append_at 16 salt (0 ∷ 0 ∷ 16 ∷ 0 ∷ 65 ∷ (as_pub ++ sealed)) hs

  key-layout : take 65 (drop 21 (layout salt as_pub sealed)) ≡ as_pub
  key-layout = rw (← append_assoc salt (0 ∷ 0 ∷ 16 ∷ 0 ∷ 65 ∷ []) (as_pub ++ sealed)) (
      ap (take 65) (
        drop-append_at 21 (salt ++ 0 ∷ 0 ∷ 16 ∷ 0 ∷ 65 ∷ []) (as_pub ++ sealed)
          (omega (arith, length-append salt (0 ∷ 0 ∷ 16 ∷ 0 ∷ 65 ∷ []))))
      ∙ take-append_at 65 as_pub sealed ha)

  sealed-layout : drop 86 (layout salt as_pub sealed) ≡ sealed
  sealed-layout = rw (← append_assoc salt (0 ∷ 0 ∷ 16 ∷ 0 ∷ 65 ∷ as_pub) sealed) (
      drop-append_at 86 (salt ++ 0 ∷ 0 ∷ 16 ∷ 0 ∷ 65 ∷ as_pub) sealed
        (omega (arith, length-append salt (0 ∷ 0 ∷ 16 ∷ 0 ∷ 65 ∷ as_pub))))

module _ (c : Crypto) where
  decrypt_from_lem :
      (salt as_pub sealed auth secret : List ℕ) (ua_priv : c.PrivateKey)
      → c.is_public_key as_pub ≡ true
      → c.ecdh ua_priv as_pub ≡ some secret
      → decrypt_from c ua_priv auth salt as_pub sealed
        ≡ open_payload c salt auth secret (c.public_key ua_priv) as_pub sealed
  unfolding decrypt_from
  decrypt_from_lem salt as_pub sealed auth secret ua_priv valid shared = rw valid (rw shared refl)

  decrypt_payload-layout :
      (salt as_pub sealed auth : List ℕ) (ua_priv : c.PrivateKey)
      → length salt ≡ 16
      → length as_pub ≡ 65
      → 17 ≤ length sealed
      → decrypt_payload c ua_priv auth (layout salt as_pub sealed)
        ≡ decrypt_from c ua_priv auth salt as_pub sealed
  unfolding decrypt_payload decrypt_at
  decrypt_payload-layout salt as_pub sealed auth ua_priv hs ha long =
      let whole = layout salt as_pub sealed in
      let len = length-layout salt as_pub sealed hs ha in
      let id_len = ap (λ o. option_or o 0) (id_len-layout salt as_pub sealed hs ha) in
      let long_enough : ltb (length whole) 103 ≡ false = ground arith in
      let long_enough' : ltb (length whole) 102 ≡ false = ground arith in
      let from = λ (s k t : List ℕ). decrypt_from c ua_priv auth s k t in
      rw long_enough (
        ap (decrypt_at c ua_priv auth whole) id_len
        ∙ rw long_enough' (
            ap (λ s. from s (take 65 (drop 21 whole)) (drop 86 whole))
              (salt-layout salt as_pub sealed hs ha)
            ∙ ap (λ k. from salt k (drop 86 whole)) (key-layout salt as_pub sealed hs ha)
            ∙ ap (from salt as_pub) (sealed-layout salt as_pub sealed hs ha)))

  encrypt_payload_lem :
      (ua_pub auth plaintext secret salt : List ℕ) (as_priv : c.PrivateKey) (read : Reader)
      → length ua_pub ≡ 65
      → get_elem? ua_pub 0 ≡ some 4
      → length auth ≡ 16
      → c.is_public_key ua_pub ≡ true
      → c.ecdh as_priv ua_pub ≡ some secret
      → read 16 ≡ some salt
      → encrypt_payload c ua_pub auth plaintext (some as_priv) read
        ≡ seal_payload c salt auth secret ua_pub (c.public_key as_priv) plaintext
  unfolding encrypt_payload
  encrypt_payload_lem ua_pub auth plaintext secret salt as_priv read hu first ha valid shared
        drawn =
      rw hu (rw first (rw ha (rw valid (rw shared (rw drawn refl)))))

  seal_payload-layout :
      (salt auth secret ua_pub as_pub text : List ℕ)
      → length salt ≡ 16
      → length as_pub ≡ 65
      → length (derive_cek c (derive_prk c salt auth secret ua_pub as_pub)) ≡ 16
      → let prk = derive_prk c salt auth secret ua_pub as_pub in
        seal_payload c salt auth secret ua_pub as_pub text
        ≡ bytes
            (layout salt as_pub (c.seal (derive_cek c prk) (derive_nonce c prk) (text ++ 2 ∷ [])))
  unfolding seal_payload
  seal_payload-layout salt auth secret ua_pub as_pub text hs ha hk =
      rw hk (rw (fit_same 16 salt hs) (rw (fit_same 65 as_pub ha) (rw ha refl)))

  module _ (laws : CryptoIsLawful c) where
    length-derive_cek : (prk : List ℕ) → length (derive_cek c prk) ≡ 16
    unfolding derive_cek
    length-derive_cek prk = length-hkdf_expand c laws prk cek_info 16

    length-derive_nonce : (prk : List ℕ) → length (derive_nonce c prk) ≡ 12
    unfolding derive_nonce
    length-derive_nonce prk = length-hkdf_expand c laws prk nonce_info 12

    open_record-seal :
        (key nonce text : List ℕ)
        → length key ≡ 16
        → length nonce ≡ 12
        → open_record c key nonce (c.seal key nonce (text ++ 2 ∷ [])) ≡ bytes text
    unfolding open_record
    open_record-seal key nonce text hk hn =
        rw (hk, open_record)
          (rw (laws.open_sealed-seal key nonce (text ++ 2 ∷ []) hk hn) (unpad-append text))

    open_payload-seal :
        (salt auth secret ua_pub as_pub text : List ℕ)
        → let prk = derive_prk c salt auth secret ua_pub as_pub in
          open_payload c salt auth secret ua_pub as_pub
            (c.seal (derive_cek c prk) (derive_nonce c prk) (text ++ 2 ∷ []))
          ≡ bytes text
    unfolding open_payload
    open_payload-seal salt auth secret ua_pub as_pub text =
        let prk = derive_prk c salt auth secret ua_pub as_pub in
        open_record-seal (derive_cek c prk) (derive_nonce c prk) text (length-derive_cek prk)
          (length-derive_nonce prk)

    -- With lawful cryptography, EncryptPayload for a recipient's public key and a secret of 16
    -- bytes succeeds once the sender's key and a salt of 16 bytes are drawn and the shared secret
    -- computed, and DecryptPayload with the recipient's private key gives the plaintext back.
    pub decrypt_payload-encrypt_payload :
        (ua_priv as_priv : c.PrivateKey) (auth plaintext secret salt : List ℕ) (read : Reader)
        → length auth ≡ 16
        → c.ecdh as_priv (c.public_key ua_priv) ≡ some secret
        → read 16 ≡ some salt
        → length salt ≡ 16
        → (encrypted : List ℕ) × (encrypt_payload c
              (c.public_key ua_priv)
              auth
              plaintext
              (some as_priv)
              read
            ≡ bytes encrypted)
          × (decrypt_payload c ua_priv auth encrypted ≡ bytes plaintext)
    decrypt_payload-encrypt_payload ua_priv as_priv auth plaintext secret salt read ha shared drawn
          hs =
        let ua_pub = c.public_key ua_priv in
        let as_pub = c.public_key as_priv in
        let prk = derive_prk c salt auth secret ua_pub as_pub in
        let sealed = c.seal (derive_cek c prk) (derive_nonce c prk) (plaintext ++ 2 ∷ []) in
        (
          layout salt as_pub sealed,
          encrypt_payload_lem ua_pub auth plaintext secret salt as_priv read
                (laws.length-public_key ua_priv) (laws.first-public_key ua_priv) ha
                (laws.is_public_key-public_key ua_priv) shared drawn
              ∙ seal_payload-layout salt auth secret ua_pub as_pub plaintext hs
                  (laws.length-public_key as_priv) (length-derive_cek prk),
          decrypt_payload-layout salt as_pub sealed auth ua_priv hs (laws.length-public_key as_priv)
                (omega (
                  arith,
                  laws.length-seal (derive_cek c prk) (derive_nonce c prk) (plaintext ++ 2 ∷ []),
                  length-append plaintext (2 ∷ []),
                ))
              ∙ decrypt_from_lem salt as_pub sealed auth secret ua_priv
                  (laws.is_public_key-public_key as_priv) (laws.ecdh_comm ua_priv as_priv ∙ shared)
              ∙ open_payload-seal salt auth secret ua_pub as_pub plaintext,
        )
