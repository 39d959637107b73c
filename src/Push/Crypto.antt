-- ===== src/Push/Crypto.antt =====
-- The cryptography that internal/push/encrypt.go takes from Go's standard library: HMAC with
-- SHA-256, the curve P-256 (crypto/ecdh) and AES-GCM. Messages and public keys are lists of bytes.
use gocord.Base.{ℕ, ◌+◌, ◌≡◌, Bool, true, List, Option, some, length, get_elem?}

pub record Crypto : Type 1 where
  -- hmac.New(sha256.New, key), Write and Sum.
  pub hmac : List ℕ → List ℕ → List ℕ
  -- *ecdh.PrivateKey, and PublicKey().Bytes() of it.
  pub PrivateKey : Type 0
  pub public_key : PrivateKey → List ℕ
  -- Whether curve.NewPublicKey accepts the bytes.
  pub is_public_key : List ℕ → Bool
  -- ECDH of a private key and the bytes of a public key; none is its error.
  pub ecdh : PrivateKey → List ℕ → Option (List ℕ)
  -- Seal and Open of GCM with a key and a nonce, without additional data.
  pub seal : List ℕ → List ℕ → List ℕ → List ℕ
  pub open_sealed : List ℕ → List ℕ → List ℕ → Option (List ℕ)

-- What their documentation says of them.
pub record CryptoIsLawful (c : Crypto) : Type 0 where
  pub length-hmac : (key text : List ℕ) → length (c.hmac key text) ≡ 32
  pub length-public_key : (d : c.PrivateKey) → length (c.public_key d) ≡ 65
  -- The uncompressed form of a point.
  pub first-public_key : (d : c.PrivateKey) → get_elem? (c.public_key d) 0 ≡ some 4
  pub is_public_key-public_key : (d : c.PrivateKey) → c.is_public_key (c.public_key d) ≡ true
  pub ecdh_comm : (a b : c.PrivateKey) → c.ecdh a (c.public_key b) ≡ c.ecdh b (c.public_key a)
  pub length-seal : (key nonce text : List ℕ) → length (c.seal key nonce text) ≡ length text + 16
  pub open_sealed-seal :
      (key nonce text : List ℕ)
      → length key ≡ 16
      → length nonce ≡ 12
      → c.open_sealed key nonce (c.seal key nonce text) ≡ some text
