-- ===== src/Push/Tests.antt =====
-- Runs of internal/push at concrete inputs. The cryptography is a toy one: one key for everybody, a
-- ciphertext that is the plaintext with 16 bytes after it.
use gocord.Base.{
  ℕ, ◌-◌, ◌≡◌, refl, ap, true, List, [], ◌∷◌, ◌++◌, some, length, length-append, take, take-append,
  replicate, subst, arith,
}
use gocord.Base.Assoc.{codes}
use gocord.Base64.{encode, encode_char, std_encoding}
use gocord.Push.Crypto.{Crypto, CryptoIsLawful}
use gocord.Push.Hkdf.{hkdf_expand, length-hkdf_expand}
use gocord.Push.Encrypt.{
  bytes, encrypt_payload, decrypt_payload, last_nonzero, unpad, failed, invalid_payload,
}
use gocord.Push.RoundTrip.{decrypt_payload-encrypt_payload}
use gocord.Push.Vapid.{Curve, PrivateKey, decode_flexible, set_bytes, pad_scalar}
use gocord.Push.Flexible.{decode_flexible-encode}
use gocord.Push.Keys.{IsKeyPair}

abbrev toy : Crypto
toy = record {
  hmac = λ key text. replicate 32 7;
  PrivateKey = ℕ;
  public_key = λ d. 4 ∷ replicate 64 9;
  is_public_key = λ p. true;
  ecdh = λ d p. some (3 ∷ []);
  seal = λ key nonce text. text ++ replicate 16 5;
  open_sealed = λ key nonce sealed. some (take (length sealed - 16) sealed);
}

toy-open :
    (text : List ℕ) → take (length (text ++ replicate 16 5) - 16) (text ++ replicate 16 5) ≡ text
toy-open text =
    let e : length text ≡ length (text ++ replicate 16 5) - 16 =
      omega (arith, length-append text (replicate 16 5)) in
    subst (λ (k : ℕ). take k (text ++ replicate 16 5) ≡ text) e (take-append text (replicate 16 5))

toy-IsLawful : CryptoIsLawful toy
toy-IsLawful = record {
  length-hmac = λ key text. refl;
  length-public_key = λ d. refl;
  first-public_key = λ d. refl;
  is_public_key-public_key = λ d. refl;
  ecdh_comm = λ a b. refl;
  length-seal = λ key nonce text. length-append text (replicate 16 5);
  open_sealed-seal = λ key nonce text hk hn. ap some (toy-open text);
}

unpad_tests :
    (unpad (1 ∷ 2 ∷ 2 ∷ 0 ∷ 0 ∷ []) ≡ bytes (1 ∷ 2 ∷ []))
    × (unpad (1 ∷ 0 ∷ []) ≡ bytes [])
    × (unpad (1 ∷ 3 ∷ 0 ∷ []) ≡ failed invalid_payload)
unfolding unpad last_nonzero
unpad_tests = (refl, refl, refl)

length-hkdf_expand_example : length (hkdf_expand toy (codes "k") (codes "i") 42) ≡ 42
length-hkdf_expand_example = length-hkdf_expand toy toy-IsLawful (codes "k") (codes "i") 42

decrypt_payload-encrypt_payload_example :
    (encrypted : List ℕ) × (encrypt_payload toy
        (4 ∷ replicate 64 9)
        (replicate 16 1)
        (codes "ring")
        (some 2)
        (λ n. some (replicate n 8))
      ≡ bytes encrypted)
    × (decrypt_payload toy 1 (replicate 16 1) encrypted ≡ bytes (codes "ring"))
decrypt_payload-encrypt_payload_example =
    decrypt_payload-encrypt_payload toy toy-IsLawful 1 2 (replicate 16 1) (codes "ring") (3 ∷ [])
      (replicate 16 8) (λ n. some (replicate n 8)) refl refl refl refl

decode_flexible-encode_example : decode_flexible (codes "Zm8=") ≡ some (codes "fo")
unfolding encode encode_char
decode_flexible-encode_example =
    decode_flexible-encode std_encoding (codes "fo") (omega arith, (omega arith, tt))

abbrev toy_curve : Curve
toy_curve = record { Point = Unit; scalar_base_mult = λ d. tt; marshal = λ p. 4 ∷ replicate 64 9 }

-- The scalar 1.
abbrev one : PrivateKey toy_curve
one = record { d = 1 ∷ []; point = tt }

one-IsKeyPair : IsKeyPair toy_curve one
unfolding pad_scalar set_bytes
one-IsKeyPair = record {
  canonical = refl;
  scalar_bytes = grind arith;
  has_point = refl;
  point_bytes = grind arith;
  uncompressed = refl;
}
