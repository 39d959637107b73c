-- ===== src/Push/Encrypt.antt =====
-- internal/push/encrypt.go: EncryptPayload and DecryptPayload.
use gocord.Base.{
  ℕ, ◌+◌, ◌%◌, ◌/◌, Bool, not, ◌&&◌, ◌||◌, List, [], ◌∷◌, ◌++◌, Option, none, some, option_or,
  length, get_elem?, take, drop, replicate, ltb, ◌==◌, if◌then◌else◌,
}
use gocord.Base.Assoc.{codes}
use gocord.Rooms.State.{Reader}
use gocord.Push.Crypto.{Crypto}
use gocord.Push.Hkdf.{hkdf_extract, hkdf_expand}

abbrev pub record_size : ℕ
record_size = 4096

abbrev pub header_len : ℕ
header_len = 86

pub data PushError : Type 0 where
  invalid_key_length : PushError
  invalid_auth_length : PushError
  invalid_payload : PushError
  invalid_public_key : PushError
  no_sender_key : PushError
  no_secret : PushError
  no_salt : PushError
  bad_cipher_key : PushError
  not_authentic : PushError

pub data Bytes : Type 0 where
  bytes : List ℕ → Bytes
  failed : PushError → Bytes

-- `copy` into a slice of that many zero bytes.
unfoldable pub fit : ℕ → List ℕ → List ℕ
fit n xs = take n (xs ++ replicate n 0)

-- binary.BigEndian.PutUint32.
abbrev pub big_endian_32 : ℕ → List ℕ
big_endian_32 n = n / 16777216 % 256 ∷ n / 65536 % 256 ∷ n / 256 % 256 ∷ n % 256 ∷ []

-- aes.NewCipher takes keys of these lengths.
abbrev pub is_aes_key : List ℕ → Bool
is_aes_key key = length key == 16 || length key == 24 || length key == 32

abbrev pub key_info : List ℕ → List ℕ → List ℕ
key_info ua_pub as_pub = codes "WebPush: info" ++ (0 ∷ (ua_pub ++ as_pub))

-- The end of DecryptPayload: the bytes before the last one that is not zero, and that one.
unfoldable pub last_nonzero : List ℕ → Option (List ℕ × ℕ)
last_nonzero [] = none
last_nonzero (b ∷ bs) = elim (last_nonzero bs) [
  | none ↦ if b == 0 then none else some ([], b)
  | some (before, d) ↦ some (b ∷ before, d)
]

unfoldable pub unpad : List ℕ → Bytes
unfolding last_nonzero
unpad plaintext_record = elim (last_nonzero plaintext_record) [
  | none ↦ failed invalid_payload
  | some (before, d) ↦ if not (d == 2) && not (d == 1) then failed invalid_payload else bytes before
]

abbrev pub cek_info : List ℕ
cek_info = codes "Content-Encoding: aes128gcm" ++ 0 ∷ []

abbrev pub nonce_info : List ℕ
nonce_info = codes "Content-Encoding: nonce" ++ 0 ∷ []

module _ (c : Crypto) where
  -- The key and the nonce that both sides derive: prk of the salt and the secret, cek and nonce.
  unfoldable pub derive_prk : List ℕ → List ℕ → List ℕ → List ℕ → List ℕ → List ℕ
  unfolding hkdf_extract hkdf_expand
  derive_prk salt auth secret ua_pub as_pub =
      let ikm = hkdf_expand c (hkdf_extract c (some auth) secret) (key_info ua_pub as_pub) 32 in
      hkdf_extract c (some salt) ikm

  unfoldable pub derive_cek : List ℕ → List ℕ
  unfolding hkdf_expand
  derive_cek prk = hkdf_expand c prk cek_info 16

  unfoldable pub derive_nonce : List ℕ → List ℕ
  unfolding hkdf_expand
  derive_nonce prk = hkdf_expand c prk nonce_info 12

  -- EncryptPayload from the derivation of the keys on.
  unfoldable pub seal_payload : List ℕ → List ℕ → List ℕ → List ℕ → List ℕ → List ℕ → Bytes
  unfolding derive_prk derive_cek derive_nonce fit
  seal_payload salt auth secret ua_pub as_pub plaintext =
      let prk = derive_prk salt auth secret ua_pub as_pub in
      if not (is_aes_key (derive_cek prk))
      then failed bad_cipher_key
      else bytes (
          fit 16 salt
          ++ (big_endian_32 record_size
              ++ (length as_pub % 256
                  ∷ (fit 65 as_pub
                      ++ c.seal (derive_cek prk) (derive_nonce prk) (plaintext ++ 2 ∷ [])))))

  -- The sender's new key is an argument, none if GenerateKey fails; `read` is rand.Read.
  unfoldable pub encrypt_payload : List ℕ → List ℕ → List ℕ → Option c.PrivateKey → Reader → Bytes
  unfolding seal_payload
  encrypt_payload ua_pub auth plaintext as_priv read =
      if not (length ua_pub == 65) || not (option_or (get_elem? ua_pub 0) 0 == 4)
      then failed invalid_key_length
      else if not (length auth == 16)
      then failed invalid_auth_length
      else if not (c.is_public_key ua_pub)
      then failed invalid_public_key
      else elim as_priv [
        | none ↦ failed no_sender_key
        | some d ↦ elim (c.ecdh d ua_pub) [
          | none ↦ failed no_secret
          | some secret ↦ elim (read 16) [
            | none ↦ failed no_salt
            | some salt ↦ seal_payload salt auth secret ua_pub (c.public_key d) plaintext
          ]
        ]
      ]

  unfoldable pub open_record : List ℕ → List ℕ → List ℕ → Bytes
  unfolding unpad
  open_record cek nonce ciphertext =
      if not (is_aes_key cek)
      then failed bad_cipher_key
      else elim (c.open_sealed cek nonce ciphertext) [
        | none ↦ failed not_authentic
        | some plaintext_record ↦ unpad plaintext_record
      ]

  -- DecryptPayload from the derivation of the keys on.
  unfoldable pub open_payload : List ℕ → List ℕ → List ℕ → List ℕ → List ℕ → List ℕ → Bytes
  unfolding derive_prk derive_cek derive_nonce open_record
  open_payload salt auth secret ua_pub as_pub ciphertext =
      let prk = derive_prk salt auth secret ua_pub as_pub in
      open_record (derive_cek prk) (derive_nonce prk) ciphertext

  -- DecryptPayload once the sender's key is read from the header.
  unfoldable pub decrypt_from : c.PrivateKey → List ℕ → List ℕ → List ℕ → List ℕ → Bytes
  unfolding open_payload
  decrypt_from ua_priv auth salt as_pub ciphertext =
      if not (c.is_public_key as_pub)
      then failed invalid_public_key
      else elim (c.ecdh ua_priv as_pub) [
        | none ↦ failed no_secret
        | some secret ↦ open_payload salt auth secret (c.public_key ua_priv) as_pub ciphertext
      ]

  -- DecryptPayload once the length of that key is read from the header.
  unfoldable pub decrypt_at : c.PrivateKey → List ℕ → List ℕ → ℕ → Bytes
  unfolding decrypt_from
  decrypt_at ua_priv auth encrypted id_len =
      if not (id_len == 65) || ltb (length encrypted) (21 + id_len + 16)
      then failed invalid_payload
      else decrypt_from ua_priv auth (take 16 encrypted) (take id_len (drop 21 encrypted))
          (drop (21 + id_len) encrypted)

  -- The record size is read and not used. An empty record is refused by `unpad` too.
  unfoldable pub decrypt_payload : c.PrivateKey → List ℕ → List ℕ → Bytes
  unfolding decrypt_at
  decrypt_payload ua_priv auth encrypted =
      if ltb (length encrypted) (header_len + 17)
      then failed invalid_payload
      else decrypt_at ua_priv auth encrypted (option_or (get_elem? encrypted 20) 0)
