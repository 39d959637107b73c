-- ===== src/Push/Vapid.antt =====
-- internal/push/vapid.go: DecodeBase64Flexible, and the VAPID keys, whose curve is the record Curve.
use gocord.Base.{
  ℕ, ◌-◌, not, ◌||◌, List, [], ◌∷◌, ◌++◌, Option, none, some, option_or, length, get_elem?,
  replicate, ltb, ◌==◌, if◌then◌else◌,
}
use gocord.Base.Assoc.{Text, text_eq}
use gocord.Base64.{encode, decode, raw_url_encoding, url_encoding, raw_std_encoding, std_encoding}
use gocord.Text.{trim_space}

-- The first of two results that is no error.
abbrev pub or_else : Option (List ℕ) → Option (List ℕ) → Option (List ℕ)
or_else none r = r
or_else (some b) r = some b

-- DecodeBase64Flexible.
unfoldable pub decode_flexible : Text → Option (List ℕ)
unfolding trim_space decode
decode_flexible s =
    let t = trim_space s in
    or_else (decode raw_url_encoding t) (
      or_else (decode url_encoding t) (or_else (decode raw_std_encoding t) (decode std_encoding t)))

-- crypto/elliptic's P-256: points, ScalarBaseMult and Marshal.
pub record Curve : Type 1 where
  pub Point : Type 0
  pub scalar_base_mult : List ℕ → Point
  pub marshal : Point → List ℕ

pub data VapidError : Type 0 where
  private_not_base64 : VapidError
  private_not_32_bytes : VapidError
  public_not_base64 : VapidError
  public_not_65_bytes : VapidError
  keys_do_not_match : VapidError
  bad_marshaled_length : VapidError
  scalar_too_large : VapidError
  no_vapid_key : VapidError

-- big.Int's SetBytes. A big.Int that is not negative is the list of its digits in base 256, the
-- first one not zero; Bytes is that list.
unfoldable pub set_bytes : List ℕ → List ℕ
set_bytes [] = []
set_bytes (b ∷ bs) = let rest = set_bytes bs in if b == 0 then rest else b ∷ bs

-- The padding of the scalar to 32 bytes.
unfoldable pub pad_scalar : List ℕ → List ℕ
pad_scalar d = if ltb (length d) 32 then replicate (32 - length d) 0 ++ d else d

module _ (c : Curve) where
  -- An *ecdsa.PrivateKey: the scalar and the point of its public key.
  pub record PrivateKey : Type 0 where
    pub d : List ℕ
    pub point : c.Point

  pub record VapidKeys : Type 0 where
    pub private_key : PrivateKey
    pub public_key_bytes : List ℕ
    pub public_key_base64 : Text
    pub private_key_base64 : Text

  pub data Loaded : Type 0 where
    loaded : VapidKeys → Loaded
    rejected : VapidError → Loaded

  abbrev pub keys_of : PrivateKey → VapidKeys
  keys_of priv = record {
    private_key = priv;
    public_key_bytes = c.marshal priv.point;
    public_key_base64 = encode raw_url_encoding (c.marshal priv.point);
    private_key_base64 = encode raw_url_encoding (pad_scalar priv.d);
  }

  -- newVAPIDKeysFromPrivate.
  unfoldable pub new_vapid_keys : PrivateKey → Loaded
  unfolding pad_scalar encode
  new_vapid_keys priv =
      if not (length (c.marshal priv.point) == 65)
      then rejected bad_marshaled_length
      else if ltb 32 (length priv.d)
      then rejected scalar_too_large
      else loaded (keys_of priv)

  -- GenerateVAPIDKeys, given what ecdsa.GenerateKey answers.
  unfoldable pub generate_vapid_keys : Option PrivateKey → Loaded
  unfolding new_vapid_keys
  generate_vapid_keys none = rejected no_vapid_key
  generate_vapid_keys (some priv) = new_vapid_keys priv

  -- The end of LoadVAPIDKeys: a public key that is given must be the one that is derived.
  unfoldable pub check_public : Text → VapidKeys → Loaded
  unfolding trim_space decode_flexible
  check_public pub_key_b64 keys =
      if text_eq (trim_space pub_key_b64) []
      then loaded keys
      else elim (decode_flexible pub_key_b64) [
        | none ↦ rejected public_not_base64
        | some expected ↦
            if not (length expected == 65) || not (option_or (get_elem? expected 0) 0 == 4)
            then rejected public_not_65_bytes
            else if not (text_eq expected keys.public_key_bytes)
            then rejected keys_do_not_match
            else loaded keys
      ]

  abbrev check_loaded : Text → Loaded → Loaded
  check_loaded pub_key_b64 (rejected e) = rejected e
  check_loaded pub_key_b64 (loaded keys) = check_public pub_key_b64 keys

  -- LoadVAPIDKeys once the private key is decoded.
  unfoldable pub load_scalar : Text → List ℕ → Loaded
  unfolding set_bytes new_vapid_keys check_public
  load_scalar pub_key_b64 priv_bytes =
      if not (length priv_bytes == 32)
      then rejected private_not_32_bytes
      else check_loaded pub_key_b64 (
          new_vapid_keys
            (record { d = set_bytes priv_bytes; point = c.scalar_base_mult priv_bytes }))

  unfoldable pub load_vapid_keys : Text → Text → Loaded
  unfolding decode_flexible load_scalar
  load_vapid_keys pub_key_b64 priv_key_b64 = elim (decode_flexible priv_key_b64) [
    | none ↦ rejected private_not_base64
    | some priv_bytes ↦ load_scalar pub_key_b64 priv_bytes
  ]
