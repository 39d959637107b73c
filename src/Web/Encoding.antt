-- ===== src/Web/Encoding.antt =====
-- web/ui.go: urlBase64ToUint8Array, encodeBase64URL and decodeBase64URL, with atob and btoa of the
-- browser. A binary string and a Uint8Array are lists of bytes.
use gocord.Base.{
  ℕ, suc, ◌+◌, ◌-◌, ◌*◌, ◌/◌, ◌%◌, ◌≡◌, ◌<◌, refl, ap, ◌∙◌, Bool, true, false, not, ◌||◌, List, [],
  ◌∷◌, ◌++◌, Option, some, length, if◌then◌else◌, ◌==◌, map, keep, All, replicate, arith,
}
use gocord.Base.Assoc.{Text}
use gocord.Base64.{
  encode, encode_char, decode_quanta, raw_url_encoding, raw_std_encoding, std_encoding,
}
use gocord.Base64.Chars.{IsByte, encode_char_plain}
use gocord.Base64.RoundTrip.{decode_quanta-encode}

-- replace(/-/g, "+").replace(/_/g, "/"), on a character, and the way back.
unfoldable pub to_std : ℕ → ℕ
to_std c = if c == b'-' then b'+' else if c == b'_' then b'/' else c

unfoldable pub to_url : ℕ → ℕ
to_url c = if c == b'+' then b'-' else if c == b'/' then b'_' else c

-- replace(/=+$/, "").
unfoldable pub strip_pads : Text → Text
strip_pads [] = []
strip_pads (c ∷ s) = elim (strip_pads s) [
  | [] ↦ if c == b'=' then [] else c ∷ []
  | d ∷ t ↦ c ∷ d ∷ t
]

-- A text without a last "=".
unfoldable pub drop_pad : Text → Text
drop_pad [] = []
drop_pad (c ∷ []) = if c == b'=' then [] else c ∷ []
drop_pad (c ∷ d ∷ s) = c ∷ drop_pad (d ∷ s)

abbrev pub is_ascii_space : ℕ → Bool
is_ascii_space c = c == 9 || c == 10 || c == 12 || c == 13 || c == 32

-- atob: the forgiving decoder, which skips white space, and takes at most two "=" off a text of
-- whole quanta.
unfoldable pub atob : Text → Option (List ℕ)
unfolding drop_pad decode_quanta
atob s =
    let dense = keep (λ c. not (is_ascii_space c)) s in
    decode_quanta raw_std_encoding
      (if length dense % 4 == 0 then drop_pad (drop_pad dense) else dense)

unfoldable pub pad_length : ℕ → ℕ
pad_length n = (4 - n % 4) % 4

-- urlBase64ToUint8Array. The loop of decodeBase64URL adds the same padding.
unfoldable pub url_base64_to_uint8_array : Text → Option (List ℕ)
unfolding to_std atob pad_length
url_base64_to_uint8_array s = atob (map to_std (s ++ replicate (pad_length (length s)) b'='))

-- encodeBase64URL after the conversion to bytes.
unfoldable pub encode_base64_url : List ℕ → Text
unfolding strip_pads to_url encode
encode_base64_url bytes = strip_pads (map to_url (encode std_encoding bytes))

to_url-encode_char : (n : ℕ) → n < 64 → to_url (encode_char false n) ≡ encode_char true n
unfolding to_url encode_char
to_url-encode_char n h = ground arith

to_std-encode_char : (n : ℕ) → n < 64 → to_std (encode_char true n) ≡ encode_char false n
unfolding to_std encode_char
to_std-encode_char n h = ground arith

-- encodeBase64URL writes what Go's RawURLEncoding writes.
strip_keep : (c : ℕ) (s : Text) → (c == b'=') ≡ false → strip_pads (c ∷ s) ≡ c ∷ strip_pads s
unfolding strip_pads
strip_keep c s h = ground arith

module _ (n : ℕ) (h : n < 64) where
  strip_code :
      (s : Text) → strip_pads (to_url (encode_char false n) ∷ s) ≡ encode_char true n ∷ strip_pads s
  strip_code s =
      rw (to_url-encode_char n h) (strip_keep (encode_char true n) s (encode_char_plain true n h).0)

-- encodeBase64URL writes what Go's RawURLEncoding writes.
pub encode_base64_url_lem :
    (bytes : List ℕ) → All IsByte bytes → encode_base64_url bytes ≡ encode raw_url_encoding bytes
unfolding encode_base64_url encode
encode_base64_url_lem [] h = refl
encode_base64_url_lem (a ∷ []) h =
    rw (strip_code (a / 4) (omega arith), strip_code (a % 4 * 16) (omega arith)) refl
encode_base64_url_lem (a ∷ b ∷ []) h =
    rw
      (
        strip_code (a / 4) (omega arith),
        strip_code (a % 4 * 16 + b / 16) (omega arith),
        strip_code (b % 16 * 4) (omega arith),
      )
      refl
encode_base64_url_lem (a ∷ b ∷ c ∷ rest) h =
    rw
      (
        strip_code (a / 4) (omega arith),
        strip_code (a % 4 * 16 + b / 16) (omega arith),
        strip_code (b % 16 * 4 + c / 64) (omega arith),
        strip_code (c % 64) (omega arith),
        encode_base64_url_lem rest h.1.1.1,
      )
      refl

pad_length-add_four : (n : ℕ) → pad_length (suc (suc (suc (suc n)))) ≡ pad_length n
unfolding pad_length
pad_length-add_four n = omega arith

-- The padding that is added makes it the padded encoding.
pad-encode :
    (bytes : List ℕ)
    → All IsByte bytes
    → map to_std (
        encode raw_url_encoding bytes
        ++ replicate (pad_length (length (encode raw_url_encoding bytes))) b'=')
      ≡ encode std_encoding bytes
unfolding encode pad_length to_std
pad-encode [] h = refl
pad-encode (a ∷ []) h =
    rw (to_std-encode_char (a / 4) (omega arith), to_std-encode_char (a % 4 * 16) (omega arith))
      refl
pad-encode (a ∷ b ∷ []) h =
    rw
      (
        to_std-encode_char (a / 4) (omega arith),
        to_std-encode_char (a % 4 * 16 + b / 16) (omega arith),
        to_std-encode_char (b % 16 * 4) (omega arith),
      )
      refl
pad-encode (a ∷ b ∷ c ∷ rest) h =
    rw
      (
        to_std-encode_char (a / 4) (omega arith),
        to_std-encode_char (a % 4 * 16 + b / 16) (omega arith),
        to_std-encode_char (b % 16 * 4 + c / 64) (omega arith),
        to_std-encode_char (c % 64) (omega arith),
        pad_length-add_four (length (encode raw_url_encoding rest)),
        pad-encode rest h.1.1.1,
      )
      refl

is_kept : (n : ℕ) → n < 64 → not (is_ascii_space (encode_char false n)) ≡ true
unfolding encode_char
is_kept n h = ground arith

keep-encode :
    (bytes : List ℕ)
    → All IsByte bytes
    → keep (λ c. not (is_ascii_space c)) (encode std_encoding bytes) ≡ encode std_encoding bytes
unfolding encode
keep-encode [] h = refl
keep-encode (a ∷ []) h = rw (is_kept (a / 4) (omega arith), is_kept (a % 4 * 16) (omega arith)) refl
keep-encode (a ∷ b ∷ []) h =
    rw
      (
        is_kept (a / 4) (omega arith),
        is_kept (a % 4 * 16 + b / 16) (omega arith),
        is_kept (b % 16 * 4) (omega arith),
      )
      refl
keep-encode (a ∷ b ∷ c ∷ rest) h =
    rw
      (
        is_kept (a / 4) (omega arith),
        is_kept (a % 4 * 16 + b / 16) (omega arith),
        is_kept (b % 16 * 4 + c / 64) (omega arith),
        is_kept (c % 64) (omega arith),
        keep-encode rest h.1.1.1,
      )
      refl

encode-whole : (bytes : List ℕ) → (length (encode std_encoding bytes) % 4 == 0) ≡ true
unfolding encode
encode-whole [] = refl
encode-whole (a ∷ []) = refl
encode-whole (a ∷ b ∷ []) = refl
encode-whole (a ∷ b ∷ c ∷ rest) = ground (arith, encode-whole rest)

drop_keep : (c : ℕ) (s : Text) → (c == b'=') ≡ false → drop_pad (c ∷ s) ≡ c ∷ drop_pad s
unfolding drop_pad
drop_keep c [] h = rw h refl
drop_keep c (d ∷ s) h = refl

-- What atob takes off a text of whole quanta.
drop_pads : Text → Text
drop_pads s = drop_pad (drop_pad s)

module _ (n : ℕ) (h : n < 64) where
  drop_code : (s : Text) → drop_pads (encode_char false n ∷ s) ≡ encode_char false n ∷ drop_pads s
  unfolding drop_pads
  drop_code s =
      let plain = (encode_char_plain false n h).0 in
      rw (drop_keep (encode_char false n) s plain)
        (drop_keep (encode_char false n) (drop_pad s) plain)

drop_pads-encode :
    (bytes : List ℕ)
    → All IsByte bytes
    → drop_pads (encode std_encoding bytes) ≡ encode raw_std_encoding bytes
unfolding encode
drop_pads-encode [] h = unfold drop_pads in unfold drop_pad in refl
drop_pads-encode (a ∷ []) h =
    rw (drop_code (a / 4) (omega arith), drop_code (a % 4 * 16) (omega arith))
      (unfold drop_pads in unfold drop_pad in refl)
drop_pads-encode (a ∷ b ∷ []) h =
    rw
      (
        drop_code (a / 4) (omega arith),
        drop_code (a % 4 * 16 + b / 16) (omega arith),
        drop_code (b % 16 * 4) (omega arith),
      )
      (unfold drop_pads in unfold drop_pad in refl)
drop_pads-encode (a ∷ b ∷ c ∷ rest) h =
    rw
      (
        drop_code (a / 4) (omega arith),
        drop_code (a % 4 * 16 + b / 16) (omega arith),
        drop_code (b % 16 * 4 + c / 64) (omega arith),
        drop_code (c % 64) (omega arith),
        drop_pads-encode rest h.1.1.1,
      )
      refl

atob-encode : (bytes : List ℕ) → All IsByte bytes → atob (encode std_encoding bytes) ≡ some bytes
unfolding atob drop_pads
atob-encode bytes h =
    rw (keep-encode bytes h, encode-whole bytes, drop_pads-encode bytes h)
      (decode_quanta-encode raw_std_encoding bytes h)

-- The bytes that a text of Go's RawURLEncoding stands for, such as the server's public key, are
-- those that urlBase64ToUint8Array gives; and encodeBase64URL writes that same text for them.
pub url_base64_to_uint8_array-encode :
    (bytes : List ℕ)
    → All IsByte bytes
    → (url_base64_to_uint8_array (encode raw_url_encoding bytes) ≡ some bytes)
      × (encode_base64_url bytes ≡ encode raw_url_encoding bytes)
unfolding url_base64_to_uint8_array
url_base64_to_uint8_array-encode bytes h =
    (ap atob (pad-encode bytes h) ∙ atob-encode bytes h, encode_base64_url_lem bytes h)

-- A property of every character of the alphabet is one of every encoded text.
pub All-encode {ℓ} :
    (P : ℕ → Type ℓ)
    → ((n : ℕ) → n < 64 → P (encode_char true n))
    → (bytes : List ℕ) → All IsByte bytes
    → All P (encode raw_url_encoding bytes)
unfolding encode
All-encode P p [] h = tt
All-encode P p (a ∷ []) h = (p (a / 4) (omega arith), (p (a % 4 * 16) (omega arith), tt))
All-encode P p (a ∷ b ∷ []) h = (
  p (a / 4) (omega arith),
  (p (a % 4 * 16 + b / 16) (omega arith), (p (b % 16 * 4) (omega arith), tt)),
)
All-encode P p (a ∷ b ∷ c ∷ rest) h = (
  p (a / 4) (omega arith),
  (
    p (a % 4 * 16 + b / 16) (omega arith),
    (
      p (b % 16 * 4 + c / 64) (omega arith),
      (p (c % 64) (omega arith), All-encode P p rest h.1.1.1),
    ),
  ),
)
