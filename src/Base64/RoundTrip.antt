-- ===== src/Base64/RoundTrip.antt =====
-- Decoding what encoding/base64 has encoded, in the same and in another variant.
use gocord.Base.{
  ℕ, ◌+◌, ◌*◌, ◌/◌, ◌%◌, ◌≡◌, refl, inl, inr, Bool, ◌||◌, not, some, List, [], ◌∷◌, ◌==◌, keep, All,
  arith, Bool-cases,
}
use gocord.Base64.{Encoding, encode_char, encode, at_end, decode_quanta, decode, padding}
use gocord.Base64.Chars.{
  IsByte, Agrees, encode_char_plain, decode_two-same, decode_three-same, decode_four-same,
  decode_two-Agrees, decode_three-Agrees, decode_four-Agrees, decode_four-pad,
}

-- The filter of `decode` drops nothing from an encoded text.
abbrev is_text : ℕ → Bool
is_text c = not (c == 10 || c == 13)

keep-padding :
    (e : Encoding)
    → (keep is_text (padding e (b'=' ∷ b'=' ∷ [])) ≡ padding e (b'=' ∷ b'=' ∷ []))
      × (keep is_text (padding e (b'=' ∷ [])) ≡ padding e (b'=' ∷ []))
keep-padding e = ground arith

keep-encode :
    (e : Encoding) (bs : List ℕ) → All IsByte bs → keep is_text (encode e bs) ≡ encode e bs
unfolding encode
keep-encode e [] h = refl
keep-encode e (a ∷ []) h = rw (
  (encode_char_plain e.url (a / 4) (omega arith)).1,
  (encode_char_plain e.url (a % 4 * 16) (omega arith)).1,
  (keep-padding e).0,
)
keep-encode e (a ∷ b ∷ []) h = rw (
  (encode_char_plain e.url (a / 4) (omega arith)).1,
  (encode_char_plain e.url (a % 4 * 16 + b / 16) (omega arith)).1,
  (encode_char_plain e.url (b % 16 * 4) (omega arith)).1,
  (keep-padding e).1,
)
keep-encode e (a ∷ b ∷ c ∷ rest) h = rw (
  (encode_char_plain e.url (a / 4) (omega arith)).1,
  (encode_char_plain e.url (a % 4 * 16 + b / 16) (omega arith)).1,
  (encode_char_plain e.url (b % 16 * 4 + c / 64) (omega arith)).1,
  (encode_char_plain e.url (c % 64) (omega arith)).1,
  keep-encode e rest h.1.1.1,
)

pub decode_quanta-encode :
    (e : Encoding) (bs : List ℕ) → All IsByte bs → decode_quanta e (encode e bs) ≡ some bs
unfolding encode decode_quanta at_end
decode_quanta-encode e [] h = refl
decode_quanta-encode e (a ∷ []) h = elim (Bool-cases e.padded) [
  | inl p ↦ rw p (decode_two-same a 0 0 h.0 (omega arith) (omega arith) e.url)
  | inr p ↦ rw p (decode_two-same a 0 0 h.0 (omega arith) (omega arith) e.url)
]
decode_quanta-encode e (a ∷ b ∷ []) h = elim (Bool-cases e.padded) [
  | inl p ↦ ground (
    arith,
    decode_three-same a b 0 h.0 h.1.0 (omega arith) e.url,
    encode_char_plain e.url (b % 16 * 4) (omega arith),
  )
  | inr p ↦ rw p (decode_three-same a b 0 h.0 h.1.0 (omega arith) e.url)
]
decode_quanta-encode e (a ∷ b ∷ c ∷ rest) h =
    rw ((encode_char_plain e.url (c % 64) (omega arith)).0, decode_quanta-encode e rest h.1.1.1)
      (ground (arith, decode_four-same a b c h.0 h.1.0 h.1.1.0 e.url rest))

-- Decoding what was encoded in the same variant gives the bytes back.
pub decode-encode : (e : Encoding) (bs : List ℕ) → All IsByte bs → decode e (encode e bs) ≡ some bs
unfolding decode
decode-encode e bs h = rw (keep-encode e bs h) (decode_quanta-encode e bs h)

decode_quanta-Agrees :
    (e d : Encoding) (bs : List ℕ) → All IsByte bs → Agrees (decode_quanta d (encode e bs)) bs
unfolding encode decode_quanta at_end
decode_quanta-Agrees e d [] h = inr refl
decode_quanta-Agrees e d (a ∷ []) h = ground (
  arith,
  decode_two-Agrees a 0 0 h.0 (omega arith) (omega arith) e.url d.url,
  decode_four-pad d.url (encode_char e.url (a / 4)) (encode_char e.url (a % 4 * 16)) b'=' (some []),
)
decode_quanta-Agrees e d (a ∷ b ∷ []) h = ground (
  arith,
  decode_four-pad d.url (encode_char e.url (a / 4)) (encode_char e.url (a % 4 * 16 + b / 16))
      (encode_char e.url (b % 16 * 4)) (some []),
  decode_three-Agrees a b 0 h.0 h.1.0 (omega arith) e.url d.url,
  encode_char_plain e.url (b % 16 * 4) (omega arith),
)
decode_quanta-Agrees e d (a ∷ b ∷ c ∷ rest) h =
    rw ((encode_char_plain e.url (c % 64) (omega arith)).0) (
      ground (
        arith,
        decode_four-Agrees a b c h.0 h.1.0 h.1.1.0 e.url d.url (decode_quanta d (encode e rest))
            rest (decode_quanta-Agrees e d rest h.1.1.1),
      ))

-- A decoder of another variant never gives other bytes: it fails, or gives the same.
pub decode-Agrees :
    (e d : Encoding) (bs : List ℕ) → All IsByte bs → Agrees (decode d (encode e bs)) bs
unfolding decode
decode-Agrees e d bs h = rw (keep-encode e bs h) (decode_quanta-Agrees e d bs h)
