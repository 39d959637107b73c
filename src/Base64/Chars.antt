-- ===== src/Base64/Chars.antt =====
-- Single characters and quanta of encoding/base64: what a decoder makes of an encoded quantum.
use gocord.Base.{
  ℕ, ◌+◌, ◌*◌, ◌/◌, ◌%◌, ◌<◌, ◌≡◌, ◌⊎◌, Bool, true, false, ◌||◌, not, Option, none, some, List, [],
  ◌∷◌, ◌==◌, arith,
}
use gocord.Base64.{encode_char, decode_char, decode_two, decode_three, decode_four}

abbrev pub IsByte : ℕ → Type 0
IsByte b = b < 256

pub decode_char-encode_char : (u : Bool) (n : ℕ) → n < 64 → decode_char u (encode_char u n) ≡ some n
unfolding decode_char encode_char
decode_char-encode_char u n h = ground arith

pub decode_char-encode_char_other :
    (u v : Bool) (n : ℕ)
    → n < 64
    → (decode_char v (encode_char u n) ≡ none) ⊎ (decode_char v (encode_char u n) ≡ some n)
unfolding decode_char encode_char
decode_char-encode_char_other u v n h = ground arith

-- No character of the alphabets is the padding or a line break.
pub encode_char_plain :
    (u : Bool) (n : ℕ)
    → n < 64
    → ((encode_char u n == b'=') ≡ false)
      × (not (encode_char u n == 10 || encode_char u n == 13) ≡ true)
unfolding encode_char
encode_char_plain u n h = ground arith

-- What a decoder of another variant makes of an encoded text: an error, or the same bytes.
abbrev pub Agrees {ℓ} : {A : Type ℓ} → Option A → A → Type ℓ
Agrees r a = (r ≡ none) ⊎ (r ≡ some a)

module _ (a b c : ℕ) (ha : IsByte a) (hb : IsByte b) (hc : IsByte c) where
  pub decode_two-same :
      (u : Bool) → decode_two u (encode_char u (a / 4)) (encode_char u (a % 4 * 16)) ≡ some (a ∷ [])
  unfolding decode_two
  decode_two-same u =
      rw
        (
          decode_char-encode_char u (a / 4) (omega arith),
          decode_char-encode_char u (a % 4 * 16) (omega arith),
        )
        (ground arith)

  pub decode_three-same :
      (u : Bool)
      → decode_three u
          (encode_char u (a / 4))
          (encode_char u (a % 4 * 16 + b / 16))
          (encode_char u (b % 16 * 4))
        ≡ some (a ∷ b ∷ [])
  unfolding decode_three
  decode_three-same u =
      rw
        (
          decode_char-encode_char u (a / 4) (omega arith),
          decode_char-encode_char u (a % 4 * 16 + b / 16) (omega arith),
          decode_char-encode_char u (b % 16 * 4) (omega arith),
        )
        (ground arith)

  pub decode_four-same :
      (u : Bool) (rest : List ℕ)
      → decode_four u
          (encode_char u (a / 4))
          (encode_char u (a % 4 * 16 + b / 16))
          (encode_char u (b % 16 * 4 + c / 64))
          (encode_char u (c % 64))
          (some rest)
        ≡ some (a ∷ b ∷ c ∷ rest)
  unfolding decode_four
  decode_four-same u rest =
      rw
        (
          decode_char-encode_char u (a / 4) (omega arith),
          decode_char-encode_char u (a % 4 * 16 + b / 16) (omega arith),
          decode_char-encode_char u (b % 16 * 4 + c / 64) (omega arith),
          decode_char-encode_char u (c % 64) (omega arith),
        )
        (ground arith)

  pub decode_two-Agrees :
      (u v : Bool)
      → Agrees (decode_two v (encode_char u (a / 4)) (encode_char u (a % 4 * 16))) (a ∷ [])
  unfolding decode_two
  decode_two-Agrees u v = ground (
    arith,
    decode_char-encode_char_other u v (a / 4) (omega arith),
    decode_char-encode_char_other u v (a % 4 * 16) (omega arith),
  )

  pub decode_three-Agrees :
      (u v : Bool)
      → Agrees
          (decode_three v
            (encode_char u (a / 4))
            (encode_char u (a % 4 * 16 + b / 16))
            (encode_char u (b % 16 * 4)))
          (a ∷ b ∷ [])
  unfolding decode_three
  decode_three-Agrees u v = ground (
    arith,
    decode_char-encode_char_other u v (a / 4) (omega arith),
    decode_char-encode_char_other u v (a % 4 * 16 + b / 16) (omega arith),
    decode_char-encode_char_other u v (b % 16 * 4) (omega arith),
  )

  pub decode_four-Agrees :
      (u v : Bool) (r : Option (List ℕ)) (rest : List ℕ)
      → Agrees r rest
      → Agrees
          (decode_four v
            (encode_char u (a / 4))
            (encode_char u (a % 4 * 16 + b / 16))
            (encode_char u (b % 16 * 4 + c / 64))
            (encode_char u (c % 64))
            r)
          (a ∷ b ∷ c ∷ rest)
  unfolding decode_four
  decode_four-Agrees u v r rest h = ground (
    arith,
    decode_char-encode_char_other u v (a / 4) (omega arith),
    decode_char-encode_char_other u v (a % 4 * 16 + b / 16) (omega arith),
    decode_char-encode_char_other u v (b % 16 * 4 + c / 64) (omega arith),
    decode_char-encode_char_other u v (c % 64) (omega arith),
  )

pub decode_char-pad : (u : Bool) → decode_char u b'=' ≡ none
unfolding decode_char
decode_char-pad u = ground arith

-- The padding is no character of an alphabet, so an unpadded decoder stops at it.
pub decode_four-pad :
    (v : Bool) (w x y : ℕ) (r : Option (List ℕ)) → decode_four v w x y b'=' r ≡ none
unfolding decode_four
decode_four-pad v w x y r = ground (arith, decode_char-pad v)
