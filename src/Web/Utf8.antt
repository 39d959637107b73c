-- ===== src/Web/Utf8.antt =====
-- The conversions of JavaScript that web/ui.go uses between a text and its UTF-8 bytes:
-- unescape(encodeURIComponent(s)) and decodeURIComponent(escape(b)).
use gocord.Base.{
  ℕ, zero, suc, ◌+◌, ◌-◌, ◌*◌, ◌/◌, ◌%◌, ◌≡◌, ◌<◌, ◌≤◌, inl, inr, refl, ap, ◌∙◌, Bool, true, false,
  ◌&&◌, ◌||◌, List, [], ◌∷◌, ◌++◌, Option, some, none, if◌then◌else◌, ◌==◌, ltb, leb, le→leb,
  lt→ltb, ltb→lt, All, All-append, arith, Bool-cases,
}
use gocord.Base.Assoc.{Text}
use gocord.Base64.Chars.{IsByte}

-- A text of JSON.stringify has only such characters: no half of a surrogate pair.
unfoldable pub is_scalar : ℕ → Bool
is_scalar c = ltb c 0xD800 || leb 0xE000 c && ltb c 0x110000

unfoldable pub encode_char : ℕ → List ℕ
encode_char c =
    if ltb c 0x80
    then c ∷ []
    else if ltb c 0x800
    then (0xC0 + c / 64) ∷ (0x80 + c % 64) ∷ []
    else if ltb c 0x10000
    then (0xE0 + c / 4096) ∷ (0x80 + c / 64 % 64) ∷ (0x80 + c % 64) ∷ []
    else (0xF0 + c / 262144) ∷ (0x80 + c / 4096 % 64) ∷ (0x80 + c / 64 % 64) ∷ (0x80 + c % 64) ∷ []

unfoldable pub encode : Text → List ℕ
unfolding encode_char
encode [] = []
encode (c ∷ s) = encode_char c ++ encode s

abbrev cons? : ℕ → Option Text → Option Text
cons? c none = none
cons? c (some s) = some (c ∷ s)

-- The decoder waits for `need` more bytes of a character, which is not below `least`.
unfoldable pub decode_from : ℕ → ℕ → ℕ → List ℕ → Option Text
unfolding is_scalar
decode_from zero acc least [] = some []
decode_from (suc need) acc least [] = none
decode_from zero acc least (b ∷ bs) =
    let ascii = cons? b (decode_from 0 0 0 bs) in
    let two = decode_from 1 (b - 0xC0) 0x80 bs in
    let three = decode_from 2 (b - 0xE0) 0x800 bs in
    let four = decode_from 3 (b - 0xF0) 0x10000 bs in
    if ltb b 0x80
    then ascii
    else if ltb b 0xC0
    then none
    else if ltb b 0xE0
    then two
    else if ltb b 0xF0
    then three
    else if ltb b 0xF8
    then four
    else none
decode_from (suc need) acc least (b ∷ bs) =
    let code = acc * 64 + (b - 0x80) in
    let done = cons? code (decode_from 0 0 0 bs) in
    let more = decode_from need code least bs in
    if leb 0x80 b && ltb b 0xC0
    then (if need == 0 then (if leb least code && is_scalar code then done else none) else more)
    else none

unfoldable pub decode : List ℕ → Option Text
unfolding decode_from
decode bs = decode_from 0 0 0 bs

not_ltb : (a b : ℕ) → b ≤ a → ltb a b ≡ false
not_ltb a b h = ground arith

module _ (k : ℕ) (bs : List ℕ) (small : k < 64) where
  more_bytes :
      (need acc least : ℕ)
      → decode_from (suc (suc need)) acc least ((0x80 + k) ∷ bs)
        ≡ decode_from (suc need) (acc * 64 + k) least bs
  unfolding decode_from
  more_bytes need acc least =
      let e : 0x80 + k - 0x80 ≡ k = omega arith in
      rw (le→leb 0x80 (0x80 + k) (omega arith), lt→ltb (0x80 + k) 0xC0 (omega (arith, small)), e)
        (ground arith)

  last_byte :
      (acc least : ℕ)
      → least ≤ acc * 64 + k
      → is_scalar (acc * 64 + k) ≡ true
      → decode_from 1 acc least ((0x80 + k) ∷ bs) ≡ cons? (acc * 64 + k) (decode_from 0 0 0 bs)
  unfolding decode_from
  last_byte acc least enough scalar =
      let e : 0x80 + k - 0x80 ≡ k = omega arith in
      rw
        (
          le→leb 0x80 (0x80 + k) (omega arith),
          lt→ltb (0x80 + k) 0xC0 (omega (arith, small)),
          e,
          le→leb least (acc * 64 + k) enough,
          scalar,
        )
        refl

module _ (k : ℕ) (bs : List ℕ) where
  lead_two : k < 32 → decode_from 0 0 0 ((0xC0 + k) ∷ bs) ≡ decode_from 1 k 0x80 bs
  unfolding decode_from
  lead_two h =
      let e : 0xC0 + k - 0xC0 ≡ k = omega arith in
      rw
        (
          not_ltb (0xC0 + k) 0x80 (omega arith),
          not_ltb (0xC0 + k) 0xC0 (omega arith),
          lt→ltb (0xC0 + k) 0xE0 (omega (arith, h)),
          e,
        )
        refl

  lead_three : k < 16 → decode_from 0 0 0 ((0xE0 + k) ∷ bs) ≡ decode_from 2 k 0x800 bs
  unfolding decode_from
  lead_three h =
      let e : 0xE0 + k - 0xE0 ≡ k = omega arith in
      rw
        (
          not_ltb (0xE0 + k) 0x80 (omega arith),
          not_ltb (0xE0 + k) 0xC0 (omega arith),
          not_ltb (0xE0 + k) 0xE0 (omega arith),
          lt→ltb (0xE0 + k) 0xF0 (omega (arith, h)),
          e,
        )
        refl

  lead_four : k < 8 → decode_from 0 0 0 ((0xF0 + k) ∷ bs) ≡ decode_from 3 k 0x10000 bs
  unfolding decode_from
  lead_four h =
      let e : 0xF0 + k - 0xF0 ≡ k = omega arith in
      rw
        (
          not_ltb (0xF0 + k) 0x80 (omega arith),
          not_ltb (0xF0 + k) 0xC0 (omega arith),
          not_ltb (0xF0 + k) 0xE0 (omega arith),
          not_ltb (0xF0 + k) 0xF0 (omega arith),
          lt→ltb (0xF0 + k) 0xF8 (omega (arith, h)),
          e,
        )
        refl

  ascii : k < 0x80 → decode_from 0 0 0 (k ∷ bs) ≡ cons? k (decode_from 0 0 0 bs)
  unfolding decode_from
  ascii h = rw (lt→ltb k 0x80 h) refl

module _ (c : ℕ) (bs : List ℕ) (h : is_scalar c ≡ true) where
  below_limit : c < 0x110000
  unfolding is_scalar
  below_limit = ground arith

  two_bytes :
      c < 0x800
      → 0x80 ≤ c
      → decode_from 0 0 0 ((0xC0 + c / 64) ∷ (0x80 + c % 64) ∷ bs) ≡ cons? c (decode_from 0 0 0 bs)
  two_bytes below above =
      let e : c / 64 * 64 + c % 64 ≡ c = omega arith in
      lead_two (c / 64) ((0x80 + c % 64) ∷ bs) (omega (arith, below))
      ∙ last_byte (c % 64) bs (omega arith) (c / 64) 0x80 (rw e above) (rw e h)
      ∙ ap (λ (d : ℕ). cons? d (decode_from 0 0 0 bs)) e

  three_bytes :
      c < 0x10000
      → 0x800 ≤ c
      → decode_from 0 0 0 ((0xE0 + c / 4096) ∷ (0x80 + c / 64 % 64) ∷ (0x80 + c % 64) ∷ bs)
        ≡ cons? c (decode_from 0 0 0 bs)
  three_bytes below above =
      let e : (c / 4096 * 64 + c / 64 % 64) * 64 + c % 64 ≡ c = omega arith in
      lead_three (c / 4096) ((0x80 + c / 64 % 64) ∷ (0x80 + c % 64) ∷ bs) (omega (arith, below))
      ∙ more_bytes (c / 64 % 64) ((0x80 + c % 64) ∷ bs) (omega arith) 0 (c / 4096) 0x800
      ∙ last_byte (c % 64) bs (omega arith) (c / 4096 * 64 + c / 64 % 64) 0x800 (rw e above)
          (rw e h)
      ∙ ap (λ (d : ℕ). cons? d (decode_from 0 0 0 bs)) e

  four_bytes :
      c < 0x110000
      → 0x10000 ≤ c
      → decode_from 0 0 0 (
          (0xF0 + c / 262144)
          ∷ (0x80 + c / 4096 % 64)
          ∷ (0x80 + c / 64 % 64)
          ∷ (0x80 + c % 64)
          ∷ bs)
        ≡ cons? c (decode_from 0 0 0 bs)
  four_bytes below above =
      let e : ((c / 262144 * 64 + c / 4096 % 64) * 64 + c / 64 % 64) * 64 + c % 64 ≡ c =
        omega arith in
      lead_four (c / 262144) ((0x80 + c / 4096 % 64) ∷ (0x80 + c / 64 % 64) ∷ (0x80 + c % 64) ∷ bs)
        (omega (arith, below))
      ∙ more_bytes (c / 4096 % 64) ((0x80 + c / 64 % 64) ∷ (0x80 + c % 64) ∷ bs) (omega arith) 1
          (c / 262144) 0x10000
      ∙ more_bytes (c / 64 % 64) ((0x80 + c % 64) ∷ bs) (omega arith) 0
          (c / 262144 * 64 + c / 4096 % 64) 0x10000
      ∙ last_byte (c % 64) bs (omega arith) ((c / 262144 * 64 + c / 4096 % 64) * 64 + c / 64 % 64)
          0x10000 (rw e above) (rw e h)
      ∙ ap (λ (d : ℕ). cons? d (decode_from 0 0 0 bs)) e

decode_from-encode_char :
    (c : ℕ) (bs : List ℕ)
    → is_scalar c ≡ true
    → decode_from 0 0 0 (encode_char c ++ bs) ≡ cons? c (decode_from 0 0 0 bs)
unfolding encode_char
decode_from-encode_char c bs h = elim (Bool-cases (ltb c 0x80)) [
  | inl one ↦ rw one (ascii c bs (ltb→lt c 0x80 one))
  | inr not_one ↦ elim (Bool-cases (ltb c 0x800)) [
    | inl two ↦ rw (not_one, two) (two_bytes c bs h (ltb→lt c 0x800 two) (ground arith))
    | inr not_two ↦ elim (Bool-cases (ltb c 0x10000)) [
      | inl three ↦
          rw (not_one, not_two, three) (three_bytes c bs h (ltb→lt c 0x10000 three) (ground arith))
      | inr not_three ↦
          rw (not_one, not_two, not_three) (four_bytes c bs h (below_limit c bs h) (ground arith))
    ]
  ]
]

-- Every text of characters comes back from its bytes.
pub decode-encode : (s : Text) → All (λ c. is_scalar c ≡ true) s → decode (encode s) ≡ some s
unfolding decode encode
decode-encode [] h = unfold decode_from in refl
decode-encode (c ∷ s) h =
    decode_from-encode_char c (encode s) h.0 ∙ ap (cons? c) (decode-encode s h.1)

encode_char-IsByte : (c : ℕ) → is_scalar c ≡ true → All IsByte (encode_char c)
unfolding encode_char
encode_char-IsByte c h = let limit = below_limit c [] h in ground arith

pub encode-IsByte : (s : Text) → All (λ c. is_scalar c ≡ true) s → All IsByte (encode s)
unfolding encode
encode-IsByte [] h = tt
encode-IsByte (c ∷ s) h =
    All-append IsByte (encode_char c) (encode s) (encode_char-IsByte c h.0) (encode-IsByte s h.1)
