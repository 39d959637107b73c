-- ===== src/Push/Flexible.antt =====
-- internal/push/vapid.go: what DecodeBase64Flexible makes of encoded bytes.
use gocord.Base.{
  ℕ, ◌+◌, ◌*◌, ◌/◌, ◌%◌, ◌<◌, ◌≡◌, refl, ap, ◌∙◌, ◌⊎◌, inl, inr, Bool, true, false, List, [], ◌∷◌,
  Option, some, All, subst, arith, Bool-cases,
}
use gocord.Base.Assoc.{Text}
use gocord.Base64.{
  Encoding, encode, encode_char, decode, padding, raw_url_encoding, url_encoding, raw_std_encoding,
  std_encoding,
}
use gocord.Base64.Chars.{IsByte, Agrees}
use gocord.Base64.RoundTrip.{decode-encode, decode-Agrees}
use gocord.Text.{is_space, trim_space}
use gocord.Push.Vapid.{or_else, decode_flexible}
use gocord.Text.Trim.{trim_by-IsFree}

abbrev pub IsDense : Text → Type 0
IsDense s = All (λ c. is_space c ≡ false) s

encode_char-is_space : (u : Bool) (n : ℕ) → n < 64 → is_space (encode_char u n) ≡ false
unfolding encode_char is_space
encode_char-is_space u n h = ground arith

IsDense-padding : (e : Encoding) (p : Text) → IsDense p → IsDense (padding e p)
IsDense-padding e p h = elim (Bool-cases e.padded) [
  | inl padded ↦ rw padded h
  | inr raw ↦ rw raw tt
]

pub IsDense-encode : (e : Encoding) (bs : List ℕ) → All IsByte bs → IsDense (encode e bs)
unfolding encode is_space
IsDense-encode e [] h = tt
IsDense-encode e (a ∷ []) h = (
  encode_char-is_space e.url (a / 4) (omega arith),
  (
    encode_char-is_space e.url (a % 4 * 16) (omega arith),
    IsDense-padding e (b'=' ∷ b'=' ∷ []) (refl, (refl, tt)),
  ),
)
IsDense-encode e (a ∷ b ∷ []) h = (
  encode_char-is_space e.url (a / 4) (omega arith),
  (
    encode_char-is_space e.url (a % 4 * 16 + b / 16) (omega arith),
    (
      encode_char-is_space e.url (b % 16 * 4) (omega arith),
      IsDense-padding e (b'=' ∷ []) (refl, tt),
    ),
  ),
)
IsDense-encode e (a ∷ b ∷ c ∷ rest) h = (
  encode_char-is_space e.url (a / 4) (omega arith),
  (
    encode_char-is_space e.url (a % 4 * 16 + b / 16) (omega arith),
    (
      encode_char-is_space e.url (b % 16 * 4 + c / 64) (omega arith),
      (encode_char-is_space e.url (c % 64) (omega arith), IsDense-encode e rest h.1.1.1),
    ),
  ),
)

-- A text without white space is not trimmed.
pub trim_space-IsDense : (s : Text) → IsDense s → trim_space s ≡ s
unfolding trim_space
trim_space-IsDense s h = trim_by-IsFree is_space s h

-- With an attempt that gives the bytes, and others that fail or give the same, the first success
-- is the bytes.
or_else-Agrees :
    (a b c d : Option (List ℕ)) (bs : List ℕ)
    → Agrees a bs
    → Agrees b bs
    → Agrees c bs
    → Agrees d bs
    → (a ≡ some bs) ⊎ ((b ≡ some bs) ⊎ ((c ≡ some bs) ⊎ (d ≡ some bs)))
    → or_else a (or_else b (or_else c d)) ≡ some bs
or_else-Agrees a b c d bs ha hb hc hd one = ground arith

abbrev encoding : Bool → Bool → Encoding
encoding u p = record { url = u; padded = p }

Encoding-eta : (e : Encoding) (u p : Bool) → e.url ≡ u → e.padded ≡ p → e ≡ encoding u p
Encoding-eta e u p eu ep = ap (λ u. encoding u e.padded) eu ∙ ap (encoding u) ep

one_of_four :
    (e : Encoding) (s : Text) (bs : List ℕ)
    → decode e s ≡ some bs
    → (decode raw_url_encoding s ≡ some bs)
      ⊎ ((decode url_encoding s ≡ some bs)
          ⊎ ((decode raw_std_encoding s ≡ some bs) ⊎ (decode std_encoding s ≡ some bs)))
one_of_four e s bs h = elim (Bool-cases e.url) [
  | inl u ↦ elim (Bool-cases e.padded) [
    | inl p ↦
        inr (inl (subst (λ (d : Encoding). decode d s ≡ some bs) (Encoding-eta e true true u p) h))
    | inr p ↦ inl (subst (λ (d : Encoding). decode d s ≡ some bs) (Encoding-eta e true false u p) h)
  ]
  | inr u ↦ elim (Bool-cases e.padded) [
    | inl p ↦ inr (
        inr
          (inr (subst (λ (d : Encoding). decode d s ≡ some bs) (Encoding-eta e false true u p) h)))
    | inr p ↦ inr (
        inr
          (inl (subst (λ (d : Encoding). decode d s ≡ some bs) (Encoding-eta e false false u p) h)))
  ]
]

-- DecodeBase64Flexible gives back the bytes of a text that any of the four encodings has made of
-- bytes.
pub decode_flexible-encode :
    (e : Encoding) (bs : List ℕ) → All IsByte bs → decode_flexible (encode e bs) ≡ some bs
unfolding decode_flexible
decode_flexible-encode e bs h =
    let s = encode e bs in
    ap
      (λ t. or_else (decode raw_url_encoding t) (
        or_else (decode url_encoding t)
          (or_else (decode raw_std_encoding t) (decode std_encoding t))))
      (trim_space-IsDense s (IsDense-encode e bs h))
    ∙ or_else-Agrees (decode raw_url_encoding s) (decode url_encoding s) (decode raw_std_encoding s)
        (decode std_encoding s) bs (decode-Agrees e raw_url_encoding bs h)
        (decode-Agrees e url_encoding bs h) (decode-Agrees e raw_std_encoding bs h)
        (decode-Agrees e std_encoding bs h) (one_of_four e s bs (decode-encode e bs h))
