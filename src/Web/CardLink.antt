-- ===== src/Web/CardLink.antt =====
-- web/ui.go: what parseCallCard reads from a link that updateCallCardLink has made.
use gocord.Base.{
  ℕ, zero, suc, ◌+◌, ◌%◌, ◌≤◌, ◌<◌, ◌≡◌, ◌≢◌, refl, sym, ap, ◌∙◌, inl, inr, Bool, true, false, List,
  [], ◌∷◌, ◌++◌, Option, some, length, replicate, ◌==◌, ◌>>=◌, map, All, All-append, arith,
  Bool-cases, append_assoc, append-nil, length-append, ==_iff, map-append,
}
use gocord.Base.Assoc.{Text, codes, text_eq-ne}
use gocord.Base64.{encode, encode_char, raw_url_encoding}
use gocord.Base64.Chars.{IsByte}
use gocord.Text.{contains, split, has_prefix, join}
use gocord.Text.Split.{Separates, split-join, has_prefix_self}
use gocord.Text.Trim.{IsFree, trim_by-IsFree}
use gocord.Web.Opus.{trim, is_js_space}
use gocord.Web.Encoding.{
  to_std, pad_length, url_base64_to_uint8_array, url_base64_to_uint8_array-encode, All-encode,
}
use gocord.Web.Utf8 as Utf8
use gocord.Web.Card.{
  Card, Parsed, Json, pad_loop, decode_base64_url, card_mark, call_card_link, found, read_card,
  card_input, parse_input, parse_call_card,
}

pad_whole : (n : ℕ) → (n % 4 == 0) ≡ true → pad_length n ≡ 0
unfolding pad_length
pad_whole n h = let e : n % 4 ≡ 0 = (==_iff (n % 4) 0).0 h in omega (arith, e)

pad_part : (n : ℕ) → (n % 4 == 0) ≡ false → pad_length n ≡ suc (pad_length (n + 1))
unfolding pad_length
pad_part n h = let e : n % 4 ≢ 0 = ground arith in omega (arith, e)

add_pad : (n : ℕ) (s : Text) → (s ++ (b'=' ∷ [])) ++ replicate n b'=' ≡ s ++ replicate (suc n) b'='
add_pad n s = append_assoc s (b'=' ∷ []) (replicate n b'=')

pad_loop-eq :
    (fuel : ℕ) (s : Text)
    → pad_length (length s) ≤ fuel
    → pad_loop fuel s ≡ s ++ replicate (pad_length (length s)) b'='
unfolding pad_loop
pad_loop-eq zero s h =
    let e : pad_length (length s) ≡ 0 = omega (arith, h) in rw e (sym (append-nil s))
pad_loop-eq (suc fuel) s h = elim (Bool-cases (length s % 4 == 0)) [
  | inl whole ↦ rw (whole, pad_whole (length s) whole) (sym (append-nil s))
  | inr part ↦
      let less = pad_part (length s) part in
      let one = length-append s (b'=' ∷ []) in
      rw (part, pad_loop-eq fuel (s ++ (b'=' ∷ [])) (rw one (omega (arith, h, less))), one, less)
        (add_pad (pad_length (length s + 1)) s)
]

abbrev pub is_hash : ℕ → Bool
is_hash c = c == b'#'

contains-mark : (s : Text) → IsFree is_hash s → contains card_mark s ≡ false
unfolding contains has_prefix
contains-mark [] h = refl
contains-mark (c ∷ s) h = ground (arith, contains-mark s h.1)

mark-apart :
    (c : ℕ) (x r : Text)
    → contains card_mark (c ∷ x) ≡ false
    → has_prefix card_mark (c ∷ x ++ card_mark ++ r) ≡ false
unfolding contains has_prefix
mark-apart c [] r h = ground arith
mark-apart c (d ∷ []) r h = ground arith
mark-apart c (d ∷ e ∷ []) r h = ground arith
mark-apart c (d ∷ e ∷ f ∷ []) r h = ground arith
mark-apart c (d ∷ e ∷ f ∷ g ∷ []) r h = ground arith
mark-apart c (d ∷ e ∷ f ∷ g ∷ i ∷ x) r h = ground arith

mark-Separates : Separates card_mark
mark-Separates = record { apart = mark-apart }

encode-IsFree :
    (p : ℕ → Bool)
    → ((n : ℕ) → n < 64 → p (encode_char true n) ≡ false)
    → (bytes : List ℕ) → All IsByte bytes
    → IsFree p (encode raw_url_encoding bytes)
encode-IsFree p h bytes b = All-encode (λ c. p c ≡ false) h bytes b

no_hash : (n : ℕ) → n < 64 → is_hash (encode_char true n) ≡ false
unfolding encode_char
no_hash n h = ground arith

no_space : (n : ℕ) → n < 64 → is_js_space (encode_char true n) ≡ false
unfolding encode_char is_js_space
no_space n h = ground arith

length-map : (f : ℕ → ℕ) (s : Text) → length (map f s) ≡ length s
length-map f [] = refl
length-map f (c ∷ s) = ap suc (length-map f s)

map-replicate : (n : ℕ) → map to_std (replicate n b'=') ≡ replicate n b'='
unfolding to_std
map-replicate zero = refl
map-replicate (suc n) = ap (◌∷◌ b'=') (map-replicate n)

pad_length-le : (n : ℕ) → pad_length n ≤ 3
unfolding pad_length
pad_length-le n = omega arith

-- The two decoders of the source pad alike.
decode_base64_url_lem :
    (s : Text) → decode_base64_url s ≡ (url_base64_to_uint8_array s >>= Utf8.decode)
unfolding decode_base64_url url_base64_to_uint8_array
decode_base64_url_lem s =
    rw
      (
        pad_loop-eq 3 (map to_std s) (pad_length-le (length (map to_std s))),
        length-map to_std s,
        map-append to_std s (replicate (pad_length (length s)) b'='),
        map-replicate (pad_length (length s)),
      )
      refl

-- What JSON.parse gives for a card: its fields, and no `subscription`.
abbrev pub parsed_card : Card → Parsed
parsed_card c = record {
  name = c.name;
  endpoint = c.endpoint;
  p256dh = c.p256dh;
  auth = c.auth;
  sub_endpoint = [];
  sub_p256dh = [];
  sub_auth = [];
}

read_card-parsed_card :
    (c : Card) → c.endpoint ≢ [] → c.p256dh ≢ [] → c.auth ≢ [] → read_card (parsed_card c) ≡ found c
unfolding read_card
read_card-parsed_card c e p a =
    rw (text_eq-ne c.endpoint [] e, text_eq-ne c.p256dh [] p, text_eq-ne c.auth [] a)
      (rw (text_eq-ne c.endpoint [] e, text_eq-ne c.p256dh [] p, text_eq-ne c.auth [] a) refl)

contains-start : (sep r : Text) → contains sep (sep ++ r) ≡ true
unfolding contains has_prefix
contains-start [] [] = refl
contains-start [] (c ∷ r) = refl
contains-start (a ∷ sep) r = rw (has_prefix_self (a ∷ sep) r) refl

contains-part : (sep x r : Text) → contains sep (x ++ (sep ++ r)) ≡ true
unfolding contains
contains-part sep [] r = contains-start sep r
contains-part sep (c ∷ x) r = rw (contains-part sep x r) (ground arith)

module _ (origin token : Text) (plain : IsFree is_hash origin) (dense : IsFree is_js_space origin)
    (token_plain : IsFree is_hash token) (token_dense : IsFree is_js_space token) where
  abbrev path : Text
  path = origin ++ codes "/friends"

  link-IsFree : IsFree is_js_space (path ++ (card_mark ++ token))
  unfolding is_js_space
  link-IsFree =
      All-append (λ c. is_js_space c ≡ false) path (card_mark ++ token)
        (All-append (λ c. is_js_space c ≡ false) origin (codes "/friends") dense (ground arith))
        (All-append (λ c. is_js_space c ≡ false) card_mark token (ground arith) token_dense)

  path-IsFree : IsFree is_hash path
  path-IsFree = All-append (λ c. is_hash c ≡ false) origin (codes "/friends") plain (ground arith)

  split-link : split card_mark (path ++ (card_mark ++ token)) ≡ path ∷ token ∷ []
  unfolding join
  split-link =
      ap (split card_mark) (sym (append_assoc path card_mark token))
      ∙ split-join b'#' (codes "card=") path (token ∷ []) mark-Separates
          (contains-mark path path-IsFree, (contains-mark token token_plain, tt))

  card_input-link : card_input (path ++ (card_mark ++ token)) ≡ token
  unfolding card_input trim
  card_input-link =
      rw
        (
          trim_by-IsFree is_js_space (path ++ (card_mark ++ token)) link-IsFree,
          contains-part card_mark path token,
          split-link,
        )
        refl

parse_call_card-reads :
    (json : Json) (raw token : Text) (p : Parsed)
    → card_input raw ≡ token
    → (decode_base64_url token >>= json.parse) ≡ some (some p)
    → parse_call_card json raw ≡ read_card p
unfolding parse_call_card
parse_call_card-reads json raw token p e d = ap (parse_input json) e ∙ rw (d, parse_input) refl

-- A client that pastes the link of a call card, which updateCallCardLink has made from an origin
-- without white space and "#", gets the card's name, endpoint and keys, all of which are given, if
-- JSON.parse gives back what JSON.stringify wrote and that is a text of whole characters.
pub parse_call_card-link :
    (json : Json) (origin : Text) (c : Card)
    → IsFree is_hash origin
    → IsFree is_js_space origin
    → All (λ d. Utf8.is_scalar d ≡ true) (json.stringify c)
    → json.parse (json.stringify c) ≡ some (some (parsed_card c))
    → c.endpoint ≢ []
    → c.p256dh ≢ []
    → c.auth ≢ []
    → parse_call_card json (call_card_link json origin c) ≡ found c
unfolding call_card_link
parse_call_card-link json origin c plain dense scalar law e p a =
    let bytes = Utf8.encode (json.stringify c) in
    let small = Utf8.encode-IsByte (json.stringify c) scalar in
    let both = url_base64_to_uint8_array-encode bytes small in
    let token = encode raw_url_encoding bytes in
    let decoded : (decode_base64_url token >>= json.parse) ≡ some (some (parsed_card c)) =
      rw (decode_base64_url_lem token, both.0)
        (ap (λ (t : Option Text). t >>= json.parse) (Utf8.decode-encode (json.stringify c) scalar)
          ∙ law) in
    ap (λ (t : Text). parse_call_card json ((origin ++ codes "/friends") ++ (card_mark ++ t)))
      both.1
    ∙ parse_call_card-reads json _ token (parsed_card c)
        (card_input-link origin token plain dense (encode-IsFree is_hash no_hash bytes small)
          (encode-IsFree is_js_space no_space bytes small))
        decoded
    ∙ read_card-parsed_card c e p a
