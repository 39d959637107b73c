-- ===== src/Httpapp/Client.antt =====
-- internal/httpapp/ratelimit.go: clientKey, with net.SplitHostPort of Go's standard library.
use gocord.Base.{
  ℕ, ◌≡◌, refl, ap, ◌∙◌, ◌≢◌, inl, inr, Bool, true, false, not, ◌&&◌, ◌||◌, List, [], ◌∷◌, ◌++◌,
  Option, none, some, option_or, last?, any, ◌==◌, if◌then◌else◌, arith, Bool-cases,
}
use gocord.Base.Assoc.{Text, text_eq, text_eq-ne, codes}
use gocord.Text.{trim_space, split, split_from, before_last, has_prefix}

-- What the handlers read of an *http.Request: Header.Get of the two headers, RemoteAddr, whether TLS
-- is set, and the URL's path.
pub record Request : Type 0 where
  pub forwarded_for : Text
  pub forwarded_proto : Text
  pub remote_addr : Text
  pub tls : Bool
  pub path : Text

abbrev pub has : ℕ → Text → Bool
has c s = any (λ d. d == c) s

-- The texts before and after the first occurrence of a character.
unfoldable pub cut : ℕ → Text → Option (Text × Text)
cut c [] = none
cut c (d ∷ s) =
    let rest = cut c s in
    if d == c
    then some ([], s)
    else elim rest [ none ↦ none | some (before, after) ↦ some (d ∷ before, after) ]

-- The last colon of the text is its first character.
abbrev is_port : Text → Bool
is_port [] = false
is_port (c ∷ port) = c == b':' && not (has b':' port)

abbrev bracketed_host : Text → Option Text
bracketed_host t = elim (cut b']' t) [
  | none ↦ none
  | some (host, after) ↦
      if is_port after && not (has b'[' t) && not (has b']' after) then some host else none
]

abbrev plain_host : Text → Option Text
plain_host s = elim (before_last b':' s) [
  | none ↦ none
  | some host ↦ if has b':' host || has b'[' s || has b']' s then none else some host
]

-- The host that net.SplitHostPort answers, none for its errors.
unfoldable pub split_host_port : Text → Option Text
unfolding cut before_last
split_host_port [] = none
split_host_port (c ∷ s) = if c == b'[' then bracketed_host s else plain_host (c ∷ s)

abbrev pub last_forwarded : Text → Text
last_forwarded forwarded = trim_space (option_or (last? (split (codes ",") forwarded)) [])

abbrev pub remote_key : Request → Text
remote_key r = option_or (split_host_port r.remote_addr) r.remote_addr

unfoldable pub client_key : Request → Bool → Text
unfolding trim_space split split_host_port text_eq
client_key r trust_proxy =
    if trust_proxy && not (text_eq r.forwarded_for [])
    then (if text_eq (last_forwarded r.forwarded_for) []
        then remote_key r
        else last_forwarded r.forwarded_for)
    else remote_key r

abbrev comma : Text
comma = codes ","

last?-cons :
    (first y : Text) (others : List Text) → last? others ≡ some y → last? (first ∷ others) ≡ some y
last?-cons first y [] e = absurd (cc)
last?-cons first y (second ∷ others) e = e

split_from-no_comma : (y : Text) → has b',' y ≡ false → split_from comma y 0 ≡ (y, [])
unfolding split_from has_prefix
split_from-no_comma [] h = refl
split_from-no_comma (c ∷ y) h = ground (arith, split_from-no_comma y)

last?-split_from :
    (x y : Text) → has b',' y ≡ false → last? (split_from comma (x ++ (b',' ∷ y)) 0).1 ≡ some y
unfolding split_from has_prefix
last?-split_from [] y h = ap (λ (q : Text × List Text). last? (q.0 ∷ q.1)) (split_from-no_comma y h)
last?-split_from (c ∷ x) y h =
    let q = split_from comma (x ++ (b',' ∷ y)) 0 in
    elim (Bool-cases (b',' == c)) [
      | inl hit ↦ rw hit (last?-cons q.0 y q.1 (last?-split_from x y h))
      | inr miss ↦ rw miss (last?-split_from x y h)
    ]

last_forwarded-append :
    (x y : Text) → has b',' y ≡ false → last_forwarded (x ++ (b',' ∷ y)) ≡ trim_space y
unfolding split
last_forwarded-append x y h =
    let q = split_from comma (x ++ (b',' ∷ y)) 0 in
    ap (λ o. trim_space (option_or o [])) (last?-cons q.0 y q.1 (last?-split_from x y h))

append-filled : (x y : Text) → text_eq (x ++ (b',' ∷ y)) [] ≡ false
unfolding text_eq
append-filled [] y = refl
append-filled (c ∷ x) y = refl

-- Behind a trusted proxy the key of a client is the address that the proxy has appended, whatever
-- the client wrote before it, when that address holds no comma and is not blank; without one, the
-- headers do not matter.
pub client_key_lem :
    (r r' : Request) (forged address : Text)
    → r.forwarded_for ≡ forged ++ (b',' ∷ address)
    → has b',' address ≡ false
    → trim_space address ≢ []
    → r'.remote_addr ≡ r.remote_addr
    → (client_key r true ≡ trim_space address) × (client_key r' false ≡ client_key r false)
unfolding client_key
client_key_lem r r' forged address sent one_entry filled same =
    let e : last_forwarded r.forwarded_for ≡ trim_space address =
      ap last_forwarded sent ∙ last_forwarded-append forged address one_entry in
    let given : text_eq r.forwarded_for [] ≡ false =
      ap (λ t. text_eq t []) sent ∙ append-filled forged address in
    let known : text_eq (last_forwarded r.forwarded_for) [] ≡ false =
      ap (λ t. text_eq t []) e ∙ text_eq-ne (trim_space address) [] filled in
    (rw given (rw known e), ap (λ a. option_or (split_host_port a) a) same)
