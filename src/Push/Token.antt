-- ===== src/Push/Token.antt =====
-- internal/push/vapid.go: the three parts of the token that SignJWT makes.
use gocord.Base.{
  ℕ, ◌+◌, ◌*◌, ◌/◌, ◌%◌, ◌≡◌, refl, ap, sym, ◌∙◌, inl, inr, Bool, true, false, List, [], ◌∷◌, ◌++◌,
  some, ◌==◌, if◌then◌else◌, All, append_assoc, arith, Option-cases,
}
use gocord.Base.Assoc.{Text, text_eq, codes}
use gocord.Base64.{encode, encode_char, raw_url_encoding}
use gocord.Text.{contains, has_prefix, split, join, join_from}
use gocord.Text.Split.{Separates, split-join}
use gocord.Push.Jwt.{Signer, signature, jwt_of, signing_input_of, sign_jwt}

abbrev dot : Text
dot = b'.' ∷ []

dot-Separates : Separates dot
unfolding contains has_prefix
dot-Separates = record { apart = λ c x r h. ground arith }

encode_char-dot : (u : Bool) (n : ℕ) → (encode_char u n == b'.') ≡ false
unfolding encode_char
encode_char-dot u n = ground arith

abbrev HasNoDot : Text → Type 0
HasNoDot s = All (λ c. (c == b'.') ≡ false) s

contains-HasNoDot : (s : Text) → HasNoDot s → contains dot s ≡ false
unfolding contains has_prefix
contains-HasNoDot [] h = refl
contains-HasNoDot (c ∷ s) h = ground (arith, contains-HasNoDot s h.1)

-- No character of an encoded text is a full stop.
encode-HasNoDot : (bs : List ℕ) → HasNoDot (encode raw_url_encoding bs)
unfolding encode
encode-HasNoDot [] = tt
encode-HasNoDot (a ∷ []) = (encode_char-dot true (a / 4), (encode_char-dot true (a % 4 * 16), tt))
encode-HasNoDot (a ∷ b ∷ []) = (
  encode_char-dot true (a / 4),
  (encode_char-dot true (a % 4 * 16 + b / 16), (encode_char-dot true (b % 16 * 4), tt)),
)
encode-HasNoDot (a ∷ b ∷ c ∷ rest) = (
  encode_char-dot true (a / 4),
  (
    encode_char-dot true (a % 4 * 16 + b / 16),
    (
      encode_char-dot true (b % 16 * 4 + c / 64),
      (encode_char-dot true (c % 64), encode-HasNoDot rest),
    ),
  ),
)

contains-encode : (bs : List ℕ) → contains dot (encode raw_url_encoding bs) ≡ false
contains-encode bs = contains-HasNoDot (encode raw_url_encoding bs) (encode-HasNoDot bs)

-- The three parts of a token.
abbrev pub parts_of : List ℕ → List ℕ → List ℕ → List Text
parts_of header claims sig =
    encode raw_url_encoding header
    ∷ encode raw_url_encoding claims
    ∷ encode raw_url_encoding sig
    ∷ []

split-jwt_of :
    (header claims sig : List ℕ)
    → split dot (jwt_of (signing_input_of header claims) sig) ≡ parts_of header claims sig
unfolding join join_from
split-jwt_of header claims sig =
    let h = encode raw_url_encoding header in
    let p = encode raw_url_encoding claims in
    let q = encode raw_url_encoding sig in
    let joined =
      append_assoc h dot ((p ++ dot) ++ q) ∙ ap (λ t. h ++ (b'.' ∷ t)) (append_assoc p dot q) in
    ap (split dot) (append_assoc h (b'.' ∷ p) (b'.' ∷ q) ∙ sym joined)
    ∙ split-join b'.' [] h (p ∷ q ∷ []) dot-Separates
        (contains-encode header, (contains-encode claims, (contains-encode sig, tt)))

-- What a signer has answered, and the token that SignJWT makes of it.
pub record IsSigned (g : Signer) (audience subject : Text) (expiry : ℕ) (token : Text)
    : Type 0 where
  pub header : List ℕ
  pub claims : List ℕ
  pub sig : List ℕ × List ℕ
  pub header_read :
      g.marshal_header (record { typ = codes "JWT"; alg = codes "ES256" }) ≡ some header
  pub claims_read :
      g.marshal_claims (record {
        aud = audience;
        exp = expiry;
        sub = if text_eq subject [] then codes "mailto:admin@localhost" else subject;
      })
      ≡ some claims
  pub signed : g.sign (signing_input_of header claims) ≡ some sig
  pub parts : split dot token ≡ parts_of header claims (signature sig)

-- A token of SignJWT, split at its full stops, is the encoded header, claims and signature; the
-- signature is that of the text of the first two parts with the full stop between them.
pub sign_jwt-IsSigned :
    (g : Signer) (audience subject : Text) (expiry : ℕ) (token : Text)
    → sign_jwt g audience subject expiry ≡ some token
    → IsSigned g audience subject expiry token
unfolding sign_jwt
sign_jwt-IsSigned g audience subject expiry token e =
    elim (Option-cases (g.marshal_header (record { typ = codes "JWT"; alg = codes "ES256" }))) [
      | inl bad ↦ absurd (cc (rw (bad, sign_jwt) at e))
      | inr (header, hr) ↦
          elim (Option-cases (
            g.marshal_claims (record {
              aud = audience;
              exp = expiry;
              sub = if text_eq subject [] then codes "mailto:admin@localhost" else subject;
            }))) [
              | inl bad ↦ absurd (cc (rw bad at (rw (hr, sign_jwt) at e)))
              | inr (claims, cr) ↦ elim (Option-cases (g.sign (signing_input_of header claims))) [
                | inl bad ↦ absurd (cc (rw bad at (rw cr at (rw (hr, sign_jwt) at e))))
                | inr (sig, sr) ↦
                    let made : some (jwt_of (signing_input_of header claims) (signature sig))
                        ≡ some token =
                      rw sr at (rw cr at (rw (hr, sign_jwt) at e)) in
                    record {
                      header = header;
                      claims = claims;
                      sig = sig;
                      header_read = hr;
                      claims_read = cr;
                      signed = sr;
                      parts =
                          ap (split dot) (sym (cc made))
                          ∙ split-jwt_of header claims (signature sig);
                    }
              ]
            ]
    ]
