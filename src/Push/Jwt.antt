-- ===== src/Push/Jwt.antt =====
-- internal/push/vapid.go: SignJWT. encoding/json and the signature are parameters; a big.Int is the
-- list of its digits in base 256, as in Push/Vapid.
use gocord.Base.{ℕ, List, [], ◌∷◌, ◌++◌, Option, some, if◌then◌else◌, ◌>>=◌}
use gocord.Base.Assoc.{Text, text_eq, codes}
use gocord.Base64.{encode, raw_url_encoding}
use gocord.Push.Vapid.{pad_scalar}

pub record JwtHeader : Type 0 where
  pub typ : Text
  pub alg : Text

pub record JwtClaims : Type 0 where
  pub aud : Text
  pub exp : ℕ
  pub sub : Text

-- What SignJWT takes of encoding/json and of ecdsa.Sign, whose hash is that of the text.
pub record Signer : Type 0 where
  pub marshal_header : JwtHeader → Option (List ℕ)
  pub marshal_claims : JwtClaims → Option (List ℕ)
  pub sign : Text → Option (List ℕ × List ℕ)

-- FillBytes of r and of s, each into its 32 bytes.
abbrev pub signature : List ℕ × List ℕ → List ℕ
signature (r, s) = pad_scalar r ++ pad_scalar s

abbrev pub jwt_of : Text → List ℕ → Text
jwt_of signing_input sig = signing_input ++ (b'.' ∷ encode raw_url_encoding sig)

abbrev pub signing_input_of : List ℕ → List ℕ → Text
signing_input_of header claims =
    encode raw_url_encoding header ++ (b'.' ∷ encode raw_url_encoding claims)

-- `expiry` is in seconds.
unfoldable pub sign_jwt : Signer → Text → Text → ℕ → Option Text
unfolding encode pad_scalar
sign_jwt g audience subject expiry = do
  header ← g.marshal_header (record { typ = codes "JWT"; alg = codes "ES256" })
  claims ← g.marshal_claims (record {
    aud = audience;
    exp = expiry;
    sub = if text_eq subject [] then codes "mailto:admin@localhost" else subject;
  })
  sig ← g.sign (signing_input_of header claims)
  some (jwt_of (signing_input_of header claims) (signature sig))
