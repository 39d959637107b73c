-- ===== src/Base64.antt =====
-- encoding/base64 of Go's standard library, as internal/rooms/manager.go, internal/push/vapid.go,
-- internal/push/sender.go and internal/config/config.go use it: the standard and the URL-safe
-- alphabet, each with and without padding. Bytes and characters are numbers.
pub mod Chars
pub mod RoundTrip
mod Tests
use gocord.Base.{
  ℕ, ◌+◌, ◌-◌, ◌*◌, ◌/◌, ◌%◌, Bool, true, false, ◌&&◌, ◌||◌, Option, none, some, List, [], ◌∷◌,
  ◌++◌, ltb, leb, ◌==◌, if◌then◌else◌, keep, not, ◌>>=◌,
}
use gocord.Base.Assoc.{Text}

-- `url` chooses the alphabet, `padded` the padding: RawURLEncoding is (true, false).
pub record Encoding : Type 0 where
  pub url : Bool
  pub padded : Bool

abbrev pub raw_url_encoding : Encoding
raw_url_encoding = record { url = true; padded = false }

abbrev pub url_encoding : Encoding
url_encoding = record { url = true; padded = true }

abbrev pub raw_std_encoding : Encoding
raw_std_encoding = record { url = false; padded = false }

abbrev pub std_encoding : Encoding
std_encoding = record { url = false; padded = true }

unfoldable pub encode_char : Bool → ℕ → ℕ
encode_char url n =
    if ltb n 26
    then n + 65
    else if ltb n 52
    then n + 71
    else if ltb n 62
    then n - 4
    else if n == 62
    then (if url then b'-' else b'+')
    else (if url then b'_' else b'/')

unfoldable pub decode_char : Bool → ℕ → Option ℕ
decode_char url c =
    if leb b'A' c && leb c b'Z'
    then some (c - 65)
    else if leb b'a' c && leb c b'z'
    then some (c - 71)
    else if leb b'0' c && leb c b'9'
    then some (c + 4)
    else if c == (if url then b'-' else b'+')
    then some 62
    else if c == (if url then b'_' else b'/')
    then some 63
    else none

abbrev pub padding : Encoding → Text → Text
padding e p = if e.padded then p else []

-- EncodeToString.
unfoldable pub encode : Encoding → List ℕ → Text
encode e [] = []
encode e (a ∷ []) =
    encode_char e.url (a / 4) ∷ encode_char e.url (a % 4 * 16) ∷ padding e (b'=' ∷ b'=' ∷ [])
encode e (a ∷ b ∷ []) =
    encode_char e.url (a / 4)
    ∷ encode_char e.url (a % 4 * 16 + b / 16)
    ∷ encode_char e.url (b % 16 * 4)
    ∷ padding e (b'=' ∷ [])
encode e (a ∷ b ∷ c ∷ rest) =
    encode_char e.url (a / 4)
    ∷ encode_char e.url (a % 4 * 16 + b / 16)
    ∷ encode_char e.url (b % 16 * 4 + c / 64)
    ∷ encode_char e.url (c % 64)
    ∷ encode e rest

-- The last two or three characters of a quantum that is not full. Bits that are left over are
-- ignored, as the encodings are not Strict.
unfoldable pub decode_two : Bool → ℕ → ℕ → Option (List ℕ)
decode_two url w x = do p ← decode_char url w; q ← decode_char url x; some ((p * 4 + q / 16) ∷ [])

unfoldable pub decode_three : Bool → ℕ → ℕ → ℕ → Option (List ℕ)
decode_three url w x y = do
  p ← decode_char url w
  q ← decode_char url x
  r ← decode_char url y
  some ((p * 4 + q / 16) ∷ (q % 16 * 16 + r / 4) ∷ [])

unfoldable pub decode_four : Bool → ℕ → ℕ → ℕ → ℕ → Option (List ℕ) → Option (List ℕ)
decode_four url w x y z rest = do
  p ← decode_char url w
  q ← decode_char url x
  r ← decode_char url y
  s ← decode_char url z
  more ← rest
  some ((p * 4 + q / 16) ∷ (q % 16 * 16 + r / 4) ∷ (r % 4 * 64 + s) ∷ more)

-- Nothing may follow the padding.
unfoldable pub at_end : Text → Option (List ℕ) → Option (List ℕ)
at_end [] r = r
at_end (_ ∷ _) r = none

unfoldable pub decode_quanta : Encoding → Text → Option (List ℕ)
decode_quanta e [] = some []
decode_quanta e (w ∷ []) = none
decode_quanta e (w ∷ x ∷ []) = if e.padded then none else decode_two e.url w x
decode_quanta e (w ∷ x ∷ y ∷ []) = if e.padded then none else decode_three e.url w x y
decode_quanta e (w ∷ x ∷ y ∷ z ∷ rest) =
    let more = decode_quanta e rest in
    if e.padded && z == b'='
    then at_end rest (if y == b'=' then decode_two e.url w x else decode_three e.url w x y)
    else decode_four e.url w x y z more

-- DecodeString: line breaks are skipped anywhere.
unfoldable pub decode : Encoding → Text → Option (List ℕ)
unfolding decode_quanta decode_two decode_three decode_four at_end decode_char
decode e s = decode_quanta e (keep (λ c. not (c == 10 || c == 13)) s)
