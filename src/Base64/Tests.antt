-- ===== src/Base64/Tests.antt =====
-- encoding/base64 at concrete inputs: the test vectors of RFC 4648, and the theorems on them.
use gocord.Base.{◌≡◌, refl, true, false, [], ◌∷◌, some, arith}
use gocord.Base.Assoc.{codes}
use gocord.Base64.{Encoding, encode, encode_char, decode}
use gocord.Base64.Chars.{Agrees}
use gocord.Base64.RoundTrip.{decode-encode, decode-Agrees}

abbrev std : Encoding
std = record { url = false; padded = true }

abbrev raw_url : Encoding
raw_url = record { url = true; padded = false }

encode_tests :
    (encode std (codes "fo") ≡ codes "Zm8=")
    × (encode std (codes "foobar") ≡ codes "Zm9vYmFy")
    × (encode raw_url (251 ∷ 240 ∷ []) ≡ codes "-_A")
unfolding encode encode_char
encode_tests = (refl, refl, refl)

decode-encode_example : decode std (codes "Zm8=") ≡ some (codes "fo")
unfolding encode encode_char
decode-encode_example = decode-encode std (codes "fo") (omega arith, (omega arith, tt))

decode-Agrees_example : Agrees (decode raw_url (codes "Zm8=")) (codes "fo")
unfolding encode encode_char
decode-Agrees_example = decode-Agrees std raw_url (codes "fo") (omega arith, (omega arith, tt))
