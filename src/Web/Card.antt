-- ===== src/Web/Card.antt =====
-- web/ui.go: updateCallCardLink and parseCallCard. JSON.stringify and JSON.parse are the fields of
-- `Json`.
use gocord.Base.{
  ℕ, zero, suc, ◌%◌, ◌||◌, [], ◌∷◌, ◌++◌, Option, none, some, length, if◌then◌else◌, ◌==◌, ◌>>=◌,
  map, get_elem?, option_or,
}
use gocord.Base.Assoc.{Text, codes, text_eq}
use gocord.Text.{contains, split}
use gocord.Web.Opus.{trim}
use gocord.Web.Encoding.{atob, to_std, encode_base64_url}
use gocord.Web.Utf8 as Utf8

pub record Card : Type 0 where
  pub name : Text
  pub endpoint : Text
  pub p256dh : Text
  pub auth : Text

-- The fields of a parsed value that are read, those below `subscription` too. An absent text is
-- empty, as both are falsy.
pub record Parsed : Type 0 where
  pub name : Text
  pub endpoint : Text
  pub p256dh : Text
  pub auth : Text
  pub sub_endpoint : Text
  pub sub_p256dh : Text
  pub sub_auth : Text

-- What JSON.stringify makes of a card. JSON.parse throws (none), or gives a falsy value
-- (some none) or another one.
pub record Json : Type 0 where
  pub stringify : Card → Text
  pub parse : Text → Option (Option Parsed)

-- The loop of decodeBase64URL; three rounds are enough.
unfoldable pub pad_loop : ℕ → Text → Text
pad_loop zero s = s
pad_loop (suc fuel) s =
    let more = pad_loop fuel (s ++ (b'=' ∷ [])) in if length s % 4 == 0 then s else more

-- decodeBase64URL; none is an exception.
unfoldable pub decode_base64_url : Text → Option Text
unfolding pad_loop atob to_std Utf8.decode
decode_base64_url s = do bytes ← atob (pad_loop 3 (map to_std s)); Utf8.decode bytes

abbrev pub card_mark : Text
card_mark = codes "#card="

-- updateCallCardLink.
unfoldable pub call_card_link : Json → Text → Card → Text
unfolding encode_base64_url Utf8.encode
call_card_link json origin card =
    (origin ++ codes "/friends")
    ++ (card_mark ++ encode_base64_url (Utf8.encode (json.stringify card)))

pub data CardReply : Type 0 where
  undecodable : CardReply
  incomplete : CardReply
  found : Card → CardReply

-- `||` on texts.
abbrev pub or_text : Text → Text → Text
or_text a b = if text_eq a [] then b else a

unfoldable pub read_card : Parsed → CardReply
unfolding text_eq
read_card p =
    let endpoint = or_text p.endpoint p.sub_endpoint in
    let p256dh = or_text p.p256dh p.sub_p256dh in
    let auth = or_text p.auth p.sub_auth in
    if text_eq endpoint [] || text_eq p256dh [] || text_eq auth []
    then incomplete
    else found (record { name = p.name; endpoint = endpoint; p256dh = p256dh; auth = auth })

-- The text after the mark of a link, if it has one. A text that begins with the mark has it.
unfoldable pub card_input : Text → Text
unfolding trim contains split
card_input raw =
    let input = trim raw in
    if contains card_mark input then option_or (get_elem? (split card_mark input) 1) [] else input

abbrev pub reply_of : Option Parsed → CardReply
reply_of none = undecodable
reply_of (some p) = read_card p

-- The value that is parsed first from the decoded text, and then from the text itself.
unfoldable pub parse_input : Json → Text → CardReply
unfolding decode_base64_url read_card
parse_input json input = elim (decode_base64_url input >>= json.parse) [
  | some parsed ↦ reply_of parsed
  | none ↦ elim (json.parse input) [ some parsed ↦ reply_of parsed | none ↦ undecodable ]
]

-- parseCallCard.
unfoldable pub parse_call_card : Json → Text → CardReply
unfolding card_input parse_input
parse_call_card json raw = parse_input json (card_input raw)
