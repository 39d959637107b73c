-- ===== src/Web/Address.antt =====
-- web/ui.go: parseRoomFromLocation, handleCardHashImport and handleRoute, which read the address of the
-- page. The history of the browser is the address that is left.
use gocord.Base.{
  ℕ, Bool, not, ◌&&◌, ◌||◌, List, [], ◌++◌, Option, none, some, option_or, if◌then◌else◌, ◌==◌, leb,
  any,
}
use gocord.Base.Assoc.{Text, codes, text_eq, lookup, insert}
use gocord.Text.{has_prefix, drop_text}
use gocord.Web.Opus.{to_lower_case, is_digit}
use gocord.Web.Card.{Json, found, parse_call_card}
use gocord.Web.State.{Client}

pub record Address : Type 0 where
  pub pathname : Text
  pub hash : Text

-- sessionStorage; one that does not work throws at every use.
pub record Storage : Type 0 where
  pub items : List (Text × Text)
  pub works : Bool

-- [A-Za-z0-9_-].
unfoldable pub is_room_char : ℕ → Bool
unfolding is_digit
is_room_char c =
    leb b'A' c && leb c b'Z' || leb b'a' c && leb c b'z' || is_digit c || c == b'_' || c == b'-'

-- The group of /^\/join\/([A-Za-z0-9_-]+)$/.
unfoldable pub match_join : Text → Option Text
unfolding has_prefix drop_text text_eq is_room_char
match_join path =
    let room = drop_text 6 path in
    if has_prefix (codes "/join/") path
      && not (text_eq room [])
      && not (any (λ c. not (is_room_char c)) room)
    then some room
    else none

abbrev pub secret_key : Text → Text
secret_key room = codes "gocord.secret." ++ room

-- The secret of the address, if it has one; it is stored, and taken out of the address.
-- encodeURIComponent leaves the characters of a room as they are.
unfoldable pub take_secret : Text → Address → Storage → Text × Address × Storage
unfolding text_eq drop_text insert lookup
take_secret room address storage =
    let secret = drop_text 1 address.hash in
    if not (text_eq secret [])
    then (
      secret,
      record { pathname = codes "/join/" ++ room; hash = [] },
      if storage.works
          then record storage { items = insert (secret_key room) secret storage.items }
          else storage,
    )
    else (
      if storage.works then option_or (lookup (secret_key room) storage.items) [] else [],
      address,
      storage,
    )

-- What parseRoomFromLocation gives: the room and its secret.
unfoldable pub parse_room_from_location :
    Address → Storage → Option (Text × Text) × Address × Storage
parse_room_from_location address storage = elim (match_join address.pathname) [
  | none ↦ (none, address, storage)
  | some room ↦
      let (secret, address', storage') = take_secret room address storage in
      (some (room, secret), address', storage')
]

-- handleCardHashImport: the address of a card that can be read becomes that of the contacts.
unfoldable pub import_card : Json → Address → Address
unfolding has_prefix parse_call_card
import_card json address =
    if has_prefix (codes "#card=") address.hash
    then elim (parse_call_card json address.hash) [
      | found card ↦ record { pathname = codes "/friends"; hash = [] }
      | _ ↦ address
    ]
    else address

-- What handleRoute shows: a view, none when it leaves the page as it is, or the view before a call,
-- with whether the server is asked for the room.
pub data View : Type 0 where
  friends : View
  home : View
  unchanged : View
  precall : Bool → View

-- handleRoute up to the server's answer.
unfoldable pub handle_route : Json → Address → Storage → Client → View × Address × Storage × Client
unfolding import_card text_eq parse_room_from_location has_prefix
handle_route json address storage c =
    let imported = import_card json address in
    let path = to_lower_case imported.pathname in
    let (here, address', storage') = parse_room_from_location imported storage in
    if text_eq path (codes "/friends") || text_eq path (codes "/contacts")
    then (friends, imported, storage, c)
    else elim here [
      | none ↦ (
        if has_prefix (codes "#card=") imported.hash then unchanged else home,
        imported,
        storage,
        c,
      )
      | some (room, secret) ↦ (
        precall (not (text_eq secret [])),
        address',
        storage',
        record c { room = room; secret = secret },
      )
    ]
