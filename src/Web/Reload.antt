-- ===== src/Web/Reload.antt =====
-- web/ui.go and internal/rooms/manager.go: a client that opens the link of an invitation.
use gocord.Base.{
  ℕ, suc, ◌≡◌, ◌≢◌, ◌<◌, refl, ap, ◌∙◌, inl, inr, true, false, not, List, [], ◌∷◌, ◌++◌, some,
  length, any, All, arith, if◌then◌else◌, Option-cases, subst,
}
use gocord.Base.Assoc.{Text, codes, text_eq-ne, insert, lookup-insert_self}
use gocord.Base64.{encode, encode_char, raw_url_encoding}
use gocord.Base64.Chars.{IsByte}
use gocord.Rooms.State.{Reader, random_token}
use gocord.Web.Encoding.{All-encode}
use gocord.Web.Address.{
  Address, Storage, is_room_char, match_join, secret_key, take_secret, parse_room_from_location,
}

-- crypto/rand, when it answers, fills the buffer with bytes.
pub record Fills (read : Reader) : Type 0 where
  pub filled : (n : ℕ) (buf : List ℕ) → read n ≡ some buf → length buf ≡ n
  pub bytes : (n : ℕ) (buf : List ℕ) → read n ≡ some buf → All IsByte buf

is_room_char-encode_char : (n : ℕ) → n < 64 → is_room_char (encode_char true n) ≡ true
unfolding is_room_char encode_char
is_room_char-encode_char n h = ground arith

any_other_char :
    (room : Text)
    → All (λ c. is_room_char c ≡ true) room
    → any (λ c. not (is_room_char c)) room ≡ false
any_other_char [] h = refl
any_other_char (c ∷ room) (k, h) = rw (k, any_other_char room h) refl

encode-some : (bytes : List ℕ) → bytes ≢ [] → encode raw_url_encoding bytes ≢ []
unfolding encode
encode-some [] h e = h refl
encode-some (a ∷ []) h e = cc e
encode-some (a ∷ b ∷ []) h e = cc e
encode-some (a ∷ b ∷ c ∷ bytes) h e = cc e

-- A token of crypto/rand is a text of the pattern of rooms.
pub random_token-chars :
    (n : ℕ) (read : Reader) (token : Text)
    → Fills read
    → random_token (suc n) read ≡ some token
    → (token ≢ []) × All (λ c. is_room_char c ≡ true) token
unfolding random_token
random_token-chars n read token fills e = elim (Option-cases (read (suc n))) [
  | inl gone ↦ absurd (cc (rw (gone, random_token) at e))
  | inr (buf, there) ↦
      let same : encode raw_url_encoding buf ≡ token = cc (rw (there, random_token) at e) in
      subst (λ (t : Text). (t ≢ []) × All (λ c. is_room_char c ≡ true) t) same
        (
          encode-some buf (λ empty.
              omega (arith, fills.filled (suc n) buf there, ap (λ (b : List ℕ). length b) empty)),
          All-encode (λ c. is_room_char c ≡ true) is_room_char-encode_char buf
              (fills.bytes (suc n) buf there),
        )
]

match_join-room :
    (room : Text)
    → room ≢ []
    → All (λ c. is_room_char c ≡ true) room
    → match_join (codes "/join/" ++ room) ≡ some room
unfolding match_join
match_join-room room some_room chars =
    rw (text_eq-ne room [] some_room, any_other_char room chars) refl

-- The address that an invitation has for a room and its secret.
abbrev pub invitation : Text → Text → Address
invitation room secret = record { pathname = codes "/join/" ++ room; hash = b'#' ∷ secret }

abbrev pub hidden : Text → Address
hidden room = record { pathname = codes "/join/" ++ room; hash = [] }

parse_room :
    (room : Text) (address : Address) (storage : Storage)
    → match_join address.pathname ≡ some room
    → let taken = take_secret room address storage in
      parse_room_from_location address storage ≡ (some (room, taken.0), taken.1, taken.2)
unfolding parse_room_from_location
parse_room room address storage e = rw (e, parse_room_from_location) refl

-- What storage keeps of the secret.
abbrev stored : Text → Text → Storage → Storage
stored room secret storage =
    if storage.works
    then record storage { items = insert (secret_key room) secret storage.items }
    else storage

take_secret-invitation :
    (room secret : Text) (storage : Storage)
    → secret ≢ []
    → take_secret room (invitation room secret) storage
      ≡ (secret, hidden room, stored room secret storage)
unfolding take_secret
take_secret-invitation room secret storage some_secret = rw (text_eq-ne secret [] some_secret) refl

take_secret-hidden :
    (room secret : Text) (storage : Storage)
    → storage.works ≡ true
    → take_secret room (hidden room) (stored room secret storage)
      ≡ (secret, hidden room, stored room secret storage)
unfolding take_secret
take_secret-hidden room secret storage works =
    ap (λ (x : Text). (x, hidden room, stored room secret storage))
      (ground (arith, lookup-insert_self (secret_key room) secret storage.items))

-- A client that opens the invitation to a room, whose name and secret crypto/rand has drawn, gets just
-- that room and secret, and the secret leaves the address; and if sessionStorage works, a client that
-- loads the address which is left gets them again, and leaves all as it is.
pub parse_room-reload :
    (read read' : Reader) (room secret : Text) (storage : Storage)
    → Fills read
    → Fills read'
    → random_token 18 read ≡ some room
    → random_token 32 read' ≡ some secret
    → let opened = parse_room_from_location (invitation room secret) storage in
      (opened.0 ≡ some (room, secret))
      × (opened.1 ≡ hidden room)
      × (storage.works ≡ true
          → parse_room_from_location opened.1 opened.2 ≡ (some (room, secret), opened.1, opened.2))
parse_room-reload read read' room secret storage fills fills' drawn drawn' =
    let (some_room, chars) = random_token-chars 17 read room fills drawn in
    let (some_secret, _) = random_token-chars 31 read' secret fills' drawn' in
    let matched = match_join-room room some_room chars in
    let first =
      parse_room room (invitation room secret) storage matched
      ∙ ap (λ (t : Text × Address × Storage). (some (room, t.0), t.1, t.2))
          (take_secret-invitation room secret storage some_secret) in
    rw first (
      refl,
      refl,
      λ works.
          parse_room room (hidden room) (stored room secret storage) matched
          ∙ ap (λ (t : Text × Address × Storage). (some (room, t.0), t.1, t.2))
              (take_secret-hidden room secret storage works),
    )
