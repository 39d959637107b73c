-- ===== src/Config/Ice.antt =====
-- internal/config/config.go: ClientICEServers and turnCredentials. HMAC with SHA-1 is a parameter.
use gocord.Base.{ℕ, ◌+◌, ◌/◌, List, [], ◌∷◌, ◌++◌, Option, none, some, if◌then◌else◌, ◌>>=◌}
use gocord.Base.Int.{ℤ, pos, negsuc, ◌+ℤ◌}
use gocord.Base.Assoc.{Text}
use gocord.Base64.{encode, raw_url_encoding, std_encoding}
use gocord.Rooms.State.{Reader}
use gocord.Push.Send.{decimal, digits_from}
use gocord.Config.Load.{IceServer, Settings, second, is_empty}

-- Unix() of a time in nanoseconds, which rounds down.
unfoldable pub unix : ℤ → ℤ
unix (pos n) = pos (n / second)
unix (negsuc n) = negsuc (n / second)

-- `%d`.
unfoldable pub show : ℤ → Text
unfolding digits_from
show (pos n) = decimal n
show (negsuc n) = b'-' ∷ decimal (n + 1)

-- turnCredentials; `read` is rand.Read.
unfoldable pub turn_credentials : (Text → Text → List ℕ) → Text → ℤ → Reader → Option (Text × Text)
unfolding unix show encode
turn_credentials hmac_sha1 secret expiry read = do
  nonce ← read 8
  let username = show (unix expiry) ++ (b':' ∷ encode raw_url_encoding nonce)
  some (username, encode std_encoding (hmac_sha1 secret username))

abbrev pub plain_server : List Text → IceServer
plain_server urls = record { urls = urls; username = []; credential = [] }

abbrev pub stun_servers : Settings → List IceServer
stun_servers s = if is_empty s.stun_urls then [] else plain_server s.stun_urls ∷ []

-- ClientICEServers at a time in nanoseconds.
unfoldable pub client_ice_servers :
    (Text → Text → List ℕ) → Settings → ℕ → Reader → Option (List IceServer)
unfolding turn_credentials ◌+ℤ◌
client_ice_servers hmac_sha1 s now read =
    let servers = s.static_ice_servers ++ stun_servers s in
    if is_empty s.turn_urls
    then some servers
    else elim (turn_credentials hmac_sha1 s.turn_shared_secret (pos now +ℤ s.turn_credential_ttl)
        read) [
          | none ↦ none
          | some (username, credential) ↦ some (
              servers
              ++ (record { urls = s.turn_urls; username = username; credential = credential } ∷ []))
        ]
