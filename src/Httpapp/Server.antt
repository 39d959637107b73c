-- ===== src/Httpapp/Server.antt =====
-- internal/httpapp/server.go: the handlers of rooms, of push messages and of the page, and the
-- security headers. A response is its status, its headers in the order in which they are set, and
-- what is encoded or written as its body.
use gocord.Base.{ℕ, Bool, not, ◌&&◌, ◌||◌, List, [], ◌∷◌, Option, none, some, if◌then◌else◌}
use gocord.Base.Int.{ℤ}
use gocord.Base.Assoc.{Text, text_eq, codes}
use gocord.Text.{trim_space, has_prefix, fold, equal_fold}
use gocord.Rooms.State.{at_capacity, Reader, Status}
use gocord.Rooms.Lifecycle.{Created, created, not_created, create, status}
use gocord.Rooms.History.{World}
use gocord.Push.Sender.{
  Subscription, SendError, subscription_expired, invalid_subscription, vapid_key_mismatch,
}
use gocord.Config.Load.{IceServer, Settings}
use gocord.Httpapp.RateLimit.{RateLimiter, allow}
use gocord.Httpapp.Client.{Request, client_key}

-- The values that are encoded as JSON, and the files that are written as they are.
pub data Body : Type 0 where
  error_body : Text → Body
  created_body : Text → Text → Text → ℕ → Body
  not_exists : Body
  status_body : Status → Body
  ok_body : Body
  send_error_body : SendError → Body
  config_body : List IceServer → Bool → Text → Body
  file : Text → Body

pub record Response : Type 0 where
  pub status : ℕ
  pub headers : List (Text × Text)
  pub body : Body

unfoldable pub write_json : ℕ → Body → Response
write_json status body = record {
  status = status;
  headers =
      (codes "Content-Type", codes "application/json; charset=utf-8")
      ∷ (codes "Cache-Control", codes "no-store")
      ∷ [];
  body = body;
}

abbrev retry_after : Text → Response → Response
retry_after seconds r = record r { headers = (codes "Retry-After", seconds) ∷ r.headers }

-- What the application keeps between requests.
pub record App : Type 0 where
  pub world : World
  pub create_limit : RateLimiter
  pub push_limit : RateLimiter

-- createRoom's answer to what Create gives; `invite_url` is JoinPath, the fragment and String of
-- net/url for the base URL.
unfoldable pub created_response : (Text → Text → Text) → Created → Response
unfolding write_json
created_response invite_url (created room secret) =
    write_json 201 (created_body room.id secret (invite_url room.id secret) room.expires_at)
created_response invite_url (not_created at_capacity) =
    retry_after (codes "120")
      (write_json 503 (error_body (codes "server is at capacity, try again shortly")))
created_response invite_url (not_created _) =
    write_json 500 (error_body (codes "could not create room"))

-- createRoom. The limiter and the manager each read the clock.
unfoldable pub create_room :
    (Text → Text)
    → (Text → Text → Text)
    → Bool
    → Request
    → ℕ
    → ℕ
    → Reader
    → Reader
    → App
    → App × Response
unfolding allow client_key create created_response
create_room sha256 invite_url trust_proxy r limit_now now read_id read_secret a =
    let (limit, let_in) = allow (client_key r trust_proxy) limit_now a.create_limit in
    let a' = record a { create_limit = limit } in
    let (m, heap, made) = create sha256 read_id read_secret now a.world.manager a.world.heap in
    if not let_in
    then (
      a',
      retry_after (codes "60")
          (write_json 429 (error_body (codes "too many rooms created, slow down"))),
    )
    else (
      record a' { world = record { manager = m; heap = heap } },
      created_response invite_url made,
    )

-- roomStatus.
unfoldable pub room_status : Text → ℕ → App → Response
unfolding status write_json
room_status room now a =
    let s = status room now a.world.manager in
    if not s.exists then write_json 404 not_exists else write_json 200 (status_body s)

-- clientConfig, with what ClientICEServers answers; "ipv6Only" is always false.
unfoldable pub client_config : Option (List IceServer) → Settings → Text → Response
unfolding write_json
client_config ice_servers s vapid_public_key = elim ice_servers [
  | none ↦ write_json 500 (error_body (codes "could not generate ICE configuration"))
  | some servers ↦ write_json 200 (config_body servers s.dev_diagnostics vapid_public_key)
]

-- The body of a push request, once it is decoded.
pub record PushRequest : Type 0 where
  pub subscription : Subscription
  pub payload : List ℕ
  pub ttl : ℤ

-- pushNotify's answer to what Send gives.
unfoldable pub sent_response : Option SendError → Response
unfolding write_json
sent_response none = write_json 200 ok_body
sent_response (some subscription_expired) =
    write_json 410 (error_body (codes "subscription has expired"))
sent_response (some invalid_subscription) =
    write_json 400 (error_body (codes "invalid subscription parameters"))
sent_response (some vapid_key_mismatch) = write_json 410 (
    error_body (
      codes
        "contact's Call Card was created with a different server key. Ask them to click 'Refresh' and send an updated Call Card."))
sent_response (some e) = write_json 502 (send_error_body e)

unfoldable pub is_incomplete : Subscription → Bool
unfolding trim_space text_eq
is_incomplete sub =
    text_eq (trim_space sub.endpoint) []
    || text_eq (trim_space sub.keys.p256dh) []
    || text_eq (trim_space sub.keys.auth) []

-- pushNotify. `body` is the decoded body, none if it is too long or is refused, and `send` is the
-- sender's Send.
unfoldable pub push_notify :
    (PushRequest → Option SendError)
    → Bool
    → Request
    → Option PushRequest
    → ℕ
    → App
    → App × Response
unfolding allow client_key sent_response is_incomplete
push_notify send trust_proxy r body limit_now a =
    let (limit, let_in) = allow (client_key r trust_proxy) limit_now a.push_limit in
    let a' = record a { push_limit = limit } in
    if not let_in
    then (
      a',
      retry_after (codes "60")
          (write_json 429 (error_body (codes "too many push notifications, slow down"))),
    )
    else elim body [
      | none ↦ (a', write_json 400 (error_body (codes "invalid request body")))
      | some req ↦
          if is_incomplete req.subscription
          then (a', write_json 400 (error_body (codes "subscription missing endpoint or keys")))
          else (a', sent_response (send req))
    ]

unfoldable pub page_response : Text → Response
page_response index = record {
  status = 200;
  headers =
      (codes "Content-Type", codes "text/html; charset=utf-8")
      ∷ (codes "Cache-Control", codes "no-store")
      ∷ [];
  body = file index;
}

-- indexPage; none is http.NotFound.
unfoldable pub index_page : Text → Text → Option Response
unfolding text_eq has_prefix page_response
index_page index path =
    if not (text_eq path (codes "/"))
      && not (text_eq path (codes "/friends"))
      && not (text_eq path (codes "/contacts"))
      && not (has_prefix (codes "/join/") path)
    then none
    else some (page_response index)

-- The headers of securityHeaders, which are set before the handler's own.
unfoldable pub security_headers : Request → List (Text × Text)
unfolding fold text_eq
security_headers r =
    (
      codes "Content-Security-Policy",
      codes
          "default-src 'self'; script-src 'self'; style-src 'self'; img-src 'self' data:; media-src 'self' blob:; connect-src 'self' ws: wss:; worker-src 'self'; object-src 'none'; base-uri 'none'; frame-ancestors 'none'",
    )
    ∷ (codes "Permissions-Policy", codes "camera=(self), microphone=(self), fullscreen=(self)")
    ∷ (codes "Referrer-Policy", codes "no-referrer")
    ∷ (codes "X-Content-Type-Options", codes "nosniff")
    ∷ (codes "X-Frame-Options", codes "DENY")
    ∷ (if r.tls || equal_fold r.forwarded_proto (codes "https")
        then (codes "Strict-Transport-Security", codes "max-age=31536000; includeSubDomains") ∷ []
        else [])
