-- ===== src/Httpapp/Routes.antt =====
-- internal/httpapp/server.go: New, Handler with its routes, and the handlers of the files. A file of
-- the build is a field of Site, and so is what net/http's file server answers for the assets.
use gocord.Base.{ℕ, ◌*◌, Bool, not, ◌&&◌, List, [], ◌∷◌, ◌++◌, Option, none, some, if◌then◌else◌}
use gocord.Base.Int.{ℤ, pos, negsuc}
use gocord.Base.Assoc.{Text, text_eq, codes}
use gocord.Text.{contains, split, join, drop_text}
use gocord.Rooms.State.{Reader}
use gocord.Rooms.History.{World}
use gocord.Push.Sender.{SendError}
use gocord.Signaling.Candidate.{Raw}
use gocord.Signaling.Codec.{Codec}
use gocord.Signaling.Origin.{Upgrade, Origin, same_origin}
use gocord.Signaling.Handler.{Opening, serve_first}
use gocord.Config.Env.{Fraction}
use gocord.Config.Load.{IceServer, Settings}
use gocord.Httpapp.RateLimit.{RateLimiter, new_rate_limiter}
use gocord.Httpapp.Client.{Request}
use gocord.Httpapp.Mux.{
  Route, literal, wildcard, rest, Dispatch, dispatch, moved, not_allowed, no_route, handled,
}
use gocord.Httpapp.Server.{
  App, Response, file, PushRequest, create_room, room_status, client_config, push_notify,
  index_page, security_headers,
}

abbrev favicon_mark : Text
favicon_mark = codes "content=\"/assets/favicon.png\""

-- The page that New makes of the file; bytes.ReplaceAll.
unfoldable pub page_of : Text → Text → Text
unfolding text_eq contains split join
page_of public_base_url index =
    if not (text_eq public_base_url []) && not (contains (codes "[::1]") public_base_url)
    then join (codes "content=\"" ++ (public_base_url ++ codes "/assets/favicon.png\""))
        (split favicon_mark index)
    else index

abbrev pub magnitude : ℤ → ℕ
magnitude (pos n) = n
magnitude (negsuc n) = 0

-- The limiter for a rate and a burst, over their common denominator. No burst is below zero where
-- it is read, since Load refuses one with a positive rate.
unfoldable pub limiter_of : Fraction → Fraction → RateLimiter
unfolding new_rate_limiter
limiter_of rate burst =
    new_rate_limiter (magnitude rate.num * burst.den) (magnitude burst.num * rate.den)
      (rate.den * burst.den)

abbrev pub app_of : Settings → World → App
app_of s world = record {
  world = world;
  create_limit = limiter_of s.room_create_rate s.room_create_burst;
  push_limit = limiter_of s.push_rate s.push_burst;
}

-- New, for a world in which the manager is; `parses` is whether url.Parse takes the base URL.
unfoldable pub new_app : (Text → Bool) → Settings → World → Option App
unfolding limiter_of
new_app parses s world = if not (parses s.public_base_url) then none else some (app_of s world)

-- What stays the same between requests.
pub record Site : Type 0 where
  pub sha256 : Text → Text
  pub invite_url : Text → Text → Text
  pub settings : Settings
  pub public_key : Text
  pub send : PushRequest → Option SendError
  pub index_html : Text
  pub styles : Text
  pub app_js : Text
  pub sw : Text
  pub codec : Codec
  pub parse_origin : Text → Option Origin
  pub file_server : List (Text × Text) → Text → Response

-- A request, its decoded body, and what the clock, crypto/rand and ClientICEServers answer while it
-- is served. Of a request for the signaling protocol, the headers Origin and Host, whether the
-- WebSocket library can upgrade it, the first message of the connection, none if reading it fails,
-- and what crypto/rand answers to Join.
pub record Visit : Type 0 where
  pub request : Request
  pub method : Text
  pub body : Option PushRequest
  pub limit_now : ℕ
  pub now : ℕ
  pub read_id : Reader
  pub read_secret : Reader
  pub ice_servers : Option (List IceServer)
  pub origin : Text
  pub host : Text
  pub can_upgrade : Bool
  pub first : Option Raw
  pub read_token : Reader

-- The handlers by their routes.
pub data Endpoint : Type 0 where
  rooms : Endpoint
  room : Endpoint
  config : Endpoint
  push : Endpoint
  styles_css : Endpoint
  app_script : Endpoint
  service_worker : Endpoint
  signaling : Endpoint
  assets : Endpoint
  favicon : Endpoint
  page : Endpoint

abbrev pub get : Text
get = codes "GET"

abbrev pub post : Text
post = codes "POST"

-- Handler's routes, in its order.
abbrev pub routes : List (Route Endpoint)
routes =
    record {
      method = post;
      segments = literal (codes "api") ∷ literal (codes "rooms") ∷ [];
      handler = rooms;
    }
    ∷ record {
      method = get;
      segments = literal (codes "api") ∷ literal (codes "rooms") ∷ wildcard ∷ [];
      handler = room;
    }
    ∷ record {
      method = get;
      segments = literal (codes "api") ∷ literal (codes "config") ∷ [];
      handler = config;
    }
    ∷ record {
      method = post;
      segments = literal (codes "api") ∷ literal (codes "push") ∷ literal (codes "notify") ∷ [];
      handler = push;
    }
    ∷ record {
      method = get;
      segments = literal (codes "assets") ∷ literal (codes "styles.css") ∷ [];
      handler = styles_css;
    }
    ∷ record {
      method = get;
      segments = literal (codes "assets") ∷ literal (codes "app.js") ∷ [];
      handler = app_script;
    }
    ∷ record { method = get; segments = literal (codes "sw.js") ∷ []; handler = service_worker }
    ∷ record {
      method = get;
      segments = literal (codes "assets") ∷ literal (codes "sw.js") ∷ [];
      handler = service_worker;
    }
    ∷ record { method = get; segments = literal (codes "ws") ∷ rest ∷ []; handler = signaling }
    ∷ record { method = get; segments = literal (codes "assets") ∷ rest ∷ []; handler = assets }
    ∷ record { method = get; segments = literal (codes "favicon.ico") ∷ []; handler = favicon }
    ∷ record { method = get; segments = literal (codes "join") ∷ wildcard ∷ []; handler = page }
    ∷ record { method = get; segments = literal (codes "friends") ∷ []; handler = page }
    ∷ record { method = get; segments = literal (codes "contacts") ∷ []; handler = page }
    ∷ record { method = get; segments = rest ∷ []; handler = page }
    ∷ []

-- What a request ends in: a response, one of net/http's own (a redirection, 404, or 405 with the
-- methods that are allowed), or what the signaling protocol's handler makes of the first message of a
-- connection, none if there is no connection.
pub data Reply : Type 0 where
  answered : Response → Reply
  redirected : Text → Reply
  not_found : Reply
  method_not_allowed : List Text → Reply
  to_signaling : Option Opening → Reply

-- stylesCSS, appScript and serviceWorker.
unfoldable pub styles_css_response : Site → Response
styles_css_response site = record {
  status = 200;
  headers =
      (codes "Content-Type", codes "text/css; charset=utf-8")
      ∷ (codes "Cache-Control", codes "no-cache")
      ∷ [];
  body = file site.styles;
}

unfoldable pub app_script_response : Site → Response
app_script_response site = record {
  status = 200;
  headers =
      (codes "Content-Type", codes "application/javascript; charset=utf-8")
      ∷ (codes "Cache-Control", codes "no-cache")
      ∷ [];
  body = file site.app_js;
}

unfoldable pub service_worker_response : Site → Response
service_worker_response site = record {
  status = 200;
  headers =
      (codes "Content-Type", codes "application/javascript; charset=utf-8")
      ∷ (codes "Cache-Control", codes "no-cache, no-store, must-revalidate")
      ∷ (codes "Service-Worker-Allowed", codes "/")
      ∷ [];
  body = file site.sw;
}

-- cacheControlAssets around the file server.
unfoldable pub assets_response : Site → Text → Response
assets_response site path =
    site.file_server ((codes "Cache-Control", codes "public, max-age=31536000, immutable") ∷ [])
      path

abbrev pub index_reply : Option Response → Reply
index_reply none = not_found
index_reply (some r) = answered r

-- r.PathValue("room") of "/api/rooms/{room}".
abbrev pub third_part : List Text → Text
third_part (_ ∷ _ ∷ part ∷ _) = part
third_part _ = []

abbrev with_answer : App × Response → App × Reply
with_answer (a, r) = (a, answered r)

abbrev pub upgrade_of : Visit → Upgrade
upgrade_of v = record {
  origin = v.origin;
  host = v.host;
  tls = v.request.tls;
  forwarded_proto = v.request.forwarded_proto;
}

-- Whether the upgrader of the signaling protocol's handler, whose CheckOrigin is sameOrigin, makes a
-- connection of the request.
unfoldable pub is_upgraded : Site → Visit → Bool
unfolding same_origin
is_upgraded site v =
    v.can_upgrade && same_origin site.parse_origin site.settings.trust_proxy_headers (upgrade_of v)

-- A call of a route's handler, with the parts of the path. The handler of the signaling protocol goes
-- on for as long as the connection: here it is served up to its read loop, and from there by the
-- steps of Signaling.System.
unfoldable pub serve_endpoint : Site → Visit → Endpoint → List Text → App → App × Reply
unfolding is_upgraded serve_first create_room room_status client_config push_notify index_page
    styles_css_response app_script_response service_worker_response assets_response page_of
    drop_text
serve_endpoint site v rooms parts a = with_answer (
    create_room site.sha256 site.invite_url site.settings.trust_proxy_headers v.request v.limit_now
      v.now v.read_id v.read_secret a)
serve_endpoint site v room parts a = (a, answered (room_status (third_part parts) v.now a))
serve_endpoint site v config parts a =
    (a, answered (client_config v.ice_servers site.settings site.public_key))
serve_endpoint site v push parts a =
    with_answer
      (push_notify site.send site.settings.trust_proxy_headers v.request v.body v.limit_now a)
serve_endpoint site v styles_css parts a = (a, answered (styles_css_response site))
serve_endpoint site v app_script parts a = (a, answered (app_script_response site))
serve_endpoint site v service_worker parts a = (a, answered (service_worker_response site))
serve_endpoint site v signaling parts a =
    let (world, opening) = serve_first site.sha256 site.codec v.first v.read_token v.now a.world in
    if is_upgraded site v
    then (record a { world = world }, to_signaling (some opening))
    else (a, to_signaling none)
serve_endpoint site v assets parts a =
    (a, answered (assets_response site (drop_text 8 v.request.path)))
serve_endpoint site v favicon parts a = (a, redirected (codes "/assets/favicon.ico"))
serve_endpoint site v page parts a = (
  a,
  index_reply (index_page (page_of site.settings.public_base_url site.index_html) v.request.path),
)

-- What the mux of Handler does with a request.
unfoldable pub serve_dispatch : Site → Visit → Dispatch Endpoint → App → App × Reply
unfolding serve_endpoint
serve_dispatch site v (moved path) a = (a, redirected path)
serve_dispatch site v (not_allowed methods) a = (a, method_not_allowed methods)
serve_dispatch site v no_route a = (a, not_found)
serve_dispatch site v (handled endpoint parts) a = serve_endpoint site v endpoint parts a

-- The handler that Handler gives: the headers that securityHeaders sets before the mux runs, and
-- what comes of the request.
unfoldable pub serve_http : Site → Visit → App → App × List (Text × Text) × Reply
unfolding dispatch serve_dispatch security_headers
serve_http site v a =
    let (a', reply) = serve_dispatch site v (dispatch v.method v.request.path routes) a in
    (a', security_headers v.request, reply)
