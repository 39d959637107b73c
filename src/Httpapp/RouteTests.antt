-- ===== src/Httpapp/RouteTests.antt =====
-- Requests to the application of internal/httpapp/server.go at concrete inputs, and the theorems at
-- inputs that meet their hypotheses.
use gocord.Base.{replicate, ◌≡◌, ◌⊎◌, refl, inr, [], ◌∷◌, ◌++◌, none, some, true, false}
use gocord.Base.Assoc.{lookup, insert, Text, codes, text_eq}
use gocord.Text.{byte_length, split, split_from, join, join_from, has_prefix, has_suffix, drop_text}
use gocord.Config.Load.{read_settings}
use gocord.Config.Tests.{conversions, nothing_set}
use gocord.Httpapp.Mux as Mux
use gocord.Httpapp.Mux.{Dispatch, moved, not_allowed, handled, dispatch, clean_path}
use gocord.Httpapp.Server.{App, create_room, page_response, security_headers}
use gocord.Httpapp.Routes.{
  Endpoint, rooms, room, signaling, assets, styles_css, page, get, post, routes, Site, Visit,
  serve_http, answered, to_signaling, page_of,
}
use gocord.Rooms.Peer.{allocate}
use gocord.Rooms.Membership.{join as join_room}
use gocord.Base64.{encode_char, encode, raw_url_encoding}
use gocord.Signaling.Codec.{Codec}
use gocord.Signaling.Handler.{opened}
use gocord.Httpapp.Routed.{Greets, serve_http-app}
use gocord.Httpapp.Page.{serve_http-page}
use gocord.Httpapp.ServerTests.{app, hash, invite, filled, direct}

routed : Unit {0}
unfolding dispatch Mux.dispatch_parts Mux.is_tree Mux.clean_path Mux.clean_parts Mux.parts_of
    Mux.lookup Mux.is_exact Mux.allowed_methods text_eq has_suffix has_prefix split split_from join
    join_from drop_text
routed = tt

abbrev at : Text → Text → Dispatch Endpoint
at method path = dispatch method path routes

dispatch_tests :
    (at post (codes "/api/rooms") ≡ handled rooms (codes "api" ∷ codes "rooms" ∷ []))
    × (at get (codes "/api/rooms/r") ≡ handled room (codes "api" ∷ codes "rooms" ∷ codes "r" ∷ []))
    × (at (codes "HEAD") (codes "/assets/styles.css")
        ≡ handled styles_css (codes "assets" ∷ codes "styles.css" ∷ []))
    × (at get (codes "/assets/a/b") ≡ handled assets (codes "assets" ∷ codes "a" ∷ codes "b" ∷ []))
    × (at get (codes "/ws/") ≡ handled signaling (codes "ws" ∷ [] ∷ []))
    × (at get (codes "/nope/") ≡ handled page (codes "nope" ∷ [] ∷ []))
unfolding routed
dispatch_tests = (refl, refl, refl, refl, refl, refl)

refusal_tests :
    (at get (codes "/ws") ≡ moved (codes "/ws/"))
    × (at get (codes "/a//b/../friends") ≡ moved (codes "/a/friends"))
    × (at post (codes "/friends") ≡ not_allowed (get ∷ codes "HEAD" ∷ []))
    × (at (codes "PUT") (codes "/api/rooms") ≡ not_allowed (get ∷ codes "HEAD" ∷ post ∷ []))
unfolding routed
refusal_tests = (refl, refl, refl, refl)

-- The name and the secret of a room that crypto/rand draws as zeros.
abbrev room_id : Text
room_id = encode raw_url_encoding (replicate 18 0)

abbrev room_secret : Text
room_secret = encode raw_url_encoding (replicate 32 0)

abbrev plain_codec : Codec
plain_codec = record {
  unmarshal_message = λ raw. some (record { type = codes "join"; room = room_id; payload = raw });
  unmarshal_join =
      λ raw. some (record { secret = room_secret; client_id = codes "c"; session_token = [] });
  unmarshal_description = λ raw. none;
  unmarshal_candidate = λ raw. none;
  marshal_message = λ m. some m.type;
  marshal_description = λ d. none;
  marshal_error = λ e. e.code;
  marshal_joined = λ role count token. token;
}

abbrev pub site : Site
site = record {
  sha256 = hash;
  invite_url = invite;
  settings = read_settings conversions nothing_set;
  public_key = [];
  send = λ r. none;
  index_html = codes "page";
  styles = [];
  app_js = [];
  sw = [];
  codec = plain_codec;
  parse_origin = λ t. some (record { scheme = codes "http"; host = t });
  file_server = λ h p. page_response p;
}

abbrev pub visit : Text → Text → Visit
visit method path = record {
  request = record direct { path = path };
  method = method;
  body = none;
  limit_now = 5;
  now = 5;
  read_id = filled 0;
  read_secret = filled 0;
  ice_servers = some [];
  origin = codes "h";
  host = codes "h";
  can_upgrade = false;
  first = none;
  read_token = filled 0;
}

-- A request for the signaling protocol that is upgraded, with a first message that asks to join.
abbrev socket_visit : Visit
socket_visit = record (visit get (codes "/ws/")) { can_upgrade = true; first = some (codes "{}") }

-- The application after a request that has created that room.
abbrev room_app : App
room_app = (create_room hash invite false direct 5 5 (filled 0) (filled 0) app).0

socket_tests :
    ((serve_http site socket_visit room_app).2
      ≡ to_signaling (some (opened (record { room = room_id; client = codes "c"; peer = 0 }))))
    × ((serve_http site (record socket_visit { origin = codes "other" }) room_app).2
        ≡ to_signaling none)
unfolding routed serve_http read_settings encode byte_length join_room lookup insert encode_char
    allocate
socket_tests = (refl, refl)

serve_http-app_example :
    let v = socket_visit in
    let a' = (serve_http site v room_app).0 in
    ((v.method ≡ post) × (v.request.path ≡ codes "/api/rooms")
      ⊎ (((v.method ≡ get) ⊎ (v.method ≡ codes "HEAD"))
          × ((s : Text) × (v.request.path ≡ codes "/ws/" ++ s)))
        × Greets site v room_app a'
      ⊎ (a'.world ≡ room_app.world))
    × ((v.method ≡ post) × (v.request.path ≡ codes "/api/rooms")
        ⊎ (a'.create_limit ≡ room_app.create_limit))
    × ((v.method ≡ post) × (v.request.path ≡ codes "/api/push/notify")
        ⊎ (a'.push_limit ≡ room_app.push_limit))
serve_http-app_example = serve_http-app site socket_visit room_app

serve_http-page_example : serve_http site (visit (codes "HEAD") (codes "/join/a/b")) app ≡ (
  app,
  security_headers (visit (codes "HEAD") (codes "/join/a/b")).request,
  answered (page_response (page_of site.settings.public_base_url (codes "page"))),
)
unfolding routed
serve_http-page_example =
    serve_http-page site (visit (codes "HEAD") (codes "/join/a/b")) app (inr refl) refl
      (inr (inr (inr (codes "a/b", refl))))
