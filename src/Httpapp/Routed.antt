-- ===== src/Httpapp/Routed.antt =====
-- internal/httpapp/server.go: which requests change the application.
use gocord.Base.{
  ℕ, ◌≡◌, ◌⊎◌, refl, sym, ap, ◌∙◌, inl, inr, Bool, true, false, List, [], ◌∷◌, ◌++◌, Option, none,
  some, if◌then◌else◌, arith, All, map,
}
use gocord.Base.Assoc.{Text, text_eq_iff, codes}
use gocord.Text.{join}
use gocord.Httpapp.Mux.{
  rest, literal, Route, slash, parts_of, matches, Dispatch, moved, not_allowed, no_route, handled,
  dispatch,
}
use gocord.Rooms.State.{Reader}
use gocord.Push.Sender.{SendError}
use gocord.Signaling.Origin.{same_origin}
use gocord.Signaling.Handler.{serve_first}
use gocord.Httpapp.Client.{Request}
use gocord.Httpapp.Server.{App, PushRequest, create_room, push_notify}
use gocord.Httpapp.Routes.{
  signaling, Endpoint, rooms, push, get, post, routes, Site, Visit, Reply, is_upgraded, upgrade_of,
  serve_endpoint, serve_dispatch, serve_http,
}
use gocord.Httpapp.Found.{Found, lookup-some, path_of, dispatch-handled}

-- What is changed by the handlers of routes, and their routes.
record IsInPlace (r : Route Endpoint) : Type 0 where
  rooms_place :
      r.handler ≡ rooms
      → (r.method ≡ post) × (r.segments ≡ literal (codes "api") ∷ literal (codes "rooms") ∷ [])
  push_place :
      r.handler ≡ push
      → (r.method ≡ post)
        × (r.segments
            ≡ literal (codes "api") ∷ literal (codes "push") ∷ literal (codes "notify") ∷ [])
  signaling_place :
      r.handler ≡ signaling → (r.method ≡ get) × (r.segments ≡ literal (codes "ws") ∷ rest ∷ [])

routes-IsInPlace : All IsInPlace routes
routes-IsInPlace = ground arith

-- The WebSocket library upgrades the request, sameOrigin has accepted its origin, and the world is as the signaling protocol's handler
-- leaves it after the first message.
abbrev pub Greets : Site → Visit → App → App → Type 0
Greets site v a a' =
    (v.can_upgrade ≡ true)
    × (same_origin site.parse_origin site.settings.trust_proxy_headers (upgrade_of v) ≡ true)
    × (a'.world ≡ (serve_first site.sha256 site.codec v.first v.read_token v.now a.world).0)

-- What the handler of a route leaves alone.
record Leaves (site : Site) (v : Visit) (endpoint : Endpoint) (a a' : App) : Type 0 where
  world : (endpoint ≡ rooms) ⊎ ((endpoint ≡ signaling) × Greets site v a a') ⊎ (a'.world ≡ a.world)
  create_limit : (endpoint ≡ rooms) ⊎ (a'.create_limit ≡ a.create_limit)
  push_limit : (endpoint ≡ push) ⊎ (a'.push_limit ≡ a.push_limit)

create_room-push_limit :
    (sha256 : Text → Text) (invite_url : Text → Text → Text) (trust_proxy : Bool) (r : Request)
    (limit_now now : ℕ) (read_id read_secret : Reader) (a : App)
    → (create_room sha256 invite_url trust_proxy r limit_now now read_id read_secret a).0.push_limit
      ≡ a.push_limit
unfolding create_room
create_room-push_limit sha256 invite_url trust_proxy r limit_now now read_id read_secret a =
    ground arith

push_notify-world :
    (send : PushRequest → Option SendError) (trust_proxy : Bool) (r : Request)
    (body : Option PushRequest) (limit_now : ℕ) (a : App)
    → let a' = (push_notify send trust_proxy r body limit_now a).0 in
      (a'.world ≡ a.world) × (a'.create_limit ≡ a.create_limit)
unfolding push_notify
push_notify-world send trust_proxy r none limit_now a = ground arith
push_notify-world send trust_proxy r (some req) limit_now a = ground arith

matches-literals :
    (texts parts : List Text) → matches (map literal texts) parts ≡ true → parts ≡ texts
unfolding matches
matches-literals [] [] e = refl
matches-literals [] (p ∷ parts) e = absurd (cc e)
matches-literals (t ∷ texts) [] e = absurd (cc e)
matches-literals (t ∷ texts) (p ∷ parts) e =
    ground (arith, text_eq_iff t p, matches-literals texts parts)

matches-socket :
    (parts : List Text)
    → matches (literal (codes "ws") ∷ rest ∷ []) parts ≡ true
    → (part : Text) × (others : List Text) × (parts ≡ codes "ws" ∷ part ∷ others)
unfolding matches
matches-socket [] e = absurd (cc e)
matches-socket (p ∷ []) e = absurd (ground arith)
matches-socket (p ∷ part ∷ others) e = (
  part,
  others,
  ap (λ (x : Text). x ∷ part ∷ others) (ground (arith, text_eq_iff (codes "ws") p)),
)

module _ (site : Site) (v : Visit) where
  -- A request that is upgraded is greeted, and another changes nothing.
  upgrade-Leaves :
      (a : App) (opened closed : Reply) (upgraded : Bool)
      → is_upgraded site v ≡ upgraded
      → Leaves site v signaling a
          (if◌then◌else◌ {A = App × Reply} upgraded
            (
              record a {
                world = (serve_first site.sha256 site.codec v.first v.read_token v.now a.world).0;
              },
              opened,
            )
            (a, closed)).0
  unfolding is_upgraded
  upgrade-Leaves a opened closed true up = record {
    world = inr (inl (refl, (ground (arith, up), ground (arith, up), refl)));
    create_limit = inr refl;
    push_limit = inr refl;
  }
  upgrade-Leaves a opened closed false plain = record {
    world = inr (inr refl);
    create_limit = inr refl;
    push_limit = inr refl;
  }

  serve_endpoint-Leaves :
      (endpoint : Endpoint) (parts : List Text) (a : App)
      → Leaves site v endpoint a (serve_endpoint site v endpoint parts a).0
  unfolding serve_endpoint
  serve_endpoint-Leaves rooms parts a = record {
    world = inl refl;
    create_limit = inl refl;
    push_limit = inr (
        create_room-push_limit site.sha256 site.invite_url site.settings.trust_proxy_headers
          v.request v.limit_now v.now v.read_id v.read_secret a);
  }
  serve_endpoint-Leaves push parts a =
      let same =
        push_notify-world site.send site.settings.trust_proxy_headers v.request v.body v.limit_now
          a in
      record { world = inr (inr same.0); create_limit = inr same.1; push_limit = inl refl }
  serve_endpoint-Leaves signaling parts a = upgrade-Leaves a _ _ (is_upgraded site v) refl
  serve_endpoint-Leaves _ parts a = record {
    world = inr (inr refl);
    create_limit = inr refl;
    push_limit = inr refl;
  }

  -- A route of POST was not looked up for HEAD.
  route_of_post :
      (parts : List Text) (r : Route Endpoint)
      → (Found v.method parts r ⊎ (v.method ≡ codes "HEAD") × Found get parts r)
      → r.method ≡ post
      → (v.method ≡ post) × (matches r.segments parts ≡ true)
  route_of_post parts r (inl f) e = (sym f.0 ∙ e, f.1)
  route_of_post parts r (inr (head, f)) e =
      absurd (let bad : get ≡ post = sym f.0 ∙ e in ground arith)

  route_of_get :
      (parts : List Text) (r : Route Endpoint)
      → (Found v.method parts r ⊎ (v.method ≡ codes "HEAD") × Found get parts r)
      → r.method ≡ get
      → ((v.method ≡ get) ⊎ (v.method ≡ codes "HEAD")) × (matches r.segments parts ≡ true)
  route_of_get parts r (inl f) e = (inl (sym f.0 ∙ e), f.1)
  route_of_get parts r (inr (head, f)) e = (inr head, f.1)

  -- The route of a handler that is called, if its pattern is of literals.
  request_at :
      (h : Endpoint) (texts : List Text)
      → ((r : Route Endpoint)
          → IsInPlace r
          → r.handler ≡ h
          → (r.method ≡ post) × (r.segments ≡ map literal texts))
      → (parts : List Text) → dispatch v.method v.request.path routes ≡ handled h parts
      → (v.method ≡ post) × (v.request.path ≡ slash ++ join slash texts)
  request_at h texts place parts e =
      let (clean, same, (r, there, at_h)) =
        dispatch-handled v.method routes h v.request.path parts e in
      let (in_place, f) =
        lookup-some IsInPlace v.method (parts_of v.request.path) routes r routes-IsInPlace there in
      let (is_post, segments) = place r in_place at_h in
      let (m, hit) = route_of_post (parts_of v.request.path) r f is_post in
      let these = matches-literals texts (parts_of v.request.path) (rw (← segments) hit) in
      (m, path_of v.request.path clean ∙ ap (λ (ts : List Text). slash ++ join slash ts) these)

  abbrev IsSocket : Type 0
  IsSocket =
      ((v.method ≡ get) ⊎ (v.method ≡ codes "HEAD"))
      × ((s : Text) × (v.request.path ≡ codes "/ws/" ++ s))

  socket_at :
      (parts : List Text)
      → dispatch v.method v.request.path routes ≡ handled signaling parts
      → IsSocket
  unfolding join
  socket_at parts e =
      let (clean, same, (r, there, at_h)) =
        dispatch-handled v.method routes signaling v.request.path parts e in
      let (in_place, f) =
        lookup-some IsInPlace v.method (parts_of v.request.path) routes r routes-IsInPlace there in
      let (is_get, segments) = in_place.signaling_place at_h in
      let (m, hit) = route_of_get (parts_of v.request.path) r f is_get in
      let (part, others, these) = matches-socket (parts_of v.request.path) (rw (← segments) hit) in
      (m, (_, path_of v.request.path clean ∙ ap (λ (ts : List Text). slash ++ join slash ts) these))

  abbrev IsRequest : Text → Type 0
  IsRequest path = (v.method ≡ post) × (v.request.path ≡ path)

  -- What a request changes.
  record Changes (a a' : App) : Type 0 where
    world : IsRequest (codes "/api/rooms") ⊎ (IsSocket × Greets site v a a') ⊎ (a'.world ≡ a.world)
    create_limit : IsRequest (codes "/api/rooms") ⊎ (a'.create_limit ≡ a.create_limit)
    push_limit : IsRequest (codes "/api/push/notify") ⊎ (a'.push_limit ≡ a.push_limit)

  same_app : (a : App) → Changes a a
  same_app a = record { world = inr (inr refl); create_limit = inr refl; push_limit = inr refl }

  serve_dispatch-Changes :
      (d : Dispatch Endpoint) (a : App)
      → dispatch v.method v.request.path routes ≡ d
      → Changes a (serve_dispatch site v d a).0
  unfolding serve_dispatch join
  serve_dispatch-Changes (moved path) a e = same_app a
  serve_dispatch-Changes (not_allowed methods) a e = same_app a
  serve_dispatch-Changes no_route a e = same_app a
  serve_dispatch-Changes (handled h parts) a e =
      let l = serve_endpoint-Leaves h parts a in
      let called =
        λ (x : Endpoint) (same : h ≡ x). e ∙ ap (λ (y : Endpoint). handled y parts) same in
      let by_rooms = λ (same : h ≡ rooms).
        request_at rooms (codes "api" ∷ codes "rooms" ∷ []) (λ r p. p.rooms_place) parts
          (called rooms same) in
      record {
        world = elim l.world [
          | inl at_rooms ↦ inl (by_rooms at_rooms)
          | inr (inl (at_socket, greets)) ↦
              inr (inl (socket_at parts (called signaling at_socket), greets))
          | inr (inr same) ↦ inr (inr same)
        ];
        create_limit = elim l.create_limit [
          | inl at_rooms ↦ inl (by_rooms at_rooms)
          | inr same ↦ inr same
        ];
        push_limit = elim l.push_limit [
          | inr same ↦ inr same
          | inl at_push ↦ inl (
              request_at push (codes "api" ∷ codes "push" ∷ codes "notify" ∷ [])
                (λ r p. p.push_place) parts (called push at_push))
        ];
      }

-- A request changes the rooms and the peers only if it is POST /api/rooms, or GET or HEAD of a path
-- that begins with "/ws/" and the WebSocket library upgrades it, as sameOrigin accepts its origin, and then they are as the handler of
-- the signaling protocol leaves them after the first message. None changes the limiter of createRoom
-- but POST /api/rooms, and none that of pushNotify but POST /api/push/notify, with just these paths.
pub serve_http-app :
    (site : Site) (v : Visit) (a : App)
    → let a' = (serve_http site v a).0 in
      ((v.method ≡ post) × (v.request.path ≡ codes "/api/rooms")
        ⊎ (((v.method ≡ get) ⊎ (v.method ≡ codes "HEAD"))
            × ((s : Text) × (v.request.path ≡ codes "/ws/" ++ s)))
          × Greets site v a a'
        ⊎ (a'.world ≡ a.world))
      × ((v.method ≡ post) × (v.request.path ≡ codes "/api/rooms")
          ⊎ (a'.create_limit ≡ a.create_limit))
      × ((v.method ≡ post) × (v.request.path ≡ codes "/api/push/notify")
          ⊎ (a'.push_limit ≡ a.push_limit))
unfolding serve_http
serve_http-app site v a =
    let c = serve_dispatch-Changes site v (dispatch v.method v.request.path routes) a refl in
    (c.world, c.create_limit, c.push_limit)
