-- ===== src/Httpapp/Creation.antt =====
-- internal/httpapp/server.go: what createRoom does, alone and in a run of requests.
use gocord.Base.{
  ℕ, ◌+◌, ◌<◌, ◌≡◌, ◌≢◌, ◌⊎◌, refl, ap, sym, subst, ◌∙◌, inl, inr, Bool, true, some, arith,
  Bool-cases,
}
use gocord.Base.Assoc.{Text}
use gocord.Rooms.History.{World}
use gocord.Rooms.State.{Reader, Room, Error, at_capacity, caller, random_token}
use gocord.Rooms.Lifecycle.{Created, created, not_created, create}
use gocord.Rooms.Membership.{join, joined}
use gocord.Rooms.Capacity.{join-create}
use gocord.Httpapp.RateLimit.{allow}
use gocord.Httpapp.Client.{Request, client_key}
use gocord.Httpapp.Server.{App, Response, created_body, created_response, write_json, create_room}

-- A response that reports a room comes from a Create that made it, with status 201; any other has
-- another status.
abbrev Reports : Response → Created → Type 0
Reports r (created room secret) =
    (expires : ℕ) × (url : Text) × (r.status ≡ 201)
    × (r.body ≡ created_body room.id secret url expires)
Reports r (not_created e) = r.status ≢ 201

created_response-Reports :
    (invite_url : Text → Text → Text) (made : Created)
    → Reports (created_response invite_url made) made
unfolding created_response write_json
created_response-Reports invite_url (created room secret) =
    (room.expires_at, invite_url room.id secret, refl, refl)
created_response-Reports invite_url (not_created at_capacity) = λ e. omega arith
created_response-Reports invite_url (not_created e) = λ s. omega arith

Created-cases :
    (made : Created)
    → ((room : Room) × (secret : Text) × (made ≡ created room secret))
      ⊎ ((e : Error) × (made ≡ not_created e))
Created-cases (created room secret) = inl (room, secret, refl)
Created-cases (not_created e) = inr (e, refl)

module _ (sha256 : Text → Text) (invite_url : Text → Text → Text) (trust_proxy : Bool) where
  -- When createRoom answers with status 201, the limiter has let the client in, and Create has made
  -- the room and the secret in the body.
  pub create_room-created :
      (r : Request) (limit_now now : ℕ) (read_id read_secret : Reader) (a : App)
      → (create_room sha256 invite_url trust_proxy r limit_now now read_id read_secret a).1.status
        ≡ 201
      → let (m, heap, made) = create sha256 read_id read_secret now a.world.manager a.world.heap in
        let (a', response) =
          create_room sha256 invite_url trust_proxy r limit_now now read_id read_secret a in
        ((allow (client_key r trust_proxy) limit_now a.create_limit).1 ≡ true)
        × (a'.world ≡ record { manager = m; heap = heap })
        × (response ≡ created_response invite_url made)
  unfolding create_room write_json
  create_room-created r limit_now now read_id read_secret a e =
      elim (Bool-cases (allow (client_key r trust_proxy) limit_now a.create_limit).1) [
        | inl let_in ↦ (let_in, rw let_in refl, rw let_in refl)
        | inr kept_out ↦
            absurd
              (let refused : 429 ≡ 201 = rw (kept_out, create_room) at e in omega (arith, refused))
      ]

  -- When createRoom answers with status 201, the body holds a room and a secret with which, while
  -- crypto/rand works and until the lifetime of rooms is over, the first client that joins is the
  -- caller, alone in the room.
  pub join-create_room :
      (r : Request) (limit_now now later : ℕ) (read_id read_secret read : Reader) (a : App)
      (fresh client : Text) (peer : ℕ) (token : Text)
      → (create_room sha256 invite_url trust_proxy r limit_now now read_id read_secret a).1.status
        ≡ 201
      → random_token 18 read ≡ some fresh
      → later < now + a.world.manager.ttl
      → let (a', response) =
          create_room sha256 invite_url trust_proxy r limit_now now read_id read_secret a in
        (id : Text) × (secret : Text) × (url : Text) × (expires : ℕ) × (response.body
          ≡ created_body id secret url expires)
        × ((join sha256 id secret client peer token read later a'.world.manager).1
            ≡ joined caller 1 fresh)
  join-create_room r limit_now now later read_id read_secret read a fresh client peer token ok drawn
        in_time =
      let made = create sha256 read_id read_secret now a.world.manager a.world.heap in
      let (_, world, response) = create_room-created r limit_now now read_id read_secret a ok in
      elim (Created-cases made.2) [
        | inr (er, bad) ↦
            let reports =
              subst (Reports (created_response invite_url made.2)) bad
                (created_response-Reports invite_url made.2) in
            absurd (reports (ap (λ (q : Response). q.status) (sym response) ∙ ok))
        | inl (room, secret, good) ↦
            let (expires, url, status, body) =
              subst (Reports (created_response invite_url made.2)) good
                (created_response-Reports invite_url made.2) in
            (
              room.id,
              secret,
              url,
              expires,
              ap (λ (q : Response). q.body) response ∙ body,
              ap
                    (λ (w : World).
                      (join sha256 room.id secret client peer token read later w.manager).1)
                    world
                  ∙ join-create sha256 read_id read_secret read now later a.world.manager made.0
                      a.world.heap made.1 room secret fresh client peer token
                      (ap (λ (q : Created). (made.0, made.1, q)) good) drawn in_time,
            )
      ]
