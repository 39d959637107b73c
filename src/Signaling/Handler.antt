-- ===== src/Signaling/Handler.antt =====
-- internal/signaling/handler.go: a WebSocket connection from its first message to its end. Upgrade,
-- deadlines and logging have no state that the model needs; a connection is the sequence of its
-- steps: `serve_first`, then `serve_message` for each message until it answers false, then
-- `serve_close`. `run_pending` is the goroutine that a hangup starts.
use gocord.Base.{
  ℕ, ◌==◌, Bool, true, false, not, ◌&&◌, ◌||◌, List, [], ◌∷◌, ltb, if◌then◌else◌, Option, none,
  some, get_elem?, drop_at,
}
use gocord.Base.Assoc.{Text, text_eq, codes}
use gocord.Text.{byte_length}
use gocord.Rooms.Peer.{new_peer, allocate, enqueue_at}
use gocord.Rooms.State.{
  Error, room_not_found, unauthorized, room_full, room_expired, at_capacity, no_entropy, Role,
  Reader,
}
use gocord.Rooms.Lifecycle.{delete_room}
use gocord.Rooms.Membership.{JoinReply, joined, refused, join, leave, is_current, broadcast}
use gocord.Rooms.History.{World}
use gocord.Signaling.Candidate.{Raw, Message, JoinPayload, ErrorPayload}
use gocord.Signaling.Codec.{Codec, sanitize_message}

abbrev pub send_buffer_size : ℕ
send_buffer_size = 64

abbrev pub max_client_id : ℕ
max_client_id = 128

-- The rooms that goroutines of hangups will delete when their delay is over.
pub record Server : Type 0 where
  pub world : World
  pub pending : List Text

-- What the read loop of a joined connection knows.
pub record Session : Type 0 where
  pub room : Text
  pub client : Text
  pub peer : ℕ

-- How the first message ends: the connection breaks, an error frame is written and the connection
-- closed, or the client has joined.
pub data Opening : Type 0 where
  broken : Opening
  rejected : Message → Opening
  opened : Session → Opening

-- joinError: the code and the text for the client.
unfoldable pub join_error : Error → ErrorPayload
join_error unauthorized = record {
  code = codes "unauthorized";
  message = codes "invalid room secret";
}
join_error room_full = record {
  code = codes "room_full";
  message = codes "call already has two participants";
}
join_error room_expired = record { code = codes "room_expired"; message = codes "call has expired" }
join_error at_capacity = record {
  code = codes "at_capacity";
  message = codes "server is at capacity";
}
join_error room_not_found = record {
  code = codes "room_not_found";
  message = codes "call not found";
}
join_error no_entropy = record { code = codes "room_not_found"; message = codes "call not found" }

abbrev pub plain : Text → Text → Message
plain type room = record { type = type; room = room; payload = [] }

-- The first message is no valid join, or its payload is none.
unfoldable pub is_bad_first : Message → Bool
is_bad_first first = not (text_eq first.type (codes "join")) || text_eq first.room []

unfoldable pub is_bad_join : JoinPayload → Bool
is_bad_join j =
    text_eq j.secret [] || text_eq j.client_id [] || ltb max_client_id (byte_length j.client_id)

module _ (sha256 : Text → Text) (c : Codec) where
  unfoldable pub error_message : ErrorPayload → Message
  error_message e = record { type = codes "error"; room = []; payload = c.marshal_error e }

  -- Handler.send.
  unfoldable pub send : ℕ → Message → World → World × Bool
  send peer msg w = elim (c.marshal_message msg) [
    | none ↦ (w, false)
    | some payload ↦
        let (heap, accepted) = enqueue_at payload peer w.heap in
        (record w { heap = heap }, accepted)
  ]

  -- Handler.sendError.
  unfoldable pub send_error : ℕ → Text → Text → World → World
  unfolding send error_message
  send_error peer code message w =
      (send peer (error_message (record { code = code; message = message })) w).0

  -- Handler.broadcast.
  unfoldable pub broadcast_message : Text → Text → Message → World → World × ℕ
  broadcast_message room except msg w = elim (c.marshal_message msg) [
    | none ↦ (w, 0)
    | some payload ↦
        let (heap, sent) = broadcast room except payload w.manager w.heap in
        (record w { heap = heap }, sent)
  ]

  abbrev bad_join : Text → Opening
  bad_join message =
      rejected (error_message (record { code = codes "bad_join"; message = message }))

  unfoldable pub joined_message : Text → Role → ℕ → Text → Message
  joined_message room role participants token = record {
    type = codes "joined";
    room = room;
    payload = c.marshal_joined role participants token;
  }

  -- ServeHTTP from the reply of Join up to the read loop.
  unfoldable pub greet : Text → Text → ℕ → World → JoinReply → World × Opening
  unfolding send broadcast_message joined_message
  greet room client peer w (refused _ er) = (w, rejected (error_message (join_error er)))
  greet room client peer w (joined role participants token) =
      let w' = (send peer (joined_message room role participants token) w).0 in
      (
        (if participants == 2
            then (broadcast_message room [] (plain (codes "peer-ready") room) w').0
            else w'),
        opened (record { room = room; client = client; peer = peer }),
      )

  -- NewPeer and Join.
  unfoldable pub enter_room : Text → JoinPayload → Reader → ℕ → World → World × Opening
  unfolding greet
  enter_room room j read now w =
      let (heap, peer) = allocate (new_peer j.client_id send_buffer_size) w.heap in
      let (m, reply) =
        join sha256 room j.secret j.client_id peer j.session_token read now w.manager in
      greet room j.client_id peer (record { manager = m; heap = heap }) reply

  -- ServeHTTP up to the read loop; `raw` is the first message, or none if reading it fails.
  unfoldable pub serve_first : Option Raw → Reader → ℕ → World → World × Opening
  unfolding enter_room is_bad_first is_bad_join
  serve_first none read now w = (w, broken)
  serve_first (some raw) read now w = elim (c.unmarshal_message raw) [
    | none ↦ (w, bad_join (codes "first message must be a valid join"))
    | some first ↦
        if is_bad_first first
        then (w, bad_join (codes "first message must be a valid join"))
        else elim (c.unmarshal_join first.payload) [
          | none ↦ (w, bad_join (codes "invalid join payload"))
          | some j ↦
              if is_bad_join j
              then (w, bad_join (codes "invalid join payload"))
              else enter_room first.room j read now w
        ]
  ]

  -- The end of the read loop's body: the filter, and the relay to the other client.
  unfoldable pub relay : Session → Message → World → World
  unfolding send_error
  relay s msg w = elim (sanitize_message c msg) [
    | none ↦
        if text_eq msg.type (codes "ice-candidate")
        then send_error s.peer (codes "invalid_candidate") (codes "invalid ICE candidate rejected")
            w
        else send_error s.peer (codes "bad_signal") (codes "invalid signaling payload") w
    | some out ↦ elim (c.marshal_message out) [
      | none ↦
          send_error s.peer (codes "server_error") (codes "could not encode signaling message") w
      | some payload ↦
          let (heap, sent) = broadcast s.room s.client payload w.manager w.heap in
          let w' = record w { heap = heap } in
          if sent == 0
          then send_error s.peer (codes "peer_unavailable")
              (codes "other participant is not connected") w'
          else w'
    ]
  ]

  -- One round of the read loop with a message that was read; false ends the loop.
  unfoldable pub serve_message : Session → Raw → Server → Server × Bool
  unfolding send send_error broadcast_message relay
  serve_message s raw v =
      if not (is_current s.room s.client s.peer v.world.manager)
      then (v, false)
      else elim (c.unmarshal_message raw) [
        | none ↦ (
          record v {
            world =
                send_error s.peer (codes "bad_json") (codes "invalid signaling message") v.world;
          },
          true,
        )
        | some msg ↦
            if text_eq msg.type (codes "ping")
            then (record v { world = (send s.peer (plain (codes "pong") s.room) v.world).0 }, true)
            else if text_eq msg.type (codes "hangup")
            then (
              record {
                world =
                    (broadcast_message s.room s.client (plain (codes "hangup") s.room) v.world).0;
                pending = s.room ∷ v.pending;
              },
              false,
            )
            else (record v { world = relay s (record msg { room = s.room }) v.world }, true)
      ]

  -- The deferred calls at the end of a joined connection.
  unfoldable pub serve_close : Session → ℕ → Server → Server
  unfolding broadcast_message
  serve_close s now v =
      let (m, remaining, removed) = leave s.room s.client s.peer now v.world.manager in
      let w : World = record v.world { manager = m } in
      record v {
        world =
            if removed && ltb 0 remaining
            then (broadcast_message s.room s.client (plain (codes "peer-left") s.room) w).0
            else w;
      }

  -- The goroutine of a hangup, when its delay is over. The goroutines sleep alike, but nothing orders
  -- them, so that any of those that wait may be the next.
  unfoldable pub run_pending : ℕ → Server → Server
  run_pending n v = elim (get_elem? v.pending n) [
    | none ↦ v
    | some room ↦
        let (m, heap) = delete_room room v.world.manager v.world.heap in
        record { world = record { manager = m; heap = heap }; pending = drop_at n v.pending }
  ]
