-- ===== src/Web/Leaving.antt =====
-- web/ui.go with internal/signaling/handler.go: the message that a client sends when its user hangs
-- up, and what the server does with it.
use gocord.Base.{ℕ, ◌≡◌, ◌≢◌, refl, inl, inr, Bool, true, List, [], ◌∷◌, some, arith, Option-cases}
use gocord.Base.Assoc.{Text, codes, text_eq}
use gocord.Rooms.Membership.{is_current}
use gocord.Rooms.History.{World}
use gocord.Signaling.Candidate.{Raw, Message}
use gocord.Signaling.Codec.{Codec, sanitize_message}
use gocord.Signaling.Handler.{Server, Session, relay, serve_message}
use gocord.Signaling.Handler as Handler
use gocord.Signaling.Relay.{send-outside}
use gocord.Web.State.{Client, Socket, Action, close_socket, send, Outgoing, leave}
use gocord.Web.Call.{hangup, close_local_resources}

-- The field `type` of a message that is sent.
unfoldable pub message_type : Outgoing → Text
message_type (Outgoing.join _ _ _ _) = codes "join"
message_type (Outgoing.offer _ _) = codes "offer"
message_type (Outgoing.answer _ _) = codes "answer"
message_type (Outgoing.ice_candidate _ _) = codes "ice-candidate"
message_type leave = codes "leave"

hangup-log :
    (manual : Bool) (c : Client) (s : Socket)
    → c.ws ≡ some s
    → s.is_open ≡ true
    → (rest : List Action) × ((hangup manual c).log ≡ close_socket s.id ∷ send s.id leave ∷ rest)
unfolding hangup close_local_resources
hangup-log manual c s e open' = elim (Option-cases c.pc) [
  | inl f ↦ (c.log, ground arith)
  | inr (pc, f) ↦ (Action.close_connection pc.id ∷ c.log, ground arith)
]

module _ (sha256 : Text → Text) (c : Codec) where
  send-manager :
      (peer : ℕ) (msg : Message) (w : World)
      → (Handler.send sha256 c peer msg w).0.manager ≡ w.manager
  unfolding Handler.send
  send-manager peer msg w = ground arith

  -- What the server does with the message of type "leave".
  relay-leave :
      (s : Session) (w : World) (h : ℕ)
      → h ≢ s.peer
      → let w' =
          relay sha256 c s (record { type = message_type leave; room = s.room; payload = [] }) w in
        (w'.manager ≡ w.manager) × (w'.heap.cell h ≡ w.heap.cell h)
  unfolding relay message_type Handler.send_error sanitize_message text_eq
  relay-leave s w h other = (send-manager s.peer _ w, send-outside sha256 c s.peer _ w h other)

  -- When the user of a client whose socket is open hangs up, the client sends a message of type
  -- "leave" and closes the socket. Of that message the server takes nothing: the room manager
  -- stays as it was, no peer but the client's own changes, the others being told nothing, and no
  -- room is set down to be deleted, as a message of type "hangup" would have it.
  pub serve_message-hangup :
      (manual : Bool) (client : Client) (socket : Socket) (s : Session) (raw : Raw) (v : Server)
      (h : ℕ)
      → client.ws ≡ some socket
      → socket.is_open ≡ true
      → c.unmarshal_message raw
        ≡ some (record { type = message_type leave; room = []; payload = [] })
      → is_current s.room s.client s.peer v.world.manager ≡ true
      → h ≢ s.peer
      → let v' = (serve_message sha256 c s raw v).0 in
        ((rest : List Action) × ((hangup manual client).log
            ≡ close_socket socket.id ∷ send socket.id leave ∷ rest))
        × (v'.world.manager ≡ v.world.manager)
        × (v'.pending ≡ v.pending)
        × (v'.world.heap.cell h ≡ v.world.heap.cell h)
  unfolding serve_message message_type text_eq
  serve_message-hangup manual client socket s raw v h there open' read current other =
      let r = relay-leave s v.world h other in
      (
        hangup-log manual client socket there open',
        rw current (rw (read, serve_message) r.0),
        rw current (rw (read, serve_message) refl),
        rw current (rw (read, serve_message) r.1),
      )
