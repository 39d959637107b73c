-- ===== src/Web/Rejoin.antt =====
-- web/ui.go with internal/rooms/manager.go: a client that loses its socket, and the seat that the
-- room manager keeps for it.
use gocord.Base.{
  All, ℕ, ◌+◌, ◌<◌, ◌≡◌, ◌≢◌, refl, ◌∙◌, true, false, List, [], ◌∷◌, Option, none, some, is_some,
  arith, ap,
}
use gocord.Base.Assoc.{Text, codes, text_eq_iff, lookup}
use gocord.Rooms.State.{Manager, Reader, Role, caller, callee, Room}
use gocord.Rooms.Membership.{JoinReply}
use gocord.Rooms.Membership as Membership
use gocord.Rooms.Peer.{Heap}
use gocord.Rooms.Invariant.{ManagerIsValid}
use gocord.Rooms.History as History
use gocord.Rooms.History.{Call, leave_call}
use gocord.Rooms.Kept.{DrawsOther}
use gocord.Rooms.Returning.{join-run}
use gocord.Web.State.{Client, Action, send, join}
use gocord.Web.Backoff.{Fraction, delay}
use gocord.Web.Recovery.{on_reconnect_timer}
use gocord.Web.Call.{on_open, on_close}
use gocord.Web.Signals.{joined, on_joined, handle_signaling_message}
use gocord.Web.Events.{
  receives, closes, reconnect_fires, opens, step, run, with_open, at_socket, at_timer,
}

-- The text of a role in the message "joined".
abbrev pub role_text : Role → Text
role_text caller = codes "caller"
role_text callee = codes "callee"

-- A client in a call that can be taken up again: what its next join will say.
record WillJoin (room secret id token : Text) (sockets : ℕ) (c : Client) : Type 0 where
  has_room : c.room ≡ room
  has_secret : c.secret ≡ secret
  has_id : c.client_id ≡ id
  has_token : c.session_token ≡ token
  has_socket : is_some c.ws ≡ true
  number : c.next_socket ≡ sockets

record IsInCall (c : Client) : Type 0 where
  started : c.started ≡ true
  live : c.terminal ≡ false
  wanted : c.intentional_close ≡ false
  no_timer : c.reconnect_timer ≡ none

module _ (room secret id token : Text) (some_token : token ≢ []) where
  told :
      (role : Text) (participants sockets : ℕ) (c : Client) (old : Text)
      → WillJoin room secret id old sockets c
      → IsInCall c
      → let c' = on_joined role token participants c in
        WillJoin room secret id token sockets c' × IsInCall c'
  unfolding on_joined
  told role participants sockets c old w i = ground (arith, text_eq_iff token [])

  closed :
      (random : Fraction) (sockets : ℕ) (c : Client)
      → WillJoin room secret id token sockets c
      → IsInCall c
      → let c' = on_close random (with_open false c) in
        WillJoin room secret id token sockets c'
        × (c'.reconnect_timer ≡ some (delay random c.reconnect_attempts))
  unfolding on_close
  closed random sockets c w i = ground arith

  fired :
      (sockets : ℕ) (c : Client)
      → WillJoin room secret id token sockets c
      → let c' = on_reconnect_timer c in
        WillJoin room secret id token (sockets + 1) c'
        × (c'.ws ≡ some (record { id = sockets; is_open = false }))
  unfolding on_reconnect_timer
  fired sockets c w = ground arith

  opened :
      (sockets : ℕ) (c : Client)
      → WillJoin room secret id token (sockets + 1) c
      → c.ws ≡ some (record { id = sockets; is_open = false })
      → (on_open (with_open true c)).log ≡ send sockets (join room secret id token) ∷ c.log
  unfolding on_open
  opened sockets c w e = ground (arith, text_eq_iff token [])

  at_socket_open : (f : Client → Client) (c : Client) → is_some c.ws ≡ true → at_socket f c ≡ f c
  at_socket_open f c there = ground arith

  rejoins :
      (role : Text) (participants : ℕ) (random : Fraction) (c : Client) (old : Text) (sockets : ℕ)
      → WillJoin room secret id old sockets c
      → IsInCall c
      → let c' =
          run
            (receives (joined role token participants)
              ∷ closes random
              ∷ reconnect_fires
              ∷ opens
              ∷ [])
            c in
        (rest : List Action) × (c'.log ≡ send sockets (join room secret id token) ∷ rest)
  unfolding run step handle_signaling_message
  rejoins role participants random c old sockets w i =
      let c1 = on_joined role token participants c in
      let (w1, i1) = told role participants sockets c old w i in
      let c2 = on_close random (with_open false c1) in
      let (w2, timer) = closed random sockets c1 w1 i1 in
      let c3 = on_reconnect_timer c2 in
      let (w3, ws) = fired sockets c2 w2 in
      (
        c3.log,
        ap (λ (x : Client). (step opens (step reconnect_fires (step (closes random) x))).log)
              (at_socket_open (handle_signaling_message (joined role token participants)) c
                w.has_socket)
            ∙ ap (λ (x : Client). (step opens (step reconnect_fires x)).log)
                (at_socket_open (λ c. on_close random (with_open false c)) c1 w1.has_socket)
            ∙ ap (λ (t : Option ℕ). (step opens (at_timer t on_reconnect_timer c2)).log) timer
            ∙ ap (λ (x : Client). x.log)
                (at_socket_open (λ c. on_open (with_open true c)) c3 w3.has_socket)
            ∙ opened sockets c3 w3 ws,
      )

-- A client in a call with a socket, to which Join of a valid room manager has answered with a token:
-- when the socket closes, and the timer that is then set fires and a new socket opens, the client
-- sends a join that is the same but for that token. And with it Join gives the client its role again,
-- and the token, after the Leave of the old socket and any calls of the manager after that, by which
-- the other client comes and goes and rooms are swept away: as long as the room is there and has not
-- expired, and crypto/rand has not drawn its name for another.
pub rejoin-join :
    (sha256 : Text → Text) (c : Client) (peer : ℕ) (read : Reader) (now : ℕ) (m m' : Manager)
    (heap : Heap) (role : Role) (n : ℕ) (t : Text) (room : Room) (random : Fraction) (left : ℕ)
    (calls : List Call) (room' : Room) (peer' : ℕ) (read' : Reader) (later : ℕ)
    → (is_some c.ws ≡ true) × (c.reconnect_timer ≡ none)
    → (c.started ≡ true) × (c.terminal ≡ false) × (c.intentional_close ≡ false)
    → Membership.join sha256 c.room c.secret c.client_id peer c.session_token read now m
      ≡ (m', Membership.joined role n t)
    → ManagerIsValid m
    → t ≢ []
    → lookup c.room m'.rooms ≡ some room
    → sha256 c.secret ≡ room.secret_hash
    → later < room.expires_at
    → All (DrawsOther c.room) calls
    → lookup c.room
        (History.run sha256
          (record { manager = m'; heap = heap })
          (leave_call c.room c.client_id peer left ∷ calls)).manager.rooms
      ≡ some room'
    → let c' =
        run
          (receives (joined (role_text role) t n) ∷ closes random ∷ reconnect_fires ∷ opens ∷ [])
          c in
      let w =
        History.run sha256
          (record { manager = m'; heap = heap })
          (leave_call c.room c.client_id peer left ∷ calls) in
      ((rest : List Action) × (c'.log
          ≡ send c.next_socket (join c.room c.secret c.client_id t) ∷ rest))
      × ((n' : ℕ) × ((Membership.join sha256 c.room c.secret c.client_id peer' t read' later
              w.manager).1
            ≡ Membership.joined role n' t))
rejoin-join sha256 c peer read now m m' heap role n t room random left calls room' peer' read' later
      has live e valid some_token there right in_time differ still =
    (
      rejoins c.room c.secret c.client_id t some_token (role_text role) n random c c.session_token
          c.next_socket
          (record {
            has_room = refl;
            has_secret = refl;
            has_id = refl;
            has_token = refl;
            has_socket = has.0;
            number = refl;
          })
          (record { started = live.0; live = live.1; wanted = live.2; no_timer = has.1 }),
      join-run sha256 c.room c.secret c.client_id peer c.session_token read now m m' role n t room
          (record { manager = m'; heap = heap }) (leave_call c.room c.client_id peer left ∷ calls)
          room' peer' read' later e valid some_token there right in_time refl (tt, differ) still,
    )
