-- ===== src/Signaling/Relay.antt =====
-- internal/signaling/handler.go: what a message that arrives on a joined connection can do.
use gocord.Base.{
  ℕ, ◌≡◌, refl, ◌∙◌, ◌⊎◌, inl, inr, false, List, [], ◌∷◌, ◌==◌, none, some, map, arith, Bool-cases,
  Option-cases, ◌≢◌,
}
use gocord.Base.Assoc.{Text, text_eq, codes, lookup}
use gocord.Rooms.Peer.{Payload, Heap, update, enqueue_at, enqueue_all}
use gocord.Rooms.State.{Room}
use gocord.Rooms.Membership.{is_current, broadcast, recipients}
use gocord.Rooms.History.{World}
use gocord.Rooms.Delivery.{listed}
use gocord.Signaling.Candidate.{Raw, Message}
use gocord.Signaling.Codec.{Codec, sanitize_message}
use gocord.Signaling.Handler.{
  Server, Session, send, send_error, broadcast_message, relay, serve_message,
}

enqueue_all-unlisted :
    (payload : Payload) (hs : List ℕ) (heap : Heap) (h : ℕ)
    → listed h hs ≡ false
    → (enqueue_all payload hs heap).0.cell h ≡ heap.cell h
unfolding enqueue_all enqueue_at update
enqueue_all-unlisted payload [] heap h e = refl
enqueue_all-unlisted payload (g ∷ hs) heap h e =
    enqueue_all-unlisted payload hs (enqueue_at payload g heap).0 h (ground arith) ∙ ground arith

listed-recipients :
    (h : ℕ) (except : Text) (peers : List (Text × ℕ))
    → listed h (map (λ e. e.1) peers) ≡ false
    → listed h (recipients except peers) ≡ false
unfolding recipients
listed-recipients h except [] e = refl
listed-recipients h except (p ∷ peers) e = ground (arith, listed-recipients h except peers)

-- The handle belongs to no client of the room.
abbrev pub IsOutside : Text → ℕ → World → Type 0
IsOutside id h w =
    (lookup id w.manager.rooms ≡ none)
    ⊎ ((room : Room) × (lookup id w.manager.rooms ≡ some room)
        × (listed h (map (λ e. e.1) room.peers) ≡ false))

broadcast-outside :
    (id except : Text) (payload : Payload) (w : World) (h : ℕ)
    → IsOutside id h w
    → (broadcast id except payload w.manager w.heap).0.cell h ≡ w.heap.cell h
unfolding broadcast
broadcast-outside id except payload w h (inl e) = rw (e, broadcast)
broadcast-outside id except payload w h (inr (room, e, out)) =
    rw (e, broadcast)
      (enqueue_all-unlisted payload (recipients except room.peers) w.heap h
        (listed-recipients h except room.peers out))

module _ (sha256 : Text → Text) (c : Codec) where
  pub send-outside :
      (peer : ℕ) (msg : Message) (w : World) (h : ℕ)
      → h ≢ peer
      → (send sha256 c peer msg w).0.heap.cell h ≡ w.heap.cell h
  unfolding send enqueue_at update
  send-outside peer msg w h other = elim (Option-cases (c.marshal_message msg)) [
    | inl e ↦ rw (e, send)
    | inr (payload, e) ↦ rw (e, send) (ground arith)
  ]

  broadcast_message-outside :
      (room except : Text) (msg : Message) (w : World) (h : ℕ)
      → IsOutside room h w
      → (broadcast_message sha256 c room except msg w).0.heap.cell h ≡ w.heap.cell h
  unfolding broadcast_message
  broadcast_message-outside room except msg w h out = elim (Option-cases (c.marshal_message msg)) [
    | inl e ↦ rw (e, broadcast_message)
    | inr (payload, e) ↦ rw (e, broadcast_message) (broadcast-outside room except payload w h out)
  ]

  relay-outside :
      (s : Session) (msg : Message) (w : World) (h : ℕ)
      → h ≢ s.peer
      → IsOutside s.room h w
      → (relay sha256 c s msg w).heap.cell h ≡ w.heap.cell h
  unfolding relay send_error
  relay-outside s msg w h other out = elim (Option-cases (sanitize_message c msg)) [
    | inl bad ↦ elim (Bool-cases (text_eq msg.type (codes "ice-candidate"))) [
      | inl ice ↦ rw (bad, relay) (rw ice (send-outside s.peer _ w h other))
      | inr kind ↦ rw (bad, relay) (rw kind (send-outside s.peer _ w h other))
    ]
    | inr (clean, good) ↦ elim (Option-cases (c.marshal_message clean)) [
      | inl failed ↦ rw (good, relay) (rw failed (send-outside s.peer _ w h other))
      | inr (payload, e) ↦
          let cast = broadcast s.room s.client payload w.manager w.heap in
          let same = broadcast-outside s.room s.client payload w h out in
          elim (Bool-cases (cast.1 == 0)) [
            | inl nobody ↦
                rw (good, relay)
                  (rw e
                    (rw nobody (send-outside s.peer _ (record w { heap = cast.0 }) h other ∙ same)))
            | inr some_peer ↦ rw (good, relay) (rw e (rw some_peer same))
          ]
    ]
  ]

  -- Whatever a joined client sends, it changes no peer but its own and those of its room.
  pub serve_message-outside :
      (s : Session) (raw : Raw) (v : Server) (h : ℕ)
      → h ≢ s.peer
      → IsOutside s.room h v.world
      → (serve_message sha256 c s raw v).0.world.heap.cell h ≡ v.world.heap.cell h
  unfolding serve_message send_error
  serve_message-outside s raw v h other out =
      elim (Bool-cases (is_current s.room s.client s.peer v.world.manager)) [
        | inr stale ↦ rw stale
        | inl current ↦ elim (Option-cases (c.unmarshal_message raw)) [
          | inl e ↦ rw current (rw (e, serve_message) (send-outside s.peer _ v.world h other))
          | inr (msg, e) ↦ elim (Bool-cases (text_eq msg.type (codes "ping"))) [
            | inl ping ↦
                rw current (rw (e, serve_message) (rw ping (send-outside s.peer _ v.world h other)))
            | inr not_ping ↦ elim (Bool-cases (text_eq msg.type (codes "hangup"))) [
              | inl hangup ↦ rw current (
                  rw (e, serve_message)
                    (rw (not_ping, hangup)
                      (broadcast_message-outside s.room s.client _ v.world h out)))
              | inr signal ↦ rw current (
                  rw (e, serve_message)
                    (rw (not_ping, signal) (relay-outside s _ v.world h other out)))
            ]
          ]
        ]
      ]
