-- ===== src/Signaling/Quiet.antt =====
-- internal/signaling/handler.go: sending, relaying and broadcasting touch the send buffers only. The
-- room manager stays as it is, and no handle is given out.
use gocord.Base.{
  ℕ, ◌≡◌, refl, ◌∙◌, inl, inr, List, [], ◌∷◌, ◌==◌, All-keep, arith, Bool-cases, Option-cases,
}
use gocord.Base.Assoc.{Text, text_eq, codes, lookup}
use gocord.Rooms.Peer.{Payload, Heap, update, enqueue_at, enqueue_all, kill_peers}
use gocord.Rooms.State.{Room, Manager}
use gocord.Rooms.Lifecycle.{evict}
use gocord.Rooms.Membership.{broadcast, recipients}
use gocord.Rooms.History.{World}
use gocord.Rooms.Invariant.{ManagerIsValid, stays, evict-keep}
use gocord.Signaling.Candidate.{Message}
use gocord.Signaling.Codec.{Codec, sanitize_message}
use gocord.Signaling.Handler.{Session, send, send_error, broadcast_message, relay}
use gocord.Signaling.Handles.{PeersFit, HandlesFit}

pub record WorldIsValid (w : World) : Type 0 where
  pub manager : ManagerIsValid w.manager
  pub handles : HandlesFit w.heap.next w.manager.rooms

-- A step that changes send buffers at most.
abbrev pub IsQuiet : World → World → Type 0
IsQuiet w w' = (w'.manager ≡ w.manager) × (w'.heap.next ≡ w.heap.next)

pub IsQuiet-WorldIsValid : (w w' : World) → IsQuiet w w' → WorldIsValid w → WorldIsValid w'
IsQuiet-WorldIsValid w w' (m, n) v = record {
  manager = rw m v.manager;
  handles = rw (m, n) v.handles;
}

pub enqueue_all-next :
    (payload : Payload) (hs : List ℕ) (heap : Heap)
    → (enqueue_all payload hs heap).0.next ≡ heap.next
unfolding enqueue_all enqueue_at update
enqueue_all-next payload [] heap = refl
enqueue_all-next payload (h ∷ hs) heap = enqueue_all-next payload hs (enqueue_at payload h heap).0

pub broadcast-next :
    (id except : Text) (payload : Payload) (m : Manager) (heap : Heap)
    → (broadcast id except payload m heap).0.next ≡ heap.next
unfolding broadcast
broadcast-next id except payload m heap = elim (Option-cases (lookup id m.rooms)) [
  | inl e ↦ rw (e, broadcast)
  | inr (room, e) ↦ rw (e, broadcast) (enqueue_all-next payload (recipients except room.peers) heap)
]

pub kill_peers-next :
    (peers : List (Text × ℕ)) (heap : Heap) → (kill_peers peers heap).next ≡ heap.next
unfolding kill_peers update
kill_peers-next [] heap = refl
kill_peers-next ((id, h) ∷ rest) heap = kill_peers-next rest _

pub evict-next :
    (grace now : ℕ) (rooms : List (Text × Room)) (heap : Heap)
    → (evict grace now rooms heap).1.next ≡ heap.next
unfolding evict
evict-next grace now [] heap = refl
evict-next grace now ((id, room) ∷ rest) heap = ground (
  arith,
  kill_peers-next room.peers heap,
  evict-next grace now rest heap,
  evict-next grace now rest (kill_peers room.peers heap),
)

pub evict-HandlesFit :
    (grace now next : ℕ) (rooms : List (Text × Room)) (heap : Heap)
    → HandlesFit next rooms
    → HandlesFit next (evict grace now rooms heap).0
evict-HandlesFit grace now next rooms heap f =
    rw (evict-keep grace now rooms heap)
      (All-keep (λ (e : Text × Room). PeersFit next e.1.peers) (stays grace now) rooms f)

module _ (sha256 : Text → Text) (c : Codec) where
  pub send-IsQuiet : (peer : ℕ) (msg : Message) (w : World) → IsQuiet w (send sha256 c peer msg w).0
  unfolding send enqueue_at update
  send-IsQuiet peer msg w = elim (Option-cases (c.marshal_message msg)) [
    | inl e ↦ rw (e, send) (refl, refl)
    | inr (payload, e) ↦ rw (e, send) (refl, refl)
  ]

  pub broadcast_message-IsQuiet :
      (room except : Text) (msg : Message) (w : World)
      → IsQuiet w (broadcast_message sha256 c room except msg w).0
  unfolding broadcast_message
  broadcast_message-IsQuiet room except msg w = elim (Option-cases (c.marshal_message msg)) [
    | inl e ↦ rw (e, broadcast_message) (refl, refl)
    | inr (payload, e) ↦
        rw (e, broadcast_message) (refl, broadcast-next room except payload w.manager w.heap)
  ]

  pub relay-IsQuiet : (s : Session) (msg : Message) (w : World) → IsQuiet w (relay sha256 c s msg w)
  unfolding relay send_error
  relay-IsQuiet s msg w = elim (Option-cases (sanitize_message c msg)) [
    | inl bad ↦ elim (Bool-cases (text_eq msg.type (codes "ice-candidate"))) [
      | inl ice ↦ rw (bad, relay) (rw ice (send-IsQuiet s.peer _ w))
      | inr other ↦ rw (bad, relay) (rw other (send-IsQuiet s.peer _ w))
    ]
    | inr (out, good) ↦ elim (Option-cases (c.marshal_message out)) [
      | inl failed ↦ rw (good, relay) (rw failed (send-IsQuiet s.peer _ w))
      | inr (payload, e) ↦
          let sent = (broadcast s.room s.client payload w.manager w.heap).1 in
          let next = broadcast-next s.room s.client payload w.manager w.heap in
          elim (Bool-cases (sent == 0)) [
            | inl nobody ↦
                rw (good, relay)
                  (rw e
                    (rw nobody ((send-IsQuiet s.peer _ _).0, (send-IsQuiet s.peer _ _).1 ∙ next)))
            | inr some_peer ↦ rw (good, relay) (rw e (rw some_peer (refl, next)))
          ]
    ]
  ]
