-- ===== src/Rooms/Delivery.antt =====
-- internal/rooms/manager.go: what Enqueue and Broadcast do to the send buffers.
use gocord.Base.{
  ◌||◌, ℕ, suc, ◌≤◌, ◌≡◌, refl, inl, inr, Bool, true, false, not, ◌&&◌, List, [], ◌∷◌, ◌++◌, some,
  length, length-append, ltb, ◌==◌, if◌then◌else◌, any, arith, Bool-cases, ==_iff, ap, ◌∙◌, map,
}
use gocord.Base.Assoc.{text_eq, Text, lookup}
use gocord.Rooms.Peer.{Payload, Peer, Heap, enqueue, kill, update, enqueue_at, enqueue_all}
use gocord.Rooms.State.{Room, Manager}
use gocord.Rooms.Membership.{recipients, broadcast}

-- A peer that takes a payload: it is alive and its buffer has room.
abbrev pub has_room : Peer → Bool
has_room p = not p.dead && ltb (length p.send) p.buffer

-- A live peer's buffer is within its capacity.
abbrev pub PeerIsValid : Peer → Type 0
PeerIsValid p = length p.send ≤ p.buffer

-- A send to a valid peer (one whose buffer is within its capacity): Enqueue accepts exactly when the peer is alive and its buffer has room. Then the payload is last
-- in the buffer and nothing else changes; otherwise the peer is dead and its buffer is as it was,
-- so that no payload is dropped while the connection goes on. The buffer stays within its capacity.
enqueue_lem :
    (payload : Payload) (p : Peer)
    → PeerIsValid p
    → ((enqueue payload p).1 ≡ has_room p)
      × ((enqueue payload p).0
          ≡ (if has_room p then record p { send = p.send ++ payload ∷ [] } else kill p))
      × PeerIsValid (enqueue payload p).0
unfolding enqueue kill
enqueue_lem payload p v = ground (arith, length-append p.send (payload ∷ []))

pub enqueue-accepted : (payload : Payload) (p : Peer) → (enqueue payload p).1 ≡ has_room p
unfolding enqueue
enqueue-accepted payload p = ground arith

pub enqueue-peer :
    (payload : Payload) (p : Peer)
    → (enqueue payload p).0
      ≡ (if has_room p then record p { send = p.send ++ payload ∷ [] } else kill p)
unfolding enqueue kill
enqueue-peer payload p = ground arith

enqueue_at-accepted :
    (payload : Payload) (h : ℕ) (s : Heap)
    → (enqueue_at payload h s).1 ≡ (enqueue payload (s.cell h)).1
unfolding enqueue_at
enqueue_at-accepted payload h s = refl

-- The handle is in the list.
abbrev pub listed : ℕ → List ℕ → Bool
listed h hs = any (λ g. g == h) hs

abbrev pub DistinctHandles : List ℕ → Type 0
DistinctHandles [] = Unit
DistinctHandles (h ∷ hs) = (listed h hs ≡ false) × DistinctHandles hs

-- How many of the peers accept a payload.
abbrev pub accepting : List ℕ → Heap → ℕ
accepting [] s = 0
accepting (h ∷ hs) s = if has_room (s.cell h) then suc (accepting hs s) else accepting hs s

enqueue_all-cell :
    (payload : Payload) (hs : List ℕ) (s : Heap) (h : ℕ)
    → DistinctHandles hs
    → (enqueue_all payload hs s).0.cell h
      ≡ (if listed h hs then (enqueue payload (s.cell h)).0 else s.cell h)
unfolding enqueue_all enqueue_at update
enqueue_all-cell payload [] s h d = refl
enqueue_all-cell payload (g ∷ hs) s h d =
    enqueue_all-cell payload hs (enqueue_at payload g s).0 h d.1 ∙ elim (Bool-cases (g == h)) [
      | inr other ↦ rw other
      | inl same ↦ rw same (rw (← (==_iff g h).0 same) (rw d.0))
    ]

accepting-enqueue_at :
    (payload : Payload) (g : ℕ) (hs : List ℕ) (s : Heap)
    → listed g hs ≡ false
    → accepting hs (enqueue_at payload g s).0 ≡ accepting hs s
unfolding enqueue_at update
accepting-enqueue_at payload g [] s d = refl
accepting-enqueue_at payload g (h ∷ hs) s d =
    ground (arith, ==_iff g h, ==_iff h g, accepting-enqueue_at payload g hs s)

enqueue_all-sent :
    (payload : Payload) (hs : List ℕ) (s : Heap)
    → DistinctHandles hs
    → (enqueue_all payload hs s).1 ≡ accepting hs s
unfolding enqueue_all
enqueue_all-sent payload [] s d = refl
enqueue_all-sent payload (h ∷ hs) s d =
    rw (enqueue_at-accepted payload h s, enqueue-accepted payload (s.cell h))
      (ground (
        arith,
        enqueue_all-sent payload hs (enqueue_at payload h s).0 d.1,
        accepting-enqueue_at payload h hs s d.0,
      ))

listed-recipients :
    (h : ℕ) (except : Text) (peers : List (Text × ℕ))
    → listed h (map (λ e. e.1) peers) ≡ false
    → listed h (recipients except peers) ≡ false
unfolding recipients
listed-recipients h except [] d = refl
listed-recipients h except (e ∷ peers) d = ground (arith, listed-recipients h except peers)

recipients-DistinctHandles :
    (except : Text) (peers : List (Text × ℕ))
    → DistinctHandles (map (λ e. e.1) peers)
    → DistinctHandles (recipients except peers)
unfolding recipients
recipients-DistinctHandles except [] d = tt
recipients-DistinctHandles except (e ∷ peers) d =
    ground
      (arith, recipients-DistinctHandles except peers d.1, listed-recipients e.1 except peers d.0)

lookup-listed :
    (k : Text) (h : ℕ) (peers : List (Text × ℕ))
    → lookup k peers ≡ some h
    → listed h (map (λ e. e.1) peers) ≡ true
unfolding lookup
lookup-listed k h [] e = cc
lookup-listed k h (p ∷ peers) e = ground (arith, lookup-listed k h peers, ==_iff p.1 h)

-- The connection of the excepted client is none of the recipients.
recipients-except :
    (except : Text) (own : ℕ) (peers : List (Text × ℕ))
    → DistinctHandles (map (λ e. e.1) peers)
    → lookup except peers ≡ some own
    → listed own (recipients except peers) ≡ false
unfolding recipients lookup
recipients-except except own [] d e = refl
recipients-except except own (p ∷ peers) d e = ground (
  arith,
  recipients-except except own peers d.1,
  listed-recipients own except peers,
  ==_iff p.1 own,
  lookup-listed except own peers,
)

-- The handle is that of a client other than one.
abbrev pub is_other : Text → ℕ → List (Text × ℕ) → Bool
is_other except h [] = false
is_other except h ((who, g) ∷ peers) =
    not (text_eq who except) && (g == h) || is_other except h peers

-- How many clients other than one have a live peer with room.
abbrev pub others_with_room : Text → List (Text × ℕ) → Heap → ℕ
others_with_room except [] heap = 0
others_with_room except ((who, g) ∷ peers) heap =
    if not (text_eq who except) && has_room (heap.cell g)
    then suc (others_with_room except peers heap)
    else others_with_room except peers heap

recipients-is_other :
    (except : Text) (h : ℕ) (peers : List (Text × ℕ))
    → listed h (recipients except peers) ≡ is_other except h peers
unfolding recipients
recipients-is_other except h [] = refl
recipients-is_other except h ((who, g) ∷ peers) = ground (arith, recipients-is_other except h peers)

accepting-recipients :
    (except : Text) (peers : List (Text × ℕ)) (heap : Heap)
    → accepting (recipients except peers) heap ≡ others_with_room except peers heap
unfolding recipients
accepting-recipients except [] heap = refl
accepting-recipients except ((who, g) ∷ peers) heap =
    ground (arith, accepting-recipients except peers heap)

-- A broadcast to a room whose clients are different connections: it reports how many clients, the
-- excepted one apart, were alive with room in their buffer; each peer of another client than the
-- excepted one has the payload last in its buffer if it was alive with room, and is dead afterwards
-- if not; and no other peer changes, the excepted client's own among them.
pub broadcast_lem :
    (id except : Text) (payload : Payload) (m : Manager) (heap : Heap) (room : Room) (h own : ℕ)
    → lookup id m.rooms ≡ some room
    → DistinctHandles (map (λ e. e.1) room.peers)
    → lookup except room.peers ≡ some own
    → let (heap', sent) = broadcast id except payload m heap in
      (sent ≡ others_with_room except room.peers heap)
      × (heap'.cell h ≡ (
          if is_other except h room.peers
          then (if has_room (heap.cell h)
              then record (heap.cell h) { send = (heap.cell h).send ++ payload ∷ [] }
              else kill (heap.cell h))
          else heap.cell h))
      × (heap'.cell own ≡ heap.cell own)
unfolding broadcast
broadcast_lem id except payload m heap room h own there d sender =
    let hs = recipients except room.peers in
    let apart = recipients-DistinctHandles except room.peers d in
    let found = recipients-is_other except h room.peers in
    rw (there, broadcast)
      (
        enqueue_all-sent payload hs heap apart ∙ accepting-recipients except room.peers heap,
        enqueue_all-cell payload hs heap h apart
            ∙ ap (λ (b : Bool). if b then (enqueue payload (heap.cell h)).0 else heap.cell h) found
            ∙ ap (λ (p : Peer). if is_other except h room.peers then p else heap.cell h)
                (enqueue-peer payload (heap.cell h)),
        enqueue_all-cell payload hs heap own apart
            ∙ rw (recipients-except except own room.peers d sender),
      )
