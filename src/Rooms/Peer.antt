-- ===== src/Rooms/Peer.antt =====
-- internal/rooms/manager.go: `Peer`, its send buffer and its `dead` channel, and the store of all
-- peers. A `*Peer` is a handle, a number, since the manager compares pointers and a peer that is
-- reached through two maps is one object.
use gocord.Base.{
  ℕ, suc, Bool, true, false, List, [], ◌∷◌, ◌++◌, length, ltb, ◌==◌, if◌then◌else◌, Option, none,
  some,
}
use gocord.Base.Assoc.{Text}

-- A []byte.
abbrev pub Payload : Type 0
Payload = List ℕ

-- `send` is the buffered channel Send, oldest first, of capacity `buffer`; `dead` is whether the
-- channel dead is closed.
pub record Peer : Type 0 where
  pub id : Text
  pub send : List Payload
  pub buffer : ℕ
  pub dead : Bool

unfoldable pub new_peer : Text → ℕ → Peer
new_peer id send_buffer = record { id = id; send = []; buffer = send_buffer; dead = false }

-- deadOnce makes a second call do nothing.
unfoldable pub kill : Peer → Peer
kill p = record p { dead = true }

unfoldable pub enqueue : Payload → Peer → Peer × Bool
unfolding kill
enqueue payload p =
    if p.dead
    then (p, false)
    else if ltb (length p.send) p.buffer
    then (record p { send = p.send ++ payload ∷ [] }, true)
    else (kill p, false)

-- The receive of writePump, `payload := <-peer.Send`: the oldest payload, if there is one.
unfoldable pub receive_from : Peer → List Payload → Option (Payload × Peer)
receive_from p [] = none
receive_from p (payload ∷ rest) = some (payload, record p { send = rest })

unfoldable pub receive : Peer → Option (Payload × Peer)
unfolding receive_from
receive p = receive_from p p.send

-- Handles below `next` have been given out.
pub record Heap : Type 0 where
  pub next : ℕ
  pub cell : ℕ → Peer

unfoldable pub update : ℕ → (Peer → Peer) → Heap → Heap
update h f s = record s { cell = λ j. if h == j then f (s.cell h) else s.cell j }

-- The `&Peer{...}` of NewPeer.
unfoldable pub allocate : Peer → Heap → Heap × ℕ
allocate p s =
    (record { next = suc s.next; cell = λ j. if s.next == j then p else s.cell j }, s.next)

-- peer.Enqueue(payload) through the pointer.
unfoldable pub enqueue_at : Payload → ℕ → Heap → Heap × Bool
unfolding update
enqueue_at payload h s = (update h (λ p. (enqueue payload p).0) s, (enqueue payload (s.cell h)).1)

-- The last loop of Broadcast: how many peers accepted the payload.
unfoldable pub enqueue_all : Payload → List ℕ → Heap → Heap × ℕ
unfolding enqueue_at
enqueue_all payload [] s = (s, 0)
enqueue_all payload (h ∷ hs) s =
    let (s', accepted) = enqueue_at payload h s in
    let (s'', sent) = enqueue_all payload hs s' in (s'', (if accepted then suc sent else sent))

-- The loop of killPeersLocked, over the handles in a room's map of peers.
unfoldable pub kill_peers : List (Text × ℕ) → Heap → Heap
unfolding update kill
kill_peers [] s = s
kill_peers ((id, h) ∷ rest) s = kill_peers rest (update h kill s)
