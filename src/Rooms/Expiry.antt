-- ===== src/Rooms/Expiry.antt =====
-- internal/rooms/manager.go: which rooms Cleanup and Create evict, what that does to their peers,
-- and the room bound of Create.
use gocord.Base.{
  ℕ, ◌+◌, ◌≡◌, refl, inl, inr, Bool, ◌&&◌, List, [], ◌∷◌, length, ◌==◌, if◌then◌else◌, keep, any,
  arith, Bool-cases, ap, ◌∙◌,
}
use gocord.Base.Assoc.{Text}
use gocord.Rooms.Peer.{Heap, update, kill, kill_peers}
use gocord.Rooms.State.{Room, Manager, is_stale}
use gocord.Rooms.Lifecycle.{evict, cleanup, count}
use gocord.Rooms.Invariant.{stays, evict-keep}

-- Whether a map of peers holds the handle.
abbrev pub holds : ℕ → List (Text × ℕ) → Bool
holds h peers = any (λ e. e.1 == h) peers

-- Exactly the peers of the map are killed; nothing else of any peer changes.
pub kill_peers-cell :
    (peers : List (Text × ℕ)) (heap : Heap) (h : ℕ)
    → (kill_peers peers heap).cell h ≡ (if holds h peers then kill (heap.cell h) else heap.cell h)
unfolding kill_peers update kill
kill_peers-cell [] heap h = refl
kill_peers-cell ((id, p) ∷ rest) heap h = kill_peers-cell rest (update p kill heap) h ∙ ground arith

-- Whether some evicted room holds the handle.
abbrev pub evicts : ℕ → ℕ → ℕ → List (Text × Room) → Bool
evicts grace now h rooms = any (λ e. is_stale grace now e.1 && holds h e.1.peers) rooms

evict-cell :
    (grace now : ℕ) (rooms : List (Text × Room)) (heap : Heap) (h : ℕ)
    → (evict grace now rooms heap).1.cell h
      ≡ (if evicts grace now h rooms then kill (heap.cell h) else heap.cell h)
unfolding evict kill
evict-cell grace now [] heap h = refl
evict-cell grace now ((id, room) ∷ rest) heap h = elim (Bool-cases (is_stale grace now room)) [
  | inl stale ↦ rw stale (
      evict-cell grace now rest (kill_peers room.peers heap) h
      ∙ ground (arith, kill_peers-cell room.peers heap h))
  | inr fresh ↦ rw fresh (evict-cell grace now rest heap h)
]

evict-removed :
    (grace now : ℕ) (rooms : List (Text × Room)) (heap : Heap)
    → (evict grace now rooms heap).2 + length (keep (stays grace now) rooms) ≡ length rooms
unfolding evict
evict-removed grace now [] heap = omega arith
evict-removed grace now ((id, room) ∷ rest) heap = ground (
  arith,
  evict-removed grace now rest
      (if is_stale grace now room then kill_peers room.peers heap else heap),
)

-- Cleanup keeps exactly the rooms that are not stale, in their order and as they were, reports how
-- many it removed, and kills exactly the peers that are in a removed room.
pub cleanup_lem :
    (now : ℕ) (m : Manager) (heap : Heap) (h : ℕ)
    → let (m', heap', removed) = cleanup now m heap in
      (m' ≡ record m { rooms = keep (stays m.empty_grace now) m.rooms })
      × (removed + count m' ≡ count m)
      × (heap'.cell h
          ≡ (if evicts m.empty_grace now h m.rooms then kill (heap.cell h) else heap.cell h))
unfolding cleanup count
cleanup_lem now m heap h = (
  ap (λ (rooms : List (Text × Room)). record m { rooms = rooms })
      (evict-keep m.empty_grace now m.rooms heap),
  ap (λ (rooms : List (Text × Room)). (evict m.empty_grace now m.rooms heap).2 + length rooms)
        (evict-keep m.empty_grace now m.rooms heap)
      ∙ evict-removed m.empty_grace now m.rooms heap,
  evict-cell m.empty_grace now m.rooms heap h,
)
