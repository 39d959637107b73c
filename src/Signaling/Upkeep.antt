-- ===== src/Signaling/Upkeep.antt =====
-- The room manager's own operations and the handles of the server's connections: cleanupLocked,
-- DeleteRoom and CreateRoom of internal/rooms/manager.go on the state that the handler shares.
use gocord.Base.{ℕ, ◌≡◌, refl, inl, inr, [], length, Bool-cases, Option-cases}
use gocord.Base.Assoc.{Text, lookup, AllValues-insert, AllValues-delete}
use gocord.Rooms.Peer.{Heap}
use gocord.Rooms.State.{Room, Manager, Reader, random_token}
use gocord.Rooms.Lifecycle.{evict, create, add_room, delete_room, cleanup, is_full, new_room}
use gocord.Rooms.History.{World}
use gocord.Rooms.Invariant.{cleanup-IsValid, delete_room-IsValid}
use gocord.Signaling.Handles.{PeersFit, HandlesFit}
use gocord.Signaling.Quiet.{WorldIsValid, kill_peers-next, evict-next, evict-HandlesFit}

pub cleanup-WorldIsValid :
    (now : ℕ) (w : World)
    → WorldIsValid w
    → let (m, heap, _) = cleanup now w.manager w.heap in
      WorldIsValid (record { manager = m; heap = heap })
unfolding cleanup
cleanup-WorldIsValid now w v = record {
  manager = cleanup-IsValid w.manager now w.heap v.manager;
  handles =
      rw (evict-next w.manager.empty_grace now w.manager.rooms w.heap)
        (evict-HandlesFit w.manager.empty_grace now w.heap.next w.manager.rooms w.heap v.handles);
}

pub delete_room-WorldIsValid :
    (id : Text) (w : World)
    → WorldIsValid w
    → let (m, heap) = delete_room id w.manager w.heap in
      WorldIsValid (record { manager = m; heap = heap })
unfolding delete_room
delete_room-WorldIsValid id w v = record {
  manager = delete_room-IsValid w.manager id w.heap v.manager;
  handles = elim (Option-cases (lookup id w.manager.rooms)) [
    | inl e ↦ rw (e, delete_room) v.handles
    | inr (r, e) ↦
        rw (e, delete_room)
          (rw (kill_peers-next r.peers w.heap) (
            AllValues-delete (λ (q : Room). PeersFit w.heap.next q.peers) id w.manager.rooms
              v.handles))
  ];
}

module _ (sha256 : Text → Text) where
  add_room-HandlesFit :
      (r : Room) (s : Text) (now : ℕ) (m : Manager) (heap : Heap)
      → r.peers ≡ []
      → HandlesFit heap.next m.rooms
      → let (m', heap', _) = add_room sha256 r s now m heap in HandlesFit heap'.next m'.rooms
  unfolding add_room
  add_room-HandlesFit r s now m heap none_yet f =
      let fits = λ (q : Room). PeersFit heap.next q.peers in
      let empty : PeersFit heap.next r.peers = rw none_yet (tt, tt) in
      let kept = evict-HandlesFit m.empty_grace now heap.next m.rooms heap f in
      let next = evict-next m.empty_grace now m.rooms heap in
      elim (Bool-cases (is_full m.max_rooms (length m.rooms))) [
        | inr space ↦ rw (space, add_room) (AllValues-insert fits r.id r m.rooms empty f)
        | inl full ↦
            elim (Bool-cases
              (is_full m.max_rooms (length (evict m.empty_grace now m.rooms heap).0))) [
                | inl still ↦ rw (full, add_room) (rw still (rw next kept))
                | inr freed ↦
                    rw (full, add_room)
                      (rw freed (rw next (AllValues-insert fits r.id r _ empty kept)))
              ]
      ]

  pub create-HandlesFit :
      (read_id read_secret : Reader) (now : ℕ) (m : Manager) (heap : Heap)
      → HandlesFit heap.next m.rooms
      → let (m', heap', _) = create sha256 read_id read_secret now m heap in
        HandlesFit heap'.next m'.rooms
  unfolding create new_room
  create-HandlesFit read_id read_secret now m heap f =
      elim (Option-cases (random_token 18 read_id)) [
        | inl e ↦ rw (e, create) f
        | inr (id, e) ↦ elim (Option-cases (random_token 32 read_secret)) [
          | inl e' ↦ rw (e, create) (rw e' f)
          | inr (s, e') ↦
              rw (e, create)
                (rw e' (add_room-HandlesFit (new_room sha256 now m.ttl id s) s now m heap refl f))
        ]
      ]
