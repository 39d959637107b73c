-- ===== src/Rooms/Lifecycle.antt =====
-- internal/rooms/manager.go: how rooms come and go (Create, Count, Delete, Status, Cleanup and
-- evictLocked). Each method runs under the manager's lock, so it is one step.
use gocord.Base.{
  ℕ, suc, ◌+◌, Bool, true, false, ◌&&◌, List, [], ◌∷◌, length, ltb, leb, if◌then◌else◌, none, some,
}
use gocord.Base.Int.{ℤ, pos, negsuc}
use gocord.Base.Assoc.{Text, lookup, insert, delete}
use gocord.Rooms.Peer.{Heap, kill_peers}
use gocord.Rooms.State.{
  Error, at_capacity, no_entropy, Room, Status, Manager, Reader, random_token, is_expired, is_stale,
}

-- The loop of evictLocked: the rooms that stay, the peers, and the number removed.
unfoldable pub evict : ℕ → ℕ → List (Text × Room) → Heap → List (Text × Room) × Heap × ℕ
unfolding is_stale kill_peers
evict grace now [] heap = ([], heap, 0)
evict grace now ((id, room) ∷ rest) heap =
    let stale = is_stale grace now room in
    let (rooms, heap', removed) =
      evict grace now rest (if stale then kill_peers room.peers heap else heap) in
    if stale then (rooms, heap', suc removed) else ((id, room) ∷ rooms, heap', removed)

-- `m.maxRooms > 0 && len(m.rooms) >= m.maxRooms`; a bound of zero or below means none.
unfoldable pub is_full : ℤ → ℕ → Bool
is_full (pos bound) rooms = ltb 0 bound && leb bound rooms
is_full (negsuc _) rooms = false

pub data Created : Type 0 where
  created : Room → Text → Created
  not_created : Error → Created

module _ (sha256 : Text → Text) where
  unfoldable pub new_room : ℕ → ℕ → Text → Text → Room
  new_room now ttl room_id secret = record {
    id = room_id;
    created_at = now;
    expires_at = now + ttl;
    secret_hash = sha256 secret;
    peers = [];
    roles = [];
    session_tokens = [];
    had_participants = false;
    empty_since = none;
  }

  -- The part of Create under the lock.
  unfoldable pub add_room : Room → Text → ℕ → Manager → Heap → Manager × Heap × Created
  unfolding evict is_full
  add_room room secret now m heap =
      if is_full m.max_rooms (length m.rooms)
      then (let (rooms, heap', _) = evict m.empty_grace now m.rooms heap in
          if is_full m.max_rooms (length rooms)
          then (record m { rooms = rooms }, heap', not_created at_capacity)
          else (record m { rooms = insert room.id room rooms }, heap', created room secret))
      else (record m { rooms = insert room.id room m.rooms }, heap, created room secret)

  -- Manager.Create; the two readers answer its two calls of randomToken.
  unfoldable pub create : Reader → Reader → ℕ → Manager → Heap → Manager × Heap × Created
  unfolding random_token new_room add_room
  create read_id read_secret now m heap = elim (random_token 18 read_id) [
    | none ↦ (m, heap, not_created no_entropy)
    | some room_id ↦ elim (random_token 32 read_secret) [
      | none ↦ (m, heap, not_created no_entropy)
      | some secret ↦ add_room (new_room now m.ttl room_id secret) secret now m heap
    ]
  ]

-- Manager.Count.
unfoldable pub count : Manager → ℕ
count m = length m.rooms

-- Manager.Delete.
unfoldable pub delete_room : Text → Manager → Heap → Manager × Heap
unfolding kill_peers
delete_room room_id m heap = elim (lookup room_id m.rooms) [
  | none ↦ (m, heap)
  | some room ↦ (record m { rooms = delete room_id m.rooms }, kill_peers room.peers heap)
]

-- Manager.Status; the zero Status is that of a room that is not there.
unfoldable pub status : Text → ℕ → Manager → Status
unfolding is_expired
status room_id now m = elim (lookup room_id m.rooms) [
  | none ↦ record { exists = false; participants = 0; expires_at = 0 }
  | some room ↦
      if is_expired now room
      then record { exists = false; participants = 0; expires_at = 0 }
      else record { exists = true; participants = length room.peers; expires_at = room.expires_at }
]

-- Manager.Cleanup.
unfoldable pub cleanup : ℕ → Manager → Heap → Manager × Heap × ℕ
unfolding evict
cleanup now m heap =
    let (rooms, heap', removed) = evict m.empty_grace now m.rooms heap in
    (record m { rooms = rooms }, heap', removed)
