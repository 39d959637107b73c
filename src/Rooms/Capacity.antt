-- ===== src/Rooms/Capacity.antt =====
-- internal/rooms/manager.go: what Create answers, and when it refuses for want of room.
use gocord.Base.{
  ℕ, ◌+◌, ◌≤◌, ◌<◌, ◌≡◌, refl, inl, inr, true, List, some, length, keep, arith, Bool-cases,
  Option-cases, sym, ap, ◌∙◌, lt→leb,
}
use gocord.Base.Int.{ℤ, pos, negsuc}
use gocord.Base.Assoc.{Text, text_eq, text_eq_refl, lookup, insert, lookup-insert_self}
use gocord.Rooms.Peer.{Heap}
use gocord.Rooms.State.{Error, at_capacity, caller, Room, Manager, Reader, random_token, is_expired}
use gocord.Rooms.Lifecycle.{evict, is_full, created, not_created, new_room, add_room, create}
use gocord.Rooms.Membership.{joined, claim_role, assign_role, enter, finish_join, join}
use gocord.Rooms.Invariant.{stays, evict-keep}
use gocord.Rooms.Access.{join_right}

add_room-created :
    (sha256 : Text → Text) (r room : Room) (s secret : Text) (now : ℕ) (m m' : Manager)
    (heap heap' : Heap)
    → add_room sha256 r s now m heap ≡ (m', heap', created room secret)
    → (rooms : List (Text × Room)) × (r ≡ room)
      × (s ≡ secret)
      × (m' ≡ record m { rooms = insert r.id r rooms })
unfolding add_room
add_room-created sha256 r room s secret now m m' heap heap' e =
    elim (Bool-cases (is_full m.max_rooms (length m.rooms))) [
      | inr space ↦ (m.rooms, ground arith, ground arith, ground arith)
      | inl full ↦
          ((evict m.empty_grace now m.rooms heap).0, ground arith, ground arith, ground arith)
    ]

create-created :
    (sha256 : Text → Text) (read_id read_secret : Reader) (now : ℕ) (m m' : Manager)
    (heap heap' : Heap) (room : Room) (secret : Text)
    → create sha256 read_id read_secret now m heap ≡ (m', heap', created room secret)
    → (id : Text) × (rooms : List (Text × Room)) × (new_room sha256 now m.ttl id secret ≡ room)
      × (lookup room.id m'.rooms ≡ some room)
unfolding create
create-created sha256 read_id read_secret now m m' heap heap' room secret e =
    elim (Option-cases (random_token 18 read_id)) [
      | inl none_id ↦ absurd (cc (rw (none_id, create) at e))
      | inr (id, drawn) ↦ elim (Option-cases (random_token 32 read_secret)) [
        | inl none_secret ↦ absurd (cc (rw none_secret at (rw (drawn, create) at e)))
        | inr (s, drawn') ↦
            let (rooms, same, same_secret, left) =
              add_room-created sha256 (new_room sha256 now m.ttl id s) room s secret now m m' heap
                heap' (rw drawn' at (rw (drawn, create) at e)) in
            (
              id,
              rooms,
              rw (← same_secret) same,
              rw left (rw (← same) (lookup-insert_self _ _ rooms)),
            )
      ]
    ]

first_join :
    (sha256 : Text → Text) (now ttl : ℕ) (id secret client : Text) (peer : ℕ) (token : Text)
    (read : Reader) (fresh key : Text) (m : Manager)
    → random_token 18 read ≡ some fresh
    → (finish_join key client peer m
        (claim_role client token read (new_room sha256 now ttl id secret))).1
      ≡ joined caller 1 fresh
unfolding new_room claim_role assign_role finish_join enter lookup insert
first_join sha256 now ttl id secret client peer token read fresh key m drawn =
    rw drawn (rw (text_eq_refl client))

-- A secret that Create answered opens its room until the room expires: while crypto/rand works, the
-- first client that joins with it is the caller, alone in the room.
pub join-create :
    (sha256 : Text → Text) (read_id read_secret read : Reader) (now later : ℕ) (m m' : Manager)
    (heap heap' : Heap) (room : Room) (secret fresh client : Text) (peer : ℕ) (token : Text)
    → create sha256 read_id read_secret now m heap ≡ (m', heap', created room secret)
    → random_token 18 read ≡ some fresh
    → later < now + m.ttl
    → (join sha256 room.id secret client peer token read later m').1 ≡ joined caller 1 fresh
unfolding new_room is_expired
join-create sha256 read_id read_secret read now later m m' heap heap' room secret fresh client peer
      token e drawn in_time =
    let (id, rooms, same, there) =
      create-created sha256 read_id read_secret now m m' heap heap' room secret e in
    let opens : later < room.expires_at = rw (← same) in_time in
    let right : text_eq (sha256 secret) room.secret_hash ≡ true =
      rw (← same) (text_eq_refl (sha256 secret)) in
    ap (λ r. r.1)
      (join_right sha256 room.id secret client peer token read later m' room there
        (lt→leb room.expires_at later opens) right)
    ∙ ap (λ r. (finish_join room.id client peer m' (claim_role client token read r)).1) (sym same)
    ∙ first_join sha256 now m.ttl id secret client peer token read fresh room.id m' drawn

is_full-bound : (b : ℤ) (n : ℕ) → is_full b n ≡ true → (k : ℕ) × (b ≡ pos k) × (0 < k) × (k ≤ n)
unfolding is_full
is_full-bound (pos k) n h = (k, refl, ground arith, ground arith)
is_full-bound (negsuc k) n h = cc

add_room-not_created :
    (sha256 : Text → Text) (r : Room) (s : Text) (now : ℕ) (m m' : Manager) (heap heap' : Heap)
    (er : Error)
    → add_room sha256 r s now m heap ≡ (m', heap', not_created er)
    → let rooms = (evict m.empty_grace now m.rooms heap).0 in
      (is_full m.max_rooms (length rooms) ≡ true) × (m' ≡ record m { rooms = rooms })
unfolding add_room
add_room-not_created sha256 r s now m m' heap heap' er e = (ground arith, ground arith)

-- Create fails for want of room only if a positive bound is set and that many rooms are left after
-- the stale ones are evicted; a manager that has no bound never refuses for it.
create-at_capacity :
    (sha256 : Text → Text) (read_id read_secret : Reader) (now : ℕ) (m m' : Manager)
    (heap heap' : Heap)
    → create sha256 read_id read_secret now m heap ≡ (m', heap', not_created at_capacity)
    → (bound : ℕ) × (m.max_rooms ≡ pos bound)
      × (0 < bound)
      × (bound ≤ length (keep (stays m.empty_grace now) m.rooms))
      × (m' ≡ record m { rooms = keep (stays m.empty_grace now) m.rooms })
unfolding create
create-at_capacity sha256 read_id read_secret now m m' heap heap' e =
    elim (Option-cases (random_token 18 read_id)) [
      | inl none_id ↦ absurd (cc (rw (none_id, create) at e))
      | inr (id, drawn) ↦ elim (Option-cases (random_token 32 read_secret)) [
        | inl none_secret ↦ absurd (cc (rw none_secret at (rw (drawn, create) at e)))
        | inr (s, drawn') ↦
            let (full, left) =
              add_room-not_created sha256 (new_room sha256 now m.ttl id s) s now m m' heap heap'
                at_capacity (rw drawn' at (rw (drawn, create) at e)) in
            let kept = evict-keep m.empty_grace now m.rooms heap in
            let (k, bound, some_bound, below) = is_full-bound m.max_rooms _ full in
            (k, bound, some_bound, rw (← kept) below, rw (← kept) left)
      ]
    ]
