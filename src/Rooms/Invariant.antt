-- ===== src/Rooms/Invariant.antt =====
-- internal/rooms/manager.go: the manager as a whole. Every method keeps every room valid, the room
-- ids distinct and the number of rooms within the bound.
use gocord.Base.{
  ℕ, zero, suc, ◌≤◌, ◌≡◌, refl, inl, inr, Bool, false, not, List, [], ◌∷◌, none, some, length,
  if◌then◌else◌, keep, All-keep, length-keep-le, arith, Bool-cases, Option-cases,
}
use gocord.Base.Int.{ℤ, pos, negsuc}
use gocord.Base.Assoc.{
  Text, lookup, insert, delete, length-insert, length-delete-le, AllValues, AllValues-lookup,
  AllValues-insert, AllValues-delete,
}
use gocord.Base.Keys.{Distinct, Distinct-insert, Distinct-delete}
use gocord.Rooms.Peer.{Heap, kill_peers}
use gocord.Rooms.State.{Room, Manager, is_stale, new_manager}
use gocord.Rooms.Lifecycle.{evict, is_full, delete_room, cleanup}
use gocord.Rooms.Membership.{is_active, depart, leave}
use gocord.Rooms.Seats.{RoomIsValid, depart-IsValid}

-- A positive bound on the number of rooms is respected; any other bound means none.
abbrev pub Fits : ℤ → ℕ → Type 0
Fits (pos zero) n = Unit
Fits (pos (suc bound)) n = n ≤ suc bound
Fits (negsuc _) n = Unit

pub record ManagerIsValid (m : Manager) : Type 0 where
  pub valid : AllValues RoomIsValid m.rooms
  pub distinct : Distinct m.rooms
  pub bounded : Fits m.max_rooms (length m.rooms)

Fits-le : (bound : ℤ) (m n : ℕ) → m ≤ n → Fits bound n → Fits bound m
Fits-le (pos zero) m n h f = tt
Fits-le (pos (suc b)) m n h f = omega arith
Fits-le (negsuc _) m n h f = tt

Fits-suc : (bound : ℤ) (n : ℕ) → is_full bound n ≡ false → Fits bound n → Fits bound (suc n)
unfolding is_full
Fits-suc (pos zero) n h f = tt
Fits-suc (pos (suc b)) n h f = ground arith
Fits-suc (negsuc _) n h f = tt

pub new_manager-IsValid : (ttl grace : ℕ) (bound : ℤ) → ManagerIsValid (new_manager ttl grace bound)
unfolding new_manager
new_manager-IsValid ttl grace (pos zero) = record { valid = tt; distinct = tt; bounded = tt }
new_manager-IsValid ttl grace (pos (suc b)) = record {
  valid = tt;
  distinct = tt;
  bounded = omega arith;
}
new_manager-IsValid ttl grace (negsuc _) = record { valid = tt; distinct = tt; bounded = tt }

-- A room that is there is replaced by another valid one.
pub put_room-IsValid :
    (m : Manager) (id : Text) (old room : Room)
    → ManagerIsValid m
    → lookup id m.rooms ≡ some old
    → RoomIsValid room
    → ManagerIsValid (record m { rooms = insert id room m.rooms })
put_room-IsValid m id old room v e r = record {
  valid = AllValues-insert RoomIsValid id room m.rooms r v.valid;
  distinct = Distinct-insert id room m.rooms v.distinct;
  bounded = rw (length-insert id room m.rooms, e) v.bounded;
}

pub new_key-IsValid :
    (m : Manager) (id : Text) (room : Room)
    → ManagerIsValid m
    → is_full m.max_rooms (length m.rooms) ≡ false
    → RoomIsValid room
    → ManagerIsValid (record m { rooms = insert id room m.rooms })
new_key-IsValid m id room v below r = record {
  valid = AllValues-insert RoomIsValid id room m.rooms r v.valid;
  distinct = Distinct-insert id room m.rooms v.distinct;
  bounded = elim (Option-cases (lookup id m.rooms)) [
    | inl fresh ↦
        rw (length-insert id room m.rooms, fresh)
          (Fits-suc m.max_rooms (length m.rooms) below v.bounded)
    | inr (old, there) ↦ rw (length-insert id room m.rooms, there) v.bounded
  ];
}

pub drop_room-IsValid :
    (m : Manager) (id : Text)
    → ManagerIsValid m
    → ManagerIsValid (record m { rooms = delete id m.rooms })
drop_room-IsValid m id v = record {
  valid = AllValues-delete RoomIsValid id m.rooms v.valid;
  distinct = Distinct-delete id m.rooms v.distinct;
  bounded =
      Fits-le m.max_rooms (length (delete id m.rooms)) (length m.rooms)
        (length-delete-le id m.rooms) v.bounded;
}

abbrev pub stays : ℕ → ℕ → Text × Room → Bool
stays grace now e = not (is_stale grace now e.1)

-- The rooms that are left are those that are not stale, in their order.
pub evict-keep :
    (grace now : ℕ) (rooms : List (Text × Room)) (heap : Heap)
    → (evict grace now rooms heap).0 ≡ keep (stays grace now) rooms
unfolding evict
evict-keep grace now [] heap = refl
evict-keep grace now ((id, room) ∷ rest) heap = ground (
  arith,
  evict-keep grace now rest (if is_stale grace now room then kill_peers room.peers heap else heap),
)

pub lookup-keep-none :
    (p : Text × Room → Bool) (k : Text) (rooms : List (Text × Room))
    → lookup k rooms ≡ none
    → lookup k (keep p rooms) ≡ none
unfolding lookup
lookup-keep-none p k [] e = refl
lookup-keep-none p k ((j, r) ∷ rooms) e = ground (arith, lookup-keep-none p k rooms)

pub Distinct-keep :
    (p : Text × Room → Bool) (rooms : List (Text × Room)) → Distinct rooms → Distinct (keep p rooms)
Distinct-keep p [] d = tt
Distinct-keep p ((j, r) ∷ rooms) d =
    ground (arith, Distinct-keep p rooms d.1, lookup-keep-none p j rooms d.0)

pub evict-IsValid :
    (m : Manager) (now : ℕ) (heap : Heap)
    → ManagerIsValid m
    → ManagerIsValid (record m { rooms = (evict m.empty_grace now m.rooms heap).0 })
evict-IsValid m now heap v = rw (evict-keep m.empty_grace now m.rooms heap) (record {
  valid = All-keep _ _ m.rooms v.valid;
  distinct = Distinct-keep _ m.rooms v.distinct;
  bounded = Fits-le m.max_rooms _ _ (length-keep-le _ m.rooms) v.bounded;
})

pub cleanup-IsValid :
    (m : Manager) (now : ℕ) (heap : Heap) → ManagerIsValid m → ManagerIsValid (cleanup now m heap).0
unfolding cleanup
cleanup-IsValid m now heap v = evict-IsValid m now heap v

pub delete_room-IsValid :
    (m : Manager) (id : Text) (heap : Heap)
    → ManagerIsValid m
    → ManagerIsValid (delete_room id m heap).0
unfolding delete_room
delete_room-IsValid m id heap v = elim (Option-cases (lookup id m.rooms)) [
  | inl e ↦ rw (e, delete_room) v
  | inr (r, e) ↦ rw (e, delete_room) (drop_room-IsValid m id v)
]

pub leave-IsValid :
    (m : Manager) (id client : Text) (current now : ℕ)
    → ManagerIsValid m
    → ManagerIsValid (leave id client current now m).0
unfolding leave
leave-IsValid m id client current now v = elim (Option-cases (lookup id m.rooms)) [
  | inl e ↦ rw (e, leave) v
  | inr (r, e) ↦ elim (Bool-cases (is_active (lookup client r.peers) current)) [
    | inl yes' ↦
        rw (e, leave)
          (rw yes' (
            put_room-IsValid m id r (depart client now r) v e
              (depart-IsValid client now r (AllValues-lookup RoomIsValid id r m.rooms v.valid e))))
    | inr no' ↦ rw (e, leave) (rw no' v)
  ]
]
