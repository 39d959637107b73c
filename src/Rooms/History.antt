-- ===== src/Rooms/History.antt =====
-- internal/rooms/manager.go: any history of method calls, from many goroutines in whatever order
-- they take the manager's lock.
use gocord.Base.{
  ℕ, ◌≤◌, ◌≡◌, refl, inl, inr, List, [], ◌∷◌, some, length, Bool-cases, Option-cases, ◌≢◌,
}
use gocord.Base.Int.{ℤ}
use gocord.Base.Assoc.{Text, text_eq, lookup, AllValues-lookup}
use gocord.Rooms.Peer.{Payload, Heap}
use gocord.Rooms.State.{Room, Role, Manager, Reader, random_token, is_expired, new_manager}
use gocord.Rooms.Lifecycle.{evict, is_full, add_room, create, delete_room, cleanup}
use gocord.Rooms.Membership.{
  Claim, granted, denied, claim_role, enter, finish_join, join, leave, broadcast,
}
use gocord.Rooms.Seats.{
  RoomIsValid, new_room-IsValid, claim_role-IsValid, enter-IsValid, participants-le_two,
  roles_differ,
}
use gocord.Rooms.Invariant.{
  ManagerIsValid, put_room-IsValid, new_key-IsValid, drop_room-IsValid, evict-IsValid,
  cleanup-IsValid, delete_room-IsValid, leave-IsValid, new_manager-IsValid,
}

pub record World : Type 0 where
  pub manager : Manager
  pub heap : Heap

-- A call of a method of the manager with its arguments, the clock's and crypto/rand's answers.
pub data Call : Type 0 where
  create_call : Reader → Reader → ℕ → Call
  join_call : Text → Text → Text → ℕ → Text → Reader → ℕ → Call
  leave_call : Text → Text → ℕ → ℕ → Call
  broadcast_call : Text → Text → Payload → Call
  delete_call : Text → Call
  cleanup_call : ℕ → Call

module _ (sha256 : Text → Text) where
  unfoldable pub step : World → Call → World
  step w (create_call read_id read_secret now) =
      let (m, heap, _) = create sha256 read_id read_secret now w.manager w.heap in
      record { manager = m; heap = heap }
  step w (join_call id secret client peer token read now) = record w {
    manager = (join sha256 id secret client peer token read now w.manager).0;
  }
  step w (leave_call id client current now) = record w {
    manager = (leave id client current now w.manager).0;
  }
  step w (broadcast_call id except payload) = record w {
    heap = (broadcast id except payload w.manager w.heap).0;
  }
  step w (delete_call id) =
      let (m, heap) = delete_room id w.manager w.heap in record { manager = m; heap = heap }
  step w (cleanup_call now) =
      let (m, heap, _) = cleanup now w.manager w.heap in record { manager = m; heap = heap }

  unfoldable pub run : World → List Call → World
  unfolding step
  run w [] = w
  run w (c ∷ cs) = run (step w c) cs

  add_room-IsValid :
      (room : Room) (secret : Text) (now : ℕ) (m : Manager) (heap : Heap)
      → ManagerIsValid m
      → RoomIsValid room
      → ManagerIsValid (add_room sha256 room secret now m heap).0
  unfolding add_room
  add_room-IsValid room secret now m heap v r =
      elim (Bool-cases (is_full m.max_rooms (length m.rooms))) [
        | inr space ↦ rw (space, add_room) (new_key-IsValid m room.id room v space r)
        | inl full ↦
            elim (Bool-cases
              (is_full m.max_rooms (length (evict m.empty_grace now m.rooms heap).0))) [
                | inl still ↦ rw (full, add_room) (rw still (evict-IsValid m now heap v))
                | inr freed ↦
                    rw (full, add_room)
                      (rw freed
                        (new_key-IsValid _ room.id room (evict-IsValid m now heap v) freed r))
              ]
      ]

  pub create-IsValid :
      (read_id read_secret : Reader) (now : ℕ) (m : Manager) (heap : Heap)
      → ManagerIsValid m
      → ManagerIsValid (create sha256 read_id read_secret now m heap).0
  unfolding create
  create-IsValid read_id read_secret now m heap v = elim (Option-cases (random_token 18 read_id)) [
    | inl e ↦ rw (e, create) v
    | inr (id, e) ↦ elim (Option-cases (random_token 32 read_secret)) [
      | inl f ↦ rw (e, create) (rw f v)
      | inr (secret, f) ↦
          rw (e, create)
            (rw f (
              add_room-IsValid _ secret now m heap v (new_room-IsValid sha256 now m.ttl id secret)))
    ]
  ]

  finish_join-IsValid :
      (id client : Text) (peer : ℕ) (m : Manager) (room : Room) (token : Text) (read : Reader)
      (c : Claim)
      → ManagerIsValid m
      → lookup id m.rooms ≡ some room
      → claim_role client token read room ≡ c
      → ManagerIsValid (finish_join id client peer m c).0
  unfolding finish_join
  finish_join-IsValid id client peer m room token read (denied n e) v there claim = v
  finish_join-IsValid id client peer m room token read (granted role room') v there claim =
      let old = AllValues-lookup RoomIsValid id room m.rooms v.valid there in
      let (valid, holds) = claim_role-IsValid client token read room room' role old claim in
      put_room-IsValid m id room (enter client peer room') v there
        (enter-IsValid client peer room' valid (rw holds))

  pub join-IsValid :
      (id secret client : Text) (peer : ℕ) (token : Text) (read : Reader) (now : ℕ) (m : Manager)
      → ManagerIsValid m
      → ManagerIsValid (join sha256 id secret client peer token read now m).0
  unfolding join
  join-IsValid id secret client peer token read now m v = elim (Option-cases (lookup id m.rooms)) [
    | inl e ↦ rw (e, join) v
    | inr (room, e) ↦ elim (Bool-cases (is_expired now room)) [
      | inl late ↦ rw (e, join) (rw late (drop_room-IsValid m id v))
      | inr open' ↦ elim (Bool-cases (text_eq (sha256 secret) room.secret_hash)) [
        | inr wrong ↦ rw (e, join) (rw (open', wrong) v)
        | inl right ↦
            rw (e, join)
              (rw (open', right) (finish_join-IsValid id client peer m room token read _ v e refl))
      ]
    ]
  ]

  step-IsValid :
      (w : World) (c : Call) → ManagerIsValid w.manager → ManagerIsValid (step w c).manager
  unfolding step
  step-IsValid w (create_call read_id read_secret now) v =
      create-IsValid read_id read_secret now w.manager w.heap v
  step-IsValid w (join_call id secret client peer token read now) v =
      join-IsValid id secret client peer token read now w.manager v
  step-IsValid w (leave_call id client current now) v =
      leave-IsValid w.manager id client current now v
  step-IsValid w (broadcast_call id except payload) v = v
  step-IsValid w (delete_call id) v = delete_room-IsValid w.manager id w.heap v
  step-IsValid w (cleanup_call now) v = cleanup-IsValid w.manager now w.heap v

  -- Whatever calls of the manager's methods are made, in whatever order: every room has at most a
  -- caller and a callee, only clients with a role and a session token are connected, a room that
  -- is marked as empty has nobody connected, room ids are distinct, and a positive bound on the
  -- number of rooms is respected.
  pub run-IsValid :
      (w : World) (cs : List Call) → ManagerIsValid w.manager → ManagerIsValid (run w cs).manager
  unfolding run
  run-IsValid w [] v = v
  run-IsValid w (c ∷ cs) v = run-IsValid (step w c) cs (step-IsValid w c v)

  -- From a new manager on, whatever calls are made: in every room at most two clients are
  -- connected at once, and two different clients that hold roles hold different ones.
  pub run-two_roles :
      (w : World) (ttl grace : ℕ) (bound : ℤ) (cs : List Call) (id a b : Text) (room : Room)
      (r s : Role)
      → w.manager ≡ new_manager ttl grace bound
      → lookup id (run w cs).manager.rooms ≡ some room
      → lookup a room.roles ≡ some r
      → lookup b room.roles ≡ some s
      → a ≢ b
      → (length room.peers ≤ 2) × (r ≢ s)
  run-two_roles w ttl grace bound cs id a b room r s start there ra rb differ =
      let v = run-IsValid w cs (rw start (new_manager-IsValid ttl grace bound)) in
      let valid = AllValues-lookup RoomIsValid id room _ v.valid there in
      (participants-le_two room valid, roles_differ room.roles a b r s valid.seated ra rb differ)
