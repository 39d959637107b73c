-- ===== src/Rooms/Keeping.antt =====
-- internal/rooms/manager.go: every call of the room manager keeps the seat of a client.
use gocord.Base.{
  ℕ, ◌≡◌, ◌≢◌, refl, sym, ap, ◌∙◌, inl, inr, false, List, [], ◌∷◌, Option, none, some, option_or,
  length, All, All-keep, Bool-cases, Option-cases, subst,
}
use gocord.Base.Assoc.{Text, text_eq, text_eq_iff, lookup, insert, lookup-insert}
use gocord.Rooms.Peer.{Heap}
use gocord.Rooms.State.{Room, Role, Manager, Reader, random_token, is_expired}
use gocord.Rooms.Lifecycle.{evict, is_full, add_room, new_room, create, delete_room, cleanup}
use gocord.Rooms.Membership.{
  JoinReply, Claim, granted, denied, claim_role, enter, finish_join, join, leave, depart, is_active,
}
use gocord.Rooms.Seats.{add_client, assign_role-granted, reclaim_role-granted}
use gocord.Rooms.Invariant.{evict-keep}
use gocord.Rooms.Access.{join_missing, join_late, join_wrong, join_right}
use gocord.Rooms.History.{
  World, Call, create_call, join_call, leave_call, broadcast_call, delete_call, cleanup_call, step,
  run,
}
use gocord.Rooms.Kept.{DrawsOther, HoldsSeat, Kept, Kept-lookup, Kept-insert, Kept-delete}

new_room-id :
    (sha256 : Text → Text) (now ttl : ℕ) (id secret : Text)
    → (new_room sha256 now ttl id secret).id ≡ id
unfolding new_room
new_room-id sha256 now ttl id secret = refl

module _ (id client : Text) (role : Role) (t hash : Text) (expires : ℕ) where
  abbrev Seat : Room → Type 0
  Seat room = HoldsSeat id client role t hash expires room

  abbrev AllKept : List (Text × Room) → Type 0
  AllKept rooms = Kept id client role t hash expires rooms

  there_at :
      (j : Text) (room : Room) (m : Manager)
      → AllKept m.rooms
      → lookup j m.rooms ≡ some room
      → j ≡ id
      → Seat room
  there_at j room m k there same =
      Kept-lookup id client role t hash expires m.rooms room k
        (ap (λ (x : Text). lookup x m.rooms) (sym same) ∙ there)

  add_client-Holds :
      (other token : Text) (room : Room)
      → lookup other room.roles ≡ none
      → Seat room
      → Seat (add_client other token room)
  add_client-Holds other token room new h =
      let differ : text_eq other client ≡ false = elim (Bool-cases (text_eq other client)) [
        | inr e ↦ e
        | inl same ↦ absurd (cc (h.role_held, new, (text_eq_iff other client).0 same))
      ] in
      let tokens : lookup client (insert other token room.session_tokens)
          ≡ lookup client room.session_tokens =
        lookup-insert other client token room.session_tokens ∙ rw differ refl in
      record {
        role_held = lookup-insert other client _ room.roles ∙ rw differ h.role_held;
        token_held = ap (λ (o : Option Text). option_or o []) tokens ∙ h.token_held;
        same_hash = h.same_hash;
        same_expiry = h.same_expiry;
      }

  claim_role-Holds :
      (other token : Text) (read : Reader) (room room' : Room) (r : Role)
      → claim_role other token read room ≡ granted r room'
      → Seat room
      → Seat room'
  unfolding claim_role
  claim_role-Holds other token read room room' r e h =
      elim (Option-cases (lookup other room.roles)) [
        | inl new ↦
            let (given, _, _, same, _) =
              assign_role-granted other read room room' r (rw (new, claim_role) at e) in
            subst Seat (sym same) (add_client-Holds other given room new h)
        | inr (q, old) ↦
            subst Seat
              (reclaim_role-granted q r other token room room' (rw (old, claim_role) at e)).1 h
      ]

  enter-Holds : (other : Text) (peer : ℕ) (room : Room) → Seat room → Seat (enter other peer room)
  unfolding enter
  enter-Holds other peer room h = record {
    role_held = h.role_held;
    token_held = h.token_held;
    same_hash = h.same_hash;
    same_expiry = h.same_expiry;
  }

  finish_join-Kept :
      (j other : Text) (peer : ℕ) (m : Manager) (room : Room) (token : Text) (read : Reader)
      (c : Claim)
      → AllKept m.rooms
      → lookup j m.rooms ≡ some room
      → claim_role other token read room ≡ c
      → AllKept (finish_join j other peer m c).0.rooms
  unfolding finish_join
  finish_join-Kept j other peer m room token read (denied n er) k there claim = k
  finish_join-Kept j other peer m room token read (granted r room') k there claim =
      Kept-insert id client role t hash expires j (enter other peer room') m.rooms
        (λ same.
          enter-Holds other peer room'
            (claim_role-Holds other token read room room' r claim (there_at j room m k there same)))
        k

  depart-Holds : (other : Text) (now : ℕ) (room : Room) → Seat room → Seat (depart other now room)
  unfolding depart
  depart-Holds other now room h = record {
    role_held = h.role_held;
    token_held = h.token_held;
    same_hash = h.same_hash;
    same_expiry = h.same_expiry;
  }

  pub leave-Kept :
      (j other : Text) (current now : ℕ) (m : Manager)
      → AllKept m.rooms
      → AllKept (leave j other current now m).0.rooms
  unfolding leave
  leave-Kept j other current now m k = elim (Option-cases (lookup j m.rooms)) [
    | inl gone ↦ rw (gone, leave) k
    | inr (room, there) ↦ elim (Bool-cases (is_active (lookup other room.peers) current)) [
      | inr stale ↦ rw (there, leave) (rw stale k)
      | inl active ↦
          rw (there, leave)
            (rw active (
              Kept-insert id client role t hash expires j (depart other now room) m.rooms
                (λ same. depart-Holds other now room (there_at j room m k there same)) k))
    ]
  ]

  evict-Kept :
      (grace now : ℕ) (rooms : List (Text × Room)) (heap : Heap)
      → AllKept rooms
      → AllKept (evict grace now rooms heap).0
  evict-Kept grace now rooms heap k = rw (evict-keep grace now rooms heap) (All-keep _ _ rooms k)

  add_room-Kept :
      (sha256 : Text → Text) (room : Room) (secret : Text) (now : ℕ) (m : Manager) (heap : Heap)
      → room.id ≢ id
      → AllKept m.rooms
      → AllKept (add_room sha256 room secret now m heap).0.rooms
  unfolding add_room
  add_room-Kept sha256 room secret now m heap differ k =
      let left = evict-Kept m.empty_grace now m.rooms heap k in
      let added = λ (rooms : List (Text × Room)) (q : AllKept rooms).
        Kept-insert id client role t hash expires room.id room rooms (λ same. absurd (differ same))
          q in
      elim (Bool-cases (is_full m.max_rooms (length m.rooms))) [
        | inr space ↦ rw (space, add_room) (added m.rooms k)
        | inl full ↦
            elim (Bool-cases
              (is_full m.max_rooms (length (evict m.empty_grace now m.rooms heap).0))) [
                | inl still ↦ rw (full, add_room) (rw still left)
                | inr freed ↦ rw (full, add_room) (rw freed (added _ left))
              ]
      ]

  create-Kept :
      (sha256 : Text → Text) (read_id read_secret : Reader) (now : ℕ) (m : Manager) (heap : Heap)
      → random_token 18 read_id ≢ some id
      → AllKept m.rooms
      → AllKept (create sha256 read_id read_secret now m heap).0.rooms
  unfolding create
  create-Kept sha256 read_id read_secret now m heap differ k =
      elim (Option-cases (random_token 18 read_id)) [
        | inl gone ↦ rw (gone, create) k
        | inr (drawn, e) ↦ elim (Option-cases (random_token 32 read_secret)) [
          | inl gone ↦ rw (e, create) (rw gone k)
          | inr (secret, f) ↦
              rw (e, create)
                (rw f (
                  add_room-Kept sha256 (new_room sha256 now m.ttl drawn secret) secret now m heap
                    (λ same.
                      differ (e ∙ ap some (sym (new_room-id sha256 now m.ttl drawn secret) ∙ same)))
                    k))
        ]
      ]

  join-Kept :
      (sha256 : Text → Text) (j secret other : Text) (peer : ℕ) (token : Text) (read : Reader)
      (now : ℕ) (m : Manager)
      → AllKept m.rooms
      → AllKept (join sha256 j secret other peer token read now m).0.rooms
  join-Kept sha256 j secret other peer token read now m k =
      let left =
        λ (r : Manager × JoinReply) (same : join sha256 j secret other peer token read now m ≡ r)
            (q : AllKept r.0.rooms).
          subst (λ (x : Manager × JoinReply). AllKept x.0.rooms) (sym same) q in
      elim (Option-cases (lookup j m.rooms)) [
        | inl gone ↦ left _ (join_missing sha256 j secret other peer token read now m gone) k
        | inr (room, there) ↦ elim (Bool-cases (is_expired now room)) [
          | inl late ↦
              left _ (join_late sha256 j secret other peer token read now m room there late)
                (Kept-delete id client role t hash expires j m.rooms k)
          | inr open' ↦ elim (Bool-cases (text_eq (sha256 secret) room.secret_hash)) [
            | inr wrong ↦
                left _
                  (join_wrong sha256 j secret other peer token read now m room there open' wrong) k
            | inl right ↦
                left _
                  (join_right sha256 j secret other peer token read now m room there open' right)
                  (finish_join-Kept j other peer m room token read
                    (claim_role other token read room) k there refl)
          ]
        ]
      ]

  delete_room-Kept :
      (j : Text) (m : Manager) (heap : Heap)
      → AllKept m.rooms
      → AllKept (delete_room j m heap).0.rooms
  unfolding delete_room
  delete_room-Kept j m heap k = elim (Option-cases (lookup j m.rooms)) [
    | inl gone ↦ rw (gone, delete_room) k
    | inr (room, there) ↦
        rw (there, delete_room) (Kept-delete id client role t hash expires j m.rooms k)
  ]

  cleanup-Kept :
      (now : ℕ) (m : Manager) (heap : Heap) → AllKept m.rooms → AllKept (cleanup now m heap).0.rooms
  unfolding cleanup
  cleanup-Kept now m heap k = evict-Kept m.empty_grace now m.rooms heap k

  step-Kept :
      (sha256 : Text → Text) (w : World) (c : Call)
      → DrawsOther id c
      → AllKept w.manager.rooms
      → AllKept (step sha256 w c).manager.rooms
  unfolding step
  step-Kept sha256 w (create_call read_id read_secret now) differ k =
      create-Kept sha256 read_id read_secret now w.manager w.heap differ k
  step-Kept sha256 w (join_call j secret other peer token read now) differ k =
      join-Kept sha256 j secret other peer token read now w.manager k
  step-Kept sha256 w (leave_call j other current now) differ k =
      leave-Kept j other current now w.manager k
  step-Kept sha256 w (broadcast_call j except payload) differ k = k
  step-Kept sha256 w (delete_call j) differ k = delete_room-Kept j w.manager w.heap k
  step-Kept sha256 w (cleanup_call now) differ k = cleanup-Kept now w.manager w.heap k

  pub run-Kept :
      (sha256 : Text → Text) (w : World) (cs : List Call)
      → All (DrawsOther id) cs
      → AllKept w.manager.rooms
      → AllKept (run sha256 w cs).manager.rooms
  unfolding run
  run-Kept sha256 w [] differ k = k
  run-Kept sha256 w (c ∷ cs) (d, differ) k =
      run-Kept sha256 (step sha256 w c) cs differ (step-Kept sha256 w c d k)
