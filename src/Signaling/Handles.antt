-- ===== src/Signaling/Handles.antt =====
-- internal/signaling/handler.go and internal/rooms/manager.go together: every connection that joins
-- has a peer of its own, so the clients of a room are always different connections.
use gocord.Base.{
  ℕ, suc, ◌≤◌, ◌<◌, ◌≡◌, refl, sym, ap, inl, inr, false, List, [], ◌∷◌, some, All, map, arith,
  Bool-cases, Option-cases,
}
use gocord.Base.Assoc.{
  Text, text_eq, lookup, insert, delete, AllValues, AllValues-lookup, AllValues-insert,
  AllValues-delete,
}
use gocord.Rooms.State.{Role, Room, Manager, Reader, is_expired}
use gocord.Rooms.Membership.{
  Claim, granted, denied, claim_role, enter, finish_join, join, is_active, depart, leave,
}
use gocord.Rooms.Seats.{assign_role-granted, reclaim_role-granted}
use gocord.Rooms.Delivery.{listed, DistinctHandles}
use gocord.Rooms.Access.{join_missing, join_late, join_wrong, join_right}

-- The connections of a room have handles that have been given out, each its own.
abbrev pub PeersFit : ℕ → List (Text × ℕ) → Type 0
PeersFit next peers = All (λ e. e.1 < next) peers × DistinctHandles (map (λ e. e.1) peers)

abbrev pub HandlesFit : ℕ → List (Text × Room) → Type 0
HandlesFit next rooms = AllValues (λ r. PeersFit next r.peers) rooms

Below-mono :
    (m n : ℕ) (peers : List (Text × ℕ))
    → m ≤ n
    → All (λ e. e.1 < m) peers
    → All (λ e. e.1 < n) peers
Below-mono m n [] h b = tt
Below-mono m n (e ∷ peers) h b = (omega arith, Below-mono m n peers h b.1)

pub HandlesFit-mono :
    (m n : ℕ) (rooms : List (Text × Room)) → m ≤ n → HandlesFit m rooms → HandlesFit n rooms
HandlesFit-mono m n [] h f = tt
HandlesFit-mono m n ((id, r) ∷ rooms) h ((b, d), f) =
    ((Below-mono m n r.peers h b, d), HandlesFit-mono m n rooms h f)

listed-fresh :
    (next : ℕ) (peers : List (Text × ℕ))
    → All (λ e. e.1 < next) peers
    → listed next (map (λ e. e.1) peers) ≡ false
listed-fresh next [] b = refl
listed-fresh next (e ∷ peers) b = ground (arith, listed-fresh next peers b.1)

listed-insert :
    (client : Text) (next h : ℕ) (peers : List (Text × ℕ))
    → h < next
    → listed h (map (λ e. e.1) peers) ≡ false
    → listed h (map (λ e. e.1) (insert client next peers)) ≡ false
unfolding insert
listed-insert client next h [] b d = ground arith
listed-insert client next h (e ∷ peers) b d = ground (arith, listed-insert client next h peers b)

-- A client that connects by a new peer, for the first time or again.
insert-PeersFit :
    (client : Text) (next : ℕ) (peers : List (Text × ℕ))
    → PeersFit next peers
    → PeersFit (suc next) (insert client next peers)
unfolding insert
insert-PeersFit client next [] f = ((omega arith, tt), (refl, tt))
insert-PeersFit client next ((id, h) ∷ peers) ((b, bs), (d, ds)) =
    elim (Bool-cases (text_eq id client)) [
      | inl same ↦ rw same (
        (omega arith, Below-mono next (suc next) peers (omega arith) bs),
        (listed-fresh next peers bs, ds),
      )
      | inr other ↦
          let (below, apart) = insert-PeersFit client next peers (bs, ds) in
          rw other ((omega arith, below), (listed-insert client next h peers b d, apart))
    ]

listed-delete :
    (client : Text) (h : ℕ) (peers : List (Text × ℕ))
    → listed h (map (λ e. e.1) peers) ≡ false
    → listed h (map (λ e. e.1) (delete client peers)) ≡ false
unfolding delete
listed-delete client h [] d = refl
listed-delete client h (e ∷ peers) d = ground (arith, listed-delete client h peers)

delete-PeersFit :
    (client : Text) (next : ℕ) (peers : List (Text × ℕ))
    → PeersFit next peers
    → PeersFit next (delete client peers)
unfolding delete
delete-PeersFit client next [] f = f
delete-PeersFit client next ((id, h) ∷ peers) ((b, bs), (d, ds)) =
    elim (Bool-cases (text_eq id client)) [
      | inl same ↦ rw same (delete-PeersFit client next peers (bs, ds))
      | inr other ↦
          let (below, apart) = delete-PeersFit client next peers (bs, ds) in
          rw other ((b, below), (listed-delete client h peers d, apart))
    ]

claim_role-peers :
    (client token : Text) (read : Reader) (room room' : Room) (role : Role)
    → claim_role client token read room ≡ granted role room'
    → room'.peers ≡ room.peers
unfolding claim_role
claim_role-peers client token read room room' role e =
    elim (Option-cases (lookup client room.roles)) [
      | inl new ↦
          let (t, _, _, same, _) =
            assign_role-granted client read room room' role (rw (new, claim_role) at e) in
          ap (λ (r : Room). r.peers) same
      | inr (r, old) ↦
          ap (λ (q : Room). q.peers)
            (sym
              (reclaim_role-granted r role client token room room' (rw (old, claim_role) at e)).1)
    ]

finish_join-HandlesFit :
    (id client token : Text) (read : Reader) (next : ℕ) (m : Manager) (room : Room) (cl : Claim)
    → HandlesFit next m.rooms
    → lookup id m.rooms ≡ some room
    → claim_role client token read room ≡ cl
    → HandlesFit (suc next) (finish_join id client next m cl).0.rooms
unfolding finish_join enter
finish_join-HandlesFit id client token read next m room (denied n er) f there e =
    HandlesFit-mono next (suc next) m.rooms (omega arith) f
finish_join-HandlesFit id client token read next m room (granted role room') f there e =
    let old = AllValues-lookup (λ r. PeersFit next r.peers) id room m.rooms f there in
    let same = claim_role-peers client token read room room' role e in
    AllValues-insert (λ r. PeersFit (suc next) r.peers) id _ m.rooms
      (insert-PeersFit client next room'.peers (rw same old))
      (HandlesFit-mono next (suc next) m.rooms (omega arith) f)

-- Join with the peer that NewPeer has just made.
pub join-HandlesFit :
    (sha256 : Text → Text) (id secret client token : Text) (read : Reader) (now next : ℕ)
    (m : Manager)
    → HandlesFit next m.rooms
    → HandlesFit (suc next) (join sha256 id secret client next token read now m).0.rooms
join-HandlesFit sha256 id secret client token read now next m f =
    elim (Option-cases (lookup id m.rooms)) [
      | inl e ↦ rw (join_missing sha256 id secret client next token read now m e) up
      | inr (room, e) ↦ elim (Bool-cases (is_expired now room)) [
        | inl late ↦
            rw (join_late sha256 id secret client next token read now m room e late)
              (AllValues-delete (λ r. PeersFit (suc next) r.peers) id m.rooms up)
        | inr open' ↦ elim (Bool-cases (text_eq (sha256 secret) room.secret_hash)) [
          | inr wrong ↦
              rw (join_wrong sha256 id secret client next token read now m room e open' wrong) up
          | inl right ↦
              rw (join_right sha256 id secret client next token read now m room e open' right)
                (finish_join-HandlesFit id client token read next m room _ f e refl)
        ]
      ]
    ]
  where
    up : HandlesFit (suc next) m.rooms
    up = HandlesFit-mono next (suc next) m.rooms (omega arith) f

pub leave-HandlesFit :
    (id client : Text) (h now next : ℕ) (m : Manager)
    → HandlesFit next m.rooms
    → HandlesFit next (leave id client h now m).0.rooms
unfolding leave depart
leave-HandlesFit id client h now next m f = elim (Option-cases (lookup id m.rooms)) [
  | inl e ↦ rw (e, leave) f
  | inr (room, e) ↦
      let old = AllValues-lookup (λ r. PeersFit next r.peers) id room m.rooms f e in
      elim (Bool-cases (is_active (lookup client room.peers) h)) [
        | inl active ↦
            rw (e, leave)
              (rw active (
                AllValues-insert (λ r. PeersFit next r.peers) id (depart client now room) m.rooms
                  (delete-PeersFit client next room.peers old) f))
        | inr inactive ↦ rw (e, leave) (rw inactive f)
      ]
]
