-- ===== src/Rooms/Membership.antt =====
-- internal/rooms/manager.go: who is in a room (Join, Leave, IsCurrent, Broadcast). Each method runs
-- under the manager's lock, so it is one step; Broadcast enqueues after it has released the lock.
use gocord.Base.{
  ℕ, Bool, true, false, not, ◌&&◌, ◌||◌, List, [], length, leb, ◌==◌, if◌then◌else◌, Option, none,
  some, option_or, keep, map,
}
use gocord.Base.Assoc.{Text, text_eq, lookup, insert, delete}
use gocord.Rooms.Peer.{Payload, Heap, enqueue_all}
use gocord.Rooms.State.{
  Error, room_not_found, unauthorized, room_full, room_expired, no_entropy, Role, caller, callee,
  Room, Manager, Reader, random_token, is_expired,
}

-- What Join returns: role, participants and token, or the participants beside an error.
pub data JoinReply : Type 0 where
  joined : Role → ℕ → Text → JoinReply
  refused : ℕ → Error → JoinReply

pub data Claim : Type 0 where
  granted : Role → Room → Claim
  denied : ℕ → Error → Claim

-- The branch of Join for a client that has a role.
unfoldable pub reclaim_role : Role → Text → Text → Room → Claim
reclaim_role role client session_token room =
    let expected = option_or (lookup client room.session_tokens) [] in
    if text_eq expected [] || not (text_eq session_token expected)
    then denied (length room.peers) unauthorized
    else granted role room

-- The branch of Join for a new client.
unfoldable pub assign_role : Text → Reader → Room → Claim
unfolding random_token
assign_role client read room =
    if leb 2 (length room.roles)
    then denied (length room.peers) room_full
    else elim (random_token 18 read) [
      | none ↦ denied 0 no_entropy
      | some token ↦
          let role = if length room.roles == 0 then caller else callee in
          granted role (record room {
            roles = insert client role room.roles;
            session_tokens = insert client token room.session_tokens;
          })
    ]

unfoldable pub claim_role : Text → Text → Reader → Room → Claim
unfolding reclaim_role assign_role
claim_role client session_token read room = elim (lookup client room.roles) [
  | some role ↦ reclaim_role role client session_token room
  | none ↦ assign_role client read room
]

-- The end of Join, once the role is known.
unfoldable pub enter : Text → ℕ → Room → Room
enter client peer room = record room {
  peers = insert client peer room.peers;
  had_participants = true;
  empty_since = none;
}

unfoldable pub finish_join : Text → Text → ℕ → Manager → Claim → Manager × JoinReply
unfolding enter
finish_join room_id client peer m (denied n e) = (m, refused n e)
finish_join room_id client peer m (granted role room) =
    let room' = enter client peer room in
    (
      record m { rooms = insert room_id room' m.rooms },
      joined role (length room'.peers) (option_or (lookup client room'.session_tokens) []),
    )

module _ (sha256 : Text → Text) where
  -- Manager.Join; `client` is peer.ID, `peer` the pointer.
  unfoldable pub join : Text → Text → Text → ℕ → Text → Reader → ℕ → Manager → Manager × JoinReply
  unfolding claim_role finish_join is_expired
  join room_id secret client peer session_token read now m = elim (lookup room_id m.rooms) [
    | none ↦ (m, refused 0 room_not_found)
    | some room ↦
        if is_expired now room
        then (record m { rooms = delete room_id m.rooms }, refused 0 room_expired)
        else if not (text_eq (sha256 secret) room.secret_hash)
        then (m, refused 0 unauthorized)
        else finish_join room_id client peer m (claim_role client session_token read room)
  ]

-- `peer, ok := room.peers[peerID]`, then `ok && peer == current`.
unfoldable pub is_active : Option ℕ → ℕ → Bool
is_active none current = false
is_active (some peer) current = peer == current

unfoldable pub depart : Text → ℕ → Room → Room
depart client now room =
    let peers = delete client room.peers in
    record room {
      peers = peers;
      empty_since =
          if length peers == 0 && room.had_participants then some now else room.empty_since;
    }

-- Manager.Leave: the participants that remain, and whether the peer was removed.
unfoldable pub leave : Text → Text → ℕ → ℕ → Manager → Manager × ℕ × Bool
unfolding is_active depart
leave room_id client current now m = elim (lookup room_id m.rooms) [
  | none ↦ (m, 0, false)
  | some room ↦
      if is_active (lookup client room.peers) current
      then (
        record m { rooms = insert room_id (depart client now room) m.rooms },
        length (depart client now room).peers,
        true,
      )
      else (m, length room.peers, false)
]

unfoldable pub is_current : Text → Text → ℕ → Manager → Bool
unfolding is_active
is_current room_id client current m = elim (lookup room_id m.rooms) [
  | none ↦ false
  | some room ↦ is_active (lookup client room.peers) current
]

-- The first loop of Broadcast: the peers of everybody but `except`.
unfoldable pub recipients : Text → List (Text × ℕ) → List ℕ
recipients except peers = map (λ e. e.1) (keep (λ e. not (text_eq e.0 except)) peers)

-- Broadcast. It chooses the peers under the manager's lock and enqueues after it has released it; here
-- it is one step.
unfoldable pub broadcast : Text → Text → Payload → Manager → Heap → Heap × ℕ
unfolding recipients enqueue_all
broadcast room_id except payload m heap = elim (lookup room_id m.rooms) [
  | none ↦ (heap, 0)
  | some room ↦ enqueue_all payload (recipients except room.peers) heap
]
