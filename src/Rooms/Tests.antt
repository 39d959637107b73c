-- ===== src/Rooms/Tests.antt =====
-- Runs of internal/rooms/manager.go at concrete inputs, and the theorems at inputs that meet their
-- hypotheses. SHA-256 is stood for by the reversal of its text.
use gocord.Base.{
  ℕ, ◌+◌, ◌≤◌, ◌≡◌, refl, inl, ◌≢◌, true, false, List, [], ◌∷◌, ◌++◌, none, some, arith, replicate,
  length,
}
use gocord.Base.Int.{pos}
use gocord.Base.Assoc.{Text, codes, text_eq, lookup, insert, delete}
use gocord.Base64.{encode, encode_char}
use gocord.Rooms.Peer.{Peer, Heap, kill}
use gocord.Rooms.State.{
  unauthorized, room_full, at_capacity, room_expired, Role, caller, callee, Room, Manager, Reader,
  new_manager, is_expired, is_empty_too_long, is_stale,
}
use gocord.Rooms.Lifecycle.{create, new_room, created, not_created, cleanup, evict, count}
use gocord.Rooms.Membership.{join, joined, refused, leave, is_current, broadcast, recipients}
use gocord.Rooms.Seats.{RoomIsValid}
use gocord.Rooms.Access.{IsOpenTo, Stored, join-IsOpenTo, join_total}
use gocord.Rooms.Refusals.{RefusedFor, join-RefusedFor}
use gocord.Rooms.Connection.{join-join, leave-join}
use gocord.Rooms.Expiry.{cleanup_lem}
use gocord.Rooms.Delivery.{broadcast_lem}
use gocord.Rooms.Invariant.{ManagerIsValid, new_manager-IsValid}
use gocord.Rooms.History.{
  World, Call, create_call, join_call, step, run, run-IsValid, run-two_roles,
}

abbrev hash : Text → Text
hash s = 0 ∷ s

-- crypto/rand, answering a buffer of one repeated byte.
abbrev filled : ℕ → Reader
filled b n = some (replicate n b)

abbrev no_peers : Heap
no_peers = record { next = 0; cell = λ _. record { id = []; send = []; buffer = 2; dead = false } }

abbrev empty_manager : Manager
empty_manager = record { rooms = []; ttl = 100; empty_grace = 10; max_rooms = pos 1 }

rooms_run : Unit {0}
unfolding create join leave lookup insert delete text_eq encode encode_char cleanup is_current
    broadcast new_manager run step evict
rooms_run = tt

abbrev room_id : Text
room_id = replicate 24 b'A'

abbrev secret_text : Text
secret_text = replicate 42 b'A' ++ b'A' ∷ []

abbrev opened : Manager
opened = (create hash (filled 0) (filled 0) 5 empty_manager no_peers).0

create_test :
    (create hash (filled 0) (filled 0) 5 empty_manager no_peers).2
    ≡ created (new_room hash 5 100 room_id secret_text) secret_text
unfolding rooms_run
create_test = refl

full_test : (create hash (filled 1) (filled 0) 6 opened no_peers).2 ≡ not_created at_capacity
unfolding rooms_run
full_test = refl

-- After the room's time is over, Create makes room by itself.
reclaim_test : (length (create hash (filled 1) (filled 0) 105 opened no_peers).0.rooms ≡ 1)
unfolding rooms_run
reclaim_test = refl

join_tests :
    ((join hash room_id secret_text (codes "a") 7 [] (filled 2) 6 opened).1
      ≡ joined caller 1 (encode (record { url = true; padded = false }) (replicate 18 2)))
    × ((join hash room_id (codes "x") (codes "a") 7 [] (filled 2) 6 opened).1
        ≡ refused 0 unauthorized)
    × ((join hash room_id secret_text (codes "a") 7 [] (filled 2) 105 opened).1
        ≡ refused 0 room_expired)
unfolding rooms_run
join_tests = (refl, refl, refl)

-- The opened room with one client, and with two.
abbrev token_of : ℕ → Text
token_of n = encode (record { url = true; padded = false }) (replicate 18 n)

abbrev one_joined : Manager
one_joined = (join hash room_id secret_text (codes "a") 7 [] (filled 2) 6 opened).0

abbrev two_joined : Manager
two_joined = (join hash room_id secret_text (codes "b") 8 [] (filled 3) 6 one_joined).0

abbrev busy_room : Room
busy_room = record {
  id = room_id;
  secret_hash = hash secret_text;
  created_at = 5;
  expires_at = 105;
  had_participants = true;
  empty_since = none;
  peers = (codes "a", 7) ∷ (codes "b", 8) ∷ [];
  roles = (codes "a", caller) ∷ (codes "b", callee) ∷ [];
  session_tokens = (codes "a", token_of 2) ∷ (codes "b", token_of 3) ∷ [];
}

busy_test : lookup room_id two_joined.rooms ≡ some busy_room
unfolding rooms_run
busy_test = refl

busy-IsValid : RoomIsValid busy_room
unfolding rooms_run
busy-IsValid = record {
  seated = (refl, refl, refl);
  known = (refl, (refl, tt));
  tokens = (refl, (refl, tt));
  distinct = (refl, (refl, tt));
  idle = λ e. cc;
}

abbrev history : List Call
history =
    create_call (filled 0) (filled 0) 5
    ∷ join_call room_id secret_text (codes "a") 7 [] (filled 2) 6
    ∷ join_call room_id secret_text (codes "b") 8 [] (filled 3) 6
    ∷ []

abbrev start : World
start = record { manager = new_manager 100 10 (pos 1); heap = no_peers }

run-IsValid_example : ManagerIsValid (run hash start history).manager
run-IsValid_example = run-IsValid hash start history (new_manager-IsValid 100 10 (pos 1))

a_not_b : codes "a" ≢ codes "b"
a_not_b = λ e. ground arith

run-two_roles_example : (length busy_room.peers ≤ 2) × (caller ≢ callee)
unfolding rooms_run
run-two_roles_example =
    run-two_roles hash start 100 10 (pos 1) history room_id (codes "a") (codes "b") busy_room caller
      callee refl refl refl refl a_not_b

join-IsOpenTo_example :
    IsOpenTo hash room_id secret_text (codes "a") [] 6 opened
    × Stored room_id (codes "a") 7 opened one_joined caller 1 (token_of 2)
unfolding rooms_run
join-IsOpenTo_example =
    join-IsOpenTo hash room_id secret_text (codes "a") 7 [] (filled 2) 6 opened one_joined caller 1
      (token_of 2) refl

opened-IsOpenTo : IsOpenTo hash room_id secret_text (codes "a") [] 6 opened
unfolding rooms_run
opened-IsOpenTo = record {
  room = new_room hash 5 100 room_id secret_text;
  there = refl;
  in_time = omega arith;
  secret_right = refl;
  may_enter = inl (refl, omega arith);
}

join_total_example :
    (m' : Manager) × (role : Role) × (n : ℕ) × (t : Text) × (join hash room_id secret_text
        (codes "a")
        7
        []
        (filled 2)
        6
        opened
      ≡ (m', joined role n t))
unfolding rooms_run
join_total_example =
    join_total hash room_id secret_text (codes "a") 7 [] (filled 2) 6 opened (token_of 2) refl
      opened-IsOpenTo

join-RefusedFor_example :
    RefusedFor hash room_id secret_text (codes "c") [] (filled 4) 6 two_joined room_full two_joined
unfolding rooms_run
join-RefusedFor_example =
    join-RefusedFor hash room_id secret_text (codes "c") 9 [] (filled 4) 6 two_joined two_joined 2
      room_full refl

join-join_example :
    ((join hash room_id secret_text (codes "b") 9 (token_of 3) (filled 4) 7 two_joined).1
      ≡ joined callee 2 (token_of 3))
    × (join hash room_id secret_text (codes "b") 9 (codes "x") (filled 4) 7 two_joined
        ≡ (two_joined, refused 2 unauthorized))
unfolding rooms_run
join-join_example =
    join-join hash room_id secret_text (codes "b") 8 [] (filled 3) 6 one_joined two_joined callee 2
      (token_of 3) secret_text (codes "x") busy_room 9 (filled 4) 7 refl (λ e. ground arith)
      (λ e. ground arith) refl (omega arith) refl

leave-join_example :
    ((leave room_id (codes "b") 6 9 two_joined).0 ≡ two_joined)
    × (is_current room_id (codes "b") 8 two_joined ≡ true)
unfolding rooms_run
leave-join_example =
    leave-join hash room_id secret_text (codes "b") 8 [] (filled 3) 6 9 one_joined two_joined callee
      2 (token_of 3) 6 refl (λ e. omega arith)

-- Two peers with room for one payload each.
abbrev small_peer : Peer
small_peer = record { id = codes "a"; send = []; buffer = 1; dead = false }

abbrev two_peers : Heap
two_peers = record { next = 9; cell = λ _. small_peer }

broadcast_lem_example :
    let (heap', sent) = broadcast room_id (codes "a") (codes "hi") two_joined two_peers in
    (sent ≡ 1)
    × (heap'.cell 8 ≡ record small_peer { send = codes "hi" ∷ [] })
    × (heap'.cell 7 ≡ small_peer)
unfolding rooms_run recipients
broadcast_lem_example =
    broadcast_lem room_id (codes "a") (codes "hi") two_joined two_peers busy_room 8 7 refl
      (refl, (refl, tt)) refl

cleanup_lem_example :
    let (m', heap', removed) = cleanup 105 two_joined two_peers in
    (m' ≡ record two_joined { rooms = [] })
    × (removed + count m' ≡ 1)
    × (heap'.cell 8 ≡ record small_peer { dead = true })
unfolding rooms_run count is_stale is_expired is_empty_too_long kill
cleanup_lem_example = cleanup_lem 105 two_joined two_peers 8
