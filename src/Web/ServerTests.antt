-- ===== src/Web/ServerTests.antt =====
-- Runs of the client of web/ui.go with the server at concrete inputs, and the theorems about both at
-- inputs that meet their hypotheses.
use gocord.Base.{ℕ, some, ◌≡◌, refl, true, false, List, [], ◌∷◌, none, some, arith, replicate}
use gocord.Base.Int.{pos}
use gocord.Base.Assoc.{delete, Text, codes, text_eq, lookup, insert}
use gocord.Base64.{encode, encode_char, raw_url_encoding}
use gocord.Rooms.Peer.{Heap}
use gocord.Rooms.State.{Room, Manager, caller}
use gocord.Rooms.Membership as Membership
use gocord.Rooms.History as History
use gocord.Rooms.History.{Call, cleanup_call, join_call, leave_call}
use gocord.Rooms.State.{is_expired, is_empty_too_long, is_stale}
use gocord.Rooms.Lifecycle.{evict, cleanup}
use gocord.Signaling.Codec.{Codec}
use gocord.Signaling.Handler.{Server, Session, serve_message}
use gocord.Web.State.{Client, new_client, Action, close_socket, send, join, leave, resolved}
use gocord.Web.Opus.{enhance_opus_sdp}
use gocord.Web.Call.{hangup}
use gocord.Web.Signals.{joined}
use gocord.Web.Events.{starts, moves, opens, receives, closes, reconnect_fires, resumes, step, run}
use gocord.Web.Rejoin.{role_text, rejoin-join}
use gocord.Web.Leaving.{message_type, serve_message-hangup}
use gocord.Web.Tests.{half, in_call}

server_run : Unit {0}
unfolding run step text_eq lookup insert hangup enhance_opus_sdp
server_run = tt

abbrev hash : Text → Text
hash s = 0 ∷ s

abbrev new_room : Room
new_room = record {
  id = codes "r";
  created_at = 5;
  expires_at = 105;
  secret_hash = hash (codes "s");
  peers = [];
  roles = [];
  session_tokens = [];
  had_participants = false;
  empty_since = some 5;
}

abbrev manager : Manager
manager = record {
  rooms = (codes "r", new_room) ∷ [];
  ttl = 100;
  empty_grace = 10;
  max_rooms = pos 1;
}

abbrev token : Text
token = encode raw_url_encoding (replicate 18 2)

abbrev joined_room : Room
joined_room = record new_room {
  peers = (codes "a", 0) ∷ [];
  roles = (codes "a", caller) ∷ [];
  session_tokens = (codes "a", token) ∷ [];
  had_participants = true;
  empty_since = none;
}

abbrev joined_manager : Manager
joined_manager = record manager { rooms = (codes "r", joined_room) ∷ [] }

abbrev joining : Client
joining =
    run
      (moves (codes "r") (codes "s")
        ∷ starts
        ∷ resumes 0 (resolved [])
        ∷ resumes 0 (resolved [])
        ∷ opens
        ∷ [])
      (new_client (codes "a"))

abbrev nobody : Heap
nobody = record { next = 1; cell = λ _. record { id = []; send = []; buffer = 64; dead = false } }

-- The old socket's Leave, a sweep, and the other client, who comes and goes.
abbrev meanwhile : List Call
meanwhile =
    cleanup_call 7
    ∷ join_call (codes "r") (codes "s") (codes "b") 3 [] (λ n. some (replicate n 4)) 8
    ∷ leave_call (codes "r") (codes "b") 3 9
    ∷ []

rejoin-join_example :
    let c' =
      run
        (receives (joined (role_text caller) token 1) ∷ closes half ∷ reconnect_fires ∷ opens ∷ [])
        joining in
    let w =
      History.run hash
        (record { manager = joined_manager; heap = nobody })
        (leave_call (codes "r") (codes "a") 0 7 ∷ meanwhile) in
    ((rest : List Action) × (c'.log
        ≡ send 1 (join (codes "r") (codes "s") (codes "a") token) ∷ rest))
    × ((n' : ℕ) × ((Membership.join hash
            (codes "r")
            (codes "s")
            (codes "a")
            4
            token
            (λ n. none)
            10
            w.manager).1
          ≡ Membership.joined caller n' token))
unfolding server_run Membership.join encode encode_char History.run evict is_stale is_expired
    is_empty_too_long Membership.leave cleanup delete
rejoin-join_example =
    rejoin-join hash joining 0 (λ n. some (replicate n 2)) 6 manager joined_manager nobody caller 1
      token joined_room half 7 meanwhile _ 4 (λ n. none) 10 (refl, refl) (refl, refl, refl) refl
      (record {
        valid =
            (record { seated = tt; known = tt; tokens = tt; distinct = tt; idle = λ e. refl }, tt);
        distinct = (refl, tt);
        bounded = omega arith;
      })
      (λ e. ground arith) refl refl (omega arith) (tt, (tt, (tt, tt))) refl

-- JSON that is always read as the message which a client sends when it leaves.
abbrev leaving_codec : Codec
leaving_codec = record {
  unmarshal_message = λ _. some (record { type = codes "leave"; room = []; payload = [] });
  unmarshal_join = λ _. none;
  unmarshal_description = λ _. none;
  unmarshal_candidate = λ _. none;
  marshal_message = λ m. some m.type;
  marshal_description = λ _. none;
  marshal_error = λ e. e.code;
  marshal_joined = λ _ _ t. t;
}

abbrev two_peers : Heap
two_peers = record {
  next = 2;
  cell = λ _. record { id = []; send = []; buffer = 64; dead = false };
}

abbrev busy_server : Server
busy_server = record {
  world = record {
    manager = record manager {
      rooms = (codes "r", record joined_room { peers = (codes "a", 0) ∷ (codes "b", 1) ∷ [] }) ∷ [];
    };
    heap = two_peers;
  };
  pending = [];
}

abbrev seat : Session
seat = record { room = codes "r"; client = codes "a"; peer = 0 }

serve_message-hangup_example :
    let v' = (serve_message hash leaving_codec seat (codes "{}") busy_server).0 in
    ((rest : List Action) × ((hangup true in_call).log ≡ close_socket 0 ∷ send 0 leave ∷ rest))
    × (v'.world.manager ≡ busy_server.world.manager)
    × (v'.pending ≡ busy_server.pending)
    × (v'.world.heap.cell 1 ≡ busy_server.world.heap.cell 1)
unfolding server_run message_type Membership.is_current
serve_message-hangup_example =
    serve_message-hangup hash leaving_codec true in_call (record { id = 0; is_open = true }) seat
      (codes "{}") busy_server 1 refl refl refl refl (λ e. omega arith)
