-- ===== src/Signaling/Tests.antt =====
-- Runs of internal/signaling at concrete inputs. In place of JSON stands a codec in which a message
-- is its type.
use gocord.Base.{
  ◌≢◌, ◌≤◌, ◌≡◌, refl, inr, ◌⊎◌, true, false, [], ◌∷◌, ◌++◌, none, some, length, arith, replicate,
}
use gocord.Base.Int.{pos}
use gocord.Base.Assoc.{Text, codes, text_eq, lookup, insert}
use gocord.Text
use gocord.Text.{
  fold, contains, has_prefix, has_suffix, split, split_from, trim_space, trim_by, trim_left_by,
  trim_prefix, fields, fields_from, before_last, drop_text,
}
use gocord.Text.Split.{crlf, lf}
use gocord.Base64.{encode, encode_char}
use gocord.Rooms.Peer.{allocate, enqueue}
use gocord.Rooms.Lifecycle.{create}
use gocord.Rooms.State.{Room, caller, new_manager}
use gocord.Rooms.Invariant.{ManagerIsValid}
use gocord.Rooms.Membership.{is_current, join}
use gocord.Signaling.Ip.{parse_ip}
use gocord.Signaling.Origin.{Upgrade, Origin, request_scheme, same_origin, same_origin_lem}
use gocord.Signaling.Candidate.{
  Message, is_valid_candidate, keeps_line, sanitize_sdp, candidate_address,
}
use gocord.Signaling.Filter.{sanitize_sdp_mixed}
use gocord.Signaling.Codec.{
  Codec, CandidateIsSafe, DescriptionIsSafe, sanitize_message, sanitize_message_lem,
}
use gocord.Signaling.Handler.{Server, Session, serve_message, serve_first}
use gocord.Signaling.Handles.{PeersFit}
use gocord.Signaling.System.{Reach, here, next, creates, opens, Reach-two_connections}
use gocord.Signaling.Relay.{serve_message-outside}

abbrev hash : Text → Text
hash s = 0 ∷ s

abbrev candidate : Text
candidate = codes "candidate:1 1 udp 2130706431 192.0.2.7 54400 typ host"

abbrev forged : Text
forged = codes "a=candidate:1 1 udp 2130706431 nowhere.local 54400 typ host"

abbrev room_id : Text
room_id = replicate 24 b'A'

abbrev secret_text : Text
secret_text = replicate 43 b'A'

abbrev codec : Codec
codec = record {
  unmarshal_message = λ raw. some (record { type = raw; room = room_id; payload = raw });
  unmarshal_join =
      λ raw. some (record { secret = secret_text; client_id = codes "a"; session_token = [] });
  unmarshal_description = λ raw. some (record { type = raw; sdp = codes "v=0" });
  unmarshal_candidate = λ raw. some (record {
    candidate = candidate;
    sdp_mid = none;
    sdp_mline_index = none;
    username_fragment = none;
  });
  marshal_message = λ msg. some msg.type;
  marshal_description = λ d. some d.sdp;
  marshal_error = λ e. e.code;
  marshal_joined = λ role n token. token;
}

signaling_run : Unit {0}
unfolding contains has_prefix has_suffix split split_from Text.join trim_space trim_by trim_left_by
    trim_prefix fields fields_from before_last drop_text candidate_address is_valid_candidate
    keeps_line sanitize_sdp text_eq parse_ip sanitize_message is_current lookup
signaling_run = tt

candidate_tests : (is_valid_candidate candidate ≡ true) × (is_valid_candidate forged ≡ false)
unfolding signaling_run
candidate_tests = (refl, refl)

abbrev offer_sdp : Text
offer_sdp = codes "v=0" ++ crlf ++ forged ++ crlf ++ codes "t=0 0"

sanitize_test : sanitize_sdp offer_sdp ≡ codes "v=0" ++ crlf ++ codes "t=0 0"
unfolding signaling_run
sanitize_test = refl

abbrev clean_sdp : Text
clean_sdp = codes "v=0" ++ crlf ++ codes "t=0 0"

-- The candidate that the filter refuses, behind a line feed alone.
abbrev hidden : Text
hidden = codes "t=0 0" ++ lf ++ forged

sanitize_sdp_mixed_example :
    sanitize_sdp (codes "v=0" ++ crlf ++ hidden) ≡ codes "v=0" ++ crlf ++ hidden
unfolding signaling_run
sanitize_sdp_mixed_example = sanitize_sdp_mixed (codes "v=0") hidden refl refl refl refl

abbrev ice : Message
ice = record { type = codes "ice-candidate"; room = room_id; payload = codes "p" }

sanitize_message_lem_example : CandidateIsSafe codec ice ice ⊎ DescriptionIsSafe codec ice ice
unfolding signaling_run
sanitize_message_lem_example = sanitize_message_lem codec ice ice refl

-- A server with one room, in which the client "a" is connected by the peer 0; the peer 1 is
-- connected to nothing.
abbrev lone_room : Room
lone_room = record {
  id = room_id;
  secret_hash = hash secret_text;
  created_at = 5;
  expires_at = 105;
  peers = (codes "a", 0) ∷ [];
  roles = (codes "a", caller) ∷ [];
  session_tokens = (codes "a", codes "t") ∷ [];
  had_participants = true;
  empty_since = none;
}

abbrev lone_server : Server
lone_server = record {
  world = record {
    manager = record {
      rooms = (room_id, lone_room) ∷ [];
      ttl = 100;
      empty_grace = 10;
      max_rooms = pos 1;
    };
    heap = record {
      next = 2;
      cell = λ _. record { id = codes "a"; send = []; buffer = 64; dead = false };
    };
  };
  pending = [];
}

abbrev session : Session
session = record { room = room_id; client = codes "a"; peer = 0 }

abbrev stale_session : Session
stale_session = record { room = room_id; client = codes "a"; peer = 1 }

serve_message-outside_example :
    (serve_message hash codec session (codes "offer") lone_server).0.world.heap.cell 1
    ≡ lone_server.world.heap.cell 1
unfolding signaling_run
serve_message-outside_example =
    serve_message-outside hash codec session (codes "offer") lone_server 1 (λ e. omega arith)
      (inr (lone_room, refl, refl))

abbrev fresh_server : Server
fresh_server = record {
  world = record {
    manager = new_manager 100 10 (pos 1);
    heap = record {
      next = 0;
      cell = λ _. record { id = []; send = []; buffer = 64; dead = false };
    };
  };
  pending = [];
}

-- The room is created, and then a client joins it.
abbrev created_server : Server
created_server = record fresh_server {
  world =
      let (m, heap, _) =
        create hash (λ n. some (replicate n 0)) (λ n. some (replicate n 0)) 5
          fresh_server.world.manager fresh_server.world.heap in
      record { manager = m; heap = heap };
}

abbrev joined_server : Server
joined_server = record created_server {
  world =
      (serve_first hash codec (some (codes "join")) (λ n. some (replicate n 2)) 6
        created_server.world).0;
}

reached : Reach hash codec fresh_server joined_server
reached =
    next
      (next here (creates fresh_server (λ n. some (replicate n 0)) (λ n. some (replicate n 0)) 5))
      (opens created_server (some (codes "join")) (λ n. some (replicate n 2)) 6)

abbrev joined_room : Room
joined_room = record lone_room {
  session_tokens =
      (codes "a", encode (record { url = true; padded = false }) (replicate 18 2)) ∷ [];
}

Reach-two_connections_example :
    (length joined_room.peers ≤ 2)
    × PeersFit joined_server.world.heap.next joined_room.peers
    × ManagerIsValid joined_server.world.manager
unfolding signaling_run create serve_first join new_manager insert encode encode_char allocate
    enqueue Text.byte_length
Reach-two_connections_example =
    Reach-two_connections hash codec fresh_server joined_server 100 10 (pos 1) room_id joined_room
      refl reached refl

abbrev upgrade : Upgrade
upgrade = record {
  origin = codes "http://example.org";
  host = codes "example.org";
  tls = false;
  forwarded_proto = codes "HTTPS";
}

abbrev page : Origin
page = record { scheme = codes "http"; host = codes "example.org" }

scheme_tests :
    (request_scheme upgrade true ≡ codes "https") × (request_scheme upgrade false ≡ codes "http")
unfolding request_scheme fold text_eq
scheme_tests = (refl, refl)

same_origin_lem_example :
    (u : Origin) × (upgrade.origin ≢ [])
    × (some page ≡ some u)
    × (u.host ≡ upgrade.host)
    × (u.scheme ≡ request_scheme upgrade false)
    × ((upgrade.tls ≡ true) ⊎ ((false ≡ true) ⊎ (u.scheme ≡ codes "http")))
unfolding same_origin request_scheme text_eq
same_origin_lem_example = same_origin_lem (λ t. some page) false upgrade refl
