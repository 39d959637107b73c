-- ===== src/Web/State.antt =====
-- web/ui.go, AppJS: what a client keeps during a call, and what it does to the browser. The texts,
-- views and sounds for the user are left out.
use gocord.Base.{ℕ, suc, Bool, false, List, [], ◌∷◌, ◌++◌, Option, none, some, if◌then◌else◌, ◌==◌}
use gocord.Base.Assoc.{Text, codes, text_eq}

-- The payload of an "ice-candidate" message, and a candidate for the connection.
pub record Candidate : Type 0 where
  pub candidate : Text
  pub sdp_mid : Option Text
  pub sdp_mline_index : Option ℕ
  pub username_fragment : Option Text

-- A WebSocket: which one it is, and whether its readyState is OPEN. The handlers of a socket are
-- detached before another one takes its place.
pub record Socket : Type 0 where
  pub id : ℕ
  pub is_open : Bool

-- connectionState, and the states of iceConnectionState that are acted on.
pub data Media : Type 0 where
  fresh connecting connected completed disconnected failed closed : Media

-- signalingState.
pub data Signaling : Type 0 where
  stable have_local_offer have_remote_offer ended : Signaling

-- An RTCPeerConnection: which one it is, and what the browser says of it.
pub record Connection : Type 0 where
  pub id : ℕ
  pub media : Media
  pub signaling : Signaling
  pub has_remote : Bool

-- The messages that are sent.
pub data Outgoing : Type 0 where
  join : Text → Text → Text → Text → Outgoing
  offer : Text → Text → Outgoing
  answer : Text → Text → Outgoing
  ice_candidate : Text → Candidate → Outgoing
  leave : Outgoing

-- What is asked of the browser; sockets, connections and descriptions by number and text.
pub data Action : Type 0 where
  open_socket : ℕ → Text → Text → Action
  close_socket : ℕ → Action
  send : ℕ → Outgoing → Action
  open_connection : ℕ → Action
  close_connection : ℕ → Action
  create_offer : ℕ → Bool → Action
  create_answer : ℕ → Action
  set_local : ℕ → Text → Text → Action
  set_remote : ℕ → Text → Text → Action
  add_candidate : ℕ → Candidate → Action

-- Where a function waits: `restart` says that attemptIceRestart has called makeOffer. A drain knows
-- its array and the next index, and whether it is for an offer.
pub data Task : Type 0 where
  fetching_config : Task
  getting_media : Task
  creating_offer : Bool → Task
  setting_offer : Bool → Text → Task
  setting_remote : Bool → Task
  draining : Bool → ℕ → ℕ → Task
  creating_answer : Task
  setting_answer : Text → Task

-- How a promise ends; the text is the description that createOffer or createAnswer gives.
pub data Outcome : Type 0 where
  rejected : Outcome
  resolved : Text → Outcome

-- `state` of the source. A timer is none, or the milliseconds that it was set for. `stored` is what
-- sessionStorage has of session tokens, by room. `arrays` holds the arrays that
-- `pending_candidates` has named, `log` the actions, the last one first, and `tasks` the functions
-- that wait.
pub record Client : Type 0 where
  pub room : Text
  pub secret : Text
  pub client_id : Text
  pub session_token : Text
  pub stored : List (Text × Text)
  pub role : Text
  pub ws : Option Socket
  pub next_socket : ℕ
  pub pc : Option Connection
  pub next_connection : ℕ
  pub local_stream : Bool
  pub started : Bool
  pub intentional_close : Bool
  pub making_offer : Bool
  pub arrays : ℕ → List Candidate
  pub pending_candidates : ℕ
  pub next_array : ℕ
  pub reconnect_timer : Option ℕ
  pub disconnect_timer : Option ℕ
  pub peer_gone_timer : Option ℕ
  pub reconnect_attempts : ℕ
  pub ice_restart_in_flight : Bool
  pub terminal : Bool
  pub log : List Action
  pub tasks : List Task

-- The state of a page that has just been loaded, in which nothing is stored.
abbrev pub new_client : Text → Client
new_client id = record {
  room = [];
  secret = [];
  client_id = id;
  session_token = [];
  stored = [];
  role = [];
  ws = none;
  next_socket = 0;
  pc = none;
  next_connection = 0;
  local_stream = false;
  started = false;
  intentional_close = false;
  making_offer = false;
  arrays = λ _. [];
  pending_candidates = 0;
  next_array = 1;
  reconnect_timer = none;
  disconnect_timer = none;
  peer_gone_timer = none;
  reconnect_attempts = 0;
  ice_restart_in_flight = false;
  terminal = false;
  log = [];
  tasks = [];
}

abbrev pub is_open_ws : Option Socket → Bool
is_open_ws none = false
is_open_ws (some s) = s.is_open

abbrev pub is_caller : Client → Bool
is_caller c = text_eq c.role (codes "caller")

-- An action, and a function that waits.
abbrev pub act : Action → Client → Client
act a c = record c { log = a ∷ c.log }

abbrev pub wait : Task → Client → Client
wait t c = record c { tasks = t ∷ c.tasks }

-- sendMessage.
unfoldable pub send_message : Outgoing → Client → Client
send_message msg c = elim c.ws [
  | none ↦ c
  | some s ↦ if s.is_open then act (send s.id msg) c else c
]

pub data Timer : Type 0 where
  reconnect disconnect peer_gone : Timer

-- clearTimer.
unfoldable pub clear_timer : Timer → Client → Client
clear_timer reconnect c = record c { reconnect_timer = none }
clear_timer disconnect c = record c { disconnect_timer = none }
clear_timer peer_gone c = record c { peer_gone_timer = none }

-- The three calls of clearTimer that stand together in the source.
unfoldable pub clear_timers : Client → Client
unfolding clear_timer
clear_timers c = clear_timer peer_gone (clear_timer disconnect (clear_timer reconnect c))

-- A new array for the candidates that wait.
unfoldable pub reset_candidates : Client → Client
reset_candidates c = record c {
  arrays = λ a. if a == c.next_array then [] else c.arrays a;
  pending_candidates = c.next_array;
  next_array = suc c.next_array;
}

-- pendingCandidates.push.
unfoldable pub push_candidate : Candidate → Client → Client
push_candidate candidate c = record c {
  arrays = λ a. if a == c.pending_candidates then c.arrays a ++ (candidate ∷ []) else c.arrays a;
}
