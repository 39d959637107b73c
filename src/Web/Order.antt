-- ===== src/Web/Order.antt =====
-- web/ui.go: how the flags, timers and sockets of a client hang together, and that what ends a wait
-- of another function than startSession, a message and a lost socket leave it so.
use gocord.Base.{◌≤◌, ◌≡◌, refl, Bool, true, false, none, is_some, arith}
use gocord.Web.State.{Client}
use gocord.Web.Backoff.{Fraction}
use gocord.Web.Recovery.{schedule_signaling_reconnect, connect_web_socket}
use gocord.Web.Call.{on_open, on_close, close_local_resources, start_session}
use gocord.Web.Signals.{
  Incoming, joined, peer_ready, offer, answer, ice_candidate, peer_hangup, peer_left, error, other,
  end_call, handle_signaling_message,
}
use gocord.Web.Quiet.{
  starts_in, IsQuiet, IsQuiet-refl, IsQuiet-trans, on_offer-IsQuiet, on_answer-IsQuiet,
  on_candidate-IsQuiet, start_peer_return_timer-IsQuiet, on_peer_present-IsQuiet,
  offer_as_caller-IsQuiet, on_joined-IsQuiet,
}

-- A call has started, and nothing of its start waits.
abbrev pub IsUnderWay : Client → Type 0
IsUnderWay c = (c.started ≡ true) × (starts_in c.tasks ≡ 0)

pub record IsOrderly (c : Client) : Type 0 where
  pub once : starts_in c.tasks ≤ 1
  pub idle : c.started ≡ false → starts_in c.tasks ≡ 0
  pub socket : is_some c.ws ≡ true → IsUnderWay c
  pub timer : is_some c.reconnect_timer ≡ true → IsUnderWay c × (c.terminal ≡ false)
  pub over : c.terminal ≡ true → IsUnderWay c

-- What a step may do: once the call is over it stays over, and no socket is opened.
pub record Keeps (c c' : Client) : Type 0 where
  pub orderly : IsOrderly c'
  pub terminal : c.terminal ≡ true → c'.terminal ≡ true
  pub sockets : c.terminal ≡ true → c'.next_socket ≡ c.next_socket

pub quiet : (c c' : Client) → IsOrderly c → IsQuiet c c' → Keeps c c'
quiet c c' v q = record {
  orderly = record {
    once = rw q.starts v.once;
    idle = rw (q.starts, q.started) v.idle;
    socket = rw (q.ws, q.started, q.starts) v.socket;
    timer = rw (q.timer, q.started, q.starts, q.terminal) v.timer;
    over = rw (q.terminal, q.started, q.starts) v.over;
  };
  terminal = rw q.terminal (λ e. e);
  sockets = λ _. q.sockets;
}

-- What closeLocalResources leaves.
pub record IsShut (c c' : Client) : Type 0 where
  pub ws : c'.ws ≡ none
  pub pc : c'.pc ≡ none
  pub reconnect_timer : c'.reconnect_timer ≡ none
  pub disconnect_timer : c'.disconnect_timer ≡ none
  pub peer_gone_timer : c'.peer_gone_timer ≡ none
  pub started : c'.started ≡ c.started
  pub terminal : c'.terminal ≡ c.terminal
  pub tasks : c'.tasks ≡ c.tasks
  pub sockets : c'.next_socket ≡ c.next_socket

pub close_local_resources-IsShut :
    (leave_room : Bool) (c : Client) → IsShut c (close_local_resources leave_room c)
unfolding close_local_resources
close_local_resources-IsShut leave_room c = ground arith

-- Closing keeps a client orderly that is not about to start.
pub shut : (c c' : Client) → IsOrderly c → IsShut c c' → Keeps c c'
shut c c' v s = record {
  orderly = record {
    once = rw s.tasks v.once;
    idle = rw (s.tasks, s.started) v.idle;
    socket = λ e. absurd (cc (s.ws, e));
    timer = λ e. absurd (cc (s.reconnect_timer, e));
    over = rw (s.terminal, s.started, s.tasks) v.over;
  };
  terminal = rw s.terminal (λ e. e);
  sockets = λ _. s.sockets;
}

-- What connectWebSocket leaves alone.
record IsConnected (c c' : Client) : Type 0 where
  timer : c'.reconnect_timer ≡ c.reconnect_timer
  started : c'.started ≡ c.started
  terminal : c'.terminal ≡ c.terminal
  tasks : c'.tasks ≡ c.tasks

connect-IsConnected : (c : Client) → IsConnected c (connect_web_socket c)
unfolding connect_web_socket
connect-IsConnected c = ground arith

pub connect-Keeps :
    (c : Client) → IsOrderly c → IsUnderWay c → c.terminal ≡ false → Keeps c (connect_web_socket c)
connect-Keeps c v u live =
    let s = connect-IsConnected c in
    record {
      orderly = record {
        once = rw s.tasks v.once;
        idle = rw (s.tasks, s.started) v.idle;
        socket = λ _. rw (s.tasks, s.started) u;
        timer = rw (s.timer, s.tasks, s.started, s.terminal) v.timer;
        over = rw (s.terminal, s.started, s.tasks) v.over;
      };
      terminal = λ e. absurd (cc (live, e));
      sockets = λ e. absurd (cc (live, e));
    }

schedule-Keeps :
    (random : Fraction) (c : Client)
    → IsOrderly c
    → IsUnderWay c
    → Keeps c (schedule_signaling_reconnect random c)
unfolding schedule_signaling_reconnect
schedule-Keeps random c v u = ground (arith, quiet c c v (IsQuiet-refl c))

pub start_session-Keeps : (c : Client) → IsOrderly c → Keeps c (start_session c)
unfolding start_session
start_session-Keeps c v =
    ground (arith, quiet c c v (IsQuiet-refl c), v.idle, v.over, v.socket, v.timer)

end_call-Keeps : (c : Client) → IsOrderly c → IsUnderWay c → Keeps c (end_call c)
unfolding end_call
end_call-Keeps c v u = record {
  orderly = record {
    once = v.once;
    idle = v.idle;
    socket = v.socket;
    timer = λ e. absurd (cc e);
    over = λ _. u;
  };
  terminal = λ _. refl;
  sockets = λ _. refl;
}

pub handle_signaling_message-Keeps :
    (msg : Incoming) (c : Client)
    → IsOrderly c
    → IsUnderWay c
    → Keeps c (handle_signaling_message msg c)
unfolding handle_signaling_message
handle_signaling_message-Keeps (joined role token participants) c v u =
    quiet c _ v (on_joined-IsQuiet role token participants c)
handle_signaling_message-Keeps peer_ready c v u =
    quiet c _ v (IsQuiet-trans c _ _ (on_peer_present-IsQuiet c) (offer_as_caller-IsQuiet _))
handle_signaling_message-Keeps (offer sdp) c v u = quiet c _ v (on_offer-IsQuiet sdp c)
handle_signaling_message-Keeps (answer sdp) c v u = quiet c _ v (on_answer-IsQuiet sdp c)
handle_signaling_message-Keeps (ice_candidate candidate) c v u =
    quiet c _ v (on_candidate-IsQuiet candidate c)
handle_signaling_message-Keeps peer_hangup c v u = end_call-Keeps c v u
handle_signaling_message-Keeps peer_left c v u = quiet c _ v (start_peer_return_timer-IsQuiet c)
handle_signaling_message-Keeps (error code) c v u =
    ground (arith, quiet c c v (IsQuiet-refl c), end_call-Keeps c v u)
handle_signaling_message-Keeps other c v u = quiet c c v (IsQuiet-refl c)

pub on_open-IsQuiet : (c : Client) → IsQuiet c (on_open c)
unfolding on_open
on_open-IsQuiet c = ground arith

pub on_close-Keeps :
    (random : Fraction) (c : Client) → IsOrderly c → IsUnderWay c → Keeps c (on_close random c)
unfolding on_close
on_close-Keeps random c v u =
    ground (arith, quiet c c v (IsQuiet-refl c), schedule-Keeps random c v u)
