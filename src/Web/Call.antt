-- ===== src/Web/Call.antt =====
-- web/ui.go: the start and the end of a call, and its socket's handlers.
use gocord.Base.{Bool, ◌+◌, true, false, not, ◌&&◌, ◌||◌, none, some, if◌then◌else◌, [], option_or}
use gocord.Base.Assoc.{Text, text_eq, lookup}
use gocord.Web.State.{
  Client, fresh, stable, join, leave, close_socket, open_connection, close_connection,
  fetching_config, getting_media, Outcome, rejected, resolved, act, wait, send_message,
  clear_timers, reset_candidates,
}
use gocord.Web.Backoff.{Fraction}
use gocord.Web.Recovery.{connect_web_socket, schedule_signaling_reconnect}

abbrev close_pc : Client → Client
close_pc c = elim c.pc [ none ↦ c | some pc ↦ act (close_connection pc.id) c ]

-- createPeerConnection; a new connection is stable and has no description.
unfoldable pub create_peer_connection : Client → Client
unfolding reset_candidates
create_peer_connection c =
    act (open_connection c.next_connection) (record (reset_candidates (close_pc c)) {
      pc = some (record {
        id = c.next_connection;
        media = fresh;
        signaling = stable;
        has_remote = false;
      });
      next_connection = c.next_connection + 1;
    })

-- loadSessionToken.
abbrev pub load_session_token : Client → Text
load_session_token c = option_or (lookup c.room c.stored) []

-- The handler onopen.
unfoldable pub on_open : Client → Client
unfolding send_message text_eq lookup
on_open c =
    let c' =
      if text_eq c.session_token [] then record c { session_token = load_session_token c } else c in
    send_message (join c'.room c'.secret c'.client_id c'.session_token) c'

-- The handler onclose.
unfoldable pub on_close : Fraction → Client → Client
unfolding schedule_signaling_reconnect
on_close random c =
    if c.intentional_close || not c.started then c else schedule_signaling_reconnect random c

abbrev leave_ws : Bool → Client → Client
leave_ws leave_room c = elim c.ws [
  | none ↦ c
  | some s ↦
      record (act (close_socket s.id)
        (if leave_room && s.is_open then send_message leave c else c)) { ws = none }
]

-- closeLocalResources.
unfoldable pub close_local_resources : Bool → Client → Client
unfolding clear_timers send_message
close_local_resources leave_room c =
    leave_ws leave_room
      (record (close_pc (record (clear_timers c) { local_stream = false })) { pc = none })

-- hangup; the page is left after it.
unfoldable pub hangup : Bool → Client → Client
unfolding close_local_resources
hangup manual c = close_local_resources true (record c { intentional_close = manual })

-- startSession up to where it waits for the configuration.
unfoldable pub start_session : Client → Client
start_session c =
    if c.started
    then c
    else wait fetching_config (record c {
      started = true;
      intentional_close = false;
      terminal = false;
      reconnect_attempts = 0;
      ice_restart_in_flight = false;
    })

-- The catch of startSession.
unfoldable pub fail_session : Client → Client
unfolding close_local_resources
fail_session c = close_local_resources false (record c { started = false })

unfoldable pub config_fetched : Outcome → Client → Client
unfolding fail_session
config_fetched rejected c = fail_session c
config_fetched (resolved _) c = wait getting_media c

unfoldable pub media_acquired : Outcome → Client → Client
unfolding fail_session create_peer_connection connect_web_socket
media_acquired rejected c = fail_session c
media_acquired (resolved _) c =
    connect_web_socket (create_peer_connection (record c { local_stream = true }))
