-- ===== src/Web/Recovery.antt =====
-- web/ui.go: the timers of a call, and how a client gets its media and its socket back.
use gocord.Base.{Bool, ◌+◌, true, false, not, ◌||◌, none, some, if◌then◌else◌, is_some}
use gocord.Web.State.{
  Client, Media, connected, completed, disconnected, failed, is_open_ws, is_caller, open_socket,
  close_socket, act, clear_timer, disconnect, peer_gone,
}
use gocord.Web.Backoff.{Fraction, delay, ice_disconnect_grace_ms, peer_return_timeout_ms}
use gocord.Web.Negotiation.{make_offer}

abbrev pub is_healthy : Media → Bool
is_healthy connected = true
is_healthy completed = true
is_healthy _ = false

-- attemptIceRestart up to where it waits.
unfoldable pub attempt_ice_restart : Client → Client
unfolding make_offer
attempt_ice_restart c =
    if not (is_some c.pc) || c.ice_restart_in_flight || c.terminal
    then c
    else if not (is_caller c) || not (is_open_ws c.ws)
    then c
    else (let (c', waits) = make_offer true (record c { ice_restart_in_flight = true }) in
        if waits then c' else record c' { ice_restart_in_flight = false })

-- The timer of onMediaStateChange.
unfoldable pub on_disconnect_timer : Client → Client
unfolding attempt_ice_restart
on_disconnect_timer c =
    let c' = record c { disconnect_timer = none } in
    elim c'.pc [ none ↦ c' | some pc ↦ if is_healthy pc.media then c' else attempt_ice_restart c' ]

-- onMediaStateChange. "failed" takes the place of a timer that waits, "disconnected" does not.
unfoldable pub on_media_state_change : Media → Client → Client
unfolding clear_timer
on_media_state_change connected c = record (clear_timer disconnect c) {
  ice_restart_in_flight = false;
}
on_media_state_change completed c = record (clear_timer disconnect c) {
  ice_restart_in_flight = false;
}
on_media_state_change failed c = record (clear_timer disconnect c) { disconnect_timer = some 0 }
on_media_state_change disconnected c =
    if is_some c.disconnect_timer
    then c
    else record c { disconnect_timer = some ice_disconnect_grace_ms }
on_media_state_change _ c = c

-- startPeerReturnTimer, and its timer.
unfoldable pub start_peer_return_timer : Client → Client
unfolding clear_timer
start_peer_return_timer c = record (clear_timer peer_gone c) {
  peer_gone_timer = some peer_return_timeout_ms;
}

unfoldable pub on_peer_gone_timer : Client → Client
on_peer_gone_timer c = record c { peer_gone_timer = none }

-- onPeerPresent.
unfoldable pub on_peer_present : Client → Client
unfolding clear_timer
on_peer_present c = record (clear_timer peer_gone c) { reconnect_attempts = 0 }

-- scheduleSignalingReconnect, with what Math.random answers.
unfoldable pub schedule_signaling_reconnect : Fraction → Client → Client
schedule_signaling_reconnect random c =
    if c.intentional_close || c.terminal || not c.started || is_some c.reconnect_timer
    then c
    else record c {
      reconnect_attempts = c.reconnect_attempts + 1;
      reconnect_timer = some (delay random c.reconnect_attempts);
    }

abbrev close_ws : Client → Client
close_ws c = elim c.ws [ none ↦ c | some s ↦ act (close_socket s.id) c ]

-- connectWebSocket. The room and the client's id are those of the socket's URL.
unfoldable pub connect_web_socket : Client → Client
connect_web_socket c = act (open_socket c.next_socket c.room c.client_id) (record (close_ws c) {
  ws = some (record { id = c.next_socket; is_open = false });
  next_socket = c.next_socket + 1;
})

-- The timer of scheduleSignalingReconnect.
unfoldable pub on_reconnect_timer : Client → Client
unfolding connect_web_socket
on_reconnect_timer c = connect_web_socket (record c { reconnect_timer = none })
