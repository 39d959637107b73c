-- ===== src/Web/Signals.antt =====
-- web/ui.go: handleSignalingMessage up to where it waits.
use gocord.Base.{Bool, ℕ, true, false, none, some, if◌then◌else◌, ◌==◌, List, [], ◌∷◌, any}
use gocord.Base.Assoc.{Text, text_eq, codes, insert}
use gocord.Web.State.{Client, Candidate, is_caller, clear_timers}
use gocord.Web.Negotiation.{make_offer, on_offer, on_answer, on_candidate}
use gocord.Web.Recovery.{is_healthy, on_peer_present, start_peer_return_timer}

-- A message as JSON.parse gives it, once a payload that is a text is parsed too. An absent text is
-- empty, as both are falsy, and so an absent payload has only empty texts.
pub data Incoming : Type 0 where
  joined : Text → Text → ℕ → Incoming
  peer_ready : Incoming
  offer : Text → Incoming
  answer : Text → Incoming
  ice_candidate : Candidate → Incoming
  peer_hangup : Incoming
  peer_left : Incoming
  error : Text → Incoming
  other : Incoming

-- TERMINAL_SIGNALING_CODES.
abbrev terminal_signaling_codes : List Text
terminal_signaling_codes =
    codes "room_not_found"
    ∷ codes "room_expired"
    ∷ codes "unauthorized"
    ∷ codes "room_full"
    ∷ codes "at_capacity"
    ∷ codes "bad_join"
    ∷ []

unfoldable pub is_terminal_code : Text → Bool
is_terminal_code code = any (text_eq code) terminal_signaling_codes

unfoldable pub end_call : Client → Client
unfolding clear_timers
end_call c = clear_timers (record c { terminal = true })

abbrev pub is_media_healthy : Client → Bool
is_media_healthy c = elim c.pc [ none ↦ false | some pc ↦ is_healthy pc.media ]

abbrev pub offer_as_caller : Client → Client
offer_as_caller c = if is_caller c then (make_offer false c).0 else c

-- The start of the case "joined": the role and the token.
unfoldable pub enter_role : Text → Text → Client → Client
unfolding insert text_eq
enter_role role token c =
    let c' = record c {
      role = if text_eq role [] then codes "caller" else role;
      reconnect_attempts = 0;
    } in
    if text_eq token []
    then c'
    else record c' { session_token = token; stored = insert c.room token c.stored }

unfoldable pub on_joined : Text → Text → ℕ → Client → Client
unfolding enter_role on_peer_present make_offer
on_joined role token participants c =
    let c' = enter_role role token c in
    if participants == 2
    then (let c'' = on_peer_present c' in if is_media_healthy c'' then c'' else offer_as_caller c'')
    else c'

-- handleSignalingMessage.
unfoldable pub handle_signaling_message : Incoming → Client → Client
unfolding on_joined on_peer_present make_offer on_offer on_answer on_candidate end_call
    start_peer_return_timer is_terminal_code
handle_signaling_message (joined role token participants) c = on_joined role token participants c
handle_signaling_message peer_ready c = offer_as_caller (on_peer_present c)
handle_signaling_message (offer sdp) c = on_offer sdp c
handle_signaling_message (answer sdp) c = on_answer sdp c
handle_signaling_message (ice_candidate candidate) c = on_candidate candidate c
handle_signaling_message peer_hangup c = end_call c
handle_signaling_message peer_left c = start_peer_return_timer c
handle_signaling_message (error code) c = if is_terminal_code code then end_call c else c
handle_signaling_message other c = c
