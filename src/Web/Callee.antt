-- ===== src/Web/Callee.antt =====
-- web/ui.go: what the functions of a client that is the callee offer.
use gocord.Base.{ℕ, ◌+◌, ◌≡◌, refl, ◌∙◌, Bool, true, false, List, [], ◌∷◌, none, arith}
use gocord.Base.Assoc.{Text, codes}
use gocord.Web.State.{
  Client, Media, fresh, connecting, connected, completed, disconnected, failed, closed, Action,
  send, create_offer, Outgoing, Task, fetching_config, getting_media, creating_offer, setting_offer,
  setting_remote, draining, creating_answer, setting_answer, Outcome, rejected, resolved, is_caller,
  send_message, Candidate,
}
use gocord.Web.Backoff.{Fraction}
use gocord.Web.Negotiation.{
  drained, drain, remote_set, answer_created, answer_set, on_ice_candidate,
}
use gocord.Web.Recovery.{
  attempt_ice_restart, on_disconnect_timer, on_media_state_change, connect_web_socket,
  on_reconnect_timer,
}
use gocord.Web.Call.{
  create_peer_connection, on_open, on_close, close_local_resources, hangup, start_session,
  fail_session, config_fetched, media_acquired,
}
use gocord.Web.Signals.{joined, on_joined}
use gocord.Web.Events.{Event, receives, continue}

-- How many offers are created or sent.
abbrev offers_of : Action → ℕ
offers_of (create_offer _ _) = 1
offers_of (send _ (Outgoing.offer _ _)) = 1
offers_of _ = 0

abbrev pub offers_in : List Action → ℕ
offers_in [] = 0
offers_in (a ∷ log) = offers_of a + offers_in log

abbrev pub waits_of : Task → ℕ
waits_of (creating_offer _) = 1
waits_of (setting_offer _ _) = 1
waits_of _ = 0

abbrev pub waits_in : List Task → ℕ
waits_in [] = 0
waits_in (t ∷ ts) = waits_of t + waits_in ts

pub record IsCallee (c : Client) : Type 0 where
  pub role : is_caller c ≡ false
  pub waits : waits_in c.tasks ≡ 0

pub record MakesNone (c c' : Client) : Type 0 where
  pub callee : IsCallee c'
  pub offers : offers_in c'.log ≡ offers_in c.log

abbrev pub TellsCallee : Event → Type 0
TellsCallee (receives (joined role _ _)) = role ≡ codes "callee"
TellsCallee _ = Unit

module _ (c : Client) (h : IsCallee c) where
  pub same : MakesNone c c
  same = record { callee = h; offers = refl }

  answer_sent : (room sdp : Text) → MakesNone c (send_message (Outgoing.answer room sdp) c)
  unfolding send_message
  answer_sent room sdp = ground arith

  pub candidate_sent : (candidate : Candidate) → MakesNone c (on_ice_candidate candidate c)
  unfolding on_ice_candidate
  candidate_sent candidate = ground arith

  drained-MakesNone : (for_offer : Bool) → MakesNone c (drained for_offer c)
  unfolding drained
  drained-MakesNone for_offer = ground arith

  drain-MakesNone : (for_offer : Bool) (a i : ℕ) → MakesNone c (drain for_offer a i c)
  unfolding drain
  drain-MakesNone for_offer a i = ground (arith, drained-MakesNone for_offer)

  attempt_ice_restart-MakesNone : MakesNone c (attempt_ice_restart c)
  unfolding attempt_ice_restart
  attempt_ice_restart-MakesNone = ground (arith, same)

  pub on_media-MakesNone : (media : Media) → MakesNone c (on_media_state_change media c)
  unfolding on_media_state_change
  on_media-MakesNone connected = ground arith
  on_media-MakesNone completed = ground arith
  on_media-MakesNone failed = ground arith
  on_media-MakesNone disconnected = ground (arith, same)
  on_media-MakesNone fresh = same
  on_media-MakesNone connecting = same
  on_media-MakesNone closed = same

  connect-MakesNone : MakesNone c (connect_web_socket c)
  unfolding connect_web_socket
  connect-MakesNone = ground arith

  create_peer_connection-MakesNone : MakesNone c (create_peer_connection c)
  unfolding create_peer_connection
  create_peer_connection-MakesNone = ground arith

  pub on_open-MakesNone : MakesNone c (on_open c)
  unfolding on_open
  on_open-MakesNone = ground arith

  pub on_close-MakesNone : (random : Fraction) → MakesNone c (on_close random c)
  unfolding on_close
  on_close-MakesNone random = ground (arith, same)

  pub close-MakesNone : (leave_room : Bool) → MakesNone c (close_local_resources leave_room c)
  unfolding close_local_resources
  close-MakesNone leave_room = ground arith

  pub start_session-MakesNone : MakesNone c (start_session c)
  unfolding start_session
  start_session-MakesNone = ground (arith, same)

  pub on_joined-MakesNone :
      (token : Text) (participants : ℕ)
      → MakesNone c (on_joined (codes "callee") token participants c)
  unfolding on_joined
  on_joined-MakesNone token participants = ground arith

pub both : (a b c : Client) → MakesNone a b → (IsCallee b → MakesNone b c) → MakesNone a c
both a b c k l = record { callee = (l k.callee).callee; offers = (l k.callee).offers ∙ k.offers }

pub on_disconnect_timer-MakesNone : (c : Client) → IsCallee c → MakesNone c (on_disconnect_timer c)
unfolding on_disconnect_timer
on_disconnect_timer-MakesNone c h =
    let c' : Client = record c { disconnect_timer = none } in
    let k = attempt_ice_restart-MakesNone c' (record { role = h.role; waits = h.waits }) in
    ground (arith, same c h)

pub on_reconnect_timer-MakesNone : (c : Client) → IsCallee c → MakesNone c (on_reconnect_timer c)
unfolding on_reconnect_timer
on_reconnect_timer-MakesNone c h =
    let k =
      connect-MakesNone (record c { reconnect_timer = none })
        (record { role = h.role; waits = h.waits }) in
    record { callee = k.callee; offers = k.offers }

fail_session-MakesNone : (c : Client) → IsCallee c → MakesNone c (fail_session c)
unfolding fail_session
fail_session-MakesNone c h =
    let k =
      close-MakesNone (record c { started = false }) (record { role = h.role; waits = h.waits })
        false in
    record { callee = k.callee; offers = k.offers }

pub hangup-MakesNone : (manual : Bool) (c : Client) → IsCallee c → MakesNone c (hangup manual c)
unfolding hangup
hangup-MakesNone manual c h =
    let k =
      close-MakesNone (record c { intentional_close = manual })
        (record { role = h.role; waits = h.waits }) true in
    record { callee = k.callee; offers = k.offers }

media_acquired-MakesNone :
    (o : Outcome) (c : Client) → IsCallee c → MakesNone c (media_acquired o c)
unfolding media_acquired
media_acquired-MakesNone rejected c h = fail_session-MakesNone c h
media_acquired-MakesNone (resolved _) c h =
    let acquired : Client = record c { local_stream = true } in
    both c acquired _ (record { callee = record { role = h.role; waits = h.waits }; offers = refl })
      (λ h'. both acquired _ _ (create_peer_connection-MakesNone acquired h') (connect-MakesNone _))

pub continue-MakesNone :
    (t : Task) (o : Outcome) (c : Client)
    → waits_of t ≡ 0
    → IsCallee c
    → MakesNone c (continue t o c)
unfolding continue config_fetched remote_set answer_created answer_set
continue-MakesNone fetching_config rejected c e h = fail_session-MakesNone c h
continue-MakesNone fetching_config (resolved _) c e h = ground arith
continue-MakesNone getting_media o c e h = media_acquired-MakesNone o c h
continue-MakesNone (creating_offer restart) o c e h = absurd (omega (arith, e))
continue-MakesNone (setting_offer restart sdp) o c e h = absurd (omega (arith, e))
continue-MakesNone (setting_remote for_offer) rejected c e h = same c h
continue-MakesNone (setting_remote for_offer) (resolved _) c e h =
    drain-MakesNone c h for_offer c.pending_candidates 0
continue-MakesNone (draining for_offer a i) o c e h = drain-MakesNone c h for_offer a i
continue-MakesNone creating_answer rejected c e h = same c h
continue-MakesNone creating_answer (resolved sdp) c e h = ground (arith, same c h)
continue-MakesNone (setting_answer sdp) rejected c e h = same c h
continue-MakesNone (setting_answer sdp) (resolved _) c e h = answer_sent c h c.room sdp
