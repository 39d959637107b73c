-- ===== src/Web/Quiet.antt =====
-- web/ui.go: the functions of a client that leave alone its socket, its reconnection and its start.
use gocord.Base.{ℕ, ◌+◌, ◌≡◌, refl, ◌∙◌, Bool, true, false, List, [], ◌∷◌, none, is_some, arith}
use gocord.Base.Assoc.{Text}
use gocord.Web.State.{
  Client, Candidate, Media, fresh, connecting, connected, completed, disconnected, failed, closed,
  Outgoing, Task, fetching_config, getting_media, Outcome, rejected, resolved, send_message,
}
use gocord.Web.Negotiation.{
  make_offer, end_offer, offer_created, offer_set, drained, drain, remote_set, answer_created,
  answer_set, on_offer, on_answer, on_candidate, on_ice_candidate,
}
use gocord.Web.Recovery.{
  attempt_ice_restart, on_disconnect_timer, on_media_state_change, start_peer_return_timer,
  on_peer_gone_timer, on_peer_present,
}
use gocord.Web.Signals.{enter_role, on_joined, offer_as_caller}

-- How many of the functions that wait are startSession.
abbrev pub starts_of : Task → ℕ
starts_of fetching_config = 1
starts_of getting_media = 1
starts_of _ = 0

abbrev pub starts_in : List Task → ℕ
starts_in [] = 0
starts_in (t ∷ ts) = starts_of t + starts_in ts

-- What stays as it was: whether there is a socket, the timer of a reconnection, and the flags of the start and the end.
pub record IsQuiet (c c' : Client) : Type 0 where
  pub ws : is_some c'.ws ≡ is_some c.ws
  pub timer : c'.reconnect_timer ≡ c.reconnect_timer
  pub started : c'.started ≡ c.started
  pub terminal : c'.terminal ≡ c.terminal
  pub starts : starts_in c'.tasks ≡ starts_in c.tasks
  pub sockets : c'.next_socket ≡ c.next_socket

pub IsQuiet-refl : (c : Client) → IsQuiet c c
IsQuiet-refl c = record {
  ws = refl;
  timer = refl;
  started = refl;
  terminal = refl;
  starts = refl;
  sockets = refl;
}

pub IsQuiet-trans : (a b c : Client) → IsQuiet a b → IsQuiet b c → IsQuiet a c
IsQuiet-trans a b c p q = record {
  ws = q.ws ∙ p.ws;
  timer = q.timer ∙ p.timer;
  started = q.started ∙ p.started;
  terminal = q.terminal ∙ p.terminal;
  starts = q.starts ∙ p.starts;
  sockets = q.sockets ∙ p.sockets;
}

pub send_message-IsQuiet : (msg : Outgoing) (c : Client) → IsQuiet c (send_message msg c)
unfolding send_message
send_message-IsQuiet msg c = ground arith

pub make_offer-IsQuiet : (restart : Bool) (c : Client) → IsQuiet c (make_offer restart c).0
unfolding make_offer
make_offer-IsQuiet restart c = ground arith

end_offer-IsQuiet : (restart : Bool) (c : Client) → IsQuiet c (end_offer restart c)
unfolding end_offer
end_offer-IsQuiet restart c = ground arith

pub offer_created-IsQuiet :
    (restart : Bool) (o : Outcome) (c : Client) → IsQuiet c (offer_created restart o c)
unfolding offer_created
offer_created-IsQuiet restart rejected c = end_offer-IsQuiet restart c
offer_created-IsQuiet restart (resolved sdp) c = ground (arith, end_offer-IsQuiet restart c)

pub offer_set-IsQuiet :
    (restart : Bool) (sdp : Text) (o : Outcome) (c : Client) → IsQuiet c (offer_set restart sdp o c)
unfolding offer_set
offer_set-IsQuiet restart sdp rejected c = end_offer-IsQuiet restart c
offer_set-IsQuiet restart sdp (resolved _) c =
    IsQuiet-trans c _ _ (send_message-IsQuiet _ c) (end_offer-IsQuiet restart _)

drained-IsQuiet : (for_offer : Bool) (c : Client) → IsQuiet c (drained for_offer c)
unfolding drained
drained-IsQuiet for_offer c = ground arith

pub drain-IsQuiet : (for_offer : Bool) (a i : ℕ) (c : Client) → IsQuiet c (drain for_offer a i c)
unfolding drain
drain-IsQuiet for_offer a i c = ground (arith, drained-IsQuiet for_offer c)

pub remote_set-IsQuiet :
    (for_offer : Bool) (o : Outcome) (c : Client) → IsQuiet c (remote_set for_offer o c)
unfolding remote_set
remote_set-IsQuiet for_offer rejected c = IsQuiet-refl c
remote_set-IsQuiet for_offer (resolved _) c = drain-IsQuiet for_offer c.pending_candidates 0 c

pub answer_created-IsQuiet : (o : Outcome) (c : Client) → IsQuiet c (answer_created o c)
unfolding answer_created
answer_created-IsQuiet rejected c = IsQuiet-refl c
answer_created-IsQuiet (resolved sdp) c = ground arith

pub answer_set-IsQuiet : (sdp : Text) (o : Outcome) (c : Client) → IsQuiet c (answer_set sdp o c)
unfolding answer_set
answer_set-IsQuiet sdp rejected c = IsQuiet-refl c
answer_set-IsQuiet sdp (resolved _) c = send_message-IsQuiet _ c

pub on_offer-IsQuiet : (sdp : Text) (c : Client) → IsQuiet c (on_offer sdp c)
unfolding on_offer
on_offer-IsQuiet sdp c = ground arith

pub on_answer-IsQuiet : (sdp : Text) (c : Client) → IsQuiet c (on_answer sdp c)
unfolding on_answer
on_answer-IsQuiet sdp c = ground arith

pub on_candidate-IsQuiet :
    (candidate : Candidate) (c : Client) → IsQuiet c (on_candidate candidate c)
unfolding on_candidate
on_candidate-IsQuiet candidate c = ground arith

pub on_ice_candidate-IsQuiet :
    (candidate : Candidate) (c : Client) → IsQuiet c (on_ice_candidate candidate c)
unfolding on_ice_candidate
on_ice_candidate-IsQuiet candidate c = send_message-IsQuiet _ c

attempt_ice_restart-IsQuiet : (c : Client) → IsQuiet c (attempt_ice_restart c)
unfolding attempt_ice_restart
attempt_ice_restart-IsQuiet c =
    ground (arith, make_offer-IsQuiet true (record c { ice_restart_in_flight = true }))

pub on_disconnect_timer-IsQuiet : (c : Client) → IsQuiet c (on_disconnect_timer c)
unfolding on_disconnect_timer
on_disconnect_timer-IsQuiet c =
    ground (arith, attempt_ice_restart-IsQuiet (record c { disconnect_timer = none }))

pub on_media_state_change-IsQuiet :
    (media : Media) (c : Client) → IsQuiet c (on_media_state_change media c)
unfolding on_media_state_change
on_media_state_change-IsQuiet connected c = ground arith
on_media_state_change-IsQuiet completed c = ground arith
on_media_state_change-IsQuiet failed c = ground arith
on_media_state_change-IsQuiet disconnected c = ground arith
on_media_state_change-IsQuiet fresh c = IsQuiet-refl c
on_media_state_change-IsQuiet connecting c = IsQuiet-refl c
on_media_state_change-IsQuiet closed c = IsQuiet-refl c

pub start_peer_return_timer-IsQuiet : (c : Client) → IsQuiet c (start_peer_return_timer c)
unfolding start_peer_return_timer
start_peer_return_timer-IsQuiet c = ground arith

pub on_peer_gone_timer-IsQuiet : (c : Client) → IsQuiet c (on_peer_gone_timer c)
unfolding on_peer_gone_timer
on_peer_gone_timer-IsQuiet c = ground arith

pub on_peer_present-IsQuiet : (c : Client) → IsQuiet c (on_peer_present c)
unfolding on_peer_present
on_peer_present-IsQuiet c = ground arith

pub offer_as_caller-IsQuiet : (c : Client) → IsQuiet c (offer_as_caller c)
offer_as_caller-IsQuiet c = ground (arith, make_offer-IsQuiet false c)

enter_role-IsQuiet : (role token : Text) (c : Client) → IsQuiet c (enter_role role token c)
unfolding enter_role
enter_role-IsQuiet role token c = ground arith

pub on_joined-IsQuiet :
    (role token : Text) (participants : ℕ) (c : Client)
    → IsQuiet c (on_joined role token participants c)
unfolding on_joined
on_joined-IsQuiet role token participants c =
    let entered = enter_role-IsQuiet role token c in
    let present = on_peer_present-IsQuiet (enter_role role token c) in
    let both = IsQuiet-trans c _ _ entered present in
    ground (
      arith,
      IsQuiet-trans c _ _ both
          (offer_as_caller-IsQuiet (on_peer_present (enter_role role token c))),
    )
