-- ===== src/Web/Orderly.antt =====
-- web/ui.go: how the flags, timers and sockets of a client hang together in every run.
use gocord.Base.{
  ◌⊎◌, inl, inr, ℕ, ◌≡◌, refl, sym, ◌∙◌, inl, inr, Bool, true, false, List, [], ◌∷◌, Option, none,
  some, is_some, arith, Option-cases, subst,
}
use gocord.Base.Assoc.{codes, text_eq, Text}
use gocord.Web.State.{Client, new_client, Media, Signaling}
use gocord.Web.Backoff.{Fraction}
use gocord.Web.Recovery.{on_reconnect_timer}
use gocord.Web.Call.{on_close, hangup}
use gocord.Web.Signals.{
  Incoming, joined, peer_ready, offer, answer, ice_candidate, peer_left, other, peer_hangup, error,
  end_call, is_terminal_code, handle_signaling_message,
}
use gocord.Web.Events.{
  Event, starts, hangs_up, unloads, moves, opens, receives, socket_falls, closes, browser_reports,
  media_changes, gathers, reconnect_fires, disconnect_fires, peer_gone_fires, resumes, at_socket,
  at_timer, with_open, with_report, step, run,
}
use gocord.Web.Quiet.{
  IsQuiet, IsQuiet-refl, IsQuiet-trans, on_ice_candidate-IsQuiet, on_disconnect_timer-IsQuiet,
  on_media_state_change-IsQuiet, on_peer_gone_timer-IsQuiet,
}
use gocord.Web.Order.{
  IsOrderly, IsUnderWay, Keeps, close_local_resources-IsShut, connect-Keeps,
  handle_signaling_message-Keeps, on_close-Keeps, on_open-IsQuiet, quiet, shut, start_session-Keeps,
}
use gocord.Web.Starting.{resume-Keeps}

with_open-IsQuiet : (is_open : Bool) (c : Client) → IsQuiet c (with_open is_open c)
with_open-IsQuiet is_open c = ground arith

with_report-IsQuiet :
    (media : Media) (signaling : Signaling) (has_remote : Bool) (c : Client)
    → IsQuiet c (with_report media signaling has_remote c)
with_report-IsQuiet media signaling has_remote c = ground arith

close-Keeps :
    (random : Fraction) (c : Client)
    → IsOrderly c
    → IsUnderWay c
    → Keeps c (on_close random (with_open false c))
close-Keeps random c v u =
    let q = with_open-IsQuiet false c in
    let c' = with_open false c in
    let k = on_close-Keeps random c' (quiet c c' v q).orderly (q.started ∙ u.0, q.starts ∙ u.1) in
    record {
      orderly = k.orderly;
      terminal = λ e. k.terminal (q.terminal ∙ e);
      sockets = λ e. k.sockets (q.terminal ∙ e) ∙ q.sockets;
    }

on_reconnect_timer-Keeps :
    (c : Client) → IsOrderly c → IsUnderWay c → c.terminal ≡ false → Keeps c (on_reconnect_timer c)
unfolding on_reconnect_timer
on_reconnect_timer-Keeps c v u live =
    let fired : Client = record c { reconnect_timer = none } in
    let v' : IsOrderly fired = record {
      once = v.once;
      idle = v.idle;
      socket = v.socket;
      timer = λ e. absurd (cc e);
      over = v.over;
    } in
    let k = connect-Keeps fired v' u live in
    record { orderly = k.orderly; terminal = k.terminal; sockets = k.sockets }

at_socket-Keeps :
    (f : Client → Client) (c : Client)
    → IsOrderly c
    → (IsUnderWay c → Keeps c (f c))
    → Keeps c (at_socket f c)
at_socket-Keeps f c v k = elim (Option-cases c.ws) [
  | inl e ↦
      subst (λ w. Keeps c (elim w [ none ↦ c | some _ ↦ f c ])) (sym e)
        (quiet c c v (IsQuiet-refl c))
  | inr (s, e) ↦
      subst (λ w. Keeps c (elim w [ none ↦ c | some _ ↦ f c ])) (sym e) (k (v.socket (rw e refl)))
]

at_timer-Keeps :
    (timer : Option ℕ) (f : Client → Client) (c : Client)
    → IsOrderly c
    → (is_some timer ≡ true → Keeps c (f c))
    → Keeps c (at_timer timer f c)
at_timer-Keeps none f c v k = quiet c c v (IsQuiet-refl c)
at_timer-Keeps (some ms) f c v k = k refl

-- Every event keeps a client orderly; and once its call is over it stays over, and opens no socket.
step-Keeps : (e : Event) (c : Client) → IsOrderly c → Keeps c (step e c)
unfolding step hangup
step-Keeps starts c v = start_session-Keeps c v
step-Keeps (hangs_up manual) c v =
    let told : Client = record c { intentional_close = manual } in
    let v' =
      (quiet c told v (record {
        ws = refl;
        timer = refl;
        started = refl;
        terminal = refl;
        starts = refl;
        sockets = refl;
      })).orderly in
    let closed = shut told _ v' (close_local_resources-IsShut true told) in
    record { orderly = closed.orderly; terminal = closed.terminal; sockets = closed.sockets }
step-Keeps unloads c v = shut c _ v (close_local_resources-IsShut false c)
step-Keeps (moves room secret) c v = ground (arith, quiet c c v (IsQuiet-refl c))
step-Keeps opens c v = ground (
  arith,
  quiet c c v (IsQuiet-refl c),
  quiet c _ v (IsQuiet-trans c _ _ (with_open-IsQuiet true c) (on_open-IsQuiet (with_open true c))),
)
step-Keeps (receives msg) c v =
    at_socket-Keeps (handle_signaling_message msg) c v (handle_signaling_message-Keeps msg c v)
step-Keeps socket_falls c v = quiet c _ v (with_open-IsQuiet false c)
step-Keeps (closes random) c v =
    at_socket-Keeps (λ c. on_close random (with_open false c)) c v (close-Keeps random c v)
step-Keeps (browser_reports media signaling has_remote) c v =
    quiet c _ v (with_report-IsQuiet media signaling has_remote c)
step-Keeps (media_changes media) c v =
    ground
      (arith, quiet c c v (IsQuiet-refl c), quiet c _ v (on_media_state_change-IsQuiet media c))
step-Keeps (gathers candidate) c v =
    ground (arith, quiet c c v (IsQuiet-refl c), quiet c _ v (on_ice_candidate-IsQuiet candidate c))
step-Keeps reconnect_fires c v =
    at_timer-Keeps c.reconnect_timer on_reconnect_timer c v
      (λ e. on_reconnect_timer-Keeps c v (v.timer e).0 (v.timer e).1)
step-Keeps disconnect_fires c v =
    ground (arith, quiet c c v (IsQuiet-refl c), quiet c _ v (on_disconnect_timer-IsQuiet c))
step-Keeps peer_gone_fires c v =
    ground (arith, quiet c c v (IsQuiet-refl c), quiet c _ v (on_peer_gone_timer-IsQuiet c))
step-Keeps (resumes n o) c v = resume-Keeps n o c v

pub run-Keeps : (es : List Event) (c : Client) → IsOrderly c → Keeps c (run es c)
unfolding run
run-Keeps [] c v = quiet c c v (IsQuiet-refl c)
run-Keeps (e ∷ es) c v =
    let k = step-Keeps e c v in
    let l = run-Keeps es (step e c) k.orderly in
    record {
      orderly = l.orderly;
      terminal = λ h. l.terminal (k.terminal h);
      sockets = λ h. l.sockets (k.terminal h) ∙ k.sockets h;
    }

pub new_client-IsOrderly : (id : Text) → IsOrderly (new_client id)
new_client-IsOrderly id = ground arith

no_timer_over : (c : Client) → IsOrderly c → c.terminal ≡ true → c.reconnect_timer ≡ none
no_timer_over c v over = ground (arith, v.timer)

-- The messages that end a call for good: a hangup, and the errors that no new attempt will mend.
abbrev pub EndsCall : Incoming → Type 0
EndsCall peer_hangup = Unit
EndsCall (error code) =
    (code ≡ codes "room_not_found")
    ⊎ (code ≡ codes "room_expired")
    ⊎ (code ≡ codes "unauthorized")
    ⊎ (code ≡ codes "room_full")
    ⊎ (code ≡ codes "at_capacity")
    ⊎ (code ≡ codes "bad_join")
EndsCall _ = ⊥

is_terminal_code-true : (code : Text) → EndsCall (error code) → is_terminal_code code ≡ true
unfolding is_terminal_code text_eq
is_terminal_code-true code (inl e) = rw e refl
is_terminal_code-true code (inr (inl e)) = rw e refl
is_terminal_code-true code (inr (inr (inl e))) = rw e refl
is_terminal_code-true code (inr (inr (inr (inl e)))) = rw e refl
is_terminal_code-true code (inr (inr (inr (inr (inl e))))) = rw e refl
is_terminal_code-true code (inr (inr (inr (inr (inr e))))) = rw e refl

end_call-over :
    (c : Client) → ((end_call c).terminal ≡ true) × ((end_call c).next_socket ≡ c.next_socket)
unfolding end_call
end_call-over c = (refl, refl)

handled_over :
    (msg : Incoming) (c : Client)
    → EndsCall msg
    → let c' = handle_signaling_message msg c in
      (c'.terminal ≡ true) × (c'.next_socket ≡ c.next_socket)
unfolding handle_signaling_message
handled_over (joined _ _ _) c ends = elim ends [ ]
handled_over peer_ready c ends = elim ends [ ]
handled_over (offer _) c ends = elim ends [ ]
handled_over (answer _) c ends = elim ends [ ]
handled_over (ice_candidate _) c ends = elim ends [ ]
handled_over peer_left c ends = elim ends [ ]
handled_over other c ends = elim ends [ ]
handled_over peer_hangup c ends = end_call-over c
handled_over (error code) c ends = rw (is_terminal_code-true code ends) (end_call-over c)

received_over :
    (msg : Incoming) (c : Client)
    → EndsCall msg
    → is_some c.ws ≡ true
    → let c' = step (receives msg) c in (c'.terminal ≡ true) × (c'.next_socket ≡ c.next_socket)
unfolding step
received_over msg c ends there = ground (arith, handled_over msg c ends)

-- A client that has a socket, after any events from the load of the page, and is then sent a hangup
-- or an error that ends the call, is in a call that has started, and this call is over for good:
-- whatever happens later, the flag `terminal` stays set, no socket is opened and no timer to
-- reconnect is set. And before that, a client with such a timer is in a call that has started and is
-- not over.
pub run-over :
    (id : Text) (es later : List Event) (msg : Incoming)
    → EndsCall msg
    → is_some (run es (new_client id)).ws ≡ true
    → let c = run es (new_client id) in
      let c' = run later (step (receives msg) c) in
      ((c'.terminal ≡ true) × (c'.next_socket ≡ c.next_socket) × (c'.reconnect_timer ≡ none))
      × (c.started ≡ true)
      × (is_some c.reconnect_timer ≡ true → (c.started ≡ true) × (c.terminal ≡ false))
run-over id es later msg ends there =
    let c = run es (new_client id) in
    let v = (run-Keeps es (new_client id) (new_client-IsOrderly id)).orderly in
    let (over, same) = received_over msg c ends there in
    let c1 = step (receives msg) c in
    let k = run-Keeps later c1 (step-Keeps (receives msg) c v).orderly in
    (
      (k.terminal over, k.sockets over ∙ same, no_timer_over _ k.orderly (k.terminal over)),
      (v.socket there).0,
      λ e. ((v.timer e).0.0, (v.timer e).1),
    )
