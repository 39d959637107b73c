-- ===== src/Web/Offerer.antt =====
-- web/ui.go: which client makes offers.
use gocord.Base.{
  ℕ, zero, suc, ◌+◌, ◌≡◌, refl, inl, inr, Bool, true, false, List, [], ◌∷◌, Option, some, arith,
  get_elem?, Option-cases, All,
}
use gocord.Base.Assoc.{Text, text_eq}
use gocord.Web.State.{Client, new_client, Task, Outcome}
use gocord.Web.Negotiation.{on_offer, on_answer, on_candidate}
use gocord.Web.Recovery.{
  on_disconnect_timer, on_peer_gone_timer, start_peer_return_timer, on_peer_present,
  on_reconnect_timer,
}
use gocord.Web.Call.{on_open, on_close}
use gocord.Web.Signals.{
  Incoming, joined, peer_ready, offer, answer, ice_candidate, peer_hangup, peer_left, error, other,
  end_call, handle_signaling_message,
}
use gocord.Web.Events.{
  Event, starts, hangs_up, unloads, moves, opens, receives, socket_falls, closes, browser_reports,
  media_changes, gathers, reconnect_fires, disconnect_fires, peer_gone_fires, resumes, at_socket,
  at_timer, with_open, without, resume, step, run,
}
use gocord.Web.Callee.{
  close-MakesNone, IsCallee, MakesNone, TellsCallee, both, candidate_sent, continue-MakesNone,
  hangup-MakesNone, offers_in, on_close-MakesNone, on_disconnect_timer-MakesNone,
  on_joined-MakesNone, on_media-MakesNone, on_open-MakesNone, on_reconnect_timer-MakesNone, same,
  start_session-MakesNone, waits_in, waits_of,
}

waits_in-without :
    (n : ℕ) (ts : List Task) (t : Task)
    → get_elem? ts n ≡ some t
    → waits_in ts ≡ waits_of t + waits_in (without n ts)
waits_in-without n [] t e = cc
waits_in-without zero (u ∷ ts) t e = ground arith
waits_in-without (suc n) (u ∷ ts) t e = omega (arith, waits_in-without n ts t e)

resume-MakesNone : (n : ℕ) (o : Outcome) (c : Client) → IsCallee c → MakesNone c (resume n o c)
unfolding resume
resume-MakesNone n o c h = elim (Option-cases (get_elem? c.tasks n)) [
  | inl e ↦ rw (e, resume) (same c h)
  | inr (t, e) ↦
      rw (e, resume)
        (let count = waits_in-without n c.tasks t e in
          let left : Client = record c { tasks = without n c.tasks } in
          let k =
            continue-MakesNone t o left (omega (arith, count, h.waits))
              (record { role = h.role; waits = omega (arith, count, h.waits) }) in
          record { callee = k.callee; offers = k.offers })
]

handle-MakesNone :
    (msg : Incoming) (c : Client)
    → TellsCallee (receives msg)
    → IsCallee c
    → MakesNone c (handle_signaling_message msg c)
unfolding handle_signaling_message on_peer_present on_offer on_answer on_candidate end_call
    start_peer_return_timer
handle-MakesNone (joined role token participants) c told h =
    rw told (on_joined-MakesNone c h token participants)
handle-MakesNone peer_ready c told h = ground arith
handle-MakesNone (offer sdp) c told h = ground (arith, same c h)
handle-MakesNone (answer sdp) c told h = ground (arith, same c h)
handle-MakesNone (ice_candidate candidate) c told h = ground (arith, same c h)
handle-MakesNone peer_hangup c told h = ground arith
handle-MakesNone peer_left c told h = ground arith
handle-MakesNone (error code) c told h = ground (arith, same c h)
handle-MakesNone other c told h = same c h

at_socket-MakesNone :
    (f : Client → Client) (c : Client)
    → IsCallee c
    → MakesNone c (f c)
    → MakesNone c (at_socket f c)
at_socket-MakesNone f c h k = ground (arith, same c h)

at_timer-MakesNone :
    (timer : Option ℕ) (f : Client → Client) (c : Client)
    → IsCallee c
    → MakesNone c (f c)
    → MakesNone c (at_timer timer f c)
at_timer-MakesNone timer f c h k = ground (arith, same c h)

with_open-MakesNone : (is_open : Bool) (c : Client) → IsCallee c → MakesNone c (with_open is_open c)
with_open-MakesNone is_open c h = ground (arith, same c h)

step-MakesNone : (e : Event) (c : Client) → TellsCallee e → IsCallee c → MakesNone c (step e c)
unfolding step on_peer_gone_timer
step-MakesNone starts c told h = start_session-MakesNone c h
step-MakesNone (hangs_up manual) c told h = hangup-MakesNone manual c h
step-MakesNone unloads c told h = close-MakesNone c h false
step-MakesNone (moves room secret) c told h = ground arith
step-MakesNone opens c told h =
    at_socket-MakesNone (λ c. on_open (with_open true c)) c h
      (both c _ _ (with_open-MakesNone true c h) (on_open-MakesNone _))
step-MakesNone (receives msg) c told h =
    at_socket-MakesNone (handle_signaling_message msg) c h (handle-MakesNone msg c told h)
step-MakesNone socket_falls c told h = with_open-MakesNone false c h
step-MakesNone (closes random) c told h =
    at_socket-MakesNone (λ c. on_close random (with_open false c)) c h
      (both c _ _ (with_open-MakesNone false c h) (λ h'. on_close-MakesNone _ h' random))
step-MakesNone (browser_reports media signaling has_remote) c told h = ground (arith, same c h)
step-MakesNone (media_changes media) c told h =
    ground (arith, same c h, on_media-MakesNone c h media)
step-MakesNone (gathers candidate) c told h = ground (arith, same c h, candidate_sent c h candidate)
step-MakesNone reconnect_fires c told h =
    at_timer-MakesNone c.reconnect_timer on_reconnect_timer c h (on_reconnect_timer-MakesNone c h)
step-MakesNone disconnect_fires c told h =
    at_timer-MakesNone c.disconnect_timer on_disconnect_timer c h
      (on_disconnect_timer-MakesNone c h)
step-MakesNone peer_gone_fires c told h =
    at_timer-MakesNone c.peer_gone_timer on_peer_gone_timer c h (ground arith)
step-MakesNone (resumes n o) c told h = resume-MakesNone n o c h

run-MakesNone :
    (es : List Event) (c : Client) → All TellsCallee es → IsCallee c → MakesNone c (run es c)
unfolding run
run-MakesNone [] c told h = same c h
run-MakesNone (e ∷ es) c (t, told) h =
    both c _ _ (step-MakesNone e c t h) (λ h'. run-MakesNone es (step e c) told h')

-- A client that is told no other role than the callee's, in any order of events from the load of
-- the page, creates no offer and sends none.
pub run-callee :
    (id : Text) (es : List Event) → All TellsCallee es → offers_in (run es (new_client id)).log ≡ 0
unfolding text_eq
run-callee id es told =
    (run-MakesNone es (new_client id) told (record { role = refl; waits = refl })).offers
