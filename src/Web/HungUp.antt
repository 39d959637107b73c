-- ===== src/Web/HungUp.antt =====
-- web/ui.go: a client after hangup.
use gocord.Base.{
  false, ℕ, ◌≡◌, refl, ◌∙◌, inl, inr, Bool, true, List, [], ◌∷◌, none, is_some, arith, get_elem?,
  Option-cases,
}
use gocord.Base.Assoc.{Text}
use gocord.Web.State.{
  Client, new_client, Outgoing, Task, fetching_config, getting_media, creating_offer, setting_offer,
  setting_remote, draining, creating_answer, setting_answer, Outcome, rejected, resolved,
  send_message,
}
use gocord.Web.Negotiation.{
  end_offer, offer_created, offer_set, drained, drain, remote_set, answer_created, answer_set,
}
use gocord.Web.Recovery.{on_disconnect_timer, on_peer_gone_timer}
use gocord.Web.Call.{hangup, start_session, close_local_resources}
use gocord.Web.Events.{
  Event, starts, hangs_up, unloads, moves, opens, receives, socket_falls, closes, browser_reports,
  media_changes, gathers, reconnect_fires, disconnect_fires, peer_gone_fires, resumes, without,
  continue, resume, step, run,
}
use gocord.Web.Quiet.{starts_of, starts_in}
use gocord.Web.Order.{IsOrderly, close_local_resources-IsShut}
use gocord.Web.Starting.{starts_in-without}
use gocord.Web.Orderly.{run-Keeps, new_client-IsOrderly}

record IsHungUp (c : Client) : Type 0 where
  ws : c.ws ≡ none
  pc : c.pc ≡ none
  timer : c.reconnect_timer ≡ none
  started : c.started ≡ true
  starts : starts_in c.tasks ≡ 0

-- Nothing is asked of the browser, and the client stays hung up.
record IsStill (c c' : Client) : Type 0 where
  hung_up : IsHungUp c'
  log : c'.log ≡ c.log

module _ (c : Client) (h : IsHungUp c) where
  send_message-IsStill : (msg : Outgoing) → IsStill c (send_message msg c)
  unfolding send_message
  send_message-IsStill msg = ground arith

  end_offer-IsStill : (restart : Bool) → IsStill c (end_offer restart c)
  unfolding end_offer
  end_offer-IsStill restart = ground arith

  drained-IsStill : (for_offer : Bool) → IsStill c (drained for_offer c)
  unfolding drained
  drained-IsStill for_offer = ground arith

  drain-IsStill : (for_offer : Bool) (a i : ℕ) → IsStill c (drain for_offer a i c)
  unfolding drain
  drain-IsStill for_offer a i = ground (arith, drained-IsStill for_offer)

  on_disconnect_timer-IsStill : IsStill c (on_disconnect_timer c)
  unfolding on_disconnect_timer
  on_disconnect_timer-IsStill = ground arith

  same : IsStill c c
  same = record { hung_up = h; log = refl }

offer_set-IsStill :
    (restart : Bool) (sdp : Text) (o : Outcome) (c : Client)
    → IsHungUp c
    → IsStill c (offer_set restart sdp o c)
unfolding offer_set
offer_set-IsStill restart sdp rejected c h = end_offer-IsStill c h restart
offer_set-IsStill restart sdp (resolved _) c h =
    let sent = send_message-IsStill c h (Outgoing.offer c.room sdp) in
    let ended = end_offer-IsStill _ sent.hung_up restart in
    record { hung_up = ended.hung_up; log = ended.log ∙ sent.log }

continue-IsStill :
    (t : Task) (o : Outcome) (c : Client)
    → starts_of t ≡ 0
    → IsHungUp c
    → IsStill c (continue t o c)
unfolding continue remote_set offer_created answer_created answer_set
continue-IsStill fetching_config o c e h = absurd (omega (arith, e))
continue-IsStill getting_media o c e h = absurd (omega (arith, e))
continue-IsStill (creating_offer restart) rejected c e h = end_offer-IsStill c h restart
continue-IsStill (creating_offer restart) (resolved sdp) c e h =
    ground (arith, end_offer-IsStill c h restart)
continue-IsStill (setting_offer restart sdp) o c e h = offer_set-IsStill restart sdp o c h
continue-IsStill (setting_remote for_offer) rejected c e h = same c h
continue-IsStill (setting_remote for_offer) (resolved _) c e h =
    drain-IsStill c h for_offer c.pending_candidates 0
continue-IsStill (draining for_offer a i) o c e h = drain-IsStill c h for_offer a i
continue-IsStill creating_answer rejected c e h = same c h
continue-IsStill creating_answer (resolved sdp) c e h = ground (arith, same c h)
continue-IsStill (setting_answer sdp) rejected c e h = same c h
continue-IsStill (setting_answer sdp) (resolved _) c e h = send_message-IsStill c h _

close_local_resources-IsStill :
    (leave_room : Bool) (c : Client) → IsHungUp c → IsStill c (close_local_resources leave_room c)
unfolding close_local_resources
close_local_resources-IsStill leave_room c h = ground arith

step-IsStill : (e : Event) (c : Client) → IsHungUp c → IsStill c (step e c)
unfolding step hangup resume start_session on_peer_gone_timer
step-IsStill starts c h = ground (arith, same c h)
step-IsStill (hangs_up manual) c h =
    let told : Client = record c { intentional_close = manual } in
    let k =
      close_local_resources-IsStill true told (record {
        ws = h.ws;
        pc = h.pc;
        timer = h.timer;
        started = h.started;
        starts = h.starts;
      }) in
    record { hung_up = k.hung_up; log = k.log }
step-IsStill unloads c h = close_local_resources-IsStill false c h
step-IsStill (moves room secret) c h = ground arith
step-IsStill opens c h = ground (arith, same c h)
step-IsStill (receives msg) c h = ground (arith, same c h)
step-IsStill socket_falls c h = ground (arith, same c h)
step-IsStill (closes random) c h = ground (arith, same c h)
step-IsStill (browser_reports media signaling has_remote) c h = ground (arith, same c h)
step-IsStill (media_changes media) c h = ground (arith, same c h)
step-IsStill (gathers candidate) c h = ground (arith, same c h)
step-IsStill reconnect_fires c h = ground (arith, same c h)
step-IsStill disconnect_fires c h = ground (arith, same c h, on_disconnect_timer-IsStill c h)
step-IsStill peer_gone_fires c h = ground (arith, same c h)
step-IsStill (resumes n o) c h = elim (Option-cases (get_elem? c.tasks n)) [
  | inl e ↦ rw (e, resume) (same c h)
  | inr (t, e) ↦
      rw (e, resume)
        (let count = starts_in-without n c.tasks t e in
          let left : Client = record c { tasks = without n c.tasks } in
          let k = continue-IsStill t o left (omega (arith, count, h.starts)) (record {
            ws = h.ws;
            pc = h.pc;
            timer = h.timer;
            started = h.started;
            starts = omega (arith, count, h.starts);
          }) in
          record { hung_up = k.hung_up; log = k.log })
]

run-IsStill : (es : List Event) (c : Client) → IsHungUp c → IsStill c (run es c)
unfolding run
run-IsStill [] c h = same c h
run-IsStill (e ∷ es) c h =
    let k = step-IsStill e c h in
    let l = run-IsStill es (step e c) k.hung_up in
    record { hung_up = l.hung_up; log = l.log ∙ k.log }

hangup-IsHungUp :
    (manual : Bool) (c : Client) → IsOrderly c → is_some c.ws ≡ true → IsHungUp (hangup manual c)
unfolding hangup
hangup-IsHungUp manual c v there =
    let told : Client = record c { intentional_close = manual } in
    let s = close_local_resources-IsShut true told in
    record {
      ws = s.ws;
      pc = s.pc;
      timer = s.reconnect_timer;
      started = s.started ∙ (v.socket there).0;
      starts = rw s.tasks (v.socket there).1;
    }

-- A client that hangs up while it has a socket, after any events from the load of the page, has no
-- socket, no connection and no timer to reconnect; and whatever happens later, it asks nothing more
-- of the browser: no message, no socket, no connection, no offer.
pub run-hangup :
    (id : Text) (es later : List Event) (manual : Bool)
    → is_some (run es (new_client id)).ws ≡ true
    → let c = hangup manual (run es (new_client id)) in
      (c.ws ≡ none) × (c.pc ≡ none) × (c.reconnect_timer ≡ none) × ((run later c).log ≡ c.log)
run-hangup id es later manual there =
    let v = (run-Keeps es (new_client id) (new_client-IsOrderly id)).orderly in
    let h = hangup-IsHungUp manual (run es (new_client id)) v there in
    (h.ws, h.pc, h.timer, (run-IsStill later _ h).log)
