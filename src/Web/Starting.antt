-- ===== src/Web/Starting.antt =====
-- web/ui.go: how the flags, timers and sockets of a client hang together while a call starts, and
-- whenever a function that waits goes on.
use gocord.Base.{
  ℕ, zero, suc, ◌+◌, ◌≡◌, refl, sym, ◌∙◌, inl, inr, true, false, List, [], ◌∷◌, some, is_some,
  arith, get_elem?, Option-cases,
}
use gocord.Base.Assoc.{Text}
use gocord.Web.State.{
  Client, Task, fetching_config, getting_media, creating_offer, setting_offer, setting_remote,
  draining, creating_answer, setting_answer, Outcome, rejected, resolved,
}
use gocord.Web.Call.{create_peer_connection, fail_session, config_fetched, media_acquired}
use gocord.Web.Events.{without, continue, resume}
use gocord.Web.Quiet.{
  starts_of, starts_in, IsQuiet, IsQuiet-refl, offer_created-IsQuiet, offer_set-IsQuiet,
  drain-IsQuiet, remote_set-IsQuiet, answer_created-IsQuiet, answer_set-IsQuiet,
}
use gocord.Web.Order.{IsOrderly, Keeps, close_local_resources-IsShut, connect-Keeps, quiet, shut}

pub starts_in-without :
    (n : ℕ) (ts : List Task) (t : Task)
    → get_elem? ts n ≡ some t
    → starts_in ts ≡ starts_of t + starts_in (without n ts)
starts_in-without n [] t e = cc
starts_in-without zero (u ∷ ts) t e = ground arith
starts_in-without (suc n) (u ∷ ts) t e = omega (arith, starts_in-without n ts t e)

create_peer_connection-IsQuiet : (c : Client) → IsQuiet c (create_peer_connection c)
unfolding create_peer_connection
create_peer_connection-IsQuiet c = ground arith

-- Another function than startSession ends its wait.
after :
    (c : Client) (ts : List Task)
    → IsOrderly c
    → starts_in c.tasks ≡ starts_in ts
    → (c' : Client) → IsQuiet (record c { tasks = ts }) c'
    → Keeps c c'
after c ts v e c' q = quiet c c' v (record {
  ws = q.ws;
  timer = q.timer;
  started = q.started;
  terminal = q.terminal;
  starts = q.starts ∙ sym e;
  sockets = q.sockets;
})

-- A part of startSession ends its wait: `ts` are the other functions that wait.
module _ (c : Client) (ts : List Task) (v : IsOrderly c)
    (last : starts_in c.tasks ≡ suc (starts_in ts)) where
  none_left : starts_in ts ≡ 0
  none_left = omega (arith, v.once, last)

  has_started : c.started ≡ true
  has_started = ground (arith, v.idle, last)

  is_live : c.terminal ≡ false
  is_live = ground (arith, v.over, last)

  no_socket : is_some c.ws ≡ false
  no_socket = ground (arith, v.socket, last)

  no_timer : is_some c.reconnect_timer ≡ false
  no_timer = ground (arith, v.timer, last)

  fail_session-Keeps : Keeps c (fail_session (record c { tasks = ts }))
  unfolding fail_session
  fail_session-Keeps =
      let failed : Client = record c { tasks = ts; started = false } in
      let v' : IsOrderly failed = record {
        once = rw none_left (omega arith);
        idle = λ _. none_left;
        socket = λ e. absurd (cc (e, no_socket));
        timer = λ e. absurd (cc (e, no_timer));
        over = λ e. absurd (cc (e, is_live));
      } in
      record {
        orderly = (shut failed _ v' (close_local_resources-IsShut false failed)).orderly;
        terminal = λ e. absurd (cc (e, is_live));
        sockets = λ e. absurd (cc (e, is_live));
      }

  media_acquired-Keeps :
      (sdp : Text) → Keeps c (media_acquired (resolved sdp) (record c { tasks = ts }))
  unfolding media_acquired
  media_acquired-Keeps sdp =
      let acquired : Client = record c { tasks = ts; local_stream = true } in
      let q = create_peer_connection-IsQuiet acquired in
      let v' : IsOrderly acquired = record {
        once = rw none_left (omega arith);
        idle = λ _. none_left;
        socket = λ e. absurd (cc (e, no_socket));
        timer = λ e. absurd (cc (e, no_timer));
        over = λ e. absurd (cc (e, is_live));
      } in
      let created = create_peer_connection acquired in
      let opened =
        connect-Keeps created (quiet acquired created v' q).orderly
          (q.started ∙ has_started, q.starts ∙ none_left) (q.terminal ∙ is_live) in
      record {
        orderly = opened.orderly;
        terminal = λ e. absurd (cc (e, is_live));
        sockets = λ e. absurd (cc (e, is_live));
      }

continue-Keeps :
    (t : Task) (o : Outcome) (c : Client) (ts : List Task)
    → IsOrderly c
    → starts_in c.tasks ≡ starts_of t + starts_in ts
    → Keeps c (continue t o (record c { tasks = ts }))
unfolding continue config_fetched media_acquired
continue-Keeps fetching_config rejected c ts v e = fail_session-Keeps c ts v (omega (arith, e))
continue-Keeps fetching_config (resolved _) c ts v e = quiet c _ v (record {
  ws = refl;
  timer = refl;
  started = refl;
  terminal = refl;
  starts = omega (arith, e);
  sockets = refl;
})
continue-Keeps getting_media rejected c ts v e = fail_session-Keeps c ts v (omega (arith, e))
continue-Keeps getting_media (resolved sdp) c ts v e =
    media_acquired-Keeps c ts v (omega (arith, e)) sdp
continue-Keeps (creating_offer restart) o c ts v e =
    after c ts v (omega (arith, e)) _ (offer_created-IsQuiet restart o _)
continue-Keeps (setting_offer restart sdp) o c ts v e =
    after c ts v (omega (arith, e)) _ (offer_set-IsQuiet restart sdp o _)
continue-Keeps (setting_remote for_offer) o c ts v e =
    after c ts v (omega (arith, e)) _ (remote_set-IsQuiet for_offer o _)
continue-Keeps (draining for_offer a i) o c ts v e =
    after c ts v (omega (arith, e)) _ (drain-IsQuiet for_offer a i _)
continue-Keeps creating_answer o c ts v e =
    after c ts v (omega (arith, e)) _ (answer_created-IsQuiet o _)
continue-Keeps (setting_answer sdp) o c ts v e =
    after c ts v (omega (arith, e)) _ (answer_set-IsQuiet sdp o _)

pub resume-Keeps : (n : ℕ) (o : Outcome) (c : Client) → IsOrderly c → Keeps c (resume n o c)
unfolding resume
resume-Keeps n o c v = elim (Option-cases (get_elem? c.tasks n)) [
  | inl e ↦ rw (e, resume) (quiet c c v (IsQuiet-refl c))
  | inr (t, e) ↦
      rw (e, resume) (continue-Keeps t o c (without n c.tasks) v (starts_in-without n c.tasks t e))
]
