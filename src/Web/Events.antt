-- ===== src/Web/Events.antt =====
-- web/ui.go: a client under any sequence of events. The user, the browser and the server choose
-- them: the loop of the browser runs one at a time, each up to where it waits.
use gocord.Base.{Bool, ℕ, zero, suc, true, false, none, some, List, [], ◌∷◌, Option, get_elem?}
use gocord.Base.Assoc.{Text}
use gocord.Web.State.{
  Client, Candidate, Media, Signaling, Task, fetching_config, getting_media, creating_offer,
  setting_offer, setting_remote, draining, creating_answer, setting_answer, Outcome,
}
use gocord.Web.Backoff.{Fraction}
use gocord.Web.Negotiation.{
  offer_created, offer_set, remote_set, drain, answer_created, answer_set, on_ice_candidate,
}
use gocord.Web.Recovery.{
  on_media_state_change, on_disconnect_timer, on_peer_gone_timer, on_reconnect_timer,
}
use gocord.Web.Call.{
  on_open, on_close, hangup, close_local_resources, start_session, config_fetched, media_acquired,
}
use gocord.Web.Signals.{Incoming, handle_signaling_message}

-- `moves` is what the routes of the page do to the room and the secret, `socket_falls` a readyState
-- that changes before the handler runs, and `browser_reports` a change of the connection's states.
-- `gathers` is the handler onicecandidate, and `resumes` the end of the promise that a function
-- waits for, by its place. `unloads` is the handler of beforeunload.
pub data Event : Type 0 where
  starts : Event
  hangs_up : Bool → Event
  unloads : Event
  moves : Text → Text → Event
  opens : Event
  receives : Incoming → Event
  socket_falls : Event
  closes : Fraction → Event
  browser_reports : Media → Signaling → Bool → Event
  media_changes : Media → Event
  gathers : Candidate → Event
  reconnect_fires : Event
  disconnect_fires : Event
  peer_gone_fires : Event
  resumes : ℕ → Outcome → Event

abbrev pub with_open : Bool → Client → Client
with_open is_open c = elim c.ws [
  | none ↦ c
  | some s ↦ record c { ws = some (record s { is_open = is_open }) }
]

abbrev pub with_report : Media → Signaling → Bool → Client → Client
with_report media signaling has_remote c = elim c.pc [
  | none ↦ c
  | some pc ↦ record c {
    pc = some (record pc { media = media; signaling = signaling; has_remote = has_remote });
  }
]

-- A handler of the socket runs only while there is one, and one of the connection likewise.
abbrev pub at_socket : (Client → Client) → Client → Client
at_socket f c = elim c.ws [ none ↦ c | some _ ↦ f c ]

abbrev pub at_connection : (Client → Client) → Client → Client
at_connection f c = elim c.pc [ none ↦ c | some _ ↦ f c ]

abbrev pub at_timer : Option ℕ → (Client → Client) → Client → Client
at_timer none f c = c
at_timer (some _) f c = f c

abbrev pub without : ℕ → List Task → List Task
without n [] = []
without zero (t ∷ ts) = ts
without (suc n) (t ∷ ts) = t ∷ without n ts

unfoldable pub continue : Task → Outcome → Client → Client
unfolding config_fetched media_acquired offer_created offer_set remote_set drain answer_created
    answer_set
continue fetching_config o c = config_fetched o c
continue getting_media o c = media_acquired o c
continue (creating_offer restart) o c = offer_created restart o c
continue (setting_offer restart sdp) o c = offer_set restart sdp o c
continue (setting_remote for_offer) o c = remote_set for_offer o c
continue (draining for_offer a i) o c = drain for_offer a i c
continue creating_answer o c = answer_created o c
continue (setting_answer sdp) o c = answer_set sdp o c

unfoldable pub resume : ℕ → Outcome → Client → Client
unfolding continue
resume n o c = elim (get_elem? c.tasks n) [
  | none ↦ c
  | some t ↦ continue t o (record c { tasks = without n c.tasks })
]

unfoldable pub step : Event → Client → Client
unfolding start_session hangup close_local_resources on_open handle_signaling_message on_close
    on_media_state_change on_ice_candidate on_reconnect_timer on_disconnect_timer on_peer_gone_timer
    resume
step starts c = start_session c
step (hangs_up manual) c = hangup manual c
step unloads c = close_local_resources false c
step (moves room secret) c = record c { room = room; secret = secret }
step opens c = at_socket (λ c. on_open (with_open true c)) c
step (receives msg) c = at_socket (handle_signaling_message msg) c
step socket_falls c = with_open false c
step (closes random) c = at_socket (λ c. on_close random (with_open false c)) c
step (browser_reports media signaling has_remote) c = with_report media signaling has_remote c
step (media_changes media) c = at_connection (on_media_state_change media) c
step (gathers candidate) c = at_connection (on_ice_candidate candidate) c
step reconnect_fires c = at_timer c.reconnect_timer on_reconnect_timer c
step disconnect_fires c = at_timer c.disconnect_timer on_disconnect_timer c
step peer_gone_fires c = at_timer c.peer_gone_timer on_peer_gone_timer c
step (resumes n o) c = resume n o c

unfoldable pub run : List Event → Client → Client
unfolding step
run [] c = c
run (e ∷ es) c = run es (step e c)
