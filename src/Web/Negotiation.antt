-- ===== src/Web/Negotiation.antt =====
-- web/ui.go: makeOffer, drainCandidates and the answers to descriptions, cut where they wait.
-- `resume` goes on with a function whose promise has ended. A rejected promise and the TypeError
-- of a `state.pc` that is null both end in the function's catch.
use gocord.Base.{ℕ, suc, Bool, true, false, not, ◌||◌, [], none, some, if◌then◌else◌, get_elem?}
use gocord.Base.Assoc.{Text, codes, text_eq}
use gocord.Web.State.{
  Client, Candidate, Connection, stable, have_local_offer, Outgoing, offer, answer, create_offer,
  create_answer, set_local, set_remote, add_candidate, creating_offer, setting_offer,
  setting_remote, draining, creating_answer, setting_answer, Outcome, rejected, resolved,
  is_open_ws, act, wait, send_message, reset_candidates, push_candidate,
}
use gocord.Web.Opus.{enhance_opus_sdp}

abbrev pub is_stable : Connection → Bool
is_stable pc = elim pc.signaling [ stable ↦ true | _ ↦ false ]

abbrev pub has_local_offer : Connection → Bool
has_local_offer pc = elim pc.signaling [ have_local_offer ↦ true | _ ↦ false ]

-- makeOffer up to createOffer, and whether it waits.
unfoldable pub make_offer : Bool → Client → Client × Bool
make_offer restart c = elim c.pc [
  | none ↦ (c, false)
  | some pc ↦
      if c.making_offer || not (is_open_ws c.ws) || not (is_stable pc) then (c, false) else (
        wait (creating_offer restart)
            (act (create_offer pc.id restart) (record c { making_offer = true })),
        true,
      )
]

-- The two `finally` blocks: of makeOffer, and of attemptIceRestart if it is the caller.
unfoldable pub end_offer : Bool → Client → Client
end_offer restart c = record c {
  making_offer = false;
  ice_restart_in_flight = if restart then false else c.ice_restart_in_flight;
}

unfoldable pub offer_created : Bool → Outcome → Client → Client
unfolding end_offer
offer_created restart rejected c = end_offer restart c
offer_created restart (resolved sdp) c = elim c.pc [
  | none ↦ end_offer restart c
  | some pc ↦
      wait (setting_offer restart (enhance_opus_sdp sdp))
        (act (set_local pc.id (codes "offer") (enhance_opus_sdp sdp)) c)
]

unfoldable pub offer_set : Bool → Text → Outcome → Client → Client
unfolding end_offer send_message
offer_set restart sdp rejected c = end_offer restart c
offer_set restart sdp (resolved _) c = end_offer restart (send_message (offer c.room sdp) c)

-- After the drain: the answer to an offer.
unfoldable pub drained : Bool → Client → Client
unfolding reset_candidates
drained for_offer c =
    let c' = reset_candidates c in
    if not for_offer
    then c'
    else elim c'.pc [ none ↦ c' | some pc ↦ wait creating_answer (act (create_answer pc.id) c') ]

-- A round of the loop of drainCandidates. With no connection each of the other rounds throws, and
-- is caught, at once.
unfoldable pub drain : Bool → ℕ → ℕ → Client → Client
unfolding drained
drain for_offer a i c = elim (get_elem? (c.arrays a) i) [
  | none ↦ drained for_offer c
  | some candidate ↦ elim c.pc [
    | none ↦ drained for_offer c
    | some pc ↦ wait (draining for_offer a (suc i)) (act (add_candidate pc.id candidate) c)
  ]
]

unfoldable pub remote_set : Bool → Outcome → Client → Client
unfolding drain
remote_set for_offer rejected c = c
remote_set for_offer (resolved _) c = drain for_offer c.pending_candidates 0 c

unfoldable pub answer_created : Outcome → Client → Client
answer_created rejected c = c
answer_created (resolved sdp) c = elim c.pc [
  | none ↦ c
  | some pc ↦
      wait (setting_answer (enhance_opus_sdp sdp))
        (act (set_local pc.id (codes "answer") (enhance_opus_sdp sdp)) c)
]

unfoldable pub answer_set : Text → Outcome → Client → Client
unfolding send_message
answer_set sdp rejected c = c
answer_set sdp (resolved _) c = send_message (answer c.room sdp) c

-- The cases "offer" and "answer" of handleSignalingMessage; an empty text is an absent one.
unfoldable pub on_offer : Text → Client → Client
on_offer sdp c = elim c.pc [
  | none ↦ c
  | some pc ↦
      if text_eq sdp []
      then c
      else wait (setting_remote true) (act (set_remote pc.id (codes "offer") sdp) c)
]

unfoldable pub on_answer : Text → Client → Client
on_answer sdp c = elim c.pc [
  | none ↦ c
  | some pc ↦
      if text_eq sdp [] || not (has_local_offer pc)
      then c
      else wait (setting_remote false) (act (set_remote pc.id (codes "answer") sdp) c)
]

-- The case "ice-candidate". What addIceCandidate answers is not looked at, and
-- the usernameFragment is left out.
unfoldable pub on_candidate : Candidate → Client → Client
unfolding push_candidate
on_candidate candidate c =
    let candidate_init : Candidate = record candidate { username_fragment = none } in
    if text_eq candidate.candidate [] then c else elim c.pc [
      | none ↦ push_candidate candidate_init c
      | some pc ↦
          if pc.has_remote
          then act (add_candidate pc.id candidate_init) c
          else push_candidate candidate_init c
    ]

-- onicecandidate; a null candidate is an event that does nothing.
unfoldable pub on_ice_candidate : Candidate → Client → Client
unfolding send_message
on_ice_candidate candidate c = send_message (Outgoing.ice_candidate c.room candidate) c
