-- ===== src/Web/Tests.antt =====
-- Runs of the client of web/ui.go at concrete inputs, and the theorems at inputs that meet their
-- hypotheses.
use gocord.Base.{◌*◌, ◌≤◌, ◌≡◌, refl, true, false, List, [], ◌∷◌, none, is_some, arith, min}
use gocord.Base.Assoc.{codes, text_eq, lookup, insert}
use gocord.Web.State.{
  Client, new_client, open_socket, close_socket, send, open_connection, create_offer, set_local,
  Outgoing, join, resolved,
}
use gocord.Web.Backoff.{Fraction, delay, backoff, delay_bounds}
use gocord.Web.Opus.{enhance_opus_sdp}
use gocord.Web.Call.{hangup}
use gocord.Web.Signals.{joined, peer_ready, peer_hangup}
use gocord.Web.Events.{
  Event, starts, moves, opens, receives, closes, reconnect_fires, resumes, step, run,
}
use gocord.Web.Orderly.{run-over}
use gocord.Web.HungUp.{run-hangup}
use gocord.Web.Callee.{offers_in}
use gocord.Web.Offerer.{run-callee}

web_run : Unit {0}
unfolding run step text_eq lookup insert hangup enhance_opus_sdp
web_run = tt

abbrev pub half : Fraction
half = record { top = 1; bottom = 2 }

-- A call is started and joined as the caller; the answers of the promises carry no description.
abbrev first_events : List Event
first_events =
    moves (codes "r") (codes "s")
    ∷ starts
    ∷ resumes 0 (resolved [])
    ∷ resumes 0 (resolved [])
    ∷ opens
    ∷ receives (joined (codes "caller") (codes "t") 1)
    ∷ []

abbrev pub in_call : Client
in_call = run first_events (new_client (codes "a"))

in_call-log :
    in_call.log
    ≡ send 0 (join (codes "r") (codes "s") (codes "a") [])
      ∷ open_socket 0 (codes "r") (codes "a")
      ∷ open_connection 0
      ∷ []
unfolding web_run
in_call-log = refl

-- The peer arrives, and the caller offers.
offer_test :
    (run
      (receives peer_ready ∷ resumes 0 (resolved (codes "v")) ∷ resumes 0 (resolved []) ∷ [])
      in_call).log
    ≡ send 0 (Outgoing.offer (codes "r") (codes "v"))
      ∷ set_local 0 (codes "offer") (codes "v")
      ∷ create_offer 0 false
      ∷ in_call.log
unfolding web_run
offer_test = refl

reconnect_test :
    (run (closes half ∷ closes half ∷ reconnect_fires ∷ reconnect_fires ∷ []) in_call).log
    ≡ open_socket 1 (codes "r") (codes "a") ∷ close_socket 0 ∷ in_call.log
unfolding web_run
reconnect_test = refl

run-over_example :
    let c' =
      run (closes half ∷ reconnect_fires ∷ starts ∷ []) (step (receives peer_hangup) in_call) in
    ((c'.terminal ≡ true) × (c'.next_socket ≡ in_call.next_socket) × (c'.reconnect_timer ≡ none))
    × (in_call.started ≡ true)
    × (is_some in_call.reconnect_timer ≡ true
        → (in_call.started ≡ true) × (in_call.terminal ≡ false))
unfolding web_run
run-over_example =
    run-over (codes "a") first_events (closes half ∷ reconnect_fires ∷ starts ∷ []) peer_hangup tt
      refl

run-hangup_example :
    let c = hangup true in_call in
    (c.ws ≡ none)
    × (c.pc ≡ none)
    × (c.reconnect_timer ≡ none)
    × ((run (closes half ∷ receives peer_ready ∷ starts ∷ []) c).log ≡ c.log)
unfolding web_run
run-hangup_example =
    run-hangup (codes "a") first_events (closes half ∷ receives peer_ready ∷ starts ∷ []) true refl

abbrev callee_events : List Event
callee_events =
    starts
    ∷ resumes 0 (resolved [])
    ∷ resumes 0 (resolved [])
    ∷ opens
    ∷ receives (joined (codes "callee") (codes "t") 2)
    ∷ receives peer_ready
    ∷ []

run-callee_example : offers_in (run callee_events (new_client (codes "b"))).log ≡ 0
run-callee_example = run-callee (codes "b") callee_events (tt, (tt, (tt, (tt, (refl, (tt, tt))))))

delay_bounds_example :
    (500 ≤ delay half 3)
    × (delay half 3 ≤ 15000)
    × (backoff 3 ≤ 2 * delay half 3)
    × (delay half 3 ≤ backoff 3)
    × (backoff 4 ≡ min 15000 (2 * backoff 3))
delay_bounds_example = delay_bounds half 3 (omega arith)
