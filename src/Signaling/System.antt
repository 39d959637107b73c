-- ===== src/Signaling/System.antt =====
-- The signaling server as a whole: any interleaving of the steps of its connections, of the
-- goroutines that hangups start, of room creation and of the sweep in cmd/server/main.go.
use gocord.Base.{ℕ, ◌≤◌, ◌≡◌, Option, some, length}
use gocord.Base.Int.{ℤ}
use gocord.Base.Assoc.{Text, lookup, AllValues-lookup}
use gocord.Rooms.Peer.{Payload, Peer, update, receive}
use gocord.Rooms.State.{Room, Reader, new_manager}
use gocord.Rooms.Lifecycle.{create, cleanup}
use gocord.Rooms.History.{create-IsValid}
use gocord.Rooms.Invariant.{ManagerIsValid, new_manager-IsValid}
use gocord.Rooms.Seats.{participants-le_two}
use gocord.Signaling.Candidate.{Raw}
use gocord.Signaling.Codec.{Codec}
use gocord.Signaling.Handler.{Server, Session, serve_first, serve_message, serve_close, run_pending}
use gocord.Signaling.Handles.{PeersFit}
use gocord.Signaling.Quiet.{WorldIsValid}
use gocord.Signaling.Upkeep.{cleanup-WorldIsValid, create-HandlesFit}
use gocord.Signaling.Served.{
  serve_first-WorldIsValid, serve_message-WorldIsValid, serve_close-WorldIsValid,
  run_pending-WorldIsValid,
}

module _ (sha256 : Text → Text) (c : Codec) where
  -- One step of the server. The environment chooses the texts that arrive, the order of the steps
  -- and of the timers of hangups, the clock's answers and those of crypto/rand. `writes` is writePump taking a payload.
  pub data Step : Server → Server → Type 0 where
    creates :
        (v : Server) (read_id read_secret : Reader) (now : ℕ)
        → Step v (
            let (m, heap, _) = create sha256 read_id read_secret now v.world.manager v.world.heap in
            record v { world = record { manager = m; heap = heap } })
    opens :
        (v : Server) (raw : Option Raw) (read : Reader) (now : ℕ)
        → Step v (record v { world = (serve_first sha256 c raw read now v.world).0 })
    hears : (v : Server) (s : Session) (raw : Raw) → Step v (serve_message sha256 c s raw v).0
    closes : (v : Server) (s : Session) (now : ℕ) → Step v (serve_close sha256 c s now v)
    fires : (v : Server) (n : ℕ) → Step v (run_pending sha256 c n v)
    sweeps :
        (v : Server) (now : ℕ)
        → Step v (
            let (m, heap, _) = cleanup now v.world.manager v.world.heap in
            record v { world = record { manager = m; heap = heap } })
    writes :
        (v : Server) (h : ℕ) (payload : Payload) (p : Peer)
        → receive (v.world.heap.cell h) ≡ some (payload, p)
        → Step v (record v { world = record v.world { heap = update h (λ _. p) v.world.heap } })

  pub data Reach (v : Server) : Server → Type 0 where
    here : Reach v v
    next : {u w : Server} → Reach v u → Step u w → Reach v w

  Step-WorldIsValid : {u v : Server} → Step u v → WorldIsValid u.world → WorldIsValid v.world
  unfolding update
  Step-WorldIsValid (creates v read_id read_secret now) ok = record {
    manager = create-IsValid sha256 read_id read_secret now v.world.manager v.world.heap ok.manager;
    handles =
        create-HandlesFit sha256 read_id read_secret now v.world.manager v.world.heap ok.handles;
  }
  Step-WorldIsValid (opens v raw read now) ok =
      serve_first-WorldIsValid sha256 c raw read now v.world ok
  Step-WorldIsValid (hears v s raw) ok = serve_message-WorldIsValid sha256 c s raw v ok
  Step-WorldIsValid (closes v s now) ok = serve_close-WorldIsValid sha256 c s now v ok
  Step-WorldIsValid (fires v n) ok = run_pending-WorldIsValid sha256 c n v ok
  Step-WorldIsValid (sweeps v now) ok = cleanup-WorldIsValid now v.world ok
  Step-WorldIsValid (writes v h payload p e) ok = record {
    manager = ok.manager;
    handles = ok.handles;
  }

  Reach-WorldIsValid : {u v : Server} → WorldIsValid u.world → Reach u v → WorldIsValid v.world
  Reach-WorldIsValid ok here = ok
  Reach-WorldIsValid ok (next r st) = Step-WorldIsValid st (Reach-WorldIsValid ok r)

  -- In every state that the server reaches from a fresh room manager, whatever arrives and in
  -- whatever order the connections, timers and sweeps step: a room has at most two connected
  -- clients, they are different connections, with handles that have been given out, and the rest
  -- of the room manager is well formed too.
  pub Reach-two_connections :
      (u v : Server) (ttl grace : ℕ) (bound : ℤ) (id : Text) (room : Room)
      → u.world.manager ≡ new_manager ttl grace bound
      → Reach u v
      → lookup id v.world.manager.rooms ≡ some room
      → (length room.peers ≤ 2)
        × PeersFit v.world.heap.next room.peers
        × ManagerIsValid v.world.manager
  unfolding new_manager
  Reach-two_connections u v ttl grace bound id room fresh r there =
      let ok =
        Reach-WorldIsValid
          (record {
            manager = rw fresh (new_manager-IsValid ttl grace bound);
            handles = rw fresh tt;
          })
          r in
      (
        participants-le_two room (AllValues-lookup _ id room _ ok.manager.valid there),
        AllValues-lookup (λ (q : Room). PeersFit v.world.heap.next q.peers) id room _ ok.handles
            there,
        ok.manager,
      )
