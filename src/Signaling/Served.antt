-- ===== src/Signaling/Served.antt =====
-- The WebSocket handler of internal/signaling on a well-formed state: the first message of a
-- connection, each later one, its close, and the goroutine that a hangup starts.
use gocord.Base.{
  get_elem?, ℕ, inl, inr, ◌&&◌, [], ◌==◌, ltb, Option, none, some, Bool-cases, Option-cases,
}
use gocord.Base.Assoc.{Text, text_eq, codes}
use gocord.Rooms.Peer.{allocate, new_peer}
use gocord.Rooms.State.{Reader}
use gocord.Rooms.Membership.{JoinReply, joined, refused, join, leave, is_current}
use gocord.Rooms.History.{World, join-IsValid}
use gocord.Rooms.Invariant.{leave-IsValid}
use gocord.Signaling.Candidate.{Raw, JoinPayload}
use gocord.Signaling.Codec.{Codec}
use gocord.Signaling.Handler.{
  Server, Session, send_buffer_size, send, send_error, enter_room, joined_message, greet,
  serve_first, serve_message, serve_close, run_pending, plain, is_bad_first, is_bad_join,
}
use gocord.Signaling.Handles.{join-HandlesFit, leave-HandlesFit}
use gocord.Signaling.Quiet.{
  WorldIsValid, IsQuiet, IsQuiet-WorldIsValid, send-IsQuiet, broadcast_message-IsQuiet,
  relay-IsQuiet,
}
use gocord.Signaling.Upkeep.{delete_room-WorldIsValid}

module _ (sha256 : Text → Text) (c : Codec) where
  greet-WorldIsValid :
      (room client : Text) (peer : ℕ) (w : World) (reply : JoinReply)
      → WorldIsValid w
      → WorldIsValid (greet sha256 c room client peer w reply).0
  unfolding greet
  greet-WorldIsValid room client peer w (refused n er) v = v
  greet-WorldIsValid room client peer w (joined role participants token) v =
      let hello = joined_message sha256 c room role participants token in
      let w' = (send sha256 c peer hello w).0 in
      let ok = IsQuiet-WorldIsValid w w' (send-IsQuiet sha256 c peer hello w) v in
      elim (Bool-cases (participants == 2)) [
        | inl both ↦ rw both (
            IsQuiet-WorldIsValid w' _
              (broadcast_message-IsQuiet sha256 c room [] (plain (codes "peer-ready") room) w') ok)
        | inr alone ↦ rw alone ok
      ]

  enter_room-WorldIsValid :
      (room : Text) (j : JoinPayload) (read : Reader) (now : ℕ) (w : World)
      → WorldIsValid w
      → WorldIsValid (enter_room sha256 c room j read now w).0
  unfolding enter_room allocate
  enter_room-WorldIsValid room j read now w v =
      let peer = w.heap.next in
      let joined' = join sha256 room j.secret j.client_id peer j.session_token read now w.manager in
      let heap = (allocate (new_peer j.client_id send_buffer_size) w.heap).0 in
      greet-WorldIsValid room j.client_id peer (record { manager = joined'.0; heap = heap })
        joined'.1
        (record {
          manager =
              join-IsValid sha256 room j.secret j.client_id w.heap.next j.session_token read now
                w.manager v.manager;
          handles =
              join-HandlesFit sha256 room j.secret j.client_id j.session_token read now w.heap.next
                w.manager v.handles;
        })

  pub serve_first-WorldIsValid :
      (raw : Option Raw) (read : Reader) (now : ℕ) (w : World)
      → WorldIsValid w
      → WorldIsValid (serve_first sha256 c raw read now w).0
  unfolding serve_first
  serve_first-WorldIsValid none read now w v = v
  serve_first-WorldIsValid (some raw) read now w v = elim (Option-cases (c.unmarshal_message raw)) [
    | inl e ↦ rw (e, serve_first) v
    | inr (first, e) ↦ elim (Bool-cases (is_bad_first first)) [
      | inl bad ↦ rw (e, serve_first) (rw bad v)
      | inr good ↦ elim (Option-cases (c.unmarshal_join first.payload)) [
        | inl e' ↦ rw (e, serve_first) (rw good (rw e' v))
        | inr (j, e') ↦ elim (Bool-cases (is_bad_join j)) [
          | inl bad ↦ rw (e, serve_first) (rw good (rw e' (rw bad v)))
          | inr fine ↦
              rw (e, serve_first)
                (rw good (rw e' (rw fine (enter_room-WorldIsValid first.room j read now w v))))
        ]
      ]
    ]
  ]

  pub serve_message-WorldIsValid :
      (s : Session) (raw : Raw) (v : Server)
      → WorldIsValid v.world
      → WorldIsValid (serve_message sha256 c s raw v).0.world
  unfolding serve_message send_error
  serve_message-WorldIsValid s raw v ok =
      elim (Bool-cases (is_current s.room s.client s.peer v.world.manager)) [
        | inr stale ↦ rw stale ok
        | inl current ↦ elim (Option-cases (c.unmarshal_message raw)) [
          | inl e ↦ rw current (rw (e, serve_message) (quiet (send-IsQuiet sha256 c s.peer _ _)))
          | inr (msg, e) ↦ elim (Bool-cases (text_eq msg.type (codes "ping"))) [
            | inl ping ↦
                rw current
                  (rw (e, serve_message) (rw ping (quiet (send-IsQuiet sha256 c s.peer _ _))))
            | inr not_ping ↦ elim (Bool-cases (text_eq msg.type (codes "hangup"))) [
              | inl hangup ↦ rw current (
                  rw (e, serve_message)
                    (rw (not_ping, hangup)
                      (quiet (broadcast_message-IsQuiet sha256 c s.room s.client _ _))))
              | inr other ↦ rw current (
                  rw (e, serve_message)
                    (rw (not_ping, other) (quiet (relay-IsQuiet sha256 c s _ _))))
            ]
          ]
        ]
      ]
    where
      quiet : {w : World} → IsQuiet v.world w → WorldIsValid w
      quiet {w} q = IsQuiet-WorldIsValid v.world w q ok

  pub serve_close-WorldIsValid :
      (s : Session) (now : ℕ) (v : Server)
      → WorldIsValid v.world
      → WorldIsValid (serve_close sha256 c s now v).world
  unfolding serve_close
  serve_close-WorldIsValid s now v ok =
      elim (Bool-cases (
        (leave s.room s.client s.peer now v.world.manager).2
        && ltb 0 (leave s.room s.client s.peer now v.world.manager).1)) [
          | inl others ↦ rw others (
              IsQuiet-WorldIsValid left _
                (broadcast_message-IsQuiet sha256 c s.room s.client _ left) left-WorldIsValid)
          | inr nobody ↦ rw nobody left-WorldIsValid
        ]
    where
      left : World
      left = record v.world { manager = (leave s.room s.client s.peer now v.world.manager).0 }

      left-WorldIsValid : WorldIsValid left
      left-WorldIsValid = record {
        manager = leave-IsValid v.world.manager s.room s.client s.peer now ok.manager;
        handles =
            leave-HandlesFit s.room s.client s.peer now v.world.heap.next v.world.manager
              ok.handles;
      }

  pub run_pending-WorldIsValid :
      (n : ℕ) (v : Server) → WorldIsValid v.world → WorldIsValid (run_pending sha256 c n v).world
  unfolding run_pending
  run_pending-WorldIsValid n v ok = elim (Option-cases (get_elem? v.pending n)) [
    | inl gone ↦ rw (gone, run_pending) ok
    | inr (room, there) ↦ rw (there, run_pending) (delete_room-WorldIsValid room v.world ok)
  ]
