-- ===== src/Rooms/Returning.antt =====
-- internal/rooms/manager.go: a client that comes back after a while.
use gocord.Base.{ℕ, ◌<◌, ◌≡◌, ◌≢◌, refl, sym, ap, ◌∙◌, subst, [], List, some, length, All, lt→leb}
use gocord.Base.Assoc.{Text, text_eq_refl, text_eq_iff, lookup, insert}
use gocord.Rooms.State.{Room, Role, Manager, Reader, is_expired}
use gocord.Rooms.Membership.{JoinReply, joined, finish_join, join, enter}
use gocord.Rooms.Invariant.{ManagerIsValid}
use gocord.Rooms.Access.{join-IsOpenTo, join_right}
use gocord.Rooms.Connection.{Stored-room, claim_role_again}
use gocord.Rooms.Kept.{Holds, DrawsOther, Kept-lookup, Kept-Distinct}
use gocord.Rooms.Keeping.{run-Kept}
use gocord.Rooms.History.{World, Call, run, join-IsValid}

-- A client to which a room is open with its token is let in with the role that it holds.
join-Holds :
    (sha256 : Text → Text) (id secret client : Text) (peer : ℕ) (t : Text) (read : Reader) (now : ℕ)
    (m : Manager) (role : Role) (room : Room)
    → lookup id m.rooms ≡ some room
    → Holds client role t (sha256 secret) room.expires_at room
    → t ≢ []
    → now < room.expires_at
    → (n : ℕ) × ((join sha256 id secret client peer t read now m).1 ≡ joined role n t)
unfolding finish_join enter is_expired
join-Holds sha256 id secret client peer t read now m role room there h some_token in_time = (
  length (insert client peer room.peers),
  ap (λ r. r.1)
        (join_right sha256 id secret client peer t read now m room there
            (lt→leb room.expires_at now in_time)
            ((text_eq_iff (sha256 secret) room.secret_hash).1 (sym h.same_hash))
          ∙ ap (finish_join id client peer m)
              (claim_role_again client t t read room role h.role_held h.token_held some_token))
      ∙ rw (text_eq_refl t, finish_join) (rw h.token_held refl),
)

-- A client that Join has let in, by a valid manager, holds its role for as long as the room is
-- there: whatever calls of the manager follow, its own Leave among them, if no Create draws the
-- room's name, Join gives it that role and token again before the room expires.
pub join-run :
    (sha256 : Text → Text) (id secret client : Text) (peer : ℕ) (token : Text) (read : Reader)
    (now : ℕ) (m m' : Manager) (role : Role) (n : ℕ) (t : Text) (room : Room) (w : World)
    (calls : List Call) (room' : Room) (peer' : ℕ) (read' : Reader) (later : ℕ)
    → join sha256 id secret client peer token read now m ≡ (m', joined role n t)
    → ManagerIsValid m
    → t ≢ []
    → lookup id m'.rooms ≡ some room
    → sha256 secret ≡ room.secret_hash
    → later < room.expires_at
    → w.manager ≡ m'
    → All (DrawsOther id) calls
    → lookup id (run sha256 w calls).manager.rooms ≡ some room'
    → (n' : ℕ) × ((join sha256 id secret client peer' t read' later (run sha256 w calls).manager).1
        ≡ joined role n' t)
join-run sha256 id secret client peer token read now m m' role n t room w calls room' peer' read'
      later e valid some_token there right in_time at_first differ still =
    let s = (join-IsOpenTo sha256 id secret client peer token read now m m' role n t e).1 in
    let same = Stored-room id client peer m m' role n t room s there in
    let h : Holds client role t (sha256 secret) room.expires_at room = record {
      role_held = rw (← same) s.role_held;
      token_held = rw (← same) s.token_held;
      same_hash = sym right;
      same_expiry = refl;
    } in
    let valid' : ManagerIsValid m' =
      subst (λ (r : Manager × JoinReply). ManagerIsValid r.0) e
        (join-IsValid sha256 id secret client peer token read now m valid) in
    let kept = run-Kept id client role t (sha256 secret) room.expires_at sha256 w calls differ (
      rw at_first (
        Kept-Distinct id client role t (sha256 secret) room.expires_at m'.rooms room valid'.distinct
          there h)) in
    let h' = Kept-lookup id client role t (sha256 secret) room.expires_at _ room' kept still in
    join-Holds sha256 id secret client peer' t read' later (run sha256 w calls).manager role room'
      still
      (record {
        role_held = h'.role_held;
        token_held = h'.token_held;
        same_hash = h'.same_hash;
        same_expiry = refl;
      })
      some_token (rw h'.same_expiry in_time)
