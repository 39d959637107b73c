-- ===== src/Rooms/Access.antt =====
-- internal/rooms/manager.go: who Join lets in, what it answers, and what Leave removes.
use gocord.Base.{
  ℕ, ◌<◌, ◌≡◌, refl, ◌⊎◌, inl, inr, ◌≢◌, true, false, [], none, some, option_or, length, ◌==◌,
  if◌then◌else◌, arith, Bool-cases, Option-cases, sym, ap, ◌∙◌, lt→leb,
}
use gocord.Base.Assoc.{Text, text_eq, text_eq_iff, lookup, insert, delete, lookup-insert_self}
use gocord.Rooms.State.{
  room_not_found, unauthorized, room_expired, Role, caller, callee, Room, Manager, Reader,
  random_token, is_expired,
}
use gocord.Rooms.Seats.{add_client, assign_role-granted, reclaim_role-granted}
use gocord.Rooms.Membership.{
  joined, refused, Claim, granted, denied, claim_role, reclaim_role, assign_role, enter,
  finish_join, join,
}

-- What a client has shown that Join lets in: it is new and a role is free, or it holds the role
-- and gave the session token of that role, which is not empty.
abbrev pub MayEnter : Text → Text → Room → Type 0
MayEnter client token room =
    ((lookup client room.roles ≡ none) × (length room.roles < 2))
    ⊎ ((r : Role) × (lookup client room.roles ≡ some r)
        × (option_or (lookup client room.session_tokens) [] ≡ token)
        × (token ≢ []))

-- How Join leaves a room that it has let a client into.
pub record Entered (client : Text) (peer : ℕ) (role : Role) (n : ℕ) (token : Text) (room' : Room)
    : Type 0 where
  pub connected : lookup client room'.peers ≡ some peer
  pub role_held : lookup client room'.roles ≡ some role
  pub token_held : option_or (lookup client room'.session_tokens) [] ≡ token
  pub counted : length room'.peers ≡ n
  pub not_empty : room'.empty_since ≡ none

reclaim_role-token :
    (r role : Role) (client token : Text) (room room' : Room)
    → reclaim_role r client token room ≡ granted role room'
    → (option_or (lookup client room.session_tokens) [] ≡ token) × (token ≢ [])
unfolding reclaim_role
reclaim_role-token r role client token room room' e = ground (
  arith,
  text_eq_iff (option_or (lookup client room.session_tokens) []) [],
  text_eq_iff token (option_or (lookup client room.session_tokens) []),
)

claim_role-MayEnter :
    (client token : Text) (read : Reader) (room room' : Room) (role : Role)
    → claim_role client token read room ≡ granted role room'
    → MayEnter client token room × (lookup client room'.roles ≡ some role)
unfolding claim_role
claim_role-MayEnter client token read room room' role e =
    elim (Option-cases (lookup client room.roles)) [
      | inl new ↦
          let (t, _, below, same, named) =
            assign_role-granted client read room room' role (rw (new, claim_role) at e) in
          (
            inl (new, ground arith),
            rw same (rw (lookup-insert_self client _ room.roles) (ap some (sym named))),
          )
      | inr (r, old) ↦
          let granted' = rw (old, claim_role) at e in
          let (named, same) = reclaim_role-granted r role client token room room' granted' in
          (
            inr (
              r,
              old,
              (reclaim_role-token r role client token room room' granted').0,
              (reclaim_role-token r role client token room room' granted').1,
            ),
            rw (← same, ← named) old,
          )
    ]

-- With the random number generator working, whoever may enter is granted a role.
claim_role-total :
    (client token fresh : Text) (read : Reader) (room : Room)
    → random_token 18 read ≡ some fresh
    → MayEnter client token room
    → (role : Role) × (room' : Room) × (claim_role client token read room ≡ granted role room')
unfolding claim_role reclaim_role assign_role
claim_role-total client token fresh read room drawn (inl (new, below)) = (
  (if length room.roles == 0 then caller else callee),
  add_client client fresh room,
  rw (new, claim_role) (rw (lt→leb 2 (length room.roles) below, drawn)),
)
claim_role-total client token fresh read room drawn (inr (r, old, given, nonempty)) = (
  r,
  room,
  rw (old, claim_role)
      (ground (
        arith,
        text_eq_iff (option_or (lookup client room.session_tokens) []) [],
        text_eq_iff token (option_or (lookup client room.session_tokens) []),
      )),
)

-- The four ways of a call of Join.
module _ (sha256 : Text → Text) (id secret client : Text) (peer : ℕ) (token : Text) (read : Reader)
    (now : ℕ) (m : Manager) where
  pub join_missing :
      lookup id m.rooms ≡ none
      → join sha256 id secret client peer token read now m ≡ (m, refused 0 room_not_found)
  unfolding join
  join_missing e = rw (e, join)

  pub join_late :
      (room : Room)
      → lookup id m.rooms ≡ some room
      → is_expired now room ≡ true
      → join sha256 id secret client peer token read now m
        ≡ (record m { rooms = delete id m.rooms }, refused 0 room_expired)
  unfolding join
  join_late room e late = rw (e, join) (rw late)

  pub join_wrong :
      (room : Room)
      → lookup id m.rooms ≡ some room
      → is_expired now room ≡ false
      → text_eq (sha256 secret) room.secret_hash ≡ false
      → join sha256 id secret client peer token read now m ≡ (m, refused 0 unauthorized)
  unfolding join
  join_wrong room e open' wrong = rw (e, join) (rw (open', wrong))

  pub join_right :
      (room : Room)
      → lookup id m.rooms ≡ some room
      → is_expired now room ≡ false
      → text_eq (sha256 secret) room.secret_hash ≡ true
      → join sha256 id secret client peer token read now m
        ≡ finish_join id client peer m (claim_role client token read room)
  unfolding join
  join_right room e open' right = rw (e, join) (rw (open', right))

-- How Join leaves the manager when it has let a client in, and what it answers.
pub record Stored (id client : Text) (peer : ℕ) (m : Manager) (m' : Manager) (role : Role) (n : ℕ)
    (t : Text) : Type 0 where
  pub room : Room
  pub stored : m' ≡ record m { rooms = insert id room m.rooms }
  pub connected : lookup client room.peers ≡ some peer
  pub role_held : lookup client room.roles ≡ some role
  pub token_held : option_or (lookup client room.session_tokens) [] ≡ t
  pub counted : length room.peers ≡ n
  pub not_empty : room.empty_since ≡ none

finish_join-Stored :
    (id client : Text) (peer : ℕ) (m m' : Manager) (token : Text) (read : Reader) (room : Room)
    (c : Claim) (role : Role) (n : ℕ) (t : Text)
    → claim_role client token read room ≡ c
    → finish_join id client peer m c ≡ (m', joined role n t)
    → MayEnter client token room × Stored id client peer m m' role n t
unfolding finish_join enter
finish_join-Stored id client peer m m' token read room (denied k er) role n t claim e = absurd (cc)
finish_join-Stored id client peer m m' token read room (granted r room') role n t claim e =
    let (may, holds) = claim_role-MayEnter client token read room room' r claim in
    (
      may,
      record {
        room = enter client peer room';
        stored = ground arith;
        connected = lookup-insert_self client peer room'.peers;
        role_held = holds ∙ ground arith;
        token_held = ground arith;
        counted = ground arith;
        not_empty = refl;
      },
    )

-- The room that lets a client in: it is there and open, the secret is right, and the client may
-- enter.
pub record IsOpenTo (sha256 : Text → Text) (id secret client token : Text) (now : ℕ) (m : Manager)
    : Type 0 where
  pub room : Room
  pub there : lookup id m.rooms ≡ some room
  pub in_time : now < room.expires_at
  pub secret_right : sha256 secret ≡ room.secret_hash
  pub may_enter : MayEnter client token room

module _ (sha256 : Text → Text) (id secret client : Text) (peer : ℕ) (token : Text) (read : Reader)
    (now : ℕ) (m : Manager) where
  -- When Join lets a client in, the room is there and has not expired, the secret hashes to its
  -- hash, and the client is new with a role free, or gave the non-empty token of its role; the
  -- client is then connected by the new peer, the room is not marked as empty, and the reply is the
  -- client's role, the number connected and the client's token.
  pub join-IsOpenTo :
      (m' : Manager) (role : Role) (n : ℕ) (t : Text)
      → join sha256 id secret client peer token read now m ≡ (m', joined role n t)
      → IsOpenTo sha256 id secret client token now m × Stored id client peer m m' role n t
  unfolding is_expired
  join-IsOpenTo m' role n t e = elim (Option-cases (lookup id m.rooms)) [
    | inl missing ↦
        absurd (cc (join_missing sha256 id secret client peer token read now m missing, e))
    | inr (room, there) ↦ elim (Bool-cases (is_expired now room)) [
      | inl late ↦
          absurd (cc (join_late sha256 id secret client peer token read now m room there late, e))
      | inr open' ↦ elim (Bool-cases (text_eq (sha256 secret) room.secret_hash)) [
        | inr wrong ↦ absurd (
            cc (join_wrong sha256 id secret client peer token read now m room there open' wrong, e))
        | inl right ↦
            let (may, stored) =
              finish_join-Stored id client peer m m' token read room
                (claim_role client token read room) role n t refl
                (sym (
                    join_right sha256 id secret client peer token read now m room there open' right)
                  ∙ e) in
            (
              record {
                room = room;
                there = there;
                in_time = ground arith;
                secret_right = (text_eq_iff (sha256 secret) room.secret_hash).0 right;
                may_enter = may;
              },
              stored,
            )
      ]
    ]
  ]

  -- Conversely, while crypto/rand works, Join lets in everybody to whom the room is open.
  pub join_total :
      (fresh : Text)
      → random_token 18 read ≡ some fresh
      → IsOpenTo sha256 id secret client token now m
      → (m' : Manager) × (role : Role) × (n : ℕ) × (t : Text) × (join sha256 id secret client peer
            token read now m
          ≡ (m', joined role n t))
  unfolding finish_join is_expired
  join_total fresh drawn o =
      let (role, room', claim) =
        claim_role-total client token fresh read o.room drawn o.may_enter in
      (
        _,
        role,
        _,
        _,
        join_right sha256 id secret client peer token read now m o.room o.there
              (lt→leb o.room.expires_at now o.in_time)
              ((text_eq_iff (sha256 secret) o.room.secret_hash).1 o.secret_right)
            ∙ ap (finish_join id client peer m) claim,
      )
