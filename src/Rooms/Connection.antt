-- ===== src/Rooms/Connection.antt =====
-- internal/rooms/manager.go: reconnecting with Join, and Leave of an old and of a current socket.
use gocord.Base.{
  ℕ, ◌<◌, ◌≡◌, refl, ◌⊎◌, inl, inr, ◌≢◌, true, false, ◌&&◌, [], none, some, option_or, length, ◌==◌,
  if◌then◌else◌, arith, Bool-cases, Option-cases, sym, ap, ◌∙◌, lt→leb,
}
use gocord.Base.Assoc.{
  Text, text_eq, text_eq_iff, text_eq_refl, text_eq-ne, lookup, insert, lookup-insert,
  lookup-insert_self, lookup-delete, length-insert,
}
use gocord.Rooms.State.{unauthorized, Role, Room, Manager, Reader, is_expired}
use gocord.Rooms.Membership.{
  joined, refused, granted, denied, claim_role, reclaim_role, enter, finish_join, join, is_active,
  depart, leave, is_current,
}
use gocord.Rooms.Access.{Stored, join_right, join-IsOpenTo}

is_current_of_room :
    (id client : Text) (h : ℕ) (m : Manager) (room : Room)
    → lookup id m.rooms ≡ some room
    → is_current id client h m ≡ is_active (lookup client room.peers) h
unfolding is_current
is_current_of_room id client h m room there = rw (there, is_current)

current_of_none :
    (id client : Text) (h : ℕ) (m : Manager)
    → lookup id m.rooms ≡ none
    → is_current id client h m ≢ true
unfolding is_current
current_of_none id client h m e = rw (e, is_current) (λ c. cc)

-- A socket that is not its client's current one removes nothing when it ends.
pub leave_stale :
    (id client : Text) (h now : ℕ) (m : Manager)
    → is_current id client h m ≡ false
    → ((leave id client h now m).0 ≡ m) × ((leave id client h now m).2 ≡ false)
unfolding leave is_current
leave_stale id client h now m stale = elim (Option-cases (lookup id m.rooms)) [
  | inl e ↦ rw (e, leave) (refl, refl)
  | inr (room, e) ↦
      let inactive = rw (e, is_current) at stale in rw (e, leave) (rw inactive (refl, refl))
]

is_current-put_room :
    (id id' client : Text) (g : ℕ) (m : Manager) (room : Room)
    → is_current id' client g (record m { rooms = insert id room m.rooms }) ≡ (
        if text_eq id id'
        then is_active (lookup client room.peers) g
        else is_current id' client g m)
unfolding is_current
is_current-put_room id id' client g m room = elim (Bool-cases (text_eq id id')) [
  | inl same ↦ rw (lookup-insert id id' room m.rooms, is_current) (rw same)
  | inr other ↦ rw (lookup-insert id id' room m.rooms, is_current) (rw (other, is_current))
]

leave_active :
    (id client : Text) (h now : ℕ) (m : Manager) (room : Room)
    → lookup id m.rooms ≡ some room
    → is_active (lookup client room.peers) h ≡ true
    → leave id client h now m ≡ (
      record m { rooms = insert id (depart client now room) m.rooms },
      length (depart client now room).peers,
      true,
    )
unfolding leave
leave_active id client h now m room e active = rw (e, leave) (rw active)

depart-is_active :
    (client other : Text) (g now : ℕ) (room : Room)
    → is_active (lookup other (depart client now room).peers) g
      ≡ (if text_eq client other then false else is_active (lookup other room.peers) g)
unfolding depart is_active
depart-is_active client other g now room = elim (Bool-cases (text_eq client other)) [
  | inl same ↦ rw (lookup-delete client other room.peers, same)
  | inr differ ↦ rw (lookup-delete client other room.peers, differ)
]

leave-is_current :
    (id client id' other : Text) (h g now : ℕ) (m : Manager) (room : Room)
    → lookup id m.rooms ≡ some room
    → is_active (lookup client room.peers) h ≡ true
    → is_current id' other g (leave id client h now m).0
      ≡ (if text_eq id id' && text_eq client other then false else is_current id' other g m)
leave-is_current id client id' other h g now m room e active =
    rw (leave_active id client h now m room e active) (
      is_current-put_room id id' other g m (depart client now room)
      ∙ ground (
        arith,
        depart-is_active client other g now room,
        text_eq_iff id id',
        is_current_of_room id other g m room e,
      ))

-- A current socket that ends is removed: no socket is then the current one of its client, and every
-- other client, of this room or another, keeps its current socket.
leave_current :
    (id client : Text) (h now : ℕ) (m : Manager) (id' other : Text) (g : ℕ)
    → is_current id client h m ≡ true
    → (id' ≢ id) ⊎ (other ≢ client)
    → ((leave id client h now m).2 ≡ true)
      × (is_current id client g (leave id client h now m).0 ≡ false)
      × (is_current id' other g (leave id client h now m).0 ≡ is_current id' other g m)
leave_current id client h now m id' other g current apart =
    elim (Option-cases (lookup id m.rooms)) [
      | inl e ↦ absurd (current_of_none id client h m e current)
      | inr (room, e) ↦
          let active = sym (is_current_of_room id client h m room e) ∙ current in
          (
            ap (λ r. r.2) (leave_active id client h now m room e active),
            leave-is_current id client id client h g now m room e active
                ∙ ground (arith, text_eq_refl id, text_eq_refl client),
            leave-is_current id client id' other h g now m room e active
                ∙ ground (arith, text_eq_iff id id', text_eq_iff client other),
          )
    ]

Stored-is_current :
    (id client : Text) (peer : ℕ) (m m' : Manager) (role : Role) (n : ℕ) (t : Text) (g : ℕ)
    → Stored id client peer m m' role n t
    → is_current id client g m' ≡ (peer == g)
unfolding is_active
Stored-is_current id client peer m m' role n t g s =
    rw s.stored (is_current-put_room id id client g m s.room ∙ rw (text_eq_refl id, s.connected))

-- After a client has been let in, the end of any other socket of it changes nothing, and the new
-- socket is its current one.
pub leave-join :
    (sha256 : Text → Text) (id secret client : Text) (peer : ℕ) (token : Text) (read : Reader)
    (now later : ℕ) (m m' : Manager) (role : Role) (n : ℕ) (t : Text) (older : ℕ)
    → join sha256 id secret client peer token read now m ≡ (m', joined role n t)
    → older ≢ peer
    → ((leave id client older later m').0 ≡ m') × (is_current id client peer m' ≡ true)
unfolding is_active
leave-join sha256 id secret client peer token read now later m m' role n t older e differ =
    let s = (join-IsOpenTo sha256 id secret client peer token read now m m' role n t e).1 in
    let at = λ (g : ℕ). Stored-is_current id client peer m m' role n t g s in
    ((leave_stale id client older later m' (at older ∙ ground arith)).0, at peer ∙ ground arith)

pub claim_role_again :
    (client token t : Text) (read : Reader) (room : Room) (role : Role)
    → lookup client room.roles ≡ some role
    → option_or (lookup client room.session_tokens) [] ≡ t
    → t ≢ []
    → claim_role client token read room
      ≡ (if text_eq token t then granted role room else denied (length room.peers) unauthorized)
unfolding claim_role reclaim_role
claim_role_again client token t read room role held stored nonempty =
    rw (held, claim_role) (rw stored (ground (arith, text_eq_iff t [])))

pub Stored-room :
    (id client : Text) (peer : ℕ) (m m' : Manager) (role : Role) (n : ℕ) (t : Text) (room : Room)
    (s : Stored id client peer m m' role n t)
    → lookup id m'.rooms ≡ some room
    → s.room ≡ room
Stored-room id client peer m m' role n t room s there =
    cc (
      lookup-insert_self id s.room m.rooms,
      ap (λ (q : Manager). lookup id q.rooms) s.stored,
      there,
    )

-- A client that gives the token that Join answered, and the right secret before the room expires,
-- is let in again, with the same role, the same token and the same number of participants. With
-- any other token it is refused, and nothing changes.
pub join-join :
    (sha256 : Text → Text) (id secret client : Text) (peer : ℕ) (token : Text) (read : Reader)
    (now : ℕ) (m m' : Manager) (role : Role) (n : ℕ) (t : Text) (again other : Text) (room : Room)
    (peer' : ℕ) (read' : Reader) (later : ℕ)
    → join sha256 id secret client peer token read now m ≡ (m', joined role n t)
    → t ≢ []
    → other ≢ t
    → lookup id m'.rooms ≡ some room
    → later < room.expires_at
    → sha256 again ≡ room.secret_hash
    → ((join sha256 id again client peer' t read' later m').1 ≡ joined role n t)
      × (join sha256 id again client peer' other read' later m' ≡ (m', refused n unauthorized))
unfolding finish_join enter is_expired
join-join sha256 id secret client peer token read now m m' role n t again other room peer' read'
      later e some_token differ there in_time right =
    let s = (join-IsOpenTo sha256 id secret client peer token read now m m' role n t e).1 in
    let same = Stored-room id client peer m m' role n t room s there in
    let held : lookup client room.roles ≡ some role = rw (← same) s.role_held in
    let stored : option_or (lookup client room.session_tokens) [] ≡ t = rw (← same) s.token_held in
    let connected : lookup client room.peers ≡ some peer = rw (← same) s.connected in
    let counted : length room.peers ≡ n = rw (← same) s.counted in
    let call = λ (given : Text) (g : ℕ).
      join_right sha256 id again client g given read' later m' room there
        (lt→leb room.expires_at later in_time)
        ((text_eq_iff (sha256 again) room.secret_hash).1 right)
      ∙ ap (finish_join id client g m')
          (claim_role_again client given t read' room role held stored some_token) in
    (
      ap (λ r. r.1) (call t peer')
          ∙ rw (text_eq_refl t, finish_join)
              (rw (stored, length-insert client peer' room.peers, connected, counted)),
      call other peer' ∙ rw (text_eq-ne other t differ, finish_join) (rw counted),
    )
