-- ===== src/Rooms/Seats.antt =====
-- internal/rooms/manager.go: the maps of a room. At most two clients hold a role, the first as the
-- caller and the second as the callee; everybody who is connected holds one, with a token.
use gocord.Base.{
  ℕ, ◌≤◌, ◌≡◌, refl, inl, inr, true, false, List, [], ◌∷◌, none, some, is_some, length, leb, ◌==◌,
  if◌then◌else◌, arith, Bool-cases, Option-cases, ◌≢◌, ap, sym, subst,
}
use gocord.Base.Assoc.{Text, text_eq, text_eq_iff, lookup, insert, delete, lookup-insert_self}
use gocord.Base.Keys.{
  Distinct, Distinct-insert, Distinct-delete, KnownIn, KnownIn-insert_left, KnownIn-insert_right,
  KnownIn-delete_left, length-KnownIn,
}
use gocord.Rooms.State.{Role, caller, callee, Room, Reader, random_token}
use gocord.Rooms.Lifecycle.{new_room}
use gocord.Rooms.Membership.{granted, claim_role, reclaim_role, assign_role, enter, depart}

-- The roles in the order in which they were given.
abbrev pub Seated : List (Text × Role) → Type 0
Seated [] = Unit
Seated ((a, r) ∷ []) = r ≡ caller
Seated ((a, r) ∷ (b, s) ∷ []) = (r ≡ caller) × (s ≡ callee) × (text_eq a b ≡ false)
Seated (_ ∷ _ ∷ _ ∷ _) = ⊥

pub record RoomIsValid (r : Room) : Type 0 where
  pub seated : Seated r.roles
  pub known : KnownIn r.peers r.roles
  pub tokens : KnownIn r.roles r.session_tokens
  pub distinct : Distinct r.peers
  pub idle : is_some r.empty_since ≡ true → r.peers ≡ []

length-Seated : (rs : List (Text × Role)) → Seated rs → length rs ≤ 2
length-Seated [] s = omega arith
length-Seated (a ∷ []) s = omega arith
length-Seated (a ∷ b ∷ []) s = omega arith
length-Seated (a ∷ b ∷ c ∷ rs) s = elim s [ ]

-- At most two clients are connected at once.
pub participants-le_two : (r : Room) → RoomIsValid r → length r.peers ≤ 2
participants-le_two r v =
    omega (arith, length-KnownIn r.peers r.roles v.distinct v.known, length-Seated r.roles v.seated)

pub roles-le_two : (r : Room) → RoomIsValid r → length r.roles ≤ 2
roles-le_two r v = length-Seated r.roles v.seated

-- Two clients of one room never hold the same role.
pub roles_differ :
    (rs : List (Text × Role)) (a b : Text) (r s : Role)
    → Seated rs
    → lookup a rs ≡ some r
    → lookup b rs ≡ some s
    → a ≢ b
    → r ≢ s
unfolding lookup
roles_differ [] a b r s h e f n = cc
roles_differ ((c, x) ∷ []) a b r s h e f n =
    λ same. n (ground (arith, text_eq_iff c a, text_eq_iff c b))
roles_differ ((c, x) ∷ (d, y) ∷ []) a b r s h e f n =
    λ same. n (ground (arith, text_eq_iff c a, text_eq_iff c b, text_eq_iff d a, text_eq_iff d b))
roles_differ (_ ∷ _ ∷ _ ∷ _) a b r s h e f n = elim h [ ]

pub new_room-IsValid :
    (sha256 : Text → Text) (now ttl : ℕ) (id secret : Text)
    → RoomIsValid (new_room sha256 now ttl id secret)
unfolding new_room
new_room-IsValid sha256 now ttl id secret = record {
  seated = tt;
  known = tt;
  tokens = tt;
  distinct = tt;
  idle = λ e. refl;
}

Seated-insert :
    (rs : List (Text × Role)) (c : Text)
    → Seated rs
    → lookup c rs ≡ none
    → leb 2 (length rs) ≡ false
    → Seated (insert c (if length rs == 0 then caller else callee) rs)
unfolding lookup insert
Seated-insert [] c s e h = refl
Seated-insert ((a, r) ∷ []) c s e h = ground arith
Seated-insert ((a, r) ∷ (b, q) ∷ rs) c s e h = absurd (ground arith)

pub reclaim_role-granted :
    (r role : Role) (client token : Text) (room room' : Room)
    → reclaim_role r client token room ≡ granted role room'
    → (r ≡ role) × (room ≡ room')
unfolding reclaim_role
reclaim_role-granted r role client token room room' e = ground arith

abbrev pub add_client : Text → Text → Room → Room
add_client client token room = record room {
  roles = insert client (if length room.roles == 0 then caller else callee) room.roles;
  session_tokens = insert client token room.session_tokens;
}

add_client-IsValid :
    (client token : Text) (room : Room)
    → RoomIsValid room
    → lookup client room.roles ≡ none
    → leb 2 (length room.roles) ≡ false
    → RoomIsValid (add_client client token room)
add_client-IsValid client token room v new below = record {
  seated = Seated-insert room.roles client v.seated new below;
  known = KnownIn-insert_right client _ room.peers room.roles v.known;
  tokens =
      KnownIn-insert_left client _ room.roles _
        (rw (lookup-insert_self client token room.session_tokens))
        (KnownIn-insert_right client token room.roles room.session_tokens v.tokens);
  distinct = v.distinct;
  idle = v.idle;
}

pub assign_role-granted :
    (client : Text) (read : Reader) (room room' : Room) (role : Role)
    → assign_role client read room ≡ granted role room'
    → (token : Text) × (random_token 18 read ≡ some token)
      × (leb 2 (length room.roles) ≡ false)
      × (room' ≡ add_client client token room)
      × (role ≡ (if length room.roles == 0 then caller else callee))
unfolding assign_role
assign_role-granted client read room room' role e = elim (Option-cases (random_token 18 read)) [
  | inl failed ↦ absurd (ground arith)
  | inr (token, drawn) ↦ (token, drawn, ground arith, ground arith, ground arith)
]

-- The room that a granted claim leaves is valid, and the client holds the role that is reported.
pub claim_role-IsValid :
    (client token : Text) (read : Reader) (room room' : Room) (role : Role)
    → RoomIsValid room
    → claim_role client token read room ≡ granted role room'
    → RoomIsValid room' × (lookup client room'.roles ≡ some role)
unfolding claim_role
claim_role-IsValid client token read room room' role v e =
    elim (Option-cases (lookup client room.roles)) [
      | inl new ↦
          let (t, _, below, same, named) =
            assign_role-granted client read room room' role (rw (new, claim_role) at e) in
          rw same (
            add_client-IsValid client t room v new below,
            rw (lookup-insert_self client _ room.roles) (ap some (sym named)),
          )
      | inr (r, old) ↦
          let (named, same) =
            reclaim_role-granted r role client token room room' (rw (old, claim_role) at e) in
          (subst RoomIsValid same v, rw (← same, ← named) old)
    ]

pub enter-IsValid :
    (client : Text) (peer : ℕ) (room : Room)
    → RoomIsValid room
    → is_some (lookup client room.roles) ≡ true
    → RoomIsValid (enter client peer room)
unfolding enter
enter-IsValid client peer room v known = record {
  seated = v.seated;
  known = KnownIn-insert_left client peer room.peers room.roles known v.known;
  tokens = v.tokens;
  distinct = Distinct-insert client peer room.peers v.distinct;
  idle = λ e. cc;
}

nil_of_length : (ps : List (Text × ℕ)) → (length ps == 0) ≡ true → ps ≡ []
nil_of_length [] h = refl
nil_of_length (p ∷ ps) h = ground arith

pub depart-IsValid :
    (client : Text) (now : ℕ) (room : Room)
    → RoomIsValid room
    → RoomIsValid (depart client now room)
unfolding depart delete
depart-IsValid client now room v = record {
  seated = v.seated;
  known = KnownIn-delete_left client room.peers room.roles v.known;
  tokens = v.tokens;
  distinct = Distinct-delete client room.peers v.distinct;
  idle = elim (Bool-cases (length (delete client room.peers) == 0)) [
    | inl empty ↦ λ _. nil_of_length (delete client room.peers) empty
    | inr some_left ↦ rw some_left (λ e. rw (v.idle e, delete))
  ];
}
