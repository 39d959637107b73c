-- ===== src/Rooms/Refusals.antt =====
-- internal/rooms/manager.go: why Join refuses, and that a refusal leaves the rooms alone.
use gocord.Base.{
  ℕ, ◌≤◌, ◌<◌, ◌≡◌, refl, ◌⊎◌, inl, inr, ◌≢◌, [], none, some, option_or, length, arith, Bool-cases,
  Option-cases, sym, ap, ◌∙◌,
}
use gocord.Base.Assoc.{Text, text_eq, text_eq_iff, lookup, delete}
use gocord.Rooms.State.{
  Error, room_not_found, unauthorized, room_full, room_expired, at_capacity, no_entropy, Role, Room,
  Manager, Reader, random_token, is_expired,
}
use gocord.Rooms.Membership.{
  JoinReply, refused, Claim, granted, denied, claim_role, reclaim_role, assign_role, finish_join,
  join,
}
use gocord.Rooms.Access.{join_missing, join_late, join_wrong, join_right}

-- A client that has a role gave no token, or another than the one of its role.
abbrev pub WrongToken : Text → Text → Room → Type 0
WrongToken client token room =
    (lookup client room.roles ≢ none)
    × ((token ≢ option_or (lookup client room.session_tokens) [])
        ⊎ (option_or (lookup client room.session_tokens) [] ≡ []))

-- What is the case when a claim to a role is denied.
abbrev pub DeniedFor : Text → Text → Reader → Room → Error → Type 0
DeniedFor client token read room unauthorized = WrongToken client token room
DeniedFor client token read room room_full =
    (lookup client room.roles ≡ none) × (2 ≤ length room.roles)
DeniedFor client token read room no_entropy = random_token 18 read ≡ none
DeniedFor client token read room _ = ⊥

reclaim_role-DeniedFor :
    (r : Role) (client token : Text) (read : Reader) (room : Room) (n : ℕ) (er : Error)
    → lookup client room.roles ≡ some r
    → reclaim_role r client token room ≡ denied n er
    → DeniedFor client token read room er
unfolding reclaim_role
reclaim_role-DeniedFor r client token read room n unauthorized old e = ground (
  arith,
  text_eq_iff (option_or (lookup client room.session_tokens) []) [],
  text_eq_iff token (option_or (lookup client room.session_tokens) []),
)
reclaim_role-DeniedFor r client token read room n _ old e = absurd (ground arith)

assign_role-DeniedFor :
    (client token : Text) (read : Reader) (room : Room) (n : ℕ) (er : Error)
    → lookup client room.roles ≡ none
    → assign_role client read room ≡ denied n er
    → DeniedFor client token read room er
unfolding assign_role
assign_role-DeniedFor client token read room n room_full new e = ground arith
assign_role-DeniedFor client token read room n no_entropy new e = ground arith
assign_role-DeniedFor client token read room n _ new e = absurd (ground arith)

claim_role-DeniedFor :
    (client token : Text) (read : Reader) (room : Room) (n : ℕ) (er : Error)
    → claim_role client token read room ≡ denied n er
    → DeniedFor client token read room er
unfolding claim_role
claim_role-DeniedFor client token read room n er e =
    elim (Option-cases (lookup client room.roles)) [
      | inl new ↦ assign_role-DeniedFor client token read room n er new (rw (new, claim_role) at e)
      | inr (r, old) ↦
          reclaim_role-DeniedFor r client token read room n er old (rw (old, claim_role) at e)
    ]

module _ (sha256 : Text → Text) (id secret client token : Text) (read : Reader) (now : ℕ)
    (m : Manager) where
  -- What is the case in the manager `m` when Join answers with the error, and how it leaves `m'`.
  abbrev pub RefusedFor : Error → Manager → Type 0
  RefusedFor room_not_found m' = (lookup id m.rooms ≡ none) × (m' ≡ m)
  RefusedFor room_expired m' =
      (room : Room) × (lookup id m.rooms ≡ some room)
      × (room.expires_at ≤ now)
      × (m' ≡ record m { rooms = delete id m.rooms })
  RefusedFor unauthorized m' =
      (room : Room) × (lookup id m.rooms ≡ some room)
      × (now < room.expires_at)
      × ((sha256 secret ≢ room.secret_hash) ⊎ WrongToken client token room)
      × (m' ≡ m)
  RefusedFor room_full m' =
      (room : Room) × (lookup id m.rooms ≡ some room)
      × (now < room.expires_at)
      × (sha256 secret ≡ room.secret_hash)
      × (lookup client room.roles ≡ none)
      × (2 ≤ length room.roles)
      × (m' ≡ m)
  RefusedFor no_entropy m' = (random_token 18 read ≡ none) × (m' ≡ m)
  RefusedFor at_capacity m' = ⊥

  RefusedFor-of_DeniedFor :
      (room : Room) (er : Error) (m' : Manager)
      → lookup id m.rooms ≡ some room
      → now < room.expires_at
      → sha256 secret ≡ room.secret_hash
      → m' ≡ m
      → DeniedFor client token read room er
      → RefusedFor er m'
  RefusedFor-of_DeniedFor room unauthorized m' there open' right same d =
      (room, there, open', inr d, same)
  RefusedFor-of_DeniedFor room room_full m' there open' right same d =
      (room, there, open', right, d.0, d.1, same)
  RefusedFor-of_DeniedFor room no_entropy m' there open' right same d = (d, same)
  RefusedFor-of_DeniedFor room _ m' there open' right same d = elim d [ ]

  finish_join-RefusedFor :
      (peer : ℕ) (room : Room) (c : Claim) (m' : Manager) (n : ℕ) (er : Error)
      → lookup id m.rooms ≡ some room
      → now < room.expires_at
      → sha256 secret ≡ room.secret_hash
      → claim_role client token read room ≡ c
      → finish_join id client peer m c ≡ (m', refused n er)
      → RefusedFor er m'
  unfolding finish_join
  finish_join-RefusedFor peer room (granted r room') m' n er there open' right claim e = absurd (cc)
  finish_join-RefusedFor peer room (denied k er') m' n er there open' right claim e =
      let named : er' ≡ er = ground arith in
      RefusedFor-of_DeniedFor room er m' there open' right (ground arith)
        (claim_role-DeniedFor client token read room k er (claim ∙ ap (denied k) named))

RefusedFor-intro :
    (sha256 : Text → Text) (id secret client token : Text) (read : Reader) (now : ℕ)
    (m m' m'' : Manager) (n k : ℕ) (er er' : Error)
    → ◌≡◌ {A = Manager × JoinReply} (m'', refused k er') (m', refused n er)
    → RefusedFor sha256 id secret client token read now m er' m''
    → RefusedFor sha256 id secret client token read now m er m'
RefusedFor-intro sha256 id secret client token read now m m' m'' n k er er' e r =
    let same : m'' ≡ m' = ground arith in
    let named : er' ≡ er = ground arith in rw (← same, ← named) r

-- Join gives each error only for its reason: no such room; the room has expired, and is then
-- removed; the secret does not hash to the room's hash, or a client that has a role gave another
-- token than its own; a new client finds both roles taken; crypto/rand fails. But for the expired
-- room, a refusal leaves the manager as it was.
pub join-RefusedFor :
    (sha256 : Text → Text) (id secret client : Text) (peer : ℕ) (token : Text) (read : Reader)
    (now : ℕ) (m m' : Manager) (n : ℕ) (er : Error)
    → join sha256 id secret client peer token read now m ≡ (m', refused n er)
    → RefusedFor sha256 id secret client token read now m er m'
unfolding is_expired
join-RefusedFor sha256 id secret client peer token read now m m' n er e =
    elim (Option-cases (lookup id m.rooms)) [
      | inl missing ↦
          RefusedFor-intro sha256 id secret client token read now m m' m n 0 er room_not_found
            (sym (join_missing sha256 id secret client peer token read now m missing) ∙ e)
            (missing, refl)
      | inr (room, there) ↦ elim (Bool-cases (is_expired now room)) [
        | inl late ↦
            RefusedFor-intro sha256 id secret client token read now m m' _ n 0 er room_expired
              (sym (join_late sha256 id secret client peer token read now m room there late) ∙ e)
              (room, there, ground arith, refl)
        | inr open' ↦ elim (Bool-cases (text_eq (sha256 secret) room.secret_hash)) [
          | inr wrong ↦
              RefusedFor-intro sha256 id secret client token read now m m' m n 0 er unauthorized
                (sym (
                    join_wrong sha256 id secret client peer token read now m room there open' wrong)
                  ∙ e)
                (
                  room,
                  there,
                  ground arith,
                  inl (ground (arith, text_eq_iff (sha256 secret) room.secret_hash)),
                  refl,
                )
          | inl right ↦
              finish_join-RefusedFor sha256 id secret client token read now m peer room
                (claim_role client token read room) m' n er there (ground arith)
                ((text_eq_iff (sha256 secret) room.secret_hash).0 right) refl
                (sym (
                    join_right sha256 id secret client peer token read now m room there open' right)
                  ∙ e)
        ]
      ]
    ]
