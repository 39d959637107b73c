-- ===== src/Rooms/Kept.antt =====
-- internal/rooms/manager.go: the seat of a client is kept for it, whatever the others do.
use gocord.Base.{
  ℕ, ◌≡◌, ◌≢◌, inl, inr, List, [], ◌∷◌, none, some, option_or, All, Bool-cases, subst,
}
use gocord.Base.Assoc.{Text, text_eq, text_eq_iff, lookup, insert, delete}
use gocord.Base.Keys.{Distinct}
use gocord.Rooms.State.{Room, Role, random_token}
use gocord.Rooms.History.{Call, create_call}

-- A room in which a client holds a role with a token.
pub record Holds (client : Text) (role : Role) (t hash : Text) (expires : ℕ) (room : Room)
    : Type 0 where
  pub role_held : lookup client room.roles ≡ some role
  pub token_held : option_or (lookup client room.session_tokens) [] ≡ t
  pub same_hash : room.secret_hash ≡ hash
  pub same_expiry : room.expires_at ≡ expires

-- A call of Create that draws another name than this.
abbrev pub DrawsOther : Text → Call → Type 0
DrawsOther id (create_call read_id _ _) = random_token 18 read_id ≢ some id
DrawsOther id _ = Unit

module _ (id client : Text) (role : Role) (t hash : Text) (expires : ℕ) where
  abbrev pub HoldsSeat : Room → Type 0
  HoldsSeat room = Holds client role t hash expires room

  -- Every room of this name holds the seat.
  abbrev pub Kept : List (Text × Room) → Type 0
  Kept rooms = All (λ e. e.0 ≡ id → HoldsSeat e.1) rooms

  pub Kept-lookup :
      (rooms : List (Text × Room)) (room : Room)
      → Kept rooms
      → lookup id rooms ≡ some room
      → HoldsSeat room
  unfolding lookup
  Kept-lookup [] room k e = absurd (cc e)
  Kept-lookup ((j, r) ∷ rooms) room (h, k) e = elim (Bool-cases (text_eq j id)) [
    | inl same ↦ subst HoldsSeat (cc (rw (same, lookup) at e)) (h ((text_eq_iff j id).0 same))
    | inr other ↦ Kept-lookup rooms room k (rw (other, lookup) at e)
  ]

  pub Kept-insert :
      (j : Text) (room : Room) (rooms : List (Text × Room))
      → (j ≡ id → HoldsSeat room)
      → Kept rooms
      → Kept (insert j room rooms)
  unfolding insert
  Kept-insert j room [] h k = (h, tt)
  Kept-insert j room ((i, r) ∷ rooms) h (g, k) = elim (Bool-cases (text_eq i j)) [
    | inl same ↦ rw (same, insert) (h, k)
    | inr other ↦ rw (other, insert) (g, Kept-insert j room rooms h k)
  ]

  pub Kept-delete : (j : Text) (rooms : List (Text × Room)) → Kept rooms → Kept (delete j rooms)
  unfolding delete
  Kept-delete j [] k = tt
  Kept-delete j ((i, r) ∷ rooms) (g, k) = elim (Bool-cases (text_eq i j)) [
    | inl same ↦ rw (same, delete) (Kept-delete j rooms k)
    | inr other ↦ rw (other, delete) (g, Kept-delete j rooms k)
  ]

  -- A map in which the name is the key of one room.
  Kept-none : (rooms : List (Text × Room)) → lookup id rooms ≡ none → Kept rooms
  unfolding lookup
  Kept-none [] e = tt
  Kept-none ((j, r) ∷ rooms) e = elim (Bool-cases (text_eq j id)) [
    | inl same ↦ absurd (cc (rw (same, lookup) at e))
    | inr other ↦ (
      λ same. absurd (cc (other, (text_eq_iff j id).1 same)),
      Kept-none rooms (rw (other, lookup) at e),
    )
  ]

  pub Kept-Distinct :
      (rooms : List (Text × Room)) (room : Room)
      → Distinct rooms
      → lookup id rooms ≡ some room
      → HoldsSeat room
      → Kept rooms
  unfolding lookup
  Kept-Distinct [] room d e h = tt
  Kept-Distinct ((j, r) ∷ rooms) room (d, ds) e h = elim (Bool-cases (text_eq j id)) [
    | inl same ↦ (
      λ _. subst HoldsSeat (cc (rw (same, lookup) at e)) h,
      Kept-none rooms (rw (← (text_eq_iff j id).0 same) d),
    )
    | inr other ↦ (
      λ same. absurd (cc (other, (text_eq_iff j id).1 same)),
      Kept-Distinct rooms room ds (rw (other, lookup) at e) h,
    )
  ]
