-- ===== src/Base/Keys.antt =====
-- The keys of association lists: that they are distinct, as in a Go map, and that every key of one
-- list is a key of another.
use gocord.Base.Tests.{Option-cases, is_some}
use gocord.Base.Lists.{length}
use gocord.Base.Assoc.{
  Text, text_eq_iff, lookup, insert, delete, lookup-insert, lookup-delete, length-delete-lt,
}
use Prim.Native.Nat.{◌≤◌}
use mathlib.Core.Path.{◌≡◌, refl}
use mathlib.Core.Logic.{inl, inr}
use mathlib.Core.Bool.{true}
use mathlib.Core.Option.{none, some}
use mathlib.Core.List.{List, [], ◌∷◌}
use native.Mathlib.Omega.{arith}

module _ {ℓ} {V : Type ℓ} where
  abbrev pub Distinct : List (Text × V) → Type ℓ
  Distinct [] = Unit
  Distinct ((k, v) ∷ m) = (lookup k m ≡ none) × Distinct m

  pub Distinct-insert :
      (k : Text) (v : V) (m : List (Text × V)) → Distinct m → Distinct (insert k v m)
  unfolding insert lookup
  Distinct-insert k v [] d = (refl, tt)
  Distinct-insert k v ((j, w) ∷ m) d =
      ground
        (arith, text_eq_iff j k, text_eq_iff k j, lookup-insert k j v m, Distinct-insert k v m d.1)

  pub Distinct-delete : (k : Text) (m : List (Text × V)) → Distinct m → Distinct (delete k m)
  unfolding delete
  Distinct-delete k [] d = tt
  Distinct-delete k ((j, w) ∷ m) d = ground (arith, lookup-delete k j m, Distinct-delete k m d.1)

module _ {ℓ κ} {V : Type ℓ} {W : Type κ} where
  -- Every key of the first list is a key of the second.
  abbrev pub KnownIn : List (Text × V) → List (Text × W) → Type 0
  KnownIn [] n = Unit
  KnownIn ((k, v) ∷ m) n = (is_some (lookup k n) ≡ true) × KnownIn m n

  pub KnownIn-insert_right :
      (k : Text) (w : W) (m : List (Text × V)) (n : List (Text × W))
      → KnownIn m n
      → KnownIn m (insert k w n)
  KnownIn-insert_right k w [] n h = tt
  KnownIn-insert_right k w ((j, v) ∷ m) n h =
      ground (arith, lookup-insert k j w n, KnownIn-insert_right k w m n h.1)

  pub KnownIn-insert_left :
      (k : Text) (v : V) (m : List (Text × V)) (n : List (Text × W))
      → is_some (lookup k n) ≡ true
      → KnownIn m n
      → KnownIn (insert k v m) n
  unfolding insert
  KnownIn-insert_left k v [] n p h = (p, tt)
  KnownIn-insert_left k v ((j, w) ∷ m) n p h =
      ground (arith, text_eq_iff j k, KnownIn-insert_left k v m n p h.1)

  pub KnownIn-delete_left :
      (k : Text) (m : List (Text × V)) (n : List (Text × W)) → KnownIn m n → KnownIn (delete k m) n
  unfolding delete
  KnownIn-delete_left k [] n h = tt
  KnownIn-delete_left k ((j, w) ∷ m) n h = ground (arith, KnownIn-delete_left k m n h.1)

  pub KnownIn-lookup :
      (k : Text) (v : V) (m : List (Text × V)) (n : List (Text × W))
      → KnownIn m n
      → lookup k m ≡ some v
      → is_some (lookup k n) ≡ true
  unfolding lookup
  KnownIn-lookup k v [] n h e = cc
  KnownIn-lookup k v ((j, w) ∷ m) n h e =
      ground (arith, text_eq_iff j k, KnownIn-lookup k v m n h.1)

  KnownIn-delete_right :
      (k : Text) (m : List (Text × V)) (n : List (Text × W))
      → lookup k m ≡ none
      → KnownIn m n
      → KnownIn m (delete k n)
  unfolding lookup
  KnownIn-delete_right k [] n e h = tt
  KnownIn-delete_right k ((j, v) ∷ m) n e h = ground (
    arith,
    text_eq_iff j k,
    text_eq_iff k j,
    lookup-delete k j n,
    KnownIn-delete_right k m n (ground arith) h.1,
  )

  -- Distinct keys that are all known elsewhere are not more than the keys there.
  pub length-KnownIn :
      (m : List (Text × V)) (n : List (Text × W)) → Distinct m → KnownIn m n → length m ≤ length n
  length-KnownIn [] n d h = omega arith
  length-KnownIn ((k, v) ∷ m) n d h = elim (Option-cases (lookup k n)) [
    | inl e ↦ ground arith
    | inr (w, e) ↦ omega (
      arith,
      length-KnownIn m (delete k n) d.1 (KnownIn-delete_right k m n d.0 h.1),
      length-delete-lt k w n e,
    )
  ]
