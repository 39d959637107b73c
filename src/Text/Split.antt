-- ===== src/Text/Split.antt =====
-- strings.Split and strings.Join undo one another.
use gocord.Base.{
  ℕ, zero, suc, ◌-◌, ◌≡◌, refl, sym, ap, ◌∙◌, true, false, List, [], ◌∷◌, ◌++◌, length, arith,
  Bool-cases, drop, All, inl, inr,
}
use gocord.Base.Assoc.{Text}
use gocord.Text.{has_prefix, split_from, split, join_from, join, contains}

has_prefix-drop : (p s : Text) → has_prefix p s ≡ true → s ≡ p ++ drop (length p) s
unfolding has_prefix
has_prefix-drop [] s h = refl
has_prefix-drop (a ∷ p) [] h = cc
has_prefix-drop (a ∷ p) (b ∷ s) h = ground (arith, has_prefix-drop p s)

less_one : (n : ℕ) → suc n - 1 ≡ n
less_one n = omega arith

join_from-cons :
    (sep : Text) (c : ℕ) (first : Text) (others : List Text)
    → join_from sep (c ∷ first) others ≡ c ∷ join_from sep first others
unfolding join_from
join_from-cons sep c first [] = refl
join_from-cons sep c first (second ∷ others) = refl

-- With `skip` characters dropped, the parts joined again are the text.
join_from-split_from :
    (a : ℕ) (sep s : Text) (skip : ℕ)
    → let (first, others) = split_from (a ∷ sep) s skip in
      join_from (a ∷ sep) first others ≡ drop skip s
unfolding split_from join_from
join_from-split_from a sep [] zero = refl
join_from-split_from a sep [] (suc skip) = refl
join_from-split_from a sep (c ∷ s) (suc skip) = join_from-split_from a sep s skip
join_from-split_from a sep (c ∷ s) zero = elim (Bool-cases (has_prefix (a ∷ sep) (c ∷ s))) [
  | inl hit ↦
      rw (hit, less_one (length sep))
        (ap (λ rest. a ∷ (sep ++ rest)) (join_from-split_from a sep s (length sep))
          ∙ sym (has_prefix-drop (a ∷ sep) (c ∷ s) hit))
  | inr miss ↦
      rw miss (join_from-cons (a ∷ sep) c _ _ ∙ ap (◌∷◌ c) (join_from-split_from a sep s 0))
]

-- Joining the parts of a text with the separator gives the text back.
pub join-split : (a : ℕ) (sep s : Text) → join (a ∷ sep) (split (a ∷ sep) s) ≡ s
unfolding split join
join-split a sep s = join_from-split_from a sep s 0

-- A text without the separator is one part.
split_from-none : (sep s : Text) → contains sep s ≡ false → split_from sep s 0 ≡ (s, [])
unfolding split_from contains
split_from-none sep [] h = refl
split_from-none sep (c ∷ s) h = ground (arith, split_from-none sep s)

pub split-none : (sep s : Text) → contains sep s ≡ false → split sep s ≡ s ∷ []
unfolding split
split-none sep s h = ground (arith, split_from-none sep s h)

abbrev pub lf : Text
lf = 10 ∷ []

abbrev pub crlf : Text
crlf = 13 ∷ 10 ∷ []

-- A separator that begins at no place of a text that does not hold it, whatever separator and text
-- follow.
pub record Separates (sep : Text) : Type 0 where
  pub apart :
      (c : ℕ) (x r : Text)
      → contains sep (c ∷ x) ≡ false
      → has_prefix sep (c ∷ x ++ sep ++ r) ≡ false

pub lf-Separates : Separates lf
unfolding contains has_prefix
lf-Separates = record { apart = λ c x r h. ground arith }

crlf-apart :
    (c : ℕ) (x r : Text)
    → contains crlf (c ∷ x) ≡ false
    → has_prefix crlf (c ∷ x ++ crlf ++ r) ≡ false
unfolding contains has_prefix
crlf-apart c [] r h = ground arith
crlf-apart c (d ∷ x) r h = ground arith

pub crlf-Separates : Separates crlf
crlf-Separates = record { apart = crlf-apart }

has_prefix-append : (p x y : Text) → has_prefix p x ≡ true → has_prefix p (x ++ y) ≡ true
unfolding has_prefix
has_prefix-append [] x y h = refl
has_prefix-append (a ∷ p) [] y h = absurd (cc)
has_prefix-append (a ∷ p) (b ∷ x) y h = ground (arith, has_prefix-append p x y)

split_from-prefix : (sep s : Text) → (t : Text) × (s ≡ (split_from sep s 0).0 ++ t)
unfolding split_from
split_from-prefix sep [] = ([], refl)
split_from-prefix sep (c ∷ s) = elim (Bool-cases (has_prefix sep (c ∷ s))) [
  | inl hit ↦ (c ∷ s, rw hit)
  | inr miss ↦ let (t, e) = split_from-prefix sep s in (t, rw miss (ap (◌∷◌ c) e))
]

miss_free :
    (sep s : Text) (c : ℕ)
    → has_prefix sep (c ∷ s) ≡ false
    → contains sep (split_from sep s 0).0 ≡ false
    → contains sep (c ∷ (split_from sep s 0).0) ≡ false
unfolding contains
miss_free sep s c miss free =
    let (t, e) = split_from-prefix sep s in
    elim (Bool-cases (has_prefix sep (c ∷ (split_from sep s 0).0))) [
      | inl hit ↦ absurd (cc (has_prefix-append sep (c ∷ (split_from sep s 0).0) t hit, miss))
      | inr no_hit ↦ rw no_hit free
    ]

-- No part holds the separator.
split_from-free :
    (sep s : Text) (skip : ℕ)
    → contains sep [] ≡ false
    → (contains sep (split_from sep s skip).0 ≡ false)
      × All (λ x. contains sep x ≡ false) (split_from sep s skip).1
unfolding split_from contains
split_from-free sep [] skip e = (e, tt)
split_from-free sep (c ∷ s) (suc skip) e = split_from-free sep s skip e
split_from-free sep (c ∷ s) zero e = elim (Bool-cases (has_prefix sep (c ∷ s))) [
  | inl hit ↦ rw hit (e, split_from-free sep s (length sep - 1) e)
  | inr miss ↦
      let rest = split_from-free sep s 0 e in rw miss (miss_free sep s c miss rest.0, rest.1)
]

pub split-free :
    (sep s : Text) → contains sep [] ≡ false → All (λ x. contains sep x ≡ false) (split sep s)
unfolding split
split-free sep s e = split_from-free sep s 0 e

contains-tail :
    (sep : Text) (c : ℕ) (x : Text) → contains sep (c ∷ x) ≡ false → contains sep x ≡ false
unfolding contains
contains-tail sep c x h = ground arith

split_from-skip : (sep x r : Text) → split_from sep (x ++ r) (length x) ≡ split_from sep r 0
unfolding split_from
split_from-skip sep [] r = refl
split_from-skip sep (c ∷ x) r = split_from-skip sep x r

pub has_prefix_self : (p r : Text) → has_prefix p (p ++ r) ≡ true
unfolding has_prefix
has_prefix_self [] r = refl
has_prefix_self (a ∷ p) r = ground (arith, has_prefix_self p r)

-- A part, the separator and a rest split into the part and the parts of the rest.
split_from-part :
    (a : ℕ) (sep x r : Text)
    → Separates (a ∷ sep)
    → contains (a ∷ sep) x ≡ false
    → split_from (a ∷ sep) (x ++ (a ∷ sep) ++ r) 0
      ≡ (x, (split_from (a ∷ sep) r 0).0 ∷ (split_from (a ∷ sep) r 0).1)
unfolding split_from
split_from-part a sep [] r ok free =
    rw (has_prefix_self (a ∷ sep) r, less_one (length sep), split_from-skip (a ∷ sep) sep r)
split_from-part a sep (c ∷ x) r ok free = rw (ok.apart c x r free) (
    ap (λ (q : Text × List Text). (c ∷ q.0, q.1))
      (split_from-part a sep x r ok (contains-tail (a ∷ sep) c x free)))

split_from-join_from :
    (a : ℕ) (sep first : Text) (others : List Text)
    → Separates (a ∷ sep)
    → contains (a ∷ sep) first ≡ false
    → All (λ x. contains (a ∷ sep) x ≡ false) others
    → split_from (a ∷ sep) (join_from (a ∷ sep) first others) 0 ≡ (first, others)
unfolding join_from
split_from-join_from a sep first [] ok free frees = split_from-none (a ∷ sep) first free
split_from-join_from a sep first (second ∷ others) ok free frees =
    split_from-part a sep first (join_from (a ∷ sep) second others) ok free
    ∙ ap (λ (q : Text × List Text). (first, q.0 ∷ q.1))
        (split_from-join_from a sep second others ok frees.0 frees.1)

-- Parts that do not hold the separator come back when they are joined and split again.
pub split-join :
    (a : ℕ) (sep first : Text) (others : List Text)
    → Separates (a ∷ sep)
    → All (λ x. contains (a ∷ sep) x ≡ false) (first ∷ others)
    → split (a ∷ sep) (join (a ∷ sep) (first ∷ others)) ≡ first ∷ others
unfolding split join
split-join a sep first others ok free =
    ap (λ (q : Text × List Text). q.0 ∷ q.1)
      (split_from-join_from a sep first others ok free.0 free.1)
