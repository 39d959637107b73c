-- ===== src/Text.antt =====
-- Go's package strings as the program uses it, over texts that are lists of code points.
pub mod Split
pub mod Trim
use gocord.Base.{
  ℕ, zero, suc, ◌+◌, ◌-◌, Bool, true, false, not, ◌&&◌, ◌||◌, List, [], ◌∷◌, ◌++◌, length, leb, ltb,
  ◌==◌, if◌then◌else◌, Option, none, some, any, map,
}
use mathlib.Core.List.{reverse}
use gocord.Base.Assoc.{Text, text_eq}

-- unicode.IsSpace.
unfoldable pub is_space : ℕ → Bool
is_space c =
    leb 9 c && leb c 13
    || c == 32
    || c == 0x85
    || c == 0xA0
    || c == 0x1680
    || leb 0x2000 c && leb c 0x200A
    || c == 0x2028
    || c == 0x2029
    || c == 0x202F
    || c == 0x205F
    || c == 0x3000

unfoldable pub trim_left_by : (ℕ → Bool) → Text → Text
trim_left_by p [] = []
trim_left_by p (c ∷ s) = let rest = trim_left_by p s in if p c then rest else c ∷ s

unfoldable pub trim_by : (ℕ → Bool) → Text → Text
unfolding trim_left_by
trim_by p s = reverse (trim_left_by p (reverse (trim_left_by p s)))

-- strings.TrimSpace.
unfoldable pub trim_space : Text → Text
unfolding trim_by is_space
trim_space s = trim_by is_space s

unfoldable pub has_prefix : Text → Text → Bool
has_prefix [] s = true
has_prefix (p ∷ ps) [] = false
has_prefix (p ∷ ps) (c ∷ s) = p == c && has_prefix ps s

unfoldable pub has_suffix : Text → Text → Bool
unfolding has_prefix
has_suffix suffix s = has_prefix (reverse suffix) (reverse s)

unfoldable pub drop_text : ℕ → Text → Text
drop_text zero s = s
drop_text (suc n) [] = []
drop_text (suc n) (c ∷ s) = drop_text n s

unfoldable pub trim_prefix : Text → Text → Text
unfolding has_prefix drop_text
trim_prefix prefix s = if has_prefix prefix s then drop_text (length prefix) s else s

-- strings.Contains.
unfoldable pub contains : Text → Text → Bool
unfolding has_prefix
contains sub [] = has_prefix sub []
contains sub (c ∷ s) = has_prefix sub (c ∷ s) || contains sub s

-- The first part and the other parts of a text of which `skip` characters belong to a separator.
unfoldable pub split_from : Text → Text → ℕ → Text × List Text
unfolding has_prefix
split_from sep [] skip = ([], [])
split_from sep (c ∷ s) (suc skip) = split_from sep s skip
split_from sep (c ∷ s) zero =
    let hit = has_prefix sep (c ∷ s) in
    let (first, others) = split_from sep s (if hit then length sep - 1 else 0) in
    if hit then ([], first ∷ others) else (c ∷ first, others)

-- strings.Split with a separator that is not empty.
unfoldable pub split : Text → Text → List Text
unfolding split_from
split sep s = let (first, others) = split_from sep s 0 in first ∷ others

unfoldable pub join_from : Text → Text → List Text → Text
join_from sep first [] = first
join_from sep first (second ∷ others) = first ++ sep ++ join_from sep second others

-- strings.Join.
unfoldable pub join : Text → List Text → Text
unfolding join_from
join sep [] = []
join sep (first ∷ others) = join_from sep first others

abbrev pub flush : Text × List Text → List Text
flush ([], words) = words
flush (c ∷ word, words) = (c ∷ word) ∷ words

unfoldable pub fields_from : Text → Text × List Text
unfolding is_space
fields_from [] = ([], [])
fields_from (c ∷ s) =
    let rest = fields_from s in if is_space c then ([], flush rest) else (c ∷ rest.0, rest.1)

-- strings.Fields.
unfoldable pub fields : Text → List Text
unfolding fields_from
fields s = flush (fields_from s)

-- The text before the last occurrence of a character, `s[:strings.LastIndex(s, c)]`.
unfoldable pub before_last : ℕ → Text → Option Text
before_last c [] = none
before_last c (x ∷ s) = elim (before_last c s) [
  | some before ↦ some (x ∷ before)
  | none ↦ if x == c then some [] else none
]

-- Simple case folding, for comparisons with ASCII texts: the letters A to Z, the long s and the
-- Kelvin sign.
unfoldable pub fold : ℕ → ℕ
fold c =
    if leb b'A' c && leb c b'Z'
    then c + 32
    else if c == 0x17F
    then b's'
    else if c == 0x212A
    then b'k'
    else c

-- strings.EqualFold with an ASCII text.
abbrev pub equal_fold : Text → Text → Bool
equal_fold s t = text_eq (map fold s) (map fold t)

-- len of a string: its bytes in UTF-8.
unfoldable pub byte_length : Text → ℕ
byte_length [] = 0
byte_length (c ∷ s) =
    (if ltb c 0x80 then 1 else if ltb c 0x800 then 2 else if ltb c 0x10000 then 3 else 4)
    + byte_length s
