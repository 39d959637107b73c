-- ===== src/Httpapp/Mux.antt =====
-- net/http's ServeMux, as internal/httpapp/server.go uses it: patterns with a method and without a
-- host, and paths without "%", so that a path is its own escaped form.
use gocord.Base.{
  Bool, true, false, not, ◌&&◌, ◌||◌, List, [], ◌∷◌, ◌++◌, Option, none, some, length, last?,
  if◌then◌else◌, ◌==◌, option_or, is_some,
}
use mathlib.Core.List.{reverse}
use gocord.Base.Assoc.{Text, text_eq, codes}
use gocord.Text.{drop_text, has_suffix, split, join}

-- A part of a pattern: a text, a wildcard such as {room}, or what a slash at the end stands for.
pub data Segment : Type 0 where
  literal : Text → Segment
  wildcard : Segment
  rest : Segment

pub record Route {ℓ} (A : Type ℓ) : Type ℓ where
  pub method : Text
  pub segments : List Segment
  pub handler : A

abbrev pub slash : Text
slash = codes "/"

-- path.Clean of a path that begins with a slash, part by part; `kept` are the last parts first.
unfoldable pub clean_parts : List Text → List Text → List Text
unfolding text_eq
clean_parts kept [] = reverse kept
clean_parts kept (part ∷ parts) =
    clean_parts
      (if text_eq part [] || text_eq part (codes ".")
        then kept
        else if text_eq part (codes "..")
        then elim kept [ [] ↦ [] | _ ∷ others ↦ others ]
        else part ∷ kept)
      parts

-- cleanPath of net/http, which keeps a slash at the end.
unfoldable pub clean_path : Text → Text
clean_path path =
    let kept = clean_parts [] (split slash path) in
    let clean = slash ++ join slash kept in
    if has_suffix slash path && not (length kept == 0) then clean ++ slash else clean

-- The parts of a path that begins with a slash; the last is empty if the path ends in one.
unfoldable pub parts_of : Text → List Text
unfolding drop_text split
parts_of path = split slash (drop_text 1 path)

unfoldable pub matches : List Segment → List Text → Bool
unfolding text_eq
matches [] [] = true
matches (literal s ∷ segments) (part ∷ parts) = text_eq s part && matches segments parts
matches (wildcard ∷ segments) (part ∷ parts) = not (text_eq part []) && matches segments parts
matches (rest ∷ _) (_ ∷ _) = true
matches _ _ = false

-- Which of two patterns that match one path goes first.
unfoldable pub is_more_specific : List Segment → List Segment → Bool
is_more_specific (literal _ ∷ p) (literal _ ∷ q) = is_more_specific p q
is_more_specific (literal _ ∷ _) _ = true
is_more_specific (wildcard ∷ p) (wildcard ∷ q) = is_more_specific p q
is_more_specific (wildcard ∷ _) (rest ∷ _) = true
is_more_specific _ _ = false

abbrev pub ends_in_rest : List Segment → Bool
ends_in_rest segments = elim (last? segments) [ some rest ↦ true | _ ↦ false ]

abbrev pub ends_in_slash : List Text → Bool
ends_in_slash parts = text_eq (option_or (last? parts) []) []

module _ {ℓ} {A : Type ℓ} where
  -- The most specific of the routes of a method that match.
  unfoldable pub find : Text → List Text → List (Route A) → Option (Route A)
  unfolding text_eq matches is_more_specific
  find method parts [] = none
  find method parts (r ∷ routes) =
      let found = find method parts routes in
      if text_eq r.method method && matches r.segments parts
      then elim found [
        | none ↦ some r
        | some s ↦ if is_more_specific s.segments r.segments then some s else some r
      ]
      else found

  -- A HEAD request takes the routes of GET, as no route has that method.
  unfoldable pub lookup : Text → List Text → List (Route A) → Option (Route A)
  unfolding find
  lookup method parts routes =
      let of_get = find (codes "GET") parts routes in
      if text_eq method (codes "HEAD") then of_get else find method parts routes

  -- A path that a pattern with a slash at the end matches only because it begins like it is no exact
  -- match.
  unfoldable pub is_exact : Option (Route A) → List Text → Bool
  is_exact none parts = false
  is_exact (some r) parts =
      not (ends_in_rest r.segments) || ends_in_slash parts && length r.segments == length parts

  -- Whether the path is redirected to itself with a slash at the end.
  unfoldable pub is_tree : Text → List Text → List (Route A) → Bool
  unfolding lookup is_exact
  is_tree method parts routes =
      not (is_exact (lookup method parts routes) parts)
      && not (ends_in_slash parts)
      && is_exact (lookup method (parts ++ [] ∷ []) routes) (parts ++ [] ∷ [])

  -- The methods of the routes that match, in the order of the alphabet.
  unfoldable pub allowed_methods : List Text → List (Route A) → List Text
  unfolding find
  allowed_methods parts routes =
      let with_slash = if ends_in_slash parts then parts else parts ++ [] ∷ [] in
      let has : Text → Bool =
        λ method. is_some (find method parts routes) || is_some (find method with_slash routes) in
      (if has (codes "GET") then codes "GET" ∷ codes "HEAD" ∷ [] else [])
      ++ (if has (codes "POST") then codes "POST" ∷ [] else [])

-- What the mux does with a request: it answers by itself, or calls a handler.
pub data Dispatch {ℓ} (A : Type ℓ) : Type ℓ where
  moved : Text → Dispatch A
  not_allowed : List Text → Dispatch A
  no_route : Dispatch A
  handled : A → List Text → Dispatch A

module _ {ℓ} {A : Type ℓ} where
  -- The answer when no route of the method matches.
  abbrev pub refusal : List Text → Dispatch A
  refusal [] = no_route
  refusal (m ∷ methods) = not_allowed (m ∷ methods)

  unfoldable pub dispatch_parts : Text → List Text → List (Route A) → Dispatch A
  unfolding lookup allowed_methods
  dispatch_parts method parts routes = elim (lookup method parts routes) [
    | some r ↦ handled r.handler parts
    | none ↦ refusal (allowed_methods parts routes)
  ]

  -- ServeHTTP of the mux for a method other than CONNECT, which no route has.
  unfoldable pub dispatch : Text → Text → List (Route A) → Dispatch A
  dispatch method path routes =
      let clean = clean_path path in
      if is_tree method (parts_of clean) routes
      then moved (clean ++ slash)
      else if not (text_eq clean path)
      then moved clean
      else dispatch_parts method (parts_of clean) routes
