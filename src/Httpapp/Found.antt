-- ===== src/Httpapp/Found.antt =====
-- net/http's ServeMux: the route that it finds for a request, and the path that it finds it for.
use gocord.Base.{
  ◌≡◌, ◌⊎◌, refl, sym, ap, ◌∙◌, inl, inr, Bool, true, false, not, ◌&&◌, List, [], ◌∷◌, ◌++◌, some,
  if◌then◌else◌, arith, Bool-cases, Option-cases, All, subst, length, ◌==◌,
}
use gocord.Base.Assoc.{Text, text_eq, text_eq_iff, eq_of_text_eq, codes}
use gocord.Text.{has_suffix, drop_text, split, join}
use gocord.Text.Split.{join-split}
use gocord.Httpapp.Mux.{
  Route, slash, clean_parts, clean_path, parts_of, matches, is_more_specific, find, lookup, is_tree,
  handled, dispatch, dispatch_parts, refusal,
}
use gocord.Httpapp.Routes.{get}

abbrev pub Found {ℓ} : {A : Type ℓ} → Text → List Text → Route A → Type 0
Found method parts r = (r.method ≡ method) × (matches r.segments parts ≡ true)

module _ {ℓ κ} {A : Type ℓ} (P : Route A → Type κ) where
  -- A route that is found is one of the table, has the method, and matches.
  find-some :
      (method : Text) (parts : List Text) (table : List (Route A)) (r : Route A)
      → All P table
      → find method parts table ≡ some r
      → P r × Found method parts r
  unfolding find
  find-some method parts [] r all e = absurd (cc e)
  find-some method parts (q ∷ table) r (p, all) e =
      let ih = find-some method parts table in
      elim (Bool-cases (text_eq q.method method && matches q.segments parts)) [
        | inr miss ↦ ih r all (rw (miss, find) at e)
        | inl hit ↦
            let here : P q × Found method parts q =
              (p, ground (arith, text_eq_iff q.method method)) in
            elim (Option-cases (find method parts table)) [
              | inl gone ↦
                  subst (λ (t : Route A). P t × Found method parts t)
                    (cc (rw (hit, gone, find) at e)) here
              | inr (t, found) ↦ elim (Bool-cases (is_more_specific t.segments q.segments)) [
                | inl more ↦ ih r all (found ∙ (rw (hit, found, more, find) at e))
                | inr less ↦
                    subst (λ (t : Route A). P t × Found method parts t)
                      (cc (rw (hit, found, less, find) at e)) here
              ]
            ]
      ]

  pub lookup-some :
      (method : Text) (parts : List Text) (table : List (Route A)) (r : Route A)
      → All P table
      → lookup method parts table ≡ some r
      → P r × (Found method parts r ⊎ (method ≡ codes "HEAD") × Found get parts r)
  unfolding lookup
  lookup-some method parts table r all e = elim (Bool-cases (text_eq method (codes "HEAD"))) [
    | inl head ↦
        let f = find-some get parts table r all (rw (head, lookup) at e) in
        (f.0, inr (eq_of_text_eq method (codes "HEAD") head, f.1))
    | inr other ↦
        let f = find-some method parts table r all (rw (other, lookup) at e) in (f.0, inl f.1)
  ]

slash_first :
    (b : Bool) (s : Text)
    → (t : Text) × ((if b then slash ++ s ++ slash else slash ++ s) ≡ slash ++ t)
slash_first true s = (s ++ slash, refl)
slash_first false s = (s, refl)

-- A path that is clean begins with a slash.
clean_path-slash : (path : Text) → clean_path path ≡ path → (s : Text) × (path ≡ slash ++ s)
unfolding clean_path
clean_path-slash path e =
    let kept = clean_parts [] (split slash path) in
    let (t, same) =
      slash_first (has_suffix slash path && not (length kept == 0)) (join slash kept) in
    (t, sym e ∙ same)

pub path_of : (path : Text) → clean_path path ≡ path → path ≡ slash ++ join slash (parts_of path)
unfolding parts_of drop_text
path_of path e =
    let (s, same) = clean_path-slash path e in rw same (ap (◌∷◌ b'/') (sym (join-split b'/' [] s)))

module _ {A : Type 0} (method : Text) (table : List (Route A)) (h : A) where
  not_refusal : (methods : List Text) (parts : List Text) → refusal methods ≡ handled h parts → ⊥
  not_refusal [] parts e = cc e
  not_refusal (m ∷ methods) parts e = cc e

  dispatch_parts-handled :
      (parts' parts : List Text)
      → dispatch_parts method parts' table ≡ handled h parts
      → (parts ≡ parts') × ((r : Route A) × (lookup method parts' table ≡ some r) × (r.handler ≡ h))
  unfolding dispatch_parts
  dispatch_parts-handled parts' parts e = elim (Option-cases (lookup method parts' table)) [
    | inl gone ↦ absurd (not_refusal _ parts (rw (gone, dispatch_parts) at e))
    | inr (r, there) ↦
        let same : handled r.handler parts' ≡ handled h parts = rw (there, dispatch_parts) at e in
        (cc same, (r, there, cc same))
  ]

  -- A handler is called with the parts of the path as it stands, for a route that was looked up.
  pub dispatch-handled :
      (path : Text) (parts : List Text)
      → dispatch method path table ≡ handled h parts
      → (clean_path path ≡ path)
        × (parts ≡ parts_of path)
        × ((r : Route A) × (lookup method (parts_of path) table ≡ some r) × (r.handler ≡ h))
  unfolding dispatch
  dispatch-handled path parts e =
      elim (Bool-cases (is_tree method (parts_of (clean_path path)) table)) [
        | inl tree ↦ absurd (cc (rw (tree, dispatch) at e))
        | inr plain ↦ elim (Bool-cases (text_eq (clean_path path) path)) [
          | inr unclean ↦ absurd (cc (rw (plain, unclean, dispatch) at e))
          | inl clean ↦
              let same = eq_of_text_eq (clean_path path) path clean in
              let (p, q) =
                dispatch_parts-handled (parts_of (clean_path path)) parts
                  (rw (plain, clean, dispatch) at e) in
              (same, rw (← same) p, rw (← same) q)
        ]
      ]
