-- ===== src/Httpapp/Page.antt =====
-- internal/httpapp/server.go: which requests are answered with the page.
use gocord.Base.{
  ◌≡◌, ◌⊎◌, refl, ap, ◌∙◌, inl, inr, Bool, false, not, ◌&&◌, List, [], ◌∷◌, ◌++◌, Option, some,
  arith,
}
use gocord.Base.Assoc.{Text, text_eq, text_eq_refl, codes}
use gocord.Text.{split, split_from, has_prefix, drop_text}
use gocord.Httpapp.Mux.{
  Route, clean_path, parts_of, matches, is_more_specific, find, lookup, is_exact, ends_in_slash,
  is_tree, Dispatch, handled, dispatch, dispatch_parts,
}
use gocord.Httpapp.Server.{App, Response, index_page, page_response, security_headers}
use gocord.Httpapp.Routes.{
  Endpoint, page, get, routes, answered, Reply, page_of, Site, Visit, serve_dispatch, serve_http,
  index_reply,
}

abbrev pub IsRead : Text → Type 0
IsRead method = (method ≡ get) ⊎ (method ≡ codes "HEAD")

lookup_read :
    {A : Type 0} (method : Text) (parts : List Text) (table : List (Route A))
    → IsRead method
    → lookup method parts table ≡ find get parts table
unfolding lookup text_eq
lookup_read method parts table (inl e) = rw e refl
lookup_read method parts table (inr e) = rw e refl

abbrev join_parts : Text → List Text → List Text
join_parts part parts = codes "join" ∷ part ∷ parts

find-join :
    (part : Text) (parts : List Text)
    → (r : Route Endpoint) × (find get (join_parts part parts) routes ≡ some r) × (r.handler ≡ page)
unfolding find matches is_more_specific text_eq
find-join [] [] = (_, refl, refl)
find-join (c ∷ s) [] = (_, refl, refl)
find-join [] (q ∷ parts) = (_, refl, refl)
find-join (c ∷ s) (q ∷ parts) = (_, refl, refl)

-- A longer path that only the pattern of the root matches.
root_only :
    (part q : Text) (parts : List Text)
    → is_exact (find get (join_parts part (q ∷ parts)) routes) (join_parts part (q ∷ parts)) ≡ false
unfolding find matches is_more_specific text_eq is_exact
root_only [] q parts = ground arith
root_only (c ∷ s) q parts = ground arith

and_false : (a b c : Bool) → c ≡ false → (a && b && c) ≡ false
and_false a b c e = ground arith

tree_test :
    (part : Text) (parts : List Text)
    → (not (is_exact (find get (join_parts part parts) routes) (join_parts part parts))
        && not (ends_in_slash (join_parts part parts))
        && is_exact
            (find get (join_parts part parts ++ [] ∷ []) routes)
            (join_parts part parts ++ [] ∷ []))
      ≡ false
unfolding find matches is_more_specific text_eq is_exact
tree_test [] [] = refl
tree_test (c ∷ s) [] = refl
tree_test part (q ∷ parts) =
    and_false
      (not (is_exact (find get (join_parts part (q ∷ parts)) routes) (join_parts part (q ∷ parts))))
      (not (ends_in_slash (join_parts part (q ∷ parts)))) _ (root_only part q (parts ++ [] ∷ []))

is_tree_read :
    {A : Type 0} (method : Text) (parts : List Text) (table : List (Route A))
    → IsRead method
    → is_tree method parts table ≡ (
        not (is_exact (find get parts table) parts)
        && not (ends_in_slash parts)
        && is_exact (find get (parts ++ [] ∷ []) table) (parts ++ [] ∷ []))
unfolding is_tree
is_tree_read method parts table read =
    rw (lookup_read method parts table read, lookup_read method (parts ++ [] ∷ []) table read) refl

dispatch_parts_read :
    {A : Type 0} (method : Text) (parts : List Text) (table : List (Route A)) (r : Route A)
    → lookup method parts table ≡ some r
    → dispatch_parts method parts table ≡ handled r.handler parts
unfolding dispatch_parts
dispatch_parts_read method parts table r e = rw (e, dispatch_parts) refl

-- A path that the mux redirects to no other is handled by the route that is found.
dispatch_read :
    {A : Type 0} (method path : Text) (table : List (Route A)) (parts : List Text) (r : Route A)
    → IsRead method
    → clean_path path ≡ path
    → parts_of path ≡ parts
    → (not (is_exact (find get parts table) parts)
        && not (ends_in_slash parts)
        && is_exact (find get (parts ++ [] ∷ []) table) (parts ++ [] ∷ []))
      ≡ false
    → find get parts table ≡ some r
    → dispatch method path table ≡ handled r.handler parts
unfolding dispatch
dispatch_read method path table parts r read clean these plain found =
    rw (clean, these, is_tree_read method parts table read ∙ plain, text_eq_refl path)
      (dispatch_parts_read method parts table r (lookup_read method parts table read ∙ found))

parts_of-join :
    (s : Text)
    → (part : Text) × (parts : List Text) × (parts_of (codes "/join/" ++ s) ≡ join_parts part parts)
unfolding parts_of drop_text split split_from has_prefix
parts_of-join s = (_, _, refl)

-- The paths of the page.
abbrev pub IsPage : Text → Type 0
IsPage path =
    (path ≡ codes "/")
    ⊎ (path ≡ codes "/friends")
    ⊎ (path ≡ codes "/contacts")
    ⊎ ((s : Text) × (path ≡ codes "/join/" ++ s))

abbrev GoesToPage : Text → Text → Type 0
GoesToPage method path = (parts : List Text) × (dispatch method path routes ≡ handled page parts)

module _ (method path : Text) (read : IsRead method) (clean : clean_path path ≡ path) where
  -- A path that is written in another way goes to the page if a route of the page is found for its
  -- parts and it is no tree.
  goes :
      (text : Text) (parts : List Text) (r : Route Endpoint)
      → path ≡ text
      → parts_of text ≡ parts
      → (not (is_exact (find get parts routes) parts)
          && not (ends_in_slash parts)
          && is_exact (find get (parts ++ [] ∷ []) routes) (parts ++ [] ∷ []))
        ≡ false
      → find get parts routes ≡ some r
      → r.handler ≡ page
      → GoesToPage method path
  goes text parts r e these plain found at_page = (
    parts,
    dispatch_read method path routes parts r read clean (ap parts_of e ∙ these) plain found
        ∙ ap (λ (h : Endpoint). handled h parts) at_page,
  )

  dispatch-page : IsPage path → GoesToPage method path
  unfolding parts_of drop_text split split_from has_prefix find matches is_more_specific text_eq
      is_exact
  dispatch-page (inl e) = goes (codes "/") ([] ∷ []) _ e refl refl refl refl
  dispatch-page (inr (inl e)) =
      goes (codes "/friends") (codes "friends" ∷ []) _ e refl refl refl refl
  dispatch-page (inr (inr (inl e))) =
      goes (codes "/contacts") (codes "contacts" ∷ []) _ e refl refl refl refl
  dispatch-page (inr (inr (inr (s, e)))) =
      let (part, parts, these) = parts_of-join s in
      let (r, found, at_page) = find-join part parts in
      goes (codes "/join/" ++ s) (join_parts part parts) r e these (tree_test part parts) found
        at_page

index_page_lem :
    (index path : Text) → IsPage path → index_page index path ≡ some (page_response index)
unfolding index_page page_response
index_page_lem index path (inl e) = rw e refl
index_page_lem index path (inr (inl e)) = rw e refl
index_page_lem index path (inr (inr (inl e))) = rw e refl
index_page_lem index path (inr (inr (inr (s, e)))) = rw e refl

serve_page :
    (site : Site) (v : Visit) (parts : List Text) (a : App)
    → IsPage v.request.path
    → serve_dispatch site v (handled page parts) a
      ≡ (a, answered (page_response (page_of site.settings.public_base_url site.index_html)))
unfolding serve_dispatch
serve_page site v parts a is_page =
    ap (λ (o : Option Response). (a, index_reply o)) (index_page_lem _ v.request.path is_page)

-- A GET or HEAD request for "/", "/friends", "/contacts" or a path that begins with "/join/", if the
-- path is clean, is answered with the page, under the security headers, and changes nothing: no other
-- route of the application takes such a path, and none redirects it.
pub serve_http-page :
    (site : Site) (v : Visit) (a : App)
    → IsRead v.method
    → clean_path v.request.path ≡ v.request.path
    → IsPage v.request.path
    → serve_http site v a ≡ (
      a,
      security_headers v.request,
      answered (page_response (page_of site.settings.public_base_url site.index_html)),
    )
unfolding serve_http
serve_http-page site v a read clean is_page =
    let (parts, found) = dispatch-page v.method v.request.path read clean is_page in
    let served =
      ap (λ (d : Dispatch Endpoint). serve_dispatch site v d a) found
      ∙ serve_page site v parts a is_page in
    ap (λ (r : App × Reply). (r.0, security_headers v.request, r.1)) served
