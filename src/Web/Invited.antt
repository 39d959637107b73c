-- ===== src/Web/Invited.antt =====
-- web/ui.go and internal/httpapp/server.go: how the server answers the link of an invitation, and
-- what the client takes from it.
use gocord.Base.{
  ℕ, ◌≡◌, ◌≢◌, refl, sym, ap, ◌∙◌, inr, Bool, true, false, List, [], ◌∷◌, ◌++◌, some, ◌==◌, All,
  arith, append_assoc, append-nil,
}
use mathlib.Core.List.{reverse, reverse-cons, reverse-reverse}
use gocord.Base.Assoc.{Text, codes, text_eq, text_eq-ne}
use gocord.Text.{split, split_from, has_prefix, has_suffix, contains, join}
use gocord.Text.Split.{split-none}
use gocord.Text.Trim.{IsFree, IsFree-reverse}
use gocord.Rooms.State.{Reader, random_token}
use gocord.Httpapp.Mux.{slash, clean_path, clean_parts}
use gocord.Httpapp.Server.{App, page_response, security_headers}
use gocord.Httpapp.Routes.{Site, Visit, serve_http, answered, page_of}
use gocord.Httpapp.Page.{IsRead, serve_http-page}
use gocord.Web.Address.{Storage, is_room_char, parse_room_from_location}
use gocord.Web.Reload.{Fills, random_token-chars, invitation, parse_room-reload}

abbrev is_slash : ℕ → Bool
is_slash c = c == b'/'

no_slash_first : (x t : Text) → x ≢ [] → IsFree is_slash x → has_prefix slash (x ++ t) ≡ false
unfolding has_prefix
no_slash_first [] t some_x h = absurd (some_x refl)
no_slash_first (c ∷ x) t some_x h = ground arith

reverse-some : (s : Text) → s ≢ [] → reverse s ≢ []
reverse-some s some_s e = some_s (sym (reverse-reverse s) ∙ ap reverse e)

module _ (room : Text) (some_room : room ≢ []) (free : IsFree is_slash room) where
  no_slash_before : (p t : Text) → has_prefix slash (reverse (p ++ room) ++ t) ≡ false
  no_slash_before [] t =
      no_slash_first (reverse room) t (reverse-some room some_room)
        (IsFree-reverse is_slash room free)
  no_slash_before (c ∷ p) t =
      ap (λ (x : Text). has_prefix slash (x ++ t)) (reverse-cons c (p ++ room))
      ∙ ap (has_prefix slash) (append_assoc (reverse (p ++ room)) (c ∷ []) t)
      ∙ no_slash_before p (c ∷ t)

  no_slash_end : (p : Text) → has_suffix slash (p ++ room) ≡ false
  unfolding has_suffix
  no_slash_end p =
      ap (has_prefix slash) (sym (append-nil (reverse (p ++ room)))) ∙ no_slash_before p []

contains-slash : (s : Text) → IsFree is_slash s → contains slash s ≡ false
unfolding contains has_prefix
contains-slash [] h = refl
contains-slash (c ∷ s) h = ground (arith, contains-slash s h.1)

split-room :
    (room : Text)
    → IsFree is_slash room
    → split slash (codes "/join/" ++ room) ≡ [] ∷ codes "join" ∷ room ∷ []
unfolding split split_from has_prefix
split-room room free =
    ap (λ (ts : List Text). [] ∷ codes "join" ∷ ts)
      (split-none slash room (contains-slash room free))

clean_parts-room :
    (room : Text)
    → room ≢ []
    → text_eq room (codes ".") ≡ false
    → text_eq room (codes "..") ≡ false
    → clean_parts [] ([] ∷ codes "join" ∷ room ∷ []) ≡ codes "join" ∷ room ∷ []
unfolding clean_parts
clean_parts-room room some_room one two = rw (text_eq-ne room [] some_room, one, two) refl

clean_path-room :
    (room : Text)
    → room ≢ []
    → IsFree is_slash room
    → text_eq room (codes ".") ≡ false
    → text_eq room (codes "..") ≡ false
    → clean_path (codes "/join/" ++ room) ≡ codes "/join/" ++ room
unfolding clean_path
clean_path-room room some_room free one two =
    rw
      (
        no_slash_end room some_room free (codes "/join/"),
        split-room room free,
        clean_parts-room room some_room one two,
      )
      (unfold join in refl)

slash-IsFree : (room : Text) → All (λ c. is_room_char c ≡ true) room → IsFree is_slash room
unfolding is_room_char
slash-IsFree [] h = tt
slash-IsFree (c ∷ room) (k, h) = (ground arith, slash-IsFree room h)

no_dots :
    (room rest : Text) → All (λ c. is_room_char c ≡ true) room → text_eq room (b'.' ∷ rest) ≡ false
unfolding is_room_char text_eq
no_dots [] rest h = refl
no_dots (c ∷ room) rest (k, h) = ground arith

-- The invitation to a room, whose name and secret crypto/rand has drawn. The server answers a GET
-- or HEAD request for its path with the page. The client that loads the page takes just that room
-- and secret from the address, and the secret leaves it; and if sessionStorage works, a client that
-- loads the address which is left gets them again, and leaves all as it is.
pub invitation_lem :
    (site : Site) (v : Visit) (a : App) (read read' : Reader) (room secret : Text)
    (storage : Storage)
    → Fills read
    → Fills read'
    → random_token 18 read ≡ some room
    → random_token 32 read' ≡ some secret
    → IsRead v.method
    → v.request.path ≡ (invitation room secret).pathname
    → let opened = parse_room_from_location (invitation room secret) storage in
      (serve_http site v a ≡ (
        a,
        security_headers v.request,
        answered (page_response (page_of site.settings.public_base_url site.index_html)),
      ))
      × (opened.0 ≡ some (room, secret))
      × (opened.1 ≡ record { pathname = codes "/join/" ++ room; hash = [] })
      × (storage.works ≡ true
          → parse_room_from_location opened.1 opened.2 ≡ (some (room, secret), opened.1, opened.2))
invitation_lem site v a read read' room secret storage fills fills' drawn drawn' is_read asked =
    let (some_room, chars) = random_token-chars 17 read room fills drawn in
    let clean =
      clean_path-room room some_room (slash-IsFree room chars) (no_dots room [] chars)
        (no_dots room (b'.' ∷ []) chars) in
    let (first, left, again) =
      parse_room-reload read read' room secret storage fills fills' drawn drawn' in
    (
      serve_http-page site v a is_read (ap clean_path asked ∙ clean ∙ sym asked)
          (inr (inr (inr (room, asked)))),
      first,
      left,
      again,
    )
