-- ===== src/Web/AddressTests.antt =====
-- The address of the page of web/ui.go and its errors at concrete inputs, and the theorems at inputs
-- that meet their hypotheses.
use gocord.Base.{
  ◌>>=◌, Option, none, ℕ, zero, suc, ◌≡◌, refl, inl, true, false, List, [], ◌++◌, some, length,
  replicate, length-replicate, arith, All, subst,
}
use gocord.Base.Assoc.{lookup, Text, codes}
use gocord.Base64.{encode, raw_url_encoding}
use gocord.Base64.Chars.{IsByte}
use gocord.Rooms.State.{Reader, random_token}
use gocord.Httpapp.Server.{Response, page_response, security_headers, sent_response, room_status}
use gocord.Httpapp.Routes.{get, serve_http, answered, page_of}
use gocord.Httpapp.ServerTests.{app}
use gocord.Httpapp.RouteTests.{site, visit}
use gocord.Rooms.Lifecycle.{status}
use gocord.Push.Sender.{SendError, subscription_expired, vapid_key_mismatch, push_service_failed}
use gocord.Web.Api.{api_error, call_error, room_error, outdated_card}
use gocord.Web.State.{new_client}
use gocord.Web.Opus.{lower}
use gocord.Web.Address.{
  Storage, View, friends, home, precall, handle_route, match_join, parse_room_from_location,
  take_secret,
}
use gocord.Web.Reload.{Fills, invitation}
use gocord.Web.Invited.{invitation_lem}
use gocord.Web.TextTests.{json}

abbrev fives : Reader
fives n = some (replicate n 5)

bytes-replicate : (n : ℕ) → All IsByte (replicate n 5)
bytes-replicate zero = tt
bytes-replicate (suc n) = (omega arith, bytes-replicate n)

fives-Fills : Fills fives
fives-Fills = record {
  filled = λ n buf e. subst (λ (b : List ℕ). length b ≡ n) (cc e) (length-replicate n 5);
  bytes = λ n buf e. subst (λ (b : List ℕ). All IsByte b) (cc e) (bytes-replicate n);
}

abbrev empty : Storage
empty = record { items = []; works = true }

abbrev room : Text
room = encode raw_url_encoding (replicate 18 5)

abbrev secret : Text
secret = encode raw_url_encoding (replicate 32 5)

invitation_lem_example :
    let v = visit get (codes "/join/" ++ room) in
    let opened = parse_room_from_location (invitation room secret) empty in
    (serve_http site v app ≡ (
      app,
      security_headers v.request,
      answered (page_response (page_of site.settings.public_base_url site.index_html)),
    ))
    × (opened.0 ≡ some (room, secret))
    × (opened.1 ≡ record { pathname = codes "/join/" ++ room; hash = [] })
    × (empty.works ≡ true
        → parse_room_from_location opened.1 opened.2 ≡ (some (room, secret), opened.1, opened.2))
unfolding random_token
invitation_lem_example =
    invitation_lem site (visit get (codes "/join/" ++ room)) app fives fives room secret empty
      fives-Fills fives-Fills refl refl (inl refl) refl

abbrev viewed : Text → Text → View
viewed pathname hash =
    (handle_route json (record { pathname = pathname; hash = hash }) empty (new_client [])).0

handle_route_tests :
    (viewed (codes "/Friends") [] ≡ friends)
    × (viewed (codes "/join/a/b") [] ≡ home)
    × (viewed (codes "/join/r-1") [] ≡ precall false)
    × (viewed (codes "/join/r-1") (codes "#s") ≡ precall true)
    × ((handle_route json (invitation (codes "r") (codes "s")) empty (new_client [])).3.room
        ≡ codes "r")
unfolding handle_route match_join take_secret parse_room_from_location lower
handle_route_tests = (refl, refl, refl, refl, refl)

abbrev error_text : SendError → Text
error_text e = []

abbrev told : (Text → Text) → Response → Option Text
told tell r = do message ← api_error error_text r; some (tell message)

-- What a user is told of the answers to a push message, and of a room that does not exist.
api_tests :
    (told (call_error (codes "Ana")) (sent_response (some subscription_expired))
      ≡ some (outdated_card (codes "Ana")))
    × (told (call_error (codes "Ana")) (sent_response (some vapid_key_mismatch))
        ≡ some (
            codes
              "Could not call contact: contact's Call Card was created with a different server key. Ask them to click 'Refresh' and send an updated Call Card."))
    × (told room_error (room_status (codes "r") 5 app)
        ≡ some (codes "This room does not exist or has expired."))
    × (api_error error_text (sent_response (some push_service_failed))
        ≡ some (codes "Request failed (502)"))
    × (api_error error_text (sent_response none) ≡ none)
unfolding api_error sent_response call_error room_error room_status status lookup
api_tests = (refl, refl, refl, refl, refl)
