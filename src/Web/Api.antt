-- ===== src/Web/Api.antt =====
-- web/ui.go: api, and what callContact and handleRoute tell the user when a request fails; with the
-- responses of internal/httpapp/server.go. The text of a push error is a parameter.
use gocord.Base.{
  ℕ, ◌+◌, ◌/◌, ◌%◌, Bool, ◌&&◌, ◌||◌, [], ◌∷◌, ◌++◌, Option, none, some, if◌then◌else◌, leb,
}
use gocord.Base.Assoc.{Text, codes, text_eq}
use gocord.Text.{contains}
use gocord.Rooms.Lifecycle.{status}
use gocord.Push.Sender.{SendError}
use gocord.Httpapp.Server.{Body, error_body, send_error_body, Response}

-- A status has three digits.
abbrev digits : ℕ → Text
digits status = (b'0' + status / 100) ∷ (b'0' + status / 10 % 10) ∷ (b'0' + status % 10) ∷ []

-- The field "error" of a response's body.
abbrev error_of : (SendError → Text) → Body → Option Text
error_of print (error_body message) = some message
error_of print (send_error_body e) = some (print e)
error_of print _ = none

abbrev given : Option Text → Text → Text
given none fallback = fallback
given (some message) fallback = if text_eq message [] then fallback else message

-- The message of the error that api throws, none if it throws none.
unfoldable pub api_error : (SendError → Text) → Response → Option Text
unfolding text_eq
api_error print r =
    if leb 200 r.status && leb r.status 299
    then none
    else some
        (given (error_of print r.body) (codes "Request failed (" ++ digits r.status ++ codes ")"))

-- What handleRoute tells of an error.
unfoldable pub room_error : Text → Text
unfolding text_eq
room_error message =
    if text_eq message (codes "Request failed (404)")
    then codes "This room does not exist or has expired."
    else message

unfoldable pub is_outdated_card : Text → Bool
unfolding contains
is_outdated_card message =
    contains (codes "410") message
    || contains (codes "VapidPkHashMismatch") message
    || contains (codes "older server key") message
    || contains (codes "expired") message

abbrev pub outdated_card : Text → Text
outdated_card name =
    name
    ++ codes
        "'s Call Card was created with an older server key. Ask them to click \"REFRESH\" on /friends and send you their updated Call Card."

-- What callContact tells of an error.
unfoldable pub call_error : Text → Text → Text
unfolding is_outdated_card
call_error name message =
    if is_outdated_card message
    then outdated_card name
    else codes "Could not call contact: " ++ message
