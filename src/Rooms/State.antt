-- ===== src/Rooms/State.antt =====
-- internal/rooms/manager.go: `Room`, `Status`, `Manager`, the errors, and what the methods ask of a
-- room. Times and durations are nanoseconds; `now` is the clock's answer, `read` the answer of
-- crypto/rand for a buffer of that many bytes (`none` is its error).
use gocord.Base.{ℕ, ◌+◌, Bool, false, ◌||◌, List, [], leb, Option, none, some, ◌>>=◌}
use gocord.Base.Int.{ℤ}
use gocord.Base.Assoc.{Text}
use gocord.Base64.{raw_url_encoding, encode}

-- `no_entropy` is the error of crypto/rand, passed on.
pub data Error : Type 0 where
  room_not_found unauthorized room_full room_expired at_capacity no_entropy : Error

-- The strings "caller" and "callee".
pub data Role : Type 0 where
  caller callee : Role

pub record Room : Type 0 where
  pub id : Text
  pub created_at : ℕ
  pub expires_at : ℕ
  pub secret_hash : Text
  pub peers : List (Text × ℕ)
  pub roles : List (Text × Role)
  pub session_tokens : List (Text × Text)
  pub had_participants : Bool
  pub empty_since : Option ℕ

pub record Status : Type 0 where
  pub exists : Bool
  pub participants : ℕ
  pub expires_at : ℕ

pub record Manager : Type 0 where
  pub rooms : List (Text × Room)
  pub ttl : ℕ
  pub empty_grace : ℕ
  pub max_rooms : ℤ

unfoldable pub new_manager : ℕ → ℕ → ℤ → Manager
new_manager ttl empty_grace max_rooms = record {
  rooms = [];
  ttl = ttl;
  empty_grace = empty_grace;
  max_rooms = max_rooms;
}

abbrev pub Reader : Type 0
Reader = ℕ → Option (List ℕ)

unfoldable pub random_token : ℕ → Reader → Option Text
random_token bytes read = do buf ← read bytes; some (encode raw_url_encoding buf)

-- `!now.Before(room.ExpiresAt)`.
unfoldable pub is_expired : ℕ → Room → Bool
is_expired now room = leb room.expires_at now

-- `room.emptySince != nil && now.Sub(*room.emptySince) >= m.emptyGrace`.
unfoldable pub is_empty_too_long : ℕ → ℕ → Option ℕ → Bool
is_empty_too_long grace now none = false
is_empty_too_long grace now (some since) = leb (since + grace) now

unfoldable pub is_stale : ℕ → ℕ → Room → Bool
unfolding is_expired is_empty_too_long
is_stale grace now room = is_expired now room || is_empty_too_long grace now room.empty_since
