-- ===== src/Config/Load.antt =====
-- internal/config/config.go: Load. Files and encoding/json are parameters; VAPID keys are those of
-- Push/Vapid. An error keeps its kind, not its text.
use gocord.Base.{
  ℕ, ◌*◌, Bool, true, false, not, ◌&&◌, List, [], ◌∷◌, Option, none, some, if◌then◌else◌,
}
use gocord.Base.Int.{ℤ, pos, ltb_ℤ, leb_ℤ}
use gocord.Base.Assoc.{Text, text_eq, codes}
use gocord.Text.{trim_space, trim_left_by, has_prefix}
use gocord.Push.Vapid.{VapidError}
use gocord.Config.Env.{Env, Conversions, Fraction, trimmed, env_or, parsed_or, csv_env}
use mathlib.Core.List.{reverse}

abbrev pub second : ℕ
second = 1000000000

pub record IceServer : Type 0 where
  pub urls : List Text
  pub username : Text
  pub credential : Text

-- The fields of Config but those of VAPID keys, which are `vapid_keys` once they are loaded.
pub record Settings : Type 0 where
  pub listen_addr : Text
  pub public_base_url : Text
  pub room_ttl : ℤ
  pub empty_room_grace : ℤ
  pub shutdown_timeout : ℤ
  pub dev_diagnostics : Bool
  pub max_rooms : ℤ
  pub room_create_rate : Fraction
  pub room_create_burst : Fraction
  pub push_rate : Fraction
  pub push_burst : Fraction
  pub trust_proxy_headers : Bool
  pub static_ice_servers : List IceServer
  pub stun_urls : List Text
  pub turn_urls : List Text
  pub turn_shared_secret : Text
  pub turn_credential_ttl : ℤ
  pub vapid_subject : Text

pub data ConfigError : Type 0 where
  bad_vapid_keys : VapidError → ConfigError
  bad_ice_servers : ConfigError
  turn_without_secret : ConfigError
  bad_room_ttl : ConfigError
  bad_empty_room_grace : ConfigError
  bad_max_rooms : ConfigError
  bad_room_create_rate : ConfigError
  bad_room_create_burst : ConfigError
  bad_push_rate : ConfigError
  bad_push_burst : ConfigError

abbrev whole : ℕ → Fraction
whole n = record { num = pos n; den = 1 }

abbrev slash : ℕ → Bool
slash c = text_eq (c ∷ []) (codes "/")

-- strings.TrimRight(s, "/").
unfoldable pub trim_slashes : Text → Text
unfolding trim_left_by text_eq
trim_slashes s = reverse (trim_left_by slash (reverse s))

-- The subject when VAPID_SUBJECT is not set.
unfoldable pub subject_or : Text → Text → Text
unfolding text_eq has_prefix
subject_or subject public_base_url =
    if text_eq subject []
    then (if has_prefix (codes "http") public_base_url
        then public_base_url
        else codes "mailto:admin@sslip.io")
    else subject

-- The composite literal at the start of Load, and the subject.
unfoldable pub read_settings : Conversions → Env → Settings
unfolding env_or parsed_or csv_env trim_slashes subject_or trim_space
read_settings c env =
    let base_url =
      trim_slashes (env_or env (codes "PUBLIC_BASE_URL") (codes "http://[::1]:8080")) in
    record {
      listen_addr = env_or env (codes "LISTEN_ADDR") (codes "[::]:8080");
      public_base_url = base_url;
      room_ttl = parsed_or c.parse_duration env (codes "ROOM_TTL") (pos (7200 * second));
      empty_room_grace =
          parsed_or c.parse_duration env (codes "EMPTY_ROOM_GRACE") (pos (45 * second));
      shutdown_timeout =
          parsed_or c.parse_duration env (codes "SHUTDOWN_TIMEOUT") (pos (10 * second));
      dev_diagnostics = parsed_or c.parse_bool env (codes "DEV_DIAGNOSTICS") false;
      max_rooms = parsed_or c.atoi env (codes "MAX_ROOMS") (pos 5000);
      room_create_rate =
          parsed_or c.parse_float env (codes "ROOM_CREATE_RATE") (record { num = pos 1; den = 5 });
      room_create_burst = parsed_or c.parse_float env (codes "ROOM_CREATE_BURST") (whole 5);
      push_rate = parsed_or c.parse_float env (codes "PUSH_RATE") (whole 2);
      push_burst = parsed_or c.parse_float env (codes "PUSH_BURST") (whole 10);
      trust_proxy_headers = parsed_or c.parse_bool env (codes "TRUST_PROXY_HEADERS") false;
      static_ice_servers = [];
      stun_urls = csv_env env (codes "STUN_URLS");
      turn_urls = csv_env env (codes "TURN_URLS");
      turn_shared_secret = trimmed env (codes "TURN_SHARED_SECRET");
      turn_credential_ttl =
          parsed_or c.parse_duration env (codes "TURN_CREDENTIAL_TTL") (pos (3600 * second));
      vapid_subject = subject_or (trimmed env (codes "VAPID_SUBJECT")) base_url;
    }

-- A number below zero, above zero, below one.
abbrev pub is_negative : Fraction → Bool
is_negative f = ltb_ℤ f.num (pos 0)

abbrev pub is_positive : Fraction → Bool
is_positive f = ltb_ℤ (pos 0) f.num

abbrev pub is_below_one : Fraction → Bool
is_below_one f = ltb_ℤ f.num (pos f.den)

abbrev pub is_empty : List Text → Bool
is_empty [] = true
is_empty (_ ∷ _) = false

-- A sequence of checks, each of which returns its error.
unfoldable pub first_error : List (Bool × ConfigError) → Option ConfigError
first_error [] = none
first_error ((wrong, e) ∷ checks) = let rest = first_error checks in if wrong then some e else rest

-- The checks at the end of Load, in their order.
abbrev pub checks_of : Settings → List (Bool × ConfigError)
checks_of s =
    (not (is_empty s.turn_urls) && text_eq s.turn_shared_secret [], turn_without_secret)
    ∷ (leb_ℤ s.room_ttl (pos 0), bad_room_ttl)
    ∷ (ltb_ℤ s.empty_room_grace (pos 0), bad_empty_room_grace)
    ∷ (ltb_ℤ s.max_rooms (pos 0), bad_max_rooms)
    ∷ (is_negative s.room_create_rate, bad_room_create_rate)
    ∷ (is_positive s.room_create_rate && is_below_one s.room_create_burst, bad_room_create_burst)
    ∷ (is_negative s.push_rate, bad_push_rate)
    ∷ (is_positive s.push_rate && is_below_one s.push_burst, bad_push_burst)
    ∷ []

unfoldable pub check_settings : Settings → Option ConfigError
unfolding first_error text_eq
check_settings s = first_error (checks_of s)
