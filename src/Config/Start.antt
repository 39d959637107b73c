-- ===== src/Config/Start.antt =====
-- internal/config/config.go: Load as a whole.
use gocord.Base.{not, List, [], Option, none, some, if◌then◌else◌}
use gocord.Base.Assoc.{Text, text_eq, codes}
use gocord.Push.Vapid.{
  Curve, PrivateKey, VapidKeys, VapidError, Loaded, loaded, rejected, load_vapid_keys,
  generate_vapid_keys,
}
use gocord.Config.Env.{Env, Conversions, trimmed, env_or}
use gocord.Config.Load.{
  IceServer, Settings, ConfigError, bad_vapid_keys, bad_ice_servers, read_settings, check_settings,
}

-- A file of keys: its name, the public and the private key.
pub record KeyFile : Type 0 where
  pub name : Text
  pub public_key : Text
  pub private_key : Text

module _ (c : Curve) where
  -- The keys, and the file that is written for them; or the error.
  pub data Keys : Type 0 where
    have_keys : VapidKeys c → Option KeyFile → Keys
    no_keys : VapidError → Keys

  unfoldable pub keys_from_env : Loaded c → Keys
  keys_from_env (loaded keys) = have_keys keys none
  keys_from_env (rejected e) = no_keys e

  -- The keys of a file that can be read and parsed, none otherwise.
  unfoldable pub keys_from_file : Option (Text × Text) → Option (VapidKeys c)
  unfolding load_vapid_keys text_eq
  keys_from_file none = none
  keys_from_file (some (pub_key, priv_key)) =
      if text_eq priv_key []
      then none
      else elim (load_vapid_keys c pub_key priv_key) [ loaded keys ↦ some keys | rejected e ↦ none ]

  -- New keys are written to the file; a failure to write is only logged.
  unfoldable pub fresh_keys : Text → Loaded c → Keys
  fresh_keys name (rejected e) = no_keys e
  fresh_keys name (loaded keys) = have_keys keys (
      some (record {
        name = name;
        public_key = keys.public_key_base64;
        private_key = keys.private_key_base64;
      }))

  -- `saved` is os.ReadFile and json.Unmarshal, none if one fails; `generated` is what
  -- ecdsa.GenerateKey answers.
  unfoldable pub load_keys :
      Text → Text → Text → (Text → Option (Text × Text)) → Option (PrivateKey c) → Keys
  unfolding keys_from_env keys_from_file fresh_keys generate_vapid_keys load_vapid_keys text_eq
  load_keys pub_key priv_key key_file saved generated =
      if not (text_eq priv_key [])
      then keys_from_env (load_vapid_keys c pub_key priv_key)
      else elim (keys_from_file (saved key_file)) [
        | some keys ↦ have_keys keys none
        | none ↦ fresh_keys key_file (generate_vapid_keys c generated)
      ]

  pub data Config : Type 0 where
    configured : Settings → VapidKeys c → Option KeyFile → Config
    config_error : ConfigError → Config

  -- ICE_SERVERS_JSON; none is the error.
  unfoldable pub with_ice_servers :
      (Text → Option (List IceServer)) → Text → Settings → Option Settings
  unfolding text_eq
  with_ice_servers unmarshal raw s = if text_eq raw [] then some s else elim (unmarshal raw) [
    | none ↦ none
    | some servers ↦ some (record s { static_ice_servers = servers })
  ]

  unfoldable pub finish_load : Option Settings → VapidKeys c → Option KeyFile → Config
  unfolding check_settings
  finish_load none keys written = config_error bad_ice_servers
  finish_load (some s) keys written = elim (check_settings s) [
    | some e ↦ config_error e
    | none ↦ configured s keys written
  ]

  unfoldable pub load_with : Option Settings → Keys → Config
  unfolding finish_load
  load_with s (no_keys e) = config_error (bad_vapid_keys e)
  load_with s (have_keys keys written) = finish_load s keys written

  unfoldable pub load :
      Conversions
      → (Text → Option (List IceServer))
      → (Text → Option (Text × Text))
      → Option (PrivateKey c)
      → Env
      → Config
  unfolding load_keys with_ice_servers load_with read_settings env_or
  load conversions unmarshal saved generated env =
      load_with
        (with_ice_servers unmarshal (trimmed env (codes "ICE_SERVERS_JSON"))
          (read_settings conversions env))
        (load_keys (trimmed env (codes "VAPID_PUBLIC_KEY"))
          (trimmed env (codes "VAPID_PRIVATE_KEY"))
          (env_or env (codes "VAPID_KEYS_FILE") (codes "vapid_keys.json")) saved generated)
