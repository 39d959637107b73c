-- ===== src/Config/Tests.antt =====
-- Runs of internal/config at concrete inputs: an empty environment, and toy VAPID keys.
use gocord.Base.{◌≡◌, refl, [], ◌∷◌, none, some, replicate, arith}
use gocord.Base.Assoc.{codes, text_eq}
use gocord.Text.{trim_space, trim_by, trim_left_by, is_space, has_prefix, split, split_from}
use gocord.Push.Vapid.{
  Curve, PrivateKey, VapidKeys, keys_of, new_vapid_keys, generate_vapid_keys, pad_scalar, set_bytes,
}
use gocord.Push.Keys.{IsKeyPair}
use gocord.Config.Env.{Env, Conversions, env_or, parsed_or, csv_env}
use gocord.Config.Load.{read_settings, check_settings, first_error, trim_slashes, subject_or}
use gocord.Config.Start.{
  KeyFile, have_keys, load, load_with, load_keys, with_ice_servers, finish_load, keys_from_file,
  fresh_keys,
}
use gocord.Config.Sound.{SettingsAreValid, load-SettingsAreValid}
use gocord.Config.Restart.{load_keys-load_keys}

abbrev pub toy_curve : Curve
toy_curve = record { Point = Unit; scalar_base_mult = λ d. tt; marshal = λ p. 4 ∷ replicate 64 9 }

abbrev pub one : PrivateKey toy_curve
one = record { d = 1 ∷ []; point = tt }

one-IsKeyPair : IsKeyPair toy_curve one
unfolding pad_scalar set_bytes
one-IsKeyPair = record {
  canonical = refl;
  scalar_bytes = grind arith;
  has_point = refl;
  point_bytes = grind arith;
  uncompressed = refl;
}

abbrev pub conversions : Conversions
conversions = record {
  parse_duration = λ t. none;
  parse_bool = λ t. none;
  atoi = λ t. none;
  parse_float = λ t. none;
}

abbrev pub nothing_set : Env
nothing_set key = []

abbrev pub one_keys : VapidKeys toy_curve
one_keys = keys_of toy_curve one

abbrev pub one_file : KeyFile
one_file = record {
  name = codes "vapid_keys.json";
  public_key = one_keys.public_key_base64;
  private_key = one_keys.private_key_base64;
}

subject_tests :
    (subject_or [] (codes "https://call.example") ≡ codes "https://call.example")
    × (trim_slashes (codes "http://a//") ≡ codes "http://a")
unfolding subject_or trim_slashes text_eq has_prefix trim_left_by
subject_tests = (refl, refl)

csv_test : csv_env (λ key. codes " a, b ") (codes "STUN_URLS") ≡ codes "a" ∷ codes "b" ∷ []
unfolding csv_env trim_space trim_by trim_left_by is_space split split_from has_prefix text_eq
csv_test = refl

load-SettingsAreValid_example : SettingsAreValid (read_settings conversions nothing_set)
unfolding load load_with load_keys with_ice_servers finish_load keys_from_file fresh_keys
    generate_vapid_keys new_vapid_keys text_eq trim_space trim_by trim_left_by is_space
    check_settings first_error read_settings env_or parsed_or csv_env
load-SettingsAreValid_example =
    load-SettingsAreValid toy_curve conversions (λ t. none) (λ name. none) (some one) nothing_set
      (read_settings conversions nothing_set) one_keys (some one_file) refl

load_keys-load_keys_example :
    (one_file.name ≡ codes "vapid_keys.json")
    × (load_keys toy_curve [] []
          (codes "vapid_keys.json")
          (λ name. some (one_file.public_key, one_file.private_key))
          none
        ≡ have_keys one_keys none)
unfolding load_keys keys_from_file fresh_keys generate_vapid_keys new_vapid_keys text_eq
load_keys-load_keys_example =
    load_keys-load_keys toy_curve [] [] (codes "vapid_keys.json") (λ name. none)
      (λ name. some (one_file.public_key, one_file.private_key)) one none one_keys one_file
      one-IsKeyPair refl refl
