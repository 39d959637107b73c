-- ===== src/Config/Sound.antt =====
-- internal/config/config.go: what holds of a configuration that Load accepts.
use gocord.Base.{
  ℕ, ◌<◌, ◌≡◌, ◌≢◌, ◌⊎◌, refl, inl, inr, sym, ◌∙◌, Bool, true, false, not, ◌&&◌, List, [], ◌∷◌,
  Option, none, some, arith, Option-cases, All, subst,
}
use gocord.Base.Int.{ℤ, pos, negsuc, ltb_ℤ, leb_ℤ}
use gocord.Base.Assoc.{Text, text_eq, text_eq_iff, codes}
use gocord.Push.Vapid.{Curve, PrivateKey, VapidKeys}
use gocord.Config.Env.{Env, Conversions, Fraction, trimmed, env_or}
use gocord.Config.Load.{
  IceServer, Settings, read_settings, check_settings, ConfigError, first_error, checks_of, is_empty,
  is_negative, is_positive, is_below_one,
}
use gocord.Config.Start.{
  KeyFile, configured, finish_load, load, have_keys, no_keys, load_keys, load_with, Keys,
  with_ice_servers,
}

-- A rate that is not negative and, if it limits anything, lets one call through.
abbrev RateIsValid : Fraction → Fraction → Type 0
RateIsValid rate burst =
    (is_negative rate ≡ false) × ((is_positive rate ≡ false) ⊎ (is_below_one burst ≡ false))

pub record SettingsAreValid (s : Settings) : Type 0 where
  pub ttl : (n : ℕ) × (s.room_ttl ≡ pos n) × (0 < n)
  pub grace : (n : ℕ) × (s.empty_room_grace ≡ pos n)
  pub bound : (n : ℕ) × (s.max_rooms ≡ pos n)
  pub create_rate : RateIsValid s.room_create_rate s.room_create_burst
  pub push_rates : RateIsValid s.push_rate s.push_burst
  pub turn : (s.turn_urls ≡ []) ⊎ (s.turn_shared_secret ≢ [])

first_error-none :
    (checks : List (Bool × ConfigError)) → first_error checks ≡ none → All (λ k. k.0 ≡ false) checks
unfolding first_error
first_error-none [] e = tt
first_error-none ((false, er) ∷ checks) e = (refl, first_error-none checks e)
first_error-none ((true, er) ∷ checks) e = absurd (cc e)

positive : (z : ℤ) → leb_ℤ z (pos 0) ≡ false → (n : ℕ) × (z ≡ pos n) × (0 < n)
positive (pos n) h = (n, refl, ground arith)
positive (negsuc n) h = absurd (ground arith)

not_negative : (z : ℤ) → ltb_ℤ z (pos 0) ≡ false → (n : ℕ) × (z ≡ pos n)
not_negative (pos n) h = (n, refl)
not_negative (negsuc n) h = absurd (ground arith)

either_false : (a b : Bool) → (a && b) ≡ false → (a ≡ false) ⊎ (b ≡ false)
either_false true b h = inr h
either_false false b h = inl refl

turn_lem :
    (urls : List Text) (secret : Text)
    → (not (is_empty urls) && text_eq secret []) ≡ false
    → (urls ≡ []) ⊎ (secret ≢ [])
turn_lem [] secret h = inl refl
turn_lem (u ∷ urls) secret h = inr (λ e. cc (sym h ∙ (text_eq_iff secret []).1 e))

check_settings-none : (s : Settings) → check_settings s ≡ none → SettingsAreValid s
unfolding check_settings
check_settings-none s e =
    let (h, (ttl, (grace, (bound, (create_rate, (create_burst, (push_rate, (push_burst, _)))))))) =
      first_error-none (checks_of s) e in
    record {
      ttl = positive s.room_ttl ttl;
      grace = not_negative s.empty_room_grace grace;
      bound = not_negative s.max_rooms bound;
      create_rate = (create_rate, either_false _ _ create_burst);
      push_rates = (push_rate, either_false _ _ push_burst);
      turn = turn_lem s.turn_urls s.turn_shared_secret h;
    }

module _ (c : Curve) where
  finish_load-configured :
      (o : Option Settings) (keys k : VapidKeys c) (written w : Option KeyFile) (s : Settings)
      → finish_load c o keys written ≡ configured s k w
      → SettingsAreValid s
  unfolding finish_load
  finish_load-configured none keys k written w s e = absurd (cc e)
  finish_load-configured (some s') keys k written w s e = elim (Option-cases (check_settings s')) [
    | inr (er, bad) ↦ absurd (cc (rw (bad, finish_load) at e))
    | inl good ↦
        let same : s' ≡ s = cc (rw (good, finish_load) at e) in
        subst SettingsAreValid same (check_settings-none s' good)
  ]

  load_with-configured :
      (o : Option Settings) (keys : Keys c) (k : VapidKeys c) (w : Option KeyFile) (s : Settings)
      → load_with c o keys ≡ configured s k w
      → SettingsAreValid s
  unfolding load_with
  load_with-configured o (no_keys er) k w s e = absurd (cc e)
  load_with-configured o (have_keys keys written) k w s e =
      finish_load-configured o keys k written w s e

  -- A configuration that Load accepts has a positive lifetime of rooms, a grace that is not negative
  -- and a bound on rooms that is not negative; each rate is not negative, and lets at least one call
  -- through if it limits anything; and with TURN servers there is a secret.
  pub load-SettingsAreValid :
      (conversions : Conversions) (unmarshal : Text → Option (List IceServer))
      (saved : Text → Option (Text × Text)) (generated : Option (PrivateKey c)) (env : Env)
      (s : Settings) (keys : VapidKeys c) (written : Option KeyFile)
      → load c conversions unmarshal saved generated env ≡ configured s keys written
      → SettingsAreValid s
  unfolding load
  load-SettingsAreValid conversions unmarshal saved generated env s keys written e =
      load_with-configured
        (with_ice_servers c unmarshal (trimmed env (codes "ICE_SERVERS_JSON"))
          (read_settings conversions env))
        (load_keys c (trimmed env (codes "VAPID_PUBLIC_KEY"))
          (trimmed env (codes "VAPID_PRIVATE_KEY"))
          (env_or env (codes "VAPID_KEYS_FILE") (codes "vapid_keys.json")) saved generated)
        keys written s e
