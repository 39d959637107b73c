-- ===== src/Config/Env.antt =====
-- internal/config/config.go: reading single variables. The environment is a function, and the
-- conversions of time and strconv are a record, none for their errors. A float64 is a fraction.
use gocord.Base.{ℕ, Bool, not, List, [], Option, option_or, map, keep, if◌then◌else◌}
use gocord.Base.Int.{ℤ}
use gocord.Base.Assoc.{Text, text_eq, codes}
use gocord.Text.{trim_space, split}

-- `num / den`, with `den` positive.
pub record Fraction : Type 0 where
  pub num : ℤ
  pub den : ℕ

pub record Conversions : Type 0 where
  pub parse_duration : Text → Option ℤ
  pub parse_bool : Text → Option Bool
  pub atoi : Text → Option ℤ
  pub parse_float : Text → Option Fraction

abbrev pub Env : Type 0
Env = Text → Text

-- strings.TrimSpace(os.Getenv(key)).
abbrev pub trimmed : Env → Text → Text
trimmed env key = trim_space (env key)

unfoldable pub env_or : Env → Text → Text → Text
unfolding trim_space text_eq
env_or env key fallback = if text_eq (trimmed env key) [] then fallback else trimmed env key

-- durationOr, boolOr, intOr and floatOr, which differ in the conversion.
unfoldable pub parsed_or {ℓ} : {A : Type ℓ} → (Text → Option A) → Env → Text → A → A
unfolding trim_space text_eq
parsed_or parse env key fallback =
    if text_eq (trimmed env key) [] then fallback else option_or (parse (trimmed env key)) fallback

unfoldable pub csv_env : Env → Text → List Text
unfolding trim_space text_eq split
csv_env env key =
    if text_eq (trimmed env key) []
    then []
    else keep (λ s. not (text_eq s [])) (map trim_space (split (codes ",") (trimmed env key)))
