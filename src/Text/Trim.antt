-- ===== src/Text/Trim.antt =====
-- Laws of trimming, for texts that have nothing to trim.
use gocord.Base.{ℕ, ◌≡◌, refl, ap, ◌∙◌, Bool, false, [], ◌∷◌, All, All-append}
use gocord.Base.Assoc.{Text}
use gocord.Text.{trim_by, trim_left_by}
use mathlib.Core.List.{reverse, reverse-cons, reverse-reverse}

-- No character passes a test.
abbrev pub IsFree : (ℕ → Bool) → Text → Type 0
IsFree p s = All (λ c. p c ≡ false) s

pub IsFree-reverse : (p : ℕ → Bool) (s : Text) → IsFree p s → IsFree p (reverse s)
IsFree-reverse p [] h = tt
IsFree-reverse p (c ∷ s) h =
    rw (reverse-cons c s)
      (All-append (λ c. p c ≡ false) (reverse s) (c ∷ []) (IsFree-reverse p s h.1) (h.0, tt))

trim_left_by-IsFree : (p : ℕ → Bool) (s : Text) → IsFree p s → trim_left_by p s ≡ s
unfolding trim_left_by
trim_left_by-IsFree p [] h = refl
trim_left_by-IsFree p (c ∷ s) h = rw h.0 refl

pub trim_by-IsFree : (p : ℕ → Bool) (s : Text) → IsFree p s → trim_by p s ≡ s
unfolding trim_by
trim_by-IsFree p s h =
    ap (λ t. reverse (trim_left_by p (reverse t))) (trim_left_by-IsFree p s h)
    ∙ ap reverse (trim_left_by-IsFree p (reverse s) (IsFree-reverse p s h))
    ∙ reverse-reverse s
