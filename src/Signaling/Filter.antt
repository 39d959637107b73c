-- ===== src/Signaling/Filter.antt =====
-- internal/signaling/candidate.go: what sanitizeSDP lets through.
use gocord.Base.{
  if◌then◌else◌, ltb, length, not, ◌||◌, option_or, get_elem?, ◌≡◌, refl, ap, ◌∙◌, ◌⊎◌, inl, inr,
  Bool, true, false, List, [], ◌∷◌, ◌++◌, keep, All, arith, Bool-cases,
}
use gocord.Base.Assoc.{Text, codes}
use gocord.Text.{contains, has_prefix, split, join, trim_space, trim_prefix, fields}
use gocord.Text.Split.{lf, crlf, crlf-Separates, join-split, split-join}
use gocord.Signaling.Candidate.{keeps_line, separator, sanitize_sdp, candidate_address}
use gocord.Signaling.Ip.{parse_ip}

-- The two separators, as one case split.
separator-ind {ℓ} : (P : Text → Type ℓ) (sdp : Text) → P crlf → P lf → P (separator sdp)
separator-ind P sdp c l = elim (Bool-cases (contains crlf sdp)) [
  | inl has ↦ rw has c
  | inr not_has ↦ rw not_has l
]

keep-All : (p : Text → Bool) (xs : List Text) → All (λ x. p x ≡ true) xs → keep p xs ≡ xs
keep-All p [] h = refl
keep-All p (x ∷ xs) h = rw h.0 (ap (◌∷◌ x) (keep-All p xs h.1))

-- A description all of whose lines pass the filter is relayed as it came.
sanitize_sdp_same :
    (sdp : Text)
    → All (λ l. keeps_line l ≡ true) (split (separator sdp) sdp)
    → sanitize_sdp sdp ≡ sdp
unfolding sanitize_sdp
sanitize_sdp_same sdp h =
    ap (join (separator sdp)) (keep-All keeps_line (split (separator sdp) sdp) h)
    ∙ separator-ind (λ sep. join sep (split sep sdp) ≡ sdp) sdp (join-split 13 (10 ∷ []) sdp)
        (join-split 10 [] sdp)

-- The fields of a candidate line.
abbrev line_fields : Text → List Text
line_fields line =
    fields (trim_prefix (codes "a=") (trim_space (trim_prefix (codes "a=") (trim_space line))))

-- At least six fields, of which the first begins with "candidate:" and the fifth is an IP address,
-- which may have brackets and a zone.
abbrev pub IsCandidate : List Text → Type 0
IsCandidate fs =
    (f0 f1 f2 f3 f4 f5 : Text) × (others : List Text) × (fs ≡ f0 ∷ f1 ∷ f2 ∷ f3 ∷ f4 ∷ f5 ∷ others)
    × (has_prefix (codes "candidate:") f0 ≡ true)
    × (parse_ip (candidate_address fs) ≡ true)

-- A line that does not begin as a candidate, or is one.
abbrev pub IsSafe : Text → Type 0
IsSafe line =
    (has_prefix (codes "a=candidate:") (trim_space line) ≡ false) ⊎ IsCandidate (line_fields line)

-- What isValidCandidate asks of the fields.
abbrev has_address : List Text → Bool
has_address fs =
    if ltb (length fs) 6 || not (has_prefix (codes "candidate:") (option_or (get_elem? fs 0) []))
    then false
    else parse_ip (candidate_address fs)

contains-crlf : (x r : Text) → contains crlf (x ++ crlf ++ r) ≡ true
unfolding contains has_prefix
contains-crlf [] r = refl
contains-crlf (c ∷ x) r = ground (arith, contains-crlf x r)

-- Two lines that do not begin as candidates, joined by CR LF, pass the filter as they are, whatever
-- follows a line feed alone inside them.
pub sanitize_sdp_mixed :
    (first last : Text)
    → contains crlf first ≡ false
    → contains crlf last ≡ false
    → has_prefix (codes "a=candidate:") (trim_space first) ≡ false
    → has_prefix (codes "a=candidate:") (trim_space last) ≡ false
    → sanitize_sdp (first ++ crlf ++ last) ≡ first ++ crlf ++ last
unfolding keeps_line join
sanitize_sdp_mixed first last f l pf pl =
    let whole = first ++ crlf ++ last in
    let sep : separator whole ≡ crlf = rw (contains-crlf first last) in
    let parts : split crlf whole ≡ first ∷ last ∷ [] =
      split-join 13 (10 ∷ []) first (last ∷ []) crlf-Separates (f, (l, tt)) in
    sanitize_sdp_same whole (rw (sep, parts) (ground arith, (ground arith, tt)))
