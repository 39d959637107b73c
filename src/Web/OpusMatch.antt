-- ===== src/Web/OpusMatch.antt =====
-- web/ui.go: the two patterns of enhanceOpusSDP agree on the line that names the codec.
use gocord.Base.{
  ℕ, zero, suc, ◌≡◌, refl, sym, ap, ◌∙◌, inl, inr, Bool, true, ◌&&◌, List, [], ◌∷◌, ◌++◌, Option,
  some, ◌>>=◌, map-append, any, length, arith, Bool-cases, >>=-eq-some, Option-cases,
}
use gocord.Base.Assoc.{Text, codes, text_eq}
use gocord.Text.{has_prefix, drop_text}
use gocord.Text.Split.{has_prefix_self}
use gocord.Web.Opus.{
  lower, to_lower_case, after_prefix, span, span_some, is_digit, is_js_space, match_rtpmap,
  is_rtpmap_of, opus_payload_type,
}

has_prefix-append :
    (p q s : Text)
    → has_prefix (p ++ q) s ≡ (has_prefix p s && has_prefix q (drop_text (length p) s))
unfolding has_prefix drop_text
has_prefix-append [] q s = refl
has_prefix-append (a ∷ p) q [] = refl
has_prefix-append (a ∷ p) q (c ∷ s) = rw (has_prefix-append p q s) (ground arith)

drop_text-append :
    (p q s : Text) → drop_text (length (p ++ q)) s ≡ drop_text (length q) (drop_text (length p) s)
unfolding drop_text
drop_text-append [] q s = refl
drop_text-append (a ∷ p) [] [] = refl
drop_text-append (a ∷ p) (b ∷ q) [] = refl
drop_text-append (a ∷ p) q (c ∷ s) = drop_text-append p q s

drop_text-map : (n : ℕ) (s : Text) → drop_text n (to_lower_case s) ≡ to_lower_case (drop_text n s)
unfolding drop_text
drop_text-map zero s = refl
drop_text-map (suc n) [] = refl
drop_text-map (suc n) (c ∷ s) = drop_text-map n s

length-map : (s : Text) → length (to_lower_case s) ≡ length s
length-map [] = refl
length-map (c ∷ s) = ap suc (length-map s)

after_prefix-append :
    (p q s : Text) → after_prefix (p ++ q) s ≡ (after_prefix p s >>= after_prefix q)
unfolding after_prefix
after_prefix-append p q s =
    let whole : has_prefix (to_lower_case (p ++ q)) (to_lower_case s) ≡ (
        has_prefix (to_lower_case p) (to_lower_case s)
        && has_prefix (to_lower_case q) (to_lower_case (drop_text (length p) s))) =
      ap (λ (t : Text). has_prefix t (to_lower_case s)) (map-append lower p q)
      ∙ has_prefix-append (to_lower_case p) (to_lower_case q) (to_lower_case s)
      ∙ ap
          (λ (n : ℕ).
            has_prefix (to_lower_case p) (to_lower_case s)
            && has_prefix (to_lower_case q) (drop_text n (to_lower_case s)))
          (length-map p)
      ∙ ap
          (λ (t : Text).
            has_prefix (to_lower_case p) (to_lower_case s) && has_prefix (to_lower_case q) t)
          (drop_text-map (length p) s) in
    elim (Bool-cases (has_prefix (to_lower_case p) (to_lower_case s))) [
      | inl e ↦ rw (whole, e, drop_text-append p q s) refl
      | inr e ↦ rw (whole, e) refl
    ]

drop_text-prefix : (d r : Text) → drop_text (length d) (d ++ r) ≡ r
unfolding drop_text
drop_text-prefix [] r = refl
drop_text-prefix (c ∷ d) r = drop_text-prefix d r

after_prefix_self : (d r : Text) → after_prefix d (d ++ r) ≡ some r
unfolding after_prefix
after_prefix_self d r =
    rw (map-append lower d r, has_prefix_self (to_lower_case d) (to_lower_case r))
      (ap some (drop_text-prefix d r))

span-append : (p : ℕ → Bool) (s : Text) → s ≡ (span p s).0 ++ (span p s).1
unfolding span
span-append p [] = refl
span-append p (c ∷ s) = elim (Bool-cases (p c)) [
  | inl e ↦ rw e (ap (◌∷◌ c) (span-append p s))
  | inr e ↦ rw e refl
]

span_some-append : (p : ℕ → Bool) (s d r : Text) → span_some p s ≡ some (d, r) → s ≡ d ++ r
unfolding span_some
span_some-append p s d r e = elim (Bool-cases (text_eq (span p s).0 [])) [
  | inl f ↦ absurd (ground arith)
  | inr f ↦
      let same : span p s ≡ (d, r) = ground (arith, e) in
      span-append p s ∙ ap (λ (q : Text × Text). q.0 ++ q.1) same
]

is_rtpmap_of-reads :
    (pt line r spaces t end : Text)
    → after_prefix (codes "a=rtpmap:" ++ pt) line ≡ some r
    → span_some is_js_space r ≡ some (spaces, t)
    → after_prefix (codes "opus") t ≡ some end
    → is_rtpmap_of pt line ≡ true
unfolding is_rtpmap_of
is_rtpmap_of-reads pt line r spaces t end a b c = rw (a, is_rtpmap_of) (rw b (rw c refl))

-- The line of which the first pattern takes the payload type is matched by the second.
match_rtpmap-is_rtpmap_of :
    (line pt : Text) → match_rtpmap line ≡ some pt → is_rtpmap_of pt line ≡ true
unfolding match_rtpmap
match_rtpmap-is_rtpmap_of line pt e =
    let (rest, a, e1) = >>=-eq-some (after_prefix (codes "a=rtpmap:") line) _ e in
    let (digits, b, e2) = >>=-eq-some (span_some is_digit rest) _ e1 in
    let (spaces, c, e3) = >>=-eq-some (span_some is_js_space digits.1) _ e2 in
    let (end, d, e4) = >>=-eq-some (after_prefix (codes "opus/48000") spaces.1) _ e3 in
    let (short, f, _) =
      >>=-eq-some (after_prefix (codes "opus") spaces.1) _
        (sym (after_prefix-append (codes "opus") (codes "/48000") spaces.1) ∙ d) in
    let same : digits.0 ≡ pt = cc in
    let whole : after_prefix (codes "a=rtpmap:" ++ pt) line ≡ some digits.1 =
      after_prefix-append (codes "a=rtpmap:") pt line
      ∙ ap (λ (o : Option Text). o >>= after_prefix pt) a
      ∙ ap (after_prefix pt) (
          span_some-append is_digit rest digits.0 digits.1 b
          ∙ ap (λ (x : Text). x ++ digits.1) same)
      ∙ after_prefix_self pt digits.1 in
    is_rtpmap_of-reads pt line digits.1 spaces.0 spaces.1 short whole c f

pub opus_payload_type-is_rtpmap_of :
    (pt : Text) (lines : List Text)
    → opus_payload_type lines ≡ some pt
    → any (is_rtpmap_of pt) lines ≡ true
unfolding opus_payload_type
opus_payload_type-is_rtpmap_of pt [] e = cc
opus_payload_type-is_rtpmap_of pt (line ∷ lines) e = elim (Option-cases (match_rtpmap line)) [
  | inl f ↦ rw (opus_payload_type-is_rtpmap_of pt lines (ground (arith, e, f))) (ground arith)
  | inr (found, f) ↦ rw (match_rtpmap-is_rtpmap_of line pt (ground (arith, e, f))) refl
]
