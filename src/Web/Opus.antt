-- ===== src/Web/Opus.antt =====
-- web/ui.go: enhanceOpusSDP and mergeFmtpParams, which put the settings for weak networks into a
-- session description; with String and RegExp of JavaScript as these two use them. A Map is an
-- association list in the order of insertion.
use gocord.Base.{
  ℕ, ◌+◌, Bool, true, false, ◌&&◌, ◌||◌, List, [], ◌∷◌, ◌++◌, Option, none, some, length,
  if◌then◌else◌, ◌==◌, leb, any, map, ◌>>=◌,
}
use gocord.Base.Assoc.{Text, codes, text_eq, insert}
use gocord.Text.{trim_by, has_prefix, drop_text, contains, split, join}
use gocord.Text.Split.{lf, crlf}

-- \s, and what trim removes.
unfoldable pub is_js_space : ℕ → Bool
is_js_space c =
    leb 9 c && leb c 13
    || c == 32
    || c == 0xA0
    || c == 0x1680
    || leb 0x2000 c && leb c 0x200A
    || c == 0x2028
    || c == 0x2029
    || c == 0x202F
    || c == 0x205F
    || c == 0x3000
    || c == 0xFEFF

unfoldable pub trim : Text → Text
unfolding trim_by is_js_space
trim s = trim_by is_js_space s

-- toLowerCase, and the comparison of the flag "i" with an ASCII pattern: only ASCII letters have
-- another case here.
unfoldable pub lower : ℕ → ℕ
lower c = if leb b'A' c && leb c b'Z' then c + 32 else c

abbrev pub to_lower_case : Text → Text
to_lower_case s = map lower s

-- What follows a prefix in any case, if the text has it.
unfoldable pub after_prefix : Text → Text → Option Text
unfolding has_prefix drop_text lower
after_prefix prefix s =
    if has_prefix (to_lower_case prefix) (to_lower_case s)
    then some (drop_text (length prefix) s)
    else none

-- The characters from the start that pass a test, and the rest.
unfoldable pub span : (ℕ → Bool) → Text → Text × Text
span p [] = ([], [])
span p (c ∷ s) = let rest = span p s in if p c then (c ∷ rest.0, rest.1) else ([], c ∷ s)

-- A repetition + of a pattern: none if there is nothing.
unfoldable pub span_some : (ℕ → Bool) → Text → Option (Text × Text)
unfolding span
span_some p s = let found = span p s in if text_eq found.0 [] then none else some found

unfoldable pub is_digit : ℕ → Bool
is_digit c = leb b'0' c && leb c b'9'

-- The group of /^a=rtpmap:(\d+)\s+opus\/48000/i. No shorter repetition could match either, since
-- a digit is no space and a space does not begin "opus".
unfoldable pub match_rtpmap : Text → Option Text
match_rtpmap line = do
  rest ← after_prefix (codes "a=rtpmap:") line
  digits ← span_some is_digit rest
  spaces ← span_some is_js_space digits.1
  end ← after_prefix (codes "opus/48000") spaces.1
  some digits.0

-- Whether /^a=rtpmap:<payload type>\s+opus/i matches.
unfoldable pub is_rtpmap_of : Text → Text → Bool
is_rtpmap_of opus_pt line =
    elim (do
      rest ← after_prefix (codes "a=rtpmap:" ++ opus_pt) line
      spaces ← span_some is_js_space rest
      after_prefix (codes "opus") spaces.1) [ none ↦ false | some _ ↦ true ]

-- The first payload type of a list of lines.
unfoldable pub opus_payload_type : List Text → Option Text
opus_payload_type [] = none
opus_payload_type (line ∷ lines) = elim (match_rtpmap line) [
  | some pt ↦ some pt
  | none ↦ opus_payload_type lines
]

-- A text cut at the first occurrence of a character.
unfoldable pub cut_at : ℕ → Text → Option (Text × Text)
cut_at c [] = none
cut_at c (x ∷ s) =
    let rest = cut_at c s in
    if x == c
    then some ([], s)
    else elim rest [ none ↦ none | some (before, after) ↦ some (x ∷ before, after) ]

-- A parameter without a value.
unfoldable pub set_name : Text → List (Text × Text) → List (Text × Text)
unfolding insert text_eq
set_name name m = if text_eq name [] then m else insert (to_lower_case name) [] m

-- The body of the two loops of mergeFmtpParams.
unfoldable pub set_param : Text → List (Text × Text) → List (Text × Text)
unfolding cut_at trim insert set_name
set_param pair m = elim (cut_at b'=' pair) [
  | none ↦ set_name (trim pair) m
  | some (before, value) ↦
      if text_eq before []
      then set_name (trim pair) m
      else insert (to_lower_case (trim before)) (trim value) m
]

unfoldable pub set_params : List Text → List (Text × Text) → List (Text × Text)
unfolding set_param
set_params [] m = m
set_params (pair ∷ pairs) m = set_params pairs (set_param pair m)

-- The Map that mergeFmtpParams builds. An empty text has no parameter.
unfoldable pub merged_params : Text → Text → List (Text × Text)
unfolding set_params split
merged_params existing desired =
    set_params (split (b';' ∷ []) desired)
      (if text_eq existing [] then [] else set_params (split (b';' ∷ []) existing) [])

abbrev pub print_param : Text × Text → Text
print_param (k, v) = if text_eq v [] then k else k ++ (b'=' ∷ v)

-- mergeFmtpParams.
unfoldable pub merge_fmtp_params : Text → Text → Text
unfolding merged_params join
merge_fmtp_params existing desired =
    join (codes "; ") (map print_param (merged_params existing desired))

abbrev pub opus_params : Text
opus_params = codes "useinbandfec=1;usedtx=1;stereo=0;sprop-stereo=0;maxaveragebitrate=28000;cbr=0"

abbrev pub fmtp_of : Text → Text
fmtp_of opus_pt = codes "a=fmtp:" ++ opus_pt

unfoldable pub is_fmtp_of : Text → Text → Bool
unfolding has_prefix
is_fmtp_of opus_pt line =
    has_prefix (fmtp_of opus_pt ++ codes " ") line || has_prefix (fmtp_of opus_pt ++ codes "=") line

-- A line of parameters with the settings merged into it.
unfoldable pub tuned_line : Text → Text → Text
tuned_line opus_pt line =
    let prefix = fmtp_of opus_pt ++ codes " " in
    prefix ++ merge_fmtp_params (drop_text (length prefix) line) opus_params

-- The body of the second loop of enhanceOpusSDP.
unfoldable pub tune_line : Text → Text → Text
tune_line opus_pt line = if is_fmtp_of opus_pt line then tuned_line opus_pt line else line

-- The third loop, which puts a new line after each line of the codec.
unfoldable pub add_fmtp : Text → List Text → List Text
add_fmtp opus_pt [] = []
add_fmtp opus_pt (line ∷ lines) =
    let rest = add_fmtp opus_pt lines in
    if is_rtpmap_of opus_pt line
    then line ∷ (fmtp_of opus_pt ++ (codes " " ++ opus_params)) ∷ rest
    else line ∷ rest

unfoldable pub tune_lines : Text → List Text → List Text
tune_lines opus_pt lines =
    let new_lines = map (tune_line opus_pt) lines in
    if any (is_fmtp_of opus_pt) lines then new_lines else add_fmtp opus_pt new_lines

abbrev pub separator : Text → Text
separator sdp = if contains crlf sdp then crlf else lf

-- enhanceOpusSDP of a text; an empty one comes back, as it has no line of the codec.
unfoldable pub enhance_opus_sdp : Text → Text
unfolding opus_payload_type match_rtpmap after_prefix span_some is_digit is_js_space tune_lines
    tune_line tuned_line add_fmtp is_fmtp_of is_rtpmap_of merge_fmtp_params drop_text split join
    contains
enhance_opus_sdp sdp =
    let lines = split (separator sdp) sdp in
    elim (opus_payload_type lines) [
      | none ↦ sdp
      | some opus_pt ↦ join (separator sdp) (tune_lines opus_pt lines)
    ]
