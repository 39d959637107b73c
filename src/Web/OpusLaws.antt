-- ===== src/Web/OpusLaws.antt =====
-- web/ui.go: what enhanceOpusSDP changes in a session description.
use gocord.Base.{
  ◌≡◌, ◌⊎◌, true, false, not, List, [], ◌++◌, Option, none, some, map, keep, any, All, length,
}
use gocord.Base.Assoc.{Text, codes}
use gocord.Text.{drop_text}
use gocord.Web.Opus.{merged_params, opus_params, fmtp_of, is_fmtp_of, merge_fmtp_params}

-- The later of two maps, and the earlier where it has no entry.
abbrev pub or_else : Option Text → Option Text → Option Text
or_else none b = b
or_else (some a) b = some a

-- The parameters of a text alone.
abbrev pub params_of : Text → List (Text × Text)
params_of s = merged_params [] s

-- The lines that are no parameters of the codec.
abbrev pub other_lines : Text → List Text → List Text
other_lines pt lines = keep (λ l. not (is_fmtp_of pt l)) lines

abbrev pub param_lines : Text → List Text → List Text
param_lines pt lines = keep (is_fmtp_of pt) lines

abbrev start_of : Text → Text
start_of pt = fmtp_of pt ++ codes " "

-- A line of parameters with the settings merged into those that it has after its start.
abbrev pub merged_line : Text → Text → Text
merged_line pt line =
    start_of pt ++ merge_fmtp_params (drop_text (length (start_of pt)) line) opus_params

-- A line of the settings alone.
abbrev pub new_line : Text → Text
new_line pt = fmtp_of pt ++ (codes " " ++ opus_params)

-- What becomes of the lines of parameters: each is merged with the settings; or if there are none,
-- there is one afterwards, and all that are there are of the settings alone.
abbrev pub ParamsAreTuned : Text → List Text → List Text → Type 0
ParamsAreTuned pt lines lines' =
    (any (is_fmtp_of pt) lines' ≡ true)
    × (((any (is_fmtp_of pt) lines ≡ true)
          × (param_lines pt lines' ≡ map (merged_line pt) (param_lines pt lines)))
        ⊎ ((any (is_fmtp_of pt) lines ≡ false)
            × All (λ l. l ≡ new_line pt) (param_lines pt lines')))
