-- ===== src/Signaling/Candidate.antt =====
-- internal/signaling/candidate.go and internal/signaling/protocol.go: the messages, and the filter
-- that they go through before they are relayed. encoding/json stands in `Codec`.
use gocord.Base.{
  ℕ, Bool, false, not, ◌&&◌, ◌||◌, List, [], ◌∷◌, length, ltb, if◌then◌else◌, Option, keep,
  option_or, get_elem?,
}
use gocord.Base.Assoc.{Text, text_eq, codes}
use gocord.Text.{
  trim_space, trim_by, trim_prefix, has_prefix, fields, before_last, contains, split, join,
}
use gocord.Text.Split.{lf, crlf}
use gocord.Signaling.Ip.{parse_ip}

-- A json.RawMessage; an absent one is empty.
abbrev pub Raw : Type 0
Raw = List ℕ

pub record Message : Type 0 where
  pub type : Text
  pub room : Text
  pub payload : Raw

pub record JoinPayload : Type 0 where
  pub secret : Text
  pub client_id : Text
  pub session_token : Text

pub record SessionDescription : Type 0 where
  pub type : Text
  pub sdp : Text

pub record IceCandidate : Type 0 where
  pub candidate : Text
  pub sdp_mid : Option Text
  pub sdp_mline_index : Option ℕ
  pub username_fragment : Option Text

pub record ErrorPayload : Type 0 where
  pub code : Text
  pub message : Text

-- `fields[4]` of the fields, when there are six, without its brackets and its zone.
unfoldable pub candidate_address : List Text → Text
unfolding trim_by before_last
candidate_address fs =
    let address =
      trim_by (λ c. text_eq (c ∷ []) (codes "[") || text_eq (c ∷ []) (codes "]"))
        (option_or (get_elem? fs 4) []) in
    option_or (before_last b'%' address) address

unfoldable pub is_valid_candidate : Text → Bool
unfolding trim_space trim_prefix fields has_prefix candidate_address parse_ip text_eq
is_valid_candidate candidate =
    let fs = fields (trim_prefix (codes "a=") (trim_space candidate)) in
    if ltb (length fs) 6 || not (has_prefix (codes "candidate:") (option_or (get_elem? fs 0) []))
    then false
    else parse_ip (candidate_address fs)

-- Whether the loop of sanitizeSDP keeps a line.
unfoldable pub keeps_line : Text → Bool
unfolding trim_space has_prefix trim_prefix is_valid_candidate
keeps_line line =
    let trimmed = trim_space line in
    not (
      has_prefix (codes "a=candidate:") trimmed
      && not (is_valid_candidate (trim_prefix (codes "a=") trimmed)))

abbrev pub separator : Text → Text
separator sdp = if contains crlf sdp then crlf else lf

unfoldable pub sanitize_sdp : Text → Text
unfolding contains split join keeps_line
sanitize_sdp sdp = join (separator sdp) (keep keeps_line (split (separator sdp) sdp))
