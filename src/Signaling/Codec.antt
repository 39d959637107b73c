-- ===== src/Signaling/Codec.antt =====
-- internal/signaling/candidate.go: `sanitizeMessage`; and the use of encoding/json by
-- internal/signaling/handler.go. The conversions between values and JSON texts are the fields of
-- `Codec`; `none` is the error of Marshal or Unmarshal.
use gocord.Base.{
  ℕ, ◌≡◌, ◌⊎◌, inl, inr, true, ◌||◌, if◌then◌else◌, Option, none, some, ◌>>=◌, arith, Bool-cases,
  Option-cases,
}
use gocord.Base.Assoc.{Text, text_eq, text_eq_iff, codes}
use gocord.Rooms.State.{Role}
use gocord.Signaling.Candidate.{
  Raw, Message, JoinPayload, SessionDescription, IceCandidate, ErrorPayload, is_valid_candidate,
  sanitize_sdp,
}

-- `marshal_error` and `marshal_joined` stand for mustJSON of an ErrorPayload and of the map that
-- the joined message carries: neither can fail.
pub record Codec : Type 0 where
  pub unmarshal_message : Raw → Option Message
  pub unmarshal_join : Raw → Option JoinPayload
  pub unmarshal_description : Raw → Option SessionDescription
  pub unmarshal_candidate : Raw → Option IceCandidate
  pub marshal_message : Message → Option Raw
  pub marshal_description : SessionDescription → Option Raw
  pub marshal_error : ErrorPayload → Raw
  pub marshal_joined : Role → ℕ → Text → Raw

module _ (c : Codec) where
  unfoldable pub sanitize_candidate : Message → Option Message
  sanitize_candidate msg = do
    candidate ← c.unmarshal_candidate msg.payload
    if is_valid_candidate candidate.candidate then some msg else none

  unfoldable pub sanitize_description : Message → Option Message
  sanitize_description msg = do
    description ← c.unmarshal_description msg.payload
    payload ←
        (if text_eq description.type msg.type
          then c.marshal_description (record description { sdp = sanitize_sdp description.sdp })
          else none)
    some (record msg { payload = payload })

  unfoldable pub sanitize_message : Message → Option Message
  unfolding sanitize_candidate sanitize_description
  sanitize_message msg =
      if text_eq msg.type (codes "ice-candidate")
      then sanitize_candidate msg
      else if text_eq msg.type (codes "offer") || text_eq msg.type (codes "answer")
      then sanitize_description msg
      else none

  -- What sanitizeMessage has made sure of in a message `out` that it makes from `msg`.
  abbrev pub CandidateIsSafe : Message → Message → Type 0
  CandidateIsSafe msg out =
      (candidate : IceCandidate) × (msg.type ≡ codes "ice-candidate")
      × (c.unmarshal_candidate msg.payload ≡ some candidate)
      × (is_valid_candidate candidate.candidate ≡ true)
      × (out ≡ msg)

  abbrev pub DescriptionIsSafe : Message → Message → Type 0
  DescriptionIsSafe msg out =
      (description : SessionDescription) × (payload : Raw) × ((msg.type ≡ codes "offer")
        ⊎ (msg.type ≡ codes "answer"))
      × (c.unmarshal_description msg.payload ≡ some description)
      × (description.type ≡ msg.type)
      × (c.marshal_description (record description { sdp = sanitize_sdp description.sdp })
          ≡ some payload)
      × (out ≡ record msg { payload = payload })

  sanitize_candidate-CandidateIsSafe :
      (msg out : Message)
      → msg.type ≡ codes "ice-candidate"
      → sanitize_candidate msg ≡ some out
      → CandidateIsSafe msg out
  unfolding sanitize_candidate
  sanitize_candidate-CandidateIsSafe msg out kind e =
      elim (Option-cases (c.unmarshal_candidate msg.payload)) [
        | inl bad ↦ absurd (ground arith)
        | inr (candidate, read) ↦ (candidate, kind, read, ground arith, ground arith)
      ]

  sanitize_description-DescriptionIsSafe :
      (msg out : Message)
      → (msg.type ≡ codes "offer") ⊎ (msg.type ≡ codes "answer")
      → sanitize_description msg ≡ some out
      → DescriptionIsSafe msg out
  unfolding sanitize_description
  sanitize_description-DescriptionIsSafe msg out kind e =
      elim (Option-cases (c.unmarshal_description msg.payload)) [
        | inl bad ↦ absurd (ground arith)
        | inr (description, read) ↦
            elim (Option-cases
              (c.marshal_description (record description { sdp = sanitize_sdp description.sdp }))) [
                | inl bad ↦ absurd (ground arith)
                | inr (payload, wrote) ↦ (
                  description,
                  payload,
                  kind,
                  read,
                  ground (arith, text_eq_iff description.type msg.type),
                  wrote,
                  ground arith,
                )
              ]
      ]

  -- Every message that passes sanitizeMessage is an ICE candidate with a valid address, as it came,
  -- or an offer or answer whose description is of the same type and has been sanitised.
  pub sanitize_message_lem :
      (msg out : Message)
      → sanitize_message msg ≡ some out
      → CandidateIsSafe msg out ⊎ DescriptionIsSafe msg out
  unfolding sanitize_message
  sanitize_message_lem msg out e = elim (Bool-cases (text_eq msg.type (codes "ice-candidate"))) [
    | inl ice ↦ inl (
        sanitize_candidate-CandidateIsSafe msg out ((text_eq_iff msg.type _).0 ice)
          (rw (ice, sanitize_message) at e))
    | inr not_ice ↦
        let e' = rw (not_ice, sanitize_message) at e in
        elim (Bool-cases (text_eq msg.type (codes "offer"))) [
          | inl offer ↦ inr (
              sanitize_description-DescriptionIsSafe msg out
                (inl ((text_eq_iff msg.type _).0 offer)) (rw offer at e'))
          | inr not_offer ↦ elim (Bool-cases (text_eq msg.type (codes "answer"))) [
            | inl answer ↦ inr (
                sanitize_description-DescriptionIsSafe msg out
                  (inr ((text_eq_iff msg.type _).0 answer)) (rw (not_offer, answer) at e'))
            | inr other ↦ absurd (cc (rw (not_offer, other) at e'))
          ]
        ]
  ]
