-- ===== src/Web/TextTests.antt =====
-- The functions on texts of web/ui.go at concrete inputs, and the theorems at inputs that meet their
-- hypotheses.
use gocord.Base.{ℕ, ◌≡◌, refl, List, [], ◌∷◌, ◌++◌, some, arith}
use gocord.Base.Assoc.{Text, codes}
use gocord.Text.Split.{lf, crlf}
use gocord.Web.Opus.{enhance_opus_sdp, lower, is_js_space, merge_fmtp_params}
use gocord.Web.Utf8 as Utf8
use gocord.Web.Card.{Card, Json, call_card_link, found, parse_call_card}
use gocord.Web.CardLink.{parsed_card, parse_call_card-link}

merge_test :
    merge_fmtp_params (codes "minptime=10; UseInbandFec=0;x") (codes "useinbandfec=1;cbr=0")
    ≡ codes "minptime=10; useinbandfec=1; x; cbr=0"
unfolding merge_fmtp_params lower
merge_test = refl

abbrev line : List ℕ → List ℕ
line s = s ++ crlf

enhance_test :
    enhance_opus_sdp (
      line (codes "v=0")
      ++ (line (codes "a=rtpmap:111 OPUS/48000/2") ++ codes "a=fmtp:111 minptime=10"))
    ≡ line (codes "v=0")
      ++ (line (codes "a=rtpmap:111 OPUS/48000/2")
          ++ codes
              "a=fmtp:111 minptime=10; useinbandfec=1; usedtx=1; stereo=0; sprop-stereo=0; maxaveragebitrate=28000; cbr=0")
unfolding enhance_opus_sdp lower
enhance_test = refl

enhance_add_test :
    enhance_opus_sdp (codes "a=rtpmap:96 opus/48000")
    ≡ codes "a=rtpmap:96 opus/48000"
      ++ (lf
          ++ codes
              "a=fmtp:96 useinbandfec=1;usedtx=1;stereo=0;sprop-stereo=0;maxaveragebitrate=28000;cbr=0")
unfolding enhance_opus_sdp lower
enhance_add_test = refl

abbrev lines : List Text
lines = codes "a=rtpmap:96 opus/48000" ∷ codes "a=fmtp:96 minptime=10" ∷ codes "m=video" ∷ []

utf8_test :
    Utf8.decode (Utf8.encode (codes "a" ++ (233 ∷ 8364 ∷ 128512 ∷ [])))
    ≡ some (codes "a" ++ (233 ∷ 8364 ∷ 128512 ∷ []))
unfolding Utf8.decode Utf8.encode
utf8_test = refl

abbrev pub card : Card
card = record {
  name = codes "Ana";
  endpoint = codes "https://push.example/1";
  p256dh = codes "BK";
  auth = codes "dQ";
}

-- JSON that is always read as that card.
abbrev pub json : Json
json = record { stringify = λ c. c.name ++ c.endpoint; parse = λ _. some (some (parsed_card card)) }

parse_call_card-link_example :
    parse_call_card json (call_card_link json (codes "https://call.example") card) ≡ found card
unfolding Utf8.is_scalar is_js_space
parse_call_card-link_example =
    parse_call_card-link json (codes "https://call.example") card (ground arith) (ground arith)
      (ground arith) refl (λ e. ground arith) (λ e. ground arith) (λ e. ground arith)
