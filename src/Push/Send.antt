-- ===== src/Push/Send.antt =====
-- internal/push/sender.go: NewSender and Send.
use gocord.Base.{
  ℕ, zero, suc, ◌+◌, ◌/◌, ◌%◌, Bool, List, [], ◌∷◌, ◌++◌, Option, none, some, take, ltb,
  if◌then◌else◌,
}
use gocord.Base.Int.{ℤ}
use gocord.Base.Assoc.{Text, text_eq, codes}
use gocord.Rooms.State.{Reader}
use gocord.Push.Crypto.{Crypto}
use gocord.Push.Encrypt.{bytes, failed, encrypt_payload}
use gocord.Push.Jwt.{Signer, sign_jwt}
use gocord.Push.Sender.{
  Url, Subscription, SendError, encrypt_failed, sign_failed, push_service_failed, Checked, checked,
  unchecked, is_known_push_host, answer_error, check_subscription, request_ttl,
}

-- strconv.Itoa of a number that is not negative; there is a round for each unit, which is more than
-- a round for each digit.
unfoldable pub digits_from : ℕ → ℕ → Text → Text
digits_from zero n after = after
digits_from (suc rounds) n after =
    let more = digits_from rounds (n / 10) ((n % 10 + b'0') ∷ after) in
    if ltb n 10 then (n + b'0') ∷ after else more

abbrev pub decimal : ℕ → Text
decimal n = digits_from (suc n) n []

-- A Sender's VAPID keys: the text of the public key, and what signs with the private key.
pub record Vapid : Type 0 where
  pub public_key : Text
  pub signer : Signer

pub record Sender : Type 0 where
  pub vapid : Option Vapid
  pub subject : Text
  pub allow_endpoint : Url → Bool

-- The client is the argument `client` of `send`.
unfoldable pub new_sender : Option Vapid → Text → Sender
unfolding is_known_push_host
new_sender keys subject = record {
  vapid = keys;
  subject = if text_eq subject [] then codes "mailto:admin@localhost" else subject;
  allow_endpoint = is_known_push_host;
}

-- Sender.VAPIDPublicKey.
unfoldable pub vapid_public_key : Sender → Text
vapid_public_key s = elim s.vapid [ none ↦ [] | some v ↦ v.public_key ]

-- A POST request; without a body it is empty.
pub record Request : Type 0 where
  pub url : Text
  pub headers : List (Text × Text)
  pub body : List ℕ

pub data Prepared : Type 0 where
  request : Request → Prepared
  not_sent : SendError → Prepared

abbrev pub content_headers : List ℕ → List (Text × Text)
content_headers [] = []
content_headers (b ∷ bs) =
    (codes "Content-Type", codes "application/octet-stream")
    ∷ (codes "Content-Encoding", codes "aes128gcm")
    ∷ []

abbrev pub vapid_headers : Text → Text → List (Text × Text)
vapid_headers token key =
    (codes "Authorization", codes "vapid t=" ++ (token ++ (codes ", k=" ++ key)))
    ∷ (codes "Crypto-Key", codes "p256ecdsa=" ++ key)
    ∷ []

unfoldable pub twelve_hours : ℕ
twelve_hours = 43200

-- Send from the encrypted body on, up to the request. http.NewRequest does not fail, since the URL
-- has been parsed. `now` is in seconds.
unfoldable pub sign_request : Sender → Url → Text → ℤ → List ℕ → ℕ → Prepared
unfolding request_ttl sign_jwt digits_from twelve_hours
sign_request s u endpoint ttl encrypted now =
    let plain =
      (codes "TTL", decimal (request_ttl ttl))
      ∷ (codes "Urgency", codes "high")
      ∷ content_headers encrypted in
    elim s.vapid [
      | none ↦ request (record { url = endpoint; headers = plain; body = encrypted })
      | some v ↦
          elim (sign_jwt v.signer (u.scheme ++ (codes "://" ++ u.host)) s.subject
            (now + twelve_hours)) [
              | none ↦ not_sent sign_failed
              | some token ↦ request (record {
                url = endpoint;
                headers = plain ++ vapid_headers token v.public_key;
                body = encrypted;
              })
            ]
    ]

module _ (c : Crypto) (parse : Text → Option Url) where
  -- The sender's ephemeral key and the salt's bytes are arguments, as in EncryptPayload.
  unfoldable pub seal_request :
      Sender → Subscription → List ℕ → ℤ → Option c.PrivateKey → Reader → ℕ → Checked → Prepared
  unfolding sign_request encrypt_payload
  seal_request s sub payload ttl as_priv read now (unchecked e) = not_sent e
  seal_request s sub [] ttl as_priv read now (checked u ua_pub auth) =
      sign_request s u sub.endpoint ttl [] now
  seal_request s sub (b ∷ bs) ttl as_priv read now (checked u ua_pub auth) =
      elim (encrypt_payload c ua_pub auth (b ∷ bs) as_priv read) [
        | failed e ↦ not_sent (encrypt_failed e)
        | bytes encrypted ↦ sign_request s u sub.endpoint ttl encrypted now
      ]

  -- Send up to `s.client.Do`.
  unfoldable pub prepare :
      Sender → Subscription → List ℕ → ℤ → Option c.PrivateKey → Reader → ℕ → Prepared
  unfolding seal_request check_subscription
  prepare s sub payload ttl as_priv read now =
      seal_request s sub payload ttl as_priv read now
        (check_subscription parse s.allow_endpoint sub)

  -- Send. `client` is s.client.Do, none for its error, or the status and the body of the answer.
  -- The result is the error, or none.
  unfoldable pub send :
      (Request → Option (ℕ × Text))
      → (Text → Option ℕ)
      → Sender
      → Subscription
      → List ℕ
      → ℤ
      → Option c.PrivateKey
      → Reader
      → ℕ
      → Option SendError
  unfolding prepare answer_error
  send client errno s sub payload ttl as_priv read now =
      elim (prepare s sub payload ttl as_priv read now) [
        | not_sent e ↦ some e
        | request r ↦ elim (client r) [
          | none ↦ some push_service_failed
          | some (status, body) ↦ answer_error errno status (take 512 body)
        ]
      ]
