-- ===== src/Push/Guard.antt =====
-- internal/push/sender.go: to whom a request goes, and what the answers mean.
use gocord.Base.{
  ℕ, ◌+◌, ◌≡◌, refl, ap, sym, ◌∙◌, ◌⊎◌, inl, inr, Bool, true, false, not, ◌&&◌, ◌||◌, List, [], ◌∷◌,
  ◌++◌, Option, none, some, length, ◌==◌, ==_iff, any, subst, arith, Bool-cases, Option-cases,
}
use gocord.Base.Int.{ℤ}
use gocord.Base.Assoc.{Text, text_eq, codes}
use gocord.Text.{trim_space}
use gocord.Rooms.State.{Reader}
use gocord.Push.Crypto.{Crypto}
use gocord.Push.Encrypt.{Bytes, bytes, failed, PushError, encrypt_payload}
use gocord.Push.Jwt.{sign_jwt}
use gocord.Push.Vapid.{decode_flexible}
use gocord.Push.Sender.{
  Url, Subscription, SubscriptionKeys, SendError, subscription_expired, vapid_key_mismatch, Checked,
  checked, unchecked, push_service_failed, is_vapid_key_mismatch, answer_error, check_keys,
  check_subscription,
}
use gocord.Push.Send.{
  Sender, Request, Prepared, request, not_sent, sign_request, seal_request, prepare, twelve_hours,
}

-- What a subscription shows before anything is sent to it: its URL, and the key and secret in it.
pub record IsSendable (parse : Text → Option Url) (s : Sender) (sub : Subscription)
    (ua_pub auth : List ℕ) : Type 0 where
  pub url : Url
  pub parsed : parse sub.endpoint ≡ some url
  pub allowed : s.allow_endpoint url ≡ true
  pub key_read : decode_flexible sub.keys.p256dh ≡ some ua_pub
  pub key_length : length ua_pub ≡ 65
  pub auth_read : decode_flexible sub.keys.auth ≡ some auth
  pub auth_length : length auth ≡ 16

abbrev IsKeyed : Url → SubscriptionKeys → Checked → Type 0
IsKeyed u keys (unchecked e) = Unit
IsKeyed u keys (checked v ua_pub auth) =
    (v ≡ u)
    × (decode_flexible keys.p256dh ≡ some ua_pub)
    × (length ua_pub ≡ 65)
    × (decode_flexible keys.auth ≡ some auth)
    × (length auth ≡ 16)

check_keys-IsKeyed : (u : Url) (keys : SubscriptionKeys) → IsKeyed u keys (check_keys u keys)
unfolding check_keys
check_keys-IsKeyed u keys = elim (Option-cases (decode_flexible keys.p256dh)) [
  | inl bad ↦ rw (bad, check_keys) tt
  | inr (ua_pub, key) ↦ elim (Bool-cases (length ua_pub == 65)) [
    | inr short ↦ rw (key, check_keys) (rw short tt)
    | inl right ↦ elim (Option-cases (decode_flexible keys.auth)) [
      | inl bad ↦ rw (key, check_keys) (rw right (rw bad tt))
      | inr (auth, secret) ↦ elim (Bool-cases (length auth == 16)) [
        | inr short ↦ rw (key, check_keys) (rw right (rw secret (rw short tt)))
        | inl right' ↦
            rw (key, check_keys)
              (rw right (
                rw secret (
                  rw right' (
                    refl,
                    key,
                    (==_iff (length ua_pub) 65).0 right,
                    secret,
                    (==_iff (length auth) 16).0 right',
                  ))))
      ]
    ]
  ]
]

Bytes-cases : (b : Bytes) → ((er : PushError) × (b ≡ failed er)) ⊎ ((xs : List ℕ) × (b ≡ bytes xs))
Bytes-cases (bytes xs) = inr (xs, refl)
Bytes-cases (failed er) = inl (er, refl)

module _ (parse : Text → Option Url) (s : Sender) (sub : Subscription) where
  check_subscription-IsSendable :
      (u : Url) (ua_pub auth : List ℕ)
      → check_subscription parse s.allow_endpoint sub ≡ checked u ua_pub auth
      → IsSendable parse s sub ua_pub auth
  unfolding check_subscription
  check_subscription-IsSendable u ua_pub auth e =
      elim (Bool-cases (text_eq (trim_space sub.endpoint) [])) [
        | inl empty ↦ absurd (cc (rw (empty, check_subscription) at e))
        | inr given ↦ elim (Option-cases (parse sub.endpoint)) [
          | inl bad ↦ absurd (cc (rw bad at (rw (given, check_subscription) at e)))
          | inr (v, parsed) ↦ elim (Bool-cases (s.allow_endpoint v)) [
            | inr refused ↦
                absurd (cc (rw refused at (rw parsed at (rw (given, check_subscription) at e))))
            | inl allowed ↦
                let e' = rw allowed at (rw parsed at (rw (given, check_subscription) at e)) in
                let k = subst (IsKeyed v sub.keys) e' (check_keys-IsKeyed v sub.keys) in
                record {
                  url = v;
                  parsed = parsed;
                  allowed = allowed;
                  key_read = k.1;
                  key_length = k.2;
                  auth_read = k.3;
                  auth_length = k.4;
                }
          ]
        ]
      ]

  abbrev GoesTo : Text → List ℕ → Prepared → Type 0
  GoesTo endpoint body (not_sent e) = Unit
  GoesTo endpoint body (request r) = (r.url ≡ endpoint) × (r.body ≡ body)

  sign_request-GoesTo :
      (u : Url) (endpoint : Text) (ttl : ℤ) (encrypted : List ℕ) (now : ℕ)
      → GoesTo endpoint encrypted (sign_request s u endpoint ttl encrypted now)
  unfolding sign_request
  sign_request-GoesTo u endpoint ttl encrypted now = elim (Option-cases s.vapid) [
    | inl no_keys ↦ rw (no_keys, sign_request) (refl, refl)
    | inr (v, keys) ↦
        elim (Option-cases (
          sign_jwt v.signer (u.scheme ++ (codes "://" ++ u.host)) s.subject (now + twelve_hours))) [
            | inl bad ↦ rw (keys, sign_request) (rw bad tt)
            | inr (token, good) ↦ rw (keys, sign_request) (rw good (refl, refl))
          ]
  ]

  module _ (c : Crypto) where
    -- What a request carries: nothing for an empty payload, and otherwise its encryption.
    abbrev pub Carries : List ℕ → List ℕ → List ℕ → Option c.PrivateKey → Reader → List ℕ → Type 0
    Carries ua_pub auth [] as_priv read body = body ≡ []
    Carries ua_pub auth (b ∷ bs) as_priv read body =
        encrypt_payload c ua_pub auth (b ∷ bs) as_priv read ≡ bytes body

    seal_request-checked :
        (payload : List ℕ) (ttl : ℤ) (as_priv : Option c.PrivateKey) (read : Reader) (now : ℕ)
        (k : Checked) (r : Request)
        → seal_request c parse s sub payload ttl as_priv read now k ≡ request r
        → (u : Url) × (ua_pub : List ℕ) × (auth : List ℕ) × (k ≡ checked u ua_pub auth)
          × (r.url ≡ sub.endpoint)
          × Carries ua_pub auth payload as_priv read r.body
    unfolding seal_request
    seal_request-checked payload ttl as_priv read now (unchecked er) r e = absurd (cc)
    seal_request-checked [] ttl as_priv read now (checked u ua_pub auth) r e =
        let g = subst (GoesTo sub.endpoint []) e (sign_request-GoesTo u sub.endpoint ttl [] now) in
        (u, ua_pub, auth, refl, g.0, g.1)
    seal_request-checked (b ∷ bs) ttl as_priv read now (checked u ua_pub auth) r e =
        elim (Bytes-cases (encrypt_payload c ua_pub auth (b ∷ bs) as_priv read)) [
          | inl (er, bad) ↦ absurd (cc (rw (bad, seal_request) at e))
          | inr (encrypted, good) ↦
              let e' = rw (good, seal_request) at e in
              let g =
                subst (GoesTo sub.endpoint encrypted) e'
                  (sign_request-GoesTo u sub.endpoint ttl encrypted now) in
              (u, ua_pub, auth, refl, g.0, good ∙ ap bytes (sym g.1))
        ]

    -- Send makes a request only for a subscription whose endpoint can be parsed and is allowed and
    -- whose key and secret have 65 and 16 bytes; it goes to that endpoint and carries nothing, for
    -- an empty payload, or the payload encrypted for that key and secret.
    pub prepare-IsSendable :
        (payload : List ℕ) (ttl : ℤ) (as_priv : Option c.PrivateKey) (read : Reader) (now : ℕ)
        (r : Request)
        → prepare c parse s sub payload ttl as_priv read now ≡ request r
        → (ua_pub : List ℕ) × (auth : List ℕ) × IsSendable parse s sub ua_pub auth
          × (r.url ≡ sub.endpoint)
          × Carries ua_pub auth payload as_priv read r.body
    unfolding prepare
    prepare-IsSendable payload ttl as_priv read now r e =
        let k = check_subscription parse s.allow_endpoint sub in
        let (u, ua_pub, auth, same, url, carried) =
          seal_request-checked payload ttl as_priv read now k r e in
        (ua_pub, auth, check_subscription-IsSendable u ua_pub auth same, url, carried)

abbrev is_one_of : ℕ → List ℕ → Bool
is_one_of status statuses = any (λ n. status == n) statuses

is_vapid_key_mismatch-status :
    (errno : Text → Option ℕ) (status : ℕ) (body : Text)
    → is_vapid_key_mismatch errno status body ≡ true
    → (status ≡ 401) ⊎ (status ≡ 403)
unfolding is_vapid_key_mismatch
is_vapid_key_mismatch-status errno status body e =
    elim (Bool-cases (not (status == 401) && not (status == 403))) [
      | inl other ↦ absurd (cc (rw (other, is_vapid_key_mismatch) at e))
      | inr right ↦ ground arith
    ]

-- The statuses that an outcome of Send can come from.
abbrev pub IsAnsweredBy : ℕ → Option SendError → Type 0
IsAnsweredBy status none = (status ≡ 200) ⊎ (status ≡ 201) ⊎ (status ≡ 202) ⊎ (status ≡ 204)
IsAnsweredBy status (some subscription_expired) = (status ≡ 404) ⊎ (status ≡ 410)
IsAnsweredBy status (some vapid_key_mismatch) = (status ≡ 401) ⊎ (status ≡ 403)
IsAnsweredBy status (some push_service_failed) =
    (is_one_of status (200 ∷ 201 ∷ 202 ∷ 204 ∷ 404 ∷ 410 ∷ []) ≡ false)
IsAnsweredBy status (some _) = ⊥

-- Success is answered by 200, 201, 202 or 204, an expired subscription by 404 or 410, a key mismatch
-- by 401 or 403, and a failure of the service by a status that is none of the first six; no other
-- error comes from an answer.
answer_error-IsAnsweredBy :
    (errno : Text → Option ℕ) (status : ℕ) (body : Text)
    → IsAnsweredBy status (answer_error errno status body)
unfolding answer_error
answer_error-IsAnsweredBy errno status body =
    elim (Bool-cases (status == 200 || status == 201 || status == 202 || status == 204)) [
      | inl sent ↦ rw (sent, answer_error) (ground arith)
      | inr other ↦ elim (Bool-cases (status == 404 || status == 410)) [
        | inl gone ↦ rw (other, answer_error) (rw gone (ground arith))
        | inr refused ↦ elim (Bool-cases (is_vapid_key_mismatch errno status body)) [
          | inl mismatch ↦
              rw (other, answer_error)
                (rw refused (rw mismatch (is_vapid_key_mismatch-status errno status body mismatch)))
          | inr failed' ↦ rw (other, answer_error) (rw refused (rw failed' (ground arith)))
        ]
      ]
    ]
