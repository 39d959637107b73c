-- ===== src/Push/Sender.antt =====
-- internal/push/sender.go: the checks before a request, the request, and what the answer means.
-- net/url and encoding/json are parameters. Of an error the model keeps the kind that errors.Is
-- sees, not its text.
use gocord.Base.{
  ℕ, Bool, true, false, not, ◌&&◌, ◌||◌, List, [], ◌∷◌, Option, none, some, option_or, length, ◌==◌,
  if◌then◌else◌, any,
}
use gocord.Base.Int.{ℤ, pos, negsuc}
use gocord.Base.Assoc.{Text, text_eq, codes}
use gocord.Text.{trim_space, has_suffix, contains}
use gocord.Push.Encrypt.{PushError}
use gocord.Push.Vapid.{decode_flexible}

-- What the sender reads of a parsed URL.
pub record Url : Type 0 where
  pub scheme : Text
  pub host : Text
  pub hostname : Text

pub record SubscriptionKeys : Type 0 where
  pub p256dh : Text
  pub auth : Text

pub record Subscription : Type 0 where
  pub endpoint : Text
  pub expiration_time : Option ℤ
  pub keys : SubscriptionKeys

pub data SendError : Type 0 where
  invalid_subscription : SendError
  subscription_expired : SendError
  vapid_key_mismatch : SendError
  push_service_failed : SendError
  encrypt_failed : PushError → SendError
  bad_request : SendError
  sign_failed : SendError

abbrev pub known_push_hosts : List Text
known_push_hosts =
    codes "fcm.googleapis.com"
    ∷ codes "updates.push.services.mozilla.com"
    ∷ codes "web.push.apple.com"
    ∷ []

unfoldable pub is_known_push_host : Url → Bool
unfolding text_eq has_suffix
is_known_push_host u =
    if not (text_eq u.scheme (codes "https"))
    then false
    else if any (text_eq u.hostname) known_push_hosts
    then true
    else has_suffix (codes ".notify.windows.com") u.hostname

-- isVAPIDKeyMismatch; the parameter answers the number `errno` of a JSON body that can be read.
unfoldable pub is_vapid_key_mismatch : (Text → Option ℕ) → ℕ → Text → Bool
unfolding contains
is_vapid_key_mismatch errno status body =
    if not (status == 401) && not (status == 403)
    then false
    else if option_or (errno body) 0 == 109
    then true
    else contains (codes "VapidPkHashMismatch") body
      || contains (codes "VAPID public key mismatch") body

-- The switch on the status of the answer; none is success.
unfoldable pub answer_error : (Text → Option ℕ) → ℕ → Text → Option SendError
unfolding is_vapid_key_mismatch
answer_error errno status body =
    if status == 200 || status == 201 || status == 202 || status == 204
    then none
    else if status == 404 || status == 410
    then some subscription_expired
    else if is_vapid_key_mismatch errno status body
    then some vapid_key_mismatch
    else some push_service_failed

-- The key and the secret of a subscription whose endpoint is allowed.
pub data Checked : Type 0 where
  checked : Url → List ℕ → List ℕ → Checked
  unchecked : SendError → Checked

unfoldable pub check_keys : Url → SubscriptionKeys → Checked
unfolding decode_flexible
check_keys u keys = elim (decode_flexible keys.p256dh) [
  | none ↦ unchecked invalid_subscription
  | some ua_pub ↦
      if not (length ua_pub == 65)
      then unchecked invalid_subscription
      else elim (decode_flexible keys.auth) [
        | none ↦ unchecked invalid_subscription
        | some auth ↦
            if not (length auth == 16)
            then unchecked invalid_subscription
            else checked u ua_pub auth
      ]
]

-- The checks at the start of Send: `allow_endpoint` is the sender's, isKnownPushHost unless it was
-- set to another.
unfoldable pub check_subscription : (Text → Option Url) → (Url → Bool) → Subscription → Checked
unfolding trim_space check_keys
check_subscription parse allow_endpoint sub =
    if text_eq (trim_space sub.endpoint) []
    then unchecked invalid_subscription
    else elim (parse sub.endpoint) [
      | none ↦ unchecked invalid_subscription
      | some u ↦
          if not (allow_endpoint u) then unchecked invalid_subscription else check_keys u sub.keys
    ]

-- `if ttlSeconds <= 0 { ttlSeconds = 60 }`.
unfoldable pub request_ttl : ℤ → ℕ
request_ttl (pos n) = if n == 0 then 60 else n
request_ttl (negsuc _) = 60
