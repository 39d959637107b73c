-- ===== src/Push/SendTests.antt =====
-- Runs of internal/push/sender.go and of SignJWT at concrete inputs, with toy parameters.
use gocord.Base.{ℕ, ◌≡◌, refl, true, false, List, [], ◌∷◌, ◌++◌, none, some, replicate}
use gocord.Base.Int.{pos}
use gocord.Base.Assoc.{Text, codes, text_eq}
use gocord.Base64.{
  encode, encode_char, decode, decode_quanta, decode_char, raw_url_encoding, decode_two,
  decode_three, decode_four, at_end,
}
use gocord.Text.{has_prefix, has_suffix, trim_space, trim_by, trim_left_by, is_space}
use gocord.Push.Crypto.{Crypto}
use gocord.Push.Vapid.{decode_flexible}
use gocord.Push.Jwt.{Signer, sign_jwt}
use gocord.Push.Sender.{Url, Subscription, is_known_push_host}
use gocord.Push.Send.{Sender, new_sender, Request, prepare, digits_from, decimal}
use gocord.Push.Guard.{IsSendable, Carries, prepare-IsSendable}
use gocord.Push.Token.{IsSigned, sign_jwt-IsSigned}

abbrev push_url : Url
push_url = record {
  scheme = codes "https";
  host = codes "web.push.apple.com";
  hostname = codes "web.push.apple.com";
}

known_host_tests :
    (is_known_push_host push_url ≡ true)
    × (is_known_push_host (record push_url { scheme = codes "http" }) ≡ false)
    × (is_known_push_host (record push_url { hostname = codes "db5.notify.windows.com" }) ≡ true)
    × (is_known_push_host (record push_url { hostname = codes "notify.windows.com" }) ≡ false)
unfolding is_known_push_host has_suffix has_prefix text_eq
known_host_tests = (refl, refl, refl, refl)

decimal_test : decimal 120 ≡ codes "120"
unfolding digits_from
decimal_test = refl

abbrev toy : Crypto
toy = record {
  hmac = λ key text. replicate 32 7;
  PrivateKey = ℕ;
  public_key = λ d. 4 ∷ replicate 64 9;
  is_public_key = λ p. true;
  ecdh = λ d p. some (3 ∷ []);
  seal = λ key nonce text. text ++ replicate 16 5;
  open_sealed = λ key nonce sealed. none;
}

abbrev signer : Signer
signer = record {
  marshal_header = λ h. some h.alg;
  marshal_claims = λ c. some c.sub;
  sign = λ text. some (1 ∷ [], 2 ∷ []);
}

abbrev sender : Sender
sender = new_sender none (codes "https://example.org")

abbrev subscription : Subscription
subscription = record {
  endpoint = codes "https://web.push.apple.com/x";
  expiration_time = none;
  keys = record {
    p256dh = encode raw_url_encoding (4 ∷ replicate 64 9);
    auth = encode raw_url_encoding (replicate 16 1);
  };
}

abbrev wake : Request
wake = record {
  url = codes "https://web.push.apple.com/x";
  headers = (codes "TTL", codes "60") ∷ (codes "Urgency", codes "high") ∷ [];
  body = [];
}

prepare-IsSendable_example :
    (ua_pub : List ℕ) × (auth : List ℕ) × IsSendable
      (λ t. some push_url)
      sender
      subscription
      ua_pub
      auth
    × (wake.url ≡ subscription.endpoint)
    × Carries (λ t. some push_url) sender subscription toy ua_pub auth [] none (λ n. none) wake.body
unfolding prepare new_sender is_known_push_host has_suffix has_prefix text_eq encode encode_char
    decode_flexible trim_space trim_by trim_left_by is_space decode decode_quanta decode_char
    decode_two decode_three decode_four at_end
prepare-IsSendable_example =
    prepare-IsSendable (λ t. some push_url) sender subscription toy [] (pos 0) none (λ n. none) 5
      wake refl

abbrev token : Text
token =
    codes
      "RVMyNTY.bWU.AAAAAAAAAAAAAAAAAAAAAAAAAAAAAAAAAAAAAAAAAAEAAAAAAAAAAAAAAAAAAAAAAAAAAAAAAAAAAAAAAAAAAg"

sign_jwt-IsSigned_example : IsSigned signer (codes "https://a") (codes "me") 7 token
unfolding sign_jwt encode encode_char text_eq
sign_jwt-IsSigned_example = sign_jwt-IsSigned signer (codes "https://a") (codes "me") 7 token refl
