-- ===== src/Signaling/Origin.antt =====
-- internal/signaling/handler.go: sameOrigin and requestScheme, which decide on the upgrade to a
-- WebSocket. net/url is a parameter.
use gocord.Base.{
  Bool, true, false, not, ◌&&◌, ◌≡◌, ◌≢◌, refl, Option, none, some, [], if◌then◌else◌, inl, inr,
  ◌⊎◌, ◌∙◌, sym, ap, Bool-cases, Option-cases,
}
use gocord.Base.Assoc.{Text, text_eq, text_eq_iff, text_eq_refl, codes}
use gocord.Text.{equal_fold, fold}

-- What the upgrade reads of a request: the header Origin, Host, whether TLS is set, and the header
-- X-Forwarded-Proto.
pub record Upgrade : Type 0 where
  pub origin : Text
  pub host : Text
  pub tls : Bool
  pub forwarded_proto : Text

-- The scheme and the host of a parsed URL.
pub record Origin : Type 0 where
  pub scheme : Text
  pub host : Text

unfoldable pub request_scheme : Upgrade → Bool → Text
unfolding fold text_eq
request_scheme r trust_proxy_headers =
    if r.tls
    then codes "https"
    else if trust_proxy_headers && equal_fold r.forwarded_proto (codes "https")
    then codes "https"
    else codes "http"

unfoldable pub same_origin : (Text → Option Origin) → Bool → Upgrade → Bool
unfolding request_scheme text_eq
same_origin parse trust_proxy_headers r =
    if text_eq r.origin [] then false else elim (parse r.origin) [
      | none ↦ false
      | some u ↦
          if not (text_eq u.host r.host)
          then false
          else text_eq u.scheme (request_scheme r trust_proxy_headers)
    ]

scheme_source :
    (trust_proxy_headers : Bool) (r : Upgrade) (scheme : Text)
    → scheme ≡ request_scheme r trust_proxy_headers
    → (r.tls ≡ true) ⊎ ((trust_proxy_headers ≡ true) ⊎ (scheme ≡ codes "http"))
unfolding request_scheme
scheme_source trust_proxy_headers r scheme e = elim (Bool-cases r.tls) [
  | inl tls ↦ inl tls
  | inr clear ↦ elim (Bool-cases trust_proxy_headers) [
    | inl trusted ↦ inr (inl trusted)
    | inr direct ↦ inr (inr (e ∙ rw clear (rw direct refl)))
  ]
]

-- An upgrade is accepted only from a page whose origin is given and has the request's host and
-- scheme; and over plain HTTP, without trusted proxies, only from a page that was loaded over HTTP.
pub same_origin_lem :
    (parse : Text → Option Origin) (trust_proxy_headers : Bool) (r : Upgrade)
    → same_origin parse trust_proxy_headers r ≡ true
    → (u : Origin) × (r.origin ≢ [])
      × (parse r.origin ≡ some u)
      × (u.host ≡ r.host)
      × (u.scheme ≡ request_scheme r trust_proxy_headers)
      × ((r.tls ≡ true) ⊎ ((trust_proxy_headers ≡ true) ⊎ (u.scheme ≡ codes "http")))
unfolding same_origin
same_origin_lem parse trust_proxy_headers r e = elim (Bool-cases (text_eq r.origin [])) [
  | inl empty ↦ absurd (cc (rw (empty, same_origin) at e))
  | inr given ↦ elim (Option-cases (parse r.origin)) [
    | inl bad ↦ absurd (cc (rw bad at (rw (given, same_origin) at e)))
    | inr (u, parsed) ↦ elim (Bool-cases (text_eq u.host r.host)) [
      | inr other ↦ absurd (cc (rw other at (rw parsed at (rw (given, same_origin) at e))))
      | inl host ↦
          let scheme = rw host at (rw parsed at (rw (given, same_origin) at e)) in
          let same = (text_eq_iff u.scheme (request_scheme r trust_proxy_headers)).0 scheme in
          (
            u,
            λ empty. cc (sym given ∙ ap (λ t. text_eq t []) empty ∙ text_eq_refl []),
            parsed,
            (text_eq_iff u.host r.host).0 host,
            same,
            scheme_source trust_proxy_headers r u.scheme same,
          )
    ]
  ]
]
