-- ===== src/Httpapp/Creations.antt =====
-- internal/httpapp/server.go: how many rooms one client can create.
use gocord.Base.{
  ℕ, suc, ◌+◌, ◌*◌, ◌≤◌, ◌≡◌, ◌≢◌, refl, inl, inr, Bool, true, false, ◌&&◌, List, [], ◌∷◌, ◌==◌,
  if◌then◌else◌, arith, Bool-cases, subst, ==_iff,
}
use gocord.Base.Assoc.{Text, text_eq}
use gocord.Rooms.State.{Reader}
use gocord.Httpapp.RateLimit.{RateLimiter, allow, one_token, full}
use gocord.Httpapp.Allow.{LimiterIsValid}
use gocord.Httpapp.Budget.{admitted, elapsed, admitted-le}
use gocord.Httpapp.Client.{Request, client_key}
use gocord.Httpapp.Server.{App, Response, create_room}
use gocord.Httpapp.Creation.{create_room-created}

-- A request of createRoom: the nanoseconds since the one before it, and what the manager's clock and
-- crypto/rand answer.
pub record Visit : Type 0 where
  pub request : Request
  pub gap : ℕ
  pub now : ℕ
  pub read_id : Reader
  pub read_secret : Reader

module _ (sha256 : Text → Text) (invite_url : Text → Text → Text) (trust_proxy : Bool) where
  abbrev serve : Visit → ℕ → App → App × Response
  serve v time a =
      create_room sha256 invite_url trust_proxy v.request (time + v.gap) v.now v.read_id
        v.read_secret a

  -- How many of the requests of a key are answered with status 201.
  abbrev pub creations : Text → List Visit → ℕ → App → ℕ
  creations key [] time a = 0
  creations key (v ∷ vs) time a =
      let served = serve v time a in
      let rest = creations key vs (time + v.gap) served.0 in
      if text_eq (client_key v.request trust_proxy) key && (served.1.status == 201)
      then suc rest
      else rest

  abbrev pub calls_of : List Visit → List (Text × ℕ)
  calls_of [] = []
  calls_of (v ∷ vs) = (client_key v.request trust_proxy, v.gap) ∷ calls_of vs

  create_room-limit :
      (v : Visit) (time : ℕ) (a : App)
      → (serve v time a).0.create_limit
        ≡ (allow (client_key v.request trust_proxy) (time + v.gap) a.create_limit).0
  unfolding create_room
  create_room-limit v time a =
      elim (Bool-cases (allow (client_key v.request trust_proxy) (time + v.gap) a.create_limit).1) [
        | inl let_in ↦ rw let_in refl
        | inr kept_out ↦ rw kept_out refl
      ]

  count-le :
      (same made let_in : Bool) (m n : ℕ)
      → (made ≡ true → let_in ≡ true)
      → m ≤ n
      → (if same && made then suc m else m) ≤ (if same && let_in then suc n else n)
  count-le false made let_in m n h k = k
  count-le true false true m n h k = omega (arith, k)
  count-le true false false m n h k = k
  count-le true true let_in m n h k = rw (h refl) (omega (arith, k))

  creations-admitted :
      (key : Text) (vs : List Visit) (time : ℕ) (a : App)
      → creations key vs time a ≤ admitted key (calls_of vs) time a.create_limit
  creations-admitted key [] time a = omega arith
  creations-admitted key (v ∷ vs) time a =
      let served = serve v time a in
      count-le (text_eq (client_key v.request trust_proxy) key) (served.1.status == 201)
        (allow (client_key v.request trust_proxy) (time + v.gap) a.create_limit).1
        (creations key vs (time + v.gap) served.0)
        (admitted key (calls_of vs) (time + v.gap)
          (allow (client_key v.request trust_proxy) (time + v.gap) a.create_limit).0)
        (λ e.
          (create_room-created sha256 invite_url trust_proxy v.request (time + v.gap) v.now
            v.read_id v.read_secret a ((==_iff served.1.status 201).0 e)).0)
        (subst
          (λ (l : RateLimiter).
            creations key vs (time + v.gap) served.0 ≤ admitted key (calls_of vs) (time + v.gap) l)
          (create_room-limit v time a) (creations-admitted key vs (time + v.gap) served.0))

  -- In a run of requests to create rooms, the rooms that one client creates are not more than the
  -- burst and what the rate brings in the time of the run, for a limiter with a rate that any
  -- earlier requests have left.
  pub creations-le :
      (key : Text) (vs : List Visit) (time : ℕ) (a : App)
      → a.create_limit.rate ≢ 0
      → LimiterIsValid a.create_limit time
      → creations key vs time a * one_token a.create_limit
        ≤ full a.create_limit + elapsed (calls_of vs) * a.create_limit.rate
  creations-le key vs time a some_rate v =
      let counted = creations-admitted key vs time a in
      let bound = admitted-le key (calls_of vs) time a.create_limit some_rate v in grind arith
