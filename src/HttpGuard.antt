-- ===== src/HttpGuard.antt =====
-- The guards in front of the routes: backend/app/core/rate_limit.py (the client's key, the groups of
-- requests, RateLimitMiddleware) and backend/app/core/analysis_access.py. A request is what they
-- read of it; `str.strip` and `ip_address` are arguments. A limiter is an interface, which the
-- limiter in memory and the one in Redis meet.
pub mod Groups
pub mod Keys
pub mod Admitted
mod Tests
use Prim.Native.Char.{Char, code}
use Prim.Native.String.{◌++◌ as append, count}
use text.Mathlib.Text.{starts_with}
use stockassist.Common.{
  ℕ, zero, suc, String, Bool, true, false, not, ◌&&◌, ◌||◌, ◌==◌, nat_eq, string_eq, leb, ltb, any,
  if◌then◌else◌, Option, none, some, List, [], ◌∷◌, Result, ok, err,
}
use stockassist.CorporateActions.{contains}
use stockassist.RateLimit
use stockassist.RateLimit.{Limiter, Decision, consume}

pub record Request : Type 0 where
  pub method : String
  pub path : String
  pub client_host : Option String
  pub x_real_ip : Option String
  pub x_analysis_key : Option String

-- `str.endswith`
abbrev pub ends_with : String → String → Bool
ends_with String.[] t = String.[] == t
ends_with (String.◌∷◌ c s) t = String.◌∷◌ c s == t || ends_with s t

-- `path.rstrip("/")`
unfoldable pub rstrip_slash : String → String
rstrip_slash String.[] = String.[]
rstrip_slash (String.◌∷◌ c s) =
    let rest = rstrip_slash s in
    if rest == String.[] && code c == 47 then String.[] else String.◌∷◌ c rest

-- `s[:n]`, by characters.
unfoldable pub take_chars : ℕ → String → String
take_chars zero s = String.[]
take_chars (suc n) String.[] = String.[]
take_chars (suc n) (String.◌∷◌ c s) = String.◌∷◌ c (take_chars n s)

-- `chr(n) in s`
unfoldable pub has_char : ℕ → String → Bool
has_char n String.[] = false
has_char n (String.◌∷◌ c s) = code c == n || has_char n s

module _ (strip : String → String) (ip_address : String → Option String) where
  unfoldable pub client_ip_key : Bool → Request → String
  unfolding take_chars has_char
  client_ip_key trust_proxy_headers q =
      let client_host = take_chars 64 (elim q.client_host [ none ↦ "unknown" | some h ↦ h ]) in
      elim trust_proxy_headers [
        | false ↦ client_host
        | true ↦ elim q.x_real_ip [
          | none ↦ client_host
          | some real_ip ↦
              let candidate = strip real_ip in
              if leb (count real_ip) 64 && not (candidate == "") && not (has_char 37 candidate)
              then elim (ip_address candidate) [ none ↦ client_host | some ip ↦ ip ]
              else client_host
        ]
      ]

-- `_EXPENSIVE_SUFFIXES`
unfoldable pub expensive_suffixes : List String
expensive_suffixes =
    "/ai-report" ∷ "/prediction" ∷ "/score" ∷ "/financials" ∷ "/news" ∷ "/disclosures"
    ∷ "/investor-flow" ∷ []

-- `_PROTECTED_SUFFIXES`
unfoldable pub protected_suffixes : List String
protected_suffixes =
    "/ai-report" ∷ "/prediction" ∷ "/score" ∷ "/financials" ∷ "/news" ∷ "/disclosures"
    ∷ "/investor-flow" ∷ []

unfoldable pub expensive_posts : List String
expensive_posts =
    "/api/v1/backtests" ∷ "/api/v1/backtests/walk-forward" ∷ "/api/v1/admin/backtests/compare"
    ∷ "/api/v1/admin/backtests/strategies/compare" ∷ []

unfoldable pub protected_posts : List String
protected_posts = "/api/v1/backtests" ∷ "/api/v1/backtests/walk-forward" ∷ []

-- `path.endswith(suffixes)`
abbrev pub ends_with_any : String → List String → Bool
ends_with_any path suffixes = any (ends_with path) suffixes

-- `_is_expensive`
unfoldable pub is_expensive : Request → Bool
unfolding rstrip_slash expensive_posts expensive_suffixes
is_expensive q =
    let path = rstrip_slash q.path in
    let post = q.method == "POST" in
    post && contains expensive_posts path
    || post && starts_with path "/api/v1/admin/ingestion/"
    || post && starts_with path "/api/v1/admin/corporate-actions/ingestion/"
    || q.method == "GET" && starts_with path "/api/v1/admin/corporate-actions/candidates/"
    || post && starts_with path "/api/v1/admin/corporate-actions/approvals/"
    || post && starts_with path "/api/v1/admin/models/" && ends_with path "/promote"
    || ends_with_any path expensive_suffixes

-- `is_protected_analysis_request`
unfoldable pub is_protected_analysis_request : Request → Bool
unfolding rstrip_slash protected_posts protected_suffixes
is_protected_analysis_request q =
    let path = rstrip_slash q.path in
    if starts_with path "/api/v1/admin/"
    then false
    else q.method == "POST" && contains protected_posts path
      || q.method == "GET" && ends_with_any path protected_suffixes

-- What a middleware answers: what the next one answered, with the rate-limit headers that it
-- sets on it, or an error response of its own.
pub data Answer (R : Type 0) : Type 0 where
  passed : R → Answer R
  with_limits : R → (limit remaining : ℕ) → Answer R
  refused : (status : ℕ) (code : String) → Answer R
  too_many : (retry_after limit : ℕ) → Answer R
  crashed : Answer R

abbrev pub is_ascii : String → Bool
is_ascii String.[] = true
is_ascii (String.◌∷◌ c s) = ltb (code c) 128 && is_ascii s

-- `secrets.compare_digest` of two texts: `TypeError`, unless both are ASCII.
unfoldable pub compare_digest : String → String → Option Bool
compare_digest a b = if is_ascii a && is_ascii b then some (a == b) else none

-- The response of the next layer as it is; an exception goes on.
abbrev pub let_through : {S R : Type 0} → S × Option R → S × Answer R
let_through (s, none) = (s, crashed)
let_through (s, some r) = (s, passed r)

-- `AnalysisAccessMiddleware.dispatch`; `call_next` gives no response where it raises.
unfoldable pub analysis_dispatch :
    {S R : Type 0} → String → (S → S × Option R) → Request → S → S × Answer R
unfolding is_protected_analysis_request compare_digest
analysis_dispatch api_key call_next q s =
    let supplied : String = elim q.x_analysis_key [ none ↦ "" | some k ↦ k ] in
    if api_key == "" || not (is_protected_analysis_request q)
    then let_through (call_next s)
    else if supplied == ""
    then (s, refused 401 "ANALYSIS_AUTHENTICATION_REQUIRED")
    else elim (compare_digest supplied api_key) [
      | none ↦ (s, crashed)
      | some true ↦ let_through (call_next s)
      | some false ↦ (s, refused 401 "ANALYSIS_AUTHENTICATION_REQUIRED")
    ]

-- Why a limiter gives no answer: Redis fails, or the arguments are not positive.
pub data Failure : Type 0 where
  unavailable bad_arguments : Failure

-- `consume(key, limit=, window=)`; the clock is the limiter's own.
pub record LimiterOps (S : Type 0) : Type 0 where
  pub consume_of : String → ℕ → ℕ → S → Result Failure (S × Decision)
  pub is_limited_of : String → ℕ → ℕ → S → Result Failure (S × Bool)
  pub clear_of : String → S → Result Failure S

-- The limiter in memory, at the clock readings of `is_limited` and of `consume`.
unfoldable pub memory_limiter : (hz checked counted : ℕ) → LimiterOps Limiter
memory_limiter hz checked counted = record {
  consume_of = λ key limit window l. elim (consume hz counted key limit window l) [
    | ok r ↦ ok r
    | err _ ↦ err bad_arguments
  ];
  is_limited_of = λ key limit window l. ok (RateLimit.is_limited hz checked key limit window l);
  clear_of = λ key l. ok (RateLimit.clear (some key) l);
}

pub record RateSettings : Type 0 where
  pub enabled : Bool
  pub window : ℕ
  pub request_limit : ℕ
  pub expensive_limit : ℕ

unfoldable pub group_of : Request → String
unfolding is_expensive
group_of q = if is_expensive q then "expensive" else "general"

unfoldable pub limit_of : RateSettings → Request → ℕ
unfolding is_expensive
limit_of settings q = if is_expensive q then settings.expensive_limit else settings.request_limit

-- The headers are set on the response of the next layer.
abbrev pub limited_by : {S R : Type 0} → ℕ → ℕ → S × Option R → S × Answer R
limited_by limit remaining (s, none) = (s, crashed)
limited_by limit remaining (s, some r) = (s, with_limits r limit remaining)

-- The consumption, and what `dispatch` makes of it.
unfoldable pub charge :
    {S R : Type 0} → LimiterOps S → ℕ → String → ℕ → (S → S × Option R) → S → S × Answer R
charge ops window limiter_key limit call_next s = elim (ops.consume_of limiter_key limit window s) [
  | err unavailable ↦ (s, refused 503 "RATE_LIMIT_UNAVAILABLE")
  | err bad_arguments ↦ (s, crashed)
  | ok (s', decision) ↦
      if decision.allowed
      then limited_by limit decision.remaining (call_next s')
      else (s', too_many decision.retry_after limit)
]

-- `RateLimitMiddleware.dispatch`, with the client's key of the request.
unfoldable pub rate_limit_dispatch :
    {S R : Type 0}
    → LimiterOps S
    → RateSettings
    → String
    → (S → S × Option R)
    → Request
    → S
    → S × Answer R
unfolding group_of limit_of charge
rate_limit_dispatch ops settings client call_next q s =
    if not settings.enabled || not (starts_with q.path "/api/")
    then let_through (call_next s)
    else charge ops settings.window (append (group_of q) (append ":" client)) (limit_of settings q)
        call_next s
