-- ===== src/HttpGuard/Admitted.antt =====
-- The two middlewares together, in the order in which main.py stacks them.
use Prim.Native.String.{◌++◌ as append}
use text.Mathlib.Text.{starts_with}
use stockassist.Common.{
  ◌≡◌, refl, ap, ◌∙◌, String, Bool, true, false, not, ◌&&◌, ◌||◌, ◌==◌, string_eq, if◌then◌else◌,
  Option, none, some, Result, ok, err, Result-cases, inl, inr, arith,
}
use stockassist.RateLimit.{Decision}
use stockassist.HttpGuard.{
  Request, Answer, passed, with_limits, refused, too_many, crashed, LimiterOps, RateSettings,
  Failure, unavailable, bad_arguments, analysis_dispatch, is_ascii, compare_digest, let_through,
  limited_by, rate_limit_dispatch, charge, is_protected_analysis_request, limit_of,
}
use stockassist.HttpGuard.Groups.{protected-group_of, protected-limit_of}

neither :
    {A : Type 0} (a b : Bool) (x y : A) → a ≡ false → b ≡ true → (if a || not b then x else y) ≡ y
neither a b x y h k = ground arith

behind :
    {A : Type 0} (a b : Bool) (x y : A)
    → a ≡ true
    → b ≡ true
    → (if not a || not b then x else y) ≡ y
behind a b x y h k = ground arith

module _ {S R : Type 0} (ops : LimiterOps S) (settings : RateSettings) (api_key client : String)
    (call_next : S → S × Option R) (q : Request) where
  -- The layer inside, as `call_next` of the one around it.
  abbrev pub answered : S × Answer R → S × Option (Answer R)
  answered (s, crashed) = (s, none)
  answered (s, passed r) = (s, some (passed r))
  answered (s, with_limits r limit remaining) = (s, some (with_limits r limit remaining))
  answered (s, refused status code) = (s, some (refused status code))
  answered (s, too_many retry_after limit) = (s, some (too_many retry_after limit))

  -- `RateLimitMiddleware` around `AnalysisAccessMiddleware`.
  unfoldable pub stack : S → S × Answer (Answer R)
  unfolding rate_limit_dispatch analysis_dispatch
  stack =
      rate_limit_dispatch ops settings client
        (λ s. answered (analysis_dispatch api_key call_next q s)) q

  abbrev supplied : String
  supplied = elim q.x_analysis_key [ none ↦ "" | some k ↦ k ]

  -- Whether the two keys can be compared; no key is not compared.
  abbrev pub is_readable : Bool
  is_readable = supplied == "" || is_ascii supplied && is_ascii api_key

  -- The response to a request without the right key, if there is one.
  abbrev pub rejection : Bool → Option (Answer R)
  rejection true = some (refused 401 "ANALYSIS_AUTHENTICATION_REQUIRED")
  rejection false = none

  -- The answer to a request without the right key, from what the limiter says.
  abbrev pub turned_away : S → Result Failure (S × Decision) → S × Answer (Answer R)
  turned_away s (err unavailable) = (s, refused 503 "RATE_LIMIT_UNAVAILABLE")
  turned_away s (err bad_arguments) = (s, crashed)
  turned_away s (ok (s', d)) =
      if d.allowed
      then limited_by settings.expensive_limit d.remaining (s', rejection is_readable)
      else (s', too_many d.retry_after settings.expensive_limit)

  judged :
      (empty readable equal : Bool) (s : S) (through : S × Answer R)
      → equal ≡ false
      → answered (
          if empty
          then (s, refused 401 "ANALYSIS_AUTHENTICATION_REQUIRED")
          else elim (if readable then some equal else none) [
            | none ↦ (s, crashed)
            | some true ↦ through
            | some false ↦ (s, refused 401 "ANALYSIS_AUTHENTICATION_REQUIRED")
          ])
        ≡ (s, rejection (empty || readable))
  judged true readable equal s through e = refl
  judged false false equal s through e = refl
  judged false true true s through e = absurd (ground (arith, e))
  judged false true false s through e = refl

  denied :
      (s : S)
      → (api_key == "") ≡ false
      → is_protected_analysis_request q ≡ true
      → (supplied == api_key) ≡ false
      → answered (analysis_dispatch api_key call_next q s) ≡ (s, rejection is_readable)
  unfolding analysis_dispatch compare_digest
  denied s keyed guarded wrong =
      ap answered (
        neither (api_key == "") (is_protected_analysis_request q) (let_through (call_next s)) _
          keyed guarded)
      ∙ judged (supplied == "") (is_ascii supplied && is_ascii api_key) (supplied == api_key) s
          (let_through (call_next s)) wrong

  charge-turned_away :
      (s : S) (limiter_key : String)
      → ((s' : S)
          → answered (analysis_dispatch api_key call_next q s') ≡ (s', rejection is_readable))
      → charge ops settings.window limiter_key settings.expensive_limit
          (λ s'. answered (analysis_dispatch api_key call_next q s'))
          s
        ≡ turned_away s (ops.consume_of limiter_key settings.expensive_limit settings.window s)
  unfolding charge
  charge-turned_away s limiter_key away =
      elim (Result-cases (ops.consume_of limiter_key settings.expensive_limit settings.window s)) [
        | inr (unavailable, e) ↦ rw (e, charge) refl
        | inr (bad_arguments, e) ↦ rw (e, charge) refl
        | inl ((s', d), e) ↦
            rw (e, charge)
              (ap
                (λ r.
                  if d.allowed
                  then limited_by settings.expensive_limit d.remaining r
                  else (s', too_many d.retry_after settings.expensive_limit))
                (away s'))
      ]

  -- Where a key is set and rate limiting is enabled, a protected request under `/api/` with another
  -- key or none is charged to the client's quota of expensive requests and never reaches the route:
  -- it is answered by 429 when the quota is used up, by 503 when the limiter is unavailable, and
  -- otherwise by 401, except that it raises where a key that is not ASCII is compared, or where
  -- the limiter refuses its arguments.
  pub stack-turned_away :
      (s : S)
      → settings.enabled ≡ true
      → starts_with q.path "/api/" ≡ true
      → (api_key == "") ≡ false
      → is_protected_analysis_request q ≡ true
      → (supplied == api_key) ≡ false
      → stack s
        ≡ turned_away s (
            ops.consume_of
              (append "expensive" (append ":" client))
              settings.expensive_limit
              settings.window
              s)
  unfolding stack
  stack-turned_away s on api keyed guarded wrong =
      behind settings.enabled (starts_with q.path "/api/") _ _ on api
      ∙ ap
          (λ g.
            charge ops settings.window (append g (append ":" client)) (limit_of settings q)
              (λ s'. answered (analysis_dispatch api_key call_next q s')) s)
          (protected-group_of q guarded)
      ∙ ap
          (λ n.
            charge ops settings.window (append "expensive" (append ":" client)) n
              (λ s'. answered (analysis_dispatch api_key call_next q s')) s)
          (protected-limit_of settings q guarded)
      ∙ charge-turned_away s (append "expensive" (append ":" client))
          (λ s'. denied s' keyed guarded wrong)
