-- ===== src/TossClient.antt =====
-- backend/app/providers/toss/client.py with the audit records of providers/toss/audit.py and the
-- classes of providers/errors.py: one call of the Toss API with its retries. The answers of the
-- server, of the token manager and of the limiter are parameters, by the number of the request.
pub mod Trace
pub mod Exit
pub mod Loop
mod Tests
use stockassist.Common.{
  ℕ, zero, suc, ◌+◌, String, Bool, true, false, not, ◌&&◌, ltb, leb, if◌then◌else◌, ◌==◌, nat_eq,
  string_eq, Option, none, some, List, [], ◌∷◌, ◌++◌, Result, ok, err,
}

-- The subclasses of `ProviderError`; `plain` is the class itself.
pub data ErrorClass : Type 0 where
  authentication forbidden not_found conflict validation rate_limit unavailable plain : ErrorClass

-- `f"toss-http-{status}"`, or a fixed word.
pub data ErrorCode : Type 0 where
  toss_http : ℕ → ErrorCode
  word : String → ErrorCode

pub record ProviderError : Type 0 where
  pub error_class : ErrorClass
  pub code : ErrorCode
  pub request_id : Option String
  pub status_code : ℕ

-- The status that the class gives when none is passed.
unfoldable pub class_status : ErrorClass → ℕ
class_status authentication = 502
class_status forbidden = 502
class_status not_found = 404
class_status conflict = 409
class_status validation = 422
class_status rate_limit = 503
class_status unavailable = 503
class_status plain = 502

-- What the code reads of the dict under `error`; an absent or empty text is `none`.
pub record ErrorObject : Type 0 where
  pub code : Option String
  pub request_id : Option String

-- A JSON object: the dict under `error`, if that is one, and the `requestId`.
pub record Payload : Type 0 where
  pub error_object : Option ErrorObject
  pub request_id : Option String
  pub document : String

pub data Body : Type 0 where
  not_json not_an_object : Body
  object : Payload → Body

-- `X-Request-Id`, `x-amz-cf-id` and `Retry-After`.
pub record Headers : Type 0 where
  pub x_request_id : Option String
  pub x_amz_cf_id : Option String
  pub retry_after : Option String

pub record Response : Type 0 where
  pub status : ℕ
  pub body : Body
  pub headers : Headers

pub data Reply : Type 0 where
  request_error : Reply
  answered : Response → Reply

pub data AuditOutcome : Type 0 where
  success error transport_error : AuditOutcome

-- `ProviderAuditEvent`, the fields that differ from one event of a call to the next.
pub record ProviderAuditEvent : Type 0 where
  pub outcome : AuditOutcome
  pub status_code : Option ℕ
  pub error_code : Option String
  pub provider_request_id : Option String
  pub attempt_count : ℕ

-- What the call does to the world, in order. A delay is the `2**attempt` of a transport error or
-- the limiter's answer to the attempt and `Retry-After`.
pub data Event : Type 0 where
  acquired observed : Event
  sent : String → Event
  invalidated : String → Event
  slept_backoff : ℕ → Event
  slept_retry : ℕ → Option String → Event
  audited : ProviderAuditEvent → Event

-- What a call raises: an error of the provider, an exception of the token manager that is none, what `acquire` raises (on an unknown group, or where
-- it cannot sleep), or what `sleep` raises on a delay that is not finite or too long.
pub data Failure : Type 0 where
  provider : ProviderError → Failure
  token_failed not_acquired not_slept : Failure

-- The answers to the n-th token request and to the n-th HTTP request of the call, whether the n-th
-- `acquire` of the limiter returns, whether `sleep` takes the delay of an event, whether there is an
-- audit sink, `bounded_text`, and the text of an error code.
pub record World : Type 0 where
  pub token : ℕ → Result Failure String
  pub reply : ℕ → Reply
  pub acquires : ℕ → Bool
  pub can_sleep : Event → Bool
  pub has_sink : Bool
  pub bounded_text : String → Option String
  pub code_text : ErrorCode → String
  pub max_retries : ℕ

-- The variables of the loop, and the events so far.
pub record Call : Type 0 where
  pub attempt : ℕ
  pub auth_retried : Bool
  pub request_count : ℕ
  pub trace : List Event

pub data Progress : Type 0 where
  again : Call → Progress
  raised : Failure → List Event → Progress
  returned : Payload → List Event → Progress

unfoldable pub first_of : Option String → Option String → Option String
first_of none b = b
first_of (some a) b = some a

-- `ProviderUnavailableError(message)`.
unfoldable pub unavailable_error : ProviderError
unfolding class_status
unavailable_error = record {
  error_class = unavailable;
  code = word "provider-error";
  request_id = none;
  status_code = class_status unavailable;
}

-- The text under `error`, `code`, as the code reads it.
unfoldable pub error_code_of : Payload → Option String
error_code_of p = elim p.error_object [ none ↦ none | some e ↦ e.code ]

abbrev pub is_expired_token : Option String → Bool
is_expired_token none = false
is_expired_token (some c) = c == "expired-token"

unfoldable pub error_class_of : ℕ → ErrorClass
error_class_of status =
    if status == 401
    then authentication
    else if status == 403
    then forbidden
    else if status == 404
    then not_found
    else if status == 409
    then conflict
    else if status == 422
    then validation
    else if status == 429
    then rate_limit
    else if leb 500 status
    then unavailable
    else plain

unfoldable pub start : Call
start = record { attempt = 0; auth_retried = false; request_count = 0; trace = [] }

module _ (w : World) where
  unfoldable pub extract_provider_request_id : Option Payload → Headers → Option String
  unfolding first_of
  extract_provider_request_id payload h =
      elim (first_of
        (elim payload [
          | none ↦ none
          | some p ↦
              first_of (elim p.error_object [ none ↦ none | some e ↦ e.request_id ]) p.request_id
        ])
        (first_of h.x_request_id h.x_amz_cf_id)) [ none ↦ none | some text ↦ w.bounded_text text ]

  unfoldable pub map_error : ℕ → Payload → Headers → ProviderError
  map_error status p h = record {
    error_class = error_class_of status;
    code = toss_http status;
    request_id = extract_provider_request_id (some p) h;
    status_code = status;
  }

  -- `record_toss_audit`: nothing without a sink; whether the sink raises makes no difference.
  unfoldable pub record_audit :
      AuditOutcome → Option ℕ → Option ErrorCode → Option String → ℕ → List Event
  record_audit outcome status code id count =
      if w.has_sink
      then audited (record {
        outcome = outcome;
        status_code = status;
        error_code = elim code [ none ↦ none | some c ↦ w.bounded_text (w.code_text c) ];
        provider_request_id = elim id [ none ↦ none | some text ↦ w.bounded_text text ];
        attempt_count = (if ltb count 1 then 1 else count);
      })
        ∷ []
      else []

  -- A sleep behind the attempt, and the next pass.
  unfoldable pub retry : Call → Event → Progress
  retry s e = elim (w.can_sleep e) [
    | true ↦ again (record s { attempt = suc s.attempt; trace = s.trace ++ e ∷ [] })
    | false ↦ raised not_slept s.trace
  ]

  -- Behind `_json_object` on an object: retry, raise or return.
  unfoldable pub handle : Call → String → Response → Payload → Progress
  unfolding map_error record_audit extract_provider_request_id error_code_of retry
  handle s token r p =
      elim (r.status == 401 && is_expired_token (error_code_of p) && not s.auth_retried) [
        | true ↦ again (record s { auth_retried = true; trace = s.trace ++ invalidated token ∷ [] })
        | false ↦ elim (r.status == 429 && ltb s.attempt w.max_retries) [
          | true ↦ retry s (slept_retry s.attempt r.headers.retry_after)
          | false ↦ elim (leb 400 r.status) [
            | true ↦
                let mapped = map_error r.status p r.headers in
                raised (provider mapped) (
                  s.trace
                  ++ record_audit error (some r.status) (some mapped.code) mapped.request_id
                      s.request_count)
            | false ↦ returned p (
                s.trace
                ++ record_audit success (some r.status) none
                    (extract_provider_request_id (some p) r.headers) s.request_count)
          ]
        ]
      ]

  -- Behind the HTTP call: the transport error, the limiter's `observe`, `_json_object`.
  unfoldable pub receive : Call → String → Reply → Progress
  unfolding handle record_audit extract_provider_request_id unavailable_error retry
  receive s token request_error = elim (ltb s.attempt w.max_retries) [
    | true ↦ retry s (slept_backoff s.attempt)
    | false ↦ raised (provider unavailable_error) (
        s.trace
        ++ record_audit transport_error none (some (word "provider-unavailable")) none
            s.request_count)
  ]
  receive s token (answered r) =
      let s' = (record s { trace = s.trace ++ observed ∷ [] }) in
      elim r.body [
        | object p ↦ handle s' token r p
        | _ ↦ raised (provider unavailable_error) (
            s'.trace
            ++ record_audit error (some r.status) (some (word "provider-error"))
                (extract_provider_request_id none r.headers) s.request_count)
      ]

  -- One pass of the loop.
  unfoldable pub pass : Call → Progress
  unfolding receive
  pass s = elim (w.acquires s.request_count) [
    | false ↦ raised not_acquired s.trace
    | true ↦ elim (w.token s.request_count) [
      | err e ↦ raised e (s.trace ++ acquired ∷ [])
      | ok token ↦
          receive
            (record s {
              request_count = suc s.request_count;
              trace = s.trace ++ acquired ∷ sent token ∷ [];
            })
            token (w.reply s.request_count)
    ]
  ]

  -- `while True`, on fuel; `none` when it is out.
  unfoldable pub run : ℕ → Call → Option Progress
  unfolding pass
  run zero s = none
  run (suc n) s = elim (pass s) [
    | again s' ↦ run n s'
    | raised e t ↦ some (raised e t)
    | returned p t ↦ some (returned p t)
  ]

  unfoldable pub request : Option Progress
  unfolding run start
  request = run (suc (suc w.max_retries)) start
