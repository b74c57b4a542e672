-- ===== src/TossToken.antt =====
-- backend/app/providers/toss/auth.py: TossTokenManager with the cache in memory. Clock readings are in
-- ticks, `hz` to a second; `fits` tells the numbers that a clock reading, a float, can be added to.
-- The audits are the records that are handed to the sink, if there is one; that it may raise makes
-- no difference. The requests are answered by an argument, and what other threads do to the cache
-- while `get` waits for the lock is an argument. Of an audit record the outcome, the status and the
-- error's code are kept. The rate limiter is taken to let the request through. `str.strip` is an
-- argument.
pub mod Served
mod Tests
use stockassist.Common.{
  ℕ, ◌+◌, ◌*◌, String, Bool, true, false, not, ◌&&◌, ◌||◌, leb, ltb, if◌then◌else◌, ◌==◌, string_eq,
  Option, none, some, List, [], ◌∷◌, ◌++◌, Result, ok, err,
}
use stockassist.Common.Dict.{lookup, insert, erase}
use stockassist.Common.Int.{ℤ, pos, ltb_ℤ, pos_part}

pub record AccessToken : Type 0 where
  pub value : String
  pub expires_at : ℕ

abbrev pub Cache : Type 0
Cache = List (String × AccessToken)

-- `InMemoryTokenCache.delete`
unfoldable pub delete : String → Option String → Cache → Cache
delete key expected_value tokens =
    let matching = elim expected_value as (λ _. Bool) [
      | none ↦ true
      | some expected ↦ elim (lookup key tokens) as (λ _. Bool) [
        | none ↦ false
        | some t ↦ t.value == expected
      ]
    ] in
    if matching then erase key tokens else tokens

-- The code of an error; `oauth_http` is `toss-oauth-http-{status}`.
pub data ErrorCode : Type 0 where
  provider_unavailable invalid_oauth_response : ErrorCode
  oauth_http : ℕ → ErrorCode

-- What `get` raises; `overflow` is an `OverflowError`, which nothing catches.
pub data TokenError : Type 0 where
  unavailable authentication : ErrorCode → TokenError
  overflow : TokenError

pub data Member : Type 0 where
  missing not_text : Member
  text : String → Member

-- `int(payload["expires_in"])`: one of the errors that are caught, the `OverflowError` of an
-- infinite number, or a number.
pub data Lifetime : Type 0 where
  unreadable infinite : Lifetime
  seconds : ℤ → Lifetime

-- The members of a payload that are read.
pub record Payload : Type 0 where
  pub access_token : Member
  pub expires_in : Lifetime

-- The answer to the request; `payload` is `none` unless the body is a JSON object.
pub record Response : Type 0 where
  pub status_code : ℕ
  pub payload : Option Payload

pub data Outcome : Type 0 where
  transport_error failure success : Outcome

pub record Audit : Type 0 where
  pub outcome : Outcome
  pub status_code : Option ℕ
  pub error_code : Option ErrorCode

pub record Manager : Type 0 where
  pub tokens : Cache
  pub audits : List Audit

unfoldable pub usable : ℕ → ℕ → AccessToken → Bool
usable hz now token = ltb (now + 30 * hz) token.expires_at

-- `record_toss_audit`
abbrev pub noted : Bool → Outcome → Option ℕ → Option ErrorCode → Manager → Manager
noted has_sink outcome status_code error_code m = record m {
  audits =
      if has_sink
      then m.audits
        ++ record { outcome = outcome; status_code = status_code; error_code = error_code } ∷ []
      else m.audits;
}

-- The checks on the payload of a successful answer: raised, refused, or the token and its seconds.
pub data Checked : Type 0 where
  too_large invalid : Checked
  valid : String → ℕ → Checked

module _ (hz : ℕ) (fits : ℤ → Bool) (has_sink : Bool) (strip : String → String)
    (cache_key : String) where
  unfoldable pub check_text : String → ℤ → Checked
  check_text value expires_in =
      if not (strip value == "") && value == strip value && ltb_ℤ (pos 30) expires_in
      then if fits expires_in then valid value (pos_part expires_in) else too_large
      else invalid

  -- The lookup of the token comes first, then `int`, then the test.
  unfoldable pub check_members : Member → Lifetime → Checked
  unfolding check_text
  check_members missing lifetime = invalid
  check_members not_text unreadable = invalid
  check_members not_text infinite = too_large
  check_members not_text (seconds expires_in) = invalid
  check_members (text value) unreadable = invalid
  check_members (text value) infinite = too_large
  check_members (text value) (seconds expires_in) = check_text value expires_in

  unfoldable pub check_token : Payload → Checked
  unfolding check_members
  check_token p = check_members p.access_token p.expires_in

  -- The answer of the server, at the clock reading behind it.
  unfoldable pub receive : ℕ → Response → Manager → Manager × Result TokenError AccessToken
  unfolding check_token
  receive now r m = elim r.payload [
    | none ↦ (
      noted has_sink failure (some r.status_code) (some invalid_oauth_response) m,
      err (unavailable invalid_oauth_response),
    )
    | some p ↦
        if leb 400 r.status_code
        then (
          noted has_sink failure (some r.status_code) (some (oauth_http r.status_code)) m,
          err (authentication (oauth_http r.status_code)),
        )
        else elim (check_token p) [
          | too_large ↦ (m, err overflow)
          | invalid ↦ (
            noted has_sink failure (some r.status_code) (some invalid_oauth_response) m,
            err (authentication invalid_oauth_response),
          )
          | valid value expires_in ↦
              let token : AccessToken = record {
                value = value;
                expires_at = now + expires_in * hz;
              } in
              (
                noted has_sink success (some r.status_code) none
                    (record m { tokens = insert cache_key token m.tokens }),
                ok token,
              )
        ]
  ]

  -- `_issue`; no answer is a `RequestError`.
  unfoldable pub issue : ℕ → Option Response → Manager → Manager × Result TokenError AccessToken
  unfolding receive
  issue now response m = elim response [
    | none ↦ (
      noted has_sink transport_error none (some provider_unavailable) m,
      err (unavailable provider_unavailable),
    )
    | some r ↦ receive now r m
  ]

  -- A token of the cache that can be used at a clock reading.
  unfoldable pub cached : ℕ → Cache → Option AccessToken
  unfolding usable
  cached now tokens = elim (lookup cache_key tokens) [
    | none ↦ none
    | some token ↦ if usable hz now token then some token else none
  ]

  -- `get`, with the clock readings of the first check, of the check under the lock, and of the
  -- answer.
  unfoldable pub get :
      (first second third : ℕ)
      → (Manager → Manager)
      → Option Response
      → Manager
      → Manager × Result TokenError String
  unfolding cached issue
  get first second third others response m = elim (cached first m.tokens) [
    | some token ↦ (m, ok token.value)
    | none ↦
        let waited = others m in
        elim (cached second waited.tokens) [
          | some token ↦ (waited, ok token.value)
          | none ↦
              let issued = issue third response waited in
              (issued.0, elim issued.1 [ ok token ↦ ok token.value | err e ↦ err e ])
        ]
  ]
