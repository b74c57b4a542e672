-- ===== src/AdminAccess.antt =====
-- `require_admin_access` of backend/app/api/admin.py: the admin key, behind a limiter of failed
-- attempts. The limiter is the one in Redis, which may be missing, or the one in memory.
pub mod Attempts
mod Tests
use stockassist.Common.{
  ℕ, String, Bool, true, false, not, ◌&&◌, ◌||◌, ◌==◌, nat_eq, string_eq, if◌then◌else◌, Option,
  none, some, Result, ok, err,
}
use stockassist.RateLimit.{Decision}
use stockassist.HttpGuard.{compare_digest, LimiterOps, Failure, unavailable, bad_arguments}

pub record AdminSettings : Type 0 where
  pub admin_api_key : Option String
  pub max_failed_attempts : ℕ
  pub lockout_seconds : ℕ

-- The responses 503, 503, 429 and 401, and an exception that nothing catches.
pub data Refusal : Type 0 where
  not_configured limiter_unavailable locked_out invalid_credentials crashed : Refusal

abbrev pub failed : Failure → Refusal
failed unavailable = limiter_unavailable
failed bad_arguments = crashed

pub data Verdict : Type 0 where
  right wrong unreadable : Verdict

-- `not x_admin_key or not compare_digest(x_admin_key, expected)`, which may raise `TypeError`.
unfoldable pub judge : String → Option String → Verdict
unfolding compare_digest
judge expected supplied = elim supplied [
  | none ↦ wrong
  | some key ↦ if key == "" then wrong else elim (compare_digest key expected) [
    | none ↦ unreadable
    | some true ↦ right
    | some false ↦ wrong
  ]
]

module _ {S : Type 0} (ops : LimiterOps S) (settings : AdminSettings) (client : String) where
  -- A wrong key is counted as a failure; the last that is allowed locks already.
  unfoldable pub reject : S → S × Result Refusal (Unit {0})
  reject s = elim (ops.consume_of client settings.max_failed_attempts settings.lockout_seconds s) [
    | err f ↦ (s, err (failed f))
    | ok (s', d) ↦
        (s', err (if not d.allowed || d.remaining == 0 then locked_out else invalid_credentials))
  ]

  unfoldable pub accept : S → S × Result Refusal (Unit {0})
  accept s = elim (ops.clear_of client s) [ err f ↦ (s, err (failed f)) | ok s' ↦ (s', ok tt) ]

  unfoldable pub attempt : String → Option String → S → S × Result Refusal (Unit {0})
  unfolding reject accept judge
  attempt expected supplied s =
      elim (ops.is_limited_of client settings.max_failed_attempts settings.lockout_seconds s) [
        | err f ↦ (s, err (failed f))
        | ok (s', limited) ↦
            if limited then (s', err locked_out) else elim (judge expected supplied) [
              | right ↦ accept s'
              | wrong ↦ reject s'
              | unreadable ↦ (s', err crashed)
            ]
      ]

unfoldable pub require_admin_access :
    {S : Type 0}
    → Option (LimiterOps S)
    → AdminSettings
    → String
    → Option String
    → S
    → S × Result Refusal (Unit {0})
unfolding attempt
require_admin_access limiter settings client supplied s =
    let expected : String = elim settings.admin_api_key [ none ↦ "" | some key ↦ key ] in
    if expected == "" then (s, err not_configured) else elim limiter [
      | none ↦ (s, err limiter_unavailable)
      | some ops ↦ attempt ops settings client expected supplied s
    ]
