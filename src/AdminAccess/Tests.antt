-- ===== src/AdminAccess/Tests.antt =====
-- Two failures lock a client out for three seconds.
use stockassist.Common.{◌≡◌, refl, none, some, List, [], ◌∷◌, ok, err, string_eq, arith}
use stockassist.RateLimit.{Limiter, key_count}
use stockassist.AdminAccess.{AdminSettings, crashed, locked_out, invalid_credentials}
use stockassist.AdminAccess.Attempts.{
  Attempt, run_attempts, spec_attempts, run_attempts-spec_attempts,
}

program : Unit {0}
unfolding run_attempts spec_attempts key_count
program = tt

abbrev settings : AdminSettings
settings = record { admin_api_key = some "key"; max_failed_attempts = 2; lockout_seconds = 3 }

abbrev fresh : Limiter
fresh = record { requests = []; max_keys = 4096; operations = 0 }

abbrev attempts : List Attempt
attempts =
    (10, (10, some "no"))
    ∷ (10, (10, some "key"))
    ∷ (11, (11, none))
    ∷ (12, (12, some "no"))
    ∷ (13, (13, some "key"))
    ∷ (13, (14, some "key"))
    ∷ (15, (15, some "kéy"))
    ∷ []

answers :
    spec_attempts 1 "client" settings "key" [] attempts
    ≡ err invalid_credentials
      ∷ ok tt
      ∷ err invalid_credentials
      ∷ err locked_out
      ∷ err locked_out
      ∷ err locked_out
      ∷ err crashed
      ∷ []
unfolding program
answers = refl

run_attempts-spec_attempts_example :
    run_attempts 1 "client" settings "key" fresh attempts
    ≡ spec_attempts 1 "client" settings "key" [] attempts
unfolding program
run_attempts-spec_attempts_example =
    run_attempts-spec_attempts 1 "client" settings "key" refl refl (omega arith) (omega arith) 10
      attempts fresh (record { positive = omega arith; bounded = omega arith; distinct = tt }) refl
      (
        omega arith,
        (
          omega arith,
          (
            omega arith,
            (
              omega arith,
              (
                omega arith,
                (
                  omega arith,
                  (
                    omega arith,
                    (
                      omega arith,
                      (
                        omega arith,
                        (
                          omega arith,
                          (omega arith, (omega arith, (omega arith, (omega arith, tt)))),
                        ),
                      ),
                    ),
                  ),
                ),
              ),
            ),
          ),
        ),
      )
