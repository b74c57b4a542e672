-- ===== src/RateLimit/Tests.antt =====
-- Runs of the limiter, and the theorems at inputs that meet their hypotheses. 10 ticks to a second.
use stockassist.Common.{ℕ, ◌≡◌, refl, String, true, false, some, List, [], ◌∷◌, ok, err, map, arith}
use stockassist.RateLimit.{
  Limiter, limit_not_positive, init, consume, consume_at, is_limited, clear, key_count,
}
use stockassist.RateLimit.Invariant.{
  IsValid, Call, consume_call, is_limited_call, clear_call, perform_all, init-perform_all-IsValid,
}
use stockassist.RateLimit.Spec.{run, spec_run, run-spec_run}
use stockassist.RateLimit.Retry.{consume_at_retry}

program : Unit {0}
unfolding init consume consume_at is_limited clear key_count run spec_run perform_all
program = tt

abbrev fresh : Limiter
fresh = record { requests = []; max_keys = 3; operations = 0 }

init_three : init 3 ≡ ok fresh
unfolding program
init_three = refl

abbrev calls : List Call
calls =
    consume_call 5 "a" 2 1
    ∷ consume_call 6 "b" 2 1
    ∷ consume_call 7 "c" 0 1
    ∷ consume_call 7 "c" 2 1
    ∷ consume_call 8 "d" 2 1
    ∷ is_limited_call 30 "b" 2 1
    ∷ clear_call (some "c")
    ∷ []

-- "a" is evicted by "d", "b" is dropped when it is empty, "c" is cleared.
perform_calls : (perform_all 10 fresh calls).requests ≡ ("d", 8 ∷ []) ∷ []
unfolding program
perform_calls = refl

init-perform_all-IsValid_example : IsValid (perform_all 10 fresh calls) × (fresh.max_keys ≡ 3)
init-perform_all-IsValid_example = init-perform_all-IsValid 10 3 calls init_three

abbrev requests : List (ℕ × String)
requests = (1, "a") ∷ (2, "a") ∷ (3, "b") ∷ (4, "a") ∷ (12, "a") ∷ []

run_requests :
    map (λ d. d.allowed) (run 10 10 2 fresh requests) ≡ true ∷ true ∷ true ∷ false ∷ true ∷ []
unfolding program
run_requests = refl

fresh-IsValid : IsValid fresh
unfolding program
fresh-IsValid = record { positive = omega arith; bounded = omega arith; distinct = tt }

run-spec_run_example : run 10 10 2 fresh requests ≡ spec_run 10 10 2 [] requests
unfolding program
run-spec_run_example = run-spec_run 10 10 2 0 requests fresh fresh-IsValid refl (omega arith)

abbrev full : Limiter
full = record { requests = ("a", 1 ∷ 2 ∷ []) ∷ []; max_keys = 3; operations = 2 }

full-IsValid : IsValid full
unfolding program
full-IsValid = record { positive = omega arith; bounded = omega arith; distinct = (refl, tt) }

-- Denied at 4 with a delay of one second, admitted from 14 on.
consume_at_retry_example :
    (consume_at 10 14 10 2 "a" (consume_at 10 4 10 2 "a" full).0).1.allowed ≡ true
unfolding program
consume_at_retry_example =
    consume_at_retry 10 4 14 10 2 "a" full (omega arith) (omega arith) full-IsValid (omega arith)
      (omega arith) (omega arith) refl (omega arith)

consume_zero : consume 10 4 "a" 0 1 full ≡ err limit_not_positive
unfolding program
consume_zero = refl
