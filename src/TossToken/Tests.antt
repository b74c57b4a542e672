-- ===== src/TossToken/Tests.antt =====
-- A token that is issued, returned again, and invalidated; one tick is a second.
use stockassist.Common.{
  true, ℕ, ◌≡◌, refl, String, none, some, Option, [], Result, ok, err, arith, string_eq,
}
use stockassist.Common.Int.{pos}
use stockassist.TossToken.{
  Manager, text, seconds, infinite, overflow, Response, TokenError, get, delete, authentication,
  unavailable, invalid_oauth_response, oauth_http, provider_unavailable,
}
use stockassist.TossToken.Served.{IsAnswered, get-IsAnswered}

program : Unit {0}
unfolding get delete
program = tt

abbrev answer : ℕ → String → ℕ → Option Response
answer status token lifetime = some (record {
  status_code = status;
  payload = some (record { access_token = text token; expires_in = seconds (pos lifetime) });
})

abbrev start : Manager
start = record { tokens = []; audits = [] }

abbrev ask : ℕ → Option Response → Manager → Manager × Result TokenError String
ask now response m = get 1 (λ _. true) true (λ s. s) "toss" now now now (λ n. n) response m

abbrev first : Manager × Result TokenError String
first = ask 100 (answer 200 "t1" 60) start

issued : first.1 ≡ ok "t1"
unfolding program
issued = refl

kept : (ask 129 none first.0).1 ≡ ok "t1"
unfolding program
kept = refl

renewed : (ask 130 (answer 200 "t2" 60) first.0).1 ≡ ok "t2"
unfolding program
renewed = refl

no_answer : (ask 130 none first.0).1 ≡ err (unavailable provider_unavailable)
unfolding program
no_answer = refl

too_short : (ask 130 (answer 200 "t2" 30) first.0).1 ≡ err (authentication invalid_oauth_response)
unfolding program
too_short = refl

abbrev endless : Option Response
endless = some (record {
  status_code = 200;
  payload = some (record { access_token = text "t2"; expires_in = infinite });
})

no_end : ask 130 endless first.0 ≡ (first.0, err overflow)
unfolding program
no_end = refl

refused : (ask 130 (answer 401 "" 60) first.0).1 ≡ err (authentication (oauth_http 401))
unfolding program
refused = refl

other_token_stays : delete "toss" (some "t0") first.0.tokens ≡ first.0.tokens
unfolding program
other_token_stays = refl

get-IsAnswered_example :
    IsAnswered 1
      (λ _. true)
      true
      (λ s. s)
      "toss"
      100
      101
      102
      start
      (get 1 (λ _. true) true (λ s. s) "toss" 100 101 102 (λ n. n) (answer 200 "t1" 60) start)
get-IsAnswered_example =
    get-IsAnswered 1 (λ _. true) true (λ s. s) "toss" 100 101 102 (λ n. n) (answer 200 "t1" 60)
      start (omega arith)
