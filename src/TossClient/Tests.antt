-- ===== src/TossClient/Tests.antt =====
-- Calls against servers that answer in a fixed order.
use stockassist.Common.{
  ℕ, zero, suc, ◌+◌, ◌*◌, ◌≡◌, refl, true, false, Option, none, some, ok, length,
}
use stockassist.TossClient.{
  object, Headers, Reply, request_error, answered, World, Progress, raised, returned, request,
}
use stockassist.TossClient.Trace.{is_sent, tally, audits}
use stockassist.TossClient.Exit.{IsExit}
use stockassist.TossClient.Loop.{request-IsExit}

program : Unit {0}
unfolding request tally audits
program = tt

abbrev no_headers : Headers
no_headers = record { x_request_id = some "r-1"; x_amz_cf_id = none; retry_after = none }

abbrev expired : Reply
expired = answered (record {
  status = 401;
  body = object (record {
    error_object = some (record { code = some "expired-token"; request_id = none });
    request_id = none;
    document = "";
  });
  headers = no_headers;
})

abbrev answer : ℕ → Reply
answer status = answered (record {
  status = status;
  body = object (record { error_object = none; request_id = none; document = "quote" });
  headers = no_headers;
})

-- The first token is expired, then the transport fails, then the server is busy, then it answers.
abbrev replies : ℕ → Reply
replies zero = expired
replies (suc zero) = request_error
replies (suc (suc zero)) = answer 429
replies _ = answer 200

abbrev busy : ℕ → Reply
busy _ = answer 429

abbrev world : (ℕ → Reply) → World
world r = record {
  token = λ _. ok "t";
  reply = r;
  acquires = λ _. true;
  can_sleep = λ _. true;
  has_sink = true;
  bounded_text = some;
  code_text = λ _. "toss-http";
  max_retries = 3;
}

abbrev sends_of : Option Progress → ℕ
sends_of (some (returned _ t)) = length (audits t) * 100 + tally is_sent t
sends_of (some (raised _ t)) = length (audits t) * 1000 + tally is_sent t
sends_of _ = 0

-- One audit and four requests.
request_recovers : sends_of (request (world replies)) ≡ 104
unfolding program
request_recovers = refl

request_gives_up : sends_of (request (world busy)) ≡ 1004
unfolding program
request_gives_up = refl

-- A `Retry-After` that cannot be slept: one request, no audit.
request_not_slept : sends_of (request (record (world busy) { can_sleep = λ _. false })) ≡ 1
unfolding program
request_not_slept = refl

request-IsExit_example :
    (o : Progress) × (request (world replies) ≡ some o) × IsExit (world replies) o
request-IsExit_example = request-IsExit (world replies)
