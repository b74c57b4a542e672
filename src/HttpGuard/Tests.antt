-- ===== src/HttpGuard/Tests.antt =====
-- Requests at the two middlewares, and the theorems at them.
use Prim.Native.String.{count}
use stockassist.Common.{
  ℕ, ◌≤◌, ◌≡◌, refl, subst, String, true, false, some, Option, [], arith, string_eq,
}
use stockassist.Common.Dict.{some_injective}
use stockassist.RateLimit.{Limiter}
use stockassist.HttpGuard.{
  Request, RateSettings, memory_limiter, is_expensive, is_protected_analysis_request, client_ip_key,
  has_char,
}
use stockassist.HttpGuard.Groups.{is_protected-is_expensive}
use stockassist.HttpGuard.Keys.{count-client_ip_key}
use stockassist.HttpGuard.Admitted.{stack, turned_away, stack-turned_away}

program : Unit {0}
unfolding stack memory_limiter is_expensive is_protected_analysis_request client_ip_key
program = tt

abbrev prediction : Request
prediction = record {
  method = "GET";
  path = "/api/v1/stocks/005930/prediction//";
  client_host = some "10.0.0.1";
  x_real_ip = some "192.0.2.1";
  x_analysis_key = some "guess";
}

abbrev candles : Request
candles = record prediction { path = "/api/v1/stocks/005930/candles" }

is_general : is_expensive candles ≡ false
unfolding program
is_general = refl

is_protected-is_expensive_example : is_expensive prediction ≡ true
unfolding program
is_protected-is_expensive_example = is_protected-is_expensive prediction refl

abbrev parse : String → Option String
parse s = some "192.0.2.1"

short : (s ip : String) → count s ≤ 64 → has_char 37 s ≡ false → parse s ≡ some ip → count ip ≤ 45
short s ip fits plain h = subst (λ i. count i ≤ 45) (some_injective h) (omega arith)

count-client_ip_key_example : count (client_ip_key (λ s. s) parse true prediction) ≤ 64
count-client_ip_key_example =
    count-client_ip_key (λ s. s) parse (λ s. omega arith) short true prediction

abbrev fresh : Limiter
fresh = record { requests = []; max_keys = 10000; operations = 0 }

abbrev settings : RateSettings
settings = record { enabled = true; window = 60; request_limit = 120; expensive_limit = 10 }

abbrev handler : Limiter → Limiter × Option ℕ
handler l = (l, some 200)

stack-turned_away_example :
    stack (memory_limiter 1 5 5) settings "key" "192.0.2.1" handler prediction fresh
    ≡ turned_away
        (memory_limiter 1 5 5)
        settings
        "key"
        "192.0.2.1"
        handler
        prediction
        fresh
        ((memory_limiter 1 5 5).consume_of "expensive:192.0.2.1" 10 60 fresh)
unfolding program
stack-turned_away_example =
    stack-turned_away (memory_limiter 1 5 5) settings "key" "192.0.2.1" handler prediction fresh
      refl refl refl refl refl
