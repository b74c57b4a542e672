-- ===== src/ActionService/Tests.antt =====
-- Ingestions from a source that returns one action, and the theorems at them. The factors are
-- thousandths.
use stockassist.Common.{
  ℕ, ◌*◌, ◌/◌, String, ◌≡◌, refl, true, none, some, List, [], ◌∷◌, Result, ok, err, ltb, nat_eq,
  string_eq,
}
use stockassist.Common.Order.{nat_order}
use stockassist.Common.Text.{lex_le, string_order, pair_order}
use stockassist.Common.Int.{ℤ, pos, int_order}
use stockassist.Market.{Datetime, Candle, DecimalOps, unadjusted}
use stockassist.CorporateActions.{Action}
use stockassist.ActionStore
use stockassist.ActionStore.{Key, Saved, save_batch}
use stockassist.ActionService.{
  Error, Provider, Ingested, untrusted_source, source_not_found, outside_range, bad_limit,
  duplicate_source, register, ingest, adjusted_view, backtest_view,
}
use stockassist.ActionService.Provenance.{IsIngested, ingest-IsIngested}
use stockassist.ActionService.PointInTime.{views-save_batch}

program : Unit {0}
unfolding register ingest adjusted_view backtest_view save_batch lex_le
program = tt

scale : ℤ → ℕ → ℤ
scale v f = v

abbrev thousandths : DecimalOps
thousandths = record {
  Decimal = ℕ;
  one = 1000;
  times = λ a b. a * b / 1000;
  divided = λ a b. a * 1000 / b;
  positive = λ a. ltb 0 a;
  scale_volume = scale;
}

abbrev time : ℕ → Datetime
time t = record { aware = true; instant = t }

abbrev split : ℕ → ℕ → ℕ → Action ℕ
split revision known factor = record {
  symbol = "005930";
  action_type = "split";
  event_id = "e1";
  revision = pos revision;
  effective_at = time 20;
  announced_at = none;
  known_at = time known;
  price_factor = factor;
  volume_factor = 2000;
  status = "confirmed";
  source = "krx";
  rule_version = "v1";
}

abbrev candles : List (Candle ℕ)
candles =
    record {
      timestamp = time 10;
      open_price = 8000;
      high = 8000;
      low = 8000;
      close = 8000;
      volume = pos 10;
      price_basis = unadjusted;
    }
    ∷ []

abbrev source_named : String → String → List (Action ℕ) → Provider ℕ
source_named name trust actions = record {
  name = name;
  trust_status = trust;
  fetch_actions = λ symbol start end limit.
      ok (record { source = name; symbol = symbol; fetched_at = time 30; actions = actions });
}

abbrev sources : List (String × Provider ℕ)
sources =
    ("krx", source_named "krx" "verified" (split 2 25 400 ∷ []))
    ∷ ("dart", source_named "dart" "experimental" [])
    ∷ ("late", source_named "krx" "verified" (split 2 31 400 ∷ []))
    ∷ []

register_twice :
    register [] (source_named "krx" "verified" [] ∷ source_named "krx" "verified" [] ∷ [])
    ≡ err duplicate_source
unfolding program
register_twice = refl

abbrev saved_or_empty : Result ActionStore.Error (Saved ℕ) → Saved ℕ
saved_or_empty (ok s) = s
saved_or_empty (err e) = record { created = 0; unchanged = 0; table = [] }

abbrev stored : Saved ℕ
stored = saved_or_empty (save_batch some (λ x. ltb 0 x) (split 1 5 500 ∷ []) [])

abbrev ask : String → ℕ → ℕ → Result Error (Ingested ℕ)
ask source start limit =
    ingest some (λ x. ltb 0 x) (λ s. s) (λ s. s) (some stored.table) sources source "005930"
      (time start) (time 40) (pos limit)

ask_dart : ask "dart" 0 10 ≡ err untrusted_source
unfolding program
ask_dart = refl

ask_unknown : ask "nyse" 0 10 ≡ err source_not_found
unfolding program
ask_unknown = refl

ask_limit : ask "krx" 0 501 ≡ err bad_limit
unfolding program
ask_limit = refl

ask_outside : ask "krx" 21 10 ≡ err outside_range
unfolding program
ask_outside = refl

ask_late : (e : Error) × (ask "late" 0 10 ≡ err e)
unfolding program
ask_late = (_, refl)

abbrev ingested_or : Result Error (Ingested ℕ) → Ingested ℕ
ingested_or (ok r) = r
ingested_or (err e) = record { symbol = ""; data_as_of = time 0; fetched = 0; saved = stored }

abbrev ingested : Ingested ℕ
ingested = ingested_or (ask "krx" 0 10)

ingest-IsIngested_example :
    IsIngested some
      (λ x. ltb 0 x)
      (λ s. s)
      (λ s. s)
      stored.table
      sources
      "krx"
      "005930"
      (time 0)
      (time 40)
      (pos 10)
      ingested
unfolding program
ingest-IsIngested_example =
    ingest-IsIngested some (λ x. ltb 0 x) (λ s. s) (λ s. s) stored.table sources "krx" "005930"
      (time 0) (time 40) (pos 10) ingested refl

-- The second revision became known at 25.
views-save_batch_example :
    (adjusted_view thousandths (some ingested.saved.table) "005930" candles (time 24)
      ≡ adjusted_view thousandths (some stored.table) "005930" candles (time 24))
    × (backtest_view thousandths (some ingested.saved.table) "005930" candles (time 24)
        ≡ backtest_view thousandths (some stored.table) "005930" candles (time 24))
unfolding program
views-save_batch_example =
    views-save_batch thousandths some "005930" candles (time 24) (split 2 25 400 ∷ []) stored.table
      ingested.saved (refl, tt) refl
