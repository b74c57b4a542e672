-- ===== src/Pipeline/Tests.antt =====
-- A raw series with each kind of flaw, and the theorems at it.
use stockassist.Common.{
  ℕ, ◌/◌, ◌≡◌, refl, true, none, List, [], ◌∷◌, inl, inr, OnOk, ◌↔◌, map, err, false,
}
use stockassist.Common.Int.{ℤ, pos, negsuc}
use stockassist.Common.Order.{nat_order}
use stockassist.Market.{unadjusted, Candle}
use stockassist.Pipeline.{
  Calendar, week, clean_candles, validate_candles, quality_logs_of, incomparable_timestamps,
  candle_logs, is_valid, aggregate_candles, process, business_days_between, duplicate_timestamp,
  invalid_ohlc, negative_volume, out_of_order, missing_daily_candles,
}
use stockassist.Pipeline.Clean.{IsClean, has_time, clean_candles-IsClean, clean_candles_complete}
use stockassist.Pipeline.Logs.{candle_logs-clean_candles}
use stockassist.Pipeline.Groups.{AllValid, aggregate_candles-AllValid}
use stockassist.Pipeline.Volume.{volume_of, volume_of-aggregate_candles}

program : Unit {0}
unfolding clean_candles validate_candles candle_logs is_valid aggregate_candles process
    business_days_between
program = tt

abbrev calendar : Calendar
calendar = record {
  ordinal = λ t. t.instant;
  iso_week = λ t. (0, t.instant / 7);
  year_month = λ t. (0, t.instant / 30);
}

abbrev candle : ℕ → ℕ → ℕ → ℤ → Candle ℕ
candle t low high volume = record {
  timestamp = record { aware = true; instant = t };
  open_price = low;
  high = high;
  low = low;
  close = high;
  volume = volume;
  price_basis = unadjusted;
}

abbrev good : Candle ℕ
good = candle 16 5 9 (pos 10)

abbrev raw : List (Candle ℕ)
raw =
    candle 15 4 8 (pos 7)
    ∷ good
    ∷ candle 16 5 8 (pos 1)
    ∷ candle 3 6 2 (pos 1)
    ∷ candle 4 1 2 (negsuc 4)
    ∷ candle 40 7 8 (pos 3)
    ∷ []

raw_cleaned : map (λ c. c.timestamp.instant) (clean_candles raw) ≡ 15 ∷ 16 ∷ 40 ∷ []
unfolding program
raw_cleaned = refl

raw_logs :
    map (λ l. l.rule) (quality_logs_of calendar raw)
    ≡ duplicate_timestamp ∷ out_of_order ∷ invalid_ohlc ∷ out_of_order ∷ negative_volume
      ∷ missing_daily_candles ∷ missing_daily_candles ∷ []
unfolding program
raw_logs = refl

-- Friday to the second Monday after it.
gap : business_days_between 5 15 ≡ 5
unfolding program
gap = refl

good_valid : is_valid good ≡ true
unfolding program
good_valid = refl

clean_candles-IsClean_example : IsClean (clean_candles raw)
clean_candles-IsClean_example = clean_candles-IsClean raw

clean_candles_complete_example : has_time good.timestamp (clean_candles raw) ≡ true
clean_candles_complete_example = clean_candles_complete good raw (inr (inl refl)) good_valid

candle_logs-clean_candles_example :
    (candle_logs [] none (clean_candles raw) ≡ [])
    ↔ (clean_candles (clean_candles raw) ≡ clean_candles raw)
candle_logs-clean_candles_example = candle_logs-clean_candles (clean_candles raw)

abbrev two_weeks : List (Candle ℕ)
two_weeks = candle 15 4 8 (pos 7) ∷ good ∷ candle 22 5 6 (pos 2) ∷ []

two_weeks_valid : AllValid two_weeks
unfolding program
two_weeks_valid = (refl, (refl, (refl, tt)))

aggregate_candles-AllValid_example : OnOk AllValid (aggregate_candles calendar two_weeks week)
aggregate_candles-AllValid_example =
    aggregate_candles-AllValid calendar two_weeks week two_weeks_valid

volume_of-aggregate_candles_example :
    OnOk
      (λ merged. volume_of merged ≡ volume_of two_weeks)
      (aggregate_candles calendar two_weeks week)
volume_of-aggregate_candles_example = volume_of-aggregate_candles calendar two_weeks week

abbrev naive : Candle ℕ
naive = record good { timestamp = record { aware = false; instant = 20 } }

mixed_times : process calendar (good ∷ naive ∷ []) week ≡ err incomparable_timestamps
unfolding program
mixed_times = refl
