-- ===== src/Pipeline.antt =====
-- backend/app/pipeline/candles.py: validation, cleaning and aggregation of candles. Prices are
-- values of any type with a total order, which is all that the code asks of `Decimal`. The
-- calendar (`date()`, `isocalendar()`, the month) belongs to Python's library: a parameter.
-- `clean_candles` and `aggregate_candles` are modelled for timestamps that can be compared, as
-- `process` calls them.
pub mod Clean
pub mod Logs
pub mod Groups
pub mod Volume
pub mod Process
mod Tests
use stockassist.Common.{
  ℕ, zero, suc, ◌+◌, ◌-◌, ◌%◌, String, Bool, true, false, not, Option, none, some, List, [], ◌∷◌,
  ◌++◌, map, ◌&&◌, ◌||◌, leb, ltb, if◌then◌else◌, ◌==◌, nat_eq, bool_eq, pair_eq, BoolEq, Result,
  ok, err, ◌>>=◌, ◌>>◌, require, any, all, length,
}
use stockassist.Common.Dict.{lookup, insert}
use stockassist.Common.Order.{Order, nat_order}
use stockassist.Common.Sort.{sort}
use stockassist.Common.Int.{ℤ, pos, negsuc, ◌+ℤ◌, ltb_ℤ}
use stockassist.Market.{
  Datetime, before, at_or_before, PriceBasis, unknown, unadjusted, provider_adjusted,
  point_in_time_adjusted, Candle,
}

pub data CandleInterval : Type 0 where
  day week month : CandleInterval

pub data Severity : Type 0 where
  warning error : Severity

pub data Rule : Type 0 where
  mixed_price_basis duplicate_timestamp invalid_ohlc negative_volume out_of_order : Rule
  missing_daily_candles : Rule

-- `DataQualityLog`, without the message.
pub record DataQualityLog : Type 0 where
  pub rule : Rule
  pub severity : Severity
  pub timestamp : Option Datetime

pub data Error : Type 0 where
  mixed_bases incomparable_timestamps : Error

-- What the code asks of the calendar: the ordinal of a date (day 1 is a Monday), the ISO year and
-- week, the year and month.
pub record Calendar : Type 0 where
  pub ordinal : Datetime → ℕ
  pub iso_week : Datetime → ℕ × ℕ
  pub year_month : Datetime → ℕ × ℕ

abbrev pub min_suspicious_missing_business_days : ℕ
min_suspicious_missing_business_days = 5

abbrev pub same_basis : PriceBasis → PriceBasis → Bool
same_basis unknown unknown = true
same_basis unadjusted unadjusted = true
same_basis provider_adjusted provider_adjusted = true
same_basis point_in_time_adjusted point_in_time_adjusted = true
same_basis _ _ = false

-- `weekday() < 5` of the date with the ordinal.
abbrev pub is_business_day : ℕ → Bool
is_business_day d = ltb ((d + 6) % 7) 5

-- The `while` loop of `_business_days_between`, over the days that it visits.
unfoldable pub count_business_days : ℕ → ℕ → ℕ
count_business_days zero d = 0
count_business_days (suc n) d = (if is_business_day d then 1 else 0) + count_business_days n (suc d)

unfoldable pub business_days_between : ℕ → ℕ → ℕ
unfolding count_business_days
business_days_between start end = count_business_days (end - (start + 1)) (start + 1)

-- Of a sorted list: the timestamps once each, the first of equal ones.
unfoldable pub distinct_after : Datetime → List Datetime → List Datetime
distinct_after t [] = []
distinct_after t (u ∷ ts) =
    let rest = distinct_after u ts in if t.instant == u.instant then rest else u ∷ rest

unfoldable pub distinct_times : List Datetime → List Datetime
unfolding distinct_after
distinct_times [] = []
distinct_times (t ∷ ts) = t ∷ distinct_after t ts

module _ (cal : Calendar) where
  open cal use {ordinal, iso_week, year_month}

  -- The loop over `zip(timestamps, timestamps[1:])`.
  unfoldable pub gap_logs : List Datetime → List DataQualityLog
  unfolding business_days_between
  gap_logs [] = []
  gap_logs (t ∷ []) = []
  gap_logs (t ∷ u ∷ ts) =
      let rest = gap_logs (u ∷ ts) in
      if ltb (business_days_between (ordinal t) (ordinal u)) min_suspicious_missing_business_days
      then rest
      else record { rule = missing_daily_candles; severity = warning; timestamp = some u } ∷ rest

abbrev pub is_seen : Datetime → List Datetime → Bool
is_seen t ts = any (λ u. u.instant == t.instant) ts

abbrev pub log_if : Bool → Rule → Option Datetime → List DataQualityLog
log_if b rule t = if b then record { rule = rule; severity = error; timestamp = t } ∷ [] else []

abbrev pub is_late : Option Datetime → Datetime → Bool
is_late none t = false
is_late (some previous) t = at_or_before t previous

pub record PipelineResult (P : Type 0) : Type 0 where
  pub raw_count : ℕ
  pub cleaned_candles : List (Candle P)
  pub quality_logs : List DataQualityLog

abbrev pub is_mixed_log : DataQualityLog → Bool
is_mixed_log l = elim l.rule [ mixed_price_basis ↦ true | _ ↦ false ]

module _ {P : Type 0} ⦃o : Order P⦄ where
  -- `b < a` on prices.
  abbrev pub exceeds : P → P → Bool
  exceeds a b = not (o.le a b)

  -- Python's `min` and `max` of two: the first, unless the second is smaller or larger.
  abbrev pub lower : P → P → P
  lower a b = if exceeds a b then b else a

  abbrev pub upper : P → P → P
  upper a b = if exceeds b a then b else a

  -- `candle.low > min(open, close) or candle.high < max(open, close)`
  unfoldable pub is_invalid_ohlc : Candle P → Bool
  is_invalid_ohlc c =
      exceeds c.low (lower c.open_price c.close) || exceeds (upper c.open_price c.close) c.high

  unfoldable pub is_negative : Candle P → Bool
  is_negative c = ltb_ℤ c.volume (pos 0)

  -- The test of `clean_candles`.
  unfoldable pub is_valid : Candle P → Bool
  is_valid c =
      o.le c.low (lower c.open_price c.close)
      && o.le (upper c.open_price c.close) c.high
      && not (ltb_ℤ c.volume (pos 0))

  abbrev pub timestamps : List (Candle P) → List Datetime
  timestamps cs = map (λ c. c.timestamp) cs

  abbrev pub time_key : Candle P → ℕ
  time_key c = c.timestamp.instant

  -- `len({candle.price_basis for candle in candles}) > 1`
  unfoldable pub is_mixed : List (Candle P) → Bool
  is_mixed [] = false
  is_mixed (c ∷ cs) = not (all (λ x. same_basis x.price_basis c.price_basis) cs)

  -- The loop of `validate_candles`: the timestamps so far, and the previous one.
  unfoldable pub candle_logs :
      List Datetime → Option Datetime → List (Candle P) → List DataQualityLog
  unfolding is_invalid_ohlc is_negative
  candle_logs seen previous [] = []
  candle_logs seen previous (c ∷ cs) =
      log_if (is_seen c.timestamp seen) duplicate_timestamp (some c.timestamp)
      ++ (log_if (is_invalid_ohlc c) invalid_ohlc (some c.timestamp)
          ++ (log_if (is_negative c) negative_volume (some c.timestamp)
              ++ (log_if (is_late previous c.timestamp) out_of_order (some c.timestamp)
                  ++ candle_logs (c.timestamp ∷ seen) (some c.timestamp) cs)))

  -- Whether no comparison with the previous timestamp raises `TypeError`, which one of a naive time
  -- with an aware one does.
  unfoldable pub is_comparable : Option Datetime → List (Candle P) → Bool
  is_comparable previous [] = true
  is_comparable previous (c ∷ cs) =
      elim previous as (λ _. Bool) [ none ↦ true | some p ↦ bool_eq.beq p.aware c.timestamp.aware ]
      && is_comparable (some c.timestamp) cs

  -- The logs of `validate_candles` where it returns.
  unfoldable pub quality_logs_of : Calendar → List (Candle P) → List DataQualityLog
  unfolding candle_logs is_mixed gap_logs distinct_times sort
  quality_logs_of cal cs =
      log_if (is_mixed cs) mixed_price_basis none
      ++ (candle_logs [] none cs
          ++ gap_logs cal (distinct_times (sort (λ t. t.instant) (timestamps cs))))

  unfoldable pub validate_candles : Calendar → List (Candle P) → Result Error (List DataQualityLog)
  unfolding quality_logs_of is_comparable
  validate_candles cal cs = do
    require (is_comparable none cs) incomparable_timestamps
    ok (quality_logs_of cal cs)

  -- The loop of `clean_candles`, over the sorted candles.
  unfoldable pub first_valid : List Datetime → List (Candle P) → List (Candle P)
  unfolding is_valid
  first_valid seen [] = []
  first_valid seen (c ∷ cs) = elim (not (is_seen c.timestamp seen) && is_valid c) [
    | true ↦ c ∷ first_valid (c.timestamp ∷ seen) cs
    | false ↦ first_valid seen cs
  ]

  unfoldable pub clean_candles : List (Candle P) → List (Candle P)
  unfolding first_valid sort
  clean_candles cs = first_valid [] (sort time_key cs)

  -- `groups[key].append(candle)`
  unfoldable pub group_candles :
      (Datetime → ℕ × ℕ)
      → List ((ℕ × ℕ) × List (Candle P))
      → List (Candle P)
      → List ((ℕ × ℕ) × List (Candle P))
  group_candles key groups [] = groups
  group_candles key groups (c ∷ cs) =
      group_candles key
        (insert (key c.timestamp)
          (elim (lookup (key c.timestamp) groups) [ none ↦ [] | some l ↦ l ] ++ c ∷ []) groups)
        cs

  -- One candle for `ordered[0]` and those behind it; `max` and `min` keep the first of equals.
  unfoldable pub merge : Candle P → List (Candle P) → Candle P
  merge c [] = c
  merge c (n ∷ ns) =
      merge
        (record c {
          high = upper c.high n.high;
          low = lower c.low n.low;
          close = n.close;
          volume = c.volume +ℤ n.volume;
        })
        ns

  unfoldable pub merge_group : List (Candle P) → List (Candle P)
  unfolding merge sort
  merge_group group = elim (sort time_key group) [ [] ↦ [] | c ∷ cs ↦ merge c cs ∷ [] ]

  unfoldable pub merge_groups : List ((ℕ × ℕ) × List (Candle P)) → List (Candle P)
  unfolding merge_group
  merge_groups [] = []
  merge_groups ((_, group) ∷ groups) = merge_group group ++ merge_groups groups

  unfoldable pub aggregate_by :
      (Datetime → ℕ × ℕ) → List (Candle P) → Result Error (List (Candle P))
  unfolding group_candles merge_groups is_mixed
  aggregate_by key cs = do
    require (not (is_mixed cs)) mixed_bases
    ok (merge_groups (group_candles key [] cs))

  unfoldable pub aggregate_candles :
      Calendar → List (Candle P) → CandleInterval → Result Error (List (Candle P))
  unfolding aggregate_by
  aggregate_candles cal cs day = ok cs
  aggregate_candles cal cs week = aggregate_by cal.iso_week cs
  aggregate_candles cal cs month = aggregate_by cal.year_month cs

  -- `CandlePipeline.process`
  unfoldable pub process :
      Calendar → List (Candle P) → CandleInterval → Result Error (PipelineResult P)
  unfolding validate_candles clean_candles aggregate_candles
  process cal raw interval = do
    logs ← validate_candles cal raw
    let cleaned = (if any is_mixed_log logs then [] else clean_candles raw)
    candles ← aggregate_candles cal cleaned interval
    ok (record { raw_count = length raw; cleaned_candles = candles; quality_logs = logs })
