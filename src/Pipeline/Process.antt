-- ===== src/Pipeline/Process.antt =====
-- `CandlePipeline.process` as a whole: when it raises, and what it returns.
use stockassist.Common.{◌≡◌, any, if◌then◌else◌, List, []}
use stockassist.Common.Order.{Order, nat_order}
use stockassist.Market.{PriceBasis, Candle}
use stockassist.Pipeline.{Calendar, is_mixed_log, quality_logs_of, clean_candles}

module _ {P : Type 0} ⦃o : Order P⦄ where
  HasBasis : PriceBasis → Candle P → Type 0
  HasBasis b c = c.price_basis ≡ b

  -- The candles that `process` aggregates.
  cleaned : Calendar → List (Candle P) → List (Candle P)
  cleaned cal raw = if any is_mixed_log (quality_logs_of cal raw) then [] else clean_candles raw
