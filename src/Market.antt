-- ===== src/Market.antt =====
-- The data of backend/app/providers/contracts.py that the other parts share: time stamps and
-- candles. `Decimal` and its arithmetic belong to Python's library: they are parameters.
use stockassist.Common.{ℕ, Bool, ltb, leb}
use stockassist.Common.Int.{ℤ}

-- A `datetime`: whether it has an offset, and the instant that it stands for. Two aware values are
-- compared and are equal by their instants.
pub record Datetime : Type 0 where
  pub aware : Bool
  pub instant : ℕ

abbrev pub before : Datetime → Datetime → Bool
before a b = ltb a.instant b.instant

abbrev pub at_or_before : Datetime → Datetime → Bool
at_or_before a b = leb a.instant b.instant

-- `PRICE_BASES`
pub data PriceBasis : Type 0 where
  unknown unadjusted provider_adjusted point_in_time_adjusted : PriceBasis

pub record Candle (Decimal : Type 0) : Type 0 where
  pub timestamp : Datetime
  pub open_price : Decimal
  pub high : Decimal
  pub low : Decimal
  pub close : Decimal
  pub volume : ℤ
  pub price_basis : PriceBasis

-- Python's `Decimal` as the programs use it: `Decimal("1")`, the products and quotients at the
-- context's precision, the test `0 < x`, and `int((Decimal(v) * x).quantize(1, ROUND_HALF_UP))`.
pub record DecimalOps : Type 1 where
  pub Decimal : Type 0
  pub one : Decimal
  pub times : Decimal → Decimal → Decimal
  pub divided : Decimal → Decimal → Decimal
  pub positive : Decimal → Bool
  pub scale_volume : ℤ → Decimal → ℤ
