-- ===== src/EventBacktest/Tests.antt =====
-- A backtest in whole numbers, without costs, and the theorems at it.
use stockassist.Common.{
  ℕ, ◌+◌, ◌-◌, ◌*◌, ◌/◌, ◌==◌, nat_eq, ltb, ◌≡◌, refl, Bool, true, List, [], ◌∷◌, ◌++◌, length,
  take, map, ok, err, OnOk, Result,
}
use stockassist.Common.Int.{pos}
use stockassist.Market.{unadjusted, Candle}
use stockassist.EventBacktest.{
  FloatOps, BacktestConfig, State, Error, too_few_candles, run, run_rows, start,
}
use stockassist.EventBacktest.Ledger.{IsSettled, run-IsSettled}
use stockassist.EventBacktest.Causal.{run_rows-causal}

program : Unit {0}
unfolding run run_rows start
program = tt

abbrev whole : FloatOps
whole = record {
  Float = ℕ;
  zero_float = 0;
  one = 1;
  plus = λ a b. a + b;
  minus = λ a b. a - b;
  times = λ a b. a * b;
  divided = λ a b. a / b;
  of_quantity = λ n. n;
  is_zero = λ a. a == 0;
  is_positive = λ a. ltb 0 a;
  floor_quotient = λ a b. pos (a / b);
  share = λ v p. v * p / 2;
  rounded = λ n a. a;
}

-- Half of a candle's volume can be taken.
abbrev config : BacktestConfig ℕ
config = record {
  initial_capital = 100;
  close_at_end = true;
  commission_rate = 0;
  tax_rate = 0;
  slippage_rate = 0;
  max_volume_participation = 1;
}

abbrev candle : ℕ → ℕ → Candle ℕ
candle t price = record {
  timestamp = record { aware = true; instant = t };
  open_price = price;
  high = price;
  low = price;
  close = price;
  volume = pos 12;
  price_basis = unadjusted;
}

-- Long from the second candle on.
abbrev strategy : List (Candle ℕ) → Bool
strategy history = ltb 1 (length history)

abbrev candles : List (Candle ℕ)
candles = candle 1 10 ∷ candle 2 10 ∷ candle 3 10 ∷ candle 4 20 ∷ []

quantities : Result Error (State ℕ) → List ℕ
quantities (ok s) = map (λ t. t.quantity) s.account.trades
quantities (err e) = []

-- Six of ten are bought at the open of the third candle, and sold at the last close.
run_candles : quantities (run whole strategy config candles) ≡ 6 ∷ 6 ∷ []
unfolding program quantities
run_candles = refl

run_one : run whole strategy config (candle 1 10 ∷ []) ≡ err too_few_candles
unfolding program
run_one = refl

run-IsSettled_example : OnOk (IsSettled whole strategy config) (run whole strategy config candles)
run-IsSettled_example = run-IsSettled whole strategy config candles

run_rows-causal_example :
    take 2
      (run_rows whole strategy config
        ((candle 1 10 ∷ candle 2 10 ∷ []) ++ candle 3 10 ∷ candle 4 20 ∷ [])
        (start whole config)).points
    ≡ take 2
        (run_rows whole strategy config
          ((candle 1 10 ∷ candle 2 10 ∷ []) ++ candle 3 99 ∷ [])
          (start whole config)).points
run_rows-causal_example =
    run_rows-causal whole strategy config (candle 1 10 ∷ candle 2 10 ∷ []) (candle 3 10)
      (candle 3 99) (candle 4 20 ∷ []) [] refl
