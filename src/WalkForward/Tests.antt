-- ===== src/WalkForward/Tests.antt =====
-- A validation of 52 candles in three folds behind a warm-up of 21, and the theorem at it. The engine
-- returns a point for each candle.
use stockassist.Common.{
  ℕ, zero, suc, ◌+◌, ◌≤◌, ◌≡◌, refl, true, List, [], ◌∷◌, map, length, drop, All, Result, ok, err,
}
use stockassist.Common.Order.{nat_order}
use stockassist.Common.Sort.{sort}
use stockassist.Common.Int.{pos}
use stockassist.Market.{Datetime, Candle, unadjusted}
use stockassist.WalkForward.{Error, Fold, EngineResult, validate, bad_splits, insufficient_candles}
use stockassist.WalkForward.Cover.{tested, validate-IsCover, IsRun}

program : Unit {0}
unfolding validate
program = tt

abbrev candle : ℕ → Candle ℕ
candle t = record {
  timestamp = record { aware = true; instant = t };
  open_price = t;
  high = t;
  low = t;
  close = t;
  volume = pos 1;
  price_basis = unadjusted;
}

history_from : ℕ → ℕ → List (Candle ℕ)
history_from t zero = []
history_from t (suc n) = candle t ∷ history_from (suc t) n

abbrev run : List (Candle ℕ) → (List (Candle ℕ) → List ℕ) → EngineResult ℕ Datetime Datetime
run candles strategy = record { equity_curve = strategy candles; trades = []; events = [] }

abbrev signals : List (Candle ℕ) → List ℕ
signals candles = map (λ c. c.close) candles

abbrev result : ℕ → ℕ → Result Error (List (Fold ℕ ℕ Datetime Datetime))
result candles n = validate 0 (λ t. t) (λ t. t) run signals (history_from 0 candles) n 21

seven_folds : result 51 7 ≡ err bad_splits
unfolding program history_from
seven_folds = refl

too_few : result 50 3 ≡ err insufficient_candles
unfolding program history_from
too_few = refl

abbrev folds_or :
    Result Error (List (Fold ℕ ℕ Datetime Datetime)) → List (Fold ℕ ℕ Datetime Datetime)
folds_or (ok r) = r
folds_or (err e) = []

abbrev folds : List (Fold ℕ ℕ Datetime Datetime)
folds = folds_or (result 52 3)

lengths : map (λ f. length f.points) folds ≡ 10 ∷ 10 ∷ 11 ∷ []
unfolding program history_from
lengths = refl

validate-IsCover_example :
    (length folds ≡ 3)
    × (tested 0 (λ t. t) (λ t. t) run signals folds
        ≡ drop 21 (sort (λ c. c.timestamp.instant) (history_from 0 52)))
    × All
        (λ f.
          (f.bounds.activation_index ≡ 21)
          × (f.bounds.source_start + 21 ≡ f.bounds.test_start)
          × (10 ≤ length f.test)
          × IsRun 0
              (λ t. t)
              (λ t. t)
              run
              signals
              21
              (sort (λ c. c.timestamp.instant) (history_from 0 52))
              f)
        folds
unfolding program history_from
validate-IsCover_example =
    validate-IsCover 0 (λ t. t) (λ t. t) run signals (history_from 0 52) 3 21 folds refl
