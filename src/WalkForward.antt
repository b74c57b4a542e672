-- ===== src/WalkForward.antt =====
-- backend/app/backtest/validation.py: the folds of the walk-forward validation. The engine, the
-- strategy and the metrics of a fold's results are arguments; the sums over the folds are left out.
pub mod Cover
mod Tests
use stockassist.Common.{
  ℕ, zero, suc, ◌+◌, ◌-◌, ◌*◌, ◌/◌, max, Bool, true, not, ◌&&◌, leb, ltb, if◌then◌else◌, ◌==◌,
  nat_eq, List, [], ◌∷◌, keep, take, drop, length, Result, ok, err, ◌>>=◌, ◌>>◌, require,
}
use stockassist.Common.Order.{nat_order}
use stockassist.Common.Sort.{sort}
use stockassist.Market.{Datetime, Candle, at_or_before}

pub data Error : Type 0 where
  bad_splits short_warmup insufficient_candles : Error

-- `xs[i:j]`
abbrev pub slice : {A : Type 0} → ℕ → ℕ → List A → List A
slice i j xs = drop i (take j xs)

-- `signals.iloc[:activation_index] = 0`
unfoldable pub silenced : {A : Type 0} → A → ℕ → List A → List A
silenced flat zero signals = signals
silenced flat (suc n) [] = []
silenced flat (suc n) (s ∷ signals) = flat ∷ silenced flat n signals

-- Where a fold lies among the candles.
pub record Bounds : Type 0 where
  pub source_start : ℕ
  pub test_start : ℕ
  pub test_end : ℕ
  pub activation_index : ℕ

unfoldable pub bounds_of : (total n_splits warmup fold_size fold_index : ℕ) → Bounds
bounds_of total n_splits warmup fold_size fold_index =
    let test_start = warmup + fold_index * fold_size in
    let source_start = test_start - warmup in
    record {
      source_start = source_start;
      test_start = test_start;
      test_end =
          if fold_index + 1 == n_splits then total else warmup + (fold_index + 1) * fold_size;
      activation_index = test_start - source_start;
    }

-- What an engine returns of a run: the points of the equity curve, and the trades and the events.
pub record EngineResult (P T E : Type 0) : Type 0 where
  pub equity_curve : List P
  pub trades : List T
  pub events : List E

-- What a fold is judged by.
pub record Fold (D P T E : Type 0) : Type 0 where
  pub fold : ℕ
  pub bounds : Bounds
  pub test : List (Candle D)
  pub points : List P
  pub fold_trades : List T
  pub fold_events : List E

module _ {D G P T E : Type 0} (flat : G) (time_of_trade : T → Datetime)
    (time_of_event : E → Datetime)
    (run : List (Candle D) → (List (Candle D) → List G) → EngineResult P T E)
    (signals : List (Candle D) → List G) where
  -- `test_timestamp` is the time of the first tested candle.
  unfoldable pub evaluate : List (Candle D) → ℕ → Bounds → Fold D P T E
  unfolding silenced
  evaluate ordered fold_index b =
      let result =
        run (slice b.source_start b.test_end ordered)
          (λ candles. silenced flat b.activation_index (signals candles)) in
      let test = slice b.test_start b.test_end ordered in
      record {
        fold = fold_index + 1;
        bounds = b;
        test = test;
        points = drop b.activation_index result.equity_curve;
        fold_trades = elim test [
          | [] ↦ []
          | c ∷ _ ↦ keep (λ t. at_or_before c.timestamp (time_of_trade t)) result.trades
        ];
        fold_events = elim test [
          | [] ↦ []
          | c ∷ _ ↦ keep (λ e. at_or_before c.timestamp (time_of_event e)) result.events
        ];
      }

  -- `for fold_index in range(first, first + count)`
  unfoldable pub folds_from :
      List (Candle D) → (n_splits warmup fold_size first count : ℕ) → List (Fold D P T E)
  unfolding evaluate bounds_of
  folds_from ordered n_splits warmup fold_size first zero = []
  folds_from ordered n_splits warmup fold_size first (suc count) =
      evaluate ordered first (bounds_of (length ordered) n_splits warmup fold_size first)
      ∷ folds_from ordered n_splits warmup fold_size (suc first) count

  unfoldable pub validate :
      List (Candle D) → (n_splits warmup : ℕ) → Result Error (List (Fold D P T E))
  unfolding folds_from sort
  validate candles n_splits warmup = do
    require (leb 2 n_splits && leb n_splits 6) bad_splits
    require (not (ltb warmup 21)) short_warmup
    let ordered = sort (λ c. c.timestamp.instant) candles
    require (not (ltb (length ordered) (warmup + n_splits * 10))) insufficient_candles
    ok (folds_from ordered n_splits warmup ((length ordered - warmup) / n_splits) 0 n_splits)
