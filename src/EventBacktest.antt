-- ===== src/EventBacktest.antt =====
-- backend/app/backtest/event_engine.py with backtest/models.py: the event-driven backtest. Floats are
-- values of a parameter with the operations that the code uses; a strategy is a function of the
-- history that it is shown. Metrics are computed from the result and are not part of it here.
pub mod Ledger
pub mod Causal
mod Tests
use stockassist.Common.{
  ℕ, suc, ◌+◌, ◌-◌, min, Bool, true, false, not, ◌&&◌, ◌||◌, ltb, leb, if◌then◌else◌, ◌==◌, nat_eq,
  bool_eq, Option, none, some, List, [], ◌∷◌, ◌++◌, any, length, Result, ok, err, ◌>>=◌, ◌>>◌,
  require,
}
use stockassist.Common.Int.{ℤ, pos, negsuc, pos_part}
use stockassist.Common.Order.{nat_order}
use stockassist.Common.Sort.{sort}
use stockassist.Market.{Datetime, Candle}

-- `floor_quotient a b` is `int(a // b)`, `share v p` is `int(v * p)` of a volume v ≥ 0.
pub record FloatOps : Type 1 where
  pub Float : Type 0
  pub zero_float : Float
  pub one : Float
  pub plus : Float → Float → Float
  pub minus : Float → Float → Float
  pub times : Float → Float → Float
  pub divided : Float → Float → Float
  pub of_quantity : ℕ → Float
  pub is_zero : Float → Bool
  pub is_positive : Float → Bool
  pub floor_quotient : Float → Float → ℤ
  pub share : ℕ → Float → ℕ
  pub rounded : ℕ → Float → Float

-- `run` passes "buy" and "sell" alone, so that `_execute` never raises on its side.
pub data Side : Type 0 where
  buy sell : Side

pub data Reason : Type 0 where
  signal force_close : Reason

pub data Rejection : Type 0 where
  insufficient_cash insufficient_liquidity no_position : Rejection

pub data Error : Type 0 where
  too_few_candles price_not_positive duplicate_timestamps : Error

-- `BacktestConfig` with its `CostModel`, as constructed; `annualization_days` serves the metrics alone.
pub record BacktestConfig (F : Type 0) : Type 0 where
  pub initial_capital : F
  pub close_at_end : Bool
  pub commission_rate : F
  pub tax_rate : F
  pub slippage_rate : F
  pub max_volume_participation : F

pub record Trade (F : Type 0) : Type 0 where
  pub timestamp : Datetime
  pub side : Side
  pub execution_price : F
  pub cost : F
  pub position_after : Bool
  pub quantity : ℕ
  pub cash_after : F

pub record EquityPoint (F : Type 0) : Type 0 where
  pub timestamp : Datetime
  pub equity : F
  pub daily_return : F
  pub position : Bool

-- `BacktestEvent`: one constructor for each type of event, with the details that vary.
pub data BacktestEvent (F : Type 0) : Type 0 where
  market : Candle F → BacktestEvent F
  signalled : Datetime → Bool → Bool → BacktestEvent F
  ordered : Datetime → Side → Datetime → BacktestEvent F
  closing : Datetime → ℕ → BacktestEvent F
  rejected : Datetime → Side → Rejection → ℕ → BacktestEvent F
  partial_fill : Datetime → Side → ℕ → ℕ → Reason → BacktestEvent F
  filled : Datetime → Side → ℕ → ℕ → F → Reason → BacktestEvent F

-- The variables of the loop: `cash`, `quantity`, `trades` and `events`.
pub record Account (F : Type 0) : Type 0 where
  pub cash : F
  pub quantity : ℕ
  pub trades : List (Trade F)
  pub events : List (BacktestEvent F)

-- The account, the pending order, and the history and equity so far.
pub record State (F : Type 0) : Type 0 where
  pub account : Account F
  pub pending : Option Side
  pub history : List (Candle F)
  pub previous_equity : F
  pub points : List (EquityPoint F)

abbrev pub record_event : {F : Type 0} → BacktestEvent F → Account F → Account F
record_event e a = record a { events = a.events ++ e ∷ [] }

module _ (d : FloatOps) where
  open d use {
    Float, zero_float, one, plus, minus, times, divided, of_quantity, is_zero, is_positive,
    floor_quotient, share, rounded,
  }

  -- `None` as the volume, or `bypass_volume_limit`: no bound.
  unfoldable pub bounded_quantity : ℕ → Option ℤ → Float → ℕ
  bounded_quantity requested none participation = requested
  bounded_quantity requested (some volume) participation =
      min requested (share (pos_part volume) participation)

  -- The end of `_execute`, for both sides.
  unfoldable pub settle_fill :
      Side → Datetime → ℕ → ℕ → Float → Float → Reason → Account Float → Account Float
  settle_fill side t requested quantity price fees reason a =
      let partial : List (BacktestEvent Float) =
        (if ltb quantity requested
          then partial_fill t side requested quantity reason ∷ []
          else []) in
      record a {
        trades =
            a.trades
            ++ record {
              timestamp = t;
              side = side;
              execution_price = price;
              cost = fees;
              position_after = ltb 0 a.quantity;
              quantity = quantity;
              cash_after = rounded 4 a.cash;
            }
              ∷ [];
        events = a.events ++ (partial ++ filled t side requested quantity price reason ∷ []);
      }

  unfoldable pub execute_buy :
      Datetime → Float → Option ℤ → BacktestConfig Float → Reason → Account Float → Account Float
  unfolding bounded_quantity settle_fill
  execute_buy t market_price volume config reason a =
      let price = times market_price (plus one config.slippage_rate) in
      let requested =
        pos_part (floor_quotient a.cash (times price (plus one config.commission_rate))) in
      let quantity = bounded_quantity requested volume config.max_volume_participation in
      let notional = times price (of_quantity quantity) in
      let commission = times notional config.commission_rate in
      elim (leb requested 0) [
        | true ↦ record_event (rejected t buy insufficient_cash 0) a
        | false ↦ elim (leb quantity 0) [
          | true ↦ record_event (rejected t buy insufficient_liquidity requested) a
          | false ↦
              settle_fill buy t requested quantity price (plus commission zero_float) reason
                (record a {
                  cash = minus a.cash (plus notional commission);
                  quantity = a.quantity + quantity;
                })
        ]
      ]

  unfoldable pub execute_sell :
      Datetime → Float → Option ℤ → BacktestConfig Float → Reason → Account Float → Account Float
  unfolding bounded_quantity settle_fill
  execute_sell t market_price volume config reason a =
      let price = times market_price (minus one config.slippage_rate) in
      let quantity = bounded_quantity a.quantity volume config.max_volume_participation in
      let notional = times price (of_quantity quantity) in
      let commission = times notional config.commission_rate in
      let tax = times notional config.tax_rate in
      elim (leb a.quantity 0) [
        | true ↦ record_event (rejected t sell no_position 0) a
        | false ↦ elim (leb quantity 0) [
          | true ↦ record_event (rejected t sell insufficient_liquidity a.quantity) a
          | false ↦
              settle_fill sell t a.quantity quantity price (plus commission tax) reason (record a {
                cash = plus a.cash (minus (minus notional commission) tax);
                quantity = a.quantity - quantity;
              })
        ]
      ]

  unfoldable pub execute :
      Side
      → Datetime
      → Float
      → Option ℤ
      → BacktestConfig Float
      → Reason
      → Account Float
      → Account Float
  unfolding execute_buy execute_sell
  execute buy t price volume config reason a = execute_buy t price volume config reason a
  execute sell t price volume config reason a = execute_sell t price volume config reason a

  -- The pending order, at the open of the next candle.
  unfoldable pub execute_pending :
      Option Side → Candle Float → BacktestConfig Float → Account Float → Account Float
  unfolding execute
  execute_pending none c config a = a
  execute_pending (some side) c config a =
      execute side c.timestamp c.open_price (some c.volume) config signal a

  -- A new order, unless the position is the desired one or no candle follows.
  unfoldable pub next_order : Bool → Bool → Option Datetime → Option Side
  next_order desired current none = none
  next_order desired current (some t) =
      if desired == current then none else some (if desired then buy else sell)

  abbrev pub record_order :
      Candle Float → Option Datetime → Option Side → Account Float → Account Float
  record_order c (some t) (some side) a = record_event (ordered c.timestamp side t) a
  record_order c _ _ a = a

  -- At the last candle, `force_close`.
  unfoldable pub close_position :
      Option Datetime → Candle Float → BacktestConfig Float → Account Float → Account Float
  unfolding execute
  close_position (some t) c config a = a
  close_position none c config a = elim (config.close_at_end && ltb 0 a.quantity) [
    | false ↦ a
    | true ↦
        execute sell c.timestamp c.close none config force_close
          (record_event (closing c.timestamp a.quantity) a)
  ]

  unfoldable pub daily_return_of : Float → Float → Float
  daily_return_of equity previous =
      if is_zero previous then zero_float else minus (divided equity previous) one

  module _ (strategy : List (Candle Float) → Bool) (config : BacktestConfig Float) where
    -- The body of the loop, at a candle and the time of the next one.
    unfoldable pub step : Candle Float → Option Datetime → State Float → State Float
    unfolding execute_pending next_order close_position daily_return_of
    step c next s =
        let history = s.history ++ c ∷ [] in
        let opened = execute_pending s.pending c config (record_event (market c) s.account) in
        let desired = strategy history in
        let current = ltb 0 opened.quantity in
        let order = next_order desired current next in
        let told =
          record_order c next order (record_event (signalled c.timestamp desired current) opened) in
        let closed = close_position next c config told in
        let equity = plus closed.cash (times (of_quantity closed.quantity) c.close) in
        record {
          account = closed;
          pending = order;
          history = history;
          previous_equity = equity;
          points =
              s.points
              ++ record {
                timestamp = c.timestamp;
                equity = rounded 4 equity;
                daily_return = rounded 8 (daily_return_of equity s.previous_equity);
                position = ltb 0 closed.quantity;
              }
                ∷ [];
        }

    abbrev pub next_time : List (Candle Float) → Option Datetime
    next_time [] = none
    next_time (c ∷ _) = some c.timestamp

    unfoldable pub run_rows : List (Candle Float) → State Float → State Float
    unfolding step
    run_rows [] s = s
    run_rows (c ∷ rest) s = run_rows rest (step c (next_time rest) s)

  unfoldable pub start : BacktestConfig Float → State Float
  start config = record {
    account = record { cash = config.initial_capital; quantity = 0; trades = []; events = [] };
    pending = none;
    history = [];
    previous_equity = config.initial_capital;
    points = [];
  }

  abbrev pub has_price : Candle Float → Bool
  has_price c =
      is_positive c.open_price && is_positive c.high && is_positive c.low && is_positive c.close

  unfoldable pub has_duplicate : List (Candle Float) → Bool
  has_duplicate [] = false
  has_duplicate (c ∷ cs) =
      any (λ x. x.timestamp.instant == c.timestamp.instant) cs || has_duplicate cs

  unfoldable pub run :
      (List (Candle Float) → Bool)
      → BacktestConfig Float
      → List (Candle Float)
      → Result Error (State Float)
  unfolding run_rows start has_duplicate sort
  run strategy config candles = do
    require (leb 2 (length candles)) too_few_candles
    let rows = sort {K = ℕ} (λ c. c.timestamp.instant) candles
    require (not (any (λ c. not (has_price c)) rows)) price_not_positive
    require (not (has_duplicate rows)) duplicate_timestamps
    ok (run_rows strategy config rows (start config))
