-- ===== src/CorporateActions.antt =====
-- backend/app/corporate_actions/engine.py: the adjusted view of candles at a point in time, and
-- the forward normalisation for backtests, over the records of contracts.py there.
pub mod Latest
pub mod Selection
pub mod Adjusted
pub mod Backtest
mod Tests
use stockassist.Common.{
  ℕ, String, Bool, true, false, not, Option, none, some, List, [], ◌∷◌, ◌++◌, map, ◌&&◌, ◌||◌, leb,
  ltb, if◌then◌else◌, ◌==◌, string_eq, pair_eq, Result, ok, err, ◌>>=◌, ◌>>◌, require, keep, any,
  all, length,
}
use stockassist.Common.Dict.{lookup, insert}
use stockassist.Common.Order.{Order, nat_order}
use stockassist.Common.Text.{string_order, pair_order}
use stockassist.Common.Sort.{sort}
use stockassist.Common.Int.{ℤ, pos, ltb_ℤ}
use stockassist.Market.{
  Datetime, before, at_or_before, PriceBasis, unadjusted, point_in_time_adjusted, Candle,
  DecimalOps,
}

pub data Error : Type 0 where
  source_not_unadjusted several_symbols bad_revision bad_type bad_status bad_factors : Error
  corrected_history known_too_late : Error
  naive : String → Error

-- `recorded_at`, the time at which the row was written, is left out: the engines do not read it, and
-- the repository takes it off before it compares two revisions.
pub record Action (Decimal : Type 0) : Type 0 where
  pub symbol : String
  pub action_type : String
  pub event_id : String
  pub revision : ℤ
  pub effective_at : Datetime
  pub announced_at : Option Datetime
  pub known_at : Datetime
  pub price_factor : Decimal
  pub volume_factor : Decimal
  pub status : String
  pub source : String
  pub rule_version : String

abbrev pub contains : List String → String → Bool
contains xs x = any (λ y. y == x) xs

unfoldable pub action_types : List String
action_types = "split" ∷ "reverse_split" ∷ "cash_dividend" ∷ "stock_dividend" ∷ "rights_issue" ∷ []

unfoldable pub action_statuses : List String
action_statuses = "announced" ∷ "confirmed" ∷ "cancelled" ∷ []

unfoldable pub require_aware : Datetime → String → Result Error (Unit {0})
require_aware value field = require value.aware (naive field)

abbrev pub Key : Type 0
Key = String × String

module _ {D : Type 0} where
  abbrev pub key_of : Action D → Key
  key_of a = (a.source, a.event_id)

  -- `(action.known_at, action.revision) > (current.known_at, current.revision)`
  abbrev pub newer : Action D → Action D → Bool
  newer a b =
      before b.known_at a.known_at
      || not (before a.known_at b.known_at) && ltb_ℤ b.revision a.revision

  abbrev pub visible : Datetime → Action D → Bool
  visible as_of a = at_or_before a.known_at as_of && at_or_before a.effective_at as_of

  abbrev pub is_confirmed : Action D → Bool
  is_confirmed a = a.status == "confirmed"

  abbrev pub effective_key : Action D → ℕ × (String × String)
  effective_key a = (a.effective_at.instant, (a.source, a.event_id))

  abbrev pub values : List (Key × Action D) → List (Action D)
  values m = map (λ e. e.1) m

  -- `{candle.price_basis for candle in candles} == {"unadjusted"}`, or no candle at all.
  unfoldable pub is_unadjusted : Candle D → Bool
  is_unadjusted c = elim c.price_basis [ unadjusted ↦ true | _ ↦ false ]

  unfoldable pub check_candles : List (Candle D) → Result Error (Unit {0})
  unfolding require_aware
  check_candles [] = ok tt
  check_candles (c ∷ cs) = require_aware c.timestamp "candle timestamp" >> check_candles cs

  -- `len({action.symbol for action in actions}) > 1` is false.
  unfoldable pub one_symbol : List (Action D) → Bool
  one_symbol [] = true
  one_symbol (a ∷ actions) = all (λ b. b.symbol == a.symbol) actions

  -- The store of one visible action in `latest`.
  unfoldable pub note : List (Key × Action D) → Action D → List (Key × Action D)
  note latest a = elim (lookup (key_of a) latest) [
    | none ↦ insert (key_of a) a latest
    | some current ↦ if newer a current then insert (key_of a) a latest else latest
  ]

module _ (d : DecimalOps) where
  open d use {Decimal, one, times, divided, positive, scale_volume}

  unfoldable pub validate_action : Action Decimal → Result Error (Unit {0})
  unfolding require_aware action_types action_statuses
  validate_action a = do
    require_aware a.effective_at "effective_at"
    require_aware a.known_at "known_at"
    elim a.announced_at [ none ↦ ok tt | some t ↦ require_aware t "announced_at" ]
    require (not (ltb_ℤ a.revision (pos 1))) bad_revision
    require (contains action_types a.action_type) bad_type
    require (contains action_statuses a.status) bad_status
    require (positive a.price_factor && positive a.volume_factor) bad_factors

  -- The loop of `_latest_effective_revisions`.
  unfoldable pub collect :
      Datetime
      → List (Key × Action Decimal)
      → List (Action Decimal)
      → Result Error (List (Key × Action Decimal))
  unfolding validate_action note
  collect as_of latest [] = ok latest
  collect as_of latest (a ∷ actions) =
      validate_action a >> collect as_of (if visible as_of a then note latest a else latest) actions

  unfoldable pub latest_effective_revisions :
      List (Action Decimal) → Datetime → Result Error (List (Action Decimal))
  unfolding collect one_symbol sort
  latest_effective_revisions actions as_of = do
    require (one_symbol actions) several_symbols
    latest ← collect as_of [] actions
    ok (sort effective_key (keep is_confirmed (values latest)))

  -- The two factors of a candle: products over the actions that take effect after it.
  unfoldable pub backward_factors :
      Candle Decimal → Decimal × Decimal → List (Action Decimal) → Decimal × Decimal
  backward_factors c f [] = f
  backward_factors c f (a ∷ actions) =
      backward_factors c
        (if before c.timestamp a.effective_at
          then (times f.0 a.price_factor, times f.1 a.volume_factor)
          else f)
        actions

  -- `price_factor /= action.price_factor` over the actions in effect at the candle.
  unfoldable pub forward_factors :
      Candle Decimal → Decimal × Decimal → List (Action Decimal) → Decimal × Decimal
  forward_factors c f [] = f
  forward_factors c f (a ∷ actions) =
      forward_factors c
        (if at_or_before a.effective_at c.timestamp
          then (divided f.0 a.price_factor, divided f.1 a.volume_factor)
          else f)
        actions

  unfoldable pub scaled : Candle Decimal → Decimal × Decimal → Candle Decimal
  scaled c f = record {
    timestamp = c.timestamp;
    open_price = times c.open_price f.0;
    high = times c.high f.0;
    low = times c.low f.0;
    close = times c.close f.0;
    volume = scale_volume c.volume f.1;
    price_basis = point_in_time_adjusted;
  }

  unfoldable pub affecting : List (Candle Decimal) → List (Action Decimal) → List (Action Decimal)
  affecting candles = keep (λ a. any (λ c. before c.timestamp a.effective_at) candles)

  pub record AdjustmentResult : Type 0 where
    pub candles : List (Candle Decimal)
    pub applied_actions : List (Action Decimal)
    pub data_as_of : Datetime

  -- `CorporateActionAdjustmentEngine.adjust`
  unfoldable pub adjust :
      List (Candle Decimal) → List (Action Decimal) → Datetime → Result Error AdjustmentResult
  unfolding latest_effective_revisions backward_factors scaled affecting check_candles is_unadjusted
  adjust candles actions as_of = do
    require (all is_unadjusted candles) source_not_unadjusted
    require_aware as_of "as_of"
    check_candles candles
    selected ← latest_effective_revisions actions as_of
    let used = affecting candles selected
    ok (record {
      candles = map (λ c. scaled c (backward_factors c (one, one) used)) candles;
      applied_actions = used;
      data_as_of = as_of;
    })

  -- `grouped.setdefault(key, []).append(action)`, for the visible actions.
  unfoldable pub group_visible :
      Datetime
      → List (Key × List (Action Decimal))
      → List (Action Decimal)
      → Result Error (List (Key × List (Action Decimal)))
  unfolding validate_action
  group_visible as_of grouped [] = ok grouped
  group_visible as_of grouped (a ∷ actions) =
      validate_action a
      >> group_visible as_of
          (if visible as_of a
            then insert (key_of a)
                (elim (lookup (key_of a) grouped) [ none ↦ [] | some l ↦ l ] ++ a ∷ []) grouped
            else grouped)
          actions

  -- The loop over the groups: one revision each, known in time, and confirmed to count.
  unfoldable pub select_single :
      List (Key × List (Action Decimal)) → Result Error (List (Action Decimal))
  select_single [] = ok []
  select_single ((_, a ∷ []) ∷ groups) = do
    require (not (before a.effective_at a.known_at)) known_too_late
    rest ← select_single groups
    ok (if is_confirmed a then a ∷ rest else rest)
  select_single (_ ∷ groups) = err corrected_history

  -- `CorporateActionBacktestAdjustmentEngine.adjust`
  unfoldable pub adjust_backtest :
      List (Candle Decimal) → List (Action Decimal) → Datetime → Result Error AdjustmentResult
  unfolding group_visible select_single forward_factors scaled check_candles is_unadjusted sort
  adjust_backtest candles actions as_of = do
    require_aware as_of "as_of"
    require (all is_unadjusted candles) source_not_unadjusted
    check_candles candles
    grouped ← group_visible as_of [] actions
    selected ← select_single grouped
    ok (record {
      candles = map (λ c. scaled c (forward_factors c (one, one) selected)) candles;
      applied_actions = sort effective_key selected;
      data_as_of = as_of;
    })
