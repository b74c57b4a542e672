-- ===== src/ActionService/PointInTime.antt =====
-- What was known at a time does not depend on what is saved later.
use stockassist.Common.{
  String, ◌≡◌, ap, false, BoolEq, Option, some, List, All, ok, ◌>>=◌, ◌>>◌, map_err,
}
use stockassist.Common.Order.{Order}
use stockassist.Market.{Datetime, at_or_before, Candle, DecimalOps}
use stockassist.CorporateActions.{Action, adjust, adjust_backtest}
use stockassist.ActionStore.{Key, RowOrder, Saved, save_batch}
use stockassist.ActionStore.History.{list_known-save_batch}
use stockassist.ActionService.{
  require_aware, adjusted_view, backtest_view, store_error, engine_error,
}

module _ (d : DecimalOps) ⦃eq : BoolEq d.Decimal⦄ ⦃o : Order RowOrder⦄
    (quantize : d.Decimal → Option d.Decimal) where
  open d use {Decimal, positive}

  -- A batch of actions that all became known after a point in time changes neither the adjusted
  -- candles nor the candles for a backtest as of that point, errors included.
  pub views-save_batch :
      (symbol : String) (candles : List (Candle Decimal)) (as_of : Datetime)
      (batch : List (Action Decimal)) (t : List (Key × Action Decimal)) (s : Saved Decimal)
      → All (λ a. at_or_before a.known_at as_of ≡ false) batch
      → save_batch quantize positive batch t ≡ ok s
      → (adjusted_view d (some s.table) symbol candles as_of
          ≡ adjusted_view d (some t) symbol candles as_of)
        × (backtest_view d (some s.table) symbol candles as_of
            ≡ backtest_view d (some t) symbol candles as_of)
  unfolding adjusted_view backtest_view
  views-save_batch symbol candles as_of batch t s late h =
      let same = list_known-save_batch quantize positive symbol as_of batch t s late h in
      (
        ap
            (λ known.
              require_aware as_of
              >> (map_err store_error known >>= λ actions.
                  map_err engine_error (adjust d candles actions as_of)))
            same,
        ap
            (λ known.
              require_aware as_of
              >> (map_err store_error known >>= λ actions.
                  map_err engine_error (adjust_backtest d candles actions as_of)))
            same,
      )
