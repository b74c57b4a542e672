-- ===== src/ActionService.antt =====
-- backend/app/services/corporate_actions.py: CorporateActionService, which adjusts candles by the
-- actions that were known at a time, and CorporateActionIngestionService, which saves what a
-- verified source returns. The sources and `str.strip`, `str.upper` are arguments.
pub mod Provenance
pub mod PointInTime
mod Tests
use stockassist.Common.{
  String, Bool, true, not, ◌&&◌, ◌==◌, string_eq, BoolEq, ltb, Option, none, some, List, [], ◌∷◌,
  length, ℕ, Result, ok, err, ◌>>=◌, ◌>>◌, require, map_err,
}
use stockassist.Common.Dict.{lookup, insert}
use stockassist.Common.Order.{Order}
use stockassist.Common.Int.{ℤ, pos, ltb_ℤ}
use stockassist.Market.{Datetime, before, at_or_before, Candle, DecimalOps}
use stockassist.CorporateActions
use stockassist.CorporateActions.{Action, AdjustmentResult, adjust, adjust_backtest}
use stockassist.ActionStore
use stockassist.ActionStore.{Key, RowOrder, Saved, list_known, save_batch}

pub data Error : Type 0 where
  naive_timestamp start_after_end bad_limit persistence_disabled source_not_found : Error
  untrusted_source mismatched_provenance batch_too_large record_mismatched : Error
  outside_range known_after_fetched duplicate_source adjustment_unavailable fetch_failed : Error
  store_error : ActionStore.Error → Error
  engine_error : CorporateActions.Error → Error

unfoldable pub require_aware : Datetime → Result Error (Unit {0})
require_aware value = require value.aware naive_timestamp

-- The repository is `None` where persistence is disabled.
module _ (d : DecimalOps) ⦃eq : BoolEq d.Decimal⦄ ⦃o : Order RowOrder⦄ where
  open d use {Decimal}

  unfoldable pub adjusted_view :
      Option (List (Key × Action Decimal))
      → String
      → List (Candle Decimal)
      → Datetime
      → Result Error (AdjustmentResult d)
  unfolding require_aware
  adjusted_view repository symbol candles as_of = do
    require_aware as_of
    actions ← elim repository [
      | some table ↦ map_err store_error (list_known symbol as_of table)
      | none ↦ ok []
    ]
    map_err engine_error (adjust d candles actions as_of)

  unfoldable pub backtest_view :
      Option (List (Key × Action Decimal))
      → String
      → List (Candle Decimal)
      → Datetime
      → Result Error (AdjustmentResult d)
  unfolding require_aware
  backtest_view repository symbol candles as_of = do
    require_aware as_of
    elim repository [
      | none ↦ err adjustment_unavailable
      | some table ↦ map_err store_error (list_known symbol as_of table) >>= λ actions.
          map_err engine_error (adjust_backtest d candles actions as_of)
    ]

pub record FetchResult (D : Type 0) : Type 0 where
  pub source : String
  pub symbol : String
  pub fetched_at : Datetime
  pub actions : List (Action D)

-- A source: its metadata, and `fetch_actions(symbol, start=, end=, limit=)`.
pub record Provider (D : Type 0) : Type 0 where
  pub name : String
  pub trust_status : String
  pub fetch_actions : String → Datetime → Datetime → ℤ → Result Error (FetchResult D)

pub record Ingested (D : Type 0) : Type 0 where
  pub symbol : String
  pub data_as_of : Datetime
  pub fetched : ℕ
  pub saved : Saved D

module _ {D : Type 0} where
  -- The loop of the constructor.
  unfoldable pub register :
      List (String × Provider D) → List (Provider D) → Result Error (List (String × Provider D))
  register providers [] = ok providers
  register providers (p ∷ rest) = elim (lookup p.name providers) [
    | some _ ↦ err duplicate_source
    | none ↦ register (insert p.name p providers) rest
  ]

  module _ (upper : String → String) where
    unfoldable pub check_action :
        String → String → Datetime → Datetime → Datetime → Action D → Result Error (Unit {0})
    unfolding require_aware
    check_action source symbol start end fetched_at a = do
      require (a.source == source && upper a.symbol == symbol) record_mismatched
      require_aware a.effective_at
      require_aware a.known_at
      require (at_or_before start a.effective_at && at_or_before a.effective_at end) outside_range
      require (not (before fetched_at a.known_at)) known_after_fetched

    unfoldable pub check_actions :
        String → String → Datetime → Datetime → Datetime → List (Action D) → Result Error (Unit {0})
    unfolding check_action
    check_actions source symbol start end fetched_at [] = ok tt
    check_actions source symbol start end fetched_at (a ∷ actions) =
        check_action source symbol start end fetched_at a
        >> check_actions source symbol start end fetched_at actions

  module _ ⦃eq : BoolEq D⦄ (quantize : D → Option D) (positive : D → Bool) (upper : String → String)
      (strip : String → String) where
    unfoldable pub ingest :
        Option (List (Key × Action D))
        → List (String × Provider D)
        → String
        → String
        → Datetime
        → Datetime
        → ℤ
        → Result Error (Ingested D)
    unfolding require_aware check_actions
    ingest repository providers source symbol start end limit = do
      require_aware start
      require_aware end
      require (not (before end start)) start_after_end
      require (not (ltb_ℤ limit (pos 1)) && not (ltb_ℤ (pos 500) limit)) bad_limit
      table ← elim repository [ none ↦ err persistence_disabled | some t ↦ ok t ]
      provider ← elim (lookup source providers) [ none ↦ err source_not_found | some p ↦ ok p ]
      require (provider.trust_status == "verified") untrusted_source
      let normalized_symbol = upper (strip symbol)
      result ← provider.fetch_actions normalized_symbol start end limit
      require_aware result.fetched_at
      require (result.source == source && upper result.symbol == normalized_symbol)
          mismatched_provenance
      require (not (ltb_ℤ limit (pos (length result.actions)))) batch_too_large
      check_actions upper source normalized_symbol start end result.fetched_at result.actions
      saved ← map_err store_error (save_batch quantize positive result.actions table)
      ok (record {
        symbol = normalized_symbol;
        data_as_of = result.fetched_at;
        fetched = length result.actions;
        saved = saved;
      })
