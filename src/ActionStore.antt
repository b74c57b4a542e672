-- ===== src/ActionStore.antt =====
-- backend/app/repositories/corporate_action.py: the stored revisions of corporate actions. The table
-- has a unique key, so it is a dict by that key in the order of its ids; a transaction that raises
-- leaves it as it was. `Decimal.quantize`, the equality of Decimals and the order in which the
-- database sorts rows are arguments. `created_at` is not kept.
pub mod Saving
pub mod Twice
pub mod History
mod Tests
use stockassist.Common.{
  ℕ, suc, ◌+◌, String, Bool, true, false, not, ◌&&◌, ltb, leb, if◌then◌else◌, ◌==◌, nat_eq,
  string_eq, bool_eq, BoolEq, pair_eq, Option, none, some, List, [], ◌∷◌, map, keep, Result, ok,
  err, ◌>>=◌, ◌>>◌, require,
}
use stockassist.Common.Dict.{lookup, insert}
use stockassist.Common.Order.{Order}
use stockassist.Common.Sort.{sort}
use stockassist.Common.Int.{ℤ, pos, ltb_ℤ, int_eq}
use stockassist.Market.{Datetime, at_or_before}
use stockassist.CorporateActions.{Action, contains, action_types, action_statuses}

pub data Error : Type 0 where
  naive_timestamp precision_exceeded bad_classification bad_revision_or_factors : Error
  conflicting_batch revision_exists : Error

-- `(source, symbol, event_id, revision)`
abbrev pub Key : Type 0
Key = String × (String × (String × ℤ))

abbrev pub RowOrder : Type 0
RowOrder = ℕ × (String × (String × ℤ))

-- `==` on aware timestamps.
abbrev pub same_time : Datetime → Datetime → Bool
same_time a b = a.instant == b.instant

abbrev pub same_optional_time : Option Datetime → Option Datetime → Bool
same_optional_time none none = true
same_optional_time (some a) (some b) = same_time a b
same_optional_time _ _ = false

unfoldable pub require_aware : Datetime → Result Error (Unit {0})
require_aware value = require value.aware naive_timestamp

-- What `save_batch` has counted, and the table then.
pub record Saved (D : Type 0) : Type 0 where
  pub created : ℕ
  pub unchanged : ℕ
  pub table : List (Key × Action D)

module _ {D : Type 0} ⦃eq : BoolEq D⦄ where
  abbrev pub row_key : Action D → Key
  row_key a = (a.source, (a.symbol, (a.event_id, a.revision)))

  -- `_same_revision`: the row has the key of the action.
  unfoldable pub same_revision : Action D → Action D → Bool
  same_revision row a =
      row.symbol == a.symbol
      && row.action_type == a.action_type
      && same_time row.effective_at a.effective_at
      && same_optional_time row.announced_at a.announced_at
      && same_time row.known_at a.known_at
      && row.price_factor == a.price_factor
      && row.volume_factor == a.volume_factor
      && row.status == a.status
      && row.rule_version == a.rule_version

  -- `_same_record`: every field but `recorded_at`.
  unfoldable pub same_record : Action D → Action D → Bool
  same_record left right =
      left.symbol == right.symbol
      && left.action_type == right.action_type
      && left.event_id == right.event_id
      && left.revision == right.revision
      && same_time left.effective_at right.effective_at
      && same_optional_time left.announced_at right.announced_at
      && same_time left.known_at right.known_at
      && left.price_factor == right.price_factor
      && left.volume_factor == right.volume_factor
      && left.status == right.status
      && left.source == right.source
      && left.rule_version == right.rule_version

  -- The loop over the batch: `unique`, and the count of repeated records.
  unfoldable pub unique_actions :
      List (Key × Action D) → List (Action D) → Result Error (List (Key × Action D) × ℕ)
  unfolding same_record
  unique_actions unique [] = ok (unique, 0)
  unique_actions unique (a ∷ actions) = elim (lookup (row_key a) unique) [
    | none ↦ unique_actions (insert (row_key a) a unique) actions
    | some previous ↦ elim (same_record previous a) [
      | false ↦ err conflicting_batch
      | true ↦ unique_actions unique actions >>= λ r. ok (r.0, suc r.1)
    ]
  ]

  -- The loop in the transaction.
  unfoldable pub store : List (Key × Action D) → List (Key × Action D) → Result Error (Saved D)
  unfolding same_revision
  store [] table = ok (record { created = 0; unchanged = 0; table = table })
  store ((key, a) ∷ rest) table = elim (lookup key table) [
    | none ↦ store rest (insert key a table) >>= λ r. ok (record r { created = suc r.created })
    | some row ↦ elim (same_revision row a) [
      | true ↦ store rest table >>= λ r. ok (record r { unchanged = suc r.unchanged })
      | false ↦ err revision_exists
    ]
  ]

  module _ (quantize : D → Option D) (positive : D → Bool) where
    unfoldable pub quantized : D → Result Error D
    quantized x = elim (quantize x) [ none ↦ err precision_exceeded | some y ↦ ok y ]

    unfoldable pub canonical : Action D → Result Error (Action D)
    unfolding quantized
    canonical a = do
      price ← quantized a.price_factor
      volume ← quantized a.volume_factor
      ok (record a { price_factor = price; volume_factor = volume })

    unfoldable pub canonical_all : List (Action D) → Result Error (List (Action D))
    unfolding canonical
    canonical_all [] = ok []
    canonical_all (a ∷ actions) = do c ← canonical a; rest ← canonical_all actions; ok (c ∷ rest)

    unfoldable pub validate : Action D → Result Error (Unit {0})
    unfolding require_aware action_types action_statuses
    validate a = do
      require_aware a.effective_at
      require_aware a.known_at
      elim a.announced_at [ none ↦ ok tt | some t ↦ require_aware t ]
      require (contains action_types a.action_type && contains action_statuses a.status)
          bad_classification
      require
          (not (ltb_ℤ a.revision (pos 1)) && positive a.price_factor && positive a.volume_factor)
          bad_revision_or_factors

    unfoldable pub validate_all : List (Action D) → Result Error (Unit {0})
    unfolding validate
    validate_all [] = ok tt
    validate_all (a ∷ actions) = validate a >> validate_all actions

    unfoldable pub save_batch : List (Action D) → List (Key × Action D) → Result Error (Saved D)
    unfolding canonical_all validate_all unique_actions store
    save_batch batch table = do
      actions ← canonical_all batch
      validate_all actions
      unique ← unique_actions [] actions
      saved ← store unique.0 table
      ok (record saved { unchanged = unique.1 + saved.unchanged })

  -- `list_known`, whose `_record` gives a row back as the action that it is.
  unfoldable pub list_known :
      ⦃o : Order RowOrder⦄
      → String
      → Datetime
      → List (Key × Action D)
      → Result Error (List (Action D))
  unfolding require_aware sort
  list_known symbol as_of table = do
    require_aware as_of
    ok (
        sort {K = RowOrder} (λ a. (a.effective_at.instant, (a.source, (a.event_id, a.revision))))
          (keep (λ a. a.symbol == symbol && at_or_before a.known_at as_of) (map (λ p. p.1) table)))
