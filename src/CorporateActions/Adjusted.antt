-- ===== src/CorporateActions/Adjusted.antt =====
-- What the two engines do with the actions: nothing that is not yet known counts, and a backtest
-- candle sees no action that takes effect after it.
use stockassist.Common.{
  String, ◌≡◌, refl, true, false, List, [], ◌∷◌, ◌==◌, string_eq, pair_eq, ok, keep, All-keep, all,
  All, Bool-cases, inl, inr, arith,
}
use stockassist.Common.Order.{nat_order}
use stockassist.Common.Text.{string_order, pair_order}
use stockassist.Market.{Datetime, at_or_before, Candle, DecimalOps}
use stockassist.CorporateActions.{
  Action, Key, visible, note, validate_action, collect, one_symbol, adjust, forward_factors,
}

module _ {D : Type 0} where
  abbrev HasSymbol : String → Action D → Type 0
  HasSymbol s a = a.symbol ≡ s

  all-symbol :
      (s : String) (actions : List (Action D))
      → All (HasSymbol s) actions
      → all (λ b. b.symbol == s) actions ≡ true
  all-symbol s [] h = refl
  all-symbol s (a ∷ actions) h =
      ground (arith, string_eq.beq_iff a.symbol s, all-symbol s actions h.1)

  one_symbol_of_All :
      (s : String) (actions : List (Action D))
      → All (HasSymbol s) actions
      → one_symbol actions ≡ true
  unfolding one_symbol
  one_symbol_of_All s [] h = refl
  one_symbol_of_All s (a ∷ actions) h = rw h.0 (all-symbol s actions h.1)

module _ (d : DecimalOps) where
  open d use {Decimal, one}

  abbrev IsAccepted : Action Decimal → Type 0
  IsAccepted a = validate_action d a ≡ ok tt

  collect-visible :
      (as_of : Datetime) (latest : List (Key × Action Decimal)) (actions : List (Action Decimal))
      → All IsAccepted actions
      → collect d as_of latest actions ≡ collect d as_of latest (keep (visible as_of) actions)
  unfolding collect
  collect-visible as_of latest [] h = refl
  collect-visible as_of latest (a ∷ actions) h = elim (Bool-cases (visible as_of a)) [
    | inl v ↦ simp (h.0, v) (collect-visible as_of (note latest a) actions h.1)
    | inr v ↦ simp (h.0, v) (collect-visible as_of latest actions h.1)
  ]

  -- What is published or takes effect after `as_of` does not change the adjusted view at all:
  -- valid actions of one symbol give the same result as the visible ones among them.
  pub adjust-visible :
      (candles : List (Candle Decimal)) (s : String) (actions : List (Action Decimal))
      (as_of : Datetime)
      → All IsAccepted actions
      → All (HasSymbol s) actions
      → adjust d candles actions as_of ≡ adjust d candles (keep (visible as_of) actions) as_of
  unfolding adjust
  adjust-visible candles s actions as_of h k =
      rw
        (
          one_symbol_of_All s actions k,
          one_symbol_of_All s (keep (visible as_of) actions) (All-keep _ _ actions k),
          ← collect-visible as_of [] actions h,
        )
        refl

  -- The factors of a backtest candle depend on the actions alone that are in effect by any time
  -- that is not before the candle.
  pub forward_factors-keep :
      (c : Candle Decimal) (limit : Datetime) (actions : List (Action Decimal))
      (f : Decimal × Decimal)
      → at_or_before c.timestamp limit ≡ true
      → forward_factors d c f actions
        ≡ forward_factors d c f (keep (λ a. at_or_before a.effective_at limit) actions)
  unfolding forward_factors
  forward_factors-keep c limit [] f h = refl
  forward_factors-keep c limit (a ∷ actions) f h =
      elim (Bool-cases (at_or_before a.effective_at limit)) [
        | inl in_time ↦ simp in_time (forward_factors-keep c limit actions _ h)
        | inr too_late ↦
            let e : at_or_before a.effective_at c.timestamp ≡ false = ground arith in
            simp (e, too_late) (forward_factors-keep c limit actions f h)
      ]
