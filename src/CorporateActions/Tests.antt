-- ===== src/CorporateActions/Tests.antt =====
-- Runs of the two engines, and the theorems at inputs that meet their hypotheses. The numbers are
-- thousandths.
use stockassist.Common.{
  ℕ, ◌+◌, ◌*◌, ◌/◌, String, ◌≡◌, refl, true, none, List, [], ◌∷◌, map, keep, ok, err, ltb, OnOk,
  All,
}
use stockassist.Common.Int.{ℤ, pos, negsuc}
use stockassist.Common.Text.{lex_le}
use stockassist.Market.{Datetime, at_or_before, unadjusted, Candle, DecimalOps}
use stockassist.CorporateActions.{
  Action, adjust, adjust_backtest, visible, forward_factors, corrected_history, known_too_late,
  latest_effective_revisions,
}
use stockassist.CorporateActions.Adjusted.{adjust-visible, forward_factors-keep}
use stockassist.CorporateActions.Backtest.{adjust_backtest-IsTimely, IsTimely}
use stockassist.CorporateActions.Selection.{latest_effective_revisions-IsSelection, IsSelection}

program : Unit {0}
unfolding adjust adjust_backtest lex_le
program = tt

scale : ℤ → ℕ → ℤ
scale (pos n) f = pos ((n * f * 2 + 1000) / 2000)
scale (negsuc n) f = negsuc n

abbrev thousandths : DecimalOps
thousandths = record {
  Decimal = ℕ;
  one = 1000;
  times = λ a b. a * b / 1000;
  divided = λ a b. a * 1000 / b;
  positive = λ a. ltb 0 a;
  scale_volume = scale;
}

abbrev time : ℕ → Datetime
time t = record { aware = true; instant = t }

abbrev candle : ℕ → ℕ → Candle ℕ
candle t price = record {
  timestamp = time t;
  open_price = price;
  high = price;
  low = price;
  close = price;
  volume = pos 10;
  price_basis = unadjusted;
}

-- A one-to-two split at time 20.
abbrev split : ℕ → ℕ → String → Action ℕ
split revision known status = record {
  symbol = "005930";
  action_type = "split";
  event_id = "e1";
  revision = pos revision;
  effective_at = time 20;
  announced_at = none;
  known_at = time known;
  price_factor = 500;
  volume_factor = 2000;
  status = status;
  source = "dart";
  rule_version = "v1";
}

abbrev history : List (Candle ℕ)
history = candle 10 8000 ∷ candle 20 4000 ∷ []

abbrev closes : List (Candle ℕ) → List ℕ
closes = map (λ c. c.close)

adjust-split :
    (r : _) × (adjust thousandths history (split 1 5 "confirmed" ∷ []) (time 30) ≡ ok r)
    × (closes r.candles ≡ 4000 ∷ 4000 ∷ [])
unfolding program
adjust-split = (_, refl, refl)

-- A cancellation that is known hides the confirmed revision.
adjust_cancelled :
    (r : _) × (adjust thousandths history
        (split 2 25 "cancelled" ∷ split 1 5 "confirmed" ∷ [])
        (time 30)
      ≡ ok r)
    × (closes r.candles ≡ 8000 ∷ 4000 ∷ [])
unfolding program
adjust_cancelled = (_, refl, refl)

adjust_backtest-split :
    (r : _) × (adjust_backtest thousandths history (split 1 5 "confirmed" ∷ []) (time 30) ≡ ok r)
    × (closes r.candles ≡ 8000 ∷ 8000 ∷ [])
unfolding program
adjust_backtest-split = (_, refl, refl)

adjust_backtest_corrected :
    adjust_backtest thousandths history
      (split 2 25 "cancelled" ∷ split 1 5 "confirmed" ∷ [])
      (time 30)
    ≡ err corrected_history
unfolding program
adjust_backtest_corrected = refl

adjust_backtest_late :
    adjust_backtest thousandths history (split 1 25 "confirmed" ∷ []) (time 30) ≡ err known_too_late
unfolding program
adjust_backtest_late = refl

abbrev revisions : List (Action ℕ)
revisions = split 1 5 "confirmed" ∷ split 2 40 "cancelled" ∷ []

adjust-visible_example :
    adjust thousandths history revisions (time 30)
    ≡ adjust thousandths history (keep (visible (time 30)) revisions) (time 30)
unfolding program
adjust-visible_example =
    adjust-visible thousandths history "005930" revisions (time 30) (refl, (refl, tt))
      (refl, (refl, tt))

forward_factors-keep_example :
    forward_factors thousandths (candle 15 8000) (1000, 1000) revisions
    ≡ forward_factors thousandths
        (candle 15 8000)
        (1000, 1000)
        (keep (λ a. at_or_before a.effective_at (time 15)) revisions)
forward_factors-keep_example =
    forward_factors-keep thousandths (candle 15 8000) (time 15) revisions (1000, 1000) refl

latest_effective_revisions-IsSelection_example :
    OnOk
      (IsSelection thousandths (time 30) revisions)
      (latest_effective_revisions thousandths revisions (time 30))
latest_effective_revisions-IsSelection_example =
    latest_effective_revisions-IsSelection thousandths (time 30) revisions

adjust_backtest-IsTimely_example :
    OnOk
      (λ r. All (IsTimely thousandths (time 30) revisions) r.applied_actions)
      (adjust_backtest thousandths history revisions (time 30))
adjust_backtest-IsTimely_example = adjust_backtest-IsTimely thousandths history revisions (time 30)
