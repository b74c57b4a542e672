-- ===== src/EventBacktest/Causal.antt =====
-- No look-ahead: what a backtest has done by a candle does not depend on the later ones.
use stockassist.Common.{
  ◌+◌, ◌≡◌, refl, ap, sym, ◌∙◌, Bool, Option, some, List, [], ◌∷◌, ◌++◌, length, take,
  length-append, arith,
}
use stockassist.Market.{Datetime, Candle}
use stockassist.EventBacktest.{
  FloatOps, BacktestConfig, State, EquityPoint, step, next_time, run_rows, start,
}

take-length : {A : Type 0} (xs ys : List A) → take (length xs) (xs ++ ys) ≡ xs
take-length [] ys = refl
take-length (x ∷ xs) ys = ap (λ l. x ∷ l) (take-length xs ys)

append_nil : {A : Type 0} (xs : List A) → xs ++ [] ≡ xs
append_nil [] = refl
append_nil (x ∷ xs) = ap (λ l. x ∷ l) (append_nil xs)

append_assoc : {A : Type 0} (xs ys zs : List A) → (xs ++ ys) ++ zs ≡ xs ++ (ys ++ zs)
append_assoc [] ys zs = refl
append_assoc (x ∷ xs) ys zs = ap (λ l. x ∷ l) (append_assoc xs ys zs)

module _ (d : FloatOps) (strategy : List (Candle (d.Float)) → Bool)
    (config : BacktestConfig (d.Float)) where
  open d use {Float}

  -- The time of the next candle: of the list, or else the given one.
  abbrev next_or : List (Candle Float) → Option Datetime → Option Datetime
  next_or [] t = t
  next_or (c ∷ _) t = some c.timestamp

  unfoldable run_prefix : List (Candle Float) → Option Datetime → State Float → State Float
  run_prefix [] t s = s
  run_prefix (c ∷ cs) t s = run_prefix cs t (step d strategy config c (next_or cs t) s)

  run_rows-append :
      (xs : List (Candle Float)) (y : Candle Float) (ys : List (Candle Float)) (s : State Float)
      → run_rows d strategy config (xs ++ y ∷ ys) s
        ≡ run_rows d strategy config (y ∷ ys) (run_prefix xs (some y.timestamp) s)
  unfolding run_rows run_prefix
  run_rows-append [] y ys s = refl
  run_rows-append (x ∷ []) y ys s = refl
  run_rows-append (x ∷ z ∷ xs) y ys s =
      run_rows-append (z ∷ xs) y ys (step d strategy config x (some z.timestamp) s)

  step-points :
      (c : Candle Float) (t : Option Datetime) (s : State Float)
      → (p : EquityPoint Float) × ((step d strategy config c t s).points ≡ s.points ++ p ∷ [])
  unfolding step
  step-points c t s = (_, refl)

  run_rows-points :
      (rows : List (Candle Float)) (s : State Float)
      → (more : List (EquityPoint Float)) × ((run_rows d strategy config rows s).points
          ≡ s.points ++ more)
  unfolding run_rows
  run_rows-points [] s = ([], sym (append_nil s.points))
  run_rows-points (c ∷ rows) s =
      let next = next_time d strategy config rows in
      let (p, one) = step-points c next s in
      let (more, rest) = run_rows-points rows (step d strategy config c next s) in
      (p ∷ more, rest ∙ ap (λ l. l ++ more) one ∙ append_assoc s.points (p ∷ []) more)

  length-run_prefix :
      (xs : List (Candle Float)) (t : Option Datetime) (s : State Float)
      → length (run_prefix xs t s).points ≡ length s.points + length xs
  unfolding run_prefix
  length-run_prefix [] t s = omega arith
  length-run_prefix (c ∷ xs) t s =
      let (p, one) = step-points c (next_or xs t) s in
      omega (
        arith,
        length-run_prefix xs t (step d strategy config c (next_or xs t) s),
        ap length one,
        length-append s.points (p ∷ []),
      )

  -- The curve up to a candle is that of the state before it.
  run_rows-prefix :
      (xs : List (Candle Float)) (y : Candle Float) (ys : List (Candle Float))
      → take (length xs) (run_rows d strategy config (xs ++ y ∷ ys) (start d config)).points
        ≡ (run_prefix xs (some y.timestamp) (start d config)).points
  unfolding start
  run_rows-prefix xs y ys =
      let before = run_prefix xs (some y.timestamp) (start d config) in
      let (more, points) = run_rows-points (y ∷ ys) before in
      let long : length before.points ≡ length xs =
        length-run_prefix xs (some y.timestamp) (start d config) ∙ omega arith in
      ap (λ s. take (length xs) s.points) (run_rows-append xs y ys (start d config))
      ∙ ap (take (length xs)) points
      ∙ ap (λ n. take n (before.points ++ more)) (sym long)
      ∙ take-length before.points more

  -- Two runs over candles that agree up to a time, and whose next candle is at the same time, have
  -- the same equity curve up to that time, however the candles go on: the strategy and the orders
  -- of a candle do not see the later ones.
  pub run_rows-causal :
      (xs : List (Candle Float)) (y z : Candle Float) (ys zs : List (Candle Float))
      → y.timestamp ≡ z.timestamp
      → take (length xs) (run_rows d strategy config (xs ++ y ∷ ys) (start d config)).points
        ≡ take (length xs) (run_rows d strategy config (xs ++ z ∷ zs) (start d config)).points
  run_rows-causal xs y z ys zs same =
      run_rows-prefix xs y ys
      ∙ ap (λ t. (run_prefix xs (some t) (start d config)).points) same
      ∙ sym (run_rows-prefix xs z zs)
