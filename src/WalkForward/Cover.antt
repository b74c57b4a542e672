-- ===== src/WalkForward/Cover.antt =====
-- Each candle behind the warm-up is tested exactly once.
use stockassist.Common.{
  ℕ, zero, suc, ◌+◌, ◌-◌, ◌*◌, ◌/◌, ◌≤◌, min, ◌≡◌, refl, ap, sym, subst, ◌∙◌, Bool, true, false,
  not, ◌&&◌, leb, ltb, if◌then◌else◌, ◌==◌, nat_eq, List, [], ◌∷◌, ◌++◌, map, take, drop, length,
  length-take, length-drop, All, All-map, ok, require, returned_parts, required_true, ok_injective,
  arith,
}
use stockassist.Common.Order.{nat_order}
use stockassist.Common.Sort.{sort}
use stockassist.Market.{Datetime, Candle}
use stockassist.WalkForward.{
  Fold, EngineResult, silenced, slice, bounds_of, evaluate, folds_from, validate, bad_splits,
  short_warmup, insufficient_candles,
}

append-nil : {A : Type 0} (xs : List A) → xs ++ [] ≡ xs
append-nil [] = refl
append-nil (x ∷ xs) = ap (λ ys. x ∷ ys) (append-nil xs)

slice_join :
    {A : Type 0} (a b c : ℕ) (xs : List A)
    → a ≤ b
    → b ≤ c
    → slice a b xs ++ slice b c xs ≡ slice a c xs
slice_join zero zero c xs h k = refl
slice_join zero (suc b) (suc c) [] h k = refl
slice_join zero (suc b) (suc c) (x ∷ xs) h k =
    ap (λ ys. x ∷ ys) (slice_join zero b c xs (omega arith) (omega arith))
slice_join (suc a) (suc b) (suc c) [] h k = refl
slice_join (suc a) (suc b) (suc c) (x ∷ xs) h k = slice_join a b c xs (omega arith) (omega arith)
slice_join zero (suc b) zero xs h k = absurd (omega arith)
slice_join (suc a) zero c xs h k = absurd (omega arith)
slice_join (suc a) (suc b) zero xs h k = absurd (omega arith)

take_all : {A : Type 0} (xs : List A) → take (length xs) xs ≡ xs
take_all [] = refl
take_all (x ∷ xs) = ap (λ ys. x ∷ ys) (take_all xs)

last_fold : (n first size : ℕ) → first + 1 ≡ n → (first + 1 == n) ≡ true
last_fold n first size h = ground (arith, nat_eq.beq_iff (first + 1) n)

inner_fold : (n first count : ℕ) → first + suc (suc count) ≡ n → (first + 1 == n) ≡ false
inner_fold n first count h = ground (arith, nat_eq.beq_iff (first + 1) n)

fold_end :
    (w n first count size total : ℕ)
    → first + suc (suc count) ≡ n
    → w + n * size ≤ total
    → w + (first + 1) * size ≤ total
fold_end w n first count size total e h = grind arith

-- The candles behind the warm-up, divided among two to six folds.
share_fits :
    (w n total : ℕ)
    → (leb 2 n && leb n 6) ≡ true
    → w + n * 10 ≤ total
    → (w + n * ((total - w) / n) ≤ total) × (10 ≤ (total - w) / n)
share_fits w (suc (suc zero)) total h k = omega arith
share_fits w (suc (suc (suc zero))) total h k = omega arith
share_fits w (suc (suc (suc (suc zero)))) total h k = omega arith
share_fits w (suc (suc (suc (suc (suc zero))))) total h k = omega arith
share_fits w (suc (suc (suc (suc (suc (suc zero)))))) total h k = omega arith
share_fits w (suc (suc (suc (suc (suc (suc (suc n))))))) total h k = absurd (ground (arith, h))
share_fits w (suc zero) total h k = absurd (ground (arith, h))
share_fits w zero total h k = absurd (ground (arith, h))

take-silenced :
    {G : Type 0} (flat : G) (w : ℕ) (signals : List G)
    → take w (silenced flat w signals) ≡ map (λ _. flat) (take w signals)
unfolding silenced
take-silenced flat zero signals = refl
take-silenced flat (suc w) [] = refl
take-silenced flat (suc w) (s ∷ signals) = ap (λ r. flat ∷ r) (take-silenced flat w signals)

drop-silenced :
    {G : Type 0} (flat : G) (w : ℕ) (signals : List G)
    → drop w (silenced flat w signals) ≡ drop w signals
unfolding silenced
drop-silenced flat zero signals = refl
drop-silenced flat (suc w) [] = refl
drop-silenced flat (suc w) (s ∷ signals) = drop-silenced flat w signals

module _ {D G P T E : Type 0} (flat : G) (time_of_trade : T → Datetime)
    (time_of_event : E → Datetime)
    (run : List (Candle D) → (List (Candle D) → List G) → EngineResult P T E)
    (signals : List (Candle D) → List G) where
  -- The signals that follow the strategy behind its first `w` candles and are flat on those.
  abbrev pub IsActivated : ℕ → (List (Candle D) → List G) → Type 0
  IsActivated w strategy =
      (candles : List (Candle D))
      → (take w (strategy candles) ≡ map (λ _. flat) (take w (signals candles)))
        × (drop w (strategy candles) ≡ drop w (signals candles))

  -- The fold shows what the engine returned behind the warm-up, for a run over the warm-up and the
  -- tested candles.
  abbrev pub IsRun : ℕ → List (Candle D) → Fold D P T E → Type 0
  IsRun w ordered f =
      (strategy : List (Candle D) → List G) × IsActivated w strategy
      × (f.points
          ≡ drop w
              (run (slice f.bounds.source_start f.bounds.test_start ordered ++ f.test)
                strategy).equity_curve)

  silenced-IsActivated : (w : ℕ) → IsActivated w (λ candles. silenced flat w (signals candles))
  silenced-IsActivated w candles =
      (take-silenced flat w (signals candles), drop-silenced flat w (signals candles))

  -- The tested candles of all folds, in their order.
  abbrev pub tested : List (Fold D P T E) → List (Candle D)
  tested [] = []
  tested (f ∷ folds) = f.test ++ tested folds

  abbrev folds : List (Candle D) → ℕ → ℕ → ℕ → ℕ → ℕ → List (Fold D P T E)
  folds = folds_from flat time_of_trade time_of_event run signals

  module _ (ordered : List (Candle D)) (n w size : ℕ) (fits : w + n * size ≤ length ordered) where
    tested-folds_from :
        (first count : ℕ)
        → first + suc count ≡ n
        → tested (folds ordered n w size first (suc count))
          ≡ slice (w + first * size) (length ordered) ordered
    unfolding folds_from evaluate bounds_of
    tested-folds_from first zero e =
        rw (last_fold n first size (omega (arith, e)))
          (append-nil (slice (w + first * size) (length ordered) ordered))
    tested-folds_from first (suc count) e = rw (inner_fold n first count e) (
        ap (λ ys. slice (w + first * size) (w + (first + 1) * size) ordered ++ ys)
          (tested-folds_from (suc first) count (omega (arith, e))
            ∙ ap (λ k. slice (w + k * size) (length ordered) ordered) (omega arith))
        ∙ slice_join (w + first * size) (w + (first + 1) * size) (length ordered) ordered
            (grind arith) (fold_end w n first count size (length ordered) e fits))

    -- A fold has its warm-up before it, and at least ten candles to test.
    pub record IsWarm (f : Fold D P T E) : Type 0 where
      pub warm : f.bounds.activation_index ≡ w
      pub before_test : f.bounds.source_start + w ≡ f.bounds.test_start
      pub enough : size ≤ length f.test
      pub ran : IsRun w ordered f

    fold_fits : (i : ℕ) → i + 1 ≤ n → w + i * size + size ≤ length ordered
    fold_fits i h = grind arith

    length-slice : (a b : ℕ) → length (slice a b ordered) ≡ min b (length ordered) - a
    length-slice a b = length-drop a (take b ordered) ∙ ap (λ k. k - a) (length-take b ordered)

    long_enough :
        (i : ℕ) (last : Bool)
        → i + 1 ≤ n
        → size
          ≤ length
              (slice (w + i * size) (if last then length ordered else w + (i + 1) * size) ordered)
    long_enough i true h =
        omega (arith, fold_fits i h, length-slice (w + i * size) (length ordered))
    long_enough i false h =
        omega (arith, fold_fits i h, step i, length-slice (w + i * size) (w + (i + 1) * size))
      where
        step : (j : ℕ) → (j + 1) * size ≡ j * size + size
        step j = grind arith

    -- The end of the fold with this number.
    abbrev end_of : ℕ → ℕ
    end_of i = if i + 1 == n then length ordered else w + (i + 1) * size

    start_before_end :
        (i : ℕ) (last : Bool)
        → i + 1 ≤ n
        → w + i * size ≤ (if last then length ordered else w + (i + 1) * size)
    start_before_end i true h = omega (arith, fold_fits i h)
    start_before_end i false h = grind arith

    fold-IsRun :
        (i : ℕ)
        → i + 1 ≤ n
        → IsRun w ordered (
            evaluate flat time_of_trade time_of_event run signals ordered i
              (bounds_of (length ordered) n w size i))
    unfolding evaluate bounds_of
    fold-IsRun i h =
        let start : ℕ = w + i * size in
        let activation : start - (start - w) ≡ w = omega arith in
        (
          λ candles. silenced flat (start - (start - w)) (signals candles),
          subst (λ k. IsActivated w (λ candles. silenced flat k (signals candles))) (sym activation)
              (silenced-IsActivated w),
          ap
                (λ k.
                  drop k
                    (run (slice (start - w) (end_of i) ordered) (λ candles.
                      silenced flat (start - (start - w)) (signals candles))).equity_curve)
                activation
              ∙ ap
                  (λ source.
                    drop w
                      (run source (λ candles.
                        silenced flat (start - (start - w)) (signals candles))).equity_curve)
                  (sym (
                    slice_join (start - w) start (end_of i) ordered (omega arith)
                      (start_before_end i (i + 1 == n) h))),
        )

    fold-IsWarm :
        (i : ℕ)
        → i + 1 ≤ n
        → IsWarm (
            evaluate flat time_of_trade time_of_event run signals ordered i
              (bounds_of (length ordered) n w size i))
    unfolding evaluate bounds_of
    fold-IsWarm i h = record {
      warm = omega arith;
      before_test = omega arith;
      enough = long_enough i (i + 1 == n) h;
      ran = fold-IsRun i h;
    }

    folds_from-IsWarm :
        (first count : ℕ) → first + count ≡ n → All IsWarm (folds ordered n w size first count)
    unfolding folds_from
    folds_from-IsWarm first zero e = tt
    folds_from-IsWarm first (suc count) e = (
      fold-IsWarm first (omega (arith, e)),
      folds_from-IsWarm (suc first) count (omega (arith, e)),
    )

    length-folds_from : (first count : ℕ) → length (folds ordered n w size first count) ≡ count
    unfolding folds_from
    length-folds_from first zero = refl
    length-folds_from first (suc count) = ap suc (length-folds_from (suc first) count)

  covered :
      (ordered : List (Candle D)) (n w : ℕ)
      → (leb 2 n && leb n 6) ≡ true
      → w + n * 10 ≤ length ordered
      → (length (folds ordered n w ((length ordered - w) / n) 0 n) ≡ n)
        × (tested (folds ordered n w ((length ordered - w) / n) 0 n) ≡ drop w ordered)
        × All
            (λ f.
              (f.bounds.activation_index ≡ w)
              × (f.bounds.source_start + w ≡ f.bounds.test_start)
              × (10 ≤ length f.test)
              × IsRun w ordered f)
            (folds ordered n w ((length ordered - w) / n) 0 n)
  covered ordered zero w h k = absurd (ground (arith, h))
  covered ordered (suc n) w h k =
      let size = (length ordered - w) / suc n in
      let fits = share_fits w (suc n) (length ordered) h k in
      (
        length-folds_from ordered (suc n) w size fits.0 0 (suc n),
        tested-folds_from ordered (suc n) w size fits.0 0 n (omega arith)
            ∙ ap (λ k. drop k (take (length ordered) ordered)) (omega arith)
            ∙ ap (drop w) (take_all ordered),
        All-map _ _ (folds ordered (suc n) w size 0 (suc n))
            (λ f i. (i.warm, i.before_test, omega (arith, i.enough, fits.1), i.ran))
            (folds_from-IsWarm ordered (suc n) w size fits.0 0 (suc n) (omega arith)),
      )

  -- A validation that returns has the asked number of folds; the candles that they test are, in
  -- order, all candles behind the warm-up, each once; and each fold tests at least ten candles and
  -- shows, behind its warm-up, the equity curve of a run over its warm-up and its tests, by signals
  -- that are flat for exactly the warm-up and those of the strategy behind it.
  pub validate-IsCover :
      (candles : List (Candle D)) (n w : ℕ) (r : List (Fold D P T E))
      → validate flat time_of_trade time_of_event run signals candles n w ≡ ok r
      → (length r ≡ n)
        × (tested r ≡ drop w (sort (λ c. c.timestamp.instant) candles))
        × All
            (λ f.
              (f.bounds.activation_index ≡ w)
              × (f.bounds.source_start + w ≡ f.bounds.test_start)
              × (10 ≤ length f.test)
              × IsRun w (sort (λ c. c.timestamp.instant) candles) f)
            r
  unfolding validate
  validate-IsCover candles n w r h =
      let ordered = sort (λ c. c.timestamp.instant) candles in
      let (_, splits, h1) = returned_parts (require (leb 2 n && leb n 6) bad_splits) _ r h in
      let (_, _, h2) = returned_parts (require (not (ltb w 21)) short_warmup) _ r h1 in
      let (_, enough, h3) =
        returned_parts (require (not (ltb (length ordered) (w + n * 10))) insufficient_candles) _ r
          h2 in
      let split = required_true (leb 2 n && leb n 6) bad_splits _ splits in
      let room : w + n * 10 ≤ length ordered = ground (
        arith,
        required_true (not (ltb (length ordered) (w + n * 10))) insufficient_candles _ enough,
      ) in
      subst
        (λ fs.
          (length fs ≡ n)
          × (tested fs ≡ drop w ordered)
          × All
              (λ f.
                (f.bounds.activation_index ≡ w)
                × (f.bounds.source_start + w ≡ f.bounds.test_start)
                × (10 ≤ length f.test)
                × IsRun w ordered f)
              fs)
        (ok_injective h3) (covered ordered n w split room)
