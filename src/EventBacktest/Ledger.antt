-- ===== src/EventBacktest/Ledger.antt =====
-- The position against the trades: what was bought, less what was sold.
use stockassist.Common.{
  ℕ, ◌+◌, ◌-◌, ◌≤◌, ◌<◌, ◌≡◌, refl, Bool, true, false, not, ◌&&◌, ltb, leb, Bool-cases, inl, inr,
  Option, none, some, List, [], ◌∷◌, ◌++◌, length, OnOk, OnOk->>, OnOk-require, leb→le, require,
  arith, any,
}
use stockassist.Common.Int.{ℤ, pos_part}
use stockassist.Common.Order.{nat_order}
use stockassist.Common.Sort.{sort, length-sort}
use stockassist.Market.{Datetime, Candle}
use stockassist.EventBacktest.{
  FloatOps, Side, buy, sell, Reason, too_few_candles, price_not_positive, duplicate_timestamps,
  BacktestConfig, Trade, State, Account, record_event, closing, market, force_close, signal,
  bounded_quantity, settle_fill, execute_buy, execute_sell, execute, execute_pending, record_order,
  close_position, step, next_time, run_rows, start, run, has_price, has_duplicate,
}

-- The quantity of a trade, on its side.
abbrev pub amount : {F : Type 0} → Side → Trade F → ℕ
amount buy t = elim t.side [ buy ↦ t.quantity | sell ↦ 0 ]
amount sell t = elim t.side [ buy ↦ 0 | sell ↦ t.quantity ]

unfoldable pub total : {F : Type 0} → Side → List (Trade F) → ℕ
total side [] = 0
total side (t ∷ ts) = amount side t + total side ts

pub total-append :
    {F : Type 0} (side : Side) (ts us : List (Trade F))
    → total side (ts ++ us) ≡ total side ts + total side us
unfolding total
total-append side [] us = omega arith
total-append side (t ∷ ts) us = omega (arith, total-append side ts us)

balanced_after :
    {F : Type 0} (ts : List (Trade F)) (t : Trade F) (before after : ℕ)
    → total buy ts ≡ total sell ts + before
    → amount buy t + before ≡ amount sell t + after
    → total buy (ts ++ t ∷ []) ≡ total sell (ts ++ t ∷ []) + after
unfolding total
balanced_after ts t before after h k =
    omega (arith, total-append buy ts (t ∷ []), total-append sell ts (t ∷ []))

-- The position is what was bought and not sold.
unfoldable pub IsBalanced : {F : Type 0} → Account F → Type 0
IsBalanced a = total buy a.trades ≡ total sell a.trades + a.quantity

module _ (d : FloatOps) where
  open d use {Float}

  bounded_quantity-le : (n : ℕ) (volume : Option ℤ) (p : Float) → bounded_quantity d n volume p ≤ n
  unfolding bounded_quantity
  bounded_quantity-le n none p = omega arith
  bounded_quantity-le n (some v) p = omega arith

  settle_buy :
      (t : Datetime) (requested quantity : ℕ) (price fees cash : Float) (reason : Reason)
      (a : Account Float)
      → IsBalanced a
      → IsBalanced (
          settle_fill d buy t requested quantity price fees reason
            (record a { cash = cash; quantity = a.quantity + quantity }))
  unfolding IsBalanced settle_fill total
  settle_buy t requested quantity price fees cash reason a h =
      balanced_after a.trades _ a.quantity _ h (omega arith)

  settle_sell :
      (t : Datetime) (requested quantity : ℕ) (price fees cash : Float) (reason : Reason)
      (a : Account Float)
      → quantity ≤ a.quantity
      → IsBalanced a
      → IsBalanced (
          settle_fill d sell t requested quantity price fees reason
            (record a { cash = cash; quantity = a.quantity - quantity }))
  unfolding IsBalanced settle_fill total
  settle_sell t requested quantity price fees cash reason a le h =
      balanced_after a.trades _ a.quantity _ h (omega arith)

  execute_buy-IsBalanced :
      (t : Datetime) (price : Float) (volume : Option ℤ) (config : BacktestConfig Float)
      (reason : Reason) (a : Account Float)
      → IsBalanced a
      → IsBalanced (execute_buy d t price volume config reason a)
  unfolding execute_buy IsBalanced
  execute_buy-IsBalanced t price volume config reason a h = elim (Bool-cases (leb requested 0)) [
    | inl e ↦ rw (e, execute_buy) h
    | inr e ↦ elim (Bool-cases (leb quantity 0)) [
      | inl f ↦ rw (e, f, execute_buy) h
      | inr f ↦ rw (e, f, execute_buy) (settle_buy t requested quantity _ _ _ reason a h)
    ]
  ]
    where
      requested : ℕ
      requested = pos_part (
          d.floor_quotient a.cash (
            d.times (d.times price (d.plus d.one config.slippage_rate))
              (d.plus d.one config.commission_rate)))

      quantity : ℕ
      quantity = bounded_quantity d requested volume config.max_volume_participation

  execute_sell-IsBalanced :
      (t : Datetime) (price : Float) (volume : Option ℤ) (config : BacktestConfig Float)
      (reason : Reason) (a : Account Float)
      → IsBalanced a
      → IsBalanced (execute_sell d t price volume config reason a)
  unfolding execute_sell IsBalanced
  execute_sell-IsBalanced t price volume config reason a h = elim (Bool-cases (leb a.quantity 0)) [
    | inl e ↦ rw (e, execute_sell) h
    | inr e ↦
        elim (Bool-cases
          (leb (bounded_quantity d a.quantity volume config.max_volume_participation) 0)) [
            | inl f ↦ rw (e, f, execute_sell) h
            | inr f ↦
                rw (e, f, execute_sell)
                  (settle_sell t a.quantity
                    (bounded_quantity d a.quantity volume config.max_volume_participation) _ _ _
                    reason a (bounded_quantity-le a.quantity volume config.max_volume_participation)
                    h)
          ]
  ]

  execute-IsBalanced :
      (side : Side) (t : Datetime) (price : Float) (volume : Option ℤ)
      (config : BacktestConfig Float) (reason : Reason) (a : Account Float)
      → IsBalanced a
      → IsBalanced (execute d side t price volume config reason a)
  unfolding execute
  execute-IsBalanced buy t price volume config reason a h =
      execute_buy-IsBalanced t price volume config reason a h
  execute-IsBalanced sell t price volume config reason a h =
      execute_sell-IsBalanced t price volume config reason a h

  -- Without a bound on the volume a sale leaves nothing.
  execute_sell-all :
      (t : Datetime) (price : Float) (config : BacktestConfig Float) (reason : Reason)
      (a : Account Float)
      → (execute_sell d t price none config reason a).quantity ≡ 0
  unfolding execute_sell bounded_quantity settle_fill
  execute_sell-all t price config reason a = elim (Bool-cases (leb a.quantity 0)) [
    | inl e ↦ rw (e, execute_sell) (ground (arith, e))
    | inr e ↦
        let more : leb (bounded_quantity d a.quantity none config.max_volume_participation) 0
            ≡ false =
          e in
        rw (e, more, execute_sell) (omega arith)
  ]

  execute_pending-IsBalanced :
      (pending : Option Side) (c : Candle Float) (config : BacktestConfig Float) (a : Account Float)
      → IsBalanced a
      → IsBalanced (execute_pending d pending c config a)
  unfolding execute_pending
  execute_pending-IsBalanced none c config a h = h
  execute_pending-IsBalanced (some side) c config a h =
      execute-IsBalanced side c.timestamp c.open_price (some c.volume) config signal a h

  record_order-IsBalanced :
      (c : Candle Float) (next : Option Datetime) (order : Option Side) (a : Account Float)
      → IsBalanced a
      → IsBalanced (record_order d c next order a)
  unfolding IsBalanced
  record_order-IsBalanced c none order a h = h
  record_order-IsBalanced c (some t) none a h = h
  record_order-IsBalanced c (some t) (some side) a h = h

  close_position-IsBalanced :
      (next : Option Datetime) (c : Candle Float) (config : BacktestConfig Float)
      (a : Account Float)
      → IsBalanced a
      → IsBalanced (close_position d next c config a)
  unfolding close_position IsBalanced
  close_position-IsBalanced (some t) c config a h = h
  close_position-IsBalanced none c config a h =
      elim (Bool-cases (config.close_at_end && ltb 0 a.quantity)) [
        | inl e ↦
            rw (e, close_position)
              (execute-IsBalanced sell c.timestamp c.close none config force_close
                (record_event (closing c.timestamp a.quantity) a) h)
        | inr e ↦ rw (e, close_position) h
      ]

  close_position-empty :
      (c : Candle Float) (config : BacktestConfig Float) (a : Account Float)
      → config.close_at_end ≡ true
      → (close_position d none c config a).quantity ≡ 0
  unfolding close_position execute
  close_position-empty c config a on = elim (Bool-cases (ltb 0 a.quantity)) [
    | inl e ↦
        rw (on, e, close_position)
          (execute_sell-all c.timestamp c.close config force_close
            (record_event (closing c.timestamp a.quantity) a))
    | inr e ↦ rw (on, e, close_position) (ground (arith, e))
  ]

  module _ (strategy : List (Candle Float) → Bool) (config : BacktestConfig Float) where
    step-IsBalanced :
        (c : Candle Float) (next : Option Datetime) (s : State Float)
        → IsBalanced s.account
        → IsBalanced (step d strategy config c next s).account
    unfolding step IsBalanced
    step-IsBalanced c next s h = close_position-IsBalanced next c config _ (
        record_order-IsBalanced c next _ _
          (execute_pending-IsBalanced s.pending c config (record_event (market c) s.account) h))

    run_rows-IsBalanced :
        (rows : List (Candle Float)) (s : State Float)
        → IsBalanced s.account
        → IsBalanced (run_rows d strategy config rows s).account
    unfolding run_rows
    run_rows-IsBalanced [] s h = h
    run_rows-IsBalanced (c ∷ rest) s h =
        run_rows-IsBalanced rest _ (step-IsBalanced c (next_time d strategy config rest) s h)

    run_rows-closed :
        (c : Candle Float) (rows : List (Candle Float)) (s : State Float)
        → config.close_at_end ≡ true
        → (run_rows d strategy config (c ∷ rows) s).account.quantity ≡ 0
    unfolding run_rows step
    run_rows-closed c [] s on = close_position-empty c config _ on
    run_rows-closed c (n ∷ rows) s on =
        run_rows-closed n rows (step d strategy config c (some n.timestamp) s) on

    run_rows-ends :
        (rows : List (Candle Float)) (s : State Float)
        → 0 < length rows
        → (config.close_at_end && ltb 0 (run_rows d strategy config rows s).account.quantity)
          ≡ false
    run_rows-ends [] s some_rows = absurd (omega arith)
    run_rows-ends (c ∷ rows) s some_rows = ground (arith, run_rows-closed c rows s)

    -- The result of a run on at least two candles is as the theorem says; fewer raise.
    unfoldable pub IsSettled : State Float → Type 0
    IsSettled s = IsBalanced s.account × ((config.close_at_end && ltb 0 s.account.quantity) ≡ false)

    -- A backtest that runs to its end holds what its trades bought and did not sell, so it never sells
    -- what it does not hold; and with `force_close` it holds nothing in the end, whatever
    -- the volume of the last candle.
    pub run-IsSettled :
        (candles : List (Candle Float)) → OnOk IsSettled (run d strategy config candles)
    unfolding run IsSettled IsBalanced start total
    run-IsSettled candles =
        OnOk-require IsSettled (leb 2 (length candles)) too_few_candles _ (λ enough.
          OnOk->> IsSettled (require (not (any (λ c. not (has_price d c)) rows)) price_not_positive)
            _
            (OnOk->> IsSettled (require (not (has_duplicate d rows)) duplicate_timestamps) _ (
              run_rows-IsBalanced rows (start d config) refl,
              run_rows-ends rows (start d config) (not_empty enough),
            )))
      where
        rows : List (Candle Float)
        rows = sort {K = ℕ} (λ c. c.timestamp.instant) candles

        not_empty : leb 2 (length candles) ≡ true → 0 < length rows
        not_empty enough = omega (
          arith,
          leb→le 2 (length candles) enough,
          length-sort {K = ℕ} (λ c. c.timestamp.instant) candles,
        )
