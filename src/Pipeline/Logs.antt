-- ===== src/Pipeline/Logs.antt =====
-- The checks of `validate_candles` against the cleaning.
use stockassist.Common.{
  ℕ, ◌≤◌, ◌<◌, ◌≡◌, refl, Bool, true, false, Option, none, some, List, [], ◌∷◌, ◌++◌, nat_eq, subst,
  All, All-map, ◌↔◌, arith,
}
use native.Mathlib.Nat.{le_refl}
use stockassist.Common.Order.{Order, nat_order}
use stockassist.Market.{Datetime, at_or_before, Candle}
use stockassist.Pipeline.{
  Rule, duplicate_timestamp, invalid_ohlc, negative_volume, out_of_order, DataQualityLog, log_if,
  is_valid, is_invalid_ohlc, is_negative, time_key, is_seen, is_late, candle_logs, clean_candles,
}
use stockassist.Pipeline.Clean.{
  IsClean, not-is_seen, raise_bound, clean_candles-IsClean, clean_candles_of_IsClean,
}

log_if-nil :
    (b : Bool) (rule : Rule) (t : Option Datetime) (rest : List DataQualityLog)
    → log_if b rule t ++ rest ≡ []
    → (b ≡ false) × (rest ≡ [])
log_if-nil true rule t rest h = cc
log_if-nil false rule t rest h = (refl, h)

module _ {P : Type 0} ⦃o : Order P⦄ where
  sound : (c : Candle P) → is_invalid_ohlc c ≡ false → is_negative c ≡ false → is_valid c ≡ true
  unfolding is_invalid_ohlc is_negative is_valid
  sound c h k = ground arith

  flagged :
      (c : Candle P) → is_valid c ≡ true → (is_invalid_ohlc c ≡ false) × (is_negative c ≡ false)
  unfolding is_invalid_ohlc is_negative is_valid
  flagged c h = ground arith

  record Quiet (seen : List Datetime) (previous : Option Datetime) (c : Candle P)
      (cs : List (Candle P)) : Type 0 where
    fresh : is_seen c.timestamp seen ≡ false
    ohlc : is_invalid_ohlc c ≡ false
    volume : is_negative c ≡ false
    order : is_late previous c.timestamp ≡ false
    rest : candle_logs (c.timestamp ∷ seen) (some c.timestamp) cs ≡ []

  quiet :
      (seen : List Datetime) (previous : Option Datetime) (c : Candle P) (cs : List (Candle P))
      → candle_logs seen previous (c ∷ cs) ≡ []
      → Quiet seen previous c cs
  unfolding candle_logs
  quiet seen previous c cs h =
      let a = log_if-nil (is_seen c.timestamp seen) duplicate_timestamp (some c.timestamp) _ h in
      let b = log_if-nil (is_invalid_ohlc c) invalid_ohlc (some c.timestamp) _ a.1 in
      let e = log_if-nil (is_negative c) negative_volume (some c.timestamp) _ b.1 in
      let f = log_if-nil (is_late previous c.timestamp) out_of_order (some c.timestamp) _ e.1 in
      record { fresh = a.0; ohlc = b.0; volume = e.0; order = f.0; rest = f.1 }

  candle_logs-IsClean :
      (seen : List Datetime) (previous : Option Datetime) (cs : List (Candle P))
      → candle_logs seen previous cs ≡ []
      → IsClean cs × All (λ x. is_late previous x.timestamp ≡ false) cs
  candle_logs-IsClean seen previous [] h = (tt, tt)
  candle_logs-IsClean seen previous (c ∷ cs) h =
      let q = quiet seen previous c cs h in
      let (clean, later) = candle_logs-IsClean (c.timestamp ∷ seen) (some c.timestamp) cs q.rest in
      (
        (sound c q.ohlc q.volume, All-map _ _ cs (λ x l. ground arith) later, clean),
        (q.order, All-map _ _ cs (λ x l. late previous x q.order l) later),
      )
    where
      late :
          (p : Option Datetime) (x : Candle P)
          → is_late p c.timestamp ≡ false
          → at_or_before x.timestamp c.timestamp ≡ false
          → is_late p x.timestamp ≡ false
      late none x h l = refl
      late (some p) x h l = ground arith

  clean-candle_logs :
      (n : ℕ) (seen : List Datetime) (previous : Option Datetime) (cs : List (Candle P))
      → All (λ u. u.instant ≤ n) seen
      → All (λ x. n < time_key x) cs
      → All (λ x. is_late previous x.timestamp ≡ false) cs
      → IsClean cs
      → candle_logs seen previous cs ≡ []
  unfolding candle_logs
  clean-candle_logs n seen previous [] h l p k = refl
  clean-candle_logs n seen previous (c ∷ cs) h l p k =
      let f = flagged c k.0 in
      simp (not-is_seen c.timestamp n seen h l.0, f.0, f.1, p.0)
        (clean-candle_logs (time_key c) (c.timestamp ∷ seen) (some c.timestamp) cs
          (le_refl _, raise_bound n (time_key c) seen (omega (arith, l.0)) h) k.1
          (All-map _ _ cs (λ x m. ground arith) k.1) k.2)

  clean-candle_logs_start : (cs : List (Candle P)) → IsClean cs → candle_logs [] none cs ≡ []
  unfolding candle_logs
  clean-candle_logs_start [] k = refl
  clean-candle_logs_start (c ∷ cs) k =
      let f = flagged c k.0 in
      simp (f.0, f.1)
        (clean-candle_logs (time_key c) (c.timestamp ∷ []) (some c.timestamp) cs (le_refl _, tt) k.1
          (All-map _ _ cs (λ x m. ground arith) k.1) k.2)

  -- The checks of single candles log nothing exactly when cleaning changes nothing.
  pub candle_logs-clean_candles :
      (cs : List (Candle P)) → (candle_logs [] none cs ≡ []) ↔ (clean_candles cs ≡ cs)
  candle_logs-clean_candles cs = (
    λ h. clean_candles_of_IsClean cs (candle_logs-IsClean [] none cs h).0,
    λ e. clean-candle_logs_start cs (subst IsClean e (clean_candles-IsClean cs)),
  )

  -- Cleaning twice is cleaning once.
  pub clean_candles_twice :
      (cs : List (Candle P)) → clean_candles (clean_candles cs) ≡ clean_candles cs
  clean_candles_twice cs = clean_candles_of_IsClean (clean_candles cs) (clean_candles-IsClean cs)
