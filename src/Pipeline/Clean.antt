-- ===== src/Pipeline/Clean.antt =====
-- Cleaning: what is kept, and how it meets the checks of `validate_candles`.
use stockassist.Common.{
  ℕ, ◌≤◌, ◌<◌, ◌≡◌, refl, ap, Bool, true, false, not, List, [], ◌∷◌, ◌&&◌, ◌||◌, ◌==◌, nat_eq, any,
  All, All-map, Occurs, Bool-cases, le→leb, inl, inr, arith,
}
use native.Mathlib.Nat.{le_refl}
use native.Mathlib.Decide.{ℕ_discrete}
use stockassist.Common.Order.{Order, nat_order}
use stockassist.Common.Sort.{sort, IsSorted, sort-IsSorted, sort_of_IsSorted, Occurs-sort}
use stockassist.Market.{Datetime, Candle}
use stockassist.Pipeline.{is_valid, time_key, is_seen, first_valid, clean_candles}

pub not-is_seen :
    (t : Datetime) (n : ℕ) (seen : List Datetime)
    → All (λ u. u.instant ≤ n) seen
    → n < t.instant
    → is_seen t seen ≡ false
not-is_seen t n [] h l = refl
not-is_seen t n (u ∷ seen) h l =
    ground (arith, nat_eq.beq_iff u.instant t.instant, not-is_seen t n seen h.1 l)

pub raise_bound :
    (n m : ℕ) (seen : List Datetime)
    → n ≤ m
    → All (λ u. u.instant ≤ n) seen
    → All (λ u. u.instant ≤ m) seen
raise_bound n m seen l h = All-map _ _ seen (λ u k. omega arith) h

-- Valid candles, each later than the one before.
module _ {P : Type 0} ⦃o : Order P⦄ where
  abbrev pub IsAfter : Candle P → List (Candle P) → Type 0
  IsAfter c = All (λ x. time_key c < time_key x)

  abbrev pub IsClean : List (Candle P) → Type 0
  IsClean [] = Unit
  IsClean (c ∷ cs) = (is_valid c ≡ true) × IsAfter c cs × IsClean cs

  pub first_valid-All {κ} :
      (Q : Candle P → Type κ) (seen : List Datetime) (cs : List (Candle P))
      → All Q cs
      → All Q (first_valid seen cs)
  unfolding first_valid
  first_valid-All Q seen [] h = tt
  first_valid-All Q seen (c ∷ cs) h =
      elim (Bool-cases (not (is_seen c.timestamp seen) && is_valid c)) [
        | inl kept ↦ rw (kept, first_valid) (h.0, first_valid-All Q (c.timestamp ∷ seen) cs h.1)
        | inr dropped ↦ rw (dropped, first_valid) (first_valid-All Q seen cs h.1)
      ]

  first_valid-unseen :
      (t : Datetime) (seen : List Datetime) (cs : List (Candle P))
      → is_seen t seen ≡ true
      → All (λ x. t.instant ≤ time_key x) cs
      → All (λ x. t.instant < time_key x) (first_valid seen cs)
  unfolding first_valid
  first_valid-unseen t seen [] s h = tt
  first_valid-unseen t seen (c ∷ cs) s h =
      elim (Bool-cases (not (is_seen c.timestamp seen) && is_valid c)) [
        | inl kept ↦
            rw (kept, first_valid)
              (differs kept, first_valid-unseen t (c.timestamp ∷ seen) cs (later s) h.1)
        | inr dropped ↦ rw (dropped, first_valid) (first_valid-unseen t seen cs s h.1)
      ]
    where
      later : is_seen t seen ≡ true → is_seen t (c.timestamp ∷ seen) ≡ true
      later e = ground arith

      differs : (not (is_seen c.timestamp seen) && is_valid c) ≡ true → t.instant < time_key c
      differs kept = elim (ℕ_discrete t.instant (time_key c)) [
        | yes e ↦
            let q : is_seen t seen ≡ is_seen c.timestamp seen =
              ap (λ i. any (λ u. u.instant == i) seen) e in
            absurd (ground (arith, q))
        | no n ↦ omega (arith, h.0)
      ]

  first_valid-IsClean :
      (seen : List Datetime) (cs : List (Candle P))
      → IsSorted time_key cs
      → IsClean (first_valid seen cs)
  unfolding first_valid
  first_valid-IsClean seen [] s = tt
  first_valid-IsClean seen (c ∷ cs) s =
      elim (Bool-cases (not (is_seen c.timestamp seen) && is_valid c)) [
        | inl kept ↦
            rw (kept, first_valid)
              (
                ground arith,
                first_valid-unseen c.timestamp (c.timestamp ∷ seen) cs (ground arith)
                    (All-map _ _ cs (λ x h. ground arith) s.0),
                first_valid-IsClean (c.timestamp ∷ seen) cs s.1,
              )
        | inr dropped ↦ rw (dropped, first_valid) (first_valid-IsClean seen cs s.1)
      ]

  -- Cleaning keeps only valid candles, in strictly increasing time, whatever it is given.
  pub clean_candles-IsClean : (cs : List (Candle P)) → IsClean (clean_candles cs)
  unfolding clean_candles
  clean_candles-IsClean cs = first_valid-IsClean [] (sort time_key cs) (sort-IsSorted time_key cs)

  -- A candle of the time of `t` is there.
  abbrev pub has_time : Datetime → List (Candle P) → Bool
  has_time t cs = any (λ x. x.timestamp.instant == t.instant) cs

  first_valid_complete :
      (x : Candle P) (seen : List Datetime) (cs : List (Candle P))
      → Occurs x cs
      → is_valid x ≡ true
      → (is_seen x.timestamp seen || has_time x.timestamp (first_valid seen cs)) ≡ true
  unfolding first_valid
  first_valid_complete x seen [] o v = elim o [ ]
  first_valid_complete x seen (c ∷ cs) (inl e) v =
      rw (← e) (elim (Bool-cases (is_seen x.timestamp seen)) [
        | inl old ↦ rw old refl
        | inr new ↦
            rw (new, v, first_valid)
              (ground (arith, nat_eq.beq_iff x.timestamp.instant x.timestamp.instant))
      ])
  first_valid_complete x seen (c ∷ cs) (inr o) v =
      elim (Bool-cases (not (is_seen c.timestamp seen) && is_valid c)) [
        | inl kept ↦
            rw (kept, first_valid)
              (ground (arith, first_valid_complete x (c.timestamp ∷ seen) cs o v))
        | inr dropped ↦ rw (dropped, first_valid) (first_valid_complete x seen cs o v)
      ]

  -- No time is lost that has a valid candle.
  pub clean_candles_complete :
      (x : Candle P) (cs : List (Candle P))
      → Occurs x cs
      → is_valid x ≡ true
      → has_time x.timestamp (clean_candles cs) ≡ true
  unfolding clean_candles
  clean_candles_complete x cs o v =
      first_valid_complete x [] (sort time_key cs) (Occurs-sort time_key x cs o) v

  IsClean-IsSorted : (cs : List (Candle P)) → IsClean cs → IsSorted time_key cs
  IsClean-IsSorted [] h = tt
  IsClean-IsSorted (c ∷ cs) h =
      (All-map _ _ cs (λ x l. le→leb _ _ (omega arith)) h.1, IsClean-IsSorted cs h.2)

  first_valid-clean :
      (n : ℕ) (seen : List Datetime) (cs : List (Candle P))
      → All (λ u. u.instant ≤ n) seen
      → All (λ x. n < time_key x) cs
      → IsClean cs
      → first_valid seen cs ≡ cs
  unfolding first_valid
  first_valid-clean n seen [] h l c = refl
  first_valid-clean n seen (x ∷ cs) h l c =
      rw (not-is_seen x.timestamp n seen h l.0, c.0, first_valid)
        (ap (◌∷◌ x) (
          first_valid-clean (time_key x) (x.timestamp ∷ seen) cs
            (le_refl _, raise_bound n (time_key x) seen (omega (arith, l.0)) h) c.1 c.2))

  first_valid-start : (cs : List (Candle P)) → IsClean cs → first_valid [] cs ≡ cs
  unfolding first_valid
  first_valid-start [] c = refl
  first_valid-start (x ∷ cs) c =
      rw (c.0, first_valid)
        (ap (◌∷◌ x) (first_valid-clean (time_key x) (x.timestamp ∷ []) cs (le_refl _, tt) c.1 c.2))

  -- Clean candles pass unchanged.
  pub clean_candles_of_IsClean : (cs : List (Candle P)) → IsClean cs → clean_candles cs ≡ cs
  unfolding clean_candles
  clean_candles_of_IsClean cs c =
      rw (sort_of_IsSorted time_key cs (IsClean-IsSorted cs c)) (first_valid-start cs c)
