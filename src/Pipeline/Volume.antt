-- ===== src/Pipeline/Volume.antt =====
-- The traded volume through the aggregation.
use stockassist.Common.{
  ℕ, ◌≡◌, refl, ap, ◌∙◌, true, false, not, none, some, List, [], ◌∷◌, ◌++◌, if◌then◌else◌, ◌==◌,
  nat_eq, pair_eq, Bool-cases, leb, inl, inr, OnOk, OnOk->>, require,
}
use stockassist.Common.Dict.{lookup, insert}
use stockassist.Common.Order.{Order, nat_order}
use stockassist.Common.Sort.{sort, place}
use stockassist.Common.Int.{ℤ, pos, ◌+ℤ◌, +ℤ_assoc, int_laws}
use stockassist.Market.{Datetime, Candle}
use stockassist.Pipeline.{
  mixed_bases, Calendar, CandleInterval, day, week, month, time_key, is_mixed, group_candles, merge,
  merge_group, merge_groups, aggregate_by, aggregate_candles, upper, lower,
}

module _ {P : Type 0} where
  unfoldable pub volume_of : List (Candle P) → ℤ
  volume_of [] = pos 0
  volume_of (c ∷ cs) = c.volume +ℤ volume_of cs

  volume_of_groups : List ((ℕ × ℕ) × List (Candle P)) → ℤ
  volume_of_groups [] = pos 0
  volume_of_groups ((k, g) ∷ groups) = volume_of g +ℤ volume_of_groups groups

  volume_of-append : (xs ys : List (Candle P)) → volume_of (xs ++ ys) ≡ volume_of xs +ℤ volume_of ys
  unfolding volume_of
  volume_of-append [] ys = omega int_laws
  volume_of-append (x ∷ xs) ys = rw (volume_of-append xs ys) (omega int_laws)

module _ {P : Type 0} ⦃o : Order P⦄ where
  volume_of-place :
      (c : Candle P) (cs : List (Candle P))
      → volume_of (place time_key c cs) ≡ c.volume +ℤ volume_of cs
  unfolding volume_of place
  volume_of-place c [] = refl
  volume_of-place c (x ∷ cs) = elim (Bool-cases (leb (time_key c) (time_key x))) [
    | inl e ↦ rw e refl
    | inr e ↦ rw (e, volume_of-place c cs) (omega int_laws)
  ]

  volume_of-sort : (cs : List (Candle P)) → volume_of (sort time_key cs) ≡ volume_of cs
  unfolding volume_of sort
  volume_of-sort [] = refl
  volume_of-sort (c ∷ cs) = rw (volume_of-place c (sort time_key cs), volume_of-sort cs) refl

  merge-volume :
      (ns : List (Candle P)) (c : Candle P) → (merge c ns).volume ≡ c.volume +ℤ volume_of ns
  unfolding merge volume_of
  merge-volume [] c = omega int_laws
  merge-volume (n ∷ ns) c =
      merge-volume ns (record c {
        high = upper c.high n.high;
        low = lower c.low n.low;
        close = n.close;
        volume = c.volume +ℤ n.volume;
      })
      ∙ +ℤ_assoc c.volume n.volume (volume_of ns)

  volume_of-merge_group : (g : List (Candle P)) → volume_of (merge_group g) ≡ volume_of g
  unfolding merge_group volume_of
  volume_of-merge_group g = go (sort time_key g) ∙ volume_of-sort g
    where
      go :
          (l : List (Candle P))
          → volume_of (elim l [ [] ↦ [] | c ∷ cs ↦ merge c cs ∷ [] ]) ≡ volume_of l
      go [] = refl
      go (c ∷ cs) = rw (merge-volume cs c) (omega int_laws)

  volume_of-merge_groups :
      (groups : List ((ℕ × ℕ) × List (Candle P)))
      → volume_of (merge_groups groups) ≡ volume_of_groups groups
  unfolding merge_groups volume_of_groups volume_of
  volume_of-merge_groups [] = refl
  volume_of-merge_groups ((k, g) ∷ groups) =
      rw
        (
          volume_of-append (merge_group g) (merge_groups groups),
          volume_of-merge_group g,
          volume_of-merge_groups groups,
        )
        refl

  entry : ℕ × ℕ → List ((ℕ × ℕ) × List (Candle P)) → List (Candle P)
  entry k m = elim (lookup k m) [ none ↦ [] | some l ↦ l ]

  entry_same :
      (k j : ℕ × ℕ) (l : List (Candle P)) (m : List ((ℕ × ℕ) × List (Candle P)))
      → (j == k) ≡ true
      → entry k ((j, l) ∷ m) ≡ l
  unfolding entry
  entry_same k j l m e =
      ap (λ b. elim (if b then some l else lookup k m) [ none ↦ [] | some r ↦ r ]) e

  entry_other :
      (k j : ℕ × ℕ) (l : List (Candle P)) (m : List ((ℕ × ℕ) × List (Candle P)))
      → (j == k) ≡ false
      → entry k ((j, l) ∷ m) ≡ entry k m
  unfolding entry
  entry_other k j l m e =
      ap (λ b. elim (if b then some l else lookup k m) [ none ↦ [] | some r ↦ r ]) e

  volume_of_groups-insert :
      (k : ℕ × ℕ) (c : Candle P) (m : List ((ℕ × ℕ) × List (Candle P)))
      → volume_of_groups (insert k (entry k m ++ c ∷ []) m) ≡ volume_of_groups m +ℤ c.volume
  unfolding volume_of_groups entry volume_of
  volume_of_groups-insert k c [] = omega int_laws
  volume_of_groups-insert k c ((j, l) ∷ m) = elim (Bool-cases (j == k)) [
    | inl e ↦ rw e (
        ap (λ r. volume_of (r ++ c ∷ []) +ℤ volume_of_groups m) (entry_same k j l m e)
        ∙ ap (λ v. v +ℤ volume_of_groups m) (volume_of-append l (c ∷ []))
        ∙ omega int_laws)
    | inr e ↦ rw e (
        ap (λ r. volume_of l +ℤ volume_of_groups (insert k (r ++ c ∷ []) m)) (entry_other k j l m e)
        ∙ ap (λ v. volume_of l +ℤ v) (volume_of_groups-insert k c m)
        ∙ omega int_laws)
  ]

  volume_of_groups-group_candles :
      (key : Datetime → ℕ × ℕ) (cs : List (Candle P)) (m : List ((ℕ × ℕ) × List (Candle P)))
      → volume_of_groups (group_candles key m cs) ≡ volume_of_groups m +ℤ volume_of cs
  unfolding group_candles entry volume_of
  volume_of_groups-group_candles key [] m = omega int_laws
  volume_of_groups-group_candles key (c ∷ cs) m =
      volume_of_groups-group_candles key cs
        (insert (key c.timestamp) (entry (key c.timestamp) m ++ c ∷ []) m)
      ∙ rw (volume_of_groups-insert (key c.timestamp) c m) (omega int_laws)

  volume_of-aggregate_by :
      (key : Datetime → ℕ × ℕ) (cs : List (Candle P))
      → OnOk (λ merged. volume_of merged ≡ volume_of cs) (aggregate_by key cs)
  unfolding aggregate_by volume_of_groups
  volume_of-aggregate_by key cs =
      OnOk->> (λ merged. volume_of merged ≡ volume_of cs) (require (not (is_mixed cs)) mixed_bases)
        _
        (volume_of-merge_groups (group_candles key [] cs)
          ∙ volume_of_groups-group_candles key cs []
          ∙ omega int_laws)

  -- Aggregation moves the volume from candle to candle and loses none of it.
  pub volume_of-aggregate_candles :
      (cal : Calendar) (cs : List (Candle P)) (interval : CandleInterval)
      → OnOk (λ merged. volume_of merged ≡ volume_of cs) (aggregate_candles cal cs interval)
  unfolding aggregate_candles
  volume_of-aggregate_candles cal cs day = refl
  volume_of-aggregate_candles cal cs week = volume_of-aggregate_by cal.iso_week cs
  volume_of-aggregate_candles cal cs month = volume_of-aggregate_by cal.year_month cs
