-- ===== src/Pipeline/Groups.antt =====
-- Aggregation: the merged candles are valid again, and no volume is lost.
use stockassist.Common.{
  ℕ, ◌≡◌, true, false, not, none, some, List, [], ◌∷◌, ◌++◌, ◌==◌, nat_eq, pair_eq, All, All-map,
  All-append, Bool-cases, inl, inr, OnOk, OnOk->>, require, arith,
}
use stockassist.Common.Dict.{lookup, insert-All}
use stockassist.Common.Order.{Order, nat_order}
use stockassist.Common.Sort.{sort, All-sort}
use stockassist.Common.Int.{ℤ, pos, ltb_ℤ, ◌+ℤ◌}
use stockassist.Market.{Datetime, Candle}
use stockassist.Pipeline.{
  mixed_bases, Calendar, CandleInterval, day, week, month, lower, upper, is_valid, time_key,
  is_mixed, group_candles, merge, merge_group, merge_groups, aggregate_by, aggregate_candles,
}

nonnegative_sum :
    (a b : ℤ) → ltb_ℤ a (pos 0) ≡ false → ltb_ℤ b (pos 0) ≡ false → ltb_ℤ (a +ℤ b) (pos 0) ≡ false
unfolding ◌+ℤ◌
nonnegative_sum a b h k = ground arith

module _ {P : Type 0} ⦃o : Order P⦄ where
  lower_bounds : (a b : P) → (o.le (lower a b) a ≡ true) × (o.le (lower a b) b ≡ true)
  lower_bounds a b = ground (arith, o.total a b, o.total a a, o.total b b)

  upper_bounds : (a b : P) → (o.le a (upper a b) ≡ true) × (o.le b (upper a b) ≡ true)
  upper_bounds a b = ground (arith, o.total a b, o.total a a, o.total b b)

  record IsRange (c : Candle P) : Type 0 where
    low_open : o.le c.low c.open_price ≡ true
    low_close : o.le c.low c.close ≡ true
    open_high : o.le c.open_price c.high ≡ true
    close_high : o.le c.close c.high ≡ true
    volume : ltb_ℤ c.volume (pos 0) ≡ false

  is_valid-IsRange : (c : Candle P) → is_valid c ≡ true → IsRange c
  unfolding is_valid
  is_valid-IsRange c h =
      let l = lower_bounds c.open_price c.close in
      let u = upper_bounds c.open_price c.close in
      record {
        low_open = o.trans _ _ _ (ground arith) l.0;
        low_close = o.trans _ _ _ (ground arith) l.1;
        open_high = o.trans _ _ _ u.0 (ground arith);
        close_high = o.trans _ _ _ u.1 (ground arith);
        volume = ground arith;
      }

  IsRange-is_valid : (c : Candle P) → IsRange c → is_valid c ≡ true
  unfolding is_valid
  IsRange-is_valid c r = ground arith

  merged_once : Candle P → Candle P → Candle P
  merged_once c n = record c {
    high = upper c.high n.high;
    low = lower c.low n.low;
    close = n.close;
    volume = c.volume +ℤ n.volume;
  }

  merged_once-IsRange : (c n : Candle P) → IsRange c → IsRange n → IsRange (merged_once c n)
  unfolding merged_once
  merged_once-IsRange c n r s =
      let l = lower_bounds c.low n.low in
      let u = upper_bounds c.high n.high in
      record {
        low_open = o.trans _ _ _ l.0 r.low_open;
        low_close = o.trans _ _ _ l.1 s.low_close;
        open_high = o.trans _ _ _ r.open_high u.0;
        close_high = o.trans _ _ _ s.close_high u.1;
        volume = nonnegative_sum c.volume n.volume r.volume s.volume;
      }

  merge-IsRange :
      (ns : List (Candle P)) (c : Candle P) → IsRange c → All IsRange ns → IsRange (merge c ns)
  unfolding merge merged_once
  merge-IsRange [] c r a = r
  merge-IsRange (n ∷ ns) c r a =
      merge-IsRange ns (merged_once c n) (merged_once-IsRange c n r a.0) a.1

  merge_group-IsRange :
      (group : List (Candle P)) → All IsRange group → All IsRange (merge_group group)
  unfolding merge_group
  merge_group-IsRange group a = go (sort time_key group) (All-sort time_key IsRange group a)
    where
      go :
          (l : List (Candle P))
          → All IsRange l
          → All IsRange (elim l [ [] ↦ [] | c ∷ cs ↦ merge c cs ∷ [] ])
      go [] a = tt
      go (c ∷ cs) a = (merge-IsRange cs c a.0 a.1, tt)

  merge_groups-IsRange :
      (groups : List ((ℕ × ℕ) × List (Candle P)))
      → All (λ g. All IsRange g.1) groups
      → All IsRange (merge_groups groups)
  unfolding merge_groups
  merge_groups-IsRange [] a = tt
  merge_groups-IsRange ((k, g) ∷ groups) a =
      All-append IsRange (merge_group g) (merge_groups groups) (merge_group-IsRange g a.0)
        (merge_groups-IsRange groups a.1)

  entry : ℕ × ℕ → List ((ℕ × ℕ) × List (Candle P)) → List (Candle P)
  entry k m = elim (lookup k m) [ none ↦ [] | some l ↦ l ]

  entry-All :
      (Q : Candle P → Type 0) (k : ℕ × ℕ) (m : List ((ℕ × ℕ) × List (Candle P)))
      → All (λ g. All Q g.1) m
      → All Q (entry k m)
  unfolding entry
  entry-All Q k [] a = tt
  entry-All Q k ((j, l) ∷ m) a = elim (Bool-cases (j == k)) [
    | inl e ↦ rw (e, entry) a.0
    | inr e ↦ rw (e, entry) (entry-All Q k m a.1)
  ]

  group_candles-All :
      (Q : Candle P → Type 0) (key : Datetime → ℕ × ℕ) (cs : List (Candle P))
      (groups : List ((ℕ × ℕ) × List (Candle P)))
      → All Q cs
      → All (λ g. All Q g.1) groups
      → All (λ g. All Q g.1) (group_candles key groups cs)
  unfolding group_candles entry
  group_candles-All Q key [] groups a g = g
  group_candles-All Q key (c ∷ cs) groups a g = group_candles-All Q key cs _ a.1 (
      insert-All _ (key c.timestamp) (entry (key c.timestamp) groups ++ c ∷ []) groups
        (All-append Q (entry (key c.timestamp) groups) (c ∷ [])
          (entry-All Q (key c.timestamp) groups g) (a.0, tt))
        g)

  abbrev pub AllValid : List (Candle P) → Type 0
  AllValid = All (λ c. is_valid c ≡ true)

  aggregate_by-AllValid :
      (key : Datetime → ℕ × ℕ) (cs : List (Candle P))
      → AllValid cs
      → OnOk AllValid (aggregate_by key cs)
  unfolding aggregate_by
  aggregate_by-AllValid key cs v = OnOk->> AllValid (require (not (is_mixed cs)) mixed_bases) _ (
      All-map IsRange _ _ IsRange-is_valid (
        merge_groups-IsRange (group_candles key [] cs)
          (group_candles-All IsRange key cs [] (All-map _ IsRange cs is_valid-IsRange v) tt)))

  -- The open, high, low and close of merged candles are those of a valid candle again.
  pub aggregate_candles-AllValid :
      (cal : Calendar) (cs : List (Candle P)) (interval : CandleInterval)
      → AllValid cs
      → OnOk AllValid (aggregate_candles cal cs interval)
  unfolding aggregate_candles
  aggregate_candles-AllValid cal cs day v = v
  aggregate_candles-AllValid cal cs week v = aggregate_by-AllValid cal.iso_week cs v
  aggregate_candles-AllValid cal cs month v = aggregate_by-AllValid cal.year_month cs v
