-- ===== src/Partitions/Plans.antt =====
-- Planned partitions follow one another without a gap; archive candidates are the complete old months.
use stockassist.Common.{
  ℕ, zero, suc, ◌+◌, ◌-◌, ◌*◌, ◌/◌, ◌≤◌, ◌≡◌, refl, ap, sym, subst, ◌∙◌, ◌&&◌, leb, Bool-cases, inl,
  inr, Option, none, some, List, [], ◌∷◌, length, arith,
}
use stockassist.Common.Dict.{some_injective}
use stockassist.Common.Int.{pos, ◌+ℤ◌}
use stockassist.Partitions.{
  Date, PlannedPartition, option_bind, first_of, month_at, shift_month, partition_name, plan_from,
  plan_future_partitions, match_name,
}
use stockassist.Partitions.Names.{match_name-partition_name}

-- The months since the year 0.
abbrev pub month_index : Date → ℕ
month_index d = d.year * 12 + d.month - 1

-- The first day of a month that `date` can hold.
pub record IsMonth (d : Date) : Type 0 where
  pub year_bounds : (1 ≤ d.year) × (d.year ≤ 9999)
  pub month_bounds : (1 ≤ d.month) × (d.month ≤ 12)

pos_sum : (a b : ℕ) → pos a +ℤ pos b ≡ pos (a + b)
unfolding ◌+ℤ◌
pos_sum a b = ground arith

month_at-index : (n : ℕ) (d : Date) → month_at (pos n) ≡ some d → IsMonth d × (month_index d ≡ n)
unfolding month_at first_of
month_at-index n d h = elim (Bool-cases (leb 1 (n / 12) && leb (n / 12) 9999)) [
  | inr e ↦ absurd (cc (rw e at h))
  | inl e ↦
      subst (λ d. IsMonth d × (month_index d ≡ n)) (some_injective (rw e at h))
        (
          record { year_bounds = ground (arith, e); month_bounds = (omega arith, omega arith) },
          omega arith,
        )
]

shift_month-index :
    (d e : Date) (k : ℕ)
    → shift_month d (pos k) ≡ some e
    → IsMonth e × (month_index e ≡ month_index d + k)
unfolding shift_month
shift_month-index d e k h =
    month_at-index (month_index d + k) e (ap month_at (sym (pos_sum (month_index d) k)) ∙ h)

-- One month further.
shift_month-suc :
    (d e : Date) (k : ℕ)
    → shift_month d (pos k) ≡ some e
    → shift_month d (pos (suc k)) ≡ shift_month e (pos 1)
unfolding shift_month
shift_month-suc d e k h =
    let same : month_index d + suc k ≡ month_index e + 1 =
      omega (arith, (shift_month-index d e k h).1) in
    ap month_at (pos_sum (month_index d) (suc k) ∙ ap pos same ∙ sym (pos_sum (month_index e) 1))

pub bound_some :
    {A B : Type 0} (o : Option A) (f : A → Option B) (b : B)
    → option_bind o f ≡ some b
    → (a : A) × (o ≡ some a) × (f a ≡ some b)
bound_some none f b h = cc
bound_some (some a) f b h = (a, refl, h)

-- Partitions of one month each, from a first one on, whose names give their months back.
abbrev pub IsSeries : Date → List PlannedPartition → Type 0
IsSeries start [] = Unit
IsSeries start (p ∷ rest) =
    (p.starts_at ≡ start)
    × (shift_month start (pos 1) ≡ some p.ends_at)
    × (match_name p.name ≡ some (start.year, start.month))
    × IsSeries p.ends_at rest

plan_from-IsSeries :
    (count first : ℕ) (current start : Date) (plan : List PlannedPartition)
    → shift_month current (pos first) ≡ some start
    → plan_from current first count ≡ some plan
    → (length plan ≡ count) × IsSeries start plan
unfolding plan_from
plan_from-IsSeries zero first current start plan s h =
    subst (λ p. (length p ≡ 0) × IsSeries start p) (some_injective h) (refl, tt)
plan_from-IsSeries (suc count) first current start plan s h =
    let (start', s', h1) = bound_some (shift_month current (pos first)) _ plan h in
    let (end, e, h2) = bound_some (shift_month start' (pos 1)) _ plan h1 in
    let (rest, r, h3) = bound_some (plan_from current (suc first) count) _ plan h2 in
    let same : start ≡ start' = some_injective (sym s ∙ s') in
    let e' : shift_month start (pos 1) ≡ some end = ap (λ d. shift_month d (pos 1)) same ∙ e in
    let month = (shift_month-index current start first s).0 in
    let later =
      plan_from-IsSeries count (suc first) current end rest
        (shift_month-suc current start first s ∙ e') r in
    subst (λ p. (length p ≡ suc count) × IsSeries start p) (some_injective h3)
      (
        ap suc later.0,
        (
          sym same,
          e',
          subst (λ d. match_name (partition_name d) ≡ some (start.year, start.month)) same
              (match_name-partition_name start month.year_bounds.1 month.month_bounds.0
                month.month_bounds.1),
          later.1,
        ),
      )

-- A plan has one partition for each month of the lookahead: the first begins with the month after
-- the reference, each ends where the next begins, and each name is read back as its month.
pub plan_future_partitions-IsSeries :
    (reference start : Date) (lookahead_months : ℕ) (plan : List PlannedPartition)
    → shift_month (record reference { day = 1 }) (pos 1) ≡ some start
    → plan_future_partitions reference lookahead_months ≡ some plan
    → (length plan ≡ lookahead_months) × IsSeries start plan
unfolding plan_future_partitions
plan_future_partitions-IsSeries reference start lookahead_months plan =
    plan_from-IsSeries lookahead_months 1 (record reference { day = 1 }) start plan
