-- ===== src/Partitions/Tests.antt =====
-- Plans at the end of a year, and the theorems at them.
use stockassist.Common.{ℕ, ◌≡◌, refl, Option, none, some, List, [], ◌∷◌, length, map, arith}
use stockassist.Common.Text.{codes}
use stockassist.Common.Sort.{IsSorted}
use stockassist.Common.Int.{pos, ◌-ℤ◌, ◌+ℤ◌}
use stockassist.Partitions.{
  Date, PlannedPartition, ArchiveCandidate, partition_name, match_name, plan_future_partitions,
  plan_archive_candidates, shift_month, date_order,
}
use stockassist.Partitions.Names.{match_name-partition_name}
use stockassist.Partitions.Plans.{IsSeries, plan_future_partitions-IsSeries}
use stockassist.Partitions.Archive.{IsArchive, plan_archive_candidates-IsArchive}

program : Unit {0}
unfolding plan_future_partitions plan_archive_candidates match_name partition_name ◌-ℤ◌ ◌+ℤ◌
program = tt

abbrev date : ℕ → ℕ → ℕ → Date
date y m d = record { year = y; month = m; day = d }

name_of_march : partition_name (date 2026 3 1) ≡ codes "stock_candles_2026_03"
unfolding program
name_of_march = refl

not_a_month : match_name (codes "stock_candles_2026_13") ≡ none
unfolding program
not_a_month = refl

not_a_partition : match_name (codes "stock_candles_default") ≡ none
unfolding program
not_a_partition = refl

match_name-partition_name_example : match_name (partition_name (date 2026 12 1)) ≡ some (2026, 12)
match_name-partition_name_example =
    match_name-partition_name (date 2026 12 1) (omega arith) (omega arith) (omega arith)

abbrev planned : Option (List PlannedPartition) → List PlannedPartition
planned none = []
planned (some p) = p

abbrev plan : List PlannedPartition
plan = planned (plan_future_partitions (date 2026 11 25) 3)

names :
    map (λ p. p.name) plan
    ≡ codes "stock_candles_2026_12"
      ∷ codes "stock_candles_2027_01"
      ∷ codes "stock_candles_2027_02"
      ∷ []
unfolding program
names = refl

plan_future_partitions-IsSeries_example : (length plan ≡ 3) × IsSeries (date 2026 12 1) plan
unfolding program
plan_future_partitions-IsSeries_example =
    plan_future_partitions-IsSeries (date 2026 11 25) (date 2026 12 1) 3 plan refl refl

abbrev existing : List (List ℕ)
existing =
    codes "stock_candles_2016_11"
    ∷ codes "stock_candles_default"
    ∷ codes "stock_candles_2016_10"
    ∷ codes "stock_candles_2015_01"
    ∷ []

abbrev candidates_of : Option (Date × List ArchiveCandidate) → List ArchiveCandidate
candidates_of none = []
candidates_of (some r) = r.1

abbrev old : List ArchiveCandidate
old = candidates_of (plan_archive_candidates existing (date 2026 11 25) 120)

old_names :
    map (λ c. c.name) old ≡ codes "stock_candles_2015_01" ∷ codes "stock_candles_2016_10" ∷ []
unfolding program
old_names = refl

plan_archive_candidates-IsArchive_example :
    (shift_month (date 2026 11 1) (pos 0 -ℤ pos 120) ≡ some (date 2016 11 1))
    × IsSorted (λ c. c.starts_at) old
    × IsArchive (date 2016 11 1) existing old
unfolding program
plan_archive_candidates-IsArchive_example =
    plan_archive_candidates-IsArchive existing (date 2026 11 25) (date 2016 11 1) 120 old refl
