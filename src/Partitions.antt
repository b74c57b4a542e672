-- ===== src/Partitions.antt =====
-- The planning part of backend/app/database/partitions.py: monthly partitions of the candles by name.
-- A name is its code points. `none` is the `ValueError` of `date` for a year outside 1 to 9999.
pub mod Names
pub mod Plans
pub mod Archive
mod Tests
use stockassist.Common.{
  ℕ, zero, suc, ◌+◌, ◌-◌, ◌*◌, ◌/◌, ◌%◌, ◌≡◌, ◌⊎◌, inl, inr, Bool, true, false, ◌&&◌, ◌||◌, leb,
  ltb, if◌then◌else◌, ◌==◌, nat_eq, Option, none, some, List, [], ◌∷◌, ◌++◌, arith,
}
use stockassist.Common.Order.{Order}
use stockassist.Common.Sort.{sort}
use stockassist.Common.Text.{codes}
use stockassist.Common.Int.{ℤ, pos, negsuc, ◌+ℤ◌, ◌-ℤ◌}

pub record Date : Type 0 where
  pub year : ℕ
  pub month : ℕ
  pub day : ℕ

pub record PlannedPartition : Type 0 where
  pub name : List ℕ
  pub starts_at : Date
  pub ends_at : Date

abbrev pub option_bind : {A B : Type 0} → Option A → (A → Option B) → Option B
option_bind none f = none
option_bind (some a) f = f a

-- `date(year, month, 1)`, for a month from 1 to 12.
unfoldable pub first_of : ℕ → ℕ → Option Date
first_of year month =
    if leb 1 year && leb year 9999
    then some (record { year = year; month = month; day = 1 })
    else none

-- The month with an index, which may lie before the year 0.
unfoldable pub month_at : ℤ → Option Date
unfolding first_of
month_at (pos n) = first_of (n / 12) (n % 12 + 1)
month_at (negsuc n) = none

-- `_shift_month`
unfoldable pub shift_month : Date → ℤ → Option Date
unfolding month_at
shift_month value offset = month_at (pos (value.year * 12 + value.month - 1) +ℤ offset)

-- `f"{n:02d}"` and `f"{n:04d}"`, for a number of at most two or four digits.
unfoldable pub two_digits : ℕ → List ℕ
two_digits n = (48 + n / 10 % 10) ∷ (48 + n % 10) ∷ []

unfoldable pub four_digits : ℕ → List ℕ
unfolding two_digits
four_digits n = two_digits (n / 100) ++ two_digits (n % 100)

unfoldable pub partition_name : Date → List ℕ
unfolding four_digits two_digits
partition_name start =
    codes "stock_candles_" ++ four_digits start.year ++ 95 ∷ two_digits start.month

-- `for offset in range(first, first + count)`
unfoldable pub plan_from : Date → ℕ → ℕ → Option (List PlannedPartition)
unfolding shift_month partition_name
plan_from current_month first zero = some []
plan_from current_month first (suc count) =
    option_bind (shift_month current_month (pos first)) (λ start.
      option_bind (shift_month start (pos 1)) (λ end.
        option_bind (plan_from current_month (suc first) count) (λ rest.
          some (record { name = partition_name start; starts_at = start; ends_at = end } ∷ rest))))

unfoldable pub plan_future_partitions : Date → ℕ → Option (List PlannedPartition)
unfolding plan_from
plan_future_partitions reference lookahead_months =
    plan_from (record reference { day = 1 }) 1 lookahead_months

-- The rest of a text behind a prefix.
unfoldable pub behind_prefix : List ℕ → List ℕ → Option (List ℕ)
behind_prefix [] text = some text
behind_prefix (p ∷ prefix) [] = none
behind_prefix (p ∷ prefix) (t ∷ text) =
    let rest = behind_prefix prefix text in if p == t then rest else none

abbrev pub is_digit : ℕ → Bool
is_digit c = leb 48 c && leb c 57

-- `_PARTITION_NAME.fullmatch`: four digits, an underscore, and 01 to 12.
unfoldable pub year_and_month : List ℕ → Option (ℕ × ℕ)
year_and_month (a ∷ b ∷ c ∷ d ∷ u ∷ m ∷ n ∷ []) =
    if is_digit a
      && is_digit b
      && is_digit c
      && is_digit d
      && u == 95
      && (m == 48 && leb 49 n && leb n 57 || m == 49 && leb 48 n && leb n 50)
    then some
        ((a - 48) * 1000 + (b - 48) * 100 + (c - 48) * 10 + (d - 48), (m - 48) * 10 + (n - 48))
    else none
year_and_month _ = none

unfoldable pub match_name : List ℕ → Option (ℕ × ℕ)
unfolding behind_prefix year_and_month
match_name name = option_bind (behind_prefix (codes "stock_candles_") name) year_and_month

-- The order of dates.
abbrev pub date_le : Date → Date → Bool
date_le a b =
    if ltb a.year b.year
    then true
    else if ltb b.year a.year
    then false
    else if ltb a.month b.month
    then true
    else if ltb b.month a.month
    then false
    else leb a.day b.day

pub date_total : (a b : Date) → (date_le a b ≡ true) ⊎ (date_le b a ≡ true)
date_total a b = ground arith

pub date_trans : (a b c : Date) → date_le a b ≡ true → date_le b c ≡ true → date_le a c ≡ true
date_trans a b c h k = ground arith

instance abbrev pub date_order : Order Date
date_order = record { le = date_le; total = date_total; trans = date_trans }

pub record ArchiveCandidate : Type 0 where
  pub name : List ℕ
  pub starts_at : Date
  pub ends_at : Date

-- The loop over the names.
unfoldable pub collect_candidates : Date → List (List ℕ) → Option (List ArchiveCandidate)
unfolding match_name first_of shift_month
collect_candidates cutoff_month [] = some []
collect_candidates cutoff_month (name ∷ names) = elim (match_name name) [
  | none ↦ collect_candidates cutoff_month names
  | some (year, month) ↦ option_bind (first_of year month) (λ starts_at.
      option_bind (shift_month starts_at (pos 1)) (λ ends_at.
        option_bind (collect_candidates cutoff_month names) (λ rest. some (
          if date_le ends_at cutoff_month
          then record { name = name; starts_at = starts_at; ends_at = ends_at } ∷ rest
          else rest))))
]

unfoldable pub plan_archive_candidates :
    List (List ℕ) → Date → ℕ → Option (Date × List ArchiveCandidate)
unfolding collect_candidates sort
plan_archive_candidates partition_names reference archive_after_months =
    option_bind (shift_month (record reference { day = 1 }) (pos 0 -ℤ pos archive_after_months))
      (λ cutoff_month.
        option_bind (collect_candidates cutoff_month partition_names)
          (λ candidates. some (cutoff_month, sort (λ c. c.starts_at) candidates)))
