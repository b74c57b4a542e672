-- ===== src/Partitions/Names.antt =====
-- The name of a partition, and the month that is read back from it.
use stockassist.Common.{
  ℕ, ◌+◌, ◌*◌, ◌/◌, ◌%◌, ◌-◌, ◌≤◌, ◌≡◌, refl, ap, ◌∙◌, Bool, true, ◌&&◌, ◌||◌, leb, if◌then◌else◌,
  ◌==◌, nat_eq, none, some, List, [], ◌∷◌, ◌++◌, arith,
}
use stockassist.Common.Text.{codes}
use stockassist.Partitions.{
  Date, two_digits, four_digits, partition_name, behind_prefix, year_and_month, match_name,
  is_digit, option_bind,
}

behind_prefix-append : (prefix text : List ℕ) → behind_prefix prefix (prefix ++ text) ≡ some text
unfolding behind_prefix
behind_prefix-append [] text = refl
behind_prefix-append (p ∷ prefix) text =
    ground (arith, nat_eq.beq_iff p p, behind_prefix-append prefix text)

digit : (n : ℕ) → is_digit (48 + n % 10) ≡ true
digit n = ground arith

month_digits :
    (m : ℕ)
    → 1 ≤ m
    → m ≤ 12
    → ((48 + m / 10 % 10) == 48 && leb 49 (48 + m % 10) && leb (48 + m % 10) 57
        || (48 + m / 10 % 10) == 49 && leb 48 (48 + m % 10) && leb (48 + m % 10) 50)
      ≡ true
month_digits m low high = ground arith

year_value :
    (y : ℕ)
    → y ≤ 9999
    → (48 + y / 100 / 10 % 10 - 48) * 1000
        + (48 + y / 100 % 10 - 48) * 100
        + (48 + y % 100 / 10 % 10 - 48) * 10
        + (48 + y % 100 % 10 - 48)
      ≡ y
year_value y small = omega arith

month_value : (m : ℕ) → m ≤ 12 → (48 + m / 10 % 10 - 48) * 10 + (48 + m % 10 - 48) ≡ m
month_value m high = omega arith

when_all :
    {A : Type 0} (a b c d e : Bool) (x y : A)
    → a ≡ true
    → b ≡ true
    → c ≡ true
    → d ≡ true
    → e ≡ true
    → x ≡ y
    → (if a && b && c && d && true && e then some x else none) ≡ some y
when_all a b c d e x y ha hb hc hd he h = ground arith

year_and_month-digits :
    (year month : ℕ)
    → year ≤ 9999
    → 1 ≤ month
    → month ≤ 12
    → year_and_month (four_digits year ++ 95 ∷ two_digits month) ≡ some (year, month)
unfolding year_and_month four_digits two_digits
year_and_month-digits year month small low high =
    when_all _ _ _ _ _ _ (year, month) (digit (year / 100 / 10)) (digit (year / 100))
      (digit (year % 100 / 10)) (digit (year % 100)) (month_digits month low high)
      (λ i. (year_value year small i, month_value month high i))

-- The name of a month's partition is matched, and gives back its year and month.
pub match_name-partition_name :
    (start : Date)
    → start.year ≤ 9999
    → 1 ≤ start.month
    → start.month ≤ 12
    → match_name (partition_name start) ≡ some (start.year, start.month)
unfolding match_name partition_name
match_name-partition_name start small low high =
    ap (λ o. option_bind o year_and_month)
      (behind_prefix-append (codes "stock_candles_")
        (four_digits start.year ++ 95 ∷ two_digits start.month))
    ∙ year_and_month-digits start.year start.month small low high
