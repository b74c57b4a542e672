-- ===== src/Alerts/Tests.antt =====
-- Alerts at prices that are natural numbers, and the theorems at them.
use stockassist.Common.{
  ℕ, String, false, ◌≡◌, refl, Option, none, some, [], ◌∷◌, Result, ok, err, ◌==◌, string_eq,
  if◌then◌else◌,
}
use stockassist.Common.Dict.{lookup}
use stockassist.Common.Order.{nat_order}
use stockassist.Common.Text.{lex_le}
use stockassist.Alerts.{
  above, below, active, triggered, disabled, PriceAlert, Repository, Quote, Provider, empty,
  evaluate_active, request_alert, target_price_not_positive, is_active,
}
use stockassist.Alerts.Evaluation.{change, settle}
use stockassist.Alerts.Active.{IsKeyed, evaluate_active-lookup}
use stockassist.Alerts.Life.{create, disable, evaluate_all, perform_all, perform_all-ended}

program : Unit {0}
unfolding perform_all evaluate_active request_alert empty is_active lex_le
program = tt

abbrev quote_at : String → Result String (Quote ℕ)
quote_at s = if s == "005930" then ok (record { price = 70; as_of = some 9 }) else err "Timeout"

abbrev market : Provider ℕ
market = record {
  get_stock_info =
      λ s. ok (record { symbol = s; name = "Samsung"; market = "KRX"; currency = "KRW" });
  get_quote = quote_at;
}

abbrev book : Repository ℕ
book =
    perform_all
      (create "a" 1 "005930" above 60
        ∷ create "b" 2 "005930" below 60
        ∷ create "c" 3 "000660" above 10
        ∷ create "d" 4 "005930" above 60
        ∷ disable "d"
        ∷ [])
      empty

status_of : Option (PriceAlert ℕ) → ℕ
status_of none = 0
status_of (some a) = elim a.status [ active ↦ 1 | triggered ↦ 2 | disabled ↦ 3 ]

book_a : status_of (lookup "a" (evaluate_active market 10 book).1.alerts) ≡ 2
unfolding program status_of
book_a = refl

book_b : status_of (lookup "b" (evaluate_active market 10 book).1.alerts) ≡ 1
unfolding program status_of
book_b = refl

book_d : status_of (lookup "d" (evaluate_active market 10 book).1.alerts) ≡ 3
unfolding program status_of
book_d = refl

request_zero :
    request_alert 0 (some empty) (ok market) "e" 1 "005930" above 0 ≡ err target_price_not_positive
unfolding program
request_zero = refl

book-IsKeyed : IsKeyed book
unfolding program
book-IsKeyed = record {
  distinct = (refl, (refl, (refl, (refl, tt))));
  keyed = (refl, (refl, (refl, (refl, tt))));
}

evaluate_active-lookup_example :
    lookup "a" (evaluate_active market 10 book).1.alerts
    ≡ change (settle market 10) (lookup "a" book.alerts)
evaluate_active-lookup_example = evaluate_active-lookup market 10 book book-IsKeyed "a"

abbrev ended : PriceAlert ℕ
ended = record {
  alert_id = "d";
  symbol = "005930";
  condition = above;
  target_price = 60;
  status = disabled;
  created_at = 4;
  last_price = none;
  last_evaluated_at = none;
  triggered_at = none;
}

ended_in_book : lookup "d" book.alerts ≡ some ended
unfolding program
ended_in_book = refl

ended_status : is_active ended.status ≡ false
unfolding program
ended_status = refl

perform_all-ended_example :
    (lookup "d"
        (perform_all (create "e" 5 "005930" above 1 ∷ evaluate_all market 10 ∷ []) book).alerts
      ≡ some ended)
    × IsKeyed (perform_all (create "e" 5 "005930" above 1 ∷ evaluate_all market 10 ∷ []) book)
perform_all-ended_example =
    perform_all-ended "d" ended (create "e" 5 "005930" above 1 ∷ evaluate_all market 10 ∷ []) book
      book-IsKeyed ended_in_book ended_status (refl, (tt, tt))
