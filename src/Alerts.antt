-- ===== src/Alerts.antt =====
-- backend/app/alerts/models.py, alerts/repository.py (the repository in memory) and
-- services/alerts.py: the watchlist, and the price alerts with their evaluation. The broker, the
-- clock and `uuid4` are arguments; a dict is an association list, in the order of its insertions.
pub mod Life
pub mod Quotes
pub mod Evaluation
pub mod Active
mod Tests
use stockassist.Common.{
  ℕ, suc, ◌+◌, String, Bool, true, false, not, if◌then◌else◌, ◌==◌, string_eq, BoolEq, Option, none,
  some, List, [], ◌∷◌, ◌++◌, map, keep, any, leb, Result, ok, err, ◌>>=◌, ◌>>◌, require,
}
use stockassist.Common.Dict.{lookup, insert, erase}
use stockassist.Common.Order.{Order, nat_order}
use stockassist.Common.Sort.{sort}
use stockassist.Common.Text.{string_order, pair_order}

pub data AlertCondition : Type 0 where
  above below : AlertCondition

pub data AlertStatus : Type 0 where
  active triggered disabled : AlertStatus

-- What the repository reads of a `StockInfo`.
pub record StockInfo : Type 0 where
  pub symbol : String
  pub name : String
  pub market : String
  pub currency : String

pub record WatchlistItem : Type 0 where
  pub stock : StockInfo
  pub created_at : ℕ

-- Times are UTC instants.
pub record PriceAlert (P : Type 0) : Type 0 where
  pub alert_id : String
  pub symbol : String
  pub condition : AlertCondition
  pub target_price : P
  pub status : AlertStatus
  pub created_at : ℕ
  pub last_price : Option P
  pub last_evaluated_at : Option ℕ
  pub triggered_at : Option ℕ

pub record Repository (P : Type 0) : Type 0 where
  pub watchlist : List (String × WatchlistItem)
  pub alerts : List (String × PriceAlert P)

pub record Quote (P : Type 0) : Type 0 where
  pub price : P
  pub as_of : Option ℕ

-- The provider of the broker: a call answers, or raises an exception of the named type.
pub record Provider (P : Type 0) : Type 0 where
  pub get_stock_info : String → Result String StockInfo
  pub get_quote : String → Result String (Quote P)

pub data Error : Type 0 where
  target_price_not_positive persistence_unavailable : Error
  provider_raised : String → Error

unfoldable pub is_active : AlertStatus → Bool
is_active active = true
is_active triggered = false
is_active disabled = false

abbrev pub same_status : AlertStatus → AlertStatus → Bool
same_status active s = elim s [ active ↦ true | _ ↦ false ]
same_status triggered s = elim s [ triggered ↦ true | _ ↦ false ]
same_status disabled s = elim s [ disabled ↦ true | _ ↦ false ]

-- `reverse=True` on a time: newer first, equal ones in their order.
abbrev pub newest_first : Order ℕ
newest_first = record {
  le = λ a b. leb b a;
  total = λ a b. nat_order.total b a;
  trans = λ a b c h k. nat_order.trans c b a k h;
}

-- `str` of a raised exception is not modelled; its type is.
abbrev pub raise_of : {A : Type 0} → Result String A → Result Error A
raise_of (ok a) = ok a
raise_of (err e) = err (provider_raised e)

-- `dict.fromkeys(…)`: each symbol once, at its first place.
unfoldable pub from_keys : List String → List String → List String
from_keys seen [] = []
from_keys seen (s ∷ ss) = elim (any (λ t. t == s) seen) [
  | true ↦ from_keys seen ss
  | false ↦ s ∷ from_keys (s ∷ seen) ss
]

module _ {P : Type 0} where
  unfoldable pub empty : Repository P
  empty = record { watchlist = []; alerts = [] }

  unfoldable pub list_watchlist : Repository P → List WatchlistItem
  unfolding sort
  list_watchlist r =
      sort {K = ℕ × String} (λ i. (i.created_at, i.stock.symbol)) (map (λ p. p.1) r.watchlist)

  unfoldable pub add_watchlist : StockInfo → ℕ → Repository P → WatchlistItem × Repository P
  add_watchlist stock now r = elim (lookup stock.symbol r.watchlist) [
    | some item ↦ (item, r)
    | none ↦
        let item : WatchlistItem = (record { stock = stock; created_at = now }) in
        (item, record r { watchlist = insert stock.symbol item r.watchlist })
  ]

  unfoldable pub remove_watchlist : String → Repository P → Bool × Repository P
  remove_watchlist symbol r = elim (lookup symbol r.watchlist) [
    | none ↦ (false, r)
    | some item ↦ (true, record r { watchlist = erase symbol r.watchlist })
  ]

  abbrev pub has_status : Option AlertStatus → PriceAlert P → Bool
  has_status none a = true
  has_status (some status) a = same_status a.status status

  unfoldable pub list_alerts : Option AlertStatus → Repository P → List (PriceAlert P)
  unfolding sort
  list_alerts status r =
      sort ⦃o = newest_first⦄ (λ a. a.created_at)
        (keep (has_status status) (map (λ p. p.1) r.alerts))

  unfoldable pub create_alert :
      String → ℕ → String → AlertCondition → P → Repository P → PriceAlert P × Repository P
  create_alert alert_id now symbol condition target_price r =
      let item : PriceAlert P = (record {
        alert_id = alert_id;
        symbol = symbol;
        condition = condition;
        target_price = target_price;
        status = active;
        created_at = now;
        last_price = none;
        last_evaluated_at = none;
        triggered_at = none;
      }) in
      (item, record r { alerts = insert alert_id item r.alerts })

  unfoldable pub disable_alert : String → Repository P → Bool × Repository P
  unfolding is_active
  disable_alert alert_id r = elim (lookup alert_id r.alerts) [
    | none ↦ (false, r)
    | some item ↦ elim (is_active item.status) [
      | false ↦ (false, r)
      | true ↦
          (true, record r { alerts = insert alert_id (record item { status = disabled }) r.alerts })
    ]
  ]

  -- The record that `record_evaluation` puts in place of an active one.
  unfoldable pub evaluated : P → ℕ → Bool → PriceAlert P → PriceAlert P
  evaluated price at is_triggered item = record item {
    status = (if is_triggered then triggered else active);
    last_price = some price;
    last_evaluated_at = some at;
    triggered_at = (if is_triggered then some at else none);
  }

  unfoldable pub record_evaluation :
      String → P → ℕ → Bool → Repository P → Option (PriceAlert P) × Repository P
  unfolding is_active evaluated
  record_evaluation alert_id price at is_triggered r = elim (lookup alert_id r.alerts) [
    | none ↦ (none, r)
    | some item ↦ elim (is_active item.status) [
      | false ↦ (none, r)
      | true ↦
          let updated = evaluated price at is_triggered item in
          (some updated, record r { alerts = insert alert_id updated r.alerts })
    ]
  ]

  -- The loop over the symbols: the quotes, and the failures.
  unfoldable pub fetch_quotes :
      Provider P
      → List String
      → List (String × Quote P)
      → List (String × Quote P) × List (String × String)
  fetch_quotes provider [] quotes = (quotes, [])
  fetch_quotes provider (s ∷ ss) quotes = elim (provider.get_quote s) [
    | ok quote ↦ fetch_quotes provider ss (insert s quote quotes)
    | err e ↦ let rest = fetch_quotes provider ss quotes in (rest.0, (s, e) ∷ rest.1)
  ]

  unfoldable pub required_repository : Option (Repository P) → Result Error (Repository P)
  required_repository none = err persistence_unavailable
  required_repository (some r) = ok r

pub record EvaluationReport (P : Type 0) : Type 0 where
  pub evaluated_count : ℕ
  pub triggered_alerts : List (PriceAlert P)

module _ {P : Type 0} ⦃o : Order P⦄ where
  unfoldable pub is_met : AlertCondition → P → P → Bool
  is_met above price target = o.le target price
  is_met below price target = o.le price target

  abbrev pub at_time : Quote P → ℕ → ℕ
  at_time q now = elim q.as_of [ none ↦ now | some t ↦ t ]

  -- The loop over the alerts that were active at the start.
  unfoldable pub evaluate_alerts :
      List (String × Quote P)
      → ℕ
      → List (PriceAlert P)
      → Repository P
      → EvaluationReport P × Repository P
  unfolding record_evaluation is_met
  evaluate_alerts quotes now [] r = (record { evaluated_count = 0; triggered_alerts = [] }, r)
  evaluate_alerts quotes now (a ∷ items) r = elim (lookup a.symbol quotes) [
    | none ↦ evaluate_alerts quotes now items r
    | some q ↦
        let is_triggered = is_met a.condition q.price a.target_price in
        let answer = record_evaluation a.alert_id q.price (at_time q now) is_triggered r in
        let rest = evaluate_alerts quotes now items answer.1 in
        (
          elim answer.0 [
            | none ↦ rest.0
            | some updated ↦ record {
              evaluated_count = suc rest.0.evaluated_count;
              triggered_alerts =
                  (if is_triggered
                    then updated ∷ rest.0.triggered_alerts
                    else rest.0.triggered_alerts);
            }
          ],
          rest.1,
        )
  ]

  unfoldable pub evaluate_active :
      Provider P → ℕ → Repository P → (EvaluationReport P × List (String × String)) × Repository P
  unfolding list_alerts fetch_quotes from_keys evaluate_alerts
  evaluate_active provider now r =
      let alerts = list_alerts (some active) r in
      let fetched = fetch_quotes provider (from_keys [] (map (λ a. a.symbol) alerts)) [] in
      let result = evaluate_alerts fetched.0 now alerts r in ((result.0, fetched.1), result.1)

  -- `create_alert` of the service.
  unfoldable pub request_alert :
      P
      → Option (Repository P)
      → Result String (Provider P)
      → String
      → ℕ
      → String
      → AlertCondition
      → P
      → Result Error (PriceAlert P × Repository P)
  unfolding required_repository create_alert
  request_alert zero_price repository provider_for alert_id now symbol condition target_price = do
    require (not (o.le target_price zero_price)) target_price_not_positive
    r ← required_repository repository
    provider ← raise_of provider_for
    _ ← raise_of (provider.get_stock_info symbol)
    ok (create_alert alert_id now symbol condition target_price r)

  -- `add_watchlist` and `evaluate_active` of the service.
  unfoldable pub watch :
      Option (Repository P)
      → Result String (Provider P)
      → String
      → ℕ
      → Result Error (WatchlistItem × Repository P)
  unfolding required_repository add_watchlist
  watch repository provider_for symbol now = do
    r ← required_repository repository
    provider ← raise_of provider_for
    stock ← raise_of (provider.get_stock_info symbol)
    ok (add_watchlist stock now r)

  unfoldable pub evaluate :
      Option (Repository P)
      → Result String (Provider P)
      → ℕ
      → Result Error ((EvaluationReport P × List (String × String)) × Repository P)
  unfolding required_repository evaluate_active
  evaluate repository provider_for now = do
    r ← required_repository repository
    provider ← raise_of provider_for
    ok (evaluate_active provider now r)
