-- ===== src/Alerts/Life.antt =====
-- Sequences of operations on the repository: what every one of them keeps, and the end of an
-- alert's life.
use stockassist.Common.{
  ℕ, String, Bool, true, false, ◌==◌, string_eq, ◌≡◌, refl, ap, sym, subst, ◌∙◌, inl, inr,
  Bool-cases, Option-cases, Option, none, some, List, [], ◌∷◌, map, All, All-Occurs, arith,
}
use stockassist.Common.Dict.{
  lookup, insert, lookup-insert, insert-Distinct, insert-All, lookup-Occurs,
}
use stockassist.Common.Order.{Order}
use stockassist.Alerts.{
  AlertCondition, StockInfo, PriceAlert, Repository, Quote, Provider, is_active, add_watchlist,
  remove_watchlist, create_alert, disable_alert, record_evaluation, evaluated, is_met, at_time,
  evaluate_alerts, evaluate_active, list_alerts, fetch_quotes, from_keys, active,
}
use stockassist.Alerts.Evaluation.{change, settle}
use stockassist.Alerts.Active.{IsKeyed, evaluate_active-lookup, settle-inactive}

pub data Operation (P : Type 0) : Type 0 where
  add : StockInfo → ℕ → Operation P
  remove : String → Operation P
  create : String → ℕ → String → AlertCondition → P → Operation P
  disable : String → Operation P
  evaluate_all : Provider P → ℕ → Operation P
  evaluate_one : String → P → ℕ → Bool → Operation P

module _ {P : Type 0} where
  alive : Option (PriceAlert P) → Bool
  alive none = true
  alive (some a) = is_active a.status

  insert-IsKeyed :
      (k : String) (a : PriceAlert P) (r : Repository P)
      → a.alert_id ≡ k
      → IsKeyed r
      → IsKeyed (record r { alerts = insert k a r.alerts })
  insert-IsKeyed k a r h i = record {
    distinct = insert-Distinct k a r.alerts i.distinct;
    keyed = insert-All (λ p. p.1.alert_id ≡ p.0) k a r.alerts h i.keyed;
  }

  id_under :
      (k : String) (a : PriceAlert P) (r : Repository P)
      → IsKeyed r
      → lookup k r.alerts ≡ some a
      → a.alert_id ≡ k
  id_under k a r i found =
      All-Occurs (λ q. q.1.alert_id ≡ q.0) (k, a) r.alerts i.keyed
        (lookup-Occurs k a r.alerts found)

  add_watchlist-alerts :
      (stock : StockInfo) (now : ℕ) (r : Repository P)
      → (add_watchlist stock now r).1.alerts ≡ r.alerts
  unfolding add_watchlist
  add_watchlist-alerts stock now r = elim (Option-cases (lookup stock.symbol r.watchlist)) [
    | inl e ↦ rw (e, add_watchlist) refl
    | inr (_, e) ↦ rw (e, add_watchlist) refl
  ]

  remove_watchlist-alerts :
      (symbol : String) (r : Repository P) → (remove_watchlist symbol r).1.alerts ≡ r.alerts
  unfolding remove_watchlist
  remove_watchlist-alerts symbol r = elim (Option-cases (lookup symbol r.watchlist)) [
    | inl e ↦ rw (e, remove_watchlist) refl
    | inr (_, e) ↦ rw (e, remove_watchlist) refl
  ]

  add_watchlist-IsKeyed :
      (stock : StockInfo) (now : ℕ) (r : Repository P)
      → IsKeyed r
      → IsKeyed (add_watchlist stock now r).1
  unfolding add_watchlist
  add_watchlist-IsKeyed stock now r i = elim (Option-cases (lookup stock.symbol r.watchlist)) [
    | inl e ↦ rw (e, add_watchlist) (record { distinct = i.distinct; keyed = i.keyed })
    | inr (_, e) ↦ rw (e, add_watchlist) i
  ]

  remove_watchlist-IsKeyed :
      (symbol : String) (r : Repository P) → IsKeyed r → IsKeyed (remove_watchlist symbol r).1
  unfolding remove_watchlist
  remove_watchlist-IsKeyed symbol r i = elim (Option-cases (lookup symbol r.watchlist)) [
    | inl e ↦ rw (e, remove_watchlist) i
    | inr (_, e) ↦ rw (e, remove_watchlist) (record { distinct = i.distinct; keyed = i.keyed })
  ]

  disable_alert-IsKeyed :
      (k : String) (r : Repository P) → IsKeyed r → IsKeyed (disable_alert k r).1
  unfolding disable_alert
  disable_alert-IsKeyed k r i = elim (Option-cases (lookup k r.alerts)) [
    | inl e ↦ rw (e, disable_alert) i
    | inr (a, e) ↦ elim (Bool-cases (is_active a.status)) [
      | inl live ↦ rw (e, live, disable_alert) (insert-IsKeyed k _ r (id_under k a r i e) i)
      | inr dead ↦ rw (e, dead, disable_alert) i
    ]
  ]

  record_evaluation-IsKeyed :
      (k : String) (price : P) (at : ℕ) (is_triggered : Bool) (r : Repository P)
      → IsKeyed r
      → IsKeyed (record_evaluation k price at is_triggered r).1
  unfolding record_evaluation evaluated
  record_evaluation-IsKeyed k price at is_triggered r i = elim (Option-cases (lookup k r.alerts)) [
    | inl e ↦ rw (e, record_evaluation) i
    | inr (a, e) ↦ elim (Bool-cases (is_active a.status)) [
      | inl live ↦ rw (e, live, record_evaluation) (insert-IsKeyed k _ r (id_under k a r i e) i)
      | inr dead ↦ rw (e, dead, record_evaluation) i
    ]
  ]

module _ {P : Type 0} ⦃o : Order P⦄ where
  evaluate_alerts-IsKeyed :
      (quotes : List (String × Quote P)) (now : ℕ) (items : List (PriceAlert P)) (r : Repository P)
      → IsKeyed r
      → IsKeyed (evaluate_alerts quotes now items r).1
  unfolding evaluate_alerts
  evaluate_alerts-IsKeyed quotes now [] r i = i
  evaluate_alerts-IsKeyed quotes now (a ∷ items) r i =
      elim (Option-cases (lookup a.symbol quotes)) [
        | inl e ↦ rw (e, evaluate_alerts) (evaluate_alerts-IsKeyed quotes now items r i)
        | inr (q, e) ↦
            rw (e, evaluate_alerts)
              (evaluate_alerts-IsKeyed quotes now items _ (
                record_evaluation-IsKeyed a.alert_id q.price (at_time q now)
                  (is_met a.condition q.price a.target_price) r i))
      ]

  unfoldable pub perform : Operation P → Repository P → Repository P
  unfolding add_watchlist remove_watchlist create_alert disable_alert evaluate_active
      record_evaluation
  perform (add stock now) r = (add_watchlist stock now r).1
  perform (remove symbol) r = (remove_watchlist symbol r).1
  perform (create alert_id now symbol condition target_price) r =
      (create_alert alert_id now symbol condition target_price r).1
  perform (disable alert_id) r = (disable_alert alert_id r).1
  perform (evaluate_all provider now) r = (evaluate_active provider now r).1
  perform (evaluate_one alert_id price at is_triggered) r =
      (record_evaluation alert_id price at is_triggered r).1

  unfoldable pub perform_all : List (Operation P) → Repository P → Repository P
  unfolding perform
  perform_all [] r = r
  perform_all (op ∷ ops) r = perform_all ops (perform op r)

  -- Every operation keeps each alert once, under its own id.
  perform-IsKeyed : (op : Operation P) (r : Repository P) → IsKeyed r → IsKeyed (perform op r)
  unfolding perform create_alert evaluate_active
  perform-IsKeyed (add stock now) r i = add_watchlist-IsKeyed stock now r i
  perform-IsKeyed (remove symbol) r i = remove_watchlist-IsKeyed symbol r i
  perform-IsKeyed (create alert_id now symbol condition target_price) r i =
      insert-IsKeyed alert_id _ r refl i
  perform-IsKeyed (disable alert_id) r i = disable_alert-IsKeyed alert_id r i
  perform-IsKeyed (evaluate_all provider now) r i =
      evaluate_alerts-IsKeyed
        (fetch_quotes provider (from_keys [] (map (λ a. a.symbol) (list_alerts (some active) r)))
          []).0
        now (list_alerts (some active) r) r i
  perform-IsKeyed (evaluate_one alert_id price at is_triggered) r i =
      record_evaluation-IsKeyed alert_id price at is_triggered r i

  -- The operation gives no new alert the id: `uuid4` does not repeat itself.
  abbrev pub IsOther : String → Operation P → Type 0
  IsOther i (create alert_id _ _ _ _) = (alert_id == i) ≡ false
  IsOther i _ = Unit

  other_key :
      (i k : String) (a b : PriceAlert P) (r : Repository P)
      → lookup i r.alerts ≡ some a
      → is_active a.status ≡ false
      → lookup k r.alerts ≡ some b
      → is_active b.status ≡ true
      → (k == i) ≡ false
  unfolding alive
  other_key i k a b r found dead found_b live = elim (Bool-cases (k == i)) [
    | inr e ↦ e
    | inl e ↦
        let same : lookup k r.alerts ≡ some a =
          subst (λ j. lookup j r.alerts ≡ some a) (sym ((string_eq.beq_iff k i).0 e)) found in
        let equal : some a ≡ some b = sym same ∙ found_b in absurd (ground (arith, ap alive equal))
  ]

  disable_alert-ended :
      (i k : String) (a : PriceAlert P) (r : Repository P)
      → lookup i r.alerts ≡ some a
      → is_active a.status ≡ false
      → lookup i (disable_alert k r).1.alerts ≡ some a
  unfolding disable_alert
  disable_alert-ended i k a r found dead = elim (Option-cases (lookup k r.alerts)) [
    | inl e ↦ rw (e, disable_alert) found
    | inr (b, e) ↦ elim (Bool-cases (is_active b.status)) [
      | inl live ↦
          rw (e, live, disable_alert)
            (lookup-insert k i _ r.alerts ∙ rw (other_key i k a b r found dead e live) found)
      | inr ended ↦ rw (e, ended, disable_alert) found
    ]
  ]

  record_evaluation-ended :
      (i k : String) (price : P) (at : ℕ) (is_triggered : Bool) (a : PriceAlert P)
      (r : Repository P)
      → lookup i r.alerts ≡ some a
      → is_active a.status ≡ false
      → lookup i (record_evaluation k price at is_triggered r).1.alerts ≡ some a
  unfolding record_evaluation
  record_evaluation-ended i k price at is_triggered a r found dead =
      elim (Option-cases (lookup k r.alerts)) [
        | inl e ↦ rw (e, record_evaluation) found
        | inr (b, e) ↦ elim (Bool-cases (is_active b.status)) [
          | inl live ↦
              rw (e, live, record_evaluation)
                (lookup-insert k i _ r.alerts ∙ rw (other_key i k a b r found dead e live) found)
          | inr ended ↦ rw (e, ended, record_evaluation) found
        ]
      ]

  perform-ended :
      (i : String) (a : PriceAlert P) (op : Operation P) (r : Repository P)
      → IsKeyed r
      → IsOther i op
      → lookup i r.alerts ≡ some a
      → is_active a.status ≡ false
      → lookup i (perform op r).alerts ≡ some a
  unfolding perform create_alert
  perform-ended i a (add stock now) r keyed other found dead =
      ap (lookup i) (add_watchlist-alerts stock now r) ∙ found
  perform-ended i a (remove symbol) r keyed other found dead =
      ap (lookup i) (remove_watchlist-alerts symbol r) ∙ found
  perform-ended i a (create alert_id now symbol condition target_price) r keyed other found dead =
      lookup-insert alert_id i _ r.alerts ∙ rw other found
  perform-ended i a (disable alert_id) r keyed other found dead =
      disable_alert-ended i alert_id a r found dead
  perform-ended i a (evaluate_all provider now) r keyed other found dead =
      evaluate_active-lookup provider now r keyed i
      ∙ ap (change (settle provider now)) found
      ∙ ap some (settle-inactive provider now a dead)
  perform-ended i a (evaluate_one alert_id price at is_triggered) r keyed other found dead =
      record_evaluation-ended i alert_id price at is_triggered a r found dead

  -- Under any sequence of changes of a repository that keeps each alert once under its id (the
  -- watchlist's, a new alert, a disabling, the record of one evaluation of any alert, an evaluation
  -- of all active ones), an alert that was triggered or disabled stays the record that it is, and
  -- each alert stays once under its id, if no new alert takes the ended one's id.
  pub perform_all-ended :
      (i : String) (a : PriceAlert P) (ops : List (Operation P)) (r : Repository P)
      → IsKeyed r
      → lookup i r.alerts ≡ some a
      → is_active a.status ≡ false
      → All (IsOther i) ops
      → (lookup i (perform_all ops r).alerts ≡ some a) × IsKeyed (perform_all ops r)
  unfolding perform_all
  perform_all-ended i a [] r keyed found dead other = (found, keyed)
  perform_all-ended i a (op ∷ ops) r keyed found dead other =
      perform_all-ended i a ops (perform op r) (perform-IsKeyed op r keyed)
        (perform-ended i a op r keyed other.0 found dead) dead other.1
