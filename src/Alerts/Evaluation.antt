-- ===== src/Alerts/Evaluation.antt =====
-- An evaluation against its description alert by alert.
use stockassist.Common.{
  ℕ, String, true, false, if◌then◌else◌, ◌==◌, string_eq, ◌≡◌, refl, ap, sym, subst, ◌∙◌, inl, inr,
  Bool-cases, Option-cases, Option, none, some, List, [], ◌∷◌, any, All, All-map, arith,
}
use stockassist.Common.Dict.{lookup, insert, lookup-insert}
use stockassist.Common.Order.{Order, nat_order}
use stockassist.Alerts.{
  PriceAlert, Repository, Quote, Provider, is_active, evaluated, record_evaluation, is_met, at_time,
  evaluate_alerts,
}
use stockassist.Alerts.Quotes.{quote_of}

abbrev pub change {ℓ} : {A : Type ℓ} → (A → A) → Option A → Option A
change f none = none
change f (some a) = some (f a)

module _ {P : Type 0} ⦃o : Order P⦄ where
  abbrev pub judged : ℕ → Option (Quote P) → PriceAlert P → PriceAlert P
  judged now none a = a
  judged now (some q) a =
      evaluated q.price (at_time q now) (is_met a.condition q.price a.target_price) a

  -- What an evaluation makes of an alert, with the quotes of a dict.
  unfoldable pub settle_by : List (String × Quote P) → ℕ → PriceAlert P → PriceAlert P
  settle_by quotes now a = elim (is_active a.status) [
    | true ↦ judged now (lookup a.symbol quotes) a
    | false ↦ a
  ]

  -- The same, with the answers of the provider.
  unfoldable pub settle : Provider P → ℕ → PriceAlert P → PriceAlert P
  settle provider now a = elim (is_active a.status) [
    | true ↦ judged now (quote_of provider a.symbol) a
    | false ↦ a
  ]

  judged-symbol :
      (now : ℕ) (x : Option (Quote P)) (a : PriceAlert P) → (judged now x a).symbol ≡ a.symbol
  unfolding evaluated
  judged-symbol now none a = refl
  judged-symbol now (some q) a = refl

  judged-condition :
      (now : ℕ) (x : Option (Quote P)) (a : PriceAlert P) → (judged now x a).condition ≡ a.condition
  unfolding evaluated
  judged-condition now none a = refl
  judged-condition now (some q) a = refl

  judged-target :
      (now : ℕ) (x : Option (Quote P)) (a : PriceAlert P)
      → (judged now x a).target_price ≡ a.target_price
  unfolding evaluated
  judged-target now none a = refl
  judged-target now (some q) a = refl

  module _ (quotes : List (String × Quote P)) (now : ℕ) where
    pub settle_by-inactive :
        (a : PriceAlert P) → is_active a.status ≡ false → settle_by quotes now a ≡ a
    unfolding settle_by
    settle_by-inactive a h = rw (h, settle_by) refl

    settle_by-active :
        (a : PriceAlert P)
        → is_active a.status ≡ true
        → settle_by quotes now a ≡ judged now (lookup a.symbol quotes) a
    unfolding settle_by
    settle_by-active a h = rw (h, settle_by) refl

    settle_by-evaluated :
        (a : PriceAlert P) (q : Quote P)
        → lookup a.symbol quotes ≡ some q
        → settle_by quotes now (judged now (some q) a) ≡ judged now (some q) a
    unfolding settle_by evaluated is_active
    settle_by-evaluated a q h = elim (Bool-cases (is_met a.condition q.price a.target_price)) [
      | inl e ↦ rw e refl
      | inr e ↦ simp (e, h) refl
    ]

    settle_by_twice :
        (a : PriceAlert P) → settle_by quotes now (settle_by quotes now a) ≡ settle_by quotes now a
    settle_by_twice a = elim (Bool-cases (is_active a.status)) [
      | inr e ↦ ap (settle_by quotes now) (settle_by-inactive a e)
      | inl e ↦ elim (Option-cases (lookup a.symbol quotes)) [
        | inl none_found ↦
            let same : settle_by quotes now a ≡ a =
              settle_by-active a e ∙ ap (λ x. judged now x a) none_found in
            ap (settle_by quotes now) same
        | inr (q, found) ↦
            let there : settle_by quotes now a ≡ judged now (some q) a =
              settle_by-active a e ∙ ap (λ x. judged now x a) found in
            ap (settle_by quotes now) there ∙ settle_by-evaluated a q found ∙ sym there
      ]
    ]

    settle_by-symbol : (a : PriceAlert P) → (settle_by quotes now a).symbol ≡ a.symbol
    settle_by-symbol a = elim (Bool-cases (is_active a.status)) [
      | inr e ↦ ap (λ b. b.symbol) (settle_by-inactive a e)
      | inl e ↦
          ap (λ b. b.symbol) (settle_by-active a e) ∙ judged-symbol now (lookup a.symbol quotes) a
    ]

    settle_by-condition : (a : PriceAlert P) → (settle_by quotes now a).condition ≡ a.condition
    settle_by-condition a = elim (Bool-cases (is_active a.status)) [
      | inr e ↦ ap (λ b. b.condition) (settle_by-inactive a e)
      | inl e ↦
          ap (λ b. b.condition) (settle_by-active a e)
          ∙ judged-condition now (lookup a.symbol quotes) a
    ]

    settle_by-target : (a : PriceAlert P) → (settle_by quotes now a).target_price ≡ a.target_price
    settle_by-target a = elim (Bool-cases (is_active a.status)) [
      | inr e ↦ ap (λ b. b.target_price) (settle_by-inactive a e)
      | inl e ↦
          ap (λ b. b.target_price) (settle_by-active a e)
          ∙ judged-target now (lookup a.symbol quotes) a
    ]

    -- One pass of the loop on the repository.
    unfoldable pub step : PriceAlert P → Repository P → Repository P
    step a r = elim (lookup a.symbol quotes) [
      | none ↦ r
      | some q ↦
          (record_evaluation a.alert_id q.price (at_time q now)
            (is_met a.condition q.price a.target_price) r).1
    ]

    evaluate_alerts-step :
        (a : PriceAlert P) (items : List (PriceAlert P)) (r : Repository P)
        → (evaluate_alerts quotes now (a ∷ items) r).1
          ≡ (evaluate_alerts quotes now items (step a r)).1
    unfolding evaluate_alerts step
    evaluate_alerts-step a items r = elim (Option-cases (lookup a.symbol quotes)) [
      | inl e ↦ rw (e, evaluate_alerts, step) refl
      | inr (q, e) ↦ rw (e, evaluate_alerts, step) refl
    ]

    -- The repository holds the alert as the loop read it, apart from what an evaluation changes.
    abbrev pub HasSnapshot : Repository P → PriceAlert P → Type 0
    HasSnapshot r a =
        (c : PriceAlert P) × (lookup a.alert_id r.alerts ≡ some c)
        × (c.symbol ≡ a.symbol)
        × (c.condition ≡ a.condition)
        × (c.target_price ≡ a.target_price)

    step-unquoted :
        (a : PriceAlert P) (r : Repository P) → lookup a.symbol quotes ≡ none → step a r ≡ r
    unfolding step
    step-unquoted a r e = rw (e, step) refl

    settle_by-found :
        (c : PriceAlert P) (symbol : String) (x : Option (Quote P))
        → is_active c.status ≡ true
        → c.symbol ≡ symbol
        → lookup symbol quotes ≡ x
        → settle_by quotes now c ≡ judged now x c
    settle_by-found c symbol x live same h =
        settle_by-active c live
        ∙ ap (λ s. judged now (lookup s quotes) c) same
        ∙ ap (λ y. judged now y c) h

    settle_by-unquoted :
        (c : PriceAlert P) (symbol : String)
        → c.symbol ≡ symbol
        → lookup symbol quotes ≡ none
        → settle_by quotes now c ≡ c
    settle_by-unquoted c symbol same h = elim (Bool-cases (is_active c.status)) [
      | inl live ↦ settle_by-found c symbol none live same h
      | inr e ↦ settle_by-inactive c e
    ]

    judged-snapshot :
        (a c : PriceAlert P) (q : Quote P)
        → c.condition ≡ a.condition
        → c.target_price ≡ a.target_price
        → judged now (some q) c
          ≡ evaluated q.price (at_time q now) (is_met a.condition q.price a.target_price) c
    judged-snapshot a c q condition target =
        ap (λ k. evaluated q.price (at_time q now) (is_met k q.price c.target_price) c) condition
        ∙ ap (λ k. evaluated q.price (at_time q now) (is_met a.condition q.price k) c) target

    step-quoted :
        (a c : PriceAlert P) (q : Quote P) (r : Repository P)
        → lookup a.symbol quotes ≡ some q
        → lookup a.alert_id r.alerts ≡ some c
        → (step a r).alerts ≡ (
            if is_active c.status
            then insert a.alert_id
                (evaluated q.price (at_time q now) (is_met a.condition q.price a.target_price) c)
                r.alerts
            else r.alerts)
    unfolding step record_evaluation
    step-quoted a c q r e found = elim (Bool-cases (is_active c.status)) [
      | inl live ↦ rw (e, found, live, step, record_evaluation) refl
      | inr dead ↦ rw (e, found, dead, step, record_evaluation) refl
    ]

    found-at :
        (k i : String) (c : PriceAlert P) (r : Repository P)
        → lookup k r.alerts ≡ some c
        → (k == i) ≡ true
        → lookup i r.alerts ≡ some c
    found-at k i c r found same =
        subst (λ j. lookup j r.alerts ≡ some c) ((string_eq.beq_iff k i).0 same) found

    -- A pass that changes nothing, at an alert that an evaluation leaves as it is.
    unchanged :
        (k i : String) (c : PriceAlert P) (r : Repository P)
        → lookup k r.alerts ≡ some c
        → settle_by quotes now c ≡ c
        → lookup i r.alerts ≡ (if k == i then some (settle_by quotes now c) else lookup i r.alerts)
    unchanged k i c r found same = ground (arith, found-at k i c r found, same)

    step-some :
        (a c : PriceAlert P) (r : Repository P) (i : String)
        → lookup a.alert_id r.alerts ≡ some c
        → c.symbol ≡ a.symbol
        → c.condition ≡ a.condition
        → c.target_price ≡ a.target_price
        → lookup i (step a r).alerts
          ≡ (if a.alert_id == i then some (settle_by quotes now c) else lookup i r.alerts)
    step-some a c r i found symbol condition target = elim (Option-cases (lookup a.symbol quotes)) [
      | inl e ↦
          ap (λ s. lookup i s.alerts) (step-unquoted a r e)
          ∙ unchanged a.alert_id i c r found (settle_by-unquoted c a.symbol symbol e)
      | inr (q, e) ↦
          ap (lookup i) (step-quoted a c q r e found) ∙ (elim (Bool-cases (is_active c.status)) [
            | inl live ↦ rw live (
                lookup-insert a.alert_id i _ r.alerts
                ∙ ap (λ d. if a.alert_id == i then some d else lookup i r.alerts)
                    (sym (
                      settle_by-found c a.symbol (some q) live symbol e
                      ∙ judged-snapshot a c q condition target)))
            | inr dead ↦ rw dead (unchanged a.alert_id i c r found (settle_by-inactive c dead))
          ])
    ]

    step-lookup :
        (a : PriceAlert P) (r : Repository P) (i : String)
        → HasSnapshot r a
        → lookup i (step a r).alerts ≡ (
            if a.alert_id == i
            then change (settle_by quotes now) (lookup i r.alerts)
            else lookup i r.alerts)
    step-lookup a r i (c, found, symbol, condition, target) =
        step-some a c r i found symbol condition target
        ∙ ground (arith, found-at a.alert_id i c r found)

    pub change_twice :
        (x : Option (PriceAlert P))
        → change (settle_by quotes now) (change (settle_by quotes now) x)
          ≡ change (settle_by quotes now) x
    change_twice none = refl
    change_twice (some a) = ap some (settle_by_twice a)

    step-HasSnapshot :
        (a b : PriceAlert P) (r : Repository P)
        → HasSnapshot r a
        → HasSnapshot r b
        → HasSnapshot (step a r) b
    step-HasSnapshot a b r h (c, found, symbol, condition, target) =
        elim (Bool-cases (a.alert_id == b.alert_id)) [
          | inl e ↦ (
            settle_by quotes now c,
            step-lookup a r b.alert_id h ∙ rw (e, found) refl,
            settle_by-symbol c ∙ symbol,
            settle_by-condition c ∙ condition,
            settle_by-target c ∙ target,
          )
          | inr e ↦ (c, step-lookup a r b.alert_id h ∙ rw e found, symbol, condition, target)
        ]

    pub evaluate_alerts-lookup :
        (items : List (PriceAlert P)) (r : Repository P) (i : String)
        → All (HasSnapshot r) items
        → lookup i (evaluate_alerts quotes now items r).1.alerts ≡ (
            if any (λ a. a.alert_id == i) items
            then change (settle_by quotes now) (lookup i r.alerts)
            else lookup i r.alerts)
    unfolding evaluate_alerts
    evaluate_alerts-lookup [] r i h = refl
    evaluate_alerts-lookup (a ∷ items) r i h =
        ap (λ s. lookup i s.alerts) (evaluate_alerts-step a items r)
        ∙ evaluate_alerts-lookup items (step a r) i
            (All-map _ _ items (λ b k. step-HasSnapshot a b r h.0 k) h.1)
        ∙ ground (arith, step-lookup a r i h.0, change_twice (lookup i r.alerts))
