-- ===== src/Alerts/Active.antt =====
-- `evaluate_active` as a whole: every alert of the repository after an evaluation.
use stockassist.Common.{
  ℕ, String, Bool, true, false, if◌then◌else◌, ◌==◌, string_eq, ◌≡◌, refl, ap, sym, subst, ◌∙◌, inl,
  inr, Bool-cases, Option-cases, some, List, [], ◌∷◌, map, any, All, All-map, All-keep, Occurs,
  Occurs-keep, Occurs-All, All-Occurs, arith,
}
use stockassist.Common.Dict.{lookup, Distinct, Distinct-lookups, lookup-Occurs}
use stockassist.Common.Order.{Order}
use stockassist.Common.Sort.{All-sort, Occurs-sort}
use stockassist.Alerts.{
  AlertStatus, active, triggered, disabled, PriceAlert, Repository, Quote, Provider, is_active,
  evaluate_active, list_alerts, fetch_quotes, from_keys, newest_first, same_status,
}
use stockassist.Alerts.Quotes.{is_in, fetched-lookup}
use stockassist.Alerts.Evaluation.{
  change, settle, settle_by, settle_by-inactive, judged, HasSnapshot, evaluate_alerts-lookup,
}

-- Each alert stands once, under its own id.
pub record IsKeyed {P : Type 0} (r : Repository P) : Type 0 where
  pub distinct : Distinct r.alerts
  pub keyed : All (λ p. p.1.alert_id ≡ p.0) r.alerts

same_status-is_active : (s : AlertStatus) → same_status s active ≡ is_active s
unfolding is_active
same_status-is_active active = refl
same_status-is_active triggered = refl
same_status-is_active disabled = refl

any-Occurs :
    {A : Type 0} (test : A → Bool) (a : A) (items : List A)
    → test a ≡ true
    → Occurs a items
    → any test items ≡ true
any-Occurs test a (x ∷ items) h (inl e) = rw (← e, h) refl
any-Occurs test a (x ∷ items) h (inr o) = ground (arith, any-Occurs test a items h o)
any-Occurs test a [] h o = elim o [ ]

All-values :
    {A : Type 0} (P : A → Type 0) (m : List (String × A))
    → All (λ p. P p.1) m
    → All P (map (λ p. p.1) m)
All-values P [] h = tt
All-values P (p ∷ m) h = (h.0, All-values P m h.1)

Occurs-values :
    {A : Type 0} (k : String) (a : A) (m : List (String × A))
    → Occurs (k, a) m
    → Occurs a (map (λ p. p.1) m)
Occurs-values k a (p ∷ m) (inl e) = inl (ap (λ q. q.1) e)
Occurs-values k a (p ∷ m) (inr o) = inr (Occurs-values k a m o)
Occurs-values k a [] o = elim o [ ]

pub settle-inactive :
    {P : Type 0} ⦃o : Order P⦄ (provider : Provider P) (now : ℕ) (a : PriceAlert P)
    → is_active a.status ≡ false
    → settle provider now a ≡ a
unfolding settle
settle-inactive provider now a h = rw (h, settle) refl

symbol-is_in :
    {P : Type 0} (a : PriceAlert P) (items : List (PriceAlert P))
    → Occurs a items
    → is_in a.symbol (map (λ b. b.symbol) items) ≡ true
symbol-is_in a (x ∷ items) (inl e) =
    ground (arith, string_eq.beq_iff x.symbol a.symbol, ap (λ b. b.symbol) e)
symbol-is_in a (x ∷ items) (inr o) = ground (arith, symbol-is_in a items o)
symbol-is_in a [] o = elim o [ ]

module _ {P : Type 0} ⦃o : Order P⦄ (provider : Provider P) (now : ℕ) (r : Repository P) where
  active_alerts : List (PriceAlert P)
  active_alerts = list_alerts (some active) r

  active_alerts-All : (Q : PriceAlert P → Type 0) → All (λ p. Q p.1) r.alerts → All Q active_alerts
  unfolding active_alerts list_alerts
  active_alerts-All Q h =
      All-sort ⦃o = newest_first⦄ (λ a. a.created_at) Q _
        (All-keep Q _ (map (λ p. p.1) r.alerts) (All-values Q r.alerts h))

  -- An alert that is active in the repository is one of the list.
  listed :
      (i : String) (a : PriceAlert P)
      → lookup i r.alerts ≡ some a
      → is_active a.status ≡ true
      → Occurs a active_alerts
  unfolding active_alerts list_alerts
  listed i a found live =
      Occurs-sort ⦃o = newest_first⦄ (λ a. a.created_at) a _
        (Occurs-keep _ a (map (λ p. p.1) r.alerts) (same_status-is_active a.status ∙ live)
          (Occurs-values i a r.alerts (lookup-Occurs i a r.alerts found)))

  module _ (keyed : IsKeyed r) where
    All-found : All (λ p. lookup p.1.alert_id r.alerts ≡ some p.1) r.alerts
    All-found =
        Occurs-All (λ p. lookup p.1.alert_id r.alerts ≡ some p.1) r.alerts
          (λ p there.
            subst (λ k. lookup k r.alerts ≡ some p.1)
              (sym (All-Occurs (λ q. q.1.alert_id ≡ q.0) p r.alerts keyed.keyed there))
              (All-Occurs (λ q. lookup q.0 r.alerts ≡ some q.1) p r.alerts
                (Distinct-lookups r.alerts keyed.distinct) there))

    id_of : (i : String) (a : PriceAlert P) → lookup i r.alerts ≡ some a → a.alert_id ≡ i
    id_of i a found =
        All-Occurs (λ q. q.1.alert_id ≡ q.0) (i, a) r.alerts keyed.keyed
          (lookup-Occurs i a r.alerts found)

    fetched : List (String × Quote P)
    fetched = (fetch_quotes provider (from_keys [] (map (λ a. a.symbol) active_alerts)) []).0

    settle_by-settle :
        (a : PriceAlert P)
        → Occurs a active_alerts
        → settle_by fetched now a ≡ settle provider now a
    unfolding settle_by settle fetched
    settle_by-settle a there =
        ap (λ x. elim (is_active a.status) [ true ↦ judged now x a | false ↦ a ])
          (fetched-lookup provider a.symbol (map (λ b. b.symbol) active_alerts)
            (symbol-is_in a active_alerts there))

    changed :
        (i : String)
        → (if any (λ a. a.alert_id == i) active_alerts
            then change (settle_by fetched now) (lookup i r.alerts)
            else lookup i r.alerts)
          ≡ change (settle provider now) (lookup i r.alerts)
    changed i = elim (Option-cases (lookup i r.alerts)) [
      | inl e ↦ rw e (ground arith)
      | inr (a, e) ↦ rw e (elim (Bool-cases (is_active a.status)) [
        | inl live ↦
            rw
              (any-Occurs (λ b. b.alert_id == i) a active_alerts
                ((string_eq.beq_iff a.alert_id i).1 (id_of i a e)) (listed i a e live))
              (ap some (settle_by-settle a (listed i a e live)))
        | inr dead ↦
            rw (settle-inactive provider now a dead)
              (rw (settle_by-inactive fetched now a dead) (ground arith))
      ])
    ]

    -- An evaluation, started on a repository that keeps each alert once under its id, settles each
    -- alert by itself: an active one whose symbol the provider quotes gets that price, the time of the
    -- quote, and the status its condition gives it; each other alert stays as it is.
    pub evaluate_active-lookup :
        (i : String)
        → lookup i (evaluate_active provider now r).1.alerts
          ≡ change (settle provider now) (lookup i r.alerts)
    unfolding evaluate_active fetched active_alerts
    evaluate_active-lookup i =
        evaluate_alerts-lookup fetched now active_alerts r i (
          active_alerts-All (HasSnapshot fetched now r)
            (All-map _ _ r.alerts (λ p h. (p.1, h, refl, refl, refl)) All-found))
        ∙ changed i
