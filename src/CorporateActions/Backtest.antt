-- ===== src/CorporateActions/Backtest.antt =====
-- What the backtest engine accepts: events with one visible revision, known before they take effect.
use stockassist.Common.{
  ◌≡◌, refl, ap, sym, ◌∙◌, Bool, true, false, none, some, List, [], ◌∷◌, ◌++◌, if◌then◌else◌, ◌==◌,
  string_eq, pair_eq, OnOk, OnOk->>, OnOk->>=, OnOk-all, OnOk-×, require, keep, keep-All,
  keep-append, all, All, Bool-cases, inl, inr, subst, arith,
}
use mathlib.Core.List.{append-nil, append_assoc}
use stockassist.Common.Dict.{
  lookup, insert, Distinct, lookup-insert, insert-Distinct, Distinct-lookups,
}
use stockassist.Common.Order.{nat_order}
use stockassist.Common.Text.{string_order, pair_order}
use stockassist.Common.Sort.{All-sort}
use stockassist.Market.{Datetime, before, Candle, DecimalOps}
use stockassist.CorporateActions.{
  Action, Key, key_of, visible, validate_action, is_confirmed, effective_key, adjust_backtest,
  group_visible, select_single, naive, is_unadjusted, check_candles, source_not_unadjusted,
}
use stockassist.CorporateActions.Latest.{is_revision, string_key}

module _ (d : DecimalOps) where
  open d use {Decimal}

  pub group : Key → List (Key × List (Action Decimal)) → List (Action Decimal)
  group j m = elim (lookup j m) [ none ↦ [] | some l ↦ l ]

  group-nil : (j : Key) → group j [] ≡ []
  unfolding group
  group-nil j = refl

  grouped_step :
      Datetime
      → Action Decimal
      → List (Key × List (Action Decimal))
      → List (Key × List (Action Decimal))
  grouped_step as_of a grouped =
      if visible as_of a
      then insert (key_of a) (elim (lookup (key_of a) grouped) [ none ↦ [] | some l ↦ l ] ++ a ∷ [])
          grouped
      else grouped

  group-grouped_step :
      (as_of : Datetime) (a : Action Decimal) (grouped : List (Key × List (Action Decimal)))
      (j : Key)
      → group j (grouped_step as_of a grouped)
        ≡ group j grouped ++ keep (is_revision as_of j) (a ∷ [])
  unfolding group grouped_step
  group-grouped_step as_of a grouped j = elim (Bool-cases (visible as_of a)) [
    | inl v ↦ elim (Bool-cases (key_of a == j)) [
      | inl same ↦
          let e : key_of a ≡ j = (string_key.beq_iff (key_of a) j).0 same in
          ground (arith, lookup-insert (key_of a) j (group (key_of a) grouped ++ a ∷ []) grouped)
      | inr other ↦
          rw (v, other)
            (ground (
              arith,
              append-nil (group j grouped),
              lookup-insert (key_of a) j (group (key_of a) grouped ++ a ∷ []) grouped,
            ))
    ]
    | inr v ↦ rw v (sym (append-nil (group j grouped)))
  ]

  -- The group of an event holds its visible revisions, in the order of the input.
  pub group_visible-keep :
      (as_of : Datetime) (actions seen : List (Action Decimal))
      (grouped : List (Key × List (Action Decimal))) (j : Key)
      → group j grouped ≡ keep (is_revision as_of j) seen
      → OnOk
          (λ m. group j m ≡ keep (is_revision as_of j) (seen ++ actions))
          (group_visible d as_of grouped actions)
  unfolding group_visible grouped_step
  group_visible-keep as_of [] seen grouped j h = rw append-nil h
  group_visible-keep as_of (a ∷ actions) seen grouped j h = OnOk->> _ (validate_action d a) _ (
      rw append_assoc at (
        group_visible-keep as_of actions (seen ++ a ∷ []) (grouped_step as_of a grouped) j (
          group-grouped_step as_of a grouped j
          ∙ ap (λ l. l ++ keep (is_revision as_of j) (a ∷ [])) h
          ∙ sym (keep-append (is_revision as_of j) seen (a ∷ [])))))

  group_visible-Distinct :
      (as_of : Datetime) (actions : List (Action Decimal))
      (grouped : List (Key × List (Action Decimal)))
      → Distinct grouped
      → OnOk (λ m. Distinct m) (group_visible d as_of grouped actions)
  unfolding group_visible grouped_step
  group_visible-Distinct as_of [] grouped h = h
  group_visible-Distinct as_of (a ∷ actions) grouped h =
      OnOk->> _ (validate_action d a) _ (
        group_visible-Distinct as_of actions (grouped_step as_of a grouped)
          (step (visible as_of a)))
    where
      step :
          (b : Bool)
          → Distinct (
              if b
              then insert
                  (key_of a)
                  (elim (lookup (key_of a) grouped) [ none ↦ [] | some l ↦ l ] ++ a ∷ [])
                  grouped
              else grouped)
      step true = insert-Distinct (key_of a) _ grouped h
      step false = h

  -- A confirmed action that was known when it took effect, and is the one visible revision of
  -- its event.
  pub record IsTimely (as_of : Datetime) (actions : List (Action Decimal)) (a : Action Decimal)
      : Type 0 where
    pub confirmed : is_confirmed a ≡ true
    pub known : before a.effective_at a.known_at ≡ false
    pub only : keep (is_revision as_of (key_of a)) actions ≡ a ∷ []

  IsEntry : Datetime → List (Action Decimal) → Key × List (Action Decimal) → Type 0
  IsEntry as_of actions p = p.1 ≡ keep (is_revision as_of p.0) actions

  only_revision :
      (as_of : Datetime) (actions : List (Action Decimal)) (j : Key) (a : Action Decimal)
      → a ∷ [] ≡ keep (is_revision as_of j) actions
      → keep (is_revision as_of (key_of a)) actions ≡ a ∷ []
  only_revision as_of actions j a e =
      let h : All (λ b. is_revision as_of j b ≡ true) (a ∷ []) =
        subst (All (λ b. is_revision as_of j b ≡ true)) (sym e)
          (keep-All (is_revision as_of j) actions) in
      let same : key_of a ≡ j = (string_key.beq_iff (key_of a) j).0 (ground (arith, h.0)) in
      rw same (sym e)

  select_single-IsTimely :
      (as_of : Datetime) (actions : List (Action Decimal)) (m : List (Key × List (Action Decimal)))
      → All (IsEntry as_of actions) m
      → OnOk (All (IsTimely as_of actions)) (select_single d m)
  unfolding select_single IsEntry
  select_single-IsTimely as_of actions [] h = tt
  select_single-IsTimely as_of actions ((j, []) ∷ m) h = tt
  select_single-IsTimely as_of actions ((j, a ∷ b ∷ l) ∷ m) h = tt
  select_single-IsTimely as_of actions ((j, a ∷ []) ∷ m) h =
      elim (Bool-cases (before a.effective_at a.known_at)) [
        | inl late ↦ rw late tt
        | inr timely ↦ rw timely (
            OnOk->>= (All (IsTimely as_of actions)) _ (select_single d m) _
              (select_single-IsTimely as_of actions m h.1) (λ rest r. added timely rest r))
      ]
    where
      added :
          before a.effective_at a.known_at ≡ false
          → (rest : List (Action Decimal)) → All (IsTimely as_of actions) rest
          → All (IsTimely as_of actions) (if is_confirmed a then a ∷ rest else rest)
      added timely rest r = elim (Bool-cases (is_confirmed a)) [
        | inl c ↦ rw c (
          record { confirmed = c; known = timely; only = only_revision as_of actions j a h.0 },
          r,
        )
        | inr c ↦ rw c r
      ]

  entries :
      (as_of : Datetime) (actions : List (Action Decimal))
      (m n : List (Key × List (Action Decimal)))
      → ((j : Key) → group j m ≡ keep (is_revision as_of j) actions)
      → All (λ p. lookup p.0 m ≡ some p.1) n
      → All (IsEntry as_of actions) n
  unfolding IsEntry group
  entries as_of actions m [] g h = tt
  entries as_of actions m (p ∷ n) g h =
      (ground (arith, h.0, g p.0), entries as_of actions m n g h.1)

  -- Every action that a backtest applies is confirmed, was known no later than it took effect, and
  -- is the only visible revision of its event: a corrected or cancelled history never gets through.
  pub adjust_backtest-IsTimely :
      (candles : List (Candle Decimal)) (actions : List (Action Decimal)) (as_of : Datetime)
      → OnOk
          (λ r. All (IsTimely as_of actions) r.applied_actions)
          (adjust_backtest d candles actions as_of)
  unfolding adjust_backtest
  adjust_backtest-IsTimely candles actions as_of =
      OnOk->> _ (require as_of.aware (naive "as_of")) _ (
        OnOk->> _ (require (all is_unadjusted candles) source_not_unadjusted) _ (
          OnOk->> _ (check_candles candles) _ (
            OnOk->>=
              (λ m. ((j : Key) → group j m ≡ keep (is_revision as_of j) actions) × Distinct m) _
              (group_visible d as_of [] actions) _
              (OnOk-× _ _ (group_visible d as_of [] actions)
                (OnOk-all _ (group_visible d as_of [] actions)
                  (λ j. group_visible-keep as_of actions [] [] j (group-nil j)))
                (group_visible-Distinct as_of actions [] tt))
              (λ m h.
                OnOk->>= (All (IsTimely as_of actions)) _ (select_single d m) _
                  (select_single-IsTimely as_of actions m
                    (entries as_of actions m m h.0 (Distinct-lookups m h.1)))
                  (λ selected t. All-sort effective_key (IsTimely as_of actions) selected t)))))
