-- ===== src/CorporateActions/Selection.antt =====
-- Which revisions the adjustment engine selects.
use stockassist.Common.{
  ◌≡◌, refl, Bool, true, false, Option, none, some, List, [], ◌∷◌, ◌++◌, if◌then◌else◌, string_eq,
  pair_eq, OnOk, OnOk->>, OnOk->>=, OnOk-all, OnOk-×, All-Occurs, All-keep, keep-All, Occurs-keep,
  ap, require, keep, All, Occurs, Bool-cases, Option-cases, inl, inr, subst,
}
use stockassist.Common.Dict.{
  lookup, insert, Distinct, insert-Distinct, insert-All, Distinct-lookups, lookup-Occurs,
}
use mathlib.Core.List.{append-nil, append_assoc}
use stockassist.Common.Order.{nat_order}
use stockassist.Common.Text.{string_order, pair_order}
use stockassist.Common.Sort.{sort, IsSorted, sort-IsSorted, All-sort, Occurs-sort}
use stockassist.Market.{Datetime, DecimalOps}
use stockassist.CorporateActions.{
  Action, several_symbols, Key, key_of, newer, visible, note, validate_action, collect,
  is_confirmed, effective_key, values, latest_effective_revisions, one_symbol,
}
use stockassist.CorporateActions.Latest.{is_revision, IsLatest, step-IsLatest, revision_of_key}

note-keyed :
    {D : Type 0} (latest : List (Key × Action D)) (a : Action D)
    → Distinct latest × All (λ p. p.0 ≡ key_of p.1) latest
    → Distinct (insert (key_of a) a latest)
      × All (λ p. p.0 ≡ key_of p.1) (insert (key_of a) a latest)
    → Distinct (note latest a) × All (λ p. p.0 ≡ key_of p.1) (note latest a)
unfolding note
note-keyed latest a h n = elim (Option-cases (lookup (key_of a) latest)) [
  | inl e ↦ rw (e, note) n
  | inr (b, e) ↦ elim (Bool-cases (newer a b)) [
    | inl f ↦ rw (e, note, f) n
    | inr f ↦ rw (e, note, f) h
  ]
]

module _ (d : DecimalOps) (as_of : Datetime) where
  open d use {Decimal}

  -- The loop: the dict it ends with holds the latest visible revision of each event.
  collect-IsLatest :
      (actions seen : List (Action Decimal)) (latest : List (Key × Action Decimal)) (j : Key)
      → IsLatest as_of seen j (lookup j latest)
      → OnOk (λ m. IsLatest as_of (seen ++ actions) j (lookup j m)) (collect d as_of latest actions)
  unfolding collect
  collect-IsLatest [] seen latest j l = rw append-nil l
  collect-IsLatest (a ∷ actions) seen latest j l = OnOk->> _ (validate_action d a) _ (
      rw append_assoc at
        (collect-IsLatest actions (seen ++ a ∷ []) _ j (step-IsLatest as_of seen latest a j l)))

  -- Every entry stands under its own key, and no key twice.
  collect-keyed :
      (actions : List (Action Decimal)) (latest : List (Key × Action Decimal))
      → Distinct latest × All (λ p. p.0 ≡ key_of p.1) latest
      → OnOk (λ m. Distinct m × All (λ p. p.0 ≡ key_of p.1) m) (collect d as_of latest actions)
  unfolding collect
  collect-keyed [] latest h = h
  collect-keyed (a ∷ actions) latest h =
      OnOk->> _ (validate_action d a) _ (collect-keyed actions _ (step a (visible as_of a) h))
    where
      noted :
          (a : Action Decimal)
          → Distinct latest × All (λ p. p.0 ≡ key_of p.1) latest
          → Distinct (insert (key_of a) a latest)
            × All (λ p. p.0 ≡ key_of p.1) (insert (key_of a) a latest)
      noted a h =
          (insert-Distinct (key_of a) a latest h.0, insert-All _ (key_of a) a latest refl h.1)

      step :
          (a : Action Decimal) (b : Bool)
          → Distinct latest × All (λ p. p.0 ≡ key_of p.1) latest
          → Distinct (if b then note latest a else latest)
            × All (λ p. p.0 ≡ key_of p.1) (if b then note latest a else latest)
      step a true h = note-keyed latest a h (noted a h)
      step a false h = h

  -- What the selection holds: latest visible revisions that are confirmed, and each of those.
  pub record IsSelection (actions selected : List (Action Decimal)) : Type 0 where
    pub sound :
        All (λ a. (is_confirmed a ≡ true) × IsLatest as_of actions (key_of a) (some a)) selected
    pub complete :
        (a : Action Decimal)
        → Occurs a actions
        → visible as_of a ≡ true
        → (b : Action Decimal) × IsLatest as_of actions (key_of a) (some b)
          × (is_confirmed b ≡ true → Occurs b selected)
    pub sorted : IsSorted effective_key selected

  values_of :
      (actions : List (Action Decimal)) (m n : List (Key × Action Decimal))
      → ((j : Key) → IsLatest as_of actions j (lookup j m))
      → All (λ p. lookup p.0 m ≡ some p.1) n
      → All (λ p. p.0 ≡ key_of p.1) n
      → All (λ a. IsLatest as_of actions (key_of a) (some a)) (values n)
  values_of actions m [] l h k = tt
  values_of actions m ((j, a) ∷ n) l h k = (
    subst (λ i. IsLatest as_of actions i (some a)) k.0 (rw h.0 at (l j)),
    values_of actions m n l h.1 k.1,
  )

  Occurs-values :
      (k : Key) (a : Action Decimal) (m : List (Key × Action Decimal))
      → Occurs (k, a) m
      → Occurs a (values m)
  Occurs-values k a [] o = o
  Occurs-values k a (p ∷ m) (inl e) = inl (ap (λ q. q.1) e)
  Occurs-values k a (p ∷ m) (inr o) = inr (Occurs-values k a m o)

  abbrev Collected : List (Action Decimal) → List (Key × Action Decimal) → Type 0
  Collected actions m =
      ((j : Key) → IsLatest as_of actions j (lookup j m))
      × (Distinct m × All (λ p. p.0 ≡ key_of p.1) m)

  collect-Collected :
      (actions : List (Action Decimal)) → OnOk (Collected actions) (collect d as_of [] actions)
  collect-Collected actions =
      OnOk-× _ _ (collect d as_of [] actions)
        (OnOk-all _ (collect d as_of [] actions) (λ j. collect-IsLatest actions [] [] j tt))
        (collect-keyed actions [] (tt, tt))

  visible_latest :
      (actions : List (Action Decimal)) (a : Action Decimal) (o : Option (Action Decimal))
      → Occurs a actions
      → visible as_of a ≡ true
      → IsLatest as_of actions (key_of a) o
      → (b : Action Decimal) × (o ≡ some b)
  visible_latest actions a none x v l =
      let h : is_revision as_of (key_of a) a ≡ false = All-Occurs _ a actions l x in
      absurd (cc (revision_of_key as_of a v))
  visible_latest actions a (some b) x v l = (b, refl)

  pick :
      (actions : List (Action Decimal)) (m : List (Key × Action Decimal))
      → Collected actions m
      → IsSelection actions (sort effective_key (keep is_confirmed (values m)))
  pick actions m c =
      let latest : All (λ a. IsLatest as_of actions (key_of a) (some a)) (values m) =
        values_of actions m m c.0 (Distinct-lookups m c.1.0) c.1.1 in
      record {
        sound =
            All-sort effective_key _ _ (
              both _ (keep-All is_confirmed (values m))
                (All-keep _ is_confirmed (values m) latest));
        complete = λ a x v.
            let (b, found) = visible_latest actions a (lookup (key_of a) m) x v (c.0 (key_of a)) in
            (
              b,
              rw found at (c.0 (key_of a)),
              λ e. Occurs-sort effective_key b _ (
                  Occurs-keep is_confirmed b (values m) e
                    (Occurs-values (key_of a) b m (lookup-Occurs (key_of a) b m found))),
            );
        sorted = sort-IsSorted effective_key _;
      }
    where
      both :
          (l : List (Action Decimal))
          → All (λ a. is_confirmed a ≡ true) l
          → All (λ a. IsLatest as_of actions (key_of a) (some a)) l
          → All (λ a. (is_confirmed a ≡ true) × IsLatest as_of actions (key_of a) (some a)) l
      both [] p q = tt
      both (x ∷ l) p q = ((p.0, q.0), both l p.1 q.1)

  -- When the selection succeeds, it holds only confirmed actions that are the latest visible
  -- revision of their event, and every event with a visible revision has such a latest revision,
  -- which is selected if it is confirmed: one that was cancelled hides the earlier ones. The
  -- selection is in the order of the effective times.
  pub latest_effective_revisions-IsSelection :
      (actions : List (Action Decimal))
      → OnOk (IsSelection actions) (latest_effective_revisions d actions as_of)
  unfolding latest_effective_revisions
  latest_effective_revisions-IsSelection actions =
      OnOk->> _ (require (one_symbol actions) several_symbols) _ (
        OnOk->>= (Collected actions) _ (collect d as_of [] actions) _ (collect-Collected actions)
          (pick actions))
