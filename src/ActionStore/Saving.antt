-- ===== src/ActionStore/Saving.antt =====
-- What a batch that is saved has done to the table.
use stockassist.Common.{
  suc, ◌+◌, ◌≡◌, refl, true, BoolEq, nat_eq, string_eq, pair_eq, Bool-cases, Option-cases, inl, inr,
  ◌⊎◌, Option, none, some, List, [], ◌∷◌, length, Occurs, All, OnOk, OnOk->>=, arith,
}
use stockassist.Common.Dict.{
  lookup, insert, lookup-insert_self, insert_keeps, length-insert_new, lookup-insert_cases,
}
use stockassist.Common.Int.{int_eq}
use stockassist.Market.{Datetime}
use stockassist.CorporateActions.{Action}
use stockassist.ActionStore.{Key, Saved, same_time, same_optional_time, same_revision, store}

same_time_self : (t : Datetime) → same_time t t ≡ true
same_time_self t = (nat_eq.beq_iff t.instant t.instant).1 refl

same_optional_time_self : (t : Option Datetime) → same_optional_time t t ≡ true
same_optional_time_self none = refl
same_optional_time_self (some t) = (nat_eq.beq_iff t.instant t.instant).1 refl

abbrev pub Table : Type 0 → Type 0
Table D = List (Key × Action D)

module _ {D : Type 0} where
  -- Every row of the first table is in the second one, unchanged.
  abbrev pub Keeps : Table D → Table D → Type 0
  Keeps t u = (k : Key) (row : Action D) → lookup k t ≡ some row → lookup k u ≡ some row

module _ {D : Type 0} ⦃eq : BoolEq D⦄ where
  -- The table has the revision, with the values of the action.
  abbrev pub Holds : Table D → Key × Action D → Type 0
  Holds t (k, a) = (row : Action D) × (lookup k t ≡ some row) × (same_revision row a ≡ true)

  pub same_revision_self : (a : Action D) → same_revision a a ≡ true
  unfolding same_revision
  same_revision_self a = ground (
    arith,
    (string_eq.beq_iff a.symbol a.symbol).1 refl,
    (string_eq.beq_iff a.action_type a.action_type).1 refl,
    (string_eq.beq_iff a.status a.status).1 refl,
    (string_eq.beq_iff a.rule_version a.rule_version).1 refl,
    (eq.beq_iff a.price_factor a.price_factor).1 refl,
    (eq.beq_iff a.volume_factor a.volume_factor).1 refl,
    same_optional_time_self a.announced_at,
  )

  -- A row that was there before, or the action of the batch under that key.
  abbrev pub IsFrom : Key → Action D → Table D → Table D → Type 0
  IsFrom k row us t = (lookup k t ≡ some row) ⊎ Occurs (k, row) us

  -- What the transaction did, from the table before it.
  pub record IsStored (us : Table D) (t : Table D) (s : Saved D) : Type 0 where
    pub keeps : Keeps t s.table
    pub holds : All (Holds s.table) us
    pub counts : s.created + s.unchanged ≡ length us
    pub rows : length s.table ≡ length t + s.created
    pub origin : (k : Key) (row : Action D) → lookup k s.table ≡ some row → IsFrom k row us t

  IsStored-new :
      (k : Key) (a : Action D) (us t : Table D) (s : Saved D)
      → lookup k t ≡ none
      → IsStored us (insert k a t) s
      → IsStored ((k, a) ∷ us) t (record s { created = suc s.created })
  IsStored-new k a us t s absent i = record {
    keeps = λ j row h. i.keeps j row (insert_keeps k j a row t absent h);
    holds = ((a, i.keeps k a (lookup-insert_self k a t), same_revision_self a), i.holds);
    counts = omega (arith, i.counts);
    rows = omega (arith, i.rows, length-insert_new k a t absent);
    origin = λ j row h. elim (i.origin j row h) [
      | inr o ↦ inr (inr o)
      | inl there ↦ elim (lookup-insert_cases k j a row t there) [
        | inl before ↦ inl before
        | inr (jk, ra) ↦ inr (inl (λ x. (jk x, ra x)))
      ]
    ];
  }

  IsStored-same :
      (k : Key) (a row : Action D) (us t : Table D) (s : Saved D)
      → lookup k t ≡ some row
      → same_revision row a ≡ true
      → IsStored us t s
      → IsStored ((k, a) ∷ us) t (record s { unchanged = suc s.unchanged })
  IsStored-same k a row us t s found same i = record {
    keeps = i.keeps;
    holds = ((row, i.keeps k row found, same), i.holds);
    counts = omega (arith, i.counts);
    rows = i.rows;
    origin = λ j r h. elim (i.origin j r h) [ inl before ↦ inl before | inr o ↦ inr (inr o) ];
  }

  pub store-IsStored : (us t : Table D) → OnOk (IsStored us t) (store us t)
  unfolding store
  store-IsStored [] t = record {
    keeps = λ k row h. h;
    holds = tt;
    counts = omega arith;
    rows = omega arith;
    origin = λ k row h. inl h;
  }
  store-IsStored ((k, a) ∷ us) t = elim (Option-cases (lookup k t)) [
    | inl absent ↦
        rw (absent, store)
          (OnOk->>= (IsStored us (insert k a t)) (IsStored ((k, a) ∷ us) t)
            (store us (insert k a t)) _ (store-IsStored us (insert k a t))
            (λ s i. IsStored-new k a us t s absent i))
    | inr (row, found) ↦ elim (Bool-cases (same_revision row a)) [
      | inr e ↦ rw (found, e, store) tt
      | inl e ↦
          rw (found, e, store)
            (OnOk->>= (IsStored us t) (IsStored ((k, a) ∷ us) t) (store us t) _
              (store-IsStored us t) (λ s i. IsStored-same k a row us t s found e i))
    ]
  ]
