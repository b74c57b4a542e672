-- ===== src/ActionStore/Twice.antt =====
-- A whole batch: its counts, and saving it again.
use stockassist.Common.{
  ℕ, suc, ◌+◌, ◌≡◌, refl, ap, subst, ◌∙◌, Bool, BoolEq, Bool-cases, Option-cases, inl, inr, Option,
  some, List, [], ◌∷◌, length, All, Occurs, ◌⊎◌, Result, ok, ◌>>=◌, OnOk, OnOk->>=, OnOk-after,
  OnOk-map, ok_injective, returned_parts, arith, nat_eq, string_eq, pair_eq,
}
use stockassist.Common.Int.{int_eq}
use stockassist.Common.Dict.{lookup, insert, length-insert_new}
use stockassist.CorporateActions.{Action}
use stockassist.ActionStore.{
  Error, Key, Saved, row_key, same_record, unique_actions, store, canonical, canonical_all,
  validate_all, save_batch,
}
use stockassist.ActionStore.Saving.{Table, Keeps, Holds, IsStored, store-IsStored}

module _ {D : Type 0} ⦃eq : BoolEq D⦄ where
  -- Revisions that are all there are stored again without a change.
  store_held :
      (us t : Table D)
      → All (Holds t) us
      → store us t ≡ ok (record { created = 0; unchanged = length us; table = t })
  unfolding store
  store_held [] t h = refl
  store_held ((k, a) ∷ us) t h =
      let (row, found, same) = h.0 in rw (found, same, store) (rw (store_held us t h.1) refl)

  unique_actions-length :
      (u : Table D) (actions : List (Action D))
      → OnOk (λ r. length r.0 + r.1 ≡ length u + length actions) (unique_actions u actions)
  unfolding unique_actions
  unique_actions-length u [] = omega arith
  unique_actions-length u (a ∷ actions) = elim (Option-cases (lookup (row_key a) u)) [
    | inl absent ↦
        rw (absent, unique_actions)
          (OnOk-map _ _ (unique_actions (insert (row_key a) a u) actions)
            (unique_actions-length (insert (row_key a) a u) actions)
            (λ r h. omega (arith, h, length-insert_new (row_key a) a u absent)))
    | inr (b, found) ↦ elim (Bool-cases (same_record b a)) [
      | inr e ↦ rw (found, e, unique_actions) tt
      | inl e ↦
          rw (found, e, unique_actions)
            (OnOk->>= _ (λ r. length r.0 + r.1 ≡ length u + length (a ∷ actions))
              (unique_actions u actions) _ (unique_actions-length u actions)
              (λ r h. omega (arith, h)))
    ]
  ]

  module _ (quantize : D → Option D) (positive : D → Bool) where
    canonical_all-length :
        (batch : List (Action D))
        → OnOk (λ actions. length actions ≡ length batch) (canonical_all quantize positive batch)
    unfolding canonical_all
    canonical_all-length [] = refl
    canonical_all-length (a ∷ batch) =
        OnOk-after (λ actions. length actions ≡ length (a ∷ batch)) (canonical quantize positive a)
          _
          (λ c.
            OnOk->>= (λ actions. length actions ≡ length batch)
              (λ actions. length actions ≡ length (a ∷ batch))
              (canonical_all quantize positive batch) _ (canonical_all-length batch)
              (λ rest h. ap suc h))

    -- The parts of a batch that was saved.
    pub record Parts (batch : List (Action D)) (t : Table D) (s : Saved D) : Type 0 where
      pub actions : List (Action D)
      pub unique : Table D × ℕ
      pub saved : Saved D
      pub made : canonical_all quantize positive batch ≡ ok actions
      pub valid : validate_all quantize positive actions ≡ ok tt
      pub merged : unique_actions [] actions ≡ ok unique
      pub stored : store unique.0 t ≡ ok saved
      pub result : record saved { unchanged = unique.1 + saved.unchanged } ≡ s

    pub save_batch-Parts :
        (batch : List (Action D)) (t : Table D) (s : Saved D)
        → save_batch quantize positive batch t ≡ ok s
        → Parts batch t s
    unfolding save_batch
    save_batch-Parts batch t s h =
        let (actions, made, h1) = returned_parts (canonical_all quantize positive batch) _ s h in
        let (u, valid, h2) = returned_parts (validate_all quantize positive actions) _ s h1 in
        let (unique, merged, h3) = returned_parts (unique_actions [] actions) _ s h2 in
        let (saved, stored, h4) = returned_parts (store unique.0 t) _ s h3 in
        record {
          actions = actions;
          unique = unique;
          saved = saved;
          made = made;
          valid = valid;
          merged = merged;
          stored = stored;
          result = ok_injective h4;
        }

    module _ (batch : List (Action D)) (t : Table D) (s : Saved D) (parts : Parts batch t s) where
      open parts use {actions, unique, saved, made, valid, merged, stored, result}

      IsStored-facts : IsStored unique.0 t saved
      IsStored-facts = subst (OnOk (IsStored unique.0 t)) stored (store-IsStored unique.0 t)

      merged_length : length unique.0 + unique.1 ≡ length batch
      merged_length =
          subst (OnOk (λ r. length r.0 + r.1 ≡ 0 + length actions)) merged
            (unique_actions-length [] actions)
          ∙ omega
              (arith, subst (OnOk (λ l. length l ≡ length batch)) made (canonical_all-length batch))

      table_kept : saved.table ≡ s.table
      table_kept = ap (λ r. r.table) result

      held : All (Holds s.table) unique.0
      held = subst (λ u. All (Holds u) unique.0) table_kept IsStored-facts.holds

      same_batch :
          ◌≡◌ {A = Result Error (Saved D)}
            (store unique.0 s.table >>= λ r. ok (record r { unchanged = unique.1 + r.unchanged }))
            (ok (record { created = 0; unchanged = length batch; table = s.table }))
      same_batch = rw (store_held unique.0 s.table held) (
          ap (λ n. ok (record { created = 0; unchanged = n; table = s.table }))
            (omega (arith, merged_length)))

      again :
          save_batch quantize positive batch s.table
          ≡ ok (record { created = 0; unchanged = length batch; table = s.table })
      unfolding save_batch
      again = rw (made, save_batch) (rw (valid, merged) same_batch)

      counted :
          Keeps t s.table
          × (s.created + s.unchanged ≡ length batch)
          × (length s.table ≡ length t + s.created)
      counted =
          subst
            (λ r.
              Keeps t r.table
              × (r.created + r.unchanged ≡ length batch)
              × (length r.table ≡ length t + r.created))
            result
            (
              IsStored-facts.keeps,
              omega (arith, IsStored-facts.counts, merged_length),
              IsStored-facts.rows,
            )

      pub new_from_batch :
          (k : Key) (row : Action D)
          → lookup k s.table ≡ some row
          → (lookup k t ≡ some row) ⊎ Occurs (k, row) unique.0
      new_from_batch k row h = IsStored-facts.origin k row (ap (lookup k) table_kept ∙ h)

    -- A batch that is saved counts each of its actions once, as new or as known; the table grows by
    -- the new ones, and every row that was there stays as it was.
    pub save_batch-counts :
        (batch : List (Action D)) (t : Table D) (s : Saved D)
        → save_batch quantize positive batch t ≡ ok s
        → Keeps t s.table
          × (s.created + s.unchanged ≡ length batch)
          × (length s.table ≡ length t + s.created)
    save_batch-counts batch t s h = counted batch t s (save_batch-Parts batch t s h)

    -- A batch that was saved, saved again, creates nothing, finds all of its actions unchanged, and
    -- leaves the table as it is.
    pub save_batch_again :
        (batch : List (Action D)) (t : Table D) (s : Saved D)
        → save_batch quantize positive batch t ≡ ok s
        → save_batch quantize positive batch s.table
          ≡ ok (record { created = 0; unchanged = length batch; table = s.table })
    save_batch_again batch t s h = again batch t s (save_batch-Parts batch t s h)
