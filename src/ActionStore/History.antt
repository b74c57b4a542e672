-- ===== src/ActionStore/History.antt =====
-- What was known at an earlier time, when later batches are saved.
use stockassist.Common.{
  ◌≡◌, refl, ap, sym, subst, ◌∙◌, Bool, false, ◌&&◌, BoolEq, ◌==◌, nat_eq, string_eq, pair_eq,
  Bool-cases, Option-cases, inl, inr, Option, none, some, String, List, [], ◌∷◌, map, keep, All,
  ◌>>◌, ok, OnOk, OnOk->>=, OnOk-after, OnOk-intro, All-map, All-Occurs, ◌⊎◌, arith,
}
use stockassist.Common.Int.{int_eq}
use stockassist.Common.Dict.{lookup, insert, insert-All}
use stockassist.Common.Order.{Order}
use stockassist.Common.Sort.{sort}
use stockassist.Market.{Datetime, at_or_before}
use stockassist.CorporateActions.{Action}
use stockassist.ActionStore.{
  Key, RowOrder, Saved, row_key, same_revision, same_record, unique_actions, store, quantized,
  canonical, canonical_all, require_aware, list_known, save_batch,
}
use stockassist.ActionStore.Saving.{Table}
use stockassist.ActionStore.Twice.{Parts, save_batch-Parts, new_from_batch}

module _ {D : Type 0} ⦃eq : BoolEq D⦄ where
  -- The rows that a query reads.
  abbrev rows_of : (Action D → Bool) → Table D → List (Action D)
  rows_of p t = keep p (map (λ e. e.1) t)

  rows_of-insert :
      (p : Action D → Bool) (k : Key) (a : Action D) (t : Table D)
      → lookup k t ≡ none
      → p a ≡ false
      → rows_of p (insert k a t) ≡ rows_of p t
  rows_of-insert p k a [] h n = rw n
  rows_of-insert p k a ((j, b) ∷ t) h n = ground (arith, rows_of-insert p k a t)

  rows_of-store :
      (p : Action D → Bool) (us t : Table D)
      → All (λ e. p e.1 ≡ false) us
      → OnOk (λ s. rows_of p s.table ≡ rows_of p t) (store us t)
  unfolding store
  rows_of-store p [] t n = refl
  rows_of-store p ((k, a) ∷ us) t n = elim (Option-cases (lookup k t)) [
    | inl absent ↦
        rw (absent, store)
          (OnOk->>= (λ s. rows_of p s.table ≡ rows_of p (insert k a t))
            (λ s. rows_of p s.table ≡ rows_of p t) (store us (insert k a t)) _
            (rows_of-store p us (insert k a t) n.1) (λ s i. i ∙ rows_of-insert p k a t absent n.0))
    | inr (row, found) ↦ elim (Bool-cases (same_revision row a)) [
      | inr e ↦ rw (found, e, store) tt
      | inl e ↦
          rw (found, e, store)
            (OnOk->>= (λ s. rows_of p s.table ≡ rows_of p t) (λ s. rows_of p s.table ≡ rows_of p t)
              (store us t) _ (rows_of-store p us t n.1) (λ s i. i))
    ]
  ]

  -- The distinct actions of a batch are actions of the batch.
  unique_actions-All :
      (P : Action D → Type 0) (u : Table D) (actions : List (Action D))
      → All (λ e. P e.1) u
      → All P actions
      → OnOk (λ r. All (λ e. P e.1) r.0) (unique_actions u actions)
  unfolding unique_actions
  unique_actions-All P u [] h n = h
  unique_actions-All P u (a ∷ actions) h n = elim (Option-cases (lookup (row_key a) u)) [
    | inl absent ↦
        rw (absent, unique_actions)
          (unique_actions-All P (insert (row_key a) a u) actions
            (insert-All (λ e. P e.1) (row_key a) a u n.0 h) n.1)
    | inr (b, found) ↦ elim (Bool-cases (same_record b a)) [
      | inr e ↦ rw (found, e, unique_actions) tt
      | inl e ↦
          rw (found, e, unique_actions)
            (OnOk->>= (λ r. All (λ e. P e.1) r.0) (λ r. All (λ e. P e.1) r.0)
              (unique_actions u actions) _ (unique_actions-All P u actions h n.1) (λ r i. i))
    ]
  ]

  module _ (quantize : D → Option D) (positive : D → Bool) where
    module _ (P : Action D → Type 0)
        (stable : (a : Action D) (x y : D)
          → P a
          → P (record a { price_factor = x; volume_factor = y })) where
      canonical-keeps : (a : Action D) → P a → OnOk P (canonical quantize positive a)
      unfolding canonical
      canonical-keeps a h =
          OnOk-after P (quantized quantize positive a.price_factor) _ (λ x.
            OnOk-after P (quantized quantize positive a.volume_factor) _ (λ y. stable a x y h))

      canonical_all-All :
          (batch : List (Action D))
          → All P batch
          → OnOk (All P) (canonical_all quantize positive batch)
      unfolding canonical_all
      canonical_all-All [] h = tt
      canonical_all-All (a ∷ batch) h =
          OnOk->>= P (All P) (canonical quantize positive a) _ (canonical-keeps a h.0) (λ c hc.
            OnOk->>= (All P) (All P) (canonical_all quantize positive batch) _
              (canonical_all-All batch h.1) (λ rest hr. (hc, hr)))

      -- What the factors do not decide, and all actions of a batch have, the stored ones have.
      pub batch-All :
          (batch : List (Action D)) (t : Table D) (s : Saved D)
          (parts : Parts quantize positive batch t s)
          → All P batch
          → All (λ e. P e.1) parts.unique.0
      batch-All batch t s parts h = subst (OnOk (λ r. All (λ e. P e.1) r.0)) parts.merged (
          unique_actions-All P [] parts.actions tt
            (subst (OnOk (All P)) parts.made (canonical_all-All batch h)))

    rows_of-save_batch :
        (p : Action D → Bool) (batch : List (Action D)) (t : Table D) (s : Saved D)
        → ((a : Action D) (x y : D)
            → p a ≡ false
            → p (record a { price_factor = x; volume_factor = y }) ≡ false)
        → All (λ a. p a ≡ false) batch
        → save_batch quantize positive batch t ≡ ok s
        → rows_of p s.table ≡ rows_of p t
    rows_of-save_batch p batch t s stable n h =
        let parts = save_batch-Parts quantize positive batch t s h in
        ap (λ r. rows_of p r.table) (sym parts.result)
        ∙ subst (OnOk (λ r. rows_of p r.table ≡ rows_of p t)) parts.stored (
            rows_of-store p parts.unique.0 t
              (batch-All (λ a. p a ≡ false) stable batch t s parts n))

    -- Saving a batch whose actions all became known after a point in time does not change what
    -- was known of a symbol at that point.
    pub list_known-save_batch :
        ⦃o : Order RowOrder⦄ (symbol : String) (as_of : Datetime) (batch : List (Action D))
        (t : Table D) (s : Saved D)
        → All (λ a. at_or_before a.known_at as_of ≡ false) batch
        → save_batch quantize positive batch t ≡ ok s
        → list_known symbol as_of s.table ≡ list_known symbol as_of t
    unfolding list_known
    list_known-save_batch symbol as_of batch t s late h =
        let known : Action D → Bool = λ a. a.symbol == symbol && at_or_before a.known_at as_of in
        ap
          (λ rows.
            require_aware as_of
            >> ok (
                sort {K = RowOrder}
                  (λ a. (a.effective_at.instant, (a.source, (a.event_id, a.revision)))) rows))
          (rows_of-save_batch known batch t s (λ a x y k. k)
            (All-map _ _ batch (λ a l. ground (arith, l)) late) h)

    -- After a batch is saved each row stood there before, or is an action of the batch up to its
    -- factors.
    pub save_batch-origin :
        (P : Action D → Type 0)
        → ((a : Action D) (x y : D) → P a → P (record a { price_factor = x; volume_factor = y }))
        → (batch : List (Action D)) (t : Table D) → All P batch
        → OnOk
            (λ s.
              (k : Key) (row : Action D)
              → lookup k s.table ≡ some row
              → (lookup k t ≡ some row) ⊎ P row)
            (save_batch quantize positive batch t)
    save_batch-origin P stable batch t h =
        OnOk-intro _ (save_batch quantize positive batch t) (λ s saved k row found.
          let parts = save_batch-Parts quantize positive batch t s saved in
          elim (new_from_batch quantize positive batch t s parts k row found) [
            | inl before ↦ inl before
            | inr o ↦ inr (
                All-Occurs (λ e. P e.1) (k, row) parts.unique.0
                  (batch-All P stable batch t s parts h) o)
          ])
