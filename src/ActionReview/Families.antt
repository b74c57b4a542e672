-- ===== src/ActionReview/Families.antt =====
-- The families are a partition of the candidates.
use stockassist.Common.{
  ℕ, suc, ◌+◌, ◌≡◌, refl, sym, ap, subst, ◌∙◌, String, ◌==◌, nat_eq, string_eq, pair_eq, option_eq,
  Bool-cases, Option-cases, inl, inr, Option, none, some, List, [], ◌∷◌, ◌++◌, map, length,
  length-append, Occurs, Occurs-append_left, Occurs-append_right, All, Occurs-All, arith,
}
use stockassist.Common.Dict.{
  lookup, insert, lookup-insert, lookup-insert_self, lookup-Occurs, some_injective,
}
use stockassist.Common.Order.{nat_order}
use stockassist.Common.Text.{string_order, pair_order}
use stockassist.Common.Sort.{place, sort, length-sort, Occurs-sort}
use stockassist.ActionReview.{
  Candidate, RevisionGroup, Family, family_of, bucket, group_of, propose,
}

length-map : {A B : Type 0} (f : A → B) (xs : List A) → length (map f xs) ≡ length xs
length-map f [] = refl
length-map f (x ∷ xs) = ap suc (length-map f xs)

Occurs-map :
    {A B : Type 0} (f : A → B) (x : A) (xs : List A) → Occurs x xs → Occurs (f x) (map f xs)
Occurs-map f x (y ∷ ys) (inl e) = inl (ap f e)
Occurs-map f x (y ∷ ys) (inr o) = inr (Occurs-map f x ys o)
Occurs-map f x [] o = elim o [ ]

-- How many receipts the groups hold.
abbrev pub receipt_count : List RevisionGroup → ℕ
receipt_count [] = 0
receipt_count (g ∷ gs) = length g.receipt_nos + receipt_count gs

receipt_count-place :
    (g : RevisionGroup) (gs : List RevisionGroup)
    → receipt_count (place (λ h. h.group_hint) g gs) ≡ length g.receipt_nos + receipt_count gs
unfolding place
receipt_count-place g [] = refl
receipt_count-place g (h ∷ gs) = ground (arith, receipt_count-place g gs)

receipt_count-sort :
    (gs : List RevisionGroup) → receipt_count (sort (λ g. g.group_hint) gs) ≡ receipt_count gs
unfolding sort
receipt_count-sort [] = refl
receipt_count-sort (g ∷ gs) =
    receipt_count-place g (sort (λ h. h.group_hint) gs)
    ∙ ap (λ n. length g.receipt_nos + n) (receipt_count-sort gs)

abbrev Buckets : Type 0 → Type 0
Buckets D = List (Family × List (Candidate D))

module _ {D : Type 0} where
  abbrev filed : Family → Buckets D → List (Candidate D)
  filed k b = elim (lookup k b) [ none ↦ [] | some items ↦ items ]

  abbrev size : Buckets D → ℕ
  size [] = 0
  size ((k, items) ∷ b) = length items + size b

  size-insert :
      (k : Family) (c : Candidate D) (b : Buckets D) (items : List (Candidate D))
      → lookup k b ≡ some items
      → size (insert k (items ++ c ∷ []) b) ≡ suc (size b)
  size-insert k c [] items h = cc
  size-insert k c ((j, others) ∷ b) items h = elim (Bool-cases (j == k)) [
    | inl e ↦
        rw e (omega (arith, length-append items (c ∷ []), ap length (some_injective (rw e at h))))
    | inr e ↦ rw e (omega (arith, size-insert k c b items (rw e at h)))
  ]

  size-insert_new :
      (k : Family) (c : Candidate D) (b : Buckets D)
      → lookup k b ≡ none
      → size (insert k (c ∷ []) b) ≡ suc (size b)
  size-insert_new k c [] h = refl
  size-insert_new k c ((j, others) ∷ b) h = elim (Bool-cases (j == k)) [
    | inl e ↦ absurd (cc (rw e at h))
    | inr e ↦ rw e (omega (arith, size-insert_new k c b (rw e at h)))
  ]

  abbrev found_or : Option (List (Candidate D)) → List (Candidate D)
  found_or o = elim o [ none ↦ [] | some items ↦ items ]

  abbrev put : Family → Candidate D → Buckets D → Buckets D
  put k c b = insert k (filed k b ++ c ∷ []) b

  size-filed :
      (k : Family) (c : Candidate D) (b : Buckets D)
      → size (insert k (filed k b ++ c ∷ []) b) ≡ suc (size b)
  size-filed k c b = elim (Option-cases (lookup k b)) [
    | inl absent ↦
        subst (λ o. size (insert k (found_or o ++ c ∷ []) b) ≡ suc (size b)) (sym absent)
          (size-insert_new k c b absent)
    | inr (items, found) ↦
        subst (λ o. size (insert k (found_or o ++ c ∷ []) b) ≡ suc (size b)) (sym found)
          (size-insert k c b items found)
  ]

  -- The candidate stands in the bucket of the family.
  abbrev IsFiled : Family → Candidate D → Buckets D → Type 0
  IsFiled k c b = (items : List (Candidate D)) × (lookup k b ≡ some items) × Occurs c items

  IsFiled-self :
      (k : Family) (c : Candidate D) (b : Buckets D)
      → IsFiled k c (insert k (filed k b ++ c ∷ []) b)
  IsFiled-self k c b = (
    filed k b ++ c ∷ [],
    lookup-insert_self k (filed k b ++ c ∷ []) b,
    Occurs-append_right c (filed k b) (c ∷ []) (inl refl),
  )

  IsFiled-grown :
      (j : Family) (c x : Candidate D) (b : Buckets D)
      → IsFiled j c b
      → IsFiled j c (insert j (filed j b ++ x ∷ []) b)
  IsFiled-grown j c x b (items, found, o) = (
    filed j b ++ x ∷ [],
    lookup-insert_self j (filed j b ++ x ∷ []) b,
    Occurs-append_left c (filed j b) (x ∷ []) (subst (λ f. Occurs c (found_or f)) (sym found) o),
  )

  IsFiled-kept :
      (k j : Family) (c x : Candidate D) (b : Buckets D)
      → IsFiled k c b
      → IsFiled k c (insert j (filed j b ++ x ∷ []) b)
  IsFiled-kept k j c x b (items, found, o) = elim (Bool-cases (j == k)) [
    | inr other ↦ (items, lookup-insert j k (filed j b ++ x ∷ []) b ∙ rw other found, o)
    | inl same ↦
        subst (λ i. IsFiled i c b → IsFiled i c (insert j (filed j b ++ x ∷ []) b))
          ((pair_eq.beq_iff j k).0 same) (IsFiled-grown j c x b) (items, found, o)
  ]

  module _ (normalized : String → String) (digest : Family → String) where
    -- The bucket that the candidate is put in, and the bucket that it is then found in.
    bucket-IsFiled_kept :
        (k : Family) (c : Candidate D) (b : Buckets D) (cs : List (Candidate D))
        → IsFiled k c b
        → IsFiled k c (bucket normalized digest b cs)
    unfolding bucket
    bucket-IsFiled_kept k c b [] f = f
    bucket-IsFiled_kept k c b (x ∷ cs) f =
        bucket-IsFiled_kept k c (put (family_of normalized digest x) x b) cs
          (IsFiled-kept k (family_of normalized digest x) c x b f)

    bucket-IsFiled :
        (c : Candidate D) (b : Buckets D) (cs : List (Candidate D))
        → Occurs c cs
        → IsFiled (family_of normalized digest c) c (bucket normalized digest b cs)
    unfolding bucket
    bucket-IsFiled c b (x ∷ cs) (inl e) =
        subst (λ y. IsFiled (family_of normalized digest c) c (bucket normalized digest b (y ∷ cs)))
          e
          (bucket-IsFiled_kept (family_of normalized digest c) c
            (put (family_of normalized digest c) c b) cs
            (IsFiled-self (family_of normalized digest c) c b))
    bucket-IsFiled c b (x ∷ cs) (inr o) =
        bucket-IsFiled c (put (family_of normalized digest x) x b) cs o
    bucket-IsFiled c b [] o = elim o [ ]

    size-bucket :
        (b : Buckets D) (cs : List (Candidate D))
        → size (bucket normalized digest b cs) ≡ size b + length cs
    unfolding bucket
    size-bucket b [] = omega arith
    size-bucket b (x ∷ cs) = omega (
      arith,
      size-bucket
          (insert (family_of normalized digest x)
            (filed (family_of normalized digest x) b ++ x ∷ []) b)
          cs,
      size-filed (family_of normalized digest x) x b,
    )

    receipt_count-groups :
        (b : Buckets D) → receipt_count (map (group_of normalized digest) b) ≡ size b
    unfolding group_of
    receipt_count-groups [] = refl
    receipt_count-groups ((k, items) ∷ b) = omega (
      arith,
      length-map (λ c. c.receipt_no)
          (sort {K = ℕ × String} (λ c. (c.filed_on, c.receipt_no)) items),
      length-sort {K = ℕ × String} (λ c. (c.filed_on, c.receipt_no)) items,
      receipt_count-groups b,
    )

    -- The group of the candidate's source, symbol and type that lists its receipt.
    pub record IsGrouped (c : Candidate D) (groups : List RevisionGroup) : Type 0 where
      pub group : RevisionGroup
      pub proposed : Occurs group groups
      pub listed : Occurs c.receipt_no group.receipt_nos
      pub source : group.source ≡ c.source
      pub symbol : group.symbol ≡ c.symbol
      pub action_type : group.action_type ≡ c.action_type

    propose-IsGrouped :
        (cs : List (Candidate D)) (c : Candidate D)
        → Occurs c cs
        → IsGrouped c (propose normalized digest cs)
    unfolding propose group_of family_of
    propose-IsGrouped cs c o =
        let (items, found, inside) = bucket-IsFiled c [] cs o in
        record {
          group = group_of normalized digest (family_of normalized digest c, items);
          proposed =
              Occurs-sort (λ g. g.group_hint) _ _
                (Occurs-map (group_of normalized digest) (family_of normalized digest c, items)
                  (bucket normalized digest [] cs)
                  (lookup-Occurs (family_of normalized digest c) items
                    (bucket normalized digest [] cs) found));
          listed =
              Occurs-map (λ d. d.receipt_no) c _
                (Occurs-sort {K = ℕ × String} (λ d. (d.filed_on, d.receipt_no)) c items inside);
          source = refl;
          symbol = refl;
          action_type = refl;
        }

    -- The proposed groups divide the candidates: together they list as many receipts as there are
    -- candidates, and each candidate's receipt stands in a group of its source, symbol and type.
    pub propose-partition :
        (cs : List (Candidate D))
        → (receipt_count (propose normalized digest cs) ≡ length cs)
          × All (λ c. IsGrouped c (propose normalized digest cs)) cs
    unfolding propose
    propose-partition cs = (
      receipt_count-sort (map (group_of normalized digest) (bucket normalized digest [] cs))
          ∙ receipt_count-groups (bucket normalized digest [] cs)
          ∙ size-bucket [] cs
          ∙ omega arith,
      Occurs-All _ cs (propose-IsGrouped cs),
    )
