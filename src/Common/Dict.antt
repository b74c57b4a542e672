-- ===== src/Common/Dict.antt =====
-- Python's dict: an association list in insertion order. A write to a present key keeps its
-- place, a new key goes to the end.
use stockassist.Common.Eq.{BoolEq, ◌==◌}
use stockassist.Common.Tests.{if◌then◌else◌, Bool-cases}
use stockassist.Common.Lists.{length, All, All-map, Occurs}
use Prim.Native.Nat.{suc, ◌+◌, ◌≤◌}
use mathlib.Core.Path.{◌≡◌, refl, ap, sym, ◌∙◌}
use mathlib.Core.Logic.{inl, inr, ◌⊎◌}
use mathlib.Core.Option.{Option, none, some}
use mathlib.Core.List.{List, [], ◌∷◌, ◌++◌}
use native.Mathlib.Omega.{arith}

module _ {ℓ} {K : Type 0} {V : Type ℓ} ⦃e : BoolEq K⦄ where
  abbrev pub lookup : K → List (K × V) → Option V
  lookup k [] = none
  lookup k ((j, v) ∷ m) = if j == k then some v else lookup k m

  abbrev pub insert : K → V → List (K × V) → List (K × V)
  insert k v [] = (k, v) ∷ []
  insert k v ((j, w) ∷ m) = let rest = insert k v m in if j == k then (j, v) ∷ m else (j, w) ∷ rest

  abbrev pub erase : K → List (K × V) → List (K × V)
  erase k [] = []
  erase k ((j, w) ∷ m) = let rest = erase k m in if j == k then rest else (j, w) ∷ rest

  -- No key stands twice.
  abbrev pub Distinct : List (K × V) → Type ℓ
  Distinct [] = Unit
  Distinct ((k, v) ∷ m) = (lookup k m ≡ none) × Distinct m

  pub lookup-insert :
      (k j : K) (v : V) (m : List (K × V))
      → lookup j (insert k v m) ≡ (if k == j then some v else lookup j m)
  lookup-insert k j v [] = refl
  lookup-insert k j v ((i, w) ∷ m) =
      ground (arith, e.beq_iff k j, e.beq_iff i k, e.beq_iff i j, lookup-insert k j v m)

  pub lookup-erase :
      (k j : K) (m : List (K × V)) → lookup j (erase k m) ≡ (if k == j then none else lookup j m)
  lookup-erase k j [] = ground arith
  lookup-erase k j ((i, w) ∷ m) =
      ground (arith, e.beq_iff k j, e.beq_iff i k, e.beq_iff i j, lookup-erase k j m)

  pub insert-Distinct : (k : K) (v : V) (m : List (K × V)) → Distinct m → Distinct (insert k v m)
  insert-Distinct k v [] d = (refl, tt)
  insert-Distinct k v ((i, w) ∷ m) d =
      ground (arith, e.beq_iff i k, e.beq_iff k i, lookup-insert k i v m, insert-Distinct k v m d.1)

  pub erase-Distinct : (k : K) (m : List (K × V)) → Distinct m → Distinct (erase k m)
  erase-Distinct k [] d = tt
  erase-Distinct k ((i, w) ∷ m) d =
      ground (arith, e.beq_iff k i, lookup-erase k i m, erase-Distinct k m d.1)

  pub length-insert :
      (k : K) (v : V) (m : List (K × V))
      → length (insert k v m) ≡ length m + (elim (lookup k m) [ none ↦ 1 | some _ ↦ 0 ])
  length-insert k v [] = omega arith
  length-insert k v ((i, w) ∷ m) = ground (arith, length-insert k v m)

  pub length-erase : (k : K) (m : List (K × V)) → length (erase k m) ≤ length m
  length-erase k [] = omega arith
  length-erase k ((i, w) ∷ m) = ground (arith, length-erase k m)

  pub lookup-insert_self : (k : K) (v : V) (m : List (K × V)) → lookup k (insert k v m) ≡ some v
  lookup-insert_self k v m =
      lookup-insert k k v m ∙ ap (λ b. if b then some v else lookup k m) ((e.beq_iff k k).1 refl)

  pub length-insert_new :
      (k : K) (v : V) (m : List (K × V))
      → lookup k m ≡ none
      → length (insert k v m) ≡ suc (length m)
  length-insert_new k v m h = ground (arith, length-insert k v m)

  -- A write under a new key keeps what was there.
  pub insert_keeps :
      (k j : K) (v w : V) (m : List (K × V))
      → lookup k m ≡ none
      → lookup j m ≡ some w
      → lookup j (insert k v m) ≡ some w
  insert_keeps k j v w m absent found = elim (Bool-cases (k == j)) [
    | inr other ↦ lookup-insert k j v m ∙ ap (λ b. if b then some v else lookup j m) other ∙ found
    | inl same ↦ absurd (cc (sym absent ∙ ap (λ i. lookup i m) ((e.beq_iff k j).0 same) ∙ found))
  ]

  -- A read of a joined dict: the first part answers if it has the key.
  pub lookup-append :
      (k : K) (m n : List (K × V))
      → lookup k (m ++ n) ≡ elim (lookup k m) [ none ↦ lookup k n | some v ↦ some v ]
  lookup-append k [] n = refl
  lookup-append k ((i, w) ∷ m) n = ground (arith, lookup-append k m n)

  pub append-Distinct :
      (m : List (K × V)) (k : K) (v : V)
      → Distinct m
      → lookup k m ≡ none
      → Distinct (m ++ (k, v) ∷ [])
  append-Distinct [] k v d h = (refl, tt)
  append-Distinct ((i, w) ∷ m) k v d h = ground (
    arith,
    e.beq_iff i k,
    e.beq_iff k i,
    lookup-append i m ((k, v) ∷ []),
    append-Distinct m k v d.1,
  )

  pub length-erase_present :
      (k : K) (v : V) (m : List (K × V)) → lookup k m ≡ some v → suc (length (erase k m)) ≤ length m
  length-erase_present k v [] h = cc
  length-erase_present k v ((i, w) ∷ m) h =
      ground (arith, length-erase k m, length-erase_present k v m)

  lookup-cons_other :
      (i k : K) (w v : V) (m : List (K × V))
      → lookup i m ≡ none
      → lookup k m ≡ some v
      → lookup k ((i, w) ∷ m) ≡ some v
  lookup-cons_other i k w v m h p = ground (arith, e.beq_iff i k)

  lookups_from :
      (i : K) (w : V) (m n : List (K × V))
      → lookup i m ≡ none
      → All (λ p. lookup p.0 m ≡ some p.1) n
      → All (λ p. lookup p.0 ((i, w) ∷ m) ≡ some p.1) n
  lookups_from i w m n h a = All-map _ _ n (λ p q. lookup-cons_other i p.0 w p.1 m h q) a

  -- Each entry is the one that its key finds.
  pub Distinct-lookups : (m : List (K × V)) → Distinct m → All (λ p. lookup p.0 m ≡ some p.1) m
  Distinct-lookups [] d = tt
  Distinct-lookups ((i, w) ∷ m) d =
      (ground (arith, e.beq_iff i i), lookups_from i w m m d.0 (Distinct-lookups m d.1))

  pub insert-All {κ} :
      (P : K × V → Type κ) (k : K) (v : V) (m : List (K × V))
      → P (k, v)
      → All P m
      → All P (insert k v m)
  insert-All P k v [] h a = (h, tt)
  insert-All P k v ((i, w) ∷ m) h a = elim (Bool-cases (i == k)) [
    | inl same ↦ rw same (rw (← (e.beq_iff i k).0 same) at h, a.1)
    | inr other ↦ rw other (a.0, insert-All P k v m h a.1)
  ]

or_default : {V : Type 0} → V → Option V → V
or_default v none = v
or_default v (some w) = w

pub some_injective : {V : Type 0} {v w : V} → some v ≡ some w → v ≡ w
unfolding or_default
some_injective {v = v} h = ap (or_default v) h

module _ {K V : Type 0} ⦃e : BoolEq K⦄ where
  pub lookup-Occurs : (k : K) (v : V) (m : List (K × V)) → lookup k m ≡ some v → Occurs (k, v) m
  lookup-Occurs k v [] h = cc
  lookup-Occurs k v ((i, w) ∷ m) h = ground (arith, e.beq_iff i k, lookup-Occurs k v m)

  -- What is found after a write was written or was there before.
  pub lookup-insert_cases :
      (k j : K) (v w : V) (m : List (K × V))
      → lookup j (insert k v m) ≡ some w
      → (lookup j m ≡ some w) ⊎ ((j ≡ k) × (w ≡ v))
  lookup-insert_cases k j v w m h = elim (Bool-cases (k == j)) [
    | inr other ↦
        inl
          (ap (λ b. if b then some v else lookup j m) (sym other) ∙ sym (lookup-insert k j v m) ∙ h)
    | inl same ↦ inr (
      sym ((e.beq_iff k j).0 same),
      some_injective
          (sym h ∙ lookup-insert k j v m ∙ ap (λ b. if b then some v else lookup j m) same),
    )
  ]
