-- ===== src/Common/Sort.antt =====
-- `sorted(items, key=key)`: a stable insertion sort.
use Prim.Native.Nat.{suc}
use mathlib.Core.Path.{◌≡◌, refl, ap, ◌∙◌}
use mathlib.Core.Bool.{true, false}
use mathlib.Core.Logic.{◌⊎◌, inl, inr}
use mathlib.Core.List.{List, [], ◌∷◌}
use native.Mathlib.Omega.{arith}
use stockassist.Common.Tests.{if◌then◌else◌, Bool-cases}
use stockassist.Common.Lists.{length, All, All-map, Occurs}
use stockassist.Common.Order.{Order}

module _ {A K : Type 0} ⦃o : Order K⦄ (key : A → K) where
  -- Behind the items with a smaller or equal key would break ties the other way: an item that
  -- stood earlier stays earlier.
  unfoldable pub place : A → List A → List A
  place x [] = x ∷ []
  place x (y ∷ ys) = let rest = place x ys in if o.le (key x) (key y) then x ∷ y ∷ ys else y ∷ rest

  unfoldable pub sort : List A → List A
  unfolding place
  sort [] = []
  sort (x ∷ xs) = place x (sort xs)

  abbrev pub AllBelow : A → List A → Type 0
  AllBelow x = All (λ y. o.le (key x) (key y) ≡ true)

  abbrev pub IsSorted : List A → Type 0
  IsSorted [] = Unit
  IsSorted (x ∷ xs) = AllBelow x xs × IsSorted xs

  pub All-place {ℓ} : (P : A → Type ℓ) (x : A) (ys : List A) → P x → All P ys → All P (place x ys)
  unfolding place
  All-place P x [] h t = (h, tt)
  All-place P x (y ∷ ys) h t = elim (Bool-cases (o.le (key x) (key y))) [
    | inl p ↦ rw p (h, t)
    | inr p ↦ rw p (t.0, All-place P x ys h t.1)
  ]

  pub All-sort {ℓ} : (P : A → Type ℓ) (xs : List A) → All P xs → All P (sort xs)
  unfolding sort
  All-sort P [] h = tt
  All-sort P (x ∷ xs) h = All-place P x (sort xs) h.0 (All-sort P xs h.1)

  place-IsSorted : (x : A) (ys : List A) → IsSorted ys → IsSorted (place x ys)
  unfolding place
  place-IsSorted x [] s = (tt, tt)
  place-IsSorted x (y ∷ ys) s = elim (Bool-cases (o.le (key x) (key y))) [
    | inl p ↦ rw p ((p, All-map _ _ ys (λ z h. o.trans (key x) (key y) (key z) p h) s.0), s)
    | inr p ↦
        rw p
          (All-place (λ z. o.le (key y) (key z) ≡ true) x ys (other p) s.0, place-IsSorted x ys s.1)
  ]
    where
      other : o.le (key x) (key y) ≡ false → o.le (key y) (key x) ≡ true
      other p = elim (o.total (key x) (key y)) [ inl q ↦ cc | inr q ↦ q ]

  pub sort-IsSorted : (xs : List A) → IsSorted (sort xs)
  unfolding sort
  sort-IsSorted [] = tt
  sort-IsSorted (x ∷ xs) = place-IsSorted x (sort xs) (sort-IsSorted xs)

  place-below : (x : A) (ys : List A) → AllBelow x ys → place x ys ≡ x ∷ ys
  unfolding place
  place-below x [] h = refl
  place-below x (y ∷ ys) h = rw h.0

  -- Sorting what is sorted changes nothing.
  pub sort_of_IsSorted : (xs : List A) → IsSorted xs → sort xs ≡ xs
  unfolding sort
  sort_of_IsSorted [] s = refl
  sort_of_IsSorted (x ∷ xs) s = rw (sort_of_IsSorted xs s.1) (place-below x xs s.0)

  length-place : (x : A) (ys : List A) → length (place x ys) ≡ suc (length ys)
  unfolding place
  length-place x [] = refl
  length-place x (y ∷ ys) = ground (arith, length-place x ys)

  pub length-sort : (xs : List A) → length (sort xs) ≡ length xs
  unfolding sort
  length-sort [] = refl
  length-sort (x ∷ xs) = length-place x (sort xs) ∙ ap suc (length-sort xs)

  Occurs-place : (x : A) (y : A) (ys : List A) → (x ≡ y) ⊎ Occurs x ys → Occurs x (place y ys)
  unfolding place
  Occurs-place x y [] o = o
  Occurs-place x y (z ∷ zs) o = ground (arith, Occurs-place x y zs)

  pub Occurs-sort : (x : A) (xs : List A) → Occurs x xs → Occurs x (sort xs)
  unfolding sort
  Occurs-sort x [] o = o
  Occurs-sort x (y ∷ ys) (inl e) = Occurs-place x y (sort ys) (inl e)
  Occurs-sort x (y ∷ ys) (inr o) = Occurs-place x y (sort ys) (inr (Occurs-sort x ys o))
