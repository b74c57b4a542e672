-- ===== src/Common/Text.antt =====
-- Python's order on texts, by code points, and the lexicographic order on tuples.
use Prim.Native.Nat.{ℕ}
use Prim.Native.Char.{code}
use Prim.Native.String.{String}
use mathlib.Core.Path.{◌≡◌}
use mathlib.Core.Logic.{◌⊎◌, inl, inr}
use mathlib.Core.Bool.{Bool, true, false}
use mathlib.Core.List.{List, [], ◌∷◌}
use mathlib.Core.Path.{refl}
use native.Mathlib.Omega.{arith}
use stockassist.Common.Tests.{ltb, if◌then◌else◌}
use stockassist.Common.Order.{Order}

abbrev pub codes : String → List ℕ
codes String.[] = []
codes (String.◌∷◌ c s) = code c ∷ codes s

unfoldable pub lex_le : List ℕ → List ℕ → Bool
lex_le [] ys = true
lex_le (x ∷ xs) [] = false
lex_le (x ∷ xs) (y ∷ ys) =
    let rest = lex_le xs ys in if ltb x y then true else if ltb y x then false else rest

lex_total : (xs ys : List ℕ) → (lex_le xs ys ≡ true) ⊎ (lex_le ys xs ≡ true)
unfolding lex_le
lex_total [] ys = inl refl
lex_total (x ∷ xs) [] = inr refl
lex_total (x ∷ xs) (y ∷ ys) = ground (arith, lex_total xs ys)

lex_trans : (xs ys zs : List ℕ) → lex_le xs ys ≡ true → lex_le ys zs ≡ true → lex_le xs zs ≡ true
unfolding lex_le
lex_trans [] ys zs h k = refl
lex_trans (x ∷ xs) [] zs h k = cc
lex_trans (x ∷ xs) (y ∷ ys) [] h k = k
lex_trans (x ∷ xs) (y ∷ ys) (z ∷ zs) h k = ground (arith, lex_trans xs ys zs)

pub string_total :
    (s t : String) → (lex_le (codes s) (codes t) ≡ true) ⊎ (lex_le (codes t) (codes s) ≡ true)
string_total s t = lex_total (codes s) (codes t)

pub string_trans :
    (s t u : String)
    → lex_le (codes s) (codes t) ≡ true
    → lex_le (codes t) (codes u) ≡ true
    → lex_le (codes s) (codes u) ≡ true
string_trans s t u = lex_trans (codes s) (codes t) (codes u)

instance abbrev pub string_order : Order String
string_order = record {
  le = λ s t. lex_le (codes s) (codes t);
  total = string_total;
  trans = string_trans;
}

module _ {A B : Type 0} ⦃o : Order A⦄ ⦃p : Order B⦄ where
  abbrev pair_le : A × B → A × B → Bool
  pair_le (a, b) (c, d) = if o.le a c then (if o.le c a then p.le b d else true) else false

  pub pair_total : (s t : A × B) → (pair_le s t ≡ true) ⊎ (pair_le t s ≡ true)
  pair_total (a, b) (c, d) = ground (arith, o.total a c, p.total b d)

  pub pair_trans : (s t u : A × B) → pair_le s t ≡ true → pair_le t u ≡ true → pair_le s u ≡ true
  pair_trans (a, b) (c, d) (e, f) h k =
      ground (arith, o.trans a c e, o.trans e a c, o.trans c e a, p.trans b d f)

  instance abbrev pub pair_order : Order (A × B)
  pair_order = record { le = pair_le; total = pair_total; trans = pair_trans }
