-- ===== src/Common/Outcome.antt =====
-- The result of code that raises: a value, or the exception.
use mathlib.Core.Path.{◌≡◌, refl, ap}
use mathlib.Core.Logic.{◌⊎◌, inl, inr}
use mathlib.Core.Bool.{Bool, true, false}
use mathlib.Core.Option.{Option, none, some}

pub data Result (E A : Type 0) : Type 0 where
  ok : A → Result E A
  err : E → Result E A

infixl 5 ◌>>=◌ ◌>>◌
abbrev pub ◌>>=◌ : {E A B : Type 0} → Result E A → (A → Result E B) → Result E B
ok a >>= f = f a
err e >>= f = err e

abbrev pub ◌>>◌ : {E A B : Type 0} → Result E A → Result E B → Result E B
m >> k = m >>= λ _. k

-- `if not test: raise e`
abbrev pub require : {E : Type 0} → Bool → E → Result E (Unit {0})
require true e = ok tt
require false e = err e

pub Result-cases :
    {E A : Type 0} (r : Result E A) → ((a : A) × (r ≡ ok a)) ⊎ ((e : E) × (r ≡ err e))
Result-cases (ok a) = inl (a, refl)
Result-cases (err e) = inr (e, refl)

-- A chain that returns: what its first part returned, and the rest.
pub returned_parts :
    {E A B : Type 0} (r : Result E A) (next : A → Result E B) (b : B)
    → (r >>= next) ≡ ok b
    → (first : A) × (r ≡ ok first) × (next first ≡ ok b)
returned_parts (err e) next b raised = cc
returned_parts (ok first) next b fine = (first, refl, fine)

-- What holds of the value, if there is one.
abbrev pub OnOk {κ} : {E A : Type 0} → (A → Type κ) → Result E A → Type κ
OnOk P (ok a) = P a
OnOk P (err e) = Unit

pub OnOk->> {κ} :
    {E A B : Type 0} (P : B → Type κ) (m : Result E A) (k : Result E B)
    → OnOk P k
    → OnOk P (m >>= λ _. k)
OnOk->> P (ok a) k h = h
OnOk->> P (err e) k h = tt

-- Behind a passed test.
pub OnOk-require {κ} :
    {E B : Type 0} (P : B → Type κ) (test : Bool) (e : E) (k : Result E B)
    → (test ≡ true → OnOk P k)
    → OnOk P (require test e >>= λ _. k)
OnOk-require P true e k h = h refl
OnOk-require P false e k h = tt

pub OnOk->>= {κ} :
    {E A B : Type 0} (P : A → Type κ) (Q : B → Type κ) (m : Result E A) (f : A → Result E B)
    → OnOk P m
    → ((a : A) → P a → OnOk Q (f a))
    → OnOk Q (m >>= f)
OnOk->>= P Q (ok a) f h k = k a h
OnOk->>= P Q (err e) f h k = tt

pub OnOk-all {κ} :
    {E A J : Type 0} (P : J → A → Type κ) (r : Result E A)
    → ((j : J) → OnOk (P j) r)
    → OnOk (λ a. (j : J) → P j a) r
OnOk-all P (ok a) h = h
OnOk-all P (err e) h = tt

pub OnOk-× {κ μ} :
    {E A : Type 0} (P : A → Type κ) (Q : A → Type μ) (r : Result E A)
    → OnOk P r
    → OnOk Q r
    → OnOk (λ a. P a × Q a) r
OnOk-× P Q (ok a) p q = (p, q)
OnOk-× P Q (err e) p q = tt

pub OnOk-map {κ μ} :
    {E A : Type 0} (P : A → Type κ) (Q : A → Type μ) (r : Result E A)
    → OnOk P r
    → ((a : A) → P a → Q a)
    → OnOk Q r
OnOk-map P Q (ok a) h f = f a h
OnOk-map P Q (err e) h f = tt

value_or : {E A : Type 0} → A → Result E A → A
value_or a (ok b) = b
value_or a (err e) = a

pub ok_injective : {E A : Type 0} {a b : A} → ◌≡◌ {A = Result E A} (ok a) (ok b) → a ≡ b
unfolding value_or
ok_injective {a = a} h = ap (value_or a) h

pub OnOk-anything : {E A : Type 0} (r : Result E A) → OnOk (λ _. Unit {0}) r
OnOk-anything (ok a) = tt
OnOk-anything (err e) = tt

-- A step of a chain, of which nothing has to be known.
pub OnOk-after {κ} :
    {E A B : Type 0} (Q : B → Type κ) (m : Result E A) (f : A → Result E B)
    → ((a : A) → OnOk Q (f a))
    → OnOk Q (m >>= f)
OnOk-after Q (ok a) f k = k a
OnOk-after Q (err e) f k = tt

pub OnOk-intro {κ} :
    {E A : Type 0} (P : A → Type κ) (r : Result E A) → ((a : A) → r ≡ ok a → P a) → OnOk P r
OnOk-intro P (ok a) f = f a refl
OnOk-intro P (err e) f = tt

-- `except E as exc: raise F(...) from exc`
abbrev pub map_err : {E F A : Type 0} → (E → F) → Result E A → Result F A
map_err f (ok a) = ok a
map_err f (err e) = err (f e)

pub OnOk-map_err {κ} :
    {E F A : Type 0} (P : A → Type κ) (f : E → F) (r : Result E A) → OnOk P r → OnOk P (map_err f r)
OnOk-map_err P f (ok a) h = h
OnOk-map_err P f (err e) h = tt

pub map_err-ok :
    {E F A : Type 0} (f : E → F) (r : Result E A) (a : A)
    → ◌≡◌ {A = Result F A} (map_err f r) (ok a)
    → r ≡ ok a
map_err-ok f (ok b) a h = ap ok (ok_injective h)
map_err-ok f (err e) a h = cc

pub required_true :
    {E : Type 0} (test : Bool) (e : E) (u : Unit {0}) → require test e ≡ ok u → test ≡ true
required_true true e u h = refl
required_true false e u h = cc

pub found_some :
    {E A : Type 0} (o : Option A) (e : E) (a : A)
    → ◌≡◌ {A = Result E A} (elim o [ none ↦ err e | some x ↦ ok x ]) (ok a)
    → o ≡ some a
found_some none e a h = cc
found_some (some b) e a h = ap some (ok_injective h)
