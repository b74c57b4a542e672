-- ===== src/RateLimit/Bucket.antt =====
-- The deques of the limiter: what pruning and sweeping leave of them.
use stockassist.Common.{
  ℕ, suc, ◌+◌, ◌≤◌, ◌≡◌, refl, ap, String, Bool, false, none, some, List, [], ◌∷◌, ◌++◌, leb, ltb,
  if◌then◌else◌, ◌==◌, string_eq, length, keep, All, All-append, Bool-cases, inl, inr, arith,
}
use stockassist.Common.Dict.{lookup, Distinct}
use text.Mathlib.TextEquality.{eq_iff}
use stockassist.RateLimit.{prune, sweep, keep_slot}

-- The times of the window `(now - span, now]`.
abbrev pub is_recent : ℕ → ℕ → ℕ → Bool
is_recent now span t = ltb now (t + span)

abbrev pub recent : ℕ → ℕ → List ℕ → List ℕ
recent now span = keep (is_recent now span)

-- A deque in the order of the clock readings.
abbrev pub Ascending : List ℕ → Type 0
Ascending [] = Unit
Ascending (t ∷ ts) = All (λ u. t ≤ u) ts × Ascending ts

abbrev pub bucket : String → List (String × List ℕ) → List ℕ
bucket key m = elim (lookup key m) [ none ↦ [] | some ts ↦ ts ]

recent-All :
    (now span t : ℕ) (ts : List ℕ)
    → now + 1 ≤ t + span
    → All (λ u. t ≤ u) ts
    → recent now span ts ≡ ts
recent-All now span t [] h a = refl
recent-All now span t (u ∷ us) h a = ground (arith, recent-All now span t us h a.1)

-- In a deque in order the loop of `_prune` removes exactly what has left the window.
pub prune-recent :
    (now span : ℕ) (ts : List ℕ) → Ascending ts → prune now span ts ≡ recent now span ts
unfolding prune
prune-recent now span [] a = refl
prune-recent now span (t ∷ ts) a = elim (Bool-cases (leb (t + span) now)) [
  | inl out ↦ ground (arith, prune-recent now span ts a.1)
  | inr into ↦ ground (arith, recent-All now span t ts (ground arith) a.0)
]

pub prune-All {ℓ} :
    (P : ℕ → Type ℓ) (now span : ℕ) (ts : List ℕ) → All P ts → All P (prune now span ts)
unfolding prune
prune-All P now span [] a = tt
prune-All P now span (t ∷ ts) a = elim (Bool-cases (leb (t + span) now)) [
  | inl out ↦ rw out (prune-All P now span ts a.1)
  | inr into ↦ rw into a
]

pub prune-Ascending : (now span : ℕ) (ts : List ℕ) → Ascending ts → Ascending (prune now span ts)
unfolding prune
prune-Ascending now span [] a = tt
prune-Ascending now span (t ∷ ts) a = elim (Bool-cases (leb (t + span) now)) [
  | inl out ↦ rw out (prune-Ascending now span ts a.1)
  | inr into ↦ rw into a
]

pub length-prune-le : (now span : ℕ) (ts : List ℕ) → length (prune now span ts) ≤ length ts
unfolding prune
length-prune-le now span [] = omega arith
length-prune-le now span (t ∷ ts) = ground (arith, length-prune-le now span ts)

pub append-Ascending :
    (ts : List ℕ) (now : ℕ) → Ascending ts → All (λ u. u ≤ now) ts → Ascending (ts ++ now ∷ [])
append-Ascending [] now a b = (tt, tt)
append-Ascending (t ∷ ts) now a b =
    (All-append _ ts (now ∷ []) a.0 (b.0, tt), append-Ascending ts now a.1 b.1)

-- What is recent later was recent before.
pub recent-recent :
    (last now span : ℕ) (ts : List ℕ)
    → last ≤ now
    → recent now span (recent last span ts) ≡ recent now span ts
recent-recent last now span [] h = refl
recent-recent last now span (t ∷ ts) h = ground (arith, recent-recent last now span ts h)

pub recent-append :
    (now span : ℕ) (xs ys : List ℕ)
    → recent now span (xs ++ ys) ≡ recent now span xs ++ recent now span ys
recent-append now span [] ys = refl
recent-append now span (x ∷ xs) ys = ground (arith, recent-append now span xs ys)

bucket-keep_slot :
    (key k : String) (ts : List ℕ) (m : List (String × List ℕ))
    → (k ≡ key → bucket key m ≡ [])
    → bucket key (keep_slot k ts m) ≡ (if k == key then ts else bucket key m)
unfolding keep_slot
bucket-keep_slot key k [] m h = elim (Bool-cases (k == key)) [
  | inl same ↦ rw same (h ((eq_iff k key).0 same))
  | inr other ↦ rw other
]
bucket-keep_slot key k (t ∷ ts) m h = ground arith

keep_slot-absent :
    (key k : String) (ts : List ℕ) (m : List (String × List ℕ))
    → lookup key m ≡ none
    → (k == key) ≡ false
    → lookup key (keep_slot k ts m) ≡ none
unfolding keep_slot
keep_slot-absent key k [] m h other = h
keep_slot-absent key k (t ∷ ts) m h other = rw other h

pub sweep-absent :
    (now span : ℕ) (key : String) (m : List (String × List ℕ))
    → lookup key m ≡ none
    → lookup key (sweep now span m) ≡ none
unfolding sweep
sweep-absent now span key [] h = refl
sweep-absent now span key ((k, ts) ∷ m) h = elim (Bool-cases (k == key)) [
  | inl same ↦ cc (rw same at h)
  | inr other ↦
      keep_slot-absent key k (prune now span ts) (sweep now span m)
        (sweep-absent now span key m (rw other at h)) other
]

-- A sweep prunes each deque, the key's too, and does nothing else that a read can see.
pub bucket-sweep :
    (now span : ℕ) (key : String) (m : List (String × List ℕ))
    → Distinct m
    → bucket key (sweep now span m) ≡ prune now span (bucket key m)
unfolding sweep prune
bucket-sweep now span key [] d = refl
bucket-sweep now span key ((k, ts) ∷ m) d = ground (
  arith,
  bucket-keep_slot key k (prune now span ts) (sweep now span m)
      (λ e. rw (sweep-absent now span key m (rw e at d.0), bucket)),
  eq_iff k key,
  ap (prune now span) {x = bucket key ((k, ts) ∷ m)} refl,
  bucket-sweep now span key m d.1,
)

pub sweep-Distinct :
    (now span : ℕ) (m : List (String × List ℕ)) → Distinct m → Distinct (sweep now span m)
unfolding sweep
sweep-Distinct now span [] d = tt
sweep-Distinct now span ((k, ts) ∷ m) d =
    slot (prune now span ts) (sweep-absent now span k m d.0) (sweep-Distinct now span m d.1)
  where
    slot :
        (us : List ℕ)
        → lookup k (sweep now span m) ≡ none
        → Distinct (sweep now span m)
        → Distinct (keep_slot k us (sweep now span m))
    slot [] h e = e
    slot (u ∷ us) h e = (h, e)

pub length-sweep-le :
    (now span : ℕ) (m : List (String × List ℕ)) → length (sweep now span m) ≤ length m
unfolding sweep
length-sweep-le now span [] = omega arith
length-sweep-le now span ((k, ts) ∷ m) = slot (prune now span ts) (length-sweep-le now span m)
  where
    slot :
        (us : List ℕ)
        → length (sweep now span m) ≤ length m
        → length (keep_slot k us (sweep now span m)) ≤ suc (length m)
    slot [] h = omega arith
    slot (u ∷ us) h = omega arith
