-- ===== src/RateLimit/Invariant.antt =====
-- The limiter never holds more keys than it may, nor a key twice, whatever is called on it.
use stockassist.Common.{
  ℕ, ◌+◌, ◌*◌, ◌%◌, ◌≤◌, ◌≡◌, refl, String, Bool, true, false, Option, none, some, List, [], ◌∷◌,
  ◌++◌, leb, if◌then◌else◌, ◌==◌, string_eq, nat_eq, length, drop, length-append, ok, err, OnOk,
  ◌&&◌, subst, Bool-cases, Option-cases, inl, inr, arith,
}
use stockassist.Common.Dict.{
  lookup, erase, Distinct, erase-Distinct, append-Distinct, lookup-erase, length-erase,
  length-erase_present,
}
use text.Mathlib.TextPositions.{eq_refl}
use stockassist.RateLimit.{
  Limiter, init, report, claim, decide_request, sweep, prune, consume_at, consume, is_limited,
  clear, key_count,
}
use stockassist.RateLimit.Bucket.{sweep-Distinct, length-sweep-le}

pub record IsValid (l : Limiter) : Type 0 where
  pub positive : 1 ≤ l.max_keys
  pub bounded : key_count l ≤ l.max_keys
  pub distinct : Distinct l.requests

-- What `claim` leaves: room for the key, and no entry of it.
pub record IsRoom (key : String) (max_keys : ℕ) (others : List (String × List ℕ)) : Type 0 where
  pub distinct : Distinct others
  pub absent : lookup key others ≡ none
  pub room : length others + 1 ≤ max_keys

drop-Distinct : (m : List (String × List ℕ)) → Distinct m → Distinct (drop 1 m)
drop-Distinct [] d = tt
drop-Distinct (p ∷ m) d = d.1

drop-absent :
    (key : String) (m : List (String × List ℕ)) → lookup key m ≡ none → lookup key (drop 1 m) ≡ none
drop-absent key [] h = refl
drop-absent key ((k, ts) ∷ m) h = ground arith

length-drop_one :
    (m : List (String × List ℕ)) (n : ℕ) → length m ≤ n → 1 ≤ n → length (drop 1 m) + 1 ≤ n
length-drop_one [] n h p = omega arith
length-drop_one (x ∷ m) n h p = omega arith

pub claim-IsRoom :
    (key : String) (max_keys : ℕ) (m : List (String × List ℕ))
    → 1 ≤ max_keys
    → length m ≤ max_keys
    → Distinct m
    → IsRoom key max_keys (claim key max_keys m).1
unfolding claim
claim-IsRoom key max_keys m p b d = elim (Option-cases (lookup key m)) [
  | inl absent ↦ elim (Bool-cases (leb max_keys (length m))) [
    | inl full ↦
        rw (absent, claim, full)
          (record {
            distinct = drop-Distinct m d;
            absent = drop-absent key m absent;
            room = length-drop_one m max_keys b p;
          })
    | inr space ↦
        rw (absent, claim, space) (record { distinct = d; absent = absent; room = ground arith })
  ]
  | inr (ts, present) ↦
      rw (present, claim)
        (record {
          distinct = erase-Distinct key m d;
          absent = rw (lookup-erase key key m, eq_refl key);
          room = omega (arith, length-erase_present key ts m present);
        })
]

abbrev pub Holds : ℕ → List (String × List ℕ) → Type 0
Holds max_keys m = (length m ≤ max_keys) × Distinct m

added :
    (key : String) (ts : List ℕ) (max_keys : ℕ) (others : List (String × List ℕ))
    → IsRoom key max_keys others
    → Holds max_keys (others ++ (key, ts) ∷ [])
added key ts max_keys others r = (
  omega (arith, length-append {0} others ((key, ts) ∷ []), r.room),
  append-Distinct others key ts r.distinct r.absent,
)

decide_request-Holds :
    (hz now span limit : ℕ) (key : String) (l : Limiter) (kept : List ℕ)
    (others : List (String × List ℕ))
    → IsRoom key l.max_keys others
    → Holds l.max_keys (decide_request hz now span limit key l kept others).0.requests
      × ((decide_request hz now span limit key l kept others).0.max_keys ≡ l.max_keys)
unfolding decide_request
decide_request-Holds hz now span limit key l kept others r =
    elim (Bool-cases (leb limit (length kept))) [
      | inl full ↦ rw full (added key kept l.max_keys others r, refl)
      | inr space ↦ rw space (added key (kept ++ now ∷ []) l.max_keys others r, refl)
    ]

pub swept-Holds :
    (b : Bool) (now span n : ℕ) (m : List (String × List ℕ))
    → Holds n m
    → Holds n (if b then sweep now span m else m)
swept-Holds true now span n m h =
    (omega (arith, length-sweep-le now span m, h.0), sweep-Distinct now span m h.1)
swept-Holds false now span n m h = h

-- `consume` keeps the limiter valid, on every branch: also when it evicts, sweeps or denies.
pub consume_at-IsValid :
    (hz now span limit : ℕ) (key : String) (l : Limiter)
    → IsValid l
    → IsValid (consume_at hz now span limit key l).0
unfolding consume_at key_count
consume_at-IsValid hz now span limit key l v =
    let operations = l.operations + 1 in
    let swept : List (String × List ℕ) =
      if operations % 256 == 0 then sweep now span l.requests else l.requests in
    let h =
      swept-Holds (operations % 256 == 0) now span l.max_keys l.requests (v.bounded, v.distinct) in
    let r = claim-IsRoom key l.max_keys swept v.positive h.0 h.1 in
    let d =
      decide_request-Holds hz now span limit key (record l { operations = operations })
        (prune now span (claim key l.max_keys swept).0) (claim key l.max_keys swept).1 r in
    record { positive = rw d.1 v.positive; bounded = rw d.1 d.0.0; distinct = d.0.1 }

report-IsValid :
    (key : String) (limit : ℕ) (l : Limiter) (ts : List ℕ)
    → IsValid l
    → IsRoom key l.max_keys (erase key l.requests)
    → IsValid (report key limit l ts).0
unfolding report key_count
report-IsValid key limit l [] v r = record {
  positive = v.positive;
  bounded = omega (arith, r.room);
  distinct = r.distinct;
}
report-IsValid key limit l (t ∷ ts) v r =
    let h = added key (t ∷ ts) l.max_keys (erase key l.requests) r in
    record { positive = v.positive; bounded = h.0; distinct = h.1 }

pub is_limited-IsValid :
    (hz now : ℕ) (key : String) (limit window : ℕ) (l : Limiter)
    → IsValid l
    → IsValid (is_limited hz now key limit window l).0
unfolding is_limited key_count
is_limited-IsValid hz now key limit window l v = elim (Option-cases (lookup key l.requests)) [
  | inl absent ↦ rw (absent, is_limited) v
  | inr (ts, present) ↦
      rw (present, is_limited)
        (report-IsValid key limit l (prune now (window * hz) ts) v (room ts present))
]
  where
    room :
        (ts : List ℕ)
        → lookup key l.requests ≡ some ts
        → IsRoom key l.max_keys (erase key l.requests)
    room ts present = record {
      distinct = erase-Distinct key l.requests v.distinct;
      absent = rw (lookup-erase key key l.requests, eq_refl key);
      room = omega (arith, length-erase_present key ts l.requests present, v.bounded);
    }

pub clear-IsValid : (key : Option String) (l : Limiter) → IsValid l → IsValid (clear key l)
unfolding clear key_count
clear-IsValid none l v = record { positive = v.positive; bounded = omega arith; distinct = tt }
clear-IsValid (some key) l v = record {
  positive = v.positive;
  bounded = omega (arith, length-erase key l.requests, v.bounded);
  distinct = erase-Distinct key l.requests v.distinct;
}

-- A call of the limiter, with the clock reading where it reads the clock. A `consume` that
-- raises changes nothing.
pub data Call : Type 0 where
  consume_call : (now : ℕ) (key : String) (limit window : ℕ) → Call
  is_limited_call : (now : ℕ) (key : String) (limit window : ℕ) → Call
  clear_call : Option String → Call

unfoldable pub perform : ℕ → Limiter → Call → Limiter
perform hz l (consume_call now key limit window) = elim (consume hz now key limit window l) [
  | ok (l', _) ↦ l'
  | err _ ↦ l
]
perform hz l (is_limited_call now key limit window) = (is_limited hz now key limit window l).0
perform hz l (clear_call key) = clear key l

perform-IsValid : (hz : ℕ) (l : Limiter) (call : Call) → IsValid l → IsValid (perform hz l call)
unfolding perform consume
perform-IsValid hz l (consume_call now key limit window) v =
    elim (Bool-cases (leb 1 limit && leb 1 window)) [
      | inl good ↦
          rw (good, perform, consume) (consume_at-IsValid hz now (window * hz) limit key l v)
      | inr bad ↦ rw (bad, perform, consume) v
    ]
perform-IsValid hz l (is_limited_call now key limit window) v =
    is_limited-IsValid hz now key limit window l v
perform-IsValid hz l (clear_call key) v = clear-IsValid key l v

unfoldable pub perform_all : ℕ → Limiter → List Call → Limiter
unfolding perform
perform_all hz l [] = l
perform_all hz l (call ∷ calls) = perform_all hz (perform hz l call) calls

perform_all-IsValid :
    (hz : ℕ) (calls : List Call) (l : Limiter) → IsValid l → IsValid (perform_all hz l calls)
unfolding perform_all
perform_all-IsValid hz [] l v = v
perform_all-IsValid hz (call ∷ calls) l v =
    perform_all-IsValid hz calls (perform hz l call) (perform-IsValid hz l call v)

-- After any sequence of calls on a new limiter it holds at most `max_keys` keys, and no key
-- twice.
pub init-perform_all-IsValid :
    (hz max_keys : ℕ) (calls : List Call) {l : Limiter}
    → init max_keys ≡ ok l
    → IsValid (perform_all hz l calls) × (l.max_keys ≡ max_keys)
unfolding init key_count
init-perform_all-IsValid hz max_keys calls e =
    subst (OnOk (λ l. IsValid (perform_all hz l calls) × (l.max_keys ≡ max_keys))) e start
  where
    fresh : 1 ≤ max_keys → IsValid (record { requests = []; max_keys = max_keys; operations = 0 })
    fresh p = record { positive = p; bounded = omega arith; distinct = tt }

    start : OnOk (λ l. IsValid (perform_all hz l calls) × (l.max_keys ≡ max_keys)) (init max_keys)
    start = elim (Bool-cases (leb 1 max_keys)) [
      | inl good ↦ rw good (perform_all-IsValid hz calls _ (fresh (ground arith)), refl)
      | inr bad ↦ rw bad tt
    ]
