-- ===== src/RateLimit/Spec.antt =====
-- A run of requests with one limit and one window, against the log of all that was admitted.
use stockassist.Common.{
  ℕ, ◌+◌, ◌%◌, ◌≤◌, ◌<◌, ◌≡◌, refl, ap, String, Bool, true, false, List, [], ◌∷◌, ◌++◌, ◌⊎◌,
  if◌then◌else◌, ◌==◌, string_eq, nat_eq, length, Bool-cases, inl, inr, arith,
}
use text.Mathlib.TextEquality.{eq_iff}
use stockassist.RateLimit.{
  Limiter, Decision, claim, prune, sweep, decide_request, consume_at, key_count,
}
use stockassist.RateLimit.Bucket.{bucket}
use stockassist.RateLimit.Invariant.{IsValid, claim-IsRoom, swept-Holds, consume_at-IsValid}
use stockassist.RateLimit.Refinement.{
  Agrees, Outcome, answer, swept-Agrees, claim-bucket, claim-others, bucket-append_other,
  decide_request-Outcome, prune-Agrees,
}

-- The admitted requests, oldest first, each with its key.
abbrev pub Log : Type 0
Log = List (ℕ × String)

abbrev pub times : String → Log → List ℕ
times key [] = []
times key ((t, k) ∷ log) = let rest = times key log in if k == key then t ∷ rest else rest

abbrev pub entered : Bool → ℕ → String → Log → Log
entered allowed now key log = if allowed then log ++ (now, key) ∷ [] else log

-- Answer each request from the log, and enter it if it is admitted.
unfoldable pub spec_run : ℕ → ℕ → ℕ → Log → List (ℕ × String) → List Decision
spec_run hz span limit log [] = []
spec_run hz span limit log ((now, key) ∷ rs) =
    let decision : Decision = answer hz now span limit (times key log) in
    decision ∷ spec_run hz span limit (entered decision.allowed now key log) rs

unfoldable pub run : ℕ → ℕ → ℕ → Limiter → List (ℕ × String) → List Decision
run hz span limit l [] = []
run hz span limit l ((now, key) ∷ rs) =
    let (l', decision) = consume_at hz now span limit key l in decision ∷ run hz span limit l' rs

-- The clock does not go back, and the limiter stays below its bound on keys.
abbrev pub Fits : ℕ → ℕ → ℕ → ℕ → Limiter → List (ℕ × String) → Type 0
Fits hz span limit last l [] = Unit
Fits hz span limit last l ((now, key) ∷ rs) =
    (last ≤ now)
    × (key_count l < l.max_keys)
    × Fits hz span limit now (consume_at hz now span limit key l).0 rs

times-append_self :
    (key : String) (now : ℕ) (log : Log)
    → times key (log ++ (now, key) ∷ []) ≡ times key log ++ now ∷ []
times-append_self key now [] = ground (arith, eq_iff key key)
times-append_self key now ((t, k) ∷ log) = ground (arith, times-append_self key now log)

times-append_other :
    (key j : String) (now : ℕ) (log : Log)
    → (key == j) ≡ false
    → times j (log ++ (now, key) ∷ []) ≡ times j log
times-append_other key j now [] h = ground arith
times-append_other key j now ((t, k) ∷ log) h = ground (arith, times-append_other key j now log h)

-- Every deque agrees with the log.
record Tracks (span last : ℕ) (l : Limiter) (log : Log) : Type 0 where
  valid : IsValid l
  agrees : (j : String) → Agrees span last (bucket j l.requests) (times j log)

module _ (hz now span limit : ℕ) (key : String) (l : Limiter) where
  swept : List (String × List ℕ)
  swept = if (l.operations + 1) % 256 == 0 then sweep now span l.requests else l.requests

  after : Limiter
  after = (consume_at hz now span limit key l).0

  decision : Decision
  decision = (consume_at hz now span limit key l).1

  -- One request, against the admitted times of its key.
  pub consume_at-Outcome :
      (last : ℕ) (log : List ℕ)
      → last ≤ now
      → IsValid l
      → Agrees span last (bucket key l.requests) log
      → Outcome hz now span limit key log
          (consume_at hz now span limit key l).0
          (consume_at hz now span limit key l).1
  unfolding consume_at swept key_count
  consume_at-Outcome last log later v a =
      let s : Agrees span now (bucket key swept) log =
        swept-Agrees span last now later ((l.operations + 1) % 256 == 0) key l.requests log
          v.distinct a in
      let h =
        swept-Holds ((l.operations + 1) % 256 == 0) now span l.max_keys l.requests
          (v.bounded, v.distinct) in
      let r = claim-IsRoom key l.max_keys swept v.positive h.0 h.1 in
      let e = claim-bucket key l.max_keys swept in
      let s' : Agrees span now (claim key l.max_keys swept).0 log = rw e s in
      decide_request-Outcome hz now span limit key (record l { operations = l.operations + 1 })
        (claim key l.max_keys swept).0 log (claim key l.max_keys swept).1 r.absent s'
        (prune-Agrees span now now (omega arith) (claim key l.max_keys swept).0 log s')

  decide_request-other :
      (j : String) (l' : Limiter) (kept : List ℕ) (others : List (String × List ℕ))
      → (key == j) ≡ false
      → bucket j (decide_request hz now span limit key l' kept others).0.requests ≡ bucket j others
  unfolding decide_request
  decide_request-other j l' kept others h = ground (
    arith,
    bucket-append_other key j kept others h,
    bucket-append_other key j (kept ++ now ∷ []) others h,
  )

  other :
      (last : ℕ) (log : Log) (j : String)
      → last ≤ now
      → key_count l < l.max_keys
      → (key == j) ≡ false
      → Tracks span last l log
      → Agrees span now (bucket j after.requests) (times j log)
  unfolding consume_at after swept key_count
  other last log j later room h t =
      let s : Agrees span now (bucket j swept) (times j log) =
        swept-Agrees span last now later ((l.operations + 1) % 256 == 0) j l.requests (times j log)
          t.valid.distinct (t.agrees j) in
      let small =
        swept-Holds ((l.operations + 1) % 256 == 0) now span (length l.requests) l.requests
          (omega arith, t.valid.distinct) in
      rw
        (
          decide_request-other j (record l { operations = l.operations + 1 })
              (prune now span (claim key l.max_keys swept).0) (claim key l.max_keys swept).1 h,
          claim-others key j l.max_keys swept (omega (arith, small.0)) h,
        )
        s

  own :
      (last : ℕ) (log : Log)
      → last ≤ now
      → Tracks span last l log
      → Outcome hz now span limit key (times key log) after decision
  unfolding after decision
  own last log later t = consume_at-Outcome last (times key log) later t.valid (t.agrees key)

  entered-Tracks :
      (last : ℕ) (log : Log)
      → last ≤ now
      → key_count l < l.max_keys
      → Tracks span last l log
      → Tracks span now after (entered decision.allowed now key log)
  unfolding after
  entered-Tracks last log later room t = record {
    valid = consume_at-IsValid hz now span limit key l t.valid;
    agrees = λ j. elim (Bool-cases (key == j)) [
      | inl same ↦ let e = (eq_iff key j).0 same in rw (← e) (mine (Bool-cases decision.allowed))
      | inr differs ↦
          theirs j (Bool-cases decision.allowed) differs (other last log j later room differs t)
    ];
  }
    where
      mine :
          (decision.allowed ≡ true) ⊎ (decision.allowed ≡ false)
          → Agrees span now
              (bucket key after.requests)
              (times key (entered decision.allowed now key log))
      mine (inl e) =
          rw (e, if◌then◌else◌, times-append_self key now log)
            (rw e at (own last log later t).agrees)
      mine (inr e) = rw e (rw e at (own last log later t).agrees)

      theirs :
          (j : String)
          → (decision.allowed ≡ true) ⊎ (decision.allowed ≡ false)
          → (key == j) ≡ false
          → Agrees span now (bucket j after.requests) (times j log)
          → Agrees span now
              (bucket j after.requests)
              (times j (entered decision.allowed now key log))
      theirs j (inl e) h a = rw (e, if◌then◌else◌, times-append_other key j now log h) a
      theirs j (inr e) h a = rw e a

run-spec_run_from :
    (hz span limit : ℕ) (rs : List (ℕ × String)) (last : ℕ) (l : Limiter) (log : Log)
    → Tracks span last l log
    → Fits hz span limit last l rs
    → run hz span limit l rs ≡ spec_run hz span limit log rs
unfolding run spec_run decision after
run-spec_run_from hz span limit [] last l log t f = refl
run-spec_run_from hz span limit ((now, key) ∷ rs) last l log t (later, room, f) =
    rw (← (own hz now span limit key l last log later t).decided) (
      ap (λ ds. (consume_at hz now span limit key l).1 ∷ ds)
        (run-spec_run_from hz span limit rs now (consume_at hz now span limit key l).0 _
          (entered-Tracks hz now span limit key l last log later room t) f))

-- As long as the clock does not go back and the limiter stays below its bound on keys, it gives
-- every sequence of requests, over any keys, the answers that follow from a log of all admitted
-- requests: a request is admitted exactly if fewer than `limit` admitted ones of its key lie in
-- the window, and the remaining count and the delay are those of that window.
pub run-spec_run :
    (hz span limit last : ℕ) (rs : List (ℕ × String)) (l : Limiter)
    → IsValid l
    → l.requests ≡ []
    → Fits hz span limit last l rs
    → run hz span limit l rs ≡ spec_run hz span limit [] rs
run-spec_run hz span limit last rs l v e f =
    run-spec_run_from hz span limit rs last l []
      (record { valid = v; agrees = λ j. rw e (record { ascending = tt; past = tt; same = refl }) })
      f
