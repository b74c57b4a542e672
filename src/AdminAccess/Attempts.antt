-- ===== src/AdminAccess/Attempts.antt =====
-- Attempts of one client against the times of its failures.
use stockassist.Common.{
  ℕ, ◌+◌, ◌*◌, ◌-◌, ◌≤◌, ◌≡◌, refl, ap, sym, subst, ◌∙◌, String, Bool, true, false, not, ◌||◌, ◌==◌,
  nat_eq, string_eq, leb, if◌then◌else◌, le→leb, Bool-cases, Option-cases, inl, inr, Option, none,
  some, List, [], ◌∷◌, ◌++◌, length, length-keep, Result, ok, err, arith,
}
use stockassist.Common.Dict.{lookup, erase, lookup-erase}
use text.Mathlib.TextPositions.{eq_refl}
use stockassist.RateLimit.{Limiter, Decision, consume, consume_at, is_limited, report, clear, prune}
use stockassist.RateLimit.Bucket.{bucket, recent, is_recent, prune-recent, recent-recent}
use stockassist.RateLimit.Invariant.{IsValid, consume_at-IsValid, is_limited-IsValid, clear-IsValid}
use stockassist.RateLimit.Refinement.{
  Agrees, Outcome, answer, kept-Agrees, prune-Agrees, recent-Agrees, bucket-append_self,
}
use stockassist.RateLimit.Spec.{consume_at-Outcome}
use stockassist.HttpGuard.{memory_limiter, LimiterOps}
use stockassist.AdminAccess.{
  AdminSettings, Refusal, Verdict, right, wrong, unreadable, crashed, judge, locked_out,
  invalid_credentials, reject, accept, attempt, require_admin_access,
}

-- The limiter follows the failures of the client.
record IsFollowed (span last : ℕ) (client : String) (l : Limiter) (log : List ℕ) : Type 0 where
  valid : IsValid l
  agrees : Agrees span last (bucket client l.requests) log

module _ (hz now : ℕ) (client : String) (limit window last : ℕ) (later : last ≤ now)
    (positive : 1 ≤ limit) where
  abbrev span : ℕ
  span = window * hz

  -- Whether the client is locked out, by its failures.
  abbrev is_locked : List ℕ → Bool
  is_locked log = leb limit (length (recent now span log))

  record IsAnswered (log : List ℕ) (l : Limiter) (limited : Bool) : Type 0 where
    limits : limited ≡ is_locked log
    follows : Agrees span now (bucket client l.requests) log

  absent_now : (l : Limiter) → bucket client (erase client l.requests) ≡ []
  absent_now l = rw (lookup-erase client client l.requests, eq_refl client, bucket) refl

  report-IsAnswered :
      (l : Limiter) (ts log : List ℕ)
      → lookup client (erase client l.requests) ≡ none
      → Agrees span now ts log
      → recent now span ts ≡ ts
      → IsAnswered log (report client limit l ts).0 (report client limit l ts).1
  unfolding report
  report-IsAnswered l [] log absent a e = record {
    limits = rw (← a.same) (ground arith);
    follows = subst (λ ts. Agrees span now ts log) (sym (absent_now l)) a;
  }
  report-IsAnswered l (t ∷ ts) log absent a e = record {
    limits = ap (λ us. leb limit (length us)) (sym e ∙ a.same);
    follows =
        subst (λ us. Agrees span now us log)
          (sym (bucket-append_self client (t ∷ ts) (erase client l.requests) absent)) a;
  }

  is_limited-IsAnswered :
      (l : Limiter) (log : List ℕ)
      → Agrees span last (bucket client l.requests) log
      → IsAnswered log
          (is_limited hz now client limit window l).0
          (is_limited hz now client limit window l).1
  unfolding is_limited
  is_limited-IsAnswered l log a = elim (Option-cases (lookup client l.requests)) [
    | inl absent ↦
        let nothing : Agrees span last [] log = rw (absent, bucket) at a in
        rw (absent, is_limited)
          (record {
            limits = rw (← recent-Agrees span last now later [] log nothing) (ground arith);
            follows = kept-Agrees span last now later (bucket client l.requests) log a;
          })
    | inr (ts, found) ↦
        let held : Agrees span last ts log = rw (found, bucket) at a in
        rw (found, is_limited)
          (report-IsAnswered l (prune now span ts) log
            (rw (lookup-erase client client l.requests, eq_refl client) refl)
            (prune-Agrees span last now later ts log held)
            (ap (recent now span) (prune-recent now span ts held.ascending)
              ∙ recent-recent now now span ts (omega arith)
              ∙ sym (prune-recent now span ts held.ascending)))
  ]

-- One attempt, answered from the times of the failures since the last success, at the clock
-- readings of the check and of the count.
unfoldable pub spec_attempt :
    (hz now counted limit window : ℕ) → Verdict → List ℕ → List ℕ × Result Refusal (Unit {0})
spec_attempt hz now counted limit window verdict log =
    if leb limit (length (recent now (window * hz) log))
    then (log, err locked_out)
    else elim verdict [
      | right ↦ ([], ok tt)
      | unreadable ↦ (log, err crashed)
      | wrong ↦ (
        log ++ counted ∷ [],
        err (
            if leb limit (length (recent counted (window * hz) log) + 1)
            then locked_out
            else invalid_credentials),
      )
    ]

module _ (hz now counted : ℕ) (client : String) (settings : AdminSettings) (last : ℕ)
    (later : last ≤ now) (behind : now ≤ counted) (positive : 1 ≤ settings.max_failed_attempts)
    (lasting : 1 ≤ settings.lockout_seconds) where
  open settings use {max_failed_attempts, lockout_seconds}

  abbrev window_ticks : ℕ
  window_ticks = lockout_seconds * hz

  abbrev ops : LimiterOps Limiter
  ops = memory_limiter hz now counted

  record IsStep (log : List ℕ) (r : Limiter × Result Refusal (Unit {0}))
      (spec : List ℕ × Result Refusal (Unit {0})) : Type 0 where
    answered : r.1 ≡ spec.1
    follows : IsFollowed window_ticks counted client r.0 spec.0

  module _ (l : Limiter) (log : List ℕ) (f : IsFollowed window_ticks now client l log) where
    accept-follows : IsFollowed window_ticks counted client (accept ops settings client l).0 []
    unfolding accept memory_limiter clear
    accept-follows = record {
      valid = clear-IsValid (some client) l f.valid;
      agrees =
          rw (lookup-erase client client l.requests, eq_refl client, bucket)
            (record { ascending = tt; past = tt; same = refl });
    }

    -- Nothing happens to the limiter between the two readings.
    kept-follows : IsFollowed window_ticks counted client l log
    kept-follows = record {
      valid = f.valid;
      agrees = kept-Agrees window_ticks now counted behind (bucket client l.requests) log f.agrees;
    }

    consume_counted :
        consume hz counted client max_failed_attempts lockout_seconds l
        ≡ ok (consume_at hz counted window_ticks max_failed_attempts client l)
    unfolding consume
    consume_counted =
        rw (le→leb 1 max_failed_attempts positive, le→leb 1 lockout_seconds lasting) refl

    outcome :
        Outcome hz counted window_ticks max_failed_attempts client log
          (consume_at hz counted window_ticks max_failed_attempts client l).0
          (consume_at hz counted window_ticks max_failed_attempts client l).1
    outcome =
        consume_at-Outcome hz counted window_ticks max_failed_attempts client l now log behind
          f.valid f.agrees

    blocked :
        (n failures : ℕ)
        → leb n failures ≡ false
        → (not true || (n - (failures + 1) == 0)) ≡ leb n (failures + 1)
    blocked n failures h = ground arith

    -- Fewer failures lie in the window when the attempt is counted.
    still_space :
        leb max_failed_attempts (length (recent now window_ticks log)) ≡ false
        → leb max_failed_attempts (length (recent counted window_ticks log)) ≡ false
    still_space space =
        rw (← recent-recent now counted window_ticks log behind) (
          ground
            (arith, length-keep (is_recent counted window_ticks) (recent now window_ticks log)))

    abbrev admitted : Decision
    admitted = record {
      allowed = true;
      remaining = max_failed_attempts - (length (recent counted window_ticks log) + 1);
      retry_after = 0;
    }

    reject-IsStep :
        leb max_failed_attempts (length (recent counted window_ticks log)) ≡ false
        → IsStep log (reject ops settings client l) (
          log ++ counted ∷ [],
          err (
              if leb max_failed_attempts (length (recent counted window_ticks log) + 1)
              then locked_out
              else invalid_credentials),
        )
    unfolding reject memory_limiter
    reject-IsStep space =
        let decided : (consume_at hz counted window_ticks max_failed_attempts client l).1
            ≡ admitted =
          outcome.decided ∙ rw space refl in
        rw (consume_counted, reject, memory_limiter)
          (record {
            answered =
                ap
                  (λ d.
                    err (
                      if not d.allowed || d.remaining == 0
                      then locked_out
                      else invalid_credentials))
                  decided
                ∙ ap (λ b. err (if b then locked_out else invalid_credentials))
                    (blocked max_failed_attempts (length (recent counted window_ticks log)) space);
            follows = record {
              valid =
                  consume_at-IsValid hz counted window_ticks max_failed_attempts client l f.valid;
              agrees =
                  subst
                    (λ d.
                      Agrees window_ticks counted
                        (bucket client
                          (consume_at hz counted window_ticks max_failed_attempts client
                            l).0.requests)
                        (if d.allowed then log ++ counted ∷ [] else log))
                    decided outcome.agrees;
            };
          })

    -- What follows the check that lets an attempt through.
    judged-IsStep :
        (verdict : Verdict)
        → leb max_failed_attempts (length (recent now window_ticks log)) ≡ false
        → IsStep log
            (elim verdict [
              | right ↦ accept ops settings client l
              | wrong ↦ reject ops settings client l
              | unreadable ↦ (l, err crashed)
            ])
            (elim verdict [
              | right ↦ ([], ok tt)
              | unreadable ↦ (log, err crashed)
              | wrong ↦ (
                log ++ counted ∷ [],
                err (
                    if leb max_failed_attempts (length (recent counted window_ticks log) + 1)
                    then locked_out
                    else invalid_credentials),
              )
            ])
    unfolding accept memory_limiter
    judged-IsStep right space = record { answered = refl; follows = accept-follows }
    judged-IsStep wrong space = reject-IsStep (still_space space)
    judged-IsStep unreadable space = record { answered = refl; follows = kept-follows }

  -- What one attempt answers, and what it leaves.
  attempt-IsStep :
      (expected : String) (supplied : Option String) (l : Limiter) (log : List ℕ)
      → IsFollowed window_ticks last client l log
      → IsStep log (attempt ops settings client expected supplied l) (
          spec_attempt hz now counted max_failed_attempts lockout_seconds
            (judge expected supplied)
            log)
  unfolding attempt spec_attempt memory_limiter
  attempt-IsStep expected supplied l log f =
      let i =
        is_limited-IsAnswered hz now client max_failed_attempts lockout_seconds last later positive
          l log f.agrees in
      let g : IsFollowed window_ticks now client
          (is_limited hz now client max_failed_attempts lockout_seconds l).0 log =
        record {
          valid = is_limited-IsValid hz now client max_failed_attempts lockout_seconds l f.valid;
          agrees = i.follows;
        } in
      rw i.limits
        (elim (Bool-cases (leb max_failed_attempts (length (recent now window_ticks log)))) [
          | inl full ↦ rw full (record { answered = refl; follows = kept-follows _ log g })
          | inr space ↦ rw space (judged-IsStep _ log g (judge expected supplied) space)
        ])

-- An attempt of the client: the clock readings of the check and of the count, and the key.
abbrev pub Attempt : Type 0
Attempt = ℕ × (ℕ × Option String)

module _ (hz : ℕ) (client : String) (settings : AdminSettings) (expected : String) where
  unfoldable pub run_attempts : Limiter → List Attempt → List (Result Refusal (Unit {0}))
  unfolding require_admin_access
  run_attempts l [] = []
  run_attempts l ((now, (counted, supplied)) ∷ rest) =
      let (l', answer) =
        require_admin_access (some (memory_limiter hz now counted)) settings client supplied l in
      answer ∷ run_attempts l' rest

  unfoldable pub spec_attempts : List ℕ → List Attempt → List (Result Refusal (Unit {0}))
  unfolding spec_attempt judge
  spec_attempts log [] = []
  spec_attempts log ((now, (counted, supplied)) ∷ rest) =
      let (log', answer) =
        spec_attempt hz now counted settings.max_failed_attempts settings.lockout_seconds
          (judge expected supplied) log in
      answer ∷ spec_attempts log' rest

  -- The clock does not go back.
  abbrev pub IsOrdered : ℕ → List Attempt → Type 0
  IsOrdered last [] = Unit
  IsOrdered last ((now, (counted, supplied)) ∷ rest) =
      (last ≤ now) × ((now ≤ counted) × IsOrdered counted rest)

  module _ (configured : settings.admin_api_key ≡ some expected) (named : (expected == "") ≡ false)
      (positive : 1 ≤ settings.max_failed_attempts) (lasting : 1 ≤ settings.lockout_seconds) where
    guarded_attempt :
        (now counted : ℕ) (supplied : Option String) (l : Limiter)
        → require_admin_access (some (memory_limiter hz now counted)) settings client supplied l
          ≡ attempt (memory_limiter hz now counted) settings client expected supplied l
    unfolding require_admin_access
    guarded_attempt now counted supplied l = rw (configured, named) refl

    run_attempts_from :
        (attempts : List Attempt) (last : ℕ) (l : Limiter) (log : List ℕ)
        → IsFollowed (settings.lockout_seconds * hz) last client l log
        → IsOrdered last attempts
        → run_attempts l attempts ≡ spec_attempts log attempts
    unfolding run_attempts spec_attempts
    run_attempts_from [] last l log f o = refl
    run_attempts_from ((now, (counted, supplied)) ∷ rest) last l log f o =
        let step =
          attempt-IsStep hz now counted client settings last o.0 o.1.0 positive lasting expected
            supplied l log f in
        let after = attempt (memory_limiter hz now counted) settings client expected supplied l in
        ap (λ r. r.1 ∷ run_attempts r.0 rest) (guarded_attempt now counted supplied l)
        ∙ ap (λ answer. answer ∷ run_attempts after.0 rest) step.answered
        ∙ ap
            (λ answers.
              (spec_attempt hz now counted settings.max_failed_attempts settings.lockout_seconds
                (judge expected supplied) log).1
              ∷ answers)
            (run_attempts_from rest counted after.0 _ step.follows o.1.1)

    -- While the clock does not go back and only this client's attempts reach the limiter in memory,
    -- which starts within its invariant and without a failure of the client, the attempts are
    -- answered from the times of the failures since the last success: with `max_failed_attempts` of
    -- them in the window every key is refused by 429, the right one too; otherwise the right key is
    -- let in and clears them, a wrong one or none is counted and refused by 401, or by 429 if it was
    -- the last, and one that cannot be compared raises and is not counted.
    pub run_attempts-spec_attempts :
        (last : ℕ) (attempts : List Attempt) (l : Limiter)
        → IsValid l
        → bucket client l.requests ≡ []
        → IsOrdered last attempts
        → run_attempts l attempts ≡ spec_attempts [] attempts
    run_attempts-spec_attempts last attempts l v empty o =
        run_attempts_from attempts last l []
          (record {
            valid = v;
            agrees = rw empty (record { ascending = tt; past = tt; same = refl });
          })
          o
