-- ===== src/RateLimit/Refinement.antt =====
-- The limiter against a log that forgets nothing: a request is admitted exactly when fewer than
-- `limit` admitted requests of its key lie in the window that ends now.
use stockassist.Common.{
  ℕ, ◌+◌, ◌-◌, length-append, ◌≤◌, ◌<◌, ◌≡◌, ap, sym, ◌∙◌, String, Bool, true, false, none, List,
  [], ◌∷◌, ◌++◌, leb, if◌then◌else◌, ◌==◌, string_eq, nat_eq, length, All, All-map, All-append,
  Bool-cases, inl, inr, arith,
}
use stockassist.Common.Dict.{lookup, Distinct, lookup-append, lookup-erase}
use text.Mathlib.TextPositions.{eq_refl}
use stockassist.RateLimit.{Limiter, Decision, retry_delay, claim, prune, sweep, decide_request}
use stockassist.RateLimit.Bucket.{
  bucket, recent, Ascending, prune-recent, prune-Ascending, prune-All, append-Ascending,
  recent-recent, recent-append, bucket-sweep,
}

-- A deque agrees with the times of a log that still count at `last`.
pub record Agrees (span last : ℕ) (ts log : List ℕ) : Type 0 where
  pub ascending : Ascending ts
  pub past : All (λ t. t ≤ last) ts
  pub same : recent last span ts ≡ recent last span log

module _ (span last now : ℕ) (later : last ≤ now) where
  All-later : (ts : List ℕ) → All (λ t. t ≤ last) ts → All (λ t. t ≤ now) ts
  All-later ts = All-map _ _ ts (λ t h. omega arith)

  pub recent-Agrees :
      (ts log : List ℕ) → Agrees span last ts log → recent now span ts ≡ recent now span log
  recent-Agrees ts log a =
      sym (recent-recent last now span ts later)
      ∙ ap (recent now span) a.same
      ∙ recent-recent last now span log later

  pub kept-Agrees : (ts log : List ℕ) → Agrees span last ts log → Agrees span now ts log
  kept-Agrees ts log a = record {
    ascending = a.ascending;
    past = All-later ts a.past;
    same = recent-Agrees ts log a;
  }

  pub prune-Agrees :
      (ts log : List ℕ) → Agrees span last ts log → Agrees span now (prune now span ts) log
  prune-Agrees ts log a = record {
    ascending = prune-Ascending now span ts a.ascending;
    past = prune-All _ now span ts (All-later ts a.past);
    same =
        ap (recent now span) (prune-recent now span ts a.ascending)
        ∙ recent-recent now now span ts (omega arith)
        ∙ recent-Agrees ts log a;
  }

  pub swept-Agrees :
      (b : Bool) (key : String) (m : List (String × List ℕ)) (log : List ℕ)
      → Distinct m
      → Agrees span last (bucket key m) log
      → Agrees span now (bucket key (if b then sweep now span m else m)) log
  swept-Agrees true key m log d a =
      rw (bucket-sweep now span key m d, bucket) (prune-Agrees (bucket key m) log a)
  swept-Agrees false key m log d a = kept-Agrees (bucket key m) log a

pub pushed-Agrees :
    (span now : ℕ) (ts log : List ℕ)
    → Agrees span now ts log
    → Agrees span now (ts ++ now ∷ []) (log ++ now ∷ [])
pushed-Agrees span now ts log a = record {
  ascending = append-Ascending ts now a.ascending a.past;
  past = All-append _ ts (now ∷ []) a.past (omega arith, tt);
  same =
      recent-append now span ts (now ∷ [])
      ∙ ap (λ us. us ++ recent now span (now ∷ [])) a.same
      ∙ sym (recent-append now span log (now ∷ []));
}

pub claim-bucket :
    (key : String) (max_keys : ℕ) (m : List (String × List ℕ))
    → (claim key max_keys m).0 ≡ bucket key m
unfolding claim
claim-bucket key max_keys m = ground arith

-- Below the bound on keys `claim` evicts nothing: the other keys keep their deques.
pub claim-others :
    (key j : String) (max_keys : ℕ) (m : List (String × List ℕ))
    → length m < max_keys
    → (key == j) ≡ false
    → bucket j (claim key max_keys m).1 ≡ bucket j m
unfolding claim
claim-others key j max_keys m h other = ground (arith, lookup-erase key j m)

pub bucket-append_self :
    (key : String) (ts : List ℕ) (m : List (String × List ℕ))
    → lookup key m ≡ none
    → bucket key (m ++ (key, ts) ∷ []) ≡ ts
bucket-append_self key ts m h = ground (arith, lookup-append key m ((key, ts) ∷ []), eq_refl key)

pub bucket-append_other :
    (key j : String) (ts : List ℕ) (m : List (String × List ℕ))
    → (key == j) ≡ false
    → bucket j (m ++ (key, ts) ∷ []) ≡ bucket j m
bucket-append_other key j ts m h = ground (arith, lookup-append j m ((key, ts) ∷ []))

-- The answer that follows from the times of the key that were admitted.
abbrev pub answer : ℕ → ℕ → ℕ → ℕ → List ℕ → Decision
answer hz now span limit log =
    let live = recent now span log in
    if leb limit (length live)
    then record { allowed = false; remaining = 0; retry_after = retry_delay hz now span live }
    else record { allowed = true; remaining = limit - (length live + 1); retry_after = 0 }

pub record Outcome (hz now span limit : ℕ) (key : String) (log : List ℕ) (l : Limiter)
    (decision : Decision) : Type 0 where
  pub decided : decision ≡ answer hz now span limit log
  pub agrees :
      Agrees span now (bucket key l.requests) (if decision.allowed then log ++ now ∷ [] else log)

pub decide_request-Outcome :
    (hz now span limit : ℕ) (key : String) (l : Limiter) (ts log : List ℕ)
    (others : List (String × List ℕ))
    → lookup key others ≡ none
    → Agrees span now ts log
    → Agrees span now (prune now span ts) log
    → Outcome hz now span limit key log
        (decide_request hz now span limit key l (prune now span ts) others).0
        (decide_request hz now span limit key l (prune now span ts) others).1
unfolding decide_request
decide_request-Outcome hz now span limit key l ts log others absent a p =
    rw same (elim (Bool-cases (leb limit (length live))) [
      | inl full ↦ rw full (record {
        decided = ground arith;
        agrees = rw (bucket-append_self key live others absent, bucket) p';
      })
      | inr space ↦ rw space (record {
        decided = ground (arith, length-append {0} live (now ∷ []));
        agrees =
            rw (bucket-append_self key (live ++ now ∷ []) others absent, bucket)
              (pushed-Agrees span now live log p');
      })
    ])
  where
    live : List ℕ
    live = recent now span log

    same : prune now span ts ≡ live
    same = prune-recent now span ts a.ascending ∙ a.same

    p' : Agrees span now live log
    p' = rw same at p
