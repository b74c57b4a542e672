-- ===== src/TossClient/Loop.antt =====
-- The loop of a call: one pass, all passes, and the call from its start.
use stockassist.Common.{
  ℕ, zero, suc, ◌+◌, ◌≤◌, ◌≡◌, refl, ap, sym, ◌∙◌, subst, Bool, true, false, some, [], ◌∷◌, ◌++◌,
  Result, ok, err, String, arith,
}
use stockassist.TossClient.{
  Failure, acquired, sent, not_acquired, World, Call, Progress, again, raised, returned, receive,
  pass, run, start, request,
}
use stockassist.TossClient.Trace.{
  is_sent, is_sleep, is_invalidation, tally, audits, tally-append, audits-append,
}
use stockassist.TossClient.Exit.{
  IsCounted, IsExit, no_token, no_permit, IsBounded, IsProgress, receive-IsProgress,
}

module _ (w : World) where
  requested :
      (n : ℕ) (s : Call) (token : String)
      → IsCounted w 0 n s
      → IsCounted w 1 (suc n) (record s {
        request_count = suc s.request_count;
        trace = s.trace ++ acquired ∷ sent token ∷ [];
      })
  unfolding tally audits
  requested n s token c = record {
    sends = omega (arith, tally-append is_sent s.trace (acquired ∷ sent token ∷ []), c.sends);
    counted = ap suc c.counted;
    sleeps = omega (arith, tally-append is_sleep s.trace (acquired ∷ sent token ∷ []), c.sleeps);
    refreshes =
        omega
          (arith, tally-append is_invalidation s.trace (acquired ∷ sent token ∷ []), c.refreshes);
    explained = omega (arith, c.explained);
    bounded = c.bounded;
    unaudited = audits-append s.trace (acquired ∷ sent token ∷ []) ∙ ap (λ l. l ++ []) c.unaudited;
  }

  IsBounded-open : (n : ℕ) (s : Call) → IsCounted w 0 n s → IsBounded w n s.trace
  unfolding IsBounded
  IsBounded-open n s c = (
    c.sends,
    ground (arith, c.explained, c.bounded),
    omega (arith, c.sleeps, c.bounded),
    ground (arith, c.refreshes),
  )

  IsBounded-no_token :
      (n : ℕ) (s : Call) → IsCounted w 0 n s → IsBounded w n (s.trace ++ acquired ∷ [])
  unfolding tally IsBounded
  IsBounded-no_token n s c = (
    omega (arith, tally-append is_sent s.trace (acquired ∷ []), c.sends),
    ground (arith, c.explained, c.bounded),
    omega (arith, tally-append is_sleep s.trace (acquired ∷ []), c.sleeps, c.bounded),
    ground (arith, tally-append is_invalidation s.trace (acquired ∷ []), c.refreshes),
  )

  unfoldable pub IsNext : ℕ → Progress → Type 0
  IsNext n (again s) = IsCounted w 0 (suc n) s
  IsNext n (raised e t) = IsExit w (raised e t)
  IsNext n (returned p t) = IsExit w (returned p t)

  IsProgress→IsNext : (n : ℕ) (o : Progress) → IsProgress w (suc n) o → IsNext n o
  unfolding IsProgress IsNext
  IsProgress→IsNext n (again s) h = h
  IsProgress→IsNext n (raised e t) h = h
  IsProgress→IsNext n (returned p t) h = h

  few : (s : Call) → IsCounted w 0 s.request_count s → s.request_count ≤ w.max_retries + 1
  few s c = ground (arith, c.explained, c.bounded)

  pass-IsNext : (s : Call) → IsCounted w 0 s.request_count s → IsNext s.request_count (pass w s)
  unfolding pass IsNext audits
  pass-IsNext s c = go (w.acquires s.request_count) refl
    where
      answer :
          (token : Result Failure String)
          → w.token s.request_count ≡ token
          → IsNext s.request_count (elim token [
            | err e ↦ raised e (s.trace ++ acquired ∷ [])
            | ok token ↦
                receive w
                  (record s {
                    request_count = suc s.request_count;
                    trace = s.trace ++ acquired ∷ sent token ∷ [];
                  })
                  token
                  (w.reply s.request_count)
          ])
      answer (err e) h =
          no_token s.request_count e _ h
            (audits-append s.trace (acquired ∷ []) ∙ ap (λ l. l ++ []) c.unaudited)
            (IsBounded-no_token s.request_count s c)
      answer (ok token) h =
          IsProgress→IsNext s.request_count _
            (receive-IsProgress w s.request_count _ token (requested s.request_count s token c))

      go :
          (known : Bool)
          → w.acquires s.request_count ≡ known
          → IsNext s.request_count (elim known [
            | false ↦ raised not_acquired s.trace
            | true ↦ elim (w.token s.request_count) [
              | err e ↦ raised e (s.trace ++ acquired ∷ [])
              | ok token ↦
                  receive w
                    (record s {
                      request_count = suc s.request_count;
                      trace = s.trace ++ acquired ∷ sent token ∷ [];
                    })
                    token
                    (w.reply s.request_count)
            ]
          ])
      go false h =
          no_permit s.request_count s.trace h c.unaudited (IsBounded-open s.request_count s c)
      go true h = answer (w.token s.request_count) refl

  run-IsExit :
      (fuel : ℕ) (s : Call)
      → IsCounted w 0 s.request_count s
      → w.max_retries + 2 ≤ fuel + s.request_count
      → (o : Progress) × (run w fuel s ≡ some o) × IsExit w o
  unfolding run IsNext
  run-IsExit zero s c h = absurd (omega (arith, few s c))
  run-IsExit (suc fuel) s c h = go (pass w s) (pass-IsNext s c) (λ s' x.
      run-IsExit fuel s' (subst (λ n. IsCounted w 0 n s') (sym x.counted) x)
        (omega (arith, x.counted)))
    where
      go :
          (o : Progress)
          → IsNext s.request_count o
          → ((s' : Call)
              → IsCounted w 0 (suc s.request_count) s'
              → (o' : Progress) × (run w fuel s' ≡ some o') × IsExit w o')
          → (o' : Progress) × ((elim o [
            | again s' ↦ run w fuel s'
            | raised e t ↦ some (raised e t)
            | returned p t ↦ some (returned p t)
          ])
              ≡ some o')
            × IsExit w o'
      go (raised e t) x rest = (raised e t, refl, x)
      go (returned p t) x rest = (returned p t, refl, x)
      go (again s') x rest = rest s' x

  -- A call of the Toss API, in which each HTTP request, token request, `acquire` and sleep returns or
  -- raises, ends, whatever the answers are, and in one of seven ways, each with at most
  -- `max_retries + 2` requests, `max_retries` sleeps and one refresh of the token. It returns the
  -- object of the last answer when the status is below 400; it raises the mapped error when that is
  -- 400 or more (429 only with the retries used up), the provider as unavailable when the answer is
  -- not a JSON object or the last request failed with the retries used up: after each of these the
  -- trace has one audit, with the number of requests sent, if there is a sink. It also raises what a
  -- token request or an `acquire` raised, or, with retries left, what the sleep before the next one
  -- raised, then with no audit.
  pub request-IsExit : (o : Progress) × (request w ≡ some o) × IsExit w o
  unfolding request start tally audits
  request-IsExit =
      run-IsExit (suc (suc w.max_retries)) start
        (record {
          sends = refl;
          counted = refl;
          sleeps = refl;
          refreshes = refl;
          explained = refl;
          bounded = omega arith;
          unaudited = refl;
        })
        (omega arith)
