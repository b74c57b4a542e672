-- ===== src/TossClient/Exit.antt =====
-- How a call ends: within its bounds, with the answer of the last request, audited once.
use stockassist.Common.{
  ℕ, suc, ◌+◌, ◌≤◌, ◌<◌, ◌≡◌, refl, ap, ◌∙◌, Bool, true, false, not, ◌&&◌, Bool-cases, ltb, leb,
  ltb→lt, leb→le, ◌==◌, nat_eq, Option, none, some, List, [], ◌∷◌, ◌++◌, err, inl, inr, String,
  arith,
}
use stockassist.TossClient.{
  Payload, object, not_json, not_an_object, Body, Response, request_error, answered, Reply,
  AuditOutcome, success, error, transport_error, ErrorCode, word, toss_http, ProviderAuditEvent,
  Event, observed, invalidated, slept_backoff, slept_retry, audited, Failure, provider,
  not_acquired, not_slept, World, Call, Progress, again, raised, returned, record_audit, map_error,
  extract_provider_request_id, unavailable_error, is_expired_token, error_code_of, retry, handle,
  receive,
}
use stockassist.TossClient.Trace.{
  is_sent, is_sleep, is_invalidation, tally, audits, tally-append, audits-append,
}

abbrev pub bit : Bool → ℕ
bit true = 1
bit false = 0

third_false : (a b c : Bool) → (a && b && not c) ≡ true → c ≡ false
third_false a b c e = ground arith

second_true : (a b : Bool) → (a && b) ≡ true → b ≡ true
second_true a b e = ground arith

abbrev pub is_object : Body → Bool
is_object (object _) = true
is_object _ = false

module _ (w : World) where
  -- The events of a call that has sent `n` requests and has `k` of them to account for.
  pub record IsCounted (k n : ℕ) (s : Call) : Type 0 where
    pub sends : tally is_sent s.trace ≡ n
    pub counted : s.request_count ≡ n
    pub sleeps : tally is_sleep s.trace ≡ s.attempt
    pub refreshes : tally is_invalidation s.trace ≡ bit s.auth_retried
    pub explained : n ≡ k + s.attempt + bit s.auth_retried
    pub bounded : s.attempt ≤ w.max_retries
    pub unaudited : audits s.trace ≡ []

  -- The audit of an exit, if there is a sink.
  unfoldable pub IsAudited :
      List Event → AuditOutcome → Option ℕ → Option ErrorCode → Option String → ℕ → Type 0
  unfolding record_audit audits
  IsAudited t outcome status code id count =
      audits t ≡ audits (record_audit w outcome status code id count)

  unfoldable pub IsBounded : ℕ → List Event → Type 0
  IsBounded n t =
      (tally is_sent t ≡ n)
      × (n ≤ w.max_retries + 2)
      × (tally is_sleep t ≤ w.max_retries)
      × (tally is_invalidation t ≤ 1)

  -- The ways out of the loop, with the last answer and the audit that belong to each; `n` is the
  -- number of requests before the last one.
  pub data IsExit : Progress → Type 0 where
    delivered :
        (n : ℕ) (r : Response) (p : Payload) (t : List Event)
        → w.reply n ≡ answered r
        → r.body ≡ object p
        → r.status < 400
        → IsAudited t success
            (some r.status)
            none
            (extract_provider_request_id w (some p) r.headers)
            (suc n)
        → IsBounded (suc n) t
        → IsExit (returned p t)
    refused :
        (n : ℕ) (r : Response) (p : Payload) (t : List Event)
        → w.reply n ≡ answered r
        → r.body ≡ object p
        → 400 ≤ r.status
        → (r.status == 429 && ltb (tally is_sleep t) w.max_retries) ≡ false
        → IsAudited t error
            (some r.status)
            (some (toss_http r.status))
            (extract_provider_request_id w (some p) r.headers)
            (suc n)
        → IsBounded (suc n) t
        → IsExit (raised (provider (map_error w r.status p r.headers)) t)
    garbled :
        (n : ℕ) (r : Response) (t : List Event)
        → w.reply n ≡ answered r
        → is_object r.body ≡ false
        → IsAudited t error
            (some r.status)
            (some (word "provider-error"))
            (extract_provider_request_id w none r.headers)
            (suc n)
        → IsBounded (suc n) t
        → IsExit (raised (provider unavailable_error) t)
    unreachable :
        (n : ℕ) (t : List Event)
        → w.reply n ≡ request_error
        → tally is_sleep t ≡ w.max_retries
        → IsAudited t transport_error none (some (word "provider-unavailable")) none (suc n)
        → IsBounded (suc n) t
        → IsExit (raised (provider unavailable_error) t)
    no_token :
        (n : ℕ) (e : Failure) (t : List Event)
        → w.token n ≡ err e
        → audits t ≡ []
        → IsBounded n t
        → IsExit (raised e t)
    no_permit :
        (n : ℕ) (t : List Event)
        → w.acquires n ≡ false
        → audits t ≡ []
        → IsBounded n t
        → IsExit (raised not_acquired t)
    no_sleep :
        (n : ℕ) (e : Event) (t : List Event)
        → w.can_sleep e ≡ false
        → is_sleep e ≡ true
        → tally is_sleep t < w.max_retries
        → audits t ≡ []
        → IsBounded (suc n) t
        → IsExit (raised not_slept t)

  tally-record_audit :
      (p : Event → Bool) (outcome : AuditOutcome) (status : Option ℕ) (code : Option ErrorCode)
      (id : Option String) (count : ℕ)
      → ((a : ProviderAuditEvent) → p (audited a) ≡ false)
      → tally p (record_audit w outcome status code id count) ≡ 0
  unfolding record_audit tally
  tally-record_audit p outcome status code id count h = elim (Bool-cases w.has_sink) [
    | inl e ↦ rw (e, h _) refl
    | inr e ↦ rw e refl
  ]

  tally-exit :
      (p : Event → Bool) (t : List Event) (outcome : AuditOutcome) (status : Option ℕ)
      (code : Option ErrorCode) (id : Option String) (count : ℕ)
      → ((a : ProviderAuditEvent) → p (audited a) ≡ false)
      → tally p (t ++ record_audit w outcome status code id count) ≡ tally p t
  tally-exit p t outcome status code id count h = omega (
    arith,
    tally-append p t (record_audit w outcome status code id count),
    tally-record_audit p outcome status code id count h,
  )

  module _ {n : ℕ} {s : Call} (c : IsCounted 1 (suc n) s) where
    IsAudited-exit :
        (outcome : AuditOutcome) (status : Option ℕ) (code : Option ErrorCode) (id : Option String)
        → IsAudited
            (s.trace ++ record_audit w outcome status code id s.request_count)
            outcome
            status
            code
            id
            (suc n)
    unfolding IsAudited
    IsAudited-exit outcome status code id =
        audits-append s.trace (record_audit w outcome status code id s.request_count)
        ∙ ap (λ l. l ++ audits (record_audit w outcome status code id s.request_count)) c.unaudited
        ∙ ap (λ m. audits (record_audit w outcome status code id m)) c.counted

    sleeps-exit :
        (outcome : AuditOutcome) (status : Option ℕ) (code : Option ErrorCode) (id : Option String)
        → tally is_sleep (s.trace ++ record_audit w outcome status code id s.request_count)
          ≡ s.attempt
    sleeps-exit outcome status code id =
        tally-exit is_sleep s.trace outcome status code id s.request_count (λ a. refl) ∙ c.sleeps

    IsBounded-exit :
        (outcome : AuditOutcome) (status : Option ℕ) (code : Option ErrorCode) (id : Option String)
        → IsBounded (suc n) (s.trace ++ record_audit w outcome status code id s.request_count)
    unfolding IsBounded
    IsBounded-exit outcome status code id =
        let sends = tally-exit is_sent s.trace outcome status code id s.request_count (λ a. refl) in
        let refreshes =
          tally-exit is_invalidation s.trace outcome status code id s.request_count (λ a. refl) in
        (
          omega (arith, sends, c.sends),
          ground (arith, c.explained, c.bounded),
          omega (arith, sleeps-exit outcome status code id, c.bounded),
          ground (arith, refreshes, c.refreshes),
        )

  unfoldable pub IsProgress : ℕ → Progress → Type 0
  IsProgress n (again s) = IsCounted 0 n s
  IsProgress n (raised e t) = IsExit (raised e t)
  IsProgress n (returned p t) = IsExit (returned p t)

  refreshed :
      (n : ℕ) (s : Call) (token : String)
      → IsCounted 1 (suc n) s
      → s.auth_retried ≡ false
      → IsCounted 0
          (suc n)
          (record s { auth_retried = true; trace = s.trace ++ invalidated token ∷ [] })
  unfolding tally audits
  refreshed n s token c fresh = record {
    sends = omega (arith, tally-append is_sent s.trace (invalidated token ∷ []), c.sends);
    counted = c.counted;
    sleeps = omega (arith, tally-append is_sleep s.trace (invalidated token ∷ []), c.sleeps);
    refreshes = omega (
      arith,
      tally-append is_invalidation s.trace (invalidated token ∷ []),
      c.refreshes,
      ap bit fresh,
    );
    explained = omega (arith, c.explained, ap bit fresh);
    bounded = c.bounded;
    unaudited = audits-append s.trace (invalidated token ∷ []) ∙ ap (λ l. l ++ []) c.unaudited;
  }

  -- After a sleep, of either kind.
  slept :
      (n : ℕ) (s : Call) (e : Event)
      → IsCounted 1 (suc n) s
      → s.attempt < w.max_retries
      → tally is_sent (e ∷ []) ≡ 0
      → tally is_sleep (e ∷ []) ≡ 1
      → tally is_invalidation (e ∷ []) ≡ 0
      → audits (e ∷ []) ≡ []
      → IsCounted 0 (suc n) (record s { attempt = suc s.attempt; trace = s.trace ++ e ∷ [] })
  slept n s e c more sent0 sleep1 refresh0 audit0 = record {
    sends = omega (arith, tally-append is_sent s.trace (e ∷ []), c.sends);
    counted = c.counted;
    sleeps = omega (arith, tally-append is_sleep s.trace (e ∷ []), c.sleeps);
    refreshes = omega (arith, tally-append is_invalidation s.trace (e ∷ []), c.refreshes);
    explained = omega (arith, c.explained);
    bounded = omega arith;
    unaudited =
        audits-append s.trace (e ∷ []) ∙ ap (λ l. l ++ audits (e ∷ [])) c.unaudited ∙ audit0;
  }

  -- A retry sleeps and goes on, or raises.
  retry-IsProgress :
      (n : ℕ) (s : Call) (e : Event)
      → IsCounted 1 (suc n) s
      → s.attempt < w.max_retries
      → is_sleep e ≡ true
      → tally is_sent (e ∷ []) ≡ 0
      → tally is_sleep (e ∷ []) ≡ 1
      → tally is_invalidation (e ∷ []) ≡ 0
      → audits (e ∷ []) ≡ []
      → IsProgress (suc n) (retry w s e)
  unfolding retry IsProgress IsBounded
  retry-IsProgress n s e c more sleeps sent0 sleep1 refresh0 audit0 =
      elim (Bool-cases (w.can_sleep e)) [
        | inl able ↦ rw (able, retry) (slept n s e c more sent0 sleep1 refresh0 audit0)
        | inr unable ↦
            rw (unable, retry)
              (no_sleep n e s.trace unable sleeps (omega (arith, c.sleeps)) c.unaudited (
                c.sends,
                ground (arith, c.explained, c.bounded),
                omega (arith, c.sleeps, c.bounded),
                ground (arith, c.refreshes),
              ))
      ]

  -- An event that is neither a request, a sleep, a refresh nor an audit changes no tally.
  plain_event :
      (k n : ℕ) (s : Call)
      → IsCounted k n s
      → IsCounted k n (record s { trace = s.trace ++ observed ∷ [] })
  unfolding tally audits
  plain_event k n s c = record {
    sends = omega (arith, tally-append is_sent s.trace (observed ∷ []), c.sends);
    counted = c.counted;
    sleeps = omega (arith, tally-append is_sleep s.trace (observed ∷ []), c.sleeps);
    refreshes = omega (arith, tally-append is_invalidation s.trace (observed ∷ []), c.refreshes);
    explained = c.explained;
    bounded = c.bounded;
    unaudited = audits-append s.trace (observed ∷ []) ∙ ap (λ l. l ++ []) c.unaudited;
  }

  exhausted :
      (s : Call)
      → s.attempt ≤ w.max_retries
      → ltb s.attempt w.max_retries ≡ false
      → s.attempt ≡ w.max_retries
  exhausted s h e = ground arith

  handle-IsProgress :
      (n : ℕ) (s : Call) (token : String) (r : Response) (p : Payload)
      → w.reply n ≡ answered r
      → r.body ≡ object p
      → IsCounted 1 (suc n) s
      → IsProgress (suc n) (handle w s token r p)
  unfolding handle IsProgress map_error tally audits
  handle-IsProgress n s token r p hr hp c =
      elim (Bool-cases
        (r.status == 401 && is_expired_token (error_code_of p) && not s.auth_retried)) [
          | inl e ↦ rw (e, handle) (refreshed n s token c (third_false (r.status == 401) _ _ e))
          | inr e ↦
              rw (e, handle)
                (elim (Bool-cases (r.status == 429 && ltb s.attempt w.max_retries)) [
                  | inl f ↦
                      rw (f, handle)
                        (retry-IsProgress n s (slept_retry s.attempt r.headers.retry_after) c
                          (ltb→lt s.attempt w.max_retries (second_true (r.status == 429) _ f)) refl
                          refl refl refl refl)
                  | inr f ↦
                      rw (f, handle)
                        (elim (Bool-cases (leb 400 r.status)) [
                          | inl g ↦
                              rw (g, handle)
                                (refused n r p _ hr hp (leb→le 400 r.status g)
                                  (ap (λ m. r.status == 429 && ltb m w.max_retries)
                                      (sleeps-exit c error (some r.status)
                                        (some (toss_http r.status))
                                        (extract_provider_request_id w (some p) r.headers))
                                    ∙ f)
                                  (IsAudited-exit c error (some r.status)
                                    (some (toss_http r.status))
                                    (extract_provider_request_id w (some p) r.headers))
                                  (IsBounded-exit c error (some r.status)
                                    (some (toss_http r.status))
                                    (extract_provider_request_id w (some p) r.headers)))
                          | inr g ↦
                              rw (g, handle)
                                (delivered n r p _ hr hp (ground (arith, g))
                                  (IsAudited-exit c success (some r.status) none
                                    (extract_provider_request_id w (some p) r.headers))
                                  (IsBounded-exit c success (some r.status) none
                                    (extract_provider_request_id w (some p) r.headers)))
                        ])
                ])
        ]

  pub receive-IsProgress :
      (n : ℕ) (s : Call) (token : String)
      → IsCounted 1 (suc n) s
      → IsProgress (suc n) (receive w s token (w.reply n))
  unfolding receive IsProgress tally audits
  receive-IsProgress n s token c = go (w.reply n) refl
    where
      parsed :
          (s' : Call) (r : Response) (b : Body)
          → w.reply n ≡ answered r
          → r.body ≡ b
          → IsCounted 1 (suc n) s'
          → IsProgress (suc n) (elim b [
            | object p ↦ handle w s' token r p
            | _ ↦ raised (provider unavailable_error) (
                s'.trace
                ++ record_audit w error
                    (some r.status)
                    (some (word "provider-error"))
                    (extract_provider_request_id w none r.headers)
                    s'.request_count)
          ])
      parsed s' r (object p) hr hb c' = handle-IsProgress n s' token r p hr hb c'
      parsed s' r not_json hr hb c' =
          garbled n r _ hr (ap is_object hb)
            (IsAudited-exit c' error (some r.status) (some (word "provider-error"))
              (extract_provider_request_id w none r.headers))
            (IsBounded-exit c' error (some r.status) (some (word "provider-error"))
              (extract_provider_request_id w none r.headers))
      parsed s' r not_an_object hr hb c' =
          garbled n r _ hr (ap is_object hb)
            (IsAudited-exit c' error (some r.status) (some (word "provider-error"))
              (extract_provider_request_id w none r.headers))
            (IsBounded-exit c' error (some r.status) (some (word "provider-error"))
              (extract_provider_request_id w none r.headers))

      go : (reply : Reply) → w.reply n ≡ reply → IsProgress (suc n) (receive w s token reply)
      go request_error h = elim (Bool-cases (ltb s.attempt w.max_retries)) [
        | inl e ↦
            rw (e, receive)
              (retry-IsProgress n s (slept_backoff s.attempt) c (ltb→lt s.attempt w.max_retries e)
                refl refl refl refl refl)
        | inr e ↦
            rw (e, receive)
              (unreachable n _ h
                (sleeps-exit c transport_error none (some (word "provider-unavailable")) none
                  ∙ exhausted s c.bounded e)
                (IsAudited-exit c transport_error none (some (word "provider-unavailable")) none)
                (IsBounded-exit c transport_error none (some (word "provider-unavailable")) none))
      ]
      go (answered r) h = parsed _ r r.body h refl (plain_event 1 (suc n) s c)
