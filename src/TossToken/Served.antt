-- ===== src/TossToken/Served.antt =====
-- What `get` returns is usable, cached and audited.
use stockassist.Common.{
  ℕ, ◌+◌, ◌*◌, ◌<◌, ◌≤◌, ◌≡◌, refl, ap, subst, ◌∙◌, ◌⊎◌, inl, inr, String, Bool, not, ◌&&◌, leb,
  if◌then◌else◌, ◌==◌, string_eq, Option, none, some, ◌≢◌, lt→ltb, Option-cases, Bool-cases, [],
  ◌∷◌, ◌++◌, Result, ok, err, arith,
}
use stockassist.Common.Dict.{lookup, insert, lookup-insert_self, some_injective}
use stockassist.Common.Int.{ℤ, pos, ltb_ℤ}
use stockassist.TossToken.{
  AccessToken, Cache, TokenError, overflow, unavailable, authentication, Member, missing, not_text,
  text, Lifetime, unreadable, infinite, seconds, Checked, too_large, invalid, valid, check_text,
  check_members, check_token, invalid_oauth_response, Payload, Response, Audit, Manager, usable,
  receive, issue, cached, get, noted, success, failure, transport_error, ErrorCode,
}

module _ (hz : ℕ) (fits : ℤ → Bool) (has_sink : Bool) (strip : String → String)
    (cache_key : String) where
  cached-usable :
      (now : ℕ) (tokens : Cache) (t : AccessToken)
      → cached hz fits has_sink strip cache_key now tokens ≡ some t
      → (lookup cache_key tokens ≡ some t) × (now + 30 * hz < t.expires_at)
  unfolding cached usable
  cached-usable now tokens t h = elim (Option-cases (lookup cache_key tokens)) [
    | inl absent ↦ absurd (cc (rw (absent, cached) at h))
    | inr (u, found) ↦ elim (Bool-cases (usable hz now u)) [
      | inr old ↦ absurd (cc (rw (found, old, cached) at h))
      | inl good ↦
          let same : u ≡ t = some_injective (rw (found, good, cached) at h) in
          (
            found ∙ ap some same,
            subst (λ v. now + 30 * hz < v.expires_at) same (ground (arith, good)),
          )
    ]
  ]

  usable-cached :
      (now : ℕ) (tokens : Cache) (t : AccessToken)
      → lookup cache_key tokens ≡ some t
      → now + 30 * hz < t.expires_at
      → cached hz fits has_sink strip cache_key now tokens ≡ some t
  unfolding cached usable
  usable-cached now tokens t found fresh =
      rw (found, cached) (rw (lt→ltb (now + 30 * hz) t.expires_at fresh) refl)

  -- A value that `get` returned: that of a token that is now cached, and was usable at one of the
  -- clock readings; until thirty seconds before it expires it is returned again, without a request.
  pub record IsServed (first second third : ℕ) (m' : Manager) (value : String) : Type 0 where
    pub token : AccessToken
    pub held : lookup cache_key m'.tokens ≡ some token
    pub named : token.value ≡ value
    pub fresh :
        (first + 30 * hz < token.expires_at)
        ⊎ (second + 30 * hz < token.expires_at)
        ⊎ (third + 30 * hz < token.expires_at)
    pub reused :
        (now later latest : ℕ) (others : Manager → Manager) (response : Option Response)
        → now + 30 * hz < token.expires_at
        → get hz fits has_sink strip cache_key now later latest others response m' ≡ (m', ok value)

  -- An error: nothing is cached, and, if there is a sink, it is handed one record that says so.
  pub record IsNoted (waited m' : Manager) : Type 0 where
    pub audit : Audit
    pub noted_once : m'.audits ≡ (if has_sink then waited.audits ++ audit ∷ [] else waited.audits)
    pub unsuccessful : audit.outcome ≢ success
    pub same_tokens : m'.tokens ≡ waited.tokens

  -- The errors of the program are noted; an overflow leaves no trace.
  abbrev pub IsFailed : TokenError → Manager → Manager → Type 0
  IsFailed overflow waited m' = m' ≡ waited
  IsFailed (unavailable _) waited m' = IsNoted waited m'
  IsFailed (authentication _) waited m' = IsNoted waited m'

  get-reused :
      (m' : Manager) (token : AccessToken) (now later latest : ℕ) (others : Manager → Manager)
      (response : Option Response)
      → lookup cache_key m'.tokens ≡ some token
      → now + 30 * hz < token.expires_at
      → get hz fits has_sink strip cache_key now later latest others response m'
        ≡ (m', ok token.value)
  unfolding get
  get-reused m' token now later latest others response held fresh =
      rw (usable-cached now m'.tokens token held fresh, get) refl

  served :
      (first second third : ℕ) (m' : Manager) (token : AccessToken)
      → lookup cache_key m'.tokens ≡ some token
      → (first + 30 * hz < token.expires_at)
        ⊎ (second + 30 * hz < token.expires_at)
        ⊎ (third + 30 * hz < token.expires_at)
      → IsServed first second third m' token.value
  served first second third m' token held fresh = record {
    token = token;
    held = held;
    named = refl;
    fresh = fresh;
    reused = λ now later latest others response f.
        get-reused m' token now later latest others response held f;
  }

  long_lived : (third e : ℕ) → 1 ≤ hz → 30 < e → third + 30 * hz < third + e * hz
  long_lived third e ticks h = grind arith

  -- A token that passes the checks lives for more than thirty seconds.
  unfoldable IsLong : Checked → Type 0
  IsLong too_large = Unit
  IsLong invalid = Unit
  IsLong (valid value e) = 30 < e

  check_text-IsLong :
      (v : String) (n : ℤ) → IsLong (check_text hz fits has_sink strip cache_key v n)
  unfolding check_text IsLong
  check_text-IsLong v n =
      elim (Bool-cases (not (strip v == "") && v == strip v && ltb_ℤ (pos 30) n)) [
        | inr bad ↦ rw bad tt
        | inl good ↦ elim (Bool-cases (fits n)) [
          | inr large ↦ rw (good, large) tt
          | inl fine ↦ rw (good, fine) (ground (arith, good))
        ]
      ]

  check_members-IsLong :
      (t : Member) (lifetime : Lifetime)
      → IsLong (check_members hz fits has_sink strip cache_key t lifetime)
  unfolding check_members IsLong
  check_members-IsLong missing lifetime = tt
  check_members-IsLong not_text unreadable = tt
  check_members-IsLong not_text infinite = tt
  check_members-IsLong not_text (seconds n) = tt
  check_members-IsLong (text v) unreadable = tt
  check_members-IsLong (text v) infinite = tt
  check_members-IsLong (text v) (seconds n) = check_text-IsLong v n

  check_token-IsLong : (p : Payload) → IsLong (check_token hz fits has_sink strip cache_key p)
  unfolding check_token
  check_token-IsLong p = check_members-IsLong p.access_token p.expires_in

  abbrev IsIssued : ℕ → Manager → Manager × Result TokenError AccessToken → Type 0
  IsIssued third m (m', ok token) =
      (lookup cache_key m'.tokens ≡ some token) × (third + 30 * hz < token.expires_at)
  IsIssued third m (m', err e) = IsFailed e m m'

  failure_noted :
      (m : Manager) (status_code : Option ℕ) (error_code : Option ErrorCode)
      → IsNoted m (noted has_sink failure status_code error_code m)
  failure_noted m status_code error_code = record {
    audit = record { outcome = failure; status_code = status_code; error_code = error_code };
    noted_once = refl;
    unsuccessful = λ h. cc h;
    same_tokens = refl;
  }

  transport_noted :
      (m : Manager) (status_code : Option ℕ) (error_code : Option ErrorCode)
      → IsNoted m (noted has_sink transport_error status_code error_code m)
  transport_noted m status_code error_code = record {
    audit = record {
      outcome = transport_error;
      status_code = status_code;
      error_code = error_code;
    };
    noted_once = refl;
    unsuccessful = λ h. cc h;
    same_tokens = refl;
  }

  receive-IsIssued :
      (third : ℕ) (r : Response) (m : Manager)
      → 1 ≤ hz
      → IsIssued third m (receive hz fits has_sink strip cache_key third r m)
  unfolding receive IsLong
  receive-IsIssued third r m ticks = elim (Option-cases r.payload) [
    | inl absent ↦ rw (absent, receive) (failure_noted m _ _)
    | inr (p, given) ↦ elim (Bool-cases (leb 400 r.status_code)) [
      | inl bad ↦ rw (given, bad, receive) (failure_noted m _ _)
      | inr fine ↦
          rw (given, fine, receive)
            (checked p (check_token hz fits has_sink strip cache_key p) (check_token-IsLong p))
    ]
  ]
    where
      checked :
          (p : Payload) (c : Checked)
          → IsLong c
          → IsIssued third m (elim c [
            | too_large ↦ (m, err overflow)
            | invalid ↦ (
              noted has_sink failure (some r.status_code) (some invalid_oauth_response) m,
              err (authentication invalid_oauth_response),
            )
            | valid value e ↦
                let token : AccessToken = record { value = value; expires_at = third + e * hz } in
                (
                  noted has_sink success
                      (some r.status_code)
                      none
                      (record m { tokens = insert cache_key token m.tokens }),
                  ok token,
                )
          ])
      checked p too_large long = refl
      checked p invalid long = failure_noted m _ _
      checked p (valid value e) long = (
        lookup-insert_self cache_key (record { value = value; expires_at = third + e * hz })
            m.tokens,
        long_lived third e ticks long,
      )

  issue-IsIssued :
      (third : ℕ) (response : Option Response) (m : Manager)
      → 1 ≤ hz
      → IsIssued third m (issue hz fits has_sink strip cache_key third response m)
  unfolding issue
  issue-IsIssued third none m ticks = transport_noted m _ _
  issue-IsIssued third (some r) m ticks = receive-IsIssued third r m ticks

  abbrev pub IsAnswered : ℕ → ℕ → ℕ → Manager → Manager × Result TokenError String → Type 0
  IsAnswered first second third waited (m', ok value) = IsServed first second third m' value
  IsAnswered first second third waited (m', err e) = IsFailed e waited m'

  -- With at least one tick to the second, and where the rate limiter lets the request through, `get`
  -- returns the value of a token that is then cached, was usable for more than thirty seconds at a clock reading of the call, and is returned again,
  -- without a request, until thirty seconds before it expires; or it raises and caches nothing. An
  -- error of the provider is then handed to the audit sink once, if there is one; a lifetime that
  -- overflows raises without an audit. Other threads may do anything to the cache while it waits
  -- for the lock.
  pub get-IsAnswered :
      (first second third : ℕ) (others : Manager → Manager) (response : Option Response)
      (m : Manager)
      → 1 ≤ hz
      → IsAnswered first second third
          (others m)
          (get hz fits has_sink strip cache_key first second third others response m)
  unfolding get
  get-IsAnswered first second third others response m ticks =
      elim (Option-cases (cached hz fits has_sink strip cache_key first m.tokens)) [
        | inr (t, at_once) ↦
            let facts = cached-usable first m.tokens t at_once in
            rw (at_once, get) (served first second third m t facts.0 (inl facts.1))
        | inl none_yet ↦
            elim (Option-cases (cached hz fits has_sink strip cache_key second (others m).tokens)) [
              | inr (t, then_found) ↦
                  let facts = cached-usable second (others m).tokens t then_found in
                  rw (none_yet, then_found, get)
                    (served first second third (others m) t facts.0 (inr (inl facts.1)))
              | inl none_again ↦
                  rw (none_yet, none_again, get)
                    (answered (issue hz fits has_sink strip cache_key third response (others m))
                      (issue-IsIssued third response (others m) ticks))
            ]
      ]
    where
      answered :
          (r : Manager × Result TokenError AccessToken)
          → IsIssued third (others m) r
          → IsAnswered first second third
              (others m)
              (r.0, elim r.1 [ ok token ↦ ok token.value | err e ↦ err e ])
      answered (m', ok token) i = served first second third m' token i.0 (inr (inr i.1))
      answered (m', err e) i = i
