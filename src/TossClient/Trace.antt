-- ===== src/TossClient/Trace.antt =====
-- What a trace of events shows of the call: how often the code sent, slept and refreshed, and what
-- it audited.
use stockassist.Common.{
  ℕ, ◌+◌, ◌≡◌, refl, ap, ◌∙◌, Bool, true, false, List, [], ◌∷◌, ◌++◌, keep, keep-append, length,
  length-append,
}
use stockassist.TossClient.{
  Event, acquired, observed, sent, invalidated, slept_backoff, slept_retry, audited,
  ProviderAuditEvent,
}

abbrev pub is_sent : Event → Bool
is_sent (sent _) = true
is_sent _ = false

abbrev pub is_sleep : Event → Bool
is_sleep (slept_backoff _) = true
is_sleep (slept_retry _ _) = true
is_sleep _ = false

abbrev pub is_invalidation : Event → Bool
is_invalidation (invalidated _) = true
is_invalidation _ = false

unfoldable pub tally : (Event → Bool) → List Event → ℕ
tally p t = length (keep p t)

unfoldable pub audits : List Event → List ProviderAuditEvent
audits [] = []
audits (audited a ∷ t) = a ∷ audits t
audits (_ ∷ t) = audits t

pub tally-append : (p : Event → Bool) (t u : List Event) → tally p (t ++ u) ≡ tally p t + tally p u
unfolding tally
tally-append p t u = ap length (keep-append p t u) ∙ length-append (keep p t) (keep p u)

pub audits-append : (t u : List Event) → audits (t ++ u) ≡ audits t ++ audits u
unfolding audits
audits-append [] u = refl
audits-append (audited a ∷ t) u = ap (λ l. a ∷ l) (audits-append t u)
audits-append (acquired ∷ t) u = audits-append t u
audits-append (observed ∷ t) u = audits-append t u
audits-append (sent _ ∷ t) u = audits-append t u
audits-append (invalidated _ ∷ t) u = audits-append t u
audits-append (slept_backoff _ ∷ t) u = audits-append t u
audits-append (slept_retry _ _ ∷ t) u = audits-append t u
