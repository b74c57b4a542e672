-- ===== src/RateLimit/Retry.antt =====
-- What a denied client is told: after `retry_after` seconds a request of its key is admitted.
use stockassist.Common.{
  ℕ, suc, length-keep, All, ◌+◌, ◌-◌, ◌*◌, ◌/◌, ◌≤◌, ◌<◌, ◌≡◌, refl, ap, ◌∙◌, String, true, false,
  List, [], ◌∷◌, leb, length, max, arith,
}
use native.Mathlib.Nat.{div-add-mod, mod-lt}
use stockassist.RateLimit.{Limiter, retry_delay, consume_at}
use stockassist.RateLimit.Bucket.{bucket, recent, is_recent, recent-recent, Ascending}
use stockassist.RateLimit.Invariant.{IsValid, consume_at-IsValid}
use stockassist.RateLimit.Refinement.{Outcome, answer}
use stockassist.RateLimit.Spec.{consume_at-Outcome}

-- By then the oldest time has left the window.
retry_delay_long :
    (hz now span t : ℕ) (ts : List ℕ)
    → 0 < hz
    → t + span ≤ now + retry_delay hz now span (t ∷ ts) * hz
unfolding retry_delay
retry_delay_long hz now span t ts h =
    let q : ℕ = (span + t - now) / hz in
    let e : max 1 (q + 1) ≡ q + 1 = omega arith in
    rw e (omega (arith, div-add-mod (span + t - now) hz, mod-lt (span + t - now) h))

recent_head_out :
    (later span limit t : ℕ) (ts : List ℕ)
    → t + span ≤ later
    → suc (length ts) ≤ limit
    → leb limit (length (recent later span (t ∷ ts))) ≡ false
recent_head_out later span limit t ts out few =
    ground (arith, length-keep (is_recent later span) ts)

leb-recent :
    (hz now later span limit : ℕ) (live : List ℕ)
    → 0 < hz
    → 0 < limit
    → limit ≤ length live
    → length live ≤ limit
    → now + retry_delay hz now span live * hz ≤ later
    → leb limit (length (recent later span live)) ≡ false
leb-recent hz now later span limit [] h p full few wait = absurd (omega arith)
leb-recent hz now later span limit (t ∷ ts) h p full few wait =
    recent_head_out later span limit t ts (omega (arith, retry_delay_long hz now span t ts h)) few

-- At a limiter within its invariant, where the key has at most `limit` times, in order and none in
-- the future: if a request of the key is denied and the limiter's next request is of the same key
-- and comes when `retry_after` seconds have passed, it is admitted: the delay is long enough.
pub consume_at_retry :
    (hz now later span limit : ℕ) (key : String) (l : Limiter)
    → 0 < hz
    → 0 < limit
    → IsValid l
    → Ascending (bucket key l.requests)
    → All (λ t. t ≤ now) (bucket key l.requests)
    → length (bucket key l.requests) ≤ limit
    → (consume_at hz now span limit key l).1.allowed ≡ false
    → now + (consume_at hz now span limit key l).1.retry_after * hz ≤ later
    → (consume_at hz later span limit key (consume_at hz now span limit key l).0).1.allowed ≡ true
consume_at_retry hz now later span limit key l h p v asc past few denied wait =
    ap (λ d. d.allowed) second.decided ∙ admitted
  where
    before : List ℕ
    before = bucket key l.requests

    live : List ℕ
    live = recent now span before

    l' : Limiter
    l' = (consume_at hz now span limit key l).0

    first : Outcome hz now span limit key before l' (consume_at hz now span limit key l).1
    first =
        consume_at-Outcome hz now span limit key l now before (omega arith) v
          (record { ascending = asc; past = past; same = refl })

    full : (limit ≤ length live) × (now + retry_delay hz now span live * hz ≤ later)
    full = ground (arith, first.decided, denied, wait)

    second :
        Outcome hz later span limit key before
          (consume_at hz later span limit key l').0
          (consume_at hz later span limit key l').1
    second =
        consume_at-Outcome hz later span limit key l' now before (omega (arith, full.1))
          (consume_at-IsValid hz now span limit key l v) (rw denied at first.agrees)

    room : leb limit (length (recent later span before)) ≡ false
    room = rw (← recent-recent now later span before (omega (arith, full.1))) (
        leb-recent hz now later span limit live h p full.0
          (omega (arith, length-keep (is_recent now span) before, few)) full.1)

    admitted : (answer hz later span limit before).allowed ≡ true
    admitted = ground (arith, room)
