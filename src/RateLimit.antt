-- ===== src/RateLimit.antt =====
-- `SlidingWindowLimiter` of backend/app/core/rate_limit.py. A clock reading is a number of ticks,
-- `hz` of them to a second, and is an argument of the operation that reads the clock. The
-- dictionary is ordered, least recently used key first; a deque holds its oldest time first.
pub mod Bucket
pub mod Invariant
pub mod Refinement
pub mod Spec
pub mod Retry
mod Tests
use stockassist.Common.{
  ℕ, ◌+◌, ◌-◌, ◌*◌, ◌/◌, ◌%◌, max, String, Bool, true, false, Option, none, some, List, [], ◌∷◌,
  ◌++◌, ◌&&◌, leb, if◌then◌else◌, ◌==◌, string_eq, nat_eq, length, drop, Result, ok, err, ◌>>=◌,
  ◌>>◌, require,
}
use stockassist.Common.Dict.{lookup, erase, insert}

pub data Error : Type 0 where
  max_keys_not_positive limit_not_positive : Error

pub record Limiter : Type 0 where
  pub requests : List (String × List ℕ)
  pub max_keys : ℕ
  pub operations : ℕ

-- What `consume` returns.
pub record Decision : Type 0 where
  pub allowed : Bool
  pub remaining : ℕ
  pub retry_after : ℕ

unfoldable pub init : ℕ → Result Error Limiter
init max_keys = do
  require (leb 1 max_keys) max_keys_not_positive
  ok (record { requests = []; max_keys = max_keys; operations = 0 })

-- `_prune` at the cutoff `now - span`: `t <= now - span` is `t + span <= now`.
unfoldable pub prune : ℕ → ℕ → List ℕ → List ℕ
prune now span [] = []
prune now span (t ∷ ts) =
    let rest = prune now span ts in if leb (t + span) now then rest else t ∷ ts

unfoldable pub keep_slot : String → List ℕ → List (String × List ℕ) → List (String × List ℕ)
keep_slot k [] m = m
keep_slot k (t ∷ ts) m = (k, t ∷ ts) ∷ m

-- `_sweep`: prunes every deque, and drops those that are empty then.
unfoldable pub sweep : ℕ → ℕ → List (String × List ℕ) → List (String × List ℕ)
unfolding prune keep_slot
sweep now span [] = []
sweep now span ((k, ts) ∷ m) = keep_slot k (prune now span ts) (sweep now span m)

-- The deque of the key, and the other entries after the eviction or the `move_to_end`.
unfoldable pub claim : String → ℕ → List (String × List ℕ) → List ℕ × List (String × List ℕ)
claim key max_keys m = elim (lookup key m) [
  | none ↦ ([], if leb max_keys (length m) then drop 1 m else m)
  | some ts ↦ (ts, erase key m)
]

-- `max(1, int(window - (now - requests[0])) + 1)`; no deque that is full is empty.
unfoldable pub retry_delay : ℕ → ℕ → ℕ → List ℕ → ℕ
retry_delay hz now span [] = 1
retry_delay hz now span (t ∷ ts) = max 1 ((span + t - now) / hz + 1)

unfoldable pub decide_request :
    ℕ → ℕ → ℕ → ℕ → String → Limiter → List ℕ → List (String × List ℕ) → Limiter × Decision
unfolding retry_delay
decide_request hz now span limit key l kept others =
    if leb limit (length kept)
    then (
      record l { requests = others ++ (key, kept) ∷ [] },
      record { allowed = false; remaining = 0; retry_after = retry_delay hz now span kept },
    )
    else (
      record l { requests = others ++ (key, kept ++ now ∷ []) ∷ [] },
      record { allowed = true; remaining = limit - length (kept ++ now ∷ []); retry_after = 0 },
    )

-- The body of `consume` under the lock, at the clock reading `now`.
unfoldable pub consume_at : ℕ → ℕ → ℕ → ℕ → String → Limiter → Limiter × Decision
unfolding sweep claim decide_request
consume_at hz now span limit key l =
    let operations = l.operations + 1 in
    let swept = (if operations % 256 == 0 then sweep now span l.requests else l.requests) in
    let (ts, others) = claim key l.max_keys swept in
    decide_request hz now span limit key (record l { operations = operations }) (prune now span ts)
      others

unfoldable pub consume :
    ℕ → ℕ → String → (limit window : ℕ) → Limiter → Result Error (Limiter × Decision)
unfolding consume_at
consume hz now key limit window l = do
  require (leb 1 limit && leb 1 window) limit_not_positive
  ok (consume_at hz now (window * hz) limit key l)

-- The end of `is_limited`, by the pruned deque.
unfoldable pub report : String → ℕ → Limiter → List ℕ → Limiter × Bool
report key limit l [] = (record l { requests = erase key l.requests }, false)
report key limit l (t ∷ ts) = (
  record l { requests = erase key l.requests ++ (key, t ∷ ts) ∷ [] },
  leb limit (length (t ∷ ts)),
)

unfoldable pub is_limited : ℕ → ℕ → String → (limit window : ℕ) → Limiter → Limiter × Bool
unfolding prune report
is_limited hz now key limit window l = elim (lookup key l.requests) [
  | none ↦ (l, false)
  | some ts ↦ report key limit l (prune now (window * hz) ts)
]

unfoldable pub clear : Option String → Limiter → Limiter
clear none l = record l { requests = [] }
clear (some key) l = record l { requests = erase key l.requests }

unfoldable pub key_count : Limiter → ℕ
key_count l = length l.requests
