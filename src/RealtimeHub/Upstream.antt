-- ===== src/RealtimeHub/Upstream.antt =====
-- `StreamingRealtimeQuoteHub.stream`: the first subscriber of a symbol subscribes at the source, the
-- last one unsubscribes. Nothing suspends a stream between its change of the hub and the start of
-- its call of the source, so that the calls start in the order of the changes. When a call ends, and
-- how, is the source's: a stream whose call raises or is cancelled leaves the hub at that point.
use stockassist.Common.{
  ℕ, ◌+◌, ◌-◌, ◌≡◌, refl, ap, sym, subst, ◌∙◌, String, Bool, true, false, not, ◌&&◌, leb,
  if◌then◌else◌, ◌==◌, string_eq, Bool-cases, inl, inr, List, [], ◌∷◌, length, Result, ok, err,
  OnOk, OnOk-require, arith,
}
use stockassist.Common.Dict.{lookup, lookup-insert, lookup-erase}
use stockassist.RealtimeHub.{
  Hub, Error, connection_capacity, symbol_capacity, total_subscribers, subscribers_of,
  is_subscribed, new_hub, register, unregister, has_key,
}
use stockassist.RealtimeHub.Capacity.{Change, joins, leaves, subscribers_of-count}

pub record Session : Type 0 where
  pub hub : Hub
  pub requests : List (String × Bool)

-- The calls of the source, the latest first: whether the latest for the symbol is `subscribe`.
unfoldable pub is_requested : String → List (String × Bool) → Bool
is_requested t [] = false
is_requested t ((s, wanted) ∷ requests) = if s == t then wanted else is_requested t requests

-- A refused stream changes nothing; the first one subscribes.
abbrev pub joined_session : Session → String → Result Error (Bool × Hub) → Session
joined_session w s (err e) = w
joined_session w s (ok (first, hub)) = record {
  hub = hub;
  requests = (if first then (s, true) ∷ w.requests else w.requests);
}

-- The head and the `finally` of `stream`.
unfoldable pub stream_change : Change → Session → Session
unfolding register unregister
stream_change (joins s) w = joined_session w s (register s w.hub)
stream_change (leaves s) w =
    let result = unregister s w.hub in
    record { hub = result.1; requests = (if result.0 then (s, false) ∷ w.requests else w.requests) }

unfoldable pub stream_all : List Change → Session → Session
unfolding stream_change
stream_all [] w = w
stream_all (c ∷ cs) w = stream_all cs (stream_change c w)

abbrev pub Follows : Session → Type 0
Follows w = (s : String) → is_requested s w.requests ≡ has_key (lookup s w.hub.subscriptions)

register-key :
    (s t : String) (h : Hub)
    → OnOk
        (λ r.
          (r.0 ≡ not (is_subscribed s h))
          × (has_key (lookup t r.1.subscriptions)
              ≡ (if s == t then true else has_key (lookup t h.subscriptions))))
        (register s h)
unfolding register
register-key s t h =
    OnOk-require _ (not (leb h.max_connections (total_subscribers h.subscriptions)))
      connection_capacity _
      (λ _.
        OnOk-require _ (not (not (is_subscribed s h) && leb h.max_symbols (length h.subscriptions)))
          symbol_capacity _
          (λ _. (refl, ground (arith, lookup-insert s t (subscribers_of s h + 1) h.subscriptions))))

unregister-key :
    (s t : String) (h : Hub)
    → has_key (lookup t (unregister s h).1.subscriptions)
      ≡ (if s == t then not (unregister s h).0 else has_key (lookup t h.subscriptions))
unfolding unregister
unregister-key s t h = elim (Bool-cases (leb (subscribers_of s h - 1) 0)) [
  | inl e ↦ rw (e, unregister) (ground (arith, lookup-erase s t h.subscriptions))
  | inr e ↦
      rw (e, unregister)
        (ground (arith, lookup-insert s t (subscribers_of s h - 1) h.subscriptions))
]

unregister-last : (s : String) (h : Hub) → (unregister s h).0 ≡ leb (subscribers_of s h - 1) 0
unfolding unregister
unregister-last s h = elim (Bool-cases (leb (subscribers_of s h - 1) 0)) [
  | inl e ↦ rw (e, unregister) refl
  | inr e ↦ rw (e, unregister) refl
]

more-is_subscribed :
    (s : String) (h : Hub)
    → leb (subscribers_of s h - 1) 0 ≡ false
    → has_key (lookup s h.subscriptions) ≡ true
more-is_subscribed s h e = ground (arith, e, subscribers_of-count s h)

-- Who is not the last one leaves the symbol subscribed.
stays :
    (s t : String) (h : Hub)
    → (unregister s h).0 ≡ false
    → (s == t) ≡ true
    → has_key (lookup t h.subscriptions) ≡ true
stays s t h e same =
    subst (λ u. has_key (lookup u h.subscriptions) ≡ true) ((string_eq.beq_iff s t).0 same)
      (more-is_subscribed s h (sym (unregister-last s h) ∙ e))

same_key :
    (s t : String) (h : Hub)
    → (s == t) ≡ true
    → is_subscribed s h ≡ has_key (lookup t h.subscriptions)
same_key s t h same = ap (λ u. has_key (lookup u h.subscriptions)) ((string_eq.beq_iff s t).0 same)

joined-Follows :
    (s t : String) (w : Session) (first : Bool) (hub : Hub)
    → Follows w
    → first ≡ not (is_subscribed s w.hub)
    → has_key (lookup t hub.subscriptions)
      ≡ (if s == t then true else has_key (lookup t w.hub.subscriptions))
    → is_requested t (if first then (s, true) ∷ w.requests else w.requests)
      ≡ has_key (lookup t hub.subscriptions)
unfolding is_requested
joined-Follows s t w first hub f h k = elim (Bool-cases first) [
  | inl e ↦ rw e (ground (arith, k, f t))
  | inr e ↦ rw e (ground (arith, k, f t, e, h, same_key s t w.hub))
]

left-Follows :
    (s t : String) (w : Session)
    → Follows w
    → is_requested t (if (unregister s w.hub).0 then (s, false) ∷ w.requests else w.requests)
      ≡ has_key (lookup t (unregister s w.hub).1.subscriptions)
unfolding is_requested
left-Follows s t w f = elim (Bool-cases (unregister s w.hub).0) [
  | inl e ↦ ground (arith, e, f t, unregister-key s t w.hub)
  | inr e ↦ ground (arith, e, f t, stays s t w.hub e, unregister-key s t w.hub)
]

stream_change-Follows : (c : Change) (w : Session) → Follows w → Follows (stream_change c w)
unfolding stream_change
stream_change-Follows (joins s) w f = λ t. go t (register s w.hub) (register-key s t w.hub)
  where
    go :
        (t : String) (r : Result Error (Bool × Hub))
        → OnOk
            (λ p.
              (p.0 ≡ not (is_subscribed s w.hub))
              × (has_key (lookup t p.1.subscriptions)
                  ≡ (if s == t then true else has_key (lookup t w.hub.subscriptions))))
            r
        → is_requested t (joined_session w s r).requests
          ≡ has_key (lookup t (joined_session w s r).hub.subscriptions)
    go t (ok (first, hub)) h = joined-Follows s t w first hub f h.0 h.1
    go t (err e) h = f t
stream_change-Follows (leaves s) w f = λ t. left-Follows s t w f

stream_all-Follows : (cs : List Change) (w : Session) → Follows w → Follows (stream_all cs w)
unfolding stream_all
stream_all-Follows [] w f = f
stream_all-Follows (c ∷ cs) w f =
    stream_all-Follows cs (stream_change c w) (stream_change-Follows c w f)

-- However streams come, are refused, fail and go at a new hub, and whatever the source makes of
-- its calls: the latest call of the source that was started for a symbol is `subscribe` exactly if
-- the hub counts a subscriber of the symbol.
pub stream_all-is_requested :
    (max_symbols max_connections : ℕ) (cs : List Change) (s : String)
    → is_requested s
        (stream_all cs
          (record { hub = new_hub max_symbols max_connections; requests = [] })).requests
      ≡ is_subscribed s
          (stream_all cs (record { hub = new_hub max_symbols max_connections; requests = [] })).hub
unfolding new_hub is_requested
stream_all-is_requested max_symbols max_connections cs s =
    stream_all-Follows cs (record { hub = new_hub max_symbols max_connections; requests = [] })
      (λ t. refl) s
