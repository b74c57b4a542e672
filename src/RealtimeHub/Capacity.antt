-- ===== src/RealtimeHub/Capacity.antt =====
-- The capacities hold after any sequence of operations.
use stockassist.Common.{
  ℕ, ◌+◌, ◌-◌, ◌≤◌, ◌<◌, ◌≡◌, refl, ◌∙◌, String, Bool, true, not, ◌&&◌, leb, ◌==◌, string_eq,
  Bool-cases, Option-cases, inl, inr, Option, none, some, List, [], ◌∷◌, length, All, Result, ok,
  err, OnOk, OnOk-require, arith,
}
use stockassist.Common.Dict.{
  lookup, insert, erase, Distinct, insert-Distinct, erase-Distinct, length-insert, length-erase,
  insert-All,
}
use stockassist.RealtimeHub.{
  Hub, Error, connection_capacity, symbol_capacity, total_subscribers, subscribers_of,
  is_subscribed, new_hub, register, unregister,
}

pub record IsWithin (h : Hub) : Type 0 where
  pub distinct : Distinct h.subscriptions
  pub connections : total_subscribers h.subscriptions ≤ h.max_connections
  pub symbols : length h.subscriptions ≤ h.max_symbols
  pub positive : All (λ p. 0 < p.1) h.subscriptions

abbrev pub count_at : Option ℕ → ℕ
count_at none = 0
count_at (some n) = n

total-insert :
    (s : String) (n : ℕ) (m : List (String × ℕ))
    → total_subscribers (insert s n m) + count_at (lookup s m) ≡ total_subscribers m + n
unfolding total_subscribers
total-insert s n [] = omega arith
total-insert s n ((k, v) ∷ m) = ground (arith, total-insert s n m)

total-erase :
    (s : String) (m : List (String × ℕ)) → total_subscribers (erase s m) ≤ total_subscribers m
unfolding total_subscribers
total-erase s [] = omega arith
total-erase s ((k, v) ∷ m) = ground (arith, total-erase s m)

erase-positive :
    (s : String) (m : List (String × ℕ)) → All (λ p. 0 < p.1) m → All (λ p. 0 < p.1) (erase s m)
erase-positive s [] h = tt
erase-positive s ((k, v) ∷ m) h = elim (Bool-cases (k == s)) [
  | inl e ↦ rw e (erase-positive s m h.1)
  | inr e ↦ rw e (h.0, erase-positive s m h.1)
]

pub subscribers_of-count :
    (s : String) (h : Hub) → subscribers_of s h ≡ count_at (lookup s h.subscriptions)
unfolding subscribers_of
subscribers_of-count s h = elim (Option-cases (lookup s h.subscriptions)) [
  | inl e ↦ rw (e, subscribers_of) refl
  | inr (n, e) ↦ rw (e, subscribers_of) refl
]

abbrev pub bit_of : Option ℕ → ℕ
bit_of none = 1
bit_of (some _) = 0

room :
    (s : String) (h : Hub)
    → not (not (is_subscribed s h) && leb h.max_symbols (length h.subscriptions)) ≡ true
    → length h.subscriptions ≤ h.max_symbols
    → length (insert s (subscribers_of s h + 1) h.subscriptions) ≤ h.max_symbols
room s h free few =
    ground (arith, free, few, length-insert s (subscribers_of s h + 1) h.subscriptions)

register-IsWithin : (s : String) (h : Hub) → IsWithin h → OnOk (λ r. IsWithin r.1) (register s h)
unfolding register
register-IsWithin s h i =
    OnOk-require (λ r. IsWithin r.1)
      (not (leb h.max_connections (total_subscribers h.subscriptions))) connection_capacity _
      (λ below.
        OnOk-require (λ r. IsWithin r.1)
          (not (not (is_subscribed s h) && leb h.max_symbols (length h.subscriptions)))
          symbol_capacity _
          (λ free. record {
            distinct = insert-Distinct s _ h.subscriptions i.distinct;
            connections = ground (
              arith,
              below,
              subscribers_of-count s h,
              total-insert s (subscribers_of s h + 1) h.subscriptions,
            );
            symbols = room s h free i.symbols;
            positive = insert-All (λ p. 0 < p.1) s _ h.subscriptions (omega arith) i.positive;
          }))

unregister-IsWithin : (s : String) (h : Hub) → IsWithin h → IsWithin (unregister s h).1
unfolding unregister
unregister-IsWithin s h i = elim (Bool-cases (leb (subscribers_of s h - 1) 0)) [
  | inl e ↦
      rw (e, unregister)
        (record {
          distinct = erase-Distinct s h.subscriptions i.distinct;
          connections = omega (arith, total-erase s h.subscriptions, i.connections);
          symbols = omega (arith, length-erase s h.subscriptions, i.symbols);
          positive = erase-positive s h.subscriptions i.positive;
        })
  | inr e ↦
      rw (e, unregister)
        (record {
          distinct = insert-Distinct s _ h.subscriptions i.distinct;
          connections = ground (
            arith,
            e,
            i.connections,
            subscribers_of-count s h,
            total-insert s (subscribers_of s h - 1) h.subscriptions,
          );
          symbols = ground (
            arith,
            e,
            i.symbols,
            subscribers_of-count s h,
            length-insert s (subscribers_of s h - 1) h.subscriptions,
          );
          positive = insert-All (λ p. 0 < p.1) s _ h.subscriptions (ground (arith, e)) i.positive;
        })
]

-- A stream comes or goes; one that is refused changes nothing.
pub data Change : Type 0 where
  joins leaves : String → Change

unfoldable pub perform : Change → Hub → Hub
unfolding register unregister
perform (joins s) h = elim (register s h) [ ok (first, h') ↦ h' | err e ↦ h ]
perform (leaves s) h = (unregister s h).1

unfoldable pub perform_all : List Change → Hub → Hub
unfolding perform
perform_all [] h = h
perform_all (c ∷ cs) h = perform_all cs (perform c h)

abbrev SameBounds : Hub → Hub → Type 0
SameBounds g h = (h.max_symbols ≡ g.max_symbols) × (h.max_connections ≡ g.max_connections)

register-same : (s : String) (h : Hub) → OnOk (λ r. SameBounds h r.1) (register s h)
unfolding register
register-same s h =
    OnOk-require (λ r. SameBounds h r.1)
      (not (leb h.max_connections (total_subscribers h.subscriptions))) connection_capacity _
      (λ _.
        OnOk-require (λ r. SameBounds h r.1)
          (not (not (is_subscribed s h) && leb h.max_symbols (length h.subscriptions)))
          symbol_capacity _ (λ _. (refl, refl)))

unregister-same : (s : String) (h : Hub) → SameBounds h (unregister s h).1
unfolding unregister
unregister-same s h = elim (Bool-cases (leb (subscribers_of s h - 1) 0)) [
  | inl e ↦ rw (e, unregister) (refl, refl)
  | inr e ↦ rw (e, unregister) (refl, refl)
]

perform-IsWithin :
    (c : Change) (h : Hub) → IsWithin h → IsWithin (perform c h) × SameBounds h (perform c h)
unfolding perform
perform-IsWithin (joins s) h i = go (register s h) (register-IsWithin s h i) (register-same s h)
  where
    go :
        (r : Result Error (Bool × Hub))
        → OnOk (λ p. IsWithin p.1) r
        → OnOk (λ p. SameBounds h p.1) r
        → IsWithin (elim r [ ok (first, h') ↦ h' | err e ↦ h ])
          × SameBounds h (elim r [ ok (first, h') ↦ h' | err e ↦ h ])
    go (ok p) w b = (w, b)
    go (err e) w b = (i, (refl, refl))
perform-IsWithin (leaves s) h i = (unregister-IsWithin s h i, unregister-same s h)

perform_all-IsWithin :
    (cs : List Change) (h : Hub)
    → IsWithin h
    → IsWithin (perform_all cs h) × SameBounds h (perform_all cs h)
unfolding perform_all
perform_all-IsWithin [] h i = (i, (refl, refl))
perform_all-IsWithin (c ∷ cs) h i =
    let (within, same) = perform-IsWithin c h i in
    let (after, bounds) = perform_all-IsWithin cs (perform c h) within in
    (after, (bounds.0 ∙ same.0, bounds.1 ∙ same.1))

-- However streams come and go at a new hub, in any interleaving, it never counts more than
-- `max_connections` subscribers or `max_symbols` symbols, and each symbol that it holds has a
-- subscriber.
pub new_hub-IsWithin :
    (max_symbols max_connections : ℕ) (cs : List Change)
    → (total_subscribers (perform_all cs (new_hub max_symbols max_connections)).subscriptions
        ≤ max_connections)
      × (length (perform_all cs (new_hub max_symbols max_connections)).subscriptions ≤ max_symbols)
      × All (λ p. 0 < p.1) (perform_all cs (new_hub max_symbols max_connections)).subscriptions
unfolding new_hub total_subscribers
new_hub-IsWithin max_symbols max_connections cs =
    let (within, same) =
      perform_all-IsWithin cs (new_hub max_symbols max_connections) (record {
        distinct = tt;
        connections = omega arith;
        symbols = omega arith;
        positive = tt;
      }) in
    (
      omega (arith, within.connections, same.1),
      omega (arith, within.symbols, same.0),
      within.positive,
    )
