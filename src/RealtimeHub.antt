-- ===== src/RealtimeHub.antt =====
-- backend/app/realtime/hub.py: the count of subscribers for each symbol that both hubs keep, with its
-- two capacities. Each method runs under the hub's lock, so the interleavings of the streams are
-- sequences of these operations.
pub mod Capacity
pub mod Upstream
mod Tests
use stockassist.Common.{
  ℕ, suc, ◌+◌, ◌-◌, String, Bool, true, false, not, ◌&&◌, ltb, leb, if◌then◌else◌, ◌==◌, string_eq,
  Option, none, some, List, [], ◌∷◌, map, length, Result, ok, err, ◌>>=◌, ◌>>◌, require,
}
use stockassist.Common.Dict.{lookup, insert, erase}
use stockassist.Common.Order.{Order, nat_order}
use stockassist.Common.Sort.{sort}
use stockassist.Common.Text.{string_order, pair_order}

pub data Error : Type 0 where
  connection_capacity symbol_capacity : Error

-- `_max_symbols`, `_max_connections` and `_subscriptions`.
pub record Hub : Type 0 where
  pub max_symbols : ℕ
  pub max_connections : ℕ
  pub subscriptions : List (String × ℕ)

-- `sum(self._subscriptions.values())`
unfoldable pub total_subscribers : List (String × ℕ) → ℕ
total_subscribers [] = 0
total_subscribers ((_, n) ∷ m) = n + total_subscribers m

-- `self._subscriptions.get(symbol, 0)`
unfoldable pub subscribers_of : String → Hub → ℕ
subscribers_of symbol h = elim (lookup symbol h.subscriptions) [ none ↦ 0 | some n ↦ n ]

abbrev pub has_key {ℓ} : {A : Type ℓ} → Option A → Bool
has_key none = false
has_key (some _) = true

-- `symbol in self._subscriptions`
abbrev pub is_subscribed : String → Hub → Bool
is_subscribed symbol h = has_key (lookup symbol h.subscriptions)

unfoldable pub new_hub : ℕ → ℕ → Hub
new_hub max_symbols max_connections = record {
  max_symbols = max_symbols;
  max_connections = max_connections;
  subscriptions = [];
}

-- `_register` of the streaming hub: whether the subscriber is the first one.
unfoldable pub register : String → Hub → Result Error (Bool × Hub)
unfolding total_subscribers subscribers_of
register symbol h = do
  require (not (leb h.max_connections (total_subscribers h.subscriptions))) connection_capacity
  require (not (not (is_subscribed symbol h) && leb h.max_symbols (length h.subscriptions)))
      symbol_capacity
  ok (
    not (is_subscribed symbol h),
    record h { subscriptions = insert symbol (subscribers_of symbol h + 1) h.subscriptions },
  )

-- `_unregister` of the streaming hub: whether the subscriber was the last one. Where the source
-- subtracts 1 from 0 it also removes the key, so that `n - 1` on ℕ takes the same branch.
unfoldable pub unregister : String → Hub → Bool × Hub
unfolding subscribers_of
unregister symbol h =
    let subscribers = subscribers_of symbol h - 1 in
    elim (leb subscribers 0) [
      | true ↦ (true, record h { subscriptions = erase symbol h.subscriptions })
      | false ↦ (false, record h { subscriptions = insert symbol subscribers h.subscriptions })
    ]

-- The polling hub's `_register` and `_unregister` make the same change and return nothing.
unfoldable pub poll_register : String → Hub → Result Error Hub
unfolding total_subscribers subscribers_of
poll_register symbol h = do
  require (not (leb h.max_connections (total_subscribers h.subscriptions))) connection_capacity
  require (not (not (is_subscribed symbol h) && leb h.max_symbols (length h.subscriptions)))
      symbol_capacity
  ok (record h { subscriptions = insert symbol (subscribers_of symbol h + 1) h.subscriptions })

unfoldable pub poll_unregister : String → Hub → Hub
unfolding subscribers_of
poll_unregister symbol h =
    let subscribers = subscribers_of symbol h - 1 in
    elim (leb subscribers 0) [
      | true ↦ record h { subscriptions = erase symbol h.subscriptions }
      | false ↦ record h { subscriptions = insert symbol subscribers h.subscriptions }
    ]

-- More subscribers first, then by the symbol.
abbrev pub most_first : Order ℕ
most_first = record {
  le = λ a b. leb b a;
  total = λ a b. nat_order.total b a;
  trans = λ a b c h k. nat_order.trans c b a k h;
}

unfoldable pub active_symbols : Hub → List String
unfolding sort
active_symbols h =
    map (λ p. p.0) (sort ⦃o = pair_order ⦃o = most_first⦄⦄ (λ p. (p.1, p.0)) h.subscriptions)
