-- ===== src/RealtimeHub/Tests.antt =====
-- A hub with room for two symbols and three connections.
use stockassist.Common.{
  ◌≤◌, ◌<◌, ◌≡◌, refl, List, [], ◌∷◌, false, true, length, All, err, string_eq,
}
use stockassist.Common.Text.{lex_le}
use stockassist.RealtimeHub.{
  is_subscribed, total_subscribers, new_hub, register, active_symbols, connection_capacity,
  symbol_capacity,
}
use stockassist.RealtimeHub.Capacity.{Change, joins, leaves, perform_all, new_hub-IsWithin}
use stockassist.RealtimeHub.Upstream.{is_requested, stream_all, stream_all-is_requested}

program : Unit {0}
unfolding new_hub register active_symbols perform_all stream_all lex_le
program = tt

abbrev day : List Change
day =
    joins "b"
    ∷ joins "a"
    ∷ joins "c"
    ∷ joins "a"
    ∷ joins "a"
    ∷ leaves "b"
    ∷ joins "c"
    ∷ leaves "c"
    ∷ []

day_active : active_symbols (perform_all day (new_hub 2 3)) ≡ "a" ∷ []
unfolding program
day_active = refl

full :
    register "a" (perform_all (joins "a" ∷ joins "b" ∷ []) (new_hub 2 2)) ≡ err connection_capacity
unfolding program
full = refl

crowded :
    register "c" (perform_all (joins "a" ∷ joins "b" ∷ []) (new_hub 2 3)) ≡ err symbol_capacity
unfolding program
crowded = refl

new_hub-IsWithin_example :
    (total_subscribers (perform_all day (new_hub 2 3)).subscriptions ≤ 3)
    × (length (perform_all day (new_hub 2 3)).subscriptions ≤ 2)
    × All (λ p. 0 < p.1) (perform_all day (new_hub 2 3)).subscriptions
new_hub-IsWithin_example = new_hub-IsWithin 2 3 day

calls :
    (stream_all
      (joins "a" ∷ joins "a" ∷ leaves "a" ∷ leaves "a" ∷ [])
      (record { hub = new_hub 2 3; requests = [] })).requests
    ≡ ("a", false) ∷ ("a", true) ∷ []
unfolding program
calls = refl

stream_all-is_requested_example :
    is_requested "a" (stream_all day (record { hub = new_hub 2 3; requests = [] })).requests
    ≡ is_subscribed "a" (stream_all day (record { hub = new_hub 2 3; requests = [] })).hub
stream_all-is_requested_example = stream_all-is_requested 2 3 day "a"
