-- ===== src/ActionStore/Tests.antt =====
-- Batches of actions whose factors are thousandths, and the theorems at them.
use stockassist.Common.{
  ℕ, ◌+◌, ◌≡◌, refl, true, Option, none, some, List, [], ◌∷◌, length, map, Result, ok, err, ltb,
  if◌then◌else◌, nat_eq,
}
use stockassist.Common.Order.{nat_order}
use stockassist.Common.Text.{lex_le, string_order, pair_order}
use stockassist.Common.Int.{pos, int_order}
use stockassist.Market.{Datetime}
use stockassist.CorporateActions.{Action}
use stockassist.ActionStore.{
  Error, Key, Saved, conflicting_batch, revision_exists, bad_revision_or_factors, list_known,
  save_batch,
}
use stockassist.ActionStore.Saving.{Keeps}
use stockassist.ActionStore.Twice.{save_batch-counts, save_batch_again}

program : Unit {0}
unfolding save_batch list_known lex_le
program = tt

abbrev time : ℕ → Datetime
time t = record { aware = true; instant = t }

abbrev quantize : ℕ → Option ℕ
quantize n = if ltb n 1000000 then some n else none

abbrev split : ℕ → ℕ → ℕ → Action ℕ
split revision known factor = record {
  symbol = "005930";
  action_type = "split";
  event_id = "e1";
  revision = pos revision;
  effective_at = time 20;
  announced_at = none;
  known_at = time known;
  price_factor = factor;
  volume_factor = 2000;
  status = "confirmed";
  source = "dart";
  rule_version = "v1";
}

abbrev save : List (Action ℕ) → List (Key × Action ℕ) → Result Error (Saved ℕ)
save = save_batch quantize (λ x. ltb 0 x)

abbrev value_or_empty : Result Error (Saved ℕ) → Saved ℕ
value_or_empty (ok s) = s
value_or_empty (err e) = record { created = 0; unchanged = 0; table = [] }

abbrev first : Saved ℕ
first = value_or_empty (save (split 1 5 500 ∷ split 1 5 500 ∷ []) [])

abbrev second : Saved ℕ
second = value_or_empty (save (split 2 25 400 ∷ split 1 5 500 ∷ []) first.table)

first_counts : (first.created ≡ 1) × (first.unchanged ≡ 1)
unfolding program
first_counts = (refl, refl)

second_counts : (second.created ≡ 1) × (second.unchanged ≡ 1) × (length second.table ≡ 2)
unfolding program
second_counts = (refl, refl, refl)

changed_revision : save (split 1 5 400 ∷ []) first.table ≡ err revision_exists
unfolding program
changed_revision = refl

changed_in_batch : save (split 1 5 400 ∷ split 1 5 500 ∷ []) [] ≡ err conflicting_batch
unfolding program
changed_in_batch = refl

revision_zero : save (split 0 5 400 ∷ []) [] ≡ err bad_revision_or_factors
unfolding program
revision_zero = refl

abbrev factors : Result Error (List (Action ℕ)) → List ℕ
factors (ok actions) = map (λ a. a.price_factor) actions
factors (err e) = []

known_before : factors (list_known "005930" (time 24) second.table) ≡ 500 ∷ []
unfolding program
known_before = refl

known_after : factors (list_known "005930" (time 25) second.table) ≡ 500 ∷ 400 ∷ []
unfolding program
known_after = refl

save_batch-counts_example :
    Keeps first.table second.table
    × (second.created + second.unchanged ≡ 2)
    × (length second.table ≡ length first.table + second.created)
unfolding program
save_batch-counts_example =
    save_batch-counts quantize (λ x. ltb 0 x) (split 2 25 400 ∷ split 1 5 500 ∷ []) first.table
      second refl

save_batch_again_example :
    save (split 2 25 400 ∷ split 1 5 500 ∷ []) second.table
    ≡ ok (record { created = 0; unchanged = 2; table = second.table })
unfolding program
save_batch_again_example =
    save_batch_again quantize (λ x. ltb 0 x) (split 2 25 400 ∷ split 1 5 500 ∷ []) first.table
      second refl
