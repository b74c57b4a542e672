-- ===== src/ModelArtifacts/Tests.antt =====
-- Two versions that are staged and activated, and a rollback.
use stockassist.Common.{◌≡◌, refl, String, true, false, some, [], Result, ok, err}
use stockassist.Common.Int.{pos}
use stockassist.ModelArtifacts.{
  Calls, Store, Scope, Manifest, File, Error, stage, activate, current, rollback, verify,
  invalid_horizon, not_regular, no_previous_model,
}
use stockassist.ModelArtifacts.Pointers.{rollback-activate}
use stockassist.ModelArtifacts.Staged.{verify-stage}

program : Unit {0}
unfolding stage activate current rollback verify
program = tt

abbrev calls : Calls
calls = record {
  is_version = λ _. true;
  is_symbol = λ _. true;
  is_algorithm = λ _. true;
  strip = λ t. t;
  upper = λ t. t;
  casefold = λ t. t;
  is_plain = λ _. true;
  sha256 = λ t. t;
  scope_name = λ s. s.symbol;
  manifest_size = λ m. 300;
}

abbrev scope : Scope
scope = record { symbol = "005930"; algorithm = "xgboost"; horizon_days = pos 5 }

abbrev model : String → File
model content = record { inside = true; regular = true; size = 10; content = content }

abbrev empty : Store
empty = record { staged = []; active = [] }

abbrev store_or : Result Error (Store × Manifest) → Store
store_or (ok (s, _)) = s
store_or (err _) = empty

abbrev manifest_or : Manifest → Result Error (Store × Manifest) → Manifest
manifest_or d (ok (_, m)) = m
manifest_or d (err _) = d

abbrev nothing : Manifest
nothing = record {
  version = "";
  symbol = "";
  algorithm = "";
  horizon_days = pos 0;
  artifact_file = "";
  artifact_sha256 = "";
  validation_status = "";
  validation_metrics = [];
  created_at = "";
}

abbrev staged : String → Store → Result Error (Store × Manifest)
staged v s = stage calls s v scope "passed" [] "2026-01-05T00:00:00+00:00" (some (model v))

abbrev two : Store
two = store_or (staged "v2" (store_or (staged "v1" empty)))

abbrev first : Result Error (Store × Manifest)
first = activate calls two "v1" scope

abbrev second : Result Error (Store × Manifest)
second = activate calls (store_or first) "v2" scope

no_horizon :
    stage calls empty "v1"
      (record scope { horizon_days = pos 0 })
      "passed"
      []
      "2026-01-05T00:00:00+00:00"
      (some (model "v1"))
    ≡ err invalid_horizon
unfolding program
no_horizon = refl

no_link :
    stage calls empty "v1" scope "passed" [] "2026-01-05T00:00:00+00:00"
      (some (record (model "v1") { regular = false }))
    ≡ err not_regular
unfolding program
no_link = refl

nothing_before : rollback calls (store_or first) scope ≡ err no_previous_model
unfolding program
nothing_before = refl

rollback-activate_example :
    (current calls (store_or second) scope ≡ ok (some (manifest_or nothing second)))
    × ((s'' : Store) × (rollback calls (store_or second) scope
          ≡ ok (s'', manifest_or nothing first))
        × (current calls s'' scope ≡ ok (some (manifest_or nothing first))))
unfolding program
rollback-activate_example =
    rollback-activate calls (store_or first) "v2" scope (store_or second)
      (manifest_or nothing first) (manifest_or nothing second) refl refl

verify-stage_example :
    verify calls (store_or (staged "v1" empty)) "v1" (some scope)
    ≡ ok (manifest_or nothing (staged "v1" empty))
unfolding program
verify-stage_example =
    verify-stage calls (record { symbols = λ t valid. refl; algorithms = λ t valid. refl }) empty
      "v1" scope "passed" [] "2026-01-05T00:00:00+00:00" (some (model "v1"))
      (store_or (staged "v1" empty)) (manifest_or nothing (staged "v1" empty)) refl refl refl
