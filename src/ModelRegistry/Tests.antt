-- ===== src/ModelRegistry/Tests.antt =====
-- Three models of one slot, promoted in turn.
use stockassist.Common.{
  ℕ, String, Bool, true, false, ◌≡◌, refl, none, some, List, [], ◌∷◌, map, err, string_eq,
}
use stockassist.Common.Text.{lex_le}
use stockassist.ModelRegistry.{
  champion, ModelVersionRecord, PredictionResult, version_not_found, empty, promote_version,
  list_versions, is_champion,
}
use stockassist.ModelRegistry.Champion.{
  Operation, saves, promotes, perform_all, IsChampion, perform_all_champion,
}

program : Unit {0}
unfolding empty perform_all promote_version list_versions lex_le
program = tt

abbrev prediction : String → ℕ → PredictionResult ℕ
prediction version as_of = record {
  model_version = version;
  symbol = "005930";
  horizon_days = 5;
  validation_status = "validated";
  validation_metrics = 0;
  data_as_of = as_of;
}

abbrev history : List (Operation ℕ)
history =
    saves (prediction "v1" 1) "xgboost"
    ∷ saves (prediction "v2" 2) "xgboost"
    ∷ promotes "v1" 7
    ∷ saves (prediction "v3" 3) "xgboost"
    ∷ promotes "v3" 9
    ∷ []

stages : List (ModelVersionRecord ℕ) → List Bool
stages vs = map (λ v. is_champion v.registry_stage) vs

-- The newest data first: v3, v2, v1.
history_stages :
    stages (list_versions 5 0 none none none (perform_all history empty)).0
    ≡ true ∷ false ∷ false ∷ []
unfolding program stages
history_stages = refl

unknown_version :
    (promote_version none "v9" 9 (perform_all history empty)).0 ≡ err (version_not_found "v9")
unfolding program
unknown_version = refl

abbrev third : ModelVersionRecord ℕ
third = record {
  version = "v3";
  symbol = "005930";
  algorithm = "xgboost";
  horizon_days = 5;
  validation_status = "validated";
  validation_metrics = 0;
  registry_stage = champion;
  data_as_of = 3;
  promoted_at = some 9;
}

abbrev third_version : String
third_version = "v3"

third-IsChampion : IsChampion (perform_all history empty) third_version third
unfolding program
third-IsChampion = (refl, refl)

perform_all_champion_example : third_version ≡ third_version
perform_all_champion_example =
    perform_all_champion history third_version third_version third third third-IsChampion
      third-IsChampion refl
