-- ===== src/ModelRegistry.antt =====
-- backend/app/services/model_registry.py and the prediction repository of
-- backend/app/repositories/memory.py: the versions of prediction models, of which one is the champion
-- of its symbol, algorithm and horizon. The artifact store and the clock are arguments; the metrics
-- of a version are a value that is only passed on.
pub mod Champion
mod Tests
use stockassist.Common.{
  ℕ, String, Bool, true, false, not, ◌&&◌, if◌then◌else◌, ◌==◌, nat_eq, string_eq, pair_eq, leb,
  Option, none, some, List, [], ◌∷◌, ◌++◌, map, keep, length, take, drop, Result, ok, err,
}
use stockassist.Common.Dict.{lookup, insert}
use stockassist.Common.Order.{Order, nat_order}
use stockassist.Common.Sort.{sort}
use stockassist.Common.Text.{string_order, pair_order}

pub data RegistryStage : Type 0 where
  challenger champion : RegistryStage

pub record ModelVersionRecord (M : Type 0) : Type 0 where
  pub version : String
  pub symbol : String
  pub algorithm : String
  pub horizon_days : ℕ
  pub validation_status : String
  pub validation_metrics : M
  pub registry_stage : RegistryStage
  pub data_as_of : ℕ
  pub promoted_at : Option ℕ

-- What the repository reads of a `PredictionResult`.
pub record PredictionResult (M : Type 0) : Type 0 where
  pub model_version : String
  pub symbol : String
  pub horizon_days : ℕ
  pub validation_status : String
  pub validation_metrics : M
  pub data_as_of : ℕ

pub record Repository (M : Type 0) : Type 0 where
  pub items : List (PredictionResult M)
  pub versions : List (String × ModelVersionRecord M)

pub data Error : Type 0 where
  registry_unavailable : Error
  version_not_found : String → Error
  artifact_error : String → Error

-- `ModelArtifactStore`: `verify` and `activate` answer, or raise.
pub record ArtifactStore : Type 0 where
  pub verify : String → String → String → ℕ → Result String (Unit {0})
  pub activate : String → String → String → ℕ → Result String (Unit {0})

abbrev pub is_champion : RegistryStage → Bool
is_champion champion = true
is_champion challenger = false

-- The symbol, algorithm and horizon that a model is for.
abbrev pub slot : {M : Type 0} → ModelVersionRecord M → String × (String × ℕ)
slot r = (r.symbol, (r.algorithm, r.horizon_days))

abbrev pub latest_first : Order (ℕ × String)
latest_first = record {
  le = λ a b. pair_order.le b a;
  total = λ a b. pair_order.total b a;
  trans = λ a b c h k. pair_order.trans c b a k h;
}

abbrev pub matches_text : Option String → String → Bool
matches_text none s = true
matches_text (some t) s = s == t

abbrev pub matches_number : Option ℕ → ℕ → Bool
matches_number none n = true
matches_number (some m) n = n == m

module _ {M : Type 0} where
  unfoldable pub empty : Repository M
  empty = record { items = []; versions = [] }

  -- `setdefault`: a version that is known keeps its record.
  unfoldable pub save : PredictionResult M → String → Repository M → Repository M
  save p algorithm r = record {
    items = r.items ++ p ∷ [];
    versions = elim (lookup p.model_version r.versions) [
      | some _ ↦ r.versions
      | none ↦
          insert p.model_version
            (record {
              version = p.model_version;
              symbol = p.symbol;
              algorithm = algorithm;
              horizon_days = p.horizon_days;
              validation_status = p.validation_status;
              validation_metrics = p.validation_metrics;
              registry_stage = challenger;
              data_as_of = p.data_as_of;
              promoted_at = none;
            })
            r.versions
    ];
  }

  unfoldable pub list_versions :
      ℕ
      → ℕ
      → Option String
      → Option String
      → Option ℕ
      → Repository M
      → List (ModelVersionRecord M) × ℕ
  unfolding sort
  list_versions limit offset symbol algorithm horizon r =
      let found =
        sort ⦃o = latest_first⦄ (λ v. (v.data_as_of, v.version))
          (keep
            (λ v.
              matches_text symbol v.symbol
              && matches_text algorithm v.algorithm
              && matches_number horizon v.horizon_days)
            (map (λ p. p.1) r.versions)) in
      (take limit (drop offset found), length found)

  unfoldable pub get_version : String → Repository M → Option (ModelVersionRecord M)
  get_version version r = lookup version r.versions

  -- The body of the loop of `promote`, on one record.
  unfoldable pub demote : ModelVersionRecord M → ModelVersionRecord M → ModelVersionRecord M
  demote target v =
      if is_champion v.registry_stage && slot v == slot target
      then record v { registry_stage = challenger }
      else v

  -- The loop writes each record back under its own key.
  unfoldable pub demote_all :
      ModelVersionRecord M
      → List (String × ModelVersionRecord M)
      → List (String × ModelVersionRecord M)
  unfolding demote
  demote_all target [] = []
  demote_all target ((k, v) ∷ m) = (k, demote target v) ∷ demote_all target m

  unfoldable pub promote : String → ℕ → Repository M → Option (ModelVersionRecord M) × Repository M
  unfolding demote_all
  promote version now r = elim (lookup version r.versions) [
    | none ↦ (none, r)
    | some target ↦
        let promoted : ModelVersionRecord M = (record target {
          registry_stage = champion;
          promoted_at = some now;
        }) in
        (
          some promoted,
          record r { versions = insert version promoted (demote_all target r.versions) },
        )
  ]

  -- The service: whether the runtime artifact was activated. What it raises after the repository has
  -- promoted leaves the promotion in place.
  unfoldable pub promote_version :
      Option ArtifactStore
      → String
      → ℕ
      → Repository M
      → Result Error (ModelVersionRecord M × Bool) × Repository M
  unfolding get_version promote
  promote_version store version now r = elim (get_version version r) [
    | none ↦ (err (version_not_found version), r)
    | some candidate ↦
        let go = promote version now r in
        elim store [
          | none ↦ elim go.0 [
            | none ↦ (err (version_not_found version), go.1)
            | some v ↦ (ok (v, false), go.1)
          ]
          | some s ↦
              elim (s.verify version candidate.symbol candidate.algorithm candidate.horizon_days) [
                | err e ↦ (err (artifact_error e), r)
                | ok _ ↦ elim go.0 [
                  | none ↦ (err (version_not_found version), go.1)
                  | some v ↦ elim (s.activate version v.symbol v.algorithm v.horizon_days) [
                    | err e ↦ (err (artifact_error e), go.1)
                    | ok _ ↦ (ok (v, true), go.1)
                  ]
                ]
              ]
        ]
  ]
