-- ===== src/ModelArtifacts.antt =====
-- backend/app/prediction/artifacts.py: ModelArtifactStore, the staged artifacts of models and the
-- pointers to the active ones. A directory is the files in it; a file that is written is there as a
-- whole. A manifest above its limit of size cannot be read, also one that was just written; pointers
-- that the store writes are far below it. A metric is the text that JSON has for it. The regular
-- expressions, `str.strip`, `str.upper`, `str.casefold`, the digests, the size of a manifest's JSON
-- and `Path(name).name == name` are arguments, and so is what the clock reads when an artifact is
-- staged; the time of an activation is left out.
pub mod Pointers
pub mod Staged
mod Tests
use stockassist.Common.{
  ℕ, ◌*◌, String, Bool, true, false, not, ◌&&◌, ltb, leb, if◌then◌else◌, ◌==◌, string_eq, Option,
  none, some, List, [], ◌∷◌, Result, ok, err, ◌>>=◌, ◌>>◌, require,
}
use stockassist.Common.Dict.{lookup, insert}
use stockassist.Common.Int.{ℤ, pos, ltb_ℤ, int_eq}

pub data Error : Type 0 where
  invalid_version invalid_symbol invalid_algorithm invalid_horizon : Error
  unreadable_metadata invalid_manifest version_mismatch scope_mismatch path_not_plain : Error
  missing_file escapes_root not_regular bad_size checksum_failed directory_exists write_failed :
      Error
  no_active_model no_previous_model : Error

pub record Manifest : Type 0 where
  pub version : String
  pub symbol : String
  pub algorithm : String
  pub horizon_days : ℤ
  pub artifact_file : String
  pub artifact_sha256 : String
  pub validation_status : String
  pub validation_metrics : List (String × String)
  pub created_at : String

-- A file, or what a link leads to, and whether that lies in the root.
pub record File : Type 0 where
  pub inside : Bool
  pub regular : Bool
  pub size : ℕ
  pub content : String

-- The directory of a version: `manifest` is `none` without a manifest, and `some none` where it
-- cannot be read.
pub record Directory : Type 0 where
  pub manifest : Option (Option Manifest)
  pub files : List (String × File)

pub record Pointer : Type 0 where
  pub version : Option String
  pub previous_version : Option String

-- `staged` and `active`, by the names of the directories and of the pointers' files; `none` is a
-- pointer that cannot be read.
pub record Store : Type 0 where
  pub staged : List (String × Directory)
  pub active : List (String × Option Pointer)

pub record Scope : Type 0 where
  pub symbol : String
  pub algorithm : String
  pub horizon_days : ℤ

pub record Calls : Type 0 where
  pub is_version : String → Bool
  pub is_symbol : String → Bool
  pub is_algorithm : String → Bool
  pub strip : String → String
  pub upper : String → String
  pub casefold : String → String
  pub is_plain : String → Bool
  pub sha256 : String → String
  pub scope_name : Scope → String
  pub manifest_size : Manifest → ℕ

-- 512 MiB
abbrev pub max_artifact_bytes : ℕ
max_artifact_bytes = 512 * 1024 * 1024

-- `_read_json` of a pointer.
unfoldable pub read_pointer : Option Pointer → Result Error Pointer
read_pointer none = err unreadable_metadata
read_pointer (some p) = ok p

-- The version that the new pointer replaces.
unfoldable pub previous_of : Option (Option Pointer) → Result Error (Option String)
unfolding read_pointer
previous_of none = ok none
previous_of (some held) = read_pointer held >>= λ p. ok p.version

-- 64 KiB
abbrev pub max_manifest_bytes : ℕ
max_manifest_bytes = 64 * 1024

module _ (c : Calls) where
  open c use {
    manifest_size, is_version, is_symbol, is_algorithm, strip, upper, casefold, is_plain, sha256,
    scope_name,
  }

  unfoldable pub validate_symbol : String → Result Error String
  validate_symbol symbol = do
    require (is_symbol (upper (strip symbol))) invalid_symbol
    ok (upper (strip symbol))

  unfoldable pub validate_algorithm : String → Result Error String
  validate_algorithm algorithm = do
    require (is_algorithm (casefold (strip algorithm))) invalid_algorithm
    ok (casefold (strip algorithm))

  -- The scope with its texts normalised.
  unfoldable pub validate_scope : Scope → Result Error Scope
  unfolding validate_symbol validate_algorithm
  validate_scope scope = do
    symbol ← validate_symbol scope.symbol
    algorithm ← validate_algorithm scope.algorithm
    ok (record scope { symbol = symbol; algorithm = algorithm })

  -- `_assert_scope`
  unfoldable pub assert_scope : Manifest → Scope → Result Error (Unit {0})
  assert_scope m scope =
      require
        (m.symbol == scope.symbol
          && m.algorithm == scope.algorithm
          && int_eq.beq m.horizon_days scope.horizon_days)
        scope_mismatch

  -- `_read_manifest`
  unfoldable pub read_manifest : Option Directory → Result Error Manifest
  unfolding validate_symbol validate_algorithm
  read_manifest directory = do
    found ← elim directory [ none ↦ err unreadable_metadata | some d ↦ ok d ]
    file ← elim found.manifest [ none ↦ err unreadable_metadata | some m ↦ ok m ]
    m ← elim file [ none ↦ err invalid_manifest | some m ↦ ok m ]
    symbol ← elim (validate_symbol m.symbol) [ ok s ↦ ok s | err _ ↦ err invalid_manifest ]
    algorithm ← elim (validate_algorithm m.algorithm) [ ok a ↦ ok a | err _ ↦ err invalid_manifest ]
    ok (record m { symbol = symbol; algorithm = algorithm })

  -- `_validate_artifact_file`
  unfoldable pub validate_artifact_file : File → Result Error (Unit {0})
  validate_artifact_file f = do
    require f.regular not_regular
    require (ltb 0 f.size && leb f.size max_artifact_bytes) bad_size

  -- `_safe_artifact_path`, and the file there.
  unfoldable pub artifact_of : Option Directory → String → Result Error File
  artifact_of directory name = do
    require (is_plain name) path_not_plain
    found ← elim directory [ none ↦ err missing_file | some d ↦ ok d ]
    file ← elim (lookup name found.files) [ none ↦ err missing_file | some f ↦ ok f ]
    require file.inside escapes_root
    ok file

  -- The manifest of the directory of a version.
  unfoldable pub read_version : String → Option Directory → Result Error Manifest
  unfolding read_manifest
  read_version version directory = do
    require (is_version version) invalid_version
    manifest ← read_manifest directory
    require (manifest.version == version) version_mismatch
    ok manifest

  unfoldable pub check_scope : Option Scope → Manifest → Result Error (Unit {0})
  unfolding validate_scope assert_scope
  check_scope none m = ok tt
  check_scope (some asked) m = validate_scope asked >>= λ normal. assert_scope m normal

  -- The artifact that the manifest names is the one that was written.
  unfoldable pub check_artifact : Option Directory → Manifest → Result Error (Unit {0})
  unfolding artifact_of validate_artifact_file
  check_artifact directory m = do
    file ← artifact_of directory m.artifact_file
    validate_artifact_file file
    require (sha256 file.content == m.artifact_sha256) checksum_failed

  unfoldable pub verify : Store → String → Option Scope → Result Error Manifest
  unfolding read_version check_scope check_artifact
  verify s version scope = do
    manifest ← read_version version (lookup version s.staged)
    check_scope scope manifest
    check_artifact (lookup version s.staged) manifest
    ok manifest

  -- `_pointer_path`
  unfoldable pub pointer_path : Scope → Result Error String
  unfolding validate_scope
  pointer_path scope = validate_scope scope >>= λ normal. ok (scope_name normal)

  unfoldable pub activate : Store → String → Scope → Result Error (Store × Manifest)
  unfolding verify pointer_path previous_of
  activate s version scope = do
    manifest ← verify s version (some scope)
    path ← pointer_path scope
    previous ← previous_of (lookup path s.active)
    ok (
      record s {
        active =
            insert path
              (some (record { version = some manifest.version; previous_version = previous }))
              s.active;
      },
      manifest,
    )

  unfoldable pub rollback : Store → Scope → Result Error (Store × Manifest)
  unfolding verify pointer_path read_pointer
  rollback s scope = do
    path ← pointer_path scope
    held ← elim (lookup path s.active) [ none ↦ err no_active_model | some p ↦ ok p ]
    pointer ← read_pointer held
    current_version ← elim pointer.version [ none ↦ err no_previous_model | some v ↦ ok v ]
    previous_version ← elim pointer.previous_version [
      | none ↦ err no_previous_model
      | some v ↦ ok v
    ]
    manifest ← verify s previous_version (some scope)
    ok (
      record s {
        active =
            insert path
              (some (record {
                version = some previous_version;
                previous_version = some current_version;
              }))
              s.active;
      },
      manifest,
    )

  -- What the file of the pointer gives, if there is one.
  unfoldable pub current_of :
      Store → Scope → Option (Option Pointer) → Result Error (Option Manifest)
  unfolding verify read_pointer
  current_of s scope none = ok none
  current_of s scope (some held) = do
    pointer ← read_pointer held
    version ← elim pointer.version [ none ↦ err no_active_model | some v ↦ ok v ]
    manifest ← verify s version (some scope)
    ok (some manifest)

  unfoldable pub current : Store → Scope → Result Error (Option Manifest)
  unfolding pointer_path current_of
  current s scope = pointer_path scope >>= λ path. current_of s scope (lookup path s.active)

  -- `stage` where the version has a directory.
  unfoldable pub stage_again :
      Store → String → Scope → Option (Option Manifest) → Result Error (Store × Manifest)
  unfolding verify assert_scope
  stage_again s version normal none = err directory_exists
  stage_again s version normal (some _) = do
    existing ← verify s version none
    assert_scope existing normal
    ok (s, existing)

  -- The manifest as `_read_json` will find it. A regular file of a new directory lies in the root.
  unfoldable pub directory_of : Manifest → File → Directory
  directory_of m file = record {
    manifest = some (if leb (manifest_size m) max_manifest_bytes then some m else none);
    files = ("model.ubj", record file { inside = true }) ∷ [];
  }

  unfoldable pub manifest_of :
      String → Scope → String → List (String × String) → String → File → Manifest
  manifest_of version normal validation_status validation_metrics created_at file = record {
    version = version;
    symbol = normal.symbol;
    algorithm = normal.algorithm;
    horizon_days = normal.horizon_days;
    artifact_file = "model.ubj";
    artifact_sha256 = sha256 file.content;
    validation_status = validation_status;
    validation_metrics = validation_metrics;
    created_at = created_at;
  }

  -- `stage` where it has none; `written` is the file that `write_artifact` leaves, if it does not
  -- raise.
  unfoldable pub stage_new :
      Store
      → String
      → Scope
      → String
      → List (String × String)
      → String
      → Option File
      → Result Error (Store × Manifest)
  unfolding validate_artifact_file manifest_of directory_of
  stage_new s version normal validation_status validation_metrics created_at written = do
    file ← elim written [ none ↦ err write_failed | some f ↦ ok f ]
    validate_artifact_file file
    let manifest : Manifest =
        manifest_of version normal validation_status validation_metrics created_at file
    ok (record s { staged = insert version (directory_of manifest file) s.staged }, manifest)

  unfoldable pub stage :
      Store
      → String
      → Scope
      → String
      → List (String × String)
      → String
      → Option File
      → Result Error (Store × Manifest)
  unfolding validate_scope stage_again stage_new
  stage s version scope validation_status validation_metrics created_at written = do
    require (is_version version) invalid_version
    normal ← validate_scope scope
    require (not (ltb_ℤ scope.horizon_days (pos 1)) && not (ltb_ℤ (pos 365) scope.horizon_days))
        invalid_horizon
    elim (lookup version s.staged) [
      | some directory ↦ stage_again s version normal directory.manifest
      | none ↦ stage_new s version normal validation_status validation_metrics created_at written
    ]
