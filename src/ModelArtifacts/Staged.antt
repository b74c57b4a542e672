-- ===== src/ModelArtifacts/Staged.antt =====
-- What was staged verifies.
use stockassist.Common.{
  List, leb, ◌≡◌, refl, subst, ◌&&◌, sym, ap, ◌∙◌, String, true, not, ◌==◌, string_eq, Option, none,
  some, Option-cases, inl, inr, ok, err, require, returned_parts, required_true, ok_injective,
}
use stockassist.Common.Dict.{lookup, insert, lookup-insert_self}
use stockassist.Common.Int.{pos, ltb_ℤ, int_eq}
use stockassist.ModelArtifacts.{
  max_manifest_bytes, Store, Scope, Calls, Manifest, Directory, File, verify, read_version,
  read_manifest, check_scope, check_artifact, stage, validate_scope, validate_symbol,
  validate_algorithm, assert_scope, artifact_of, validate_artifact_file, directory_of, manifest_of,
  stage_again, stage_new, invalid_version, invalid_symbol, invalid_algorithm, invalid_horizon,
  write_failed,
}

same_text : (t : String) → (t == t) ≡ true
same_text t = (string_eq.beq_iff t t).1 refl

module _ (c : Calls) where
  -- A valid text is its own normal form.
  pub record Normalises : Type 0 where
    pub symbols : (t : String) → c.is_symbol t ≡ true → c.upper (c.strip t) ≡ t
    pub algorithms : (t : String) → c.is_algorithm t ≡ true → c.casefold (c.strip t) ≡ t

  module _ (fixed : Normalises) where
    normal_symbol : (x y : String) → validate_symbol c x ≡ ok y → validate_symbol c y ≡ ok y
    unfolding validate_symbol
    normal_symbol x y h =
        let (_, valid, h1) =
          returned_parts (require (c.is_symbol (c.upper (c.strip x))) invalid_symbol) _ y h in
        let e = ok_injective h1 in
        let good = ap c.is_symbol (sym e) ∙ required_true _ invalid_symbol _ valid in
        rw (fixed.symbols y good, good) refl

    normal_algorithm :
        (x y : String) → validate_algorithm c x ≡ ok y → validate_algorithm c y ≡ ok y
    unfolding validate_algorithm
    normal_algorithm x y h =
        let (_, valid, h1) =
          returned_parts (require (c.is_algorithm (c.casefold (c.strip x))) invalid_algorithm) _ y
            h in
        let e = ok_injective h1 in
        let good = ap c.is_algorithm (sym e) ∙ required_true _ invalid_algorithm _ valid in
        rw (fixed.algorithms y good, good) refl

    normal_scope :
        (scope normal : Scope)
        → validate_scope c scope ≡ ok normal
        → (validate_symbol c normal.symbol ≡ ok normal.symbol)
          × (validate_algorithm c normal.algorithm ≡ ok normal.algorithm)
    unfolding validate_scope
    normal_scope scope normal h =
        let (x, h1, h2) = returned_parts (validate_symbol c scope.symbol) _ normal h in
        let (y, h3, h4) = returned_parts (validate_algorithm c scope.algorithm) _ normal h2 in
        let e = ok_injective h4 in
        subst
          (λ (n : Scope).
            (validate_symbol c n.symbol ≡ ok n.symbol)
            × (validate_algorithm c n.algorithm ≡ ok n.algorithm))
          e (normal_symbol scope.symbol x h1, normal_algorithm scope.algorithm y h3)

    read_directory :
        (version : String) (m : Manifest) (f : File)
        → leb (c.manifest_size m) max_manifest_bytes ≡ true
        → c.is_version version ≡ true
        → m.version ≡ version
        → validate_symbol c m.symbol ≡ ok m.symbol
        → validate_algorithm c m.algorithm ≡ ok m.algorithm
        → read_version c version (some (directory_of c m f)) ≡ ok m
    unfolding read_version read_manifest directory_of
    read_directory version m f small valid same symbol algorithm =
        rw (small, valid, symbol) (rw (algorithm) (rw (same) (rw (same_text version) refl)))

    check_directory :
        (m : Manifest) (f : File)
        → c.is_plain "model.ubj" ≡ true
        → validate_artifact_file c f ≡ ok tt
        → m.artifact_file ≡ "model.ubj"
        → m.artifact_sha256 ≡ c.sha256 f.content
        → check_artifact c (some (directory_of c m f)) m ≡ ok tt
    unfolding check_artifact artifact_of directory_of validate_artifact_file
    check_directory m f plain valid named digest =
        rw (named) (rw plain (rw valid (rw digest (rw (same_text (c.sha256 f.content)) refl))))

    same_scope :
        (m : Manifest) (normal : Scope)
        → m.symbol ≡ normal.symbol
        → m.algorithm ≡ normal.algorithm
        → m.horizon_days ≡ normal.horizon_days
        → assert_scope c m normal ≡ ok tt
    unfolding assert_scope
    same_scope m normal symbol algorithm horizon =
        rw (symbol, algorithm, horizon)
          (rw
            (
              same_text normal.symbol,
              same_text normal.algorithm,
              (int_eq.beq_iff normal.horizon_days normal.horizon_days).1 refl,
            )
            refl)

    verified :
        (s : Store) (version : String) (scope : Scope) (m : Manifest) (d : Option Directory)
        → lookup version s.staged ≡ d
        → read_version c version d ≡ ok m
        → check_scope c (some scope) m ≡ ok tt
        → check_artifact c d m ≡ ok tt
        → verify c s version (some scope) ≡ ok m
    unfolding verify
    verified s version scope m d found read scoped checked =
        rw found (rw read (rw scoped (rw checked refl)))

    scoped :
        (scope normal : Scope) (m : Manifest)
        → validate_scope c scope ≡ ok normal
        → assert_scope c m normal ≡ ok tt
        → check_scope c (some scope) m ≡ ok tt
    unfolding check_scope
    scoped scope normal m normalised same = rw normalised same

    reread :
        (s : Store) (version : String) (scope normal : Scope) (m : Manifest)
        → validate_scope c scope ≡ ok normal
        → assert_scope c m normal ≡ ok tt
        → verify c s version none ≡ ok m
        → verify c s version (some scope) ≡ ok m
    unfolding verify check_scope
    reread s version scope normal m normalised same h =
        let (m1, read, h1) =
          returned_parts (read_version c version (lookup version s.staged)) _ m h in
        let (_, checked, h3) =
          returned_parts (check_artifact c (lookup version s.staged) m1) _ m h1 in
        let e = ok_injective h3 in
        verified s version scope m (lookup version s.staged) refl (read ∙ ap ok e)
          (scoped scope normal m normalised same)
          (ap (λ x. check_artifact c (lookup version s.staged) x) (sym e) ∙ checked)

    again :
        (s : Store) (version : String) (scope normal : Scope) (held : Option (Option Manifest))
        (s' : Store) (m : Manifest)
        → validate_scope c scope ≡ ok normal
        → stage_again c s version normal held ≡ ok (s', m)
        → verify c s' version (some scope) ≡ ok m
    unfolding stage_again
    again s version scope normal none s' m normalised h = cc
    again s version scope normal (some _) s' m normalised h =
        let (existing, intact, h1) = returned_parts (verify c s version none) _ (s', m) h in
        let (_, same, h2) = returned_parts (assert_scope c existing normal) _ (s', m) h1 in
        subst (λ (x : Store × Manifest). verify c x.0 version (some scope) ≡ ok x.1)
          (ok_injective h2) (reread s version scope normal existing normalised same intact)

    new :
        (s : Store) (version : String) (scope normal : Scope) (status : String)
        (metrics : List (String × String)) (created_at : String) (written : Option File)
        (s' : Store) (m : Manifest)
        → leb (c.manifest_size m) max_manifest_bytes ≡ true
        → c.is_version version ≡ true
        → c.is_plain "model.ubj" ≡ true
        → validate_scope c scope ≡ ok normal
        → stage_new c s version normal status metrics created_at written ≡ ok (s', m)
        → verify c s' version (some scope) ≡ ok m
    unfolding stage_new manifest_of
    new s version scope normal status metrics created_at written s' m small valid plain normalised
          h =
        let (f, present, h1) =
          returned_parts (elim written [ none ↦ err write_failed | some f ↦ ok f ]) _ (s', m) h in
        let (_, checked, h2) = returned_parts (validate_artifact_file c f) _ (s', m) h1 in
        let made = manifest_of c version normal status metrics created_at f in
        let (symbol, algorithm) = normal_scope scope normal normalised in
        subst (λ (x : Store × Manifest). verify c x.0 version (some scope) ≡ ok x.1)
          (ok_injective h2)
          (verified (record s { staged = insert version (directory_of c made f) s.staged }) version
            scope made (some (directory_of c made f))
            (lookup-insert_self version (directory_of c made f) s.staged)
            (read_directory version made f
              (ap (λ (x : Store × Manifest). leb (c.manifest_size x.1) max_manifest_bytes)
                  (ok_injective h2)
                ∙ small)
              valid refl symbol algorithm)
            (scoped scope normal made normalised (same_scope made normal refl refl refl))
            (check_directory made f plain checked refl refl))

    -- If a valid text is its own normal form, the name of the artifact is plain, and the manifest
    -- that `stage` returns is within the limit of size: the version then verifies in the store that
    -- `stage` leaves, for the scope that it was staged for and with that manifest, whether it is
    -- new or was there before.
    pub verify-stage :
        (s : Store) (version : String) (scope : Scope) (validation_status : String)
        (validation_metrics : List (String × String)) (created_at : String) (written : Option File)
        (s' : Store) (m : Manifest)
        → leb (c.manifest_size m) max_manifest_bytes ≡ true
        → c.is_plain "model.ubj" ≡ true
        → stage c s version scope validation_status validation_metrics created_at written
          ≡ ok (s', m)
        → verify c s' version (some scope) ≡ ok m
    unfolding stage
    verify-stage s version scope validation_status validation_metrics created_at written s' m small
          plain h =
        let (_, valid, h1) =
          returned_parts (require (c.is_version version) invalid_version) _ (s', m) h in
        let (normal, normalised, h2) = returned_parts (validate_scope c scope) _ (s', m) h1 in
        let (_, _, h3) =
          returned_parts
            (require
              (not (ltb_ℤ scope.horizon_days (pos 1)) && not (ltb_ℤ (pos 365) scope.horizon_days))
              invalid_horizon)
            _ (s', m) h2 in
        elim (Option-cases (lookup version s.staged)) [
          | inr (d, e) ↦ again s version scope normal d.manifest s' m normalised (rw e at h3)
          | inl e ↦
              new s version scope normal validation_status validation_metrics created_at written s'
                m small (required_true _ invalid_version _ valid) plain normalised (rw e at h3)
        ]
