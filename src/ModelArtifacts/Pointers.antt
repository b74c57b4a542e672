-- ===== src/ModelArtifacts/Pointers.antt =====
-- Pointers follow what verifies.
use stockassist.Common.{
  ◌≡◌, refl, sym, ap, ◌∙◌, String, ◌==◌, string_eq, Option, none, some, Option-cases, inl, inr,
  List, Result, Result-cases, ◌>>=◌, ok, require, returned_parts, required_true, ok_injective,
}
use stockassist.Common.Dict.{lookup, insert, lookup-insert_self, some_injective}
use stockassist.ModelArtifacts.{
  Error, Store, Scope, Calls, Manifest, Pointer, verify, read_version, read_manifest, check_scope,
  check_artifact, activate, rollback, current, current_of, pointer_path, previous_of, read_pointer,
  version_mismatch, invalid_version,
}

-- The store with a new pointer.
unfoldable pointed : Store → String → Option String → String → Store
pointed s path previous w = record s {
  active = insert path (some (record { version = some w; previous_version = previous })) s.active;
}

is_pointed :
    (s : Store) (path : String) (previous : Option String) (w : String)
    → record s {
      active =
          insert path (some (record { version = some w; previous_version = previous })) s.active;
    }
      ≡ pointed s path previous w
unfolding pointed
is_pointed s path previous w = refl

module _ (c : Calls) where
  verify_version :
      (s : Store) (v : String) (scope : Option Scope) (m : Manifest)
      → verify c s v scope ≡ ok m
      → m.version ≡ v
  unfolding verify read_version
  verify_version s v scope m h =
      let (m1, read, h1) = returned_parts (read_version c v (lookup v s.staged)) _ m h in
      let (_, _, h2) = returned_parts (check_scope c scope m1) _ m h1 in
      let (_, _, h3) = returned_parts (check_artifact c (lookup v s.staged) m1) _ m h2 in
      let (_, _, r1) = returned_parts (require (c.is_version v) invalid_version) _ m1 read in
      let (m2, _, r2) = returned_parts (read_manifest c (lookup v s.staged)) _ m1 r1 in
      let (_, same, r3) = returned_parts (require (m2.version == v) version_mismatch) _ m1 r2 in
      sym (ap (λ (x : Manifest). x.version) (ok_injective r3 ∙ ok_injective h3))
      ∙ (string_eq.beq_iff m2.version v).0 (required_true _ version_mismatch _ same)

  -- What an activation wrote, and where.
  record IsActivated (s : Store) (v : String) (scope : Scope) (s' : Store) (m : Manifest)
      : Type 0 where
    path : String
    at : pointer_path c scope ≡ ok path
    previous : Option String
    before : previous_of (lookup path s.active) ≡ ok previous
    verified : verify c s v (some scope) ≡ ok m
    after : s' ≡ pointed s path previous v

  activate-IsActivated :
      (s : Store) (v : String) (scope : Scope) (s' : Store) (m : Manifest)
      → activate c s v scope ≡ ok (s', m)
      → IsActivated s v scope s' m
  unfolding activate pointed
  activate-IsActivated s v scope s' m h =
      let (m1, verified, h1) = returned_parts (verify c s v (some scope)) _ (s', m) h in
      let (path, at, h2) = returned_parts (pointer_path c scope) _ (s', m) h1 in
      let (previous, before, h3) =
        returned_parts (previous_of (lookup path s.active)) _ (s', m) h2 in
      let e = ok_injective h3 in
      record {
        path = path;
        at = at;
        previous = previous;
        before = before;
        verified = verified ∙ ap (λ (x : Store × Manifest). ok x.1) e;
        after =
            sym (ap (λ (x : Store × Manifest). x.0) e)
            ∙ ap (pointed s path previous) (verify_version s v (some scope) m1 verified);
      }

  verify_active :
      (s : Store) (l : List (String × Option Pointer)) (v : String) (scope : Option Scope)
      → verify c (record s { active = l }) v scope ≡ verify c s v scope
  unfolding verify
  verify_active s l v scope = refl

  -- The version that is active, and verified.
  active_version :
      (s : Store) (scope : Scope) (path : String) (m : Manifest)
      → pointer_path c scope ≡ ok path
      → current c s scope ≡ ok (some m)
      → (v : String) × (previous_of (lookup path s.active) ≡ ok (some v))
        × (verify c s v (some scope) ≡ ok m)
  unfolding current current_of previous_of read_pointer
  active_version s scope path m at h = elim (Option-cases (lookup path s.active)) [
    | inl e ↦ absurd (cc (rw (at, e) at h))
    | inr (none, e) ↦ absurd (cc (rw (at, e) at h))
    | inr (some p, e) ↦ elim (Option-cases p.version) [
      | inl named ↦ absurd (cc (rw (at, e, named) at h))
      | inr (v, named) ↦ (v, rw (e, named) refl, verified v (rw (at, e, named) at h))
    ]
  ]
    where
      verified :
          (v : String)
          → ◌≡◌ {A = Result Error (Option Manifest)}
              (verify c s v (some scope) >>= λ m1. ok (some m1))
              (ok (some m))
          → verify c s v (some scope) ≡ ok m
      verified v h = elim (Result-cases (verify c s v (some scope))) [
        | inl (m1, e) ↦ e ∙ ap ok (some_injective (ok_injective (rw e at h)))
        | inr (error, e) ↦ absurd (cc (rw e at h))
      ]

  lookup-pointed :
      (s : Store) (path w : String) (previous : Option String)
      → lookup path (pointed s path previous w).active
        ≡ some (some (record { version = some w; previous_version = previous }))
  unfolding pointed
  lookup-pointed s path w previous =
      lookup-insert_self path (some (record { version = some w; previous_version = previous }))
        s.active

  same_verified :
      (s : Store) (path w : String) (previous : Option String) (v : String) (scope : Scope)
      (m : Manifest)
      → verify c s v (some scope) ≡ ok m
      → verify c (pointed s path previous w) v (some scope) ≡ ok m
  unfolding pointed verify
  same_verified s path w previous v scope m h = h

  current-pointed :
      (s : Store) (scope : Scope) (path w : String) (previous : Option String) (m : Manifest)
      → pointer_path c scope ≡ ok path
      → verify c s w (some scope) ≡ ok m
      → current c (pointed s path previous w) scope ≡ ok (some m)
  unfolding current current_of read_pointer
  current-pointed s scope path w previous m at verified = rw at (
      rw (lookup-pointed s path w previous)
        (rw (same_verified s path w previous w scope m verified) refl))

  rollback-pointed :
      (s : Store) (scope : Scope) (path w v : String) (m : Manifest)
      → pointer_path c scope ≡ ok path
      → verify c s v (some scope) ≡ ok m
      → rollback c (pointed s path (some v) w) scope
        ≡ ok (pointed (pointed s path (some v) w) path (some w) v, m)
  unfolding rollback read_pointer
  rollback-pointed s scope path w v m at verified = rw at (
      rw (lookup-pointed s path w (some v)) (
        rw (same_verified s path w (some v) v scope m verified)
          (ap (λ t. ok (t, m)) (is_pointed (pointed s path (some v) w) path (some w) v))))

  -- While a model is active for a scope, an activation of another that returns makes that one the
  -- active one; a rollback then returns the earlier model and makes it active again.
  pub rollback-activate :
      (s : Store) (v : String) (scope : Scope) (s' : Store) (old m : Manifest)
      → current c s scope ≡ ok (some old)
      → activate c s v scope ≡ ok (s', m)
      → (current c s' scope ≡ ok (some m))
        × ((s'' : Store) × (rollback c s' scope ≡ ok (s'', old))
            × (current c s'' scope ≡ ok (some old)))
  rollback-activate s v scope s' old m active h =
      let a = activate-IsActivated s v scope s' m h in
      let (v0, before, verified) = active_version s scope a.path old a.at active in
      let after = a.after ∙ ap (λ p. pointed s a.path p v) (ok_injective (sym a.before ∙ before)) in
      rw after (
        current-pointed s scope a.path v (some v0) m a.at a.verified,
        (
          pointed (pointed s a.path (some v0) v) a.path (some v) v0,
          rollback-pointed s scope a.path v v0 old a.at verified,
          current-pointed (pointed s a.path (some v0) v) scope a.path v0 (some v) old a.at
              (same_verified s a.path v (some v0) v0 scope old verified),
        ),
      )
