-- ===== src/ModelRegistry/Champion.antt =====
-- At most one champion for a symbol, algorithm and horizon.
use stockassist.Common.{
  ℕ, String, Bool, true, false, ◌&&◌, if◌then◌else◌, ◌==◌, nat_eq, string_eq, pair_eq, ◌≡◌, refl,
  ap, sym, subst, ◌∙◌, Bool-cases, Option-cases, inl, inr, Option, none, some, List, [], ◌∷◌, arith,
}
use stockassist.Common.Dict.{lookup, insert, lookup-insert}
use stockassist.ModelRegistry.{
  champion, challenger, ModelVersionRecord, PredictionResult, Repository, is_champion, slot, empty,
  save, demote, demote_all, promote,
}

some_value : {A : Type 0} → A → Option A → A
some_value a none = a
some_value a (some b) = b

some_injective : {A : Type 0} {a b : A} → some a ≡ some b → a ≡ b
unfolding some_value
some_injective {a = a} e = ap (some_value a) e

second_false : (a b : Bool) → a ≡ true → (a && b) ≡ false → b ≡ false
second_false a b h k = ground arith

same_slot : (a b : String × (String × ℕ)) → a ≡ b → (a == b) ≡ true
same_slot a b e = ((pair_eq {A = String} {B = String × ℕ}).beq_iff a b).1 e

-- The operations on a repository.
pub data Operation (M : Type 0) : Type 0 where
  saves : PredictionResult M → String → Operation M
  promotes : String → ℕ → Operation M

module _ {M : Type 0} where
  -- The version is there, as the champion of its slot.
  abbrev pub IsChampion : Repository M → String → ModelVersionRecord M → Type 0
  IsChampion r k v = (lookup k r.versions ≡ some v) × (is_champion v.registry_stage ≡ true)

  unfoldable pub HasOneChampion : Repository M → Type 0
  HasOneChampion r =
      (k j : String) (v w : ModelVersionRecord M)
      → IsChampion r k v
      → IsChampion r j w
      → slot v ≡ slot w
      → k ≡ j

  abbrev demoted :
      ModelVersionRecord M → Option (ModelVersionRecord M) → Option (ModelVersionRecord M)
  demoted target none = none
  demoted target (some v) = some (demote target v)

  lookup-demote_all :
      (target : ModelVersionRecord M) (m : List (String × ModelVersionRecord M)) (k : String)
      → lookup k (demote_all target m) ≡ demoted target (lookup k m)
  unfolding demote_all
  lookup-demote_all target [] k = refl
  lookup-demote_all target ((j, v) ∷ m) k = ground (arith, lookup-demote_all target m k)

  abbrev is_rival : ModelVersionRecord M → ModelVersionRecord M → Bool
  is_rival target v = is_champion v.registry_stage && slot v == slot target

  demote-rival :
      (target v : ModelVersionRecord M)
      → is_rival target v ≡ true
      → is_champion (demote target v).registry_stage ≡ false
  unfolding demote
  demote-rival target v h = rw (h, demote) refl

  demote_other : (target v : ModelVersionRecord M) → is_rival target v ≡ false → demote target v ≡ v
  unfolding demote
  demote_other target v h = rw (h, demote) refl

  -- A champion that is left by the loop was one before, of another slot.
  demote-champion :
      (target v : ModelVersionRecord M)
      → is_champion (demote target v).registry_stage ≡ true
      → (demote target v ≡ v) × ((slot v == slot target) ≡ false)
  demote-champion target v h = elim (Bool-cases (is_rival target v)) [
    | inl e ↦ absurd (ground (arith, sym h ∙ demote-rival target v e))
    | inr e ↦
        let same = demote_other target v e in
        (
          same,
          second_false (is_champion v.registry_stage) (slot v == slot target)
              (ap (λ w. is_champion w.registry_stage) (sym same) ∙ h) e,
        )
  ]

  -- The versions behind a promotion, in the place of those before.
  module _ (r : Repository M) (version : String) (now : ℕ) (target : ModelVersionRecord M) where
    promoted_record : ModelVersionRecord M
    promoted_record = record target { registry_stage = champion; promoted_at = some now }

    promoted_repository : Repository M
    promoted_repository = record r {
      versions = insert version promoted_record (demote_all target r.versions);
    }

    lookup-promoted :
        (k : String)
        → lookup k promoted_repository.versions
          ≡ (if version == k then some promoted_record else demoted target (lookup k r.versions))
    unfolding promoted_repository
    lookup-promoted k =
        lookup-insert version k promoted_record (demote_all target r.versions)
        ∙ ap (λ x. if version == k then some promoted_record else x)
            (lookup-demote_all target r.versions k)

    -- Another champion was one before, of another slot.
    kept :
        (k : String) (v : ModelVersionRecord M)
        → (version == k) ≡ false
        → IsChampion promoted_repository k v
        → IsChampion r k v × ((slot v == slot target) ≡ false)
    kept k v other (found, stage) = elim (Option-cases (lookup k r.versions)) [
      | inl e ↦
          let nothing : lookup k promoted_repository.versions ≡ none =
            lookup-promoted k ∙ rw (other, e) refl in
          absurd (cc (sym nothing ∙ found))
      | inr (w, e) ↦
          let something : lookup k promoted_repository.versions ≡ some (demote target w) =
            lookup-promoted k ∙ rw (other, e) refl in
          let equal : demote target w ≡ v = some_injective (sym something ∙ found) in
          let (same, away) =
            demote-champion target w (ap (λ x. is_champion x.registry_stage) equal ∙ stage) in
          let old : w ≡ v = sym same ∙ equal in
          ((e ∙ ap some old, stage), subst (λ x. (slot x == slot target) ≡ false) old away)
    ]

    own :
        (k : String) (v : ModelVersionRecord M)
        → (version == k) ≡ true
        → IsChampion promoted_repository k v
        → slot v ≡ slot target
    unfolding promoted_record
    own k v e (found, stage) =
        let here : lookup k promoted_repository.versions ≡ some promoted_record =
          lookup-promoted k ∙ rw e refl in
        ap slot (some_injective (sym found ∙ here))

    distinct_slots :
        (v w : ModelVersionRecord M)
        → slot v ≡ slot target
        → slot v ≡ slot w
        → (slot w == slot target) ≡ false
        → ⊥
    distinct_slots v w h k away =
        ground (arith, sym away ∙ same_slot (slot w) (slot target) (sym k ∙ h))

    promoted-HasOneChampion : HasOneChampion r → HasOneChampion promoted_repository
    unfolding HasOneChampion
    promoted-HasOneChampion one k j v w hv hw same = elim (Bool-cases (version == k)) [
      | inl vk ↦ elim (Bool-cases (version == j)) [
        | inl vj ↦ sym ((string_eq.beq_iff version k).0 vk) ∙ (string_eq.beq_iff version j).0 vj
        | inr vj ↦ absurd (distinct_slots v w (own k v vk hv) same (kept j w vj hw).1)
      ]
      | inr vk ↦ elim (Bool-cases (version == j)) [
        | inl vj ↦ absurd (distinct_slots w v (own j w vj hw) (sym same) (kept k v vk hv).1)
        | inr vj ↦ one k j v w (kept k v vk hv).0 (kept j w vj hw).0 same
      ]
    ]

  unfoldable pub perform : Operation M → Repository M → Repository M
  unfolding save promote
  perform (saves p algorithm) r = save p algorithm r
  perform (promotes version now) r = (promote version now r).1

  unfoldable pub perform_all : List (Operation M) → Repository M → Repository M
  unfolding perform
  perform_all [] r = r
  perform_all (op ∷ ops) r = perform_all ops (perform op r)

  promote-HasOneChampion :
      (version : String) (now : ℕ) (r : Repository M)
      → HasOneChampion r
      → HasOneChampion (promote version now r).1
  unfolding promote promoted_repository promoted_record
  promote-HasOneChampion version now r one = elim (Option-cases (lookup version r.versions)) [
    | inl e ↦ rw (e, promote) one
    | inr (target, e) ↦ rw (e, promote) (promoted-HasOneChampion r version now target one)
  ]

  -- A version that is saved as new is a challenger.
  saved : PredictionResult M → String → ModelVersionRecord M
  saved p algorithm = record {
    version = p.model_version;
    symbol = p.symbol;
    algorithm = algorithm;
    horizon_days = p.horizon_days;
    validation_status = p.validation_status;
    validation_metrics = p.validation_metrics;
    registry_stage = challenger;
    data_as_of = p.data_as_of;
    promoted_at = none;
  }

  save-new :
      (p : PredictionResult M) (algorithm : String) (r : Repository M)
      → lookup p.model_version r.versions ≡ none
      → (save p algorithm r).versions ≡ insert p.model_version (saved p algorithm) r.versions
  unfolding save saved
  save-new p algorithm r e = rw (e, save) refl

  save-known :
      (p : PredictionResult M) (algorithm : String) (r : Repository M) (v : ModelVersionRecord M)
      → lookup p.model_version r.versions ≡ some v
      → (save p algorithm r).versions ≡ r.versions
  unfolding save
  save-known p algorithm r v e = rw (e, save) refl

  save-IsChampion :
      (p : PredictionResult M) (algorithm : String) (r : Repository M) (k : String)
      (v : ModelVersionRecord M)
      → IsChampion (save p algorithm r) k v
      → IsChampion r k v
  unfolding saved
  save-IsChampion p algorithm r k v (found, stage) =
      elim (Option-cases (lookup p.model_version r.versions)) [
        | inr (w, e) ↦ (sym (ap (lookup k) (save-known p algorithm r w e)) ∙ found, stage)
        | inl e ↦
            let there =
              ap (lookup k) (save-new p algorithm r e)
              ∙ lookup-insert p.model_version k (saved p algorithm) r.versions in
            elim (Bool-cases (p.model_version == k)) [
              | inr other ↦ (sym (there ∙ rw other refl) ∙ found, stage)
              | inl same ↦
                  let equal : saved p algorithm ≡ v =
                    some_injective (sym (there ∙ rw same refl) ∙ found) in
                  absurd (ground (arith, ap (λ x. is_champion x.registry_stage) equal ∙ stage))
            ]
      ]

  perform_all-HasOneChampion :
      (ops : List (Operation M)) (r : Repository M)
      → HasOneChampion r
      → HasOneChampion (perform_all ops r)
  unfolding perform_all perform HasOneChampion
  perform_all-HasOneChampion [] r one = one
  perform_all-HasOneChampion (saves p algorithm ∷ ops) r one =
      perform_all-HasOneChampion ops (save p algorithm r) (λ k j v w hv hw same.
        one k j v w (save-IsChampion p algorithm r k v hv) (save-IsChampion p algorithm r j w hw)
          same)
  perform_all-HasOneChampion (promotes version now ∷ ops) r one =
      perform_all-HasOneChampion ops _ (promote-HasOneChampion version now r one)

  no_versions-HasOneChampion : (r : Repository M) → r.versions ≡ [] → HasOneChampion r
  unfolding HasOneChampion
  no_versions-HasOneChampion r e k j v w hv hw same = absurd (cc (sym (ap (lookup k) e) ∙ hv.0))

  -- Whatever predictions are saved and versions promoted, from an empty repository on, no two
  -- versions of one symbol, algorithm and horizon are champions.
  pub perform_all_champion :
      (ops : List (Operation M)) (k j : String) (v w : ModelVersionRecord M)
      → IsChampion (perform_all ops empty) k v
      → IsChampion (perform_all ops empty) j w
      → slot v ≡ slot w
      → k ≡ j
  unfolding HasOneChampion empty
  perform_all_champion ops =
      perform_all-HasOneChampion ops empty (no_versions-HasOneChampion empty refl)
