-- ===== src/ActionReview/Shown.antt =====
-- What a preview shows.
use stockassist.Common.{
  ℕ, ◌-◌, ◌≤◌, ltb, ◌≡◌, subst, String, false, not, ◌&&◌, ◌==◌, string_eq, none, some, List, [],
  ◌∷◌, length, All, ok, err, require, returned_parts, required_true, ok_injective, OnOk,
  OnOk-require, OnOk-map, arith,
}
use stockassist.Common.Dict.{lookup}
use stockassist.Common.Int.{ℤ, pos, ltb_ℤ}
use stockassist.ActionReview.{
  Candidate, Family, Fetch, Preview, check_candidates, preview, start_after_end, range_too_long,
  bad_limit, source_not_found, naive_timestamp, mismatched_provenance, too_many,
}
use stockassist.ActionReview.Families.{receipt_count, IsGrouped, propose-partition}

module _ {D : Type 0} (upper : String → String) where
  -- A candidate of the source and the symbol that does not claim to be confirmed.
  abbrev pub IsOpen : String → String → Candidate D → Type 0
  IsOpen source symbol c =
      (c.source ≡ source) × (upper c.symbol ≡ symbol) × (c.confirmation_ready ≡ false)

  check_candidates-All :
      (source symbol : String) (cs : List (Candidate D))
      → OnOk (λ _. All (IsOpen source symbol) cs) (check_candidates upper source symbol cs)
  unfolding check_candidates
  check_candidates-All source symbol [] = tt
  check_candidates-All source symbol (c ∷ cs) =
      OnOk-require _ (c.source == source && upper c.symbol == symbol) _ _ (λ same.
        OnOk-require _ (not c.confirmation_ready) _ _ (λ open_still.
          OnOk-map _ _ (check_candidates upper source symbol cs)
            (check_candidates-All source symbol cs)
            (λ _ rest. (
              (
                (string_eq.beq_iff c.source source).0 (ground (arith, same)),
                (string_eq.beq_iff (upper c.symbol) symbol).0 (ground (arith, same)),
                ground (arith, open_still),
              ),
              rest,
            ))))

  module _ (strip normalized : String → String) (digest : Family → String)
      (providers : List (String × Fetch D)) (source symbol : String) (start end : ℕ)
      (limit : ℤ) where
    pub record IsShown (p : Preview D) : Type 0 where
      pub span : end - start ≤ 366
      pub bounded : ltb_ℤ limit (pos (length p.items)) ≡ false
      pub all_open : All (IsOpen source p.symbol) p.items
      pub counted : receipt_count p.revision_groups ≡ length p.items
      pub grouped : All (λ c. IsGrouped normalized digest c p.revision_groups) p.items

    -- A preview covers at most 366 days and shows at most the limit of candidates; each is of the
    -- source and the symbol, claims no confirmation, and is listed by a group of its kind, and the
    -- groups list no more receipts than there are candidates.
    pub preview-IsShown :
        (p : Preview D)
        → preview upper strip normalized digest providers source symbol start end limit ≡ ok p
        → IsShown p
    unfolding preview
    preview-IsShown p h =
        let asked = upper (strip symbol) in
        let (_, _, h1) = returned_parts (require (not (ltb end start)) start_after_end) _ p h in
        let (_, short, h2) =
          returned_parts (require (not (ltb 366 (end - start))) range_too_long) _ p h1 in
        let (_, _, h3) =
          returned_parts
            (require (not (ltb_ℤ limit (pos 1)) && not (ltb_ℤ (pos 200) limit)) bad_limit) _ p h2 in
        let (fetch, _, h4) =
          returned_parts
            (elim (lookup source providers) [ none ↦ err source_not_found | some f ↦ ok f ]) _ p
            h3 in
        let (result, _, h5) = returned_parts (fetch asked start end limit) _ p h4 in
        let (_, _, h6) = returned_parts (require result.fetched_at.aware naive_timestamp) _ p h5 in
        let (_, _, h7) =
          returned_parts
            (require (result.source == source && upper result.symbol == asked)
              mismatched_provenance)
            _ p h6 in
        let (_, few, h8) =
          returned_parts (require (not (ltb_ℤ limit (pos (length result.candidates)))) too_many) _ p
            h7 in
        let (_, checked, h9) =
          returned_parts (check_candidates upper source asked result.candidates) _ p h8 in
        let parted = propose-partition normalized digest result.candidates in
        subst IsShown (ok_injective h9) (record {
          span = ground (arith, required_true (not (ltb 366 (end - start))) range_too_long _ short);
          bounded = ground (
            arith,
            required_true (not (ltb_ℤ limit (pos (length result.candidates)))) too_many _ few,
          );
          all_open =
              subst (OnOk (λ _. All (IsOpen source asked) result.candidates)) checked
                (check_candidates-All source asked result.candidates);
          counted = parted.0;
          grouped = parted.1;
        })
