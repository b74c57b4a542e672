-- ===== src/ActionReview.antt =====
-- backend/app/corporate_actions/reconciliation.py and CorporateActionCandidateService of
-- backend/app/services/corporate_actions.py: candidates of a source are grouped into families of
-- revisions and shown; nothing is written. A date is its ordinal. The sources, `str.strip`,
-- `str.upper`, the regular expressions of `_report_name` and the digest of a key are arguments.
pub mod Families
pub mod Shown
mod Tests
use Prim.Native.String.{◌++◌ as append}
use stockassist.Common.{
  ℕ, zero, suc, ◌+◌, ◌-◌, ltb, String, Bool, true, not, ◌&&◌, ◌==◌, nat_eq, string_eq, pair_eq,
  option_eq, if◌then◌else◌, Option, none, some, List, [], ◌∷◌, ◌++◌, map, any, length, Result, ok,
  err, ◌>>=◌, ◌>>◌, require,
}
use stockassist.Common.Dict.{lookup, insert}
use stockassist.Common.Order.{nat_order}
use stockassist.Common.Text.{string_order, pair_order}
use stockassist.Common.Sort.{sort}
use stockassist.Common.Int.{ℤ, pos, ltb_ℤ}
use stockassist.Market.{Datetime}

-- Without `event_id`, `remarks` and `warnings`, which no code here reads.
pub record Candidate (D : Type 0) : Type 0 where
  pub source : String
  pub symbol : String
  pub receipt_no : String
  pub action_type : String
  pub filed_on : ℕ
  pub decision_date : Option ℕ
  pub record_date : Option ℕ
  pub proposed_price_factor : Option D
  pub proposed_volume_factor : Option D
  pub evidence_url : String
  pub report_name : Option String
  pub correction_hint : Bool
  pub superseded_hint : Bool
  pub confirmation_ready : Bool

pub record RevisionGroup : Type 0 where
  pub group_hint : String
  pub source : String
  pub symbol : String
  pub action_type : String
  pub anchor_date : Option ℕ
  pub receipt_nos : List String
  pub suggested_revisions : List ℕ
  pub confidence : String
  pub reasons : List String

-- `(source, symbol, action_type, discriminator, anchor_date)`
abbrev pub Family : Type 0
Family = String × (String × (String × (String × Option ℕ)))

unfoldable pub count_up : ℕ → ℕ → List ℕ
count_up first zero = []
count_up first (suc n) = first ∷ count_up (suc first) n

-- `_report_name`
unfoldable pub report_name_of : (String → String) → Option String → String
report_name_of normalized none = ""
report_name_of normalized (some value) = if value == "" then "" else normalized value

module _ {D : Type 0} where
  -- `_confidence`
  unfoldable pub confidence_of : List (Candidate D) → String × List String
  confidence_of (_ ∷ []) = ("isolated", "no_matching_receipt" ∷ [])
  confidence_of items =
      let superseded = any (λ c. c.superseded_hint) items in
      let corrected = any (λ c. c.correction_hint) items in
      (
        (if superseded && corrected then "likely_correction" else "ambiguous_multiple_receipts"),
        "same_normalized_report_and_anchor"
            ∷ ((if superseded then "original_reports_later_correction" ∷ [] else [])
                ++ (if corrected then "correction_title_detected" ∷ [] else [])),
      )

  module _ (normalized : String → String) (digest : Family → String) where
    unfoldable pub family_of : Candidate D → Family
    unfolding report_name_of
    family_of c =
        let name = report_name_of normalized c.report_name in
        (
          c.source,
          (
            c.symbol,
            (
              c.action_type,
              (
                (if name == "" then c.receipt_no else name),
                elim c.decision_date [ some day ↦ some day | none ↦ c.record_date ],
              ),
            ),
          ),
        )

    -- The loop of `propose`.
    unfoldable pub bucket :
        List (Family × List (Candidate D)) → List (Candidate D) → List (Family × List (Candidate D))
    unfolding family_of
    bucket buckets [] = buckets
    bucket buckets (c ∷ candidates) =
        bucket
          (insert (family_of c)
            (elim (lookup (family_of c) buckets) [ none ↦ [] | some items ↦ items ] ++ c ∷ [])
            buckets)
          candidates

    unfoldable pub group_of : Family × List (Candidate D) → RevisionGroup
    unfolding confidence_of count_up sort
    group_of (key, items) =
        let ordered = sort {K = ℕ × String} (λ c. (c.filed_on, c.receipt_no)) items in
        let graded = confidence_of ordered in
        record {
          group_hint = append "candidate:" (digest key);
          source = key.0;
          symbol = key.1.0;
          action_type = key.1.1.0;
          anchor_date = key.1.1.1.1;
          receipt_nos = map (λ c. c.receipt_no) ordered;
          suggested_revisions = count_up 1 (length ordered);
          confidence = graded.0;
          reasons = graded.1;
        }

    unfoldable pub propose : List (Candidate D) → List RevisionGroup
    unfolding bucket group_of sort
    propose candidates = sort (λ g. g.group_hint) (map group_of (bucket [] candidates))

pub data Error : Type 0 where
  start_after_end range_too_long bad_limit source_not_found naive_timestamp : Error
  mismatched_provenance too_many candidate_mismatched claims_readiness fetch_failed : Error

pub record FetchResult (D : Type 0) : Type 0 where
  pub source : String
  pub symbol : String
  pub fetched_at : Datetime
  pub candidates : List (Candidate D)

-- `fetch_candidates(symbol, start=, end=, limit=)` of a source.
abbrev pub Fetch : Type 0 → Type 0
Fetch D = String → ℕ → ℕ → ℤ → Result Error (FetchResult D)

pub record Preview (D : Type 0) : Type 0 where
  pub symbol : String
  pub data_as_of : Datetime
  pub items : List (Candidate D)
  pub revision_groups : List RevisionGroup

module _ {D : Type 0} (upper : String → String) where
  unfoldable pub check_candidates : String → String → List (Candidate D) → Result Error (Unit {0})
  check_candidates source symbol [] = ok tt
  check_candidates source symbol (c ∷ candidates) = do
    require (c.source == source && upper c.symbol == symbol) candidate_mismatched
    require (not c.confirmation_ready) claims_readiness
    check_candidates source symbol candidates

  module _ (strip normalized : String → String) (digest : Family → String)
      (providers : List (String × Fetch D)) where
    unfoldable pub preview : String → String → ℕ → ℕ → ℤ → Result Error (Preview D)
    unfolding check_candidates propose
    preview source symbol start end limit = do
      require (not (ltb end start)) start_after_end
      require (not (ltb 366 (end - start))) range_too_long
      require (not (ltb_ℤ limit (pos 1)) && not (ltb_ℤ (pos 200) limit)) bad_limit
      fetch ← elim (lookup source providers) [ none ↦ err source_not_found | some p ↦ ok p ]
      let normalized_symbol = upper (strip symbol)
      result ← fetch normalized_symbol start end limit
      require result.fetched_at.aware naive_timestamp
      require (result.source == source && upper result.symbol == normalized_symbol)
          mismatched_provenance
      require (not (ltb_ℤ limit (pos (length result.candidates)))) too_many
      check_candidates source normalized_symbol result.candidates
      ok (record {
        symbol = normalized_symbol;
        data_as_of = result.fetched_at;
        items = result.candidates;
        revision_groups = propose normalized digest result.candidates;
      })
