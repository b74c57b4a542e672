-- ===== src/ExchangeVerification.antt =====
-- backend/app/corporate_actions/exchange_verification.py: the registry of exchanges that confirm
-- effective dates, which answers only what a verified source confirms. `urlsplit`, `str.strip`,
-- `str.upper` and the two regular expressions are arguments.
pub mod FailClosed
mod Tests
use stockassist.Common.{
  ℕ, String, Bool, true, false, not, ◌&&◌, ◌||◌, ◌==◌, nat_eq, string_eq, bool_eq, option_eq, all,
  Option, none, some, List, [], ◌∷◌, if◌then◌else◌, Result, ok, err, ◌>>=◌, ◌>>◌, require,
}
use stockassist.Common.Dict.{lookup, insert}
use stockassist.Market.{Datetime}
use stockassist.CorporateActions.{contains}
use stockassist.ActionStore.{same_time}
use stockassist.ActionApproval.{Url}

pub record Metadata : Type 0 where
  pub name : String
  pub authority : String
  pub markets : List String
  pub access_mode : String
  pub integration_status : String
  pub corporate_action_data : Bool
  pub effective_date_field_status : String
  pub requires_contract : Bool
  pub verification_role : String
  pub coverage_notes : String
  pub reference_url : String

pub record Confirmation : Type 0 where
  pub source : String
  pub symbol : String
  pub action_type : String
  pub requested_effective_at : Datetime
  pub matched_effective_at : Datetime
  pub exact_match : Bool
  pub evidence_id : String
  pub evidence_url : String
  pub fetched_at : Datetime

pub data Error : Type 0 where
  invalid_metadata unverified_date_field unreadable_url duplicate_source source_not_found : Error
  source_not_verified naive_timestamp mismatched_provenance inconsistent_match : Error
  invalid_evidence provider_failed : Error

unfoldable pub integration_statuses : List String
integration_statuses = "not_available" ∷ "requires_contract" ∷ "verified" ∷ "disabled" ∷ []

unfoldable pub date_field_statuses : List String
date_field_statuses = "absent" ∷ "unverified" ∷ "verified" ∷ []

unfoldable pub verification_roles : List String
verification_roles = "primary" ∷ "crosscheck" ∷ "not_suitable" ∷ []

-- A source: its metadata, and `verify_effective_date(symbol, action_type, effective_at=)`.
pub record Provider : Type 0 where
  pub metadata : Metadata
  pub verify_effective_date : String → String → Datetime → Result Error Confirmation

module _ (urlsplit : String → Option Url) where
  -- `expected_host` is `none` where the call leaves it out.
  unfoldable pub is_authoritative_https_url : Option String → String → Result Error Bool
  is_authoritative_https_url expected_host value = do
    url ← elim (urlsplit value) [ none ↦ err unreadable_url | some u ↦ ok u ]
    ok (elim url.port [
      | none ↦ false
      | some port ↦
          url.scheme == "https"
          && elim url.hostname [ none ↦ false | some h ↦ not (h == "") ]
          && (expected_host == none || url.hostname == expected_host)
          && url.username == none
          && url.password == none
          && (port == none || port == some 443)
          && url.fragment == ""
    ])

  module _ (strip : String → String) where
    -- `__post_init__`, behind which the metadata exists.
    unfoldable pub new_metadata :
        (String → Bool) → (String → Bool) → Metadata → Result Error Metadata
    unfolding is_authoritative_https_url integration_statuses date_field_statuses verification_roles
    new_metadata is_name is_market m = do
      let fields =
          is_name m.name
          && not (strip m.authority == "")
          && elim m.markets [ [] ↦ false | _ ∷ _ ↦ true ]
          && all is_market m.markets
          && contains integration_statuses m.integration_status
          && contains date_field_statuses m.effective_date_field_status
          && contains verification_roles m.verification_role
          && not (strip m.coverage_notes == "")
      require fields invalid_metadata
      reference ← is_authoritative_https_url none m.reference_url
      require reference invalid_metadata
      require
          (not (
            m.integration_status == "verified"
            && (not m.corporate_action_data || not (m.effective_date_field_status == "verified"))))
          unverified_date_field
      ok m

    -- `_validate_result`
    unfoldable pub validate_result :
        (String → String)
        → Metadata
        → Confirmation
        → String
        → String
        → Datetime
        → Result Error (Unit {0})
    unfolding is_authoritative_https_url
    validate_result upper m r symbol action_type effective_at = do
      require r.requested_effective_at.aware naive_timestamp
      require r.matched_effective_at.aware naive_timestamp
      require r.fetched_at.aware naive_timestamp
      require
          (r.source == m.name
            && r.symbol == upper (strip symbol)
            && r.action_type == action_type
            && same_time r.requested_effective_at effective_at)
          mismatched_provenance
      require (r.exact_match == same_time r.matched_effective_at effective_at) inconsistent_match
      reference ← elim (urlsplit m.reference_url) [ none ↦ err unreadable_url | some u ↦ ok u ]
      require (not (strip r.evidence_id == "")) invalid_evidence
      host ← elim reference.hostname [ none ↦ err invalid_evidence | some h ↦ ok h ]
      evidence ← is_authoritative_https_url (some host) r.evidence_url
      require evidence invalid_evidence

    unfoldable pub verify :
        (String → String)
        → List (String × Provider)
        → String
        → String
        → String
        → Datetime
        → Result Error Confirmation
    unfolding validate_result
    verify upper providers source symbol action_type effective_at = do
      require effective_at.aware naive_timestamp
      provider ← elim (lookup source providers) [ none ↦ err source_not_found | some p ↦ ok p ]
      require (provider.metadata.integration_status == "verified") source_not_verified
      result ← provider.verify_effective_date (upper (strip symbol)) action_type effective_at
      validate_result upper provider.metadata result symbol action_type effective_at
      ok result

-- The loop of the constructor.
unfoldable pub register_all :
    List (String × Provider) → List Provider → Result Error (List (String × Provider))
register_all providers [] = ok providers
register_all providers (p ∷ rest) = elim (lookup p.metadata.name providers) [
  | some _ ↦ err duplicate_source
  | none ↦ register_all (insert p.metadata.name p providers) rest
]
