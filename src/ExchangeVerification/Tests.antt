-- ===== src/ExchangeVerification/Tests.antt =====
-- One verified source, and the theorem at an answer of it. Addresses are their hosts.
use Prim.Native.String.{String}
use stockassist.Common.{
  ℕ, ◌≡◌, refl, true, none, some, Option, List, [], ◌∷◌, Result, ok, err, string_eq,
}
use stockassist.Market.{Datetime}
use stockassist.ActionApproval.{Url}
use stockassist.ExchangeVerification.{
  Error, Metadata, Confirmation, Provider, new_metadata, verify, register_all,
  unverified_date_field, source_not_verified, invalid_evidence, inconsistent_match,
  source_not_found,
}
use stockassist.ExchangeVerification.FailClosed.{IsConfirmed, verify-IsConfirmed}

program : Unit {0}
unfolding new_metadata verify register_all
program = tt

abbrev time : ℕ → Datetime
time t = record { aware = true; instant = t }

abbrev split_address : String → Option Url
split_address host = some (record {
  scheme = "https";
  hostname = some host;
  username = none;
  password = none;
  port = some none;
  fragment = "";
  query = "";
})

abbrev described : String → String → Metadata
described status dates = record {
  name = "nyse";
  authority = "NYSE";
  markets = "US" ∷ [];
  access_mode = "licensed_api";
  integration_status = status;
  corporate_action_data = true;
  effective_date_field_status = dates;
  requires_contract = true;
  verification_role = "primary";
  coverage_notes = "all";
  reference_url = "nyse.com";
}

undated :
    new_metadata split_address (λ s. s) (λ s. true) (λ s. true) (described "verified" "unverified")
    ≡ err unverified_date_field
unfolding program
undated = refl

abbrev answer : String → ℕ → Confirmation
answer host day = record {
  source = "nyse";
  symbol = "IBM";
  action_type = "split";
  requested_effective_at = time 20;
  matched_effective_at = time day;
  exact_match = true;
  evidence_id = "n1";
  evidence_url = host;
  fetched_at = time 30;
}

abbrev sources_of : String → Confirmation → List (String × Provider)
sources_of status r =
    (
      "nyse",
      record {
        metadata = described status "verified";
        verify_effective_date = λ symbol action_type at. ok r;
      },
    )
    ∷ []

abbrev ask : List (String × Provider) → Result Error Confirmation
ask sources = verify split_address (λ s. s) (λ s. s) sources "nyse" "IBM" "split" (time 20)

no_source : ask [] ≡ err source_not_found
unfolding program
no_source = refl

contract_only :
    ask (sources_of "requires_contract" (answer "nyse.com" 20)) ≡ err source_not_verified
unfolding program
contract_only = refl

other_host : ask (sources_of "verified" (answer "example.com" 20)) ≡ err invalid_evidence
unfolding program
other_host = refl

other_day : ask (sources_of "verified" (answer "nyse.com" 21)) ≡ err inconsistent_match
unfolding program
other_day = refl

verify-IsConfirmed_example :
    IsConfirmed split_address
      (λ s. s)
      (λ s. s)
      (λ s. true)
      (λ s. true)
      (sources_of "verified" (answer "nyse.com" 20))
      "nyse"
      "IBM"
      "split"
      (time 20)
      (answer "nyse.com" 20)
unfolding program
verify-IsConfirmed_example =
    verify-IsConfirmed split_address (λ s. s) (λ s. s) (λ s. true) (λ s. true)
      (sources_of "verified" (answer "nyse.com" 20)) "nyse" "IBM" "split" (time 20)
      (answer "nyse.com" 20) (refl, tt) refl
