-- ===== src/ExchangeVerification/FailClosed.antt =====
-- An answer of the registry comes from a verified source.
use stockassist.Common.{
  ◌≡◌, ap, subst, ◌∙◌, String, Bool, true, false, not, ◌&&◌, ◌||◌, ◌==◌, nat_eq, string_eq, bool_eq,
  option_eq, all, Option, none, some, Option-cases, inl, inr, List, [], ◌∷◌, All, All-Occurs, ok,
  err, require, returned_parts, required_true, found_some, ok_injective, arith,
}
use stockassist.Common.Dict.{lookup, lookup-Occurs}
use stockassist.Market.{Datetime}
use stockassist.CorporateActions.{contains}
use stockassist.ActionStore.{same_time}
use stockassist.ActionApproval.{Url}
use stockassist.ExchangeVerification.{
  Metadata, Confirmation, Provider, is_authoritative_https_url, new_metadata, validate_result,
  verify, invalid_metadata, unverified_date_field, unreadable_url, source_not_found,
  source_not_verified, naive_timestamp, mismatched_provenance, inconsistent_match, invalid_evidence,
  integration_statuses, date_field_statuses, verification_roles,
}

module _ (urlsplit : String → Option Url) where
  -- An address under https on the host of another address.
  pub record IsOnHost (reference value : String) : Type 0 where
    pub home : Url
    pub url : Url
    pub host : String
    pub home_parsed : urlsplit reference ≡ some home
    pub home_host : home.hostname ≡ some host
    pub parsed : urlsplit value ≡ some url
    pub hostname : url.hostname ≡ some host
    pub scheme : url.scheme ≡ "https"

  authoritative_facts :
      (host value : String)
      → is_authoritative_https_url urlsplit (some host) value ≡ ok true
      → (url : Url) × (urlsplit value ≡ some url)
        × (url.hostname ≡ some host)
        × (url.scheme ≡ "https")
  unfolding is_authoritative_https_url
  authoritative_facts host value h =
      let (url, split, h1) =
        returned_parts (elim (urlsplit value) [ none ↦ err unreadable_url | some u ↦ ok u ]) _ true
          h in
      elim (Option-cases url.port) [
        | inl e ↦ absurd (cc (ok_injective (rw e at h1)))
        | inr (port, e) ↦
            let tests = ok_injective (rw e at h1) in
            (
              url,
              found_some (urlsplit value) unreadable_url url split,
              (option_eq.beq_iff url.hostname (some host)).0 (ground (arith, tests)),
              (string_eq.beq_iff url.scheme "https").0 (ground (arith, tests)),
            )
      ]

  module _ (strip upper : String → String) (is_name is_market : String → Bool) where
    -- Verified metadata that could be made has data with a verified date field.
    verified_metadata :
        (m made : Metadata)
        → new_metadata urlsplit strip is_name is_market m ≡ ok made
        → (m.integration_status == "verified") ≡ true
        → (m.corporate_action_data ≡ true) × ((m.effective_date_field_status == "verified") ≡ true)
    unfolding new_metadata
    verified_metadata m made h verified =
        let (_, _, h1) =
          returned_parts
            (require
              (is_name m.name
                && not (strip m.authority == "")
                && elim m.markets [ [] ↦ false | _ ∷ _ ↦ true ]
                && all is_market m.markets
                && contains integration_statuses m.integration_status
                && contains date_field_statuses m.effective_date_field_status
                && contains verification_roles m.verification_role
                && not (strip m.coverage_notes == ""))
              invalid_metadata)
            _ made h in
        let (reference, _, h2) =
          returned_parts (is_authoritative_https_url urlsplit none m.reference_url) _ made h1 in
        let (_, _, h3) = returned_parts (require reference invalid_metadata) _ made h2 in
        let (_, checked, _) =
          returned_parts
            (require
              (not (
                m.integration_status == "verified"
                && (not m.corporate_action_data
                    || not (m.effective_date_field_status == "verified"))))
              unverified_date_field)
            _ made h3 in
        both (m.integration_status == "verified") m.corporate_action_data
          (m.effective_date_field_status == "verified")
          (required_true _ unverified_date_field _ checked) verified
      where
        both :
            (a b c : Bool) → not (a && (not b || not c)) ≡ true → a ≡ true → (b ≡ true) × (c ≡ true)
        both a b c h k = ground arith

    -- An answer, and the source that gave it.
    pub record IsConfirmed (providers : List (String × Provider))
        (source symbol action_type : String) (effective_at : Datetime) (r : Confirmation)
        : Type 0 where
      pub provider : Provider
      pub known : lookup source providers ≡ some provider
      pub verified : (provider.metadata.integration_status == "verified") ≡ true
      pub has_data : provider.metadata.corporate_action_data ≡ true
      pub dated : (provider.metadata.effective_date_field_status == "verified") ≡ true
      pub named : r.source ≡ provider.metadata.name
      pub asked : (r.symbol ≡ upper (strip symbol)) × (r.action_type ≡ action_type)
      pub matched : r.exact_match ≡ same_time r.matched_effective_at effective_at
      pub evidence : IsOnHost provider.metadata.reference_url r.evidence_url

    record IsValidated (m : Metadata) (r : Confirmation) (symbol action_type : String)
        (effective_at : Datetime) : Type 0 where
      named : r.source ≡ m.name
      asked : (r.symbol ≡ upper (strip symbol)) × (r.action_type ≡ action_type)
      matched : r.exact_match ≡ same_time r.matched_effective_at effective_at
      evidence : IsOnHost m.reference_url r.evidence_url

    validate_result-IsValidated :
        (m : Metadata) (r : Confirmation) (symbol action_type : String) (effective_at : Datetime)
        → validate_result urlsplit strip upper m r symbol action_type effective_at ≡ ok tt
        → IsValidated m r symbol action_type effective_at
    unfolding validate_result
    validate_result-IsValidated m r symbol action_type effective_at h =
        let (_, _, h1) =
          returned_parts (require r.requested_effective_at.aware naive_timestamp) _ tt h in
        let (_, _, h2) =
          returned_parts (require r.matched_effective_at.aware naive_timestamp) _ tt h1 in
        let (_, _, h3) = returned_parts (require r.fetched_at.aware naive_timestamp) _ tt h2 in
        let (_, named, h4) =
          returned_parts
            (require
              (r.source == m.name
                && r.symbol == upper (strip symbol)
                && r.action_type == action_type
                && same_time r.requested_effective_at effective_at)
              mismatched_provenance)
            _ tt h3 in
        let (_, matched, h5) =
          returned_parts
            (require (r.exact_match == same_time r.matched_effective_at effective_at)
              inconsistent_match)
            _ tt h4 in
        let (home, split, h6) =
          returned_parts
            (elim (urlsplit m.reference_url) [ none ↦ err unreadable_url | some u ↦ ok u ]) _ tt
            h5 in
        let (_, _, h7) =
          returned_parts (require (not (strip r.evidence_id == "")) invalid_evidence) _ tt h6 in
        let (host, hosted, h8) =
          returned_parts (elim home.hostname [ none ↦ err invalid_evidence | some h ↦ ok h ]) _ tt
            h7 in
        let (evidence, fetched, h9) =
          returned_parts (is_authoritative_https_url urlsplit (some host) r.evidence_url) _ tt h8 in
        let named_true = required_true _ mismatched_provenance _ named in
        let (url, parsed, hostname, scheme) =
          authoritative_facts host r.evidence_url
            (fetched ∙ ap ok (required_true evidence invalid_evidence tt h9)) in
        record {
          named = (string_eq.beq_iff r.source m.name).0 (ground (arith, named_true));
          asked = (
            (string_eq.beq_iff r.symbol (upper (strip symbol))).0 (ground (arith, named_true)),
            (string_eq.beq_iff r.action_type action_type).0 (ground (arith, named_true)),
          );
          matched =
              (bool_eq.beq_iff r.exact_match (same_time r.matched_effective_at effective_at)).0
                (required_true _ inconsistent_match _ matched);
          evidence = record {
            home = home;
            url = url;
            host = host;
            home_parsed = found_some (urlsplit m.reference_url) unreadable_url home split;
            home_host = found_some home.hostname invalid_evidence host hosted;
            parsed = parsed;
            hostname = hostname;
            scheme = scheme;
          };
        }

    -- Where the metadata of every source could be made, an answer comes from a source that is
    -- verified and has a verified date field; it is about the symbol and the type that were asked
    -- for, its match flag compares the effective times, and its evidence stands under https on
    -- the host of the source's reference.
    pub verify-IsConfirmed :
        (providers : List (String × Provider)) (source symbol action_type : String)
        (effective_at : Datetime) (r : Confirmation)
        → All
            (λ e. new_metadata urlsplit strip is_name is_market e.1.metadata ≡ ok e.1.metadata)
            providers
        → verify urlsplit strip upper providers source symbol action_type effective_at ≡ ok r
        → IsConfirmed providers source symbol action_type effective_at r
    unfolding verify
    verify-IsConfirmed providers source symbol action_type effective_at r made h =
        let (_, _, h1) = returned_parts (require effective_at.aware naive_timestamp) _ r h in
        let (p, found, h2) =
          returned_parts
            (elim (lookup source providers) [ none ↦ err source_not_found | some p ↦ ok p ]) _ r
            h1 in
        let (_, trusted, h3) =
          returned_parts (require (p.metadata.integration_status == "verified") source_not_verified)
            _ r h2 in
        let (result, _, h4) =
          returned_parts (p.verify_effective_date (upper (strip symbol)) action_type effective_at) _
            r h3 in
        let (_, checked, h5) =
          returned_parts
            (validate_result urlsplit strip upper p.metadata result symbol action_type effective_at)
            _ r h4 in
        let known = found_some (lookup source providers) source_not_found p found in
        let verified = required_true _ source_not_verified _ trusted in
        let facts =
          verified_metadata p.metadata p.metadata
            (All-Occurs
              (λ e. new_metadata urlsplit strip is_name is_market e.1.metadata ≡ ok e.1.metadata)
              (source, p) providers made (lookup-Occurs source p providers known))
            verified in
        let valid =
          validate_result-IsValidated p.metadata result symbol action_type effective_at checked in
        subst (IsConfirmed providers source symbol action_type effective_at) (ok_injective h5)
          (record {
            provider = p;
            known = known;
            verified = verified;
            has_data = facts.0;
            dated = facts.1;
            named = valid.named;
            asked = valid.asked;
            matched = valid.matched;
            evidence = valid.evidence;
          })
