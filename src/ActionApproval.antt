-- ===== src/ActionApproval.antt =====
-- CorporateActionApprovalService of backend/app/services/corporate_actions.py, which promotes one
-- candidate that was fetched again, and backend/app/repositories/corporate_action_approval.py, which
-- stores it as the next revision of its event. An approval refers to its action by the unique key.
-- `urlsplit`, `parse_qs`, `isoformat`, `format`, `str.strip`, `str.upper`, the time zone and the
-- digest are arguments.
pub mod Revision
pub mod Stored
pub mod Guarded
mod Tests
use Prim.Native.String.{slice, len, ◌++◌ as append}
use text.Mathlib.Text.{starts_with}
use stockassist.Common.{
  ℕ, String, Bool, true, false, not, ◌&&◌, ◌||◌, ◌==◌, nat_eq, string_eq, option_eq, pair_eq,
  BoolEq, if◌then◌else◌, Option, none, some, List, [], ◌∷◌, any, find, Result, ok, err, ◌>>=◌, ◌>>◌,
  require, map_err,
}
use stockassist.Common.Dict.{lookup, insert}
use stockassist.Common.Int.{ℤ, pos, ◌+ℤ◌, ltb_ℤ, int_eq}
use stockassist.Market.{Datetime}
use stockassist.CorporateActions.{Action, contains, action_types}
use stockassist.ActionStore
use stockassist.ActionStore.{Key, canonical, row_key, same_time}
use stockassist.ActionReview
use stockassist.ActionReview.{Candidate, RevisionGroup, Family, Fetch, Preview, preview}

pub record Evidence : Type 0 where
  pub group_hint : String
  pub receipt_no : String
  pub filing_evidence_url : String
  pub exchange_evidence_url : String
  pub reviewed_by : String
  pub reviewed_at : Datetime

-- What the code reads of `urlsplit`. Reading the port raises `ValueError` where it is `none`.
pub record Url : Type 0 where
  pub scheme : String
  pub hostname : Option String
  pub username : Option String
  pub password : Option String
  pub port : Option (Option ℕ)
  pub fragment : String
  pub query : String

pub data Error : Type 0 where
  approval_unavailable confirmation_invalid source_unsupported naive_timestamp : Error
  unreadable_url unapproved_host receipt_mismatch group_changed candidate_changed : Error
  factors_incomplete bad_classification factors_not_positive known_at_mismatch : Error
  reviewer_missing unknown_symbol missing_action : Error
  preview_error : ActionReview.Error → Error
  store_error : ActionStore.Error → Error

-- The three tables that `approve` reads; the approvals are by their evidence's hash.
pub record Store (D : Type 0) : Type 0 where
  pub stocks : List String
  pub actions : List (Key × Action D)
  pub approvals : List (String × Key)

pub record Approved (D : Type 0) : Type 0 where
  pub action : Action D
  pub evidence_hash : String
  pub created : Bool
  pub store : Store D

-- `max(revision)` over the rows of an event, if there is one.
unfoldable pub max_revision :
    {D : Type 0} → String → String → String → List (Key × Action D) → Option ℤ
max_revision source symbol event_id [] = none
max_revision source symbol event_id ((k, a) ∷ table) =
    let rest = max_revision source symbol event_id table in
    if k.0 == source && k.1.0 == symbol && k.1.1.0 == event_id
    then elim rest [
      | none ↦ some k.1.1.1
      | some r ↦ if ltb_ℤ r k.1.1.1 then some k.1.1.1 else some r
    ]
    else rest

unfoldable pub next_revision : {D : Type 0} → String → String → String → List (Key × Action D) → ℤ
unfolding max_revision
next_revision source symbol event_id table =
    elim (max_revision source symbol event_id table) [ none ↦ pos 0 | some r ↦ r ] +ℤ pos 1

-- The row that a new approval adds.
unfoldable pub next_action : {D : Type 0} → Action D → Evidence → Store D → Action D
unfolding next_revision
next_action a e s = record a {
  revision = next_revision a.source a.symbol a.event_id s.actions;
  known_at = e.reviewed_at;
  status = "confirmed";
}

module _ {D : Type 0} ⦃eq : BoolEq D⦄ (quantize : D → Option D) (positive : D → Bool)
    (strip : String → String) (isoformat : Datetime → String) (format : D → String)
    (digest : List (String × Option String) → String) where
  -- `_evidence_hash`
  unfoldable pub evidence_hash_of : Action D → Evidence → String
  evidence_hash_of a e = digest (
      ("source", some a.source)
      ∷ ("symbol", some a.symbol)
      ∷ ("event_id", some a.event_id)
      ∷ ("action_type", some a.action_type)
      ∷ ("effective_at", some (isoformat a.effective_at))
      ∷ ("announced_at", elim a.announced_at [ none ↦ none | some t ↦ some (isoformat t) ])
      ∷ ("price_factor", some (format a.price_factor))
      ∷ ("volume_factor", some (format a.volume_factor))
      ∷ ("rule_version", some a.rule_version)
      ∷ ("group_hint", some e.group_hint)
      ∷ ("receipt_no", some e.receipt_no)
      ∷ ("filing_evidence_url", some e.filing_evidence_url)
      ∷ ("exchange_evidence_url", some e.exchange_evidence_url)
      ∷ ("reviewed_by", some e.reviewed_by)
      ∷ [])

  -- `_validate`; a naive `known_at` differs from every aware time.
  unfoldable pub validate : Action D → Evidence → Result Error (Unit {0})
  unfolding action_types
  validate a e = do
    require
        (a.effective_at.aware
          && e.reviewed_at.aware
          && elim a.announced_at [ none ↦ true | some t ↦ t.aware ])
        naive_timestamp
    require (contains action_types a.action_type) bad_classification
    require (positive a.price_factor && positive a.volume_factor) factors_not_positive
    require (a.known_at.aware && same_time a.known_at e.reviewed_at) known_at_mismatch
    require (not (strip e.reviewed_by == "")) reviewer_missing

  -- The transaction, for an action with canonical factors.
  unfoldable pub record_approval : Action D → Evidence → Store D → Result Error (Approved D)
  unfolding evidence_hash_of next_action
  record_approval a e s = do
    require (contains s.stocks a.symbol) unknown_symbol
    let hash = evidence_hash_of a e
    elim (lookup hash s.approvals) [
      | some key ↦ elim (lookup key s.actions) [
        | none ↦ err missing_action
        | some row ↦ ok (record { action = row; evidence_hash = hash; created = false; store = s })
      ]
      | none ↦
          let model = next_action a e s in
          ok (record {
            action = model;
            evidence_hash = hash;
            created = true;
            store = record s {
              actions = insert (row_key model) model s.actions;
              approvals = insert hash (row_key model) s.approvals;
            };
          })
    ]

  -- `approve` of the repository.
  unfoldable pub save_approval : Action D → Evidence → Store D → Result Error (Approved D)
  unfolding validate record_approval
  save_approval action e s = do
    a ← map_err store_error (canonical quantize positive action)
    validate a e
    record_approval a e s

module _ (urlsplit : String → Option Url) where
  unfoldable pub validate_url : String → List String → Result Error (Unit {0})
  validate_url value hosts = do
    url ← elim (urlsplit value) [ none ↦ err unreadable_url | some u ↦ ok u ]
    port ← elim url.port [ none ↦ err unapproved_host | some p ↦ ok p ]
    require
        (url.scheme == "https"
          && elim url.hostname [ none ↦ false | some h ↦ contains hosts h ]
          && url.username == none
          && url.password == none
          && (port == none || port == some 443)
          && url.fragment == "")
        unapproved_host

  unfoldable pub validate_filing_url :
      (String → List (String × List String)) → String → String → Result Error (Unit {0})
  unfolding validate_url
  validate_filing_url parse_qs value receipt_no = do
    validate_url value ("dart.fss.or.kr" ∷ [])
    url ← elim (urlsplit value) [ none ↦ err unreadable_url | some u ↦ ok u ]
    elim (lookup "rcpNo" (parse_qs url.query)) [
      | some (r ∷ []) ↦ require (r == receipt_no) receipt_mismatch
      | _ ↦ err receipt_mismatch
    ]

unfoldable pub confirmation_phrase : String
confirmation_phrase = "CONFIRM_CORPORATE_ACTION"

unfoldable pub exchange_evidence_hosts : List String
exchange_evidence_hosts = "kind.krx.co.kr" ∷ "data.krx.co.kr" ∷ "global.krx.co.kr" ∷ []

-- `str.removeprefix`
unfoldable pub removeprefix : String → String → String
removeprefix s prefix = if starts_with s prefix then slice s (len prefix) (len s) else s

-- The arguments of `approve` of the service.
pub record Request : Type 0 where
  pub source : String
  pub symbol : String
  pub start : ℕ
  pub end : ℕ
  pub group_hint : String
  pub receipt_no : String
  pub effective_at : Datetime
  pub exchange_evidence_url : String
  pub confirmation : String

-- The library functions that the service calls.
pub record Calls (D : Type 0) : Type 0 where
  pub quantize : D → Option D
  pub positive : D → Bool
  pub upper : String → String
  pub strip : String → String
  pub isoformat : Datetime → String
  pub format : D → String
  pub digest : List (String × Option String) → String
  pub urlsplit : String → Option Url
  pub parse_qs : String → List (String × List String)
  pub seoul_midnight : ℕ → Datetime
  pub normalized : String → String
  pub family_digest : Family → String

module _ {D : Type 0} ⦃eq : BoolEq D⦄ (c : Calls D) where
  -- The record that is approved, from the candidate.
  unfoldable pub reviewed_action : Request → Datetime → Candidate D → D → D → Action D
  unfolding removeprefix
  reviewed_action q reviewed_at candidate price volume = record {
    symbol = c.upper (c.strip q.symbol);
    action_type = candidate.action_type;
    event_id = append "reviewed:" (removeprefix q.group_hint "candidate:");
    revision = pos 1;
    effective_at = q.effective_at;
    announced_at = some (c.seoul_midnight candidate.filed_on);
    known_at = reviewed_at;
    price_factor = price;
    volume_factor = volume;
    status = "confirmed";
    source = append q.source "-reviewed";
    rule_version = "manual-review-2026.1";
  }

  -- What `approve` does with the preview.
  unfoldable pub promote : Store D → Datetime → Request → Preview D → Result Error (Approved D)
  unfolding validate_filing_url reviewed_action save_approval
  promote store reviewed_at q shown = do
    group ← elim (find (λ g. g.group_hint == q.group_hint) shown.revision_groups) [
      | none ↦ err group_changed
      | some g ↦ ok g
    ]
    require (contains group.receipt_nos q.receipt_no) group_changed
    candidate ← elim (find (λ i. i.receipt_no == q.receipt_no) shown.items) [
      | none ↦ err candidate_changed
      | some i ↦ ok i
    ]
    price ← elim candidate.proposed_price_factor [ none ↦ err factors_incomplete | some p ↦ ok p ]
    volume ← elim candidate.proposed_volume_factor [ none ↦ err factors_incomplete | some v ↦ ok v ]
    validate_filing_url c.urlsplit c.parse_qs candidate.evidence_url q.receipt_no
    require reviewed_at.aware naive_timestamp
    save_approval c.quantize c.positive c.strip c.isoformat c.format c.digest
        (reviewed_action q reviewed_at candidate price volume)
        (record {
          group_hint = q.group_hint;
          receipt_no = q.receipt_no;
          filing_evidence_url = candidate.evidence_url;
          exchange_evidence_url = q.exchange_evidence_url;
          reviewed_by = "admin-api";
          reviewed_at = reviewed_at;
        })
        store

  -- `approve` of the service; the clock reads `reviewed_at`.
  unfoldable pub approve :
      Bool
      → Option (Store D)
      → List (String × Fetch D)
      → Datetime
      → Request
      → Result Error (Approved D)
  unfolding confirmation_phrase exchange_evidence_hosts validate_url promote
  approve enabled repository providers reviewed_at q = do
    require enabled approval_unavailable
    store ← elim repository [ none ↦ err approval_unavailable | some s ↦ ok s ]
    require (q.confirmation == confirmation_phrase) confirmation_invalid
    require (q.source == "dart") source_unsupported
    require q.effective_at.aware naive_timestamp
    validate_url c.urlsplit q.exchange_evidence_url exchange_evidence_hosts
    shown ← map_err preview_error (
        preview c.upper c.strip c.normalized c.family_digest providers q.source q.symbol q.start
          q.end (pos 200))
    promote store reviewed_at q shown
