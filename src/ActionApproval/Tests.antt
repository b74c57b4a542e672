-- ===== src/ActionApproval/Tests.antt =====
-- An approval of a filed split, and the theorems at it. Addresses are their hosts.
use Prim.Native.String.{String}
use stockassist.Common.{
  ℕ, ◌≡◌, refl, Bool, true, false, none, some, [], ◌∷◌, Result, ok, err, ltb, ◌==◌, nat_eq,
  string_eq,
}
use stockassist.Common.Text.{lex_le}
use stockassist.Market.{Datetime}
use stockassist.ActionStore.{canonical}
use stockassist.ActionReview.{Candidate, Family, Fetch, Preview, preview}
use stockassist.ActionApproval.{
  Error, Url, Store, Approved, Request, Calls, Evidence, approve, save_approval,
  exchange_evidence_hosts, confirmation_phrase, approval_unavailable, unapproved_host,
  group_changed, reviewed_action, removeprefix,
}
use stockassist.ActionApproval.Stored.{IsRecorded, save_approval-IsRecorded}
use stockassist.ActionApproval.Guarded.{IsOfficial, IsPromoted, preview_of, approve-IsPromoted}

program : Unit {0}
unfolding approve preview canonical confirmation_phrase exchange_evidence_hosts save_approval lex_le
program = tt

abbrev time : ℕ → Datetime
time t = record { aware = true; instant = t }

abbrev address : String → Url
address host = record {
  scheme = "https";
  hostname = some host;
  username = none;
  password = none;
  port = some none;
  fragment = "";
  query = "rcpNo";
}

abbrev calls : Calls ℕ
calls = record {
  quantize = λ x. some x;
  positive = λ x. ltb 0 x;
  upper = λ s. s;
  strip = λ s. s;
  isoformat = λ t. "";
  format = λ x. "";
  digest = λ fields. "hash";
  urlsplit = λ s. some (address s);
  parse_qs = λ s. ("rcpNo", "r1" ∷ []) ∷ [];
  seoul_midnight = λ day. time day;
  normalized = λ s. s;
  family_digest = λ (k : Family). "family";
}

abbrev filing : Candidate ℕ
filing = record {
  source = "dart";
  symbol = "005930";
  receipt_no = "r1";
  action_type = "split";
  filed_on = 100;
  decision_date = some 90;
  record_date = none;
  proposed_price_factor = some 500;
  proposed_volume_factor = some 2000;
  evidence_url = "dart.fss.or.kr";
  report_name = some "split decision";
  correction_hint = false;
  superseded_hint = false;
  confirmation_ready = false;
}

abbrev answer : Fetch ℕ
answer = λ symbol start end limit.
    ok
      (record { source = "dart"; symbol = symbol; fetched_at = time 200; candidates = filing ∷ [] })

abbrev request : String → String → Request
request host hint = record {
  source = "dart";
  symbol = "005930";
  start = 0;
  end = 120;
  group_hint = hint;
  receipt_no = "r1";
  effective_at = time 150;
  exchange_evidence_url = host;
  confirmation = "CONFIRM_CORPORATE_ACTION";
}

abbrev empty : Store ℕ
empty = record { stocks = "005930" ∷ []; actions = []; approvals = [] }

abbrev run : Bool → Store ℕ → Request → Result Error (Approved ℕ)
run enabled store q = approve calls enabled (some store) (("dart", answer) ∷ []) (time 210) q

abbrev approval : Request
approval = request "kind.krx.co.kr" "candidate:family"

event_name : removeprefix "candidate:family" "candidate:" ≡ "family"
unfolding removeprefix
event_name = refl

not_enabled : run false empty approval ≡ err approval_unavailable
unfolding program
not_enabled = refl

other_host : run true empty (request "example.com" "candidate:family") ≡ err unapproved_host
unfolding program
other_host = refl

other_group : run true empty (request "kind.krx.co.kr" "candidate:other") ≡ err group_changed
unfolding program
other_group = refl

abbrev approved_or : Result Error (Approved ℕ) → Approved ℕ
approved_or (ok r) = r
approved_or (err e) = record {
  action = reviewed_action calls approval (time 0) filing 0 0;
  evidence_hash = "";
  created = false;
  store = empty;
}

abbrev approved : Approved ℕ
approved = approved_or (run true empty approval)

created_first : (approved.created ≡ true) × (approved.action.event_id ≡ "reviewed:family")
unfolding program
created_first = (refl, refl)

approve-IsPromoted_example :
    (true ≡ true)
    × ((approval.confirmation == confirmation_phrase) ≡ true)
    × IsOfficial calls.urlsplit "kind.krx.co.kr" exchange_evidence_hosts
    × ((shown : Preview ℕ) × (preview_of calls empty (("dart", answer) ∷ []) (time 210) approval
          ≡ ok shown)
        × IsPromoted calls empty (("dart", answer) ∷ []) (time 210) approval shown approved)
unfolding program
approve-IsPromoted_example =
    approve-IsPromoted calls empty (("dart", answer) ∷ []) (time 210) approval true approved refl

abbrev evidence : Evidence
evidence = record {
  group_hint = "candidate:family";
  receipt_no = "r1";
  filing_evidence_url = "dart.fss.or.kr";
  exchange_evidence_url = "kind.krx.co.kr";
  reviewed_by = "admin-api";
  reviewed_at = time 210;
}

save_approval-IsRecorded_example :
    IsRecorded calls.quantize calls.positive calls.strip calls.isoformat calls.format calls.digest
      evidence empty approved
    × (save_approval calls.quantize calls.positive calls.strip calls.isoformat calls.format
          calls.digest
          (reviewed_action calls approval (time 210) filing 500 2000)
          evidence
          approved.store
        ≡ ok (record approved { created = false }))
unfolding program
save_approval-IsRecorded_example =
    save_approval-IsRecorded calls.quantize calls.positive calls.strip calls.isoformat calls.format
      calls.digest (reviewed_action calls approval (time 210) filing 500 2000) evidence empty
      approved refl
