-- ===== src/ActionApproval/Guarded.antt =====
-- What an approval by the service rests on.
use stockassist.Common.{
  ℕ, ◌≡◌, refl, String, Bool, true, false, ◌&&◌, ◌||◌, ◌==◌, nat_eq, string_eq, option_eq, BoolEq,
  Option, none, some, List, [], ◌∷◌, Occurs, find, find-passes, find-Occurs, Result, ok, err,
  require, inl, inr, ◌⊎◌, subst, sym, ok_injective, map_err, returned_parts, required_true,
  found_some, map_err-ok, arith,
}
use stockassist.Common.Int.{pos}
use stockassist.Market.{Datetime}
use stockassist.CorporateActions.{Action, contains}
use stockassist.ActionStore.{canonical, quantized, precision_exceeded}
use stockassist.ActionReview
use stockassist.ActionReview.{Candidate, Fetch, Preview, RevisionGroup, preview}
use stockassist.ActionApproval.{
  Evidence, Url, Store, Approved, Request, Calls, validate_url, validate_filing_url,
  exchange_evidence_hosts, confirmation_phrase, approve, promote, reviewed_action, save_approval,
  next_action, unreadable_url, unapproved_host, approval_unavailable, confirmation_invalid,
  source_unsupported, naive_timestamp, preview_error, group_changed, candidate_changed,
  factors_incomplete,
}
use stockassist.ActionApproval.Stored.{IsRecorded, save_approval-IsRecorded, save_approval_made}

module _ (urlsplit : String → Option Url) (value : String) (hosts : List String) where
  -- An address under https on one of the hosts, without credentials.
  pub record IsOfficial : Type 0 where
    pub url : Url
    pub host : String
    pub parsed : urlsplit value ≡ some url
    pub scheme : url.scheme ≡ "https"
    pub hostname : url.hostname ≡ some host
    pub approved : contains hosts host ≡ true
    pub anonymous : (url.username ≡ none) × (url.password ≡ none)

  url_facts :
      (url : Url) (port : Option ℕ) (host : Option String)
      → url.hostname ≡ host
      → urlsplit value ≡ some url
      → (url.scheme == "https"
          && elim host [ none ↦ false | some h ↦ contains hosts h ]
          && url.username == none
          && url.password == none
          && (port == none || port == some 443)
          && url.fragment == "")
        ≡ true
      → IsOfficial
  url_facts url port none named parsed h = absurd (ground (arith, h))
  url_facts url port (some host) named parsed h = record {
    url = url;
    host = host;
    parsed = parsed;
    scheme = (string_eq.beq_iff url.scheme "https").0 (ground (arith, h));
    hostname = named;
    approved = ground (arith, h);
    anonymous = (
      (option_eq.beq_iff url.username none).0 (ground (arith, h)),
      (option_eq.beq_iff url.password none).0 (ground (arith, h)),
    );
  }

  pub validate_url-IsOfficial : validate_url urlsplit value hosts ≡ ok tt → IsOfficial
  unfolding validate_url
  validate_url-IsOfficial h =
      let (url, split, h1) =
        returned_parts (elim (urlsplit value) [ none ↦ err unreadable_url | some u ↦ ok u ]) _ tt
          h in
      let (port, _, h2) =
        returned_parts (elim url.port [ none ↦ err unapproved_host | some p ↦ ok p ]) _ tt h1 in
      url_facts url port url.hostname refl (found_some _ _ _ split) (required_true _ _ _ h2)

module _ {D : Type 0} ⦃eq : BoolEq D⦄ (c : Calls D) (store : Store D)
    (providers : List (String × Fetch D)) (reviewed_at : Datetime) (q : Request) where
  abbrev pub evidence_of : String → Evidence
  evidence_of filing = record {
    group_hint = q.group_hint;
    receipt_no = q.receipt_no;
    filing_evidence_url = filing;
    exchange_evidence_url = q.exchange_evidence_url;
    reviewed_by = "admin-api";
    reviewed_at = reviewed_at;
  }

  abbrev pub preview_of : Result ActionReview.Error (Preview D)
  preview_of =
      preview c.upper c.strip c.normalized c.family_digest providers q.source q.symbol q.start q.end
        (pos 200)

  -- A row made of the request and of the candidate with these factors, as the database keeps them.
  pub record IsOf (candidate : Candidate D) (price volume : D) (a : Action D) : Type 0 where
    pub symbol : a.symbol ≡ c.upper (c.strip q.symbol)
    pub action_type : a.action_type ≡ candidate.action_type
    pub effective_at : a.effective_at ≡ q.effective_at
    pub announced_at : a.announced_at ≡ some (c.seoul_midnight candidate.filed_on)
    pub price_factor : c.quantize price ≡ some a.price_factor
    pub volume_factor : c.quantize volume ≡ some a.volume_factor

  -- What is promoted from a preview: a candidate of it with both factors, whose receipt stands in
  -- the named group and whose filing is official, recorded with this evidence; a row that is
  -- created is made of that candidate.
  pub record IsPromoted (shown : Preview D) (r : Approved D) : Type 0 where
    pub candidate : Candidate D
    pub offered : Occurs candidate shown.items
    pub receipt : (candidate.receipt_no == q.receipt_no) ≡ true
    pub group : RevisionGroup
    pub proposed : Occurs group shown.revision_groups
    pub named : (group.group_hint == q.group_hint) ≡ true
    pub listed : contains group.receipt_nos q.receipt_no ≡ true
    pub price : D
    pub priced : candidate.proposed_price_factor ≡ some price
    pub volume : D
    pub sized : candidate.proposed_volume_factor ≡ some volume
    pub filing : IsOfficial c.urlsplit candidate.evidence_url ("dart.fss.or.kr" ∷ [])
    pub recorded :
        IsRecorded c.quantize c.positive c.strip c.isoformat c.format c.digest
          (evidence_of candidate.evidence_url)
          store
          r
    pub created : (r.created ≡ false) ⊎ IsOf candidate price volume r.action

  filing_facts :
      (value : String)
      → validate_filing_url c.urlsplit c.parse_qs value q.receipt_no ≡ ok tt
      → IsOfficial c.urlsplit value ("dart.fss.or.kr" ∷ [])
  unfolding validate_filing_url
  filing_facts value h =
      let (_, official, _) =
        returned_parts (validate_url c.urlsplit value ("dart.fss.or.kr" ∷ [])) _ tt h in
      validate_url-IsOfficial c.urlsplit value ("dart.fss.or.kr" ∷ []) official

  canonical-IsOf :
      (candidate : Candidate D) (price volume : D) (a : Action D)
      → canonical c.quantize c.positive (reviewed_action c q reviewed_at candidate price volume)
        ≡ ok a
      → IsOf candidate price volume (next_action a (evidence_of candidate.evidence_url) store)
  unfolding canonical quantized reviewed_action next_action
  canonical-IsOf candidate price volume a exact =
      let (p, priced, k1) =
        returned_parts (elim (c.quantize price) [ none ↦ err precision_exceeded | some y ↦ ok y ]) _
          a exact in
      let (v, sized, k2) =
        returned_parts (elim (c.quantize volume) [ none ↦ err precision_exceeded | some y ↦ ok y ])
          _ a k1 in
      subst
        (λ m.
          IsOf candidate price volume (next_action m (evidence_of candidate.evidence_url) store))
        (ok_injective k2)
        (record {
          symbol = refl;
          action_type = refl;
          effective_at = refl;
          announced_at = refl;
          price_factor = found_some (c.quantize price) precision_exceeded p priced;
          volume_factor = found_some (c.quantize volume) precision_exceeded v sized;
        })

  saved-IsOf :
      (candidate : Candidate D) (price volume : D) (r : Approved D)
      → save_approval c.quantize c.positive c.strip c.isoformat c.format c.digest
          (reviewed_action c q reviewed_at candidate price volume)
          (evidence_of candidate.evidence_url)
          store
        ≡ ok r
      → (r.created ≡ false) ⊎ IsOf candidate price volume r.action
  saved-IsOf candidate price volume r h =
      let asked = reviewed_action c q reviewed_at candidate price volume in
      let (a, exact, made) =
        save_approval_made c.quantize c.positive c.strip c.isoformat c.format c.digest asked
          (evidence_of candidate.evidence_url) store r h in
      elim made [
        | inl old ↦ inl old
        | inr new ↦ inr (
            subst (IsOf candidate price volume) (sym new)
              (canonical-IsOf candidate price volume a exact))
      ]

  promote-IsPromoted :
      (shown : Preview D) (r : Approved D)
      → promote c store reviewed_at q shown ≡ ok r
      → IsPromoted shown r
  unfolding promote
  promote-IsPromoted shown r h =
      let named : RevisionGroup → Bool = λ g. g.group_hint == q.group_hint in
      let chosen : Candidate D → Bool = λ i. i.receipt_no == q.receipt_no in
      let (group, grouped, h1) =
        returned_parts
          (elim (find named shown.revision_groups) [ none ↦ err group_changed | some g ↦ ok g ]) _ r
          h in
      let (_, listed, h2) =
        returned_parts (require (contains group.receipt_nos q.receipt_no) group_changed) _ r h1 in
      let (candidate, picked, h3) =
        returned_parts
          (elim (find chosen shown.items) [ none ↦ err candidate_changed | some i ↦ ok i ]) _ r
          h2 in
      let (price, priced, h4) =
        returned_parts
          (elim candidate.proposed_price_factor [ none ↦ err factors_incomplete | some p ↦ ok p ]) _
          r h3 in
      let (volume, sized, h5) =
        returned_parts
          (elim candidate.proposed_volume_factor [ none ↦ err factors_incomplete | some v ↦ ok v ])
          _ r h4 in
      let (_, filed, h6) =
        returned_parts
          (validate_filing_url c.urlsplit c.parse_qs candidate.evidence_url q.receipt_no) _ r h5 in
      let (_, _, h7) = returned_parts (require reviewed_at.aware naive_timestamp) _ r h6 in
      let found = found_some (find chosen shown.items) candidate_changed candidate picked in
      record {
        candidate = candidate;
        offered = find-Occurs chosen shown.items candidate found;
        receipt = find-passes chosen shown.items candidate found;
        group = group;
        proposed =
            find-Occurs named shown.revision_groups group
              (found_some (find named shown.revision_groups) group_changed group grouped);
        named =
            find-passes named shown.revision_groups group
              (found_some (find named shown.revision_groups) group_changed group grouped);
        listed = required_true _ _ _ listed;
        price = price;
        priced = found_some candidate.proposed_price_factor factors_incomplete price priced;
        volume = volume;
        sized = found_some candidate.proposed_volume_factor factors_incomplete volume sized;
        filing = filing_facts candidate.evidence_url filed;
        recorded =
            (save_approval-IsRecorded c.quantize c.positive c.strip c.isoformat c.format c.digest
              (reviewed_action c q reviewed_at candidate price volume)
              (evidence_of candidate.evidence_url) store r h7).0;
        created = saved-IsOf candidate price volume r h7;
      }

  -- An approval that returns was enabled and confirmed in words, names an official address of the
  -- exchange, and promotes from the preview that it made itself a candidate with both factors,
  -- whose receipt stands in the group of the requested hint and whose filing is official; its row
  -- is recorded with that evidence, and one that is created has the requested symbol and effective
  -- time, and the candidate's type, filing date, price factor and volume factor.
  pub approve-IsPromoted :
      (enabled : Bool) (r : Approved D)
      → approve c enabled (some store) providers reviewed_at q ≡ ok r
      → (enabled ≡ true)
        × ((q.confirmation == confirmation_phrase) ≡ true)
        × IsOfficial c.urlsplit q.exchange_evidence_url exchange_evidence_hosts
        × ((shown : Preview D) × (preview_of ≡ ok shown) × IsPromoted shown r)
  unfolding approve
  approve-IsPromoted enabled r h =
      let (_, on, h1) = returned_parts (require enabled approval_unavailable) _ r h in
      let (_, worded, h2) =
        returned_parts (require (q.confirmation == confirmation_phrase) confirmation_invalid) _ r
          h1 in
      let (_, _, h3) = returned_parts (require (q.source == "dart") source_unsupported) _ r h2 in
      let (_, _, h4) = returned_parts (require q.effective_at.aware naive_timestamp) _ r h3 in
      let (_, exchange, h5) =
        returned_parts (validate_url c.urlsplit q.exchange_evidence_url exchange_evidence_hosts) _ r
          h4 in
      let (shown, fetched, h6) = returned_parts (map_err preview_error preview_of) _ r h5 in
      (
        required_true enabled approval_unavailable _ on,
        required_true (q.confirmation == confirmation_phrase) confirmation_invalid _ worded,
        validate_url-IsOfficial c.urlsplit q.exchange_evidence_url exchange_evidence_hosts exchange,
        (shown, map_err-ok preview_error preview_of shown fetched, promote-IsPromoted shown r h6),
      )
