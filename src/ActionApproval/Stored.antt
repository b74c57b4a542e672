-- ===== src/ActionApproval/Stored.antt =====
-- What the repository stores of an approval, and that it stores it once.
use stockassist.Common.{
  map_err-ok, ◌⊎◌, ◌≡◌, refl, ap, subst, ◌∙◌, String, Bool, true, false, string_eq, pair_eq, BoolEq,
  Option-cases, Option, none, some, inl, inr, List, ok, require, map_err, returned_parts,
  required_true, ok_injective,
}
use stockassist.Common.Dict.{lookup, insert, lookup-insert_self, insert_keeps}
use stockassist.Common.Int.{ℤ, ltb_ℤ, int_eq}
use stockassist.Market.{Datetime}
use stockassist.CorporateActions.{Action, contains}
use stockassist.ActionStore.{Key, row_key, canonical}
use stockassist.ActionStore.Saving.{Keeps}
use stockassist.ActionApproval.{
  Evidence, Store, Approved, next_action, evidence_hash_of, validate, record_approval,
  save_approval, unknown_symbol, store_error,
}
use stockassist.ActionApproval.Revision.{next_revision-new, next_revision-above}

module _ {D : Type 0} ⦃eq : BoolEq D⦄ (quantize : D → Option D) (positive : D → Bool)
    (strip : String → String) (isoformat : Datetime → String) (format : D → String)
    (digest : List (String × Option String) → String) where
  -- The stored row is the result, under the key that the evidence's hash refers to; what was stored
  -- is kept; a row that was created is confirmed, known since the review, and later than every
  -- other revision of its event.
  pub record IsRecorded (e : Evidence) (s : Store D) (r : Approved D) : Type 0 where
    pub key : Key
    pub referred : lookup r.evidence_hash r.store.approvals ≡ some key
    pub stored : lookup key r.store.actions ≡ some r.action
    pub kept : Keeps s.actions r.store.actions
    pub known_at : r.created ≡ true → r.action.known_at ≡ e.reviewed_at
    pub status : r.created ≡ true → r.action.status ≡ "confirmed"
    pub latest :
        r.created ≡ true
        → (n : ℤ) (row : Action D)
        → lookup (r.action.source, (r.action.symbol, (r.action.event_id, n))) s.actions ≡ some row
        → ltb_ℤ n r.action.revision ≡ true

  abbrev hash_of : Action D → Evidence → String
  hash_of = evidence_hash_of quantize positive strip isoformat format digest

  abbrev created_row : Action D → Evidence → Store D → Approved D
  created_row a e s =
      let model = next_action a e s in
      record {
        action = model;
        evidence_hash = hash_of a e;
        created = true;
        store = record s {
          actions = insert (row_key model) model s.actions;
          approvals = insert (hash_of a e) (row_key model) s.approvals;
        };
      }

  abbrev found_row : Action D → Evidence → Store D → Action D → Approved D
  found_row a e s row = record {
    action = row;
    evidence_hash = hash_of a e;
    created = false;
    store = s;
  }

  next_action-new :
      (a : Action D) (e : Evidence) (s : Store D)
      → lookup (row_key (next_action a e s)) s.actions ≡ none
  unfolding next_action
  next_action-new a e s = next_revision-new a.source a.symbol a.event_id s.actions

  created_row-IsRecorded :
      (a : Action D) (e : Evidence) (s : Store D) → IsRecorded e s (created_row a e s)
  unfolding next_action
  created_row-IsRecorded a e s = record {
    key = row_key (next_action a e s);
    referred = lookup-insert_self (hash_of a e) (row_key (next_action a e s)) s.approvals;
    stored = lookup-insert_self (row_key (next_action a e s)) (next_action a e s) s.actions;
    kept = λ k row h.
        insert_keeps (row_key (next_action a e s)) k (next_action a e s) row s.actions
          (next_action-new a e s) h;
    known_at = λ _. refl;
    status = λ _. refl;
    latest = λ _ n row h. next_revision-above a.source a.symbol a.event_id n row s.actions h;
  }

  found_row-IsRecorded :
      (a : Action D) (e : Evidence) (s : Store D) (key : Key) (row : Action D)
      → lookup (hash_of a e) s.approvals ≡ some key
      → lookup key s.actions ≡ some row
      → IsRecorded e s (found_row a e s row)
  found_row-IsRecorded a e s key row known found = record {
    key = key;
    referred = known;
    stored = found;
    kept = λ k r h. h;
    known_at = λ h. absurd (cc h);
    status = λ h. absurd (cc h);
    latest = λ h n r _. absurd (cc h);
  }

  -- What an approval leaves behind.
  pub record IsLogged (a : Action D) (e : Evidence) (s : Store D) (r : Approved D) : Type 0 where
    pub recorded : IsRecorded e s r
    pub hash : hash_of a e ≡ r.evidence_hash
    pub stocks : r.store.stocks ≡ s.stocks
    pub listed : contains s.stocks a.symbol ≡ true
    pub made : (r.created ≡ false) ⊎ (r.action ≡ next_action a e s)

  record_approval-IsLogged :
      (a : Action D) (e : Evidence) (s : Store D) (r : Approved D)
      → record_approval quantize positive strip isoformat format digest a e s ≡ ok r
      → IsLogged a e s r
  unfolding record_approval
  record_approval-IsLogged a e s r h =
      let (_, asked, h1) =
        returned_parts (require (contains s.stocks a.symbol) unknown_symbol) _ r h in
      let listed = required_true _ _ _ asked in
      elim (Option-cases (lookup (hash_of a e) s.approvals)) [
        | inl fresh ↦ subst (IsLogged a e s) (ok_injective (rw fresh at h1)) (record {
          recorded = created_row-IsRecorded a e s;
          hash = refl;
          stocks = refl;
          listed = listed;
          made = inr refl;
        })
        | inr (key, known) ↦ elim (Option-cases (lookup key s.actions)) [
          | inl gone ↦ absurd (cc (rw (known, gone) at h1))
          | inr (row, found) ↦
              subst (IsLogged a e s) (ok_injective (rw (known, found) at h1)) (record {
                recorded = found_row-IsRecorded a e s key row known found;
                hash = refl;
                stocks = refl;
                listed = listed;
                made = inl refl;
              })
        ]
      ]

  -- A row that is created is the next revision of the canonical action.
  pub save_approval_made :
      (a : Action D) (e : Evidence) (s : Store D) (r : Approved D)
      → save_approval quantize positive strip isoformat format digest a e s ≡ ok r
      → (b : Action D) × (canonical quantize positive a ≡ ok b)
        × ((r.created ≡ false) ⊎ (r.action ≡ next_action b e s))
  unfolding save_approval
  save_approval_made a e s r h =
      let (b, exact, h1) =
        returned_parts (map_err store_error (canonical quantize positive a)) _ r h in
      let (_, _, h2) =
        returned_parts (validate quantize positive strip isoformat format digest b e) _ r h1 in
      (
        b,
        map_err-ok store_error (canonical quantize positive a) b exact,
        (record_approval-IsLogged b e s r h2).made,
      )

  record_approval_again :
      (a : Action D) (e : Evidence) (s : Store D) (r : Approved D)
      → IsLogged a e s r
      → record_approval quantize positive strip isoformat format digest a e r.store
        ≡ ok (record r { created = false })
  unfolding record_approval
  record_approval_again a e s r i =
      let known : lookup (hash_of a e) r.store.approvals ≡ some i.recorded.key =
        ap (λ h. lookup h r.store.approvals) i.hash ∙ i.recorded.referred in
      let listed : contains r.store.stocks a.symbol ≡ true =
        ap (λ l. contains l a.symbol) i.stocks ∙ i.listed in
      rw (listed, known, i.recorded.stored)
        (ap (λ h. ok (record r { created = false; evidence_hash = h })) i.hash)

  -- An approval that returns has stored its row, keeps every row that was there, and creates only
  -- a confirmed row, known since the review, whose revision is above every other of its event; the
  -- same approval once more returns the same row and changes nothing.
  pub save_approval-IsRecorded :
      (a : Action D) (e : Evidence) (s : Store D) (r : Approved D)
      → save_approval quantize positive strip isoformat format digest a e s ≡ ok r
      → IsRecorded e s r
        × (save_approval quantize positive strip isoformat format digest a e r.store
            ≡ ok (record r { created = false }))
  unfolding save_approval
  save_approval-IsRecorded a e s r h =
      let (b, exact, h1) =
        returned_parts (map_err store_error (canonical quantize positive a)) _ r h in
      let (_, valid, h2) =
        returned_parts (validate quantize positive strip isoformat format digest b e) _ r h1 in
      let logged = record_approval-IsLogged b e s r h2 in
      (logged.recorded, rw (exact, valid) (record_approval_again b e s r logged))
