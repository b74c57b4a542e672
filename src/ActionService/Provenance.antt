-- ===== src/ActionService/Provenance.antt =====
-- What an ingestion may add to the stored actions.
use stockassist.Common.{
  refl, ◌+◌, length, require, returned_parts, required_true, found_some, map_err-ok, ok_injective,
  subst, String, ◌≡◌, Bool, true, false, not, ◌&&◌, ◌==◌, string_eq, nat_eq, pair_eq, BoolEq,
  Option, none, some, ◌⊎◌, List, [], ◌∷◌, All, ok, err, map_err, OnOk, OnOk->>=, OnOk-map, arith,
}
use stockassist.Common.Dict.{lookup}
use stockassist.Common.Int.{ℤ, pos, ltb_ℤ, int_eq}
use stockassist.Market.{Datetime, at_or_before, before}
use stockassist.CorporateActions.{Action}
use stockassist.ActionStore.{Key, Saved, save_batch}
use stockassist.ActionStore.History.{save_batch-origin}
use stockassist.ActionStore.Saving.{Keeps}
use stockassist.ActionStore.Twice.{save_batch-counts, save_batch_again}
use stockassist.ActionService.{
  Provider, FetchResult, Ingested, require_aware, check_action, check_actions, ingest, store_error,
  start_after_end, bad_limit, source_not_found, untrusted_source, mismatched_provenance,
  batch_too_large,
}

module _ {D : Type 0} (upper : String → String) where
  -- An action of the source and the symbol, in effect in the range, and known when it was fetched.
  abbrev pub IsTrusted : String → String → Datetime → Datetime → Datetime → Action D → Type 0
  IsTrusted source symbol start end fetched_at a =
      (a.source ≡ source)
      × (upper a.symbol ≡ symbol)
      × (at_or_before start a.effective_at ≡ true)
      × (at_or_before a.effective_at end ≡ true)
      × (at_or_before a.known_at fetched_at ≡ true)

  module _ (source symbol : String) (start end fetched_at : Datetime) where
    check_action-IsTrusted :
        (a : Action D)
        → OnOk
            (λ _. IsTrusted source symbol start end fetched_at a)
            (check_action upper source symbol start end fetched_at a)
    unfolding check_action
    check_action-IsTrusted a =
        ground (arith, string_eq.beq_iff a.source source, string_eq.beq_iff (upper a.symbol) symbol)

    check_actions-All :
        (actions : List (Action D))
        → OnOk
            (λ _. All (IsTrusted source symbol start end fetched_at) actions)
            (check_actions upper source symbol start end fetched_at actions)
    unfolding check_actions
    check_actions-All [] = tt
    check_actions-All (a ∷ actions) =
        OnOk->>= _ _ (check_action upper source symbol start end fetched_at a) _
          (check_action-IsTrusted a)
          (λ _ h.
            OnOk-map _ _ (check_actions upper source symbol start end fetched_at actions)
              (check_actions-All actions) (λ _ t. (h, t)))

module _ {D : Type 0} ⦃eq : BoolEq D⦄ (quantize : D → Option D) (positive : D → Bool)
    (upper strip : String → String) (t : List (Key × Action D))
    (providers : List (String × Provider D)) (source symbol : String) (start end : Datetime)
    (limit : ℤ) where
  -- Each action, as the table keeps it, is held with its values.
  abbrev pub IsHeld : List (Action D) → List (Key × Action D) → Type 0
  IsHeld batch table =
      save_batch quantize positive batch table
      ≡ ok (record { created = 0; unchanged = length batch; table = table })

  -- The source is known and verified, its answer is within the limit and counted, and each row that
  -- is now stored was there before or is an action that the source may report. The table holds each
  -- action of the answer: their batch once more finds all of them there.
  pub record IsIngested (r : Ingested D) : Type 0 where
    pub provider : Provider D
    pub known : lookup source providers ≡ some provider
    pub result : FetchResult D
    pub asked : provider.fetch_actions (upper (strip symbol)) start end limit ≡ ok result
    pub named : r.symbol ≡ upper (strip symbol)
    pub fetched : r.fetched ≡ length result.actions
    pub data_as_of : r.data_as_of ≡ result.fetched_at
    pub verified : (provider.trust_status == "verified") ≡ true
    pub bounded : ltb_ℤ limit (pos r.fetched) ≡ false
    pub counted : r.saved.created + r.saved.unchanged ≡ r.fetched
    pub grown : length r.saved.table ≡ length t + r.saved.created
    pub kept : Keeps t r.saved.table
    pub stored : IsHeld result.actions r.saved.table
    pub rows :
        (k : Key) (row : Action D)
        → lookup k r.saved.table ≡ some row
        → (lookup k t ≡ some row) ⊎ IsTrusted upper source r.symbol start end r.data_as_of row

  abbrev answer : FetchResult D → Saved D → Ingested D
  answer result s = record {
    symbol = upper (strip symbol);
    data_as_of = result.fetched_at;
    fetched = length result.actions;
    saved = s;
  }

  facts :
      (p : Provider D) (result : FetchResult D) (s : Saved D)
      → lookup source providers ≡ some p
      → p.fetch_actions (upper (strip symbol)) start end limit ≡ ok result
      → (p.trust_status == "verified") ≡ true
      → not (ltb_ℤ limit (pos (length result.actions))) ≡ true
      → check_actions upper source (upper (strip symbol)) start end result.fetched_at result.actions
        ≡ ok tt
      → save_batch quantize positive result.actions t ≡ ok s
      → IsIngested (answer result s)
  facts p result s found answered trusted few checked stored =
      let asked : Action D → Type 0 =
        IsTrusted upper source (upper (strip symbol)) start end result.fetched_at in
      let counts = save_batch-counts quantize positive result.actions t s stored in
      record {
        provider = p;
        known = found;
        result = result;
        asked = answered;
        named = refl;
        fetched = refl;
        data_as_of = refl;
        verified = trusted;
        bounded = ground (arith, few);
        counted = counts.1;
        kept = counts.0;
        grown = counts.2;
        stored = save_batch_again quantize positive result.actions t s stored;
        rows =
            subst
              (OnOk (λ u.
                (k : Key) (row : Action D)
                → lookup k u.table ≡ some row
                → (lookup k t ≡ some row) ⊎ asked row))
              stored
              (save_batch-origin quantize positive asked (λ a x y h. h) result.actions t
                (subst (OnOk (λ _. All asked result.actions)) checked (
                  check_actions-All upper source (upper (strip symbol)) start end result.fetched_at
                    result.actions)));
      }

  -- An ingestion that returns asked a verified source and reports the number of its actions, which
  -- is within the limit, and the time of its answer. The table then holds every action of the
  -- answer, in that a save of them would create none; each was counted as new or as known, the
  -- table has grown by the new ones and keeps every row; and each row that is new is an action of
  -- the source and the symbol, in effect in the requested range, and known when it was fetched.
  pub ingest-IsIngested :
      (r : Ingested D)
      → ingest quantize positive upper strip (some t) providers source symbol start end limit ≡ ok r
      → IsIngested r
  unfolding ingest
  ingest-IsIngested r h =
      let asked = upper (strip symbol) in
      let (_, _, h1) = returned_parts (require_aware start) _ r h in
      let (_, _, h2) = returned_parts (require_aware end) _ r h1 in
      let (_, _, h3) = returned_parts (require (not (before end start)) start_after_end) _ r h2 in
      let (_, _, h4) =
        returned_parts
          (require (not (ltb_ℤ limit (pos 1)) && not (ltb_ℤ (pos 500) limit)) bad_limit) _ r h3 in
      let (p, found, h5) =
        returned_parts
          (elim (lookup source providers) [ none ↦ err source_not_found | some p ↦ ok p ]) _ r h4 in
      let (_, trusted, h6) =
        returned_parts (require (p.trust_status == "verified") untrusted_source) _ r h5 in
      let (result, answered, h7) = returned_parts (p.fetch_actions asked start end limit) _ r h6 in
      let (_, _, h8) = returned_parts (require_aware result.fetched_at) _ r h7 in
      let (_, _, h9) =
        returned_parts
          (require (result.source == source && upper result.symbol == asked) mismatched_provenance)
          _ r h8 in
      let (_, few, h10) =
        returned_parts (require (not (ltb_ℤ limit (pos (length result.actions)))) batch_too_large) _
          r h9 in
      let (_, checked, h11) =
        returned_parts (check_actions upper source asked start end result.fetched_at result.actions)
          _ r h10 in
      let (s, stored, h12) =
        returned_parts (map_err store_error (save_batch quantize positive result.actions t)) _ r
          h11 in
      subst IsIngested (ok_injective h12) (
        facts p result s (found_some _ _ _ found) answered (required_true _ _ _ trusted)
          (required_true _ _ _ few) checked
          (map_err-ok store_error (save_batch quantize positive result.actions t) s stored))
