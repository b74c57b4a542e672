-- ===== src/ActionReview/Tests.antt =====
-- A preview of two candidates of one family, and the theorem at it.
use Prim.Native.String.{String}
use stockassist.Common.{
  ℕ, ◌≡◌, refl, true, false, none, some, List, [], ◌∷◌, map, Result, ok, err, string_eq,
}
use stockassist.Common.Text.{lex_le}
use stockassist.Common.Int.{pos}
use stockassist.ActionReview.{
  Error, Candidate, Family, Fetch, Preview, preview, range_too_long, bad_limit,
}
use stockassist.ActionReview.Shown.{IsShown, preview-IsShown}

program : Unit {0}
unfolding preview lex_le
program = tt

abbrev filing : String → ℕ → Candidate ℕ
filing receipt day = record {
  source = "dart";
  symbol = "005930";
  receipt_no = receipt;
  action_type = "split";
  filed_on = day;
  decision_date = some 90;
  record_date = none;
  proposed_price_factor = some 500;
  proposed_volume_factor = some 2000;
  evidence_url = "https://dart.fss.or.kr/";
  report_name = some "split decision";
  correction_hint = false;
  superseded_hint = true;
  confirmation_ready = false;
}

abbrev answer : List (Candidate ℕ) → Fetch ℕ
answer candidates = λ symbol start end limit. ok (record {
  source = "dart";
  symbol = symbol;
  fetched_at = record { aware = true; instant = 200 };
  candidates = candidates;
})

abbrev sources : List (String × Fetch ℕ)
sources =
    ("dart", answer (filing "r2" 101 ∷ filing "r1" 100 ∷ []))
    ∷ (
      "ready",
      answer (record (filing "r3" 99) { source = "ready"; confirmation_ready = true } ∷ []),
    )
    ∷ []

abbrev show : String → ℕ → ℕ → Result Error (Preview ℕ)
show source end limit =
    preview (λ s. s) (λ s. s) (λ s. s) (λ (k : Family). "family") sources source "005930" 0 end
      (pos limit)

too_long : show "dart" 367 10 ≡ err range_too_long
unfolding program
too_long = refl

limit_zero : show "dart" 366 0 ≡ err bad_limit
unfolding program
limit_zero = refl

abbrev shown_or_empty : Result Error (Preview ℕ) → Preview ℕ
shown_or_empty (ok p) = p
shown_or_empty (err e) = record {
  symbol = "";
  data_as_of = record { aware = true; instant = 0 };
  items = [];
  revision_groups = [];
}

abbrev shown : Preview ℕ
shown = shown_or_empty (show "dart" 366 10)

one_family : map (λ g. g.receipt_nos) shown.revision_groups ≡ ("r1" ∷ "r2" ∷ []) ∷ []
unfolding program
one_family = refl

ambiguous : map (λ g. g.confidence) shown.revision_groups ≡ "ambiguous_multiple_receipts" ∷ []
unfolding program
ambiguous = refl

preview-IsShown_example :
    IsShown
      (λ s. s)
      (λ s. s)
      (λ s. s)
      (λ (k : Family). "family")
      sources
      "dart"
      "005930"
      0
      366
      (pos 10)
      shown
unfolding program
preview-IsShown_example =
    preview-IsShown (λ s. s) (λ s. s) (λ s. s) (λ (k : Family). "family") sources "dart" "005930" 0
      366 (pos 10) shown refl
