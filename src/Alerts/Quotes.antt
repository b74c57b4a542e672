-- ===== src/Alerts/Quotes.antt =====
-- The quotes that an evaluation works with: each symbol is asked for, and finds its answer.
use stockassist.Common.{
  String, Bool, true, ◌||◌, if◌then◌else◌, ◌==◌, string_eq, ◌≡◌, refl, ap, subst, ◌∙◌, ◌⊎◌, inl,
  inr, Bool-cases, Option, none, some, List, [], ◌∷◌, any, Result-cases, ok, err, arith,
}
use stockassist.Common.Dict.{lookup, insert, lookup-insert}
use stockassist.Alerts.{Quote, Provider, from_keys, fetch_quotes}

abbrev pub is_in : String → List String → Bool
is_in s ss = any (λ t. t == s) ss

is_in-same : (t s : String) (ss : List String) → (t == s) ≡ true → is_in t ss ≡ is_in s ss
is_in-same t s ss h = ap (λ r. is_in r ss) ((string_eq.beq_iff t s).0 h)

from_keys-is_in :
    (s : String) (seen ss : List String)
    → (is_in s (from_keys seen ss) || is_in s seen) ≡ (is_in s ss || is_in s seen)
unfolding from_keys
from_keys-is_in s seen [] = refl
from_keys-is_in s seen (t ∷ ss) = elim (Bool-cases (is_in t seen)) [
  | inl e ↦ rw (e, from_keys) (ground (arith, from_keys-is_in s seen ss, is_in-same t s seen, e))
  | inr e ↦ rw (e, from_keys) (ground (arith, from_keys-is_in s (t ∷ seen) ss))
]

module _ {P : Type 0} (provider : Provider P) where
  unfoldable pub quote_of : String → Option (Quote P)
  quote_of s = elim (provider.get_quote s) [ ok q ↦ some q | err e ↦ none ]

  -- The answer for the asked symbol, under its other name.
  quote_of-ok :
      (t s : String) (q : Quote P)
      → provider.get_quote t ≡ ok q
      → (t == s) ≡ true
      → quote_of s ≡ some q
  unfolding quote_of
  quote_of-ok t s q h same =
      subst (λ u. quote_of u ≡ some q) ((string_eq.beq_iff t s).0 same) (rw (h, quote_of) refl)

  quote_of-err :
      (t s e : String) → provider.get_quote t ≡ err e → (t == s) ≡ true → quote_of s ≡ none
  unfolding quote_of
  quote_of-err t s e h same =
      subst (λ u. quote_of u ≡ none) ((string_eq.beq_iff t s).0 same) (rw (h, quote_of) refl)

  fetch_quotes-lookup :
      (s : String) (ss : List String) (quotes : List (String × Quote P))
      → ((t : String) → (lookup t quotes ≡ none) ⊎ (lookup t quotes ≡ quote_of t))
      → lookup s (fetch_quotes provider ss quotes).0
        ≡ (if is_in s ss then quote_of s else lookup s quotes)
  unfolding fetch_quotes
  fetch_quotes-lookup s [] quotes h = refl
  fetch_quotes-lookup s (t ∷ ss) quotes h = elim (Result-cases (provider.get_quote t)) [
    | inl (q, e) ↦
        rw (e, fetch_quotes)
          (fetch_quotes-lookup s ss (insert t q quotes) (inserted q e)
            ∙ ground (arith, lookup-insert t s q quotes, quote_of-ok t s q e))
    | inr (e, h') ↦
        rw (h', fetch_quotes)
          (fetch_quotes-lookup s ss quotes h ∙ ground (arith, h s, quote_of-err t s e h'))
  ]
    where
      inserted :
          (q : Quote P)
          → provider.get_quote t ≡ ok q
          → (u : String)
          → (lookup u (insert t q quotes) ≡ none) ⊎ (lookup u (insert t q quotes) ≡ quote_of u)
      inserted q e u = ground (arith, h u, lookup-insert t u q quotes, quote_of-ok t u q e)

  -- The dict of quotes has the answer for each symbol of the list.
  pub fetched-lookup :
      (s : String) (ss : List String)
      → is_in s ss ≡ true
      → lookup s (fetch_quotes provider (from_keys [] ss) []).0 ≡ quote_of s
  fetched-lookup s ss h =
      fetch_quotes-lookup s (from_keys [] ss) [] (λ t. inl refl)
      ∙ ground (arith, from_keys-is_in s [] ss)
