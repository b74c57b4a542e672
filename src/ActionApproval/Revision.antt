-- ===== src/ActionApproval/Revision.antt =====
-- The next revision of an event is a new key.
use stockassist.Common.{
  ◌≡◌, refl, sym, ◌∙◌, String, Bool, true, false, not, ◌&&◌, ◌==◌, string_eq, pair_eq, Bool-cases,
  Option, none, some, Option-cases, inl, inr, List, [], ◌∷◌, if◌then◌else◌, arith,
}
use stockassist.Common.Dict.{lookup}
use stockassist.Common.Int.{ℤ, pos, ltb_ℤ, ◌+ℤ◌, int_eq}
use stockassist.CorporateActions.{Action}
use stockassist.ActionStore.{Key}
use stockassist.ActionApproval.{max_revision, next_revision}

abbrev covers : Option ℤ → ℤ → Bool
covers none r = false
covers (some m) r = not (ltb_ℤ m r)

and_false : (a b c d : Bool) → (a && b && c) ≡ false → (a && (b && (c && d))) ≡ false
and_false a b c d h = ground arith

and_true : (a b c d : Bool) → (a && b && c) ≡ true → (a && (b && (c && d))) ≡ d
and_true a b c d h = ground arith

larger : ℤ → Option ℤ → Option ℤ
larger n none = some n
larger n (some r) = if ltb_ℤ r n then some n else some r

larger_self : (n r : ℤ) (o : Option ℤ) → int_eq.beq n r ≡ true → covers (larger n o) r ≡ true
unfolding larger
larger_self n r none e = ground (arith, int_eq.beq_iff n r)
larger_self n r (some m) e = ground (arith, int_eq.beq_iff n r)

larger-covers : (n r : ℤ) (o : Option ℤ) → covers o r ≡ true → covers (larger n o) r ≡ true
unfolding larger
larger-covers n r none h = cc
larger-covers n r (some m) h = ground arith

after_covered : (m r : ℤ) → not (ltb_ℤ m r) ≡ true → ltb_ℤ r (m +ℤ pos 1) ≡ true
unfolding ◌+ℤ◌
after_covered m r h = ground arith

irreflexive : (r : ℤ) → ltb_ℤ r r ≡ false
irreflexive r = ground arith

module _ {D : Type 0} (source symbol event_id : String) where
  max_revision-larger :
      (s y e : String) (n : ℤ) (a : Action D) (t : List (Key × Action D))
      → (s == source && y == symbol && e == event_id) ≡ true
      → max_revision source symbol event_id (((s, (y, (e, n))), a) ∷ t)
        ≡ larger n (max_revision source symbol event_id t)
  unfolding max_revision larger
  max_revision-larger s y e n a t h = elim (Option-cases (max_revision source symbol event_id t)) [
    | inl none_before ↦ rw (h, none_before, max_revision) refl
    | inr (m, before) ↦ rw (h, before, max_revision) refl
  ]

  max_revision-covers :
      (r : ℤ) (row : Action D) (t : List (Key × Action D))
      → lookup (source, (symbol, (event_id, r))) t ≡ some row
      → covers (max_revision source symbol event_id t) r ≡ true
  unfolding max_revision
  max_revision-covers r row [] h = cc
  max_revision-covers r row (((s, (y, (e, n))), a) ∷ t) h =
      elim (Bool-cases (s == source && y == symbol && e == event_id)) [
        | inr other ↦
            rw (other, max_revision)
              (max_revision-covers r row t
                (rw (and_false (s == source) (y == symbol) (e == event_id) (n == r) other) at h))
        | inl same ↦ rw (max_revision-larger s y e n a t same) (elim (Bool-cases (n == r)) [
          | inl equal ↦ larger_self n r (max_revision source symbol event_id t) equal
          | inr differs ↦ larger-covers n r (max_revision source symbol event_id t) (
              max_revision-covers r row t (
                rw (and_true (s == source) (y == symbol) (e == event_id) (n == r) same, differs) at
                  h))
        ])
      ]

  -- Every stored revision of the event is smaller.
  pub next_revision-above :
      (r : ℤ) (row : Action D) (t : List (Key × Action D))
      → lookup (source, (symbol, (event_id, r))) t ≡ some row
      → ltb_ℤ r (next_revision source symbol event_id t) ≡ true
  unfolding next_revision
  next_revision-above r row t h =
      let covered = max_revision-covers r row t h in
      elim (Option-cases (max_revision source symbol event_id t)) [
        | inl e ↦ absurd (cc (rw e at covered))
        | inr (m, e) ↦ rw e (after_covered m r (rw e at covered))
      ]

  pub next_revision-new :
      (t : List (Key × Action D))
      → lookup (source, (symbol, (event_id, next_revision source symbol event_id t))) t ≡ none
  next_revision-new t =
      let next = next_revision source symbol event_id t in
      elim (Option-cases (lookup (source, (symbol, (event_id, next))) t)) [
        | inl e ↦ e
        | inr (row, e) ↦ absurd (cc (sym (next_revision-above next row t e) ∙ irreflexive next))
      ]
