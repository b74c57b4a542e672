-- ===== src/CorporateActions/Latest.antt =====
-- The latest visible revision of an event, and the step of the loop that looks for it.
use stockassist.Common.{
  ◌≡◌, refl, Bool, true, false, Option, none, some, List, [], ◌∷◌, ◌++◌, ◌&&◌, if◌then◌else◌, ◌==◌,
  string_eq, pair_eq, BoolEq, All, All-map, All-append, Occurs, Occurs-append_left,
  Occurs-append_right, Bool-cases, Option-cases, inl, inr, subst, arith,
}
use stockassist.Common.Dict.{lookup, lookup-insert}
use stockassist.Common.Order.{nat_order}
use stockassist.Common.Text.{string_order, pair_order}
use stockassist.Market.{Datetime}
use stockassist.CorporateActions.{Action, Key, key_of, newer, visible, note}

abbrev pub string_key : BoolEq Key
string_key = pair_eq

pub same_key : (k : Key) → (k == k) ≡ true
same_key k = (string_key.beq_iff k k).1 refl

module _ {D : Type 0} (as_of : Datetime) where
  -- A visible revision of the event.
  abbrev pub is_revision : Key → Action D → Bool
  is_revision j a = visible as_of a && key_of a == j

  -- Of the actions read so far: no visible revision of the event, or one that none is newer than.
  abbrev pub IsLatest : List (Action D) → Key → Option (Action D) → Type 0
  IsLatest seen j none = All (λ a. is_revision j a ≡ false) seen
  IsLatest seen j (some b) =
      Occurs b seen
      × (is_revision j b ≡ true)
      × All (λ a. is_revision j a ≡ true → newer a b ≡ false) seen

  newer_irrefl : (a : Action D) → newer a a ≡ false
  newer_irrefl a = ground arith

  newer_upward : (a b c : Action D) → newer a b ≡ true → newer c b ≡ false → newer c a ≡ false
  newer_upward a b c h k = ground arith

  lookup-note :
      (j : Key) (latest : List (Key × Action D)) (a : Action D)
      → (key_of a == j) ≡ false
      → lookup j (note latest a) ≡ lookup j latest
  unfolding note
  lookup-note j latest a h = ground (arith, lookup-insert (key_of a) j a latest)

  lookup-note_first :
      (latest : List (Key × Action D)) (a : Action D)
      → lookup (key_of a) latest ≡ none
      → lookup (key_of a) (note latest a) ≡ some a
  unfolding note
  lookup-note_first latest a h =
      rw (h, note) (rw (lookup-insert (key_of a) (key_of a) a latest, same_key (key_of a)))

  lookup-note_next :
      (latest : List (Key × Action D)) (a b : Action D)
      → lookup (key_of a) latest ≡ some b
      → lookup (key_of a) (note latest a) ≡ some (if newer a b then a else b)
  unfolding note
  lookup-note_next latest a b h = elim (Bool-cases (newer a b)) [
    | inl e ↦
        rw (h, note, e) (rw (lookup-insert (key_of a) (key_of a) a latest, same_key (key_of a)))
    | inr e ↦ rw (h, note, e) h
  ]

  absent-IsLatest :
      (seen : List (Action D)) (j : Key) (o : Option (Action D)) (a : Action D)
      → is_revision j a ≡ false
      → IsLatest seen j o
      → IsLatest (seen ++ a ∷ []) j o
  absent-IsLatest seen j none a h l = All-append _ seen (a ∷ []) l (h, tt)
  absent-IsLatest seen j (some b) a h l =
      (Occurs-append_left b seen (a ∷ []) l.0, l.1, All-append _ seen (a ∷ []) l.2 ((λ e. cc), tt))

  first-IsLatest :
      (seen : List (Action D)) (j : Key) (a : Action D)
      → is_revision j a ≡ true
      → IsLatest seen j none
      → IsLatest (seen ++ a ∷ []) j (some a)
  first-IsLatest seen j a h l = (
    Occurs-append_right a seen (a ∷ []) (inl refl),
    h,
    All-append _ seen (a ∷ []) (All-map (λ c. is_revision j c ≡ false) _ seen (λ c n e. cc) l)
        ((λ e. newer_irrefl a), tt),
  )

  next-IsLatest :
      (seen : List (Action D)) (j : Key) (a b : Action D)
      → is_revision j a ≡ true
      → IsLatest seen j (some b)
      → IsLatest (seen ++ a ∷ []) j (some (if newer a b then a else b))
  next-IsLatest seen j a b h l = elim (Bool-cases (newer a b)) [
    | inl e ↦ rw e (
      Occurs-append_right a seen (a ∷ []) (inl refl),
      h,
      All-append _ seen (a ∷ [])
          (All-map (λ c. is_revision j c ≡ true → newer c b ≡ false) _ seen
            (λ c f r. newer_upward a b c e (f r)) l.2)
          ((λ _. newer_irrefl a), tt),
    )
    | inr e ↦
        rw e (
          Occurs-append_left b seen (a ∷ []) l.0,
          l.1,
          All-append _ seen (a ∷ []) l.2 ((λ _. e), tt),
        )
  ]

  pub revision_of_key : (a : Action D) → visible as_of a ≡ true → is_revision (key_of a) a ≡ true
  revision_of_key a h = rw h (same_key (key_of a))

  note-IsLatest :
      (seen : List (Action D)) (latest : List (Key × Action D)) (a : Action D)
      → visible as_of a ≡ true
      → IsLatest seen (key_of a) (lookup (key_of a) latest)
      → IsLatest (seen ++ a ∷ []) (key_of a) (lookup (key_of a) (note latest a))
  note-IsLatest seen latest a v l = elim (Option-cases (lookup (key_of a) latest)) [
    | inl h ↦
        rw (lookup-note_first latest a h)
          (first-IsLatest seen (key_of a) a (revision_of_key a v) (rw h at l))
    | inr (b, h) ↦
        rw (lookup-note_next latest a b h)
          (next-IsLatest seen (key_of a) a b (revision_of_key a v) (rw h at l))
  ]

  -- One step of the loop keeps the latest revision of every event.
  pub step-IsLatest :
      (seen : List (Action D)) (latest : List (Key × Action D)) (a : Action D) (j : Key)
      → IsLatest seen j (lookup j latest)
      → IsLatest (seen ++ a ∷ []) j (lookup j (if visible as_of a then note latest a else latest))
  step-IsLatest seen latest a j l = elim (Bool-cases (visible as_of a)) [
    | inl v ↦ elim (Bool-cases (key_of a == j)) [
      | inl same ↦
          let e : key_of a ≡ j = (string_key.beq_iff (key_of a) j).0 same in
          rw v (
            subst
              (λ i.
                IsLatest seen i (lookup i latest)
                → IsLatest (seen ++ a ∷ []) i (lookup i (note latest a)))
              e (note-IsLatest seen latest a v) l)
      | inr other ↦
          rw (v, if◌then◌else◌, lookup-note j latest a other)
            (absent-IsLatest seen j (lookup j latest) a (ground arith) l)
    ]
    | inr hidden ↦ rw hidden (absent-IsLatest seen j (lookup j latest) a (ground arith) l)
  ]
