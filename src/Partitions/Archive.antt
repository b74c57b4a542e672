-- ===== src/Partitions/Archive.antt =====
-- The candidates for the archive are the named months that ended by the cutoff, in order.
use stockassist.Common.{
  ℕ, ◌≡◌, refl, ap, sym, subst, ◌∙◌, true, false, Bool-cases, Option-cases, inl, inr, none, some,
  List, [], ◌∷◌, All, All-map, Occurs,
}
use stockassist.Common.Dict.{some_injective}
use stockassist.Common.Sort.{sort, IsSorted, All-sort, sort-IsSorted, Occurs-sort}
use stockassist.Common.Int.{pos, ◌-ℤ◌}
use stockassist.Partitions.{
  Date, ArchiveCandidate, first_of, shift_month, match_name, date_le, date_order,
  collect_candidates, plan_archive_candidates,
}
use stockassist.Partitions.Plans.{bound_some}

module _ (cutoff : Date) where
  -- The candidate of a name, if the name is a month that ended by the cutoff.
  pub record IsOld (name : List ℕ) (c : ArchiveCandidate) : Type 0 where
    pub date : ℕ × ℕ
    pub matched : match_name name ≡ some date
    pub begins : first_of date.0 date.1 ≡ some c.starts_at
    pub ends : shift_month c.starts_at (pos 1) ≡ some c.ends_at
    pub over : date_le c.ends_at cutoff ≡ true
    pub named : c.name ≡ name

  -- A candidate is old under its own name, which was listed; and each old name has its candidate.
  pub record IsArchive (names : List (List ℕ)) (cs : List ArchiveCandidate) : Type 0 where
    pub sound : All (λ c. Occurs c.name names × IsOld c.name c) cs
    pub complete :
        (name : List ℕ) (c : ArchiveCandidate) → Occurs name names → IsOld name c → Occurs c cs

  unmatched :
      (name : List ℕ) (names : List (List ℕ)) (cs : List ArchiveCandidate)
      → match_name name ≡ none
      → IsArchive names cs
      → IsArchive (name ∷ names) cs
  unmatched name names cs absent a = record {
    sound = All-map _ _ cs (λ c h. (inr h.0, h.1)) a.sound;
    complete = λ n c o old. elim o [
      | inr there ↦ a.complete n c there old
      | inl here ↦ absurd (cc (sym absent ∙ ap match_name (sym here) ∙ old.matched))
    ];
  }

  same_candidate : (name : List ℕ) (c d : ArchiveCandidate) → IsOld name c → IsOld name d → c ≡ d
  same_candidate name c d old other =
      let date : old.date ≡ other.date = some_injective (sym old.matched ∙ other.matched) in
      let starts : c.starts_at ≡ d.starts_at =
        some_injective (sym old.begins ∙ ap (λ p. first_of p.0 p.1) date ∙ other.begins) in
      let ends : c.ends_at ≡ d.ends_at =
        some_injective (sym old.ends ∙ ap (λ m. shift_month m (pos 1)) starts ∙ other.ends) in
      let name' : c.name ≡ d.name = old.named ∙ sym other.named in
      λ i. record { name = name' i; starts_at = starts i; ends_at = ends i }

  kept :
      (name : List ℕ) (names : List (List ℕ)) (c : ArchiveCandidate) (cs : List ArchiveCandidate)
      → IsOld name c
      → IsArchive names cs
      → IsArchive (name ∷ names) (c ∷ cs)
  kept name names c cs old a = record {
    sound = (
      (inl old.named, subst (λ n. IsOld n c) (sym old.named) old),
      All-map _ _ cs (λ d h. (inr h.0, h.1)) a.sound,
    );
    complete = λ n d o other. elim o [
      | inr there ↦ inr (a.complete n d there other)
      | inl here ↦ inl (same_candidate name d c (subst (λ m. IsOld m d) here other) old)
    ];
  }

  dropped :
      (name : List ℕ) (names : List (List ℕ)) (date : ℕ × ℕ) (starts ends : Date)
      (cs : List ArchiveCandidate)
      → match_name name ≡ some date
      → first_of date.0 date.1 ≡ some starts
      → shift_month starts (pos 1) ≡ some ends
      → date_le ends cutoff ≡ false
      → IsArchive names cs
      → IsArchive (name ∷ names) cs
  dropped name names date starts ends cs m b e young a = record {
    sound = All-map _ _ cs (λ d h. (inr h.0, h.1)) a.sound;
    complete = λ n d o other. elim o [
      | inr there ↦ a.complete n d there other
      | inl here ↦ absurd (too_young d (subst (λ k. IsOld k d) here other))
    ];
  }
    where
      too_young : (d : ArchiveCandidate) → IsOld name d → ⊥
      too_young d other =
          let date' : date ≡ other.date = some_injective (sym m ∙ other.matched) in
          let starts' : starts ≡ d.starts_at =
            some_injective (sym b ∙ ap (λ p. first_of p.0 p.1) date' ∙ other.begins) in
          let ends' : ends ≡ d.ends_at =
            some_injective (sym e ∙ ap (λ k. shift_month k (pos 1)) starts' ∙ other.ends) in
          cc (sym young ∙ ap (λ k. date_le k cutoff) ends' ∙ other.over)

  collect_candidates-IsArchive :
      (names : List (List ℕ)) (cs : List ArchiveCandidate)
      → collect_candidates cutoff names ≡ some cs
      → IsArchive names cs
  unfolding collect_candidates
  collect_candidates-IsArchive [] cs h =
      subst (IsArchive []) (some_injective h)
        (record { sound = tt; complete = λ n c o old. elim o [ ] })
  collect_candidates-IsArchive (name ∷ names) cs h = elim (Option-cases (match_name name)) [
    | inl absent ↦
        unmatched name names cs absent (collect_candidates-IsArchive names cs (rw absent at h))
    | inr (date, m) ↦
        let (starts, b, h1) = bound_some (first_of date.0 date.1) _ cs (rw m at h) in
        let (ends, e, h2) = bound_some (shift_month starts (pos 1)) _ cs h1 in
        let (rest, r, h3) = bound_some (collect_candidates cutoff names) _ cs h2 in
        let later = collect_candidates-IsArchive names rest r in
        elim (Bool-cases (date_le ends cutoff)) [
          | inl over ↦ subst (IsArchive (name ∷ names)) (some_injective (rw over at h3)) (
              kept name names (record { name = name; starts_at = starts; ends_at = ends }) rest
                (record {
                  date = date;
                  matched = m;
                  begins = b;
                  ends = e;
                  over = over;
                  named = refl;
                })
                later)
          | inr young ↦
              subst (IsArchive (name ∷ names)) (some_injective (rw young at h3))
                (dropped name names date starts ends rest m b e young later)
        ]
  ]

sorted_archive :
    (cutoff : Date) (names : List (List ℕ)) (cs : List ArchiveCandidate)
    → IsArchive cutoff names cs
    → IsArchive cutoff names (sort (λ m. m.starts_at) cs)
sorted_archive cutoff names cs a = record {
  sound = All-sort (λ m. m.starts_at) _ cs a.sound;
  complete = λ n c o old. Occurs-sort (λ m. m.starts_at) c cs (a.complete n c o old);
}

-- Where the plan is made, its cutoff lies the given number of months before the reference's
-- month, the candidates stand in the order of their months, each is a listed name of a month that
-- ended by the cutoff, and every listed name of such a month has its candidate.
pub plan_archive_candidates-IsArchive :
    (names : List (List ℕ)) (reference cutoff : Date) (after : ℕ) (cs : List ArchiveCandidate)
    → plan_archive_candidates names reference after ≡ some (cutoff, cs)
    → (shift_month (record reference { day = 1 }) (pos 0 -ℤ pos after) ≡ some cutoff)
      × IsSorted (λ c. c.starts_at) cs
      × IsArchive cutoff names cs
unfolding plan_archive_candidates
plan_archive_candidates-IsArchive names reference cutoff after cs h =
    let (c, s, h1) =
      bound_some (shift_month (record reference { day = 1 }) (pos 0 -ℤ pos after)) _ (cutoff, cs)
        h in
    let (found, f, h2) = bound_some (collect_candidates c names) _ (cutoff, cs) h1 in
    let result = some_injective h2 in
    subst
      (λ r.
        (shift_month (record reference { day = 1 }) (pos 0 -ℤ pos after) ≡ some r.0)
        × IsSorted (λ m. m.starts_at) r.1
        × IsArchive r.0 names r.1)
      result
      (
        s,
        sort-IsSorted (λ m. m.starts_at) found,
        sorted_archive c names found (collect_candidates-IsArchive c names found f),
      )
