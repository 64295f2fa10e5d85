-- ===== src/Copycat/Fair.antt =====
-- What a COPY verdict rests on.
use burnisher.Base.{
  ℕ, String, ◌≤◌, ◌≡◌, refl, sym, ap, subst, ◌∙◌, inl, inr, Bool, true, false, not, ◌&&◌, ◌||◌,
  Option, none, some, List, arith, if◌then◌else◌, length, is_empty, keep, In, keep-In, Bool-cases,
}
use burnisher.Base.Eq.{◌==◌, string_eq, nat_eq}
use burnisher.Base.Dict.{elem, minus, meet, elem-In, minus-In}
use burnisher.Base.Num.{Num, num, le, ◌/◌}
use burnisher.Base.Sort.{text_before}
use burnisher.Copycat.{min_mass}
use burnisher.Copycat.Judge.{
  login, Outcome, found_review, Entry, found_copy, found_clear, copy, kinds, Row, Judgement, t_copy,
  share, is_reference, kind_of, tagged, outcome_of_kind, Comparison, place_row, place_all, slot,
  compare_with, judge, clear, new_code_of,
}
use burnisher.Copycat.Slots.{
  kind_of-copy, copy_only, same_kind-eq, tagged-some, place_all-In, slot-In,
}
use burnisher.Copycat.Decided.{Decided, decide-Decided}

module _ {R : Type 0} ⦃n : Num R⦄ where
  -- The shared code is new code of the candidate that the reference adds, and its share is reported.
  abbrev pub Measured : Comparison → Row R → Type 0
  Measured c row =
      ((h : String) → In h row.shared → In h c.novel × In h row.ref.added)
      × (row.containment ≡ num (length row.shared) / num row.new_code)

  -- What a row in the slot for copies shows.
  abbrev pub IsCopy : Comparison → Row R → Type 0
  IsCopy c row =
      (elem row.ref.pr c.stacked_on ≡ false)
      × ((min_mass ≤ row.new_code) × ((le t_copy row.containment ≡ true) × Measured c row))

  place_row-copy :
      (c : Comparison) (ref : Entry) (row : Row R)
      → place_row R c ref ≡ some (copy, row)
      → (row.ref ≡ ref) × IsCopy c row
  unfolding place_row
  place_row-copy c ref row h =
      let mine = minus c.novel ref.base in
      let theirs = minus (minus (new_code_of c.boiler ref) c.candidate.base) c.infra in
      let shared = meet mine ref.added in
      let a : R = share shared mine in
      let b : R = if is_empty theirs then num 0 else share (meet theirs c.candidate.added) theirs in
      go
        (record {
          ref = ref;
          containment = a;
          contains = b;
          new_code = length mine;
          shared = shared;
        })
        (is_empty mine || is_empty shared) b (length theirs) (length shared) refl (measured, refl) h
    where
      measured :
          (x : String)
          → In x (meet (minus c.novel ref.base) ref.added)
          → In x c.novel × In x ref.added
      measured x i =
          let (j, k) = keep-In (λ z. elem z ref.added) (minus c.novel ref.base) i in
          ((minus-In c.novel ref.base j).0, elem-In x ref.added k)

      go :
          (r : Row R) (none_shared : Bool) (b : R) (t s : ℕ)
          → r.ref ≡ ref
          → Measured c r
          → (if none_shared
              then none
              else tagged r (kind_of (elem ref.pr c.stacked_on) r.new_code t s r.containment b))
            ≡ some (copy, row)
          → (row.ref ≡ ref) × IsCopy c row
      go r true b t s e q h = cc
      go r false b t s e q h =
          let kind = kind_of (elem ref.pr c.stacked_on) r.new_code t s r.containment b in
          let (k, same) = tagged-some r kind h in
          let (not_stacked, (mass, enough)) =
            kind_of-copy (elem ref.pr c.stacked_on) r.new_code t s r.containment b k in
          subst (λ x. (x.ref ≡ ref) × IsCopy c x) same
            (e, (ap (λ (z : Entry). elem z.pr c.stacked_on) e ∙ not_stacked, (mass, (enough, q))))

  -- A row in the slot for copies, of a reference that was compared.
  abbrev pub Supported : Comparison → List Entry → Judgement R → Type 0
  Supported c refs j = (row : Row R) × ((j.row ≡ some row) × (In row.ref refs × IsCopy c row))

  slot-Supported :
      (c : Comparison) (refs : List Entry) (row : Row R)
      → In row (slot R copy (place_all R c refs))
      → In row.ref refs × IsCopy c row
  slot-Supported c refs row i =
      let (j, (e, x)) = slot-In copy (place_all R c refs) i in
      let x = subst (λ z. In (z, row) (place_all R c refs)) (same_kind-eq j e) x in
      let (ref, (r, p)) = place_all-In c refs x in
      let (q, is_copy) = place_row-copy c ref row p in (subst (λ z. In z refs) (sym q) r, is_copy)

  Decided-Supported :
      (c : Comparison) (refs : List Entry) (j : Judgement R)
      → Decided c (place_all R c refs) j
      → j.outcome ≡ found_copy
      → Supported c refs j
  Decided-Supported c refs j (inl e) h =
      let z : found_clear ≡ found_copy = sym (ap (λ (x : Judgement R). x.outcome) e) ∙ h in cc
  Decided-Supported c refs j (inr (k, (row, (e, i)))) h =
      let is_k : outcome_of_kind k ≡ j.outcome =
        ap (λ (o : Option (Judgement R)). elim o [ none ↦ outcome_of_kind k | some x ↦ x.outcome ])
          e in
      let same = ap (λ (o : Option (Judgement R)). elim o [ none ↦ none | some x ↦ x.row ]) e in
      let i = subst (λ z. In row (slot R z (place_all R c refs))) (copy_only k (is_k ∙ h)) i in
      (row, (sym same, slot-Supported c refs row i))

abbrev pub IfCopy : Outcome → Type 0 → Type 0
IfCopy found_copy P = P
IfCopy found_review P = Unit
IfCopy found_clear P = Unit

if_copy : (o : Outcome) (P : Type 0) → (o ≡ found_copy → P) → IfCopy o P
if_copy found_copy P h = h refl
if_copy found_review P h = tt
if_copy found_clear P h = tt

-- What a COPY verdict says of the row it rests on.
abbrev pub Sound : {R : Type 0} ⦃n : Num R⦄ → List ℕ → Entry → List Entry → Judgement R → Type 0
Sound {R} stacked_on candidate references j = IfCopy j.outcome (
    (row : Row R) × ((j.row ≡ some row)
      × (In row.ref references
          × (((login row.ref.author == login candidate.author) ≡ false)
              × (((row.ref.pr == candidate.pr) ≡ false)
                  × ((text_before row.ref.first_seen candidate.first_seen ≡ true)
                      × ((elem row.ref.pr stacked_on ≡ false)
                          × ((min_mass ≤ row.new_code)
                              × ((le {R = R} t_copy (num (length row.shared) / num row.new_code)
                                    ≡ true)
                                  × ((h : String)
                                      → In h row.shared
                                      → In h candidate.added × In h row.ref.added))))))))))

is_reference-earlier :
    (candidate r : Entry)
    → is_reference candidate r ≡ true
    → ((login r.author == login candidate.author) ≡ false)
      × (((r.pr == candidate.pr) ≡ false) × (text_before r.first_seen candidate.first_seen ≡ true))
unfolding is_reference
is_reference-earlier candidate r h =
    go (login r.author == login candidate.author) (r.pr == candidate.pr)
      (text_before r.first_seen candidate.first_seen) h
  where
    go : (a b c : Bool) → (not a && not b && c) ≡ true → (a ≡ false) × ((b ≡ false) × (c ≡ true))
    go a b c h = ground arith

-- Every comparison has a verdict. It is COPY only for a reason: a submission by a different author and
-- of another number, first seen before this one, on which this branch is not built. The new code is of
-- the least mass or more, and 70% or more of it is shared: both submissions add what the verdict shows
-- as shared.
pub judge-Sound :
    {R : Type 0} ⦃n : Num R⦄ (on_main boiler : List String) (stacked_on : List ℕ)
    (candidate : Entry) (references : List Entry)
    → (j : Judgement R) × ((judge R on_main boiler stacked_on candidate references ≡ some j)
        × Sound stacked_on candidate references j)
unfolding judge compare_with
judge-Sound {R} on_main boiler stacked_on candidate references =
    let refs = keep (is_reference candidate) references in
    let c = compare_with R on_main boiler stacked_on candidate refs in
    elim (Bool-cases (is_empty c.novel)) [
      | inl e ↦ (clear R c, (rw e refl, tt))
      | inr e ↦
          let (j, (d, decided)) = decide-Decided c (place_all R c refs) kinds in
          (
            j,
            (
              rw e d,
              if_copy j.outcome _ (λ h.
                  let (row, (same, (i, shown))) = Decided-Supported c refs j decided h in
                  let (listed, is_ref) = keep-In (is_reference candidate) references i in
                  let (other, (number, earlier)) = is_reference-earlier candidate row.ref is_ref in
                  let (free, (mass, (enough, (both, ratio)))) = shown in
                  (
                    row,
                    (
                      same,
                      (
                        listed,
                        (
                          other,
                          (
                            number,
                            (
                              earlier,
                              (
                                free,
                                (
                                  mass,
                                  (
                                    subst (λ v. le t_copy v ≡ true) ratio enough,
                                    λ x k. let (j, l) = both x k in (added_of refs x j, l),
                                  ),
                                ),
                              ),
                            ),
                          ),
                        ),
                      ),
                    ),
                  )),
            ),
          )
    ]
  where
    added_of :
        (refs : List Entry) (x : String)
        → In x (compare_with R on_main boiler stacked_on candidate refs).novel
        → In x candidate.added
    added_of refs x i =
        let infra = (compare_with R on_main boiler stacked_on candidate refs).infra in
        let (j, _) = minus-In (minus (minus candidate.added boiler) candidate.base) infra i in
        let (k, _) = minus-In (minus candidate.added boiler) candidate.base j in
        (minus-In candidate.added boiler k).0
