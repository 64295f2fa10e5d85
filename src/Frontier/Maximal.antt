-- ===== src/Frontier/Maximal.antt =====
-- Which points the Pareto frontier of eval/burnscore/frontier.py keeps.
use burnisher.Base.{
  ℕ, ◌≡◌, refl, sym, subst, ◌∙◌, ◌↔◌, ◌⊎◌, inl, inr, Bool, true, false, not, ◌&&◌, ◌||◌, List, [],
  ◌∷◌, arith, if◌then◌else◌, length, any, keep, In, here, there, In-cons, All, keep-In, In-keep,
  any-In, All-of_In,
}
use burnisher.Base.Eq.{string_eq, nat_eq}
use burnisher.Base.Result.{Result, ok}
use burnisher.Base.Num.{Num}
use burnisher.Frontier.{
  FrontierError, all_ge, any_gt, dominates, same_point, before, insert_sorted, sorted_set,
  any_dominates, undominated, pareto_frontier,
}
use burnisher.Frontier.Order.{beats, sorted_set-Represented, beats-same, same-beats}

module _ {R : Type 0} ⦃n : Num R⦄ where
  abbrev pub beaten : List (List R) → List R → Bool
  beaten points c = any (λ o. beats o c) points

  abbrev HasSize : ℕ → List (List R) → Type 0
  HasSize d points = All (λ p. length p ≡ d) points

  dominates-size :
      (d : ℕ) (a b : List R)
      → length a ≡ d
      → length b ≡ d
      → dominates a b ≡ ok (all_ge a b && any_gt a b)
  unfolding dominates
  dominates-size d a b h k = rw (h, k) (ground arith)

  any_dominates-beaten :
      (d : ℕ) (c : List R) (os : List (List R))
      → length c ≡ d
      → HasSize d os
      → any_dominates c os ≡ ok (beaten os c)
  unfolding any_dominates
  any_dominates-beaten d c [] h k = refl
  any_dominates-beaten d c (o ∷ os) h (k, ks) =
      rw (dominates-size d o c k h, any_dominates-beaten d c os h ks, any_dominates)
        (go (same_point o c) (all_ge o c && any_gt o c) (beaten os c))
    where
      go :
          (a b r : Bool)
          → ◌≡◌ {A = Result FrontierError Bool}
              (if a then ok r else (if b then ok true else ok r))
              (ok (not a && b || r))
      go true b r = refl
      go false true r = refl
      go false false r = refl

  abbrev stands : List (List R) → List R → Bool
  stands points c = not (beaten points c)

  undominated-keep :
      (d : ℕ) (uniq cs : List (List R))
      → HasSize d uniq
      → HasSize d cs
      → undominated uniq cs ≡ ok (keep (stands uniq) cs)
  unfolding undominated
  undominated-keep d uniq [] h k = refl
  undominated-keep d uniq (c ∷ cs) h (k, ks) =
      rw (any_dominates-beaten d c uniq k h, undominated-keep d uniq cs h ks, undominated)
        (go (beaten uniq c) (keep (stands uniq) cs))
    where
      go :
          (b : Bool) (r : List (List R))
          → ◌≡◌ {A = Result FrontierError (List (List R))}
              (ok (if b then r else c ∷ r))
              (ok (if not b then c ∷ r else r))
      go true r = refl
      go false r = refl

  insert_sorted-In :
      (x p : List R) (qs : List (List R)) → In x (insert_sorted p qs) → (x ≡ p) ⊎ In x qs
  unfolding insert_sorted
  insert_sorted-In x p [] i = In-cons i
  insert_sorted-In x p (q ∷ qs) i = go (same_point p q) (before p q) i (insert_sorted-In x p qs)
    where
      shift : (x ≡ p) ⊎ In x qs → (x ≡ p) ⊎ In x (q ∷ qs)
      shift (inl e) = inl e
      shift (inr j) = inr (there j)

      first :
          (x ≡ q) ⊎ In x (insert_sorted p qs)
          → (In x (insert_sorted p qs) → (x ≡ p) ⊎ In x qs)
          → (x ≡ p) ⊎ In x (q ∷ qs)
      first (inl e) rec = inr (subst (λ z. In z (q ∷ qs)) (sym e) here)
      first (inr j) rec = shift (rec j)

      go :
          (a b : Bool)
          → In x (if a then q ∷ qs else (if b then p ∷ q ∷ qs else q ∷ insert_sorted p qs))
          → (In x (insert_sorted p qs) → (x ≡ p) ⊎ In x qs)
          → (x ≡ p) ⊎ In x (q ∷ qs)
      go true b i rec = inr i
      go false true i rec = In-cons i
      go false false i rec = first (In-cons i) rec

  sorted_set-In : (x : List R) (ps : List (List R)) → In x (sorted_set ps) → In x ps
  unfolding sorted_set
  sorted_set-In x [] i = elim i [ ]
  sorted_set-In x (p ∷ ps) i = go (insert_sorted-In x p (sorted_set ps) i) (sorted_set-In x ps)
    where
      go : (x ≡ p) ⊎ In x (sorted_set ps) → (In x (sorted_set ps) → In x ps) → In x (p ∷ ps)
      go (inl e) rec = subst (λ z. In z (p ∷ ps)) (sym e) here
      go (inr j) rec = there (rec j)

  size-In : (d : ℕ) (x : List R) (ps : List (List R)) → HasSize d ps → In x ps → length x ≡ d
  size-In d x [] h i = elim i [ ]
  size-In d x (p ∷ ps) h here = h.0
  size-In d x (p ∷ ps) h (there i) = size-In d x ps h.1 i

  unbeaten :
      (p q : List R) (points : List (List R))
      → stands points p ≡ true
      → In q points
      → beats q p ≡ false
  unbeaten p q points h i = go (beats q p) refl
    where
      go : (b : Bool) → beats q p ≡ b → b ≡ false
      go false e = refl
      go true e = cc (any-In (λ o. beats o p) i e)

  -- what the frontier of some points is
  pub record IsFrontier (points frontier : List (List R)) : Type 0 where
    pub member :
        (p : List R)
        → In p frontier ↔ In p (sorted_set points) × (beaten (sorted_set points) p ≡ false)
    pub from_points : (p : List R) → In p frontier → In p points
    pub antichain : (p q : List R) → In p frontier → In q frontier → beats q p ≡ false
    pub maximal : (p q : List R) → In p frontier → In q points → beats q p ≡ false
    pub whole :
        (p : List R)
        → In p points
        → ((q : List R) → In q points → beats q p ≡ false)
        → (r : List R) × (In r frontier × (same_point r p ≡ true))

  unbeaten-beaten :
      (qs : List (List R)) (p : List R)
      → ((q : List R) → In q qs → beats q p ≡ false)
      → beaten qs p ≡ false
  unbeaten-beaten [] p f = refl
  unbeaten-beaten (q ∷ qs) p f =
      ground (arith, f q here, unbeaten-beaten qs p (λ r i. f r (there i)))

  -- Of points that all have one dimension, the frontier can always be computed. No given point beats a
  -- point of it, and a given point that no other beats is a point of it, or equal to one. It consists of
  -- exactly those of the distinct points that no other beats, each of them is one of the given points,
  -- and none of them beats another.
  pub pareto_frontier-IsFrontier :
      (d : ℕ) (points : List (List R))
      → All (λ p. length p ≡ d) points
      → (frontier : List (List R)) × (pareto_frontier points ≡ ok frontier)
        × IsFrontier points frontier
  unfolding pareto_frontier
  pareto_frontier-IsFrontier d points h = (
    keep (stands uniq) uniq,
    undominated-keep d uniq uniq sizes sizes,
    record {
      member = λ p. (
        λ i. let (j, e) = keep-In (stands uniq) uniq i in (j, ground arith),
        λ (j, e). In-keep (stands uniq) j (rw e refl),
      );
      from_points = λ p i. sorted_set-In p points ((keep-In (stands uniq) uniq i).0);
      antichain = λ p q i j.
          unbeaten p q uniq ((keep-In (stands uniq) uniq i).1) ((keep-In (stands uniq) uniq j).0);
      maximal = λ p q i j. still_unbeaten p q i j (beats q p) refl;
      whole = λ p i f.
          let (r, (j, same)) = sorted_set-Represented p points i in
          (r, (In-keep (stands uniq) j (rw (standing p r i j same f) refl), same));
    },
  )
    where
      uniq : List (List R)
      uniq = sorted_set points

      size : (p : List R) → In p points → length p ≡ d
      size p i = size-In d p points h i

      sizes : HasSize d uniq
      sizes = All-of_In uniq (λ p i. size-In d p points h (sorted_set-In p points i))

      still_unbeaten :
          (p q : List R)
          → In p (keep (stands uniq) uniq)
          → In q points
          → (b : Bool) → beats q p ≡ b
          → b ≡ false
      still_unbeaten p q i j false e = refl
      still_unbeaten p q i j true e =
          let (k, stood) = keep-In (stands uniq) uniq i in
          let (r, (l, same)) = sorted_set-Represented q points j in
          let p_size = size p (sorted_set-In p points k) in
          let r_size = size r (sorted_set-In r points l) in
          let q_size = size q j in
          sym (beats-same r q p (r_size ∙ sym q_size) (q_size ∙ sym p_size) same e)
          ∙ unbeaten p r uniq stood l

      standing :
          (p r : List R)
          → In p points
          → In r uniq
          → same_point r p ≡ true
          → ((q : List R) → In q points → beats q p ≡ false)
          → beaten uniq r ≡ false
      standing p r i j same f = unbeaten-beaten uniq r (λ q k. open_case q k (beats q r) refl)
        where
          open_case : (q : List R) → In q uniq → (b : Bool) → beats q r ≡ b → b ≡ false
          open_case q k false e = refl
          open_case q k true e =
              let r_size = size r (sorted_set-In r points j) in
              let q_size = size q (sorted_set-In q points k) in
              let p_size = size p i in
              sym (same-beats q r p (q_size ∙ sym r_size) (r_size ∙ sym p_size) e same)
              ∙ f q (sorted_set-In q points k)
