-- ===== src/Challenge/Filing.antt =====
-- Filing a counter-receipt in eval/burnscore/challenge.py.
use burnisher.Base.{
  String, ◌≡◌, refl, ap, subst, ◌∙◌, Bool, true, false, Option, none, some, if◌then◌else◌,
}
use burnisher.Base.Eq.{◌==◌, string_eq, nat_eq}
use burnisher.Base.Dict.{lookup, insert, lookup-insert, eq_self, eq_of_test}
use burnisher.Base.Result.{Result, ok, err, ◌>>◌, require, raise_if}
use burnisher.Base.Eq.{option_eq, pair_eq}
use burnisher.Receipt.{Receipt}
use burnisher.Challenge.{
  ChallengeError, different_subject, same_device, already_filed, no_generation, ChallengeKey,
  Challenges, subject, box_id, file_counter, attach,
}

module _ {R : Type 0} where
  -- what filing `counter` against `canonical` under `rid` has done to the files
  pub record Filed (files : Challenges R) (canonical counter : Receipt R) (rid : String)
      (files' : Challenges R) : Type 0 where
    pub generation : String
    pub same_subject : subject canonical ≡ subject counter
    pub other_box : (box_id counter == box_id canonical) ≡ false
    pub kept :
        (key : ChallengeKey) (c : Receipt R)
        → lookup key files ≡ some c
        → lookup key files' ≡ some c
    pub on_file : Receipt R
    pub found : lookup (generation, (rid, box_id counter)) files' ≡ some on_file
    pub same_digest : on_file.content_digest ≡ counter.content_digest

  abbrev Kept : Challenges R → Challenges R → ChallengeKey → Receipt R → Type 0
  Kept files files' key counter =
      ((k : ChallengeKey) (c : Receipt R) → lookup k files ≡ some c → lookup k files' ≡ some c)
      × ((on_file : Receipt R) × (lookup key files' ≡ some on_file)
          × (on_file.content_digest ≡ counter.content_digest))

  insert-Kept :
      (files : Challenges R) (key : ChallengeKey) (counter : Receipt R)
      → lookup key files ≡ none
      → Kept files (insert key counter files) key counter
  insert-Kept files key counter e = (
    λ k c h. lookup-insert key k counter files ∙ go k c (key == k) refl h,
    (
      counter,
      lookup-insert key key counter files
          ∙ ap (λ b. if b then some counter else lookup key files) (eq_self key),
      refl,
    ),
  )
    where
      go :
          (k : ChallengeKey) (c : Receipt R) (b : Bool)
          → (key == k) ≡ b
          → lookup k files ≡ some c
          → (if b then some counter else lookup k files) ≡ some c
      go k c true q h =
          let same : key ≡ k = eq_of_test key k q in cc (subst (λ z. lookup z files ≡ none) same e)
      go k c false q h = h

  file_counter-ok :
      (files files' : Challenges R) (key : ChallengeKey) (counter : Receipt R)
      → file_counter files key counter ≡ ok files'
      → Kept files files' key counter
  unfolding file_counter
  file_counter-ok files files' key counter h = go (lookup key files) refl h
    where
      matched :
          (existing : Receipt R) (b : Bool)
          → (existing.content_digest == counter.content_digest) ≡ b
          → lookup key files ≡ some existing
          → ◌≡◌ {A = Result ChallengeError (Challenges R)}
              (if b then ok files else err already_filed)
              (ok files')
          → Kept files files' key counter
      matched existing false q e h = cc
      matched existing true q e h =
          let same : files ≡ files' = cc in
          subst (λ z. Kept files z key counter) same
            (λ k c l. l, (existing, e, eq_of_test existing.content_digest counter.content_digest q))

      go :
          (o : Option (Receipt R))
          → lookup key files ≡ o
          → ◌≡◌ {A = Result ChallengeError (Challenges R)}
              (elim o [
                | none ↦ ok (insert key counter files)
                | some existing ↦
                    if existing.content_digest == counter.content_digest
                    then ok files
                    else err already_filed
              ])
              (ok files')
          → Kept files files' key counter
      go none e q =
          let same : insert key counter files ≡ files' = cc in
          subst (λ z. Kept files z key counter) same (insert-Kept files key counter e)
      go (some existing) e q =
          matched existing (existing.content_digest == counter.content_digest) refl e q

  -- Filing a counter-receipt succeeds only when it is of the same subject and from another box; every
  -- counter-receipt that was on file stays what it was, and the one now on file for this box has the
  -- digest of the one that was filed.
  pub attach-Filed :
      (files files' : Challenges R) (canonical counter : Receipt R) (rid : String)
      → attach files canonical counter rid ≡ ok files'
      → Filed files canonical counter rid files'
  unfolding attach
  attach-Filed files files' canonical counter rid h =
      go (subject canonical == subject counter) refl (box_id counter == box_id canonical) refl
        canonical.benchmark_generation h
    where
      go :
          (a : Bool)
          → (subject canonical == subject counter) ≡ a
          → (b : Bool) → (box_id counter == box_id canonical) ≡ b
          → (g : Option String)
          → (require a different_subject
              >> (raise_if b same_device >> elim g [
                | none ↦ err no_generation
                | some g ↦ file_counter files (g, (rid, box_id counter)) counter
              ]))
            ≡ ok files'
          → Filed files canonical counter rid files'
      go false p b q g h = cc
      go true p true q g h = cc
      go true p false q none h = cc
      go true p false q (some g) h =
          let (kept, (on_file, found, digest)) =
            file_counter-ok files files' (g, (rid, box_id counter)) counter h in
          record {
            generation = g;
            same_subject = eq_of_test (subject canonical) (subject counter) p;
            other_box = q;
            kept = kept;
            on_file = on_file;
            found = found;
            same_digest = digest;
          }
