-- ===== src/Audit/Supported.antt =====
-- What an audit that passes says of the receipt, and which receipts never pass.
use burnisher.Base.{
  String, ◌≡◌, refl, sym, ap, subst, ◌∙◌, inl, inr, Bool, true, false, not, ◌&&◌, Option, none,
  some, List, [], arith, if◌then◌else◌, is_empty, keep, In, here, there, In-keep, Bool-cases,
  or_else,
}
use burnisher.Base.Eq.{◌==◌, string_eq, nat_eq}
use burnisher.Base.Dict.{Dict, keys, eq_of_test}
use burnisher.Base.Result.{Result, ok, err, >>=-eq-ok}
use burnisher.Base.Num.{Num}
use burnisher.Base.Eq.{option_eq}
use burnisher.Cells.{Generation}
use burnisher.Receipt.{Body, Receipt, status_text, decide_status}
use burnisher.Receipt.Build.{ReceiptError, build_body, verify_receipt}
use burnisher.Verdict.{Verdict, VerdictError, verdict}
use burnisher.Bootstrap.{Library}
use burnisher.Compute.{ComputeError}
use burnisher.Compute.Sound.{ok-injective}
use burnisher.Compute.Accepted.{SoundScore, compute-SoundScore}
use burnisher.Compute.Whole.{Computed, compute}
use burnisher.Audit.Compare.{comparison, differing_keys}
use burnisher.Audit.{
  Uncaught, crashed, RawFile, Audit, is_caught, has_survived, rebuild, rescore, judged, is_verified,
  nothing_differs, audit_one,
}

-- A key whose test fails is named, so where none is named every test holds.
none_named :
    {k : String} {b : Bool} (d : Dict String Bool)
    → is_empty (keys (keep (λ (t : String × Bool). not t.1) d)) ≡ true
    → In (k, b) d
    → b ≡ true
none_named {k} {b} d h i = elim (Bool-cases b) [
  | inl e ↦ e
  | inr e ↦ absurd (In-keep (λ (t : String × Bool). not t.1) i (ap not e)) h
]
  where
    absurd :
        {t : String × Bool} {ts : Dict String Bool} → In t ts → is_empty (keys ts) ≡ true → b ≡ true
    absurd here h = cc
    absurd (there i) h = cc

judged-ok :
    {R : Type 0} (r : Result VerdictError (Verdict R)) {v : Verdict R} → judged r ≡ ok v → r ≡ ok v
judged-ok (ok x) h = cc
judged-ok (err e) h = cc

is_verified-true : (r : Result ReceiptError (Unit {0})) → is_verified r ≡ true → r ≡ ok tt
is_verified-true (ok tt) h = refl
is_verified-true (err e) h = cc

module _ {R : Type 0} ⦃n : Num R⦄ (lib : Library R) (hash : Body R → String)
    (format_gap : R → String) (g : Generation R) (raw : RawFile R) (published : Receipt R)
    (timestamp : String) where
  -- What supports a receipt: it verifies, its measurements have a score, nothing of it differs from what
  -- they give but its time and its digest, and it was scored against this generation.
  pub record Support (a : Audit R) : Type 0 where
    pub verified : verify_receipt hash published (some g) ≡ ok tt
    pub out : Computed R
    pub out_lem : compute lib g raw.records raw.held_out false true ≡ ok out
    pub score_sound : SoundScore lib g raw.records false true out
    pub same :
        (key : String) (test : Bool)
        → In (key, test) (comparison (rebuild g raw published timestamp out) published.body)
        → test ≡ true
    pub status_lem :
        published.status
        ≡ some (
            status_text (
              decide_status raw.correctness raw.determinism out.coverage.complete
                (some (has_survived out.held_out))
                out.interval.resolved
                out.aggregate.gap_closed
                out.frontier.delta))
    pub digest_lem : published.generation_digest ≡ some g.digest
    pub verdict_lem : verdict format_gap published ≡ ok a.verdict

  rescore-empty :
      (d : Option (List String))
      → rescore lib g raw published timestamp ≡ ok d
      → nothing_differs d ≡ true
      → (out : Computed R) × ((compute lib g raw.records raw.held_out false true ≡ ok out)
          × (is_empty (differing_keys (rebuild g raw published timestamp out) published.body)
              ≡ true))
  unfolding rescore
  rescore-empty d h none_differs = go (compute lib g raw.records raw.held_out false true) refl h
    where
      go :
          (r : Result ComputeError (Computed R))
          → compute lib g raw.records raw.held_out false true ≡ r
          → (elim r as (λ _. Result Uncaught (Option (List String))) [
            | ok out ↦
                ok (some (differing_keys (rebuild g raw published timestamp out) published.body))
            | err e ↦ if is_caught e then ok none else err (crashed e)
          ])
            ≡ ok d
          → (out : Computed R) × ((compute lib g raw.records raw.held_out false true ≡ ok out)
              × (is_empty (differing_keys (rebuild g raw published timestamp out) published.body)
                  ≡ true))
      go (ok out) e h =
          let same : some (differing_keys (rebuild g raw published timestamp out) published.body)
              ≡ d =
            ok-injective h in
          (out, (e, ap nothing_differs same ∙ none_differs))
      go (err x) e h = refused (is_caught x) h
        where
          refused :
              (t : Bool)
              → (if t then ok none else err (crashed x)) ≡ ok d
              → (out : Computed R) × ((compute lib g raw.records raw.held_out false true ≡ ok out)
                  × (is_empty
                        (differing_keys (rebuild g raw published timestamp out) published.body)
                      ≡ true))
          refused true h =
              let same : none ≡ d = ok-injective h in
              let false_true : false ≡ true = ap nothing_differs same ∙ none_differs in cc
          refused false h = cc

  -- An audit that passes shows that the receipt verifies, that its measurements have a score and pass
  -- every check scoring makes, that its status is the one they decide, that no other key but the time
  -- and the digest differs from what they give, and that it was scored against this generation.
  pub audit_one-Support :
      {a : Audit R}
      → audit_one lib hash format_gap g raw published timestamp ≡ ok a
      → a.pass ≡ true
      → Support a
  unfolding audit_one rebuild build_body
  audit_one-Support {a} h passed =
      let (d, hd, h1) = >>=-eq-ok (rescore lib g raw published timestamp) _ h in
      let (v, hv, h2) = >>=-eq-ok (judged (verdict format_gap published)) _ h1 in
      let made = ok-injective h2 in
      let all_passed = ap (λ (z : Audit R). z.pass) made ∙ passed in
      subst Support made (support d hd v hv all_passed)
    where
      support :
          (d : Option (List String))
          → rescore lib g raw published timestamp ≡ ok d
          → (v : Verdict R) → judged (verdict format_gap published) ≡ ok v
          → (is_verified (verify_receipt hash published (some g))
              && (nothing_differs d && published.generation_digest == some g.digest))
            ≡ true
          → Support (record {
            verifies = is_verified (verify_receipt hash published (some g));
            reproduced = nothing_differs d;
            differing = or_else d [];
            right_generation = published.generation_digest == some g.digest;
            verdict = v;
            pass =
                is_verified (verify_receipt hash published (some g))
                && (nothing_differs d && published.generation_digest == some g.digest);
          })
      support d hd v hv passed =
          let verified : is_verified (verify_receipt hash published (some g)) ≡ true =
            ground (arith, passed) in
          let nothing : nothing_differs d ≡ true = ground (arith, passed) in
          let right : (published.generation_digest == some g.digest) ≡ true =
            ground (arith, passed) in
          let (out, (ho, he)) = rescore-empty d hd nothing in
          let body = rebuild g raw published timestamp out in
          record {
            verified = is_verified-true (verify_receipt hash published (some g)) verified;
            out = out;
            out_lem = ho;
            score_sound = compute-SoundScore lib g raw.records raw.held_out false true ho;
            same = λ key test i. none_named (comparison body published.body) he i;
            status_lem = sym (
                eq_of_test body.status published.status (
                  none_named (comparison body published.body) he
                    (there (there (there (there here))))));
            digest_lem = eq_of_test published.generation_digest (some g.digest) right;
            verdict_lem = judged-ok (verdict format_gap published) hv;
          }

  -- A receipt that says why it supersedes another never passes: it is derived again without the reason.
  pub audit_one-superseded :
      (reason : String) {a : Audit R}
      → published.supersede_reason ≡ some reason
      → audit_one lib hash format_gap g raw published timestamp ≡ ok a
      → a.pass ≡ false
  unfolding rebuild build_body
  audit_one-superseded reason {a} has_reason h = elim (Bool-cases a.pass) [
    | inl passed ↦
        let s = audit_one-Support h passed in
        let same : none ≡ published.supersede_reason = eq_of_test none published.supersede_reason (
          s.same "supersede_reason" _ (
            there (
              there (
                there (
                  there (
                    there (
                      there (
                        there (
                          there
                            (there (there (there (there (there (there (there here)))))))))))))))) in
        let none_some : none ≡ some reason = same ∙ has_reason in cc
    | inr failed ↦ failed
  ]
