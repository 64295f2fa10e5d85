-- ===== src/Receipt/Decide.antt =====
-- How a receipt's status is decided: the order of the vetoes, and the agreement with the
-- frontier's own verdict.
use burnisher.Base.{
  String, ◌≡◌, refl, sym, ◌≢◌, ◌↔◌, Bool, true, false, Option, some, arith, find-eq_some,
}
use burnisher.Base.Eq.{◌==◌, string_eq, nat_eq}
use burnisher.Base.Dict.{eq_of_test}
use burnisher.Base.Num.{Num, num, lt}
use burnisher.Frontier.{frontier_verdict}
use burnisher.Receipt.{
  all_statuses, Status, frontier_expanded, status_text, read_status, is_crediting, decide_status,
}

-- Every status is read back from its text.
pub read_status-status_text : (st : Status) → read_status (status_text st) ≡ some st
unfolding read_status status_text
read_status-status_text frontier_expanded = refl
read_status-status_text _ = refl

pub read_status-eq_some : (s : String) (st : Status) → read_status s ≡ some st → s ≡ status_text st
unfolding read_status
read_status-eq_some s st h =
    sym (eq_of_test (status_text st) s (find-eq_some (λ x. status_text x == s) all_statuses h))

-- What a submission has to have passed before its numbers are looked at.
pub record Passes (correctness : String) (determinism held_out : Option Bool)
    (complete resolved : Bool) : Type 0 where
  pub correct : correctness ≡ "PASS"
  pub deterministic : determinism ≢ some false
  pub held : held_out ≢ some false
  pub whole : complete ≡ true
  pub clear : resolved ≡ true

pass_differs : (c : String) → c ≡ "PASS" → (c == "BUILD_FAIL") ≡ false
pass_differs c h = rw h

module _ {R : Type 0} ⦃n : Num R⦄ (correctness : String) (determinism : Option Bool)
    (complete : Bool) (held_out : Option Bool) (resolved : Bool) (gap delta : R) where
  -- A status credits exactly when every gate is passed and both the gap closed and the frontier's
  -- change are above zero.
  pub decide_status-is_crediting :
      (is_crediting (decide_status correctness determinism complete held_out resolved gap delta)
        ≡ true)
      ↔ (Passes correctness determinism held_out complete resolved
          × (lt (num 0) gap ≡ true)
          × (lt (num 0) delta ≡ true))
  unfolding decide_status is_crediting
  decide_status-is_crediting = (
    λ h. ground (arith, string_eq.beq_iff correctness "PASS", pass_differs correctness),
    λ (p, g, d). ground (arith, string_eq.beq_iff correctness "PASS", pass_differs correctness),
  )

  -- With every gate but resolution passed, the status is the one that the frontier module names.
  pub decide_status-frontier_verdict :
      Passes correctness determinism held_out complete true
      → status_text (decide_status correctness determinism complete held_out resolved gap delta)
        ≡ frontier_verdict gap delta resolved
  unfolding decide_status frontier_verdict status_text
  decide_status-frontier_verdict p =
      ground (arith, string_eq.beq_iff correctness "PASS", pass_differs correctness)
