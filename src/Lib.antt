-- ===== src/Lib.antt =====
-- The evaluator of Burnisher: how a submission is scored, recorded, challenged and paid.
--
-- A submission is a pull request. The bot (eval/pr_bot.py) asks its guards, builds the submission,
-- has it scored and labels it; a round (eval/round.py) evaluates the pull requests that are due and
-- picks at most one to merge. Scoring yields a receipt (eval/burnscore/receipt.py), whose verdict
-- (verdict.py) says what is paid; compute (compute.py) turns raw measurements into the score, with the
-- frontier, the noise floor, the bootstrap and the roofline; the copycat guard and the re-registration
-- guard look for copies; the ledger (ledger.py) keeps every receipt and the running totals,
-- and a challenge (challenge.py) measures a receipt again on another box and can hold its credit.
--
-- Files and the code they model, below eval/burnscore/ where nothing else is said:
--   Frontier          frontier.py: objectives, normalized points, dominance, the Pareto frontier
--   Frontier/Volume   hypervolume and frontier_delta
--   Cells             cells.py: a generation, its cells, coverage, the weighted aggregate
--   Receipt           receipt.py: statuses, decide_status, the data of a receipt
--   Receipt/Build     build_receipt and verify_receipt; the digest is a parameter
--   Verdict           verdict.py: label_for and verdict; Verdict/Outcomes: the outcomes' texts
--   Floor             floor.py: paired ratios, measure_floor, the floor as gap closed, the gate
--   Dtypes            dtypes.py; Roofline: roofline.py, the bound of a stage, gap_closed, room_left
--   Bootstrap         bootstrap.py: paired_bootstrap and sign_test
--   Compute           compute.py: group; Compute/Score: one cell; Compute/Whole: compute;
--                     Compute/Held: _held_out_verdict
--   Challenge         challenge.py: filing a counter-receipt, comparing receipts, the hold
--   Ledger            ledger.py: append_receipt, update_current, show; Ledger/Audit: audit
--   PrBot             eval/pr_bot.py: needs_evaluation, record_evaluation, the labels
--   PrBot/World       what the bot changes: labels, actions, records; an action may raise
--   PrBot/Evaluate    _evaluate, _evaluate_cartography and evaluate, stage by stage
--   Instrument        scripts/instrument_guard.py, and guard of eval/pr_bot.py, which runs it
--   Round             eval/round.py: the queue, the measuring loop, the winner, holds, rebase labels
--   Round/Run         sync_holds and run; what GitHub lists and whether it merges are parameters
--   Audit             eval/audit.py: audit_one and the audit of a ledger; Audit/Compare: its comparison
--   Copycat           copycat.py: parse_diff; Copycat/Comments: strip_comments; Copycat/Tokens:
--                     canonical_tokens; Copycat/Fingerprint: kgrams and winnow; Copycat/Judge: judge
--   Copycat/Guard     scripts/copycat_guard.py: the observations, the block log; Copycat/Answer: main
--   Reregistration    reregistration.py: registrations and definitions; Reregistration/Scan: the
--                     brackets; Reregistration/Similar: difflib's ratio; Reregistration/Judge: judge,
--                     and scripts/reregistration_guard.py
-- The other files below these hold theorems, named for what they prove. Base has shared lists,
-- dictionaries, texts and numbers. Tests has concrete runs.
--
-- A float is a value of any type with the operations and laws of Base.Num: an order, and the sign
-- and size of differences and products, which rounded arithmetic meets. Nothing is assumed of
-- associativity, and infinities and NaN do not occur. Base.Fixed is an instance of whole units of
-- 1/10000, for the tests.
--
-- A JSON object is a record; a key that may be missing or null is an Option, and the two are not told
-- apart. A directory of files is a dictionary under the parts of a file's name. Python's exceptions
-- are the errors of Result. Most loops are structural recursion on the list they walk. Those that move
-- in a text or cut a list (without_blocks, skip_qualifiers, matched) take fuel, the length of the text or
-- of the list, of which each round uses up at least one.
--
-- Parameters: the SHA-256 of a receipt and of a description, the digest of a fingerprint, the text of a
-- paid amount, what git answers to the guards, and in PrBot/Evaluate what the guards, the build and the
-- scoring script answer, which are programs of their own. The exponential, the logarithm, the mean, the
-- median, the standard deviation and the random draws of Python are fields of a record. GitHub's commands
-- are taken to succeed.
--
-- Not modelled: the geometry of the stages, the runner and its processes, the gate, the calibration, the
-- sandbox, the lock of a round, the texts of comments and reasons, the command lines, letters outside
-- ASCII in a source that is compared, and the C++ and CUDA runtime that is measured.
pub mod Base
pub mod Frontier
pub mod Cells
pub mod Receipt
pub mod Verdict
pub mod Floor
pub mod Dtypes
pub mod Roofline
pub mod Bootstrap
pub mod Compute
pub mod Audit
pub mod Challenge
pub mod Ledger
pub mod PrBot
pub mod Instrument
pub mod Round
pub mod Copycat
pub mod Reregistration
pub mod Tests
