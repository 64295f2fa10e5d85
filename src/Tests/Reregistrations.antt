-- ===== src/Tests/Reregistrations.antt =====
-- Runs of the re-registration guard.
use burnisher.Base.{String, ◌≡◌, refl, sym, subst, inl, false, ◌&&◌, List, [], ◌∷◌, any, In, here}
use burnisher.Base.Eq.{◌==◌, string_eq, nat_eq}
use burnisher.Base.Int.{ℤ}
use burnisher.Base.Fixed.{fixed}
use burnisher.Base.Texts.{
  text_length, find_text, take_text, drop_text, ends_with, strip_start, is_space, join,
}
use burnisher.Copycat.{is_code}
use burnisher.Copycat.Comments.{
  strip_comments, strip_lines, strip_line, strip_open, without_blocks, cut_at, has_hash_comments,
}
use burnisher.Copycat.Tokens.{span}
use burnisher.Reregistration.{Reg, Files}
use burnisher.Reregistration.Scan.{
  registrations, find_registrations, match_registration, without_spaces, clean, definitions,
  find_bodies, body_at, match_bracket, match_from, skip_qualifiers,
}
use burnisher.Reregistration.Similar.{matching, matched, find_longest_match}
use burnisher.Reregistration.Judge.{judge, known, Finding, reregistered}
use burnisher.Reregistration.Found.{Reason}
use burnisher.Reregistration.Flagged.{judge-Reason, judge-OnMain, main_known, IsNew, OnMain}

abbrev kernel_lines : List String
kernel_lines =
    "void mul(A& a) noexcept { run(a, \"x{\"); }" ∷ "static auto r ="
    ∷ "  register_impl < Args >(\"mul\", \"cuda\" , mul< 8 >, 1);" ∷ []

abbrev base_files : Files
base_files = ("src/mul.cu", kernel_lines) ∷ []

abbrev candidate_files : Files
candidate_files =
    ("src/fast.cu", "auto q = register_impl<Args>(\"mul\", \"fast\", mul<8>, 1);" ∷ []) ∷ base_files

read :
    registrations base_files
    ≡ record {
      op = "mul";
      name = "cuda";
      callable = "mul<8>";
      function = "mul";
      template_args = "<8>";
      path = "src/mul.cu";
    }
      ∷ []
unfolding registrations find_registrations match_registration without_spaces clean is_code ends_with
    strip_comments strip_lines strip_line strip_open without_blocks cut_at has_hash_comments
    text_length find_text take_text drop_text strip_start is_space join span
read = refl

defined : definitions base_files ≡ ("mul", " run(a, \"x{\"); " ∷ []) ∷ []
unfolding definitions find_bodies body_at match_bracket match_from skip_qualifiers clean is_code
    ends_with strip_comments strip_lines strip_line strip_open without_blocks cut_at
    has_hash_comments text_length find_text take_text drop_text strip_start is_space join span
defined = refl

blocks : matching ("a" ∷ "b" ∷ "c" ∷ "d" ∷ []) ("b" ∷ "c" ∷ "x" ∷ "d" ∷ []) ≡ 3
unfolding matching matched find_longest_match
blocks = refl

abbrev fast : Reg
fast = record {
  op = "mul";
  name = "fast";
  callable = "mul<8>";
  function = "mul";
  template_args = "<8>";
  path = "src/fast.cu";
}

abbrev cuda : Reg
cuda = record fast { name = "cuda"; path = "src/mul.cu" }

candidate_regs : registrations candidate_files ≡ fast ∷ cuda ∷ []
unfolding registrations find_registrations match_registration without_spaces clean is_code ends_with
    strip_comments strip_lines strip_line strip_open without_blocks cut_at has_hash_comments
    text_length find_text take_text drop_text strip_start is_space join span
candidate_regs = refl

known_regs : (main_known ℤ candidate_files base_files).regs ≡ cuda ∷ []
unfolding known registrations find_registrations match_registration without_spaces clean is_code
    ends_with strip_comments strip_lines strip_line strip_open without_blocks cut_at
    has_hash_comments text_length find_text take_text drop_text strip_start is_space join span
known_regs = refl

is_new : IsNew ℤ candidate_files base_files fast
is_new = (
  subst (In fast) (sym candidate_regs) here,
  subst (λ regs. any (λ (b : Reg). b.op == "mul" && b.name == "fast") regs ≡ false) (sym read) refl,
)

on_main : OnMain ℤ candidate_files base_files fast
on_main = (cuda, inl (subst (In cuda) (sym known_regs) here, refl))

judge-OnMain_example :
    (f : Finding ℤ) × (In f (judge ℤ candidate_files base_files).findings
      × ((f.registration ≡ fast) × ((judge ℤ candidate_files base_files).outcome ≡ reregistered)))
judge-OnMain_example = judge-OnMain ℤ candidate_files base_files fast is_new on_main

fast_found :
    (f : Finding ℤ) × (In f (judge ℤ candidate_files base_files).findings
      × ((f.registration ≡ fast) × ((judge ℤ candidate_files base_files).outcome ≡ reregistered)))
fast_found = judge-OnMain ℤ candidate_files base_files fast is_new on_main

judge-Reason_example :
    IsNew ℤ candidate_files base_files (fast_found.0).registration
    × Reason ℤ
        (main_known ℤ candidate_files base_files)
        (definitions candidate_files)
        (fast_found.0)
judge-Reason_example = judge-Reason ℤ candidate_files base_files (fast_found.0) (fast_found.1.0)
