-- ===== src/Tests/Sequences.antt =====
-- The analyzer on the program.
use lama_sm_interpreter.Prelude.{ℕ, ◌≡◌, refl, false, true, List, [], ◌∷◌, arith}
use lama_sm_interpreter.Result.{ok, ◌>>=◌}
use lama_sm_interpreter.Word.{byte_at, u32_at, u32_bytes}
use lama_sm_interpreter.Bytefile.{code_byte, code_u32, get_public_offset}
use lama_sm_interpreter.Instruction.{const, dup}
use lama_sm_interpreter.Byterun.{general_byterun}
use lama_sm_interpreter.Analyzer.{
  Analyzer, analyze, collect_flags, flag_symbols, flag_all, flag_from, flag_instruction,
  flag_target, flag_behind, flag_next, push_flagged, test_flag, set_flag, add_instruction, branch,
  check_label, check_nxt, process_from, process_instruction, process_label, process_labels,
  process_round, start_labels, traverse_code,
}
use lama_sm_interpreter.Analyzer.Order.{compare_from, compare_bytes, cmp_single}
use lama_sm_interpreter.Analyzer.Order.Asymmetric.{cmp_single-asymmetric}
use lama_sm_interpreter.Tests.Program.{program}

const_first : cmp_single program 9 14 ≡ ok true
unfolding cmp_single compare_bytes compare_from general_byterun code_byte byte_at u32_bytes
const_first = refl

decoded_const : general_byterun program 9 ≡ ok (14, const)
unfolding general_byterun code_byte byte_at u32_bytes
decoded_const = refl

decoded_dup : general_byterun program 14 ≡ ok (15, dup)
unfolding general_byterun code_byte byte_at u32_bytes
decoded_dup = refl

cmp_single-asymmetric_example : cmp_single program 14 9 ≡ ok false
cmp_single-asymmetric_example =
    cmp_single-asymmetric program 9 14 14 15 const dup decoded_const decoded_dup (omega arith)
      (omega arith) const_first

-- What the analyzer collects.
abbrev collected : Analyzer → List ℕ × List ℕ
collected a = (a.collect_single, a.collect_pairs)

-- No pair ends at END, where the jump leads.
sequences :
    (analyze program >>= λ a. ok (collected a)) ≡ ok (0 ∷ 9 ∷ 14 ∷ 15 ∷ 20 ∷ [], 0 ∷ 9 ∷ 14 ∷ [])
unfolding analyze general_byterun get_public_offset u32_at code_byte byte_at u32_bytes code_u32
    collect_flags flag_symbols flag_all flag_from flag_instruction flag_target flag_behind flag_next
    push_flagged test_flag set_flag add_instruction branch check_label check_nxt process_from
    process_instruction process_label process_labels process_round start_labels traverse_code
sequences = refl
