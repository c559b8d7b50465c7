-- ===== src/Tests/Runs.antt =====
-- Two rounds of the loop on the program.
use lama_sm_interpreter.Prelude.{ℕ, ◌≡◌, [], ◌∷◌, refl, false, some, get_elem?, arith}
use lama_sm_interpreter.Result.{ok}
use lama_sm_interpreter.Word.{byte_at, u32_at, u32_bytes}
use lama_sm_interpreter.Word.Boxing.{box_int}
use lama_sm_interpreter.Bytefile.{Bytefile, code_byte, code_u32}
use lama_sm_interpreter.Bytefile.Roundtrip.{bytefile_of}
use lama_sm_interpreter.Instruction.{cjmp_z, next_instruction_type}
use lama_sm_interpreter.Verifier.Marks.Paths.{Reach, start, step}
use lama_sm_interpreter.Machine.{State, update, store, load, consume0, consume1}
use lama_sm_interpreter.Machine.Frames.{push_op, peek_op, pop_op}
use lama_sm_interpreter.Interp.Stack.{stack_const, stack_dup}
use lama_sm_interpreter.Interp.Control.{jump_if_zero}
use lama_sm_interpreter.Interp.Loop.{new_state, round, run_instruction}
use lama_sm_interpreter.Interp.Depth.Verified.{DepthGoes}
use lama_sm_interpreter.Interp.Flow.Follows.{Follows, run_instruction-Follows}
use lama_sm_interpreter.Interp.Flow.Runs.{Straights, Straights-marked}
use lama_sm_interpreter.Tests.Program.{program}
use lama_sm_interpreter.Tests.Marks.{marks, collect_marks-program, IsMain-first, begin_edge}
use lama_sm_interpreter.Tests.Steps.{runtime, at_const, at_dup}

-- A CJMPz over the DROP behind it, with the box of 0 on the stack.
abbrev branches : Bytefile
branches = bytefile_of 0 [] [] (0x50 ∷ 6 ∷ 0 ∷ 0 ∷ 0 ∷ 0x18 ∷ 0x16 ∷ 0xff ∷ [])

abbrev at_jump : State ℕ
at_jump = record (new_state branches 5000 10 (λ p. 0) 0) {
  top = 99;
  cells = update (λ p. 0) 100 (box_int 0);
}

abbrev jumped : State ℕ
jumped = record at_jump { code_ptr = 6; top = 100 }

runs_jump : run_instruction runtime cjmp_z at_jump ≡ ok (false, jumped)
unfolding run_instruction jump_if_zero consume1 peek_op pop_op load box_int code_byte code_u32
    u32_at byte_at u32_bytes new_state
runs_jump = refl

run_instruction-Follows_example : Follows at_jump cjmp_z 6
unfolding u32_bytes new_state
run_instruction-Follows_example =
    run_instruction-Follows runtime at_jump jumped false refl (omega arith) cjmp_z tt runs_jump

abbrev at_branch : State ℕ
at_branch = record at_dup { code_ptr = 15; top = 98; cells = update at_dup.cells 99 11 }

round_const : round runtime at_const ≡ ok (false, at_dup)
unfolding round run_instruction stack_const consume1 push_op store box_int code_byte code_u32 u32_at
    byte_at u32_bytes
round_const = refl

round_dup : round runtime at_dup ≡ ok (false, at_branch)
unfolding round run_instruction stack_dup consume0 push_op peek_op load store code_byte byte_at
    u32_bytes
round_dup = refl

const_byte : code_byte program 9 ≡ ok 0x10
unfolding code_byte byte_at u32_bytes
const_byte = refl

dup_byte : code_byte program 14 ≡ ok 0x19
unfolding code_byte byte_at u32_bytes
dup_byte = refl

two_rounds : Straights runtime at_const at_branch
unfolding next_instruction_type
two_rounds =
    Straights.more 0x19 (Straights.more 0x10 (Straights.none refl) const_byte tt round_const)
      dup_byte tt round_dup

to_const : Reach program 9 0
to_const = step (start 0 IsMain-first (omega arith) refl) begin_edge

Straights-marked_example :
    (d' : ℕ) × (get_elem? marks 15 ≡ some d') × DepthGoes at_const at_branch 0 d'
unfolding u32_bytes
Straights-marked_example =
    Straights-marked runtime at_const at_branch marks 0 collect_marks-program refl (omega arith)
      (omega arith) to_const two_rounds
