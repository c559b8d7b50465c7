-- ===== src/Tests/Steps.antt =====
-- Instructions of the program, run on a machine whose runtime is a concrete function.
use lama_sm_interpreter.Prelude.{ℕ, ◌+◌, ◌*◌, ◌≡◌, refl, false, [], ◌∷◌, arith}
use mathlib.Core.Bool.{xor}
use lama_sm_interpreter.Result.{ok}
use lama_sm_interpreter.Word.{byte_at, u32_at, u32_bytes}
use lama_sm_interpreter.Word.Boxing.{box_int, unbox, is_boxed_int}
use lama_sm_interpreter.Word.Signed.{divides}
use lama_sm_interpreter.Bytefile.{Bytefile, code_byte, code_u32}
use lama_sm_interpreter.Bytefile.Roundtrip.{bytefile_of}
use lama_sm_interpreter.Instruction.{InstructionType, const, to_bin_op, low_bits}
use lama_sm_interpreter.Verifier.Effect.{get_new_stack}
use lama_sm_interpreter.Verifier.Marks.{check_arguments}
use lama_sm_interpreter.Machine.{State, load, store, consume0, consume1, update}
use lama_sm_interpreter.Machine.Frames.{push_op, peek_op, pop_op}
use lama_sm_interpreter.Interp.Runtime.{Runtime, Call, call_runtime}
use lama_sm_interpreter.Interp.Values.{call_string}
use lama_sm_interpreter.Interp.Binop.{binop_interpeter}
use lama_sm_interpreter.Interp.Binop.Correct.{binop_interpeter_lem}
use lama_sm_interpreter.Interp.Stack.{stack_const}
use lama_sm_interpreter.Interp.Loop.{run_instruction}
use lama_sm_interpreter.Interp.Depth.Verified.{DepthGoes, run_instruction-DepthGoes}
use lama_sm_interpreter.Interp.Depth.Differs.{call_string-differs}
use lama_sm_interpreter.Tests.Program.{program}

-- It returns a number, counts the calls, and changes no word of the stack.
abbrev answer : ℕ → Call ℕ
answer v world cells top = ok (record { value = v; cells = cells; world = world + 1 })

abbrev pub runtime : Runtime ℕ
runtime = record {
  b_sexp = λ a n. answer a;
  b_array = λ a n. answer a;
  b_closure = λ a n. answer a;
  b_string = λ bytes. answer 16;
  b_elem = λ a i. answer a;
  b_sta = λ x i z. answer z;
  b_tag = λ d t n. answer (box_int 1);
  b_array_patt = λ d n. answer (box_int 0);
  b_closure_tag_patt = λ d. answer (box_int 0);
  b_string_patt = λ a b. answer (box_int 0);
  b_boxed_patt = λ d. answer (box_int 0);
  b_unboxed_patt = λ d. answer (box_int 1);
  b_array_tag_patt = λ d. answer (box_int 0);
  b_string_tag_patt = λ d. answer (box_int 0);
  b_sexp_tag_patt = λ d. answer (box_int 0);
  l_tag_hash = λ s. answer s;
  l_read = answer (box_int 7);
  l_write = λ v. answer (box_int 0);
  l_length = λ v. answer (box_int 3);
  l_string_at = λ a. answer 16;
  l_string = λ w. answer 16;
  heap_load = λ w. answer 0;
  heap_store = λ w v. answer 0;
}

-- In front of CONST.
abbrev pub at_const : State ℕ
at_const = record {
  bf = program;
  code_ptr = 9;
  code_start = 5000;
  stack_data = 10;
  top = 100;
  fp = 100;
  arg_sizes = 2 ∷ [];
  strings_map = [];
  string_counter = 0;
  cells = λ p. 0;
  world = 0;
}

abbrev pub at_dup : State ℕ
at_dup = record at_const { code_ptr = 14; top = 99; cells = update (λ p. 0) 100 11 }

pub runs_const : run_instruction runtime const at_const ≡ ok (false, at_dup)
unfolding run_instruction stack_const consume1 push_op store box_int code_byte code_u32 u32_at
    byte_at u32_bytes
runs_const = refl

run_instruction-DepthGoes_example : DepthGoes at_const at_dup 0 1
unfolding check_arguments get_new_stack
run_instruction-DepthGoes_example =
    run_instruction-DepthGoes runtime at_const at_dup 0 1 false (omega arith) (omega arith)
      (omega arith) const tt refl refl runs_const

-- DIV and CALL_STRING, with 20 and 7 on the stack.
abbrev two_instructions : Bytefile
two_instructions = bytefile_of 0 [] [] (0x04 ∷ 0x73 ∷ [])

abbrev at_div : State ℕ
at_div = record at_const {
  bf = two_instructions;
  code_ptr = 0;
  top = 98;
  cells = update (update (λ p. 0) 100 (20 * 2 + 1)) 99 (7 * 2 + 1);
}

div_byte : code_byte two_instructions 0 ≡ ok 0x04
unfolding code_byte byte_at
div_byte = refl

-- The quotient is 2.
binop_interpeter_lem_example :
    binop_interpeter at_div
    ≡ ok (tt, record at_div { code_ptr = 1; top = 99; cells = update at_div.cells 100 5 })
unfolding to_bin_op low_bits divides unbox box_int xor
binop_interpeter_lem_example = binop_interpeter_lem at_div 0x04 (omega arith) (omega arith) div_byte

abbrev at_string : State ℕ
at_string = record at_div { code_ptr = 1 }

abbrev behind_string : State ℕ
behind_string = record at_string { code_ptr = 2; world = 1; cells = update at_string.cells 99 16 }

runs_string :
    run_instruction runtime InstructionType.call_string at_string ≡ ok (false, behind_string)
unfolding run_instruction call_string call_runtime consume0 peek_op pop_op push_op load store
    code_byte byte_at is_boxed_int
runs_string = refl

call_string-differs_example :
    DepthGoes at_string behind_string 2 2
    × (get_new_stack two_instructions 2 1 InstructionType.call_string ≡ ok 3)
call_string-differs_example =
    call_string-differs runtime at_string behind_string 2 false (omega arith) runs_string
