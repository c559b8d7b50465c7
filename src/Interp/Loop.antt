-- ===== src/Interp/Loop.antt =====
-- `interpret` of src/main.cpp. The handler of SIGSEGV and the printing of an exception before
-- `exit(1)` are not modelled: a run that throws ends with the exception.
pub mod Start
pub mod Ends
use lama_sm_interpreter.Prelude.{
  ℕ, zero, suc, ◌+◌, ◌-◌, Bool, false, if◌then◌else◌, ltb, List, [], ◌∷◌, length, drop,
}
use lama_sm_interpreter.Result.{ok, Error}
use lama_sm_interpreter.Word.{minus_int}
use lama_sm_interpreter.Bytefile.{Bytefile, code_byte, c_string}
use lama_sm_interpreter.Instruction.{
  InstructionType, next_instruction_type, binop, const, string, sexp, sti, sta, jmp, end, ret, dup,
  swap, elem, ld, lda, st, cjmp_z, cjmp_nz, begin, cbegin, closure, callc, call, tag, array, fail,
  line, other,
}
use lama_sm_interpreter.Machine.{
  State, M, ◌>>=◌, ◌>>◌, pure, throw, lift, get_state, set_top, store, max_stack, stack_bottom,
}
use lama_sm_interpreter.Machine.Frames.{push_stack_frame}
use lama_sm_interpreter.Interp.Runtime.{Runtime, call_runtime}
use lama_sm_interpreter.Interp.Stack.{
  stack_dup, stack_drop, stack_const, stack_swap, stack_sta, stack_sti,
}
use lama_sm_interpreter.Interp.Memory.{mem_load, mem_store, stack_lda}
use lama_sm_interpreter.Interp.Control.{
  jump, jump_if_zero, jump_if_not_zero, call_stack_begin, call_stack_end, call_stack_call,
  helper_line, helper_fail,
}
use lama_sm_interpreter.Interp.Values.{
  boxing_sexp, boxing_string, unboxing_tag, unboxing_array, call_read, call_write, call_length,
  call_string, call_array, call_elem, patt,
}
use lama_sm_interpreter.Interp.Closures.{closures_create, closures_call}
use lama_sm_interpreter.Interp.Binop.{binop_interpeter}

-- A handler behind which the loop goes on.
abbrev pub goes_on : {W : Type 0} → M W (Unit {0}) → M W Bool
goes_on m = do m; pure false

abbrev set_strings : {W : Type 0} → List (ℕ × ℕ) → ℕ → M W (Unit {0})
set_strings strings_map counter s =
    ok (tt, record s { strings_map = strings_map; string_counter = counter })

-- A new state: `code_start` and `stack_data` are the addresses of the code and of the new stack,
-- whose words are not set.
unfoldable pub new_state : {W : Type 0} → Bytefile → ℕ → ℕ → (ℕ → ℕ) → W → State W
new_state bf code_start stack_data cells world = record {
  bf = bf;
  code_ptr = 0;
  code_start = code_start;
  stack_data = stack_data;
  top = stack_data + max_stack;
  fp = 0;
  arg_sizes = [];
  strings_map = [];
  string_counter = 0;
  cells = cells;
  world = world;
}

module _ {W : Type 0} (R : Runtime W) where
  -- The `switch`: true where `interpret` returns.
  unfoldable pub run_instruction : InstructionType → M W Bool
  run_instruction binop = goes_on binop_interpeter
  run_instruction const = goes_on stack_const
  run_instruction sexp = goes_on (boxing_sexp R)
  run_instruction jmp = goes_on jump
  run_instruction cjmp_z = goes_on jump_if_zero
  run_instruction cjmp_nz = goes_on jump_if_not_zero
  run_instruction InstructionType.drop = goes_on stack_drop
  run_instruction dup = goes_on stack_dup
  run_instruction ld = goes_on (mem_load R)
  run_instruction st = goes_on (mem_store R)
  run_instruction InstructionType.call_read = goes_on (call_read R)
  run_instruction InstructionType.call_write = goes_on (call_write R)
  run_instruction InstructionType.call_length = goes_on (call_length R)
  run_instruction InstructionType.call_string = goes_on (call_string R)
  run_instruction InstructionType.call_array = goes_on (call_array R)
  run_instruction cbegin = goes_on call_stack_begin
  run_instruction begin = goes_on call_stack_begin
  run_instruction call = goes_on call_stack_call
  run_instruction end = call_stack_end
  run_instruction elem = goes_on (call_elem R)
  run_instruction tag = goes_on (unboxing_tag R)
  run_instruction array = goes_on (unboxing_array R)
  run_instruction fail = goes_on helper_fail
  run_instruction line = goes_on helper_line
  run_instruction string = goes_on boxing_string
  run_instruction swap = goes_on stack_swap
  run_instruction sta = goes_on (stack_sta R)
  run_instruction sti = goes_on (stack_sti R)
  run_instruction lda = goes_on (stack_lda R)
  run_instruction closure = goes_on (closures_create R)
  run_instruction callc = goes_on (closures_call R)
  run_instruction InstructionType.patt = goes_on (patt R)
  run_instruction ret = throw Error.unknown_instruction
  run_instruction (other c) = throw Error.unknown_instruction

  -- One round of the loop.
  unfoldable pub round : M W Bool
  unfolding next_instruction_type
  round = do
    s ← get_state
    c ← lift (λ t. code_byte t.bf s.code_ptr)
    run_instruction (next_instruction_type c)

  -- The loop on fuel, a unit for each instruction. A program need not end.
  unfoldable pub run : ℕ → M W (Unit {0})
  run zero = throw Error.out_of_fuel
  run (suc fuel) = do let rest = run fuel; returns ← round; if returns then pure tt else rest

  -- A round of the constructor's loop: it makes a string of the runtime from the bytes at `i` and
  -- keeps its word on the stack. It gives `strlen`.
  unfoldable pub intern_string : ℕ → M W ℕ
  intern_string i = do
    s ← get_state
    set_strings ((i, s.string_counter) ∷ s.strings_map) (s.string_counter + 1)
    bytes ← lift (λ t. c_string (drop (t.bf.string_ptr + i) t.bf.buffer))
    b_string ← call_runtime (R.b_string bytes)
    set_top (s.top - 1)
    store (s.top - 1) b_string
    pure (length bytes)

  -- The loop. Each round takes a byte of the string table at least, so its size and one more is
  -- enough fuel.
  unfoldable pub intern_strings : ℕ → ℕ → ℕ → M W (Unit {0})
  intern_strings zero size i = throw Error.out_of_fuel
  intern_strings (suc fuel) size i =
      let rest = λ (len : ℕ). intern_strings fuel size (i + len + 1) in
      if ltb i size then (intern_string i >>= rest) else pure tt

  -- The constructor of `FrameStack`, in a state whose `top` is the bottom of the stack.
  unfoldable pub frame_stack : M W (Unit {0})
  frame_stack = do
    s ← get_state
    intern_strings (s.bf.stringtab_size + 1) s.bf.stringtab_size 0
    set_top (minus_int (minus_int (stack_bottom s) s.bf.stringtab_size) s.bf.global_area_size)

  -- `interpret`, with fuel for the instructions.
  unfoldable pub interpret : ℕ → M W (Unit {0})
  interpret fuel = do frame_stack; push_stack_frame 0 0 0; run fuel
