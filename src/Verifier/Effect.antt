-- ===== src/Verifier/Effect.antt =====
-- `get_new_stack` of src/verifier/Verifier.hpp: the number of operands behind an instruction, from
-- the number in front of it. Both are `uint32_t`.
use lama_sm_interpreter.Prelude.{ℕ, ◌+◌, ◌-◌, ◌%◌, ◌^◌}
use lama_sm_interpreter.Result.{Result, ok, err, Error, ◌>>=◌}
use lama_sm_interpreter.Word.{wrap32}
use lama_sm_interpreter.Bytefile.{Bytefile, code_byte, code_u32}
use lama_sm_interpreter.Instruction.{
  InstructionType, binop, const, string, sexp, sti, sta, jmp, end, ret, drop, dup, swap, elem, ld,
  lda, st, cjmp_z, cjmp_nz, call_read, call_write, call_length, call_string, call_array, begin,
  cbegin, closure, callc, call, tag, array, fail, line, patt, other, Patt, to_patt, low_bits,
}

-- `a - b` on `uint32_t`.
abbrev pub minus32 : ℕ → ℕ → ℕ
minus32 a b = (a + (2 ^ 32 - b)) % 2 ^ 32

unfoldable pub patt_new_stack : ℕ → Patt → Result ℕ
patt_new_stack cur_stack Patt.str_cmp = ok (minus32 cur_stack 1)
patt_new_stack cur_stack (Patt.other c) = err Error.invalid_patt
patt_new_stack cur_stack _ = ok cur_stack

unfoldable pub get_new_stack : Bytefile → ℕ → ℕ → InstructionType → Result ℕ
unfolding patt_new_stack to_patt low_bits
get_new_stack bf cur_stack symbol_offset binop = ok (minus32 cur_stack 1)
get_new_stack bf cur_stack symbol_offset const = ok (wrap32 (cur_stack + 1))
get_new_stack bf cur_stack symbol_offset sexp = do
  arg_num ← code_u32 bf (symbol_offset + (1 + 4))
  ok (minus32 (cur_stack + 1) arg_num)
get_new_stack bf cur_stack symbol_offset jmp = ok cur_stack
get_new_stack bf cur_stack symbol_offset cjmp_z = ok (minus32 cur_stack 1)
get_new_stack bf cur_stack symbol_offset cjmp_nz = ok (minus32 cur_stack 1)
get_new_stack bf cur_stack symbol_offset drop = ok (minus32 cur_stack 1)
get_new_stack bf cur_stack symbol_offset dup = ok (wrap32 (cur_stack + 1))
get_new_stack bf cur_stack symbol_offset ld = ok (wrap32 (cur_stack + 1))
get_new_stack bf cur_stack symbol_offset st = ok cur_stack
get_new_stack bf cur_stack symbol_offset call_read = ok (wrap32 (cur_stack + 1))
get_new_stack bf cur_stack symbol_offset call_write = ok cur_stack
get_new_stack bf cur_stack symbol_offset call_length = ok cur_stack
get_new_stack bf cur_stack symbol_offset call_string = ok (wrap32 (cur_stack + 1))
get_new_stack bf cur_stack symbol_offset call_array = do
  arg_num ← code_u32 bf (symbol_offset + 1)
  ok (minus32 (cur_stack + 1) arg_num)
get_new_stack bf cur_stack symbol_offset cbegin = ok cur_stack
get_new_stack bf cur_stack symbol_offset begin = ok cur_stack
get_new_stack bf cur_stack symbol_offset call = do
  arg_num ← code_u32 bf (symbol_offset + (1 + 4))
  ok (minus32 (cur_stack + 1) arg_num)
get_new_stack bf cur_stack symbol_offset end = ok cur_stack
get_new_stack bf cur_stack symbol_offset elem = ok (minus32 cur_stack 1)
get_new_stack bf cur_stack symbol_offset tag = ok cur_stack
get_new_stack bf cur_stack symbol_offset array = ok cur_stack
get_new_stack bf cur_stack symbol_offset fail = ok cur_stack
get_new_stack bf cur_stack symbol_offset line = ok cur_stack
get_new_stack bf cur_stack symbol_offset string = ok (wrap32 (cur_stack + 1))
get_new_stack bf cur_stack symbol_offset swap = ok cur_stack
get_new_stack bf cur_stack symbol_offset sta = ok (minus32 cur_stack 2)
get_new_stack bf cur_stack symbol_offset sti = ok (minus32 cur_stack 1)
get_new_stack bf cur_stack symbol_offset lda = ok (wrap32 (cur_stack + 1))
get_new_stack bf cur_stack symbol_offset closure = ok (wrap32 (cur_stack + 1))
get_new_stack bf cur_stack symbol_offset callc = do
  arg_num ← code_u32 bf (symbol_offset + 1)
  ok (minus32 cur_stack arg_num)
get_new_stack bf cur_stack symbol_offset patt = do
  c ← code_byte bf symbol_offset
  patt_new_stack cur_stack (to_patt (low_bits c))
get_new_stack bf cur_stack symbol_offset ret = err Error.unreachable_effect
get_new_stack bf cur_stack symbol_offset (other c) = err Error.unreachable_effect
