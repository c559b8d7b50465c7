-- ===== src/Byterun.antt =====
-- src/analyzer/Analyzer.hpp, the functions in front of the class: the type and the size of the
-- instruction at an offset. The verifier and the analyzer walk through the code by them.
pub mod Decoders
pub mod Ends
use lama_sm_interpreter.Prelude.{
  ℕ, zero, suc, ◌+◌, ◌-◌, ◌*◌, ◌%◌, ◌^◌, ◌≤◌, ◌<◌, ◌≡◌, Bool, true, false, ltb, leb, ◌==◌,
  if◌then◌else◌, ◌&&◌,
}
use lama_sm_interpreter.Result.{Result, ok, err, Error, ◌>>=◌}
use lama_sm_interpreter.Word.{wrap32}
use lama_sm_interpreter.Bytefile.{Bytefile, code_byte, code_u32}
use lama_sm_interpreter.Instruction.{
  InstructionType, binop, const, string, sexp, sti, sta, jmp, end, ret, drop, dup, swap, elem, ld,
  lda, st, cjmp_z, cjmp_nz, call_read, call_write, call_length, call_string, call_array, begin,
  cbegin, closure, callc, call, tag, array, fail, line, patt, other, high_bits, to_instruction_type,
}

-- On the byte that `ptr` points to.
unfoldable pub get_instruction_type : ℕ → InstructionType
unfolding high_bits to_instruction_type
get_instruction_type c =
    if high_bits c == 0x00
    then binop
    else if high_bits c == 0x20
    then ld
    else if high_bits c == 0x30
    then lda
    else if high_bits c == 0x40
    then st
    else if high_bits c == 0x60
    then patt
    else to_instruction_type c

-- The `switch` of `general_byterun`: the offset of the next instruction, a `uint32_t`.
unfoldable pub next_offset : Bytefile → ℕ → InstructionType → Result ℕ
next_offset bf i call_read = ok (wrap32 (i + 1))
next_offset bf i call_write = ok (wrap32 (i + 1))
next_offset bf i call_length = ok (wrap32 (i + 1))
next_offset bf i call_string = ok (wrap32 (i + 1))
next_offset bf i elem = ok (wrap32 (i + 1))
next_offset bf i dup = ok (wrap32 (i + 1))
next_offset bf i drop = ok (wrap32 (i + 1))
next_offset bf i swap = ok (wrap32 (i + 1))
next_offset bf i sti = ok (wrap32 (i + 1))
next_offset bf i sta = ok (wrap32 (i + 1))
next_offset bf i ret = ok (wrap32 (i + 1))
next_offset bf i binop = ok (wrap32 (i + 1))
next_offset bf i patt = ok (wrap32 (i + 1))
next_offset bf i end = ok (wrap32 (i + 1))
next_offset bf i jmp = ok (wrap32 (i + 1 + 4))
next_offset bf i cjmp_z = ok (wrap32 (i + 1 + 4))
next_offset bf i cjmp_nz = ok (wrap32 (i + 1 + 4))
next_offset bf i const = ok (wrap32 (i + 1 + 4))
next_offset bf i call_array = ok (wrap32 (i + 1 + 4))
next_offset bf i array = ok (wrap32 (i + 1 + 4))
next_offset bf i string = ok (wrap32 (i + 1 + 4))
next_offset bf i callc = ok (wrap32 (i + 1 + 4))
next_offset bf i ld = ok (wrap32 (i + 1 + 4))
next_offset bf i st = ok (wrap32 (i + 1 + 4))
next_offset bf i lda = ok (wrap32 (i + 1 + 4))
next_offset bf i line = ok (wrap32 (i + 1 + 4))
next_offset bf i closure = do
  n_args ← code_u32 bf (i + (1 + 4))
  ok (wrap32 (i + 1 + 2 * 4 + (1 + 4) * n_args))
next_offset bf i call = ok (wrap32 (i + 1 + 2 * 4))
next_offset bf i sexp = ok (wrap32 (i + 1 + 2 * 4))
next_offset bf i tag = ok (wrap32 (i + 1 + 2 * 4))
next_offset bf i begin = ok (wrap32 (i + 1 + 2 * 4))
next_offset bf i cbegin = ok (wrap32 (i + 1 + 2 * 4))
next_offset bf i fail = ok (wrap32 (i + 1 + 2 * 4))
next_offset bf i (other c) = err Error.unsupported_instruction

unfoldable pub general_byterun : Bytefile → ℕ → Result (ℕ × InstructionType)
unfolding get_instruction_type next_offset
general_byterun bf i = do
  c ← code_byte bf i
  let type = get_instruction_type c
  nxt ← next_offset bf i type
  ok (nxt, type)
