-- ===== src/Printer.antt =====
-- `print_instructions` of src/printers.hpp: the listing of a file's code. What is written to
-- `std::cout` is a list of entries of words, one for each round; `magic_enum::enum_name` is the
-- constructor, and has no text for `other`.
pub mod Steps
pub mod Ends
use lama_sm_interpreter.Prelude.{
  ℕ, zero, suc, ◌+◌, ◌*◌, ◌==◌, if◌then◌else◌, List, [], ◌∷◌, ◌++◌, Option, none, some,
}
use lama_sm_interpreter.Result.{Result, ok, err, Error, ◌>>=◌}
use lama_sm_interpreter.Bytefile.{Bytefile, code_byte, code_u32, get_string}
use lama_sm_interpreter.Instruction.{
  InstructionType, binop, const, string, sexp, sti, sta, jmp, end, ret, drop, dup, swap, elem, ld,
  lda, st, cjmp_z, cjmp_nz, call_read, call_write, call_length, call_string, call_array, begin,
  cbegin, closure, callc, call, tag, array, fail, line, patt, other, next_instruction_type,
  low_bits, MemVar, to_mem_var, Patt, to_patt, BinOp, to_bin_op, instruction_length,
  designation_length,
}

-- A word of a line: a name, a number in decimal, one in hexadecimal, a text, `<end>`, or a line
-- break inside of what an instruction prints.
pub data Printed : Type 0 where
  name : InstructionType → Printed
  bin_op_name : BinOp → Printed
  mem_var_name : MemVar → Printed
  patt_name : Patt → Printed
  dec hex : ℕ → Printed
  text : List ℕ → Printed
  end_mark line_break : Printed

-- What a round prints: the offset, and the words behind it up to the last line break.
pub record Line : Type 0 where
  pub offset : ℕ
  pub words : List Printed

-- What an instruction prints, and the offset behind it.
abbrev pub Printing : Type 0
Printing = Result (List Printed × ℕ)

-- The instructions with no arguments, with one, and with two.
unfoldable pub print_plain : ℕ → InstructionType → Printing
print_plain p type = ok (name type ∷ [], p + instruction_length 0)

unfoldable pub print_jump : Bytefile → ℕ → InstructionType → Printing
print_jump bf p type = do
  arg ← code_u32 bf (p + 1)
  ok (name type ∷ hex arg ∷ [], p + instruction_length 1)

unfoldable pub print_one : Bytefile → ℕ → InstructionType → Printing
print_one bf p type = do
  arg ← code_u32 bf (p + 1)
  ok (name type ∷ dec arg ∷ [], p + instruction_length 1)

unfoldable pub print_two : Bytefile → ℕ → InstructionType → Printing
print_two bf p type = do
  arg₀ ← code_u32 bf (p + 1)
  arg₁ ← code_u32 bf (p + (1 + 4))
  ok (name type ∷ dec arg₀ ∷ dec arg₁ ∷ [], p + instruction_length 2)

unfoldable pub print_call : Bytefile → ℕ → Printing
print_call bf p = do
  target ← code_u32 bf (p + 1)
  n_args ← code_u32 bf (p + (1 + 4))
  ok (name call ∷ hex target ∷ dec n_args ∷ [], p + instruction_length 2)

unfoldable pub print_tagged : Bytefile → ℕ → InstructionType → Printing
print_tagged bf p type = do
  tag_name ← code_u32 bf (p + 1)
  n_args ← code_u32 bf (p + (1 + 4))
  str ← get_string bf tag_name
  ok (name type ∷ text str ∷ dec tag_name ∷ dec n_args ∷ [], p + instruction_length 2)

unfoldable pub print_variable : Bytefile → ℕ → InstructionType → Printing
print_variable bf p type = do
  c ← code_byte bf p
  index ← code_u32 bf (p + 1)
  ok (name type ∷ mem_var_name (to_mem_var (low_bits c)) ∷ dec index ∷ [], p + instruction_length 1)

-- The designations of a CLOSURE from `p` on.
unfoldable pub print_designations : Bytefile → ℕ → ℕ → Printing
print_designations bf zero p = ok ([], p)
print_designations bf (suc n) p = do
  mem_var ← code_byte bf p
  value ← code_u32 bf (p + 1)
  (words, behind) ← print_designations bf n (p + designation_length)
  ok (mem_var_name (to_mem_var mem_var) ∷ dec value ∷ line_break ∷ words, behind)

unfoldable pub print_closure : Bytefile → ℕ → Printing
print_closure bf p = do
  target ← code_u32 bf (p + 1)
  n_args ← code_u32 bf (p + (1 + 4))
  (words, behind) ← print_designations bf n_args (p + instruction_length 2)
  ok (name closure ∷ hex target ∷ dec n_args ∷ line_break ∷ words, behind)

-- The `switch`; `none` behind the line is the `return`.
abbrev pub goes_on : Printing → Result (List Printed × Option ℕ)
goes_on (ok (words, behind)) = ok (words, some behind)
goes_on (err e) = err e

unfoldable pub print_instruction : Bytefile → ℕ → InstructionType → Result (List Printed × Option ℕ)
print_instruction bf p call_read = goes_on (print_plain p call_read)
print_instruction bf p call_write = goes_on (print_plain p call_write)
print_instruction bf p call_length = goes_on (print_plain p call_length)
print_instruction bf p call_string = goes_on (print_plain p call_string)
print_instruction bf p elem = goes_on (print_plain p elem)
print_instruction bf p dup = goes_on (print_plain p dup)
print_instruction bf p drop = goes_on (print_plain p drop)
print_instruction bf p swap = goes_on (print_plain p swap)
print_instruction bf p sti = goes_on (print_plain p sti)
print_instruction bf p sta = goes_on (print_plain p sta)
print_instruction bf p ret = goes_on (print_plain p ret)
print_instruction bf p end = goes_on (print_plain p end)
print_instruction bf p jmp = goes_on (print_jump bf p jmp)
print_instruction bf p cjmp_z = goes_on (print_jump bf p cjmp_z)
print_instruction bf p cjmp_nz = goes_on (print_jump bf p cjmp_nz)
print_instruction bf p const = goes_on (print_one bf p const)
print_instruction bf p call_array = goes_on (print_one bf p call_array)
print_instruction bf p line = goes_on (print_one bf p line)
print_instruction bf p array = goes_on (print_one bf p array)
print_instruction bf p string = goes_on (print_one bf p string)
print_instruction bf p callc = goes_on (print_one bf p callc)
print_instruction bf p call = goes_on (print_call bf p)
print_instruction bf p closure = goes_on (print_closure bf p)
print_instruction bf p sexp = goes_on (print_tagged bf p sexp)
print_instruction bf p tag = goes_on (print_tagged bf p tag)
print_instruction bf p begin = goes_on (print_two bf p begin)
print_instruction bf p cbegin = goes_on (print_two bf p cbegin)
print_instruction bf p fail = goes_on (print_two bf p fail)
print_instruction bf p binop = do
  c ← code_byte bf p
  ok (bin_op_name (to_bin_op (low_bits c)) ∷ [], some (p + instruction_length 0))
print_instruction bf p ld = goes_on (print_variable bf p ld)
print_instruction bf p st = goes_on (print_variable bf p st)
print_instruction bf p lda = goes_on (print_variable bf p lda)
print_instruction bf p patt = do
  c ← code_byte bf p
  ok (name patt ∷ patt_name (to_patt (low_bits c)) ∷ [], some (p + instruction_length 0))
print_instruction bf p (other code) = do
  c ← code_byte bf p
  if c == 0xff then ok (end_mark ∷ [], none) else err Error.unknown_byte

-- A round of the loop.
unfoldable pub print_at : Bytefile → ℕ → Result (List Printed × Option ℕ)
print_at bf p = do c ← code_byte bf p; print_instruction bf p (next_instruction_type c)

-- The lines that were written, and how the loop ends. In front of an exception the offset is
-- written.
abbrev pub Listing : Type 0
Listing = List Line × Result (Unit {0})

abbrev pub add_line : ℕ → List Printed → Listing → Listing
add_line p words (lines, ending) = (record { offset = p; words = words } ∷ lines, ending)

unfoldable pub print_from : ℕ → Bytefile → ℕ → Listing
print_from zero bf p = ([], err Error.out_of_fuel)
print_from (suc fuel) bf p = elim (print_at bf p) [
  | ok (words, none) ↦ add_line p words ([], ok tt)
  | ok (words, some behind) ↦ add_line p words (print_from fuel bf behind)
  | err e ↦ add_line p [] ([], err e)
]

-- Each round takes a byte of the code at least.
unfoldable pub print_instructions : Bytefile → Listing
print_instructions bf = print_from (bf.code_size + 1) bf 0
