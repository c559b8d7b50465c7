-- ===== src/Instruction.antt =====
-- src/decoders: the instruction codes (InstructionType.hpp), the decoder (InstructionDecoder.hpp),
-- and the sizes of the instruction layouts (InstructionDecodersByArgsNumber.hpp, Designations.hpp).
-- A `char` is its bit pattern, a number below 256.
use lama_sm_interpreter.Prelude.{ℕ, ◌+◌, ◌*◌, ◌/◌, ◌%◌, ◌==◌, if◌then◌else◌}

-- `other` is a value of the enumeration that has no name.
pub data InstructionType : Type 0 where
  binop const string sexp sti sta jmp end ret drop dup swap elem : InstructionType
  ld lda st cjmp_z cjmp_nz call_read call_write call_length call_string call_array : InstructionType
  begin cbegin closure callc call tag array fail line patt : InstructionType
  other : ℕ → InstructionType

unfoldable pub high_bits : ℕ → ℕ
high_bits instruction = instruction / 16 * 16

unfoldable pub low_bits : ℕ → ℕ
low_bits instruction = instruction % 16

-- `static_cast<InstructionType>(c)`
unfoldable pub to_instruction_type : ℕ → InstructionType
to_instruction_type c =
    if c == 0x00
    then binop
    else if c == 0x10
    then const
    else if c == 0x11
    then string
    else if c == 0x12
    then sexp
    else if c == 0x13
    then sti
    else if c == 0x14
    then sta
    else if c == 0x15
    then jmp
    else if c == 0x16
    then end
    else if c == 0x17
    then ret
    else if c == 0x18
    then drop
    else if c == 0x19
    then dup
    else if c == 0x1a
    then swap
    else if c == 0x1b
    then elem
    else if c == 0x20
    then ld
    else if c == 0x30
    then lda
    else if c == 0x40
    then st
    else if c == 0x50
    then cjmp_z
    else if c == 0x51
    then cjmp_nz
    else if c == 0x52
    then begin
    else if c == 0x53
    then cbegin
    else if c == 0x54
    then closure
    else if c == 0x55
    then callc
    else if c == 0x56
    then call
    else if c == 0x57
    then tag
    else if c == 0x58
    then array
    else if c == 0x59
    then fail
    else if c == 0x5a
    then line
    else if c == 0x60
    then patt
    else if c == 0x70
    then call_read
    else if c == 0x71
    then call_write
    else if c == 0x72
    then call_length
    else if c == 0x73
    then call_string
    else if c == 0x74
    then call_array
    else other c

-- The method of `InstructionDecoder`, on the byte that its `code_ptr` points to.
unfoldable pub next_instruction_type : ℕ → InstructionType
unfolding high_bits to_instruction_type
next_instruction_type c =
    if high_bits c == high_bits 0x00
    then binop
    else if high_bits c == high_bits 0x20
    then ld
    else if high_bits c == high_bits 0x30
    then lda
    else if high_bits c == high_bits 0x40
    then st
    else if high_bits c == high_bits 0x60
    then patt
    else to_instruction_type c

-- `SimpleInstructionWithArgs<n>::length()`, also that of `InstructionWithArgsLowerBits<n>`.
abbrev pub instruction_length : ℕ → ℕ
instruction_length n_args = 1 + n_args * 4

-- `Designation::length()`
abbrev pub designation_length : ℕ
designation_length = 1 + 4

-- The enumerations of the lower bits: `MemVar` of mem_interpreters.hpp, `Patt` of patt.hpp and
-- `BinOp` of binop_interpreter.hpp.
pub data MemVar : Type 0 where
  global local argument closure : MemVar
  other : ℕ → MemVar

unfoldable pub to_mem_var : ℕ → MemVar
to_mem_var c =
    if c == 0x00
    then MemVar.global
    else if c == 0x01
    then MemVar.local
    else if c == 0x02
    then MemVar.argument
    else if c == 0x03
    then MemVar.closure
    else MemVar.other c

pub data Patt : Type 0 where
  str_cmp string array sexp boxed un_boxed closure : Patt
  other : ℕ → Patt

unfoldable pub to_patt : ℕ → Patt
to_patt c =
    if c == 0x00
    then Patt.str_cmp
    else if c == 0x01
    then Patt.string
    else if c == 0x02
    then Patt.array
    else if c == 0x03
    then Patt.sexp
    else if c == 0x04
    then Patt.boxed
    else if c == 0x05
    then Patt.un_boxed
    else if c == 0x06
    then Patt.closure
    else Patt.other c

pub data BinOp : Type 0 where
  plus minus mul div mod' lt le gt ge eq neq and or : BinOp
  other : ℕ → BinOp

unfoldable pub to_bin_op : ℕ → BinOp
to_bin_op c =
    if c == 0x01
    then BinOp.plus
    else if c == 0x02
    then BinOp.minus
    else if c == 0x03
    then BinOp.mul
    else if c == 0x04
    then BinOp.div
    else if c == 0x05
    then BinOp.mod'
    else if c == 0x06
    then BinOp.lt
    else if c == 0x07
    then BinOp.le
    else if c == 0x08
    then BinOp.gt
    else if c == 0x09
    then BinOp.ge
    else if c == 0x0a
    then BinOp.eq
    else if c == 0x0b
    then BinOp.neq
    else if c == 0x0c
    then BinOp.and
    else if c == 0x0d
    then BinOp.or
    else BinOp.other c
