-- ===== src/Verifier/Scan.antt =====
-- `verify` of src/verifier/Verifier.hpp: the pass over the code behind `collect_marks`. It checks the
-- variables and the jumps, and writes the deepest stack of each function into its BEGIN.
pub mod Stuck
pub mod Depths
pub mod Keeps
pub mod Allows
use lama_sm_interpreter.Prelude.{
  ℕ, zero, suc, ◌+◌, ◌*◌, ◌/◌, ◌%◌, ◌≡◌, Bool, true, false, not, List, [], ◌∷◌, get_elem?, set, ltb,
  ◌==◌, if◌then◌else◌,
}
use lama_sm_interpreter.Result.{Result, ok, err, Error, ◌>>=◌, ◌>>◌, guard}
use lama_sm_interpreter.Word.{minus_one, found}
use lama_sm_interpreter.Word.Signed.{max_s32}
use lama_sm_interpreter.Bytefile.{Bytefile, code_byte, code_u32}
use lama_sm_interpreter.Instruction.{
  InstructionType, jmp, end, ld, lda, st, cjmp_z, cjmp_nz, begin, cbegin, closure, call, low_bits,
  to_mem_var, designation_length,
}
use lama_sm_interpreter.Byterun.{general_byterun}
use lama_sm_interpreter.Verifier.Marks.{collect_marks}
use lama_sm_interpreter.Verifier.Variables.{validate_variable}

-- The variables of the loop, with the file, whose code the loop changes. `begin_offsets` has its
-- back first.
pub record Scan : Type 0 where
  pub bf : Bytefile
  pub symbol_offset : ℕ
  pub max_stack : ℕ
  pub begin_offsets : List ℕ

-- `begin_offsets.back()`, undefined on an empty vector.
abbrev pub last_begin : List ℕ → Result ℕ
last_begin [] = err Error.fault
last_begin (b ∷ bs) = ok b

abbrev pub pop_begin : List ℕ → List ℕ
pop_begin [] = []
pop_begin (b ∷ bs) = bs

-- `reinterpret_cast<uint16_t *>(bf->code_ptr + i)[1]`, read and written.
unfoldable pub upper_half : Bytefile → ℕ → Result ℕ
upper_half bf i = do a ← code_byte bf (i + 2); b ← code_byte bf (i + 3); ok (a + b * 256)

unfoldable pub set_upper_half : Bytefile → ℕ → ℕ → Bytefile
set_upper_half bf i v = record bf {
  buffer =
      set (set bf.buffer (bf.code_ptr + (i + 2)) (v % 256)) (bf.code_ptr + (i + 3)) (v / 256 % 256);
}

-- The branch for END.
unfoldable pub scan_end : Scan → Result Scan
scan_end s = do
  begin_offset ← last_begin s.begin_offsets
  half ← upper_half s.bf (begin_offset + 1)
  guard (half == 0) (Error.no_room_for_max_stack s.symbol_offset)
  ok (record s {
    bf = set_upper_half s.bf (begin_offset + 1) s.max_stack;
    begin_offsets = pop_begin s.begin_offsets;
    max_stack = minus_one;
  })

-- The branch for LD, ST and LDA.
unfoldable pub scan_variable : Scan → Result Scan
scan_variable s = do
  begin_offset ← last_begin s.begin_offsets
  n_args ← code_u32 s.bf (begin_offset + 1)
  n_locals ← code_u32 s.bf (begin_offset + 1 + 4)
  arg ← code_u32 s.bf (s.symbol_offset + 1)
  c ← code_byte s.bf s.symbol_offset
  validate_variable s.bf (to_mem_var (low_bits c)) arg n_args n_locals
  ok s

-- The loop over the designations of a CLOSURE, from `ptr` on.
unfoldable pub scan_designations : Bytefile → ℕ → ℕ → ℕ → ℕ → Result (Unit {0})
scan_designations bf zero ptr n_args n_locals = ok tt
scan_designations bf (suc n) ptr n_args n_locals = do
  mem_var ← code_byte bf ptr
  value ← code_u32 bf (ptr + 1)
  validate_variable bf (to_mem_var mem_var) value n_args n_locals
  scan_designations bf n (ptr + designation_length) n_args n_locals

unfoldable pub scan_closure : Scan → Result Scan
scan_closure s = do
  begin_offset ← last_begin s.begin_offsets
  n_args ← code_u32 s.bf (begin_offset + 1)
  n_locals ← code_u32 s.bf (begin_offset + 1 + 4)
  n_args_closure ← code_u32 s.bf (s.symbol_offset + 1 + 4)
  scan_designations s.bf n_args_closure (s.symbol_offset + 1 + 4 + 4) n_args n_locals
  ok s

-- The branch for CALL and the jumps.
unfoldable pub scan_jump : Scan → Result Scan
scan_jump s = do
  jump ← code_u32 s.bf (s.symbol_offset + 1)
  guard (ltb jump s.bf.code_size) (Error.jump_outside jump)
  ok s

unfoldable pub scan_instruction : InstructionType → Scan → Result Scan
scan_instruction end s = scan_end s
scan_instruction begin s = ok (record s { begin_offsets = s.symbol_offset ∷ s.begin_offsets })
scan_instruction cbegin s = ok (record s { begin_offsets = s.symbol_offset ∷ s.begin_offsets })
scan_instruction ld s = scan_variable s
scan_instruction st s = scan_variable s
scan_instruction lda s = scan_variable s
scan_instruction closure s = scan_closure s
scan_instruction call s = scan_jump s
scan_instruction jmp s = scan_jump s
scan_instruction cjmp_z s = scan_jump s
scan_instruction cjmp_nz s = scan_jump s
scan_instruction _ s = ok s

-- The body of the loop behind the test for the end of the code. An offset that was not marked is
-- passed over.
unfoldable pub scan_marked : List ℕ → Scan → Result Scan
scan_marked visited s = do
  (nxt, instruction_type) ← general_byterun s.bf s.symbol_offset
  mark ← found (get_elem? visited s.symbol_offset)
  s' ←
      if mark == minus_one
      then ok s
      else scan_instruction instruction_type (record s { max_stack = max_s32 s.max_stack mark })
  ok (record s' { symbol_offset = nxt })

-- The loop, on fuel: see `Stuck` for a file on which it does not end.
unfoldable pub scan : ℕ → List ℕ → Scan → Result Bytefile
scan zero visited s = err Error.out_of_fuel
scan (suc fuel) visited s =
    let rest : Result Bytefile = (do
      c ← code_byte s.bf s.symbol_offset
      if c == 0xff then ok s.bf else (scan_marked visited s >>= scan fuel visited)) in
    if ltb s.symbol_offset s.bf.code_size then rest else ok s.bf

-- The file with the stack depths written into its code.
unfoldable pub verify : ℕ → Bytefile → Result Bytefile
verify fuel bf = do
  visited ← collect_marks bf
  scan fuel visited (record { bf = bf; symbol_offset = 0; max_stack = 0; begin_offsets = [] })
