-- ===== src/Verifier/Scan/Allows.antt =====
-- What `verify` has checked of a file that it accepts.
use lama_sm_interpreter.Prelude.{ℕ, ◌+◌, ◌<◌, ◌≡◌, ◌≢◌, ◌⊎◌, List}
use lama_sm_interpreter.Result.{ok}
use lama_sm_interpreter.Bytefile.{Bytefile, code_byte, code_u32}
use lama_sm_interpreter.Instruction.{
  InstructionType, MemVar, jmp, end, ld, lda, st, cjmp_z, cjmp_nz, call, low_bits, to_mem_var,
}
use lama_sm_interpreter.Verifier.Variables.{Exists}
use lama_sm_interpreter.Verifier.Scan.{Scan, last_begin, upper_half, scan_marked}

-- The loop has a round at `s`.
pub record IsRound (s : Scan) : Type 0 where
  pub inside : s.symbol_offset < s.bf.code_size
  pub byte : ℕ
  pub reads : code_byte s.bf s.symbol_offset ≡ ok byte
  pub not_end : byte ≢ 0xff

-- The states that the loop goes through, one for each instruction of the code in its order.
pub data Passes (visited : List ℕ) (s : Scan) : Scan → Type 0 where
  starts : {t : Scan} → t ≡ s → Passes visited s t
  passes :
      {t u : Scan}
      → Passes visited s t
      → IsRound t
      → scan_marked visited t ≡ ok u
      → Passes visited s u

-- The instruction at `o` has a variable that exists in the function of the last BEGIN, or one that a
-- closure captured.
pub record HasVariable (bf : Bytefile) (begin_offsets : List ℕ) (o : ℕ) : Type 0 where
  pub begin_offset : ℕ
  pub n_args : ℕ
  pub n_locals : ℕ
  pub index : ℕ
  pub byte : ℕ
  pub last : last_begin begin_offsets ≡ ok begin_offset
  pub args : code_u32 bf (begin_offset + 1) ≡ ok n_args
  pub locals : code_u32 bf (begin_offset + 1 + 4) ≡ ok n_locals
  pub reads_index : code_u32 bf (o + 1) ≡ ok index
  pub reads_byte : code_byte bf o ≡ ok byte
  pub exists :
      Exists bf (to_mem_var (low_bits byte)) index n_args n_locals
      ⊎ (to_mem_var (low_bits byte) ≡ MemVar.closure)

-- Its target lies in the code.
abbrev pub HasTarget : Bytefile → ℕ → Type 0
HasTarget bf o = (target : ℕ) × (code_u32 bf (o + 1) ≡ ok target) × (target < bf.code_size)

-- There is a last BEGIN, whose number of arguments leaves room for the depth.
abbrev pub HasBegin : Bytefile → List ℕ → Type 0
HasBegin bf begin_offsets =
    (b : ℕ) × (last_begin begin_offsets ≡ ok b) × (upper_half bf (b + 1) ≡ ok 0)

abbrev pub Allowed : Scan → InstructionType → Type 0
Allowed s ld = HasVariable s.bf s.begin_offsets s.symbol_offset
Allowed s st = HasVariable s.bf s.begin_offsets s.symbol_offset
Allowed s lda = HasVariable s.bf s.begin_offsets s.symbol_offset
Allowed s jmp = HasTarget s.bf s.symbol_offset
Allowed s cjmp_z = HasTarget s.bf s.symbol_offset
Allowed s cjmp_nz = HasTarget s.bf s.symbol_offset
Allowed s call = HasTarget s.bf s.symbol_offset
Allowed s end = HasBegin s.bf s.begin_offsets
Allowed s _ = Unit
