-- ===== src/Printer/Steps.antt =====
-- The printer and `general_byterun` agree on where the next instruction stands.
use lama_sm_interpreter.Prelude.{ℕ, zero, suc, ◌+◌, ◌*◌, ◌<◌, ◌≡◌, refl, List, some, arith}
use lama_sm_interpreter.Result.{ok, err, ◌>>=◌, >>=-eq-ok}
use lama_sm_interpreter.Word.{wrap32}
use lama_sm_interpreter.Bytefile.{Bytefile, code_byte, code_u32}
use lama_sm_interpreter.Instruction.{
  InstructionType, next_instruction_type, instruction_length, designation_length, binop, const,
  string, sexp, sti, sta, jmp, end, ret, drop, dup, swap, elem, ld, lda, st, cjmp_z, cjmp_nz,
  call_read, call_write, call_length, call_string, call_array, begin, cbegin, closure, callc, call,
  tag, array, fail, line, patt, other,
}
use lama_sm_interpreter.Byterun.{general_byterun, next_offset}
use lama_sm_interpreter.Printer.{
  Printed, Printing, goes_on, print_plain, print_jump, print_one, print_two, print_call,
  print_tagged, print_variable, print_designations, print_closure, print_instruction, print_at,
}

module _ (bf : Bytefile) (p : ℕ) (words : List Printed) (behind : ℕ) where
  -- A printing that went on `n` bytes behind `p`.
  took :
      (m : Printing) (n : ℕ)
      → ((ws : List Printed) (b : ℕ) → m ≡ ok (ws, b) → b ≡ p + n)
      → goes_on m ≡ ok (words, some behind)
      → behind ≡ p + n
  took (ok (ws, b)) n f h = let e : b ≡ p + n = f ws b refl in ground arith
  took (err e) n f h = cc

  plain :
      (t : InstructionType) (ws : List Printed) (b : ℕ) → print_plain p t ≡ ok (ws, b) → b ≡ p + 1
  unfolding print_plain
  plain t ws b h = ground arith

  jump :
      (t : InstructionType) (ws : List Printed) (b : ℕ) → print_jump bf p t ≡ ok (ws, b) → b ≡ p + 5
  unfolding print_jump
  jump t ws b h = ground arith

  one :
      (t : InstructionType) (ws : List Printed) (b : ℕ) → print_one bf p t ≡ ok (ws, b) → b ≡ p + 5
  unfolding print_one
  one t ws b h = ground arith

  two :
      (t : InstructionType) (ws : List Printed) (b : ℕ) → print_two bf p t ≡ ok (ws, b) → b ≡ p + 9
  unfolding print_two
  two t ws b h = ground arith

  calls : (ws : List Printed) (b : ℕ) → print_call bf p ≡ ok (ws, b) → b ≡ p + 9
  unfolding print_call
  calls ws b h = ground arith

  tagged :
      (t : InstructionType) (ws : List Printed) (b : ℕ)
      → print_tagged bf p t ≡ ok (ws, b)
      → b ≡ p + 9
  unfolding print_tagged
  tagged t ws b h = ground arith

  variable :
      (t : InstructionType) (ws : List Printed) (b : ℕ)
      → print_variable bf p t ≡ ok (ws, b)
      → b ≡ p + 5
  unfolding print_variable
  variable t ws b h = ground arith

designations :
    (bf : Bytefile) (n p : ℕ) (ws : List Printed) (b : ℕ)
    → print_designations bf n p ≡ ok (ws, b)
    → b ≡ p + 5 * n
unfolding print_designations
designations bf zero p ws b h = ground arith
designations bf (suc n) p ws b h =
    let (c, e₁, h₁) = >>=-eq-ok (code_byte bf p) _ (ws, b) h in
    let (v, e₂, h₂) = >>=-eq-ok (code_u32 bf (p + 1)) _ (ws, b) h₁ in
    let ((ws', b'), e₃, h₃) =
      >>=-eq-ok (print_designations bf n (p + designation_length)) _ (ws, b) h₂ in
    let ih = designations bf n (p + designation_length) ws' b' e₃ in ground (arith, h₃, ih)

closures :
    (bf : Bytefile) (p : ℕ) (ws : List Printed) (b : ℕ)
    → print_closure bf p ≡ ok (ws, b)
    → (n : ℕ) × (code_u32 bf (p + (1 + 4)) ≡ ok n) × (b ≡ p + 9 + 5 * n)
unfolding print_closure
closures bf p ws b h =
    let (t, e₁, h₁) = >>=-eq-ok (code_u32 bf (p + 1)) _ (ws, b) h in
    let (n, e₂, h₂) = >>=-eq-ok (code_u32 bf (p + (1 + 4))) _ (ws, b) h₁ in
    let ((ws', b'), e₃, h₃) =
      >>=-eq-ok (print_designations bf n (p + instruction_length 2)) _ (ws, b) h₂ in
    let long = designations bf n (p + instruction_length 2) ws' b' e₃ in
    (n, e₂, ground (arith, h₃, long))

-- A closure that was printed, with the offset behind its designations.
closure_took :
    (bf : Bytefile) (p : ℕ) (words : List Printed) (behind : ℕ)
    → goes_on (print_closure bf p) ≡ ok (words, some behind)
    → (n : ℕ) × (code_u32 bf (p + (1 + 4)) ≡ ok n) × (behind ≡ p + 9 + 5 * n)
closure_took bf p words behind h = go (print_closure bf p) refl h
  where
    go :
        (m : Printing)
        → print_closure bf p ≡ m
        → goes_on m ≡ ok (words, some behind)
        → (n : ℕ) × (code_u32 bf (p + (1 + 4)) ≡ ok n) × (behind ≡ p + 9 + 5 * n)
    go (ok (ws, b)) e k = let (n, e₁, e₂) = closures bf p ws b e in (n, e₁, ground (arith, k, e₂))
    go (err e') e k = cc

module _ (bf : Bytefile) (p : ℕ) (words : List Printed) (behind : ℕ) where
  print_instruction-next_offset :
      (t : InstructionType)
      → print_instruction bf p t ≡ ok (words, some behind)
      → (next_offset bf p t ≡ ok (wrap32 behind)) × (p < behind)
  unfolding print_instruction next_offset
  print_instruction-next_offset call_read h =
      let e = took bf p words behind _ 1 (plain bf p words behind call_read) h in ground arith
  print_instruction-next_offset call_write h =
      let e = took bf p words behind _ 1 (plain bf p words behind call_write) h in ground arith
  print_instruction-next_offset call_length h =
      let e = took bf p words behind _ 1 (plain bf p words behind call_length) h in ground arith
  print_instruction-next_offset call_string h =
      let e = took bf p words behind _ 1 (plain bf p words behind call_string) h in ground arith
  print_instruction-next_offset elem h =
      let e = took bf p words behind _ 1 (plain bf p words behind elem) h in ground arith
  print_instruction-next_offset dup h =
      let e = took bf p words behind _ 1 (plain bf p words behind dup) h in ground arith
  print_instruction-next_offset drop h =
      let e = took bf p words behind _ 1 (plain bf p words behind drop) h in ground arith
  print_instruction-next_offset swap h =
      let e = took bf p words behind _ 1 (plain bf p words behind swap) h in ground arith
  print_instruction-next_offset sti h =
      let e = took bf p words behind _ 1 (plain bf p words behind sti) h in ground arith
  print_instruction-next_offset sta h =
      let e = took bf p words behind _ 1 (plain bf p words behind sta) h in ground arith
  print_instruction-next_offset ret h =
      let e = took bf p words behind _ 1 (plain bf p words behind ret) h in ground arith
  print_instruction-next_offset end h =
      let e = took bf p words behind _ 1 (plain bf p words behind end) h in ground arith
  print_instruction-next_offset jmp h =
      let e = took bf p words behind _ 5 (jump bf p words behind jmp) h in ground arith
  print_instruction-next_offset cjmp_z h =
      let e = took bf p words behind _ 5 (jump bf p words behind cjmp_z) h in ground arith
  print_instruction-next_offset cjmp_nz h =
      let e = took bf p words behind _ 5 (jump bf p words behind cjmp_nz) h in ground arith
  print_instruction-next_offset const h =
      let e = took bf p words behind _ 5 (one bf p words behind const) h in ground arith
  print_instruction-next_offset call_array h =
      let e = took bf p words behind _ 5 (one bf p words behind call_array) h in ground arith
  print_instruction-next_offset line h =
      let e = took bf p words behind _ 5 (one bf p words behind line) h in ground arith
  print_instruction-next_offset array h =
      let e = took bf p words behind _ 5 (one bf p words behind array) h in ground arith
  print_instruction-next_offset string h =
      let e = took bf p words behind _ 5 (one bf p words behind string) h in ground arith
  print_instruction-next_offset callc h =
      let e = took bf p words behind _ 5 (one bf p words behind callc) h in ground arith
  print_instruction-next_offset call h =
      let e = took bf p words behind _ 9 (calls bf p words behind) h in ground arith
  print_instruction-next_offset begin h =
      let e = took bf p words behind _ 9 (two bf p words behind begin) h in ground arith
  print_instruction-next_offset cbegin h =
      let e = took bf p words behind _ 9 (two bf p words behind cbegin) h in ground arith
  print_instruction-next_offset fail h =
      let e = took bf p words behind _ 9 (two bf p words behind fail) h in ground arith
  print_instruction-next_offset sexp h =
      let e = took bf p words behind _ 9 (tagged bf p words behind sexp) h in ground arith
  print_instruction-next_offset tag h =
      let e = took bf p words behind _ 9 (tagged bf p words behind tag) h in ground arith
  print_instruction-next_offset ld h =
      let e = took bf p words behind _ 5 (variable bf p words behind ld) h in ground arith
  print_instruction-next_offset st h =
      let e = took bf p words behind _ 5 (variable bf p words behind st) h in ground arith
  print_instruction-next_offset lda h =
      let e = took bf p words behind _ 5 (variable bf p words behind lda) h in ground arith
  print_instruction-next_offset closure h =
      let (n, read, e) = closure_took bf p words behind h in (rw read (ground arith), omega arith)
  print_instruction-next_offset binop h = ground arith
  print_instruction-next_offset patt h = ground arith
  print_instruction-next_offset (other code) h = ground arith

-- Where the printer goes on, the traversal of the verifier and of the analyzer reads the same
-- instruction, and goes on at the same offset as a `uint32_t`.
pub print_at-general_byterun :
    (bf : Bytefile) (p : ℕ) (words : List Printed) (behind : ℕ)
    → print_at bf p ≡ ok (words, some behind)
    → (t : InstructionType) × (print_instruction bf p t ≡ ok (words, some behind))
      × (general_byterun bf p ≡ ok (wrap32 behind, t))
      × (p < behind)
unfolding print_at general_byterun next_instruction_type
print_at-general_byterun bf p words behind h =
    let (c, e, k) = >>=-eq-ok (code_byte bf p) _ (words, some behind) h in
    let (next, further) =
      print_instruction-next_offset bf p words behind (next_instruction_type c) k in
    (next_instruction_type c, k, rw (e, ◌>>=◌, next), further)
