-- ===== src/Interp/Flow/Follows.antt =====
-- The interpreter goes on where the decoding of the verifier says.
use lama_sm_interpreter.Prelude.{
  ℕ, ◌+◌, ◌^◌, ◌%◌, ◌<◌, ◌≡◌, ◌≢◌, refl, ◌⊎◌, inl, inr, Bool, true, false, arith, ◌==◌, not,
  if◌then◌else◌, ◌∙◌,
}
use lama_sm_interpreter.Result.{ok}
use lama_sm_interpreter.Bytefile.{code_u32}
use lama_sm_interpreter.Bytefile.Bounds.{IsUnpacked}
use lama_sm_interpreter.Instruction.{
  InstructionType, binop, const, string, sexp, sti, sta, jmp, end, ret, dup, swap, elem, ld, lda,
  st, cjmp_z, cjmp_nz, begin, cbegin, closure, callc, call, tag, array, fail, line, other,
}
use lama_sm_interpreter.Byterun.{next_offset}
use lama_sm_interpreter.Machine.{State, M, load, pure, set_code_ptr, consume1, consume2}
use lama_sm_interpreter.Machine.Frames.{peek_op, pop_op}
use lama_sm_interpreter.Interp.Runtime.{Runtime}
use lama_sm_interpreter.Interp.Control.{jump, jump_if_zero, jump_if_not_zero, helper_fail}
use lama_sm_interpreter.Interp.Loop.{goes_on, run_instruction}
use lama_sm_interpreter.Interp.Moves.{bind-ok}
use lama_sm_interpreter.Interp.Depth.Verified.{Straight, goes_on-ok}
use lama_sm_interpreter.Interp.Depth.Arguments.{consume1-args}
use lama_sm_interpreter.Word.Boxing.{box_int}
use lama_sm_interpreter.Interp.Closures.{closures_create}
use lama_sm_interpreter.Interp.Flow.Closures.{closures_create-Follows}
use lama_sm_interpreter.Interp.Flow.{peek_op-Stays, pop_op-Stays}
use lama_sm_interpreter.Interp.Flow.Advances.{
  Advances, binop_interpeter-Advances, boxing_sexp-Advances, boxing_string-Advances,
  call_array-Advances, call_elem-Advances, call_length-Advances, call_read-Advances,
  call_write-Advances, consume1-Advances, helper_line-Advances, mem_load-Advances,
  mem_store-Advances, patt-Advances, stack_const-Advances, stack_drop-Advances, stack_dup-Advances,
  stack_lda-Advances, stack_sti-Advances, stack_swap-Advances, unboxing_array-Advances,
  unboxing_tag-Advances,
}

-- Where the interpreter goes on from an instruction of type `ty` in `s`: at the target of a jump, at that
-- of a conditional jump where the operand on the top of the stack is the box of 0, for CJMPz, or is not,
-- for CJMPnz, and else at the next instruction.
abbrev pub Follows : {W : Type 0} → State W → InstructionType → ℕ → Type 0
Follows s jmp o' = code_u32 s.bf (s.code_ptr + 1) ≡ ok o'
Follows s cjmp_z o' =
    ((s.cells (s.top + 1) ≡ box_int 0) × (code_u32 s.bf (s.code_ptr + 1) ≡ ok o'))
    ⊎ ((s.cells (s.top + 1) ≢ box_int 0) × (next_offset s.bf s.code_ptr cjmp_z ≡ ok o'))
Follows s cjmp_nz o' =
    ((s.cells (s.top + 1) ≢ box_int 0) × (code_u32 s.bf (s.code_ptr + 1) ≡ ok o'))
    ⊎ ((s.cells (s.top + 1) ≡ box_int 0) × (next_offset s.bf s.code_ptr cjmp_nz ≡ ok o'))
Follows s ty o' = next_offset s.bf s.code_ptr ty ≡ ok o'

module _ {W : Type 0} (s s' : State W) where
  jump-target : jump s ≡ ok (tt, s') → code_u32 s.bf (s.code_ptr + 1) ≡ ok s'.code_ptr
  unfolding jump consume1
  jump-target h = ground arith

  -- The operand that a conditional jump tests, behind the decoding.
  peek-consume1 :
      (s₁ : State W) (c target val : ℕ)
      → consume1 s ≡ ok ((c, target), s₁)
      → peek_op s₁ ≡ ok (val, s')
      → val ≡ s.cells (s.top + 1)
  unfolding consume1 peek_op load
  peek-consume1 s₁ c target val h k =
      let stack : s₁.top ≡ s.top = ground arith in
      let words : s₁.cells ≡ s.cells = ground arith in
      let tested : val ≡ s₁.cells (s₁.top + 1) = ground (arith, k) in rw (tested, stack, words) refl

-- The end of a conditional jump.
jump_or_not :
    {W : Type 0} (s s' : State W) (test : Bool) (target : ℕ)
    → (if test then set_code_ptr target else pure tt) s ≡ ok (tt, s')
    → ((test ≡ true) × (s'.code_ptr ≡ target)) ⊎ ((test ≡ false) × (s'.code_ptr ≡ s.code_ptr))
jump_or_not s s' true target h = inl (refl, ground arith)
jump_or_not s s' false target h = inr (refl, ground arith)

module _ {W : Type 0} (s s' : State W) (u : IsUnpacked s.bf) (small : s.bf.code_size < 2 ^ 32) where
  jump_if_zero-Follows : jump_if_zero s ≡ ok (tt, s') → Follows s cjmp_z s'.code_ptr
  unfolding jump_if_zero next_offset
  jump_if_zero-Follows h =
      let ((c, target), s₁, e₁, e₂) = bind-ok consume1 _ s s' tt h in
      let (ptr, inside) = consume1-Advances s s₁ (c, target) u e₁ in
      let read = consume1-args s s₁ c target e₁ in
      let (val, s₂, e₃, e₄) = bind-ok peek_op _ s₁ s' tt e₂ in
      let (_, s₃, e₅, e₆) = bind-ok pop_op _ s₂ s' tt e₄ in
      let stays = pop_op-Stays s₂ s₃ tt e₅ ∙ peek_op-Stays s₁ s₂ val e₃ in
      let tested = peek-consume1 s s₂ s₁ c target val e₁ e₃ in
      elim (jump_or_not s₃ s' (val == box_int 0) target e₆) [
        | inl (t, e) ↦ inl (ground (arith, t, tested), rw e read)
        | inr (t, e) ↦ inr (ground (arith, t, tested), ground (arith, e, stays, ptr))
      ]

  jump_if_not_zero-Follows : jump_if_not_zero s ≡ ok (tt, s') → Follows s cjmp_nz s'.code_ptr
  unfolding jump_if_not_zero next_offset
  jump_if_not_zero-Follows h =
      let ((c, target), s₁, e₁, e₂) = bind-ok consume1 _ s s' tt h in
      let (ptr, inside) = consume1-Advances s s₁ (c, target) u e₁ in
      let read = consume1-args s s₁ c target e₁ in
      let (val, s₂, e₃, e₄) = bind-ok peek_op _ s₁ s' tt e₂ in
      let (_, s₃, e₅, e₆) = bind-ok pop_op _ s₂ s' tt e₄ in
      let stays = pop_op-Stays s₂ s₃ tt e₅ ∙ peek_op-Stays s₁ s₂ val e₃ in
      let tested = peek-consume1 s s₂ s₁ c target val e₁ e₃ in
      elim (jump_or_not s₃ s' (not (val == box_int 0)) target e₆) [
        | inl (t, e) ↦ inl (ground (arith, t, tested), rw e read)
        | inr (t, e) ↦ inr (ground (arith, t, tested), ground (arith, e, stays, ptr))
      ]

module _ {W : Type 0} (R : Runtime W) (s s' : State W) (b : Bool) (u : IsUnpacked s.bf)
    (small : s.bf.code_size < 2 ^ 32) where
  -- The offset behind an instruction of `n` bytes, as a `uint32_t`.
  behind :
      (n : ℕ) {m : M W (Unit {0})}
      → Advances n m
      → goes_on m s ≡ ok (b, s')
      → (s.code_ptr + n) % 2 ^ 32 ≡ s'.code_ptr
  behind n {m} e h = let (ptr, inside) = e s s' tt u (goes_on-ok m s s' b h) in omega arith

  -- In a file that was unpacked, whose code is shorter than 2 ^ 32 bytes: after an instruction other
  -- than CALL, CALLC, BEGIN, CBEGIN, END, STA and CALL_STRING that runs without an exception the
  -- interpreter is at the target of a JMP; at that of a CJMPz, where the operand on the top of the
  -- stack was the box of 0, and of a CJMPnz, where it was not; and else at the offset that
  -- `general_byterun` takes for the next instruction.
  pub run_instruction-Follows :
      (ty : InstructionType)
      → Straight ty
      → run_instruction R ty s ≡ ok (b, s')
      → Follows s ty s'.code_ptr
  unfolding run_instruction next_offset helper_fail
  run_instruction-Follows binop ok_ty h =
      let e = behind 1 binop_interpeter-Advances h in ground arith
  run_instruction-Follows const ok_ty h = let e = behind 5 stack_const-Advances h in ground arith
  run_instruction-Follows sexp ok_ty h = let e = behind 9 (boxing_sexp-Advances R) h in ground arith
  run_instruction-Follows jmp ok_ty h = jump-target s s' (goes_on-ok jump s s' b h)
  run_instruction-Follows cjmp_z ok_ty h =
      jump_if_zero-Follows s s' u small (goes_on-ok jump_if_zero s s' b h)
  run_instruction-Follows cjmp_nz ok_ty h =
      jump_if_not_zero-Follows s s' u small (goes_on-ok jump_if_not_zero s s' b h)
  run_instruction-Follows InstructionType.drop ok_ty h =
      let e = behind 1 stack_drop-Advances h in ground arith
  run_instruction-Follows dup ok_ty h = let e = behind 1 stack_dup-Advances h in ground arith
  run_instruction-Follows ld ok_ty h = let e = behind 5 (mem_load-Advances R) h in ground arith
  run_instruction-Follows st ok_ty h = let e = behind 5 (mem_store-Advances R) h in ground arith
  run_instruction-Follows lda ok_ty h = let e = behind 5 (stack_lda-Advances R) h in ground arith
  run_instruction-Follows InstructionType.call_read ok_ty h =
      let e = behind 1 (call_read-Advances R) h in ground arith
  run_instruction-Follows InstructionType.call_write ok_ty h =
      let e = behind 1 (call_write-Advances R) h in ground arith
  run_instruction-Follows InstructionType.call_length ok_ty h =
      let e = behind 1 (call_length-Advances R) h in ground arith
  run_instruction-Follows InstructionType.call_array ok_ty h =
      let e = behind 5 (call_array-Advances R) h in ground arith
  run_instruction-Follows elem ok_ty h = let e = behind 1 (call_elem-Advances R) h in ground arith
  run_instruction-Follows tag ok_ty h = let e = behind 9 (unboxing_tag-Advances R) h in ground arith
  run_instruction-Follows array ok_ty h =
      let e = behind 5 (unboxing_array-Advances R) h in ground arith
  run_instruction-Follows line ok_ty h = let e = behind 5 helper_line-Advances h in ground arith
  run_instruction-Follows string ok_ty h = let e = behind 5 boxing_string-Advances h in ground arith
  run_instruction-Follows swap ok_ty h = let e = behind 1 stack_swap-Advances h in ground arith
  run_instruction-Follows sti ok_ty h = let e = behind 1 (stack_sti-Advances R) h in ground arith
  run_instruction-Follows InstructionType.patt ok_ty h =
      let e = behind 1 (patt-Advances R) h in ground arith
  run_instruction-Follows fail ok_ty h =
      let (c, s₁, e₁, e₂) = bind-ok consume2 _ s s' tt (goes_on-ok helper_fail s s' b h) in cc
  run_instruction-Follows ret ok_ty h = cc
  run_instruction-Follows (other c) ok_ty h = cc
  run_instruction-Follows InstructionType.call_string ok_ty h = elim ok_ty [ ]
  run_instruction-Follows call ok_ty h = elim ok_ty [ ]
  run_instruction-Follows callc ok_ty h = elim ok_ty [ ]
  run_instruction-Follows begin ok_ty h = elim ok_ty [ ]
  run_instruction-Follows cbegin ok_ty h = elim ok_ty [ ]
  run_instruction-Follows end ok_ty h = elim ok_ty [ ]
  run_instruction-Follows sta ok_ty h = elim ok_ty [ ]
  run_instruction-Follows closure ok_ty h =
      closures_create-Follows R s s' u small (goes_on-ok (closures_create R) s s' b h)
