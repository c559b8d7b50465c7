-- ===== src/Interp/Depth/Verified.antt =====
-- The handlers move the stack as `get_new_stack` of the verifier says.
use lama_sm_interpreter.Prelude.{ℕ, ◌+◌, ◌-◌, ◌%◌, ◌^◌, ◌≤◌, ◌≡◌, ◌<◌, arith, Bool, false}
use lama_sm_interpreter.Result.{ok}
use lama_sm_interpreter.Instruction.{
  InstructionType, binop, const, string, sexp, sti, sta, jmp, end, ret, dup, swap, elem, ld, lda,
  st, cjmp_z, cjmp_nz, begin, cbegin, closure, callc, call, tag, array, fail, line, other, Patt,
  to_patt, low_bits,
}
use lama_sm_interpreter.Verifier.Marks.{check_arguments}
use lama_sm_interpreter.Verifier.Effect.{get_new_stack, patt_new_stack}
use lama_sm_interpreter.Machine.{State, M, ◌>>=◌, pure, consume0, consume1, consume2}
use lama_sm_interpreter.Machine.Frames.{push_op, pop_op}
use lama_sm_interpreter.Interp.Runtime.{Runtime}
use lama_sm_interpreter.Interp.Values.{boxing_sexp, call_array, test_patt, patt}
use lama_sm_interpreter.Interp.Closures.{closures_create}
use lama_sm_interpreter.Interp.Depth.Arguments.{
  build_sexp-Effect, build_array-Effect, build_array-le-max_stack, helper_fail-Effect,
  consume0-byte, consume1-args, consume2-args,
}
use lama_sm_interpreter.Interp.Depth.Closures.{closures_create-Moves}
use lama_sm_interpreter.Interp.Loop.{goes_on, run_instruction}
use lama_sm_interpreter.Interp.Moves.{
  Moves, Moves-trans, Effect, bind-ok, popped, consume0-Effect, consume1-Effect, consume2-Effect,
  push_op-Effect,
}
use lama_sm_interpreter.Interp.Depth.{
  stack_dup-Effect, stack_drop-Effect, stack_const-Effect, stack_swap-Effect, mem_load-Effect,
  mem_store-Effect, stack_lda-Effect, jump-Effect, jump_if_zero-Effect, jump_if_not_zero-Effect,
  helper_line-Effect, unboxing_tag-Effect, unboxing_array-Effect, call_read-Effect,
  call_write-Effect, call_length-Effect, call_elem-Effect, boxing_string-Effect, stack_sti-Effect,
  binop_interpeter-Effect, test_patt-Effect, test_str_cmp-Effect,
}

-- The instructions that stay in their frame, but for CALL_STRING and STA, whose effects differ from
-- what the verifier takes them to be.
abbrev pub Straight : InstructionType → Type 0
Straight call = ⊥
Straight callc = ⊥
Straight begin = ⊥
Straight cbegin = ⊥
Straight end = ⊥
Straight sta = ⊥
Straight InstructionType.call_string = ⊥
Straight _ = Unit

-- `d` operands in `s` are `d'` operands in `s'`, in the same frame, on the same stack and in the same
-- file.
abbrev pub DepthGoes : {W : Type 0} → State W → State W → ℕ → ℕ → Type 0
DepthGoes s s' d d' =
    (s'.top + d' ≡ s.top + d) × (s'.stack_data ≡ s.stack_data) × (s'.fp ≡ s.fp) × (s'.bf ≡ s.bf)

pub DepthGoes-Moves :
    {W : Type 0} (p u d d' : ℕ) (s s' : State W)
    → Moves p u s s'
    → d' + p ≡ d + u
    → DepthGoes s s' d d'
DepthGoes-Moves p u d d' s s' mv e = (omega (arith, mv.tops), mv.same_data, mv.same_fp, mv.same_bf)

pub goes_on-ok :
    {W : Type 0} (m : M W (Unit {0})) (s s' : State W) (b : Bool)
    → goes_on m s ≡ ok (b, s')
    → m s ≡ ok (tt, s')
goes_on-ok m s s' b h = let (a, t, e₁, e₂) = bind-ok m (λ _. pure false) s s' b h in ground arith

module _ {W : Type 0} (R : Runtime W) (s s' : State W) (d d' : ℕ) (b : Bool)
    (placed : 0 < s.stack_data) (small : d < 2 ^ 31) (small' : d' < 2 ^ 31) where
  -- The handlers that take `p` words off and put `u` on, whatever their arguments.
  fixed :
      (p u : ℕ) {m : M W (Unit {0})}
      → Effect p u m
      → goes_on m s ≡ ok (b, s')
      → (d + u) % 2 ^ 32 ≡ (d' + p) % 2 ^ 32
      → p < 8
      → u < 8
      → DepthGoes s s' d d'
  fixed p u {m} e h eq sp su =
      DepthGoes-Moves p u d d' s s' (e s s' tt placed (goes_on-ok m s s' b h)) (omega arith)

  sexp-Depth :
      goes_on (boxing_sexp R) s ≡ ok (b, s')
      → check_arguments s.bf s.code_ptr d sexp ≡ ok tt
      → get_new_stack s.bf d s.code_ptr sexp ≡ ok d'
      → DepthGoes s s' d d'
  unfolding boxing_sexp get_new_stack check_arguments
  sexp-Depth h few g =
      let ((c, t, n), s₁, e₁, e₂) =
        bind-ok consume2 _ s s' tt (goes_on-ok (boxing_sexp R) s s' b h) in
      let first = consume2-Effect s s₁ (c, t, n) placed e₁ in
      let rest =
        build_sexp-Effect R t ((n + 1) % 2 ^ 32) s₁ s' tt (omega (arith, first.same_data)) e₂ in
      let read = consume2-args s s₁ c t n e₁ in
      let goes : (d + 1 + (2 ^ 32 - n)) % 2 ^ 32 ≡ d' = ground (arith, g, read) in
      let fits : n ≤ d = ground (arith, few, read) in
      DepthGoes-Moves _ _ d d' s s' (Moves-trans _ _ _ _ s s₁ s' first rest) (omega arith)

  array-Depth :
      goes_on (call_array R) s ≡ ok (b, s')
      → get_new_stack s.bf d s.code_ptr InstructionType.call_array ≡ ok d'
      → DepthGoes s s' d d'
  unfolding call_array get_new_stack
  array-Depth h g =
      let ((c, n), s₁, e₁, e₂) = bind-ok consume1 _ s s' tt (goes_on-ok (call_array R) s s' b h) in
      let first = consume1-Effect s s₁ (c, n) placed e₁ in
      let rest = build_array-Effect R n s₁ s' tt (omega (arith, first.same_data)) e₂ in
      let read = consume1-args s s₁ c n e₁ in
      let goes : (d + 1 + (2 ^ 32 - n)) % 2 ^ 32 ≡ d' = ground (arith, g, read) in
      let short = build_array-le-max_stack R n s₁ s' e₂ in
      DepthGoes-Moves _ _ d d' s s' (Moves-trans _ _ _ _ s s₁ s' first rest) (omega (arith, short))

  closure-Depth :
      goes_on (closures_create R) s ≡ ok (b, s')
      → get_new_stack s.bf d s.code_ptr closure ≡ ok d'
      → DepthGoes s s' d d'
  unfolding get_new_stack
  closure-Depth h g =
      let (p, moves) =
        closures_create-Moves R s s' placed (goes_on-ok (closures_create R) s s' b h) in
      let goes : (d + 1) % 2 ^ 32 ≡ d' = ground (arith, g) in
      DepthGoes-Moves p (p + 1) d d' s s' moves (omega arith)

  patt-Depth :
      goes_on (patt R) s ≡ ok (b, s')
      → get_new_stack s.bf d s.code_ptr InstructionType.patt ≡ ok d'
      → DepthGoes s s' d d'
  unfolding patt get_new_stack
  patt-Depth h g =
      let (c, s₁, e₁, e₂) = bind-ok consume0 _ s s' tt (goes_on-ok (patt R) s s' b h) in
      let first = consume0-Effect s s₁ c placed e₁ in
      let (v, s₂, e₃, e₄) = bind-ok (test_patt R (to_patt (low_bits c))) _ s₁ s' tt e₂ in
      let read = consume0-byte s s₁ c e₁ in
      let goes : patt_new_stack d (to_patt (low_bits c)) ≡ ok d' = ground (arith, g, read) in
      patt_case (to_patt (low_bits c)) v s₁ s₂ first e₃ e₄ goes
    where
      patt_case :
          (q : Patt) (v : ℕ) (s₁ s₂ : State W)
          → Moves 0 0 s s₁
          → test_patt R q s₁ ≡ ok (v, s₂)
          → (pop_op >>= λ _. push_op v) s₂ ≡ ok (tt, s')
          → patt_new_stack d q ≡ ok d'
          → DepthGoes s s' d d'
      patt_case Patt.str_cmp v s₁ s₂ first e₃ e₄ goes =
          let test = test_str_cmp-Effect R s₁ s₂ v (omega (arith, first.same_data)) e₃ in
          let replace =
            popped (λ _. push_op-Effect v) s₂ s' tt (omega (arith, first.same_data, test.same_data))
              e₄ in
          let below : (d + (2 ^ 32 - 1)) % 2 ^ 32 ≡ d' = ground arith in
          let both = Moves-trans _ _ _ _ s s₁ s₂ first test in
          DepthGoes-Moves _ _ d d' s s' (Moves-trans _ _ _ _ s s₂ s' both replace) (omega arith)
      patt_case (Patt.other c) v s₁ s₂ first e₃ e₄ goes = cc
      patt_case q v s₁ s₂ first e₃ e₄ goes =
          let test = test_patt-Effect R _ (λ e. cc) s₁ s₂ v (omega (arith, first.same_data)) e₃ in
          let replace =
            popped (λ _. push_op-Effect v) s₂ s' tt (omega (arith, first.same_data, test.same_data))
              e₄ in
          let same : d ≡ d' = ground arith in
          let both = Moves-trans _ _ _ _ s s₁ s₂ first test in
          DepthGoes-Moves _ _ d d' s s' (Moves-trans _ _ _ _ s s₂ s' both replace) (omega arith)

  -- An instruction other than CALL, CALLC, BEGIN, CBEGIN, END, STA and CALL_STRING that
  -- passes the verifier's test of its argument count: where it runs without an exception, it changes
  -- the number of operands on the stack as `get_new_stack` computes it, if both numbers are below
  -- 2 ^ 31 and the stack does not start at address 0.
  pub run_instruction-DepthGoes :
      (ty : InstructionType)
      → Straight ty
      → check_arguments s.bf s.code_ptr d ty ≡ ok tt
      → get_new_stack s.bf d s.code_ptr ty ≡ ok d'
      → run_instruction R ty s ≡ ok (b, s')
      → DepthGoes s s' d d'
  unfolding run_instruction get_new_stack
  run_instruction-DepthGoes binop ok_ty ar g h =
      fixed 2 1 binop_interpeter-Effect h (ground arith) (omega arith) (omega arith)
  run_instruction-DepthGoes const ok_ty ar g h =
      fixed 0 1 (stack_const-Effect R) h (ground arith) (omega arith) (omega arith)
  run_instruction-DepthGoes jmp ok_ty ar g h =
      fixed 0 0 (jump-Effect R) h (ground arith) (omega arith) (omega arith)
  run_instruction-DepthGoes cjmp_z ok_ty ar g h =
      fixed 1 0 (jump_if_zero-Effect R) h (ground arith) (omega arith) (omega arith)
  run_instruction-DepthGoes cjmp_nz ok_ty ar g h =
      fixed 1 0 (jump_if_not_zero-Effect R) h (ground arith) (omega arith) (omega arith)
  run_instruction-DepthGoes InstructionType.drop ok_ty ar g h =
      fixed 1 0 (stack_drop-Effect R) h (ground arith) (omega arith) (omega arith)
  run_instruction-DepthGoes dup ok_ty ar g h =
      fixed 0 1 (stack_dup-Effect R) h (ground arith) (omega arith) (omega arith)
  run_instruction-DepthGoes ld ok_ty ar g h =
      fixed 0 1 (mem_load-Effect R) h (ground arith) (omega arith) (omega arith)
  run_instruction-DepthGoes st ok_ty ar g h =
      fixed 0 0 (mem_store-Effect R) h (ground arith) (omega arith) (omega arith)
  run_instruction-DepthGoes InstructionType.call_read ok_ty ar g h =
      fixed 0 1 (call_read-Effect R) h (ground arith) (omega arith) (omega arith)
  run_instruction-DepthGoes InstructionType.call_write ok_ty ar g h =
      fixed 0 0 (call_write-Effect R) h (ground arith) (omega arith) (omega arith)
  run_instruction-DepthGoes InstructionType.call_length ok_ty ar g h =
      fixed 1 1 (call_length-Effect R) h (ground arith) (omega arith) (omega arith)
  run_instruction-DepthGoes elem ok_ty ar g h =
      fixed 2 1 (call_elem-Effect R) h (ground arith) (omega arith) (omega arith)
  run_instruction-DepthGoes tag ok_ty ar g h =
      fixed 1 1 (unboxing_tag-Effect R) h (ground arith) (omega arith) (omega arith)
  run_instruction-DepthGoes array ok_ty ar g h =
      fixed 1 1 (unboxing_array-Effect R) h (ground arith) (omega arith) (omega arith)
  run_instruction-DepthGoes line ok_ty ar g h =
      fixed 0 0 (helper_line-Effect R) h (ground arith) (omega arith) (omega arith)
  run_instruction-DepthGoes string ok_ty ar g h =
      fixed 0 1 (boxing_string-Effect R) h (ground arith) (omega arith) (omega arith)
  run_instruction-DepthGoes swap ok_ty ar g h =
      fixed 2 2 (stack_swap-Effect R) h (ground arith) (omega arith) (omega arith)
  run_instruction-DepthGoes sti ok_ty ar g h =
      fixed 2 1 (stack_sti-Effect R) h (ground arith) (omega arith) (omega arith)
  run_instruction-DepthGoes lda ok_ty ar g h =
      fixed 0 1 (stack_lda-Effect R) h (ground arith) (omega arith) (omega arith)
  run_instruction-DepthGoes fail ok_ty ar g h =
      fixed 0 0 helper_fail-Effect h (ground arith) (omega arith) (omega arith)
  run_instruction-DepthGoes sexp ok_ty ar g h = sexp-Depth h ar g
  run_instruction-DepthGoes InstructionType.call_array ok_ty ar g h = array-Depth h g
  run_instruction-DepthGoes InstructionType.patt ok_ty ar g h = patt-Depth h g
  run_instruction-DepthGoes ret ok_ty ar g h = cc
  run_instruction-DepthGoes (other c) ok_ty ar g h = cc
  run_instruction-DepthGoes InstructionType.call_string ok_ty ar g h = elim ok_ty [ ]
  run_instruction-DepthGoes call ok_ty ar g h = elim ok_ty [ ]
  run_instruction-DepthGoes callc ok_ty ar g h = elim ok_ty [ ]
  run_instruction-DepthGoes begin ok_ty ar g h = elim ok_ty [ ]
  run_instruction-DepthGoes cbegin ok_ty ar g h = elim ok_ty [ ]
  run_instruction-DepthGoes end ok_ty ar g h = elim ok_ty [ ]
  run_instruction-DepthGoes sta ok_ty ar g h = elim ok_ty [ ]
  run_instruction-DepthGoes closure ok_ty ar g h = closure-Depth h g
