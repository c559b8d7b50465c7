-- ===== src/Interp/Progress/Handlers.antt =====
-- The handlers of the instructions that are ready run without an exception.
use lama_sm_interpreter.Prelude.{ℕ, ◌≤◌, ◌<◌, ◌^◌, ◌≡◌, arith}
use lama_sm_interpreter.Result.{ok}
use lama_sm_interpreter.Bytefile.{code_byte}
use lama_sm_interpreter.Instruction.{
  InstructionType, binop, const, jmp, drop, dup, swap, ld, lda, st, cjmp_z, cjmp_nz, line,
}
use lama_sm_interpreter.Verifier.Effect.{get_new_stack}
use lama_sm_interpreter.Machine.{State}
use lama_sm_interpreter.Interp.Runtime.{Runtime}
use lama_sm_interpreter.Interp.Progress.{Frame, IsReady, GoesOn}
use lama_sm_interpreter.Interp.Progress.Operands.{
  binop-GoesOn, const-GoesOn, drop-GoesOn, dup-GoesOn, jump-GoesOn, jump_if_not_zero-GoesOn,
  jump_if_zero-GoesOn, line-GoesOn, swap-GoesOn,
}
use lama_sm_interpreter.Interp.Progress.Variables.{link-GoesOn, load-GoesOn, store-GoesOn}

module _ {W : Type 0} (R : Runtime W) (n_args n_locals deepest d c : ℕ) (s : State W)
    (f : Frame n_args n_locals deepest d s) (deep : d ≤ deepest)
    (byte : code_byte s.bf s.code_ptr ≡ ok c) where
  -- In a frame as BEGIN leaves it, an instruction that is ready, with enough
  -- operands in front of it and with at most the counted number of them behind it, runs without an
  -- exception.
  pub run_instruction-GoesOn :
      (ty : InstructionType) (d' : ℕ)
      → IsReady s.bf s.code_ptr c n_args n_locals d ty
      → get_new_stack s.bf d s.code_ptr ty ≡ ok d'
      → d' ≤ deepest
      → deepest < 2 ^ 31
      → GoesOn R n_args ty s
  unfolding get_new_stack
  run_instruction-GoesOn binop d' (some, total) g le small =
      binop-GoesOn R n_args n_locals deepest d c s f deep byte some total
  run_instruction-GoesOn const d' arg g le small =
      const-GoesOn R n_args n_locals deepest d c s f deep byte (ground arith) arg
  run_instruction-GoesOn jmp d' arg g le small =
      jump-GoesOn R n_args n_locals deepest d c s f deep byte arg
  run_instruction-GoesOn cjmp_z d' (some, arg) g le small =
      jump_if_zero-GoesOn R n_args n_locals deepest d c s f deep byte some arg
  run_instruction-GoesOn cjmp_nz d' (some, arg) g le small =
      jump_if_not_zero-GoesOn R n_args n_locals deepest d c s f deep byte some arg
  run_instruction-GoesOn drop d' some g le small =
      drop-GoesOn R n_args n_locals deepest d c s f deep byte
  run_instruction-GoesOn dup d' some g le small =
      dup-GoesOn R n_args n_locals deepest d c s f deep byte (ground arith) some
  run_instruction-GoesOn swap d' some g le small =
      swap-GoesOn R n_args n_locals deepest d c s f deep byte some
  run_instruction-GoesOn ld d' var g le small =
      load-GoesOn R n_args n_locals deepest d c s f deep byte (ground arith) var
  run_instruction-GoesOn lda d' var g le small =
      link-GoesOn R n_args n_locals deepest d c s f deep byte (ground arith) var
  run_instruction-GoesOn st d' (some, var) g le small =
      store-GoesOn R n_args n_locals deepest d c s f deep byte some var
  run_instruction-GoesOn line d' arg g le small =
      line-GoesOn R n_args n_locals deepest d c s f deep byte arg
  run_instruction-GoesOn _ d' h g le small = elim h [ ]
