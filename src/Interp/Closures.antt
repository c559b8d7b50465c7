-- ===== src/Interp/Closures.antt =====
-- src/single_interpreters/closures.hpp
use lama_sm_interpreter.Prelude.{ℕ, zero, suc, ◌+◌, List, [], ◌∷◌}
use mathlib.Core.List.{reverse}
use lama_sm_interpreter.Result.{Error}
use lama_sm_interpreter.Word.{wrap32}
use lama_sm_interpreter.Word.Boxing.{box_int, unbox}
use lama_sm_interpreter.Instruction.{MemVar, to_mem_var}
use lama_sm_interpreter.Machine.{
  M, ◌>>=◌, ◌>>◌, pure, throw, get_state, set_code_ptr, consume1, consume2, consume_designation,
}
use lama_sm_interpreter.Machine.Frames.{
  push_op, peek_op_at, pop_ops, push_stack_frame, get_local, get_arg,
}
use lama_sm_interpreter.Interp.Runtime.{Runtime, call_runtime}
use lama_sm_interpreter.Interp.Memory.{get_closure}

-- The first loop of `closures_create`.
unfoldable pub consume_designations : {W : Type 0} → ℕ → M W (List (ℕ × ℕ))
consume_designations zero = pure []
consume_designations (suc n) = do
  designation ← consume_designation
  designations ← consume_designations n
  pure (designation ∷ designations)

module _ {W : Type 0} (R : Runtime W) where
  unfoldable pub captured : MemVar → ℕ → M W ℕ
  captured MemVar.local index = get_local index
  captured MemVar.argument index = get_arg index
  captured MemVar.closure index = get_closure R index
  captured _ index = throw Error.invalid_designation

  -- The second loop.
  unfoldable pub push_designations : List (ℕ × ℕ) → M W (Unit {0})
  push_designations [] = pure tt
  push_designations ((mem_var, index) ∷ designations) = do
    value ← captured (to_mem_var mem_var) index
    push_op value
    push_designations designations

  unfoldable pub closures_create : M W (Unit {0})
  closures_create = do
    (_, ip, n_args) ← consume2
    designations ← consume_designations n_args
    push_designations (reverse designations)
    push_op (box_int ip)
    s ← get_state
    res ← call_runtime (R.b_closure (s.top + 1) (box_int n_args))
    pop_ops (wrap32 (n_args + 1))
    push_op res

  unfoldable pub closures_call : M W (Unit {0})
  closures_call = do
    (_, nargs) ← consume1
    closure_ptr ← peek_op_at (1 + nargs)
    elem ← call_runtime (R.b_elem closure_ptr (box_int 0))
    s ← get_state
    push_stack_frame nargs (s.code_start + s.code_ptr) 1
    set_code_ptr (unbox elem)
