-- ===== src/Interp/Memory.antt =====
-- src/single_interpreters/mem_interpreters.hpp, with the methods of src/state/FrameStack.hpp for
-- the variables of a closure.
use lama_sm_interpreter.Prelude.{ℕ, ◌+◌}
use lama_sm_interpreter.Result.{Error}
use lama_sm_interpreter.Word.{wrap32}
use lama_sm_interpreter.Word.Boxing.{box_int}
use lama_sm_interpreter.Instruction.{MemVar, low_bits, to_mem_var}
use lama_sm_interpreter.Machine.{M, ◌>>=◌, pure, throw, of_pointer, get_state, consume1}
use lama_sm_interpreter.Machine.Frames.{
  push_op, peek_op, get_global, set_global, get_local, set_local, get_arg, set_arg, get_global_link,
  get_local_link, get_arg_link, closure_word,
}
use lama_sm_interpreter.Interp.Runtime.{Runtime, call_runtime}

module _ {W : Type 0} (R : Runtime W) where
  -- `index + 1` is a `uint32_t`.
  unfoldable pub get_closure : ℕ → M W ℕ
  get_closure index = do
    closure_ptr ← closure_word
    call_runtime (R.b_elem closure_ptr (box_int (wrap32 (index + 1))))

  unfoldable pub set_closure : ℕ → ℕ → M W (Unit {0})
  set_closure index val = do
    closure_ptr ← closure_word
    _ ← call_runtime (R.b_sta closure_ptr (box_int (wrap32 (index + 1))) val)
    pure tt

  -- The value of a variable.
  unfoldable pub get_variable : MemVar → ℕ → Error → M W ℕ
  get_variable MemVar.global index e = get_global index
  get_variable MemVar.local index e = get_local index
  get_variable MemVar.argument index e = get_arg index
  get_variable MemVar.closure index e = get_closure index
  get_variable (MemVar.other c) index e = throw e

  unfoldable pub set_variable : MemVar → ℕ → ℕ → M W (Unit {0})
  set_variable MemVar.global index value = set_global index value
  set_variable MemVar.local index value = set_local index value
  set_variable MemVar.argument index value = set_arg index value
  set_variable MemVar.closure index value = set_closure index value
  set_variable (MemVar.other c) index value = throw Error.invalid_store

  unfoldable pub mem_load : M W (Unit {0})
  mem_load = do
    (c, index) ← consume1
    value ← get_variable (to_mem_var (low_bits c)) index Error.invalid_load
    push_op value

  unfoldable pub mem_store : M W (Unit {0})
  mem_store = do
    (c, index) ← consume1
    value ← peek_op
    set_variable (to_mem_var (low_bits c)) index value

  -- The word that `push_op_link` is given. `get_closure_link` returns the element itself.
  unfoldable pub variable_link : MemVar → ℕ → M W ℕ
  variable_link MemVar.global index = do s ← get_state; pure (of_pointer (get_global_link s index))
  variable_link MemVar.local index = do s ← get_state; pure (of_pointer (get_local_link s index))
  variable_link MemVar.argument index = do s ← get_state; pure (of_pointer (get_arg_link s index))
  variable_link MemVar.closure index = get_closure index
  variable_link (MemVar.other c) index = throw Error.invalid_store

  unfoldable pub stack_lda : M W (Unit {0})
  stack_lda = do
    (c, index) ← consume1
    link ← variable_link (to_mem_var (low_bits c)) index
    push_op link
