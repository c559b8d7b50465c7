-- ===== src/Interp/Stack.antt =====
-- src/single_interpreters/stack_ops_interpreters.hpp
use lama_sm_interpreter.Prelude.{ℕ, if◌then◌else◌}
use lama_sm_interpreter.Result.{Error}
use lama_sm_interpreter.Word.Boxing.{box_int, is_boxed_int}
use lama_sm_interpreter.Machine.{
  M, ◌>>=◌, ◌>>◌, pure, throw, load, store, in_stack, to_pointer, get_state, consume0, consume1,
}
use lama_sm_interpreter.Machine.Frames.{push_op, peek_op, pop_op}
use lama_sm_interpreter.Interp.Runtime.{Runtime, call_runtime}

unfoldable pub stack_dup : {W : Type 0} → M W (Unit {0})
stack_dup = do consume0; value ← peek_op; push_op value

unfoldable pub stack_drop : {W : Type 0} → M W (Unit {0})
stack_drop = do consume0; pop_op

-- The argument is a `uint32_t`, which `box_int` takes for a number that is not negative.
unfoldable pub stack_const : {W : Type 0} → M W (Unit {0})
stack_const = do (_, arg) ← consume1; push_op (box_int arg)

unfoldable pub stack_swap : {W : Type 0} → M W (Unit {0})
stack_swap = do consume0; a ← peek_op; pop_op; b ← peek_op; pop_op; push_op a; push_op b

module _ {W : Type 0} (R : Runtime W) where
  -- A read and a write through a pointer of the program.
  unfoldable pub deref : ℕ → M W ℕ
  deref w = do
    s ← get_state
    p ← to_pointer w
    if in_stack s p then load p else call_runtime (R.heap_load w)

  unfoldable pub assign : ℕ → ℕ → M W (Unit {0})
  assign w value = do
    s ← get_state
    p ← to_pointer w
    if in_stack s p then store p value else (call_runtime (R.heap_store w value) >>= λ _. pure tt)

  -- `*ptr_z = *ptr_i`
  unfoldable pub copy_word : ℕ → ℕ → M W (Unit {0})
  copy_word ptr_z ptr_i = do value ← deref ptr_i; assign ptr_z value

  -- The branch of `stack_sta` for an index.
  unfoldable pub store_element : ℕ → ℕ → M W (Unit {0})
  store_element i z = do x ← peek_op; pop_op; _ ← call_runtime (R.b_sta x i z); pure tt

  unfoldable pub stack_sta : M W (Unit {0})
  stack_sta = do
    consume0
    z ← peek_op
    pop_op
    i ← peek_op
    pop_op
    if is_boxed_int i then store_element i z else copy_word z i
    push_op z

  unfoldable pub stack_sti : M W (Unit {0})
  stack_sti = do
    consume0
    z ← peek_op
    pop_op
    i ← peek_op
    pop_op
    if is_boxed_int i then throw Error.sti_not_variable else copy_word z i
    push_op z
