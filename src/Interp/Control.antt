-- ===== src/Interp/Control.antt =====
-- src/single_interpreters: jump_interpreters.hpp, call_stack_interpreters.hpp and
-- helper_interpreters.hpp.
pub mod Calls
use lama_sm_interpreter.Prelude.{ℕ, ◌+◌, ◌-◌, ◌/◌, Bool, true, false, not, ltb, ◌==◌, if◌then◌else◌}
use lama_sm_interpreter.Result.{Error}
use lama_sm_interpreter.Word.Boxing.{box_int}
use lama_sm_interpreter.Machine.{
  M, ◌>>=◌, ◌>>◌, pure, throw, get_state, set_code_ptr, consume0, consume1, consume2,
}
use lama_sm_interpreter.Machine.Frames.{
  push_op, peek_op, pop_op, push_stack_frame, pop_stack_frame, reserve_locals,
}

unfoldable pub jump : {W : Type 0} → M W (Unit {0})
jump = do (_, target) ← consume1; set_code_ptr target

unfoldable pub jump_if_zero : {W : Type 0} → M W (Unit {0})
jump_if_zero = do
  (_, target) ← consume1
  val ← peek_op
  pop_op
  if val == box_int 0 then set_code_ptr target else pure tt

unfoldable pub jump_if_not_zero : {W : Type 0} → M W (Unit {0})
jump_if_not_zero = do
  (_, target) ← consume1
  val ← peek_op
  pop_op
  if not (val == box_int 0) then set_code_ptr target else pure tt

-- The verifier has put the deepest stack of the function into the upper half of the first
-- argument. The offset in the message is that of the instruction.
unfoldable pub call_stack_begin : {W : Type 0} → M W (Unit {0})
call_stack_begin = do
  start ← get_state
  (_, arg, n_locals) ← consume2
  s ← get_state
  if ltb (s.top + 1) (s.stack_data + arg / 65536 + n_locals)
      then throw (Error.stack_overflow start.code_ptr)
      else pure tt
  reserve_locals n_locals

-- Behind the `return true` of `call_stack_end`: a return address is an address of the code.
unfoldable pub return_to : {W : Type 0} → ℕ → ℕ → M W Bool
return_to code_ptr val = do
  s ← get_state
  if ltb code_ptr s.code_start then throw Error.fault else set_code_ptr (code_ptr - s.code_start)
  push_op val
  pure false

unfoldable pub call_stack_end : {W : Type 0} → M W Bool
call_stack_end = do
  consume0
  val ← peek_op
  code_ptr ← pop_stack_frame
  if code_ptr == 0 then pure true else return_to code_ptr val

unfoldable pub call_stack_call : {W : Type 0} → M W (Unit {0})
call_stack_call = do
  (_, target, nargs) ← consume2
  s ← get_state
  push_stack_frame nargs (s.code_start + s.code_ptr) 0
  set_code_ptr target

unfoldable pub helper_line : {W : Type 0} → M W (Unit {0})
helper_line = do _ ← consume1; pure tt

unfoldable pub helper_fail : {W : Type 0} → M W (Unit {0})
helper_fail = do (_, line, _) ← consume2; throw (Error.matching_failure line)
