-- ===== src/Interp/Depth/Differs.antt =====
-- The instructions that move the stack otherwise than `get_new_stack` says.
use lama_sm_interpreter.Prelude.{ℕ, ◌+◌, ◌<◌, ◌≡◌, refl, Bool}
use lama_sm_interpreter.Result.{ok}
use lama_sm_interpreter.Word.{wrap32}
use lama_sm_interpreter.Instruction.{InstructionType}
use lama_sm_interpreter.Verifier.Effect.{get_new_stack}
use lama_sm_interpreter.Machine.{State}
use lama_sm_interpreter.Interp.Runtime.{Runtime}
use lama_sm_interpreter.Interp.Loop.{run_instruction}
use lama_sm_interpreter.Interp.Values.{call_string}
use lama_sm_interpreter.Interp.Depth.{call_string-Effect}
use lama_sm_interpreter.Interp.Depth.Verified.{DepthGoes, DepthGoes-Moves, goes_on-ok}

module _ {W : Type 0} (R : Runtime W) (s s' : State W) (d : ℕ) (b : Bool) where
  -- CALL_STRING, on a stack that does not start at address 0, where it runs without an exception,
  -- leaves the number of operands as it was, while
  -- `get_new_stack` counts one more.
  pub call_string-differs :
      0 < s.stack_data
      → run_instruction R InstructionType.call_string s ≡ ok (b, s')
      → DepthGoes s s' d d
        × (get_new_stack s.bf d s.code_ptr InstructionType.call_string ≡ ok (wrap32 (d + 1)))
  unfolding run_instruction get_new_stack
  call_string-differs placed h =
      let moves = call_string-Effect R s s' tt placed (goes_on-ok (call_string R) s s' b h) in
      (DepthGoes-Moves 1 1 d d s s' moves refl, refl)
