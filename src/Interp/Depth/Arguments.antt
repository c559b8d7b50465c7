-- ===== src/Interp/Depth/Arguments.antt =====
-- What the handlers consume, and the values that they build from as many words as an argument says.
use lama_sm_interpreter.Prelude.{ℕ, ◌+◌, ◌≤◌, ◌≡◌, arith}
use lama_sm_interpreter.Result.{ok}
use lama_sm_interpreter.Bytefile.{code_u32, code_byte}
use lama_sm_interpreter.Machine.{State, max_stack, consume0, consume1, consume2}
use lama_sm_interpreter.Machine.Frames.{reverse_range}
use lama_sm_interpreter.Interp.Runtime.{Runtime}
use lama_sm_interpreter.Interp.Values.{build_sexp, build_array}
use lama_sm_interpreter.Interp.Control.{helper_fail}
use lama_sm_interpreter.Interp.Moves.{
  Effect, bind-ok, quiet, pushed, popped_many, throw-Effect, get_state-Effect, consume2-Effect,
  get_string_ptr-Effect, reverse_range-Effect, push_op-Effect, call_runtime-Effect,
}

pub build_sexp-Effect : {W : Type 0} (R : Runtime W) (t n : ℕ) → Effect (n + 0) 2 (build_sexp R t n)
unfolding build_sexp
build_sexp-Effect R t n = quiet (get_string_ptr-Effect _) λ _. quiet (call_runtime-Effect _) λ hash.
    pushed hash λ _.
      quiet get_state-Effect
        λ s. quiet (call_runtime-Effect _) λ res. popped_many n λ _. push_op-Effect res

pub build_array-Effect : {W : Type 0} (R : Runtime W) (n : ℕ) → Effect (n + 0) 1 (build_array R n)
unfolding build_array
build_array-Effect R n = quiet get_state-Effect λ s.
    quiet (reverse_range-Effect _ _)
      λ _. quiet (call_runtime-Effect _) λ res. popped_many n λ _. push_op-Effect res

-- An array that was built had its elements on the stack.
pub build_array-le-max_stack :
    {W : Type 0} (R : Runtime W) (n : ℕ) (s s' : State W)
    → build_array R n s ≡ ok (tt, s')
    → n ≤ max_stack
unfolding build_array reverse_range
build_array-le-max_stack R n s s' h =
    let (u, t, e₁, e₂) = bind-ok (reverse_range (s.top + 1) (s.top + 1 + n)) _ s s' tt h in
    ground arith

pub helper_fail-Effect : {W : Type 0} → Effect {W = W} 0 0 helper_fail
unfolding helper_fail
helper_fail-Effect = quiet consume2-Effect λ _. throw-Effect 0 0 _

module _ {W : Type 0} (s s' : State W) where
  pub consume0-byte : (c : ℕ) → consume0 s ≡ ok (c, s') → code_byte s.bf s.code_ptr ≡ ok c
  unfolding consume0
  consume0-byte c h = ground arith

  pub consume1-args :
      (c n : ℕ) → consume1 s ≡ ok ((c, n), s') → code_u32 s.bf (s.code_ptr + 1) ≡ ok n
  unfolding consume1
  consume1-args c n h = ground arith

  pub consume2-args :
      (c t n : ℕ) → consume2 s ≡ ok ((c, t, n), s') → code_u32 s.bf (s.code_ptr + (1 + 4)) ≡ ok n
  unfolding consume2
  consume2-args c t n h = ground arith
