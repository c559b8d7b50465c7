-- ===== src/Interp/Runtime.antt =====
-- The runtime library of Lama (runtime/, linked as runtime.a), as the interpreter calls it. Its code
-- is not modelled: its functions are the parameters of the model. A call is given the words of the
-- stack and its top, which the garbage collector walks through, and may change the words.
use lama_sm_interpreter.Prelude.{ℕ, List}
use lama_sm_interpreter.Result.{Result, ok, err}
use lama_sm_interpreter.Machine.{M}

-- What a call gives: the word that it returns, and what it has changed.
pub record Reply (W : Type 0) : Type 0 where
  pub value : ℕ
  pub cells : ℕ → ℕ
  pub world : W

-- A call, from the state of the runtime, the words of the stack and `__gc_stack_top`.
abbrev pub Call : Type 0 → Type 0
Call W = W → (ℕ → ℕ) → ℕ → Result (Reply W)

-- `b_sexp args bn` is `Bsexp(args, bn)`, with `args` a pointer to a word of the stack.
-- `heap_load` and `heap_store` are accesses through a pointer that leads outside of the stack.
pub record Runtime (W : Type 0) : Type 0 where
  pub b_sexp : ℕ → ℕ → Call W
  pub b_array : ℕ → ℕ → Call W
  pub b_closure : ℕ → ℕ → Call W
  pub b_string : List ℕ → Call W
  pub b_elem : ℕ → ℕ → Call W
  pub b_sta : ℕ → ℕ → ℕ → Call W
  pub b_tag : ℕ → ℕ → ℕ → Call W
  pub b_array_patt : ℕ → ℕ → Call W
  pub b_closure_tag_patt : ℕ → Call W
  pub b_string_patt : ℕ → ℕ → Call W
  pub b_boxed_patt : ℕ → Call W
  pub b_unboxed_patt : ℕ → Call W
  pub b_array_tag_patt : ℕ → Call W
  pub b_string_tag_patt : ℕ → Call W
  pub b_sexp_tag_patt : ℕ → Call W
  pub l_tag_hash : ℕ → Call W
  pub l_read : Call W
  pub l_write : ℕ → Call W
  pub l_length : ℕ → Call W
  -- `Lstring` reads its argument from a word of the stack, or from a new word.
  pub l_string_at : ℕ → Call W
  pub l_string : ℕ → Call W
  pub heap_load : ℕ → Call W
  pub heap_store : ℕ → ℕ → Call W

unfoldable pub call_runtime : {W : Type 0} → Call W → M W ℕ
call_runtime f s = elim (f s.world s.cells s.top) [
  | ok r ↦ ok (r.value, record s { cells = r.cells; world = r.world })
  | err e ↦ err e
]
