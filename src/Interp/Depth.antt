-- ===== src/Interp/Depth.antt =====
-- The number of words that each handler takes off the stack and puts on it.
pub mod Arguments
pub mod Verified
pub mod Differs
pub mod Closures
use lama_sm_interpreter.Prelude.{
  ℕ, zero, suc, ◌+◌, ◌%◌, ◌≡◌, ◌≢◌, refl, ◌<◌, arith, Bool, true, false, if◌then◌else◌, not, ◌==◌,
  ◌&&◌, List, [], ◌∷◌, length,
}
use mathlib.Core.List.{reverse}
use lama_sm_interpreter.Result.{Result, ok, err, Error}
use lama_sm_interpreter.Instruction.{MemVar, BinOp, Patt}
use lama_sm_interpreter.Machine.{State, M, ◌>>=◌, ◌>>◌, pure, throw, get_state, consume0, consume1}
use lama_sm_interpreter.Machine.Frames.{push_op, peek_op, pop_op}
use lama_sm_interpreter.Interp.Runtime.{Runtime}
use lama_sm_interpreter.Interp.Stack.{
  stack_dup, stack_swap, stack_drop, stack_const, stack_sta, stack_sti, deref, assign, copy_word,
  store_element,
}
use lama_sm_interpreter.Interp.Memory.{
  get_closure, set_closure, get_variable, set_variable, variable_link, mem_load, mem_store,
  stack_lda,
}
use lama_sm_interpreter.Interp.Control.{jump, jump_if_zero, jump_if_not_zero, helper_line}
use lama_sm_interpreter.Interp.Values.{
  unboxing_tag, unboxing_array, call_read, call_write, call_length, call_string, call_elem,
  test_patt, patt, boxing_string,
}
use lama_sm_interpreter.Interp.Binop.{boxed_unboxed, boxed, apply_bin_op, binop_interpeter}
use lama_sm_interpreter.Interp.Moves.{
  Effect, effects, quiet, popped, pushed, throw-Effect, pure-Effect, if-Effect, consume0-Effect,
  consume2-Effect, get_string_ptr-Effect, peek_op-Effect, push_op-Effect, call_runtime-Effect,
}

module _ {W : Type 0} (R : Runtime W) where
  pub get_closure-Effect : (i : ℕ) → Effect 0 0 (get_closure R i)
  unfolding get_closure
  get_closure-Effect i = search effects depth 8

  set_closure-Effect : (i v : ℕ) → Effect 0 0 (set_closure R i v)
  unfolding set_closure
  set_closure-Effect i v = search effects depth 8

  get_variable-Effect : (q : MemVar) (i : ℕ) (e : Error) → Effect 0 0 (get_variable R q i e)
  unfolding get_variable
  get_variable-Effect MemVar.global i e = search effects depth 8
  get_variable-Effect MemVar.local i e = search effects depth 8
  get_variable-Effect MemVar.argument i e = search effects depth 8
  get_variable-Effect MemVar.closure i e = get_closure-Effect i
  get_variable-Effect (MemVar.other c) i e = search effects depth 8

  set_variable-Effect : (q : MemVar) (i v : ℕ) → Effect 0 0 (set_variable R q i v)
  unfolding set_variable
  set_variable-Effect MemVar.global i v = search effects depth 8
  set_variable-Effect MemVar.local i v = search effects depth 8
  set_variable-Effect MemVar.argument i v = search effects depth 8
  set_variable-Effect MemVar.closure i v = set_closure-Effect i v
  set_variable-Effect (MemVar.other c) i v = search effects depth 8

  variable_link-Effect : (q : MemVar) (i : ℕ) → Effect 0 0 (variable_link R q i)
  unfolding variable_link
  variable_link-Effect MemVar.global i = search effects depth 8
  variable_link-Effect MemVar.local i = search effects depth 8
  variable_link-Effect MemVar.argument i = search effects depth 8
  variable_link-Effect MemVar.closure i = get_closure-Effect i
  variable_link-Effect (MemVar.other c) i = search effects depth 8

  deref-Effect : (w : ℕ) → Effect 0 0 (deref R w)
  unfolding deref
  deref-Effect w = search effects depth 8

  assign-Effect : (w v : ℕ) → Effect 0 0 (assign R w v)
  unfolding assign
  assign-Effect w v = search effects depth 8

  copy_word-Effect : (z i : ℕ) → Effect 0 0 (copy_word R z i)
  unfolding copy_word
  copy_word-Effect z i = search (effects, deref-Effect, assign-Effect) depth 8

  pub stack_dup-Effect : Effect {W = W} 0 1 stack_dup
  unfolding stack_dup
  stack_dup-Effect = search effects depth 14

  pub stack_drop-Effect : Effect {W = W} 1 0 stack_drop
  unfolding stack_drop
  stack_drop-Effect = search effects depth 14

  pub stack_const-Effect : Effect {W = W} 0 1 stack_const
  unfolding stack_const
  stack_const-Effect = search effects depth 14

  pub stack_swap-Effect : Effect {W = W} 2 2 stack_swap
  unfolding stack_swap
  stack_swap-Effect = quiet consume0-Effect λ _.
      quiet peek_op-Effect
        λ a. popped λ _. quiet peek_op-Effect λ b. popped λ _. pushed a λ _. push_op-Effect b

  pub mem_load-Effect : Effect 0 1 (mem_load R)
  unfolding mem_load
  mem_load-Effect = search (effects, get_variable-Effect) depth 14

  pub mem_store-Effect : Effect 0 0 (mem_store R)
  unfolding mem_store
  mem_store-Effect = search (effects, set_variable-Effect) depth 14

  pub stack_lda-Effect : Effect 0 1 (stack_lda R)
  unfolding stack_lda
  stack_lda-Effect = search (effects, variable_link-Effect) depth 14

  pub jump-Effect : Effect {W = W} 0 0 jump
  unfolding jump
  jump-Effect = search effects depth 14

  pub jump_if_zero-Effect : Effect {W = W} 1 0 jump_if_zero
  unfolding jump_if_zero
  jump_if_zero-Effect = search effects depth 14

  pub jump_if_not_zero-Effect : Effect {W = W} 1 0 jump_if_not_zero
  unfolding jump_if_not_zero
  jump_if_not_zero-Effect = search effects depth 14

  pub helper_line-Effect : Effect {W = W} 0 0 helper_line
  unfolding helper_line
  helper_line-Effect = search effects depth 14

  pub unboxing_tag-Effect : Effect 1 1 (unboxing_tag R)
  unfolding unboxing_tag
  unboxing_tag-Effect = quiet consume2-Effect λ _. quiet (get_string_ptr-Effect _) λ _.
      quiet peek_op-Effect λ _. popped λ _.
        quiet (call_runtime-Effect _) λ _. quiet (call_runtime-Effect _) λ res. push_op-Effect res

  pub unboxing_array-Effect : Effect 1 1 (unboxing_array R)
  unfolding unboxing_array
  unboxing_array-Effect = search effects depth 14

  pub call_read-Effect : Effect 0 1 (call_read R)
  unfolding call_read
  call_read-Effect = search effects depth 14

  pub call_write-Effect : Effect 0 0 (call_write R)
  unfolding call_write
  call_write-Effect = search effects depth 14

  pub call_length-Effect : Effect 1 1 (call_length R)
  unfolding call_length
  call_length-Effect = search effects depth 14

  pub call_string-Effect : Effect 1 1 (call_string R)
  unfolding call_string
  call_string-Effect = search effects depth 14

  pub call_elem-Effect : Effect 2 1 (call_elem R)
  unfolding call_elem
  call_elem-Effect = quiet consume0-Effect λ _. quiet peek_op-Effect λ _. popped λ _.
      quiet peek_op-Effect λ _. popped λ _. quiet (call_runtime-Effect _) λ res. push_op-Effect res

  pub boxing_string-Effect : Effect {W = W} 0 1 boxing_string
  unfolding boxing_string
  boxing_string-Effect = search effects depth 14

  -- STI takes two words off, and puts one on.
  pub stack_sti-Effect : Effect 2 1 (stack_sti R)
  unfolding stack_sti
  stack_sti-Effect = quiet consume0-Effect λ _. quiet peek_op-Effect λ z. popped λ _.
      quiet peek_op-Effect λ i.
        popped
          λ _. quiet (if-Effect _ (throw-Effect 0 0 _) (copy_word-Effect z i)) λ _. push_op-Effect z

  pub test_patt-Effect : (q : Patt) → q ≢ Patt.str_cmp → Effect 0 0 (test_patt R q)
  unfolding test_patt
  test_patt-Effect Patt.str_cmp h = absurd (h refl)
  test_patt-Effect (Patt.other c) h = throw-Effect 0 0 _
  test_patt-Effect _ h = quiet peek_op-Effect λ p. call_runtime-Effect _

  pub test_str_cmp-Effect : Effect 1 0 (test_patt R Patt.str_cmp)
  unfolding test_patt
  test_str_cmp-Effect =
      quiet peek_op-Effect λ _. popped λ _. quiet peek_op-Effect λ _. call_runtime-Effect _

module _ {W : Type 0} where
  boxed_unboxed-Effect : (op : BinOp) → Effect {W = W} 2 1 (boxed_unboxed op)
  unfolding boxed_unboxed
  boxed_unboxed-Effect op = quiet peek_op-Effect λ _. popped λ _. quiet peek_op-Effect λ _.
      popped λ _. quiet (if-Effect _ (throw-Effect 0 0 _) (pure-Effect tt)) λ _. push_op-Effect _

  boxed-Effect : (op : BinOp) → Effect {W = W} 2 1 (boxed op)
  unfolding boxed
  boxed-Effect op =
      quiet peek_op-Effect λ _. popped λ _. quiet peek_op-Effect λ _. popped λ _. push_op-Effect _

  apply_bin_op-Effect : (op : BinOp) → Effect {W = W} 2 1 (apply_bin_op op)
  unfolding apply_bin_op
  apply_bin_op-Effect BinOp.eq = boxed-Effect BinOp.eq
  apply_bin_op-Effect BinOp.neq = boxed-Effect BinOp.neq
  apply_bin_op-Effect (BinOp.other c) = throw-Effect 2 1 _
  apply_bin_op-Effect op = boxed_unboxed-Effect _

  pub binop_interpeter-Effect : Effect {W = W} 2 1 binop_interpeter
  unfolding binop_interpeter
  binop_interpeter-Effect = quiet consume0-Effect λ c. apply_bin_op-Effect _
