-- ===== src/Interp/Values.antt =====
-- src/single_interpreters: boxing_interpreters.hpp, unboxing_interpreters.hpp,
-- builtin_interpreters.hpp and patt.hpp.
use lama_sm_interpreter.Prelude.{ℕ, ◌+◌, if◌then◌else◌}
use lama_sm_interpreter.Result.{Error}
use lama_sm_interpreter.Word.{wrap32}
use lama_sm_interpreter.Word.Boxing.{box_int, is_boxed_int}
use lama_sm_interpreter.Instruction.{Patt, to_patt, low_bits}
use lama_sm_interpreter.Machine.{
  M, ◌>>=◌, ◌>>◌, pure, throw, get_state, consume0, consume1, consume2,
}
use lama_sm_interpreter.Machine.Frames.{
  push_op, peek_op, pop_op, pop_ops, reverse_range, get_string_ptr,
}
use lama_sm_interpreter.Interp.Runtime.{Runtime, call_runtime}

module _ {W : Type 0} (R : Runtime W) where
  -- `boxing_sexp` behind the decoding; `n_args` counts the tag's hash.
  unfoldable pub build_sexp : ℕ → ℕ → M W (Unit {0})
  build_sexp tag n_args = do
    tag_ptr ← get_string_ptr tag
    hash ← call_runtime (R.l_tag_hash tag_ptr)
    push_op hash
    s ← get_state
    res ← call_runtime (R.b_sexp (s.top + 1) (box_int n_args))
    pop_ops n_args
    push_op res

  unfoldable pub boxing_sexp : M W (Unit {0})
  boxing_sexp = do (_, tag, args) ← consume2; build_sexp tag (wrap32 (args + 1))

  unfoldable pub unboxing_tag : M W (Unit {0})
  unboxing_tag = do
    (_, tag, n) ← consume2
    tag_ptr ← get_string_ptr tag
    ptr ← peek_op
    pop_op
    hash ← call_runtime (R.l_tag_hash tag_ptr)
    res ← call_runtime (R.b_tag ptr hash (box_int n))
    push_op res

  -- `Barray_patt` is declared with an `int`, so its second argument keeps 32 bits.
  unfoldable pub unboxing_array : M W (Unit {0})
  unboxing_array = do
    (_, n) ← consume1
    ptr ← peek_op
    pop_op
    res ← call_runtime (R.b_array_patt ptr (wrap32 (box_int n)))
    push_op res

  unfoldable pub call_read : M W (Unit {0})
  call_read = do consume0; val ← call_runtime R.l_read; push_op val

  unfoldable pub call_write : M W (Unit {0})
  call_write = do consume0; val ← peek_op; _ ← call_runtime (R.l_write val); pure tt

  unfoldable pub call_length : M W (Unit {0})
  call_length = do consume0; val ← peek_op; pop_op; res ← call_runtime (R.l_length val); push_op res

  unfoldable pub call_string : M W (Unit {0})
  call_string = do
    consume0
    a ← peek_op
    s ← get_state
    res ← call_runtime (if is_boxed_int a then R.l_string_at (s.top + 1) else R.l_string a)
    pop_op
    push_op res

  -- `call_array` behind the decoding.
  unfoldable pub build_array : ℕ → M W (Unit {0})
  build_array n_args = do
    s ← get_state
    reverse_range (s.top + 1) (s.top + 1 + n_args)
    res ← call_runtime (R.b_array (s.top + 1) (box_int n_args))
    pop_ops n_args
    push_op res

  unfoldable pub call_array : M W (Unit {0})
  call_array = do (_, n_args) ← consume1; build_array n_args

  unfoldable pub call_elem : M W (Unit {0})
  call_elem = do
    consume0
    a ← peek_op
    pop_op
    b ← peek_op
    pop_op
    res ← call_runtime (R.b_elem b a)
    push_op res

  -- The `switch` of `patt`: the tests leave the operand in place, `str_cmp` pops one of its two.
  unfoldable pub test_patt : Patt → M W ℕ
  test_patt Patt.closure = do p ← peek_op; call_runtime (R.b_closure_tag_patt p)
  test_patt Patt.str_cmp = do
    str1_ptr ← peek_op
    pop_op
    str2_ptr ← peek_op
    call_runtime (R.b_string_patt str1_ptr str2_ptr)
  test_patt Patt.boxed = do p ← peek_op; call_runtime (R.b_boxed_patt p)
  test_patt Patt.un_boxed = do p ← peek_op; call_runtime (R.b_unboxed_patt p)
  test_patt Patt.array = do p ← peek_op; call_runtime (R.b_array_tag_patt p)
  test_patt Patt.string = do p ← peek_op; call_runtime (R.b_string_tag_patt p)
  test_patt Patt.sexp = do p ← peek_op; call_runtime (R.b_sexp_tag_patt p)
  test_patt (Patt.other c) = throw Error.invalid_patt

  unfoldable pub patt : M W (Unit {0})
  patt = do c ← consume0; is_patt ← test_patt (to_patt (low_bits c)); pop_op; push_op is_patt

unfoldable pub boxing_string : {W : Type 0} → M W (Unit {0})
boxing_string = do (_, index) ← consume1; string_ptr ← get_string_ptr index; push_op string_ptr
