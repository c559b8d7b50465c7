-- ===== src/Interp/Flow/Advances.antt =====
-- A handler that consumes an instruction and then leaves the decoder alone ends behind the
-- instruction, which lies in the code.
use lama_sm_interpreter.Prelude.{ℕ, ◌+◌, ◌≤◌, ◌≡◌, ◌∙◌, arith}
use lama_sm_interpreter.Result.{ok}
use lama_sm_interpreter.Bytefile.{code_byte, code_u32}
use lama_sm_interpreter.Bytefile.Bounds.{IsUnpacked, code_byte-lt, code_u32-lt}
use lama_sm_interpreter.Machine.{State, M, ◌>>=◌, consume0, consume1, consume2}
use lama_sm_interpreter.Interp.Runtime.{Runtime}
use lama_sm_interpreter.Interp.Stack.{stack_dup, stack_drop, stack_const, stack_swap, stack_sti}
use lama_sm_interpreter.Interp.Memory.{mem_load, mem_store, stack_lda}
use lama_sm_interpreter.Interp.Control.{helper_line}
use lama_sm_interpreter.Interp.Values.{
  boxing_sexp, boxing_string, unboxing_tag, unboxing_array, call_read, call_write, call_length,
  call_array, call_elem, patt,
}
use lama_sm_interpreter.Interp.Binop.{binop_interpeter}
use lama_sm_interpreter.Interp.Moves.{bind-ok}
use lama_sm_interpreter.Interp.Flow.{
  Stays, stays, bind-Stays, pure-Stays, get_string_ptr-Stays, peek_op-Stays, pop_op-Stays,
  push_op-Stays, get_variable-Stays, set_variable-Stays, variable_link-Stays, copy_word-Stays,
  build_sexp-Stays, build_array-Stays, test_patt-Stays, apply_bin_op-Stays,
}

-- A successful run of `m` moves the decoder over `n` bytes of the code.
abbrev pub Advances : {W A : Type 0} → ℕ → M W A → Type 0
Advances {W} {A} n m =
    (s s' : State W) (a : A)
    → IsUnpacked s.bf
    → m s ≡ ok (a, s')
    → (s'.code_ptr ≡ s.code_ptr + n) × (s.code_ptr + n ≤ s.bf.code_size)

module _ {W : Type 0} where
  pub consume0-Advances : Advances {W = W} 1 consume0
  unfolding consume0
  consume0-Advances s s' c u h =
      let read : code_byte s.bf s.code_ptr ≡ ok c = ground arith in
      (ground arith, omega (arith, code_byte-lt s.bf s.code_ptr c u read))

  pub consume1-Advances : Advances {W = W} 5 consume1
  unfolding consume1
  consume1-Advances s s' (c, a) u h =
      let read : code_u32 s.bf (s.code_ptr + 1) ≡ ok a = ground arith in
      (ground arith, omega (arith, code_u32-lt s.bf (s.code_ptr + 1) a u read))

  pub consume2-Advances : Advances {W = W} 9 consume2
  unfolding consume2
  consume2-Advances s s' (c, a, b) u h =
      let read : code_u32 s.bf (s.code_ptr + (1 + 4)) ≡ ok b = ground arith in
      (ground arith, omega (arith, code_u32-lt s.bf (s.code_ptr + (1 + 4)) b u read))

  pub after :
      {A B : Type 0} (n : ℕ) {m : M W A} {f : A → M W B}
      → Advances n m
      → ((a : A) → Stays (f a))
      → Advances n (m >>= f)
  after n {m} {f} em ef s t b u h =
      let (a, s', e₁, e₂) = bind-ok m f s t b h in
      let (ptr, inside) = em s s' a u e₁ in (ef a s' t b e₂ ∙ ptr, inside)

  pub stack_dup-Advances : Advances {W = W} 1 stack_dup
  unfolding stack_dup
  stack_dup-Advances = after 1 consume0-Advances λ _. search stays depth 8

  pub stack_drop-Advances : Advances {W = W} 1 stack_drop
  unfolding stack_drop
  stack_drop-Advances = after 1 consume0-Advances λ _. pop_op-Stays

  pub stack_const-Advances : Advances {W = W} 5 stack_const
  unfolding stack_const
  stack_const-Advances = after 5 consume1-Advances λ _. push_op-Stays _

  pub stack_swap-Advances : Advances {W = W} 1 stack_swap
  unfolding stack_swap
  stack_swap-Advances =
      after 1 consume0-Advances
        λ _. bind-Stays peek_op-Stays λ a. bind-Stays pop_op-Stays λ _. search stays depth 14

  pub helper_line-Advances : Advances {W = W} 5 helper_line
  unfolding helper_line
  helper_line-Advances = after 5 consume1-Advances λ _. pure-Stays _

  pub boxing_string-Advances : Advances {W = W} 5 boxing_string
  unfolding boxing_string
  boxing_string-Advances = after 5 consume1-Advances λ _. search stays depth 8

  pub binop_interpeter-Advances : Advances {W = W} 1 binop_interpeter
  unfolding binop_interpeter
  binop_interpeter-Advances = after 1 consume0-Advances λ c. apply_bin_op-Stays _

module _ {W : Type 0} (R : Runtime W) where
  pub stack_sti-Advances : Advances 1 (stack_sti R)
  unfolding stack_sti
  stack_sti-Advances = after 1 consume0-Advances λ _.
      bind-Stays peek_op-Stays
        λ z. bind-Stays pop_op-Stays λ _. search (stays, copy_word-Stays R) depth 14

  pub mem_load-Advances : Advances 5 (mem_load R)
  unfolding mem_load
  mem_load-Advances = after 5 consume1-Advances λ _. search (stays, get_variable-Stays R) depth 8

  pub mem_store-Advances : Advances 5 (mem_store R)
  unfolding mem_store
  mem_store-Advances = after 5 consume1-Advances λ _. search (stays, set_variable-Stays R) depth 8

  pub stack_lda-Advances : Advances 5 (stack_lda R)
  unfolding stack_lda
  stack_lda-Advances = after 5 consume1-Advances λ _. search (stays, variable_link-Stays R) depth 8

  pub boxing_sexp-Advances : Advances 9 (boxing_sexp R)
  unfolding boxing_sexp
  boxing_sexp-Advances = after 9 consume2-Advances λ _. build_sexp-Stays R _ _

  pub unboxing_tag-Advances : Advances 9 (unboxing_tag R)
  unfolding unboxing_tag
  unboxing_tag-Advances = after 9 consume2-Advances λ (_, tag, _).
      bind-Stays (get_string_ptr-Stays tag)
        λ _. bind-Stays peek_op-Stays λ _. bind-Stays pop_op-Stays λ _. search stays depth 14

  pub unboxing_array-Advances : Advances 5 (unboxing_array R)
  unfolding unboxing_array
  unboxing_array-Advances = after 5 consume1-Advances λ _. search stays depth 12

  pub call_read-Advances : Advances 1 (call_read R)
  unfolding call_read
  call_read-Advances = after 1 consume0-Advances λ _. search stays depth 8

  pub call_write-Advances : Advances 1 (call_write R)
  unfolding call_write
  call_write-Advances = after 1 consume0-Advances λ _. search stays depth 8

  pub call_length-Advances : Advances 1 (call_length R)
  unfolding call_length
  call_length-Advances = after 1 consume0-Advances λ _. search stays depth 12

  pub call_array-Advances : Advances 5 (call_array R)
  unfolding call_array
  call_array-Advances = after 5 consume1-Advances λ _. build_array-Stays R _

  pub call_elem-Advances : Advances 1 (call_elem R)
  unfolding call_elem
  call_elem-Advances =
      after 1 consume0-Advances
        λ _. bind-Stays peek_op-Stays λ _. bind-Stays pop_op-Stays λ _. search stays depth 14

  pub patt-Advances : Advances 1 (patt R)
  unfolding patt
  patt-Advances = after 1 consume0-Advances λ _. search (stays, test_patt-Stays R) depth 8
