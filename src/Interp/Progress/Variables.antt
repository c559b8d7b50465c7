-- ===== src/Interp/Progress/Variables.antt =====
-- The handlers of LD, LDA and ST of a variable that is not one of a closure: they run without an
-- exception.
use lama_sm_interpreter.Prelude.{ℕ, ◌+◌, ◌-◌, ◌≤◌, ◌<◌, ◌≡◌, refl, inl, inr, arith}
use lama_sm_interpreter.Result.{ok, Error}
use lama_sm_interpreter.Bytefile.{code_byte}
use lama_sm_interpreter.Instruction.{ld, lda, st, to_mem_var, low_bits}
use lama_sm_interpreter.Machine.{of_pointer, State, ◌>>=◌, update, consume1}
use lama_sm_interpreter.Machine.Access.{load_lem, store_lem}
use lama_sm_interpreter.Machine.Frames.{push_op, peek_op}
use lama_sm_interpreter.Interp.Runtime.{Runtime}
use lama_sm_interpreter.Interp.Memory.{mem_load, mem_store, stack_lda}
use lama_sm_interpreter.Interp.Loop.{run_instruction}
use lama_sm_interpreter.Interp.Progress.{Frame, NamesVariable, GoesOn}
use lama_sm_interpreter.Interp.Progress.Kept.{update-Keeps}
use lama_sm_interpreter.Interp.Progress.Access.{
  link, keeps_link, get_variable-ok, set_variable-ok, variable_link-ok,
}

module _ {W : Type 0} (R : Runtime W) (n_args n_locals deepest d c : ℕ) (s : State W)
    (f : Frame n_args n_locals deepest d s) (deep : d ≤ deepest)
    (byte : code_byte s.bf s.code_ptr ≡ ok c) where
  -- The variables. `s₁` is behind the decoding.
  abbrev s₁ : State W
  s₁ = record s { code_ptr = s.code_ptr + 5 }

  pub load-GoesOn :
      d < deepest → NamesVariable s.bf s.code_ptr c n_args n_locals → GoesOn R n_args ld s
  unfolding run_instruction mem_load consume1 push_op
  load-GoesOn more (index, e, x) =
      let v = to_mem_var (low_bits c) in
      let value = s.cells (link R n_args n_locals deepest d s f deep (s.code_ptr + 5) v index) in
      (
        record s₁ { top = s.top - 1; cells = update s.cells s.top value },
        rw (
          byte,
          ◌>>=◌,
          e,
          get_variable-ok R n_args n_locals deepest d s f deep (s.code_ptr + 5) v index
              Error.invalid_load x,
          store_lem s.top s₁ value (omega (arith, f.room)) (omega (arith, f.operands, f.args)),
        ),
        update-Keeps n_args s _ _ _ _ (omega (arith, f.operands)),
      )

  pub store-GoesOn : 1 ≤ d → NamesVariable s.bf s.code_ptr c n_args n_locals → GoesOn R n_args st s
  unfolding run_instruction mem_store consume1 peek_op
  store-GoesOn some (index, e, x) =
      let v = to_mem_var (low_bits c) in
      let value = s.cells (s.top + 1) in
      (
        record s₁ {
          cells =
              update s.cells (link R n_args n_locals deepest d s f deep (s.code_ptr + 5) v index)
                value;
        },
        rw (
          byte,
          ◌>>=◌,
          e,
          load_lem (s.top + 1) s₁ (omega (arith, f.room)) (omega (arith, f.operands, f.args)),
          set_variable-ok R n_args n_locals deepest d s f deep (s.code_ptr + 5) v index value x,
        ),
        record {
          counter = refl;
          sizes = refl;
          start = refl;
          words = λ p a b.
              keeps_link R n_args n_locals deepest d s f deep (s.code_ptr + 5) v index value x p
                (inl (a, b));
          above = λ p a b.
              keeps_link R n_args n_locals deepest d s f deep (s.code_ptr + 5) v index value x p
                (inr (a, b));
        },
      )

  pub link-GoesOn :
      d < deepest → NamesVariable s.bf s.code_ptr c n_args n_locals → GoesOn R n_args lda s
  unfolding run_instruction stack_lda consume1 push_op
  link-GoesOn more (index, e, x) =
      let v = to_mem_var (low_bits c) in
      let value = of_pointer (link R n_args n_locals deepest d s f deep (s.code_ptr + 5) v index) in
      (
        record s₁ { top = s.top - 1; cells = update s.cells s.top value },
        rw (
          byte,
          ◌>>=◌,
          e,
          variable_link-ok R n_args n_locals deepest d s f deep (s.code_ptr + 5) v index x,
          store_lem s.top s₁ value (omega (arith, f.room)) (omega (arith, f.operands, f.args)),
        ),
        update-Keeps n_args s _ _ _ _ (omega (arith, f.operands)),
      )
