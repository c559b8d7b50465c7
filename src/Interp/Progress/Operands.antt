-- ===== src/Interp/Progress/Operands.antt =====
-- The handlers of the instructions that work on the operands, and of the jumps: they run without an
-- exception.
use lama_sm_interpreter.Prelude.{ℕ, ◌+◌, ◌-◌, ◌≤◌, ◌<◌, ◌≡◌, refl, not, ◌==◌, if◌then◌else◌, arith}
use lama_sm_interpreter.Result.{ok}
use lama_sm_interpreter.Word.Boxing.{box_int}
use lama_sm_interpreter.Bytefile.{code_byte}
use lama_sm_interpreter.Instruction.{
  binop, const, jmp, drop, dup, swap, cjmp_z, cjmp_nz, line, BinOp, to_bin_op, low_bits,
}
use lama_sm_interpreter.Machine.{State, ◌>>=◌, update, load, store, consume0, consume1}
use lama_sm_interpreter.Machine.Access.{load_lem, store_lem}
use lama_sm_interpreter.Machine.Frames.{push_op, peek_op, pop_op}
use lama_sm_interpreter.Interp.Runtime.{Runtime}
use lama_sm_interpreter.Interp.Stack.{stack_dup, stack_drop, stack_const, stack_swap}
use lama_sm_interpreter.Interp.Control.{jump, jump_if_zero, jump_if_not_zero, helper_line}
use lama_sm_interpreter.Interp.Binop.Correct.{word_of, binop_interpeter_lem}
use lama_sm_interpreter.Interp.Loop.{run_instruction}
use lama_sm_interpreter.Interp.Progress.{Frame, HasArgument, IsTotal, GoesOn}
use lama_sm_interpreter.Interp.Progress.Kept.{moved-Keeps, update-Keeps}

IsTotal-word_of : (op : BinOp) (x y : ℕ) → IsTotal op → (v : ℕ) × (word_of op x y ≡ ok v)
IsTotal-word_of BinOp.div x y h = elim h [ ]
IsTotal-word_of BinOp.mod' x y h = elim h [ ]
IsTotal-word_of (BinOp.other c) x y h = elim h [ ]
IsTotal-word_of op x y h = (_, refl)

module _ {W : Type 0} (R : Runtime W) (n_args n_locals deepest d c : ℕ) (s : State W)
    (f : Frame n_args n_locals deepest d s) (deep : d ≤ deepest)
    (byte : code_byte s.bf s.code_ptr ≡ ok c) where
  pub drop-GoesOn : GoesOn R n_args drop s
  unfolding run_instruction stack_drop consume0 pop_op
  drop-GoesOn = (
    record s { code_ptr = s.code_ptr + 1; top = s.top + 1 },
    rw (byte, ◌>>=◌),
    moved-Keeps n_args s _ _,
  )

  pub const-GoesOn : d < deepest → HasArgument s.bf s.code_ptr → GoesOn R n_args const s
  unfolding run_instruction stack_const consume1 push_op store
  const-GoesOn more (arg, e) = (
    record s {
      code_ptr = s.code_ptr + 5;
      top = s.top - 1;
      cells = update s.cells s.top (box_int arg);
    },
    ground (arith, byte, e, f.room, f.operands, f.args),
    update-Keeps n_args s _ _ _ _ (omega (arith, f.operands)),
  )

  pub dup-GoesOn : d < deepest → 1 ≤ d → GoesOn R n_args dup s
  unfolding run_instruction stack_dup consume0 push_op peek_op load store
  dup-GoesOn more some = (
    record s {
      code_ptr = s.code_ptr + 1;
      top = s.top - 1;
      cells = update s.cells s.top (s.cells (s.top + 1));
    },
    ground (arith, byte, f.room, f.operands, f.args),
    update-Keeps n_args s _ _ _ _ (omega (arith, f.operands)),
  )

  pub swap-GoesOn : 2 ≤ d → GoesOn R n_args swap s
  unfolding run_instruction stack_swap consume0 push_op peek_op pop_op
  swap-GoesOn some =
      let first : ℕ = s.cells (s.top + 1) in
      let s₁ : State W = record s { code_ptr = s.code_ptr + 1 } in
      let s₂ : State W = record s₁ { top = s.top + 1 } in
      let s₃ : State W = record s₁ { top = s.top + 1 + 1 } in
      let cells = update s.cells (s.top + 1 + 1) first in
      let s₄ : State W = record s₁ { top = s.top + 1 + 1 - 1; cells = cells } in
      (
        record s₁ {
          top = s.top + 1 + 1 - 1 - 1;
          cells = update cells (s.top + 1 + 1 - 1) (s.cells (s.top + 1 + 1));
        },
        rw (
          byte,
          ◌>>=◌,
          load_lem (s.top + 1) s₁ (omega (arith, f.room)) (omega (arith, f.operands, f.args)),
          load_lem (s.top + 1 + 1) s₂ (omega (arith, f.room)) (omega (arith, f.operands, f.args)),
          store_lem (s.top + 1 + 1) s₃ first (omega (arith, f.room))
              (omega (arith, f.operands, f.args)),
          store_lem (s.top + 1 + 1 - 1) s₄ (s.cells (s.top + 1 + 1)) (omega (arith, f.room))
              (omega (arith, f.operands, f.args)),
        ),
        record {
          counter = refl;
          sizes = refl;
          start = refl;
          words = λ p a b. ground (arith, f.operands);
          above = λ p a b. ground (arith, f.operands);
        },
      )

  pub jump-GoesOn : HasArgument s.bf s.code_ptr → GoesOn R n_args jmp s
  unfolding run_instruction jump consume1
  jump-GoesOn (arg, e) =
      (record s { code_ptr = arg }, rw (byte, ◌>>=◌, e), moved-Keeps n_args s _ _)

  pub line-GoesOn : HasArgument s.bf s.code_ptr → GoesOn R n_args line s
  unfolding run_instruction helper_line consume1
  line-GoesOn (arg, e) =
      (record s { code_ptr = s.code_ptr + 5 }, rw (byte, ◌>>=◌, e), moved-Keeps n_args s _ _)

  pub jump_if_zero-GoesOn : 1 ≤ d → HasArgument s.bf s.code_ptr → GoesOn R n_args cjmp_z s
  unfolding run_instruction jump_if_zero consume1 peek_op pop_op load
  jump_if_zero-GoesOn some (arg, e) = (
    record s {
      code_ptr = if s.cells (s.top + 1) == box_int 0 then arg else s.code_ptr + 5;
      top = s.top + 1;
    },
    ground (arith, byte, e, f.room, f.operands, f.args),
    moved-Keeps n_args s _ _,
  )

  pub jump_if_not_zero-GoesOn : 1 ≤ d → HasArgument s.bf s.code_ptr → GoesOn R n_args cjmp_nz s
  unfolding run_instruction jump_if_not_zero consume1 peek_op pop_op load
  jump_if_not_zero-GoesOn some (arg, e) = (
    record s {
      code_ptr = if not (s.cells (s.top + 1) == box_int 0) then arg else s.code_ptr + 5;
      top = s.top + 1;
    },
    ground (arith, byte, e, f.room, f.operands, f.args),
    moved-Keeps n_args s _ _,
  )

  pub binop-GoesOn : 2 ≤ d → IsTotal (to_bin_op (low_bits c)) → GoesOn R n_args binop s
  unfolding run_instruction
  binop-GoesOn some total =
      let x = s.cells (s.top + 2) in
      let y = s.cells (s.top + 1) in
      let (v, e) = IsTotal-word_of (to_bin_op (low_bits c)) x y total in
      let runs =
        binop_interpeter_lem s c (omega (arith, f.room)) (omega (arith, f.operands, f.args)) byte in
      (
        record s {
          code_ptr = s.code_ptr + 1;
          top = s.top + 1;
          cells = update s.cells (s.top + 2) v;
        },
        rw (runs, ◌>>=◌, e),
        update-Keeps n_args s _ _ _ _ (omega (arith, f.operands)),
      )
