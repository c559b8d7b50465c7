-- ===== src/Interp/Progress.antt =====
-- The instructions that run without an exception in a frame as BEGIN leaves it, with enough operands,
-- whatever the operands are, and without the runtime.
pub mod Kept
pub mod Operands
pub mod Access
pub mod Variables
pub mod Handlers
pub mod Rounds
pub mod Bodies
pub mod Functions
pub mod Calls
pub mod Programs
use lama_sm_interpreter.Prelude.{
  ℕ, ◌+◌, ◌-◌, ◌≤◌, ◌<◌, ◌^◌, ◌≡◌, ◌≢◌, refl, Bool, false, not, ◌==◌, if◌then◌else◌, Bool-cases,
  inl, inr, arith,
}
use lama_sm_interpreter.Result.{Result, ok, Error}
use lama_sm_interpreter.Word.Boxing.{box_int}
use lama_sm_interpreter.Bytefile.{Bytefile, code_byte, code_u32}
use lama_sm_interpreter.Instruction.{
  InstructionType, binop, const, jmp, drop, dup, swap, ld, lda, st, cjmp_z, cjmp_nz, line, MemVar,
  to_mem_var, BinOp, to_bin_op, low_bits,
}
use lama_sm_interpreter.Verifier.Variables.{Exists}
use lama_sm_interpreter.Verifier.Effect.{get_new_stack}
use lama_sm_interpreter.Machine.{
  of_pointer, State, ◌>>=◌, max_stack, stack_bottom, update, load, store, consume0, consume1,
}
use lama_sm_interpreter.Machine.Access.{load_lem, store_lem}
use lama_sm_interpreter.Machine.Frames.{
  push_op, peek_op, pop_op, get_global, set_global, get_local, set_local, get_arg, set_arg,
  get_global_link, get_local_link, get_arg_link,
}
use lama_sm_interpreter.Interp.Runtime.{Runtime}
use lama_sm_interpreter.Interp.Stack.{stack_dup, stack_drop, stack_const, stack_swap}
use lama_sm_interpreter.Interp.Memory.{
  get_variable, set_variable, variable_link, mem_load, mem_store, stack_lda,
}
use lama_sm_interpreter.Interp.Control.{jump, jump_if_zero, jump_if_not_zero, helper_line}
use lama_sm_interpreter.Interp.Binop.{binop_interpeter}
use lama_sm_interpreter.Interp.Binop.Correct.{word_of, binop_interpeter_lem}
use lama_sm_interpreter.Interp.Loop.{run_instruction}

-- A frame of a function with `n_args` arguments and `n_locals` locals, with `d` operands on the stack
-- and room for `deepest` of them.
pub record Frame {W : Type 0} (n_args n_locals deepest d : ℕ) (s : State W) : Type 0 where
  pub placed : 0 < s.stack_data
  pub operands : s.top + d + n_locals ≡ s.fp
  pub args : s.fp + 4 + n_args ≤ stack_bottom s
  pub globals : s.fp + 4 + s.bf.global_area_size + s.string_counter ≤ stack_bottom s
  pub room : s.stack_data + deepest ≤ s.top + d + 1

-- The argument of the instruction at `o` lies in the file.
abbrev pub HasArgument : Bytefile → ℕ → Type 0
HasArgument bf o = (arg : ℕ) × (code_u32 bf (o + 1) ≡ ok arg)

-- It names a global, or a local or an argument of the function.
abbrev pub NamesVariable : Bytefile → ℕ → ℕ → ℕ → ℕ → Type 0
NamesVariable bf o c n_args n_locals =
    (index : ℕ) × (code_u32 bf (o + 1) ≡ ok index)
    × Exists bf (to_mem_var (low_bits c)) index n_args n_locals

-- The operations that have a value for every two operands.
abbrev pub IsTotal : BinOp → Type 0
IsTotal BinOp.div = ⊥
IsTotal BinOp.mod' = ⊥
IsTotal (BinOp.other c) = ⊥
IsTotal _ = Unit

-- The instruction at `o`, with the byte `c`, is one of these: it calls nothing, it is not a DIV or a
-- MOD, its variable exists and is not one of a closure, and the `d` operands in front of it are enough.
abbrev pub IsReady : Bytefile → ℕ → ℕ → ℕ → ℕ → ℕ → InstructionType → Type 0
IsReady bf o c n_args n_locals d binop = (2 ≤ d) × IsTotal (to_bin_op (low_bits c))
IsReady bf o c n_args n_locals d const = HasArgument bf o
IsReady bf o c n_args n_locals d jmp = HasArgument bf o
IsReady bf o c n_args n_locals d cjmp_z = (1 ≤ d) × HasArgument bf o
IsReady bf o c n_args n_locals d cjmp_nz = (1 ≤ d) × HasArgument bf o
IsReady bf o c n_args n_locals d drop = 1 ≤ d
IsReady bf o c n_args n_locals d dup = 1 ≤ d
IsReady bf o c n_args n_locals d swap = 2 ≤ d
IsReady bf o c n_args n_locals d ld = NamesVariable bf o c n_args n_locals
IsReady bf o c n_args n_locals d lda = NamesVariable bf o c n_args n_locals
IsReady bf o c n_args n_locals d st = (1 ≤ d) × NamesVariable bf o c n_args n_locals
IsReady bf o c n_args n_locals d line = HasArgument bf o
IsReady bf o c n_args n_locals d _ = ⊥

-- What stays: the words of the frame between the locals and the arguments, and the words between the
-- arguments and the globals, among it.
pub record Keeps {W : Type 0} (n_args : ℕ) (s s' : State W) : Type 0 where
  pub counter : s'.string_counter ≡ s.string_counter
  pub sizes : s'.arg_sizes ≡ s.arg_sizes
  pub start : s'.code_start ≡ s.code_start
  pub words : (p : ℕ) → s.fp < p → p ≤ s.fp + 3 → s'.cells p ≡ s.cells p
  pub above :
      (p : ℕ)
      → s.fp + 4 + n_args ≤ p
      → p + s.bf.global_area_size + s.string_counter < stack_bottom s
      → s'.cells p ≡ s.cells p

-- It runs without an exception, and the loop goes on.
abbrev pub GoesOn : {W : Type 0} → Runtime W → ℕ → InstructionType → State W → Type 0
GoesOn {W} R n_args ty s =
    (s' : State W) × (run_instruction R ty s ≡ ok (false, s')) × Keeps n_args s s'
