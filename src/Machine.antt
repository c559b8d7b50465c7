-- ===== src/Machine.antt =====
-- src/state: the state of the interpreter. A pointer to a word is its address divided by 8, so that
-- pointer arithmetic is arithmetic; a word is a 64-bit pattern, and a pointer stored in a word is
-- its address. `code_ptr` is the offset from `bf->code_ptr`.
pub mod Frames
pub mod Access
use lama_sm_interpreter.Prelude.{
  ℕ, zero, suc, ◌+◌, ◌-◌, ◌*◌, ◌/◌, ◌%◌, ◌^◌, ◌≡◌, Bool, true, false, ◌&&◌, List, [], ◌∷◌, length,
  ltb, leb, ◌==◌, if◌then◌else◌,
}
use lama_sm_interpreter.Result.{Result, ok, err, Error}
use lama_sm_interpreter.Bytefile.{Bytefile, code_byte, code_u32}

-- `StackMachineState`, with its `FrameStack` and `InstructionDecoder`, the stack that they point
-- to, and the heap and the channels of the runtime (`world`). `arg_sizes` has its back first.
pub record State (W : Type 0) : Type 0 where
  pub bf : Bytefile
  pub code_ptr : ℕ
  pub code_start : ℕ
  pub stack_data : ℕ
  pub top : ℕ
  pub fp : ℕ
  pub arg_sizes : List ℕ
  pub strings_map : List (ℕ × ℕ)
  pub string_counter : ℕ
  pub cells : ℕ → ℕ
  pub world : W

-- `StackMachineState::stack_size`
abbrev pub max_stack : ℕ
max_stack = 67108864

-- `__gc_stack_bottom`
abbrev pub stack_bottom : {W : Type 0} → State W → ℕ
stack_bottom s = s.stack_data + max_stack

-- A handler: it throws, or returns with the next state.
abbrev pub M : Type 0 → Type 0 → Type 0
M W A = State W → Result (A × State W)

infixl 5 ◌>>=◌ ◌>>◌
abbrev pub ◌>>=◌ : {W A B : Type 0} → M W A → (A → M W B) → M W B
◌>>=◌ m f s = elim (m s) [ ok (a, s') ↦ f a s' | err e ↦ err e ]

abbrev pub ◌>>◌ : {W A B : Type 0} → M W A → M W B → M W B
m >> k = m >>= λ _. k

abbrev pub pure : {W A : Type 0} → A → M W A
pure a s = ok (a, s)

abbrev pub throw : {W A : Type 0} → Error → M W A
throw e s = err e

-- An access to the stack of operands; outside of the array it is undefined.
abbrev pub in_stack : {W : Type 0} → State W → ℕ → Bool
in_stack s p = leb s.stack_data p && ltb p (s.stack_data + max_stack)

unfoldable pub load : {W : Type 0} → ℕ → M W ℕ
load p s = if in_stack s p then ok (s.cells p, s) else err Error.fault

abbrev pub update : (ℕ → ℕ) → ℕ → ℕ → ℕ → ℕ
update f p v q = if p == q then v else f q

unfoldable pub store : {W : Type 0} → ℕ → ℕ → M W (Unit {0})
store p v s =
    if in_stack s p then ok (tt, record s { cells = update s.cells p v }) else err Error.fault

-- `reinterpret_cast<uint64_t>(p)` and back.
abbrev pub of_pointer : ℕ → ℕ
of_pointer p = 8 * p

unfoldable pub to_pointer : {W : Type 0} → ℕ → M W ℕ
to_pointer w s = if w % 8 == 0 then ok (w / 8, s) else err Error.fault

abbrev pub get_state : {W : Type 0} → M W (State W)
get_state s = ok (s, s)

abbrev pub set_top : {W : Type 0} → ℕ → M W (Unit {0})
set_top p s = ok (tt, record s { top = p })

abbrev pub set_fp : {W : Type 0} → ℕ → M W (Unit {0})
set_fp p s = ok (tt, record s { fp = p })

abbrev pub set_code_ptr : {W : Type 0} → ℕ → M W (Unit {0})
set_code_ptr p s = ok (tt, record s { code_ptr = p })

abbrev pub lift : {W A : Type 0} → (State W → Result A) → M W A
lift f s = elim (f s) [ ok a ↦ ok (a, s) | err e ↦ err e ]

-- `consume_as` for the instructions with no, one and two arguments: the instruction byte, the
-- arguments, and the decoder behind them.
unfoldable pub consume0 : {W : Type 0} → M W ℕ
consume0 = do
  s ← get_state
  c ← lift (λ t. code_byte t.bf s.code_ptr)
  set_code_ptr (s.code_ptr + 1)
  pure c

unfoldable pub consume1 : {W : Type 0} → M W (ℕ × ℕ)
consume1 = do
  s ← get_state
  c ← lift (λ t. code_byte t.bf s.code_ptr)
  a ← lift (λ t. code_u32 t.bf (s.code_ptr + 1))
  set_code_ptr (s.code_ptr + (1 + 1 * 4))
  pure (c, a)

unfoldable pub consume2 : {W : Type 0} → M W (ℕ × ℕ × ℕ)
consume2 = do
  s ← get_state
  c ← lift (λ t. code_byte t.bf s.code_ptr)
  a ← lift (λ t. code_u32 t.bf (s.code_ptr + 1))
  b ← lift (λ t. code_u32 t.bf (s.code_ptr + (1 + 4)))
  set_code_ptr (s.code_ptr + (1 + 2 * 4))
  pure (c, a, b)

-- `consume_as<Designation>`: the designation's byte and its value.
unfoldable pub consume_designation : {W : Type 0} → M W (ℕ × ℕ)
consume_designation = do
  s ← get_state
  c ← lift (λ t. code_byte t.bf s.code_ptr)
  a ← lift (λ t. code_u32 t.bf (s.code_ptr + 1))
  set_code_ptr (s.code_ptr + (1 + 4))
  pure (c, a)
