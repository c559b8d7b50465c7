-- ===== src/Verifier/Marks.antt =====
-- `collect_marks` of src/verifier/Verifier.hpp: the number of operands in front of each
-- instruction that control reaches from `main`. An entry of `visited` is an `int32_t` by its bit
-- pattern, -1 for an offset that was not reached.
pub mod Grows
pub mod Rounds
pub mod Loops
pub mod Seeds
pub mod Paths
pub mod Honest
pub mod Exact
pub mod Shrinks
pub mod Ends
pub mod Total
use Prim.Native.String.{String}
use lama_sm_interpreter.Prelude.{
  ℕ, zero, suc, ◌+◌, ◌-◌, ◌%◌, ◌^◌, ◌≤◌, ◌<◌, ◌≡◌, Bool, true, false, ltb, leb, ◌==◌, if◌then◌else◌,
  List, [], ◌∷◌, ◌++◌, get_elem?, set, replicate, length, not,
}
use lama_sm_interpreter.Result.{Result, ok, err, Error, ◌>>=◌, ◌>>◌, guard}
use lama_sm_interpreter.Word.{minus_one, found}
use lama_sm_interpreter.Bytefile.{Bytefile, code_u32, get_public_offset, get_public_name}
use lama_sm_interpreter.Instruction.{
  InstructionType, binop, const, string, sexp, sti, sta, jmp, end, ret, drop, dup, swap, elem, ld,
  lda, st, cjmp_z, cjmp_nz, call_read, call_write, call_length, call_string, call_array, begin,
  cbegin, closure, callc, call, tag, array, fail, line, patt, other,
}
use lama_sm_interpreter.Byterun.{general_byterun}
use lama_sm_interpreter.Verifier.Effect.{get_new_stack}

-- `visited` and the queue `labels`, its front first.
pub record Marks : Type 0 where
  pub visited : List ℕ
  pub labels : List ℕ

-- `visited[i] = v`
unfoldable pub mark : Marks → ℕ → ℕ → Marks
mark m i v = record m { visited = set m.visited i v }

unfoldable pub push_label : Marks → ℕ → Marks
push_label m i = record m { labels = m.labels ++ i ∷ [] }

-- The lambda `perform_step`.
unfoldable pub perform_step : Marks → ℕ → ℕ → Result Marks
unfolding mark push_label
perform_step m nxt_offset stack = do
  v ← found (get_elem? m.visited nxt_offset)
  if v == minus_one
      then ok (push_label (mark m nxt_offset stack) nxt_offset)
      else if v == stack
      then ok m
      else err (Error.stack_differs nxt_offset)

-- The test of the argument count in front of `get_new_stack`. The operands are compared unsigned.
unfoldable pub check_arguments : Bytefile → ℕ → ℕ → InstructionType → Result (Unit {0})
check_arguments bf symbol_offset cur_stack callc = do
  arg_num ← code_u32 bf (symbol_offset + 1)
  guard (leb arg_num cur_stack) (Error.too_many_arguments symbol_offset)
check_arguments bf symbol_offset cur_stack array = do
  arg_num ← code_u32 bf (symbol_offset + 1)
  guard (leb arg_num cur_stack) (Error.too_many_arguments symbol_offset)
check_arguments bf symbol_offset cur_stack sexp = do
  arg_num ← code_u32 bf (symbol_offset + (1 + 4))
  guard (leb arg_num cur_stack) (Error.too_many_arguments symbol_offset)
check_arguments bf symbol_offset cur_stack call = do
  arg_num ← code_u32 bf (symbol_offset + (1 + 4))
  guard (leb arg_num cur_stack) (Error.too_many_arguments symbol_offset)
check_arguments bf symbol_offset cur_stack _ = ok tt

-- How a round of the inner loop ends: by `break`, or at the next instruction with its stack.
pub data Round : Type 0 where
  breaks : Marks → Round
  goes_on : Marks → ℕ → ℕ → Round

-- The end of a round where control falls through.
unfoldable pub fall_through : Marks → ℕ → ℕ → Result Round
unfolding mark
fall_through m nxt cur_stack = do
  v ← found (get_elem? m.visited nxt)
  if v == minus_one
      then ok (goes_on (mark m nxt cur_stack) nxt cur_stack)
      else if v == cur_stack
      then ok (breaks m)
      else err (Error.stack_differs nxt)

-- A round behind `get_new_stack`.
unfoldable pub follow : Bytefile → Marks → ℕ → ℕ → InstructionType → ℕ → Result Round
unfolding perform_step fall_through
follow bf m symbol_offset nxt cjmp_z cur_stack = do
  label_arg ← code_u32 bf (symbol_offset + 1)
  m₁ ← perform_step m label_arg cur_stack
  m₂ ← perform_step m₁ nxt cur_stack
  ok (breaks m₂)
follow bf m symbol_offset nxt cjmp_nz cur_stack = do
  label_arg ← code_u32 bf (symbol_offset + 1)
  m₁ ← perform_step m label_arg cur_stack
  m₂ ← perform_step m₁ nxt cur_stack
  ok (breaks m₂)
follow bf m symbol_offset nxt call cur_stack = do
  label_arg ← code_u32 bf (symbol_offset + 1)
  m₁ ← perform_step m label_arg 0
  m₂ ← perform_step m₁ nxt cur_stack
  ok (breaks m₂)
follow bf m symbol_offset nxt jmp cur_stack = do
  label_arg ← code_u32 bf (symbol_offset + 1)
  m₁ ← perform_step m label_arg cur_stack
  ok (breaks m₁)
follow bf m symbol_offset nxt end cur_stack = ok (breaks m)
follow bf m symbol_offset nxt fail cur_stack = ok (breaks m)
follow bf m symbol_offset nxt ret cur_stack = ok (breaks m)
follow bf m symbol_offset nxt _ cur_stack = fall_through m nxt cur_stack

-- The body of the inner `while (true)`.
unfoldable pub visit : Bytefile → Marks → ℕ → ℕ → Result Round
unfolding follow check_arguments
visit bf m symbol_offset cur_stack = do
  (nxt, instruction_type) ← general_byterun bf symbol_offset
  check_arguments bf symbol_offset cur_stack instruction_type
  new_stack ← get_new_stack bf cur_stack symbol_offset instruction_type
  guard (ltb new_stack (2 ^ 31)) (Error.stack_exhausted symbol_offset)
  follow bf m symbol_offset nxt instruction_type new_stack

-- The inner loop, one unit of fuel for each round.
unfoldable pub walk : ℕ → Bytefile → Marks → ℕ → ℕ → Result Marks
unfolding visit
walk zero bf m symbol_offset cur_stack = err Error.out_of_fuel
walk (suc fuel) bf m symbol_offset cur_stack = do
  round ← visit bf m symbol_offset cur_stack
  elim round [ breaks m' ↦ ok m' | goes_on m' nxt stack ↦ walk fuel bf m' nxt stack ]

-- `labels.pop()`
abbrev pub pop_label : Marks → List ℕ → Marks
pop_label m labels = record m { labels = labels }

-- The outer loop, one unit of fuel for each label.
unfoldable pub drain : ℕ → ℕ → Bytefile → Marks → Result (List ℕ)
unfolding walk
drain zero rounds bf m = err Error.out_of_fuel
drain (suc fuel) rounds bf m = elim m.labels [
  | [] ↦ ok m.visited
  | symbol_offset ∷ labels ↦ do
    cur_stack ← found (get_elem? m.visited symbol_offset)
    m' ← walk rounds bf (pop_label m labels) symbol_offset cur_stack
    drain fuel rounds bf m'
]

-- "main"
abbrev pub main_name : List ℕ
main_name = 109 ∷ 97 ∷ 105 ∷ 110 ∷ []

-- `strcmp(a, b) == 0`
unfoldable pub same_bytes : List ℕ → List ℕ → Bool
same_bytes [] [] = true
same_bytes (a ∷ as₁) (b ∷ bs) = if a == b then same_bytes as₁ bs else false
same_bytes _ _ = false

-- A round of the `for` behind its `continue`.
unfoldable pub seed_at : ℕ → Marks → Result Marks
unfolding mark push_label
seed_at symbol_offset m = do
  v ← found (get_elem? m.visited symbol_offset)
  if v == minus_one then ok (mark (push_label m symbol_offset) symbol_offset 0) else ok m

-- One round of the `for` over the public symbols.
unfoldable pub seed : Bytefile → ℕ → Marks → Result Marks
unfolding same_bytes seed_at get_public_offset get_public_name
seed bf i m = do
  symbol_offset ← get_public_offset bf i
  name ← get_public_name bf i
  if same_bytes name main_name then seed_at symbol_offset m else ok m

-- The `for` from symbol `i` on, with `n` symbols left.
unfoldable pub seeds : Bytefile → ℕ → ℕ → Marks → Result Marks
unfolding seed
seeds bf i zero m = ok m
seeds bf i (suc n) m = do m' ← seed bf i m; seeds bf (i + 1) n m'

-- `visited(bf->code_size, -1)` and an empty queue.
abbrev pub no_marks : Bytefile → Marks
no_marks bf = record { visited = replicate bf.code_size minus_one; labels = [] }

-- Each round marks an offset that was not marked, so the code's size bounds both loops.
unfoldable pub collect_marks : Bytefile → Result (List ℕ)
unfolding seeds drain
collect_marks bf = do
  m ← seeds bf 0 bf.public_symbols_number (no_marks bf)
  drain (bf.code_size + 1) (bf.code_size + 1) bf m
