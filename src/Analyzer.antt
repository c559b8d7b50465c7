-- ===== src/Analyzer.antt =====
-- The class `Analyzer` of src/analyzer/Analyzer.hpp: which instructions, and which pairs of them, stand
-- in the reachable code. An entry of `visited` is a set of three flags.
pub mod Order
pub mod Results
pub mod Counts
pub mod Flagged
pub mod Traversal
pub mod Ends
pub mod Others
pub mod Once
pub mod Targets
pub mod Reached
use lama_sm_interpreter.Prelude.{
  ℕ, zero, suc, ◌+◌, ◌*◌, ◌/◌, ◌%◌, Bool, true, false, ◌==◌, if◌then◌else◌, List, [], ◌∷◌, ◌++◌,
  get_elem?, set, replicate, drop,
}
use lama_sm_interpreter.Result.{Result, ok, err, Error, ◌>>=◌}
use lama_sm_interpreter.Word.{found, wrap32}
use lama_sm_interpreter.Bytefile.{Bytefile, code_byte, code_u32, get_public_offset}
use lama_sm_interpreter.Instruction.{
  InstructionType, jmp, end, ret, cjmp_z, cjmp_nz, closure, call, fail,
}
use lama_sm_interpreter.Byterun.{general_byterun}

-- The fields of the class, without the counters. A pointer into the code is an offset; the front of
-- the queue comes first.
pub record Analyzer : Type 0 where
  pub collect_single : List ℕ
  pub collect_pairs : List ℕ
  pub prev_ptr : ℕ
  pub prev_initialized : Bool
  pub visited : List ℕ
  pub labels : List ℕ

-- `flags & bit` and `flags | bit`, for a power of two.
abbrev pub has_flag : ℕ → ℕ → Bool
has_flag flags bit = flags / bit % 2 == 1

abbrev pub with_flag : ℕ → ℕ → ℕ
with_flag flags bit = if has_flag flags bit then flags else flags + bit

-- `visited[i] & bit` and `visited[i] |= bit`
unfoldable pub test_flag : List ℕ → ℕ → ℕ → Result Bool
test_flag visited i bit = do flags ← found (get_elem? visited i); ok (has_flag flags bit)

unfoldable pub set_flag : List ℕ → ℕ → ℕ → Result (List ℕ)
set_flag visited i bit = do
  flags ← found (get_elem? visited i)
  ok (set visited i (with_flag flags bit))

unfoldable pub add_instruction : Analyzer → ℕ → Analyzer
add_instruction a cur_ptr = record a {
  collect_single = a.collect_single ++ cur_ptr ∷ [];
  collect_pairs =
      if a.prev_initialized then a.collect_pairs ++ a.prev_ptr ∷ [] else a.collect_pairs;
  prev_initialized = true;
  prev_ptr = cur_ptr;
}

unfoldable pub check_label : Analyzer → ℕ → Result Analyzer
check_label a label = do
  seen ← test_flag a.visited label 1
  visited ← set_flag a.visited label 1
  ok (if seen then a else record a { labels = a.labels ++ label ∷ []; visited = visited })

-- The Boolean is what `traverse` is set to.
unfoldable pub check_nxt : Analyzer → ℕ → Result (Bool × Analyzer)
check_nxt a idx = do
  seen ← test_flag a.visited idx 1
  visited ← set_flag a.visited idx 1
  ok (if seen then (false, a) else (true, record a { visited = visited }))

-- A jump that control can also fall through, and a call.
unfoldable pub branch : Bytefile → Analyzer → ℕ → ℕ → Result (Bool × Analyzer)
branch bf a cur_ptr nxt = do
  arg ← code_u32 bf (cur_ptr + 1)
  a₁ ← check_label a arg
  check_nxt a₁ nxt

-- The `switch` of `process_label`.
unfoldable pub process_instruction :
    Bytefile → Analyzer → ℕ → ℕ → InstructionType → Result (Bool × Analyzer)
process_instruction bf a cur_ptr nxt ret = ok (false, a)
process_instruction bf a cur_ptr nxt end = ok (false, a)
process_instruction bf a cur_ptr nxt jmp = do
  arg ← code_u32 bf (cur_ptr + 1)
  a₁ ← check_label a arg
  ok (false, a₁)
process_instruction bf a cur_ptr nxt cjmp_z = branch bf a cur_ptr nxt
process_instruction bf a cur_ptr nxt cjmp_nz = branch bf a cur_ptr nxt
process_instruction bf a cur_ptr nxt call = branch bf a cur_ptr nxt
process_instruction bf a cur_ptr nxt closure = branch bf a cur_ptr nxt
process_instruction bf a cur_ptr nxt fail = do _ ← code_u32 bf (cur_ptr + 1); ok (false, a)
process_instruction bf a cur_ptr nxt _ = check_nxt a nxt

-- A round of the loop: whether it goes on, and where.
unfoldable pub process_round : Bytefile → Analyzer → ℕ → Result (Bool × Analyzer × ℕ)
process_round bf a cur_ptr = do
  (nxt, instruction_type) ← general_byterun bf cur_ptr
  is_label ← test_flag a.visited cur_ptr 2
  let a₁ = if is_label then record a { prev_initialized = false } else a
  (traverse, a₂) ← process_instruction bf (add_instruction a₁ cur_ptr) cur_ptr nxt instruction_type
  ok (traverse, a₂, nxt)

-- The loop, on fuel: each round that goes on sets a flag.
unfoldable pub process_from : ℕ → Bytefile → Analyzer → ℕ → Result Analyzer
process_from zero bf a cur_ptr = err Error.out_of_fuel
process_from (suc fuel) bf a cur_ptr = do
  (traverse, a', nxt) ← process_round bf a cur_ptr
  let rest = process_from fuel bf a' nxt
  if traverse then rest else ok a'

unfoldable pub process_label : ℕ → Bytefile → Analyzer → ℕ → Result Analyzer
process_label fuel bf a label = process_from fuel bf (record a { prev_initialized = false }) label

-- The loop over the queue.
unfoldable pub process_labels : ℕ → Bytefile → Analyzer → Result Analyzer
process_labels zero bf a = err Error.out_of_fuel
process_labels (suc fuel) bf a = elim a.labels [
  | [] ↦ ok a
  | label ∷ labels ↦ do
    a' ← process_label (bf.code_size + 1) bf (record a { labels = labels }) label
    process_labels fuel bf a'
]

-- The `for` over the public symbols, from symbol `i` on, with `n` symbols left.
unfoldable pub start_labels : Bytefile → ℕ → ℕ → Analyzer → Result Analyzer
start_labels bf i zero a = ok a
start_labels bf i (suc n) a = do
  symbol_offset ← get_public_offset bf i
  a₁ ← check_label a symbol_offset
  visited ← set_flag a₁.visited symbol_offset 2
  start_labels bf (i + 1) n (record a₁ { visited = visited })

-- `analyze` up to the sorting.
unfoldable pub traverse_code : Bytefile → Analyzer → Result Analyzer
traverse_code bf a = do
  a₁ ← start_labels bf 0 bf.public_symbols_number a
  process_labels (bf.code_size + 1) bf a₁

-- `collect_marks`: the flags 2 and 4, and the queue `q`.
pub record Flags : Type 0 where
  pub visited : List ℕ
  pub q : List ℕ

-- `visited[i] |= 2; visited[i] |= 4; q.push(i);`
unfoldable pub push_flagged : Flags → ℕ → Result Flags
push_flagged f i = do
  v₁ ← set_flag f.visited i 2
  v₂ ← set_flag v₁ i 4
  ok (record { visited = v₂; q = f.q ++ i ∷ [] })

unfoldable pub flag_symbols : Bytefile → ℕ → ℕ → Flags → Result Flags
flag_symbols bf i zero f = ok f
flag_symbols bf i (suc n) f = do
  symbol_offset ← get_public_offset bf i
  seen ← test_flag f.visited symbol_offset 4
  f' ← if seen then ok f else push_flagged f symbol_offset
  flag_symbols bf (i + 1) n f'

-- A target of control, and the instruction behind a jump with a condition or a call.
unfoldable pub flag_target : Bytefile → Flags → ℕ → Result Flags
flag_target bf f idx = do
  arg ← code_u32 bf (idx + 1)
  seen ← test_flag f.visited arg 2
  if seen then ok f else push_flagged f arg

unfoldable pub flag_behind : Flags → ℕ → Result Flags
flag_behind f nxt = do seen ← test_flag f.visited nxt 4; if seen then ok f else push_flagged f nxt

unfoldable pub flag_next : Flags → ℕ → Result Flags
flag_next f nxt = do
  seen ← test_flag f.visited nxt 4
  visited ← set_flag f.visited nxt 4
  ok (if seen then f else record { visited = visited; q = f.q ++ nxt ∷ [] })

-- The `switch`.
unfoldable pub flag_instruction : Bytefile → Flags → ℕ → ℕ → InstructionType → Result Flags
flag_instruction bf f idx nxt jmp = flag_target bf f idx
flag_instruction bf f idx nxt cjmp_z = (flag_target bf f idx >>= λ f'. flag_behind f' nxt)
flag_instruction bf f idx nxt cjmp_nz = (flag_target bf f idx >>= λ f'. flag_behind f' nxt)
flag_instruction bf f idx nxt closure = (flag_target bf f idx >>= λ f'. flag_behind f' nxt)
flag_instruction bf f idx nxt call = (flag_target bf f idx >>= λ f'. flag_behind f' nxt)
flag_instruction bf f idx nxt _ = flag_next f nxt

-- A round of the loop over the queue.
unfoldable pub flag_from : Bytefile → Flags → ℕ → Result Flags
flag_from bf f idx = do
  (nxt, instruction_type) ← general_byterun bf idx
  flag_instruction bf f idx nxt instruction_type

unfoldable pub flag_all : ℕ → Bytefile → Flags → Result (List ℕ)
flag_all zero bf f = err Error.out_of_fuel
flag_all (suc fuel) bf f = elim f.q [
  | [] ↦ ok f.visited
  | idx ∷ q ↦ do
    c ← code_byte bf idx
    let popped : Flags = record f { q = q }
    f' ← if c == 0xff then ok popped else flag_from bf popped idx
    flag_all fuel bf f'
]

-- `collect_marks`. A code offset can be queued more than once, but each flag is set once.
unfoldable pub collect_flags : Bytefile → List ℕ → Result (List ℕ)
collect_flags bf visited = do
  f ← flag_symbols bf 0 bf.public_symbols_number (record { visited = visited; q = [] })
  flag_all (2 * bf.code_size + 1) bf f

-- `collect_marks` and then `analyze` up to the sorting, on a new `Analyzer`.
unfoldable pub analyze : Bytefile → Result Analyzer
analyze bf = do
  visited ← collect_flags bf (replicate bf.code_size 0)
  traverse_code bf (record {
    collect_single = [];
    collect_pairs = [];
    prev_ptr = 0;
    prev_initialized = false;
    visited = visited;
    labels = [];
  })

-- Behind the sorting: the inner `while`, on what is left of the sorted offsets, and the `for`, which
-- counts the instructions that are equal. `bit` is 0 for instructions and 1 for pairs, and `cmp` the
-- comparison. The `for` does not end if an offset is less than itself.
unfoldable pub run_length : (ℕ → ℕ → Result Bool) → ℕ → List ℕ → Result ℕ
run_length cmp first [] = ok 0
run_length cmp first (offset ∷ offsets) = do
  less ← cmp first offset
  let rest : Result ℕ = (run_length cmp first offsets >>= λ n. ok (n + 1))
  if less then ok 0 else rest

unfoldable pub count_runs : ℕ → (ℕ → ℕ → Result Bool) → ℕ → ℕ → List ℕ → Result (List (ℕ × ℕ))
count_runs fuel cmp bit i [] = ok []
count_runs zero cmp bit i (first ∷ offsets) = err Error.out_of_fuel
count_runs (suc fuel) cmp bit i (first ∷ offsets) = do
  count ← run_length cmp first (first ∷ offsets)
  counter ← count_runs fuel cmp bit (i + count) (drop count (first ∷ offsets))
  ok ((count, wrap32 (i * 2) + bit) ∷ counter)
