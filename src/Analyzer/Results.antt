-- ===== src/Analyzer/Results.antt =====
-- The end of the class `Analyzer`: `analyze` with its sorting and counting, and the printing of the
-- results.
use lama_sm_interpreter.Prelude.{
  ℕ, ◌+◌, ◌/◌, ◌%◌, Bool, ◌==◌, if◌then◌else◌, List, [], ◌∷◌, ◌++◌, get_elem?, length, ltb, ◌||◌,
  ◌&&◌,
}
use mathlib.Core.List.{reverse}
use lama_sm_interpreter.Result.{Result, ok, ◌>>=◌}
use lama_sm_interpreter.Word.{found}
use lama_sm_interpreter.Bytefile.{Bytefile, code_byte, code_u32}
use lama_sm_interpreter.Instruction.{
  InstructionType, jmp, cjmp_z, cjmp_nz, const, call_array, line, array, string, callc, binop, patt,
  call, closure, sexp, tag, begin, cbegin, fail, ld, st, lda,
}
use lama_sm_interpreter.Byterun.{general_byterun}
use lama_sm_interpreter.Printer.{Printed, name, dec}
use lama_sm_interpreter.Analyzer.{analyze, count_runs}
use lama_sm_interpreter.Analyzer.Order.{cmp_single, cmp_pair}

-- `std::sort` with a comparison that can throw: its code is not that of the program. It gives the
-- elements in an order of its own choice where the comparison leaves one.
abbrev pub Sort : Type 0 → Type 0
Sort A = (A → A → Result Bool) → List A → Result (List A)

-- `<` on `std::pair<uint32_t, uint32_t>`
abbrev pub pair_lt : ℕ × ℕ → ℕ × ℕ → Result Bool
pair_lt (a, b) (c, d) = ok (ltb a c || ((a == c) && ltb b d))

-- The analyzer with its sorted offsets, and `counter`.
pub record Report : Type 0 where
  pub collect_single : List ℕ
  pub collect_pairs : List ℕ
  pub counter : List (ℕ × ℕ)

module _ (sort : Sort ℕ) (sort_pairs : Sort (ℕ × ℕ)) where
  -- The whole of `analyze`, behind `collect_marks`.
  unfoldable pub report : Bytefile → Result Report
  report bf = do
    a ← analyze bf
    single ← sort (cmp_single bf) a.collect_single
    pairs ← sort (cmp_pair bf) a.collect_pairs
    counts ← count_runs (length single) (cmp_single bf) 0 0 single
    pair_counts ← count_runs (length pairs) (cmp_pair bf) 1 0 pairs
    counter ← sort_pairs pair_lt (counts ++ pair_counts)
    ok (record { collect_single = single; collect_pairs = pairs; counter = reverse counter })

-- `print_instruction`: the words behind the name, for an instruction at `p` whose first byte is `c`.
-- `static_cast<uint32_t>` of a `char` copies its sign.
abbrev pub unsigned_char : ℕ → ℕ
unsigned_char c = if ltb c 128 then c else c + 4294967040

unfoldable pub one_argument : Bytefile → ℕ → Result (List Printed)
one_argument bf p = do a ← code_u32 bf (p + 1); ok (dec a ∷ [])

unfoldable pub two_arguments : Bytefile → ℕ → Result (List Printed)
two_arguments bf p = do
  a ← code_u32 bf (p + 1)
  b ← code_u32 bf (p + 1 + 4)
  ok (dec a ∷ dec b ∷ [])

unfoldable pub variable_argument : Bytefile → ℕ → ℕ → Result (List Printed)
variable_argument bf p c = do a ← code_u32 bf (p + 1); ok (dec (unsigned_char c) ∷ dec a ∷ [])

unfoldable pub arguments : Bytefile → ℕ → ℕ → InstructionType → Result (List Printed)
arguments bf p c jmp = one_argument bf p
arguments bf p c cjmp_z = one_argument bf p
arguments bf p c cjmp_nz = one_argument bf p
arguments bf p c const = one_argument bf p
arguments bf p c call_array = one_argument bf p
arguments bf p c line = one_argument bf p
arguments bf p c array = one_argument bf p
arguments bf p c string = one_argument bf p
arguments bf p c callc = one_argument bf p
arguments bf p c binop = ok (dec (unsigned_char c) ∷ [])
arguments bf p c patt = ok (dec (unsigned_char c) ∷ [])
arguments bf p c call = two_arguments bf p
arguments bf p c closure = two_arguments bf p
arguments bf p c sexp = two_arguments bf p
arguments bf p c tag = two_arguments bf p
arguments bf p c begin = two_arguments bf p
arguments bf p c cbegin = two_arguments bf p
arguments bf p c fail = two_arguments bf p
arguments bf p c ld = variable_argument bf p c
arguments bf p c st = variable_argument bf p c
arguments bf p c lda = variable_argument bf p c
arguments bf p c _ = ok []

-- The words, and where `ptr` is set to.
unfoldable pub print_sequence_instruction : Bytefile → ℕ → Result (List Printed × ℕ)
print_sequence_instruction bf p = do
  c ← code_byte bf p
  (nxt, instruction_type) ← general_byterun bf p
  words ← arguments bf p c instruction_type
  ok (name instruction_type ∷ words, nxt)

-- A line of `results`: the instruction or the two, and their count.
abbrev pub Row : Type 0
Row = List (List Printed) × ℕ

unfoldable pub print_single : Bytefile → List ℕ → ℕ → ℕ → Result Row
print_single bf collect_single i count = do
  p ← found (get_elem? collect_single i)
  (words, _) ← print_sequence_instruction bf p
  ok (words ∷ [], count)

unfoldable pub print_pair : Bytefile → List ℕ → ℕ → ℕ → Result Row
print_pair bf collect_pairs i count = do
  p ← found (get_elem? collect_pairs i)
  (first, nxt) ← print_sequence_instruction bf p
  (second, _) ← print_sequence_instruction bf nxt
  ok (first ∷ second ∷ [], count)

unfoldable pub print_row : Bytefile → Report → ℕ × ℕ → Result Row
print_row bf r (count, s) =
    if s % 2 == 1
    then print_pair bf r.collect_pairs (s / 2) count
    else print_single bf r.collect_single (s / 2) count

unfoldable pub print_rows : Bytefile → Report → List (ℕ × ℕ) → Result (List Row)
print_rows bf r [] = ok []
print_rows bf r (entry ∷ entries) = do
  row ← print_row bf r entry
  rows ← print_rows bf r entries
  ok (row ∷ rows)

unfoldable pub results : Bytefile → Report → Result (List Row)
results bf r = print_rows bf r r.counter
