-- ===== src/Tests/Prints.antt =====
-- The printer and the counting of sequences on the program.
use lama_sm_interpreter.Prelude.{ℕ, ◌≡◌, ◌≢◌, ◌<◌, refl, Bool, ltb, [], ◌∷◌, some, arith}
use lama_sm_interpreter.Result.{Result, ok, err, out_of_fuel}
use lama_sm_interpreter.Word.{wrap32, byte_at, u32_at, u32_bytes}
use lama_sm_interpreter.Bytefile.{code_byte, code_u32}
use lama_sm_interpreter.Bytefile.Roundtrip.{file_of, read_file-file_of}
use lama_sm_interpreter.Instruction.{InstructionType, next_instruction_type, cjmp_z}
use lama_sm_interpreter.Byterun.{general_byterun}
use lama_sm_interpreter.Printer.{
  name, hex, print_at, print_instruction, print_instructions, print_jump,
}
use lama_sm_interpreter.Printer.Steps.{print_at-general_byterun}
use lama_sm_interpreter.Printer.Ends.{print_instructions-ne-out_of_fuel}
use lama_sm_interpreter.Analyzer.{count_runs, run_length}
use lama_sm_interpreter.Analyzer.Order.{cmp_single, cmp_pair}
use lama_sm_interpreter.Analyzer.Counts.{total, total-count_runs, count_runs-ne-out_of_fuel}
use lama_sm_interpreter.Tests.Program.{publics, strings, code, program}

prints_jump : print_at program 15 ≡ ok (name cjmp_z ∷ hex 20 ∷ [], some 20)
unfolding print_at print_instruction next_instruction_type code_byte code_u32 byte_at u32_at
    u32_bytes print_jump
prints_jump = refl

print_at-general_byterun_example :
    (t : InstructionType) × (print_instruction program 15 t
      ≡ ok (name cjmp_z ∷ hex 20 ∷ [], some 20))
    × (general_byterun program 15 ≡ ok (wrap32 20, t))
    × (15 < 20)
print_at-general_byterun_example =
    print_at-general_byterun program 15 (name cjmp_z ∷ hex 20 ∷ []) 20 prints_jump

print_instructions-ne-out_of_fuel_example : (print_instructions program).1 ≢ err out_of_fuel
unfolding file_of
print_instructions-ne-out_of_fuel_example =
    print_instructions-ne-out_of_fuel (file_of 3 publics strings code) program
      (read_file-file_of 3 publics strings code (omega arith) (omega arith))

abbrev smaller : ℕ → ℕ → Result Bool
smaller a b = ok (ltb a b)

-- Three, two and one.
counted :
    count_runs 6 smaller 0 0 (1 ∷ 1 ∷ 1 ∷ 4 ∷ 4 ∷ 7 ∷ []) ≡ ok ((3, 0) ∷ (2, 6) ∷ (1, 10) ∷ [])
unfolding count_runs run_length
counted = refl

total-count_runs_example : total ((3, 0) ∷ (2, 6) ∷ (1, 10) ∷ []) ≡ 6
total-count_runs_example =
    total-count_runs smaller 6 0 0 (1 ∷ 1 ∷ 1 ∷ 4 ∷ 4 ∷ 7 ∷ []) ((3, 0) ∷ (2, 6) ∷ (1, 10) ∷ [])
      counted

count_runs-ne-out_of_fuel_example :
    (count_runs 2 (cmp_single program) 0 0 (9 ∷ 14 ∷ []) ≢ err out_of_fuel)
    × (count_runs 2 (cmp_pair program) 0 0 (9 ∷ 14 ∷ []) ≢ err out_of_fuel)
count_runs-ne-out_of_fuel_example = count_runs-ne-out_of_fuel program 0 0 (9 ∷ 14 ∷ [])
