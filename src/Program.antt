-- ===== src/Program.antt =====
-- `main` of src/main.cpp: the three modes of the program. The clock is not modelled.
pub mod Accepts
use lama_sm_interpreter.Prelude.{ℕ, List, [], ◌∷◌, Option, none, some, if◌then◌else◌}
use lama_sm_interpreter.Result.{Result, ok, err, Error, ◌>>=◌}
use lama_sm_interpreter.Bytefile.{Bytefile, read_file}
use lama_sm_interpreter.Verifier.Marks.{same_bytes}
use lama_sm_interpreter.Verifier.Scan.{verify}
use lama_sm_interpreter.Machine.{State}
use lama_sm_interpreter.Interp.Runtime.{Runtime}
use lama_sm_interpreter.Interp.Loop.{new_state, interpret}
use lama_sm_interpreter.Printer.{Listing, print_instructions}
use lama_sm_interpreter.Analyzer.Results.{Sort, Row, report, results}

-- What a run of the program gives.
pub data Outcome (W : Type 0) : Type 0 where
  analyzed : List Row → Outcome W
  interpreted : State W → Outcome W
  listed : Listing → Outcome W

-- What the program finds where it runs: the files by their names, the address of the code and of
-- the new stack, the words there, and the state of the runtime.
pub record Surroundings (W : Type 0) : Type 0 where
  pub file : List ℕ → Option (List ℕ)
  pub code_start : ℕ
  pub stack_data : ℕ
  pub cells : ℕ → ℕ
  pub world : W

-- `read_file` with the opening of the file.
unfoldable pub open_file : (List ℕ → Option (List ℕ)) → List ℕ → Result Bytefile
open_file file name = elim (file name) [
  | none ↦ err Error.cannot_open
  | some bytes ↦ read_file bytes
]

-- "-a", "-i" and "-p"
abbrev pub analyze_mode : List ℕ
analyze_mode = 45 ∷ 97 ∷ []

abbrev pub interpret_mode : List ℕ
interpret_mode = 45 ∷ 105 ∷ []

abbrev pub print_mode : List ℕ
print_mode = 45 ∷ 112 ∷ []

module _ {W : Type 0} (sort : Sort ℕ) (sort_pairs : Sort (ℕ × ℕ)) (R : Runtime W)
    (around : Surroundings W) where
  unfoldable pub run_analyzer : Bytefile → Result (Outcome W)
  run_analyzer bf = do r ← report sort sort_pairs bf; rows ← results bf r; ok (analyzed rows)

  -- `verify`, then `interpret` on the file that `verify` has changed.
  unfoldable pub run_interpreter : ℕ → Bytefile → Result (Outcome W)
  run_interpreter fuel bf = do
    verified ← verify fuel bf
    (_, s) ←
        interpret R fuel
          (new_state verified around.code_start around.stack_data around.cells around.world)
    ok (interpreted s)

  unfoldable pub run_mode : ℕ → List ℕ → Bytefile → Result (Outcome W)
  run_mode fuel mode bf =
      if same_bytes mode analyze_mode
      then run_analyzer bf
      else if same_bytes mode interpret_mode
      then run_interpreter fuel bf
      else if same_bytes mode print_mode
      then ok (listed (print_instructions bf))
      else err Error.wrong_argument

  -- The arguments, the program's name first; fuel for the loops that need not end.
  unfoldable pub main : ℕ → List (List ℕ) → Result (Outcome W)
  main fuel (program ∷ mode ∷ name ∷ further) = do
    bf ← open_file around.file name
    run_mode fuel mode bf
  main fuel _ = err Error.no_file_given
