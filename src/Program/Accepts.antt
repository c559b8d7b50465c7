-- ===== src/Program/Accepts.antt =====
-- What `main` has done before it interprets a file.
use lama_sm_interpreter.Prelude.{ℕ, ◌≡◌, List, ◌∷◌, some, arith, Option-cases, inl, inr}
use lama_sm_interpreter.Result.{ok, >>=-eq-ok}
use lama_sm_interpreter.Bytefile.{Bytefile, read_file}
use lama_sm_interpreter.Bytefile.Bounds.{IsUnpacked}
use lama_sm_interpreter.Verifier.Marks.{same_bytes, collect_marks}
use lama_sm_interpreter.Verifier.Scan.{verify}
use lama_sm_interpreter.Verifier.Scan.Keeps.{verify-Keeps}
use lama_sm_interpreter.Machine.{State}
use lama_sm_interpreter.Interp.Runtime.{Runtime}
use lama_sm_interpreter.Interp.Loop.{new_state, interpret}
use lama_sm_interpreter.Analyzer.Results.{Sort}
use lama_sm_interpreter.Program.{
  interpreted, Surroundings, open_file, interpret_mode, run_interpreter, run_mode, main,
}

module _ {W : Type 0} (sort : Sort ℕ) (sort_pairs : Sort (ℕ × ℕ)) (R : Runtime W)
    (around : Surroundings W) where
  open_file_lem :
      (name : List ℕ) (bf : Bytefile)
      → open_file around.file name ≡ ok bf
      → (bytes : List ℕ) × (around.file name ≡ some bytes) × (read_file bytes ≡ ok bf)
  unfolding open_file
  open_file_lem name bf h = elim (Option-cases (around.file name)) [
    | inl missing ↦ absurd (ground (arith, missing))
    | inr (bytes, found) ↦ (bytes, found, ground (arith, found, h))
  ]

  -- Where `main` ends after an interpretation with the option -i, the file that is interpreted, from a
  -- new state on, is the file of that name as `verify` left it: the file was there and was read,
  -- `collect_marks` and `verify` accepted it, and its code still ends where its bytes end.
  pub main-accepts :
      (fuel : ℕ) (program name : List ℕ) (further : List (List ℕ)) (s : State W)
      → main sort sort_pairs R around fuel (program ∷ interpret_mode ∷ name ∷ further)
        ≡ ok (interpreted s)
      → (bytes : List ℕ) × (bf : Bytefile) × (verified : Bytefile) × (around.file name ≡ some bytes)
        × (read_file bytes ≡ ok bf)
        × (verify fuel bf ≡ ok verified)
        × ((visited : List ℕ) × (collect_marks bf ≡ ok visited))
        × IsUnpacked verified
        × (interpret R fuel
              (new_state verified around.code_start around.stack_data around.cells around.world)
            ≡ ok (tt, s))
  unfolding main run_mode run_interpreter same_bytes
  main-accepts fuel program name further s h =
      let (bf, e, k) = >>=-eq-ok (open_file around.file name) _ (interpreted s) h in
      let (bytes, found, read) = open_file_lem name bf e in
      let (verified, e₁, k₁) = >>=-eq-ok (verify fuel bf) _ (interpreted s) k in
      let (r, e₂, k₂) =
        >>=-eq-ok
          (interpret R fuel
            (new_state verified around.code_start around.stack_data around.cells around.world))
          _ (interpreted s) k₁ in
      let last : r ≡ (tt, s) = ground (arith, k₂) in
      let (marks, keeps, unpacked) = verify-Keeps bytes bf verified fuel read e₁ in
      (bytes, bf, verified, found, read, e₁, marks, unpacked, rw last at e₂)
