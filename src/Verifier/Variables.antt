-- ===== src/Verifier/Variables.antt =====
-- `validate_variable` of src/verifier/Verifier.hpp.
use lama_sm_interpreter.Prelude.{ℕ, ◌<◌, ◌≡◌, ◌⊎◌, inl, inr, refl, arith, ltb}
use lama_sm_interpreter.Result.{Result, ok, err, Error, guard}
use lama_sm_interpreter.Bytefile.{Bytefile}
use lama_sm_interpreter.Instruction.{MemVar}

unfoldable pub validate_variable : Bytefile → MemVar → ℕ → ℕ → ℕ → Result (Unit {0})
validate_variable bf MemVar.global index args locals =
    guard (ltb index bf.global_area_size) (Error.global_out_of_bounds index)
validate_variable bf MemVar.local index args locals =
    guard (ltb index locals) (Error.local_out_of_bounds index)
validate_variable bf MemVar.argument index args locals =
    guard (ltb index args) (Error.argument_out_of_bounds index)
validate_variable bf MemVar.closure index args locals = ok tt
validate_variable bf (MemVar.other c) index args locals = err (Error.unknown_designation c)

-- The variables of a function with `args` arguments and `locals` locals, and the globals of the file.
-- What a closure has captured is not counted anywhere, so none of it is among them.
abbrev pub Exists : Bytefile → MemVar → ℕ → ℕ → ℕ → Type 0
Exists bf MemVar.global index args locals = index < bf.global_area_size
Exists bf MemVar.local index args locals = index < locals
Exists bf MemVar.argument index args locals = index < args
Exists bf MemVar.closure index args locals = ⊥
Exists bf (MemVar.other c) index args locals = ⊥

pub validate_variable-Exists :
    (bf : Bytefile) (designation : MemVar) (index args locals : ℕ)
    → validate_variable bf designation index args locals ≡ ok tt
    → Exists bf designation index args locals ⊎ (designation ≡ MemVar.closure)
unfolding validate_variable
validate_variable-Exists bf MemVar.global index args locals h = inl (ground arith)
validate_variable-Exists bf MemVar.local index args locals h = inl (ground arith)
validate_variable-Exists bf MemVar.argument index args locals h = inl (ground arith)
validate_variable-Exists bf MemVar.closure index args locals h = inr refl
validate_variable-Exists bf (MemVar.other c) index args locals h = cc
