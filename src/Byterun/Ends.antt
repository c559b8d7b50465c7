-- ===== src/Byterun/Ends.antt =====
-- Decoding reads without a loop.
use lama_sm_interpreter.Prelude.{ℕ, ◌+◌}
use lama_sm_interpreter.Fuel.{Finishes, Finishes-bind, Finishes-code_byte, Finishes-code_u32}
use lama_sm_interpreter.Bytefile.{Bytefile, code_byte, code_u32}
use lama_sm_interpreter.Instruction.{InstructionType, closure, other}
use lama_sm_interpreter.Byterun.{general_byterun, get_instruction_type, next_offset}

next_offset-Finishes :
    (bf : Bytefile) (i : ℕ) (ty : InstructionType) → Finishes (next_offset bf i ty)
unfolding next_offset
next_offset-Finishes bf i closure =
    Finishes-bind (code_u32 bf (i + (1 + 4))) _ (Finishes-code_u32 bf _) λ n _. tt
next_offset-Finishes bf i (other c) = tt
next_offset-Finishes bf i _ = tt

pub general_byterun-Finishes : (bf : Bytefile) (i : ℕ) → Finishes (general_byterun bf i)
unfolding general_byterun
general_byterun-Finishes bf i = Finishes-bind (code_byte bf i) _ (Finishes-code_byte bf i) λ c _.
    Finishes-bind (next_offset bf i (get_instruction_type c)) _ (next_offset-Finishes bf i _)
      λ n _. tt
