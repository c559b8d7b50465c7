-- ===== src/Byterun/Decoders.antt =====
-- The interpreter's decoder and the analyzer's read the same instruction from every byte.
use lama_sm_interpreter.Prelude.{ℕ, ◌≡◌, refl}
use lama_sm_interpreter.Instruction.{next_instruction_type}
use lama_sm_interpreter.Byterun.{get_instruction_type}

-- The decoder of the interpreter (`InstructionDecoder::next_instruction_type`) and that of the
-- analyzer (`get_instruction_type`) read the same instruction from every byte.
pub next_instruction_type-eq-get_instruction_type :
    (c : ℕ) → next_instruction_type c ≡ get_instruction_type c
unfolding next_instruction_type get_instruction_type
next_instruction_type-eq-get_instruction_type c = refl
