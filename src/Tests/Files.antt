-- ===== src/Tests/Files.antt =====
-- Words and files.
use lama_sm_interpreter.Prelude.{◌↔◌, ◌^◌, ◌≡◌, arith, true, ◌<◌}
use lama_sm_interpreter.Result.{ok}
use lama_sm_interpreter.Word.{u32_bytes}
use lama_sm_interpreter.Word.Boxing.{box_int, unbox, is_boxed_int, FitsBox, box_int-unbox_iff}
use lama_sm_interpreter.Bytefile.{read_file}
use lama_sm_interpreter.Bytefile.Roundtrip.{file_of, read_file-file_of}
use lama_sm_interpreter.Instruction.{next_instruction_type}
use lama_sm_interpreter.Byterun.{get_instruction_type}
use lama_sm_interpreter.Byterun.Decoders.{next_instruction_type-eq-get_instruction_type}
use lama_sm_interpreter.Tests.Program.{publics, strings, code, program}

-- The word of - 1.
box_int-unbox_iff_example :
    (FitsBox 18446744073709551615 × (box_int 18446744073709551615 ≡ 18446744073709551615)) ↔ (
      (18446744073709551615 < 2 ^ 64)
      × (is_boxed_int 18446744073709551615 ≡ true)
      × (unbox 18446744073709551615 ≡ 18446744073709551615))
box_int-unbox_iff_example = box_int-unbox_iff 18446744073709551615 18446744073709551615

read_file-file_of_example : read_file (file_of 3 publics strings code) ≡ ok program
unfolding file_of u32_bytes
read_file-file_of_example = read_file-file_of 3 publics strings code (omega arith) (omega arith)

next_instruction_type-eq-get_instruction_type_example :
    next_instruction_type 0x13 ≡ get_instruction_type 0x13
next_instruction_type-eq-get_instruction_type_example =
    next_instruction_type-eq-get_instruction_type 0x13
