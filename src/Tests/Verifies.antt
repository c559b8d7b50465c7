-- ===== src/Tests/Verifies.antt =====
-- `verify` on the file of the program.
use lama_sm_interpreter.Prelude.{ℕ, ◌≡◌, refl, List, arith}
use lama_sm_interpreter.Result.{ok}
use lama_sm_interpreter.Word.{byte_at, u32_at, u32_bytes}
use lama_sm_interpreter.Word.Signed.{max_s32}
use lama_sm_interpreter.Bytefile.{Bytefile, c_string, code_byte, code_u32}
use lama_sm_interpreter.Bytefile.Bounds.{IsUnpacked}
use lama_sm_interpreter.Bytefile.Roundtrip.{file_of, read_file-file_of}
use lama_sm_interpreter.Byterun.{general_byterun}
use lama_sm_interpreter.Verifier.Effect.{get_new_stack}
use lama_sm_interpreter.Verifier.Marks.{collect_marks}
use lama_sm_interpreter.Verifier.Scan.{
  Scan, verify, scan, scan_marked, scan_instruction, scan_end, scan_jump, upper_half,
  set_upper_half,
}
use lama_sm_interpreter.Verifier.Scan.Keeps.{Keeps, verify-Keeps}
use lama_sm_interpreter.Tests.Program.{publics, strings, code, program}

-- The depth 2 stands in BEGIN.
abbrev verified : Bytefile
verified = set_upper_half program 1 2

accepts : verify 6 program ≡ ok verified
unfolding verify scan scan_marked scan_instruction scan_end scan_jump upper_half set_upper_half
    collect_marks u32_bytes u32_at byte_at c_string general_byterun code_byte get_new_stack code_u32
    max_s32
accepts = refl

verify-Keeps_example :
    ((visited : List ℕ) × (collect_marks program ≡ ok visited))
    × Keeps program verified
    × IsUnpacked verified
unfolding file_of
verify-Keeps_example =
    verify-Keeps (file_of 3 publics strings code) program verified 6
      (read_file-file_of 3 publics strings code (omega arith) (omega arith)) accepts

-- The loop in front of each instruction up to CJMPz.
abbrev in_front : ℕ → ℕ → List ℕ → Scan
in_front symbol_offset max_stack begin_offsets = record {
  bf = program;
  symbol_offset = symbol_offset;
  max_stack = max_stack;
  begin_offsets = begin_offsets;
}
