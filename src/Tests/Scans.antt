-- ===== src/Tests/Scans.antt =====
-- The pass of the verifier behind its marks.
use lama_sm_interpreter.Prelude.{ℕ, ◌+◌, ◌*◌, ◌%◌, ◌≢◌, ◌≡◌, refl, [], ◌∷◌, replicate, arith}
use lama_sm_interpreter.Result.{ok, err, out_of_fuel}
use lama_sm_interpreter.Word.{minus_one, byte_at, u32_at, u32_bytes}
use lama_sm_interpreter.Bytefile.{Bytefile, code_byte, code_u32}
use lama_sm_interpreter.Bytefile.Roundtrip.{bytefile_of}
use lama_sm_interpreter.Instruction.{closure}
use lama_sm_interpreter.Byterun.{general_byterun}
use lama_sm_interpreter.Verifier.Scan.{Scan, scan, scan_end, set_upper_half, upper_half}
use lama_sm_interpreter.Verifier.Scan.Depths.{scan_end-depth}
use lama_sm_interpreter.Verifier.Scan.Stuck.{scan-stuck}
use lama_sm_interpreter.Tests.Program.{program}

-- A CLOSURE of 3435973835 designations: its length is 4 * 2 ^ 32.
abbrev stuck_program : Bytefile
stuck_program = bytefile_of 0 [] [] (0x54 ∷ 0 ∷ 0 ∷ 0 ∷ 0 ∷ 0xcb ∷ 0xcc ∷ 0xcc ∷ 0xcc ∷ [])

abbrev at_closure : Scan
at_closure = record { bf = stuck_program; symbol_offset = 0; max_stack = 0; begin_offsets = [] }

closure_byte : code_byte stuck_program 0 ≡ ok 0x54
unfolding code_byte
closure_byte = refl

own_successor : general_byterun stuck_program 0 ≡ ok (0, closure)
unfolding general_byterun code_byte byte_at code_u32 u32_at
own_successor = refl

scan-stuck_example : scan 5 (replicate 9 minus_one) at_closure ≡ err out_of_fuel
scan-stuck_example =
    scan-stuck 5 (replicate 9 minus_one) at_closure 0x54 closure (omega arith) closure_byte
      (omega arith) own_successor refl

-- The END of the program, behind operands of a depth that 16 bits do not hold.
abbrev at_end : Scan
at_end = record { bf = program; symbol_offset = 20; max_stack = 65538; begin_offsets = 0 ∷ [] }

abbrev behind_end : Scan
behind_end = record at_end {
  bf = set_upper_half program 1 65538;
  max_stack = minus_one;
  begin_offsets = [];
}

two_args : code_u32 program 1 ≡ ok 2
unfolding code_u32 u32_at byte_at u32_bytes
two_args = refl

ends : scan_end at_end ≡ ok behind_end
unfolding scan_end upper_half code_byte byte_at u32_bytes
ends = refl

-- The depth 2 is written.
scan_end-depth_example :
    (code_u32 behind_end.bf 1 ≡ ok (2 + 65538 % 65536 * 65536))
    × ((p : ℕ) → p ≢ 3 → p ≢ 4 → code_byte behind_end.bf p ≡ code_byte program p)
scan_end-depth_example = scan_end-depth at_end behind_end 0 [] 2 refl two_args ends
