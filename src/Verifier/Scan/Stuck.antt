-- ===== src/Verifier/Scan/Stuck.antt =====
-- The loop of `verify` need not end. The size of a CLOSURE is a `uint32_t` that wraps, so that an
-- instruction can be its own successor; where control does not reach it, the loop stays there.
use lama_sm_interpreter.Prelude.{
  ℕ, zero, suc, ◌≡◌, ◌≢◌, ◌<◌, refl, List, get_elem?, arith, some, lt→ltb, ◌==◌, false,
}
use lama_sm_interpreter.Result.{ok, err, out_of_fuel}
use lama_sm_interpreter.Word.{minus_one}
use lama_sm_interpreter.Bytefile.{code_byte}
use lama_sm_interpreter.Instruction.{InstructionType}
use lama_sm_interpreter.Byterun.{general_byterun}
use lama_sm_interpreter.Verifier.Scan.{Scan, scan_marked, scan}

-- A round at an unmarked instruction that is its own successor changes nothing.
scan_marked-stays :
    (visited : List ℕ) (s : Scan) (ty : InstructionType)
    → general_byterun s.bf s.symbol_offset ≡ ok (s.symbol_offset, ty)
    → get_elem? visited s.symbol_offset ≡ some minus_one
    → scan_marked visited s ≡ ok s
unfolding scan_marked
scan_marked-stays visited s ty d u = rw (d, u)

-- At an unmarked instruction that is its own successor the loop of `verify` uses up any fuel.
pub scan-stuck :
    (fuel : ℕ) (visited : List ℕ) (s : Scan) (c : ℕ) (ty : InstructionType)
    → s.symbol_offset < s.bf.code_size
    → code_byte s.bf s.symbol_offset ≡ ok c
    → c ≢ 0xff
    → general_byterun s.bf s.symbol_offset ≡ ok (s.symbol_offset, ty)
    → get_elem? visited s.symbol_offset ≡ some minus_one
    → scan fuel visited s ≡ err out_of_fuel
unfolding scan
scan-stuck zero visited s c ty lt e ne d u = refl
scan-stuck (suc fuel) visited s c ty lt e ne d u =
    let test : (c == 0xff) ≡ false = ground arith in
    rw (lt→ltb _ _ lt, e, test, scan_marked-stays visited s ty d u)
      (scan-stuck fuel visited s c ty lt e ne d u)
