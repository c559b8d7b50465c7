-- ===== src/Tests/Mains.antt =====
-- `main` with the option -i on the file of the program.
use lama_sm_interpreter.Prelude.{ℕ, ◌-◌, ◌*◌, ◌≡◌, refl, some, List, [], ◌∷◌}
use lama_sm_interpreter.Result.{ok}
use lama_sm_interpreter.Word.{byte_at, u32_at, u32_bytes}
use lama_sm_interpreter.Word.Boxing.{box_int}
use lama_sm_interpreter.Word.Signed.{max_s32}
use lama_sm_interpreter.Bytefile.{Bytefile, c_string, code_byte, code_u32, read_file, unpack}
use lama_sm_interpreter.Bytefile.Bounds.{IsUnpacked}
use lama_sm_interpreter.Bytefile.Roundtrip.{file_of}
use lama_sm_interpreter.Byterun.{general_byterun}
use lama_sm_interpreter.Verifier.Effect.{get_new_stack}
use lama_sm_interpreter.Verifier.Marks.{collect_marks, same_bytes}
use lama_sm_interpreter.Verifier.Scan.{
  verify, scan, scan_marked, scan_instruction, scan_end, scan_jump, upper_half, set_upper_half,
}
use lama_sm_interpreter.Machine.{
  State, update, load, store, consume0, consume1, consume2, to_pointer,
}
use lama_sm_interpreter.Machine.Frames.{
  push_op, peek_op, pop_op, push_stack_frame, pop_stack_frame, reserve_locals,
}
use lama_sm_interpreter.Interp.Runtime.{call_runtime}
use lama_sm_interpreter.Interp.Stack.{stack_const, stack_dup}
use lama_sm_interpreter.Interp.Control.{jump_if_zero, call_stack_begin, call_stack_end, return_to}
use lama_sm_interpreter.Interp.Loop.{
  new_state, interpret, frame_stack, intern_strings, intern_string, run, round, run_instruction,
}
use lama_sm_interpreter.Analyzer.Results.{Sort}
use lama_sm_interpreter.Program.{
  interpreted, Surroundings, open_file, interpret_mode, run_interpreter, run_mode, main,
}
use lama_sm_interpreter.Program.Accepts.{main-accepts}
use lama_sm_interpreter.Tests.Program.{publics, strings, code, program}
use lama_sm_interpreter.Tests.Steps.{runtime}

abbrev unsorted : {A : Type 0} → Sort A
unsorted less xs = ok xs

-- One file, whatever its name.
abbrev around : Surroundings ℕ
around = record {
  file = λ name. some (file_of 3 publics strings code);
  code_start = 5000;
  stack_data = 10;
  cells = λ p. 0;
  world = 0;
}

abbrev verified : Bytefile
verified = set_upper_half program 1 2

-- The top behind the string table and the globals.
abbrev top : ℕ
top = 67108866

-- The string, the frame of `main` with its saved words, and its two operands.
abbrev last : State ℕ
last = record (new_state verified 5000 10 (λ p. 0) 0) {
  code_ptr = 21;
  top = top;
  strings_map = (0, 0) ∷ [];
  string_counter = 1;
  cells =
      update
        (update
          (update (update (update (update (λ p. 0) 67108873 16) top 0) (top - 1) 0) (top - 2)
            (8 * top))
          (top - 3) 11)
        (top - 4) 11;
  world = 1;
}

interprets :
    main unsorted unsorted runtime around 6 ((112 ∷ []) ∷ interpret_mode ∷ (102 ∷ []) ∷ [])
    ≡ ok (interpreted last)
unfolding main run_mode run_interpreter same_bytes open_file read_file unpack file_of new_state
    interpret frame_stack intern_strings intern_string run round run_instruction call_stack_begin
    call_stack_end return_to jump_if_zero stack_const stack_dup call_runtime push_op peek_op pop_op
    push_stack_frame pop_stack_frame reserve_locals load store consume0 consume1 consume2 to_pointer
    box_int verify scan scan_marked scan_instruction scan_end scan_jump upper_half set_upper_half
    collect_marks u32_bytes u32_at byte_at c_string general_byterun code_byte get_new_stack code_u32
    max_s32
interprets = refl

main-accepts_example :
    (bytes : List ℕ) × (bf : Bytefile) × (accepted : Bytefile) × (some
        (file_of 3 publics strings code)
      ≡ some bytes)
    × (read_file bytes ≡ ok bf)
    × (verify 6 bf ≡ ok accepted)
    × ((visited : List ℕ) × (collect_marks bf ≡ ok visited))
    × IsUnpacked accepted
    × (interpret runtime 6 (new_state accepted 5000 10 (λ p. 0) 0) ≡ ok (tt, last))
main-accepts_example =
    main-accepts unsorted unsorted runtime around 6 (112 ∷ []) (102 ∷ []) [] last interprets
