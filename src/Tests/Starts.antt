-- ===== src/Tests/Starts.antt =====
-- The constructor of `FrameStack` on the program, and the traversal of the analyzer.
use lama_sm_interpreter.Prelude.{
  ℕ, ◌+◌, ◌-◌, ◌≤◌, ◌<◌, ◌≡◌, ◌≢◌, ◌↔◌, refl, true, List, [], ◌∷◌, ◌++◌, arith,
}
use lama_sm_interpreter.Result.{ok, err, out_of_fuel}
use lama_sm_interpreter.Word.{byte_at, u32_at, u32_bytes}
use lama_sm_interpreter.Bytefile.{
  Bytefile, c_string, code_byte, code_u32, get_public_offset, read_file, unpack, plus_int,
}
use lama_sm_interpreter.Byterun.{general_byterun}
use lama_sm_interpreter.Machine.{State, update, store, stack_bottom, max_stack}
use lama_sm_interpreter.Machine.Frames.{find_string, get_global_link}
use lama_sm_interpreter.Interp.Runtime.{call_runtime}
use lama_sm_interpreter.Interp.Loop.{new_state, frame_stack, intern_strings, intern_string}
use lama_sm_interpreter.Interp.Loop.Start.{frame_stack-layout}
use lama_sm_interpreter.Interp.Loop.Ends.{frame_stack-ne-out_of_fuel}
use lama_sm_interpreter.Analyzer.{
  Analyzer, analyze, collect_flags, flag_symbols, flag_all, flag_from, flag_instruction,
  flag_target, flag_behind, flag_next, push_flagged, test_flag, set_flag, add_instruction, branch,
  check_label, check_nxt, process_from, process_instruction, process_label, process_labels,
  process_round, start_labels, traverse_code,
}
use lama_sm_interpreter.Analyzer.Flagged.{times, flagged}
use lama_sm_interpreter.Analyzer.Ends.Labels.{analyze-ne-out_of_fuel}
use lama_sm_interpreter.Analyzer.Once.{analyze-once}
use lama_sm_interpreter.Analyzer.Reached.{Reached}
use lama_sm_interpreter.Analyzer.Reached.Exact.{analyze-Reached}
use lama_sm_interpreter.Tests.Program.{program}
use lama_sm_interpreter.Tests.Steps.{runtime}

abbrev fresh : State ℕ
fresh = new_state program 5000 10 (λ p. 0) 0

-- One string, "main", in a table of five bytes, and three globals.
abbrev laid_out : State ℕ
laid_out = record fresh {
  top = 10 + max_stack - 8;
  strings_map = (0, 0) ∷ [];
  string_counter = 1;
  cells = update (λ p. 0) (9 + max_stack) 16;
  world = 1;
}

lays_out : frame_stack runtime fresh ≡ ok (tt, laid_out)
unfolding frame_stack intern_strings intern_string new_state c_string call_runtime store u32_bytes
lays_out = refl

frame_stack-layout_example :
    (laid_out.string_counter ≤ 5)
    × (laid_out.top + 5 + 3 ≡ stack_bottom laid_out)
    × ((index : ℕ) → 0 < 1 → find_string index ((0, 0) ∷ []) < 1)
    × ((index : ℕ)
        → index < 3
        → (get_global_link laid_out index + 1 < stack_bottom laid_out)
          × (laid_out.top + (5 - 1) ≤ get_global_link laid_out index))
unfolding new_state
frame_stack-layout_example =
    frame_stack-layout runtime fresh laid_out refl refl (omega arith) lays_out

frame_stack-ne-out_of_fuel_example : frame_stack runtime fresh ≢ err out_of_fuel
frame_stack-ne-out_of_fuel_example =
    frame_stack-ne-out_of_fuel runtime (λ bytes world cells top. tt) fresh

abbrev done : Analyzer
done = record {
  collect_single = 0 ∷ 9 ∷ 14 ∷ 15 ∷ 20 ∷ [];
  collect_pairs = 0 ∷ 9 ∷ 14 ∷ [];
  prev_ptr = 20;
  prev_initialized = true;
  visited =
      7 ∷ 0 ∷ 0 ∷ 0 ∷ 0 ∷ 0 ∷ 0 ∷ 0 ∷ 0 ∷ 5 ∷ 0 ∷ 0 ∷ 0 ∷ 0 ∷ 5 ∷ 5 ∷ 0 ∷ 0 ∷ 0 ∷ 0 ∷ 7 ∷ 4 ∷ [];
  labels = [];
}

traverses : analyze program ≡ ok done
unfolding analyze general_byterun get_public_offset u32_at code_byte byte_at u32_bytes code_u32
    collect_flags flag_symbols flag_all flag_from flag_instruction flag_target flag_behind flag_next
    push_flagged test_flag set_flag add_instruction branch check_label check_nxt process_from
    process_instruction process_label process_labels process_round start_labels traverse_code
traverses = refl

analyze-once_example :
    (times 14 done.collect_single ≡ flagged done.visited 14) × (times 14 done.collect_single ≤ 1)
analyze-once_example = analyze-once program done traverses 14

-- The instruction behind the first one.
analyze-Reached_example : (times 9 done.collect_single ≡ 1) ↔ Reached program 9
analyze-Reached_example = analyze-Reached program done traverses 9

-- One public symbol and a string table of - 4 bytes: the code starts in the middle of the symbol.
abbrev overlapping : List ℕ
overlapping =
    u32_bytes 4294967292 ++ (u32_bytes 0 ++ (u32_bytes 1 ++ (u32_bytes 0 ++ u32_bytes 20)))

overlaps :
    read_file overlapping
    ≡ ok (record {
      code_size = 4;
      string_ptr = 8;
      public_ptr = 0;
      code_ptr = 4;
      stringtab_size = 4294967292;
      global_area_size = 0;
      public_symbols_number = 1;
      buffer = 0 ∷ 0 ∷ 0 ∷ 0 ∷ 20 ∷ 0 ∷ 0 ∷ 0 ∷ [];
    })
unfolding read_file unpack plus_int u32_at byte_at u32_bytes
overlaps = refl

analyze-ne-out_of_fuel_example : analyze program ≢ err out_of_fuel
analyze-ne-out_of_fuel_example = analyze-ne-out_of_fuel program
