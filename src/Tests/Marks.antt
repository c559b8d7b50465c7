-- ===== src/Tests/Marks.antt =====
-- The verifier on the program and on a file whose loop does not end.
use lama_sm_interpreter.Prelude.{
  ℕ, ◌^◌, ◌≡◌, ◌≢◌, ◌↔◌, refl, ◌<◌, List, [], ◌∷◌, inl, inr, some, get_elem?, arith,
}
use lama_sm_interpreter.Result.{ok, err, out_of_fuel}
use lama_sm_interpreter.Word.{minus_one, byte_at, u32_at, u32_bytes}
use lama_sm_interpreter.Bytefile.{c_string, code_byte, code_u32, get_public_offset, get_public_name}
use lama_sm_interpreter.Instruction.{InstructionType, begin, const, dup, cjmp_z}
use lama_sm_interpreter.Byterun.{general_byterun}
use lama_sm_interpreter.Verifier.Effect.{get_new_stack}
use lama_sm_interpreter.Verifier.Marks.{collect_marks, check_arguments}
use lama_sm_interpreter.Verifier.Marks.Seeds.{IsMain}
use lama_sm_interpreter.Verifier.Marks.Paths.{Reach, start, step, Edge, collect_marks_sound}
use lama_sm_interpreter.Verifier.Marks.Exact.{collect_marks-Reach}
use lama_sm_interpreter.Verifier.Marks.Total.{collect_marks-ne-out_of_fuel}
use lama_sm_interpreter.Tests.Program.{program}

-- The marks of the program: -1 inside of the instructions.
abbrev none_in : ℕ
none_in = minus_one

abbrev pub marks : List ℕ
marks =
    0 ∷ none_in ∷ none_in ∷ none_in ∷ none_in ∷ none_in ∷ none_in ∷ none_in ∷ none_in ∷ 0 ∷ none_in
    ∷ none_in ∷ none_in ∷ none_in ∷ 1 ∷ 2 ∷ none_in ∷ none_in ∷ none_in ∷ none_in ∷ 1 ∷ none_in ∷ []

pub collect_marks-program : collect_marks program ≡ ok marks
unfolding collect_marks u32_bytes u32_at byte_at c_string general_byterun code_byte get_new_stack
    code_u32
collect_marks-program = refl

pub IsMain-first : IsMain program 0 0
unfolding get_public_offset get_public_name u32_at u32_bytes byte_at c_string
IsMain-first = record { offset = refl; name = refl }

pub begin_edge : Edge program 0 0 9 0
unfolding general_byterun get_new_stack code_byte u32_bytes
begin_edge = record {
  nxt = 9;
  ty = begin;
  cur = 0;
  decodes = refl;
  effect = refl;
  goes = (refl, refl);
}

at_const : Edge program 9 0 14 1
unfolding general_byterun get_new_stack code_byte u32_bytes
at_const = record {
  nxt = 14;
  ty = const;
  cur = 1;
  decodes = refl;
  effect = refl;
  goes = (refl, refl);
}

at_dup : Edge program 14 1 15 2
unfolding general_byterun get_new_stack code_byte u32_bytes
at_dup = record { nxt = 15; ty = dup; cur = 2; decodes = refl; effect = refl; goes = (refl, refl) }

jumps : Edge program 15 2 20 1
unfolding general_byterun get_new_stack code_byte code_u32 u32_bytes
jumps = record {
  nxt = 20;
  ty = cjmp_z;
  cur = 1;
  decodes = refl;
  effect = refl;
  goes = (inl refl, refl);
}

falls : Edge program 15 2 20 1
unfolding general_byterun get_new_stack code_byte u32_bytes
falls = record {
  nxt = 20;
  ty = cjmp_z;
  cur = 1;
  decodes = refl;
  effect = refl;
  goes = (inr refl, refl);
}

to_branch : Reach program 15 2
to_branch = step (step (step (start 0 IsMain-first (omega arith) refl) begin_edge) at_const) at_dup

collect_marks_sound_example :
    (get_elem? marks 15 ≡ some 2)
    × ((nxt : ℕ) × (ty : InstructionType) × (cur : ℕ) × (general_byterun program 15 ≡ ok (nxt, ty))
        × (check_arguments program 15 2 ty ≡ ok tt)
        × (get_new_stack program 2 15 ty ≡ ok cur)
        × (cur < 2 ^ 31))
collect_marks_sound_example = collect_marks_sound program marks 15 2 collect_marks-program to_branch

collect_marks-Reach_example : (get_elem? marks 15 ≡ some 2) ↔ Reach program 15 2
collect_marks-Reach_example =
    collect_marks-Reach program marks 15 2 collect_marks-program (omega arith)

collect_marks-ne-out_of_fuel_example : collect_marks program ≢ err out_of_fuel
collect_marks-ne-out_of_fuel_example = collect_marks-ne-out_of_fuel program
