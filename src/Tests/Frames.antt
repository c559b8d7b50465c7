-- ===== src/Tests/Frames.antt =====
-- A call with two arguments, and its return.
use lama_sm_interpreter.Prelude.{
  ℕ, ◌+◌, ◌*◌, ◌<◌, ◌≤◌, ◌/◌, ◌≡◌, ◌⊎◌, true, false, refl, [], ◌∷◌, ltb, if◌then◌else◌, arith,
}
use lama_sm_interpreter.Result.{ok, err, Error}
use lama_sm_interpreter.Machine.{State}
use lama_sm_interpreter.Machine.Frames.{push_stack_frame, pop_stack_frame, get_arg}
use lama_sm_interpreter.Machine.Frames.Calls.{
  HasFrame, HasRoom, push_stack_frame-HasFrame, get_arg-push_stack_frame, push_stack_frame-above,
  pop_stack_frame-HasFrame,
}
use lama_sm_interpreter.Word.{byte_at, u32_at, u32_bytes}
use lama_sm_interpreter.Bytefile.{code_byte, code_u32}
use lama_sm_interpreter.Interp.Control.{call_stack_begin, call_stack_end}
use lama_sm_interpreter.Interp.Control.Calls.{
  returned, resumed, call_stack_end-returns, call_stack_end-resumes, call_stack_begin_lem,
}
use lama_sm_interpreter.Tests.Program.{program}

-- The top is the word 100, and a word holds its address.
abbrev caller : State (Unit {0})
caller = record {
  bf = program;
  code_ptr = 0;
  code_start = 5000;
  stack_data = 10;
  top = 100;
  fp = 200;
  arg_sizes = 1 ∷ [];
  strings_map = [];
  string_counter = 0;
  cells = λ p. p;
  world = tt;
}

room_example : HasRoom caller 2 5050 0
room_example = (omega arith, omega arith, omega arith, omega arith)

push_stack_frame-HasFrame_example :
    (t : State (Unit {0})) × (push_stack_frame 2 5050 0 caller ≡ ok (tt, t))
    × HasFrame caller 2 5050 0 t
push_stack_frame-HasFrame_example =
    push_stack_frame-HasFrame caller 2 5050 0 room_example (omega arith)

-- Its second argument is the word 101.
get_arg-push_stack_frame_example :
    (t : State (Unit {0})) × (push_stack_frame 2 5050 0 caller ≡ ok (tt, t))
    × (get_arg 1 t ≡ ok (101, t))
get_arg-push_stack_frame_example =
    get_arg-push_stack_frame caller 2 5050 0 room_example (omega arith) 1 (omega arith)

push_stack_frame-above_example :
    (t : State (Unit {0})) × (push_stack_frame 2 5050 0 caller ≡ ok (tt, t)) × (t.cells 103 ≡ 103)
push_stack_frame-above_example =
    push_stack_frame-above caller 2 5050 0 room_example (omega arith) 103 (omega arith)

-- The callee at its END, with the saved words below its arguments and the return address `ra`.
abbrev callee : ℕ → State (Unit {0})
callee ra = record caller {
  code_ptr = 20;
  top = 90;
  fp = 97;
  arg_sizes = 2 ∷ 1 ∷ [];
  cells = λ p. if ltb p 99 then 8 * 102 else if ltb p 100 then 8 * 200 else ra;
}

in_place : (ra : ℕ) → HasFrame caller 2 ra 0 (callee ra)
in_place ra = record {
  base = refl;
  low = omega arith;
  high = omega arith;
  sizes = refl;
  address = refl;
  old_fp = refl;
  old_top = refl;
}

pop_stack_frame-HasFrame_example :
    pop_stack_frame (callee 5050)
    ≡ ok (5050, record (callee 5050) { fp = 200; top = 100 + (2 + 0); arg_sizes = 1 ∷ [] })
pop_stack_frame-HasFrame_example =
    pop_stack_frame-HasFrame caller (callee 5050) 2 5050 0 (in_place 5050)

at_end : code_byte program 20 ≡ ok 0x16
unfolding code_byte byte_at u32_bytes
at_end = refl

call_stack_end-returns_example :
    call_stack_end (callee 0) ≡ ok (true, returned caller (callee 0) 2 0 0)
call_stack_end-returns_example =
    call_stack_end-returns caller (callee 0) 2 0 0 0x16 (in_place 0) at_end (omega arith)
      (omega arith) refl

-- The callee's result is the word 91, which holds 816.
call_stack_end-resumes_example :
    call_stack_end (callee 5050) ≡ ok (false, resumed caller (callee 5050) 2 5050 0 816)
call_stack_end-resumes_example =
    call_stack_end-resumes caller (callee 5050) 2 5050 0 0x16 (in_place 5050) at_end (omega arith)
      (omega arith) (omega arith) (omega arith) (omega arith)

begin_words :
    (code_byte program 0 ≡ ok 0x52) × (code_u32 program 1 ≡ ok 2) × (code_u32 program 5 ≡ ok 0)
unfolding code_byte code_u32 u32_at byte_at u32_bytes
begin_words = (refl, refl, refl)

call_stack_begin_lem_example :
    ((10 + 2 / 65536 + 0 ≤ 100 + 1)
      × ((t : State (Unit {0})) × (call_stack_begin caller ≡ ok (tt, t))
          × (t.top + 0 ≡ 100)
          × (t.stack_data + 2 / 65536 ≤ t.top + 1)))
    ⊎ ((100 + 1 < 10 + 2 / 65536 + 0) × (call_stack_begin caller ≡ err (Error.stack_overflow 0)))
call_stack_begin_lem_example =
    call_stack_begin_lem caller 0x52 2 0 begin_words.0 begin_words.1 begin_words.2 (omega arith)
