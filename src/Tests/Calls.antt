-- ===== src/Tests/Calls.antt =====
-- Calls and whole runs of the interpreter: the program of Tests/Adding.antt.
use lama_sm_interpreter.Prelude.{
  ℕ, ◌+◌, ◌-◌, ◌<◌, ◌≤◌, ◌≡◌, ◌⊎◌, refl, sym, subst, inl, inr, [], ◌∷◌, arith,
}
use lama_sm_interpreter.Result.{ok}
use lama_sm_interpreter.Word.{byte_at, u32_at, u32_bytes}
use lama_sm_interpreter.Word.Boxing.{box_int}
use lama_sm_interpreter.Bytefile.{c_string, code_byte, code_u32}
use lama_sm_interpreter.Instruction.{next_instruction_type, const, call, end}
use lama_sm_interpreter.Byterun.{general_byterun}
use lama_sm_interpreter.Verifier.Effect.{get_new_stack}
use lama_sm_interpreter.Verifier.Marks.Paths.{Edge, Edge-Goes}
use lama_sm_interpreter.Machine.{State, update, max_stack, store}
use lama_sm_interpreter.Interp.Runtime.{call_runtime}
use lama_sm_interpreter.Interp.Loop.{
  new_state, frame_stack, intern_strings, intern_string, interpret,
}
use lama_sm_interpreter.Interp.Progress.{IsReady}
use lama_sm_interpreter.Interp.Progress.Rounds.{Works}
use lama_sm_interpreter.Interp.Progress.Bodies.{Stands, IsCall, HasSpace, Returned, CallsAt}
use lama_sm_interpreter.Interp.Progress.Functions.{IsFunction}
use lama_sm_interpreter.Interp.Progress.Calls.{call-Returned, IsFunction-Callable}
use lama_sm_interpreter.Interp.Progress.Programs.{interpret-returns}
use lama_sm_interpreter.Tests.Steps.{runtime}
use lama_sm_interpreter.Tests.Adding.{
  adding, marks, InBody, collect_marks-adding, edge_at, not_at, to_main, adds,
}

-- At the CALL, with 5 and 7 on the stack.
abbrev at_call : State ℕ
at_call = record (new_state adding 5000 10 (λ p. 0) 0) {
  code_ptr = 19;
  top = 98;
  fp = 101;
  string_counter = 1;
  cells = update (update (λ p. 0) 100 (box_int 5)) 99 (box_int 7);
}

first-IsCall : IsCall adding 19 29 2
unfolding u32_bytes u32_at byte_at code_byte code_u32 next_instruction_type
first-IsCall = record { stands = (0x56, refl, refl); to = refl; nargs = refl }

at_call-HasSpace : HasSpace at_call 2 5
unfolding new_state u32_bytes
at_call-HasSpace = record {
  placed = omega arith;
  below = omega arith;
  args = omega arith;
  globals = omega arith;
}

call-Returned_example : Returned runtime at_call 2
unfolding new_state u32_bytes
call-Returned_example =
    call-Returned runtime at_call marks 29 2 131074 1 2 InBody collect_marks-adding refl
      (omega arith) (omega arith) (omega arith) (omega arith) adds first-IsCall at_call-HasSpace

-- Behind the BEGIN of the callee.
abbrev in_body : State ℕ
in_body = record at_call { code_ptr = 38; top = 94; fp = 95; arg_sizes = 2 ∷ [] }

-- The body of the first function.
abbrev InFirst : ℕ → ℕ → Type 0
InFirst o d =
    ((o ≡ 9) × (d ≡ 0)) ⊎ ((o ≡ 14) × (d ≡ 1)) ⊎ ((o ≡ 19) × (d ≡ 2)) ⊎ ((o ≡ 28) × (d ≡ 1))

five : Works adding 0 0 8 9 0
unfolding u32_bytes u32_at byte_at code_byte get_new_stack code_u32 next_instruction_type
five = record {
  byte = 0x10;
  reads = refl;
  ready = (5, refl);
  effect = 1;
  leaves = refl;
  shallow = omega arith;
}

seven : Works adding 0 0 8 14 1
unfolding u32_bytes u32_at byte_at code_byte get_new_stack code_u32 next_instruction_type
seven = record {
  byte = 0x10;
  reads = refl;
  ready = (7, refl);
  effect = 2;
  leaves = refl;
  shallow = omega arith;
}

-- It calls the other one.
sums : CallsAt runtime adding 8 19 2
unfolding general_byterun get_new_stack code_byte u32_bytes code_u32 u32_at byte_at
sums = record {
  target = 29;
  n = 2;
  need = 5;
  calls = first-IsCall;
  callable =
      IsFunction-Callable runtime adding marks 29 2 131074 1 2 InBody collect_marks-adding refl
        (omega arith) (omega arith) (omega arith) (omega arith) adds;
  enough = omega arith;
  space = omega arith;
  edge = record {
    nxt = 28;
    ty = call;
    cur = 1;
    decodes = refl;
    effect = refl;
    goes = inr (refl, refl);
  };
}

first_end : Stands adding 28 end
unfolding u32_bytes byte_at code_byte next_instruction_type
first_end = (0x16, refl, refl)

abbrev Stays : ℕ → ℕ → Type 0
Stays o d = Stands adding o end ⊎ (Works adding 0 0 8 o d ⊎ CallsAt runtime adding 8 o d)

Stays-at : (o d k m : ℕ) → o ≡ k → d ≡ m → Stays k m → Stays o d
Stays-at o d k m a b h = subst (λ n. Stays n d) (sym a) (subst (λ n. Stays k n) (sym b) h)

Stays-in : (o d : ℕ) → InFirst o d → Stays o d
Stays-in o d (inl (a, b)) = Stays-at o d 9 0 a b (inr (inl five))
Stays-in o d (inr (inl (a, b))) = Stays-at o d 14 1 a b (inr (inl seven))
Stays-in o d (inr (inr (inl (a, b)))) = Stays-at o d 19 2 a b (inr (inr sums))
Stays-in o d (inr (inr (inr (a, b)))) = Stays-at o d 28 1 a b (inl first_end)

-- A CALL is not one of the instructions that are ready by themselves.
calls_only : (o d : ℕ) → o ≡ 19 → Works adding 0 0 8 o d → ⊥
unfolding u32_bytes byte_at code_byte next_instruction_type
calls_only o d a w =
    let reads : code_byte adding 19 ≡ ok w.byte =
      subst (λ n. code_byte adding n ≡ ok w.byte) a w.reads in
    let byte : w.byte ≡ 0x56 = ground arith in
    subst (λ c. IsReady adding o c 0 0 d (next_instruction_type c)) byte w.ready

module _ (o d o' d' : ℕ) where
  goes_on_first :
      InFirst o d → Works adding 0 0 8 o d → Edge adding o d o' d' → InFirst o' d' × (o < o')
  unfolding general_byterun get_new_stack code_byte u32_bytes
  goes_on_first (inl (a, b)) w e =
      let g = Edge-Goes adding 9 0 o' d' 14 1 const refl refl (edge_at o d 9 0 o' d' a b e) in
      (inr (inl g), omega arith)
  goes_on_first (inr (inl (a, b))) w e =
      let g = Edge-Goes adding 14 1 o' d' 19 2 const refl refl (edge_at o d 14 1 o' d' a b e) in
      (inr (inr (inl g)), omega arith)
  goes_on_first (inr (inr (inl (a, b)))) w e = absurd (calls_only o d a w)
  goes_on_first (inr (inr (inr (a, b)))) w e =
      absurd (Edge-Goes adding 28 1 o' d' 29 1 end refl refl (edge_at o d 28 1 o' d' a b e))

behind_first :
    (o d : ℕ) → InFirst o d → (c : CallsAt runtime adding 8 o d) → InFirst (o + 9) (d + 1 - c.n)
unfolding u32_bytes u32_at byte_at code_byte code_u32 next_instruction_type
behind_first o d (inl (a, b)) c =
    absurd (not_at o 9 0x10 const call a refl refl (λ e. cc) (c.calls.stands))
behind_first o d (inr (inl (a, b))) c =
    absurd (not_at o 14 0x10 const call a refl refl (λ e. cc) (c.calls.stands))
behind_first o d (inr (inr (inl (a, b)))) c =
    let nargs : code_u32 adding (19 + 5) ≡ ok (c.n) =
      subst (λ k. code_u32 adding (k + 5) ≡ ok (c.n)) a (c.calls.nargs) in
    let two : c.n ≡ 2 = ground arith in inr (inr (inr (omega arith, omega arith)))
behind_first o d (inr (inr (inr (a, b)))) c =
    absurd (not_at o 28 0x16 end call a refl refl (λ e. cc) (c.calls.stands))

result_first : (o d : ℕ) → InFirst o d → Stands adding o end → 1 ≤ d
unfolding u32_bytes byte_at code_byte next_instruction_type
result_first o d (inl (a, b)) h = absurd (not_at o 9 0x10 const end a refl refl (λ e. cc) h)
result_first o d (inr p) h = ground arith

first : IsFunction runtime adding 0 0 131074 0 8 InFirst
unfolding u32_bytes u32_at byte_at code_byte code_u32 next_instruction_type
first = record {
  begins = (0x52, refl, refl);
  counted = refl;
  locals = refl;
  reached = to_main;
  starts = inl (refl, refl);
  body = record {
    inside = λ o d p. ground arith;
    shallow = λ o d p. ground arith;
    works = Stays-in;
    closed = λ o d o' d' p w e. goes_on_first o d o' d' p w e;
    behind = behind_first;
  };
  result = result_first;
}

-- The machine in front of `interpret`, and behind the constructor of `FrameStack`.
abbrev fresh : State ℕ
fresh = new_state adding 5000 10 (λ p. 0) 0

abbrev laid_out : State ℕ
laid_out = record fresh {
  strings_map = (0, 0) ∷ [];
  string_counter = 1;
  top = 10 + max_stack - 5 - 3;
  cells = update (λ p. 0) (10 + max_stack - 1) 16;
  world = 1;
}

lays_out : frame_stack runtime fresh ≡ ok (tt, laid_out)
unfolding frame_stack intern_strings intern_string new_state c_string call_runtime store u32_bytes
lays_out = refl

laid_out-HasSpace : HasSpace laid_out 0 10
unfolding new_state u32_bytes
laid_out-HasSpace = record {
  placed = omega arith;
  below = omega arith;
  args = omega arith;
  globals = omega arith;
}

interpret-returns_example :
    (fuel : ℕ) × (s' : State ℕ) × ((more : ℕ) → interpret runtime (fuel + more) fresh ≡ ok (tt, s'))
    × (s'.top ≡ 10 + max_stack - 5 - 3)
    × (s'.fp ≡ 0)
    × (s'.arg_sizes ≡ [])
unfolding new_state u32_bytes
interpret-returns_example =
    interpret-returns runtime fresh laid_out marks 131074 0 8 InFirst lays_out collect_marks-adding
      refl (omega arith) (omega arith) (omega arith) first laid_out-HasSpace
