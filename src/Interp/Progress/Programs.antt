-- ===== src/Interp/Progress/Programs.antt =====
-- `interpret` from its first instruction to the END of the outermost function.
use lama_sm_interpreter.Prelude.{
  ℕ, suc, ◌+◌, ◌/◌, ◌≤◌, ◌<◌, ◌^◌, ◌≡◌, refl, ap, ◌∙◌, List, arith, true,
}
use lama_sm_interpreter.Result.{ok}
use lama_sm_interpreter.Bytefile.Bounds.{IsUnpacked}
use lama_sm_interpreter.Instruction.{end}
use lama_sm_interpreter.Verifier.Marks.{collect_marks}
use lama_sm_interpreter.Machine.{State, ◌>>=◌}
use lama_sm_interpreter.Machine.Frames.Calls.{HasRoom, push_stack_frame_lem}
use lama_sm_interpreter.Interp.Runtime.{Runtime}
use lama_sm_interpreter.Interp.Control.Calls.{returned, call_stack_end-returns}
use lama_sm_interpreter.Interp.Loop.{run_instruction, round, run, frame_stack, interpret}
use lama_sm_interpreter.Interp.Progress.Bodies.{HasSpace}
use lama_sm_interpreter.Interp.Progress.Functions.{
  round-Stands, IsFunction, AtEnd, called, called-AtEnd,
}

-- A round in which `interpret` returns.
run-last :
    {W : Type 0} (R : Runtime W) (s s' : State W) (fuel : ℕ)
    → round R s ≡ ok (true, s')
    → run R (1 + fuel) s ≡ ok (tt, s')
unfolding run
run-last R s s' fuel h =
    let e : 1 + fuel ≡ suc fuel = omega arith in ap (λ n. run R n s) e ∙ rw (h, ◌>>=◌)

module _ {W : Type 0} (R : Runtime W) (s : State W) (room : HasRoom s 0 0 0)
    (few : 0 + 0 < 2 ^ 32) where
  abbrev outermost : State W
  outermost = called R s s.code_ptr 0 0 room few

  module _ (a : AtEnd R s outermost 0 0) where
    ends-round : round R a.state ≡ ok (true, returned s a.state 0 0 0)
    unfolding run_instruction
    ends-round =
        round-Stands R a.state (returned s a.state 0 0 0) end true a.ends
          (call_stack_end-returns s a.state 0 0 0 a.ends.0 a.framed a.ends.1 a.low a.high refl)

    runs-out :
        (more : ℕ) → run R (a.runs.0 + 1 + more) outermost ≡ ok (tt, returned s a.state 0 0 0)
    runs-out more =
        let e : a.runs.0 + 1 + more ≡ a.runs.0 + (1 + more) = omega arith in
        ap (λ n. run R n outermost) e
        ∙ a.runs.1 (1 + more)
        ∙ run-last R a.state (returned s a.state 0 0 0) more ends-round

-- In a file that was unpacked, shorter than 2 ^ 32 bytes, and that `collect_marks` accepts: when the
-- constructor of `FrameStack` has made the stack, the code that is to run first is a function without
-- arguments that starts with BEGIN. Its
-- body, which `collect_marks` reaches, goes forwards only, from each instruction to later ones, up to
-- an END with an operand. Its instructions in front of END are CONST, JMP, CJMPz, CJMPnz, DROP, DUP,
-- SWAP, LINE, BINOP but for DIV and MOD, and LD, LDA and ST of a global, a local or an argument that
-- exists, with enough operands for each and fewer than 2 ^ 31 of them, and CALLs of functions that
-- come back in the space that is left.
-- Where there is space on the stack for the frame, the locals and the operands, at
-- least as many as the first argument of BEGIN says, below the globals, there is a fuel from which on
-- `interpret` returns, without an exception, always in the same state, with the top, the frame pointer
-- and the argument counts that the constructor left.
pub interpret-returns :
    {W : Type 0} (R : Runtime W) (s s₀ : State W) (w : List ℕ) (arg n_locals deepest : ℕ)
    (P : ℕ → ℕ → Type 0)
    → frame_stack R s ≡ ok (tt, s₀)
    → collect_marks s₀.bf ≡ ok w
    → IsUnpacked s₀.bf
    → s₀.bf.code_size < 2 ^ 32
    → deepest < 2 ^ 31
    → arg / 65536 ≤ deepest
    → IsFunction R s₀.bf s₀.code_ptr 0 arg n_locals deepest P
    → HasSpace s₀ 0 (deepest + n_locals + 2)
    → (fuel : ℕ) × (s' : State W) × ((more : ℕ) → interpret R (fuel + more) s ≡ ok (tt, s'))
      × (s'.top ≡ s₀.top)
      × (s'.fp ≡ s₀.fp)
      × (s'.arg_sizes ≡ s₀.arg_sizes)
unfolding interpret
interpret-returns R s s₀ w arg n_locals deepest P made marks u short small holds f h =
    let room : HasRoom s₀ 0 0 0 =
      (h.placed, omega (arith, h.below), h.args, omega (arith, h.args)) in
    let few : 0 + 0 < 2 ^ 32 = omega arith in
    let a =
      called-AtEnd R s₀ s₀.code_ptr 0 0 room few arg n_locals deepest P f holds
        (omega (arith, h.below)) h.globals w marks u short small in
    (
      a.runs.0 + 1,
      returned s₀ a.state 0 0 0,
      λ more. rw (made, ◌>>=◌, push_stack_frame_lem s₀ 0 0 0 room) (runs-out R s₀ room few a more),
      omega arith,
      refl,
      refl,
    )
