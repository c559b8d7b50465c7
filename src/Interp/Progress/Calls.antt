-- ===== src/Interp/Progress/Calls.antt =====
-- A whole call: CALL, BEGIN, the body of the callee, and END.
use lama_sm_interpreter.Prelude.{
  ℕ, ◌+◌, ◌/◌, ◌≤◌, ◌<◌, ◌^◌, ◌≡◌, refl, sym, subst, List, arith, false,
}
use lama_sm_interpreter.Result.{ok}
use lama_sm_interpreter.Bytefile.{Bytefile}
use lama_sm_interpreter.Bytefile.Bounds.{IsUnpacked}
use lama_sm_interpreter.Instruction.{call, end}
use lama_sm_interpreter.Verifier.Marks.{collect_marks}
use lama_sm_interpreter.Machine.{State, ◌>>=◌, consume2}
use lama_sm_interpreter.Machine.Frames.Calls.{HasRoom, push_stack_frame_lem}
use lama_sm_interpreter.Interp.Runtime.{Runtime}
use lama_sm_interpreter.Interp.Control.{call_stack_call}
use lama_sm_interpreter.Interp.Control.Calls.{resumed, call_stack_end-resumes}
use lama_sm_interpreter.Interp.Loop.{run_instruction, round}
use lama_sm_interpreter.Interp.Progress.Bodies.{
  IsCall, HasSpace, Returned, Callable, RunsTo-round, RunsTo-trans,
}
use lama_sm_interpreter.Interp.Progress.Functions.{
  round-Stands, IsFunction, AtEnd, called, called-AtEnd,
}

module _ {W : Type 0} (R : Runtime W) (s : State W) (target n : ℕ) where
  abbrev return_address : ℕ
  return_address = s.code_start + (s.code_ptr + 9)

  module _ (room : HasRoom s n return_address 0) (few : n + 0 < 2 ^ 32)
      (c : IsCall s.bf s.code_ptr target n) where
    call-round : round R s ≡ ok (false, called R s target n return_address room few)
    unfolding run_instruction call_stack_call consume2
    call-round =
        round-Stands R s (called R s target n return_address room few) call false c.stands (
          rw (
            c.stands.1,
            ◌>>=◌,
            c.to,
            c.nargs,
            push_stack_frame_lem (record s { code_ptr = s.code_ptr + 9 }) n return_address 0 room,
          ))

    -- Behind the END of the callee.
    module _ (a : AtEnd R s (called R s target n return_address room few) n return_address) where
      abbrev behind : State W
      behind = resumed s a.state n return_address 0 (a.state.cells (a.state.top + 1))

      end-round : round R a.state ≡ ok (false, behind)
      unfolding run_instruction
      end-round = round-Stands R a.state behind end false a.ends (
          call_stack_end-resumes s a.state n return_address 0 a.ends.0 a.framed a.ends.1 a.low
            a.high (omega arith) (omega (arith, a.same_start)) (omega arith))

      behind-Returned : Returned R s n
      behind-Returned =
          let enters =
            RunsTo-trans R s (called R s target n return_address room few) a.state
              (RunsTo-round R s (called R s target n return_address room few) call-round) a.runs in
          record {
            state = behind;
            runs = RunsTo-trans R s a.state behind enters (RunsTo-round R a.state behind end-round);
            behind = omega (arith, a.same_start);
            tops = omega arith;
            same_fp = refl;
            same_sizes = refl;
            same_bf = a.same_bf;
            same_data = a.same_data;
            same_counter = a.same_counter;
            same_start = a.same_start;
            above = λ p above below.
                let kept : a.state.cells p ≡ s.cells p = a.above p above below in
                ground (arith, kept);
          }

-- In a file that was unpacked, shorter than 2 ^ 32 bytes, and that `collect_marks` accepts: a CALL, with
-- fewer than 2 ^ 32 arguments on the stack, of a function that starts with BEGIN. Its
-- body, which `collect_marks` reaches, goes forwards only, from each instruction to later ones, up to
-- an END with an operand. Its instructions in front of END are CONST, JMP, CJMPz, CJMPnz, DROP, DUP,
-- SWAP, LINE, BINOP but for DIV and MOD, and LD, LDA and ST of a global, a local or an argument that
-- exists, with enough operands for each and fewer than 2 ^ 31 of them, and CALLs of functions that
-- come back in the space that is left.
-- Where there is space on the stack for the frame, the locals and the operands, at
-- least as many as the first argument of BEGIN says, and the globals lie above the arguments, the loop
-- of `interpret` comes back behind the CALL, in the caller's frame, with one operand in place of the
-- arguments; every word between the arguments and the globals is what it was.
pub call-Returned :
    {W : Type 0} (R : Runtime W) (s : State W) (w : List ℕ) (target n arg n_locals deepest : ℕ)
    (P : ℕ → ℕ → Type 0)
    → collect_marks s.bf ≡ ok w
    → IsUnpacked s.bf
    → s.bf.code_size < 2 ^ 32
    → n < 2 ^ 32
    → deepest < 2 ^ 31
    → arg / 65536 ≤ deepest
    → IsFunction R s.bf target n arg n_locals deepest P
    → IsCall s.bf s.code_ptr target n
    → HasSpace s n (deepest + n_locals + 2)
    → Returned R s n
call-Returned R s w target n arg n_locals deepest P marks u short few small holds f c h =
    let room : HasRoom s n (return_address R s target n) 0 =
      (h.placed, omega (arith, h.below), h.args, omega (arith, h.args)) in
    let a =
      called-AtEnd R s target n (return_address R s target n) room (omega arith) arg n_locals
        deepest P f holds (omega (arith, h.below)) h.globals w marks u short small in
    behind-Returned R s target n room (omega arith) c a

-- So the function can be called by others in turn.
pub IsFunction-Callable :
    {W : Type 0} (R : Runtime W) (bf : Bytefile) (w : List ℕ) (target n arg n_locals deepest : ℕ)
    (P : ℕ → ℕ → Type 0)
    → collect_marks bf ≡ ok w
    → IsUnpacked bf
    → bf.code_size < 2 ^ 32
    → n < 2 ^ 32
    → deepest < 2 ^ 31
    → arg / 65536 ≤ deepest
    → IsFunction R bf target n arg n_locals deepest P
    → Callable R bf target n (deepest + n_locals + 2)
IsFunction-Callable R bf w target n arg n_locals deepest P marks u short few small holds f s e c h =
    call-Returned R s w target n arg n_locals deepest P (rw e marks) (rw e u) (rw e short) few small
      holds (subst (λ b. IsFunction R b target n arg n_locals deepest P) (sym e) f)
      (subst (λ b. IsCall b s.code_ptr target n) (sym e) c) h
