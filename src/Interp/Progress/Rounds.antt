-- ===== src/Interp/Progress/Rounds.antt =====
-- The loop of the interpreter on instructions that are ready: each round succeeds, and
-- a body without a loop comes to its end.
use lama_sm_interpreter.Prelude.{ℕ, ◌≤◌, ◌<◌, ◌^◌, ◌≡◌, List, arith, false}
use lama_sm_interpreter.Result.{ok}
use lama_sm_interpreter.Bytefile.{Bytefile, code_byte}
use lama_sm_interpreter.Bytefile.Bounds.{IsUnpacked}
use lama_sm_interpreter.Instruction.{
  InstructionType, next_instruction_type, binop, const, jmp, drop, dup, swap, ld, lda, st, cjmp_z,
  cjmp_nz, line,
}
use lama_sm_interpreter.Verifier.Effect.{get_new_stack}
use lama_sm_interpreter.Verifier.Marks.{collect_marks}
use lama_sm_interpreter.Verifier.Marks.Paths.{Edge, Reach}
use lama_sm_interpreter.Machine.{State}
use lama_sm_interpreter.Interp.Runtime.{Runtime}
use lama_sm_interpreter.Interp.Loop.{run_instruction, round}
use lama_sm_interpreter.Interp.Depth.Verified.{Straight, DepthGoes}
use lama_sm_interpreter.Interp.Flow.Runs.{round-Edge}
use lama_sm_interpreter.Interp.Progress.{Frame, Keeps, IsReady}
use lama_sm_interpreter.Interp.Progress.Handlers.{run_instruction-GoesOn}

-- The instruction at `o` is ready, with the `d` operands in front of it, and leaves
-- at most `deepest` operands, as the verifier counts them.
pub record Works (bf : Bytefile) (n_args n_locals deepest o d : ℕ) : Type 0 where
  pub byte : ℕ
  pub reads : code_byte bf o ≡ ok byte
  pub ready : IsReady bf o byte n_args n_locals d (next_instruction_type byte)
  pub effect : ℕ
  pub leaves : get_new_stack bf d o (next_instruction_type byte) ≡ ok effect
  pub shallow : effect ≤ deepest

ready-Straight :
    (bf : Bytefile) (o c n_args n_locals d : ℕ) (ty : InstructionType)
    → IsReady bf o c n_args n_locals d ty
    → Straight ty
ready-Straight bf o c n_args n_locals d binop h = tt
ready-Straight bf o c n_args n_locals d const h = tt
ready-Straight bf o c n_args n_locals d jmp h = tt
ready-Straight bf o c n_args n_locals d cjmp_z h = tt
ready-Straight bf o c n_args n_locals d cjmp_nz h = tt
ready-Straight bf o c n_args n_locals d drop h = tt
ready-Straight bf o c n_args n_locals d dup h = tt
ready-Straight bf o c n_args n_locals d swap h = tt
ready-Straight bf o c n_args n_locals d ld h = tt
ready-Straight bf o c n_args n_locals d lda h = tt
ready-Straight bf o c n_args n_locals d st h = tt
ready-Straight bf o c n_args n_locals d line h = tt
ready-Straight bf o c n_args n_locals d _ h = elim h [ ]

module _ {W : Type 0} (R : Runtime W) (n_args n_locals deepest : ℕ) (small : deepest < 2 ^ 31) where
  -- The frame behind a round.
  same-Frame :
      (s s' : State W) (d d' : ℕ)
      → Frame n_args n_locals deepest d s
      → DepthGoes s s' d d'
      → Keeps n_args s s'
      → Frame n_args n_locals deepest d' s'
  same-Frame s s' d d' f (tops, words, frame, file) k = record {
    placed = omega (arith, f.placed);
    operands = omega (arith, f.operands);
    args = omega (arith, f.args);
    globals = rw (frame, words, file, k.counter) f.globals;
    room = omega (arith, f.room);
  }

  module _ (s : State W) (w : List ℕ) (d : ℕ) (marks : collect_marks s.bf ≡ ok w)
      (u : IsUnpacked s.bf) (short : s.bf.code_size < 2 ^ 32) (reach : Reach s.bf s.code_ptr d)
      (f : Frame n_args n_locals deepest d s) (deep : d ≤ deepest)
      (works : Works s.bf n_args n_locals deepest s.code_ptr d) where
    round-runs :
        (s' : State W)
        → run_instruction R (next_instruction_type works.byte) s ≡ ok (false, s')
        → round R s ≡ ok (false, s')
    unfolding round
    round-runs s' h = ground (arith, works.reads, h)

    pub round-Frame :
        (s' : State W) × (d' : ℕ) × (round R s ≡ ok (false, s'))
        × Edge s.bf s.code_ptr d s'.code_ptr d'
        × DepthGoes s s' d d'
        × Frame n_args n_locals deepest d' s'
        × Keeps n_args s s'
    round-Frame =
        let ty = next_instruction_type works.byte in
        let straight = ready-Straight s.bf s.code_ptr works.byte n_args n_locals d ty works.ready in
        let (s', runs, keeps) =
          run_instruction-GoesOn R n_args n_locals deepest d works.byte s f deep works.reads ty
            works.effect works.ready works.leaves works.shallow small in
        let h = round-runs s' runs in
        let (d', edge, goes) =
          round-Edge R s s' false w d works.byte marks u short f.placed reach works.reads straight
            h in
        (s', d', h, edge, goes, same-Frame s s' d d' f goes keeps, keeps)
