-- ===== src/Interp/Progress/Functions.antt =====
-- A function from its BEGIN to its END.
use lama_sm_interpreter.Prelude.{
  ℕ, ◌+◌, ◌-◌, ◌/◌, ◌≤◌, ◌<◌, ◌^◌, ◌≡◌, refl, ap, sym, ◌∙◌, subst, List, arith, false, Bool, ltb,
}
use lama_sm_interpreter.Result.{ok}
use lama_sm_interpreter.Bytefile.{Bytefile, code_u32}
use lama_sm_interpreter.Bytefile.Bounds.{IsUnpacked}
use lama_sm_interpreter.Instruction.{InstructionType, next_instruction_type, begin, end}
use lama_sm_interpreter.Verifier.Marks.{collect_marks}
use lama_sm_interpreter.Verifier.Marks.Paths.{Reach}
use lama_sm_interpreter.Machine.{State, ◌>>=◌, stack_bottom, consume2}
use lama_sm_interpreter.Machine.Frames.{reserve_locals}
use lama_sm_interpreter.Machine.Frames.Calls.{
  HasFrame, HasRoom, entered, entered-HasFrame, entered-above,
}
use lama_sm_interpreter.Interp.Runtime.{Runtime}
use lama_sm_interpreter.Interp.Control.{call_stack_begin}
use lama_sm_interpreter.Interp.Loop.{run_instruction, round}
use lama_sm_interpreter.Interp.Progress.{Frame}
use lama_sm_interpreter.Interp.Progress.Bodies.{
  Body, Stands, RunsTo, RunsTo-round, RunsTo-trans, Body-Arrives,
}

-- A round on an instruction that stands there.
pub round-Stands :
    {W : Type 0} (R : Runtime W) (s s' : State W) (ty : InstructionType) (b : Bool)
    → Stands s.bf s.code_ptr ty
    → run_instruction R ty s ≡ ok (b, s')
    → round R s ≡ ok (b, s')
unfolding round
round-Stands R s s' ty b (c, e, t) h =
    let runs : run_instruction R (next_instruction_type c) s ≡ ok (b, s') =
      subst (λ t. run_instruction R t s ≡ ok (b, s')) (sym t) h in
    ground (arith, e, runs)

-- A function with `n` arguments, whose code at `target` starts with BEGIN: from the offset behind
-- it, which the verifier reaches, its body comes to END with an operand.
pub record IsFunction {W : Type 0} (R : Runtime W) (bf : Bytefile)
    (target n arg n_locals deepest : ℕ) (P : ℕ → ℕ → Type 0) : Type 0 where
  pub begins : Stands bf target begin
  pub counted : code_u32 bf (target + 1) ≡ ok arg
  pub locals : code_u32 bf (target + 5) ≡ ok n_locals
  pub reached : Reach bf (target + 9) 0
  pub starts : P (target + 9) 0
  pub body : Body R bf n n_locals deepest P (λ o. Stands bf o end)
  pub result : (o d : ℕ) → P o d → Stands bf o end → 1 ≤ d

-- The loop has come from `s₀`, behind the frame that was pushed in `s`, to the function's END.
pub record AtEnd {W : Type 0} (R : Runtime W) (s s₀ : State W) (n ra : ℕ) : Type 0 where
  pub state : State W
  pub runs : RunsTo R s₀ state
  pub framed : HasFrame s n ra 0 state
  pub ends : Stands state.bf state.code_ptr end
  pub low : state.stack_data ≤ state.top + 1
  pub high : state.top + 1 < stack_bottom state
  pub same_bf : state.bf ≡ s.bf
  pub same_data : state.stack_data ≡ s.stack_data
  pub same_counter : state.string_counter ≡ s.string_counter
  pub same_start : state.code_start ≡ s.code_start
  pub above :
      (p : ℕ)
      → s.top + n < p
      → p + s.bf.global_area_size + s.string_counter < stack_bottom s
      → state.cells p ≡ s.cells p

module _ {W : Type 0} (R : Runtime W) (s : State W) (target n ra : ℕ) (room : HasRoom s n ra 0)
    (few : n + 0 < 2 ^ 32) where
  -- At the BEGIN, in the new frame.
  abbrev pub called : State W
  called = record (entered s n ra 0 room few) { code_ptr = target }

  module _ (arg n_locals deepest : ℕ) (P : ℕ → ℕ → Type 0)
      (f : IsFunction R s.bf target n arg n_locals deepest P) (holds : arg / 65536 ≤ deepest)
      (fits : s.stack_data + deepest + n_locals + 2 ≤ s.top)
      (globals : s.top + 1 + s.bf.global_area_size + s.string_counter ≤ stack_bottom s) where
    -- Behind the BEGIN.
    abbrev begun : State W
    begun = record called { code_ptr = target + 9; top = s.top - 3 - n_locals }

    begin-round : round R called ≡ ok (false, begun)
    unfolding run_instruction call_stack_begin consume2 reserve_locals
    begin-round =
        let inside : ltb (s.top - 3 + 1) (s.stack_data + arg / 65536 + n_locals) ≡ false =
          ground arith in
        round-Stands R called begun begin false f.begins
          (rw (f.begins.1, ◌>>=◌, f.counted, f.locals, inside))

    begun-Frame : Frame n n_locals deepest 0 begun
    begun-Frame = record {
      placed = omega arith;
      operands = omega arith;
      args = omega arith;
      globals = omega arith;
      room = omega arith;
    }

    pub called-AtEnd :
        (w : List ℕ)
        → collect_marks s.bf ≡ ok w
        → IsUnpacked s.bf
        → s.bf.code_size < 2 ^ 32
        → deepest < 2 ^ 31
        → AtEnd R s called n ra
    called-AtEnd w marks u short small =
        let a =
          Body-Arrives R s.bf n n_locals deepest P (λ o. Stands s.bf o end) w small marks u short
            f.body s.bf.code_size begun 0 refl (omega arith) f.reached f.starts begun-Frame in
        let t = a.state in
        let some = f.result t.code_ptr a.depth a.inside a.last in
        let deep = f.body.shallow t.code_ptr a.depth a.inside in
        let h = entered-HasFrame s n ra 0 room few in
        record {
          state = t;
          runs = RunsTo-trans R called begun t (RunsTo-round R called begun begin-round) a.runs;
          framed = record {
            base = omega (arith, a.same_fp);
            low = omega (arith, a.same_fp, a.same_data);
            high = omega (arith, a.same_data);
            sizes = a.keeps.sizes;
            address =
                ap (λ p. t.cells (p + 3)) a.same_fp
                ∙ a.keeps.words _ (omega arith) (omega arith)
                ∙ h.address;
            old_fp =
                ap (λ p. t.cells (p + 2)) a.same_fp
                ∙ a.keeps.words _ (omega arith) (omega arith)
                ∙ h.old_fp;
            old_top =
                ap (λ p. t.cells (p + 1)) a.same_fp
                ∙ a.keeps.words _ (omega arith) (omega arith)
                ∙ h.old_top;
          };
          ends = subst (λ b. Stands b t.code_ptr end) (sym a.same_bf) a.last;
          low = omega (arith, a.frame.room, deep);
          high = omega (arith, a.frame.operands, a.frame.args, some);
          same_bf = a.same_bf;
          same_data = a.same_data;
          same_counter = a.keeps.counter;
          same_start = a.keeps.start;
          above = λ p above below.
              a.keeps.above p (omega arith) below ∙ entered-above s n ra 0 room few p above;
        }
