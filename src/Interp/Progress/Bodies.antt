-- ===== src/Interp/Progress/Bodies.antt =====
-- A function body that goes forwards only, whose instructions are ready or call functions that come
-- back: the interpreter comes to its end.
use lama_sm_interpreter.Prelude.{
  ℕ, zero, suc, ◌+◌, ◌-◌, ◌≤◌, ◌<◌, ◌^◌, ◌≡◌, ◌⊎◌, inl, inr, refl, ap, sym, ◌∙◌, subst, List, arith,
  false,
}
use lama_sm_interpreter.Result.{ok}
use lama_sm_interpreter.Bytefile.{Bytefile, code_byte, code_u32}
use lama_sm_interpreter.Instruction.{InstructionType, next_instruction_type, call}
use lama_sm_interpreter.Bytefile.Bounds.{IsUnpacked}
use lama_sm_interpreter.Verifier.Marks.{collect_marks}
use lama_sm_interpreter.Verifier.Marks.Paths.{Edge, Reach, step}
use lama_sm_interpreter.Machine.{State, ◌>>=◌, stack_bottom}
use lama_sm_interpreter.Interp.Runtime.{Runtime}
use lama_sm_interpreter.Interp.Loop.{round, run}
use lama_sm_interpreter.Interp.Progress.{Frame, Keeps}
use lama_sm_interpreter.Interp.Progress.Kept.{Keeps-refl, Keeps-trans}
use lama_sm_interpreter.Interp.Progress.Rounds.{Works, round-Frame}

-- After some rounds the loop of `interpret` is at `s'`.
abbrev pub RunsTo : {W : Type 0} → Runtime W → State W → State W → Type 0
RunsTo R s s' = (rounds : ℕ) × ((fuel : ℕ) → run R (rounds + fuel) s ≡ run R fuel s')

pub RunsTo-refl : {W : Type 0} (R : Runtime W) (s : State W) → RunsTo R s s
RunsTo-refl R s = (0, λ fuel. ap (λ n. run R n s) (omega arith))

pub RunsTo-round :
    {W : Type 0} (R : Runtime W) (s s' : State W) → round R s ≡ ok (false, s') → RunsTo R s s'
unfolding run
RunsTo-round R s s' h =
    (1, λ fuel. let e : 1 + fuel ≡ suc fuel = omega arith in ap (λ n. run R n s) e ∙ rw (h, ◌>>=◌))

pub RunsTo-trans :
    {W : Type 0} (R : Runtime W) (s t u : State W) → RunsTo R s t → RunsTo R t u → RunsTo R s u
RunsTo-trans R s t u (m, f) (n, g) = (
  m + n,
  λ fuel.
      let e : m + n + fuel ≡ m + (n + fuel) = omega arith in
      ap (λ k. run R k s) e ∙ f (n + fuel) ∙ g fuel,
)

-- An instruction of type `ty` stands at `o`.
abbrev pub Stands : Bytefile → ℕ → InstructionType → Type 0
Stands bf o ty = (c : ℕ) × (code_byte bf o ≡ ok c) × (next_instruction_type c ≡ ty)

-- A CALL of the code at `target` with `n` arguments.
pub record IsCall (bf : Bytefile) (o target n : ℕ) : Type 0 where
  pub stands : Stands bf o call
  pub to : code_u32 bf (o + 1) ≡ ok target
  pub nargs : code_u32 bf (o + 5) ≡ ok n

-- The stack holds `n` arguments, with `need` words below them, and the globals above them.
pub record HasSpace {W : Type 0} (s : State W) (n need : ℕ) : Type 0 where
  pub placed : 0 < s.stack_data
  pub below : s.stack_data + need ≤ s.top
  pub args : s.top + n + 1 ≤ stack_bottom s
  pub globals : s.top + 1 + s.bf.global_area_size + s.string_counter ≤ stack_bottom s

-- From a CALL with `n` arguments in `s` the loop comes back behind it, in the caller's frame, with one
-- operand in place of the arguments, and the words between them and the globals are what they were.
pub record Returned {W : Type 0} (R : Runtime W) (s : State W) (n : ℕ) : Type 0 where
  pub state : State W
  pub runs : RunsTo R s state
  pub behind : state.code_ptr ≡ s.code_ptr + 9
  pub tops : state.top + 1 ≡ s.top + n
  pub same_fp : state.fp ≡ s.fp
  pub same_sizes : state.arg_sizes ≡ s.arg_sizes
  pub same_bf : state.bf ≡ s.bf
  pub same_data : state.stack_data ≡ s.stack_data
  pub same_counter : state.string_counter ≡ s.string_counter
  pub same_start : state.code_start ≡ s.code_start
  pub above :
      (p : ℕ)
      → s.top + n < p
      → p + s.bf.global_area_size + s.string_counter < stack_bottom s
      → state.cells p ≡ s.cells p

-- Every call of the code at `target` with `n` arguments and that space comes back.
abbrev pub Callable : {W : Type 0} → Runtime W → Bytefile → ℕ → ℕ → ℕ → Type 0
Callable {W} R bf target n need =
    (s : State W) → s.bf ≡ bf → IsCall bf s.code_ptr target n → HasSpace s n need → Returned R s n

-- A CALL, with its arguments on the stack, of code that comes back, and for which there is space.
pub record CallsAt {W : Type 0} (R : Runtime W) (bf : Bytefile) (deepest o d : ℕ) : Type 0 where
  pub target : ℕ
  pub n : ℕ
  pub need : ℕ
  pub calls : IsCall bf o target n
  pub callable : Callable R bf target n need
  pub enough : n ≤ d
  pub space : d + need < deepest
  pub edge : Edge bf o d (o + 9) (d + 1 - n)

-- The body of a function, as a set of offsets with the numbers of operands there: control stays in it
-- and goes forwards only, up to the offsets `Last`.
pub record Body {W : Type 0} (R : Runtime W) (bf : Bytefile) (n_args n_locals deepest : ℕ)
    (P : ℕ → ℕ → Type 0) (Last : ℕ → Type 0) : Type 0 where
  pub inside : (o d : ℕ) → P o d → o < bf.code_size
  pub shallow : (o d : ℕ) → P o d → d ≤ deepest
  pub works :
      (o d : ℕ) → P o d → Last o ⊎ (Works bf n_args n_locals deepest o d ⊎ CallsAt R bf deepest o d)
  pub closed :
      (o d o' d' : ℕ)
      → P o d
      → Works bf n_args n_locals deepest o d
      → Edge bf o d o' d'
      → P o' d' × (o < o')
  pub behind : (o d : ℕ) → P o d → (c : CallsAt R bf deepest o d) → P (o + 9) (d + 1 - c.n)

module _ {W : Type 0} (R : Runtime W) (bf : Bytefile) (n_args n_locals deepest : ℕ)
    (P : ℕ → ℕ → Type 0) (Last : ℕ → Type 0) where
  -- The loop has come from `s` to an offset of `Last`, in the frame of `s`.
  pub record Arrives (s : State W) : Type 0 where
    pub state : State W
    pub depth : ℕ
    pub runs : RunsTo R s state
    pub last : Last state.code_ptr
    pub inside : P state.code_ptr depth
    pub frame : Frame n_args n_locals deepest depth state
    pub same_fp : state.fp ≡ s.fp
    pub same_data : state.stack_data ≡ s.stack_data
    pub same_bf : state.bf ≡ s.bf
    pub keeps : Keeps n_args s state

  -- The frame behind a call.
  Returned-Frame :
      (s : State W) (d n : ℕ) (c : Returned R s n)
      → n ≤ d
      → Frame n_args n_locals deepest d s
      → Frame n_args n_locals deepest (d + 1 - n) c.state
  Returned-Frame s d n c enough f = record {
    placed = omega (arith, f.placed, c.same_data);
    operands = omega (arith, f.operands, c.tops, c.same_fp);
    args = omega (arith, f.args, c.same_fp, c.same_data);
    globals = rw (c.same_fp, c.same_data, c.same_bf, c.same_counter) f.globals;
    room = omega (arith, f.room, c.tops, c.same_data);
  }

  Returned-Keeps :
      (s : State W) (d n : ℕ) (c : Returned R s n)
      → n ≤ d
      → Frame n_args n_locals deepest d s
      → Keeps n_args s c.state
  Returned-Keeps s d n c enough f = record {
    counter = c.same_counter;
    sizes = c.same_sizes;
    start = c.same_start;
    words = λ p a b. c.above p (omega (arith, f.operands)) (omega (arith, f.globals));
    above = λ p a b. c.above p (omega (arith, f.operands)) b;
  }

  caller-HasSpace :
      (s : State W) (d : ℕ)
      → Frame n_args n_locals deepest d s
      → (c : CallsAt R bf deepest s.code_ptr d) → HasSpace s c.n c.need
  caller-HasSpace s d f c = record {
    placed = f.placed;
    below = omega (arith, f.room, c.space);
    args = omega (arith, f.operands, f.args, c.enough);
    globals = omega (arith, f.operands, f.globals);
  }

  -- Rounds in the frame of `s` in front of others.
  Arrives-first :
      (s s' : State W)
      → RunsTo R s s'
      → s'.fp ≡ s.fp
      → s'.stack_data ≡ s.stack_data
      → s'.bf ≡ s.bf
      → Keeps n_args s s'
      → Arrives s'
      → Arrives s
  Arrives-first s s' runs fp words file keeps rest = record {
    state = rest.state;
    depth = rest.depth;
    runs = RunsTo-trans R s s' rest.state runs rest.runs;
    last = rest.last;
    inside = rest.inside;
    frame = rest.frame;
    same_fp = rest.same_fp ∙ fp;
    same_data = rest.same_data ∙ words;
    same_bf = rest.same_bf ∙ file;
    keeps = Keeps-trans file words fp keeps rest.keeps;
  }

  module _ (w : List ℕ) (small : deepest < 2 ^ 31) (marks : collect_marks bf ≡ ok w)
      (u : IsUnpacked bf) (short : bf.code_size < 2 ^ 32)
      (body : Body R bf n_args n_locals deepest P Last) where
    pub Body-Arrives :
        (m : ℕ) (s : State W) (d : ℕ)
        → s.bf ≡ bf
        → bf.code_size ≤ s.code_ptr + m
        → Reach bf s.code_ptr d
        → P s.code_ptr d
        → Frame n_args n_locals deepest d s
        → Arrives s
    Body-Arrives zero s d e near reach p f = absurd (omega (arith, body.inside s.code_ptr d p))
    Body-Arrives (suc m) s d e near reach p f = elim (body.works s.code_ptr d p) [
      | inl last ↦ record {
        state = s;
        depth = d;
        runs = RunsTo-refl R s;
        last = last;
        inside = p;
        frame = f;
        same_fp = refl;
        same_data = refl;
        same_bf = refl;
        keeps = Keeps-refl n_args s;
      }
      | inr (inl works) ↦
          let works' : Works s.bf n_args n_locals deepest s.code_ptr d =
            subst (λ b. Works b n_args n_locals deepest s.code_ptr d) (sym e) works in
          let (s', d', h, edge, goes, f', keeps) =
            round-Frame R n_args n_locals deepest small s w d (rw e marks) (rw e u) (rw e short)
              (rw e reach) f (body.shallow s.code_ptr d p) works' in
          let edge' : Edge bf s.code_ptr d s'.code_ptr d' =
            subst (λ b. Edge b s.code_ptr d s'.code_ptr d') e edge in
          let (p', forward) = body.closed s.code_ptr d s'.code_ptr d' p works edge' in
          Arrives-first s s' (RunsTo-round R s s' h) goes.2 goes.1 goes.3 keeps
            (Body-Arrives m s' d' (goes.3 ∙ e) (omega arith) (step reach edge') p' f')
      | inr (inr c) ↦
          let t = c.callable s e c.calls (caller-HasSpace s d f c) in
          let p' = body.behind s.code_ptr d p c in
          Arrives-first s t.state t.runs t.same_fp t.same_data t.same_bf
            (Returned-Keeps s d c.n t c.enough f)
            (Body-Arrives m t.state (d + 1 - c.n) (t.same_bf ∙ e) (omega (arith, t.behind))
              (rw (t.behind) (step reach c.edge)) (rw (t.behind) p')
              (Returned-Frame s d c.n t c.enough f))
    ]
