-- ===== src/Interp/Flow/Runs.antt =====
-- The loop of the interpreter on verified code: within a frame it stays on the control flow that
-- the verifier followed, with the number of operands that `visited` holds.
use lama_sm_interpreter.Prelude.{
  ℕ, ◌^◌, ◌<◌, ◌≡◌, ◌⊎◌, inl, inr, refl, sym, subst, ◌∙◌, Bool, List, get_elem?, some, arith,
}
use lama_sm_interpreter.Result.{Result, ok, >>=-eq-ok}
use lama_sm_interpreter.Bytefile.{Bytefile, code_byte}
use lama_sm_interpreter.Bytefile.Bounds.{IsUnpacked}
use lama_sm_interpreter.Instruction.{
  InstructionType, next_instruction_type, cjmp_z, cjmp_nz, jmp, call, callc, begin, cbegin, end,
  ret, fail, sta,
}
use lama_sm_interpreter.Byterun.{general_byterun, next_offset, get_instruction_type}
use lama_sm_interpreter.Byterun.Decoders.{next_instruction_type-eq-get_instruction_type}
use lama_sm_interpreter.Verifier.Effect.{get_new_stack}
use lama_sm_interpreter.Verifier.Marks.{collect_marks}
use lama_sm_interpreter.Verifier.Marks.Paths.{Goes, Edge, Reach, start, step, collect_marks_sound}
use lama_sm_interpreter.Machine.{State, consume2}
use lama_sm_interpreter.Interp.Runtime.{Runtime}
use lama_sm_interpreter.Interp.Control.{helper_fail}
use lama_sm_interpreter.Interp.Loop.{run_instruction, round}
use lama_sm_interpreter.Interp.Moves.{bind-ok}
use lama_sm_interpreter.Interp.Depth.Verified.{
  Straight, DepthGoes, goes_on-ok, run_instruction-DepthGoes,
}
use lama_sm_interpreter.Interp.Flow.Follows.{Follows, run_instruction-Follows}

-- An instruction that has a successor in its frame, as `collect_marks` follows it.
Goes-Follows :
    {W : Type 0} (s : State W) (nxt cur o' : ℕ) (ty : InstructionType)
    → Straight ty
    → next_offset s.bf s.code_ptr ty ≡ ok nxt
    → Follows s ty o'
    → (ty ≡ fail → ⊥)
    → (ty ≡ ret → ⊥)
    → Goes s.bf s.code_ptr nxt cur ty o' cur
Goes-Follows s nxt cur o' jmp st n f nf nr = (f, refl)
Goes-Follows s nxt cur o' cjmp_z st n (inl (test, e)) nf nr = (inl e, refl)
Goes-Follows s nxt cur o' cjmp_z st n (inr (test, e)) nf nr = (inr (ground arith), refl)
Goes-Follows s nxt cur o' cjmp_nz st n (inl (test, e)) nf nr = (inl e, refl)
Goes-Follows s nxt cur o' cjmp_nz st n (inr (test, e)) nf nr = (inr (ground arith), refl)
Goes-Follows s nxt cur o' call st n f nf nr = elim st [ ]
Goes-Follows s nxt cur o' callc st n f nf nr = elim st [ ]
Goes-Follows s nxt cur o' begin st n f nf nr = elim st [ ]
Goes-Follows s nxt cur o' cbegin st n f nf nr = elim st [ ]
Goes-Follows s nxt cur o' end st n f nf nr = elim st [ ]
Goes-Follows s nxt cur o' sta st n f nf nr = elim st [ ]
Goes-Follows s nxt cur o' InstructionType.call_string st n f nf nr = elim st [ ]
Goes-Follows s nxt cur o' fail st n f nf nr = absurd (nf refl)
Goes-Follows s nxt cur o' ret st n f nf nr = absurd (nr refl)
Goes-Follows s nxt cur o' _ st n f nf nr = (ground arith, refl)

Goes-cur :
    (bf : Bytefile) (o nxt cur : ℕ) (ty : InstructionType) (o' s' : ℕ)
    → Goes bf o nxt cur ty o' s'
    → (s' ≡ cur) ⊎ (s' ≡ 0)
Goes-cur bf o nxt cur cjmp_z o' s' g = inl g.1
Goes-cur bf o nxt cur cjmp_nz o' s' g = inl g.1
Goes-cur bf o nxt cur call o' s' (inl g) = inr g.1
Goes-cur bf o nxt cur call o' s' (inr g) = inl g.1
Goes-cur bf o nxt cur jmp o' s' g = inl g.1
Goes-cur bf o nxt cur end o' s' g = elim g [ ]
Goes-cur bf o nxt cur fail o' s' g = elim g [ ]
Goes-cur bf o nxt cur ret o' s' g = elim g [ ]
Goes-cur bf o nxt cur _ o' s' g = inl g.1

-- `collect_marks` counts fewer than 2 ^ 31 operands in front of each instruction.
Reach-lt :
    (bf : Bytefile) (w : List ℕ) (o d : ℕ) → collect_marks bf ≡ ok w → Reach bf o d → d < 2 ^ 31
Reach-lt bf w o d p (start j h lt e) = omega arith
Reach-lt bf w o d p (step {o = o₀} {s = d₀} r edge) =
    let (entry, (nxt, ty, cur, dec, args, eff, range)) = collect_marks_sound bf w o₀ d₀ p r in
    let same : ◌≡◌ {A = Result (ℕ × InstructionType)} (ok (nxt, ty)) (ok (edge.nxt, edge.ty)) =
      sym dec ∙ edge.decodes in
    let et : ty ≡ edge.ty = ground arith in
    let eff' : get_new_stack bf d₀ o₀ edge.ty ≡ ok cur =
      subst (λ t. get_new_stack bf d₀ o₀ t ≡ ok cur) et eff in
    let ec : cur ≡ edge.cur = ground (arith, edge.effect) in
    elim (Goes-cur bf o₀ edge.nxt edge.cur edge.ty o d edge.goes) [
      | inl e ↦ omega arith
      | inr e ↦ omega arith
    ]

module _ (bf : Bytefile) (o nxt c : ℕ) (ty : InstructionType) where
  decoded :
      code_byte bf o ≡ ok c
      → general_byterun bf o ≡ ok (nxt, ty)
      → (next_instruction_type c ≡ ty) × (next_offset bf o ty ≡ ok nxt)
  unfolding general_byterun
  decoded e h =
      let (c', e₁, h₁) = >>=-eq-ok (code_byte bf o) _ (nxt, ty) h in
      let same : c' ≡ c = ground arith in
      let (n, e₂, h₂) = >>=-eq-ok (next_offset bf o (get_instruction_type c')) _ (nxt, ty) h₁ in
      let type : get_instruction_type c' ≡ ty = ground arith in
      let to : n ≡ nxt = ground arith in
      (
        rw (next_instruction_type-eq-get_instruction_type, ← same) type,
        subst (λ n. next_offset bf o ty ≡ ok n) to (subst (λ t. next_offset bf o t ≡ ok n) type e₂),
      )

module _ {W : Type 0} (R : Runtime W) (s s' : State W) (b : Bool) where
  round-run_instruction :
      (c : ℕ)
      → code_byte s.bf s.code_ptr ≡ ok c
      → round R s ≡ ok (b, s')
      → run_instruction R (next_instruction_type c) s ≡ ok (b, s')
  unfolding round
  round-run_instruction c e h = ground (arith, e, h)

  fail-throws : run_instruction R fail s ≡ ok (b, s') → ⊥
  unfolding run_instruction helper_fail
  fail-throws h =
      let (c, s₁, e₁, e₂) = bind-ok consume2 _ s s' tt (goes_on-ok helper_fail s s' b h) in cc

  ret-throws : run_instruction R ret s ≡ ok (b, s') → ⊥
  unfolding run_instruction
  ret-throws h = cc

  -- From an offset that the verifier reaches, a round on one of these instructions
  -- follows an edge of the control flow, and changes the number of operands on the stack to the one
  -- there.
  pub round-Edge :
      (w : List ℕ) (d c : ℕ)
      → collect_marks s.bf ≡ ok w
      → IsUnpacked s.bf
      → s.bf.code_size < 2 ^ 32
      → 0 < s.stack_data
      → Reach s.bf s.code_ptr d
      → code_byte s.bf s.code_ptr ≡ ok c
      → Straight (next_instruction_type c)
      → round R s ≡ ok (b, s')
      → (d' : ℕ) × Edge s.bf s.code_ptr d s'.code_ptr d' × DepthGoes s s' d d'
  round-Edge w d c marks u small placed reach byte st h =
      let (entry, (nxt, ty, cur, dec, args, eff, range)) =
        collect_marks_sound s.bf w s.code_ptr d marks reach in
      let (type, next) = decoded s.bf s.code_ptr nxt c ty byte dec in
      let straight : Straight ty = subst Straight type st in
      let runs : run_instruction R ty s ≡ ok (b, s') =
        subst (λ t. run_instruction R t s ≡ ok (b, s')) type (round-run_instruction c byte h) in
      let goes =
        Goes-Follows s nxt cur s'.code_ptr ty straight next
          (run_instruction-Follows R s s' b u small ty straight runs)
          (λ e. fail-throws (subst (λ t. run_instruction R t s ≡ ok (b, s')) e runs))
          (λ e. ret-throws (subst (λ t. run_instruction R t s ≡ ok (b, s')) e runs)) in
      (
        cur,
        record { nxt = nxt; ty = ty; cur = cur; decodes = dec; effect = eff; goes = goes },
        run_instruction-DepthGoes R s s' d cur b placed (Reach-lt s.bf w s.code_ptr d marks reach)
            range ty straight args eff runs,
      )

-- Rounds of the loop on instructions other than CALL, CALLC, BEGIN, CBEGIN, END, STA and CALL_STRING.
pub data Straights {W : Type 0} (R : Runtime W) (s : State W) : State W → Type 0 where
  none : {s' : State W} → s' ≡ s → Straights R s s'
  more :
      {t s' : State W} {b : Bool} (c : ℕ)
      → Straights R s t
      → code_byte t.bf t.code_ptr ≡ ok c
      → Straight (next_instruction_type c)
      → round R t ≡ ok (b, s')
      → Straights R s s'

Runs-Reach :
    {W : Type 0} (R : Runtime W) (s s' : State W) (w : List ℕ) (d : ℕ)
    → collect_marks s.bf ≡ ok w
    → IsUnpacked s.bf
    → s.bf.code_size < 2 ^ 32
    → 0 < s.stack_data
    → Reach s.bf s.code_ptr d
    → Straights R s s'
    → (d' : ℕ) × Reach s.bf s'.code_ptr d' × DepthGoes s s' d d'
Runs-Reach R s s' w d marks u small placed reach (none e) =
    subst (λ t. (d' : ℕ) × Reach s.bf t.code_ptr d' × DepthGoes s t d d') (sym e)
      (d, reach, (refl, refl, refl, refl))
Runs-Reach R s s' w d marks u small placed reach (more {t = t} {b = b} c before byte st h) =
    let (d₁, r₁, (tops, words, frame, file)) =
      Runs-Reach R s t w d marks u small placed reach before in
    let (d₂, edge, (tops', data', frame', file')) =
      round-Edge R t s' b w d₁ c (rw file marks) (rw file u) (rw file small) (omega arith)
        (rw file r₁) byte st h in
    (d₂, step r₁ (rw (← file) edge), (omega arith, data' ∙ words, frame' ∙ frame, file' ∙ file))

-- In a file that was unpacked, shorter than 2 ^ 32 bytes, and that `collect_marks` accepts: after
-- any number of rounds on instructions other than CALL, CALLC, BEGIN, CBEGIN, END, STA and CALL_STRING,
-- from an offset that `collect_marks` reaches, on a stack that does not start at address 0, the
-- interpreter is at an offset that is marked, on the stack, in the frame and with the file that it
-- started with, and the stack has grown by the number of operands that is marked there, less the
-- number that is marked at the start.
pub Straights-marked :
    {W : Type 0} (R : Runtime W) (s s' : State W) (w : List ℕ) (d : ℕ)
    → collect_marks s.bf ≡ ok w
    → IsUnpacked s.bf
    → s.bf.code_size < 2 ^ 32
    → 0 < s.stack_data
    → Reach s.bf s.code_ptr d
    → Straights R s s'
    → (d' : ℕ) × (get_elem? w s'.code_ptr ≡ some d') × DepthGoes s s' d d'
Straights-marked R s s' w d marks u small placed reach runs =
    let (d', r, goes) = Runs-Reach R s s' w d marks u small placed reach runs in
    (d', (collect_marks_sound s.bf w s'.code_ptr d' marks r).0, goes)
