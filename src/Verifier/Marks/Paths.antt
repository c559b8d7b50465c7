-- ===== src/Verifier/Marks/Paths.antt =====
-- What `collect_marks` promises: the control flow that it follows as a relation, and the number of
-- operands along its paths, by the count of `get_new_stack`. It does not follow a CLOSURE or a CALLC
-- into the body of a closure.
use lama_sm_interpreter.Prelude.{
  ℕ, ◌+◌, ◌<◌, ◌^◌, ◌≡◌, ◌⊎◌, inl, inr, sym, ◌∙◌, subst, List, get_elem?, some, arith,
}
use lama_sm_interpreter.Result.{Result, ok, >>=-eq-ok}
use lama_sm_interpreter.Bytefile.{Bytefile, code_u32}
use lama_sm_interpreter.Instruction.{InstructionType, cjmp_z, cjmp_nz, call, jmp, end, fail, ret}
use lama_sm_interpreter.Byterun.{general_byterun}
use lama_sm_interpreter.Verifier.Effect.{get_new_stack}
use lama_sm_interpreter.Verifier.Marks.{seeds, no_marks, collect_marks, check_arguments}
use lama_sm_interpreter.Verifier.Marks.Grows.{Marked}
use lama_sm_interpreter.Verifier.Marks.Rounds.{Checked, Follows}
use lama_sm_interpreter.Verifier.Marks.Loops.{drain-Inv}
use lama_sm_interpreter.Verifier.Marks.Seeds.{IsMain, seeds-Start}

-- Where control can go from an instruction of type `ty` at `o` that leaves `cur` operands, and the
-- number of operands there, but for the body of a closure. A CALL starts the callee with none, and
-- the instruction behind it finds the result of the call.
abbrev pub Goes : Bytefile → ℕ → ℕ → ℕ → InstructionType → ℕ → ℕ → Type 0
Goes bf o nxt cur cjmp_z o' s' = ((code_u32 bf (o + 1) ≡ ok o') ⊎ (o' ≡ nxt)) × (s' ≡ cur)
Goes bf o nxt cur cjmp_nz o' s' = ((code_u32 bf (o + 1) ≡ ok o') ⊎ (o' ≡ nxt)) × (s' ≡ cur)
Goes bf o nxt cur call o' s' =
    ((code_u32 bf (o + 1) ≡ ok o') × (s' ≡ 0)) ⊎ ((o' ≡ nxt) × (s' ≡ cur))
Goes bf o nxt cur jmp o' s' = (code_u32 bf (o + 1) ≡ ok o') × (s' ≡ cur)
Goes bf o nxt cur end o' s' = ⊥
Goes bf o nxt cur fail o' s' = ⊥
Goes bf o nxt cur ret o' s' = ⊥
Goes bf o nxt cur _ o' s' = (o' ≡ nxt) × (s' ≡ cur)

pub record Edge (bf : Bytefile) (o s o' s' : ℕ) : Type 0 where
  pub nxt : ℕ
  pub ty : InstructionType
  pub cur : ℕ
  pub decodes : general_byterun bf o ≡ ok (nxt, ty)
  pub effect : get_new_stack bf s o ty ≡ ok cur
  pub goes : Goes bf o nxt cur ty o' s'

-- The offsets that can be reached from `main` by going on, by jumps and by CALL, with the number of
-- operands that `get_new_stack` counts on the way there.
pub data Reach (bf : Bytefile) : ℕ → ℕ → Type 0 where
  start : {o s : ℕ} (j : ℕ) → IsMain bf j o → j < bf.public_symbols_number → s ≡ 0 → Reach bf o s
  step : {o s o' s' : ℕ} → Reach bf o s → Edge bf o s o' s' → Reach bf o' s'

Goes-Marked :
    (bf : Bytefile) (v : List ℕ) (o nxt cur : ℕ) (ty : InstructionType) (o' s' : ℕ)
    → Follows bf v o nxt cur ty
    → Goes bf o nxt cur ty o' s'
    → Marked v o' s'
Goes-Marked bf v o nxt cur cjmp_z o' s' (l, e, a, b) (inl p, q) =
    let el : l ≡ o' = ground arith in rw (← el, q) a
Goes-Marked bf v o nxt cur cjmp_z o' s' (l, e, a, b) (inr p, q) = rw (p, q) b
Goes-Marked bf v o nxt cur cjmp_nz o' s' (l, e, a, b) (inl p, q) =
    let el : l ≡ o' = ground arith in rw (← el, q) a
Goes-Marked bf v o nxt cur cjmp_nz o' s' (l, e, a, b) (inr p, q) = rw (p, q) b
Goes-Marked bf v o nxt cur call o' s' (l, e, a, b) (inl (p, q)) =
    let el : l ≡ o' = ground arith in rw (← el, q) a
Goes-Marked bf v o nxt cur call o' s' (l, e, a, b) (inr (p, q)) = rw (p, q) b
Goes-Marked bf v o nxt cur jmp o' s' (l, e, a) (p, q) =
    let el : l ≡ o' = ground arith in rw (← el, q) a
Goes-Marked bf v o nxt cur end o' s' f g = elim g [ ]
Goes-Marked bf v o nxt cur fail o' s' f g = elim g [ ]
Goes-Marked bf v o nxt cur ret o' s' f g = elim g [ ]
Goes-Marked bf v o nxt cur _ o' s' f g = rw (g.0, g.1) f

-- An edge goes where the instruction of its offset goes.
pub Edge-Goes :
    (bf : Bytefile) (o s o' s' nxt cur : ℕ) (ty : InstructionType)
    → general_byterun bf o ≡ ok (nxt, ty)
    → get_new_stack bf s o ty ≡ ok cur
    → Edge bf o s o' s'
    → Goes bf o nxt cur ty o' s'
Edge-Goes bf o s o' s' nxt cur ty decodes effect e =
    let dec : ◌≡◌ {A = Result (ℕ × InstructionType)} (ok (nxt, ty)) (ok (e.nxt, e.ty)) =
      sym decodes ∙ e.decodes in
    let en : nxt ≡ e.nxt = ground arith in
    let et : ty ≡ e.ty = ground arith in
    let eff : get_new_stack bf s o e.ty ≡ ok cur =
      subst (λ t. get_new_stack bf s o t ≡ ok cur) et effect in
    let ec : cur ≡ e.cur = ground (arith, e.effect) in
    subst (λ t. Goes bf o nxt cur t o' s') (sym et)
      (subst (λ n. Goes bf o n cur e.ty o' s') (sym en)
        (subst (λ n. Goes bf o e.nxt n e.ty o' s') (sym ec) e.goes))

Edge-Marked :
    (bf : Bytefile) (v : List ℕ) (o s o' s' : ℕ)
    → Checked bf v o s
    → Edge bf o s o' s'
    → Marked v o' s'
Edge-Marked bf v o s o' s' c e =
    Goes-Marked bf v o c.nxt c.cur c.ty o' s' c.successors
      (Edge-Goes bf o s o' s' c.nxt c.cur c.ty c.decodes c.effect e)

-- Every mark is checked, and `main` is marked with 0.
pub collect_marks-Checked :
    (bf : Bytefile) (w : List ℕ)
    → collect_marks bf ≡ ok w
    → ((o s : ℕ) → Marked w o s → Checked bf w o s)
      × ((j o : ℕ) → IsMain bf j o → j < bf.public_symbols_number → Marked w o 0)
unfolding collect_marks
collect_marks-Checked bf w p =
    let (m, e, q) = >>=-eq-ok (seeds bf 0 bf.public_symbols_number (no_marks bf)) _ w p in
    let st = seeds-Start bf m e in
    let (checked, keeps) =
      drain-Inv (bf.code_size + 1) (bf.code_size + 1) bf m.visited m.labels w q
        (λ o s k. inl (st.queued o s k)) in
    (checked, λ j o h lt. keeps o 0 (st.has_main j o h lt))

pub Reach-Marked :
    (bf : Bytefile) (w : List ℕ) (o s : ℕ) → collect_marks bf ≡ ok w → Reach bf o s → Marked w o s
Reach-Marked bf w o s p (start j h lt e) = rw e ((collect_marks-Checked bf w p).1 j o h lt)
Reach-Marked bf w o s p (step {o = o₀} {s = s₀} r edge) =
    Edge-Marked bf w o₀ s₀ o s
      ((collect_marks-Checked bf w p).0 o₀ s₀ (Reach-Marked bf w o₀ s₀ p r)) edge

-- Where `collect_marks` succeeds, each offset that can be reached from a public symbol `main` by going on
-- to the next instruction, by jumps and by CALL, but not through a CLOSURE or a CALLC into the body
-- of a closure, holds an instruction that can be decoded, it passes the test of its argument count, its
-- effect by `get_new_stack` leaves fewer than 2 ^ 31 operands, and `visited` holds the number of
-- operands in front of it that `get_new_stack` counts along the way.
pub collect_marks_sound :
    (bf : Bytefile) (w : List ℕ) (o s : ℕ)
    → collect_marks bf ≡ ok w
    → Reach bf o s
    → (get_elem? w o ≡ some s)
      × ((nxt : ℕ) × (ty : InstructionType) × (cur : ℕ) × (general_byterun bf o ≡ ok (nxt, ty))
          × (check_arguments bf o s ty ≡ ok tt)
          × (get_new_stack bf s o ty ≡ ok cur)
          × (cur < 2 ^ 31))
collect_marks_sound bf w o s p r =
    let k = Reach-Marked bf w o s p r in
    let c = (collect_marks-Checked bf w p).0 o s k in
    (k.entry, (c.nxt, c.ty, c.cur, c.decodes, c.arguments, c.effect, c.in_range))
