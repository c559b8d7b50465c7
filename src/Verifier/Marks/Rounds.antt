-- ===== src/Verifier/Marks/Rounds.antt =====
-- What a round of `collect_marks` establishes of the instruction that it is at.
use lama_sm_interpreter.Prelude.{ℕ, ◌+◌, ◌<◌, ◌^◌, ◌≡◌, ◌≢◌, inl, inr, ltb, List, none, some, arith}
use lama_sm_interpreter.Result.{ok, Error, ◌>>=◌, guard, >>=-eq-ok}
use lama_sm_interpreter.Word.{minus_one}
use lama_sm_interpreter.Bytefile.{Bytefile, code_u32}
use lama_sm_interpreter.Instruction.{InstructionType, cjmp_z, cjmp_nz, call, jmp, end, fail, ret}
use lama_sm_interpreter.Byterun.{general_byterun}
use lama_sm_interpreter.Verifier.Effect.{get_new_stack}
use lama_sm_interpreter.Verifier.Marks.{
  Marks, perform_step, check_arguments, Round, breaks, goes_on, fall_through, follow, visit,
}
use lama_sm_interpreter.Verifier.Marks.Grows.{
  Marked, Grows, Grows-trans, perform_step-Grows, fall_through_cases, mark-Grows, Grows-refl,
}

-- The marks that an instruction of type `ty` at `o` needs of the offsets where control goes on.
abbrev pub Follows : Bytefile → List ℕ → ℕ → ℕ → ℕ → InstructionType → Type 0
Follows bf visited o nxt cur cjmp_z =
    (l : ℕ) × (code_u32 bf (o + 1) ≡ ok l) × Marked visited l cur × Marked visited nxt cur
Follows bf visited o nxt cur cjmp_nz =
    (l : ℕ) × (code_u32 bf (o + 1) ≡ ok l) × Marked visited l cur × Marked visited nxt cur
Follows bf visited o nxt cur call =
    (l : ℕ) × (code_u32 bf (o + 1) ≡ ok l) × Marked visited l 0 × Marked visited nxt cur
Follows bf visited o nxt cur jmp = (l : ℕ) × (code_u32 bf (o + 1) ≡ ok l) × Marked visited l cur
Follows bf visited o nxt cur end = Unit
Follows bf visited o nxt cur fail = Unit
Follows bf visited o nxt cur ret = Unit
Follows bf visited o nxt cur _ = Marked visited nxt cur

-- The instruction at `o`, with `s` operands in front of it, is decoded, has its arguments, and
-- leaves a number of operands that the marks of its successors repeat.
pub record Checked (bf : Bytefile) (visited : List ℕ) (o s : ℕ) : Type 0 where
  pub nxt : ℕ
  pub ty : InstructionType
  pub cur : ℕ
  pub decodes : general_byterun bf o ≡ ok (nxt, ty)
  pub arguments : check_arguments bf o s ty ≡ ok tt
  pub effect : get_new_stack bf s o ty ≡ ok cur
  pub in_range : cur < 2 ^ 31
  pub successors : Follows bf visited o nxt cur ty

abbrev pub Keeps : List ℕ → List ℕ → Type 0
Keeps v w = (o s : ℕ) → Marked v o s → Marked w o s

Follows-mono :
    (bf : Bytefile) (v w : List ℕ) (o nxt cur : ℕ) (ty : InstructionType)
    → Keeps v w
    → Follows bf v o nxt cur ty
    → Follows bf w o nxt cur ty
Follows-mono bf v w o nxt cur cjmp_z k (l, e, a, b) = (l, e, k _ _ a, k _ _ b)
Follows-mono bf v w o nxt cur cjmp_nz k (l, e, a, b) = (l, e, k _ _ a, k _ _ b)
Follows-mono bf v w o nxt cur call k (l, e, a, b) = (l, e, k _ _ a, k _ _ b)
Follows-mono bf v w o nxt cur jmp k (l, e, a) = (l, e, k _ _ a)
Follows-mono bf v w o nxt cur end k h = tt
Follows-mono bf v w o nxt cur fail k h = tt
Follows-mono bf v w o nxt cur ret k h = tt
Follows-mono bf v w o nxt cur _ k h = k _ _ h

pub Checked-mono :
    (bf : Bytefile) (v w : List ℕ) (o s : ℕ) → Keeps v w → Checked bf v o s → Checked bf w o s
Checked-mono bf v w o s k c = record {
  nxt = c.nxt;
  ty = c.ty;
  cur = c.cur;
  decodes = c.decodes;
  arguments = c.arguments;
  effect = c.effect;
  in_range = c.in_range;
  successors = Follows-mono bf v w o c.nxt c.cur c.ty k c.successors;
}

-- The marks after a round, and how they grew.
abbrev pub marks_of : Round → Marks
marks_of (breaks m) = m
marks_of (goes_on m n s) = m

abbrev pub After : Marks → Round → Type 0
After m (breaks m') = Grows none m m'
After m (goes_on m' n s) = Grows (some n) m m' × Marked m'.visited n s

module _ (bf : Bytefile) (m : Marks) (o : ℕ) (r : Round) where
  steps_lem :
      (nxt a b : ℕ)
      → a ≢ minus_one
      → b ≢ minus_one
      → (do
        l ← code_u32 bf (o + 1)
        m₁ ← perform_step m l a
        m₂ ← perform_step m₁ nxt b
        ok (breaks m₂))
        ≡ ok r
      → After m r
        × ((l : ℕ) × (code_u32 bf (o + 1) ≡ ok l)
            × Marked (marks_of r).visited l a
            × Marked (marks_of r).visited nxt b)
  steps_lem nxt a b ha hb p =
      let (l, e, p₁) = >>=-eq-ok (code_u32 bf (o + 1)) _ r p in
      let (m₁, e₁, p₂) = >>=-eq-ok (perform_step m l a) _ r p₁ in
      let (m₂, e₂, p₃) = >>=-eq-ok (perform_step m₁ nxt b) _ r p₂ in
      let (g₁, k₁) = perform_step-Grows m m₁ l a e₁ ha in
      let (g₂, k₂) = perform_step-Grows m₁ m₂ nxt b e₂ hb in
      let q : breaks m₂ ≡ r = ground arith in
      rw (← q) (Grows-trans none m m₁ m₂ g₁ g₂, (l, e, g₂.keeps l a k₁, k₂))

  step_lem :
      (a : ℕ)
      → a ≢ minus_one
      → (do l ← code_u32 bf (o + 1); m₁ ← perform_step m l a; ok (breaks m₁)) ≡ ok r
      → After m r × ((l : ℕ) × (code_u32 bf (o + 1) ≡ ok l) × Marked (marks_of r).visited l a)
  step_lem a ha p =
      let (l, e, p₁) = >>=-eq-ok (code_u32 bf (o + 1)) _ r p in
      let (m₁, e₁, p₂) = >>=-eq-ok (perform_step m l a) _ r p₁ in
      let (g₁, k₁) = perform_step-Grows m m₁ l a e₁ ha in
      let q : breaks m₁ ≡ r = ground arith in rw (← q) (g₁, (l, e, k₁))

  fall_lem :
      (nxt a : ℕ)
      → a ≢ minus_one
      → fall_through m nxt a ≡ ok r
      → After m r × Marked (marks_of r).visited nxt a
  fall_lem nxt a ha p = elim (fall_through_cases m nxt a r p) [
    | inl (unset, e) ↦ rw e (mark-Grows m nxt a unset ha, (mark-Grows m nxt a unset ha).1)
    | inr (same, e) ↦ rw e (Grows-refl m, record { entry = same; set_before = ha })
  ]

  halt_lem : ok (breaks m) ≡ ok r → After m r
  halt_lem p = let q : breaks m ≡ r = ground arith in rw (← q) (Grows-refl m)

  pub follow-After :
      (nxt cur : ℕ) (ty : InstructionType)
      → cur ≢ minus_one
      → follow bf m o nxt ty cur ≡ ok r
      → After m r × Follows bf (marks_of r).visited o nxt cur ty
  unfolding follow
  follow-After nxt cur cjmp_z h p = steps_lem nxt cur cur h h p
  follow-After nxt cur cjmp_nz h p = steps_lem nxt cur cur h h p
  follow-After nxt cur call h p = steps_lem nxt 0 cur (ground arith) h p
  follow-After nxt cur jmp h p = step_lem cur h p
  follow-After nxt cur end h p = (halt_lem p, tt)
  follow-After nxt cur fail h p = (halt_lem p, tt)
  follow-After nxt cur ret h p = (halt_lem p, tt)
  follow-After nxt cur _ h p = fall_lem nxt cur h p

  -- A round that succeeds has checked the instruction that it is at.
  pub visit-Checked :
      (s : ℕ) → visit bf m o s ≡ ok r → After m r × Checked bf (marks_of r).visited o s
  unfolding visit
  visit-Checked s p =
      let ((nxt, ty), d, p₁) = >>=-eq-ok (general_byterun bf o) _ r p in
      let (u, a, p₂) = >>=-eq-ok (check_arguments bf o s ty) _ r p₁ in
      let (cur, e, p₃) = >>=-eq-ok (get_new_stack bf s o ty) _ r p₂ in
      let (u', g, p₄) = >>=-eq-ok (guard (ltb cur (2 ^ 31)) (Error.stack_exhausted o)) _ r p₃ in
      let lt : cur < 2 ^ 31 = ground arith in
      let (after, fs) = follow-After nxt cur ty (omega arith) p₄ in
      (
        after,
        record {
          nxt = nxt;
          ty = ty;
          cur = cur;
          decodes = d;
          arguments = a;
          effect = e;
          in_range = lt;
          successors = fs;
        },
      )
