-- ===== src/Verifier/Marks/Shrinks.antt =====
-- A measure of `collect_marks`: each round of the inner loop marks an offset, and each label of the
-- outer one was marked when it was queued.
use lama_sm_interpreter.Prelude.{
  replicate, ℕ, zero, suc, ◌+◌, ◌<◌, ◌≤◌, ◌^◌, ◌≡◌, ◌≢◌, inl, inr, refl, ltb, ◌==◌, if◌then◌else◌,
  List, [], ◌∷◌, set, length, length-append, get_elem?, some, arith,
}
use lama_sm_interpreter.Result.{ok, Error, ◌>>=◌, >>=-eq-ok, guard}
use lama_sm_interpreter.Word.{minus_one}
use lama_sm_interpreter.Bytefile.{Bytefile, code_u32}
use lama_sm_interpreter.Instruction.{InstructionType, cjmp_z, cjmp_nz, call, jmp, end, fail, ret}
use lama_sm_interpreter.Byterun.{general_byterun}
use lama_sm_interpreter.Verifier.Effect.{get_new_stack}
use lama_sm_interpreter.Verifier.Marks.{
  Marks, mark, push_label, perform_step, check_arguments, Round, breaks, goes_on, fall_through,
  follow, visit,
}
use lama_sm_interpreter.Verifier.Marks.Grows.{perform_step_cases, fall_through_cases}

-- The offsets that are not marked.
pub unset : List ℕ → ℕ
unset [] = 0
unset (v ∷ vs) = (if v == minus_one then 1 else 0) + unset vs

pub set-unset :
    (vs : List ℕ) (n s : ℕ)
    → get_elem? vs n ≡ some minus_one
    → s ≢ minus_one
    → unset (set vs n s) + 1 ≡ unset vs
unfolding unset
set-unset [] n s e h = cc
set-unset (v ∷ vs) zero s e h = ground arith
set-unset (v ∷ vs) (suc n) s e h = omega (arith, set-unset vs n s e h)

-- Marks and labels together do not grow, nor do the unmarked offsets.
pub record Smaller (m m' : Marks) : Type 0 where
  pub together : unset m'.visited + length m'.labels ≤ unset m.visited + length m.labels
  pub offsets : unset m'.visited ≤ unset m.visited

pub push-Smaller :
    (m : Marks) (n s : ℕ)
    → get_elem? m.visited n ≡ some minus_one
    → s ≢ minus_one
    → Smaller m (push_label (mark m n s) n)
unfolding push_label mark
push-Smaller m n s e h =
    omega (arith, set-unset m.visited n s e h, length-append {0} m.labels (n ∷ []))

perform_step-Smaller :
    (m m' : Marks) (n s : ℕ) → perform_step m n s ≡ ok m' → s ≢ minus_one → Smaller m m'
perform_step-Smaller m m' n s p h = elim (perform_step_cases m m' n s p) [
  | inl (e, q) ↦ rw q (push-Smaller m n s e h)
  | inr (e, q) ↦ rw q (omega arith)
]

abbrev pub Shrinks : Marks → Round → Type 0
Shrinks m (breaks m') = Smaller m m'
Shrinks m (goes_on m' n s) =
    (unset m'.visited < unset m.visited) × (length m'.labels ≡ length m.labels)

module _ (bf : Bytefile) (m : Marks) (o : ℕ) (r : Round) where
  steps-Shrinks :
      (nxt a b : ℕ)
      → a ≢ minus_one
      → b ≢ minus_one
      → (do
        l ← code_u32 bf (o + 1)
        m₁ ← perform_step m l a
        m₂ ← perform_step m₁ nxt b
        ok (breaks m₂))
        ≡ ok r
      → Shrinks m r
  steps-Shrinks nxt a b ha hb p =
      let (l, e, p₁) = >>=-eq-ok (code_u32 bf (o + 1)) _ r p in
      let (m₁, e₁, p₂) = >>=-eq-ok (perform_step m l a) _ r p₁ in
      let (m₂, e₂, p₃) = >>=-eq-ok (perform_step m₁ nxt b) _ r p₂ in
      let s₁ = perform_step-Smaller m m₁ l a e₁ ha in
      let s₂ = perform_step-Smaller m₁ m₂ nxt b e₂ hb in
      let q : breaks m₂ ≡ r = ground arith in let both : Smaller m m₂ = omega arith in rw (← q) both

  step-Shrinks :
      (a : ℕ)
      → a ≢ minus_one
      → (do l ← code_u32 bf (o + 1); m₁ ← perform_step m l a; ok (breaks m₁)) ≡ ok r
      → Shrinks m r
  step-Shrinks a ha p =
      let (l, e, p₁) = >>=-eq-ok (code_u32 bf (o + 1)) _ r p in
      let (m₁, e₁, p₂) = >>=-eq-ok (perform_step m l a) _ r p₁ in
      let q : breaks m₁ ≡ r = ground arith in rw (← q) (perform_step-Smaller m m₁ l a e₁ ha)

  fall-Shrinks : (nxt a : ℕ) → a ≢ minus_one → fall_through m nxt a ≡ ok r → Shrinks m r
  unfolding mark
  fall-Shrinks nxt a ha p = elim (fall_through_cases m nxt a r p) [
    | inl (e, q) ↦ rw q (omega (arith, set-unset m.visited nxt a e ha), refl)
    | inr (e, q) ↦ rw q (omega arith)
  ]

  halt-Shrinks : ok (breaks m) ≡ ok r → Shrinks m r
  halt-Shrinks p =
      let q : breaks m ≡ r = ground arith in let same : Smaller m m = omega arith in rw (← q) same

  follow-Shrinks :
      (nxt cur : ℕ) (ty : InstructionType)
      → cur ≢ minus_one
      → follow bf m o nxt ty cur ≡ ok r
      → Shrinks m r
  unfolding follow
  follow-Shrinks nxt cur cjmp_z h p = steps-Shrinks nxt cur cur h h p
  follow-Shrinks nxt cur cjmp_nz h p = steps-Shrinks nxt cur cur h h p
  follow-Shrinks nxt cur call h p = steps-Shrinks nxt 0 cur (ground arith) h p
  follow-Shrinks nxt cur jmp h p = step-Shrinks cur h p
  follow-Shrinks nxt cur end h p = halt-Shrinks p
  follow-Shrinks nxt cur fail h p = halt-Shrinks p
  follow-Shrinks nxt cur ret h p = halt-Shrinks p
  follow-Shrinks nxt cur _ h p = fall-Shrinks nxt cur h p

  pub visit-Shrinks : (s : ℕ) → visit bf m o s ≡ ok r → Shrinks m r
  unfolding visit
  visit-Shrinks s p =
      let ((nxt, ty), d, p₁) = >>=-eq-ok (general_byterun bf o) _ r p in
      let (u, a, p₂) = >>=-eq-ok (check_arguments bf o s ty) _ r p₁ in
      let (cur, e, p₃) = >>=-eq-ok (get_new_stack bf s o ty) _ r p₂ in
      let (u', g, p₄) = >>=-eq-ok (guard (ltb cur (2 ^ 31)) (Error.stack_exhausted o)) _ r p₃ in
      let lt : cur < 2 ^ 31 = ground arith in follow-Shrinks nxt cur ty (omega arith) p₄

pub unset-replicate : (n : ℕ) → unset (replicate n minus_one) ≡ n
unfolding unset
unset-replicate zero = refl
unset-replicate (suc n) = omega (arith, unset-replicate n)
