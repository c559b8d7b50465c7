-- ===== src/Analyzer/Targets.antt =====
-- Which offsets `process_instruction` of the analyzer flags: those that control can go to.
use lama_sm_interpreter.Prelude.{
  ℕ, ◌+◌, ◌≡◌, refl, ◌⊎◌, inl, inr, ◌∙◌, Bool, true, false, List, [], ◌∷◌, ◌++◌, arith, Bool-cases,
  zero, suc,
}
use lama_sm_interpreter.Result.{Result, ok, >>=-eq-ok}
use lama_sm_interpreter.Bytefile.{Bytefile, code_u32}
use lama_sm_interpreter.Instruction.{
  InstructionType, jmp, end, ret, cjmp_z, cjmp_nz, closure, call, fail,
}
use lama_sm_interpreter.Analyzer.{
  Analyzer, test_flag, set_flag, check_label, check_nxt, branch, process_instruction,
}
use lama_sm_interpreter.Analyzer.Flagged.{times, flagged, flagged-le-one, set_flag-flagged}
use mathlib.Core.Logic.{⊎_elim}

-- Where control can go from an instruction of type `ty` at `o`, the body of a closure that it makes
-- included.
abbrev pub Target : Bytefile → ℕ → ℕ → InstructionType → ℕ → Type 0
Target bf o nxt jmp o' = code_u32 bf (o + 1) ≡ ok o'
Target bf o nxt cjmp_z o' = (code_u32 bf (o + 1) ≡ ok o') ⊎ (o' ≡ nxt)
Target bf o nxt cjmp_nz o' = (code_u32 bf (o + 1) ≡ ok o') ⊎ (o' ≡ nxt)
Target bf o nxt call o' = (code_u32 bf (o + 1) ≡ ok o') ⊎ (o' ≡ nxt)
Target bf o nxt closure o' = (code_u32 bf (o + 1) ≡ ok o') ⊎ (o' ≡ nxt)
Target bf o nxt end o' = ⊥
Target bf o nxt ret o' = ⊥
Target bf o nxt fail o' = ⊥
Target bf o nxt _ o' = o' ≡ nxt

-- From `a` to `a'` the flag 1 was set at the offsets of `P`, and no instruction was collected.
pub record Adds (P : ℕ → Type 0) (a a' : Analyzer) : Type 0 where
  pub keeps : (x : ℕ) → flagged a.visited x ≡ 1 → flagged a'.visited x ≡ 1
  pub puts : (x : ℕ) → P x → flagged a'.visited x ≡ 1
  pub only : (x : ℕ) → flagged a'.visited x ≡ 1 → (flagged a.visited x ≡ 1) ⊎ P x
  pub collected : a'.collect_single ≡ a.collect_single

pub Adds-nothing : (a : Analyzer) → Adds (λ _. ⊥) a a
Adds-nothing a = record {
  keeps = λ x h. h;
  puts = λ x h. elim h [ ];
  only = λ x h. inl h;
  collected = refl;
}

-- `P` and then `Q`.
pub Adds-then :
    {P Q R : ℕ → Type 0} {a b c : Analyzer}
    → Adds P a b
    → Adds Q b c
    → ((x : ℕ) → P x → R x)
    → ((x : ℕ) → Q x → R x)
    → ((x : ℕ) → R x → P x ⊎ Q x)
    → Adds R a c
Adds-then p q fromp fromq to = record {
  keeps = λ x h. q.keeps x (p.keeps x h);
  puts = λ x h. ⊎_elim (λ k. q.keeps x (p.puts x k)) (q.puts x) (to x h);
  only = λ x h.
      ⊎_elim (λ k. ⊎_elim inl (λ l. inr (fromp x l)) (p.only x k)) (λ k. inr (fromq x k))
        (q.only x h);
  collected = q.collected ∙ p.collected;
}

pub Adds-as :
    {P R : ℕ → Type 0} {a b : Analyzer}
    → Adds P a b
    → ((x : ℕ) → P x → R x)
    → ((x : ℕ) → R x → P x)
    → Adds R a b
Adds-as p to from = record {
  keeps = p.keeps;
  puts = λ x h. p.puts x (from x h);
  only = λ x h. ⊎_elim inl (λ k. inr (to x k)) (p.only x h);
  collected = p.collected;
}

test_flag-flagged :
    (visited : List ℕ) (i : ℕ) → test_flag visited i 1 ≡ ok true → flagged visited i ≡ 1
unfolding test_flag flagged
test_flag-flagged [] i h = cc
test_flag-flagged (flags ∷ visited) zero h = ground arith
test_flag-flagged (flags ∷ visited) (suc i) h = test_flag-flagged visited i h

-- The flag of a new offset is set.
new-Adds :
    (a b : Analyzer) (i : ℕ)
    → b.collect_single ≡ a.collect_single
    → test_flag a.visited i 1 ≡ ok false
    → set_flag a.visited i 1 ≡ ok b.visited
    → Adds (λ x. x ≡ i) a b
unfolding times
new-Adds a b i same unseen sets = record {
  keeps = λ x h.
      omega
        (arith, set_flag-flagged a.visited b.visited i unseen sets x, flagged-le-one b.visited x);
  puts = λ x h.
      ground
        (arith, set_flag-flagged a.visited b.visited i unseen sets x, flagged-le-one b.visited x);
  only = λ x h. ground (arith, set_flag-flagged a.visited b.visited i unseen sets x);
  collected = same;
}

seen-Adds : (a : Analyzer) (i : ℕ) → flagged a.visited i ≡ 1 → Adds (λ x. x ≡ i) a a
seen-Adds a i seen = record {
  keeps = λ x h. h;
  puts = λ x h. rw h seen;
  only = λ x h. inl h;
  collected = refl;
}

pub check_label-Adds :
    (a a' : Analyzer) (label : ℕ) → check_label a label ≡ ok a' → Adds (λ x. x ≡ label) a a'
unfolding check_label
check_label-Adds a a' label h =
    let (seen, e, k) = >>=-eq-ok (test_flag a.visited label 1) _ a' h in
    let (visited, e', k') = >>=-eq-ok (set_flag a.visited label 1) _ a' k in
    elim (Bool-cases seen) [
      | inl is_seen ↦
          let same : a' ≡ a = ground (arith, k', is_seen) in
          rw same (seen-Adds a label (test_flag-flagged a.visited label (rw is_seen at e)))
      | inr unseen ↦
          let pushed : a' ≡ record a { labels = a.labels ++ label ∷ []; visited = visited } =
            ground (arith, k', unseen) in
          rw pushed (new-Adds a _ label refl (rw unseen at e) e')
    ]

pub check_nxt-Adds :
    (a a' : Analyzer) (nxt : ℕ) (traverse : Bool)
    → check_nxt a nxt ≡ ok (traverse, a')
    → Adds (λ x. x ≡ nxt) a a'
unfolding check_nxt
check_nxt-Adds a a' nxt traverse h =
    let (seen, e, k) = >>=-eq-ok (test_flag a.visited nxt 1) _ (traverse, a') h in
    let (visited, e', k') = >>=-eq-ok (set_flag a.visited nxt 1) _ (traverse, a') k in
    elim (Bool-cases seen) [
      | inl is_seen ↦
          let same : a' ≡ a = ground (arith, k', is_seen) in
          rw same (seen-Adds a nxt (test_flag-flagged a.visited nxt (rw is_seen at e)))
      | inr unseen ↦
          let moved : a' ≡ record a { visited = visited } = ground (arith, k', unseen) in
          rw moved (new-Adds a _ nxt refl (rw unseen at e) e')
    ]

module _ (bf : Bytefile) (o nxt : ℕ) where
  -- What `code_u32` gives is one offset.
  read_target : (arg x : ℕ) → code_u32 bf (o + 1) ≡ ok arg → code_u32 bf (o + 1) ≡ ok x → x ≡ arg
  read_target arg x e h = ground arith

  branch-Adds :
      (a a' : Analyzer) (traverse : Bool)
      → branch bf a o nxt ≡ ok (traverse, a')
      → Adds (λ x. (code_u32 bf (o + 1) ≡ ok x) ⊎ (x ≡ nxt)) a a'
  unfolding branch
  branch-Adds a a' traverse h =
      let (arg, e, k) = >>=-eq-ok (code_u32 bf (o + 1)) _ (traverse, a') h in
      let (a₁, e', k') = >>=-eq-ok (check_label a arg) _ (traverse, a') k in
      Adds-then (check_label-Adds a a₁ arg e') (check_nxt-Adds a₁ a' nxt traverse k')
        (λ x l. inl (rw l e)) (λ x l. inr l) λ x. ⊎_elim (λ l. inl (read_target arg x e l)) inr

  stays-Adds :
      (a a' : Analyzer) (traverse : Bool)
      → ◌≡◌ {A = Result (Bool × Analyzer)} (ok (false, a)) (ok (traverse, a'))
      → Adds (λ _. ⊥) a a'
  stays-Adds a a' traverse h = let same : a' ≡ a = ground arith in rw same (Adds-nothing a)

  -- A round flags exactly the offsets that control can go to.
  pub process_instruction-Adds :
      (a a' : Analyzer) (traverse : Bool) (ty : InstructionType)
      → process_instruction bf a o nxt ty ≡ ok (traverse, a')
      → Adds (Target bf o nxt ty) a a'
  unfolding process_instruction
  process_instruction-Adds a a' traverse ret h = stays-Adds a a' traverse h
  process_instruction-Adds a a' traverse end h = stays-Adds a a' traverse h
  process_instruction-Adds a a' traverse jmp h =
      let (arg, e, k) = >>=-eq-ok (code_u32 bf (o + 1)) _ (traverse, a') h in
      let (a₁, e', k') = >>=-eq-ok (check_label a arg) _ (traverse, a') k in
      let same : a' ≡ a₁ = ground (arith, k') in
      rw same
        (Adds-as (check_label-Adds a a₁ arg e') (λ x l. rw l e) (λ x l. read_target arg x e l))
  process_instruction-Adds a a' traverse fail h =
      let (arg, e, k) = >>=-eq-ok (code_u32 bf (o + 1)) _ (traverse, a') h in
      stays-Adds a a' traverse k
  process_instruction-Adds a a' traverse cjmp_z h = branch-Adds a a' traverse h
  process_instruction-Adds a a' traverse cjmp_nz h = branch-Adds a a' traverse h
  process_instruction-Adds a a' traverse call h = branch-Adds a a' traverse h
  process_instruction-Adds a a' traverse closure h = branch-Adds a a' traverse h
  process_instruction-Adds a a' traverse _ h = check_nxt-Adds a a' nxt traverse h
