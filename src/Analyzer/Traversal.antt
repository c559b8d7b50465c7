-- ===== src/Analyzer/Traversal.antt =====
-- The traversal of the analyzer keeps account of the offsets: a flag is set where an offset is put in
-- the queue or becomes the next one, and each such offset is collected.
use lama_sm_interpreter.Prelude.{
  ℕ, ◌+◌, ◌≤◌, ◌≡◌, refl, Bool, true, false, List, [], ◌∷◌, ◌++◌, length, length-append, arith,
  Bool-cases, inl, inr, zero, suc, if◌then◌else◌, ap,
}
use lama_sm_interpreter.Result.{Result, ok, >>=-eq-ok}
use lama_sm_interpreter.Bytefile.{Bytefile, code_u32}
use lama_sm_interpreter.Instruction.{
  InstructionType, jmp, end, ret, cjmp_z, cjmp_nz, closure, call, fail,
}
use lama_sm_interpreter.Byterun.{general_byterun}
use lama_sm_interpreter.Analyzer.{
  Analyzer, test_flag, set_flag, add_instruction, check_label, check_nxt, branch,
  process_instruction, process_round, process_from,
}
use lama_sm_interpreter.Analyzer.Flagged.{
  times, flagged, unflagged, times-append, set_flag-flagged, set_flag-unflagged,
}

-- What the traversal does to the offsets, from `a`, where it stands at the offsets `cur`, to `a'`,
-- where it stands at `cur'`: an offset gets its flag 1 exactly when it comes to the queue, to those or
-- to the collected ones.
pub record Keeps (cur : List ℕ) (a : Analyzer) (cur' : List ℕ) (a' : Analyzer) : Type 0 where
  pub each :
      (x : ℕ)
      → times x a'.collect_single + times x a'.labels + times x cur' + flagged a.visited x
        ≡ times x a.collect_single + times x a.labels + times x cur + flagged a'.visited x
  pub together :
      length a'.collect_single + length a'.labels + length cur' + unflagged a'.visited
      ≡ length a.collect_single + length a.labels + length cur + unflagged a.visited
  pub queue : length a.labels ≤ length a'.labels
  pub collected : length a.collect_single ≤ length a'.collect_single

pub Keeps-refl : (cur : List ℕ) (a : Analyzer) → Keeps cur a cur a
Keeps-refl cur a = record {
  each = λ x. refl;
  together = refl;
  queue = omega arith;
  collected = omega arith;
}

pub Keeps-trans :
    {cur₁ cur₂ cur₃ : List ℕ} {a₁ a₂ a₃ : Analyzer}
    → Keeps cur₁ a₁ cur₂ a₂
    → Keeps cur₂ a₂ cur₃ a₃
    → Keeps cur₁ a₁ cur₃ a₃
Keeps-trans k l = record {
  each = λ x. omega (arith, k.each x, l.each x);
  together = omega (arith, k.together, l.together);
  queue = omega (arith, k.queue, l.queue);
  collected = omega (arith, k.collected, l.collected);
}

pub add_instruction-Keeps :
    (a : Analyzer) (cur_ptr : ℕ) → Keeps (cur_ptr ∷ []) a [] (add_instruction a cur_ptr)
unfolding add_instruction times
add_instruction-Keeps a cur_ptr = record {
  each = λ x. omega (arith, times-append x a.collect_single (cur_ptr ∷ []));
  together = omega (arith, length-append a.collect_single (cur_ptr ∷ []));
  queue = omega arith;
  collected = omega (arith, length-append a.collect_single (cur_ptr ∷ []));
}

pub check_label-Keeps :
    (cur : List ℕ) (a a' : Analyzer) (label : ℕ) → check_label a label ≡ ok a' → Keeps cur a cur a'
unfolding check_label
check_label-Keeps cur a a' label h =
    let (seen, e, k) = >>=-eq-ok (test_flag a.visited label 1) _ a' h in
    let (visited, e', k') = >>=-eq-ok (set_flag a.visited label 1) _ a' k in
    elim (Bool-cases seen) [
      | inl is_seen ↦ let same : a' ≡ a = ground (arith, k', is_seen) in rw same (Keeps-refl cur a)
      | inr unseen ↦
          let pushed : a' ≡ record a { labels = a.labels ++ label ∷ []; visited = visited } =
            ground (arith, k', unseen) in
          let new : test_flag a.visited label 1 ≡ ok false = rw unseen at e in
          rw pushed (record {
            each = λ x. omega (
              arith,
              times-append x a.labels (label ∷ []),
              set_flag-flagged a.visited visited label new e' x,
            );
            together = omega (
              arith,
              length-append a.labels (label ∷ []),
              set_flag-unflagged a.visited visited label new e',
            );
            queue = omega (arith, length-append a.labels (label ∷ []));
            collected = omega arith;
          })
    ]

-- The next offset, where the traversal goes on to it.
abbrev pub next : Bool → ℕ → List ℕ
next true nxt = nxt ∷ []
next false nxt = []

pub check_nxt-Keeps :
    (a a' : Analyzer) (nxt : ℕ) (traverse : Bool)
    → check_nxt a nxt ≡ ok (traverse, a')
    → Keeps [] a (next traverse nxt) a'
unfolding check_nxt times
check_nxt-Keeps a a' nxt traverse h =
    let (seen, e, k) = >>=-eq-ok (test_flag a.visited nxt 1) _ (traverse, a') h in
    let (visited, e', k') = >>=-eq-ok (set_flag a.visited nxt 1) _ (traverse, a') k in
    elim (Bool-cases seen) [
      | inl is_seen ↦
          let same : a' ≡ a = ground (arith, k', is_seen) in
          let stops : traverse ≡ false = ground (arith, k', is_seen) in
          rw (same, stops) (Keeps-refl [] a)
      | inr unseen ↦
          let moved : a' ≡ record a { visited = visited } = ground (arith, k', unseen) in
          let goes : traverse ≡ true = ground (arith, k', unseen) in
          let new : test_flag a.visited nxt 1 ≡ ok false = rw unseen at e in
          rw (moved, goes)
            (record {
              each = λ x. omega (arith, set_flag-flagged a.visited visited nxt new e' x);
              together = omega (arith, set_flag-unflagged a.visited visited nxt new e');
              queue = omega arith;
              collected = omega arith;
            })
    ]

module _ (bf : Bytefile) (cur_ptr nxt : ℕ) where
  branch-Keeps :
      (a a' : Analyzer) (traverse : Bool)
      → branch bf a cur_ptr nxt ≡ ok (traverse, a')
      → Keeps [] a (next traverse nxt) a'
  unfolding branch
  branch-Keeps a a' traverse h =
      let (arg, e, k) = >>=-eq-ok (code_u32 bf (cur_ptr + 1)) _ (traverse, a') h in
      let (a₁, e', k') = >>=-eq-ok (check_label a arg) _ (traverse, a') k in
      Keeps-trans (check_label-Keeps [] a a₁ arg e') (check_nxt-Keeps a₁ a' nxt traverse k')

  stays-Keeps :
      (a a' : Analyzer) (traverse : Bool)
      → ◌≡◌ {A = Result (Bool × Analyzer)} (ok (false, a)) (ok (traverse, a'))
      → Keeps [] a (next traverse nxt) a'
  stays-Keeps a a' traverse h =
      let same : a' ≡ a = ground arith in
      let stops : traverse ≡ false = ground arith in rw (same, stops) (Keeps-refl [] a)

  process_instruction-Keeps :
      (a a' : Analyzer) (traverse : Bool) (ty : InstructionType)
      → process_instruction bf a cur_ptr nxt ty ≡ ok (traverse, a')
      → Keeps [] a (next traverse nxt) a'
  unfolding process_instruction
  process_instruction-Keeps a a' traverse ret h = stays-Keeps a a' traverse h
  process_instruction-Keeps a a' traverse end h = stays-Keeps a a' traverse h
  process_instruction-Keeps a a' traverse jmp h =
      let (arg, e, k) = >>=-eq-ok (code_u32 bf (cur_ptr + 1)) _ (traverse, a') h in
      let (a₁, e', k') = >>=-eq-ok (check_label a arg) _ (traverse, a') k in
      Keeps-trans (check_label-Keeps [] a a₁ arg e') (stays-Keeps a₁ a' traverse k')
  process_instruction-Keeps a a' traverse fail h =
      let (arg, e, k) = >>=-eq-ok (code_u32 bf (cur_ptr + 1)) _ (traverse, a') h in
      stays-Keeps a a' traverse k
  process_instruction-Keeps a a' traverse cjmp_z h = branch-Keeps a a' traverse h
  process_instruction-Keeps a a' traverse cjmp_nz h = branch-Keeps a a' traverse h
  process_instruction-Keeps a a' traverse call h = branch-Keeps a a' traverse h
  process_instruction-Keeps a a' traverse closure h = branch-Keeps a a' traverse h
  process_instruction-Keeps a a' traverse _ h = check_nxt-Keeps a a' nxt traverse h

collect-Keeps :
    (a : Analyzer) (cur_ptr : ℕ) (is_label : Bool)
    → let a₁ : Analyzer =
        add_instruction (if is_label then record a { prev_initialized = false } else a) cur_ptr in
      Keeps (cur_ptr ∷ []) a [] a₁ × (length a.collect_single + 1 ≤ length a₁.collect_single)
unfolding add_instruction
collect-Keeps a cur_ptr true =
    let k = add_instruction-Keeps (record a { prev_initialized = false }) cur_ptr in
    (
      record { each = k.each; together = k.together; queue = k.queue; collected = k.collected },
      omega (arith, length-append a.collect_single (cur_ptr ∷ [])),
    )
collect-Keeps a cur_ptr false =
    (add_instruction-Keeps a cur_ptr, omega (arith, length-append a.collect_single (cur_ptr ∷ [])))

-- A round collects an instruction, and leaves the traversal at the next one, if it goes on.
pub process_round-Keeps :
    (bf : Bytefile) (a a' : Analyzer) (cur_ptr nxt : ℕ) (traverse : Bool)
    → process_round bf a cur_ptr ≡ ok (traverse, a', nxt)
    → Keeps (cur_ptr ∷ []) a (next traverse nxt) a'
      × (length a.collect_single + 1 ≤ length a'.collect_single)
unfolding process_round
process_round-Keeps bf a a' cur_ptr nxt traverse h =
    let ((n, ty), e, k) = >>=-eq-ok (general_byterun bf cur_ptr) _ (traverse, a', nxt) h in
    let (is_label, e', k') = >>=-eq-ok (test_flag a.visited cur_ptr 2) _ (traverse, a', nxt) k in
    let (r, e'', k'') =
      >>=-eq-ok
        (process_instruction bf
          (add_instruction (if is_label then record a { prev_initialized = false } else a) cur_ptr)
          cur_ptr n ty)
        _ (traverse, a', nxt) k' in
    let (first, more) = collect-Keeps a cur_ptr is_label in
    let same : r ≡ (traverse, a') = ground (arith, k'') in
    let to : n ≡ nxt = ground (arith, k'') in
    let rest = process_instruction-Keeps bf cur_ptr nxt _ a' traverse ty (rw (same, to) at e'') in
    (Keeps-trans first rest, omega (arith, more, rest.collected))

pub process_from-Keeps :
    (fuel : ℕ) (bf : Bytefile) (a a' : Analyzer) (cur_ptr : ℕ)
    → process_from fuel bf a cur_ptr ≡ ok a'
    → Keeps (cur_ptr ∷ []) a [] a' × (length a.collect_single + 1 ≤ length a'.collect_single)
unfolding process_from
process_from-Keeps zero bf a a' cur_ptr h = cc
process_from-Keeps (suc fuel) bf a a' cur_ptr h =
    let ((traverse, a₁, nxt), e, k) = >>=-eq-ok (process_round bf a cur_ptr) _ a' h in
    let (round, more) = process_round-Keeps bf a a₁ cur_ptr nxt traverse e in
    elim (Bool-cases traverse) [
      | inl goes ↦
          let (rest, further) = process_from-Keeps fuel bf a₁ a' nxt (rw goes at k) in
          let to : next traverse nxt ≡ nxt ∷ [] = ap (λ t. next t nxt) goes in
          (Keeps-trans (rw to at round) rest, omega (arith, more, further))
      | inr stops ↦
          let last : ◌≡◌ {A = Result Analyzer} (ok a₁) (ok a') = rw stops at k in
          let same : a' ≡ a₁ = ground arith in
          let to : next traverse nxt ≡ [] = ap (λ t. next t nxt) stops in
          rw same (rw to at round, more)
    ]
