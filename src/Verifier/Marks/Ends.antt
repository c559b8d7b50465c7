-- ===== src/Verifier/Marks/Ends.antt =====
-- The loops of `collect_marks` end.
use lama_sm_interpreter.Prelude.{
  ℕ, zero, suc, ◌+◌, ◌<◌, ◌^◌, ◌≡◌, Bool, true, false, ltb, ◌==◌, List, [], ◌∷◌, length, get_elem?,
  arith,
}
use lama_sm_interpreter.Result.{Result, ok, Error, ◌>>=◌, >>=-eq-ok, guard}
use lama_sm_interpreter.Word.{minus_one, found}
use lama_sm_interpreter.Bytefile.{Bytefile, code_u32, code_byte}
use lama_sm_interpreter.Instruction.{
  InstructionType, sexp, cjmp_z, cjmp_nz, call, jmp, end, fail, ret, call_array, callc, array, patt,
  Patt,
}
use lama_sm_interpreter.Byterun.Ends.{general_byterun-Finishes}
use lama_sm_interpreter.Byterun.{general_byterun}
use lama_sm_interpreter.Fuel.{
  Finishes, Finishes-bind, Finishes-found, Finishes-if, Finishes-code_u32, Finishes-code_byte,
}
use lama_sm_interpreter.Verifier.Effect.{get_new_stack, patt_new_stack}
use lama_sm_interpreter.Verifier.Marks.{
  Marks, perform_step, check_arguments, Round, breaks, goes_on, fall_through, follow, visit, walk,
  drain,
}
use lama_sm_interpreter.Verifier.Marks.Shrinks.{unset, Smaller, Shrinks, visit-Shrinks}

-- Nothing that a round calls runs on fuel.
guard-Finishes :
    (b : Bool) (o : ℕ)
    → Finishes (guard b (Error.too_many_arguments o)) × Finishes (guard b (Error.stack_exhausted o))
guard-Finishes true o = (tt, tt)
guard-Finishes false o = (tt, tt)

check_arguments-Finishes :
    (bf : Bytefile) (o s : ℕ) (ty : InstructionType) → Finishes (check_arguments bf o s ty)
unfolding check_arguments
check_arguments-Finishes bf o s callc =
    Finishes-bind (code_u32 bf (o + 1)) _ (Finishes-code_u32 bf _) λ n _. (guard-Finishes _ o).0
check_arguments-Finishes bf o s array =
    Finishes-bind (code_u32 bf (o + 1)) _ (Finishes-code_u32 bf _) λ n _. (guard-Finishes _ o).0
check_arguments-Finishes bf o s sexp =
    Finishes-bind (code_u32 bf (o + (1 + 4))) _ (Finishes-code_u32 bf _)
      λ n _. (guard-Finishes _ o).0
check_arguments-Finishes bf o s call =
    Finishes-bind (code_u32 bf (o + (1 + 4))) _ (Finishes-code_u32 bf _)
      λ n _. (guard-Finishes _ o).0
check_arguments-Finishes bf o s _ = tt

patt_new_stack-Finishes : (s : ℕ) (q : Patt) → Finishes (patt_new_stack s q)
unfolding patt_new_stack
patt_new_stack-Finishes s Patt.str_cmp = tt
patt_new_stack-Finishes s (Patt.other c) = tt
patt_new_stack-Finishes s _ = tt

get_new_stack-Finishes :
    (bf : Bytefile) (s o : ℕ) (ty : InstructionType) → Finishes (get_new_stack bf s o ty)
unfolding get_new_stack
get_new_stack-Finishes bf s o sexp =
    Finishes-bind (code_u32 bf (o + (1 + 4))) _ (Finishes-code_u32 bf _) λ n _. tt
get_new_stack-Finishes bf s o call =
    Finishes-bind (code_u32 bf (o + (1 + 4))) _ (Finishes-code_u32 bf _) λ n _. tt
get_new_stack-Finishes bf s o call_array =
    Finishes-bind (code_u32 bf (o + 1)) _ (Finishes-code_u32 bf _) λ n _. tt
get_new_stack-Finishes bf s o callc =
    Finishes-bind (code_u32 bf (o + 1)) _ (Finishes-code_u32 bf _) λ n _. tt
get_new_stack-Finishes bf s o patt =
    Finishes-bind (code_byte bf o) _ (Finishes-code_byte bf o) λ c _. patt_new_stack-Finishes s _
get_new_stack-Finishes bf s o _ = tt

perform_step-Finishes : (m : Marks) (n s : ℕ) → Finishes (perform_step m n s)
unfolding perform_step
perform_step-Finishes m n s =
    Finishes-bind (found (get_elem? m.visited n)) _ (Finishes-found (get_elem? m.visited n))
      λ v _. Finishes-if (v == minus_one) _ _ tt (Finishes-if (v == s) _ _ tt tt)

fall_through-Finishes : (m : Marks) (n s : ℕ) → Finishes (fall_through m n s)
unfolding fall_through
fall_through-Finishes m n s =
    Finishes-bind (found (get_elem? m.visited n)) _ (Finishes-found (get_elem? m.visited n))
      λ v _. Finishes-if (v == minus_one) _ _ tt (Finishes-if (v == s) _ _ tt tt)

module _ (bf : Bytefile) (m : Marks) (o : ℕ) where
  steps-Finishes :
      (nxt a b : ℕ)
      → Finishes (do
        l ← code_u32 bf (o + 1)
        m₁ ← perform_step m l a
        m₂ ← perform_step m₁ nxt b
        ok (breaks m₂))
  steps-Finishes nxt a b =
      Finishes-bind (code_u32 bf (o + 1)) _ (Finishes-code_u32 bf (o + 1)) λ l _.
        Finishes-bind (perform_step m l a) _ (perform_step-Finishes m l a) λ m₁ _.
          Finishes-bind (perform_step m₁ nxt b) _ (perform_step-Finishes m₁ nxt b) λ m₂ _. tt

  follow-Finishes : (nxt cur : ℕ) (ty : InstructionType) → Finishes (follow bf m o nxt ty cur)
  unfolding follow
  follow-Finishes nxt cur cjmp_z = steps-Finishes nxt cur cur
  follow-Finishes nxt cur cjmp_nz = steps-Finishes nxt cur cur
  follow-Finishes nxt cur call = steps-Finishes nxt 0 cur
  follow-Finishes nxt cur jmp =
      Finishes-bind (code_u32 bf (o + 1)) _ (Finishes-code_u32 bf (o + 1))
        λ l _. Finishes-bind (perform_step m l cur) _ (perform_step-Finishes m l cur) λ m₁ _. tt
  follow-Finishes nxt cur end = tt
  follow-Finishes nxt cur fail = tt
  follow-Finishes nxt cur ret = tt
  follow-Finishes nxt cur _ = fall_through-Finishes m nxt cur

  visit-Finishes : (s : ℕ) → Finishes (visit bf m o s)
  unfolding visit
  visit-Finishes s =
      Finishes-bind (general_byterun bf o) _ (general_byterun-Finishes bf o) λ (nxt, ty) _.
        Finishes-bind (check_arguments bf o s ty) _ (check_arguments-Finishes bf o s ty) λ _ _.
          Finishes-bind (get_new_stack bf s o ty) _ (get_new_stack-Finishes bf s o ty) λ cur _.
            Finishes-bind (guard (ltb cur (2 ^ 31)) (Error.stack_exhausted o)) _
              (guard-Finishes (ltb cur (2 ^ 31)) o).1 λ _ _. follow-Finishes nxt cur ty

-- The inner loop ends, and leaves no more work behind.
abbrev WalkEnds : ℕ → Bytefile → Marks → ℕ → ℕ → Type 0
WalkEnds fuel bf m o s =
    Finishes (walk fuel bf m o s) × ((m' : Marks) → walk fuel bf m o s ≡ ok m' → Smaller m m')

-- The inner loop behind a round.
abbrev go_on : ℕ → Bytefile → Round → Result Marks
go_on fuel bf r = elim r [ breaks m₁ ↦ ok m₁ | goes_on m₁ n t ↦ walk fuel bf m₁ n t ]

round-Ends :
    (fuel : ℕ) (bf : Bytefile) (m : Marks)
    → ((m₁ : Marks) (n t : ℕ) → unset m₁.visited < fuel → WalkEnds fuel bf m₁ n t)
    → unset m.visited < suc fuel
    → (r : Round) → Shrinks m r
    → Finishes (go_on fuel bf r) × ((m' : Marks) → go_on fuel bf r ≡ ok m' → Smaller m m')
round-Ends fuel bf m ih lt (breaks m₁) sm =
    (tt, λ m' p. let e : m₁ ≡ m' = ground arith in rw (← e) sm)
round-Ends fuel bf m ih lt (goes_on m₁ n t) (fewer, same) =
    let (f, g) = ih m₁ n t (omega arith) in (f, λ m' p. let h = g m' p in omega arith)

-- Fuel for each unmarked offset is enough.
walk-Ends :
    (fuel : ℕ) (bf : Bytefile) (m : Marks) (o s : ℕ)
    → unset m.visited < fuel
    → WalkEnds fuel bf m o s
unfolding walk
walk-Ends zero bf m o s lt = absurd (omega arith)
walk-Ends (suc fuel) bf m o s lt =
    let rest = λ (r : Round) (e : visit bf m o s ≡ ok r).
      round-Ends fuel bf m (walk-Ends fuel bf) lt r (visit-Shrinks bf m o r s e) in
    (
      Finishes-bind (visit bf m o s) _ (visit-Finishes bf m o s) (λ r e. (rest r e).0),
      λ m' p. let (r, e, q) = >>=-eq-ok (visit bf m o s) _ m' p in (rest r e).1 m' q,
    )

pub drain-Finishes :
    (fuel rounds : ℕ) (bf : Bytefile) (visited labels : List ℕ)
    → unset visited + length labels < fuel
    → unset visited < rounds
    → Finishes (drain fuel rounds bf (record { visited = visited; labels = labels }))
unfolding drain
drain-Finishes zero rounds bf visited labels a b = absurd (omega arith)
drain-Finishes (suc fuel) rounds bf visited [] a b = tt
drain-Finishes (suc fuel) rounds bf visited (l ∷ labels) a b =
    let popped : Marks = record { visited = visited; labels = labels } in
    Finishes-bind (found (get_elem? visited l)) _ (Finishes-found (get_elem? visited l)) λ t _.
      let (f, g) = walk-Ends rounds bf popped l t b in
      Finishes-bind (walk rounds bf popped l t) _ f λ m' e.
        let sm = g m' e in
        drain-Finishes fuel rounds bf m'.visited m'.labels (omega arith) (omega arith)
