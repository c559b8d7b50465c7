-- ===== src/Analyzer/Ends/Labels.antt =====
-- The traversal of `analyze` has enough fuel.
use lama_sm_interpreter.Prelude.{
  ℕ, zero, suc, ◌+◌, ◌≤◌, ◌<◌, ◌≡◌, ◌≢◌, refl, ap, inl, false, List, [], ◌∷◌, length,
  length-replicate, replicate, arith, Bool-cases, inr,
}
use lama_sm_interpreter.Result.{ok, err, out_of_fuel, ◌>>=◌, >>=-eq-ok}
use lama_sm_interpreter.Fuel.{
  Finishes, Finishes-bind, Finishes-ne, Finishes-code_u32, Finishes-get_public_offset,
}
use lama_sm_interpreter.Bytefile.{Bytefile, code_u32, get_public_offset}
use lama_sm_interpreter.Instruction.{
  InstructionType, jmp, end, ret, cjmp_z, cjmp_nz, closure, call, fail,
}
use lama_sm_interpreter.Byterun.{general_byterun}
use lama_sm_interpreter.Byterun.Ends.{general_byterun-Finishes}
use lama_sm_interpreter.Analyzer.{
  Analyzer, test_flag, set_flag, check_label, check_nxt, branch, process_instruction, process_round,
  process_from, process_label, process_labels, start_labels, traverse_code, collect_flags, analyze,
}
use lama_sm_interpreter.Analyzer.Flagged.{unflagged, unflagged-le-length, set_flag-Same}
use lama_sm_interpreter.Analyzer.Traversal.{
  next, check_label-Keeps, process_round-Keeps, process_from-Keeps,
}
use lama_sm_interpreter.Analyzer.Others.{collect_flags-Same}
use lama_sm_interpreter.Analyzer.Ends.Queue.{
  test_flag-Finishes, set_flag-Finishes, collect_flags-Finishes,
}

check_label-Finishes : (a : Analyzer) (label : ℕ) → Finishes (check_label a label)
unfolding check_label
check_label-Finishes a label =
    Finishes-bind (test_flag a.visited label 1) _ (test_flag-Finishes a.visited label 1) λ seen _.
      Finishes-bind (set_flag a.visited label 1) _ (set_flag-Finishes a.visited label 1) λ v _. tt

check_nxt-Finishes : (a : Analyzer) (nxt : ℕ) → Finishes (check_nxt a nxt)
unfolding check_nxt
check_nxt-Finishes a nxt =
    Finishes-bind (test_flag a.visited nxt 1) _ (test_flag-Finishes a.visited nxt 1) λ seen _.
      Finishes-bind (set_flag a.visited nxt 1) _ (set_flag-Finishes a.visited nxt 1) λ v _. tt

module _ (bf : Bytefile) where
  branch-Finishes : (a : Analyzer) (cur_ptr nxt : ℕ) → Finishes (branch bf a cur_ptr nxt)
  unfolding branch
  branch-Finishes a cur_ptr nxt =
      Finishes-bind (code_u32 bf (cur_ptr + 1)) _ (Finishes-code_u32 bf _) λ arg _.
        Finishes-bind (check_label a arg) _ (check_label-Finishes a arg)
          λ a₁ _. check_nxt-Finishes a₁ nxt

  process_instruction-Finishes :
      (a : Analyzer) (cur_ptr nxt : ℕ) (ty : InstructionType)
      → Finishes (process_instruction bf a cur_ptr nxt ty)
  unfolding process_instruction
  process_instruction-Finishes a cur_ptr nxt ret = tt
  process_instruction-Finishes a cur_ptr nxt end = tt
  process_instruction-Finishes a cur_ptr nxt jmp =
      Finishes-bind (code_u32 bf (cur_ptr + 1)) _ (Finishes-code_u32 bf _)
        λ arg _. Finishes-bind (check_label a arg) _ (check_label-Finishes a arg) λ a₁ _. tt
  process_instruction-Finishes a cur_ptr nxt fail =
      Finishes-bind (code_u32 bf (cur_ptr + 1)) _ (Finishes-code_u32 bf _) λ arg _. tt
  process_instruction-Finishes a cur_ptr nxt cjmp_z = branch-Finishes a cur_ptr nxt
  process_instruction-Finishes a cur_ptr nxt cjmp_nz = branch-Finishes a cur_ptr nxt
  process_instruction-Finishes a cur_ptr nxt call = branch-Finishes a cur_ptr nxt
  process_instruction-Finishes a cur_ptr nxt closure = branch-Finishes a cur_ptr nxt
  process_instruction-Finishes a cur_ptr nxt _ = check_nxt-Finishes a nxt

  process_round-Finishes : (a : Analyzer) (cur_ptr : ℕ) → Finishes (process_round bf a cur_ptr)
  unfolding process_round
  process_round-Finishes a cur_ptr =
      Finishes-bind (general_byterun bf cur_ptr) _ (general_byterun-Finishes bf cur_ptr)
        λ (nxt, ty) _.
          Finishes-bind (test_flag a.visited cur_ptr 2) _ (test_flag-Finishes a.visited cur_ptr 2)
            λ is_label _.
              Finishes-bind _ _ (process_instruction-Finishes _ cur_ptr nxt ty) λ r _. tt

  -- Each round that goes on sets the flag of an offset.
  process_from-Finishes :
      (fuel : ℕ) (a : Analyzer) (cur_ptr : ℕ)
      → unflagged a.visited < fuel
      → Finishes (process_from fuel bf a cur_ptr)
  unfolding process_from
  process_from-Finishes zero a cur_ptr enough = elim enough [ ]
  process_from-Finishes (suc fuel) a cur_ptr enough =
      Finishes-bind (process_round bf a cur_ptr) _ (process_round-Finishes a cur_ptr)
        λ (traverse, a₁, nxt) h.
          let (keeps, more) = process_round-Keeps bf a a₁ cur_ptr nxt traverse h in
          elim (Bool-cases traverse) [
            | inl goes ↦
                let one : length (next traverse nxt) ≡ 1 = ap (λ t. length (next t nxt)) goes in
                rw goes (
                  process_from-Finishes fuel a₁ nxt
                    (omega (arith, keeps.together, keeps.queue, more, one)))
            | inr stops ↦ rw stops tt
          ]

  -- Each label of the queue has its flag.
  process_labels-Finishes :
      (fuel : ℕ) (a : Analyzer)
      → unflagged a.visited + length a.labels < fuel
      → unflagged a.visited ≤ bf.code_size
      → Finishes (process_labels fuel bf a)
  unfolding process_labels process_label
  process_labels-Finishes zero a enough small = elim enough [ ]
  process_labels-Finishes (suc fuel) a enough small =
      go a.labels refl (λ a₁ lt le. process_labels-Finishes fuel a₁ lt le)
    where
      go :
          (queue : List ℕ)
          → a.labels ≡ queue
          → ((a₁ : Analyzer)
              → unflagged a₁.visited + length a₁.labels < fuel
              → unflagged a₁.visited ≤ bf.code_size
              → Finishes (process_labels fuel bf a₁))
          → Finishes (elim queue [
            | [] ↦ ok a
            | label ∷ labels ↦ do
              a' ← process_label (bf.code_size + 1) bf (record a { labels = labels }) label
              process_labels fuel bf a'
          ])
      go [] e later = tt
      go (label ∷ labels) e later =
          let popped : Analyzer = record a { labels = labels; prev_initialized = false } in
          let long : unflagged a.visited + length (label ∷ labels) < suc fuel = rw e at enough in
          Finishes-bind (process_from (bf.code_size + 1) bf popped label) _
            (process_from-Finishes (bf.code_size + 1) popped label (omega arith))
            λ a₁ h.
              let (keeps, more) = process_from-Keeps (bf.code_size + 1) bf popped a₁ label h in
              later a₁ (omega (arith, keeps.together, keeps.queue, more, long))
                (omega (arith, keeps.together, keeps.queue, more, small))

  start_labels-Finishes : (i n : ℕ) (a : Analyzer) → Finishes (start_labels bf i n a)
  unfolding start_labels
  start_labels-Finishes i zero a = tt
  start_labels-Finishes i (suc n) a =
      Finishes-bind (get_public_offset bf i) _ (Finishes-get_public_offset bf i) λ o _.
        Finishes-bind (check_label a o) _ (check_label-Finishes a o) λ a₁ _.
          Finishes-bind (set_flag a₁.visited o 2) _ (set_flag-Finishes a₁.visited o 2)
            λ v _. start_labels-Finishes (i + 1) n (record a₁ { visited = v })

  start_labels-bounds :
      (i n : ℕ) (a a' : Analyzer)
      → start_labels bf i n a ≡ ok a'
      → (unflagged a'.visited + length a'.labels ≤ unflagged a.visited + length a.labels)
        × (unflagged a'.visited ≤ unflagged a.visited)
  unfolding start_labels
  start_labels-bounds i zero a a' h = let same : a' ≡ a = ground arith in rw same (omega arith)
  start_labels-bounds i (suc n) a a' h =
      let (o, e, k) = >>=-eq-ok (get_public_offset bf i) _ a' h in
      let (a₁, e₁, k₁) = >>=-eq-ok (check_label a o) _ a' k in
      let (v, e₂, k₂) = >>=-eq-ok (set_flag a₁.visited o 2) _ a' k₁ in
      let keeps = check_label-Keeps [] a a₁ o e₁ in
      let same = set_flag-Same a₁.visited v o 2 (inl refl) e₂ in
      let (together, left) = start_labels-bounds (i + 1) n (record a₁ { visited = v }) a' k₂ in
      omega (arith, keeps.together, keeps.queue, keeps.collected, same.left, together, left)

  -- `collect_marks` and the traversal of `analyze` end on every file: none of their loops runs out of
  -- fuel.
  pub analyze-ne-out_of_fuel : analyze bf ≢ err out_of_fuel
  unfolding analyze traverse_code
  analyze-ne-out_of_fuel = Finishes-ne (analyze bf) (
      Finishes-bind (collect_flags bf (replicate bf.code_size 0)) _ (collect_flags-Finishes bf)
        λ visited h.
          let new : Analyzer = record {
            collect_single = [];
            collect_pairs = [];
            prev_ptr = 0;
            prev_initialized = false;
            visited = visited;
            labels = [];
          } in
          let same = collect_flags-Same bf (replicate bf.code_size 0) visited h in
          let few : unflagged visited ≤ bf.code_size = omega (
            arith,
            unflagged-le-length visited,
            same.size,
            length-replicate {A = ℕ} bf.code_size 0,
          ) in
          Finishes-bind (start_labels bf 0 bf.public_symbols_number new) _
            (start_labels-Finishes 0 bf.public_symbols_number new)
            λ a k.
              let (together, left) = start_labels-bounds 0 bf.public_symbols_number new a k in
              process_labels-Finishes (bf.code_size + 1) a (omega (arith, together, few))
                (omega (arith, left, few)))
