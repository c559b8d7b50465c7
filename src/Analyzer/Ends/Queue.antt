-- ===== src/Analyzer/Ends/Queue.antt =====
-- The loop of `collect_marks` of the analyzer has enough fuel.
use lama_sm_interpreter.Prelude.{
  ℕ, zero, suc, ◌+◌, ◌*◌, ◌<◌, ◌≡◌, refl, ◌==◌, Bool, true, false, if◌then◌else◌, List, [], ◌∷◌,
  length, replicate, get_elem?, arith,
}
use lama_sm_interpreter.Result.{ok, ◌>>=◌}
use lama_sm_interpreter.Fuel.{
  Finishes, Finishes-bind, Finishes-if, Finishes-found, Finishes-code_byte, Finishes-code_u32,
  Finishes-get_public_offset,
}
use lama_sm_interpreter.Bytefile.{Bytefile, code_byte, code_u32, get_public_offset}
use lama_sm_interpreter.Instruction.{InstructionType, jmp, cjmp_z, cjmp_nz, closure, call}
use lama_sm_interpreter.Byterun.{general_byterun}
use lama_sm_interpreter.Byterun.Ends.{general_byterun-Finishes}
use lama_sm_interpreter.Analyzer.{
  Flags, test_flag, set_flag, push_flagged, flag_symbols, flag_target, flag_behind, flag_next,
  flag_instruction, flag_from, flag_all, collect_flags,
}
use lama_sm_interpreter.Analyzer.Ends.Flags.{
  missing, Shrinks, flag_from-Shrinks, flag_symbols-Shrinks,
}

pub test_flag-Finishes : (visited : List ℕ) (i bit : ℕ) → Finishes (test_flag visited i bit)
unfolding test_flag
test_flag-Finishes visited i bit =
    Finishes-bind _ _ (Finishes-found (get_elem? visited i)) λ f _. tt

pub set_flag-Finishes : (visited : List ℕ) (i bit : ℕ) → Finishes (set_flag visited i bit)
unfolding set_flag
set_flag-Finishes visited i bit = Finishes-bind _ _ (Finishes-found (get_elem? visited i)) λ f _. tt

push_flagged-Finishes : (f : Flags) (i : ℕ) → Finishes (push_flagged f i)
unfolding push_flagged
push_flagged-Finishes f i =
    Finishes-bind (set_flag f.visited i 2) _ (set_flag-Finishes f.visited i 2)
      λ v _. Finishes-bind (set_flag v i 4) _ (set_flag-Finishes v i 4) λ w _. tt

flag_behind-Finishes : (f : Flags) (nxt : ℕ) → Finishes (flag_behind f nxt)
unfolding flag_behind
flag_behind-Finishes f nxt =
    Finishes-bind (test_flag f.visited nxt 4) _ (test_flag-Finishes f.visited nxt 4)
      λ seen _. Finishes-if seen _ _ tt (push_flagged-Finishes f nxt)

flag_next-Finishes : (f : Flags) (nxt : ℕ) → Finishes (flag_next f nxt)
unfolding flag_next
flag_next-Finishes f nxt =
    Finishes-bind (test_flag f.visited nxt 4) _ (test_flag-Finishes f.visited nxt 4) λ seen _.
      Finishes-bind (set_flag f.visited nxt 4) _ (set_flag-Finishes f.visited nxt 4) λ v _. tt

module _ (bf : Bytefile) where
  flag_target-Finishes : (f : Flags) (idx : ℕ) → Finishes (flag_target bf f idx)
  unfolding flag_target
  flag_target-Finishes f idx =
      Finishes-bind (code_u32 bf (idx + 1)) _ (Finishes-code_u32 bf _) λ arg _.
        Finishes-bind (test_flag f.visited arg 2) _ (test_flag-Finishes f.visited arg 2)
          λ seen _. Finishes-if seen _ _ tt (push_flagged-Finishes f arg)

  both-Finishes :
      (f : Flags) (idx nxt : ℕ) → Finishes (flag_target bf f idx >>= λ f₁. flag_behind f₁ nxt)
  both-Finishes f idx nxt =
      Finishes-bind (flag_target bf f idx) _ (flag_target-Finishes f idx)
        λ f₁ _. flag_behind-Finishes f₁ nxt

  flag_instruction-Finishes :
      (f : Flags) (idx nxt : ℕ) (ty : InstructionType) → Finishes (flag_instruction bf f idx nxt ty)
  unfolding flag_instruction
  flag_instruction-Finishes f idx nxt jmp = flag_target-Finishes f idx
  flag_instruction-Finishes f idx nxt cjmp_z = both-Finishes f idx nxt
  flag_instruction-Finishes f idx nxt cjmp_nz = both-Finishes f idx nxt
  flag_instruction-Finishes f idx nxt closure = both-Finishes f idx nxt
  flag_instruction-Finishes f idx nxt call = both-Finishes f idx nxt
  flag_instruction-Finishes f idx nxt _ = flag_next-Finishes f nxt

  flag_from-Finishes : (f : Flags) (idx : ℕ) → Finishes (flag_from bf f idx)
  unfolding flag_from
  flag_from-Finishes f idx =
      Finishes-bind (general_byterun bf idx) _ (general_byterun-Finishes bf idx)
        λ (nxt, ty) _. flag_instruction-Finishes f idx nxt ty

  flag_symbols-Finishes : (i n : ℕ) (f : Flags) → Finishes (flag_symbols bf i n f)
  unfolding flag_symbols
  flag_symbols-Finishes i zero f = tt
  flag_symbols-Finishes i (suc n) f =
      Finishes-bind (get_public_offset bf i) _ (Finishes-get_public_offset bf i) λ o _.
        Finishes-bind (test_flag f.visited o 4) _ (test_flag-Finishes f.visited o 4) λ seen _.
          Finishes-bind (if seen then ok f else push_flagged f o) _
            (Finishes-if seen _ _ tt (push_flagged-Finishes f o))
            λ f₁ _. flag_symbols-Finishes (i + 1) n f₁

  end_or_flag-Shrinks :
      (f f' : Flags) (idx : ℕ) (at_end : Bool)
      → (if at_end then ok f else flag_from bf f idx) ≡ ok f'
      → Shrinks f f'
  end_or_flag-Shrinks f f' idx true h = let same : f' ≡ f = ground arith in rw same (omega arith)
  end_or_flag-Shrinks f f' idx false h = flag_from-Shrinks bf f f' idx h

  -- Each round takes an offset from the queue.
  flag_all-Finishes :
      (fuel : ℕ) (f : Flags) → missing f.visited + length f.q < fuel → Finishes (flag_all fuel bf f)
  unfolding flag_all
  flag_all-Finishes zero f enough = elim enough [ ]
  flag_all-Finishes (suc fuel) f enough = go f.q refl (λ f₁ lt. flag_all-Finishes fuel f₁ lt)
    where
      go :
          (queue : List ℕ)
          → f.q ≡ queue
          → ((f₁ : Flags)
              → missing f₁.visited + length f₁.q < fuel
              → Finishes (flag_all fuel bf f₁))
          → Finishes (elim queue [
            | [] ↦ ok f.visited
            | idx ∷ q ↦ do
              c ← code_byte bf idx
              let popped : Flags = record f { q = q }
              f' ← if c == 0xff then ok popped else flag_from bf popped idx
              flag_all fuel bf f'
          ])
      go [] e later = tt
      go (idx ∷ q) e later =
          let popped : Flags = record f { q = q } in
          let long : missing f.visited + length (idx ∷ q) < suc fuel = rw e at enough in
          Finishes-bind (code_byte bf idx) _ (Finishes-code_byte bf idx) λ c _.
            Finishes-bind (if c == 0xff then ok popped else flag_from bf popped idx) _
              (Finishes-if (c == 0xff) _ _ tt (flag_from-Finishes popped idx))
              λ f₁ h.
                later f₁ (omega (arith, end_or_flag-Shrinks popped f₁ idx (c == 0xff) h, long))

  missing-replicate : (n : ℕ) → missing (replicate n 0) ≡ 2 * n
  unfolding missing
  missing-replicate zero = refl
  missing-replicate (suc n) = omega (arith, missing-replicate n)

  pub collect_flags-Finishes : Finishes (collect_flags bf (replicate bf.code_size 0))
  unfolding collect_flags
  collect_flags-Finishes =
      let new : Flags = record { visited = replicate bf.code_size 0; q = [] } in
      Finishes-bind (flag_symbols bf 0 bf.public_symbols_number new) _
        (flag_symbols-Finishes 0 bf.public_symbols_number new)
        λ f h. flag_all-Finishes (2 * bf.code_size + 1) f (
          omega (
            arith,
            flag_symbols-Shrinks bf 0 bf.public_symbols_number new f h,
            missing-replicate bf.code_size,
          ))
