-- ===== src/Analyzer/Others.antt =====
-- `collect_marks` of the analyzer sets the flags 2 and 4 only.
use lama_sm_interpreter.Prelude.{
  ℕ, zero, suc, ◌+◌, ◌*◌, ◌≡◌, refl, ◌∙◌, Bool, List, [], ◌∷◌, inl, inr, Bool-cases, arith,
  if◌then◌else◌, ◌==◌,
}
use lama_sm_interpreter.Result.{Result, ok, >>=-eq-ok, ◌>>=◌}
use lama_sm_interpreter.Bytefile.{Bytefile, code_byte, code_u32, get_public_offset}
use lama_sm_interpreter.Instruction.{InstructionType, jmp, cjmp_z, cjmp_nz, closure, call}
use lama_sm_interpreter.Byterun.{general_byterun}
use lama_sm_interpreter.Analyzer.{
  Flags, test_flag, set_flag, push_flagged, flag_symbols, flag_target, flag_behind, flag_next,
  flag_instruction, flag_from, flag_all, collect_flags,
}
use lama_sm_interpreter.Analyzer.Flagged.{Same, set_flag-Same}

Same-refl : (visited : List ℕ) → Same visited visited
Same-refl visited = record { size = refl; flags = λ x. refl; left = refl }

Same-trans : {v₁ v₂ v₃ : List ℕ} → Same v₁ v₂ → Same v₂ v₃ → Same v₁ v₃
Same-trans s t = record {
  size = t.size ∙ s.size;
  flags = λ x. t.flags x ∙ s.flags x;
  left = t.left ∙ s.left;
}

-- `collect_marks` sets the flags 2 and 4 only.
push_flagged-Same : (f f' : Flags) (i : ℕ) → push_flagged f i ≡ ok f' → Same f.visited f'.visited
unfolding push_flagged
push_flagged-Same f f' i h =
    let (v₁, e₁, k₁) = >>=-eq-ok (set_flag f.visited i 2) _ f' h in
    let (v₂, e₂, k₂) = >>=-eq-ok (set_flag v₁ i 4) _ f' k₁ in
    let same : f'.visited ≡ v₂ = ground (arith, k₂) in
    rw same (
      Same-trans (set_flag-Same f.visited v₁ i 2 (inl refl) e₁)
        (set_flag-Same v₁ v₂ i 4 (inr refl) e₂))

-- A push, unless it was seen.
seen_or_pushed-Same :
    (f f' : Flags) (i : ℕ) (seen : Bool)
    → (if seen then ok f else push_flagged f i) ≡ ok f'
    → Same f.visited f'.visited
seen_or_pushed-Same f f' i seen h = elim (Bool-cases seen) [
  | inl yes_seen ↦
      let kept : ◌≡◌ {A = Result Flags} (ok f) (ok f') = rw yes_seen at h in
      let same : f' ≡ f = ground arith in rw same (Same-refl f.visited)
  | inr unseen ↦ push_flagged-Same f f' i (rw unseen at h)
]

flag_behind-Same : (f f' : Flags) (nxt : ℕ) → flag_behind f nxt ≡ ok f' → Same f.visited f'.visited
unfolding flag_behind
flag_behind-Same f f' nxt h =
    let (seen, e, k) = >>=-eq-ok (test_flag f.visited nxt 4) _ f' h in
    seen_or_pushed-Same f f' nxt seen k

flag_next-Same : (f f' : Flags) (nxt : ℕ) → flag_next f nxt ≡ ok f' → Same f.visited f'.visited
unfolding flag_next
flag_next-Same f f' nxt h =
    let (seen, e, k) = >>=-eq-ok (test_flag f.visited nxt 4) _ f' h in
    let (visited, e', k') = >>=-eq-ok (set_flag f.visited nxt 4) _ f' k in
    elim (Bool-cases seen) [
      | inl yes_seen ↦
          let same : f' ≡ f = ground (arith, k', yes_seen) in rw same (Same-refl f.visited)
      | inr unseen ↦
          let same : f'.visited ≡ visited = ground (arith, k', unseen) in
          rw same (set_flag-Same f.visited visited nxt 4 (inr refl) e')
    ]

module _ (bf : Bytefile) where
  flag_target-Same :
      (f f' : Flags) (idx : ℕ) → flag_target bf f idx ≡ ok f' → Same f.visited f'.visited
  unfolding flag_target
  flag_target-Same f f' idx h =
      let (arg, e, k) = >>=-eq-ok (code_u32 bf (idx + 1)) _ f' h in
      let (seen, e', k') = >>=-eq-ok (test_flag f.visited arg 2) _ f' k in
      seen_or_pushed-Same f f' arg seen k'

  both-Same :
      (f f' : Flags) (idx nxt : ℕ)
      → (flag_target bf f idx >>= λ f₁. flag_behind f₁ nxt) ≡ ok f'
      → Same f.visited f'.visited
  both-Same f f' idx nxt h =
      let (f₁, e, k) = >>=-eq-ok (flag_target bf f idx) (λ f₁. flag_behind f₁ nxt) f' h in
      Same-trans (flag_target-Same f f₁ idx e) (flag_behind-Same f₁ f' nxt k)

  flag_instruction-Same :
      (f f' : Flags) (idx nxt : ℕ) (ty : InstructionType)
      → flag_instruction bf f idx nxt ty ≡ ok f'
      → Same f.visited f'.visited
  unfolding flag_instruction
  flag_instruction-Same f f' idx nxt jmp h = flag_target-Same f f' idx h
  flag_instruction-Same f f' idx nxt cjmp_z h = both-Same f f' idx nxt h
  flag_instruction-Same f f' idx nxt cjmp_nz h = both-Same f f' idx nxt h
  flag_instruction-Same f f' idx nxt closure h = both-Same f f' idx nxt h
  flag_instruction-Same f f' idx nxt call h = both-Same f f' idx nxt h
  flag_instruction-Same f f' idx nxt _ h = flag_next-Same f f' nxt h

  flag_symbols-Same :
      (i n : ℕ) (f f' : Flags) → flag_symbols bf i n f ≡ ok f' → Same f.visited f'.visited
  unfolding flag_symbols
  flag_symbols-Same i zero f f' h =
      let same : f' ≡ f = ground arith in rw same (Same-refl f.visited)
  flag_symbols-Same i (suc n) f f' h =
      let (o, e, k) = >>=-eq-ok (get_public_offset bf i) _ f' h in
      let (seen, e₁, k₁) = >>=-eq-ok (test_flag f.visited o 4) _ f' k in
      let (f₁, e₂, k₂) = >>=-eq-ok (if seen then ok f else push_flagged f o) _ f' k₁ in
      Same-trans (seen_or_pushed-Same f f₁ o seen e₂) (flag_symbols-Same (i + 1) n f₁ f' k₂)

  flag_from-Same : (f f' : Flags) (idx : ℕ) → flag_from bf f idx ≡ ok f' → Same f.visited f'.visited
  unfolding flag_from
  flag_from-Same f f' idx h =
      let ((nxt, ty), e, k) = >>=-eq-ok (general_byterun bf idx) _ f' h in
      flag_instruction-Same f f' idx nxt ty k

  -- A round of the loop over the queue, with the end of the code tested first.
  end_or_flag-Same :
      (f f' : Flags) (idx : ℕ) (at_end : Bool)
      → (if at_end then ok f else flag_from bf f idx) ≡ ok f'
      → Same f.visited f'.visited
  end_or_flag-Same f f' idx at_end h = elim (Bool-cases at_end) [
    | inl ends ↦
        let kept : ◌≡◌ {A = Result Flags} (ok f) (ok f') = rw ends at h in
        let same : f' ≡ f = ground arith in rw same (Same-refl f.visited)
    | inr further ↦ flag_from-Same f f' idx (rw further at h)
  ]

  flag_all-Same :
      (fuel : ℕ) (f : Flags) (visited : List ℕ)
      → flag_all fuel bf f ≡ ok visited
      → Same f.visited visited
  unfolding flag_all
  flag_all-Same zero f visited h = cc
  flag_all-Same (suc fuel) f visited h = go f.q h (λ f₁ k. flag_all-Same fuel f₁ visited k)
    where
      go :
          (queue : List ℕ)
          → (elim queue [
            | [] ↦ ok f.visited
            | idx ∷ q ↦ do
              c ← code_byte bf idx
              let popped : Flags = record f { q = q }
              f' ← if c == 0xff then ok popped else flag_from bf popped idx
              flag_all fuel bf f'
          ])
            ≡ ok visited
          → ((f₁ : Flags) → flag_all fuel bf f₁ ≡ ok visited → Same f₁.visited visited)
          → Same f.visited visited
      go [] k later = let same : visited ≡ f.visited = ground arith in rw same (Same-refl f.visited)
      go (idx ∷ q) k later =
          let (c, e, k₁) = >>=-eq-ok (code_byte bf idx) _ visited k in
          let popped : Flags = record f { q = q } in
          let (f₁, e₁, k₂) =
            >>=-eq-ok (if c == 0xff then ok popped else flag_from bf popped idx) _ visited k₁ in
          Same-trans (end_or_flag-Same popped f₁ idx (c == 0xff) e₁) (later f₁ k₂)

  pub collect_flags-Same :
      (visited visited' : List ℕ) → collect_flags bf visited ≡ ok visited' → Same visited visited'
  unfolding collect_flags
  collect_flags-Same visited visited' h =
      let new : Flags = record { visited = visited; q = [] } in
      let (f, e, k) = >>=-eq-ok (flag_symbols bf 0 bf.public_symbols_number new) _ visited' h in
      Same-trans (flag_symbols-Same 0 bf.public_symbols_number new f e)
        (flag_all-Same (2 * bf.code_size + 1) f visited' k)
