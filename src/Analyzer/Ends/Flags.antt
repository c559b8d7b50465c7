-- ===== src/Analyzer/Ends/Flags.antt =====
-- `collect_marks` of the analyzer ends: what is put in the queue gets a flag 2 or 4 that it lacked.
use lama_sm_interpreter.Prelude.{
  ℕ, zero, suc, ◌+◌, ◌-◌, ◌/◌, ◌%◌, ◌≤◌, ◌<◌, ◌≡◌, ◌≢◌, ◌⊎◌, inl, inr, refl, Bool, true, false,
  if◌then◌else◌, List, [], ◌∷◌, ◌++◌, length, length-append, get_elem?, get_elem?-lt,
  get_elem?-set_self, set, some, arith, Bool-cases, Option-cases,
}
use lama_sm_interpreter.Result.{ok, ◌>>=◌, >>=-eq-ok}
use lama_sm_interpreter.Bytefile.{Bytefile, code_u32, get_public_offset}
use lama_sm_interpreter.Instruction.{InstructionType, jmp, cjmp_z, cjmp_nz, closure, call}
use lama_sm_interpreter.Byterun.{general_byterun}
use lama_sm_interpreter.Analyzer.{
  Flags, has_flag, with_flag, test_flag, set_flag, push_flagged, flag_symbols, flag_target,
  flag_behind, flag_next, flag_instruction, flag_from,
}

-- How many of the flags 2 and 4 are not set.
abbrev pub lacks : ℕ → ℕ
lacks flags = (1 - flags / 2 % 2) + (1 - flags / 4 % 2)

unfoldable pub missing : List ℕ → ℕ
missing [] = 0
missing (flags ∷ visited) = lacks flags + missing visited

missing-set :
    (visited : List ℕ) (i flags flags' : ℕ)
    → get_elem? visited i ≡ some flags
    → missing (set visited i flags') + lacks flags ≡ missing visited + lacks flags'
unfolding missing
missing-set [] i flags flags' e = cc
missing-set (f ∷ visited) zero flags flags' e =
    let same : f ≡ flags = ground arith in rw same (omega arith)
missing-set (f ∷ visited) (suc i) flags flags' e =
    omega (arith, missing-set visited i flags flags' e)

with_flag_cases :
    (flags bit : ℕ)
    → ((has_flag flags bit ≡ true) × (flags / bit % 2 ≡ 1) × (with_flag flags bit ≡ flags))
      ⊎ ((flags / bit % 2 ≡ 0) × (with_flag flags bit ≡ flags + bit))
with_flag_cases flags bit = elim (Bool-cases (has_flag flags bit)) [
  | inl here ↦ inl (here, ground (arith, here), rw here refl)
  | inr lacking ↦ inr (ground (arith, lacking), rw lacking refl)
]

with_both-lacks : (flags : ℕ) → lacks (with_flag (with_flag flags 2) 4) ≡ 0
with_both-lacks flags = elim (with_flag_cases flags 2) [
  | inl (_, set₂, e) ↦ elim (with_flag_cases (with_flag flags 2) 4) [
    | inl (_, set₄, e') ↦ omega (arith, set₂, e, set₄, e')
    | inr (unset₄, e') ↦ omega (arith, set₂, e, unset₄, e')
  ]
  | inr (unset₂, e) ↦ elim (with_flag_cases (with_flag flags 2) 4) [
    | inl (_, set₄, e') ↦ omega (arith, unset₂, e, set₄, e')
    | inr (unset₄, e') ↦ omega (arith, unset₂, e, unset₄, e')
  ]
]

with_four-lacks :
    (flags : ℕ) → has_flag flags 4 ≡ false → lacks (with_flag flags 4) + 1 ≡ lacks flags
with_four-lacks flags h = elim (with_flag_cases flags 4) [
  | inl (here, set₄, e) ↦ cc
  | inr (unset₄, e) ↦ omega (arith, unset₄, e)
]

set_flag_lem :
    (visited visited' : List ℕ) (i bit : ℕ)
    → set_flag visited i bit ≡ ok visited'
    → (flags : ℕ) × (get_elem? visited i ≡ some flags)
      × (visited' ≡ set visited i (with_flag flags bit))
unfolding set_flag
set_flag_lem visited visited' i bit h = elim (Option-cases (get_elem? visited i)) [
  | inl out ↦ absurd (ground (arith, out))
  | inr (flags, inside) ↦ (flags, inside, ground (arith, inside))
]

test_flag_lem :
    (visited : List ℕ) (i bit flags : ℕ) (seen : Bool)
    → test_flag visited i bit ≡ ok seen
    → get_elem? visited i ≡ some flags
    → has_flag flags bit ≡ seen
unfolding test_flag
test_flag_lem visited i bit flags seen h e = ground (arith, e)

-- What is put in the queue lacked a flag.
abbrev pub Shrinks : Flags → Flags → Type 0
Shrinks f f' = missing f'.visited + length f'.q ≤ missing f.visited + length f.q

has_flag-lacks :
    (flags bit : ℕ) → (bit ≡ 2) ⊎ (bit ≡ 4) → has_flag flags bit ≡ false → 0 < lacks flags
has_flag-lacks flags bit (inl e) h =
    let h₂ : has_flag flags 2 ≡ false = rw e at h in
    let unset : flags / 2 % 2 ≢ 1 = ground (arith, h₂) in omega (arith, unset)
has_flag-lacks flags bit (inr e) h =
    let h₄ : has_flag flags 4 ≡ false = rw e at h in
    let unset : flags / 4 % 2 ≢ 1 = ground (arith, h₄) in omega (arith, unset)

push_flagged-Shrinks :
    (f f' : Flags) (i bit : ℕ)
    → (bit ≡ 2) ⊎ (bit ≡ 4)
    → test_flag f.visited i bit ≡ ok false
    → push_flagged f i ≡ ok f'
    → Shrinks f f'
unfolding push_flagged
push_flagged-Shrinks f f' i bit two_or_four unseen h =
    let (v₁, e₁, k₁) = >>=-eq-ok (set_flag f.visited i 2) _ f' h in
    let (v₂, e₂, k₂) = >>=-eq-ok (set_flag v₁ i 4) _ f' k₁ in
    let (flags, inside, set₁) = set_flag_lem f.visited v₁ i 2 e₁ in
    let (flags₂, inside₂, set₂) = set_flag_lem v₁ v₂ i 4 e₂ in
    let written : get_elem? v₁ i ≡ some (with_flag flags 2) =
      rw set₁ (get_elem?-set_self f.visited i _ (get_elem?-lt f.visited i flags inside)) in
    let same : flags₂ ≡ with_flag flags 2 = ground (arith, written, inside₂) in
    let lacking =
      has_flag-lacks flags bit two_or_four
        (test_flag_lem f.visited i bit flags false unseen inside) in
    let visited : f'.visited ≡ v₂ = ground (arith, k₂) in
    let queue : f'.q ≡ f.q ++ i ∷ [] = ground (arith, k₂) in
    let first : missing v₁ + lacks flags ≡ missing f.visited + lacks (with_flag flags 2) =
      rw set₁ (missing-set f.visited i flags (with_flag flags 2) inside) in
    let second : missing v₂ + lacks (with_flag flags 2)
        ≡ missing v₁ + lacks (with_flag (with_flag flags 2) 4) =
      rw (set₂, same)
        (missing-set v₁ i (with_flag flags 2) (with_flag (with_flag flags 2) 4) written) in
    let full = with_both-lacks flags in
    rw (visited, queue) (omega (arith, first, second, full, lacking, length-append f.q (i ∷ [])))

seen_or_pushed-Shrinks :
    (f f' : Flags) (i bit : ℕ) (seen : Bool)
    → (bit ≡ 2) ⊎ (bit ≡ 4)
    → test_flag f.visited i bit ≡ ok seen
    → (if seen then ok f else push_flagged f i) ≡ ok f'
    → Shrinks f f'
seen_or_pushed-Shrinks f f' i bit true b e h =
    let same : f' ≡ f = ground arith in rw same (omega arith)
seen_or_pushed-Shrinks f f' i bit false b e h = push_flagged-Shrinks f f' i bit b e h

flag_behind-Shrinks : (f f' : Flags) (nxt : ℕ) → flag_behind f nxt ≡ ok f' → Shrinks f f'
unfolding flag_behind
flag_behind-Shrinks f f' nxt h =
    let (seen, e, k) = >>=-eq-ok (test_flag f.visited nxt 4) _ f' h in
    seen_or_pushed-Shrinks f f' nxt 4 seen (inr refl) e k

flag_next-Shrinks : (f f' : Flags) (nxt : ℕ) → flag_next f nxt ≡ ok f' → Shrinks f f'
unfolding flag_next
flag_next-Shrinks f f' nxt h =
    let (seen, e, k) = >>=-eq-ok (test_flag f.visited nxt 4) _ f' h in
    let (visited, e', k') = >>=-eq-ok (set_flag f.visited nxt 4) _ f' k in
    let (flags, inside, sets) = set_flag_lem f.visited visited nxt 4 e' in
    elim (Bool-cases seen) [
      | inl is_seen ↦ let same : f' ≡ f = ground (arith, k', is_seen) in rw same (omega arith)
      | inr unseen ↦
          let same : f' ≡ record { visited = visited; q = f.q ++ nxt ∷ [] } =
            ground (arith, k', unseen) in
          let lacking =
            with_four-lacks flags
              (test_flag_lem f.visited nxt 4 flags false (rw unseen at e) inside) in
          let less : missing visited + lacks flags ≡ missing f.visited + lacks (with_flag flags 4) =
            rw sets (missing-set f.visited nxt flags (with_flag flags 4) inside) in
          rw same (omega (arith, less, lacking, length-append f.q (nxt ∷ [])))
    ]

module _ (bf : Bytefile) where
  flag_target-Shrinks : (f f' : Flags) (idx : ℕ) → flag_target bf f idx ≡ ok f' → Shrinks f f'
  unfolding flag_target
  flag_target-Shrinks f f' idx h =
      let (arg, e, k) = >>=-eq-ok (code_u32 bf (idx + 1)) _ f' h in
      let (seen, e', k') = >>=-eq-ok (test_flag f.visited arg 2) _ f' k in
      seen_or_pushed-Shrinks f f' arg 2 seen (inl refl) e' k'

  both-Shrinks :
      (f f' : Flags) (idx nxt : ℕ)
      → (flag_target bf f idx >>= λ f₁. flag_behind f₁ nxt) ≡ ok f'
      → Shrinks f f'
  both-Shrinks f f' idx nxt h =
      let (f₁, e, k) = >>=-eq-ok (flag_target bf f idx) (λ f₁. flag_behind f₁ nxt) f' h in
      omega (arith, flag_target-Shrinks f f₁ idx e, flag_behind-Shrinks f₁ f' nxt k)

  flag_instruction-Shrinks :
      (f f' : Flags) (idx nxt : ℕ) (ty : InstructionType)
      → flag_instruction bf f idx nxt ty ≡ ok f'
      → Shrinks f f'
  unfolding flag_instruction
  flag_instruction-Shrinks f f' idx nxt jmp h = flag_target-Shrinks f f' idx h
  flag_instruction-Shrinks f f' idx nxt cjmp_z h = both-Shrinks f f' idx nxt h
  flag_instruction-Shrinks f f' idx nxt cjmp_nz h = both-Shrinks f f' idx nxt h
  flag_instruction-Shrinks f f' idx nxt closure h = both-Shrinks f f' idx nxt h
  flag_instruction-Shrinks f f' idx nxt call h = both-Shrinks f f' idx nxt h
  flag_instruction-Shrinks f f' idx nxt _ h = flag_next-Shrinks f f' nxt h

  pub flag_from-Shrinks : (f f' : Flags) (idx : ℕ) → flag_from bf f idx ≡ ok f' → Shrinks f f'
  unfolding flag_from
  flag_from-Shrinks f f' idx h =
      let ((nxt, ty), e, k) = >>=-eq-ok (general_byterun bf idx) _ f' h in
      flag_instruction-Shrinks f f' idx nxt ty k

  pub flag_symbols-Shrinks : (i n : ℕ) (f f' : Flags) → flag_symbols bf i n f ≡ ok f' → Shrinks f f'
  unfolding flag_symbols
  flag_symbols-Shrinks i zero f f' h = let same : f' ≡ f = ground arith in rw same (omega arith)
  flag_symbols-Shrinks i (suc n) f f' h =
      let (o, e, k) = >>=-eq-ok (get_public_offset bf i) _ f' h in
      let (seen, e₁, k₁) = >>=-eq-ok (test_flag f.visited o 4) _ f' k in
      let (f₁, e₂, k₂) = >>=-eq-ok (if seen then ok f else push_flagged f o) _ f' k₁ in
      omega (
        arith,
        seen_or_pushed-Shrinks f f₁ o 4 seen (inr refl) e₁ e₂,
        flag_symbols-Shrinks (i + 1) n f₁ f' k₂,
      )
