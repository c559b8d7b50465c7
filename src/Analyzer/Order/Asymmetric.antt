-- ===== src/Analyzer/Order/Asymmetric.antt =====
-- `std::sort` needs an order that never holds both ways.
use lama_sm_interpreter.Prelude.{
  ℕ, zero, suc, ◌+◌, ◌^◌, ◌<◌, ◌≡◌, inl, inr, refl, subst, true, false, ◌==◌, Bool-cases, Option,
  none, some, arith,
}
use lama_sm_interpreter.Result.{Result, ok, ◌>>=◌, >>=-eq-ok}
use lama_sm_interpreter.Bytefile.{Bytefile, code_byte}
use lama_sm_interpreter.Instruction.{InstructionType}
use lama_sm_interpreter.Byterun.{general_byterun}
use lama_sm_interpreter.Analyzer.Order.{
  difference, is_negative, of_char, least_length, compare_from, compare_bytes, cmp_single,
}

-- The same comparison from the other side.
abbrev Turned : Option ℕ → Option ℕ → Type 0
Turned none r = r ≡ none
Turned (some d) r = (e : ℕ) × (r ≡ some e) × (is_negative d ≡ true → is_negative e ≡ false)

byte_difference :
    (a b : ℕ)
    → is_negative (difference (of_char a) (of_char b)) ≡ true
    → is_negative (difference (of_char b) (of_char a)) ≡ false
byte_difference a b h = ground arith

least_length_comm : (a b : ℕ) → least_length a b ≡ least_length b a
least_length_comm a b = ground arith

compare_from-Turned :
    (bf : Bytefile) (st₁ st₂ n : ℕ) (r : Option ℕ)
    → compare_from bf st₁ st₂ n ≡ ok r
    → (r' : Option ℕ) × (compare_from bf st₂ st₁ n ≡ ok r') × Turned r r'
unfolding compare_from
compare_from-Turned bf st₁ st₂ zero none h = (none, refl, refl)
compare_from-Turned bf st₁ st₂ zero (some d) h = cc
compare_from-Turned bf st₁ st₂ (suc n) r h =
    let (b₁, e₁, h₁) = >>=-eq-ok (code_byte bf st₁) _ r h in
    let (b₂, e₂, h₂) = >>=-eq-ok (code_byte bf st₂) _ r h₁ in
    elim (Bool-cases (of_char b₁ == of_char b₂)) [
      | inl same ↦
          let same' : (of_char b₂ == of_char b₁) ≡ true = ground arith in
          let (r', e, t) = compare_from-Turned bf (st₁ + 1) (st₂ + 1) n r (rw same at h₂) in
          (r', rw (e₂, ◌>>=◌, e₁, same') e, t)
      | inr differs ↦
          let differs' : (of_char b₂ == of_char b₁) ≡ false = ground arith in
          let found_at : some (difference (of_char b₁) (of_char b₂)) ≡ r =
            ground (arith, (rw differs at h₂)) in
          let back : ℕ = difference (of_char b₂) (of_char b₁) in
          (
            some back,
            rw (e₂, ◌>>=◌, e₁, differs'),
            subst (λ x. Turned x (some back)) found_at (back, refl, byte_difference b₁ b₂),
          )
    ]

-- What `compare_bytes` makes of the loop's result.
abbrev result_of : Option ℕ → ℕ → ℕ → Result ℕ
result_of r a b = elim r [ some d ↦ ok d | none ↦ ok (difference a b) ]

result_of-Turned :
    (r r' : Option ℕ) (a b c : ℕ)
    → Turned r r'
    → a < 2 ^ 31
    → b < 2 ^ 31
    → result_of r a b ≡ ok c
    → is_negative c ≡ true
    → (c' : ℕ) × (result_of r' b a ≡ ok c') × (is_negative c' ≡ false)
result_of-Turned none r' a b c t s₁ s₂ h less = (difference b a, rw t refl, ground arith)
result_of-Turned (some d) r' a b c (e, q, flips) s₁ s₂ h less = (e, rw q refl, flips (ground arith))

compare_bytes-Turned :
    (bf : Bytefile) (i₁ nxt₁ i₂ nxt₂ c : ℕ)
    → difference nxt₁ i₁ < 2 ^ 31
    → difference nxt₂ i₂ < 2 ^ 31
    → compare_bytes bf i₁ nxt₁ i₂ nxt₂ ≡ ok c
    → is_negative c ≡ true
    → (c' : ℕ) × (compare_bytes bf i₂ nxt₂ i₁ nxt₁ ≡ ok c') × (is_negative c' ≡ false)
unfolding compare_bytes
compare_bytes-Turned bf i₁ nxt₁ i₂ nxt₂ c s₁ s₂ h less =
    let rounds : ℕ = least_length (difference nxt₁ i₁) (difference nxt₂ i₂) in
    let (r, e, k) = >>=-eq-ok (compare_from bf i₁ i₂ rounds) _ c h in
    let (r', e', t) = compare_from-Turned bf i₁ i₂ rounds r e in
    let (c', q, t') = result_of-Turned r r' _ _ c t s₁ s₂ k less in
    let e'' = rw (least_length_comm (difference nxt₁ i₁) (difference nxt₂ i₂)) at e' in
    (c', rw e'' q, t')

-- Where `cmp_single` puts one instruction in front of another, it does not put the other in front
-- of the first, if both have fewer than 2 ^ 31 bytes.
pub cmp_single-asymmetric :
    (bf : Bytefile) (i₁ i₂ nxt₁ nxt₂ : ℕ) (t₁ t₂ : InstructionType)
    → general_byterun bf i₁ ≡ ok (nxt₁, t₁)
    → general_byterun bf i₂ ≡ ok (nxt₂, t₂)
    → difference nxt₁ i₁ < 2 ^ 31
    → difference nxt₂ i₂ < 2 ^ 31
    → cmp_single bf i₁ i₂ ≡ ok true
    → cmp_single bf i₂ i₁ ≡ ok false
unfolding cmp_single
cmp_single-asymmetric bf i₁ i₂ nxt₁ nxt₂ t₁ t₂ e₁ e₂ s₁ s₂ h =
    let h' : (compare_bytes bf i₁ nxt₁ i₂ nxt₂ >>= λ c. ok (is_negative c)) ≡ ok true =
      rw (e₁, ◌>>=◌, e₂) at h in
    let (c, e, k) = >>=-eq-ok (compare_bytes bf i₁ nxt₁ i₂ nxt₂) _ true h' in
    let (c', e', t) = compare_bytes-Turned bf i₁ nxt₁ i₂ nxt₂ c s₁ s₂ e (ground arith) in
    rw (e₂, ◌>>=◌, e₁, e', t)
