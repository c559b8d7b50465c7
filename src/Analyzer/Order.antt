-- ===== src/Analyzer/Order.antt =====
-- The order by which the analyzer sorts instructions (src/analyzer/Analyzer.hpp): their bytes.
pub mod Asymmetric
use lama_sm_interpreter.Prelude.{
  ℕ, zero, suc, ◌+◌, ◌-◌, ◌%◌, ◌^◌, ◌≤◌, ◌<◌, ◌≡◌, ◌⊎◌, inl, inr, refl, Bool, true, false, ltb, leb,
  ◌==◌, ◌||◌, if◌then◌else◌, Bool-cases, Option, none, some, arith,
}
use lama_sm_interpreter.Result.{Result, ok, err, Error, ◌>>=◌, >>=-eq-ok}
use lama_sm_interpreter.Bytefile.{Bytefile, code_byte}
use lama_sm_interpreter.Instruction.{InstructionType}
use lama_sm_interpreter.Byterun.{general_byterun}

-- `a - b` on `int`, and its sign.
abbrev pub difference : ℕ → ℕ → ℕ
difference a b = (a + (2 ^ 32 - b)) % 2 ^ 32

abbrev pub is_negative : ℕ → Bool
is_negative a = leb (2 ^ 31) a

-- A `char` is signed.
abbrev pub of_char : ℕ → ℕ
of_char c = ((c + 128) % 256 + (2 ^ 32 - 128)) % 2 ^ 32

-- The rounds of the loop: the least of two lengths, which can be negative.
abbrev pub least_length : ℕ → ℕ → ℕ
least_length a b = if is_negative a || is_negative b then 0 else if ltb a b then a else b

-- The loop, with `n` rounds left: the difference of the first two bytes that differ.
unfoldable pub compare_from : Bytefile → ℕ → ℕ → ℕ → Result (Option ℕ)
compare_from bf st₁ st₂ zero = ok none
compare_from bf st₁ st₂ (suc n) =
    let rest = compare_from bf (st₁ + 1) (st₂ + 1) n in
    code_byte bf st₁ >>= λ b₁. code_byte bf st₂ >>= λ b₂.
    if of_char b₁ == of_char b₂ then rest else ok (some (difference (of_char b₁) (of_char b₂)))

unfoldable pub compare_bytes : Bytefile → ℕ → ℕ → ℕ → ℕ → Result ℕ
compare_bytes bf st₁ end₁ st₂ end₂ = do
  let length₁ = difference end₁ st₁
  let length₂ = difference end₂ st₂
  found_at ← compare_from bf st₁ st₂ (least_length length₁ length₂)
  elim found_at [ some d ↦ ok d | none ↦ ok (difference length₁ length₂) ]

unfoldable pub cmp_single : Bytefile → ℕ → ℕ → Result Bool
cmp_single bf i₁ i₂ = do
  (nxt₁, _) ← general_byterun bf i₁
  (nxt₂, _) ← general_byterun bf i₂
  c ← compare_bytes bf i₁ nxt₁ i₂ nxt₂
  ok (is_negative c)

unfoldable pub cmp_pair : Bytefile → ℕ → ℕ → Result Bool
cmp_pair bf i₁ i₂ = do
  (nxt₁, _) ← general_byterun bf i₁
  (nxt₂, _) ← general_byterun bf i₂
  cmp₁ ← compare_bytes bf i₁ nxt₁ i₂ nxt₂
  (if cmp₁ == 0 then cmp_single bf nxt₁ nxt₂ else ok (is_negative cmp₁))
