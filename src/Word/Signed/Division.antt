-- ===== src/Word/Signed/Division.antt =====
-- Products with the opposite of a number, for the quotient and the remainder of `BinOpMap`.
use lama_sm_interpreter.Prelude.{ℕ, ◌+◌, ◌*◌, ◌^◌, ◌≡◌, ◌∙◌, sym, ap}
use native.Mathlib.Nat.{mul-add, add-mul}

-- `q` times the opposite of `m`, and the opposite of `q` times `m`.
pub times_opposite : (q b m : ℕ) → b + m ≡ 2 ^ 64 → q * b + q * m ≡ q * 2 ^ 64
times_opposite q b m h = sym (mul-add q b m) ∙ ap (λ n. q * n) h

pub opposite_times : (p q b : ℕ) → p + q ≡ 2 ^ 64 → p * b + q * b ≡ 2 ^ 64 * b
opposite_times p q b h = sym (add-mul p q b) ∙ ap (λ n. n * b) h
