-- ===== src/Word/Signed.antt =====
-- The `int64_t` operations of the map `BinOpMap` (src/single_interpreters/binop_interpreter.hpp)
-- and the `int32_t` comparisons of the verifier, on bit patterns.
pub mod Division
pub mod Integers
use lama_sm_interpreter.Prelude.{
  ℕ, ◌+◌, ◌-◌, ◌*◌, ◌/◌, ◌%◌, ◌^◌, Bool, true, false, xor, not, ◌&&◌, ◌||◌, leb, ltb, ◌==◌,
  if◌then◌else◌,
}

abbrev pub is_negative64 : ℕ → Bool
is_negative64 a = leb (2 ^ 63) a

-- `- a` on 64 bits.
abbrev pub negate64 : ℕ → ℕ
negate64 a = (2 ^ 64 - a) % 2 ^ 64

-- The distance of an integer from 0.
abbrev pub magnitude64 : ℕ → ℕ
magnitude64 a = if is_negative64 a then 2 ^ 64 - a else a

unfoldable pub plus : ℕ → ℕ → ℕ
plus a b = (a + b) % 2 ^ 64

unfoldable pub minus : ℕ → ℕ → ℕ
minus a b = (a + (2 ^ 64 - b)) % 2 ^ 64

unfoldable pub multiplies : ℕ → ℕ → ℕ
multiplies a b = a * b % 2 ^ 64

-- C++ division rounds towards 0; the sign of a remainder is that of the dividend.
unfoldable pub divides : ℕ → ℕ → ℕ
divides a b =
    let quotient = magnitude64 a / magnitude64 b in
    if xor (is_negative64 a) (is_negative64 b) then negate64 quotient else quotient

unfoldable pub modulus : ℕ → ℕ → ℕ
modulus a b =
    let remainder = magnitude64 a % magnitude64 b in
    if is_negative64 a then negate64 remainder else remainder

abbrev pub of_bool : Bool → ℕ
of_bool true = 1
of_bool false = 0

-- Adding half of the range turns the signed order into that of the patterns.
unfoldable pub less : ℕ → ℕ → ℕ
less a b = of_bool (ltb ((a + 2 ^ 63) % 2 ^ 64) ((b + 2 ^ 63) % 2 ^ 64))

unfoldable pub less_equal : ℕ → ℕ → ℕ
less_equal a b = of_bool (leb ((a + 2 ^ 63) % 2 ^ 64) ((b + 2 ^ 63) % 2 ^ 64))

unfoldable pub logical_and : ℕ → ℕ → ℕ
logical_and a b = of_bool (not (a == 0) && not (b == 0))

unfoldable pub logical_or : ℕ → ℕ → ℕ
logical_or a b = of_bool (not (a == 0) || not (b == 0))

unfoldable pub equal_to : ℕ → ℕ → ℕ
equal_to a b = of_bool (a == b)

unfoldable pub not_equal_to : ℕ → ℕ → ℕ
not_equal_to a b = of_bool (not (a == b))

-- `std::max` on `int32_t`.
unfoldable pub max_s32 : ℕ → ℕ → ℕ
max_s32 a b = if ltb ((a + 2 ^ 31) % 2 ^ 32) ((b + 2 ^ 31) % 2 ^ 32) then b else a
