-- ===== src/Word/Signed/Integers.antt =====
-- The operations of `BinOpMap` are those on the integers, as long as these have 63 bits.
use lama_sm_interpreter.Prelude.{
  ℕ, zero, suc, ◌+◌, ◌-◌, ◌*◌, ◌/◌, ◌%◌, ◌^◌, ◌<◌, ◌≤◌, ◌≡◌, true, false, ◌==◌, arith,
}
use mathlib.Core.Bool.{xor}
use native.Mathlib.Nat.{div-le_self, mod-le}
use lama_sm_interpreter.Prelude.Int.{
  ℤ, pos, negsuc, abs, sub_ℕ, ◌+ℤ◌, ◌-ℤ◌, ◌*ℤ◌, ◌/ℤ◌, ◌%ℤ◌, ltb_ℤ, leb_ℤ, ◌==ℤ◌,
}
use lama_sm_interpreter.Word.Boxing.{FitsBox}
use lama_sm_interpreter.Word.Signed.{
  plus, minus, multiplies, divides, modulus, less, less_equal, of_bool, is_negative64, magnitude64,
}
use lama_sm_interpreter.Word.Signed.Division.{opposite_times, times_opposite}

-- From - 2 ^ 62 to 2 ^ 62 - 1.
abbrev pub FitsInt : ℤ → Type 0
FitsInt (pos n) = n < 2 ^ 62
FitsInt (negsuc n) = n < 2 ^ 62

-- The `int64_t` of an integer, as a bit pattern.
abbrev pub pattern_of : ℤ → ℕ
pattern_of (pos n) = n
pattern_of (negsuc n) = 2 ^ 64 - suc n

pub pattern_of-FitsBox : (i : ℤ) → FitsInt i → FitsBox (pattern_of i)
pattern_of-FitsBox i h = ground arith

module _ (i j : ℤ) (fits_i : FitsInt i) (fits_j : FitsInt j) where
  pub plus-pattern_of : FitsInt (i +ℤ j) → plus (pattern_of i) (pattern_of j) ≡ pattern_of (i +ℤ j)
  unfolding plus ◌+ℤ◌
  plus-pattern_of h = ground arith

  pub minus-pattern_of :
      FitsInt (i -ℤ j) → minus (pattern_of i) (pattern_of j) ≡ pattern_of (i -ℤ j)
  unfolding minus ◌-ℤ◌
  minus-pattern_of h = ground arith

  pub less-pattern_of : less (pattern_of i) (pattern_of j) ≡ of_bool (ltb_ℤ i j)
  unfolding less
  less-pattern_of = ground arith

  pub less_equal-pattern_of : less_equal (pattern_of i) (pattern_of j) ≡ of_bool (leb_ℤ i j)
  unfolding less_equal
  less_equal-pattern_of = ground arith

  pub pattern_of-eq : (pattern_of i == pattern_of j) ≡ (i ==ℤ j)
  pattern_of-eq = ground arith

-- A product of the wrong sign.
negated :
    (x p k : ℕ) → x + p ≡ k * 2 ^ 64 → FitsInt (sub_ℕ 0 p) → x % 2 ^ 64 ≡ pattern_of (sub_ℕ 0 p)
negated x zero k h fits = omega arith
negated x (suc p) k h fits = ground arith

both_negated :
    (a b m n : ℕ) → a + m ≡ 2 ^ 64 → b + n ≡ 2 ^ 64 → m * n < 2 ^ 62 → a * b % 2 ^ 64 ≡ m * n
both_negated a b m n ha hb small = omega (arith, times_opposite a b n hb, opposite_times a m n ha)

pub multiplies-pattern_of :
    (i j : ℤ)
    → FitsInt i
    → FitsInt j
    → FitsInt (i *ℤ j)
    → multiplies (pattern_of i) (pattern_of j) ≡ pattern_of (i *ℤ j)
unfolding multiplies ◌*ℤ◌
multiplies-pattern_of (pos m) (pos n) fits_i fits_j h = omega arith
multiplies-pattern_of (pos m) (negsuc n) fits_i fits_j h =
    negated (m * (2 ^ 64 - suc n)) (m * suc n) m
      (times_opposite m (2 ^ 64 - suc n) (suc n) (omega arith)) h
multiplies-pattern_of (negsuc m) (pos n) fits_i fits_j h =
    let p = opposite_times (2 ^ 64 - suc m) (suc m) n (omega arith) in
    negated ((2 ^ 64 - suc m) * n) (suc m * n) n (omega (arith, p)) h
multiplies-pattern_of (negsuc m) (negsuc n) fits_i fits_j h =
    both_negated (2 ^ 64 - suc m) (2 ^ 64 - suc n) (suc m) (suc n) (omega arith) (omega arith) h

-- A quotient or a remainder with its sign.
opposite_of : (q : ℕ) → q ≤ 2 ^ 62 → (2 ^ 64 - q) % 2 ^ 64 ≡ pattern_of (sub_ℕ 0 q)
opposite_of zero h = omega arith
opposite_of (suc q) h = ground arith

-- The distance of a negative one from 0.
distance : (m : ℕ) → m < 2 ^ 62 → 2 ^ 64 - (2 ^ 64 - suc m) ≡ suc m
distance m h = omega arith

sign_pos : (m : ℕ) → m < 2 ^ 62 → is_negative64 m ≡ false
sign_pos m h = ground arith

sign_neg : (m : ℕ) → m < 2 ^ 62 → is_negative64 (2 ^ 64 - suc m) ≡ true
sign_neg m h = ground arith

pub divides-pattern_of :
    (i j : ℤ) → FitsInt i → FitsInt j → divides (pattern_of i) (pattern_of j) ≡ pattern_of (i /ℤ j)
unfolding divides ◌/ℤ◌ xor
divides-pattern_of (pos m) (pos n) fits_i fits_j = rw (sign_pos m fits_i, sign_pos n fits_j)
divides-pattern_of (pos m) (negsuc n) fits_i fits_j =
    rw (sign_pos m fits_i, sign_neg n fits_j, distance n fits_j)
      (opposite_of (m / suc n) (omega (arith, div-le_self m (suc n))))
divides-pattern_of (negsuc m) (pos n) fits_i fits_j =
    rw (sign_neg m fits_i, sign_pos n fits_j, distance m fits_i)
      (opposite_of (suc m / n) (omega (arith, div-le_self (suc m) n)))
divides-pattern_of (negsuc m) (negsuc n) fits_i fits_j =
    rw (sign_neg m fits_i, sign_neg n fits_j, distance m fits_i, distance n fits_j)

magnitude64-pattern_of : (j : ℤ) → FitsInt j → magnitude64 (pattern_of j) ≡ abs j
magnitude64-pattern_of (pos n) h = rw (sign_pos n h)
magnitude64-pattern_of (negsuc n) h = rw (sign_neg n h) (distance n h)

pub modulus-pattern_of :
    (i j : ℤ) → FitsInt i → FitsInt j → modulus (pattern_of i) (pattern_of j) ≡ pattern_of (i %ℤ j)
unfolding modulus ◌%ℤ◌
modulus-pattern_of (pos m) j fits_i fits_j = rw (magnitude64-pattern_of j fits_j, sign_pos m fits_i)
modulus-pattern_of (negsuc m) j fits_i fits_j =
    rw (magnitude64-pattern_of j fits_j, sign_neg m fits_i, distance m fits_i)
      (opposite_of (suc m % abs j) (omega (arith, mod-le (suc m) (abs j))))
