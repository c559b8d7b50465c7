-- ===== src/Interp/Binop/Meaning.antt =====
-- What BINOP means for the integers of a program.
use lama_sm_interpreter.Prelude.{
  ℕ, ◌+◌, ◌≤◌, ◌<◌, ◌≡◌, ◌∙◌, ap, Bool, ◌&&◌, ◌||◌, not, ◌==◌, if◌then◌else◌, Option, none, some,
  arith, Bool-cases, inl, inr, sym, subst,
}
use lama_sm_interpreter.Prelude.Int.{ℤ, pos, ◌+ℤ◌, ◌-ℤ◌, ◌*ℤ◌, ◌/ℤ◌, ◌%ℤ◌, ltb_ℤ, leb_ℤ, ◌==ℤ◌}
use lama_sm_interpreter.Result.{Result, ok}
use lama_sm_interpreter.Word.Boxing.{box_int, unbox, unbox-box_int}
use lama_sm_interpreter.Word.Signed.{
  of_bool, plus, minus, multiplies, less, less_equal, divides, modulus, logical_and, logical_or,
  equal_to, not_equal_to,
}
use lama_sm_interpreter.Word.Signed.Integers.{
  FitsInt, pattern_of, pattern_of-FitsBox, plus-pattern_of, minus-pattern_of, multiplies-pattern_of,
  divides-pattern_of, modulus-pattern_of, less-pattern_of, less_equal-pattern_of, pattern_of-eq,
}
use lama_sm_interpreter.Bytefile.{code_byte}
use lama_sm_interpreter.Instruction.{BinOp, to_bin_op, low_bits}
use lama_sm_interpreter.Machine.{State, stack_bottom, update}
use lama_sm_interpreter.Interp.Binop.{binop_interpeter}
use lama_sm_interpreter.Interp.Binop.Correct.{by, word_of, replaced, binop_interpeter_lem}

-- The word of an integer.
abbrev pub word_int : ℤ → ℕ
word_int i = box_int (pattern_of i)

-- The truth values of the language.
abbrev pub truth : Bool → ℤ
truth b = pos (of_bool b)

-- 0 is false, and every other integer is true.
abbrev pub is_true : ℤ → Bool
is_true i = not (i ==ℤ pos 0)

-- The operations on the integers; there is no quotient by 0.
abbrev pub meaning : BinOp → ℤ → ℤ → Option ℤ
meaning BinOp.plus i j = some (i +ℤ j)
meaning BinOp.minus i j = some (i -ℤ j)
meaning BinOp.mul i j = some (i *ℤ j)
meaning BinOp.div i j = if j ==ℤ pos 0 then none else some (i /ℤ j)
meaning BinOp.mod' i j = if j ==ℤ pos 0 then none else some (i %ℤ j)
meaning BinOp.lt i j = some (truth (ltb_ℤ i j))
meaning BinOp.le i j = some (truth (leb_ℤ i j))
meaning BinOp.gt i j = some (truth (ltb_ℤ j i))
meaning BinOp.ge i j = some (truth (leb_ℤ j i))
meaning BinOp.and i j = some (truth (is_true i && is_true j))
meaning BinOp.or i j = some (truth (is_true i || is_true j))
meaning BinOp.eq i j = some (truth (i ==ℤ j))
meaning BinOp.neq i j = some (truth (not (i ==ℤ j)))
meaning (BinOp.other c) i j = none

-- Different integers have different words.
word_int-eq : (i j : ℤ) → FitsInt i → FitsInt j → (word_int i == word_int j) ≡ (i ==ℤ j)
unfolding box_int
word_int-eq i j fits_i fits_j = ground arith

is_zero : (k : ℤ) → FitsInt k → (pattern_of k == 0) ≡ (k ==ℤ pos 0)
is_zero k fits = pattern_of-eq k (pos 0) fits (omega arith)

unboxed : (k : ℤ) → FitsInt k → unbox (word_int k) ≡ pattern_of k
unboxed k h = (unbox-box_int (pattern_of k) (pattern_of-FitsBox k h)).0

module _ (i j r : ℤ) (fits_i : FitsInt i) (fits_j : FitsInt j) (fits_r : FitsInt r) where
  -- An operation on what the two words unbox to.
  as_word :
      (f : ℕ → ℕ → ℕ)
      → f (pattern_of i) (pattern_of j) ≡ pattern_of r
      → ◌≡◌ {A = Result ℕ}
          (ok (box_int (f (unbox (word_int i)) (unbox (word_int j)))))
          (ok (word_int r))
  as_word f e = rw (unboxed i fits_i, unboxed j fits_j, e)

  by_word :
      (f : ℕ → ℕ → ℕ) (q : ℤ)
      → f (pattern_of i) (pattern_of j) ≡ pattern_of q
      → (if j ==ℤ pos 0 then none else some q) ≡ some r
      → by f (unbox (word_int i)) (unbox (word_int j)) ≡ ok (word_int r)
  by_word f q e h = elim (Bool-cases (j ==ℤ pos 0)) [
    | inl zero ↦ cc
    | inr divisible ↦
        let same : q ≡ r = ground (arith, h, divisible) in
        rw (unboxed i fits_i, unboxed j fits_j, is_zero j fits_j, divisible, e, same)
  ]

  -- The operations that compare or combine truth values.
  as_truth :
      (f : ℕ → ℕ → ℕ) (b : Bool)
      → f (pattern_of i) (pattern_of j) ≡ of_bool b
      → ◌≡◌ {A = Option ℤ} (some (truth b)) (some r)
      → ◌≡◌ {A = Result ℕ}
          (ok (box_int (f (unbox (word_int i)) (unbox (word_int j)))))
          (ok (word_int r))
  as_truth f b e h =
      let same : truth b ≡ r = ground (arith, h) in as_word f (e ∙ ap pattern_of same)

  and_lem : logical_and (pattern_of i) (pattern_of j) ≡ of_bool (is_true i && is_true j)
  unfolding logical_and
  and_lem = rw (is_zero i fits_i, is_zero j fits_j)

  or_lem : logical_or (pattern_of i) (pattern_of j) ≡ of_bool (is_true i || is_true j)
  unfolding logical_or
  or_lem = rw (is_zero i fits_i, is_zero j fits_j)

  eq_lem :
      (b : Bool)
      → ◌≡◌ {A = Option ℤ} (some (truth b)) (some r)
      → ◌≡◌ {A = Result ℕ} (ok (box_int (of_bool b))) (ok (word_int r))
  eq_lem b h = let same : truth b ≡ r = ground (arith, h) in ap (λ k. ok (word_int k)) same

  pub word_of-meaning :
      (op : BinOp)
      → meaning op i j ≡ some r
      → word_of op (word_int i) (word_int j) ≡ ok (word_int r)
  unfolding equal_to not_equal_to
  word_of-meaning BinOp.plus h =
      let same : i +ℤ j ≡ r = ground (arith, h) in
      as_word plus
        (plus-pattern_of i j fits_i fits_j (subst FitsInt (sym same) fits_r) ∙ ap pattern_of same)
  word_of-meaning BinOp.minus h =
      let same : i -ℤ j ≡ r = ground (arith, h) in
      as_word minus
        (minus-pattern_of i j fits_i fits_j (subst FitsInt (sym same) fits_r) ∙ ap pattern_of same)
  word_of-meaning BinOp.mul h =
      let same : i *ℤ j ≡ r = ground (arith, h) in
      as_word multiplies (
        multiplies-pattern_of i j fits_i fits_j (subst FitsInt (sym same) fits_r)
        ∙ ap pattern_of same)
  word_of-meaning BinOp.div h = by_word divides (i /ℤ j) (divides-pattern_of i j fits_i fits_j) h
  word_of-meaning BinOp.mod' h = by_word modulus (i %ℤ j) (modulus-pattern_of i j fits_i fits_j) h
  word_of-meaning BinOp.lt h = as_truth less _ (less-pattern_of i j fits_i fits_j) h
  word_of-meaning BinOp.le h = as_truth less_equal _ (less_equal-pattern_of i j fits_i fits_j) h
  word_of-meaning BinOp.gt h = as_truth (λ a b. less b a) _ (less-pattern_of j i fits_j fits_i) h
  word_of-meaning BinOp.ge h =
      as_truth (λ a b. less_equal b a) _ (less_equal-pattern_of j i fits_j fits_i) h
  word_of-meaning BinOp.and h = as_truth logical_and _ and_lem h
  word_of-meaning BinOp.or h = as_truth logical_or _ or_lem h
  word_of-meaning BinOp.eq h = rw (word_int-eq i j fits_i fits_j) (eq_lem (i ==ℤ j) h)
  word_of-meaning BinOp.neq h = rw (word_int-eq i j fits_i fits_j) (eq_lem (not (i ==ℤ j)) h)
  word_of-meaning (BinOp.other c) h = cc

-- BINOP on two boxed integers of 63 bits, on a stack that holds them: where the operation has a
-- value of 63 bits for them, it puts the box of that value in their place, behind the instruction,
-- and changes no other word. Sums, products, quotients and remainders are those of the integers, with
-- the quotient rounded towards 0, the orders are those of the integers, and truth is 1 or 0.
pub binop_interpeter-meaning :
    {W : Type 0} (s : State W) (c : ℕ) (i j r : ℤ)
    → s.stack_data ≤ s.top + 1
    → s.top + 2 < stack_bottom s
    → code_byte s.bf s.code_ptr ≡ ok c
    → FitsInt i
    → FitsInt j
    → FitsInt r
    → s.cells (s.top + 2) ≡ word_int i
    → s.cells (s.top + 1) ≡ word_int j
    → meaning (to_bin_op (low_bits c)) i j ≡ some r
    → binop_interpeter s
      ≡ ok (
        tt,
        record s {
          code_ptr = s.code_ptr + 1;
          top = s.top + 1;
          cells = update s.cells (s.top + 2) (word_int r);
        },
      )
binop_interpeter-meaning s c i j r low high byte fits_i fits_j fits_r x y h =
    let op = to_bin_op (low_bits c) in
    let word : word_of op (s.cells (s.top + 2)) (s.cells (s.top + 1)) ≡ ok (word_int r) =
      rw (x, y) (word_of-meaning i j r fits_i fits_j fits_r op h) in
    binop_interpeter_lem s c low high byte
    ∙ ap (replaced (record s { code_ptr = s.code_ptr + 1 })) word
