-- ===== src/Interp/Binop/Correct.antt =====
-- What BINOP leaves on the stack, for each operation.
use lama_sm_interpreter.Prelude.{
  ℕ, ◌+◌, ◌-◌, ◌≤◌, ◌<◌, ◌≡◌, refl, ◌&&◌, ◌==◌, if◌then◌else◌, Bool-cases, inl, inr, arith,
}
use lama_sm_interpreter.Result.{Result, ok, err, Error}
use lama_sm_interpreter.Word.Boxing.{box_int, unbox}
use lama_sm_interpreter.Word.Signed.{
  plus, minus, multiplies, divides, modulus, less, less_equal, logical_and, logical_or, equal_to,
  not_equal_to,
}
use lama_sm_interpreter.Bytefile.{code_byte}
use lama_sm_interpreter.Instruction.{BinOp, to_bin_op, low_bits}
use lama_sm_interpreter.Machine.{State, ◌>>=◌, stack_bottom, update, consume0}
use lama_sm_interpreter.Machine.Access.{load_lem, store_lem}
use lama_sm_interpreter.Machine.Frames.{push_op, peek_op, pop_op}
use lama_sm_interpreter.Interp.Binop.{
  bin_op_map, divides_by, boxed_unboxed, boxed, apply_bin_op, binop_interpeter,
}

-- A quotient or a remainder; there is none by 0.
abbrev pub by : (ℕ → ℕ → ℕ) → ℕ → ℕ → Result ℕ
by f a b = if b == 0 then err Error.second_argument_zero else ok (box_int (f a b))

-- The word that an operation gives for two words. Only the tests of equality compare the words
-- themselves, which can be pointers.
abbrev pub word_of : BinOp → ℕ → ℕ → Result ℕ
word_of BinOp.plus x y = ok (box_int (plus (unbox x) (unbox y)))
word_of BinOp.minus x y = ok (box_int (minus (unbox x) (unbox y)))
word_of BinOp.mul x y = ok (box_int (multiplies (unbox x) (unbox y)))
word_of BinOp.div x y = by divides (unbox x) (unbox y)
word_of BinOp.mod' x y = by modulus (unbox x) (unbox y)
word_of BinOp.lt x y = ok (box_int (less (unbox x) (unbox y)))
word_of BinOp.le x y = ok (box_int (less_equal (unbox x) (unbox y)))
word_of BinOp.gt x y = ok (box_int (less (unbox y) (unbox x)))
word_of BinOp.ge x y = ok (box_int (less_equal (unbox y) (unbox x)))
word_of BinOp.eq x y = ok (box_int (equal_to x y))
word_of BinOp.neq x y = ok (box_int (not_equal_to x y))
word_of BinOp.and x y = ok (box_int (logical_and (unbox x) (unbox y)))
word_of BinOp.or x y = ok (box_int (logical_or (unbox x) (unbox y)))
word_of (BinOp.other c) x y = err Error.unknown_binop

-- The state with that word in place of the two operands.
abbrev pub replaced : {W : Type 0} → State W → Result ℕ → Result (Unit {0} × State W)
replaced s (ok v) = ok (tt, record s { top = s.top + 1; cells = update s.cells (s.top + 2) v })
replaced s (err e) = err e

module _ {W : Type 0} (s : State W) (low : s.stack_data ≤ s.top + 1)
    (high : s.top + 2 < stack_bottom s) where
  abbrev x : ℕ
  x = s.cells (s.top + 2)

  abbrev y : ℕ
  y = s.cells (s.top + 1)

  -- The states behind one and two pops.
  abbrev popped_y : State W
  popped_y = record s { top = s.top + 1 }

  abbrev popped_x : State W
  popped_x = record s { top = s.top + 1 + 1 }

  two : s.top + 1 + 1 ≡ s.top + 2
  two = omega arith

  back : s.top + 1 + 1 - 1 ≡ s.top + 1
  back = omega arith

  boxed_lem : (op : BinOp) → boxed op s ≡ replaced s (ok (box_int (bin_op_map op x y)))
  unfolding boxed peek_op pop_op push_op
  boxed_lem op = rw (
    load_lem (s.top + 1) s (omega arith) (omega arith),
    ◌>>=◌,
    load_lem (s.top + 1 + 1) popped_y (omega arith) (omega arith),
    store_lem (s.top + 1 + 1) popped_x (box_int (bin_op_map op (s.cells (s.top + 1 + 1)) y))
        (omega arith) (omega arith),
    back,
    two,
  )

  boxed_unboxed_lem :
      (op : BinOp)
      → boxed_unboxed op s
        ≡ replaced s (
            if divides_by op && (unbox y == 0)
            then err Error.second_argument_zero
            else ok (box_int (bin_op_map op (unbox x) (unbox y))))
  unfolding boxed_unboxed peek_op pop_op push_op
  boxed_unboxed_lem op = elim (Bool-cases (divides_by op && (unbox y == 0))) [
    | inl zero ↦ rw (
      load_lem (s.top + 1) s (omega arith) (omega arith),
      ◌>>=◌,
      load_lem (s.top + 1 + 1) popped_y (omega arith) (omega arith),
      zero,
    )
    | inr divisible ↦ rw (
      load_lem (s.top + 1) s (omega arith) (omega arith),
      ◌>>=◌,
      load_lem (s.top + 1 + 1) popped_y (omega arith) (omega arith),
      divisible,
      store_lem (s.top + 1 + 1) popped_x
          (box_int (bin_op_map op (unbox (s.cells (s.top + 1 + 1))) (unbox y))) (omega arith)
          (omega arith),
      back,
      two,
    )
  ]

  apply_bin_op_lem : (op : BinOp) → apply_bin_op op s ≡ replaced s (word_of op x y)
  unfolding apply_bin_op bin_op_map divides_by
  apply_bin_op_lem BinOp.eq = boxed_lem BinOp.eq
  apply_bin_op_lem BinOp.neq = boxed_lem BinOp.neq
  apply_bin_op_lem (BinOp.other c) = refl
  apply_bin_op_lem BinOp.div = boxed_unboxed_lem BinOp.div
  apply_bin_op_lem BinOp.mod' = boxed_unboxed_lem BinOp.mod'
  apply_bin_op_lem op = boxed_unboxed_lem op

-- BINOP, with two operands on the stack: the word that the operation gives for them stands in their
-- place, the decoder is behind the instruction, and no other word has changed. A division by 0 and
-- a number of no operation throw.
pub binop_interpeter_lem :
    {W : Type 0} (s : State W) (c : ℕ)
    → s.stack_data ≤ s.top + 1
    → s.top + 2 < stack_bottom s
    → code_byte s.bf s.code_ptr ≡ ok c
    → binop_interpeter s
      ≡ replaced
          (record s { code_ptr = s.code_ptr + 1 })
          (word_of (to_bin_op (low_bits c)) (s.cells (s.top + 2)) (s.cells (s.top + 1)))
unfolding binop_interpeter consume0
binop_interpeter_lem s c low high byte =
    rw (byte, ◌>>=◌)
      (apply_bin_op_lem (record s { code_ptr = s.code_ptr + 1 }) low high (to_bin_op (low_bits c)))
