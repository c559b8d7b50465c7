-- ===== src/Interp/Binop.antt =====
-- src/single_interpreters/binop_interpreter.hpp
pub mod Correct
pub mod Meaning
use lama_sm_interpreter.Prelude.{ℕ, ◌%◌, Bool, true, false, ◌&&◌, ◌||◌, ◌==◌, if◌then◌else◌}
use lama_sm_interpreter.Result.{Error}
use lama_sm_interpreter.Word.Boxing.{box_int, unbox}
use lama_sm_interpreter.Word.Signed.{
  plus, minus, multiplies, divides, modulus, less, less_equal, logical_and, logical_or, equal_to,
  not_equal_to,
}
use lama_sm_interpreter.Instruction.{BinOp, to_bin_op, low_bits}
use lama_sm_interpreter.Machine.{M, ◌>>=◌, ◌>>◌, pure, throw, consume0}
use lama_sm_interpreter.Machine.Frames.{push_op, peek_op, pop_op}

-- The map `BinOpMap`.
unfoldable pub bin_op_map : BinOp → ℕ → ℕ → ℕ
bin_op_map BinOp.plus a b = plus a b
bin_op_map BinOp.minus a b = minus a b
bin_op_map BinOp.mul a b = multiplies a b
bin_op_map BinOp.div a b = divides a b
bin_op_map BinOp.mod' a b = modulus a b
bin_op_map BinOp.lt a b = less a b
bin_op_map BinOp.le a b = less_equal a b
bin_op_map BinOp.gt a b = less b a
bin_op_map BinOp.ge a b = less_equal b a
bin_op_map BinOp.and a b = logical_and a b
bin_op_map BinOp.or a b = logical_or a b
bin_op_map BinOp.eq a b = equal_to a b
bin_op_map BinOp.neq a b = not_equal_to a b
bin_op_map (BinOp.other c) a b = 0

-- `bin_op == DIV || bin_op == MOD`
unfoldable pub divides_by : BinOp → Bool
divides_by BinOp.div = true
divides_by BinOp.mod' = true
divides_by _ = false

unfoldable pub boxed_unboxed : {W : Type 0} → BinOp → M W (Unit {0})
boxed_unboxed bin_op = do
  b_word ← peek_op
  let b = unbox b_word
  pop_op
  a_word ← peek_op
  let a = unbox a_word
  pop_op
  if divides_by bin_op && (b == 0) then throw Error.second_argument_zero else pure tt
  push_op (box_int (bin_op_map bin_op a b))

unfoldable pub boxed : {W : Type 0} → BinOp → M W (Unit {0})
boxed bin_op = do
  b ← peek_op
  pop_op
  a ← peek_op
  pop_op
  push_op (box_int (bin_op_map bin_op a b))

-- The `switch` of `binop_interpeter`.
unfoldable pub apply_bin_op : {W : Type 0} → BinOp → M W (Unit {0})
apply_bin_op BinOp.eq = boxed BinOp.eq
apply_bin_op BinOp.neq = boxed BinOp.neq
apply_bin_op (BinOp.other c) = throw Error.unknown_binop
apply_bin_op bin_op = boxed_unboxed bin_op

unfoldable pub binop_interpeter : {W : Type 0} → M W (Unit {0})
binop_interpeter = do c ← consume0; apply_bin_op (to_bin_op (low_bits c))
