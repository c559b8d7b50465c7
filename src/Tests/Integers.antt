-- ===== src/Tests/Integers.antt =====
-- BINOP on integers.
use lama_sm_interpreter.Prelude.{ℕ, ◌≡◌, refl, [], ◌∷◌, arith}
use lama_sm_interpreter.Prelude.Int.{pos, negsuc, ◌/ℤ◌}
use lama_sm_interpreter.Result.{ok}
use lama_sm_interpreter.Word.{byte_at}
use lama_sm_interpreter.Word.Boxing.{box_int}
use lama_sm_interpreter.Bytefile.{code_byte}
use lama_sm_interpreter.Bytefile.Roundtrip.{bytefile_of}
use lama_sm_interpreter.Instruction.{to_bin_op, low_bits}
use lama_sm_interpreter.Machine.{State, update}
use lama_sm_interpreter.Interp.Loop.{new_state}
use lama_sm_interpreter.Interp.Binop.{binop_interpeter}
use lama_sm_interpreter.Interp.Binop.Meaning.{word_int, binop_interpeter-meaning}

-- DIV, with -20 and 7 on the stack.
abbrev at_div : State ℕ
at_div = record (new_state (bytefile_of 0 [] [] (0x04 ∷ [])) 5000 10 (λ p. 0) 0) {
  top = 98;
  cells = update (update (λ p. 0) 100 (word_int (negsuc 19))) 99 (word_int (pos 7));
}

div_byte : code_byte at_div.bf 0 ≡ ok 0x04
unfolding code_byte byte_at new_state
div_byte = refl

-- The quotient is -2.
binop_interpeter-meaning_example :
    binop_interpeter at_div
    ≡ ok (
      tt,
      record at_div {
        code_ptr = 1;
        top = 99;
        cells = update at_div.cells 100 (word_int (negsuc 1));
      },
    )
unfolding new_state to_bin_op low_bits ◌/ℤ◌ box_int
binop_interpeter-meaning_example =
    binop_interpeter-meaning at_div 0x04 (negsuc 19) (pos 7) (negsuc 1) (omega arith) (omega arith)
      div_byte (omega arith) (omega arith) (omega arith) refl refl refl
