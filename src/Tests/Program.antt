-- ===== src/Tests/Program.antt =====
-- A program of five instructions, BEGIN, CONST, DUP, CJMPz and END, the byte 0xFF behind it, and the
-- file that holds it.
use lama_sm_interpreter.Prelude.{ℕ, List, [], ◌∷◌, ◌++◌}
use lama_sm_interpreter.Bytefile.{Bytefile}
use lama_sm_interpreter.Bytefile.Roundtrip.{bytefile_of}

abbrev pub publics : List (ℕ × ℕ)
publics = (0, 0) ∷ []

-- "main"
abbrev pub strings : List ℕ
strings = 109 ∷ 97 ∷ 105 ∷ 110 ∷ 0 ∷ []

abbrev pub code : List ℕ
code =
    (0x52 ∷ 2 ∷ 0 ∷ 0 ∷ 0 ∷ 0 ∷ 0 ∷ 0 ∷ 0 ∷ [])
    ++ ((0x10 ∷ 5 ∷ 0 ∷ 0 ∷ 0 ∷ [])
        ++ ((0x19 ∷ []) ++ ((0x50 ∷ 20 ∷ 0 ∷ 0 ∷ 0 ∷ []) ++ (0x16 ∷ 0xff ∷ []))))

abbrev pub program : Bytefile
program = bytefile_of 3 publics strings code
