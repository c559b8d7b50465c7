-- ===== src/Bytefile/Roundtrip.antt =====
-- The layout of a bytecode file: a file that is laid out as the format says is read back.
use lama_sm_interpreter.Prelude.{
  ℕ, ◌+◌, ◌*◌, ◌^◌, ◌<◌, ◌≡◌, ltb, true, refl, List, [], ◌∷◌, ◌++◌, length, length-append, drop,
  arith, ◌∙◌,
}
use lama_sm_interpreter.Result.{ok}
use lama_sm_interpreter.Word.{u32_at, u32_bytes}
use lama_sm_interpreter.Word.Bytes.{u32_at-u32_bytes_start, u32_at-u32_bytes}
use lama_sm_interpreter.Bytefile.{Bytefile, plus_int, unpack, read_file, header_size}

abbrev pub public_bytes : List (ℕ × ℕ) → List ℕ
public_bytes [] = []
public_bytes ((name, offset) ∷ publics) =
    u32_bytes name ++ (u32_bytes offset ++ public_bytes publics)

-- A file with this table of publics, string table and code.
unfoldable pub file_of : ℕ → List (ℕ × ℕ) → List ℕ → List ℕ → List ℕ
unfolding u32_bytes
file_of globals publics strings code =
    u32_bytes (length strings)
    ++ (u32_bytes globals
        ++ (u32_bytes (length publics) ++ (public_bytes publics ++ (strings ++ code))))

length-u32_bytes : (n : ℕ) → length (u32_bytes n) ≡ 4
unfolding u32_bytes
length-u32_bytes n = refl

pub length-public_bytes :
    (publics : List (ℕ × ℕ)) → length (public_bytes publics) ≡ length publics * 8
length-public_bytes [] = refl
length-public_bytes ((name, offset) ∷ publics) = omega (
  arith,
  length-append {0} (u32_bytes name) (u32_bytes offset ++ public_bytes publics),
  length-append {0} (u32_bytes offset) (public_bytes publics),
  length-u32_bytes name,
  length-u32_bytes offset,
  length-public_bytes publics,
)

-- What `read_file` makes of such a file.
abbrev pub bytefile_of : ℕ → List (ℕ × ℕ) → List ℕ → List ℕ → Bytefile
bytefile_of globals publics strings code = record {
  code_size = length code;
  string_ptr = length publics * 8;
  public_ptr = 0;
  code_ptr = length publics * 8 + length strings;
  stringtab_size = length strings;
  global_area_size = globals;
  public_symbols_number = length publics;
  buffer = public_bytes publics ++ (strings ++ code);
}

-- The three `int`s of the header are read from their places.
module _ (a b c : ℕ) (rest : List ℕ) where
  abbrev header : List ℕ
  header = u32_bytes a ++ (u32_bytes b ++ (u32_bytes c ++ rest))

  first-header : a < 2 ^ 32 → u32_at header 0 ≡ ok a
  first-header h = u32_at-u32_bytes_start a _ h

  second-header : b < 2 ^ 32 → u32_at header 4 ≡ ok b
  unfolding u32_bytes
  second-header h = u32_at-u32_bytes b (u32_bytes a) (u32_bytes c ++ rest) h

  third-header : c < 2 ^ 32 → u32_at header 8 ≡ ok c
  unfolding u32_bytes
  third-header h = u32_at-u32_bytes c (u32_bytes a ++ u32_bytes b) rest h

  drop-header : drop header_size header ≡ rest
  unfolding u32_bytes
  drop-header = refl

  read_file-header :
      length header < 2 ^ 31
      → a < 2 ^ 32
      → b < 2 ^ 32
      → c < 2 ^ 32
      → read_file header ≡ unpack a b c rest
  unfolding read_file
  read_file-header small ha hb hc =
      let fits : ltb (length header) (2 ^ 31) ≡ true = ground arith in
      rw (fits, first-header ha, second-header hb, third-header hc, drop-header)

module _ (globals : ℕ) (publics : List (ℕ × ℕ)) (strings code : List ℕ) where
  unpack-file :
      length strings < 2 ^ 31
      → length publics < 2 ^ 31
      → unpack (length strings) globals (length publics) (public_bytes publics ++ (strings ++ code))
        ≡ ok (bytefile_of globals publics strings code)
  unfolding unpack plus_int
  unpack-file few_strings few_publics = ground (
    arith,
    length-append {0} (public_bytes publics) (strings ++ code),
    length-append {0} strings code,
    length-public_bytes publics,
  )

  -- A file whose sizes fit an `int` is unpacked into its parts, and the code starts behind the
  -- string table.
  pub read_file-file_of :
      globals < 2 ^ 31
      → length (file_of globals publics strings code) < 2 ^ 31
      → read_file (file_of globals publics strings code)
        ≡ ok (bytefile_of globals publics strings code)
  unfolding file_of
  read_file-file_of hg hl =
      let body : List ℕ = public_bytes publics ++ (strings ++ code) in
      let sizes : (length strings < 2 ^ 31) × (length publics < 2 ^ 31) = omega (
        arith,
        length-append {0} (public_bytes publics) (strings ++ code),
        length-append {0} strings code,
        length-public_bytes publics,
        length-append {0} (u32_bytes (length publics)) body,
        length-append {0} (u32_bytes globals) (u32_bytes (length publics) ++ body),
        length-append {0} (u32_bytes (length strings))
            (u32_bytes globals ++ (u32_bytes (length publics) ++ body)),
      ) in
      read_file-header (length strings) globals (length publics) body hl (omega arith) (omega arith)
        (omega arith)
      ∙ unpack-file sizes.0 sizes.1
