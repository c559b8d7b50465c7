-- ===== src/Bytefile.antt =====
-- bytefile/bytefile.h and bytefile/bytefile.cpp: the unpacked bytecode file and its accessors. The
-- pointers into `buffer` are offsets from its start, and an `int` of the header is its bit pattern.
pub mod Roundtrip
pub mod Bounds
pub mod Errors
use lama_sm_interpreter.Prelude.{
  ℕ, zero, suc, ◌+◌, ◌-◌, ◌*◌, ◌^◌, Option, none, some, List, [], ◌∷◌, length, drop, get_elem?, set,
  ltb, leb, ◌==◌, if◌then◌else◌, Bool, true, false,
}
use lama_sm_interpreter.Result.{Result, ok, err, Error, ◌>>=◌, ◌>>◌, guard}
use lama_sm_interpreter.Word.{byte_at, u32_at}

pub record Bytefile : Type 0 where
  pub code_size : ℕ
  pub string_ptr : ℕ
  pub public_ptr : ℕ
  pub code_ptr : ℕ
  pub stringtab_size : ℕ
  pub global_area_size : ℕ
  pub public_symbols_number : ℕ
  pub buffer : List ℕ

-- `strlen` and the bytes that it counts: up to the first zero byte.
unfoldable pub c_string : List ℕ → Result (List ℕ)
c_string [] = err Error.fault
c_string (zero ∷ bytes) = ok []
c_string (suc c ∷ bytes) = do rest ← c_string bytes; ok (suc c ∷ rest)

-- The string that starts at a position of the string table.
unfoldable pub get_string : Bytefile → ℕ → Result (List ℕ)
get_string f pos = c_string (drop (f.string_ptr + pos) f.buffer)

-- `f->public_ptr[i]`
abbrev pub public_word : Bytefile → ℕ → Result ℕ
public_word f i = u32_at f.buffer (f.public_ptr + 4 * i)

unfoldable pub get_public_name : Bytefile → ℕ → Result (List ℕ)
unfolding get_string
get_public_name f i = do pos ← public_word f (i * 2); get_string f pos

unfoldable pub get_public_offset : Bytefile → ℕ → Result ℕ
get_public_offset f i = public_word f (i * 2 + 1)

-- `*(f->code_ptr + i)`, and the same read as a `uint32_t`.
unfoldable pub code_byte : Bytefile → ℕ → Result ℕ
unfolding byte_at
code_byte f i = byte_at f.buffer (f.code_ptr + i)

unfoldable pub code_u32 : Bytefile → ℕ → Result ℕ
unfolding u32_at
code_u32 f i = u32_at f.buffer (f.code_ptr + i)

-- The size of the three `int`s of the header that stand in the file.
abbrev pub header_size : ℕ
header_size = 12

-- `p + n`, for an `int` n. A sum in front of the start of the buffer is no offset.
unfoldable pub plus_int : ℕ → ℕ → Result ℕ
plus_int p n =
    let up = ok (p + n) in
    let down = if leb (2 ^ 32 - n) p then ok (p - (2 ^ 32 - n)) else err Error.fault in
    if ltb n (2 ^ 31) then up else down

-- The pointers that `read_file` sets. The source does not compare the sizes of the header with the
-- size of the file, and takes them as `int`s, so that a negative size of the string table moves the
-- code towards the start. A pointer that leaves the buffer, which C++ leaves undefined, is the error
-- `fault`, also where the next sum would lead back into it.
unfoldable pub unpack : ℕ → ℕ → ℕ → List ℕ → Result Bytefile
unfolding plus_int
unpack stringtab_size global_area_size public_symbols_number buffer = do
  guard (ltb public_symbols_number (2 ^ 31)) Error.fault
  let string_ptr = public_symbols_number * 2 * 4
  guard (leb string_ptr (length buffer)) Error.fault
  code_ptr ← plus_int string_ptr stringtab_size
  guard (leb code_ptr (length buffer)) Error.fault
  ok (record {
    code_size = length buffer - code_ptr;
    string_ptr = string_ptr;
    public_ptr = 0;
    code_ptr = code_ptr;
    stringtab_size = stringtab_size;
    global_area_size = global_area_size;
    public_symbols_number = public_symbols_number;
    buffer = buffer;
  })

-- The bytes of a file that was opened and read, from the first `int` of its header on. Its size goes
-- through an `int`; a file whose size is none is not followed further, and is the error `fault`. So is
-- a file that is shorter than the header, where the source goes on with fields that were never set.
unfoldable pub read_file : List ℕ → Result Bytefile
unfolding unpack u32_at
read_file bytes = do
  guard (ltb (length bytes) (2 ^ 31)) Error.fault
  stringtab_size ← u32_at bytes 0
  global_area_size ← u32_at bytes 4
  public_symbols_number ← u32_at bytes 8
  unpack stringtab_size global_area_size public_symbols_number (drop header_size bytes)
