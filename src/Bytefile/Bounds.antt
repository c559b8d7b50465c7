-- ===== src/Bytefile/Bounds.antt =====
-- The sizes of a file that was unpacked.
use lama_sm_interpreter.Prelude.{
  ℕ, ◌+◌, ◌*◌, ◌^◌, ltb, leb, ◌≤◌, ◌<◌, ◌≡◌, List, length, get_elem?, get_elem?-lt, arith, drop,
  inl, inr, Option-cases,
}
use lama_sm_interpreter.Result.{ok, Error, guard, >>=-eq-ok}
use lama_sm_interpreter.Word.{byte_at, u32_at}
use lama_sm_interpreter.Bytefile.{
  Bytefile, code_byte, code_u32, plus_int, unpack, read_file, header_size,
}

-- The code ends where the bytes of the file end.
abbrev pub IsUnpacked : Bytefile → Type 0
IsUnpacked bf = bf.code_ptr + bf.code_size ≡ length bf.buffer

unpack-IsUnpacked :
    (a b c : ℕ) (buffer : List ℕ) (bf : Bytefile) → unpack a b c buffer ≡ ok bf → IsUnpacked bf
unfolding unpack
unpack-IsUnpacked a b c buffer bf h =
    let (_, e₁, h₁) = >>=-eq-ok (guard (ltb c (2 ^ 31)) Error.fault) _ bf h in
    let (_, e₂, h₂) = >>=-eq-ok (guard (leb (c * 2 * 4) (length buffer)) Error.fault) _ bf h₁ in
    let (p, e₃, h₃) = >>=-eq-ok (plus_int (c * 2 * 4) a) _ bf h₂ in ground (arith, h₃)

pub read_file-IsUnpacked :
    (bytes : List ℕ) (bf : Bytefile) → read_file bytes ≡ ok bf → IsUnpacked bf
unfolding read_file
read_file-IsUnpacked bytes bf h =
    let (_, e₀, h₀) = >>=-eq-ok (guard (ltb (length bytes) (2 ^ 31)) Error.fault) _ bf h in
    let (a, e₁, h₁) = >>=-eq-ok (u32_at bytes 0) _ bf h₀ in
    let (b, e₂, h₂) = >>=-eq-ok (u32_at bytes 4) _ bf h₁ in
    let (c, e₃, h₃) = >>=-eq-ok (u32_at bytes 8) _ bf h₂ in
    unpack-IsUnpacked a b c (drop header_size bytes) bf h₃

byte_at-lt : (bytes : List ℕ) (i c : ℕ) → byte_at bytes i ≡ ok c → i < length bytes
unfolding byte_at
byte_at-lt bytes i c h = elim (Option-cases (get_elem? bytes i)) [
  | inl out ↦ absurd (ground (arith, out))
  | inr (v, inside) ↦ get_elem?-lt bytes i v inside
]

-- A byte that is read from the code is one of its `code_size` bytes.
pub code_byte-lt :
    (bf : Bytefile) (p c : ℕ) → IsUnpacked bf → code_byte bf p ≡ ok c → p < bf.code_size
unfolding code_byte
code_byte-lt bf p c u h = omega (arith, byte_at-lt bf.buffer (bf.code_ptr + p) c h)

-- So are the four bytes of a word.
pub code_u32-lt :
    (bf : Bytefile) (p v : ℕ) → IsUnpacked bf → code_u32 bf p ≡ ok v → p + 4 ≤ bf.code_size
unfolding code_u32 u32_at
code_u32-lt bf p v u h =
    let (a, e₁, h₁) = >>=-eq-ok (byte_at bf.buffer (bf.code_ptr + p)) _ v h in
    let (b, e₂, h₂) = >>=-eq-ok (byte_at bf.buffer (bf.code_ptr + p + 1)) _ v h₁ in
    let (c, e₃, h₃) = >>=-eq-ok (byte_at bf.buffer (bf.code_ptr + p + 2)) _ v h₂ in
    let (d, e₄, h₄) = >>=-eq-ok (byte_at bf.buffer (bf.code_ptr + p + 3)) _ v h₃ in
    omega (arith, byte_at-lt bf.buffer (bf.code_ptr + p + 3) d e₄)
