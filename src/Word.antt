-- ===== src/Word.antt =====
-- Machine words as native numbers below 2 ^ w, a signed integer by its bit pattern; bytes read from
-- and written to memory in little-endian order, as the `reinterpret_cast`s of src/ do on x86-64.
-- src/single_interpreters/boxing.hpp is in `Word.Boxing`.
pub mod Boxing
pub mod Signed
pub mod Bytes
use lama_sm_interpreter.Prelude.{
  ℕ, ◌+◌, ◌-◌, ◌*◌, ◌/◌, ◌%◌, ◌^◌, List, [], ◌∷◌, none, some, get_elem?, Option, ltb, if◌then◌else◌,
}
use lama_sm_interpreter.Result.{Result, ok, err, Error, ◌>>=◌}

-- Conversion to `uint32_t` and to `uint64_t`.
abbrev pub wrap32 : ℕ → ℕ
wrap32 n = n % 2 ^ 32

abbrev pub wrap64 : ℕ → ℕ
wrap64 n = n % 2 ^ 64

-- `p - n`, for a pointer `p` and an `int` n: a negative one moves it up.
abbrev pub minus_int : ℕ → ℕ → ℕ
minus_int p n = if ltb n (2 ^ 31) then p - n else p + (2 ^ 32 - n)

-- `- 1` on a `uint32_t`.
abbrev pub pred32 : ℕ → ℕ
pred32 n = (n + (2 ^ 32 - 1)) % 2 ^ 32

-- The pattern of the `int32_t` -1.
abbrev pub minus_one : ℕ
minus_one = 4294967295

abbrev pub found {ℓ} : {A : Type ℓ} → Option A → Result A
found none = err Error.fault
found (some a) = ok a

-- `*(p + i)`, for `p` the start of the bytes.
unfoldable pub byte_at : List ℕ → ℕ → Result ℕ
byte_at bytes i = found (get_elem? bytes i)

-- `*reinterpret_cast<const uint32_t*>(p + i)`
unfoldable pub u32_at : List ℕ → ℕ → Result ℕ
u32_at bytes i = do
  a ← byte_at bytes i
  b ← byte_at bytes (i + 1)
  c ← byte_at bytes (i + 2)
  d ← byte_at bytes (i + 3)
  ok (a + b * 256 + c * 65536 + d * 16777216)

-- The four bytes of a `uint32_t`.
unfoldable pub u32_bytes : ℕ → List ℕ
u32_bytes n = n % 256 ∷ n / 256 % 256 ∷ n / 65536 % 256 ∷ n / 16777216 % 256 ∷ []
