-- ===== src/Word/Bytes.antt =====
-- A `uint32_t` written to memory and read back.
use lama_sm_interpreter.Prelude.{ℕ, ◌+◌, ◌<◌, ◌^◌, ◌≡◌, List, [], ◌∷◌, ◌++◌, arith, length, ap, ◌∙◌}
use lama_sm_interpreter.Result.{ok}
use lama_sm_interpreter.Word.{byte_at, u32_at, u32_bytes}
use native.Mathlib.Nat.{add_assoc, add-zero}
use Prim.Native.Nat.add

byte_at-append : (xs ys : List ℕ) (i : ℕ) → byte_at (xs ++ ys) (length xs + i) ≡ byte_at ys i
unfolding byte_at
byte_at-append [] ys i = rw add.zero
byte_at-append (x ∷ xs) ys i = rw add.suc (byte_at-append xs ys i)

byte_at-append_here : (xs ys : List ℕ) → byte_at (xs ++ ys) (length xs) ≡ byte_at ys 0
byte_at-append_here xs ys = rw add-zero at (byte_at-append xs ys 0)

pub u32_at-append : (xs ys : List ℕ) (i : ℕ) → u32_at (xs ++ ys) (length xs + i) ≡ u32_at ys i
unfolding u32_at
u32_at-append xs ys i = simp (add_assoc, byte_at-append)

pub u32_at-u32_bytes_start :
    (n : ℕ) (ys : List ℕ) → n < 2 ^ 32 → u32_at (u32_bytes n ++ ys) 0 ≡ ok n
unfolding u32_at u32_bytes byte_at
u32_at-u32_bytes_start n ys h = ap ok (omega arith)

-- What was written in front of position `length xs` does not matter to a read there.
pub u32_at-u32_bytes :
    (n : ℕ) (xs ys : List ℕ) → n < 2 ^ 32 → u32_at (xs ++ (u32_bytes n ++ ys)) (length xs) ≡ ok n
u32_at-u32_bytes n xs ys h =
    rw add-zero at (u32_at-append xs (u32_bytes n ++ ys) 0 ∙ u32_at-u32_bytes_start n ys h)
