-- ===== src/Fuel.antt =====
-- A modelled loop that has enough fuel.
use lama_sm_interpreter.Prelude.{
  Bool, true, false, if◌then◌else◌, ℕ, zero, suc, ◌+◌, ◌*◌, ◌≡◌, refl, Option, none, some, List, [],
  ◌∷◌, get_elem?, ◌≢◌,
}
use lama_sm_interpreter.Result.{Result, ok, err, Error, out_of_fuel, ◌>>=◌}
use lama_sm_interpreter.Word.{byte_at, u32_at, found}
use lama_sm_interpreter.Bytefile.{
  Bytefile, code_byte, code_u32, c_string, public_word, get_public_name, get_public_offset,
}

-- The fuel did not run out: a value, or an exception of the program.
abbrev pub Finishes {ℓ} : {A : Type ℓ} → Result A → Type 0
Finishes (ok a) = Unit
Finishes (err Error.out_of_fuel) = ⊥
Finishes (err _) = Unit

pub Finishes-bind {ℓ κ} :
    {A : Type ℓ} {B : Type κ} (m : Result A) (f : A → Result B)
    → Finishes m
    → ((a : A) → m ≡ ok a → Finishes (f a))
    → Finishes (m >>= f)
Finishes-bind (ok a) f h k = k a refl
Finishes-bind (err Error.out_of_fuel) f h k = h
Finishes-bind (err _) f h k = h

pub Finishes-if {ℓ} :
    {A : Type ℓ} (b : Bool) (x y : Result A)
    → Finishes x
    → Finishes y
    → Finishes (if b then x else y)
Finishes-if true x y hx hy = hx
Finishes-if false x y hx hy = hy

pub Finishes-found {ℓ} : {A : Type ℓ} (o : Option A) → Finishes (found o)
Finishes-found none = tt
Finishes-found (some a) = tt

pub Finishes-ne {ℓ} : {A : Type ℓ} (m : Result A) → Finishes m → m ≢ err out_of_fuel
Finishes-ne (ok a) h p = cc
Finishes-ne (err Error.out_of_fuel) h p = h
Finishes-ne (err _) h p = cc

pub Finishes-byte_at : (bytes : List ℕ) (i : ℕ) → Finishes (byte_at bytes i)
unfolding byte_at
Finishes-byte_at bytes i = Finishes-found (get_elem? bytes i)

pub Finishes-u32_at : (bytes : List ℕ) (i : ℕ) → Finishes (u32_at bytes i)
unfolding u32_at
Finishes-u32_at bytes i = Finishes-bind (byte_at bytes i) _ (Finishes-byte_at bytes i) λ a _.
    Finishes-bind (byte_at bytes (i + 1)) _ (Finishes-byte_at bytes (i + 1)) λ b _.
      Finishes-bind (byte_at bytes (i + 2)) _ (Finishes-byte_at bytes (i + 2))
        λ c _. Finishes-bind (byte_at bytes (i + 3)) _ (Finishes-byte_at bytes (i + 3)) λ d _. tt

pub Finishes-code_byte : (bf : Bytefile) (i : ℕ) → Finishes (code_byte bf i)
unfolding code_byte
Finishes-code_byte bf i = Finishes-byte_at bf.buffer (bf.code_ptr + i)

pub Finishes-code_u32 : (bf : Bytefile) (i : ℕ) → Finishes (code_u32 bf i)
unfolding code_u32
Finishes-code_u32 bf i = Finishes-u32_at bf.buffer (bf.code_ptr + i)

pub Finishes-c_string : (bytes : List ℕ) → Finishes (c_string bytes)
unfolding c_string
Finishes-c_string [] = tt
Finishes-c_string (zero ∷ bytes) = tt
Finishes-c_string (suc c ∷ bytes) =
    Finishes-bind (c_string bytes) _ (Finishes-c_string bytes) λ r _. tt

pub Finishes-get_public_offset : (bf : Bytefile) (i : ℕ) → Finishes (get_public_offset bf i)
unfolding get_public_offset
Finishes-get_public_offset bf i = Finishes-u32_at bf.buffer _

pub Finishes-get_public_name : (bf : Bytefile) (i : ℕ) → Finishes (get_public_name bf i)
unfolding get_public_name
Finishes-get_public_name bf i =
    Finishes-bind (public_word bf (i * 2)) _ (Finishes-u32_at bf.buffer _)
      λ pos _. Finishes-c_string _
