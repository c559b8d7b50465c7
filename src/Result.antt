-- ===== src/Result.antt =====
-- What a call of the program gives: a value, or the exception that it throws. `fault` stands for
-- an access outside of the objects of the program, which C++ leaves undefined.
use lama_sm_interpreter.Prelude.{ℕ, ◌≡◌, refl, Bool, true, false}

-- One constructor for each `throw` of src/, with the number that its message names.
pub data Error : Type 0 where
  fault : Error
  -- The fuel of a modelled loop ran out. The theorems on termination rule it out.
  out_of_fuel : Error
  -- Analyzer.hpp: general_byterun; main.cpp: interpret; printers.hpp
  unsupported_instruction unknown_instruction unreachable_effect unknown_byte : Error
  -- main.cpp and read_file
  no_file_given cannot_open wrong_argument : Error
  -- the interpreters
  unknown_binop second_argument_zero invalid_load invalid_store invalid_patt : Error
  invalid_designation sti_not_variable : Error
  stack_overflow matching_failure : ℕ → Error
  -- Verifier.hpp
  too_many_arguments stack_exhausted stack_differs no_room_for_max_stack : ℕ → Error
  global_out_of_bounds local_out_of_bounds argument_out_of_bounds : ℕ → Error
  unknown_designation jump_outside : ℕ → Error

pub data Result {ℓ} (A : Type ℓ) : Type ℓ where
  ok : A → Result A
  err : Error → Result A

-- `if (!test) throw e;`
abbrev pub guard : Bool → Error → Result (Unit {0})
guard test e = elim test [ true ↦ ok tt | false ↦ err e ]

-- A call, and what is done with its value where it did not throw.
infixl 5 ◌>>=◌
abbrev pub ◌>>=◌ {ℓ κ} : {V : Type ℓ} {R : Type κ} → Result V → (V → Result R) → Result R
ok value >>= next = next value
err thrown >>= next = err thrown

infixl 5 ◌>>◌
abbrev pub ◌>>◌ {κ} : {R : Type κ} → Result (Unit {0}) → Result R → Result R
first >> next = first >>= λ _. next

pub >>=-eq-ok {ℓ κ} :
    {V : Type ℓ} {R : Type κ} (call : Result V) (next : V → Result R) (result : R)
    → (call >>= next) ≡ ok result
    → (value : V) × (call ≡ ok value) × (next value ≡ ok result)
>>=-eq-ok (ok value) next result h = (value, refl, h)
>>=-eq-ok (err thrown) next result h = cc
