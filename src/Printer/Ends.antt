-- ===== src/Printer/Ends.antt =====
-- The printer ends on every file.
use lama_sm_interpreter.Prelude.{
  ℕ, zero, suc, ◌+◌, ◌<◌, ◌≡◌, ◌≢◌, refl, List, Option, none, some, arith, ◌==◌,
}
use lama_sm_interpreter.Result.{Result, ok, err, Error, out_of_fuel, ◌>>=◌, >>=-eq-ok}
use lama_sm_interpreter.Bytefile.{Bytefile, code_byte, code_u32, get_string, read_file}
use lama_sm_interpreter.Bytefile.Bounds.{IsUnpacked, read_file-IsUnpacked, code_byte-lt}
use lama_sm_interpreter.Fuel.{
  Finishes, Finishes-bind, Finishes-if, Finishes-ne, Finishes-code_byte, Finishes-code_u32,
  Finishes-c_string,
}
use lama_sm_interpreter.Instruction.{
  InstructionType, next_instruction_type, instruction_length, designation_length, binop, const,
  string, sexp, sti, sta, jmp, end, ret, drop, dup, swap, elem, ld, lda, st, cjmp_z, cjmp_nz,
  call_read, call_write, call_length, call_string, call_array, begin, cbegin, closure, callc, call,
  tag, array, fail, line, patt, other,
}
use lama_sm_interpreter.Printer.{
  Printed, Printing, goes_on, print_plain, print_jump, print_one, print_two, print_call,
  print_tagged, print_variable, print_designations, print_closure, print_instruction, print_at,
  print_from, print_instructions,
}
use lama_sm_interpreter.Printer.Steps.{print_at-general_byterun}

goes_on-Finishes : (m : Printing) → Finishes m → Finishes (goes_on m)
goes_on-Finishes (ok (words, behind)) h = tt
goes_on-Finishes (err Error.out_of_fuel) h = h
goes_on-Finishes (err _) h = tt

-- One word of arguments is read, or two.
one_word :
    {A : Type 0} (bf : Bytefile) (p : ℕ) (f : ℕ → A)
    → Finishes (code_u32 bf (p + 1) >>= λ a. ok (f a))
one_word bf p f = Finishes-bind (code_u32 bf (p + 1)) _ (Finishes-code_u32 bf (p + 1)) λ a _. tt

two_words :
    {A : Type 0} (bf : Bytefile) (p : ℕ) (f : ℕ → ℕ → A)
    → Finishes (code_u32 bf (p + 1) >>= λ a. code_u32 bf (p + (1 + 4)) >>= λ b. ok (f a b))
two_words bf p f = Finishes-bind (code_u32 bf (p + 1)) _ (Finishes-code_u32 bf (p + 1)) λ a _.
    Finishes-bind (code_u32 bf (p + (1 + 4))) _ (Finishes-code_u32 bf (p + (1 + 4))) λ b _. tt

tagged-Finishes : (bf : Bytefile) (p : ℕ) (t : InstructionType) → Finishes (print_tagged bf p t)
unfolding print_tagged get_string
tagged-Finishes bf p t = Finishes-bind (code_u32 bf (p + 1)) _ (Finishes-code_u32 bf (p + 1)) λ a _.
    Finishes-bind (code_u32 bf (p + (1 + 4))) _ (Finishes-code_u32 bf (p + (1 + 4)))
      λ b _. Finishes-bind (get_string bf a) _ (Finishes-c_string _) λ str _. tt

variable-Finishes : (bf : Bytefile) (p : ℕ) (t : InstructionType) → Finishes (print_variable bf p t)
unfolding print_variable
variable-Finishes bf p t =
    Finishes-bind (code_byte bf p) _ (Finishes-code_byte bf p)
      λ c _. Finishes-bind (code_u32 bf (p + 1)) _ (Finishes-code_u32 bf (p + 1)) λ a _. tt

designations-Finishes : (bf : Bytefile) (n p : ℕ) → Finishes (print_designations bf n p)
unfolding print_designations
designations-Finishes bf zero p = tt
designations-Finishes bf (suc n) p =
    Finishes-bind (code_byte bf p) _ (Finishes-code_byte bf p) λ c _.
      Finishes-bind (code_u32 bf (p + 1)) _ (Finishes-code_u32 bf (p + 1)) λ a _.
        Finishes-bind (print_designations bf n (p + designation_length)) _
          (designations-Finishes bf n (p + designation_length)) λ r _. tt

closure-Finishes : (bf : Bytefile) (p : ℕ) → Finishes (print_closure bf p)
unfolding print_closure
closure-Finishes bf p = Finishes-bind (code_u32 bf (p + 1)) _ (Finishes-code_u32 bf (p + 1)) λ a _.
    Finishes-bind (code_u32 bf (p + (1 + 4))) _ (Finishes-code_u32 bf (p + (1 + 4))) λ b _.
      Finishes-bind (print_designations bf b (p + instruction_length 2)) _
        (designations-Finishes bf b (p + instruction_length 2)) λ r _. tt

print_instruction-Finishes :
    (bf : Bytefile) (p : ℕ) (t : InstructionType) → Finishes (print_instruction bf p t)
unfolding print_instruction print_plain print_jump print_one print_two print_call
print_instruction-Finishes bf p call_read = tt
print_instruction-Finishes bf p call_write = tt
print_instruction-Finishes bf p call_length = tt
print_instruction-Finishes bf p call_string = tt
print_instruction-Finishes bf p elem = tt
print_instruction-Finishes bf p dup = tt
print_instruction-Finishes bf p drop = tt
print_instruction-Finishes bf p swap = tt
print_instruction-Finishes bf p sti = tt
print_instruction-Finishes bf p sta = tt
print_instruction-Finishes bf p ret = tt
print_instruction-Finishes bf p end = tt
print_instruction-Finishes bf p jmp = goes_on-Finishes (print_jump bf p _) (one_word bf p _)
print_instruction-Finishes bf p cjmp_z = goes_on-Finishes (print_jump bf p _) (one_word bf p _)
print_instruction-Finishes bf p cjmp_nz = goes_on-Finishes (print_jump bf p _) (one_word bf p _)
print_instruction-Finishes bf p const = goes_on-Finishes (print_one bf p _) (one_word bf p _)
print_instruction-Finishes bf p call_array = goes_on-Finishes (print_one bf p _) (one_word bf p _)
print_instruction-Finishes bf p line = goes_on-Finishes (print_one bf p _) (one_word bf p _)
print_instruction-Finishes bf p array = goes_on-Finishes (print_one bf p _) (one_word bf p _)
print_instruction-Finishes bf p string = goes_on-Finishes (print_one bf p _) (one_word bf p _)
print_instruction-Finishes bf p callc = goes_on-Finishes (print_one bf p _) (one_word bf p _)
print_instruction-Finishes bf p begin = goes_on-Finishes (print_two bf p _) (two_words bf p _)
print_instruction-Finishes bf p cbegin = goes_on-Finishes (print_two bf p _) (two_words bf p _)
print_instruction-Finishes bf p fail = goes_on-Finishes (print_two bf p _) (two_words bf p _)
print_instruction-Finishes bf p sexp =
    goes_on-Finishes (print_tagged bf p _) (tagged-Finishes bf p _)
print_instruction-Finishes bf p tag =
    goes_on-Finishes (print_tagged bf p _) (tagged-Finishes bf p _)
print_instruction-Finishes bf p ld =
    goes_on-Finishes (print_variable bf p _) (variable-Finishes bf p _)
print_instruction-Finishes bf p st =
    goes_on-Finishes (print_variable bf p _) (variable-Finishes bf p _)
print_instruction-Finishes bf p lda =
    goes_on-Finishes (print_variable bf p _) (variable-Finishes bf p _)
print_instruction-Finishes bf p call = goes_on-Finishes (print_call bf p) (two_words bf p _)
print_instruction-Finishes bf p closure =
    goes_on-Finishes (print_closure bf p) (closure-Finishes bf p)
print_instruction-Finishes bf p binop =
    Finishes-bind (code_byte bf p) _ (Finishes-code_byte bf p) λ c _. tt
print_instruction-Finishes bf p patt =
    Finishes-bind (code_byte bf p) _ (Finishes-code_byte bf p) λ c _. tt
print_instruction-Finishes bf p (other code) =
    Finishes-bind (code_byte bf p) _ (Finishes-code_byte bf p)
      λ c _. Finishes-if (c == 0xff) _ _ tt tt

print_at-Finishes : (bf : Bytefile) (p : ℕ) → Finishes (print_at bf p)
unfolding print_at
print_at-Finishes bf p =
    Finishes-bind (code_byte bf p) _ (Finishes-code_byte bf p)
      λ c _. print_instruction-Finishes bf p (next_instruction_type c)

print_at-lt :
    (bf : Bytefile) (p : ℕ) (r : List Printed × Option ℕ)
    → IsUnpacked bf
    → print_at bf p ≡ ok r
    → p < bf.code_size
unfolding print_at
print_at-lt bf p r u h = let (c, e, k) = >>=-eq-ok (code_byte bf p) _ r h in code_byte-lt bf p c u e

print_from-ends :
    (fuel : ℕ) (bf : Bytefile) (p : ℕ)
    → IsUnpacked bf
    → 0 < fuel
    → bf.code_size < p + fuel
    → (print_from fuel bf p).1 ≢ err out_of_fuel
unfolding print_from
print_from-ends zero bf p u some_fuel enough = elim some_fuel [ ]
print_from-ends (suc fuel) bf p u some_fuel enough =
    go (print_at bf p) refl (print_at-Finishes bf p) (λ q. print_from-ends fuel bf q u)
  where
    go :
        (r : Result (List Printed × Option ℕ))
        → print_at bf p ≡ r
        → Finishes r
        → ((q : ℕ)
            → 0 < fuel
            → bf.code_size < q + fuel
            → (print_from fuel bf q).1 ≢ err out_of_fuel)
        → (print_from (suc fuel) bf p).1 ≢ err out_of_fuel
    go (ok (words, none)) e f later = rw (e, print_from) (λ h. cc)
    go (ok (words, some behind)) e f later =
        let inside = print_at-lt bf p (words, some behind) u e in
        let (t, _, _, further) = print_at-general_byterun bf p words behind e in
        rw (e, print_from) (later behind (omega arith) (omega arith))
    go (err Error.out_of_fuel) e f later = absurd f
    go (err x) e f later = rw (e, print_from) (Finishes-ne {A = Unit {0}} (err x) f)

-- On a file that was read the listing ends by itself, with its last line or with an exception.
pub print_instructions-ne-out_of_fuel :
    (bytes : List ℕ) (bf : Bytefile)
    → read_file bytes ≡ ok bf
    → (print_instructions bf).1 ≢ err out_of_fuel
unfolding print_instructions
print_instructions-ne-out_of_fuel bytes bf h =
    print_from-ends (bf.code_size + 1) bf 0 (read_file-IsUnpacked bytes bf h) (omega arith)
      (omega arith)
