-- ===== src/Tests/Adding.antt =====
-- A program whose first function calls another, of two arguments, that adds them and stores the sum in
-- its local.
use lama_sm_interpreter.Prelude.{
  ℕ, ◌<◌, ◌≤◌, ◌≡◌, ◌≢◌, ◌⊎◌, ◌∙◌, ap, refl, sym, subst, inl, inr, List, [], ◌∷◌, ◌++◌, arith,
}
use lama_sm_interpreter.Result.{ok}
use lama_sm_interpreter.Word.{minus_one, byte_at, u32_at, u32_bytes}
use lama_sm_interpreter.Bytefile.{
  Bytefile, c_string, code_byte, code_u32, get_public_offset, get_public_name,
}
use lama_sm_interpreter.Bytefile.Roundtrip.{bytefile_of}
use lama_sm_interpreter.Instruction.{
  InstructionType, next_instruction_type, begin, const, call, ld, st, binop, end, to_bin_op,
  to_mem_var, low_bits,
}
use lama_sm_interpreter.Byterun.{general_byterun}
use lama_sm_interpreter.Verifier.Effect.{get_new_stack}
use lama_sm_interpreter.Verifier.Marks.{collect_marks}
use lama_sm_interpreter.Verifier.Marks.Seeds.{IsMain}
use lama_sm_interpreter.Verifier.Marks.Paths.{Reach, start, step, Edge, Edge-Goes}
use lama_sm_interpreter.Interp.Progress.Rounds.{Works}
use lama_sm_interpreter.Interp.Progress.Bodies.{Body, Stands, CallsAt}
use lama_sm_interpreter.Interp.Progress.Functions.{IsFunction}
use lama_sm_interpreter.Tests.Program.{publics, strings}
use lama_sm_interpreter.Tests.Steps.{runtime}

-- BEGIN, CONST 5, CONST 7, CALL and END; behind them BEGIN, LD of both arguments, BINOP, ST and
-- END. Both BEGIN have room for two operands, as the verifier leaves them.
abbrev pub adding : Bytefile
adding = bytefile_of 3 publics strings (
    (0x52 ∷ 2 ∷ 0 ∷ 2 ∷ 0 ∷ 0 ∷ 0 ∷ 0 ∷ 0 ∷ 16 ∷ 5 ∷ 0 ∷ 0 ∷ 0 ∷ 16 ∷ 7 ∷ 0 ∷ 0 ∷ 0 ∷ [])
    ++ ((0x56 ∷ 29 ∷ 0 ∷ 0 ∷ 0 ∷ 2 ∷ 0 ∷ 0 ∷ 0 ∷ 22 ∷ [])
        ++ ((0x52 ∷ 2 ∷ 0 ∷ 2 ∷ 0 ∷ 1 ∷ 0 ∷ 0 ∷ 0 ∷ 34 ∷ 0 ∷ 0 ∷ 0 ∷ 0 ∷ [])
            ++ (0x22 ∷ 1 ∷ 0 ∷ 0 ∷ 0 ∷ 1 ∷ 0x41 ∷ 0 ∷ 0 ∷ 0 ∷ 0 ∷ 22 ∷ 0xff ∷ []))))

abbrev none_in : ℕ
none_in = minus_one

abbrev pub marks : List ℕ
marks =
    0 ∷ none_in ∷ none_in ∷ none_in ∷ none_in ∷ none_in ∷ none_in ∷ none_in ∷ none_in ∷ 0 ∷ none_in
    ∷ none_in ∷ none_in ∷ none_in ∷ 1 ∷ none_in ∷ none_in ∷ none_in ∷ none_in ∷ 2 ∷ none_in
    ∷ none_in ∷ none_in ∷ none_in ∷ none_in ∷ none_in ∷ none_in ∷ none_in ∷ 1 ∷ 0 ∷ none_in
    ∷ none_in ∷ none_in ∷ none_in ∷ none_in ∷ none_in ∷ none_in ∷ none_in ∷ 0 ∷ none_in ∷ none_in
    ∷ none_in ∷ none_in ∷ 1 ∷ none_in ∷ none_in ∷ none_in ∷ none_in ∷ 2 ∷ 1 ∷ none_in ∷ none_in
    ∷ none_in ∷ none_in ∷ 1 ∷ none_in ∷ []

pub collect_marks-adding : collect_marks adding ≡ ok marks
unfolding collect_marks u32_bytes u32_at byte_at c_string general_byterun code_byte get_new_stack
    code_u32
collect_marks-adding = refl

-- The body of the callee.
abbrev pub InBody : ℕ → ℕ → Type 0
InBody o d =
    ((o ≡ 38) × (d ≡ 0))
    ⊎ ((o ≡ 43) × (d ≡ 1))
    ⊎ ((o ≡ 48) × (d ≡ 2))
    ⊎ ((o ≡ 49) × (d ≡ 1))
    ⊎ ((o ≡ 54) × (d ≡ 1))

-- It loads the arguments, adds them, and stores the sum.
pub first_load : Works adding 2 1 2 38 0
unfolding u32_bytes u32_at byte_at code_byte get_new_stack code_u32 next_instruction_type to_mem_var
    low_bits
first_load = record {
  byte = 0x22;
  reads = refl;
  ready = (0, refl, omega arith);
  effect = 1;
  leaves = refl;
  shallow = omega arith;
}

second_load : Works adding 2 1 2 43 1
unfolding u32_bytes u32_at byte_at code_byte get_new_stack code_u32 next_instruction_type to_mem_var
    low_bits
second_load = record {
  byte = 0x22;
  reads = refl;
  ready = (1, refl, omega arith);
  effect = 2;
  leaves = refl;
  shallow = omega arith;
}

sum : Works adding 2 1 2 48 2
unfolding u32_bytes byte_at code_byte get_new_stack next_instruction_type to_bin_op low_bits
sum = record {
  byte = 0x01;
  reads = refl;
  ready = (omega arith, tt);
  effect = 1;
  leaves = refl;
  shallow = omega arith;
}

keep : Works adding 2 1 2 49 1
unfolding u32_bytes u32_at byte_at code_byte get_new_stack code_u32 next_instruction_type to_mem_var
    low_bits
keep = record {
  byte = 0x41;
  reads = refl;
  ready = (omega arith, (0, refl, omega arith));
  effect = 1;
  leaves = refl;
  shallow = omega arith;
}

at_end : Stands adding 54 end
unfolding u32_bytes byte_at code_byte next_instruction_type
at_end = (0x16, refl, refl)

Works-at : (o d k m : ℕ) → o ≡ k → d ≡ m → Works adding 2 1 2 k m → Works adding 2 1 2 o d
Works-at o d k m a b h =
    subst (λ n. Works adding 2 1 2 n d) (sym a) (subst (λ n. Works adding 2 1 2 k n) (sym b) h)

Works-in :
    (o d : ℕ)
    → InBody o d
    → Stands adding o end ⊎ (Works adding 2 1 2 o d ⊎ CallsAt runtime adding 2 o d)
Works-in o d (inl (a, b)) = inr (inl (Works-at o d 38 0 a b first_load))
Works-in o d (inr (inl (a, b))) = inr (inl (Works-at o d 43 1 a b second_load))
Works-in o d (inr (inr (inl (a, b)))) = inr (inl (Works-at o d 48 2 a b sum))
Works-in o d (inr (inr (inr (inl (a, b))))) = inr (inl (Works-at o d 49 1 a b keep))
Works-in o d (inr (inr (inr (inr (a, b))))) = inl (subst (λ n. Stands adding n end) (sym a) at_end)

pub edge_at : (o d k m o' d' : ℕ) → o ≡ k → d ≡ m → Edge adding o d o' d' → Edge adding k m o' d'
edge_at o d k m o' d' a b h =
    subst (λ n. Edge adding n m o' d') a (subst (λ n. Edge adding o n o' d') b h)

module _ (o d o' d' : ℕ) where
  goes_on_in : InBody o d → Edge adding o d o' d' → InBody o' d' × (o < o')
  unfolding general_byterun get_new_stack code_byte u32_bytes
  goes_on_in (inl (a, b)) e =
      let g = Edge-Goes adding 38 0 o' d' 43 1 ld refl refl (edge_at o d 38 0 o' d' a b e) in
      (inr (inl g), omega arith)
  goes_on_in (inr (inl (a, b))) e =
      let g = Edge-Goes adding 43 1 o' d' 48 2 ld refl refl (edge_at o d 43 1 o' d' a b e) in
      (inr (inr (inl g)), omega arith)
  goes_on_in (inr (inr (inl (a, b)))) e =
      let g = Edge-Goes adding 48 2 o' d' 49 1 binop refl refl (edge_at o d 48 2 o' d' a b e) in
      (inr (inr (inr (inl g))), omega arith)
  goes_on_in (inr (inr (inr (inl (a, b))))) e =
      let g = Edge-Goes adding 49 1 o' d' 54 1 st refl refl (edge_at o d 49 1 o' d' a b e) in
      (inr (inr (inr (inr g))), omega arith)
  goes_on_in (inr (inr (inr (inr (a, b))))) e =
      absurd (Edge-Goes adding 54 1 o' d' 55 1 end refl refl (edge_at o d 54 1 o' d' a b e))

pub not_at :
    (o k c : ℕ) (ty ty' : InstructionType)
    → o ≡ k
    → code_byte adding k ≡ ok c
    → next_instruction_type c ≡ ty
    → ty ≢ ty'
    → Stands adding o ty'
    → ⊥
not_at o k c ty ty' same e t ne h =
    let (c', e', t') = subst (λ n. Stands adding n ty') same h in
    let byte : c ≡ c' = ground arith in ne (sym t ∙ ap next_instruction_type byte ∙ t')

-- No CALL stands in it.
no_call : (o d : ℕ) → InBody o d → Stands adding o call → ⊥
unfolding u32_bytes byte_at code_byte next_instruction_type
no_call o d (inl (a, b)) h = not_at o 38 0x22 ld call a refl refl (λ e. cc) h
no_call o d (inr (inl (a, b))) h = not_at o 43 0x22 ld call a refl refl (λ e. cc) h
no_call o d (inr (inr (inl (a, b)))) h = not_at o 48 1 binop call a refl refl (λ e. cc) h
no_call o d (inr (inr (inr (inl (a, b))))) h = not_at o 49 0x41 st call a refl refl (λ e. cc) h
no_call o d (inr (inr (inr (inr (a, b))))) h = not_at o 54 0x16 end call a refl refl (λ e. cc) h

body : Body runtime adding 2 1 2 InBody (λ o. Stands adding o end)
unfolding u32_bytes
body = record {
  inside = λ o d p. ground arith;
  shallow = λ o d p. ground arith;
  works = Works-in;
  closed = λ o d o' d' p w e. goes_on_in o d o' d' p e;
  behind = λ o d p c. absurd (no_call o d p (c.calls.stands));
}

-- The operand at the END.
result : (o d : ℕ) → InBody o d → Stands adding o end → 1 ≤ d
unfolding u32_bytes byte_at code_byte next_instruction_type
result o d (inl (a, b)) h = absurd (not_at o 38 0x22 ld end a refl refl (λ e. cc) h)
result o d (inr p) h = ground arith

-- The verifier reaches it, and the code in front.
IsMain-first : IsMain adding 0 0
unfolding get_public_offset get_public_name u32_at u32_bytes byte_at c_string
IsMain-first = record { offset = refl; name = refl }

pub to_main : Reach adding 9 0
unfolding general_byterun get_new_stack code_byte u32_bytes code_u32 u32_at byte_at
to_main =
    step (start 0 IsMain-first (omega arith) refl)
      (record { nxt = 9; ty = begin; cur = 0; decodes = refl; effect = refl; goes = (refl, refl) })

to_call : Reach adding 19 2
unfolding general_byterun get_new_stack code_byte u32_bytes code_u32 u32_at byte_at
to_call =
    step
      (step to_main (record {
        nxt = 14;
        ty = const;
        cur = 1;
        decodes = refl;
        effect = refl;
        goes = (refl, refl);
      }))
      (record { nxt = 19; ty = const; cur = 2; decodes = refl; effect = refl; goes = (refl, refl) })

pub to_body : Reach adding 38 0
unfolding general_byterun get_new_stack code_byte u32_bytes code_u32 u32_at byte_at
to_body =
    step
      (step to_call (record {
        nxt = 28;
        ty = call;
        cur = 1;
        decodes = refl;
        effect = refl;
        goes = inl (refl, refl);
      }))
      (record { nxt = 38; ty = begin; cur = 0; decodes = refl; effect = refl; goes = (refl, refl) })

-- The function.
pub adds : IsFunction runtime adding 29 2 131074 1 2 InBody
unfolding u32_bytes u32_at byte_at code_byte code_u32 next_instruction_type
adds = record {
  begins = (0x52, refl, refl);
  counted = refl;
  locals = refl;
  reached = to_body;
  starts = inl (refl, refl);
  body = body;
  result = result;
}
