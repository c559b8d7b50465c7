-- ===== src/Interp/Flow/Closures.antt =====
-- CLOSURE consumes its designations.
use lama_sm_interpreter.Prelude.{
  ℕ, zero, suc, ◌+◌, ◌*◌, ◌%◌, ◌^◌, ◌≤◌, ◌<◌, ◌≡◌, ap, List, [], ◌∷◌, arith,
}
use mathlib.Core.List.{reverse}
use lama_sm_interpreter.Result.{ok}
use lama_sm_interpreter.Bytefile.{code_u32}
use lama_sm_interpreter.Bytefile.Bounds.{IsUnpacked, code_u32-lt}
use lama_sm_interpreter.Instruction.{MemVar, to_mem_var, closure}
use lama_sm_interpreter.Byterun.{next_offset}
use lama_sm_interpreter.Machine.{State, consume2, consume_designation}
use lama_sm_interpreter.Interp.Runtime.{Runtime}
use lama_sm_interpreter.Interp.Closures.{
  consume_designations, captured, push_designations, closures_create,
}
use lama_sm_interpreter.Interp.Moves.{bind-ok}
use lama_sm_interpreter.Interp.Depth.Arguments.{consume2-args}
use lama_sm_interpreter.Interp.Flow.{
  Stays, stays, bind-Stays, pure-Stays, throw-Stays, push_op-Stays, get_local-Stays, get_arg-Stays,
  get_closure-Stays,
}
use lama_sm_interpreter.Interp.Flow.Advances.{consume2-Advances}

module _ {W : Type 0} where
  consume2-same_bf : (s s' : State W) (r : ℕ × ℕ × ℕ) → consume2 s ≡ ok (r, s') → s'.bf ≡ s.bf
  unfolding consume2
  consume2-same_bf s s' r h = ground arith

  consume_designation-Advances :
      (s s' : State W) (d : ℕ × ℕ)
      → IsUnpacked s.bf
      → consume_designation s ≡ ok (d, s')
      → (s'.code_ptr ≡ s.code_ptr + 5) × (s.code_ptr + 5 ≤ s.bf.code_size) × (s'.bf ≡ s.bf)
  unfolding consume_designation
  consume_designation-Advances s s' (c, a) u h =
      let read : code_u32 s.bf (s.code_ptr + 1) ≡ ok a = ground arith in
      (ground arith, omega (arith, code_u32-lt s.bf (s.code_ptr + 1) a u read), ground arith)

  consume_designations-Advances :
      (n : ℕ) (s s' : State W) (ds : List (ℕ × ℕ))
      → IsUnpacked s.bf
      → s.code_ptr ≤ s.bf.code_size
      → consume_designations n s ≡ ok (ds, s')
      → (s'.code_ptr ≡ s.code_ptr + 5 * n) × (s.code_ptr + 5 * n ≤ s.bf.code_size)
  unfolding consume_designations
  consume_designations-Advances zero s s' ds u in_code h =
      let same : s'.code_ptr ≡ s.code_ptr = ground arith in (omega (arith, same), omega arith)
  consume_designations-Advances (suc n) s s' ds u in_code h =
      let (d, s₁, e₁, e₂) = bind-ok consume_designation _ s s' ds h in
      let (ptr, inside, file) = consume_designation-Advances s s₁ d u e₁ in
      let (rest, s₂, e₃, e₄) = bind-ok (consume_designations n) _ s₁ s' ds e₂ in
      let (ptr', inside') =
        consume_designations-Advances n s₁ s₂ rest (rw file u) (rw (file, ptr) inside) e₃ in
      let last : s'.code_ptr ≡ s₂.code_ptr = ground (arith, e₄) in
      let within : s₁.code_ptr + 5 * n ≤ s.bf.code_size = rw (← file) inside' in
      (omega (arith, last, ptr', ptr), omega (arith, within, ptr))

module _ {W : Type 0} (R : Runtime W) where
  captured-Stays : (q : MemVar) (index : ℕ) → Stays (captured R q index)
  unfolding captured
  captured-Stays MemVar.local index = get_local-Stays index
  captured-Stays MemVar.argument index = get_arg-Stays index
  captured-Stays MemVar.closure index = get_closure-Stays R index
  captured-Stays MemVar.global index = throw-Stays _
  captured-Stays (MemVar.other c) index = throw-Stays _

  push_designations-Stays : (ds : List (ℕ × ℕ)) → Stays (push_designations R ds)
  unfolding push_designations
  push_designations-Stays [] = pure-Stays tt
  push_designations-Stays ((mem_var, index) ∷ ds) =
      bind-Stays (captured-Stays (to_mem_var mem_var) index)
        λ value. bind-Stays (push_op-Stays value) λ _. push_designations-Stays ds

  -- The decoder is left behind the last designation.
  pub closures_create-Follows :
      (s s' : State W)
      → IsUnpacked s.bf
      → s.bf.code_size < 2 ^ 32
      → closures_create R s ≡ ok (tt, s')
      → next_offset s.bf s.code_ptr closure ≡ ok s'.code_ptr
  unfolding closures_create next_offset
  closures_create-Follows s s' u small h =
      let ((c, ip, n), s₁, e₁, e₂) = bind-ok consume2 _ s s' tt h in
      let (ptr, inside) = consume2-Advances s s₁ (c, ip, n) u e₁ in
      let read = consume2-args s s₁ c ip n e₁ in
      let file : s₁.bf ≡ s.bf = consume2-same_bf s s₁ (c, ip, n) e₁ in
      let (ds, s₂, e₃, e₄) = bind-ok (consume_designations n) _ s₁ s' tt e₂ in
      let (ptr', inside') =
        consume_designations-Advances n s₁ s₂ ds (rw file u) (rw (file, ptr) inside) e₃ in
      let rest : s'.code_ptr ≡ s₂.code_ptr =
        bind-Stays (push_designations-Stays (reverse ds)) (λ _. search stays depth 8) s₂ s' tt e₄ in
      let within : s₁.code_ptr + 5 * n ≤ s.bf.code_size = rw (← file) inside' in
      let target : (s.code_ptr + 1 + 2 * 4 + (1 + 4) * n) % 2 ^ 32 ≡ s'.code_ptr =
        omega (arith, rest, ptr, ptr', within, small) in
      rw read (ap ok target)
