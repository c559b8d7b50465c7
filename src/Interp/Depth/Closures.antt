-- ===== src/Interp/Depth/Closures.antt =====
-- CLOSURE on the stack: it pushes what the closure captures and the address of its body, and takes
-- them all off again for the closure.
use lama_sm_interpreter.Prelude.{
  ℕ, zero, suc, ◌+◌, ◌-◌, ◌∙◌, ◌≤◌, ◌<◌, ◌≡◌, ◌⊎◌, inl, inr, refl, List, [], ◌∷◌, length, arith,
}
use mathlib.Core.List.{reverse, reverse_aux}
use lama_sm_interpreter.Result.{ok}
use lama_sm_interpreter.Word.{wrap32}
use lama_sm_interpreter.Word.Boxing.{box_int}
use lama_sm_interpreter.Instruction.{MemVar, to_mem_var}
use lama_sm_interpreter.Machine.{State, max_stack, store, consume2, consume_designation}
use lama_sm_interpreter.Machine.Frames.{push_op}
use lama_sm_interpreter.Interp.Runtime.{Runtime, call_runtime}
use lama_sm_interpreter.Interp.Closures.{
  consume_designations, captured, push_designations, closures_create,
}
use lama_sm_interpreter.Interp.Moves.{
  Moves, Effect, bind-ok, quiet, pure-Effect, throw-Effect, consume2-Effect,
  consume_designation-Effect, push_op-Effect, popped_many, get_local-Effect, get_arg-Effect,
  call_runtime-Effect,
}
use lama_sm_interpreter.Interp.Depth.{get_closure-Effect}

length-reverse_aux : (xs ys : List (ℕ × ℕ)) → length (reverse_aux xs ys) ≡ length xs + length ys
length-reverse_aux [] ys = omega arith
length-reverse_aux (x ∷ xs) ys = omega (arith, length-reverse_aux xs (x ∷ ys))

consume_designations-Effect : {W : Type 0} (n : ℕ) → Effect {W = W} 0 0 (consume_designations n)
unfolding consume_designations
consume_designations-Effect zero = pure-Effect []
consume_designations-Effect (suc n) =
    quiet consume_designation-Effect
      λ d. quiet (consume_designations-Effect n) λ ds. pure-Effect (d ∷ ds)

length-consume_designations :
    {W : Type 0} (n : ℕ) (s s' : State W) (designations : List (ℕ × ℕ))
    → consume_designations n s ≡ ok (designations, s')
    → length designations ≡ n
unfolding consume_designations
length-consume_designations zero s s' ds h = ground arith
length-consume_designations (suc n) s s' ds h =
    let (d, s₁, e₁, e₂) = bind-ok consume_designation _ s s' ds h in
    let (rest, s₂, e₃, e₄) = bind-ok (consume_designations n) _ s₁ s' ds e₂ in
    let ih = length-consume_designations n s₁ s₂ rest e₃ in
    let whole : ds ≡ d ∷ rest = ground (arith, e₄) in rw whole (omega (arith, ih))

push_op-inside :
    {W : Type 0} (value : ℕ) (s s' : State W)
    → push_op value s ≡ ok (tt, s')
    → (s.stack_data ≤ s.top) × (s.top < s.stack_data + max_stack) × (s'.top ≡ s.top - 1)
unfolding push_op store
push_op-inside value s s' h = (ground arith, ground arith, ground arith)

module _ {W : Type 0} (R : Runtime W) where
  captured-Effect : (q : MemVar) (index : ℕ) → Effect 0 0 (captured R q index)
  unfolding captured
  captured-Effect MemVar.local index = get_local-Effect index
  captured-Effect MemVar.argument index = get_arg-Effect index
  captured-Effect MemVar.closure index = get_closure-Effect R index
  captured-Effect MemVar.global index = throw-Effect 0 0 _
  captured-Effect (MemVar.other c) index = throw-Effect 0 0 _

  -- Each push is on the stack.
  push_designations-Moves :
      (ds : List (ℕ × ℕ)) (s s' : State W)
      → 0 < s.stack_data
      → push_designations R ds s ≡ ok (tt, s')
      → Moves 0 (length ds) s s'
        × ((length ds ≡ 0)
            ⊎ ((s.stack_data + length ds ≤ s.top + 1) × (s.top < s.stack_data + max_stack)))
  unfolding push_designations
  push_designations-Moves [] s s' placed h = (pure-Effect tt s s' tt placed h, inl refl)
  push_designations-Moves ((mem_var, index) ∷ ds) s s' placed h =
      let (value, s₁, e₁, e₂) = bind-ok (captured R (to_mem_var mem_var) index) _ s s' tt h in
      let first = captured-Effect (to_mem_var mem_var) index s s₁ value placed e₁ in
      let (_, s₂, e₃, e₄) = bind-ok (push_op value) _ s₁ s' tt e₂ in
      let second = push_op-Effect value s₁ s₂ tt (omega (arith, first.same_data)) e₃ in
      let (rest, deep) =
        push_designations-Moves ds s₂ s' (omega (arith, first.same_data, second.same_data)) e₄ in
      let (low, high, top) = push_op-inside value s₁ s₂ e₃ in
      (
        record {
          tops = omega (arith, first.tops, second.tops, rest.tops);
          same_data = rest.same_data ∙ second.same_data ∙ first.same_data;
          same_fp = rest.same_fp ∙ second.same_fp ∙ first.same_fp;
          same_sizes = rest.same_sizes ∙ second.same_sizes ∙ first.same_sizes;
          same_bf = rest.same_bf ∙ second.same_bf ∙ first.same_bf;
        },
        inr (omega (arith, first.tops, first.same_data, second.same_data, low, high, top, deep)),
      )

  -- One word more, for the closure.
  pub closures_create-Moves :
      (s s' : State W)
      → 0 < s.stack_data
      → closures_create R s ≡ ok (tt, s')
      → (p : ℕ) × Moves p (p + 1) s s'
  unfolding closures_create
  closures_create-Moves s s' placed h =
      let ((c, ip, n), s₁, e₁, e₂) = bind-ok consume2 _ s s' tt h in
      let m₁ = consume2-Effect s s₁ (c, ip, n) placed e₁ in
      let (ds, s₂, e₃, e₄) = bind-ok (consume_designations n) _ s₁ s' tt e₂ in
      let m₂ = consume_designations-Effect n s₁ s₂ ds (omega (arith, m₁.same_data)) e₃ in
      let many = length-consume_designations n s₁ s₂ ds e₃ in
      let (_, s₃, e₅, e₆) = bind-ok (push_designations R (reverse ds)) _ s₂ s' tt e₄ in
      let (m₃, deep) =
        push_designations-Moves (reverse ds) s₂ s₃ (omega (arith, m₁.same_data, m₂.same_data)) e₅ in
      let pushes : length (reverse ds) ≡ n = omega (arith, length-reverse_aux ds [], many) in
      let (_, s₄, e₇, e₈) = bind-ok (push_op (box_int ip)) _ s₃ s' tt e₆ in
      let m₄ =
        push_op-Effect (box_int ip) s₃ s₄ tt
          (omega (arith, m₁.same_data, m₂.same_data, m₃.same_data)) e₇ in
      let (res, s₅, e₉, e₁₀) =
        bind-ok (call_runtime (R.b_closure (s₄.top + 1) (box_int n))) _ s₄ s' tt e₈ in
      let m₅ =
        call_runtime-Effect _ s₄ s₅ res
          (omega (arith, m₁.same_data, m₂.same_data, m₃.same_data, m₄.same_data)) e₉ in
      let m₆ =
        popped_many (wrap32 (n + 1)) (λ _. push_op-Effect res) s₅ s' tt
          (omega (arith, m₁.same_data, m₂.same_data, m₃.same_data, m₄.same_data, m₅.same_data))
          e₁₀ in
      (
        n + 1,
        record {
          tops = omega (arith, m₁.tops, m₂.tops, m₃.tops, m₄.tops, m₅.tops, m₆.tops, pushes, deep);
          same_data =
              m₆.same_data ∙ m₅.same_data ∙ m₄.same_data ∙ m₃.same_data ∙ m₂.same_data
              ∙ m₁.same_data;
          same_fp = m₆.same_fp ∙ m₅.same_fp ∙ m₄.same_fp ∙ m₃.same_fp ∙ m₂.same_fp ∙ m₁.same_fp;
          same_sizes =
              m₆.same_sizes ∙ m₅.same_sizes ∙ m₄.same_sizes ∙ m₃.same_sizes ∙ m₂.same_sizes
              ∙ m₁.same_sizes;
          same_bf = m₆.same_bf ∙ m₅.same_bf ∙ m₄.same_bf ∙ m₃.same_bf ∙ m₂.same_bf ∙ m₁.same_bf;
        },
      )
