-- ===== src/Interp/Loop/Start.antt =====
-- What the constructor of `FrameStack` leaves on the stack: the words of the strings at the bottom,
-- the words of the globals on them, and the operands and frames behind.
use lama_sm_interpreter.Prelude.{
  ℕ, zero, suc, ◌+◌, ◌-◌, ◌≤◌, ◌<◌, ◌≡◌, ◌∙◌, List, [], ◌∷◌, ltb, ◌==◌, arith, ap, Bool-cases, inl,
  inr,
}
use lama_sm_interpreter.Result.{Result, ok}
use lama_sm_interpreter.Bytefile.{Bytefile}
use lama_sm_interpreter.Machine.{State, max_stack, stack_bottom, store}
use lama_sm_interpreter.Machine.Frames.{find_string, get_global_link}
use lama_sm_interpreter.Interp.Runtime.{Runtime, call_runtime}
use lama_sm_interpreter.Interp.Loop.{intern_string, intern_strings, frame_stack}
use lama_sm_interpreter.Interp.Moves.{bind-ok}

-- Each string of the map is one of the first `n`.
abbrev pub AreBelow : List (ℕ × ℕ) → ℕ → Type 0
AreBelow [] n = Unit
AreBelow ((key, value) ∷ entries) n = (value < n) × AreBelow entries n

AreBelow-suc : (entries : List (ℕ × ℕ)) (n : ℕ) → AreBelow entries n → AreBelow entries (n + 1)
AreBelow-suc [] n h = tt
AreBelow-suc ((key, value) ∷ entries) n h = (omega (arith, h.0), AreBelow-suc entries n h.1)

find_string-lt :
    (index : ℕ) (entries : List (ℕ × ℕ)) (n : ℕ)
    → AreBelow entries n
    → 0 < n
    → find_string index entries < n
unfolding find_string
find_string-lt index [] n h some_string = some_string
find_string-lt index ((key, value) ∷ entries) n h some_string =
    let later = find_string-lt index entries n h.1 some_string in
    elim (Bool-cases (index == key)) [ inl here ↦ rw here h.0 | inr further ↦ rw further later ]

-- What the loop has done up to `s'`, with `n` bytes of the table left.
record Interned {W : Type 0} (n : ℕ) (s s' : State W) : Type 0 where
  counted : s'.string_counter ≤ s.string_counter + n
  below : AreBelow s.strings_map s.string_counter → AreBelow s'.strings_map s'.string_counter
  same_data : s'.stack_data ≡ s.stack_data
  same_bf : s'.bf ≡ s.bf

module _ {W : Type 0} (R : Runtime W) where
  intern_string-Interned :
      (i len : ℕ) (s s' : State W) → intern_string R i s ≡ ok (len, s') → Interned 1 s s'
  unfolding intern_string call_runtime store
  intern_string-Interned i len s s' h =
      let counter : s'.string_counter ≡ s.string_counter + 1 = ground arith in
      let map : s'.strings_map ≡ (i, s.string_counter) ∷ s.strings_map = ground arith in
      record {
        counted = omega arith;
        below = λ b. rw (map, counter) (omega arith, AreBelow-suc s.strings_map s.string_counter b);
        same_data = ground arith;
        same_bf = ground arith;
      }

  -- Each round takes a byte of the table at least.
  intern_strings-Interned :
      (fuel size i : ℕ) (s s' : State W)
      → intern_strings R fuel size i s ≡ ok (tt, s')
      → Interned (size - i) s s'
  unfolding intern_strings
  intern_strings-Interned zero size i s s' h = cc
  intern_strings-Interned (suc fuel) size i s s' h = elim (Bool-cases (ltb i size)) [
    | inl inside ↦
        let (len, s₁, e₁, e₂) =
          bind-ok (intern_string R i) (λ len. intern_strings R fuel size (i + len + 1)) s s' tt
            (rw inside at h) in
        let lt : i < size = ground (arith, inside) in
        let one = intern_string-Interned i len s s₁ e₁ in
        let rest = intern_strings-Interned fuel size (i + len + 1) s₁ s' e₂ in
        record {
          counted = omega (arith, one.counted, rest.counted, lt);
          below = λ b. rest.below (one.below b);
          same_data = rest.same_data ∙ one.same_data;
          same_bf = rest.same_bf ∙ one.same_bf;
        }
    | inr behind ↦
        let same : ◌≡◌ {A = Result (Unit {0} × State W)} (ok (tt, s)) (ok (tt, s')) =
          rw behind at h in
        ground arith
  ]

  -- On a new stack that has room for the strings and the globals, where the constructor of
  -- `FrameStack` succeeds: there are at most as many strings as the table has bytes, the top lies
  -- below the words for the table and for the globals, the word of each string is one of the words
  -- at the bottom, if there is a string at all, and the word of each global lies behind
  -- those of the strings, and as far above the top as there are bytes in the table but no strings.
  pub frame_stack-layout :
      (s s' : State W)
      → s.string_counter ≡ 0
      → s.strings_map ≡ []
      → s.bf.stringtab_size + s.bf.global_area_size ≤ max_stack
      → frame_stack R s ≡ ok (tt, s')
      → (s'.string_counter ≤ s'.bf.stringtab_size)
        × (s'.top + s'.bf.stringtab_size + s'.bf.global_area_size ≡ stack_bottom s')
        × ((index : ℕ)
            → 0 < s'.string_counter
            → find_string index s'.strings_map < s'.string_counter)
        × ((index : ℕ)
            → index < s'.bf.global_area_size
            → (get_global_link s' index + s'.string_counter < stack_bottom s')
              × (s'.top + (s'.bf.stringtab_size - s'.string_counter) ≤ get_global_link s' index))
  unfolding frame_stack
  frame_stack-layout s s' none_yet no_map room h =
      let (_, s₁, e₁, e₂) =
        bind-ok (intern_strings R (s.bf.stringtab_size + 1) s.bf.stringtab_size 0) _ s s' tt h in
      let made = intern_strings-Interned (s.bf.stringtab_size + 1) s.bf.stringtab_size 0 s s₁ e₁ in
      let counter : s'.string_counter ≡ s₁.string_counter = ground arith in
      let map : s'.strings_map ≡ s₁.strings_map = ground arith in
      let same_data : s'.stack_data ≡ s₁.stack_data = ground arith in
      let same_bf : s'.bf ≡ s₁.bf = ground arith in
      let top : s'.top ≡ stack_bottom s - s.bf.stringtab_size - s.bf.global_area_size =
        ground arith in
      let size : s'.bf.stringtab_size ≡ s.bf.stringtab_size =
        ap (λ (b : Bytefile). b.stringtab_size) (same_bf ∙ made.same_bf) in
      let area : s'.bf.global_area_size ≡ s.bf.global_area_size =
        ap (λ (b : Bytefile). b.global_area_size) (same_bf ∙ made.same_bf) in
      let counted : s'.string_counter ≤ s'.bf.stringtab_size = omega (arith, made.counted) in
      let start : AreBelow s.strings_map s.string_counter = rw no_map tt in
      let below : AreBelow s'.strings_map s'.string_counter =
        rw (map, counter) (made.below start) in
      (
        counted,
        omega (arith, made.same_data),
        λ index some_string.
            find_string-lt index s'.strings_map s'.string_counter below some_string,
        λ index lt. omega (arith, made.same_data),
      )
