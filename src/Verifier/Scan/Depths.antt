-- ===== src/Verifier/Scan/Depths.antt =====
-- Where `verify` writes the deepest stack of a function.
use lama_sm_interpreter.Prelude.{
  ℕ, ◌+◌, ◌*◌, ◌/◌, ◌%◌, ◌<◌, ◌≡◌, ◌≢◌, sym, ◌∙◌, List, ◌∷◌, length, length-set, get_elem?,
  get_elem?-lt, get_elem?-set_self, get_elem?-set_ne, set, arith, ap, Option-cases, inl, inr,
}
use lama_sm_interpreter.Result.{ok, >>=-eq-ok}
use lama_sm_interpreter.Word.{byte_at, u32_at, found}
use lama_sm_interpreter.Bytefile.{Bytefile, code_byte, code_u32}
use lama_sm_interpreter.Verifier.Scan.{Scan, last_begin, upper_half, set_upper_half, scan_end}

module _ (bf : Bytefile) (i v : ℕ) where
  pub set_upper_half-elsewhere :
      (p : ℕ) → p ≢ i + 2 → p ≢ i + 3 → code_byte (set_upper_half bf i v) p ≡ code_byte bf p
  unfolding set_upper_half code_byte byte_at
  set_upper_half-elsewhere p h₂ h₃ = ap found (
      get_elem?-set_ne (set bf.buffer (bf.code_ptr + (i + 2)) (v % 256)) (bf.code_ptr + (i + 3))
        (bf.code_ptr + p) (v / 256 % 256) (omega arith)
      ∙ get_elem?-set_ne bf.buffer (bf.code_ptr + (i + 2)) (bf.code_ptr + p) (v % 256)
          (omega arith))

  module _ (c : ℕ) (inside : code_byte bf (i + 3) ≡ ok c) where
    size : bf.code_ptr + (i + 3) < length bf.buffer
    unfolding code_byte byte_at
    size = elim (Option-cases (get_elem? bf.buffer (bf.code_ptr + (i + 3)))) [
      | inl out ↦ absurd (ground (arith, out))
      | inr (w, e) ↦ get_elem?-lt bf.buffer (bf.code_ptr + (i + 3)) w e
    ]

    high : code_byte (set_upper_half bf i v) (i + 3) ≡ ok (v / 256 % 256)
    unfolding set_upper_half code_byte byte_at
    high = ap found (
        get_elem?-set_self (set bf.buffer (bf.code_ptr + (i + 2)) (v % 256)) (bf.code_ptr + (i + 3))
          (v / 256 % 256)
          (omega (arith, size, length-set bf.buffer (bf.code_ptr + (i + 2)) (v % 256))))

    low : code_byte (set_upper_half bf i v) (i + 2) ≡ ok (v % 256)
    unfolding set_upper_half code_byte byte_at
    low = ap found (
        get_elem?-set_ne (set bf.buffer (bf.code_ptr + (i + 2)) (v % 256)) (bf.code_ptr + (i + 3))
          (bf.code_ptr + (i + 2)) (v / 256 % 256) (omega arith)
        ∙ get_elem?-set_self bf.buffer (bf.code_ptr + (i + 2)) (v % 256) (omega (arith, size)))

-- The word of four bytes of the code, in the words of `code_byte`.
shifted : (bf : Bytefile) (i k : ℕ) → byte_at bf.buffer (bf.code_ptr + i + k) ≡ code_byte bf (i + k)
unfolding code_byte
shifted bf i k =
    let same : bf.code_ptr + i + k ≡ bf.code_ptr + (i + k) = omega arith in
    ap (byte_at bf.buffer) same

code_u32_lem :
    (bf : Bytefile) (i a b c d : ℕ)
    → code_byte bf i ≡ ok a
    → code_byte bf (i + 1) ≡ ok b
    → code_byte bf (i + 2) ≡ ok c
    → code_byte bf (i + 3) ≡ ok d
    → code_u32 bf i ≡ ok (a + b * 256 + c * 65536 + d * 16777216)
unfolding code_u32 u32_at code_byte
code_u32_lem bf i a b c d e₀ e₁ e₂ e₃ =
    rw (e₀, shifted bf i 1 ∙ e₁, shifted bf i 2 ∙ e₂, shifted bf i 3 ∙ e₃)

code_u32-bytes :
    (bf : Bytefile) (i n : ℕ)
    → code_u32 bf i ≡ ok n
    → (a : ℕ) × (b : ℕ) × (c : ℕ) × (d : ℕ) × (code_byte bf i ≡ ok a)
      × (code_byte bf (i + 1) ≡ ok b)
      × (code_byte bf (i + 2) ≡ ok c)
      × (code_byte bf (i + 3) ≡ ok d)
      × (n ≡ a + b * 256 + c * 65536 + d * 16777216)
unfolding code_u32 u32_at code_byte
code_u32-bytes bf i n h =
    let (a, e₀, k₀) = >>=-eq-ok (byte_at bf.buffer (bf.code_ptr + i)) _ n h in
    let (b, e₁, k₁) = >>=-eq-ok (byte_at bf.buffer (bf.code_ptr + i + 1)) _ n k₀ in
    let (c, e₂, k₂) = >>=-eq-ok (byte_at bf.buffer (bf.code_ptr + i + 2)) _ n k₁ in
    let (d, e₃, k₃) = >>=-eq-ok (byte_at bf.buffer (bf.code_ptr + i + 3)) _ n k₂ in
    (
      a,
      b,
      c,
      d,
      e₀,
      sym (shifted bf i 1) ∙ e₁,
      sym (shifted bf i 2) ∙ e₂,
      sym (shifted bf i 3) ∙ e₃,
      ground (arith, k₃),
    )

-- At an END that control reaches and that does not throw, `verify` adds the lower 16 bits of the
-- deepest stack to the upper half of the first argument of the last BEGIN, where the handler of BEGIN
-- reads it, and changes no byte of the code but the two of that half.
pub scan_end-depth :
    (s s' : Scan) (begin_offset : ℕ) (behind : List ℕ) (n_args : ℕ)
    → s.begin_offsets ≡ begin_offset ∷ behind
    → code_u32 s.bf (begin_offset + 1) ≡ ok n_args
    → scan_end s ≡ ok s'
    → (code_u32 s'.bf (begin_offset + 1) ≡ ok (n_args + s.max_stack % 65536 * 65536))
      × ((p : ℕ)
          → p ≢ begin_offset + 3
          → p ≢ begin_offset + 4
          → code_byte s'.bf p ≡ code_byte s.bf p)
unfolding scan_end upper_half
scan_end-depth s s' b behind n_args e args h =
    let (o, e₀, k₀) = >>=-eq-ok (last_begin s.begin_offsets) _ s' h in
    let o_is : o ≡ b = ground (arith, e, e₀) in
    let (half, e₁, k₁) = >>=-eq-ok (upper_half s.bf (o + 1)) _ s' k₀ in
    let (c, e₂, k₂) = >>=-eq-ok (code_byte s.bf (o + 1 + 2)) _ half e₁ in
    let (d, e₃, k₃) = >>=-eq-ok (code_byte s.bf (o + 1 + 3)) _ half k₂ in
    let (a₀, a₁, a₂, a₃, f₀, f₁, f₂, f₃, sum) = code_u32-bytes s.bf (b + 1) n_args args in
    let empty : half ≡ 0 = ground (arith, k₁) in
    let file : s'.bf ≡ set_upper_half s.bf (o + 1) s.max_stack = ground (arith, k₁, empty) in
    let g₂ : code_byte s.bf (b + 1 + 2) ≡ ok c = rw o_is at e₂ in
    let g₃ : code_byte s.bf (b + 1 + 3) ≡ ok d = rw o_is at e₃ in
    let no_low : a₂ ≡ c = ground (arith, f₂, g₂) in
    let no_high : a₃ ≡ d = ground (arith, f₃, g₃) in
    let written =
      code_u32_lem (set_upper_half s.bf (b + 1) s.max_stack) (b + 1) a₀ a₁ _ _
        (set_upper_half-elsewhere s.bf (b + 1) s.max_stack (b + 1) (omega arith) (omega arith) ∙ f₀)
        (set_upper_half-elsewhere s.bf (b + 1) s.max_stack (b + 1 + 1) (omega arith) (omega arith)
          ∙ f₁)
        (low s.bf (b + 1) s.max_stack d g₃) (high s.bf (b + 1) s.max_stack d g₃) in
    let halves : c + d * 256 ≡ half = ground (arith, k₃) in
    let value : a₀ + a₁ * 256 + s.max_stack % 256 * 65536 + s.max_stack / 256 % 256 * 16777216
        ≡ n_args + s.max_stack % 65536 * 65536 =
      omega (arith, sum, empty, halves, no_low, no_high) in
    rw (file, o_is)
      (
        written ∙ ap ok value,
        λ p h₃ h₄. set_upper_half-elsewhere s.bf (b + 1) s.max_stack p (omega arith) (omega arith),
      )
