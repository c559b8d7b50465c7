-- ===== src/Verifier/Scan/Keeps.antt =====
-- What `verify` leaves as it is.
use lama_sm_interpreter.Prelude.{
  ℕ, zero, suc, ◌+◌, ◌%◌, ◌/◌, ◌<◌, ◌≡◌, refl, ap, ◌∙◌, List, [], length, length-set, get_elem?,
  get_elem?-set_ne, set, arith, if◌then◌else◌, ltb, ◌==◌, Bool-cases, inl, inr,
}
use lama_sm_interpreter.Result.{Result, ok, >>=-eq-ok}
use lama_sm_interpreter.Word.{minus_one, found}
use lama_sm_interpreter.Word.Signed.{max_s32}
use lama_sm_interpreter.Bytefile.{Bytefile, code_byte, read_file}
use lama_sm_interpreter.Bytefile.Bounds.{IsUnpacked, read_file-IsUnpacked}
use lama_sm_interpreter.Instruction.{
  InstructionType, jmp, end, ld, lda, st, cjmp_z, cjmp_nz, begin, cbegin, closure, call,
}
use lama_sm_interpreter.Byterun.{general_byterun}
use lama_sm_interpreter.Verifier.Marks.{collect_marks}
use lama_sm_interpreter.Verifier.Scan.{
  Scan, last_begin, upper_half, set_upper_half, scan_end, scan_variable, scan_closure, scan_jump,
  scan_instruction, scan_marked, scan, verify,
}

-- The same sizes, and the same bytes in front of the code.
pub record Keeps (bf bf' : Bytefile) : Type 0 where
  pub same_size : length bf'.buffer ≡ length bf.buffer
  pub same_fields : record bf { buffer = bf'.buffer } ≡ bf'
  pub same_tables : (p : ℕ) → p < bf.code_ptr → get_elem? bf'.buffer p ≡ get_elem? bf.buffer p

Keeps-refl : (bf : Bytefile) → Keeps bf bf
Keeps-refl bf = record { same_size = refl; same_fields = refl; same_tables = λ p lt. refl }

Keeps-trans : {a b c : Bytefile} → Keeps a b → Keeps b c → Keeps a c
Keeps-trans {a} {b} {c} k l =
    let ptr : a.code_ptr ≡ b.code_ptr = ap (λ (x : Bytefile). x.code_ptr) k.same_fields in
    record {
      same_size = l.same_size ∙ k.same_size;
      same_fields =
          ap (λ (x : Bytefile). record x { buffer = c.buffer }) k.same_fields ∙ l.same_fields;
      same_tables = λ p lt. l.same_tables p (omega (arith, ptr, lt)) ∙ k.same_tables p lt;
    }

set_upper_half-Keeps : (bf : Bytefile) (i v : ℕ) → Keeps bf (set_upper_half bf i v)
unfolding set_upper_half
set_upper_half-Keeps bf i v = record {
  same_size =
      length-set (set bf.buffer (bf.code_ptr + (i + 2)) (v % 256)) (bf.code_ptr + (i + 3))
        (v / 256 % 256)
      ∙ length-set bf.buffer (bf.code_ptr + (i + 2)) (v % 256);
  same_fields = refl;
  same_tables = λ p lt.
      get_elem?-set_ne (set bf.buffer (bf.code_ptr + (i + 2)) (v % 256)) (bf.code_ptr + (i + 3)) p
        (v / 256 % 256) (omega (arith, lt))
      ∙ get_elem?-set_ne bf.buffer (bf.code_ptr + (i + 2)) p (v % 256) (omega (arith, lt));
}

scan_end-Keeps : (s s' : Scan) → scan_end s ≡ ok s' → Keeps s.bf s'.bf
unfolding scan_end
scan_end-Keeps s s' h =
    let (o, e₀, k₀) = >>=-eq-ok (last_begin s.begin_offsets) _ s' h in
    let (half, e₁, k₁) = >>=-eq-ok (upper_half s.bf (o + 1)) _ s' k₀ in
    let file : s'.bf ≡ set_upper_half s.bf (o + 1) s.max_stack = ground (arith, k₁) in
    rw file (set_upper_half-Keeps s.bf (o + 1) s.max_stack)

same-Keeps : (s s' : Scan) → s' ≡ s → Keeps s.bf s'.bf
same-Keeps s s' e = rw e (Keeps-refl s.bf)

scan_instruction-Keeps :
    (ty : InstructionType) (s s' : Scan) → scan_instruction ty s ≡ ok s' → Keeps s.bf s'.bf
unfolding scan_instruction scan_variable scan_closure scan_jump
scan_instruction-Keeps end s s' h = scan_end-Keeps s s' h
scan_instruction-Keeps begin s s' h =
    let file : s'.bf ≡ s.bf = ground arith in rw file (Keeps-refl s.bf)
scan_instruction-Keeps cbegin s s' h =
    let file : s'.bf ≡ s.bf = ground arith in rw file (Keeps-refl s.bf)
scan_instruction-Keeps ld s s' h = same-Keeps s s' (ground arith)
scan_instruction-Keeps st s s' h = same-Keeps s s' (ground arith)
scan_instruction-Keeps lda s s' h = same-Keeps s s' (ground arith)
scan_instruction-Keeps closure s s' h = same-Keeps s s' (ground arith)
scan_instruction-Keeps call s s' h = same-Keeps s s' (ground arith)
scan_instruction-Keeps jmp s s' h = same-Keeps s s' (ground arith)
scan_instruction-Keeps cjmp_z s s' h = same-Keeps s s' (ground arith)
scan_instruction-Keeps cjmp_nz s s' h = same-Keeps s s' (ground arith)
scan_instruction-Keeps _ s s' h = same-Keeps s s' (ground arith)

scan_marked-Keeps :
    (visited : List ℕ) (s s' : Scan) → scan_marked visited s ≡ ok s' → Keeps s.bf s'.bf
unfolding scan_marked
scan_marked-Keeps visited s s' h =
    let ((nxt, ty), e₀, k₀) = >>=-eq-ok (general_byterun s.bf s.symbol_offset) _ s' h in
    let (mark, e₁, k₁) = >>=-eq-ok (found (get_elem? visited s.symbol_offset)) _ s' k₀ in
    let (s₁, e₂, k₂) =
      >>=-eq-ok
        (if mark == minus_one
          then ok s
          else scan_instruction ty (record s { max_stack = max_s32 s.max_stack mark }))
        _ s' k₁ in
    let file : s'.bf ≡ s₁.bf = ground (arith, k₂) in
    elim (Bool-cases (mark == minus_one)) [
      | inl unmarked ↦
          let kept : ◌≡◌ {A = Result Scan} (ok s) (ok s₁) = rw unmarked at e₂ in
          let same : s₁.bf ≡ s.bf = ground arith in rw (file, same) (Keeps-refl s.bf)
      | inr marked ↦ rw file (
          scan_instruction-Keeps ty (record s { max_stack = max_s32 s.max_stack mark }) s₁
            (rw marked at e₂))
    ]

scan-Keeps :
    (fuel : ℕ) (visited : List ℕ) (s : Scan) (bf : Bytefile)
    → scan fuel visited s ≡ ok bf
    → Keeps s.bf bf
unfolding scan
scan-Keeps zero visited s bf h = cc
scan-Keeps (suc fuel) visited s bf h = elim (Bool-cases (ltb s.symbol_offset s.bf.code_size)) [
  | inl inside ↦
      let (c, e, k) = >>=-eq-ok (code_byte s.bf s.symbol_offset) _ bf (rw inside at h) in
      elim (Bool-cases (c == 0xff)) [
        | inl at_end ↦
            let kept : ◌≡◌ {A = Result Bytefile} (ok s.bf) (ok bf) = rw at_end at k in
            let same : bf ≡ s.bf = ground arith in rw same (Keeps-refl s.bf)
        | inr further ↦
            let (s₁, e₁, k₁) =
              >>=-eq-ok (scan_marked visited s) (scan fuel visited) bf (rw further at k) in
            Keeps-trans (scan_marked-Keeps visited s s₁ e₁) (scan-Keeps fuel visited s₁ bf k₁)
      ]
  | inr behind ↦
      let kept : ◌≡◌ {A = Result Bytefile} (ok s.bf) (ok bf) = rw behind at h in
      let same : bf ≡ s.bf = ground arith in rw same (Keeps-refl s.bf)
]

-- A file that was read and that `verify` accepts has marks from `collect_marks`, and keeps its sizes
-- and the bytes of its tables in front of the code; its code still ends where its bytes end.
pub verify-Keeps :
    (bytes : List ℕ) (bf verified : Bytefile) (fuel : ℕ)
    → read_file bytes ≡ ok bf
    → verify fuel bf ≡ ok verified
    → ((visited : List ℕ) × (collect_marks bf ≡ ok visited))
      × Keeps bf verified
      × IsUnpacked verified
unfolding verify
verify-Keeps bytes bf verified fuel read h =
    let (visited, e, k) = >>=-eq-ok (collect_marks bf) _ verified h in
    let keeps =
      scan-Keeps fuel visited
        (record { bf = bf; symbol_offset = 0; max_stack = 0; begin_offsets = [] }) verified k in
    let ptr : bf.code_ptr ≡ verified.code_ptr =
      ap (λ (x : Bytefile). x.code_ptr) keeps.same_fields in
    let size : bf.code_size ≡ verified.code_size =
      ap (λ (x : Bytefile). x.code_size) keeps.same_fields in
    (
      (visited, e),
      keeps,
      omega (arith, ptr, size, keeps.same_size, read_file-IsUnpacked bytes bf read),
    )
