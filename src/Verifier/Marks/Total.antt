-- ===== src/Verifier/Marks/Total.antt =====
-- `collect_marks` ends on every file.
use lama_sm_interpreter.Prelude.{
  ℕ, zero, suc, ◌+◌, ◌≡◌, ◌≢◌, inl, inr, Bool-cases, ◌==◌, get_elem?, arith,
}
use lama_sm_interpreter.Result.{ok, err, out_of_fuel, >>=-eq-ok}
use lama_sm_interpreter.Word.{minus_one, found}
use lama_sm_interpreter.Bytefile.{Bytefile, get_public_offset, get_public_name}
use lama_sm_interpreter.Fuel.{
  Finishes, Finishes-bind, Finishes-ne, Finishes-found, Finishes-if, Finishes-get_public_offset,
  Finishes-get_public_name,
}
use lama_sm_interpreter.Verifier.Marks.{
  Marks, mark, push_label, same_bytes, main_name, seed_at, seed, seeds, no_marks, collect_marks,
}
use lama_sm_interpreter.Verifier.Marks.Shrinks.{Smaller, push-Smaller}
use lama_sm_interpreter.Verifier.Marks.Seeds.{seed_at_cases}
use lama_sm_interpreter.Verifier.Marks.Shrinks.{unset-replicate}
use lama_sm_interpreter.Verifier.Marks.Ends.{drain-Finishes}

seed_at-Finishes : (o : ℕ) (m : Marks) → Finishes (seed_at o m)
unfolding seed_at
seed_at-Finishes o m =
    Finishes-bind (found (get_elem? m.visited o)) _ (Finishes-found (get_elem? m.visited o))
      λ v _. Finishes-if (v == minus_one) _ _ tt tt

Smaller-refl : (m : Marks) → Smaller m m
Smaller-refl m = omega arith

seed_at-Smaller : (o : ℕ) (m m' : Marks) → seed_at o m ≡ ok m' → Smaller m m'
unfolding push_label mark
seed_at-Smaller o m m' p = elim (seed_at_cases o m m' p) [
  | inl (unset_at, e) ↦ rw e (push-Smaller m o 0 unset_at (omega arith))
  | inr (s, k, e) ↦ rw e (Smaller-refl m)
]

seed-Ends :
    (bf : Bytefile) (i : ℕ) (m : Marks)
    → Finishes (seed bf i m) × ((m' : Marks) → seed bf i m ≡ ok m' → Smaller m m')
unfolding seed
seed-Ends bf i m = (
  Finishes-bind (get_public_offset bf i) _ (Finishes-get_public_offset bf i) (λ o _.
      Finishes-bind (get_public_name bf i) _ (Finishes-get_public_name bf i)
        (λ name _. Finishes-if (same_bytes name main_name) _ _ (seed_at-Finishes o m) tt)),
  λ m' p.
      let (o, e, p₁) = >>=-eq-ok (get_public_offset bf i) _ m' p in
      let (name, e₁, p₂) = >>=-eq-ok (get_public_name bf i) _ m' p₁ in
      elim (Bool-cases (same_bytes name main_name)) [
        | inl is_main ↦ seed_at-Smaller o m m' (rw is_main at p₂)
        | inr differs ↦ let e₂ : m ≡ m' = ground arith in rw (← e₂) (Smaller-refl m)
      ],
)

seeds-Ends :
    (bf : Bytefile) (i n : ℕ) (m : Marks)
    → Finishes (seeds bf i n m) × ((m' : Marks) → seeds bf i n m ≡ ok m' → Smaller m m')
unfolding seeds
seeds-Ends bf i zero m =
    let same : Smaller m m = omega arith in
    (tt, λ m' p. let e : m ≡ m' = ground arith in rw (← e) same)
seeds-Ends bf i (suc n) m =
    let (f, g) = seed-Ends bf i m in
    (
      Finishes-bind (seed bf i m) _ f (λ m₁ _. (seeds-Ends bf (i + 1) n m₁).0),
      λ m' p.
          let (m₁, e, q) = >>=-eq-ok (seed bf i m) _ m' p in
          let first = g m₁ e in let later = (seeds-Ends bf (i + 1) n m₁).1 m' q in omega arith,
    )

-- `collect_marks` ends on every file: with a unit of fuel for each byte of the code and one more,
-- its loops stop by themselves, with marks or with an exception.
pub collect_marks-ne-out_of_fuel : (bf : Bytefile) → collect_marks bf ≢ err out_of_fuel
unfolding collect_marks
collect_marks-ne-out_of_fuel bf =
    let (f, g) = seeds-Ends bf 0 bf.public_symbols_number (no_marks bf) in
    Finishes-ne (collect_marks bf) (
      Finishes-bind (seeds bf 0 bf.public_symbols_number (no_marks bf)) _ f λ m e.
        let sm = g m e in
        let n = unset-replicate bf.code_size in
        drain-Finishes (bf.code_size + 1) (bf.code_size + 1) bf m.visited m.labels (omega arith)
          (omega arith))
