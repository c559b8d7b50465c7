-- ===== src/Verifier/Marks/Exact.antt =====
-- `collect_marks` marks nothing else than what can be reached.
use lama_sm_interpreter.Prelude.{
  ℕ, zero, suc, ◌+◌, ◌<◌, ◌≤◌, ◌≡◌, ◌≢◌, ◌↔◌, inl, inr, refl, ap, sym, ◌∙◌, subst, List, [], ◌∷◌,
  set, get_elem?, some, true, ◌==◌, Bool-cases, arith,
}
use lama_sm_interpreter.Result.{ok, >>=-eq-ok}
use lama_sm_interpreter.Word.{minus_one, found}
use lama_sm_interpreter.Bytefile.{Bytefile, get_public_offset, get_public_name}
use lama_sm_interpreter.Verifier.Marks.{
  Marks, Round, breaks, goes_on, visit, walk, drain, main_name, same_bytes, seed, seeds, no_marks,
  collect_marks,
}
use lama_sm_interpreter.Verifier.Marks.Grows.{Marked}
use lama_sm_interpreter.Verifier.Marks.Seeds.{seed_at_cases, not-Marked-replicate}
use lama_sm_interpreter.Verifier.Marks.Paths.{Reach, start, collect_marks_sound}
use lama_sm_interpreter.Verifier.Marks.Honest.{Honest, HonestRound, push-Honest, visit-Honest}

same_bytes-eq : (a b : List ℕ) → same_bytes a b ≡ true → a ≡ b
unfolding same_bytes
same_bytes-eq [] [] h = refl
same_bytes-eq [] (y ∷ b) h = cc
same_bytes-eq (x ∷ a) [] h = cc
same_bytes-eq (x ∷ a) (y ∷ b) h = elim (Bool-cases (x == y)) [
  | inl e ↦
      let head : x ≡ y = ground (arith, e) in
      let tail = same_bytes-eq a b (rw e at h) in rw (head, tail) refl
  | inr d ↦ absurd (ground (arith, d))
]

module _ (bf : Bytefile) where
  walk-Honest :
      (fuel : ℕ) (m m' : Marks) (o s : ℕ)
      → walk fuel bf m o s ≡ ok m'
      → Reach bf o s
      → Honest bf m
      → Honest bf m'
  unfolding walk
  walk-Honest zero m m' o s p reach honest = cc
  walk-Honest (suc fuel) m m' o s p reach honest =
      let (r, e, q) = >>=-eq-ok (visit bf m o s) _ m' p in
      further r (λ m₁ nxt stack q next h. walk-Honest fuel m₁ m' nxt stack q next h)
        (visit-Honest bf m o s r honest reach e) q
    where
      further :
          (r : Round)
          → ((m₁ : Marks) (nxt stack : ℕ)
              → walk fuel bf m₁ nxt stack ≡ ok m'
              → Reach bf nxt stack
              → Honest bf m₁
              → Honest bf m')
          → HonestRound bf r
          → (elim r [ breaks m₁ ↦ ok m₁ | goes_on m₁ nxt stack ↦ walk fuel bf m₁ nxt stack ])
            ≡ ok m'
          → Honest bf m'
      further (breaks m₁) rest h q = let e : m₁ ≡ m' = ground arith in subst (Honest bf) e h
      further (goes_on m₁ nxt stack) rest (h, next) q = rest m₁ nxt stack q next h

  drain-Honest :
      (fuel rounds : ℕ) (visited labels w : List ℕ)
      → drain fuel rounds bf (record { visited = visited; labels = labels }) ≡ ok w
      → Honest bf (record { visited = visited; labels = labels })
      → (o s : ℕ) → Marked w o s
      → Reach bf o s
  unfolding drain
  drain-Honest zero rounds visited labels w p honest = cc
  drain-Honest (suc fuel) rounds visited [] w p honest =
      let e : visited ≡ w = ground arith in
      λ o s k. honest.reached o s (subst (λ v. Marked v o s) (sym e) k)
  drain-Honest (suc fuel) rounds visited (l ∷ labels) w p honest =
      let (t, e, q) = >>=-eq-ok (found (get_elem? visited l)) _ w p in
      let popped : Marks = record { visited = visited; labels = labels } in
      let (m', e', q') = >>=-eq-ok (walk rounds bf popped l t) _ w q in
      let (s', k) = honest.queued l (inl refl) in
      let same : s' ≡ t = ground (arith, k.entry, e) in
      let left : Honest bf popped = record {
        reached = honest.reached;
        queued = λ o p. honest.queued o (inr p);
      } in
      drain-Honest fuel rounds m'.visited m'.labels w q'
        (walk-Honest rounds popped m' l t e' (rw (← same) (honest.reached l s' k)) left)

  seed-Honest :
      (i : ℕ) (m m' : Marks)
      → i < bf.public_symbols_number
      → seed bf i m ≡ ok m'
      → Honest bf m
      → Honest bf m'
  unfolding seed
  seed-Honest i m m' lt p honest =
      let (o, e, p₁) = >>=-eq-ok (get_public_offset bf i) _ m' p in
      let (name, e₁, p₂) = >>=-eq-ok (get_public_name bf i) _ m' p₁ in
      elim (Bool-cases (same_bytes name main_name)) [
        | inl is_main ↦
            let named = same_bytes-eq name main_name is_main in
            let reach : Reach bf o 0 =
              start i (record { offset = e; name = e₁ ∙ ap ok named }) lt refl in
            elim (seed_at_cases o m m' (rw is_main at p₂)) [
              | inl (unset, k) ↦
                  subst (Honest bf) (sym k) (push-Honest bf m o 0 unset (omega arith) reach honest)
              | inr (s, old, k) ↦ subst (Honest bf) (sym k) honest
            ]
        | inr other ↦ let em : m ≡ m' = ground arith in subst (Honest bf) em honest
      ]

  seeds-Honest :
      (i n : ℕ) (m m' : Marks)
      → i + n ≤ bf.public_symbols_number
      → seeds bf i n m ≡ ok m'
      → Honest bf m
      → Honest bf m'
  unfolding seeds
  seeds-Honest i zero m m' le p honest = let e : m ≡ m' = ground arith in subst (Honest bf) e honest
  seeds-Honest i (suc n) m m' le p honest =
      let (m₁, e, q) = >>=-eq-ok (seed bf i m) _ m' p in
      seeds-Honest (i + 1) n m₁ m' (omega arith) q (seed-Honest i m m₁ (omega arith) e honest)

  no_marks-Honest : Honest bf (no_marks bf)
  no_marks-Honest = record {
    reached = λ o s k. absurd (not-Marked-replicate bf.code_size o s k);
    queued = λ o h. elim h [ ];
  }

-- Where `collect_marks` succeeds, `visited` holds at an offset a number of operands, which is not the
-- -1 of an offset that was not visited, if and only if the offset can be reached with that number from
-- a public symbol `main` by going on to the next instruction, by jumps and by CALL, but not through a
-- CLOSURE or a CALLC into the body of a closure, where `get_new_stack` counts the operands.
pub collect_marks-Reach :
    (bf : Bytefile) (w : List ℕ) (o s : ℕ)
    → collect_marks bf ≡ ok w
    → s ≢ minus_one
    → (get_elem? w o ≡ some s) ↔ Reach bf o s
unfolding collect_marks
collect_marks-Reach bf w o s p set =
    let (m, e, q) = >>=-eq-ok (seeds bf 0 bf.public_symbols_number (no_marks bf)) _ w p in
    let honest =
      seeds-Honest bf 0 bf.public_symbols_number (no_marks bf) m (omega arith) e
        (no_marks-Honest bf) in
    (
      λ entry.
          drain-Honest bf (bf.code_size + 1) (bf.code_size + 1) m.visited m.labels w q honest o s
            (record { entry = entry; set_before = set }),
      λ r. (collect_marks_sound bf w o s p r).0,
    )
