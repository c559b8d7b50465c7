-- ===== src/Verifier/Marks/Seeds.antt =====
-- The loop over the public symbols at the start of `collect_marks`: it marks and queues `main`.
use lama_sm_interpreter.Prelude.{
  set, ℕ, zero, suc, ◌+◌, ◌<◌, ◌≤◌, ◌≡◌, ◌⊎◌, inl, inr, sym, subst, Bool-cases, List, get_elem?,
  replicate, none, some, arith, ℕ_discrete,
}
use lama_sm_interpreter.Result.{ok, >>=-eq-ok}
use lama_sm_interpreter.Word.{minus_one, found}
use lama_sm_interpreter.Bytefile.{Bytefile, get_public_offset, get_public_name}
use lama_sm_interpreter.Verifier.Marks.{
  Marks, mark, push_label, main_name, same_bytes, seed_at, seed, seeds, no_marks,
}
use lama_sm_interpreter.Verifier.Marks.Grows.{
  Pending, Marked, Grows, Grows-refl, Grows-trans, push-Grows, set-Marked, set-fresh,
}

-- Symbol `i` of the file is `main`, at offset `o`.
pub record IsMain (bf : Bytefile) (i o : ℕ) : Type 0 where
  pub offset : get_public_offset bf i ≡ ok o
  pub name : get_public_name bf i ≡ ok main_name

abbrev pub ZeroMarks : List ℕ → Type 0
ZeroMarks visited = (o s : ℕ) → Marked visited o s → s ≡ 0

pub record Seeded (m m' : Marks) : Type 0 where
  pub grows : Grows none m m'
  pub zeroes : ZeroMarks m.visited → ZeroMarks m'.visited

Seeded-refl : (m : Marks) → Seeded m m
Seeded-refl m = record { grows = Grows-refl m; zeroes = λ z. z }

Seeded-trans : (m₁ m₂ m₃ : Marks) → Seeded m₁ m₂ → Seeded m₂ m₃ → Seeded m₁ m₃
Seeded-trans m₁ m₂ m₃ a b = record {
  grows = Grows-trans none m₁ m₂ m₃ a.grows b.grows;
  zeroes = λ z. b.zeroes (a.zeroes z);
}

module _ (m : Marks) (o : ℕ) (unset : get_elem? m.visited o ≡ some minus_one) where
  new_mark-Seeded : Seeded m (push_label (mark m o 0) o)
  unfolding push_label mark
  new_mark-Seeded = record {
    grows = push-Grows m o 0 unset (omega arith);
    zeroes = λ z p s k. elim (set-fresh m.visited o 0 unset (omega arith) p s k) [
      | inl old ↦ z p s old
      | inr e ↦ ground (
        arith,
        k.entry,
        (subst (λ x. get_elem? (set m.visited o 0) x ≡ some 0) (sym e)
            (set-Marked m.visited o 0 unset (omega arith)).entry),
      )
    ];
  }

pub seed_at_cases :
    (o : ℕ) (m m' : Marks)
    → seed_at o m ≡ ok m'
    → (get_elem? m.visited o ≡ some minus_one) × (m' ≡ push_label (mark m o 0) o)
      ⊎ ((s : ℕ) × Marked m.visited o s × (m' ≡ m))
unfolding seed_at
seed_at_cases o m m' p =
    let (v, e, q) = >>=-eq-ok (found (get_elem? m.visited o)) _ m' p in
    let at_o : get_elem? m.visited o ≡ some v = ground arith in
    elim (ℕ_discrete v minus_one) [
      | yes same ↦ inl (ground arith, ground arith)
      | no new ↦ inr (v, record { entry = at_o; set_before = new }, ground arith)
    ]

seed_at-Seeded :
    (o : ℕ) (m m' : Marks) → seed_at o m ≡ ok m' → Seeded m m' × ((s : ℕ) × Marked m'.visited o s)
unfolding push_label mark
seed_at-Seeded o m m' p = elim (seed_at_cases o m m' p) [
  | inl (unset, e) ↦
      rw e (new_mark-Seeded m o unset, (0, set-Marked m.visited o 0 unset (omega arith)))
  | inr (s, k, e) ↦ rw e (Seeded-refl m, (s, k))
]

seed-Seeded :
    (bf : Bytefile) (i : ℕ) (m m' : Marks)
    → seed bf i m ≡ ok m'
    → Seeded m m' × ((o : ℕ) → IsMain bf i o → (s : ℕ) × Marked m'.visited o s)
unfolding seed
seed-Seeded bf i m m' p =
    let (o, e, p₁) = >>=-eq-ok (get_public_offset bf i) _ m' p in
    let (name, e₁, p₂) = >>=-eq-ok (get_public_name bf i) _ m' p₁ in
    elim (Bool-cases (same_bytes name main_name)) [
      | inl is_main ↦
          let (seeded, k) = seed_at-Seeded o m m' (rw is_main at p₂) in
          (
            seeded,
            λ o' h.
                let eo : o ≡ o' = ground (arith, h.offset) in
                subst (λ x. (s : ℕ) × Marked m'.visited x s) eo k,
          )
      | inr other ↦
          let em : m ≡ m' = ground arith in
          (subst (Seeded m) em (Seeded-refl m), λ o' h. absurd (ground (arith, h.name)))
    ]

pub seeds-Seeded :
    (bf : Bytefile) (i n : ℕ) (m m' : Marks)
    → seeds bf i n m ≡ ok m'
    → Seeded m m'
      × ((j o : ℕ) → IsMain bf j o → i ≤ j → j < i + n → (s : ℕ) × Marked m'.visited o s)
unfolding seeds
seeds-Seeded bf i zero m m' p =
    let e : m ≡ m' = ground arith in
    (subst (Seeded m) e (Seeded-refl m), λ j o h a b. absurd (omega arith))
seeds-Seeded bf i (suc n) m m' p =
    let (m₁, e, q) = >>=-eq-ok (seed bf i m) _ m' p in
    let (a, first) = seed-Seeded bf i m m₁ e in
    let (b, later) = seeds-Seeded bf (i + 1) n m₁ m' q in
    (
      Seeded-trans m m₁ m' a b,
      λ j o h low high. elim (ℕ_discrete i j) [
        | yes same ↦
            let (s, k) = first o (subst (λ x. IsMain bf x o) (sym same) h) in
            (s, b.grows.keeps o s k)
        | no differs ↦ later j o h (omega arith) (omega arith)
      ],
    )

pub not-Marked-replicate : (n o s : ℕ) → ¬ Marked (replicate n minus_one) o s
not-Marked-replicate zero o s k = cc (k.entry)
not-Marked-replicate (suc n) zero s k = k.set_before (ground (arith, k.entry))
not-Marked-replicate (suc n) (suc o) s k =
    not-Marked-replicate n o s (record { entry = k.entry; set_before = k.set_before })

-- Behind the loop every mark is 0 and queued, and `main` is marked.
pub record Start (bf : Bytefile) (m : Marks) : Type 0 where
  pub zero_marks : ZeroMarks m.visited
  pub queued : (o s : ℕ) → Marked m.visited o s → Pending o m.labels
  pub has_main : (j o : ℕ) → IsMain bf j o → j < bf.public_symbols_number → Marked m.visited o 0

pub seeds-Start :
    (bf : Bytefile) (m : Marks)
    → seeds bf 0 bf.public_symbols_number (no_marks bf) ≡ ok m
    → Start bf m
seeds-Start bf m p =
    let n = bf.public_symbols_number in
    let (seeded, mains) = seeds-Seeded bf 0 n (no_marks bf) m p in
    let zeroes = seeded.zeroes (λ o s k. absurd (not-Marked-replicate bf.code_size o s k)) in
    record {
      zero_marks = zeroes;
      queued = λ o s k. only_queued o s (seeded.grows.fresh o s k);
      has_main = λ j o h lt.
          let (s, k) = mains j o h (omega arith) (omega arith) in
          subst (λ x. Marked m.visited o x) (zeroes o s k) k;
    }
  where
    only_queued :
        (o s : ℕ)
        → Marked (no_marks bf).visited o s ⊎ Pending o m.labels ⊎ (none ≡ some o)
        → Pending o m.labels
    only_queued o s (inl k) = absurd (not-Marked-replicate bf.code_size o s k)
    only_queued o s (inr (inl h)) = h
    only_queued o s (inr (inr e)) = cc
