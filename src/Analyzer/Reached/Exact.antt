-- ===== src/Analyzer/Reached/Exact.antt =====
-- The traversal of `analyze` collects exactly the instructions that control reaches.
use lama_sm_interpreter.Prelude.{
  ℕ, zero, suc, ◌+◌, ◌≤◌, ◌<◌, ◌≡◌, refl, sym, ◌∙◌, ◌⊎◌, ◌↔◌, inl, inr, false, List, [], ◌∷◌, arith,
  subst, replicate,
}
use mathlib.Core.Logic.{⊎_elim}
use lama_sm_interpreter.Result.{ok, >>=-eq-ok, ◌>>=◌}
use lama_sm_interpreter.Bytefile.{Bytefile, get_public_offset}
use lama_sm_interpreter.Analyzer.{
  Analyzer, set_flag, check_label, process_label, process_labels, start_labels, traverse_code,
  collect_flags, analyze,
}
use lama_sm_interpreter.Analyzer.Flagged.{times, flagged, set_flag-Same}
use lama_sm_interpreter.Analyzer.Others.{collect_flags-Same}
use lama_sm_interpreter.Analyzer.Traversal.{check_label-Keeps}
use lama_sm_interpreter.Analyzer.Once.{analyze-once, flagged-replicate}
use lama_sm_interpreter.Analyzer.Targets.{check_label-Adds}
use lama_sm_interpreter.Analyzer.Reached.{Reached, symbol, further, Inv, process_from-Inv}

le_cases : (j i : ℕ) → j < i + 1 → (j < i) ⊎ (j ≡ i)
le_cases j i h = ground arith

module _ (bf : Bytefile) where
  -- The symbols before `i`, and `i`.
  symbol_seen :
      (i j o x : ℕ) (v v' : List ℕ)
      → get_public_offset bf i ≡ ok o
      → get_public_offset bf j ≡ ok x
      → j < i + 1
      → ((k y : ℕ) → get_public_offset bf k ≡ ok y → k < i → flagged v y ≡ 1)
      → ((y : ℕ) → flagged v y ≡ 1 → flagged v' y ≡ 1)
      → ((y : ℕ) → y ≡ o → flagged v' y ≡ 1)
      → flagged v' x ≡ 1
  symbol_seen i j o x v v' e g lt before keeps puts = elim (le_cases j i lt) [
    | inl less ↦ keeps x (before j x g less)
    | inr same ↦
        let g' : get_public_offset bf i ≡ ok x =
          subst (λ k. get_public_offset bf k ≡ ok x) same g in
        puts x (ground arith)
  ]

  process_labels-Inv :
      (fuel n : ℕ) (a a' : Analyzer)
      → process_labels fuel bf a ≡ ok a'
      → Inv bf n [] a
      → Inv bf n [] a'
  unfolding process_labels process_label times
  process_labels-Inv zero n a a' h v = cc
  process_labels-Inv (suc fuel) n a a' h v =
      go a.labels refl h (λ a₁ k v₁. process_labels-Inv fuel n a₁ a' k v₁)
    where
      go :
          (queue : List ℕ)
          → a.labels ≡ queue
          → (elim queue [
            | [] ↦ ok a
            | label ∷ labels ↦ do
              a' ← process_label (bf.code_size + 1) bf (record a { labels = labels }) label
              process_labels fuel bf a'
          ])
            ≡ ok a'
          → ((a₁ : Analyzer) → process_labels fuel bf a₁ ≡ ok a' → Inv bf n [] a₁ → Inv bf n [] a')
          → Inv bf n [] a'
      go [] e k later = let same : a ≡ a' = ground arith in subst (Inv bf n []) same v
      go (label ∷ labels) e k later =
          let (a₁, e', k') =
            >>=-eq-ok (process_label (bf.code_size + 1) bf (record a { labels = labels }) label) _
              a' k in
          let was = λ (x : ℕ).
            subst (λ l. times x a.collect_single + times x l + 0 ≡ flagged a.visited x) e
              (v.account x) in
          later a₁ k' (
            process_from-Inv bf (bf.code_size + 1) n _ a₁ label e' (record {
              symbols = v.symbols;
              account = λ x. omega (arith, was x);
              sound = v.sound;
              closed = v.closed;
            }))

  start_labels-Inv :
      (i n : ℕ) (a a' : Analyzer)
      → start_labels bf i n a ≡ ok a'
      → i + n ≡ bf.public_symbols_number
      → Inv bf i [] a
      → Inv bf bf.public_symbols_number [] a'
  unfolding start_labels
  start_labels-Inv i zero a a' h left v =
      let same : a ≡ a' = ground arith in
      let all : i ≡ bf.public_symbols_number = omega arith in
      subst (λ m. Inv bf m [] a') all (subst (Inv bf i []) same v)
  start_labels-Inv i (suc n) a a' h left v =
      let (o, e, k) = >>=-eq-ok (get_public_offset bf i) _ a' h in
      let (a₁, e₁, k₁) = >>=-eq-ok (check_label a o) _ a' k in
      let (visited, e₂, k₂) = >>=-eq-ok (set_flag a₁.visited o 2) _ a' k₁ in
      let p = check_label-Adds a a₁ o e₁ in
      let keeps = check_label-Keeps [] a a₁ o e₁ in
      let same = set_flag-Same a₁.visited visited o 2 (inl refl) e₂ in
      start_labels-Inv (i + 1) n (record a₁ { visited = visited }) a' k₂ (omega arith)
        (record {
          symbols = λ j x g lt.
              same.flags x
              ∙ symbol_seen i j o x a.visited a₁.visited e g lt v.symbols p.keeps p.puts;
          account = λ x. omega (arith, keeps.each x, same.flags x, v.account x);
          sound = λ x f.
              ⊎_elim (v.sound x) (λ at_o. symbol i (rw at_o e) (omega arith))
                (p.only x (sym (same.flags x) ∙ f));
          closed = λ x y c l.
              same.flags y
              ∙ p.keeps y (v.closed x y (subst (λ xs. 1 ≤ times x xs) p.collected c) l);
        })

-- Once all flagged instructions are collected.
Reached-flagged :
    (bf : Bytefile) (a : Analyzer)
    → Inv bf bf.public_symbols_number [] a
    → ((x : ℕ) → times x a.collect_single ≡ flagged a.visited x)
    → (x : ℕ) → Reached bf x
    → flagged a.visited x ≡ 1
Reached-flagged bf a v once x (symbol i e lt) = v.symbols i x e lt
Reached-flagged bf a v once x (further {o = o} r l) =
    v.closed o x (omega (arith, once o, Reached-flagged bf a v once o r)) l

-- Where the analyzer goes through the code without an exception, an instruction is collected, once,
-- exactly if control reaches its offset from a public symbol, where control goes on behind a call
-- and to the body of each closure that is made.
pub analyze-Reached :
    (bf : Bytefile) (a : Analyzer)
    → analyze bf ≡ ok a
    → (x : ℕ) → (times x a.collect_single ≡ 1) ↔ Reached bf x
unfolding analyze traverse_code times
analyze-Reached bf a h x =
    let (visited, e, k) = >>=-eq-ok (collect_flags bf (replicate bf.code_size 0)) _ a h in
    let same = collect_flags-Same bf (replicate bf.code_size 0) visited e in
    let new : Analyzer = record {
      collect_single = [];
      collect_pairs = [];
      prev_ptr = 0;
      prev_initialized = false;
      visited = visited;
      labels = [];
    } in
    let (a₁, e₁, k₁) = >>=-eq-ok (start_labels bf 0 bf.public_symbols_number new) _ a k in
    let none_seen = λ (y : ℕ). same.flags y ∙ flagged-replicate bf.code_size y in
    let fresh : Inv bf 0 [] new = record {
      symbols = λ i o g lt. absurd (omega arith);
      account = λ y. omega (arith, none_seen y);
      sound = λ y f. absurd (omega (arith, none_seen y));
      closed = λ y z c l. absurd (omega arith);
    } in
    let started = start_labels-Inv bf 0 bf.public_symbols_number new a₁ e₁ (omega arith) fresh in
    let v = process_labels-Inv bf (bf.code_size + 1) bf.public_symbols_number a₁ a k₁ started in
    let once = λ (y : ℕ). (analyze-once bf a h y).0 in
    (λ c. v.sound x (omega (arith, once x)), λ r. once x ∙ Reached-flagged bf a v once x r)
