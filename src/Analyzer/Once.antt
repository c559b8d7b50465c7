-- ===== src/Analyzer/Once.antt =====
-- The analyzer collects each instruction that it meets exactly once.
use lama_sm_interpreter.Prelude.{
  ℕ, zero, suc, ◌+◌, ◌≤◌, false, ◌≡◌, refl, List, [], ◌∷◌, replicate, inl, arith,
}
use lama_sm_interpreter.Result.{ok, >>=-eq-ok, ◌>>=◌}
use lama_sm_interpreter.Bytefile.{Bytefile, get_public_offset}
use lama_sm_interpreter.Analyzer.{
  Analyzer, set_flag, check_label, process_label, process_labels, start_labels, traverse_code,
  collect_flags, analyze,
}
use lama_sm_interpreter.Analyzer.Flagged.{times, flagged, flagged-le-one, set_flag-Same}
use lama_sm_interpreter.Analyzer.Others.{collect_flags-Same}
use lama_sm_interpreter.Analyzer.Traversal.{check_label-Keeps, process_from-Keeps}

-- The offsets that were met are those collected and those in the queue.
abbrev pub Accounts : Analyzer → Type 0
Accounts a = (x : ℕ) → times x a.collect_single + times x a.labels ≡ flagged a.visited x

process_label-Accounts :
    (fuel : ℕ) (bf : Bytefile) (a a' : Analyzer) (label : ℕ) (labels : List ℕ)
    → a.labels ≡ label ∷ labels
    → process_label fuel bf (record a { labels = labels }) label ≡ ok a'
    → Accounts a
    → Accounts a'
unfolding process_label times
process_label-Accounts fuel bf a a' label labels e h account x =
    let popped : Analyzer = record a { labels = labels; prev_initialized = false } in
    let (keeps, more) = process_from-Keeps fuel bf popped a' label h in
    let was : times x a.collect_single + times x (label ∷ labels) ≡ flagged a.visited x =
      rw e at (account x) in
    omega (arith, keeps.each x, was)

process_labels-Accounts :
    (fuel : ℕ) (bf : Bytefile) (a a' : Analyzer)
    → process_labels fuel bf a ≡ ok a'
    → Accounts a
    → (x : ℕ) → times x a'.collect_single ≡ flagged a'.visited x
unfolding process_labels times
process_labels-Accounts zero bf a a' h account x = cc
process_labels-Accounts (suc fuel) bf a a' h account x =
    go a.labels refl h (λ a₁ k account₁. process_labels-Accounts fuel bf a₁ a' k account₁ x)
  where
    go :
        (queue : List ℕ)
        → a.labels ≡ queue
        → (elim queue [
          | [] ↦ ok a
          | label ∷ labels ↦ do
            a' ← process_label (bf.code_size + 1) bf (record a { labels = labels }) label
            process_labels fuel bf a'
        ])
          ≡ ok a'
        → ((a₁ : Analyzer)
            → process_labels fuel bf a₁ ≡ ok a'
            → Accounts a₁
            → times x a'.collect_single ≡ flagged a'.visited x)
        → times x a'.collect_single ≡ flagged a'.visited x
    go [] e k later =
        let same : a ≡ a' = ground arith in
        let was : times x a.collect_single + 0 ≡ flagged a.visited x = rw e at (account x) in
        rw (← same) (omega (arith, was))
    go (label ∷ labels) e k later =
        let (a₁, e', k') =
          >>=-eq-ok (process_label (bf.code_size + 1) bf (record a { labels = labels }) label) _ a'
            k in
        later a₁ k' (process_label-Accounts (bf.code_size + 1) bf a a₁ label labels e e' account)

start_labels-Accounts :
    (bf : Bytefile) (i n : ℕ) (a a' : Analyzer)
    → start_labels bf i n a ≡ ok a'
    → Accounts a
    → Accounts a'
unfolding start_labels times
start_labels-Accounts bf i zero a a' h account =
    let same : a ≡ a' = ground arith in rw same at account
start_labels-Accounts bf i (suc n) a a' h account =
    let (o, e, k) = >>=-eq-ok (get_public_offset bf i) _ a' h in
    let (a₁, e₁, k₁) = >>=-eq-ok (check_label a o) _ a' k in
    let (visited, e₂, k₂) = >>=-eq-ok (set_flag a₁.visited o 2) _ a' k₁ in
    let keeps = check_label-Keeps [] a a₁ o e₁ in
    let same = set_flag-Same a₁.visited visited o 2 (inl refl) e₂ in
    start_labels-Accounts bf (i + 1) n (record a₁ { visited = visited }) a' k₂
      (λ x. omega (arith, keeps.each x, same.flags x, account x))

pub flagged-replicate : (n x : ℕ) → flagged (replicate n 0) x ≡ 0
unfolding flagged
flagged-replicate zero x = refl
flagged-replicate (suc n) zero = refl
flagged-replicate (suc n) (suc x) = flagged-replicate n x

-- Where the analyzer goes through the code without an exception, it collects each offset at most
-- once, and exactly the offsets whose flag 1 it has set.
pub analyze-once :
    (bf : Bytefile) (a : Analyzer)
    → analyze bf ≡ ok a
    → (x : ℕ) → (times x a.collect_single ≡ flagged a.visited x) × (times x a.collect_single ≤ 1)
unfolding analyze traverse_code times
analyze-once bf a h x =
    let (visited, e, k) = >>=-eq-ok (collect_flags bf (replicate bf.code_size 0)) _ a h in
    let same = collect_flags-Same bf (replicate bf.code_size 0) visited e in
    let new : Analyzer = record {
      collect_single = [];
      collect_pairs = [];
      prev_ptr = 0;
      prev_initialized = false;
      visited = visited;
      labels = [];
    } in
    let (a₁, e₁, k₁) = >>=-eq-ok (start_labels bf 0 bf.public_symbols_number new) _ a k in
    let fresh : Accounts new = λ y. omega (arith, same.flags y, flagged-replicate bf.code_size y) in
    let account = start_labels-Accounts bf 0 bf.public_symbols_number new a₁ e₁ fresh in
    let once = process_labels-Accounts (bf.code_size + 1) bf a₁ a k₁ account x in
    (once, omega (arith, once, flagged-le-one a.visited x))
