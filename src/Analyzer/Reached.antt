-- ===== src/Analyzer/Reached.antt =====
-- What the analyzer collects: the instructions that control reaches from a public symbol.
pub mod Exact
use lama_sm_interpreter.Prelude.{
  ℕ, zero, suc, ◌+◌, ◌≤◌, ◌<◌, ◌≡◌, refl, sym, ap, ◌∙◌, ◌⊎◌, ◌↔◌, inl, inr, Bool, true, false, List,
  [], ◌∷◌, ◌++◌, arith, Bool-cases, if◌then◌else◌, subst, replicate,
}
use mathlib.Core.Logic.{⊎_elim}
use lama_sm_interpreter.Result.{Result, ok, >>=-eq-ok, ◌>>=◌}
use lama_sm_interpreter.Bytefile.{Bytefile, get_public_offset}
use lama_sm_interpreter.Instruction.{InstructionType}
use lama_sm_interpreter.Byterun.{general_byterun}
use lama_sm_interpreter.Analyzer.{
  Analyzer, test_flag, set_flag, add_instruction, check_label, process_instruction, process_round,
  process_from, process_label, process_labels, start_labels, traverse_code, collect_flags, analyze,
}
use lama_sm_interpreter.Analyzer.Flagged.{
  times, flagged, times-append, flagged-le-one, Same, set_flag-Same,
}
use lama_sm_interpreter.Analyzer.Others.{collect_flags-Same}
use lama_sm_interpreter.Analyzer.Traversal.{next, Keeps, process_round-Keeps, check_label-Keeps}
use lama_sm_interpreter.Analyzer.Once.{analyze-once, flagged-replicate}
use lama_sm_interpreter.Analyzer.Targets.{Target, Adds, check_label-Adds, process_instruction-Adds}

-- Control can go from the instruction at `o` to `o'`.
pub record Leads (bf : Bytefile) (o o' : ℕ) : Type 0 where
  pub nxt : ℕ
  pub ty : InstructionType
  pub decodes : general_byterun bf o ≡ ok (nxt, ty)
  pub target : Target bf o nxt ty o'

-- The offsets that control reaches from the public symbols.
pub data Reached (bf : Bytefile) : ℕ → Type 0 where
  symbol :
      {o : ℕ} (i : ℕ) → get_public_offset bf i ≡ ok o → i < bf.public_symbols_number → Reached bf o
  further : {o o' : ℕ} → Reached bf o → Leads bf o o' → Reached bf o'

-- The traversal, with the first `n` symbols seen, at the offsets `cur`.
pub record Inv (bf : Bytefile) (n : ℕ) (cur : List ℕ) (a : Analyzer) : Type 0 where
  pub symbols : (i o : ℕ) → get_public_offset bf i ≡ ok o → i < n → flagged a.visited o ≡ 1
  pub account :
      (x : ℕ) → times x a.collect_single + times x a.labels + times x cur ≡ flagged a.visited x
  pub sound : (x : ℕ) → flagged a.visited x ≡ 1 → Reached bf x
  pub closed : (x y : ℕ) → 1 ≤ times x a.collect_single → Leads bf x y → flagged a.visited y ≡ 1

module _ (bf : Bytefile) where
  -- A round flags what its instruction leads to, and collects the instruction.
  record Rounds (cur nxt : ℕ) (ty : InstructionType) (a a' : Analyzer) : Type 0 where
    decodes : general_byterun bf cur ≡ ok (nxt, ty)
    keeps : (x : ℕ) → flagged a.visited x ≡ 1 → flagged a'.visited x ≡ 1
    puts : (x : ℕ) → Target bf cur nxt ty x → flagged a'.visited x ≡ 1
    only : (x : ℕ) → flagged a'.visited x ≡ 1 → (flagged a.visited x ≡ 1) ⊎ Target bf cur nxt ty x
    collected : a'.collect_single ≡ a.collect_single ++ cur ∷ []

  collect-Rounds :
      (cur nxt : ℕ) (ty : InstructionType) (a a' : Analyzer) (is_label : Bool)
      → general_byterun bf cur ≡ ok (nxt, ty)
      → Adds
          (Target bf cur nxt ty)
          (add_instruction (if is_label then record a { prev_initialized = false } else a) cur)
          a'
      → Rounds cur nxt ty a a'
  unfolding add_instruction
  collect-Rounds cur nxt ty a a' true e p = record {
    decodes = e;
    keeps = p.keeps;
    puts = p.puts;
    only = p.only;
    collected = p.collected;
  }
  collect-Rounds cur nxt ty a a' false e p = record {
    decodes = e;
    keeps = p.keeps;
    puts = p.puts;
    only = p.only;
    collected = p.collected;
  }

  process_round-Rounds :
      (a a' : Analyzer) (cur nxt : ℕ) (traverse : Bool)
      → process_round bf a cur ≡ ok (traverse, a', nxt)
      → (ty : InstructionType) × Rounds cur nxt ty a a'
  unfolding process_round
  process_round-Rounds a a' cur nxt traverse h =
      let ((n, ty), e, k) = >>=-eq-ok (general_byterun bf cur) _ (traverse, a', nxt) h in
      let (is_label, e', k') = >>=-eq-ok (test_flag a.visited cur 2) _ (traverse, a', nxt) k in
      let (r, e'', k'') =
        >>=-eq-ok
          (process_instruction bf
            (add_instruction (if is_label then record a { prev_initialized = false } else a) cur)
            cur n ty)
          _ (traverse, a', nxt) k' in
      let same : r ≡ (traverse, a') = ground (arith, k'') in
      let to : n ≡ nxt = ground (arith, k'') in
      let adds = process_instruction-Adds bf cur nxt _ a' traverse ty (rw (same, to) at e'') in
      (
        ty,
        collect-Rounds cur nxt ty a a' is_label
            (subst (λ m. general_byterun bf cur ≡ ok (m, ty)) to e) adds,
      )

  same-Target :
      (cur nxt y : ℕ) (ty : InstructionType)
      → general_byterun bf cur ≡ ok (nxt, ty)
      → Leads bf cur y
      → Target bf cur nxt ty y
  same-Target cur nxt y ty e l =
      let one : ◌≡◌ {A = Result (ℕ × InstructionType)} (ok (nxt, ty)) (ok (l.nxt, l.ty)) =
        sym e ∙ l.decodes in
      let en : l.nxt ≡ nxt = ground arith in
      let et : l.ty ≡ ty = ground arith in
      subst (λ n. Target bf cur n ty y) en (subst (λ t. Target bf cur l.nxt t y) et l.target)

  collected_before :
      (x cur : ℕ) (xs : List ℕ) → 1 ≤ times x (xs ++ cur ∷ []) → (1 ≤ times x xs) ⊎ (x ≡ cur)
  unfolding times
  collected_before x cur xs h = ground (arith, times-append x xs (cur ∷ []))

  at_current : (n cur : ℕ) (a : Analyzer) → Inv bf n (cur ∷ []) a → flagged a.visited cur ≡ 1
  unfolding times
  at_current n cur a v = ground (arith, v.account cur, flagged-le-one a.visited cur)

  process_round-Inv :
      (n : ℕ) (a a' : Analyzer) (cur nxt : ℕ) (traverse : Bool)
      → process_round bf a cur ≡ ok (traverse, a', nxt)
      → Inv bf n (cur ∷ []) a
      → Inv bf n (next traverse nxt) a'
  process_round-Inv n a a' cur nxt traverse h v =
      let (ty, r) = process_round-Rounds a a' cur nxt traverse h in
      let (keeps, _) = process_round-Keeps bf a a' cur nxt traverse h in
      let here = v.sound cur (at_current n cur a v) in
      record {
        symbols = λ i o e lt. r.keeps o (v.symbols i o e lt);
        account = λ x. omega (arith, keeps.each x, v.account x);
        sound = λ x f.
            ⊎_elim (v.sound x)
              (λ t. further here (record { nxt = nxt; ty = ty; decodes = r.decodes; target = t }))
              (r.only x f);
        closed = λ x y c l.
            ⊎_elim (λ was. r.keeps y (v.closed x y was l))
              (λ e. r.puts y (same-Target cur nxt y ty r.decodes (subst (λ z. Leads bf z y) e l)))
              (collected_before x cur a.collect_single
                (subst (λ xs. 1 ≤ times x xs) r.collected c));
      }

  pub process_from-Inv :
      (fuel n : ℕ) (a a' : Analyzer) (cur : ℕ)
      → process_from fuel bf a cur ≡ ok a'
      → Inv bf n (cur ∷ []) a
      → Inv bf n [] a'
  unfolding process_from
  process_from-Inv zero n a a' cur h v = cc
  process_from-Inv (suc fuel) n a a' cur h v =
      let ((traverse, a₁, nxt), e, k) = >>=-eq-ok (process_round bf a cur) _ a' h in
      let v₁ = process_round-Inv n a a₁ cur nxt traverse e v in
      elim (Bool-cases traverse) [
        | inl goes ↦
            process_from-Inv fuel n a₁ a' nxt (rw goes at k)
              (subst (λ t. Inv bf n (next t nxt) a₁) goes v₁)
        | inr stops ↦
            let last : ◌≡◌ {A = Result Analyzer} (ok a₁) (ok a') = rw stops at k in
            let same : a₁ ≡ a' = ground arith in
            subst (Inv bf n []) same (subst (λ t. Inv bf n (next t nxt) a₁) stops v₁)
      ]
