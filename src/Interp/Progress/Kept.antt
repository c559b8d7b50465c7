-- ===== src/Interp/Progress/Kept.antt =====
-- What an instruction keeps: rounds one after the other, and the changes of a state that keep it.
use lama_sm_interpreter.Prelude.{ℕ, ◌≤◌, ◌≡◌, refl, ◌∙◌, arith}
use lama_sm_interpreter.Machine.{State, update}
use lama_sm_interpreter.Interp.Progress.{Keeps}

pub Keeps-trans :
    {W : Type 0} {n_args : ℕ} {s t u : State W}
    → t.bf ≡ s.bf
    → t.stack_data ≡ s.stack_data
    → t.fp ≡ s.fp
    → Keeps n_args s t
    → Keeps n_args t u
    → Keeps n_args s u
Keeps-trans eb ed e k l = record {
  counter = l.counter ∙ k.counter;
  sizes = l.sizes ∙ k.sizes;
  start = l.start ∙ k.start;
  words = λ p a b. l.words p (omega arith) (omega arith) ∙ k.words p a b;
  above = λ p a b. l.above p (omega arith) (rw (eb, ed, k.counter) b) ∙ k.above p a b;
}

pub Keeps-refl : {W : Type 0} (n_args : ℕ) (s : State W) → Keeps n_args s s
Keeps-refl n_args s = record {
  counter = refl;
  sizes = refl;
  start = refl;
  words = λ p a b. refl;
  above = λ p a b. refl;
}

module _ {W : Type 0} (n_args : ℕ) (s : State W) (code_ptr top : ℕ) where
  -- It moves in the code and on the stack.
  pub moved-Keeps : Keeps n_args s (record s { code_ptr = code_ptr; top = top })
  moved-Keeps = record {
    counter = refl;
    sizes = refl;
    start = refl;
    words = λ p a b. refl;
    above = λ p a b. refl;
  }

  -- It also writes a word that is not one of those above the locals.
  pub update-Keeps :
      (i value : ℕ)
      → i ≤ s.fp
      → Keeps n_args s (record s { code_ptr = code_ptr; top = top; cells = update s.cells i value })
  update-Keeps i value h = record {
    counter = refl;
    sizes = refl;
    start = refl;
    words = λ p a b. ground arith;
    above = λ p a b. ground arith;
  }
