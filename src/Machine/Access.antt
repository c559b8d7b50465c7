-- ===== src/Machine/Access.antt =====
-- Accesses to words inside the stack's array.
use lama_sm_interpreter.Prelude.{ℕ, ◌≤◌, ◌<◌, ◌≡◌, arith}
use lama_sm_interpreter.Result.{ok}
use lama_sm_interpreter.Machine.{State, load, store, update, stack_bottom, to_pointer, of_pointer}

module _ {W : Type 0} (p : ℕ) (s : State W) where
  pub load_lem : s.stack_data ≤ p → p < stack_bottom s → load p s ≡ ok (s.cells p, s)
  unfolding load
  load_lem a b = ground arith

  pub store_lem :
      (v : ℕ)
      → s.stack_data ≤ p
      → p < stack_bottom s
      → store p v s ≡ ok (tt, record s { cells = update s.cells p v })
  unfolding store
  store_lem v a b = ground arith

  pub to_pointer-of_pointer : to_pointer (of_pointer p) s ≡ ok (p, s)
  unfolding to_pointer
  to_pointer-of_pointer = ground arith
