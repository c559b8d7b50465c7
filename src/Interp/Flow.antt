-- ===== src/Interp/Flow.antt =====
-- Where the handlers leave the decoder: behind the instruction that they have consumed, or at the
-- target of a jump.
pub mod Advances
pub mod Closures
pub mod Follows
pub mod Runs
use lama_sm_interpreter.Prelude.{ℕ, ◌≡◌, ◌∙◌, Bool, true, false, if◌then◌else◌, arith}
use lama_sm_interpreter.Result.{Result, ok, err, Error}
use lama_sm_interpreter.Instruction.{MemVar, Patt, BinOp}
use lama_sm_interpreter.Machine.{
  State, M, ◌>>=◌, ◌>>◌, pure, throw, get_state, load, store, to_pointer,
}
use lama_sm_interpreter.Machine.Frames.{
  push_op, peek_op, pop_op, pop_ops, get_string_ptr, get_global, set_global, get_local, set_local,
  get_arg, set_arg, closure_word, reverse_range,
}
use lama_sm_interpreter.Interp.Runtime.{Runtime, Call, call_runtime}
use lama_sm_interpreter.Interp.Stack.{deref, assign, copy_word, store_element}
use lama_sm_interpreter.Interp.Memory.{
  get_closure, set_closure, get_variable, set_variable, variable_link,
}
use lama_sm_interpreter.Interp.Values.{build_sexp, build_array, test_patt}
use lama_sm_interpreter.Interp.Binop.{boxed_unboxed, boxed, apply_bin_op}
use lama_sm_interpreter.Interp.Moves.{bind-ok}

-- A successful run of `m` leaves the decoder alone.
abbrev pub Stays : {W A : Type 0} → M W A → Type 0
Stays {W} {A} m = (s s' : State W) (a : A) → m s ≡ ok (a, s') → s'.code_ptr ≡ s.code_ptr

pub bind-Stays :
    {W A B : Type 0} {m : M W A} {f : A → M W B}
    → Stays m
    → ((a : A) → Stays (f a))
    → Stays (m >>= f)
bind-Stays {m} {f} em ef s t b h =
    let (a, s', e₁, e₂) = bind-ok m f s t b h in ef a s' t b e₂ ∙ em s s' a e₁

module _ {W : Type 0} where
  pub pure-Stays : {A : Type 0} (a : A) → Stays {W = W} (pure a)
  pure-Stays a s s' b h = ground arith

  pub throw-Stays : {A : Type 0} (e : Error) → Stays {W = W} {A = A} (throw e)
  throw-Stays e s s' b h = cc

  pub get_state-Stays : Stays {W = W} get_state
  get_state-Stays s s' a h = ground arith

  pub if-Stays :
      {A : Type 0} (b : Bool) {x y : M W A} → Stays x → Stays y → Stays (if b then x else y)
  if-Stays true ex ey = ex
  if-Stays false ex ey = ey

  pub load-Stays : (p : ℕ) → Stays {W = W} (load p)
  unfolding load
  load-Stays p s s' a h = ground arith

  pub store-Stays : (p v : ℕ) → Stays {W = W} (store p v)
  unfolding store
  store-Stays p v s s' a h = ground arith

  pub to_pointer-Stays : (w : ℕ) → Stays {W = W} (to_pointer w)
  unfolding to_pointer
  to_pointer-Stays w s s' a h = ground arith

  pub push_op-Stays : (v : ℕ) → Stays {W = W} (push_op v)
  unfolding push_op store
  push_op-Stays v s s' a h = ground arith

  pub peek_op-Stays : Stays {W = W} peek_op
  unfolding peek_op load
  peek_op-Stays s s' a h = ground arith

  pub pop_op-Stays : Stays {W = W} pop_op
  unfolding pop_op
  pop_op-Stays s s' a h = ground arith

  pub pop_ops-Stays : (n : ℕ) → Stays {W = W} (pop_ops n)
  unfolding pop_ops
  pop_ops-Stays n s s' a h = ground arith

  pub call_runtime-Stays : (f : Call W) → Stays (call_runtime f)
  unfolding call_runtime
  call_runtime-Stays f s s' a h = ground arith

  pub reverse_range-Stays : (a b : ℕ) → Stays {W = W} (reverse_range a b)
  unfolding reverse_range
  reverse_range-Stays a b s s' x h = ground arith

  pub get_string_ptr-Stays : (i : ℕ) → Stays {W = W} (get_string_ptr i)
  unfolding get_string_ptr load
  get_string_ptr-Stays i s s' a h = ground arith

  pub get_global-Stays : (i : ℕ) → Stays {W = W} (get_global i)
  unfolding get_global load
  get_global-Stays i s s' a h = ground arith

  pub set_global-Stays : (i v : ℕ) → Stays {W = W} (set_global i v)
  unfolding set_global store
  set_global-Stays i v s s' a h = ground arith

  pub get_local-Stays : (i : ℕ) → Stays {W = W} (get_local i)
  unfolding get_local load
  get_local-Stays i s s' a h = ground arith

  pub set_local-Stays : (i v : ℕ) → Stays {W = W} (set_local i v)
  unfolding set_local store
  set_local-Stays i v s s' a h = ground arith

  pub get_arg-Stays : (i : ℕ) → Stays {W = W} (get_arg i)
  unfolding get_arg load
  get_arg-Stays i s s' a h = ground arith

  pub set_arg-Stays : (i v : ℕ) → Stays {W = W} (set_arg i v)
  unfolding set_arg store
  set_arg-Stays i v s s' a h = ground arith

  pub closure_word-Stays : Stays {W = W} closure_word
  unfolding closure_word load
  closure_word-Stays s s' a h = ground arith

pub ruleset stays = (
  bind-Stays, pure-Stays, throw-Stays, get_state-Stays, if-Stays, load-Stays, store-Stays,
  to_pointer-Stays, push_op-Stays, peek_op-Stays, pop_op-Stays, pop_ops-Stays, call_runtime-Stays,
  reverse_range-Stays, get_string_ptr-Stays, get_global-Stays, set_global-Stays, get_local-Stays,
  set_local-Stays, get_arg-Stays, set_arg-Stays, closure_word-Stays,
)

module _ {W : Type 0} (R : Runtime W) where
  pub get_closure-Stays : (i : ℕ) → Stays (get_closure R i)
  unfolding get_closure
  get_closure-Stays i = search stays depth 8

  set_closure-Stays : (i v : ℕ) → Stays (set_closure R i v)
  unfolding set_closure
  set_closure-Stays i v = search stays depth 8

  pub get_variable-Stays : (q : MemVar) (i : ℕ) (e : Error) → Stays (get_variable R q i e)
  unfolding get_variable
  get_variable-Stays MemVar.closure i e = get_closure-Stays i
  get_variable-Stays _ i e = search stays depth 8

  pub set_variable-Stays : (q : MemVar) (i v : ℕ) → Stays (set_variable R q i v)
  unfolding set_variable
  set_variable-Stays MemVar.closure i v = set_closure-Stays i v
  set_variable-Stays _ i v = search stays depth 8

  pub variable_link-Stays : (q : MemVar) (i : ℕ) → Stays (variable_link R q i)
  unfolding variable_link
  variable_link-Stays MemVar.closure i = get_closure-Stays i
  variable_link-Stays _ i = search stays depth 8

  deref-Stays : (w : ℕ) → Stays (deref R w)
  unfolding deref
  deref-Stays w = search stays depth 8

  assign-Stays : (w v : ℕ) → Stays (assign R w v)
  unfolding assign
  assign-Stays w v = search stays depth 8

  pub copy_word-Stays : (z i : ℕ) → Stays (copy_word R z i)
  unfolding copy_word
  copy_word-Stays z i = search (stays, deref-Stays, assign-Stays) depth 8

  pub build_sexp-Stays : (t n : ℕ) → Stays (build_sexp R t n)
  unfolding build_sexp
  build_sexp-Stays t n = search stays depth 16

  pub build_array-Stays : (n : ℕ) → Stays (build_array R n)
  unfolding build_array
  build_array-Stays n = search stays depth 16

  pub test_patt-Stays : (q : Patt) → Stays (test_patt R q)
  unfolding test_patt
  test_patt-Stays Patt.closure = search stays depth 8
  test_patt-Stays Patt.str_cmp = search stays depth 12
  test_patt-Stays (Patt.other c) = throw-Stays _
  test_patt-Stays _ = search stays depth 8

module _ {W : Type 0} where
  boxed_unboxed-Stays : (op : BinOp) → Stays {W = W} (boxed_unboxed op)
  unfolding boxed_unboxed
  boxed_unboxed-Stays op = search stays depth 16

  boxed-Stays : (op : BinOp) → Stays {W = W} (boxed op)
  unfolding boxed
  boxed-Stays op = search stays depth 16

  pub apply_bin_op-Stays : (op : BinOp) → Stays {W = W} (apply_bin_op op)
  unfolding apply_bin_op
  apply_bin_op-Stays BinOp.eq = boxed-Stays BinOp.eq
  apply_bin_op-Stays BinOp.neq = boxed-Stays BinOp.neq
  apply_bin_op-Stays (BinOp.other c) = throw-Stays _
  apply_bin_op-Stays op = boxed_unboxed-Stays _
