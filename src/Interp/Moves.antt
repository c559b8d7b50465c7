-- ===== src/Interp/Moves.antt =====
-- How a handler moves the top of the stack: the words that it takes off and the words that it puts
-- on, whatever they are.
use lama_sm_interpreter.Prelude.{
  ℕ, suc, ◌+◌, ◌<◌, ◌≡◌, refl, ◌∙◌, Bool, true, false, if◌then◌else◌, arith,
}
use lama_sm_interpreter.Result.{Result, ok, err, Error}
use lama_sm_interpreter.Machine.{
  State, M, ◌>>=◌, pure, throw, get_state, load, store, to_pointer, consume0, consume1, consume2,
  consume_designation, set_code_ptr,
}
use lama_sm_interpreter.Machine.Frames.{
  push_op, peek_op, pop_op, pop_ops, get_string_ptr, get_global, set_global, get_local, set_local,
  get_arg, set_arg, closure_word, reverse_range,
}
use lama_sm_interpreter.Interp.Runtime.{Call, call_runtime}

pub record Moves {W : Type 0} (pops pushes : ℕ) (s s' : State W) : Type 0 where
  pub tops : s'.top + pushes ≡ s.top + pops
  pub same_data : s'.stack_data ≡ s.stack_data
  pub same_fp : s'.fp ≡ s.fp
  pub same_sizes : s'.arg_sizes ≡ s.arg_sizes
  pub same_bf : s'.bf ≡ s.bf

-- Every successful run of `m` moves the top so.
abbrev pub Effect : {W A : Type 0} → ℕ → ℕ → M W A → Type 0
Effect {W} {A} pops pushes m =
    (s s' : State W) (a : A) → 0 < s.stack_data → m s ≡ ok (a, s') → Moves pops pushes s s'

pub bind-ok :
    {W A B : Type 0} (m : M W A) (f : A → M W B) (s t : State W) (b : B)
    → (m >>= f) s ≡ ok (b, t)
    → (a : A) × (s' : State W) × (m s ≡ ok (a, s')) × (f a s' ≡ ok (b, t))
bind-ok {W} {A} {B} m f s t b p = go (m s) refl p
  where
    go :
        (r : Result (A × State W))
        → m s ≡ r
        → (elim r [ ok (a, s') ↦ f a s' | err e ↦ err e ]) ≡ ok (b, t)
        → (a : A) × (s' : State W) × (m s ≡ ok (a, s')) × (f a s' ≡ ok (b, t))
    go (ok (a, s')) e q = (a, s', e, q)
    go (err e') e q = cc

pub Moves-trans :
    {W : Type 0} (p u q v : ℕ) (s₁ s₂ s₃ : State W)
    → Moves p u s₁ s₂
    → Moves q v s₂ s₃
    → Moves (p + q) (u + v) s₁ s₃
Moves-trans p u q v s₁ s₂ s₃ a b = record {
  tops = omega arith;
  same_data = b.same_data ∙ a.same_data;
  same_fp = b.same_fp ∙ a.same_fp;
  same_sizes = b.same_sizes ∙ a.same_sizes;
  same_bf = b.same_bf ∙ a.same_bf;
}

pub Effect-bind :
    {W A B : Type 0} (p u q v : ℕ) (m : M W A) (f : A → M W B)
    → Effect p u m
    → ((a : A) → Effect q v (f a))
    → Effect (p + q) (u + v) (m >>= f)
Effect-bind p u q v m f em ef s t b placed h =
    let (a, s', e₁, e₂) = bind-ok m f s t b h in
    let first = em s s' a placed e₁ in
    Moves-trans p u q v s s' t first (ef a s' t b (omega arith) e₂)

pub quiet :
    {W A B : Type 0} {q v : ℕ} {m : M W A} {f : A → M W B}
    → Effect 0 0 m
    → ((a : A) → Effect q v (f a))
    → Effect q v (m >>= f)
quiet {q} {v} {m} {f} em ef s t b placed h =
    let (a, s', e₁, e₂) = bind-ok m f s t b h in
    let first = em s s' a placed e₁ in
    let second = ef a s' t b (omega arith) e₂ in
    record {
      tops = omega arith;
      same_data = second.same_data ∙ first.same_data;
      same_fp = second.same_fp ∙ first.same_fp;
      same_sizes = second.same_sizes ∙ first.same_sizes;
      same_bf = second.same_bf ∙ first.same_bf;
    }

module _ {W : Type 0} where
  pub pure-Effect : {A : Type 0} (a : A) → Effect {W = W} 0 0 (pure a)
  pure-Effect a s s' b placed h = ground arith

  pub throw-Effect : {A : Type 0} (p u : ℕ) (e : Error) → Effect {W = W} {A = A} p u (throw e)
  throw-Effect p u e s s' b placed h = cc

  pub get_state-Effect : Effect {W = W} 0 0 get_state
  get_state-Effect s s' a placed h = ground arith

  pub if-Effect :
      {A : Type 0} {p u : ℕ} (b : Bool) {x y : M W A}
      → Effect p u x
      → Effect p u y
      → Effect p u (if b then x else y)
  if-Effect true ex ey = ex
  if-Effect false ex ey = ey

  pub consume0-Effect : Effect {W = W} 0 0 consume0
  unfolding consume0
  consume0-Effect s s' a placed h = ground arith

  pub consume1-Effect : Effect {W = W} 0 0 consume1
  unfolding consume1
  consume1-Effect s s' a placed h = ground arith

  pub consume2-Effect : Effect {W = W} 0 0 consume2
  unfolding consume2
  consume2-Effect s s' a placed h = ground arith

  pub consume_designation-Effect : Effect {W = W} 0 0 consume_designation
  unfolding consume_designation
  consume_designation-Effect s s' a placed h = ground arith

  pub load-Effect : (p : ℕ) → Effect {W = W} 0 0 (load p)
  unfolding load
  load-Effect p s s' a placed h = ground arith

  pub store-Effect : (p v : ℕ) → Effect {W = W} 0 0 (store p v)
  unfolding store
  store-Effect p v s s' a placed h = ground arith

  pub to_pointer-Effect : (w : ℕ) → Effect {W = W} 0 0 (to_pointer w)
  unfolding to_pointer
  to_pointer-Effect w s s' a placed h = ground arith

  pub push_op-Effect : (v : ℕ) → Effect {W = W} 0 1 (push_op v)
  unfolding push_op store
  push_op-Effect v s s' a placed h = ground arith

  pub peek_op-Effect : Effect {W = W} 0 0 peek_op
  unfolding peek_op load
  peek_op-Effect s s' a placed h = ground arith

  pub pop_op-Effect : Effect {W = W} 1 0 pop_op
  unfolding pop_op
  pop_op-Effect s s' a placed h = ground arith

  pub popped :
      {B : Type 0} {q v : ℕ} {f : Unit {0} → M W B}
      → ((a : Unit {0}) → Effect q v (f a))
      → Effect (suc q) v (pop_op >>= f)
  popped {q} {v} {f} ef s t b placed h =
      let m = Effect-bind 1 0 q v pop_op f pop_op-Effect ef s t b placed h in
      record {
        tops = omega (arith, m.tops);
        same_data = m.same_data;
        same_fp = m.same_fp;
        same_sizes = m.same_sizes;
        same_bf = m.same_bf;
      }

  pub pushed :
      {B : Type 0} {q v : ℕ} (x : ℕ) {f : Unit {0} → M W B}
      → ((a : Unit {0}) → Effect q v (f a))
      → Effect q (suc v) (push_op x >>= f)
  pushed {q} {v} x {f} ef s t b placed h =
      let m = Effect-bind 0 1 q v (push_op x) f (push_op-Effect x) ef s t b placed h in
      record {
        tops = omega (arith, m.tops);
        same_data = m.same_data;
        same_fp = m.same_fp;
        same_sizes = m.same_sizes;
        same_bf = m.same_bf;
      }

  pub pop_ops-Effect : (n : ℕ) → Effect {W = W} n 0 (pop_ops n)
  unfolding pop_ops
  pop_ops-Effect n s s' a placed h = ground arith

  pub call_runtime-Effect : (f : Call W) → Effect 0 0 (call_runtime f)
  unfolding call_runtime
  call_runtime-Effect f s s' a placed h = ground arith

  pub set_code_ptr-Effect : (p : ℕ) → Effect {W = W} 0 0 (set_code_ptr p)
  set_code_ptr-Effect p s s' a placed h = ground arith

  pub reverse_range-Effect : (a b : ℕ) → Effect {W = W} 0 0 (reverse_range a b)
  unfolding reverse_range
  reverse_range-Effect a b s s' x placed h = ground arith

  pub popped_many :
      {B : Type 0} {q v : ℕ} (n : ℕ) {f : Unit {0} → M W B}
      → ((a : Unit {0}) → Effect q v (f a))
      → Effect (n + q) v (pop_ops n >>= f)
  popped_many {q} {v} n {f} ef s t b placed h =
      let m = Effect-bind n 0 q v (pop_ops n) f (pop_ops-Effect n) ef s t b placed h in
      record {
        tops = omega (arith, m.tops);
        same_data = m.same_data;
        same_fp = m.same_fp;
        same_sizes = m.same_sizes;
        same_bf = m.same_bf;
      }

  pub get_string_ptr-Effect : (i : ℕ) → Effect {W = W} 0 0 (get_string_ptr i)
  unfolding get_string_ptr load
  get_string_ptr-Effect i s s' a placed h = ground arith

  pub get_global-Effect : (i : ℕ) → Effect {W = W} 0 0 (get_global i)
  unfolding get_global load
  get_global-Effect i s s' a placed h = ground arith

  pub set_global-Effect : (i v : ℕ) → Effect {W = W} 0 0 (set_global i v)
  unfolding set_global store
  set_global-Effect i v s s' a placed h = ground arith

  pub get_local-Effect : (i : ℕ) → Effect {W = W} 0 0 (get_local i)
  unfolding get_local load
  get_local-Effect i s s' a placed h = ground arith

  pub set_local-Effect : (i v : ℕ) → Effect {W = W} 0 0 (set_local i v)
  unfolding set_local store
  set_local-Effect i v s s' a placed h = ground arith

  pub get_arg-Effect : (i : ℕ) → Effect {W = W} 0 0 (get_arg i)
  unfolding get_arg load
  get_arg-Effect i s s' a placed h = ground arith

  pub set_arg-Effect : (i v : ℕ) → Effect {W = W} 0 0 (set_arg i v)
  unfolding set_arg store
  set_arg-Effect i v s s' a placed h = ground arith

  pub closure_word-Effect : Effect {W = W} 0 0 closure_word
  unfolding closure_word load
  closure_word-Effect s s' a placed h = ground arith

pub ruleset effects = (
  quiet, popped, pushed, pure-Effect, throw-Effect, get_state-Effect, if-Effect, consume0-Effect,
  consume1-Effect, consume2-Effect, load-Effect, store-Effect, to_pointer-Effect, push_op-Effect,
  peek_op-Effect, pop_op-Effect, pop_ops-Effect, call_runtime-Effect, set_code_ptr-Effect,
  reverse_range-Effect, get_string_ptr-Effect, get_global-Effect, set_global-Effect,
  get_local-Effect, set_local-Effect, get_arg-Effect, set_arg-Effect, closure_word-Effect,
)
