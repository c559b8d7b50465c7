-- ===== src/Interp/Loop/Ends.antt =====
-- The constructor of `FrameStack` ends: its loop has a unit of fuel for each byte of the string table
-- and one more.
use lama_sm_interpreter.Prelude.{
  ℕ, zero, suc, ◌+◌, ◌-◌, ◌<◌, ◌≢◌, List, length, ◌∷◌, drop, ltb, arith, Bool-cases, inl, inr,
}
use lama_sm_interpreter.Result.{Result, ok, err, Error, out_of_fuel}
use lama_sm_interpreter.Fuel.{Finishes, Finishes-ne, Finishes-c_string, Finishes-if}
use lama_sm_interpreter.Bytefile.{c_string}
use lama_sm_interpreter.Machine.{State, M, ◌>>=◌, pure, lift, store, set_top, in_stack}
use lama_sm_interpreter.Interp.Runtime.{Runtime, Reply, Call, call_runtime}
use lama_sm_interpreter.Interp.Loop.{intern_string, intern_strings, frame_stack}

-- `m` does not run out of fuel.
abbrev pub Ends : {W A : Type 0} → M W A → Type 0
Ends {W} m = (s : State W) → Finishes (m s)

Ends-bind :
    {W A B : Type 0} (m : M W A) (f : A → M W B) → Ends m → ((a : A) → Ends (f a)) → Ends (m >>= f)
Ends-bind {W} {A} {B} m f em ef s = go (m s) (em s)
  where
    go :
        (r : Result (A × State W))
        → Finishes r
        → Finishes (elim r [ ok (a, s') ↦ f a s' | err e ↦ err e ])
    go (ok (a, s')) h = ef a s'
    go (err Error.out_of_fuel) h = h
    go (err _) h = tt

Ends-lift :
    {W A : Type 0} (f : State W → Result A) → ((s : State W) → Finishes (f s)) → Ends (lift f)
Ends-lift {W} {A} f ef s = go (f s) (ef s)
  where
    go :
        (r : Result A)
        → Finishes r
        → Finishes {A = A × State W} (elim r [ ok a ↦ ok (a, s) | err e ↦ err e ])
    go (ok a) h = tt
    go (err Error.out_of_fuel) h = h
    go (err _) h = tt

Ends-store : {W : Type 0} (p v : ℕ) → Ends {W = W} (store p v)
unfolding store
Ends-store p v s = Finishes-if (in_stack s p) _ _ tt tt

Ends-call_runtime :
    {W : Type 0} (f : Call W)
    → ((world : W) (cells : ℕ → ℕ) (top : ℕ) → Finishes (f world cells top))
    → Ends (call_runtime f)
unfolding call_runtime
Ends-call_runtime {W} f ends s = go (f s.world s.cells s.top) (ends s.world s.cells s.top)
  where
    go :
        (r : Result (Reply W))
        → Finishes r
        → Finishes {A = ℕ × State W} (elim r [
          | ok r ↦ ok (r.value, record s { cells = r.cells; world = r.world })
          | err e ↦ err e
        ])
    go (ok a) h = tt
    go (err Error.out_of_fuel) h = h
    go (err _) h = tt

module _ {W : Type 0} (R : Runtime W)
    (ends : (bytes : List ℕ) (world : W) (cells : ℕ → ℕ) (top : ℕ)
      → Finishes (R.b_string bytes world cells top)) where
  Ends-intern_string : (i : ℕ) → Ends (intern_string R i)
  unfolding intern_string
  Ends-intern_string i s =
      Ends-bind (lift λ t. c_string (drop (t.bf.string_ptr + i) t.bf.buffer)) _
        (Ends-lift _ λ t. Finishes-c_string _)
        (λ bytes.
          Ends-bind (call_runtime (R.b_string bytes)) _ (Ends-call_runtime _ (ends bytes))
            λ b_string.
              Ends-bind (set_top (s.top - 1)) _ (λ t. tt)
                λ _.
                  Ends-bind (store (s.top - 1) b_string) (λ _. pure (length bytes)) (Ends-store _ _)
                    λ _ t. tt)
        (record s {
          strings_map = (i, s.string_counter) ∷ s.strings_map;
          string_counter = s.string_counter + 1;
        })

  Ends-intern_strings :
      (fuel size i : ℕ) → size < i + fuel → 0 < fuel → Ends (intern_strings R fuel size i)
  unfolding intern_strings
  Ends-intern_strings zero size i enough some_fuel s = elim some_fuel [ ]
  Ends-intern_strings (suc fuel) size i enough some_fuel s = elim (Bool-cases (ltb i size)) [
    | inl inside ↦
        let lt : i < size = ground (arith, inside) in
        rw inside (
          Ends-bind (intern_string R i) (λ len. intern_strings R fuel size (i + len + 1))
            (Ends-intern_string i)
            (λ len. Ends-intern_strings fuel size (i + len + 1) (omega arith) (omega arith)) s)
    | inr behind ↦ rw behind tt
  ]

  -- The constructor of `FrameStack` ends on every file, if `Bstring` does.
  pub frame_stack-ne-out_of_fuel : (s : State W) → frame_stack R s ≢ err out_of_fuel
  unfolding frame_stack
  frame_stack-ne-out_of_fuel s = Finishes-ne _ (
      Ends-bind (intern_strings R (s.bf.stringtab_size + 1) s.bf.stringtab_size 0) _
        (Ends-intern_strings (s.bf.stringtab_size + 1) s.bf.stringtab_size 0 (omega arith)
          (omega arith))
        (λ _ t. tt) s)
