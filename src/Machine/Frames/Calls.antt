-- ===== src/Machine/Frames/Calls.antt =====
-- The calling convention: what `push_stack_frame` lays out and `pop_stack_frame` takes apart.
use lama_sm_interpreter.Prelude.{
  ℕ, ◌+◌, ◌-◌, ◌%◌, ◌^◌, ◌≤◌, ◌<◌, ◌≡◌, refl, ◌&&◌, ◌∷◌, ltb, leb, if◌then◌else◌, arith, Bool-cases,
  inl, inr, ap, subst, sym, ◌∙◌,
}
use lama_sm_interpreter.Result.{ok}
use lama_sm_interpreter.Machine.{◌>>=◌, State, stack_bottom, update, of_pointer}
use lama_sm_interpreter.Machine.Access.{load_lem, store_lem, to_pointer-of_pointer}
use lama_sm_interpreter.Machine.Frames.{push_stack_frame, pop_stack_frame, get_arg, reverse_range}

-- `t` runs in a frame that was pushed in `s` for `n` arguments, with `c` words of a closure below
-- them and the return address `ra`.
pub record HasFrame {W : Type 0} (s : State W) (n ra c : ℕ) (t : State W) : Type 0 where
  pub base : t.fp + 3 ≡ s.top
  pub low : t.stack_data ≤ t.fp + 1
  pub high : s.top < stack_bottom t
  pub sizes : t.arg_sizes ≡ n ∷ s.arg_sizes
  pub address : t.cells (t.fp + 3) ≡ ra
  pub old_fp : t.cells (t.fp + 2) ≡ of_pointer s.fp
  pub old_top : t.cells (t.fp + 1) ≡ of_pointer (s.top + (n + c))

-- The loads of `pop_stack_frame`, behind the `pop_back` of `arg_sizes`.
pop_loads :
    {W : Type 0} (s t : State W) (n ra c : ℕ)
    → HasFrame s n ra c t
    → pop_stack_frame (record t { arg_sizes = n ∷ s.arg_sizes })
      ≡ ok (ra, record t { fp = s.fp; top = s.top + (n + c); arg_sizes = s.arg_sizes })
unfolding pop_stack_frame
pop_loads s t n ra c h =
    let popped : State _ = record t { arg_sizes = s.arg_sizes } in
    let back : State _ = record popped { fp = s.fp } in
    let returned : State _ = record back { top = s.top + (n + c) } in
    rw (
      load_lem (t.fp + 2) popped (omega arith) (omega arith),
      ◌>>=◌,
      h.old_fp,
      to_pointer-of_pointer s.fp popped,
      load_lem (t.fp + 1) back (omega arith) (omega arith),
      h.old_top,
      to_pointer-of_pointer (s.top + (n + c)) back,
      load_lem (t.fp + 3) returned (omega arith) (omega arith),
      h.address,
    )

module _ {W : Type 0} (s t : State W) (n ra c : ℕ) where
  -- Whatever a callee does, as long as its frame is in place `pop_stack_frame` gives the return
  -- address, and restores the caller's frame pointer and argument sizes, with the arguments and the
  -- closure popped.
  pub pop_stack_frame-HasFrame :
      HasFrame s n ra c t
      → pop_stack_frame t
        ≡ ok (ra, record t { fp = s.fp; top = s.top + (n + c); arg_sizes = s.arg_sizes })
  pop_stack_frame-HasFrame h =
      subst
        (λ sizes.
          pop_stack_frame (record t { arg_sizes = sizes })
          ≡ ok (ra, record t { fp = s.fp; top = s.top + (n + c); arg_sizes = s.arg_sizes }))
        (sym h.sizes) (pop_loads s t n ra c h)

module _ {W : Type 0} (s : State W) (n ra c : ℕ) where
  -- The state that `push_stack_frame` leaves.
  abbrev pub framed : (ℕ → ℕ) → State W
  framed cells = record s {
    top = s.top - 3;
    fp = s.top - 3;
    arg_sizes = n ∷ s.arg_sizes;
    cells =
        update (update (update cells s.top ra) (s.top - 1) (of_pointer s.fp)) (s.top - 2)
          (of_pointer (s.top + (n + c) % 2 ^ 32));
  }

  abbrev pub turned : ℕ → ℕ
  turned p =
      if leb (s.top + 1) p && ltb p (s.top + n + 1)
      then s.cells (s.top + 1 + (s.top + n + 1 - 1 - p))
      else s.cells p

  -- There is room for a frame below the arguments.
  abbrev pub HasRoom : Type 0
  HasRoom =
      (0 < s.stack_data)
      × (s.stack_data + 2 ≤ s.top)
      × (s.top + n + 1 ≤ stack_bottom s)
      × (s.top < stack_bottom s)

  -- The states in front of the three stores of a frame.
  abbrev before_first : (ℕ → ℕ) → State W
  before_first cells = record s { arg_sizes = n ∷ s.arg_sizes; cells = cells }

  abbrev before_second : (ℕ → ℕ) → State W
  before_second cells = before_first (update cells s.top ra)

  abbrev before_third : (ℕ → ℕ) → State W
  before_third cells = before_first (update (update cells s.top ra) (s.top - 1) (of_pointer s.fp))

  reverse_args :
      HasRoom
      → reverse_range (s.top + 1) (s.top + n + 1) (before_first s.cells)
        ≡ ok (tt, before_first turned)
  unfolding reverse_range
  reverse_args h = ground arith

  -- `push_stack_frame` turns the arguments round where there are two or more of them, and stores
  -- the return address, the frame pointer and the top that its return is to set.
  pub push_stack_frame_lem :
      HasRoom → push_stack_frame n ra c s ≡ ok (tt, framed (if ltb 1 n then turned else s.cells))
  unfolding push_stack_frame
  push_stack_frame_lem h = elim (Bool-cases (ltb 1 n)) [
    | inl many ↦ rw (
      many,
      ◌>>=◌,
      reverse_args h,
      store_lem s.top (before_first turned) ra (omega arith) (omega arith),
      store_lem (s.top - 1) (before_second turned) (of_pointer s.fp) (omega arith) (omega arith),
      store_lem (s.top - 2) (before_third turned) (of_pointer (s.top + (n + c) % 2 ^ 32))
          (omega arith) (omega arith),
    )
    | inr few ↦ rw (
      few,
      ◌>>=◌,
      store_lem s.top (before_first s.cells) ra (omega arith) (omega arith),
      store_lem (s.top - 1) (before_second s.cells) (of_pointer s.fp) (omega arith) (omega arith),
      store_lem (s.top - 2) (before_third s.cells) (of_pointer (s.top + (n + c) % 2 ^ 32))
          (omega arith) (omega arith),
    )
  ]

module _ {W : Type 0} (s : State W) (n ra c : ℕ) (room : HasRoom s n ra c)
    (small : n + c < 2 ^ 32) where
  abbrev pub entered : State W
  entered = framed s n ra c (if ltb 1 n then turned s n ra c else s.cells)

  pub entered-HasFrame : HasFrame s n ra c entered
  entered-HasFrame = record {
    base = omega arith;
    low = omega arith;
    high = omega arith;
    sizes = refl;
    address = ground arith;
    old_fp = ground arith;
    old_top = ground arith;
  }

  cell : (i : ℕ) → i < n → entered.cells (s.top - 3 + 4 + i) ≡ s.cells (s.top + n - i)
  cell i h = elim (Bool-cases (ltb 1 n)) [
    | inl many ↦
        let at_i : s.top + 1 + (s.top + n + 1 - 1 - (s.top - 3 + 4 + i)) ≡ s.top + n - i =
          omega arith in
        ground (arith, ap s.cells at_i)
    | inr few ↦
        let at_i : s.top - 3 + 4 + i ≡ s.top + n - i = ground arith in
        ground (arith, ap s.cells at_i)
  ]

  entered-get_arg : (i : ℕ) → i < n → get_arg i entered ≡ ok (s.cells (s.top + n - i), entered)
  unfolding get_arg
  entered-get_arg i h =
      load_lem (s.top - 3 + 4 + i) entered (omega arith) (omega arith)
      ∙ ap (λ v. ok (v, entered)) (cell i h)

  pub entered-above : (p : ℕ) → s.top + n < p → entered.cells p ≡ s.cells p
  entered-above p h = ground arith

  -- A call with room for its frame succeeds and puts the callee's frame in place, if the arguments
  -- with the closure are fewer than 2 ^ 32.
  pub push_stack_frame-HasFrame :
      (t : State W) × (push_stack_frame n ra c s ≡ ok (tt, t)) × HasFrame s n ra c t
  push_stack_frame-HasFrame = (entered, push_stack_frame_lem s n ra c room, entered-HasFrame)

  -- In a callee that was entered with room for its frame and fewer than 2 ^ 32 arguments with the
  -- closure, argument `i`, where there are more than `i`, is the word that the caller
  -- pushed `i`-th.
  pub get_arg-push_stack_frame :
      (i : ℕ)
      → i < n
      → (t : State W) × (push_stack_frame n ra c s ≡ ok (tt, t))
        × (get_arg i t ≡ ok (s.cells (s.top + n - i), t))
  get_arg-push_stack_frame i h = (entered, push_stack_frame_lem s n ra c room, entered-get_arg i h)

  -- Entering a callee, with room for its frame and fewer than 2 ^ 32 arguments with the closure,
  -- changes no word above its arguments: the operands, the locals and the frames
  -- of its callers stay.
  pub push_stack_frame-above :
      (p : ℕ)
      → s.top + n < p
      → (t : State W) × (push_stack_frame n ra c s ≡ ok (tt, t)) × (t.cells p ≡ s.cells p)
  push_stack_frame-above p h = (entered, push_stack_frame_lem s n ra c room, entered-above p h)
