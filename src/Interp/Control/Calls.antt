-- ===== src/Interp/Control/Calls.antt =====
-- CALL, BEGIN and END: what a caller and a callee can rely on.
use lama_sm_interpreter.Prelude.{
  ℕ, ◌+◌, ◌-◌, ◌/◌, ◌≤◌, ◌<◌, ◌≡◌, ◌⊎◌, true, false, ltb, ◌==◌, Bool-cases, inl, inr, arith,
}
use lama_sm_interpreter.Result.{ok, err, Error}
use lama_sm_interpreter.Bytefile.{code_byte, code_u32}
use lama_sm_interpreter.Machine.{State, ◌>>=◌, stack_bottom, update, consume0, consume2}
use lama_sm_interpreter.Machine.Access.{load_lem, store_lem}
use lama_sm_interpreter.Machine.Frames.{push_op, peek_op, reserve_locals}
use lama_sm_interpreter.Machine.Frames.Calls.{HasFrame, pop_stack_frame-HasFrame}
use lama_sm_interpreter.Interp.Control.{call_stack_begin, call_stack_end, return_to}

module _ {W : Type 0} (s t : State W) (n ra c : ℕ) where
  -- Behind the pop of the frame.
  abbrev pub returned : State W
  returned = record t {
    code_ptr = t.code_ptr + 1;
    fp = s.fp;
    top = s.top + (n + c);
    arg_sizes = s.arg_sizes;
  }

  -- With the result in place of the arguments and the closure.
  abbrev pub resumed : ℕ → State W
  resumed val = record t {
    code_ptr = ra - t.code_start;
    fp = s.fp;
    top = s.top + (n + c) - 1;
    arg_sizes = s.arg_sizes;
    cells = update t.cells (s.top + (n + c)) val;
  }

  return_to_lem :
      (val : ℕ)
      → t.code_start ≤ ra
      → t.stack_data ≤ s.top + (n + c)
      → s.top + (n + c) < stack_bottom t
      → return_to ra val returned ≡ ok (false, resumed val)
  unfolding return_to push_op
  return_to_lem val start low high =
      let inside : ltb ra t.code_start ≡ false = ground arith in
      rw (
        inside,
        ◌>>=◌,
        store_lem (s.top + (n + c)) (record returned { code_ptr = ra - t.code_start }) val low high,
      )

  abbrev stepped : State W
  stepped = record t { code_ptr = t.code_ptr + 1 }

  framed_at : HasFrame s n ra c t → HasFrame s n ra c stepped
  framed_at h = record {
    base = h.base;
    low = h.low;
    high = h.high;
    sizes = h.sizes;
    address = h.address;
    old_fp = h.old_fp;
    old_top = h.old_top;
  }

  module _ (b : ℕ) (h : HasFrame s n ra c t) (byte : code_byte t.bf t.code_ptr ≡ ok b)
      (low : t.stack_data ≤ t.top + 1) (high : t.top + 1 < stack_bottom t) where
    -- END in a frame whose return address is 0, that of the outermost call, ends the program with
    -- the frame taken off.
    pub call_stack_end-returns : ra ≡ 0 → call_stack_end t ≡ ok (true, returned)
    unfolding call_stack_end consume0 peek_op
    call_stack_end-returns none =
        let test : (ra == 0) ≡ true = ground arith in
        rw (
          byte,
          ◌>>=◌,
          load_lem (t.top + 1) stepped (omega arith) high,
          pop_stack_frame-HasFrame s stepped n ra c (framed_at h),
          test,
        )

    -- END in the frame of a call, with an operand on the stack and a return address in the code,
    -- goes on behind the call in the caller's frame: the operand stands in place of the arguments
    -- and of the closure, and no other word has changed.
    pub call_stack_end-resumes :
        0 < ra
        → t.code_start ≤ ra
        → s.top + (n + c) < stack_bottom t
        → call_stack_end t ≡ ok (false, resumed (t.cells (t.top + 1)))
    unfolding call_stack_end consume0 peek_op
    call_stack_end-resumes some start room =
        let test : (ra == 0) ≡ false = ground arith in
        rw
          (
            byte,
            ◌>>=◌,
            load_lem (t.top + 1) stepped (omega arith) high,
            pop_stack_frame-HasFrame s stepped n ra c (framed_at h),
            test,
          )
          (return_to_lem (t.cells (t.top + 1)) start (omega (arith, h.base, h.low)) room)

-- BEGIN, on a stack that does not start at address 0 and with the deepest stack of the function in
-- the upper half of its first argument: it returns exactly where the locals and that many operands
-- fit into what is left of the stack, with the locals reserved and the room for the operands below
-- them, and throws otherwise.
pub call_stack_begin_lem :
    {W : Type 0} (s : State W) (b arg n_locals : ℕ)
    → code_byte s.bf s.code_ptr ≡ ok b
    → code_u32 s.bf (s.code_ptr + 1) ≡ ok arg
    → code_u32 s.bf (s.code_ptr + 5) ≡ ok n_locals
    → 0 < s.stack_data
    → ((s.stack_data + arg / 65536 + n_locals ≤ s.top + 1)
        × ((t : State W) × (call_stack_begin s ≡ ok (tt, t))
            × (t.top + n_locals ≡ s.top)
            × (t.stack_data + arg / 65536 ≤ t.top + 1)))
      ⊎ ((s.top + 1 < s.stack_data + arg / 65536 + n_locals)
          × (call_stack_begin s ≡ err (Error.stack_overflow s.code_ptr)))
unfolding call_stack_begin consume2 reserve_locals
call_stack_begin_lem s b arg n_locals eb ea el placed =
    elim (Bool-cases (ltb (s.top + 1) (s.stack_data + arg / 65536 + n_locals))) [
      | inl full ↦ inr (ground arith, rw (eb, ◌>>=◌, ea, el, full))
      | inr room ↦ inl (
        ground arith,
        (
          record s { code_ptr = s.code_ptr + 9; top = s.top - n_locals },
          rw (eb, ◌>>=◌, ea, el, room),
          ground arith,
          ground arith,
        ),
      )
    ]
