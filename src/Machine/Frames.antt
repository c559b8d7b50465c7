-- ===== src/Machine/Frames.antt =====
-- The methods of `FrameStack` (src/state/FrameStack.hpp) that do not call the runtime. A method of
-- the source that returns a value without changing the state is here a handler too.
pub mod Calls
use lama_sm_interpreter.Prelude.{
  ℕ, zero, suc, ◌+◌, ◌-◌, ◌*◌, ◌/◌, ◌%◌, ◌^◌, Bool, true, false, ◌&&◌, ◌||◌, List, [], ◌∷◌, ltb,
  leb, ◌==◌, if◌then◌else◌,
}
use lama_sm_interpreter.Result.{Result, ok, err, Error}
use lama_sm_interpreter.Word.{wrap32}
use lama_sm_interpreter.Machine.{
  State, M, ◌>>=◌, ◌>>◌, pure, throw, load, store, max_stack, stack_bottom, of_pointer, to_pointer,
  get_state, set_top, set_fp,
}

unfoldable pub push_op : {W : Type 0} → ℕ → M W (Unit {0})
push_op value = do s ← get_state; store s.top value; set_top (s.top - 1)

-- `push_op_link`
unfoldable pub push_op_link : {W : Type 0} → ℕ → M W (Unit {0})
push_op_link ptr = push_op (of_pointer ptr)

unfoldable pub peek_op : {W : Type 0} → M W ℕ
peek_op = do s ← get_state; load (s.top + 1)

-- `peek_op(index)`
unfoldable pub peek_op_at : {W : Type 0} → ℕ → M W ℕ
peek_op_at index = do s ← get_state; load (s.top + index)

unfoldable pub pop_op : {W : Type 0} → M W (Unit {0})
pop_op = do s ← get_state; set_top (s.top + 1)

unfoldable pub pop_ops : {W : Type 0} → ℕ → M W (Unit {0})
pop_ops n = do s ← get_state; set_top (s.top + n)

unfoldable pub reserve_locals : {W : Type 0} → ℕ → M W (Unit {0})
reserve_locals n_locals = do s ← get_state; set_top (s.top - n_locals)

-- `strings_map[index]` with the default 0 of a missing key, and the word of that string.
unfoldable pub find_string : ℕ → List (ℕ × ℕ) → ℕ
find_string index [] = 0
find_string index ((key, assoc_index) ∷ entries) =
    if index == key then assoc_index else find_string index entries

unfoldable pub get_string_ptr : {W : Type 0} → ℕ → M W ℕ
unfolding find_string
get_string_ptr index = do s ← get_state; load (stack_bottom s - find_string index s.strings_map - 1)

abbrev pub get_global_link : {W : Type 0} → State W → ℕ → ℕ
get_global_link s index = stack_bottom s - index - 1 - s.string_counter

abbrev pub get_local_link : {W : Type 0} → State W → ℕ → ℕ
get_local_link s index = s.fp - index

abbrev pub get_arg_link : {W : Type 0} → State W → ℕ → ℕ
get_arg_link s index = s.fp + 4 + index

unfoldable pub get_global : {W : Type 0} → ℕ → M W ℕ
get_global index = do s ← get_state; load (get_global_link s index)

unfoldable pub set_global : {W : Type 0} → ℕ → ℕ → M W (Unit {0})
set_global index val = do s ← get_state; store (get_global_link s index) val

unfoldable pub get_local : {W : Type 0} → ℕ → M W ℕ
get_local index = do s ← get_state; load (get_local_link s index)

unfoldable pub set_local : {W : Type 0} → ℕ → ℕ → M W (Unit {0})
set_local index value = do s ← get_state; store (get_local_link s index) value

unfoldable pub get_arg : {W : Type 0} → ℕ → M W ℕ
get_arg index = do s ← get_state; load (get_arg_link s index)

unfoldable pub set_arg : {W : Type 0} → ℕ → ℕ → M W (Unit {0})
set_arg index value = do s ← get_state; store (get_arg_link s index) value

-- `arg_sizes.push_back`, `pop_back` and `back`; the last two are undefined on an empty vector.
abbrev pub push_arg_size : {W : Type 0} → ℕ → M W (Unit {0})
push_arg_size n s = ok (tt, record s { arg_sizes = n ∷ s.arg_sizes })

abbrev pub pop_arg_size : {W : Type 0} → M W (Unit {0})
pop_arg_size s = elim s.arg_sizes [
  | [] ↦ err Error.fault
  | n ∷ sizes ↦ ok (tt, record s { arg_sizes = sizes })
]

abbrev pub last_arg_size : {W : Type 0} → M W ℕ
last_arg_size s = elim s.arg_sizes [ [] ↦ err Error.fault | n ∷ sizes ↦ ok (n, s) ]

-- The word of the closure of the running function.
unfoldable pub closure_word : {W : Type 0} → M W ℕ
closure_word = do s ← get_state; n ← last_arg_size; load (s.fp + 4 + n)

-- `std::reverse(first, last)` on words of the stack.
unfoldable pub reverse_range : {W : Type 0} → ℕ → ℕ → M W (Unit {0})
reverse_range first last s =
    if (leb s.stack_data first && leb last (s.stack_data + max_stack))
    then ok (
      tt,
      record s {
        cells =
            λ p. if leb first p && ltb p last then s.cells (first + (last - 1 - p)) else s.cells p;
      },
    )
    else err Error.fault

unfoldable pub push_stack_frame : {W : Type 0} → ℕ → ℕ → ℕ → M W (Unit {0})
push_stack_frame nargs ra is_closure = do
  push_arg_size nargs
  s ← get_state
  if ltb 1 nargs then reverse_range (s.top + 1) (s.top + nargs + 1) else pure tt
  store s.top ra
  store (s.top - 1) (of_pointer s.fp)
  store (s.top - 2) (of_pointer (s.top + wrap32 (nargs + is_closure)))
  set_top (s.top - 3)
  set_fp (s.top - 3)

-- The return address.
unfoldable pub pop_stack_frame : {W : Type 0} → M W ℕ
pop_stack_frame = do
  pop_arg_size
  s ← get_state
  old_fp ← load (s.fp + 2)
  fp ← to_pointer old_fp
  set_fp fp
  old_top ← load (s.fp + 1)
  top ← to_pointer old_top
  set_top top
  load (s.fp + 3)
