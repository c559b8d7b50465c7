-- ===== src/Interp/Progress/Access.antt =====
-- The variables in a frame: where they lie, and what the interpreter reads and writes there.
use lama_sm_interpreter.Prelude.{ℕ, ◌+◌, ◌≤◌, ◌<◌, ◌≡◌, refl, ◌⊎◌, arith}
use lama_sm_interpreter.Result.{ok, Error}
use lama_sm_interpreter.Instruction.{MemVar}
use lama_sm_interpreter.Verifier.Variables.{Exists}
use lama_sm_interpreter.Machine.{of_pointer, State, stack_bottom, update}
use lama_sm_interpreter.Machine.Access.{load_lem, store_lem}
use lama_sm_interpreter.Machine.Frames.{
  get_global, set_global, get_local, set_local, get_arg, set_arg, get_global_link, get_local_link,
  get_arg_link,
}
use lama_sm_interpreter.Interp.Runtime.{Runtime}
use lama_sm_interpreter.Interp.Memory.{get_variable, set_variable, variable_link}
use lama_sm_interpreter.Interp.Progress.{Frame}

module _ {W : Type 0} (R : Runtime W) (n_args n_locals deepest d : ℕ) (s : State W)
    (f : Frame n_args n_locals deepest d s) (deep : d ≤ deepest) (o : ℕ) where
  -- Somewhere in the code.
  abbrev pub at_code : State W
  at_code = record s { code_ptr = o }

  abbrev pub link : MemVar → ℕ → ℕ
  link MemVar.global index = get_global_link s index
  link MemVar.local index = get_local_link s index
  link _ index = get_arg_link s index

  pub link-in_stack :
      (v : MemVar) (index : ℕ)
      → Exists s.bf v index n_args n_locals
      → (s.stack_data ≤ link v index) × (link v index < stack_bottom s)
  link-in_stack MemVar.global index x = omega (arith, f.globals, f.placed)
  link-in_stack MemVar.local index x = omega (arith, f.room, f.operands, f.args)
  link-in_stack MemVar.argument index x = omega (arith, f.room, f.operands, f.args)
  link-in_stack MemVar.closure index x = elim x [ ]
  link-in_stack (MemVar.other c) index x = elim x [ ]

  -- No variable is one of the words of the frame between the locals and the arguments, or one between
  -- the arguments and the globals.
  pub keeps_link :
      (v : MemVar) (index value : ℕ)
      → Exists s.bf v index n_args n_locals
      → (p : ℕ)
      → ((s.fp < p) × (p ≤ s.fp + 3))
        ⊎ ((s.fp + 4 + n_args ≤ p)
            × (p + s.bf.global_area_size + s.string_counter < stack_bottom s))
      → update s.cells (link v index) value p ≡ s.cells p
  keeps_link MemVar.global index value x p a = ground (arith, f.globals)
  keeps_link MemVar.local index value x p a = ground (arith, f.operands)
  keeps_link MemVar.argument index value x p a = ground arith
  keeps_link MemVar.closure index value x p a = elim x [ ]
  keeps_link (MemVar.other c) index value x p a = elim x [ ]

  pub get_variable-ok :
      (v : MemVar) (index : ℕ) (e : Error)
      → Exists s.bf v index n_args n_locals
      → get_variable R v index e at_code ≡ ok (s.cells (link v index), at_code)
  unfolding get_variable get_global get_local get_arg
  get_variable-ok MemVar.global index e x =
      let (low, high) = link-in_stack MemVar.global index x in load_lem _ at_code low high
  get_variable-ok MemVar.local index e x =
      let (low, high) = link-in_stack MemVar.local index x in load_lem _ at_code low high
  get_variable-ok MemVar.argument index e x =
      let (low, high) = link-in_stack MemVar.argument index x in load_lem _ at_code low high
  get_variable-ok MemVar.closure index e x = elim x [ ]
  get_variable-ok (MemVar.other c) index e x = elim x [ ]

  pub set_variable-ok :
      (v : MemVar) (index value : ℕ)
      → Exists s.bf v index n_args n_locals
      → set_variable R v index value at_code
        ≡ ok (tt, record at_code { cells = update s.cells (link v index) value })
  unfolding set_variable set_global set_local set_arg
  set_variable-ok MemVar.global index value x =
      let (low, high) = link-in_stack MemVar.global index x in store_lem _ at_code value low high
  set_variable-ok MemVar.local index value x =
      let (low, high) = link-in_stack MemVar.local index x in store_lem _ at_code value low high
  set_variable-ok MemVar.argument index value x =
      let (low, high) = link-in_stack MemVar.argument index x in store_lem _ at_code value low high
  set_variable-ok MemVar.closure index value x = elim x [ ]
  set_variable-ok (MemVar.other c) index value x = elim x [ ]

  pub variable_link-ok :
      (v : MemVar) (index : ℕ)
      → Exists s.bf v index n_args n_locals
      → variable_link R v index at_code ≡ ok (of_pointer (link v index), at_code)
  unfolding variable_link
  variable_link-ok MemVar.global index x = refl
  variable_link-ok MemVar.local index x = refl
  variable_link-ok MemVar.argument index x = refl
  variable_link-ok MemVar.closure index x = elim x [ ]
  variable_link-ok (MemVar.other c) index x = elim x [ ]
