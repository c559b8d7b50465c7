-- ===== src/Bytefile/Errors.antt =====
-- Which files `read_file` unpacks.
use lama_sm_interpreter.Prelude.{ℕ, ◌+◌, ◌-◌, ◌*◌, ◌^◌, ◌≤◌, ◌<◌, ◌≡◌, ◌⊎◌, List, length}
use lama_sm_interpreter.Result.{ok, err, Error}
use lama_sm_interpreter.Word.{u32_at}
use lama_sm_interpreter.Bytefile.{Bytefile, unpack}

-- The three sizes of the header.
pub record Header (bytes : List ℕ) (strings globals publics : ℕ) : Type 0 where
  pub has_strings : u32_at bytes 0 ≡ ok strings
  pub has_globals : u32_at bytes 4 ≡ ok globals
  pub has_publics : u32_at bytes 8 ≡ ok publics

-- Where the code starts: behind the tables, or, where the size of the string table is a negative
-- `int`, that much in front of the end of the publics.
abbrev pub StartsAt : ℕ → ℕ → ℕ → Type 0
StartsAt strings publics code_ptr =
    ((strings < 2 ^ 31) × (code_ptr ≡ publics * 8 + strings))
    ⊎ ((2 ^ 31 ≤ strings) × (code_ptr + (2 ^ 32 - strings) ≡ publics * 8))

-- The number of publics is negative, or the publics or the code reach past the end of the buffer, or
-- the code starts in front of it.
abbrev pub Leaves : ℕ → ℕ → ℕ → Type 0
Leaves strings publics size =
    (2 ^ 31 ≤ publics)
    ⊎ (size < publics * 8)
    ⊎ ((strings < 2 ^ 31) × (size < publics * 8 + strings))
    ⊎ ((2 ^ 31 ≤ strings) × (publics * 8 < 2 ^ 32 - strings))

module _ (strings globals publics : ℕ) (buffer : List ℕ) where
  abbrev unpacked : ℕ → Bytefile
  unpacked code_ptr = record {
    code_size = length buffer - code_ptr;
    string_ptr = publics * 2 * 4;
    public_ptr = 0;
    code_ptr = code_ptr;
    stringtab_size = strings;
    global_area_size = globals;
    public_symbols_number = publics;
    buffer = buffer;
  }

  abbrev Unpacks : Type 0
  Unpacks =
      ((bf : Bytefile) × (unpack strings globals publics buffer ≡ ok bf)
        × StartsAt strings publics bf.code_ptr
        × (bf.code_size + bf.code_ptr ≡ length buffer))
      ⊎ (Leaves strings publics (length buffer)
          × (unpack strings globals publics buffer ≡ err Error.fault))
