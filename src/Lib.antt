-- ===== src/Lib.antt =====
-- The bytecode interpreter for Lama: the loader of a bytecode file, the verifier that looks at the
-- file before it is run, the stack machine that runs it, and the analyzer that looks for frequent
-- sequences of instructions.
--
-- The program (src/main.cpp) reads a file (bytefile/bytefile.cpp), verifies it
-- (src/verifier/Verifier.hpp), and interprets it (`interpret` of src/main.cpp) by one handler for
-- each instruction (src/single_interpreters) on a state (src/state) with a decoder (src/decoders).
-- The verifier finds the number of operands in front of each instruction and writes the largest of
-- each function into the upper half of the first argument of its BEGIN, where the interpreter's
-- handler of BEGIN reads it to test the room on the stack.
--
-- The files:
--   Prelude, Result, Fuel: shared names, the exceptions of the program as values, and what it means
--     that a loop on fuel ends by itself.
--   Word: machine words as native numbers, reads and writes of bytes. Word.Boxing is
--     src/single_interpreters/boxing.hpp; Word.Signed holds the operations of `BinOpMap`,
--     which Word.Signed.Integers and Interp.Binop.Meaning compare with those on the integers
--     (Prelude.Int).
--   Bytefile: bytefile/bytefile.cpp. `read_file` starts from the bytes of the file. Bytefile.Bounds and
--     Bytefile.Errors are about the sizes of a file.
--   Instruction: src/decoders and the enumerations of the lower bits.
--   Byterun: `get_instruction_type` and `general_byterun` of src/analyzer/Analyzer.hpp.
--   Verifier: Effect is `get_new_stack`, Marks is `collect_marks` with its two loops, Variables is
--     `validate_variable`, Scan is `verify`. Marks.Paths defines the control flow that
--     `collect_marks` follows as a relation, which does not lead into the bodies of closures.
--   Machine: the state (`StackMachineState`, `FrameStack`, `InstructionDecoder`) and the methods of
--     `FrameStack` (Machine.Frames). Machine.Frames.Calls is about the calling convention.
--   Interp: the handlers, by the files of src/single_interpreters, and the loop of `interpret`
--     (Interp.Loop). Interp.Runtime holds what the interpreter calls of the runtime library.
--     Interp.Moves and Interp.Depth follow the top of the stack through the handlers, Interp.Flow the
--     offset of the next instruction, and Interp.Flow.Runs both through the rounds of the loop.
--     Interp.Progress is about the instructions that call nothing and have a value for all operands,
--     that is, without DIV, MOD and the variables of closures; Interp.Progress.Access about the
--     variables of a frame. Interp.Progress.Functions, Interp.Progress.Calls and
--     Interp.Progress.Programs follow the loop through a function, a call and a whole run.
--   Analyzer: the traversals of the class `Analyzer`, in Analyzer.Order the orders by which it sorts,
--     and in Analyzer.Results the rest of `analyze` and `results`. `std::sort` is a parameter.
--     Analyzer.Flagged, Analyzer.Traversal and Analyzer.Once keep account of the offsets that it meets,
--     and Analyzer.Ends of the flags. Analyzer.Targets and Analyzer.Reached define its control flow as
--     a relation.
--   Printer: `print_instructions` of src/printers.hpp.
--   Program: `main` of src/main.cpp. Tests.Mains runs it on a small file.
--   Tests: the theorems at concrete inputs.
--
-- Conventions. A byte or a word is a native number, the bit pattern; where the source subtracts or
-- multiplies, the wrap-around is written out, also for the product of two `int64_t`, whose overflow
-- C++ leaves undefined. A pointer to a word of the stack is its address divided by 8; a pointer into
-- the code is the offset from `bf->code_ptr`. An access outside of an object is the error `fault`, and
-- so is a pointer of `read_file` that leaves the bytes behind the header.
-- An exception is the value `err` with a constructor for each `throw`.
--
-- Fuel. `collect_marks` gives both of its loops a unit for each byte of the code and one more: each
-- round but the last marks a byte or takes a marked one from the queue. The loops of `verify` and of
-- `interpret` need not end, so that their fuel is a parameter. The loop over the string table has a
-- unit for each of its bytes and one more. In the analyzer each round sets a flag of an offset or takes
-- an offset from a queue that is put there at most twice, and the counting has a unit for each
-- offset. The printer has a unit for each byte of the code and one more.
--
-- Not modelled: the runtime library of Lama (runtime), which is a copy of that of the Lama compiler
-- and whose functions are parameters; `std::sort`, which is a parameter; opening and reading a file
-- but for its bytes, and files of 2 ^ 31 bytes or more, whose size is no `int`; the handler of SIGSEGV; the measured times, the texts of the messages and the
-- exit codes.
pub mod Prelude
pub mod Result
pub mod Word
pub mod Bytefile
pub mod Instruction
pub mod Fuel
pub mod Byterun
pub mod Verifier
pub mod Analyzer
pub mod Printer
pub mod Machine
pub mod Interp
pub mod Program
pub mod Tests
