-- ===== src/Lib.antt =====
-- Models and proofs for the emulator icicle-emu: the p-code optimizer with its constant evaluator and
-- dead store elimination, the integer operations of the interpreter, the processor state, the memory
-- and the search for the constructor of an instruction.
--
-- How the parts interact. Guest instructions are lifted to p-code (sleigh/pcode), which the
-- interpreter (icicle-cpu/src/exec/interpreter.rs) executes and the optimizer simplifies by a
-- bit-level constant evaluator (icicle-cpu/src/exec/const_eval.rs); the two must agree. Loads and
-- stores go through a translation cache (icicle-mem/src/tlb.rs) to pages with permissions
-- (icicle-mem/src/perm.rs); the layout of the address space is a range map
-- (icicle-mem/src/range_map.rs). An instruction is decoded by the tables that sleigh/sleigh-compile
-- writes and sleigh/sleigh-runtime reads.
--
-- Base: names of the libraries, Boolean tests, lists over the native numbers, powers of two, bits.
-- Pcode.Op: `Op`, `BranchHint` and `has_side_effects` of sleigh/pcode/src/ops.rs.
-- Pcode.Sizes: `native_var_sizes` and `is_float` of the same file.
-- Pcode.Var: `VarNode` and `Value` of the same file and their slices.
-- Pcode.Block: inputs, instructions and blocks of the same file, with their temporaries.
-- Interpreter.IntOp: the traits `IntOp`, `CmpOp`, `IntSingleOp` and the arms of the shifts, on `w`-bit
--   numbers, of icicle-cpu/src/exec/interpreter.rs.
-- ConstEval.Bit, BitVec, Shift, Eval: `Bit`, `BitVecExt` and `eval` of const_eval.rs, lowest bit
--   first. A bit is a constant, a bit of an expression, or unknown; `Denotes` and `IsValue` say which
--   Booleans and numbers bits may stand for, under a valuation of the expressions. `ConstEval.Eval.Agree`
--   and `Moves` compare with the interpreter. ConstEval.Naming: the end of `ConstEval::eval`.
-- Optimizer.LiveBytes, Optimizer.DeadStores: `LiveBytes`, `DeadStoreDetector` and `dead_store_elimination`
--   of icicle-cpu/src/lifter/optimize.rs. `Machine` runs blocks on variables of bytes up to an
--   exception, with what an operation computes as a parameter; `Straight` says for which blocks,
--   without branches, hooks and helpers, `Steps` what each step of the scan does to a byte, `Sound`
--   compares the runs that complete.
-- Cpu.ExceptionCode, Cpu.State, Cpu.Regs: exception codes of icicle-cpu/src/lib.rs, the fuel, the
--   instruction count and the shadow stack of icicle-cpu/src/cpu.rs, and the register space of
--   icicle-cpu/src/regs.rs, with a function from offsets to bytes.
-- Mem.Perm: error codes, `check` and `check_bytes` of perm.rs.
-- Mem.RangeMap: `VecRangeMap`; `Entries` reads its two vectors as one sorted list, `Insert` and
--   `Removal` say what the operations leave; `Cursor` walks through the pieces of a range,
--   `Walk` is `overlapping_iter` with it, and `Split` is `overlapping_mut`, whose function has a state of
--   its own; `Split.Visits` compares the two, `Split.Updates` applies the changes.
-- Mem.Tlb: `TranslationCache` and `TLBEntry`; a page is the address of its data in the host.
-- Mem.Physical: `PhysicalMemory` and `Page` of physical.rs, with the contents of a page as a type.
-- Mem.Page: `PageData` of the same file, its reads, writes and permissions.
-- Mem.Align: `align_up`, `align_down` and `AllocLayout` of icicle-mem/src/lib.rs.
-- Linux.FileTable: `FileTable` of icicle-linux/src/fs/file.rs, with the calls that wake a process as
--   events in the results; `Numbers` is its set of free descriptors, `Slots` its vector.
-- Mem.Mmu: mapping, the search for free memory and allocation of icicle-mem/src/mmu.rs; `Hooks` is its
--   `HookStore`, `Queries` asks what is mapped, `Regions` unmaps and changes the permissions of the
--   pieces of a region, and `Filling` fills them and marks them as executed, each with the closure
--   that it gives to `overlapping_mut`.
-- Sleigh.Field, Sleigh.Decoder: `Field` and `Token` of sleigh/sleigh-runtime/src/lib.rs, and the state and
--   the tokens of `Decoder` in decoder.rs. An `i64` is the unsigned reading of its bits (Sleigh.Signed).
-- Sleigh.Expr: the stack machine of expr.rs, and `resolve_pattern_expr` of sleigh/sleigh-compile, which
--   writes its code; `Laws` says what an expression means, `Compile` compares.
-- Sleigh.Instruction, Sleigh.Decode, Sleigh.Backtrack: a decoded instruction, the actions of a constructor,
--   and `decode_subtable` with its backtracking, of decoder.rs; `Kept` and `Attempts` say what an
--   attempt keeps, `Restored` what decoding leaves.
-- Sleigh.Folding: `const_eval` of sleigh/sleigh-runtime/src/const_eval.rs; `Agree` compares it with the
--   interpreter.
-- Sleigh.Matcher: patterns, constraints and the sequential matcher of matcher.rs; `Search` says what
--   repeated searches find, `Progress` that they go forward.
--
-- Bounds. Widths are at most 128 bits, the size of `Value`; an address is below 2 ^ 64. Loops are
-- structural recursion on the vectors, or on the number of pages in `remove_range`. The search for
-- free memory has fuel: every round passes the end of a mapped range for good, so that one round
-- more than there are ranges is enough. So have `overlapping_iter` and `overlapping_mut`: every
-- item takes an address off the range. Decoding has one round more than a matcher has cases, each
-- of which starts behind the last match, and fuel for subtables within each other: each has more
-- subtables reserved before it, and there are at most `max_subtables` and one. The vector of files
-- is taken to fit in memory. A panic is `none`, or `panicked` in an outcome.
--
-- Not modelled: what a hook or a helper does to registers, the state at an exception after dead
-- store elimination, floating point, division and control flow of the interpreter, the tables of
-- `ConstEval` and constant propagation, the initialisation of pages, copy on write, moves,
-- snapshots and the accesses of the memory unit, the lifter, the end of the decoding with its
-- delay slots, the rest of the Sleigh compiler, the virtual machine, the just-in-time compiler (a
-- third-party code generator), the Linux environment but for its file table, fuzzing and the
-- debugger stub (input and output).
pub mod Base
pub mod Pcode
pub mod Interpreter
pub mod ConstEval
pub mod Optimizer
pub mod Cpu
pub mod Mem
pub mod Linux
pub mod Sleigh
