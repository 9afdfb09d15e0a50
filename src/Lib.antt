-- ===== src/Lib.antt =====
-- The verification of the C++ models of rv64-ooo-core, an out-of-order core for RV64IM. The core itself
-- is SystemVerilog; each of its units is compared, cycle by cycle, with a C++ reference model, and the
-- whole core with an instruction-set simulator. This library models those references and proves what
-- makes them fit to compare with.
--
-- The parts, and how they interact:
--
-- - Iss: the golden simulator, model/iss.h and model/iss.cpp. `State` has the members of `Iss`;
--   Iss/Memory has `load8` to `store64`, `fetch` and `load`; Iss/Decode the fields and immediates
--   that `Iss::step` takes from an instruction word; Iss/Alu the results of the arithmetic opcodes,
--   `none` for an illegal one; Iss/Execute the `switch` and `step`. Iss/Decode also has the encoders
--   of model/test_iss.cpp, and Iss/SingleStep `run1` of that file and `golden` of
--   sim/muldiv/tb_muldiv.cpp, which runs one instruction to have a reference for the divider.
--   Proofs: Iss/Fields (fields as quotients and remainders), Iss/Encoding, Iss/EncodingStore and
--   Iss/EncodingUpper (encoders against the decoder), Iss/Bytes and Iss/RoundTrip (memory),
--   Iss/Bounds, Iss/Invariant and Iss/Effect (steps).
-- - Rob: the reorder buffer, sim/ooo/rob/rob_model.h, `RobModel<DEPTH, WIDTH>`. Its `step` is `step`,
--   cut into the loops of the source. Rob/Queue is the specification, a queue in program order; the
--   proofs are in Rob/Commit, Rob/Slots, Rob/Invariant, Rob/Retire, Rob/Refine and Rob/Order. The
--   testbench, sim/ooo/rob/tb_rob.cpp, is Rob/Bench (`checkCycle`, `doReset` and what drives the ports),
--   Rob/Directed and Rob/Random (its tests and `main`); Rob/Pending, Rob/Outstanding, Rob/Waiting,
--   Rob/Writebacks and Rob/RandomRun follow the list `outstanding` of the random test.
-- - Rename: register renaming, sim/rename/rename_model.h, `RenameModel`. The local variables of its
--   `step` are definitions of the same names. Rename/Sequential has the specification of one
--   instruction and the proof that two lanes are two of them; Rename/Ring and Rename/FreeList the free
--   list; Rename/Checkpoint the checkpoints. The testbench, sim/rename/tb_rename.cpp, is Rename/Bench
--   (`apply`, `step_and_check`, `check_invariants`, `do_cycle`), Rename/Directed (the directed tests),
--   Rename/Random and Rename/RandomCycle (the random test and `main`), Rename/Drain its loop of renames
--   until the free list is empty. Rename/Partition, Rename/Lanes and Rename/Accounting follow the 64
--   physical registers through a cycle, Rename/Conformance the checks; Rename/Tracking, Rename/Discarding and
--   Rename/TrackedCycle are about the reorder buffer of instructions that the random test keeps.
-- - Lsq: the load and store queues, sim/lsq/lsq_model.h, `LsqModel`. Proofs: Lsq/Forward and
--   Lsq/ForwardMemory (`expectedLoadValue`), Lsq/Squash (`applySquash`), Lsq/Sound and Lsq/Invariant (all
--   operations).
--   The testbench, sim/lsq/tb_lsq.cpp, is Lsq/Bench (its variables, the replay of the commit log),
--   Lsq/BenchCycle (the checks of `cycle`), Lsq/BenchApply (what `cycle` changes, `resetAll`),
--   Lsq/Directed (the directed tests) and Lsq/Random (the random test and `main`). Lsq/Outcome has what
--   a cycle ends in: a result, `exit(1)`, or an access outside the vector `mem`. Lsq/Replay is about the
--   final memory image, Lsq/Window about the inputs that the random test picks.
-- - Cache: sim/cache/l1d/cache_model.h. `ByteMem` is the list of the cells of its map, `put` is its
--   `set`; Cache/Responder is `MemResponder`. Proofs: Cache/Bytes, Cache/ReadBack, Cache/Equal,
--   Cache/Wide and Cache/Responder. The testbench, sim/cache/l1d/tb_l1d.cpp, is Cache/Bench (the
--   bookkeeping of `Sim`), Cache/Sim (`cycle`, `issue`, `drain`, `flush_and_check`, and
--   `seed_random`), Cache/Random (the random test) and Cache/Directed (the directed tests and `main`).
--   Cache/Conserve is about the bookkeeping of a cycle, Cache/Access about the random addresses.
-- - Predictor: `RefModel` of sim/bp/tb_bp.cpp, and the trace that the testbench runs; Predictor/Bench is
--   its `main`. Proofs: Predictor/Clog, Predictor/Learning and Predictor/Conformance.
-- - Run: the loop of model/main.cpp over `Iss::step`, with the exit codes; it takes the memory image as
--   a list of bytes.
-- - Divider: `run_case` of sim/muldiv/tb_muldiv.cpp; Divider/Cases has its cases and `main`,
--   Divider/Verdict what its verdict shows. The device compiled from the RTL is a parameter, `Device`: its
--   inputs are set, the circuit is evaluated, and `busy`, `done` and `y` are read.
-- - Prelude: what the parts share: tests on numbers, lists read by a number, circular buffers, bit
--   operations as arithmetic, machine words, the bytes of a number.
--
-- In the source the testbenches give the same requests to a model and to the device compiled from the
-- RTL, and compare. The models do not call each other; what they share is the simulator, and the
-- circular buffers of the reorder buffer, the queues and the free list.
--
-- How the code is read. A word of the machine is the number of its bit pattern, with the reduction
-- modulo 2^w written out; signed operations go through the integer of a pattern. Where C++ leaves an
-- overflow open (signed addition, multiplication and shifts in `Iss::step`), the result is taken as
-- two's complement, as the compilers that build the core do. `int` variables that the source keeps
-- from 0 on are numbers; `ckpt_count_` of the rename model and `countdown` of the memory's responder
-- are integers. Vectors are lists, with 0 or a default entry out of range, where the source has no
-- defined behaviour. The template parameters and macros (DEPTH, WIDTH, LQ_DEPTH, SQ_DEPTH, ROB_IDX_W,
-- PHT_ENTRIES, BTB_ENTRIES, TAG_BITS) are parameters of the definitions. `rand()` and the random
-- number generators of the testbenches are arguments. The Verilated class of a device is a record
-- `Device` that the definitions take: its state, its inputs, its evaluation and its outputs. `exit(1)`
-- in a testbench is `none`, or an outcome of its own.
--
-- Loops and fuel. A `for` loop, and the loops of tries and of a safety count, are structural recursion
-- on the rounds left, which the source bounds. The loop of `clog2` has the 32 rounds in which the
-- shift of a 32-bit number is defined, and `none` after them. The loop of sim/rename/tb_rename.cpp
-- that renames until the free list is empty is on fuel; Rename.Drain says how much is enough, since
-- each round takes two registers of at most 32. The loops of sim/cache/l1d/tb_l1d.cpp wait for the
-- device and have no bound in the code: on fuel, and a device that never answers uses any amount up,
-- which is the result `none`.
--
-- Not modelled: the RTL, the scripts in Python, the physical design flow, file reading and printing; the
-- testbenches of the whole core and of the fetch unit, and those that only collect
-- coverage or run assertions; of model/main.cpp the arguments, the trace and the register dump; of
-- cache_model.h `diff_report`, which prints.
pub mod Prelude
pub mod Cache
pub mod Divider
pub mod Iss
pub mod Lsq
pub mod Predictor
pub mod Rename
pub mod Rob
pub mod Run
