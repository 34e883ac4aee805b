-- ===== src/Lib.antt =====
-- Rev is a cycle-based RISC-V processor model for the Structural Simulation Toolkit. A processor
-- (src/RevProc.cc) fetches a word, finds its row in the instruction tables (include/RevInstTable.h),
-- decodes it by the row's format and calls the row's function (include/insns), which reads and
-- writes the register file and calls the memory (src/RevMem.cc), which may go through a memory
-- controller (src/RevMemCtrl.cc). This library models the decoder, the integer and atomic instructions,
-- the memory with its address translation, the controller, and the parts around them.
--
-- Prelude: names of the libraries passed on, Boolean tests, lists. Bits: the bit operations on
-- numbers, cut at a bit.
-- Word: the macros SEXT and ZEXT and the helpers td_u32, td_u64, dt_u32 and dt_u64 of
-- include/RevInstTable.h; Word/Extend is about their sign extension.
-- Inst: RevInst, RevInstEntry and the enumerations of include/RevInstTable.h.
-- RegFile: RevRF (include/RevRF.hpp), RevRegFile (include/RevInstTable.h) and RevFeature
-- (include/RevFeature.h). `x32` and `x64` read a register, `set32` and `set64` store to it, `step32`
-- and `step64` add the size of the instruction to the program counter.
-- Decode: the format decoders of src/RevProc.cc. Decode/Standard has DecodeRInst to DecodeR4Inst,
-- Decode/Compact has DecodeCRInst to DecodeCJInst, Decode/Encode the formats of the RISC-V manual.
-- Decode/Table has the keys of the rows and the maps of InitTableMapping, Decode/Dispatch DecodeInst
-- and Decode/Compressed DecodeCompressed; the tables and the coprocessor are parameters there.
-- Isa: what the manual says of the integer instructions.
-- Rv32i: the functions of include/insns/RV32I.h. Alu, Branch, Memory, System and Compact translate
-- them; Refines, Immediate, Control, Loads, Stores and Expand hold them against Isa.
-- Rv32m: the functions of include/insns/RV32M.h; Arith has the unsigned ones, Signed the others.
-- Rv64i: the functions of include/insns/RV64I.h; Alu has the word instructions, Memory the loads and
-- stores, Compact the compressed ones.
-- Rv64m: the functions of include/insns/RV64M.h.
-- MemPort: what the instructions use of the memory, as an interface; Filled fills it by ReadMem and WriteMem.
-- Mem: Tlb has FlushTLB, SearchTLB and AddToTLB of src/RevMem.cc, Paging has CalcPhysAddr and
-- isValidVirtAddr, Bytes has ReadMem and WriteMem without a memory controller. Segments has
-- MemSegment and the functions that allocate segments, free them and move the end of the heap.
-- Proc: parts of the pipeline of src/RevProc.cc. Scoreboard has DependencyCheck, DependencySet and
-- DependencyClear, Harts has GetHartID.
-- Rv32a, Rv64a: the functions of include/insns/RV32A.h and RV64A.h; AtomicPort is what they use of the
-- memory, which Mem/Amo (AMOMem) and Mem/Lrsc (LRBase, SCBase) fill.
-- MemCtrl: RevBasicMemCtrl of src/RevMemCtrl.cc. The module itself has the state and the calls of the
-- core, Cache and Rqst the requests that an object makes, Arbiter their dispatch (processNextRqst and
-- clockTick), Resp the responses and performAMO. Rounds and Laws are about the dispatch, Counted and
-- Answers about the counters, Reach about any order of calls, ticks and responses, Modify about
-- performAMO. A tick has one round more than the queue has objects.
-- Loader: WriteCacheLine and the checks of the header of src/RevLoader.cc.
-- Ext: EnableExt and SeedInstTable (Ext/Seed) of src/RevProc.cc and Execute of src/RevExt.cc up to the
-- call: which row an entry of the instruction table runs.
-- PanExec: src/PanExec.cc, the queue of entries to execute. Opts: src/RevOpts.cc, the options of each core;
-- Split has splitStr, Number the conversions of the C++ library that it calls.
-- ThreadCtx: src/RevThreadCtx.cc.
-- Prefetcher: src/RevPrefetcher.cc; the streams of instruction words, their fills and fetches.
-- Fixtures: a register file and instructions for the runs of the Tests modules.
--
-- A word of w bits is a natural number below 2 ^ w, with each truncation written out; a signed value
-- is the pattern of its bits. `unsigned long` has 64 bits. A register file is a function from
-- register numbers; register 0 reads as zero whatever is stored, as `operator[]` of RevRF clears it
-- before each access. An instruction function always returns true, so the model gives the register
-- file that it leaves; a call of `output->fatal` gives none. The loops of the helpers are bounded by
-- the width. The rounds of WriteCacheLine run on fuel, one more than the bytes.
--
-- The register file is read at a register in the statements, since the code may store a value twice.
-- A physical memory is up to 4 GiB (2 ^ 14 frames of 2 ^ 18 bytes): the statements on the memory ask for
-- free frames below that, since the code shifts a frame number on 32 bits.
--
-- The memory of the loads and stores is a parameter: `ReadVal` is taken without a memory controller,
-- where the value is there on return. The prefetcher uses the same port, which
-- MemPort/Filled fills by the modelled memory. The draw of `RandCost` comes from the host's `rand`.
--
-- Not modelled: the float extensions, the clock of the pipeline, the system
-- calls, the rest of the loader, and the components that only wire the parts to the simulator or send messages
-- through it (CPU, network, coprocessor). Of the memory the futures, of
-- the controller its statistics and the set-up of the interface, of the decoder the rows of the
-- instruction tables and their overrides.
pub mod Prelude
pub mod Bits
pub mod Word
pub mod Inst
pub mod RegFile
pub mod Fixtures
pub mod MemPort
pub mod Mem
pub mod Decode
pub mod Isa
pub mod Rv32i
pub mod Rv32m
pub mod Rv64i
pub mod Rv64m
pub mod AtomicPort
pub mod Rv32a
pub mod Rv64a
pub mod Loader
pub mod MemCtrl
pub mod PanExec
pub mod Opts
pub mod Ext
pub mod Proc
pub mod ThreadCtx
pub mod Prefetcher
