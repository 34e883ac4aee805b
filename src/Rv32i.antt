-- ===== src/Rv32i.antt =====
-- include/insns/RV32I.h. An instruction function takes the feature set, the register file and the
-- decoded instruction; it always returns true, so the model gives the register file that it leaves.
pub mod Alu
pub mod Writes
pub mod Refines
pub mod Immediate
pub mod Branch
pub mod Control
pub mod Memory
pub mod System
pub mod Compact
pub mod Loads
pub mod Stores
pub mod Expand
mod Tests
