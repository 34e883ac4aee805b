-- ===== src/Rv64i.antt =====
-- include/insns/RV64I.h: the instructions that RV64 adds to the base set, and their compressed
-- forms.
pub mod Alu
pub mod Memory
pub mod Compact
pub mod Moves
pub mod Refines
pub mod Immediate
mod Tests
