-- ===== src/Rv64m.antt =====
-- include/insns/RV64M.h: the word multiplication and divisions that RV64 adds.
pub mod Arith
pub mod Refines
mod Tests
