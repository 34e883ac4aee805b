-- ===== src/Rv32m.antt =====
-- include/insns/RV32M.h: the multiply and divide instructions.
pub mod Arith
pub mod Laws
pub mod Signed
mod Tests
