-- ===== src/Mem.antt =====
-- src/RevMem.cc and include/RevMem.h: the TLB, the address translation and the byte accesses and
-- the segments of `RevMem`.
pub mod Tlb
pub mod Paging
pub mod Bytes
pub mod Segments
pub mod Amo
pub mod Lrsc
pub mod Fixtures
mod Tests
