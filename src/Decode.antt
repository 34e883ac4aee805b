-- ===== src/Decode.antt =====
-- The decoder of src/RevProc.cc. `Standard` has the 32-bit formats, `Compact` the compressed ones;
-- the modules beside them prove what the fields of the decoded instruction are.
pub mod Macros
pub mod Standard
pub mod Compact
pub mod Fields
pub mod Encode
pub mod RoundTrip
pub mod Table
pub mod Dispatch
pub mod Compressed
mod Tests
