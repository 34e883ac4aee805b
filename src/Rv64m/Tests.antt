-- ===== src/Rv64m/Tests.antt =====
-- An instance of the laws of the word divisions, and a run of the unused high product.
use rev.Prelude.{ℕ, ◌<◌, ◌≡◌, ◌^◌, refl, arith}
use rev.RegFile.{get, x64}
use rev.Fixtures.{start}
use rev.Rv64m.Arith.{mulhu64_impl}

start_fits : (k : ℕ) → x64 start k < 2 ^ 64
unfolding get
start_fits k = ground arith

-- The high word of 2 * 2^63 is 1; the routine adds where it is to multiply, and gives 0.
high_product_wrong : mulhu64_impl 2 (2 ^ 63) ≡ 0
unfolding mulhu64_impl
high_product_wrong = refl
