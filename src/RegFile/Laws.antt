-- ===== src/RegFile/Laws.antt =====
-- The register file: register zero reads as zero, and a store is seen at its register alone.
use rev.Prelude.{ℕ, ◌≡◌, refl, arith, ltb, ◌==◌, ◌&&◌, if◌then◌else◌}
use rev.RegFile.{RevRf, get, put}

pub get-put :
    (rf : RevRf) (i j v : ℕ) → get (put rf i v) j ≡ (if ltb 0 j && (j == i) then v else get rf j)
unfolding get put
get-put rf i j v = ground arith

pub get-zero : (rf : RevRf) → get rf 0 ≡ 0
unfolding get
get-zero rf = refl
