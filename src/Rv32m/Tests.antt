-- ===== src/Rv32m/Tests.antt =====
-- Instances of the laws of multiplication and division.
use rev.Prelude.{◌≡◌, refl, arith, ◌^◌, ◌-◌, ◌==◌, if◌then◌else◌}
use rev.RegFile.{get, put, set64, step64}
use rev.Fixtures.{start, inst, feature}
use rev.RegFile.{RevRegFile}
use rev.Rv32m.Arith
use rev.Rv32m.Signed.{mulh_impl}
use rev.Rv32m.Signed.High.{mulh_impl_lem}
use rev.Rv32m.Laws.{mulhu_impl_lem}

mulhu_impl_lem_example : Arith.mulhu_impl (2 ^ 64 - 1) (2 ^ 64 - 1) ≡ 2 ^ 64 - 2
mulhu_impl_lem_example = mulhu_impl_lem (2 ^ 64 - 1) (2 ^ 64 - 1) (omega arith) (omega arith)

-- A divisor with its top bit set leaves the dividend, where the remainder is another.
remu_sign :
    (Arith.remu
        (feature 64)
        (record start { rv64 = λ k. if k == 5 then 2 ^ 64 - 1 else if k == 6 then 2 ^ 63 else 0 })
        (inst 0)).rv64
      7
    ≡ 2 ^ 64 - 1
unfolding Arith.remu get put set64 step64
remu_sign = refl

-- -7 by 2.
abbrev minus_seven : RevRegFile
minus_seven = record start {
  rv32 = λ k. if k == 5 then 2 ^ 32 - 7 else if k == 6 then 2 else 0;
  rv64 = λ k. if k == 5 then 2 ^ 64 - 7 else if k == 6 then 2 else 0;
}

-- -1 times 2.
mulh_impl_lem_example : mulh_impl (2 ^ 64 - 1) 2 ≡ 2 ^ 64 - 1
mulh_impl_lem_example = mulh_impl_lem (2 ^ 64 - 1) 2 (omega arith) (omega arith)
