-- ===== src/Rv32i/System.antt =====
-- The fences, `ecall`, `ebreak` and the CSR instructions of include/insns/RV32I.h. The CSR
-- instructions and `ebreak` only step.
use rev.Prelude.{ℕ, if◌then◌else◌}
use rev.Inst.{RevInst}
use rev.RegFile.{RevFeature, RevRegFile, is_rv32, step32, step64}
use rev.MemPort.{MemPort}

-- `EXCEPTION_CAUSE::ECALL_USER_MODE`.
abbrev pub ecall_user_mode : ℕ
ecall_user_mode = 8

module _ (f : RevFeature) (r : RevRegFile) (i : RevInst) where
  unfoldable pub step : RevRegFile
  step = if is_rv32 f then step32 i r else step64 i r

  unfoldable pub ecall : RevRegFile
  ecall =
      if is_rv32 f
      then step32 i
          (record r { rv32_sepc = r.rv32_pc; rv32_stval = 0; rv32_scause = ecall_user_mode })
      else step64 i
          (record r { rv64_sepc = r.rv64_pc; rv64_stval = 0; rv64_scause = ecall_user_mode })

  unfoldable pub ebreak : RevRegFile
  unfolding step
  ebreak = step

  unfoldable pub csrrw : RevRegFile
  unfolding step
  csrrw = step

  unfoldable pub csrrs : RevRegFile
  unfolding step
  csrrs = step

  unfoldable pub csrrc : RevRegFile
  unfolding step
  csrrc = step

  unfoldable pub csrrwi : RevRegFile
  unfolding step
  csrrwi = step

  unfoldable pub csrrsi : RevRegFile
  unfolding step
  csrrsi = step

  unfoldable pub csrrci : RevRegFile
  unfolding step
  csrrci = step

  module _ {ℓ} {Mem : Type ℓ} (port : MemPort Mem) (m : Mem) where
    unfoldable pub fence : Mem × RevRegFile
    unfolding step
    fence = (port.fence_mem f.hart m, step)

    unfoldable pub fencei : Mem × RevRegFile
    unfolding step
    fencei = (port.fence_mem f.hart m, step)
