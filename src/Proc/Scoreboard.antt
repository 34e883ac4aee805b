-- ===== src/Proc/Scoreboard.antt =====
-- `DependencyCheck`, `DependencySet` and `DependencyClear` of src/RevProc.cc, on the register file
-- that `GetRegFile` gives for the hart. The row of the instruction is `e`, and `hazard` is what its
-- hazard pointer points to, `none` for a null pointer.
pub mod Laws
use rev.Prelude.{
  ℕ, Bool, true, false, not, ltb, leb, ◌==◌, ◌&&◌, ◌||◌, if◌then◌else◌, Option, none, some,
}
use rev.Inst.{RevInst, RevInstEntry}
use rev.RegFile.{RevFeature, RevRegFile, is_rv32}
use rev.Decode.Standard.{is_float}

-- `_REV_NUM_REGS_`.
abbrev pub num_regs : ℕ
num_regs = 32

-- `Scoreboard[k] = v`.
unfoldable pub mark : ℕ → Bool → (ℕ → Bool) → ℕ → Bool
mark k v board = λ j. if j == k then v else board j

-- The three tests of a scoreboard; an index of 32, which they let through, is past its end.
unfoldable pub check_board : (ℕ → Bool) → RevInst → Bool
check_board board i =
    let dep1 = if leb i.rs1 num_regs then board i.rs1 || false else false in
    let dep2 = if leb i.rs2 num_regs then board i.rs2 || dep1 else dep1 in
    if leb i.rs3 num_regs then board i.rs3 || dep2 else dep2

-- The scoreboard that an instruction of the class uses.
unfoldable pub board : RevFeature → Bool → RevRegFile → ℕ → Bool
board f float r =
    if is_rv32 f
    then (if float then r.spf_scoreboard else r.rv32_scoreboard)
    else if float
    then r.dpf_scoreboard
    else r.rv64_scoreboard

-- The assignment to that scoreboard.
unfoldable pub assign : RevFeature → Bool → ℕ → Bool → RevRegFile → RevRegFile
unfolding mark
assign f float k v r =
    if is_rv32 f
    then (if float
        then record r { spf_scoreboard = mark k v r.spf_scoreboard }
        else record r { rv32_scoreboard = mark k v r.rv32_scoreboard })
    else if float
    then record r { dpf_scoreboard = mark k v r.dpf_scoreboard }
    else record r { rv64_scoreboard = mark k v r.rv64_scoreboard }

unfoldable pub hazard_set : Option Bool → Bool
hazard_set none = false
hazard_set (some h) = h

module _ (f : RevFeature) (r : RevRegFile) where
  unfoldable pub dependency_check : Option Bool → RevInstEntry → RevInst → Bool
  unfolding check_board board hazard_set is_float
  dependency_check hazard e i =
      if hazard_set hazard then true else check_board (board f (is_float e) r) i

  -- `DependencySet(HartID, Inst)` and `DependencySet(HartID, RegNum, isFloat)`.
  unfoldable pub dependency_set : RevInstEntry → RevInst → RevRegFile
  unfolding assign is_float
  dependency_set e i =
      if not (i.rd == 0) && ltb i.rd num_regs then assign f (is_float e) i.rd true r else r

  unfoldable pub dependency_set_reg : ℕ → Bool → RevRegFile
  unfolding assign
  dependency_set_reg reg_num float =
      if not (reg_num == 0) && ltb reg_num num_regs then assign f float reg_num true r else r

  -- `DependencyClear(HartID, Inst)` and `DependencyClear(HartID, RegNum, isFloat)`.
  unfoldable pub dependency_clear : RevInstEntry → RevInst → RevRegFile
  unfolding assign is_float
  dependency_clear e i = if ltb i.rd num_regs then assign f (is_float e) i.rd false r else r

  unfoldable pub dependency_clear_reg : ℕ → Bool → RevRegFile
  unfolding assign
  dependency_clear_reg reg_num float =
      if not (reg_num == 0) && ltb reg_num num_regs then assign f float reg_num false r else r
