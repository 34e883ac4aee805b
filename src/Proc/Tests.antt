-- ===== src/Proc/Tests.antt =====
-- Instances of the laws of the scoreboards and of the choice of a hart.
use rev.Prelude.{ℕ, ◌<◌, ◌≡◌, ◌⊎◌, refl, arith, Bool, true, false, ◌==◌, ◌||◌, none}
use rev.Fixtures.{start, inst, feature, row}
use rev.Inst.{RevInst}
use rev.Proc.Harts.{get_hart_id, Found, get_hart_id-cases}
use rev.Proc.Scoreboard.{dependency_check, dependency_set}
use rev.Proc.Scoreboard.Laws.{reads, dependency_check-dependency_set}

-- The next instruction reads register 7, which this one writes.
abbrev reader : RevInst
reader = record (inst 0) { rd = 8; rs1 = 7 }

dependency_check-dependency_set_example :
    dependency_check (feature 64) (dependency_set (feature 64) start row (inst 0)) none row reader
    ≡ (reads reader 7 || dependency_check (feature 64) start none row reader)
dependency_check-dependency_set_example =
    dependency_check-dependency_set (feature 64) start row row (inst 0) reader refl (omega arith)
      (omega arith) (omega arith) (omega arith) (omega arith)

-- Of four harts the first alone is ready.
abbrev first_ready : ℕ → Bool
first_ready k = k == 0

get_hart_id-cases_example :
    (((j : ℕ) → j < 4 → first_ready j ≡ false) × (get_hart_id first_ready 4 2 ≡ 2))
    ⊎ ((first_ready 2 ≡ true) × (get_hart_id first_ready 4 2 ≡ 2))
    ⊎ ((first_ready 2 ≡ false) × Found first_ready 4 2 4 (get_hart_id first_ready 4 2))
get_hart_id-cases_example = get_hart_id-cases first_ready 4 (omega arith) 2 (omega arith)
