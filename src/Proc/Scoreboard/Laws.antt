-- ===== src/Proc/Scoreboard/Laws.antt =====
-- The scoreboards: a set destination is seen by every reader of its class, and clearing undoes it.
use rev.Prelude.{
  ℕ, ◌<◌, ◌≡◌, refl, arith, Bool, true, false, not, ltb, ◌==◌, ◌&&◌, ◌||◌, if◌then◌else◌, none,
  fun_ext, sym, ap, lt→ltb, Bool-cases, inl, inr,
}
use rev.Inst.{RevInst, RevInstEntry}
use rev.RegFile.{RevFeature, RevRegFile, is_rv32}
use rev.Decode.Standard.{is_float}
use rev.Proc.Scoreboard.{
  mark, check_board, board, assign, hazard_set, dependency_check, dependency_set, dependency_clear,
}

-- An instruction reads a register.
abbrev pub reads : RevInst → ℕ → Bool
reads i k = (i.rs1 == k) || (i.rs2 == k) || (i.rs3 == k)

mark-mark : (b : ℕ → Bool) (k : ℕ) (v w : Bool) → b k ≡ v → mark k v (mark k w b) ≡ b
unfolding mark
mark-mark b k v w e = fun_ext (λ j. mark_at j)
  where
    mark_at : (j : ℕ) → (if j == k then v else if j == k then w else b j) ≡ b j
    mark_at j = elim (Bool-cases (j == k)) [
      | inl here ↦ let same : j ≡ k = ground arith in rw (here, same) (sym e)
      | inr other ↦ rw other refl
    ]

module _ (f : RevFeature) where
  -- Reading the scoreboard of a class after an assignment to the same class.
  board-assign :
      (float : Bool) (k j : ℕ) (v : Bool) (r : RevRegFile)
      → board f float (assign f float k v r) j ≡ (if j == k then v else board f float r j)
  unfolding board assign mark
  board-assign true k j v r = elim (Bool-cases (is_rv32 f)) [
    | inl narrow ↦ rw narrow refl
    | inr wide ↦ rw wide refl
  ]
  board-assign false k j v r = elim (Bool-cases (is_rv32 f)) [
    | inl narrow ↦ rw narrow refl
    | inr wide ↦ rw wide refl
  ]

  -- An assignment that is taken back leaves the register file.
  assign-assign :
      (float : Bool) (k : ℕ) (v w : Bool) (r : RevRegFile)
      → board f float r k ≡ v
      → assign f float k v (assign f float k w r) ≡ r
  unfolding board assign
  assign-assign true k v w r e = elim (Bool-cases (is_rv32 f)) [
    | inl narrow ↦ rw narrow (
        ap (λ b. record r { spf_scoreboard = b })
          (mark-mark r.spf_scoreboard k v w (rw narrow at e)))
    | inr wide ↦ rw wide (
        ap (λ b. record r { dpf_scoreboard = b }) (mark-mark r.dpf_scoreboard k v w (rw wide at e)))
  ]
  assign-assign false k v w r e = elim (Bool-cases (is_rv32 f)) [
    | inl narrow ↦ rw narrow (
        ap (λ b. record r { rv32_scoreboard = b })
          (mark-mark r.rv32_scoreboard k v w (rw narrow at e)))
    | inr wide ↦ rw wide (
        ap (λ b. record r { rv64_scoreboard = b })
          (mark-mark r.rv64_scoreboard k v w (rw wide at e)))
  ]

-- The tests of the scoreboard, for register numbers below 32.
check_board_lem :
    (b c : ℕ → Bool) (k : ℕ) (i : RevInst)
    → i.rs1 < 32
    → i.rs2 < 32
    → i.rs3 < 32
    → ((j : ℕ) → c j ≡ (if j == k then true else b j))
    → check_board c i ≡ (reads i k || check_board b i)
unfolding check_board
check_board_lem b c k i h1 h2 h3 same = ground (arith, same i.rs1, same i.rs2, same i.rs3)

-- Once the destination of an instruction is set, an instruction of the same class depends exactly
-- where it reads that register or did before. The destination is from 1 to 31, the registers read
-- are below 32, and no load hazard is pending.
pub dependency_check-dependency_set :
    (f : RevFeature) (r : RevRegFile) (e e' : RevInstEntry) (i i' : RevInst)
    → is_float e' ≡ is_float e
    → 0 < i.rd
    → i.rd < 32
    → i'.rs1 < 32
    → i'.rs2 < 32
    → i'.rs3 < 32
    → dependency_check f (dependency_set f r e i) none e' i'
      ≡ (reads i' i.rd || dependency_check f r none e' i')
unfolding dependency_check dependency_set hazard_set
dependency_check-dependency_set f r e e' i i' same positive below h1 h2 h3 =
    let stored : (not (i.rd == 0) && ltb i.rd 32) ≡ true = ground (arith, positive, below) in
    rw (same, stored)
      (check_board_lem (board f (is_float e) r)
        (board f (is_float e) (assign f (is_float e) i.rd true r)) i.rd i' h1 h2 h3
        (λ j. board-assign f (is_float e) i.rd j true r))

-- Clearing the destination of an instruction after setting it gives the register file back, where
-- the destination is from 1 to 31 and was clear.
pub dependency_clear-dependency_set :
    (f : RevFeature) (r : RevRegFile) (e : RevInstEntry) (i : RevInst)
    → 0 < i.rd
    → i.rd < 32
    → board f (is_float e) r i.rd ≡ false
    → dependency_clear f (dependency_set f r e i) e i ≡ r
unfolding dependency_clear dependency_set
dependency_clear-dependency_set f r e i positive below clear =
    let stored : (not (i.rd == 0) && ltb i.rd 32) ≡ true = ground (arith, positive, below) in
    rw (stored, lt→ltb i.rd 32 below) (assign-assign f (is_float e) i.rd false true r clear)
