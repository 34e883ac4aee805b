-- ===== src/ThreadCtx/Laws.antt =====
-- The descriptors of a thread as a multiset, its children, and the copy of a register file.
use rev.Prelude.{
  ℕ, zero, suc, ◌+◌, ◌<◌, ◌≡◌, refl, arith, Bool, true, false, Bool-cases, inl, inr, List, [], ◌∷◌,
  ◌++◌, ◌==◌, if◌then◌else◌,
}
use rev.RegFile.{RevRegFile, RevRf, get, put, x32, x64}
use rev.ThreadCtx.{
  RevThreadCtx, has, erase_first, add_fd, find_fd, remove_fd, copy_regs, copy_board,
  duplicate_reg_file,
}

-- How often a descriptor is in a list.
unfoldable pub occurrences : ℕ → List ℕ → ℕ
occurrences v [] = 0
occurrences v (x ∷ xs) = (if x == v then 1 else 0) + occurrences v xs

occurrences-snoc :
    (v fd : ℕ) (xs : List ℕ)
    → occurrences v (xs ++ (fd ∷ [])) ≡ occurrences v xs + (if fd == v then 1 else 0)
unfolding occurrences
occurrences-snoc v fd [] = ground arith
occurrences-snoc v fd (x ∷ xs) = omega (arith, occurrences-snoc v fd xs)

has_iff : (v : ℕ) (xs : List ℕ) → has v xs ≡ (if occurrences v xs == 0 then false else true)
unfolding has occurrences
has_iff v [] = ground arith
has_iff v (x ∷ xs) = ground (arith, has_iff v xs)

occurrences-erase_first :
    (v fd : ℕ) (xs : List ℕ)
    → has fd xs ≡ true
    → occurrences v (erase_first fd xs) + (if fd == v then 1 else 0) ≡ occurrences v xs
unfolding has erase_first occurrences
occurrences-erase_first v fd [] e = absurd (ground arith)
occurrences-erase_first v fd (x ∷ xs) e = elim (Bool-cases (x == fd)) [
  | inl here ↦ ground (arith, here)
  | inr later ↦ ground (arith, later, occurrences-erase_first v fd xs (ground (arith, e, later)))
]

-- The descriptors of a thread are a multiset: FindFD tells whether the descriptor is in it, AddFD adds
-- one occurrence, and RemoveFD returns what FindFD does and takes one occurrence away where there is
-- one.
pub fildes_lem :
    (fd v : ℕ) (t : RevThreadCtx)
    → (find_fd v t ≡ (if occurrences v t.fildes == 0 then false else true))
      × (occurrences v (add_fd fd t).fildes ≡ occurrences v t.fildes + (if fd == v then 1 else 0))
      × ((remove_fd fd t).0 ≡ find_fd fd t)
      × (occurrences v (remove_fd fd t).1.fildes
            + (if fd == v then (if find_fd fd t then 1 else 0) else 0)
          ≡ occurrences v t.fildes)
unfolding find_fd add_fd remove_fd
fildes_lem fd v t = (
  has_iff v t.fildes,
  occurrences-snoc v fd t.fildes,
  ground arith,
  elim (Bool-cases (has fd t.fildes)) [
    | inl found ↦ rw found (occurrences-erase_first v fd t.fildes found)
    | inr missing ↦ rw missing (ground arith)
  ],
)

copy_regs_lem : (n j : ℕ) (to from : RevRf) → j < n → get (copy_regs n to from) j ≡ get from j
unfolding copy_regs get put
copy_regs_lem zero j to from h = absurd (omega (arith, h))
copy_regs_lem (suc n) j to from h = ground (arith, copy_regs_lem n j to from)

copy_board_lem : (n j : ℕ) (to from : ℕ → Bool) → j < n → copy_board n to from j ≡ from j
unfolding copy_board
copy_board_lem zero j to from h = absurd (omega (arith, h))
copy_board_lem (suc n) j to from h = elim (Bool-cases (j == n)) [
  | inl last ↦ let same : j ≡ n = ground (arith, last) in rw (last, same) refl
  | inr other ↦ rw other (copy_board_lem n j to from (ground (arith, other, h)))
]

-- DuplicateRegFile returns true and makes a register file with the registers and scoreboards of its
-- argument below 32 and all its other fields, but 0 as the 32-bit SCAUSE; the rest of the thread
-- stays.
pub duplicate_reg_file_lem :
    (dup : RevRegFile) (t : RevThreadCtx) (j : ℕ)
    → j < 32
    → let (ok, t') = duplicate_reg_file dup t in
      let r' = t'.reg_file in
      (ok ≡ true)
      × (x32 r' j ≡ x32 dup j)
      × (x64 r' j ≡ x64 dup j)
      × (r'.rv32_scoreboard j ≡ dup.rv32_scoreboard j)
      × (r'.rv64_scoreboard j ≡ dup.rv64_scoreboard j)
      × (r'.spf_scoreboard j ≡ dup.spf_scoreboard j)
      × (r'.dpf_scoreboard j ≡ dup.dpf_scoreboard j)
      × (record r' {
        rv32 = dup.rv32;
        rv64 = dup.rv64;
        rv32_scoreboard = dup.rv32_scoreboard;
        rv64_scoreboard = dup.rv64_scoreboard;
        spf_scoreboard = dup.spf_scoreboard;
        dpf_scoreboard = dup.dpf_scoreboard;
      }
          ≡ record dup { rv32_scause = 0 })
      × (record t' { reg_file = t.reg_file } ≡ t)
unfolding duplicate_reg_file
duplicate_reg_file_lem dup t j h =
    let r = t.reg_file in
    (
      refl,
      copy_regs_lem 32 j r.rv32 dup.rv32 h,
      copy_regs_lem 32 j r.rv64 dup.rv64 h,
      copy_board_lem 32 j r.rv32_scoreboard dup.rv32_scoreboard h,
      copy_board_lem 32 j r.rv64_scoreboard dup.rv64_scoreboard h,
      copy_board_lem 32 j r.spf_scoreboard dup.spf_scoreboard h,
      copy_board_lem 32 j r.dpf_scoreboard dup.dpf_scoreboard h,
      refl,
      refl,
    )
