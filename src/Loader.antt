-- ===== src/Loader.antt =====
-- `WriteCacheLine` and the checks of the header of src/RevLoader.cc. `write` is `WriteMem` of hart 0:
-- an address, a number of bytes and their offset in `Data`. A failed write is fatal, but the return
-- value of a small one is the function's.
pub mod Rounds
pub mod Lines
mod Tests
use rev.Prelude.{
  ℕ, zero, suc, ◌+◌, ◌-◌, ◌*◌, ◌/◌, ◌%◌, ◌^◌, Bool, true, false, ◌==◌, ◌&&◌, ltb, Option, some,
  none, ◌>>=◌, if◌then◌else◌,
}
use rev.Word.{u64, minus}

-- `e_ident`, the first bytes of a file.
unfoldable pub is_elf : (ℕ → ℕ) → Bool
is_elf ident = (((ident 0 == 0x7f) && (ident 1 == 0x45)) && (ident 2 == 0x4c)) && (ident 3 == 0x46)

unfoldable pub is_rv_elf32 : (ℕ → ℕ) → Bool
unfolding is_elf
is_rv_elf32 ident = is_elf ident && (ident 4 == 1)

unfoldable pub is_rv_elf64 : (ℕ → ℕ) → Bool
unfolding is_elf
is_rv_elf64 ident = is_elf ident && (ident 4 == 2)

unfoldable pub is_rv_little : (ℕ → ℕ) → Bool
unfolding is_elf
is_rv_little ident = is_elf ident && (ident 5 == 1)

unfoldable pub is_rv_big : (ℕ → ℕ) → Bool
unfolding is_elf
is_rv_big ident = is_elf ident && (ident 5 == 2)

-- The loop that looks for the start of the cache line: address 0 is one.
unfoldable pub base_cache_addr : ℕ → ℕ → ℕ
base_cache_addr line zero = zero
base_cache_addr line (suc a) =
    let below = base_cache_addr line a in if suc a % line == 0 then suc a else below

module _ {ℓ} {Mem : Type ℓ} (write : ℕ → ℕ → ℕ → Mem → Option Mem) where
  -- The rounds of `do ... while( Total < Len )`, on fuel.
  unfoldable pub write_lines : ℕ → ℕ → ℕ → ℕ → ℕ → ℕ → Mem → Option Mem
  write_lines zero line len addr from total m = none
  write_lines (suc fuel) line len addr from total m =
      let left = minus 64 len total in
      let size = if ltb line left then line else left in
      let total' = u64 (total + size) in
      write addr size from m >>= (λ m'.
        let rest = write_lines fuel line len (u64 (addr + size)) (u64 (from + size)) total' m' in
        if ltb total' len then rest else some m')

  -- `Len` bytes take at most `Len` rounds, and one for an empty rest.
  unfoldable pub write_cache_line : ℕ → ℕ → ℕ → Mem → Option Mem
  unfolding write_lines base_cache_addr
  write_cache_line line_size addr len m =
      let line = if line_size == 0 then 64 else line_size in
      let first = minus 64 (u64 (base_cache_addr line addr + line)) addr in
      let lines =
        write addr first 0 m
        >>= (λ m'. write_lines (suc len) line len (u64 (addr + first)) first first m') in
      if len == 0 then some m else if ltb len line then write addr len 0 m else lines
