-- ===== src/Mem/Lrsc.antt =====
-- `LRBase` and `SCBase` of src/RevMem.cc without a memory controller, with the reservations `LRSC`.
-- `LRSC_VAL` points at the register that the load filled; the words of 64 bits that stand from
-- there on, and from `Data` on, are read through arguments, which are `none` past the registers.
pub mod Search
pub mod Laws
mod Tests
use rev.Prelude.{
  ℕ, zero, suc, ◌+◌, ◌*◌, ◌/◌, ◌%◌, ◌^◌, bit_and, bit_or, Bool, true, false, ◌==◌, ◌&&◌, List, [],
  ◌∷◌, ◌++◌, Option, some, none, ◌>>=◌, if◌then◌else◌,
}
use rev.Word.{u32}
use rev.Mem.Paging.{calc_phys_addr}
use rev.Mem.Bytes.{Memory, copy_bytes, write_mem}

-- An entry of `LRSC`: hart, address, `aq|(rl<<1)` and the register.
pub record Reservation : Type 0 where
  pub hart : ℕ
  pub addr : ℕ
  pub order : ℕ
  pub val : ℕ

pub record Reserved : Type 0 where
  pub memory : Memory
  pub lrsc : List Reservation

-- The search of `LRBase`: both its tests, of the same hart and of another, end in the same return.
unfoldable pub is_reserved : ℕ → List Reservation → Bool
is_reserved addr [] = false
is_reserved addr (e ∷ es) = let rest = is_reserved addr es in if addr == e.addr then true else rest

-- What is written to `Target`: the bytes of memory, or 1 to its low 32 bits.
pub data Linked : Type 0 where
  loaded : (ℕ → ℕ) → Linked
  collides : Linked

unfoldable pub lr_base : ℕ → ℕ → ℕ → ℕ → ℕ → Reserved → Option (Linked × Reserved)
unfolding is_reserved copy_bytes
lr_base hart addr len order target s =
    let entry : Reservation = record { hart = hart; addr = addr; order = order; val = target } in
    let linked = calc_phys_addr (addr / 2 ^ 18) addr s.memory.paging >>= (λ (phys, paging). some (
      loaded (copy_bytes len (λ _. 0) 0 s.memory.phys_mem phys),
      record { memory = record s.memory { paging = paging }; lrsc = s.lrsc ++ (entry ∷ []) },
    )) in
    if is_reserved addr s.lrsc then some (collides, s) else linked

-- `A |= (word[i]) << i` for `n` words, each shift on `w` bits.
unfoldable pub or_words : ℕ → ℕ → ℕ → (ℕ → Option ℕ) → ℕ → Option ℕ
or_words zero i w words acc = some acc
or_words (suc n) i w words acc = do
  word ← words i
  or_words n (i + 1) w words (bit_or acc (word * 2 ^ i % 2 ^ w))

-- What is written to `Target`: 1 to its low 32 or 64 bits, or zeros to `len` words of 64 bits.
pub data Stored : Type 0 where
  failed32 failed64 : Stored
  cleared : ℕ → Stored

-- The search of `SCBase`: the entry, and the others in their order.
unfoldable pub find_reservation : ℕ → ℕ → List Reservation → Option (Reservation × List Reservation)
find_reservation hart addr [] = none
find_reservation hart addr (e ∷ es) =
    let rest = find_reservation hart addr es >>= (λ (found, others). some (found, e ∷ others)) in
    if (hart == e.hart) && (addr == e.addr) then some (e, es) else rest

-- The end of `SCBase`, by the result of the test of the two values.
unfoldable pub store_if :
    Bool → ℕ → ℕ → (ℕ → ℕ) → List Reservation → Reserved → Option (Stored × Reserved)
store_if true addr len bytes others s = some ((if len == 32 then failed32 else failed64), s)
store_if false addr len bytes others s = do
  memory ← write_mem addr len bytes s.memory
  some (cleared len, record { memory = memory; lrsc = others })

module _ (target_words : ℕ → ℕ → Option ℕ) (data_words : ℕ → Option ℕ) where
  unfoldable pub sc_found :
      Option (Reservation × List Reservation)
      → ℕ
      → ℕ
      → (ℕ → ℕ)
      → Reserved
      → Option (Stored × Reserved)
  unfolding or_words store_if
  sc_found none addr len bytes s = some (failed32, s)
  sc_found (some (e, others)) addr len bytes s = do
    let w = if len == 32 then 32 else 64
    a ← or_words len 0 w (target_words e.val) 0
    b ← or_words len 0 w data_words 0
    store_if (bit_and a b == 0) addr len bytes others s

  unfoldable pub sc_base : ℕ → ℕ → ℕ → (ℕ → ℕ) → Reserved → Option (Stored × Reserved)
  unfolding sc_found find_reservation
  sc_base hart addr len bytes s = sc_found (find_reservation hart addr s.lrsc) addr len bytes s
