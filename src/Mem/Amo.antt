-- ===== src/Mem/Amo.antt =====
-- `AMOMem` of src/RevMem.cc without a memory controller, with the flags of include/RevMemCtrl.h.
-- `Data` is `none` where it points at `Target`, so that the read has replaced it. The hazard is
-- clear on return.
pub mod Laws
use rev.Prelude.{
  ℕ, zero, suc, ◌+◌, ◌*◌, ◌/◌, ◌%◌, ◌^◌, bit_and, bit_or, bit_xor, Bool, not, ◌==◌, ltb, Option,
  some, none, ◌>>=◌, if◌then◌else◌,
}
use rev.Word.{lt_signed}
use rev.Mem.Paging.{calc_phys_addr}
use rev.Mem.Bytes.{Memory, read_mem, write_mem}

-- `RevFlag`.
abbrev pub f_sext32 : ℕ
f_sext32 = 2 ^ 17

abbrev pub f_sext64 : ℕ
f_sext64 = 2 ^ 18

abbrev pub f_aq : ℕ
f_aq = 2 ^ 30

abbrev pub f_rl : ℕ
f_rl = 2 ^ 31

pub data AmoOp : Type 0 where
  amoadd amoxor amoand amoor amomin amomax amominu amomaxu amoswap : AmoOp

abbrev pub flag_of : AmoOp → ℕ
flag_of AmoOp.amoadd = 2 ^ 21
flag_of AmoOp.amoxor = 2 ^ 22
flag_of AmoOp.amoand = 2 ^ 23
flag_of AmoOp.amoor = 2 ^ 24
flag_of AmoOp.amomin = 2 ^ 25
flag_of AmoOp.amomax = 2 ^ 26
flag_of AmoOp.amominu = 2 ^ 27
flag_of AmoOp.amomaxu = 2 ^ 28
flag_of AmoOp.amoswap = 2 ^ 29

abbrev pub has_flag : ℕ → AmoOp → Bool
has_flag flags op = not (bit_and flags (flag_of op) == 0)

-- The chain of tests, the same for both widths.
unfoldable pub amo_select : ℕ → Option AmoOp
amo_select flags =
    if has_flag flags AmoOp.amoadd
    then some AmoOp.amoadd
    else if has_flag flags AmoOp.amoxor
    then some AmoOp.amoxor
    else if has_flag flags AmoOp.amoand
    then some AmoOp.amoand
    else if has_flag flags AmoOp.amoor
    then some AmoOp.amoor
    else if has_flag flags AmoOp.amomin
    then some AmoOp.amomin
    else if has_flag flags AmoOp.amomax
    then some AmoOp.amomax
    else if has_flag flags AmoOp.amominu
    then some AmoOp.amominu
    else if has_flag flags AmoOp.amomaxu
    then some AmoOp.amomaxu
    else if has_flag flags AmoOp.amoswap
    then some AmoOp.amoswap
    else none

-- `*TmpTarget` after the operation, on `w` bits; `min` and `max` are those of the standard library.
-- The signed addition is taken to wrap.
unfoldable pub amo_apply : AmoOp → ℕ → ℕ → ℕ → ℕ
amo_apply AmoOp.amoadd w target operand = (target + operand) % 2 ^ w
amo_apply AmoOp.amoxor w target operand = bit_xor target operand
amo_apply AmoOp.amoand w target operand = bit_and target operand
amo_apply AmoOp.amoor w target operand = bit_or target operand
amo_apply AmoOp.amomin w target operand = if lt_signed w operand target then operand else target
amo_apply AmoOp.amomax w target operand = if lt_signed w target operand then operand else target
amo_apply AmoOp.amominu w target operand = if ltb operand target then operand else target
amo_apply AmoOp.amomaxu w target operand = if ltb target operand then operand else target
amo_apply AmoOp.amoswap w target operand = operand

-- The word that bytes make on a host that keeps the low byte first, and its bytes.
unfoldable pub word_of : ℕ → (ℕ → ℕ) → ℕ
word_of zero bytes = 0
word_of (suc n) bytes = word_of n bytes + bytes n * 2 ^ (8 * n)

abbrev pub byte_of : ℕ → ℕ → ℕ
byte_of value k = value / 2 ^ (8 * k) % 2 ^ 8

abbrev pub operand_or : Option ℕ → ℕ → ℕ
operand_or none target = target
operand_or (some operand) target = operand

abbrev pub width : ℕ → ℕ
width len = if len == 4 then 32 else 64

-- The branch of an operation: the value left in `Target`, and the memory. Without a flag nothing
-- is done.
unfoldable pub amo_with : Option AmoOp → ℕ → ℕ → Option ℕ → Memory → Option (Option ℕ × Memory)
unfolding amo_apply word_of
amo_with none addr len operand s = some (none, s)
amo_with (some op) addr len operand s = do
  (bytes, s1) ← read_mem addr len (λ _. 0) s
  let target = word_of len bytes
  let value = amo_apply op (width len) target (operand_or operand target)
  s2 ← write_mem addr len (byte_of value) s1
  some (some value, s2)

unfoldable pub amo_mem : ℕ → ℕ → Option ℕ → ℕ → Memory → Option (Option ℕ × Memory)
unfolding amo_with amo_select
amo_mem addr len operand flags s = do
  (phys, paging) ← calc_phys_addr (addr / 2 ^ 18) addr s.paging
  amo_with (amo_select flags) addr len operand (record s { paging = paging })
