-- ===== src/Word/Tests.antt =====
-- Instances of the laws of Word, and runs on single words.
use rev.Prelude.{◌≡◌, refl}
use rev.Word.{zext, td_u32}

zext_full : zext 0xffff_ffff_ffff_fff0 64 ≡ 0xffff_ffff_ffff_fff0
unfolding zext
zext_full = refl

-- A mask that does not reach the sign bit leaves the higher bits of the argument in place.
td_u32_positive : td_u32 0xffff_f7ff 12 ≡ 0xffff_f7ff
unfolding td_u32
td_u32_positive = refl
