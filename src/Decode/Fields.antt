-- ===== src/Decode/Fields.antt =====
-- The fields that the decoders take from a word, as quotients and remainders.
use rev.Prelude.{ℕ, ◌+◌, ◌*◌, ◌/◌, ◌%◌, ◌^◌, ◌≡◌, arith}
use rev.Bits.{bit_and_mask, bit_and_field, bit_or_field, bit_or_high}
use rev.Word.{u32}
use rev.Inst.{RevInst, RevInstEntry}
use rev.RegFile.{RevRegFile}
use rev.Decode.Standard.{decode_b, decode_j, decode_s}

module _ (r : RevRegFile) (e : RevInstEntry) (u : RevInst) (inst : ℕ) where
  pub decode_b-imm :
      (decode_b r e u inst).1.imm
      ≡ inst / 2 ^ 31 % 2 * 2 ^ 12
        + inst / 2 ^ 7 % 2 * 2 ^ 11
        + inst / 2 ^ 25 % 2 ^ 6 * 2 ^ 5
        + inst / 2 ^ 8 % 2 ^ 4 * 2
  unfolding decode_b
  decode_b-imm =
      let v11 = inst / 2 ^ 7 % 2 in
      let v4 = inst / 2 ^ 8 % 2 ^ 4 in
      let v10 = inst / 2 ^ 25 % 2 ^ 6 in
      let v12 = inst / 2 ^ 31 % 2 in
      ground (
        arith,
        bit_and_field 1 11 (u32 (inst * 2 ^ 4)),
        bit_and_field 4 8 inst,
        bit_and_field 6 5 (inst / 2 ^ 20),
        bit_and_field 1 12 (inst / 2 ^ 19),
        bit_or_field 1 4 (v11 * 2 ^ 6) 0 v4,
        bit_or_field 5 6 v11 (v4 * 2) v10,
        bit_or_field 12 1 0 (v11 * 2 ^ 11 + v10 * 2 ^ 5 + v4 * 2) v12,
      )

  pub decode_j-imm :
      (decode_j r e u inst).1.imm
      ≡ inst / 2 ^ 31 % 2 * 2 ^ 20
        + inst / 2 ^ 12 % 2 ^ 8 * 2 ^ 12
        + inst / 2 ^ 20 % 2 * 2 ^ 11
        + inst / 2 ^ 21 % 2 ^ 10 * 2
  unfolding decode_j
  decode_j-imm =
      let v1 = inst / 2 ^ 21 % 2 ^ 10 in
      let v12 = inst / 2 ^ 12 % 2 ^ 8 in
      let v11 = inst / 2 ^ 20 % 2 in
      let v20 = inst / 2 ^ 31 % 2 in
      ground (
        arith,
        bit_and_field 10 1 (inst / 2 ^ 20),
        bit_and_field 8 12 inst,
        bit_and_field 1 11 (inst / 2 ^ 9),
        bit_and_field 1 20 (inst / 2 ^ 11),
        bit_or_field 12 8 0 (v1 * 2) v12,
        bit_or_field 11 1 v12 (v1 * 2) v11,
        bit_or_field 20 1 0 (v12 * 2 ^ 12 + v11 * 2 ^ 11 + v1 * 2) v20,
      )

  pub decode_s-imm :
      (decode_s r e u inst).1.imm ≡ inst / 2 ^ 25 % 2 ^ 7 * 2 ^ 5 + inst / 2 ^ 7 % 2 ^ 5
  unfolding decode_s
  decode_s-imm = ground (
    arith,
    bit_and_mask 5 (inst / 2 ^ 7),
    bit_and_mask 7 (inst / 2 ^ 25),
    bit_or_high 5 (inst / 2 ^ 25 % 2 ^ 7) (inst / 2 ^ 7 % 2 ^ 5),
  )
