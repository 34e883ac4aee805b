-- ===== src/Decode/Compressed.antt =====
-- `DecodeCompressed` of src/RevProc.cc, with `HasCompressed` of src/RevFeature.cc. The coprocessor
-- and the tables are those of `Dispatch`.
pub mod Laws
use rev.Prelude.{
  ℕ, ◌/◌, ◌%◌, ◌^◌, bit_and, Bool, true, false, not, List, Option, none, some, ◌>>=◌, ◌==◌, ◌&&◌,
  leb, ltb, if◌then◌else◌, get_elem?,
}
use rev.Inst.{RevInst, RevInstEntry, RevInstF}
use rev.RegFile.{RevRegFile, RevFeature}
use rev.Decode.Compact.{
  decode_cr, decode_ci, decode_css, decode_ciw, decode_cl, decode_cs, decode_ca, decode_cb,
  decode_cj,
}
use rev.Decode.Table.{pack_c, Maps}
use rev.Decode.Dispatch.{CoProc}

-- `RV_C` is 6.
abbrev pub has_compressed : RevFeature → Bool
has_compressed f = not (bit_and f.features (2 ^ 6) == 0)

-- `Enc`, by the quadrant of `TmpInst`.
unfoldable pub c_encoding_of : ℕ → ℕ
c_encoding_of inst =
    let opc = bit_and inst 0b11 in
    let l3 = bit_and inst 0b1110000000000000 / 2 ^ 13 in
    let op_select = bit_and inst 0b110000000000 / 2 ^ 10 in
    if opc == 0b00
    then pack_c opc 0 l3 0 0
    else if opc == 0b01
    then (if leb l3 0b011
        then pack_c opc 0 l3 0 0
        else if ltb 0b011 l3 && ltb l3 0b101
        then (if op_select == 0b11
            then pack_c opc (bit_and inst 0b01100000 / 2 ^ 5) 0 0
                (bit_and inst 0b1111110000000000 / 2 ^ 10)
            else pack_c opc op_select l3 0 0)
        else pack_c opc 0 l3 0 0)
    else if opc == 0b10
    then (if l3 == 0b000
        then pack_c opc 0 l3 0 0
        else if ltb l3 0b100
        then pack_c opc 0 l3 0 0
        else if l3 == 0b100
        then pack_c opc 0 0 (bit_and inst 0b1111000000000000 / 2 ^ 12) 0
        else pack_c opc 0 l3 0 0)
    else pack_c opc 0 0 0 0

unfoldable pub decode_c_format :
    RevInstF → RevFeature → RevRegFile → RevInstEntry → RevInst → ℕ → Option (RevRegFile × RevInst)
decode_c_format RevInstF.type_cr f r e u inst = some (decode_cr f r e u inst)
decode_c_format RevInstF.type_ci f r e u inst = some (decode_ci f r e u inst)
decode_c_format RevInstF.type_css f r e u inst = some (decode_css f r e u inst)
decode_c_format RevInstF.type_ciw f r e u inst = some (decode_ciw f r e u inst)
decode_c_format RevInstF.type_cl f r e u inst = some (decode_cl f r e u inst)
decode_c_format RevInstF.type_cs f r e u inst = some (decode_cs f r e u inst)
decode_c_format RevInstF.type_ca f r e u inst = some (decode_ca f r e u inst)
decode_c_format RevInstF.type_cb f r e u inst = some (decode_cb f r e u inst)
decode_c_format RevInstF.type_cj f r e u inst = some (decode_cj f r e u inst)
decode_c_format _ f r e u inst = none

module _ (f : RevFeature) (maps : Maps) (table : List RevInstEntry) (co : CoProc)
    (u : RevInst) where
  -- From `RegFile->Entry = Entry` on, where the entry is in the table.
  unfoldable pub decode_c_entry :
      RevRegFile → ℕ → ℕ → Option RevInstEntry → Option (RevRegFile × RevInst)
  unfolding decode_c_format
  decode_c_entry r inst entry none = none
  decode_c_entry r inst entry (some e) =
      decode_c_format e.format f (record r { entry = entry; trigger = false }) e u inst

  -- A word that the coprocessor takes decodes by the row of `c.addi`, with the fields of that word.
  unfoldable pub decode_c_found : RevRegFile → ℕ → ℕ → Option ℕ → Option (RevRegFile × RevInst)
  unfolding decode_c_entry
  decode_c_found r inst tmp none = do
    take ← co
    let (taken, r') = take r inst
    entry ← maps.c_enc_to_entry 0b01
    if taken then decode_c_entry r' tmp entry (get_elem? table entry) else none
  decode_c_found r inst tmp (some entry) = decode_c_entry r tmp entry (get_elem? table entry)

  unfoldable pub decode_compressed : RevRegFile → ℕ → Option (RevRegFile × RevInst)
  unfolding decode_c_found c_encoding_of
  decode_compressed r inst =
      let tmp = bit_and inst 0b1111111111111111 in
      if has_compressed f
      then decode_c_found r inst tmp (maps.c_enc_to_entry (c_encoding_of tmp))
      else none
