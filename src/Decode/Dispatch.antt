-- ===== src/Decode/Dispatch.antt =====
-- `DecodeInst` of src/RevProc.cc from the word that `InstFetch` leaves on. A crack fault, where one
-- is pending, sets the bits `crack`. The coprocessor `co` is `none` for a null pointer, and else what
-- `IssueInst` answers and leaves of the register file. A failed decode gives no result.
pub mod Laws
pub mod Encoded
use rev.Prelude.{
  ℕ, ◌+◌, ◌*◌, ◌/◌, ◌^◌, bit_and, bit_or, Bool, true, false, not, List, Option, none, some, ◌>>=◌,
  ◌==◌, ◌&&◌, ◌||◌, if◌then◌else◌, get_elem?,
}
use rev.Word.{u32}
use rev.Inst.{RevInst, RevInstEntry, RevInstF}
use rev.RegFile.{RevRegFile}
use rev.Decode.Macros.{decode_rs2}
use rev.Decode.Standard.{decode_r, decode_i, decode_s, decode_u, decode_b, decode_j, decode_r4}
use rev.Decode.Table.{pack, Maps}

abbrev pub opcode_of : ℕ → ℕ
opcode_of inst = bit_and inst 0b1111111

abbrev pub inst42 : ℕ → ℕ
inst42 inst = bit_and (opcode_of inst) 0b11100 / 2 ^ 2

abbrev pub inst65 : ℕ → ℕ
inst65 inst = bit_and (opcode_of inst) 0b1100000 / 2 ^ 5

-- Stage 3.
unfoldable pub funct3_of : ℕ → ℕ
funct3_of inst =
    if (inst42 inst == 0b011) && (inst65 inst == 0b11)
    then 0
    else if (inst42 inst == 0b101) && (inst65 inst == 0b00)
    then 0
    else if (inst42 inst == 0b101) && (inst65 inst == 0b01)
    then 0
    else bit_and inst 0b111000000000000 / 2 ^ 12

-- Stage 4: the field at bit 25, and for the shifts right the one at bit 26.
unfoldable pub funct7_of : ℕ → ℕ
unfolding funct3_of
funct7_of inst =
    let field = bit_and (inst / 2 ^ 25) 0b1111111 in
    if inst65 inst == 0b01
    then (if ((inst42 inst == 0b011) || (inst42 inst == 0b100)) || (inst42 inst == 0b110)
        then (if opcode_of inst == 0b0101111 then bit_and field 0b01111100 / 2 ^ 2 else field)
        else 0)
    else if (inst65 inst == 0b10) && (inst42 inst == 0b100)
    then field
    else if ((inst65 inst == 0b00) && (inst42 inst == 0b110)) && not (funct3_of inst == 0)
    then field
    else if ((inst65 inst == 0b00) && (inst42 inst == 0b100)) && (funct3_of inst == 0b101)
    then bit_and (inst / 2 ^ 26) 0b1111111
    else 0

unfoldable pub fcvt_op_of : ℕ → ℕ
unfolding funct7_of
fcvt_op_of inst =
    if (0b1010011 == opcode_of inst)
      && ((0b1100000 == funct7_of inst) || (0b1101000 == funct7_of inst))
    then decode_rs2 inst
    else 0

-- Stage 5: the field is taken from bit 19.
unfoldable pub imm12_of : ℕ → ℕ
unfolding funct3_of
imm12_of inst =
    if ((inst42 inst == 0b100) && (inst65 inst == 0b11)) && (funct3_of inst == 0)
    then bit_and (inst / 2 ^ 19) 0b111111111111
    else 0

-- Stage 6, and the key of the second search, without funct3.
unfoldable pub encoding_of : ℕ → ℕ
unfolding funct3_of funct7_of imm12_of fcvt_op_of
encoding_of inst =
    pack (opcode_of inst) (funct3_of inst) (funct7_of inst) (imm12_of inst) (fcvt_op_of inst)

unfoldable pub encoding_without_funct3 : ℕ → ℕ
unfolding funct7_of imm12_of fcvt_op_of
encoding_without_funct3 inst =
    pack (opcode_of inst) 0 (funct7_of inst) (imm12_of inst) (fcvt_op_of inst)

-- Stage 8.
unfoldable pub decode_format :
    RevInstF → RevRegFile → RevInstEntry → RevInst → ℕ → Option (RevRegFile × RevInst)
decode_format RevInstF.type_r r e u inst = some (decode_r r e u inst)
decode_format RevInstF.type_i r e u inst = some (decode_i r e u inst)
decode_format RevInstF.type_s r e u inst = some (decode_s r e u inst)
decode_format RevInstF.type_u r e u inst = some (decode_u r e u inst)
decode_format RevInstF.type_b r e u inst = some (decode_b r e u inst)
decode_format RevInstF.type_j r e u inst = some (decode_j r e u inst)
decode_format RevInstF.type_r4 r e u inst = some (decode_r4 r e u inst)
decode_format _ r e u inst = none

-- Stage 1a.
abbrev pub cracked : Option ℕ → ℕ → ℕ
cracked none inst = inst
cracked (some bits) inst = bit_or inst bits

abbrev pub CoProc : Type 0
CoProc = Option (RevRegFile → ℕ → Bool × RevRegFile)

module _ (maps : Maps) (table : List RevInstEntry) (co : CoProc) (u : RevInst) where
  -- `RegFile->Entry = Entry; RegFile->trigger = false;` and stage 8, where the entry is in the table.
  unfoldable pub decode_entry :
      RevRegFile → ℕ → ℕ → Option RevInstEntry → Option (RevRegFile × RevInst)
  unfolding decode_format
  decode_entry r inst entry none = none
  decode_entry r inst entry (some e) =
      decode_format e.format (record r { entry = entry; trigger = false }) e u inst

  -- A word that the coprocessor takes becomes `addi x0, x0, 0`; else the decode fails. A table
  -- without that instruction gives no result.
  unfoldable pub issue : RevRegFile → ℕ → Option (RevRegFile × RevInst)
  unfolding decode_entry
  issue r inst = do
    take ← co
    let (taken, r') = take r inst
    entry ← maps.enc_to_entry 0b0010011
    if taken then decode_entry r' 0 entry (get_elem? table entry) else none

  unfoldable pub decode_row :
      RevRegFile → ℕ → ℕ → Option RevInstEntry → Option (RevRegFile × RevInst)
  unfolding issue decode_entry
  decode_row r inst entry none = issue r inst
  decode_row r inst entry (some e) = decode_entry r inst entry (some e)

  -- Stage 7, by what a search of the map gives.
  unfoldable pub decode_found : RevRegFile → ℕ → Option ℕ → Option (RevRegFile × RevInst)
  unfolding issue decode_row
  decode_found r inst none = issue r inst
  decode_found r inst (some entry) = decode_row r inst entry (get_elem? table entry)

  unfoldable pub decode_first : RevRegFile → ℕ → Option ℕ → Option (RevRegFile × RevInst)
  unfolding decode_found encoding_without_funct3 funct3_of
  decode_first r inst none =
      let again = decode_found r inst (maps.enc_to_entry (encoding_without_funct3 inst)) in
      if ((funct3_of inst == 7) || (funct3_of inst == 1)) && (inst65 inst == 0b10)
      then again
      else decode_found r inst none
  decode_first r inst (some entry) = decode_found r inst (some entry)

  -- A word whose low two bits are not both set goes to `compressed`, which is `DecodeCompressed`.
  unfoldable pub decode_inst :
      (RevRegFile → ℕ → Option (RevRegFile × RevInst))
      → RevRegFile
      → Option ℕ
      → ℕ
      → Option (RevRegFile × RevInst)
  unfolding decode_first encoding_of
  decode_inst compressed r crack inst =
      let inst' = cracked crack inst in
      if inst == 0
      then none
      else if bit_and (opcode_of inst') 0b11 == 0b11
      then decode_first r inst' (maps.enc_to_entry (encoding_of inst'))
      else compressed r inst'
