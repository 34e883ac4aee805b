-- ===== src/Decode/Dispatch/Laws.antt =====
-- What a word decodes to without a coprocessor.
use rev.Prelude.{
  ℕ, ◌≡◌, ◌≢◌, refl, arith, bit_and, false, ne→==, List, Option, none, some, ◌>>=◌, ◌==◌, get_elem?,
}
use rev.Inst.{RevInst, RevInstEntry}
use rev.RegFile.{RevRegFile}
use rev.Decode.Table.{Maps, init_table_mapping}
use rev.Decode.Table.Laws.{first_row, init_table_mapping_lem}
use rev.Decode.Dispatch.{
  opcode_of, inst65, encoding_of, decode_format, decode_entry, issue, decode_row, decode_found,
  decode_first, decode_inst,
}

module _ (table : List RevInstEntry) (u : RevInst)
    (compressed : RevRegFile → ℕ → Option (RevRegFile × RevInst)) where
  maps : Maps
  maps = init_table_mapping table

  -- The row that the search gives, by its format.
  unfoldable pub by_row : RevRegFile → ℕ → ℕ → Option (RevRegFile × RevInst)
  by_row r inst n = get_elem? table n >>= λ e.
      decode_format e.format (record r { entry = n; trigger = false }) e u inst

  found_lem :
      (r : RevRegFile) (inst n : ℕ) (row : Option RevInstEntry)
      → get_elem? table n ≡ row
      → decode_found maps table none u r inst (some n) ≡ by_row r inst n
  unfolding decode_found by_row decode_row decode_entry issue
  found_lem r inst n none e = rw e refl
  found_lem r inst n (some row) e = rw e refl

  first_lem :
      (r : RevRegFile) (inst : ℕ) (o : Option ℕ)
      → (inst65 inst == 0b10) ≡ false
      → decode_first maps table none u r inst o ≡ (o >>= by_row r inst)
  unfolding decode_first decode_found issue
  first_lem r inst none e = ground (arith, e)
  first_lem r inst (some n) e = found_lem r inst n (get_elem? table n) refl

  -- A word that is not 0, whose low two bits are set and whose bits 5 and 6 are not 0b10, decodes,
  -- with no crack fault and no coprocessor, by the first row of the table for 32-bit words whose key
  -- is that of the word: the row's number is kept as the entry, the trigger is cleared and the row's
  -- format chooses the decoder. Where no row has the key, or the row's format has no decoder, the
  -- decode fails.
  pub decode_inst_lem :
      (r : RevRegFile) (inst : ℕ)
      → inst ≢ 0
      → bit_and (opcode_of inst) 0b11 ≡ 0b11
      → inst65 inst ≢ 0b10
      → decode_inst (init_table_mapping table) table none u compressed r none inst
        ≡ (first_row (encoding_of inst) 0 table >>= by_row r inst)
  unfolding decode_inst maps
  decode_inst_lem r inst some_bits long integer =
      rw (ne→== inst 0 some_bits, long, init_table_mapping_lem (encoding_of inst) table)
        (first_lem r inst (first_row (encoding_of inst) 0 table) (ne→== (inst65 inst) 0b10 integer))
