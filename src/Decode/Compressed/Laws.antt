-- ===== src/Decode/Compressed/Laws.antt =====
-- What a word decodes to without a coprocessor, the compressed words among them.
use rev.Prelude.{
  ℕ, ◌+◌, ◌≡◌, ◌≢◌, refl, ◌∙◌, bit_and, true, false, ne→==, List, [], ◌∷◌, Option, none, some,
  ◌>>=◌, ◌==◌, if◌then◌else◌, get_elem?, Bool-cases, inl, inr,
}
use rev.Inst.{RevInst, RevInstEntry}
use rev.RegFile.{RevRegFile, RevFeature}
use rev.Decode.Table.{compress_c_encoding, Maps, map_row, map_rows, init_table_mapping}
use rev.Decode.Table.Laws.{or_else, or_else-none, or_else-if, insert_lem}
use rev.Decode.Dispatch.{opcode_of, decode_inst}
use rev.Decode.Compressed.{
  has_compressed, c_encoding_of, decode_c_format, decode_c_entry, decode_c_found, decode_compressed,
}

-- The first compressed row that has the key, counted from `i`.
unfoldable pub first_c_row : ℕ → ℕ → List RevInstEntry → Option ℕ
first_c_row key i [] = none
first_c_row key i (e ∷ es) =
    let rest = first_c_row key (i + 1) es in
    if e.compressed then (if compress_c_encoding e == key then some i else rest) else rest

map_rows-compressed :
    (key i : ℕ) (table : List RevInstEntry) (maps : Maps)
    → (map_rows i table maps).c_enc_to_entry key
      ≡ or_else (maps.c_enc_to_entry key) (first_c_row key i table)
unfolding map_rows map_row first_c_row
map_rows-compressed key i [] maps = or_else-none (maps.c_enc_to_entry key)
map_rows-compressed key i (e ∷ es) maps =
    let rest = map_rows-compressed key (i + 1) es (map_row i e maps) in
    let same = compress_c_encoding e == key in
    elim (Bool-cases e.compressed) [
      | inl short ↦
          let step = insert_lem (compress_c_encoding e) key i maps.c_enc_to_entry in
          rw short (
            rw (short, step) at rest
            ∙ or_else-if (maps.c_enc_to_entry key) same i (first_c_row key (i + 1) es))
      | inr long ↦ rw long (rw long at rest)
    ]

init_table_mapping-compressed :
    (key : ℕ) (table : List RevInstEntry)
    → (init_table_mapping table).c_enc_to_entry key ≡ first_c_row key 0 table
unfolding init_table_mapping
init_table_mapping-compressed key table =
    map_rows-compressed key 0 table
      (record { enc_to_entry = λ _. none; c_enc_to_entry = λ _. none })

module _ (f : RevFeature) (table : List RevInstEntry) (u : RevInst) where
  -- The row that the search gives, by its format.
  unfoldable pub by_c_row : RevRegFile → ℕ → ℕ → Option (RevRegFile × RevInst)
  by_c_row r inst n = get_elem? table n >>= λ e.
      decode_c_format e.format f (record r { entry = n; trigger = false }) e u inst

  row_lem :
      (r : RevRegFile) (inst n : ℕ) (row : Option RevInstEntry)
      → get_elem? table n ≡ row
      → decode_c_entry f (init_table_mapping table) table none u r inst n (get_elem? table n)
        ≡ by_c_row r inst n
  unfolding by_c_row decode_c_entry
  row_lem r inst n none e = rw e refl
  row_lem r inst n (some row) e = rw e refl

  c_lem :
      (r : RevRegFile) (inst tmp : ℕ) (o : Option ℕ)
      → decode_c_found f (init_table_mapping table) table none u r inst tmp o
        ≡ (o >>= by_c_row r tmp)
  unfolding decode_c_found
  c_lem r inst tmp none = refl
  c_lem r inst tmp (some n) = row_lem r tmp n (get_elem? table n) refl

  -- A word that is not 0 and whose low two bits are not both set decodes, where the compressed
  -- instructions are enabled and with no crack fault and no coprocessor, by the first compressed row
  -- of the table whose key is that of the word's low half: the row's number is kept as the entry, the
  -- trigger is cleared and the row's format chooses the decoder of the half word. Where no row has
  -- the key, or the row's format is not a compressed one, the decode fails.
  pub decode_inst-decode_compressed :
      (r : RevRegFile) (inst : ℕ)
      → has_compressed f ≡ true
      → inst ≢ 0
      → bit_and (opcode_of inst) 0b11 ≢ 0b11
      → decode_inst
          (init_table_mapping table)
          table
          none
          u
          (decode_compressed f (init_table_mapping table) table none u)
          r
          none
          inst
        ≡ (first_c_row (c_encoding_of (bit_and inst 0xFFFF)) 0 table
            >>= by_c_row r (bit_and inst 0xFFFF))
  unfolding decode_inst decode_compressed
  decode_inst-decode_compressed r inst enabled some_bits short =
      let tmp = bit_and inst 0xFFFF in
      rw
        (
          ne→== inst 0 some_bits,
          ne→== (bit_and (opcode_of inst) 0b11) 0b11 short,
          enabled,
          init_table_mapping-compressed (c_encoding_of tmp) table,
        )
        (c_lem r inst tmp (first_c_row (c_encoding_of tmp) 0 table))
