-- ===== src/Decode/Table/Laws.antt =====
-- The maps of the tables: what a key has, and which rows share one.
use rev.Prelude.{
  ℕ, ◌+◌, ◌*◌, ◌^◌, ◌<◌, ◌≡◌, inl, inr, refl, ◌∙◌, sym, arith, Bool, true, false, Bool-cases, eq→==,
  List, [], ◌∷◌, Option, none, some, ◌==◌, if◌then◌else◌,
}
use rev.Bits.{bit_or_high}
use rev.Inst.{RevInstEntry}
use rev.Decode.Table.{
  pack, compress_encoding, Maps, keep, insert, map_row, map_rows, init_table_mapping,
}

-- Fields that fit their places.
pub record FitsKey (opcode funct3 funct7 imm12 fpcvt_op : ℕ) : Type 0 where
  pub opcode_fits : opcode < 2 ^ 8
  pub funct3_fits : funct3 < 2 ^ 3
  pub funct7_fits : funct7 < 2 ^ 7
  pub imm12_fits : imm12 < 2 ^ 12
  pub fpcvt_op_fits : fpcvt_op < 2 ^ 2

pack_sum :
    (o a b c d : ℕ)
    → FitsKey o a b c d
    → pack o a b c d ≡ o + a * 2 ^ 8 + b * 2 ^ 11 + c * 2 ^ 18 + d * 2 ^ 30
pack_sum o a b c d h = ground (
  arith,
  h.opcode_fits,
  h.funct3_fits,
  h.funct7_fits,
  h.imm12_fits,
  h.fpcvt_op_fits,
  bit_or_high 8 a o,
  bit_or_high 11 b (o + a * 2 ^ 8),
  bit_or_high 18 c (o + a * 2 ^ 8 + b * 2 ^ 11),
  bit_or_high 30 d (o + a * 2 ^ 8 + b * 2 ^ 11 + c * 2 ^ 18),
)

-- Two rows whose fields fit their places have the same key only where all five fields agree.
pub compress_encoding-distinct :
    (e e' : RevInstEntry)
    → FitsKey e.opcode e.funct3 e.funct7 e.imm12 e.fpcvt_op
    → FitsKey e'.opcode e'.funct3 e'.funct7 e'.imm12 e'.fpcvt_op
    → compress_encoding e ≡ compress_encoding e'
    → (e.opcode ≡ e'.opcode)
      × (e.funct3 ≡ e'.funct3)
      × (e.funct7 ≡ e'.funct7)
      × (e.imm12 ≡ e'.imm12)
      × (e.fpcvt_op ≡ e'.fpcvt_op)
unfolding compress_encoding
compress_encoding-distinct e e' h h' same =
    let sum : e.opcode
          + e.funct3 * 2 ^ 8
          + e.funct7 * 2 ^ 11
          + e.imm12 * 2 ^ 18
          + e.fpcvt_op * 2 ^ 30
        ≡ e'.opcode
          + e'.funct3 * 2 ^ 8
          + e'.funct7 * 2 ^ 11
          + e'.imm12 * 2 ^ 18
          + e'.fpcvt_op * 2 ^ 30 =
      sym (pack_sum _ _ _ _ _ h) ∙ same ∙ pack_sum _ _ _ _ _ h' in
    let o = h.opcode_fits in
    let o' = h'.opcode_fits in
    let a = h.funct3_fits in
    let a' = h'.funct3_fits in
    let b = h.funct7_fits in
    let b' = h'.funct7_fits in
    let c = h.imm12_fits in
    let c' = h'.imm12_fits in
    (
      omega (arith, sum, o, o'),
      omega (arith, sum, o, o', a, a'),
      omega (arith, sum, o, o', a, a', b, b'),
      omega (arith, sum, o, o', a, a', b, b', c, c'),
      omega (arith, sum, o, o', a, a', b, b', c, c'),
    )

-- The first row for 32-bit words that has the key, counted from `i`.
unfoldable pub first_row : ℕ → ℕ → List RevInstEntry → Option ℕ
first_row key i [] = none
first_row key i (e ∷ es) =
    let rest = first_row key (i + 1) es in
    if e.compressed then rest else if compress_encoding e == key then some i else rest

-- An old entry, or else another.
abbrev pub or_else : Option ℕ → Option ℕ → Option ℕ
or_else none o = o
or_else (some i) o = some i

pub or_else-none : (o : Option ℕ) → o ≡ or_else o none
or_else-none none = refl
or_else-none (some i) = refl

pub or_else-if :
    (o : Option ℕ) (b : Bool) (i : ℕ) (q : Option ℕ)
    → or_else (or_else o (if b then some i else none)) q ≡ or_else o (if b then some i else q)
or_else-if none true i q = refl
or_else-if none false i q = refl
or_else-if (some old) b i q = refl

pub insert_lem :
    (key k i : ℕ) (entries : ℕ → Option ℕ)
    → insert key i entries k ≡ or_else (entries k) (if key == k then some i else none)
unfolding insert keep
insert_lem key k i entries = elim (Bool-cases (key == k)) [
  | inl same ↦ let e : k ≡ key = ground (arith, same) in rw e (kept_at (entries key) refl)
  | inr other ↦
      let e : (k == key) ≡ false = ground (arith, other) in rw other (kept_off (entries key) e)
]
  where
    kept_at :
        (o : Option ℕ)
        → entries key ≡ o
        → keep o key i entries key ≡ or_else (entries key) (if key == key then some i else none)
    kept_at none new = rw (new, eq→== key key refl) refl
    kept_at (some old) there = rw there refl

    kept_off :
        (o : Option ℕ) → (k == key) ≡ false → keep o key i entries k ≡ or_else (entries k) none
    kept_off none e = rw e (or_else-none (entries k))
    kept_off (some old) e = or_else-none (entries k)

map_rows_lem :
    (key i : ℕ) (table : List RevInstEntry) (maps : Maps)
    → (map_rows i table maps).enc_to_entry key
      ≡ or_else (maps.enc_to_entry key) (first_row key i table)
unfolding map_rows map_row first_row
map_rows_lem key i [] maps = or_else-none (maps.enc_to_entry key)
map_rows_lem key i (e ∷ es) maps =
    let rest = map_rows_lem key (i + 1) es (map_row i e maps) in
    let same = compress_encoding e == key in
    elim (Bool-cases e.compressed) [
      | inl short ↦ rw short (rw short at rest)
      | inr long ↦
          let step = insert_lem (compress_encoding e) key i maps.enc_to_entry in
          rw long (
            rw (long, step) at rest
            ∙ or_else-if (maps.enc_to_entry key) same i (first_row key (i + 1) es))
    ]

-- The map that the tables give holds, for every key, the number of the first row for 32-bit words
-- that has that key, and nothing where no row has it: later rows with the same key are unreachable.
pub init_table_mapping_lem :
    (key : ℕ) (table : List RevInstEntry)
    → (init_table_mapping table).enc_to_entry key ≡ first_row key 0 table
unfolding init_table_mapping
init_table_mapping_lem key table =
    map_rows_lem key 0 table (record { enc_to_entry = λ _. none; c_enc_to_entry = λ _. none })
