-- ===== src/Opts/Laws.antt =====
-- What `InitInstTables` makes of its strings: the last one for a core counts, and the first one that
-- names a core beyond the number of cores ends it.
use rev.Prelude.{
  ℕ, ◌<◌, ◌≡◌, refl, sym, ap, ◌∙◌, arith, ◌==◌, ltb, true, false, Bool-cases, inl, inr, List, [],
  ◌∷◌, ◌++◌, map, All, Option, some, ◌>>=◌, if◌then◌else◌,
}
use mathlib.Core.List.{append-nil}
use rev.Opts.Split.{pieces, split_str, IsFree}
use rev.Opts.Number.{stoi}
use rev.Opts.{RevOpts, Got, assign, each, with_core, set_table, init_inst_tables, get_inst_table}

-- A string `core:value`, with the number that the core's digits make.
pub record Setting : Type 0 where
  pub digits : List ℕ
  pub core : ℕ
  pub value : List ℕ

abbrev pub text_of : Setting → List ℕ
text_of e = e.digits ++ (58 ∷ e.value)

-- The digits make the number, and neither part holds a colon.
pub record IsSetting (e : Setting) : Type 0 where
  pub number : stoi e.digits ≡ some e.core
  pub plain_digits : IsFree 58 e.digits
  pub plain_value : IsFree 58 e.value

abbrev pub IsSettingBelow : ℕ → Setting → Type 0
IsSettingBelow n e = IsSetting e × (e.core < n)

-- The value that the settings leave a core, which had `old`: that of the last one for it.
unfoldable pub last_of : ℕ → List Setting → Option (List ℕ) → Option (List ℕ)
last_of core [] old = old
last_of core (e ∷ es) old = last_of core es (if core == e.core then some e.value else old)

abbrev pub IsThere : (ℕ → Option (List ℕ)) → ℕ → Type 0
IsThere m n = (core : ℕ) → core < n → (a : List ℕ) × (m core ≡ some a)

-- A string without the character is its only piece.
pieces_alone : (c : ℕ) (xs : List ℕ) → IsFree c xs → pieces c xs ≡ (xs, [])
unfolding pieces
pieces_alone c [] h = refl
pieces_alone c (x ∷ xs) (other, h) =
    let differs : (x == c) ≡ false = ground (arith, other) in rw (pieces_alone c xs h, differs) refl

pieces-two :
    (c : ℕ) (xs ys : List ℕ) → IsFree c xs → IsFree c ys → pieces c (xs ++ (c ∷ ys)) ≡ (xs, ys ∷ [])
unfolding pieces
pieces-two c [] ys h h' =
    let same : (c == c) ≡ true = ground arith in rw (pieces_alone c ys h', same) refl
pieces-two c (x ∷ xs) ys (other, h) h' =
    let differs : (x == c) ≡ false = ground (arith, other) in
    rw (pieces-two c xs ys h h', differs) refl

split_two :
    (xs ys : List ℕ) → IsFree 58 xs → IsFree 58 ys → split_str 58 (xs ++ (58 ∷ ys)) ≡ xs ∷ ys ∷ []
unfolding split_str
split_two [] ys h h' = ap (λ (p : List ℕ × List (List ℕ)). p.0 ∷ p.1) (pieces-two 58 [] ys h h')
split_two (x ∷ xs) ys h h' =
    ap (λ (p : List ℕ × List (List ℕ)). p.0 ∷ p.1) (pieces-two 58 (x ∷ xs) ys h h')

module _ (set : ℕ → List ℕ → RevOpts → Option RevOpts) (e : Setting) (ok : IsSetting e)
    (s : RevOpts) where
  beyond_lem : s.num_cores < e.core → with_core set (text_of e) s ≡ some (false, s)
  unfolding with_core
  beyond_lem beyond =
      let passed : ltb s.num_cores e.core ≡ true = ground (arith, beyond) in
      rw (with_core, split_two e.digits e.value ok.plain_digits ok.plain_value, ok.number, passed)
        refl

  within_lem :
      (s' : RevOpts)
      → e.core < s.num_cores
      → set e.core e.value s ≡ some s'
      → with_core set (text_of e) s ≡ some (true, s')
  unfolding with_core
  within_lem s' within done =
      let passed : ltb s.num_cores e.core ≡ false = ground (arith, within) in
      rw
        (
          with_core,
          split_two e.digits e.value ok.plain_digits ok.plain_value,
          ok.number,
          passed,
          done,
        )
        refl

-- The map with the value of a setting.
abbrev put_value : Setting → (ℕ → Option (List ℕ)) → ℕ → Option (List ℕ)
put_value e m k = if k == e.core then some e.value else m k

put_value-IsThere :
    (e : Setting) (m : ℕ → Option (List ℕ)) (n : ℕ) → IsThere m n → IsThere (put_value e m) n
put_value-IsThere e m n there core below = elim (Bool-cases (core == e.core)) [
  | inl same ↦ (e.value, rw same refl)
  | inr other ↦ let (b, at) = there core below in (b, rw other at)
]

stored_lem :
    (e : Setting) (s : RevOpts)
    → e.core < s.num_cores
    → IsThere s.table s.num_cores
    → set_table e.core e.value s ≡ some (record s { table = put_value e s.table })
unfolding set_table assign
stored_lem e s below there = let (old, at) = there e.core below in rw (assign, at) refl

-- The settings at the front of a list are all stored.
front_lem :
    (es : List Setting) (others : List (List ℕ)) (s : RevOpts)
    → IsThere s.table s.num_cores
    → All (IsSettingBelow s.num_cores) es
    → (m : ℕ → Option (List ℕ)) × (each (with_core set_table) (map text_of es ++ others) s
        ≡ each (with_core set_table) others (record s { table = m }))
      × ((core : ℕ) → m core ≡ last_of core es (s.table core))
      × IsThere m s.num_cores
unfolding each last_of
front_lem [] others s there known = (s.table, refl, (λ core. refl), there)
front_lem (e ∷ es) others s there ((ok, below), known) =
    let s1 : RevOpts = record s { table = put_value e s.table } in
    let there1 = put_value-IsThere e s.table s.num_cores there in
    let (m, rest, values, there2) = front_lem es others s1 there1 known in
    let first = within_lem set_table e ok s s1 below (stored_lem e s below there) in
    (m, rw first rest, values, there2)

-- Where every core has a table and every string is `core:value` for a core that is there, with no colon
-- in either part and digits that stoi reads as the core, InitInstTables returns true, GetInstTable then gives each core the value of the last string for it, or what it
-- had where there is none, and no other option changes.
pub init_inst_tables-get_inst_table :
    (es : List Setting) (s : RevOpts)
    → IsThere s.table s.num_cores
    → All (IsSettingBelow s.num_cores) es
    → (m : ℕ → Option (List ℕ)) × (init_inst_tables (map text_of es) s
        ≡ some (true, record s { table = m }))
      × ((core : ℕ)
          → core < s.num_cores
          → get_inst_table core (record s { table = m })
            ≡ (last_of core es (s.table core) >>= λ value. some (Got.got value)))
unfolding init_inst_tables each get_inst_table
init_inst_tables-get_inst_table es s there known =
    let (m, e, values, there') = front_lem es [] s there known in
    (
      m,
      ap (λ l. each (with_core set_table) l s) (sym (append-nil (map text_of es))) ∙ e,
      λ core below.
          let passed : ltb s.num_cores core ≡ false = ground (arith, below) in
          rw (passed, values core) refl,
    )

-- InitInstTables returns false at the first string whose core is beyond the number of cores: the strings
-- ahead of it, each for a core that is there, have been stored, and nothing behind it is looked at. Each
-- of these strings is `core:value`, with no colon in either part and digits that stoi reads as the
-- core, and every core has a table.
pub init_inst_tables-refused :
    (es : List Setting) (bad : Setting) (others : List (List ℕ)) (s : RevOpts)
    → IsThere s.table s.num_cores
    → All (IsSettingBelow s.num_cores) es
    → IsSetting bad
    → s.num_cores < bad.core
    → (m : ℕ → Option (List ℕ)) × (init_inst_tables (map text_of es ++ (text_of bad ∷ others)) s
        ≡ some (false, record s { table = m }))
      × ((core : ℕ) → m core ≡ last_of core es (s.table core))
unfolding init_inst_tables each
init_inst_tables-refused es bad others s there known ok beyond =
    let (m, e, values, there') = front_lem es (text_of bad ∷ others) s there known in
    let stop = beyond_lem set_table bad ok (record s { table = m }) beyond in
    (m, e ∙ rw stop refl, values)
