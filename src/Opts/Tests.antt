-- ===== src/Opts/Tests.antt =====
-- Options of two cores.
use rev.Prelude.{
  arith, map, false, ◌++◌, ◌<◌, ltb, ltb, ℕ, ◌≡◌, refl, Bool, true, List, [], ◌∷◌, All, Option,
  some, none, ◌>>=◌,
}
use rev.Opts.Split.{split_str, IsFree, join_all, split_str-join_all}
use rev.Opts.Number.{stoi, stoull}
use rev.Opts.{
  RevOpts, Got, rev_opts, init_machine_models, get_machine_model, init_inst_tables, get_inst_table,
}
use rev.Opts.Laws.{
  Setting, text_of, IsSetting, IsSettingBelow, IsThere, last_of, init_inst_tables-get_inst_table,
  init_inst_tables-refused,
}

-- "1:RV64".
abbrev second_core : List ℕ
second_core = 49 ∷ 58 ∷ 82 ∷ 86 ∷ 54 ∷ 52 ∷ []

split_str-join_all_example :
    (join_all 58 (split_str 58 second_core) ≡ second_core)
    × All (IsFree 58) (split_str 58 second_core)
split_str-join_all_example = split_str-join_all 58 second_core

abbrev model_of : ℕ → Option (Bool × RevOpts) → Option (Got (List ℕ))
unfolding get_machine_model
model_of core o = o >>= (λ (good, s). get_machine_model core s)

sets_second :
    model_of 1 (init_machine_models (second_core ∷ []) (rev_opts 2))
    ≡ some (Got.got (82 ∷ 86 ∷ 54 ∷ 52 ∷ []))
unfolding init_machine_models rev_opts stoi model_of
sets_second = refl

-- A core as large as the number of cores passes the test, and is not there.
out_of_range : model_of 0 (init_machine_models (second_core ∷ []) (rev_opts 1)) ≡ none
unfolding init_machine_models rev_opts stoi model_of
out_of_range = refl

-- "0x1f" is 31.
hexadecimal : stoull (48 ∷ 120 ∷ 49 ∷ 102 ∷ []) ≡ some 31
unfolding stoull
hexadecimal = refl

abbrev two_cores : RevOpts
unfolding rev_opts
two_cores = rev_opts 2

two_cores-IsThere : IsThere two_cores.table two_cores.num_cores
unfolding two_cores rev_opts
two_cores-IsThere core below =
    let there : ltb core 2 ≡ true = ground (arith, below) in
    (95 ∷ 82 ∷ 69 ∷ 86 ∷ 95 ∷ 73 ∷ 78 ∷ 84 ∷ 69 ∷ 82 ∷ 78 ∷ 65 ∷ 76 ∷ 95 ∷ [], rw there refl)

-- "1:A", "1:B" and "3:C".
abbrev one_a : Setting
one_a = record { digits = 49 ∷ []; core = 1; value = 65 ∷ [] }

abbrev one_b : Setting
one_b = record { digits = 49 ∷ []; core = 1; value = 66 ∷ [] }

abbrev three_c : Setting
three_c = record { digits = 51 ∷ []; core = 3; value = 67 ∷ [] }

one_a-IsSetting : IsSetting one_a
unfolding stoi
one_a-IsSetting = record {
  number = refl;
  plain_digits = (λ e. omega (arith, e), tt);
  plain_value = (λ e. omega (arith, e), tt);
}

one_b-IsSetting : IsSetting one_b
unfolding stoi
one_b-IsSetting = record {
  number = refl;
  plain_digits = (λ e. omega (arith, e), tt);
  plain_value = (λ e. omega (arith, e), tt);
}

three_c-IsSetting : IsSetting three_c
unfolding stoi
three_c-IsSetting = record {
  number = refl;
  plain_digits = (λ e. omega (arith, e), tt);
  plain_value = (λ e. omega (arith, e), tt);
}

both_below : All (IsSettingBelow two_cores.num_cores) (one_a ∷ one_b ∷ [])
unfolding two_cores rev_opts
both_below = ((one_a-IsSetting, omega arith), ((one_b-IsSetting, omega arith), tt))

init_inst_tables-get_inst_table_example :
    (m : ℕ → Option (List ℕ)) × (init_inst_tables (map text_of (one_a ∷ one_b ∷ [])) two_cores
      ≡ some (true, record two_cores { table = m }))
    × ((core : ℕ)
        → core < two_cores.num_cores
        → get_inst_table core (record two_cores { table = m }) ≡ (
            last_of core (one_a ∷ one_b ∷ []) (two_cores.table core) >>= λ value.
            some (Got.got value)))
init_inst_tables-get_inst_table_example =
    init_inst_tables-get_inst_table (one_a ∷ one_b ∷ []) two_cores two_cores-IsThere both_below

init_inst_tables-refused_example :
    (m : ℕ → Option (List ℕ)) × (init_inst_tables
        (map text_of (one_a ∷ one_b ∷ []) ++ (text_of three_c ∷ []))
        two_cores
      ≡ some (false, record two_cores { table = m }))
    × ((core : ℕ) → m core ≡ last_of core (one_a ∷ one_b ∷ []) (two_cores.table core))
unfolding two_cores
init_inst_tables-refused_example =
    init_inst_tables-refused (one_a ∷ one_b ∷ []) three_c [] two_cores two_cores-IsThere both_below
      three_c-IsSetting (omega arith)
