-- ===== src/Opts.antt =====
-- `RevOpts` of src/RevOpts.cc: the options of each core. A string is the list of its characters, a map a
-- function. `none` stands for an exception, or for a step that C++ leaves undefined.
pub mod Split
pub mod Number
pub mod Laws
mod Tests
use rev.Prelude.{
  ℕ, zero, suc, ◌+◌, ◌-◌, ◌%◌, ◌^◌, ◌==◌, ltb, ◌&&◌, ◌||◌, not, Bool, true, false, List, [], ◌∷◌,
  Option, some, none, ◌>>=◌, if◌then◌else◌,
}
use rev.Opts.Split.{split_str}
use rev.Opts.Number.{stoi, stoull}

pub record RevOpts : Type 0 where
  pub num_cores : ℕ
  pub start_addr : ℕ → Option ℕ
  pub start_sym : ℕ → Option (List ℕ)
  pub machine : ℕ → Option (List ℕ)
  pub table : ℕ → Option (List ℕ)
  pub prefetch_depth : ℕ → Option ℕ
  pub mem_costs : ℕ → Option (ℕ × ℕ)

abbrev pub below {ℓ} : {A : Type ℓ} → ℕ → A → ℕ → Option A
below n a core = if ltb core n then some a else none

-- The constructor: "G" and "_REV_INTERNAL_".
unfoldable pub rev_opts : ℕ → RevOpts
rev_opts n = record {
  num_cores = n;
  start_addr = below n 0;
  start_sym = λ core. none;
  machine = below n (71 ∷ []);
  table = below n (95 ∷ 82 ∷ 69 ∷ 86 ∷ 95 ∷ 73 ∷ 78 ∷ 84 ∷ 69 ∷ 82 ∷ 78 ∷ 65 ∷ 76 ∷ 95 ∷ []);
  prefetch_depth = below n 16;
  mem_costs = below n (0, 10);
}

-- `find(core)->second = a`, `at(core) = a` and `v[core] = a`: the core has to be there.
unfoldable pub assign {ℓ} : {A : Type ℓ} → (ℕ → Option A) → ℕ → A → Option (ℕ → Option A)
assign m core a = elim (m core) [
  | none ↦ none
  | some old ↦ some (λ k. if k == core then some a else m k)
]

-- `insert`, which keeps what is there.
unfoldable pub insert {ℓ} : {A : Type ℓ} → (ℕ → Option A) → ℕ → A → ℕ → Option A
insert m core a = elim (m core) [ none ↦ λ k. if k == core then some a else m k | some old ↦ m ]

-- The loops over the strings: the first one that is refused ends them, what has been set stays.
unfoldable pub each :
    (List ℕ → RevOpts → Option (Bool × RevOpts)) → List (List ℕ) → RevOpts → Option (Bool × RevOpts)
each step [] s = some (true, s)
each step (x ∷ xs) s =
    step x s
    >>= (λ (good, s'). let rest = each step xs s' in if good then rest else some (false, s'))

-- `vstr.size() != 2`, and `vstr.size() != 3`, return before the pieces are used.
abbrev pub two_pieces : List (List ℕ) → Option (List ℕ × List ℕ)
two_pieces (a ∷ b ∷ []) = some (a, b)
two_pieces _ = none

abbrev pub three_pieces : List (List ℕ) → Option (List ℕ × List ℕ × List ℕ)
three_pieces (a ∷ b ∷ c ∷ []) = some (a, b, c)
three_pieces _ = none

-- The rounds of the loops: `core:value`. A core equal to `numCores` passes.
unfoldable pub with_core :
    (ℕ → List ℕ → RevOpts → Option RevOpts) → List ℕ → RevOpts → Option (Bool × RevOpts)
unfolding split_str
with_core set text s = elim (two_pieces (split_str 58 text)) [
  | none ↦ some (false, s)
  | some (a, b) ↦ stoi a >>= (λ core.
      let done = set core b s >>= (λ s'. some (true, s')) in
      if ltb s.num_cores core then some (false, s) else done)
]

unfoldable pub set_depth : ℕ → List ℕ → RevOpts → Option RevOpts
unfolding assign
set_depth core text s = do
  depth ← stoull text
  m ← assign s.prefetch_depth core (depth % 2 ^ 32)
  some (record s { prefetch_depth = m })

unfoldable pub set_addr : ℕ → List ℕ → RevOpts → Option RevOpts
unfolding assign
set_addr core text s = do
  addr ← stoull text
  m ← assign s.start_addr core addr
  some (record s { start_addr = m })

unfoldable pub set_symbol : ℕ → List ℕ → RevOpts → Option RevOpts
unfolding insert
set_symbol core text s = some (record s { start_sym = insert s.start_sym core text })

unfoldable pub set_machine : ℕ → List ℕ → RevOpts → Option RevOpts
unfolding assign
set_machine core text s = assign s.machine core text >>= (λ m. some (record s { machine = m }))

unfoldable pub set_table : ℕ → List ℕ → RevOpts → Option RevOpts
unfolding assign
set_table core text s = assign s.table core text >>= (λ m. some (record s { table = m }))

-- The same value for the first `n` cores.
unfoldable pub set_all : (ℕ → RevOpts → Option RevOpts) → ℕ → RevOpts → Option RevOpts
set_all set zero s = some s
set_all set (suc n) s = set_all set n s >>= set n

unfoldable pub init_prefetch_depth : List (List ℕ) → RevOpts → Option (Bool × RevOpts)
unfolding each with_core set_depth
init_prefetch_depth = each (with_core set_depth)

unfoldable pub init_start_symbols : List (List ℕ) → RevOpts → Option (Bool × RevOpts)
unfolding each with_core set_symbol
init_start_symbols = each (with_core set_symbol)

unfoldable pub init_inst_tables : List (List ℕ) → RevOpts → Option (Bool × RevOpts)
unfolding each with_core set_table
init_inst_tables = each (with_core set_table)

-- The characters of "CORES".
abbrev pub is_cores : List ℕ → Bool
is_cores (a ∷ b ∷ c ∷ d ∷ e ∷ []) = (a == 67) && (b == 79) && (c == 82) && (d == 69) && (e == 83)
is_cores _ = false

-- A single string may set the value of every core at once, of which there is one at least.
unfoldable pub for_cores :
    (ℕ → List ℕ → RevOpts → Option RevOpts) → List (List ℕ) → RevOpts → Option (Bool × RevOpts)
unfolding each with_core set_all split_str
for_cores set [] s = some (true, s)
for_cores set (text ∷ []) s =
    let single = each (with_core set) (text ∷ []) s in
    elim (two_pieces (split_str 58 text)) [
      | none ↦ some (false, s)
      | some (a, b) ↦
          let all = set_all (λ core. set core b) s.num_cores s >>= (λ s'. some (true, s')) in
          if is_cores a then all else single
    ]
for_cores set (text ∷ next ∷ others) s = each (with_core set) (text ∷ next ∷ others) s

unfoldable pub init_start_addrs : List (List ℕ) → RevOpts → Option (Bool × RevOpts)
unfolding for_cores set_addr
init_start_addrs = for_cores set_addr

unfoldable pub init_machine_models : List (List ℕ) → RevOpts → Option (Bool × RevOpts)
unfolding for_cores set_machine
init_machine_models = for_cores set_machine

-- A cost of 0 is refused after it has been stored.
unfoldable pub set_cost : List ℕ → RevOpts → Option (Bool × RevOpts)
unfolding assign split_str
set_cost text s = elim (three_pieces (split_str 58 text)) [
  | none ↦ some (false, s)
  | some (a, b, c) ↦ do
    core ← stoi a
    low ← stoi b
    high ← stoi c
    m ← assign s.mem_costs core (low, high)
    some (not ((low == 0) || (high == 0)), record s { mem_costs = m })
]

unfoldable pub init_mem_costs : List (List ℕ) → RevOpts → Option (Bool × RevOpts)
unfolding each set_cost
init_mem_costs = each set_cost

-- What a getter gives: `refused` stands for `false`.
pub data Got {ℓ} (A : Type ℓ) : Type ℓ where
  refused : Got A
  got : A → Got A

-- The getters that look for the core.
abbrev lookup {ℓ} : {A : Type ℓ} → (ℕ → Option A) → ℕ → Got A
lookup m core = elim (m core) [ none ↦ Got.refused | some a ↦ Got.got a ]

-- The getters that take it to be there.
abbrev fetched {ℓ} : {A : Type ℓ} → (ℕ → Option A) → ℕ → Option (Got A)
fetched m core = m core >>= (λ a. some (Got.got a))

unfoldable pub get_prefetch_depth : ℕ → RevOpts → Got ℕ
get_prefetch_depth core s =
    if ltb s.num_cores core then Got.refused else lookup s.prefetch_depth core

unfoldable pub get_start_addr : ℕ → RevOpts → Got ℕ
get_start_addr core s = if ltb s.num_cores core then Got.refused else lookup s.start_addr core

-- "main" where the core has no symbol.
unfoldable pub get_start_symbol : ℕ → RevOpts → Got (List ℕ)
get_start_symbol core s =
    let symbol : Got (List ℕ) = elim (s.start_sym core) [
      | none ↦ Got.got (109 ∷ 97 ∷ 105 ∷ 110 ∷ [])
      | some name ↦ Got.got name
    ] in
    if ltb s.num_cores core then Got.refused else symbol

unfoldable pub get_machine_model : ℕ → RevOpts → Option (Got (List ℕ))
get_machine_model core s = if ltb s.num_cores core then some Got.refused else fetched s.machine core

unfoldable pub get_inst_table : ℕ → RevOpts → Option (Got (List ℕ))
get_inst_table core s = if ltb s.num_cores core then some Got.refused else fetched s.table core

unfoldable pub get_mem_cost : ℕ → RevOpts → Option (Got (ℕ × ℕ))
get_mem_cost core s = if ltb s.num_cores core then some Got.refused else fetched s.mem_costs core
