-- ===== src/ThreadCtx.antt =====
-- include/RevThreadCtx.h and src/RevThreadCtx.cc: a software thread's identity, register file,
-- children and file descriptors. The float registers are left out, as in RegFile; a file descriptor
-- is the pattern of an int.
pub mod Laws
mod Tests
use rev.Prelude.{ℕ, zero, suc, Bool, true, false, List, [], ◌∷◌, ◌++◌, ◌==◌, if◌then◌else◌}
use rev.RegFile.{RevRegFile, RevRf, get, put}

pub data ThreadState : Type 0 where
  running waiting sleeping dead : ThreadState

pub record RevThreadCtx : Type 0 where
  pub pid : ℕ
  pub parent_pid : ℕ
  pub state : ThreadState
  pub reg_file : RevRegFile
  pub children_pids : List ℕ
  pub fildes : List ℕ

-- The constructor, with the register file that `RevRegFile()` leaves.
abbrev pub thread_ctx : RevRegFile → ℕ → ℕ → RevThreadCtx
thread_ctx blank input_pid input_parent_pid = record {
  pid = input_pid;
  parent_pid = input_parent_pid;
  state = ThreadState.waiting;
  reg_file = blank;
  children_pids = [];
  fildes = 0 ∷ 1 ∷ 2 ∷ [];
}

-- `std::find` and `erase` at what it finds.
unfoldable pub has : ℕ → List ℕ → Bool
has v [] = false
has v (x ∷ xs) = let rest = has v xs in if x == v then true else rest

unfoldable pub erase_first : ℕ → List ℕ → List ℕ
erase_first v [] = []
erase_first v (x ∷ xs) = let rest = x ∷ erase_first v xs in if x == v then xs else rest

unfoldable pub add_child_pid : ℕ → RevThreadCtx → Bool × RevThreadCtx
unfolding has
add_child_pid pid t =
    if has pid t.children_pids
    then (true, record t { children_pids = t.children_pids ++ (pid ∷ []) })
    else (false, t)

unfoldable pub remove_child_pid : ℕ → RevThreadCtx → Bool × RevThreadCtx
unfolding has erase_first
remove_child_pid pid t =
    if has pid t.children_pids
    then (true, record t { children_pids = erase_first pid t.children_pids })
    else (false, t)

unfoldable pub add_fd : ℕ → RevThreadCtx → RevThreadCtx
add_fd fd t = record t { fildes = t.fildes ++ (fd ∷ []) }

unfoldable pub find_fd : ℕ → RevThreadCtx → Bool
unfolding has
find_fd fd t = has fd t.fildes

unfoldable pub remove_fd : ℕ → RevThreadCtx → Bool × RevThreadCtx
unfolding has erase_first
remove_fd fd t =
    if has fd t.fildes then (true, record t { fildes = erase_first fd t.fildes }) else (false, t)

-- The loop of `DuplicateRegFile` over the integer registers and over a scoreboard.
unfoldable pub copy_regs : ℕ → RevRf → RevRf → RevRf
copy_regs zero to from = to
copy_regs (suc i) to from = put (copy_regs i to from) i (get from i)

unfoldable pub copy_board : ℕ → (ℕ → Bool) → (ℕ → Bool) → ℕ → Bool
copy_board zero to from j = to j
copy_board (suc i) to from j = if j == i then from i else copy_board i to from j

unfoldable pub duplicate_reg_file : RevRegFile → RevThreadCtx → Bool × RevThreadCtx
unfolding copy_regs copy_board
duplicate_reg_file dup t =
    let r = t.reg_file in
    (
      true,
      record t {
        reg_file = record {
          rv32 = copy_regs 32 r.rv32 dup.rv32;
          rv64 = copy_regs 32 r.rv64 dup.rv64;
          rv64_sstatus = dup.rv64_sstatus;
          rv64_sepc = dup.rv64_sepc;
          rv64_scause = dup.rv64_scause;
          rv64_stval = dup.rv64_stval;
          rv64_stvec = dup.rv64_stvec;
          rv32_sstatus = dup.rv32_sstatus;
          rv32_sepc = dup.rv32_sepc;
          rv32_scause = 0;
          rv32_stval = dup.rv32_stval;
          rv32_stvec = dup.rv32_stvec;
          rv32_scoreboard = copy_board 32 r.rv32_scoreboard dup.rv32_scoreboard;
          rv64_scoreboard = copy_board 32 r.rv64_scoreboard dup.rv64_scoreboard;
          spf_scoreboard = copy_board 32 r.spf_scoreboard dup.spf_scoreboard;
          dpf_scoreboard = copy_board 32 r.dpf_scoreboard dup.dpf_scoreboard;
          rv32_pc = dup.rv32_pc;
          rv64_pc = dup.rv64_pc;
          fcsr = dup.fcsr;
          cost = dup.cost;
          trigger = dup.trigger;
          entry = dup.entry;
        };
      },
    )
