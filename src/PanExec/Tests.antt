-- ===== src/PanExec/Tests.antt =====
-- Entries of a queue.
use rev.Prelude.{◌≡◌, refl, arith, [], ◌∷◌, some}
use rev.PanExec.{PanStatus, Entry, PanExec, get_next_entry, Operation, run}
use rev.PanExec.Laws.{IsBounded, Served, get_next_entry-Served, run-IsBounded}

abbrev executing : Entry
executing = record { idx = 63; status = PanStatus.q_exec; addr = 0x1000 }

abbrev ready : Entry
ready = record { idx = 0; status = PanStatus.q_valid; addr = 0x2000 }

abbrev two : PanExec
two = record { cur_entry = 63; exec_queue = executing ∷ ready ∷ [] }

abbrev after_add : PanExec
after_add = record {
  cur_entry = 0;
  exec_queue =
      executing ∷ ready ∷ record { idx = 0; status = PanStatus.q_valid; addr = 0x3000 } ∷ [];
}

two-IsBounded : IsBounded two
two-IsBounded = record {
  current = omega arith;
  few = omega arith;
  indexes = (omega arith, (omega arith, tt));
}

get_next_entry-Served_example : Served two (get_next_entry two)
get_next_entry-Served_example = get_next_entry-Served two

adds_third : run (Operation.adds 0x3000) two ≡ some after_add
unfolding run
adds_third = refl

run-IsBounded_example : IsBounded after_add
run-IsBounded_example = run-IsBounded (Operation.adds 0x3000) two after_add two-IsBounded adds_third
