-- ===== src/MemCtrl/Tests.antt =====
-- A queue with an acquiring atomic operation, and runs of the dispatch.
use rev.Prelude.{
  if◌then◌else◌, ◌==◌, ◌%◌, ◌-◌, ltb, ℕ, ◌+◌, ◌^◌, ◌≡◌, refl, arith, true, false, [], ◌∷◌, All,
  length, Option, some, none,
}
use rev.MemCtrl.{
  MemOp, Limits, RevBasicMemCtrl, send_read_request, send_write_request, send_amo_request,
  send_fence, AmoEntry, mem_op,
}
use rev.Mem.Amo.{AmoOp, amo_select, word_of}
use rev.Mem.Paging.{calc_phys_addr, is_valid_virt_addr, in_segments}
use rev.Mem.Tlb.{search_tlb}
use rev.Mem.Bytes.{Memory, read_mem}
use rev.Mem.Fixtures.{memory_bytes}
use rev.Word.{sext}
use rev.MemCtrl.Resp.{
  read_host, write_host, handle_flag_resp, handle_read_resp, finish_read, handle_amo, take_entry,
  closed, answered, erase_rqst, find_outstanding,
}
use rev.MemCtrl.Modify.{AgreesWithMemory, perform_amo-AgreesWithMemory}
use rev.MemCtrl.Reach.{started, Step, Reached, reachable-EndsCounted}
use rev.MemCtrl.Cache.{get_base_cache_line_size, get_num_cache_lines}
use rev.MemCtrl.Rqst.{build_standard_mem_rqst}
use rev.MemCtrl.Counted.{IsCounted}
use rev.MemCtrl.Order.{NotAmo, Round}
use rev.MemCtrl.Laws.{process_next_rqst-Round, EndsCounted}
use rev.MemCtrl.Arbiter.{Slots, no_slots, process_next_rqst, clock_tick}

abbrev limits : Limits
limits = record {
  max_loads = 1;
  max_stores = 2;
  max_flush = 1;
  max_llsc = 1;
  max_readlock = 1;
  max_writeunlock = 1;
  max_custom = 1;
  max_ops = 2;
  has_cache = true;
  line_size = 64;
}

abbrev empty : RevBasicMemCtrl
empty = started (λ p. 0) 0

-- An AMOADD of hart 0 that acquires, then a write of the hart, one of hart 1, and a fence.
abbrev queued : RevBasicMemCtrl
unfolding send_write_request send_amo_request send_fence
queued = send_fence 0 (
    send_write_request 1 256 256 4 (1 ∷ 2 ∷ 3 ∷ 4 ∷ []) 0 (
      send_write_request 0 128 128 4 (1 ∷ 2 ∷ 3 ∷ 4 ∷ []) 0
        (send_amo_request 0 64 64 4 (5 ∷ 0 ∷ 0 ∷ 0 ∷ []) 900 800 700 (2 ^ 30 + 2 ^ 21) empty)))

queued-IsCounted : IsCounted queued
unfolding IsCounted queued
queued-IsCounted = refl

queued-NotAmo : All NotAmo queued.rqst_q
unfolding queued
queued-NotAmo = (
  λ e. ground (arith, e),
  (λ e. ground (arith, e), (λ e. ground (arith, e), (λ e. ground (arith, e), tt))),
)

process_next_rqst-Round_example :
    (t' : Slots) × (s' : RevBasicMemCtrl) × (process_next_rqst limits no_slots queued
      ≡ some (t', s'))
    × Round limits queued t' s'
process_next_rqst-Round_example =
    process_next_rqst-Round limits no_slots queued queued-IsCounted queued-NotAmo

queued-Reached : Reached limits (λ p. 0) 0 queued
unfolding queued
queued-Reached =
    let bytes = 1 ∷ 2 ∷ 3 ∷ 4 ∷ [] in
    let s1 = send_amo_request 0 64 64 4 (5 ∷ 0 ∷ 0 ∷ 0 ∷ []) 900 800 700 (2 ^ 30 + 2 ^ 21) empty in
    let s2 = send_write_request 0 128 128 4 bytes 0 s1 in
    let s3 = send_write_request 1 256 256 4 bytes 0 s2 in
    Reached.then_step s3 queued
      (Reached.then_step s2 s3
        (Reached.then_step s1 s2
          (Reached.then_step empty s1 Reached.start
            (Step.send_amo 0 64 64 4 (5 ∷ 0 ∷ 0 ∷ 0 ∷ []) 900 800 700 (2 ^ 30 + 2 ^ 21)))
          (Step.send_write 0 128 128 4 bytes 0))
        (Step.send_write 1 256 256 4 bytes 0))
      (Step.sends_fence 0)

reachable-EndsCounted_example :
    IsCounted queued
    × All NotAmo queued.rqst_q
    × EndsCounted (clock_tick limits (length queued.rqst_q + 1) queued)
reachable-EndsCounted_example = reachable-EndsCounted limits (λ p. 0) 0 queued queued-Reached

-- The read of the AMO is back: the host target holds 7, and 5 is to be added.
abbrev back : RevBasicMemCtrl
back = record empty { host = λ p. if p == 800 then 7 else 0 }

abbrev entry : AmoEntry
entry = record {
  addr = 7;
  hart = 0;
  buffer = some 900;
  target = some 800;
  flags = 2 ^ 21;
  mem_op = record (mem_op empty 0 7 7 4 MemOp.read (5 ∷ 0 ∷ 0 ∷ 0 ∷ []) (some 800) 0 (2 ^ 21)) {
    hazard = some 700;
  };
  is_write = false;
}

-- The memory holds 7 at the offset 7 of each page.
abbrev seven : Memory
seven = record memory_bytes { phys_mem = λ p. if p % 0x40000 == 7 then 7 else 0 }

abbrev read_seven : (ℕ → ℕ) × Memory
unfolding read_mem
read_seven = elim (read_mem 7 4 (λ _. 0) seven) [ some r ↦ r | none ↦ (λ _. 0, seven) ]

is_read : read_mem 7 4 (λ _. 0) seven ≡ some (read_seven.0, read_seven.1)
unfolding read_mem read_seven calc_phys_addr search_tlb is_valid_virt_addr in_segments
is_read = refl

perform_amo-AgreesWithMemory_example :
    AgreesWithMemory AmoOp.amoadd entry 700 7 5 back seven (read_seven.1)
unfolding amo_select word_of read_host read_mem read_seven calc_phys_addr search_tlb
    is_valid_virt_addr in_segments
perform_amo-AgreesWithMemory_example =
    perform_amo-AgreesWithMemory AmoOp.amoadd entry 800 700 7 (5 ∷ 0 ∷ 0 ∷ 0 ∷ []) back
      (read_seven.0) seven (read_seven.1) refl refl refl refl refl refl is_read refl

abbrev summary : Option RevBasicMemCtrl → ℕ × ℕ × ℕ × ℕ
summary none = (0, 0, 0, 0)
summary (some s) = (length s.rqst_q, length s.sent, s.num_read, s.num_fence)

-- A tick sends the read of the AMO, and, as nothing of the hart is ahead of it any more, a write.
tick_sends : summary (clock_tick limits 5 queued) ≡ (2, 2, 1, 0)
unfolding clock_tick queued build_standard_mem_rqst
tick_sends = refl

-- A line of 64 bytes that begins at 100 ends at 128.
line_size : get_base_cache_line_size 64 100 60 ≡ 28
unfolding get_base_cache_line_size
line_size = refl

-- A write of a whole number of lines from the start of a line on asks for a line too many.
one_line_more : get_num_cache_lines limits 0 128 ≡ 3
unfolding get_num_cache_lines
one_line_more = refl

-- The bytes 60 to 159 lie in three lines, of which two are asked for.
line_missing : get_num_cache_lines limits 60 100 ≡ 2
unfolding get_num_cache_lines
line_missing = refl

-- A sign extension to 32 bits leaves the target as it is: the upper half of a register stays clear.
sext32_stands :
    read_host 8 0 (handle_flag_resp (2 ^ 17) 0 (λ p. if ltb p 4 then 255 else 0)) ≡ 0xFFFFFFFF
unfolding read_host handle_flag_resp write_host word_of sext
sext32_stands = refl

-- A load link that is answered counts a read down, and keeps its own counter.
abbrev linked : RevBasicMemCtrl
linked = record empty {
  requests = 3 ∷ [];
  outstanding = (3, mem_op empty 0 64 64 4 MemOp.loadlink [] (some 800) 0 0) ∷ [];
  num_llsc = 1;
}

abbrev reads_links : Option RevBasicMemCtrl → ℕ × ℕ
reads_links none = (0, 0)
reads_links (some s) = (s.num_read, s.num_llsc)

link_stays : reads_links (handle_read_resp 3 64 4 (λ k. 1) linked) ≡ (2 ^ 64 - 1, 1)
unfolding handle_read_resp finish_read handle_amo take_entry closed answered handle_flag_resp
    erase_rqst find_outstanding
link_stays = refl

-- A fence overtakes a read for which the cycle has no slot, and the round ends the cycle.
abbrev busy : Slots
busy = record no_slots { loads = 1 }

abbrev fence_behind : RevBasicMemCtrl
unfolding send_read_request send_fence
fence_behind = send_fence 0 (send_read_request 0 64 64 4 800 700 0 empty)

abbrev queue_and_fences : Option (Slots × RevBasicMemCtrl) → ℕ × ℕ
queue_and_fences none = (0, 0)
queue_and_fences (some (t, s)) = (length s.rqst_q, s.num_fence)

fence_overtakes : queue_and_fences (process_next_rqst limits busy fence_behind) ≡ (1, 1)
unfolding process_next_rqst fence_behind
fence_overtakes = refl
