-- ===== src/MemCtrl/Reach.antt =====
-- The controller as a state machine: calls of the core, ticks of the clock, and responses of the memory,
-- in any order.
use mathlib.Core.Path.{subst}
use rev.Prelude.{
  ℕ, ◌+◌, ◌≡◌, refl, sym, ◌∙◌, arith, Bool, true, false, ◌==◌, bit_and, List, [], ◌∷◌, ◌++◌, All,
  length, some, none, if◌then◌else◌, some-injective,
}
use rev.MemCtrl.{
  MemOp, RevMemOp, Limits, RevBasicMemCtrl, send_flush_request, send_read_request,
  send_write_request, send_amo_request, send_readlock_request, send_writelock_request,
  send_loadlink_request, send_storecond_request, send_customread_request, send_customwrite_request,
  send_fence, mem_op, set_hazard, push_rqst, AmoEntry,
}
use rev.MemCtrl.Counted.{counted, IsCounted}
use rev.MemCtrl.Order.{NotAmo}
use rev.Prelude.{All-append}
use rev.MemCtrl.Arbiter.{clock_tick}
use rev.MemCtrl.Laws.{EndsCounted, clock_tick-EndsCounted}
use rev.MemCtrl.Resp.{handle_flush_resp, handle_custom_resp, handle_write_resp, handle_read_resp}
use rev.MemCtrl.Answers.{
  StaysCounted, handle_flush_resp-StaysCounted, handle_custom_resp-StaysCounted,
  handle_write_resp-StaysCounted,
}
use rev.MemCtrl.Reads.{handle_read_resp-StaysCounted}

-- The controller before any call, with the ID that the interface gives its first request.
abbrev pub started : (ℕ → ℕ) → ℕ → RevBasicMemCtrl
started host first = record {
  rqst_q = [];
  amo_table = [];
  requests = [];
  outstanding = [];
  sent = [];
  next_id = first;
  next_ident = 0;
  hazards = λ p. false;
  host = host;
  num_read = 0;
  num_write = 0;
  num_flush = 0;
  num_llsc = 0;
  num_readlock = 0;
  num_writeunlock = 0;
  num_custom = 0;
  num_fence = 0;
}

-- A tick has more rounds than the queue has objects; an invalidation answers no request.
pub data Step (c : Limits) (s : RevBasicMemCtrl) : RevBasicMemCtrl → Type 0 where
  ticks : (s' : RevBasicMemCtrl) → clock_tick c (length s.rqst_q + 1) s ≡ some s' → Step c s s'
  reads :
      (id p_addr size : ℕ) (bytes : ℕ → ℕ) (s' : RevBasicMemCtrl)
      → handle_read_resp id p_addr size bytes s ≡ some s'
      → Step c s s'
  writes : (id : ℕ) (s' : RevBasicMemCtrl) → handle_write_resp id s ≡ some s' → Step c s s'
  flushes : (id : ℕ) (s' : RevBasicMemCtrl) → handle_flush_resp id s ≡ some s' → Step c s s'
  customs : (id : ℕ) (s' : RevBasicMemCtrl) → handle_custom_resp id s ≡ some s' → Step c s s'
  send_flush :
      (hart addr p_addr size : ℕ) (inv : Bool) (flags : ℕ)
      → Step c s (send_flush_request hart addr p_addr size inv flags s)
  send_read :
      (hart addr p_addr size target hazard flags : ℕ)
      → Step c s (send_read_request hart addr p_addr size target hazard flags s)
  send_write :
      (hart addr p_addr size : ℕ) (buffer : List ℕ) (flags : ℕ)
      → Step c s (send_write_request hart addr p_addr size buffer flags s)
  send_amo :
      (hart addr p_addr size : ℕ) (bytes : List ℕ) (buffer target hazard flags : ℕ)
      → Step c s (send_amo_request hart addr p_addr size bytes buffer target hazard flags s)
  send_readlock :
      (hart addr p_addr size target hazard flags : ℕ)
      → Step c s (send_readlock_request hart addr p_addr size target hazard flags s)
  send_writelock :
      (hart addr p_addr size : ℕ) (buffer : List ℕ) (flags : ℕ)
      → Step c s (send_writelock_request hart addr p_addr size buffer flags s)
  send_loadlink :
      (hart addr p_addr size flags : ℕ)
      → Step c s (send_loadlink_request hart addr p_addr size flags s)
  send_storecond :
      (hart addr p_addr size : ℕ) (buffer : List ℕ) (flags : ℕ)
      → Step c s (send_storecond_request hart addr p_addr size buffer flags s)
  send_customread :
      (hart addr p_addr size target opc flags : ℕ)
      → Step c s (send_customread_request hart addr p_addr size target opc flags s)
  send_customwrite :
      (hart addr p_addr size : ℕ) (buffer : List ℕ) (opc flags : ℕ)
      → Step c s (send_customwrite_request hart addr p_addr size buffer opc flags s)
  sends_fence : (hart : ℕ) → Step c s (send_fence hart s)

pub data Reached (c : Limits) (host : ℕ → ℕ) (first : ℕ) : RevBasicMemCtrl → Type 0 where
  start : Reached c host first (started host first)
  then_step :
      (s s' : RevBasicMemCtrl) → Reached c host first s → Step c s s' → Reached c host first s'

started-StaysCounted : (host : ℕ → ℕ) (first : ℕ) → StaysCounted (started host first)
unfolding IsCounted
started-StaysCounted host first = (refl, tt)

-- A call that does nothing, or puts an object at the end of the queue.
call-StaysCounted :
    (b : Bool) (s s' : RevBasicMemCtrl) (op : RevMemOp)
    → StaysCounted s
    → NotAmo op
    → s'.requests ≡ s.requests
    → counted s' ≡ counted s
    → s'.rqst_q ≡ s.rqst_q
    → StaysCounted (if b then s else push_rqst op s')
unfolding IsCounted
call-StaysCounted true s s' op ok no_amo same sum q = ok
call-StaysCounted false s s' op (ok, known) no_amo same sum q =
    (rw (same, sum) ok, rw q (All-append NotAmo s.rqst_q (op ∷ []) known (no_amo, tt)))

if-StaysCounted :
    (b : Bool) (s s' : RevBasicMemCtrl)
    → StaysCounted s
    → StaysCounted s'
    → StaysCounted (if b then s else s')
if-StaysCounted true s s' ok ok' = ok
if-StaysCounted false s s' ok ok' = ok'

ticked-StaysCounted :
    (c : Limits) (s s' : RevBasicMemCtrl)
    → StaysCounted s
    → clock_tick c (length s.rqst_q + 1) s ≡ some s'
    → StaysCounted s'
ticked-StaysCounted c s s' (ok, known) h =
    let (s1, e, ok1, known1) = clock_tick-EndsCounted c s ok known in
    subst StaysCounted (some-injective s1 s' (sym e ∙ h)) (ok1, known1)

-- Every step keeps the counters in order.
transition-StaysCounted :
    (c : Limits) (s s' : RevBasicMemCtrl) → StaysCounted s → Step c s s' → StaysCounted s'
unfolding send_flush_request send_read_request send_write_request send_amo_request
    send_readlock_request send_writelock_request send_loadlink_request send_storecond_request
    send_customread_request send_customwrite_request send_fence
transition-StaysCounted c s s' ok (Step.ticks _ h) = ticked-StaysCounted c s s' ok h
transition-StaysCounted c s s' ok (Step.reads id p_addr size bytes _ h) =
    handle_read_resp-StaysCounted id p_addr size bytes s s' ok h
transition-StaysCounted c s s' ok (Step.writes id _ h) = handle_write_resp-StaysCounted id s s' ok h
transition-StaysCounted c s s' ok (Step.flushes id _ h) =
    handle_flush_resp-StaysCounted id s s' ok h
transition-StaysCounted c s s' ok (Step.customs id _ h) =
    handle_custom_resp-StaysCounted id s s' ok h
transition-StaysCounted c s s' ok (Step.sends_fence hart) =
    call-StaysCounted false s s (mem_op s hart 0 0 0 MemOp.fence [] none 0 0) ok
      (λ e. ground (arith, e)) refl refl refl
transition-StaysCounted c s s' ok (Step.send_flush hart addr p_addr size inv flags) =
    call-StaysCounted (size == 0) s s
      (record (mem_op s hart addr p_addr size MemOp.flush [] none 0 flags) { inv = inv }) ok
      (λ e. ground (arith, e)) refl refl refl
transition-StaysCounted c s s' ok (Step.send_read hart addr p_addr size target hazard flags) =
    call-StaysCounted (size == 0) s (set_hazard hazard true s)
      (record (mem_op s hart addr p_addr size MemOp.read [] (some target) 0 flags) {
        hazard = some hazard;
      })
      ok (λ e. ground (arith, e)) refl refl refl
transition-StaysCounted c s s' ok (Step.send_write hart addr p_addr size buffer flags) =
    call-StaysCounted (size == 0) s s
      (mem_op s hart addr p_addr size MemOp.write buffer none 0 flags) ok (λ e. ground (arith, e))
      refl refl refl
transition-StaysCounted c s s' ok (Step.send_readlock hart addr p_addr size target hazard flags) =
    call-StaysCounted (size == 0) s (set_hazard hazard true s)
      (record (mem_op s hart addr p_addr size MemOp.readlock [] (some target) 0 flags) {
        hazard = some hazard;
      })
      ok (λ e. ground (arith, e)) refl refl refl
transition-StaysCounted c s s' ok (Step.send_writelock hart addr p_addr size buffer flags) =
    call-StaysCounted (size == 0) s s
      (mem_op s hart addr p_addr size MemOp.writeunlock buffer none 0 flags) ok
      (λ e. ground (arith, e)) refl refl refl
transition-StaysCounted c s s' ok (Step.send_loadlink hart addr p_addr size flags) =
    call-StaysCounted (size == 0) s s
      (mem_op s hart addr p_addr size MemOp.loadlink [] none 0 flags) ok (λ e. ground (arith, e))
      refl refl refl
transition-StaysCounted c s s' ok (Step.send_storecond hart addr p_addr size buffer flags) =
    call-StaysCounted (size == 0) s s
      (mem_op s hart addr p_addr size MemOp.storecond buffer none 0 flags) ok
      (λ e. ground (arith, e)) refl refl refl
transition-StaysCounted c s s' ok (Step.send_customread hart addr p_addr size target opc flags) =
    call-StaysCounted (size == 0) s s
      (mem_op s hart addr p_addr size MemOp.custom [] (some target) opc flags) ok
      (λ e. ground (arith, e)) refl refl refl
transition-StaysCounted c s s' ok (Step.send_customwrite hart addr p_addr size buffer opc flags) =
    call-StaysCounted (size == 0) s s
      (mem_op s hart addr p_addr size MemOp.custom buffer none opc flags) ok
      (λ e. ground (arith, e)) refl refl refl
transition-StaysCounted c s s' ok
      (Step.send_amo hart addr p_addr size bytes buffer target hazard flags) =
    let op : RevMemOp =
      record (mem_op s hart addr p_addr size MemOp.read bytes (some target) 0 flags) {
        hazard = some hazard;
      } in
    let entry : AmoEntry = record {
      addr = addr;
      hart = hart;
      buffer = some buffer;
      target = some target;
      flags = flags;
      mem_op = op;
      is_write = false;
    } in
    let set = set_hazard hazard true s in
    let s1 : RevBasicMemCtrl = record set { amo_table = s.amo_table ++ (entry ∷ []) } in
    let no_amo = bit_and flags 0x3FE00000 == 0 in
    if-StaysCounted (size == 0) s (if no_amo then s else push_rqst op s1) ok
      (call-StaysCounted no_amo s s1 op ok (λ e. ground (arith, e)) refl refl refl)

invariant_lem :
    (c : Limits) (host : ℕ → ℕ) (first : ℕ) (s : RevBasicMemCtrl)
    → Reached c host first s
    → StaysCounted s
invariant_lem c host first _ Reached.start = started-StaysCounted host first
invariant_lem c host first _ (Reached.then_step s s' before step) =
    transition-StaysCounted c s s' (invariant_lem c host first s before) step

-- From a controller without requests, after any sequence of calls of the core, responses and ticks: the
-- counters of the kinds add up to the requests that wait for a response, modulo 2^64, no queued object
-- has the kind AMO, and the next tick ends.
pub reachable-EndsCounted :
    (c : Limits) (host : ℕ → ℕ) (first : ℕ) (s : RevBasicMemCtrl)
    → Reached c host first s
    → IsCounted s × All NotAmo s.rqst_q × EndsCounted (clock_tick c (length s.rqst_q + 1) s)
reachable-EndsCounted c host first s before =
    let (ok, known) = invariant_lem c host first s before in
    (ok, known, clock_tick-EndsCounted c s ok known)
