-- ===== src/MemCtrl/Arbiter.antt =====
-- The dispatch of queued objects: `isMemOpAvail`, `isAQ`, `isRL`, `isPendingAMO`, `processNextRqst` and
-- `clockTick`. `none` stands for a fatal error.
use rev.Prelude.{
  ℕ, zero, suc, ◌+◌, ◌-◌, ◌^◌, bit_and, Bool, true, false, not, ◌==◌, ◌&&◌, ◌||◌, ltb, List, [],
  ◌∷◌, ◌++◌, Option, some, none, ◌>>=◌, if◌then◌else◌,
}
use rev.Word.{u32, u64}
use rev.MemCtrl.{MemOp, RevMemOp, AmoEntry, Limits, RevBasicMemCtrl}
use rev.MemCtrl.Rqst.{build_standard_mem_rqst}

-- The `t_max_` counters of a cycle.
pub record Slots : Type 0 where
  pub loads : ℕ
  pub stores : ℕ
  pub flush : ℕ
  pub llsc : ℕ
  pub readlock : ℕ
  pub writeunlock : ℕ
  pub custom : ℕ
  pub ops : ℕ

abbrev pub no_slots : Slots
no_slots = record {
  loads = 0;
  stores = 0;
  flush = 0;
  llsc = 0;
  readlock = 0;
  writeunlock = 0;
  custom = 0;
  ops = 0;
}

unfoldable pub is_mem_op_avail : Limits → MemOp → Slots → Option (Bool × Slots)
is_mem_op_avail c MemOp.read t =
    if ltb t.loads c.max_loads
    then some (true, record t { loads = t.loads + 1 })
    else some (false, t)
is_mem_op_avail c MemOp.write t =
    if ltb t.stores c.max_stores
    then some (true, record t { stores = t.stores + 1 })
    else some (false, t)
is_mem_op_avail c MemOp.flush t =
    if ltb t.flush c.max_flush
    then some (true, record t { flush = t.flush + 1 })
    else some (false, t)
is_mem_op_avail c MemOp.readlock t =
    if ltb t.readlock c.max_readlock
    then some (true, record t { readlock = t.readlock + 1 })
    else some (false, t)
is_mem_op_avail c MemOp.writeunlock t =
    if ltb t.writeunlock c.max_writeunlock
    then some (true, record t { writeunlock = t.writeunlock + 1 })
    else some (false, t)
is_mem_op_avail c MemOp.loadlink t =
    if ltb t.llsc c.max_llsc then some (true, record t { llsc = t.llsc + 1 }) else some (false, t)
is_mem_op_avail c MemOp.storecond t =
    if ltb t.llsc c.max_llsc then some (true, record t { llsc = t.llsc + 1 }) else some (false, t)
is_mem_op_avail c MemOp.custom t =
    if ltb t.custom c.max_custom
    then some (true, record t { custom = t.custom + 1 })
    else some (false, t)
is_mem_op_avail c MemOp.fence t = some (true, t)
is_mem_op_avail c MemOp.amo t = none

abbrev pub is_amo_flags : ℕ → Bool
is_amo_flags flags = not (bit_and flags 0x3FE00000 == 0)

-- An atomic operation with the flag F_AQ, or F_RL.
abbrev pub acquires : RevMemOp → Bool
acquires op = is_amo_flags op.flags && not (bit_and op.flags (2 ^ 30) == 0)

abbrev pub releases : RevMemOp → Bool
releases op = is_amo_flags op.flags && not (bit_and op.flags (2 ^ 31) == 0)

-- The searches of the slots before that of `op`, oldest first.
unfoldable pub acquired_before : RevMemOp → List RevMemOp → Bool
acquired_before op [] = false
acquired_before op (e ∷ es) =
    let rest = acquired_before op es in if acquires e && (e.hart == op.hart) then true else rest

unfoldable pub same_hart_before : RevMemOp → List RevMemOp → Bool
same_hart_before op [] = false
same_hart_before op (e ∷ es) =
    let rest = same_hart_before op es in if e.hart == op.hart then true else rest

-- `AMOTable.size() == 0`. Slot 0 has no slots before it.
abbrev pub is_empty : List AmoEntry → Bool
is_empty [] = true
is_empty (e ∷ es) = false

unfoldable pub is_aq : List AmoEntry → RevMemOp → List RevMemOp → Bool
unfolding acquired_before
is_aq table op before = if is_empty table then false else acquired_before op before

unfoldable pub is_rl : List AmoEntry → RevMemOp → List RevMemOp → Bool
unfolding same_hart_before
is_rl table op before =
    if is_empty table then false else if releases op then same_hart_before op before else false

unfoldable pub is_pending_amo : List AmoEntry → RevMemOp → List RevMemOp → Bool
unfolding is_aq is_rl
is_pending_amo table op before = is_aq table op before || is_rl table op before

abbrev pub is_fence : MemOp → Bool
is_fence MemOp.fence = true
is_fence _ = false

abbrev pub saturate : Limits → Slots → Slots
saturate c t = record t { ops = c.max_ops }

-- The outstanding requests that a fence waits for.
abbrev pub get_total_rqsts : RevBasicMemCtrl → ℕ
get_total_rqsts s =
    u64 (s.num_read + s.num_write + s.num_llsc + s.num_readlock + s.num_writeunlock + s.num_custom)

module _ (c : Limits) where
  -- What the building of the request gives: an object that has been sent leaves the queue.
  unfoldable pub dispatched :
      List RevMemOp → List RevMemOp → Slots → Bool × RevBasicMemCtrl → Slots × RevBasicMemCtrl
  dispatched before after t (true, s) = (t, record s { rqst_q = before ++ after })
  dispatched before after t (false, s) = (saturate c t, s)

  -- A round that has found an object that is available, between the slots `before` and `after`.
  unfoldable pub process_slot :
      List RevMemOp
      → RevMemOp
      → List RevMemOp
      → Slots
      → RevBasicMemCtrl
      → Option (Slots × RevBasicMemCtrl)
  unfolding dispatched is_pending_amo
  process_slot before op after t s =
      let t' = record t { ops = u32 (t.ops + 1) } in
      let fenced = record s { rqst_q = before ++ after; num_fence = u64 (s.num_fence + 1) } in
      let built = build_standard_mem_rqst c op s >>= (λ b. some (dispatched before after t' b)) in
      if is_fence op.op
      then some (saturate c t', fenced)
      else if is_pending_amo s.amo_table op before
      then some (saturate c t', s)
      else built

  -- The loop over the slots, from the object `op` on.
  unfoldable pub process_slots :
      List RevMemOp → List RevMemOp → Slots → RevBasicMemCtrl → Option (Slots × RevBasicMemCtrl)
  unfolding process_slot is_mem_op_avail
  process_slots before [] t s = some (saturate c t, s)
  process_slots before (op ∷ after) t s = is_mem_op_avail c op.op t >>= (λ (avail, t').
      let rest = process_slots (before ++ (op ∷ [])) after t' s in
      if avail then process_slot before op after t' s else rest)

  -- An empty queue saturates as well.
  unfoldable pub process_next_rqst : Slots → RevBasicMemCtrl → Option (Slots × RevBasicMemCtrl)
  unfolding process_slots
  process_next_rqst t s = process_slots [] s.rqst_q t s

  -- `while( !done )`, on fuel.
  unfoldable pub process_queue : ℕ → Slots → RevBasicMemCtrl → Option RevBasicMemCtrl
  unfolding process_next_rqst
  process_queue zero t s = none
  process_queue (suc fuel) t s = process_next_rqst t s >>= (λ (t', s').
      let rest = process_queue fuel t' s' in if t'.ops == c.max_ops then some s' else rest)

  unfoldable pub clock_tick : ℕ → RevBasicMemCtrl → Option RevBasicMemCtrl
  unfolding process_queue
  clock_tick fuel s =
      let cleared =
        process_queue fuel no_slots (record s { num_fence = u64 (s.num_fence + (2 ^ 64 - 1)) }) in
      let plain = process_queue fuel no_slots s in
      if s.num_fence == 0 then plain else if get_total_rqsts s == 0 then cleared else some s
