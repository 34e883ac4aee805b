-- ===== src/MemCtrl/Laws.antt =====
-- The dispatch keeps the order that atomic operations and fences ask for, and every tick ends.
use rev.Prelude.{
  ℕ, zero, suc, ◌+◌, ◌-◌, ◌^◌, ◌<◌, ◌≡◌, ◌⊎◌, inl, inr, refl, sym, ap, arith, ◌==◌, List, [], ◌∷◌,
  ◌++◌, All, length, Option, some, Bool-cases,
}
use rev.Word.{u64}
use rev.MemCtrl.{RevMemOp, Limits, RevBasicMemCtrl}
use rev.MemCtrl.Counted.{IsCounted}
use rev.MemCtrl.Order.{NotAmo, Round}
use rev.MemCtrl.Rounds.{Processed, process_next_rqst-Processed}
use rev.MemCtrl.Arbiter.{
  Slots, no_slots, process_next_rqst, process_queue, get_total_rqsts, clock_tick,
}

-- In a state in which the counters add up to the requests, and whose queue holds no object of the kind
-- AMO, `processNextRqst` returns, and waits, takes a fence, or sends an object: then the objects ahead of
-- it in the queue stay and are of other kinds, and, while the table of atomic operations holds one, those
-- of its hart have no acquiring operation among them and there are none where it releases.
pub process_next_rqst-Round :
    (c : Limits) (t : Slots) (s : RevBasicMemCtrl)
    → IsCounted s
    → All NotAmo s.rqst_q
    → (t' : Slots) × (s' : RevBasicMemCtrl) × (process_next_rqst c t s ≡ some (t', s'))
      × Round c s t' s'
unfolding Processed
process_next_rqst-Round c t s ok known = process_next_rqst-Processed c s ok t known

removed-NotAmo :
    (before : List RevMemOp) (op : RevMemOp) (after : List RevMemOp)
    → All NotAmo (before ++ (op ∷ after))
    → All NotAmo (before ++ after)
removed-NotAmo [] op after (h, hs) = hs
removed-NotAmo (e ∷ before) op after (h, hs) = (h, removed-NotAmo before op after hs)

length-removed :
    (before : List RevMemOp) (op : RevMemOp) (after : List RevMemOp)
    → length (before ++ (op ∷ after)) ≡ suc (length (before ++ after))
length-removed [] op after = refl
length-removed (e ∷ before) op after = ap suc (length-removed before op after)

-- A round keeps the state in order, and ends the tick or shortens the queue.
progress_lem :
    (c : Limits) (s s' : RevBasicMemCtrl) (t' : Slots)
    → IsCounted s
    → All NotAmo s.rqst_q
    → Round c s t' s'
    → IsCounted s'
      × All NotAmo s'.rqst_q
      × ((t'.ops ≡ c.max_ops) ⊎ (suc (length s'.rqst_q) ≡ length s.rqst_q))
unfolding IsCounted
progress_lem c s s' t1 ok known (Round.waits t' full) = (ok, known, inl full)
progress_lem c s s' t1 ok known (Round.fences before op after t' q same others full) =
    (ok, removed-NotAmo before op after (rw q at known), inl full)
progress_lem c s s' t1 ok known (Round.sends before op after t' s1 q not_fence others go e ok1) = (
  ok1,
  removed-NotAmo before op after (rw q at known),
  inr (rw q (sym (length-removed before op after))),
)

-- What the loop and the tick end in.
abbrev pub EndsCounted : Option RevBasicMemCtrl → Type 0
EndsCounted o = (s : RevBasicMemCtrl) × (o ≡ some s) × IsCounted s × All NotAmo s.rqst_q

module _ (c : Limits) where
  process_queue-EndsCounted :
      (fuel : ℕ) (t : Slots) (s : RevBasicMemCtrl)
      → IsCounted s
      → All NotAmo s.rqst_q
      → length s.rqst_q < fuel
      → EndsCounted (process_queue c fuel t s)
  unfolding process_queue
  process_queue-EndsCounted zero t s ok known enough = absurd (omega (arith, enough))
  process_queue-EndsCounted (suc fuel) t s ok known enough =
      let (t1, s1, e, round) = process_next_rqst-Round c t s ok known in
      let (ok1, known1, progress) = progress_lem c s s1 t1 ok known round in
      elim (Bool-cases (t1.ops == c.max_ops)) [
        | inl done ↦ (s1, rw (e, done) refl, ok1, known1)
        | inr on ↦
            let shorter : length s1.rqst_q < fuel = elim progress [
              | inl full ↦ absurd (ground (arith, on, full))
              | inr less ↦ omega (arith, less, enough)
            ] in
            let (s2, e2, ok2, known2) = process_queue-EndsCounted fuel t1 s1 ok1 known1 shorter in
            (s2, rw (e, on) e2, ok2, known2)
      ]

-- With one round more than the queue has objects, a tick ends, where the counters add up to the
-- requests and no queued object has the kind AMO; afterwards both hold again.
pub clock_tick-EndsCounted :
    (c : Limits) (s : RevBasicMemCtrl)
    → IsCounted s
    → All NotAmo s.rqst_q
    → EndsCounted (clock_tick c (length s.rqst_q + 1) s)
unfolding clock_tick IsCounted
clock_tick-EndsCounted c s ok known =
    let n = length s.rqst_q + 1 in
    let plain = process_queue-EndsCounted c n no_slots s ok known (omega arith) in
    let cleared =
      process_queue-EndsCounted c n no_slots
        (record s { num_fence = u64 (s.num_fence + (2 ^ 64 - 1)) }) ok known (omega arith) in
    elim (Bool-cases (s.num_fence == 0)) [
      | inl none_pending ↦ rw none_pending plain
      | inr pending ↦ elim (Bool-cases (get_total_rqsts s == 0)) [
        | inl clear ↦ rw (pending, clear) cleared
        | inr busy ↦ rw (pending, busy) (s, refl, ok, known)
      ]
    ]
