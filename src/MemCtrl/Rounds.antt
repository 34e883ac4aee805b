-- ===== src/MemCtrl/Rounds.antt =====
-- A round of the dispatch: `processNextRqst` waits, takes a fence, or sends an object.
use mathlib.Core.List.{append_assoc}
use rev.Prelude.{
  ◌+◌, ◌≡◌, ◌≢◌, ◌⊎◌, inl, inr, refl, sym, ap, ◌∙◌, arith, Bool, true, false, List, [], ◌∷◌, ◌++◌,
  All, Option, some, Bool-cases,
}
use rev.Word.{u32, u64}
use rev.MemCtrl.{MemOp, RevMemOp, Limits, RevBasicMemCtrl}
use rev.MemCtrl.Rqst.{build_standard_mem_rqst}
use rev.MemCtrl.Counted.{IsCounted, build-Builds}
use rev.MemCtrl.Arbiter.{
  Slots, is_pending_amo, is_fence, saturate, dispatched, process_slot, process_slots,
  process_next_rqst,
}
use rev.Prelude.{All-map, All-append}
use rev.MemCtrl.Order.{
  NotAmo, LetsGo, OtherKind, Round, waits, fences, sends, NoSlot, avail-cases,
  unavailable-OtherKind, not_pending-All,
}

-- What a round gives, with what holds of it.
unfoldable pub Processed : Limits → RevBasicMemCtrl → Option (Slots × RevBasicMemCtrl) → Type 0
Processed c s o = (t' : Slots) × (s' : RevBasicMemCtrl) × (o ≡ some (t', s')) × Round c s t' s'

fence-cases :
    (k : MemOp)
    → ((k ≡ MemOp.fence) × (is_fence k ≡ true)) ⊎ ((k ≢ MemOp.fence) × (is_fence k ≡ false))
fence-cases MemOp.fence = inl (refl, refl)
fence-cases MemOp.read = inr (λ e. ground (arith, e), refl)
fence-cases MemOp.write = inr (λ e. ground (arith, e), refl)
fence-cases MemOp.flush = inr (λ e. ground (arith, e), refl)
fence-cases MemOp.readlock = inr (λ e. ground (arith, e), refl)
fence-cases MemOp.writeunlock = inr (λ e. ground (arith, e), refl)
fence-cases MemOp.loadlink = inr (λ e. ground (arith, e), refl)
fence-cases MemOp.storecond = inr (λ e. ground (arith, e), refl)
fence-cases MemOp.custom = inr (λ e. ground (arith, e), refl)
fence-cases MemOp.amo = inr (λ e. ground (arith, e), refl)

module _ (c : Limits) (s : RevBasicMemCtrl) (ok : IsCounted s) where
  dispatched-Round :
      (before : List RevMemOp) (op : RevMemOp) (after : List RevMemOp) (t : Slots) (b : Bool)
      (s1 : RevBasicMemCtrl)
      → s.rqst_q ≡ before ++ (op ∷ after)
      → op.op ≢ MemOp.fence
      → All (OtherKind op.op) before
      → (s.amo_table ≢ [] → All (LetsGo op) before)
      → build_standard_mem_rqst c op s ≡ some (b, s1)
      → IsCounted s1
      → (b ≡ false → s1 ≡ s)
      → Processed c s (some (dispatched c before after t (b, s1)))
  unfolding dispatched Processed
  dispatched-Round before op after t true s1 q not_fence others go e ok1 stands = (
    t,
    record s1 { rqst_q = before ++ after },
    refl,
    sends before op after t s1 q not_fence others go e ok1,
  )
  dispatched-Round before op after t false s1 q not_fence others go e ok1 stands =
      (saturate c t, s, ap (λ m. some (saturate c t, m)) (stands refl), waits (saturate c t) refl)

  process_slot-Processed :
      (before : List RevMemOp) (op : RevMemOp) (after : List RevMemOp) (t : Slots)
      → NotAmo op
      → s.rqst_q ≡ before ++ (op ∷ after)
      → All (OtherKind op.op) before
      → Processed c s (process_slot c before op after t s)
  unfolding process_slot Processed dispatched
  process_slot-Processed before op after t known q others =
      let t' : Slots = record t { ops = u32 (t.ops + 1) } in
      elim (fence-cases op.op) [
        | inl (same, fence) ↦
            let fenced : RevBasicMemCtrl = record s {
              rqst_q = before ++ after;
              num_fence = u64 (s.num_fence + 1);
            } in
            (
              saturate c t',
              fenced,
              rw fence refl,
              fences before op after (saturate c t') q same others refl,
            )
        | inr (not_fence, no_fence) ↦ elim (Bool-cases (is_pending_amo s.amo_table op before)) [
          | inl pending ↦
              (saturate c t', s, rw (no_fence, pending) refl, waits (saturate c t') refl)
          | inr free ↦
              let (b, e, ok1, stands) = build-Builds c op (not_fence, known) s ok in
              let (t2, s2, given, round) =
                dispatched-Round before op after t' b.0 b.1 q not_fence others
                  (not_pending-All s.amo_table op before free) e ok1 stands in
              (t2, s2, rw (no_fence, free, e) given, round)
        ]
      ]

  process_slots-Processed :
      (before after : List RevMemOp) (t : Slots)
      → All NotAmo after
      → s.rqst_q ≡ before ++ after
      → All (NoSlot c t) before
      → Processed c s (process_slots c before after t s)
  unfolding process_slots Processed
  process_slots-Processed before [] t known q none_left =
      (saturate c t, s, refl, waits (saturate c t) refl)
  process_slots-Processed before (op ∷ after) t (known, others) q none_left =
      elim (avail-cases c op.op t known) [
        | inl full ↦ rw full (
            process_slots-Processed (before ++ (op ∷ [])) after t others
              (q ∙ sym (append_assoc before (op ∷ []) after))
              (All-append (NoSlot c t) before (op ∷ []) none_left (full, tt)))
        | inr (t1, avail) ↦ rw avail (
            process_slot-Processed before op after t1 known q (
              All-map (NoSlot c t) (OtherKind op.op) (λ e. unavailable-OtherKind c t t1 op e avail)
                before none_left))
      ]

  pub process_next_rqst-Processed :
      (t : Slots) → All NotAmo s.rqst_q → Processed c s (process_next_rqst c t s)
  unfolding process_next_rqst
  process_next_rqst-Processed t known = process_slots-Processed [] s.rqst_q t known refl tt
