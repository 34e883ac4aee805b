-- ===== src/MemCtrl/Order.antt =====
-- The order of the queue: what a round of the dispatch may do, and what lets an object go.
use rev.Prelude.{
  ◌+◌, ◌≡◌, ◌≢◌, ◌⊎◌, inl, inr, refl, sym, ◌∙◌, arith, Bool, true, false, ◌||◌, ltb, List, [], ◌∷◌,
  ◌++◌, All, All-map, All-const, All-both, Option, some, if◌then◌else◌, Bool-cases,
}
use rev.Word.{u64}
use rev.MemCtrl.{MemOp, RevMemOp, AmoEntry, Limits, RevBasicMemCtrl}
use rev.MemCtrl.Rqst.{build_standard_mem_rqst}
use rev.MemCtrl.Counted.{IsCounted}
use rev.MemCtrl.Arbiter.{
  Slots, is_mem_op_avail, acquires, releases, acquired_before, same_hart_before, is_aq, is_rl,
  is_pending_amo,
}

-- No object of the queue has the kind that the dispatch knows nothing of.
abbrev pub NotAmo : RevMemOp → Type 0
NotAmo op = op.op ≢ MemOp.amo

-- The objects of its hart that are older let an object go: none acquires, and it releases none.
abbrev pub LetsGo : RevMemOp → RevMemOp → Type 0
LetsGo op e = e.hart ≡ op.hart → (acquires e ≡ false) × (releases op ≡ false)

abbrev pub OtherKind : MemOp → RevMemOp → Type 0
OtherKind k e = (e.op ≢ k) × (e.op ≢ MemOp.fence)

-- What a round does. Of one kind the objects leave the queue in its order.
pub data Round (c : Limits) (s : RevBasicMemCtrl) : Slots → RevBasicMemCtrl → Type 0 where
  waits : (t' : Slots) → t'.ops ≡ c.max_ops → Round c s t' s
  fences :
      (before : List RevMemOp) (op : RevMemOp) (after : List RevMemOp) (t' : Slots)
      → s.rqst_q ≡ before ++ (op ∷ after)
      → op.op ≡ MemOp.fence
      → All (OtherKind op.op) before
      → t'.ops ≡ c.max_ops
      → Round c s t' (record s { rqst_q = before ++ after; num_fence = u64 (s.num_fence + 1) })
  sends :
      (before : List RevMemOp) (op : RevMemOp) (after : List RevMemOp) (t' : Slots)
      (s1 : RevBasicMemCtrl)
      → s.rqst_q ≡ before ++ (op ∷ after)
      → op.op ≢ MemOp.fence
      → All (OtherKind op.op) before
      → (s.amo_table ≢ [] → All (LetsGo op) before)
      → build_standard_mem_rqst c op s ≡ some (true, s1)
      → IsCounted s1
      → Round c s t' (record s1 { rqst_q = before ++ after })

-- An object for which the cycle has no slot.
abbrev pub NoSlot : Limits → Slots → RevMemOp → Type 0
NoSlot c t e = is_mem_op_avail c e.op t ≡ some (false, t)

abbrev limited : Bool → Slots → Slots → Option (Bool × Slots)
limited b t t1 = if b then some (true, t1) else some (false, t)

limited-cases :
    (b : Bool) (t t1 : Slots)
    → (limited b t t1 ≡ some (false, t)) ⊎ ((t2 : Slots) × (limited b t t1 ≡ some (true, t2)))
limited-cases true t t1 = inr (t1, refl)
limited-cases false t t1 = inl refl

-- A kind has a slot or the counters stand.
pub avail-cases :
    (c : Limits) (k : MemOp) (t : Slots)
    → k ≢ MemOp.amo
    → (is_mem_op_avail c k t ≡ some (false, t))
      ⊎ ((t1 : Slots) × (is_mem_op_avail c k t ≡ some (true, t1)))
unfolding is_mem_op_avail
avail-cases c MemOp.read t h =
    limited-cases (ltb t.loads c.max_loads) t (record t { loads = t.loads + 1 })
avail-cases c MemOp.write t h =
    limited-cases (ltb t.stores c.max_stores) t (record t { stores = t.stores + 1 })
avail-cases c MemOp.flush t h =
    limited-cases (ltb t.flush c.max_flush) t (record t { flush = t.flush + 1 })
avail-cases c MemOp.readlock t h =
    limited-cases (ltb t.readlock c.max_readlock) t (record t { readlock = t.readlock + 1 })
avail-cases c MemOp.writeunlock t h =
    limited-cases (ltb t.writeunlock c.max_writeunlock) t
      (record t { writeunlock = t.writeunlock + 1 })
avail-cases c MemOp.loadlink t h =
    limited-cases (ltb t.llsc c.max_llsc) t (record t { llsc = t.llsc + 1 })
avail-cases c MemOp.storecond t h =
    limited-cases (ltb t.llsc c.max_llsc) t (record t { llsc = t.llsc + 1 })
avail-cases c MemOp.custom t h =
    limited-cases (ltb t.custom c.max_custom) t (record t { custom = t.custom + 1 })
avail-cases c MemOp.fence t h = inr (t, refl)
avail-cases c MemOp.amo t h = absurd (h refl)

not_both : (o : Option (Bool × Slots)) (t t1 : Slots) → o ≡ some (true, t1) → o ≢ some (false, t)
not_both o t t1 e e' = ground (arith, sym e ∙ e')

fence-avail : (c : Limits) (t : Slots) → is_mem_op_avail c MemOp.fence t ≡ some (true, t)
unfolding is_mem_op_avail
fence-avail c t = refl

pub unavailable-OtherKind :
    (c : Limits) (t t1 : Slots) (op e : RevMemOp)
    → is_mem_op_avail c op.op t ≡ some (true, t1)
    → NoSlot c t e
    → OtherKind op.op e
unavailable-OtherKind c t t1 op e avail none_left = (
  λ same. not_both (is_mem_op_avail c e.op t) t t1 (rw same avail) none_left,
  λ same. not_both (is_mem_op_avail c e.op t) t t (rw same (fence-avail c t)) none_left,
)

not_acquired-All :
    (op : RevMemOp) (es : List RevMemOp)
    → acquired_before op es ≡ false
    → All (λ e. e.hart ≡ op.hart → acquires e ≡ false) es
unfolding acquired_before
not_acquired-All op [] h = tt
not_acquired-All op (e ∷ es) h =
    (λ same. ground (arith, h, same), not_acquired-All op es (ground (arith, h)))

not_same_hart-All :
    (op : RevMemOp) (es : List RevMemOp)
    → same_hart_before op es ≡ false
    → All (λ e. e.hart ≢ op.hart) es
unfolding same_hart_before
not_same_hart-All op [] h = tt
not_same_hart-All op (e ∷ es) h =
    (λ same. ground (arith, h, same), not_same_hart-All op es (ground (arith, h)))

or-false : (a b : Bool) → (a || b) ≡ false → (a ≡ false) × (b ≡ false)
or-false true b h = absurd (ground (arith, h))
or-false false b h = (refl, h)

released-All :
    (op : RevMemOp) (es : List RevMemOp)
    → (if releases op then same_hart_before op es else false) ≡ false
    → All (λ e. e.hart ≡ op.hart → releases op ≡ false) es
released-All op es h = elim (Bool-cases (releases op)) [
  | inl rel ↦
      All-map (λ e. e.hart ≢ op.hart) (λ e. e.hart ≡ op.hart → releases op ≡ false)
        (λ e other same. absurd (other same)) es (not_same_hart-All op es (rw rel at h))
  | inr keeps ↦ All-const (λ e. e.hart ≡ op.hart → releases op ≡ false) (λ e same. keeps) es
]

pub not_pending-All :
    (table : List AmoEntry) (op : RevMemOp) (es : List RevMemOp)
    → is_pending_amo table op es ≡ false
    → table ≢ []
    → All (LetsGo op) es
unfolding is_pending_amo is_aq is_rl
not_pending-All [] op es h some_amo = absurd (some_amo refl)
not_pending-All (a ∷ table) op es h some_amo =
    let (acq, rel) =
      or-false (acquired_before op es) (if releases op then same_hart_before op es else false) h in
    All-both (λ e. e.hart ≡ op.hart → acquires e ≡ false)
      (λ e. e.hart ≡ op.hart → releases op ≡ false) (LetsGo op) (λ e p q same. (p same, q same)) es
      (not_acquired-All op es acq) (released-All op es rel)
