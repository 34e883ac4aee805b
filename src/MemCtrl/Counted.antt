-- ===== src/MemCtrl/Counted.antt =====
-- Requests counted: every packet that is sent moves one counter up and enters `requests`.
use rev.Prelude.{
  ℕ, zero, suc, ◌+◌, ◌-◌, ◌%◌, ◌^◌, ◌≡◌, ◌≢◌, ◌∙◌, refl, ap, arith, Bool, true, false, ◌&&◌, ltb,
  [], ◌∷◌, ◌++◌, length, length-append, Option, some, ◌>>=◌, if◌then◌else◌,
}
use rev.Word.{u32, u64, minus}
use rev.MemCtrl.{
  MemOp, RevMemOp, std_flags, non_cache_flags, is_cacheable, Packet, Limits, RevBasicMemCtrl,
}
use rev.MemCtrl.Cache.{get_base_cache_line_size, get_num_cache_lines}
use rev.MemCtrl.Rqst.{
  count_rqst, put_outstanding, send_packet, packet, build_raw_mem_rqst, slice, slots_left,
  send_lines, build_lines, build_cache_mem_rqst, build_standard_mem_rqst,
}

-- The requests that are counted.
abbrev pub counted : RevBasicMemCtrl → ℕ
counted s =
    s.num_read + s.num_write + s.num_flush + s.num_llsc + s.num_readlock + s.num_writeunlock
    + s.num_custom

-- Modulo 2^64, the counters add up to the requests in `requests`.
unfoldable pub IsCounted : RevBasicMemCtrl → Type 0
IsCounted s = counted s % 2 ^ 64 ≡ length s.requests % 2 ^ 64

-- A kind that makes a request.
abbrev pub IsRequest : MemOp → Type 0
IsRequest k = (k ≢ MemOp.fence) × (k ≢ MemOp.amo)

-- A step that returns a counted state.
abbrev pub Returns : Option RevBasicMemCtrl → Type 0
Returns o = (s : RevBasicMemCtrl) × (o ≡ some s) × IsCounted s

-- Without enough slots, the state stands.
abbrev pub Builds : RevBasicMemCtrl → Option (Bool × RevBasicMemCtrl) → Type 0
Builds s o = (b : Bool × RevBasicMemCtrl) × (o ≡ some b) × IsCounted b.1 × (b.0 ≡ false → b.1 ≡ s)

count_rqst_lem :
    (k : MemOp) (s : RevBasicMemCtrl)
    → IsRequest k
    → (s' : RevBasicMemCtrl) × (count_rqst k s ≡ some s')
      × (s'.requests ≡ s.requests)
      × (counted s' % 2 ^ 64 ≡ (counted s + 1) % 2 ^ 64)
unfolding count_rqst
count_rqst_lem MemOp.read s h =
    (record s { num_read = u64 (s.num_read + 1) }, refl, refl, omega arith)
count_rqst_lem MemOp.write s h =
    (record s { num_write = u64 (s.num_write + 1) }, refl, refl, omega arith)
count_rqst_lem MemOp.flush s h =
    (record s { num_flush = u64 (s.num_flush + 1) }, refl, refl, omega arith)
count_rqst_lem MemOp.readlock s h =
    (record s { num_readlock = u64 (s.num_readlock + 1) }, refl, refl, omega arith)
count_rqst_lem MemOp.writeunlock s h =
    (record s { num_writeunlock = u64 (s.num_writeunlock + 1) }, refl, refl, omega arith)
count_rqst_lem MemOp.loadlink s h =
    (record s { num_llsc = u64 (s.num_llsc + 1) }, refl, refl, omega arith)
count_rqst_lem MemOp.storecond s h =
    (record s { num_llsc = u64 (s.num_llsc + 1) }, refl, refl, omega arith)
count_rqst_lem MemOp.custom s h =
    (record s { num_custom = u64 (s.num_custom + 1) }, refl, refl, omega arith)
count_rqst_lem MemOp.fence s h = absurd (h.0 refl)
count_rqst_lem MemOp.amo s h = absurd (h.1 refl)

pub send_packet-Returns :
    (op : RevMemOp) (p : Packet) (s : RevBasicMemCtrl)
    → IsRequest op.op
    → IsCounted s
    → Returns (send_packet op p s)
unfolding send_packet IsCounted
send_packet-Returns op p s h ok =
    let s1 : RevBasicMemCtrl = record s {
      requests = s.requests ++ (s.next_id ∷ []);
      outstanding = put_outstanding s.next_id op s.outstanding;
      sent = s.sent ++ (p ∷ []);
      next_id = s.next_id + 1;
    } in
    let (s2, e, same, more) = count_rqst_lem op.op s1 h in
    let longer : length s2.requests ≡ length s.requests + 1 =
      ap length same ∙ length-append s.requests (s.next_id ∷ []) in
    (s2, e, omega (arith, more, longer, ok))

-- Two steps one after the other.
bind-Returns :
    (o : Option RevBasicMemCtrl) (f : RevBasicMemCtrl → Option RevBasicMemCtrl)
    → Returns o
    → ((s : RevBasicMemCtrl) → IsCounted s → Returns (f s))
    → Returns (o >>= f)
bind-Returns o f (s, e, ok) next = rw e (next s ok)

send_lines-Returns :
    (c : Limits) (op : RevMemOp) (n base left cur : ℕ) (s : RevBasicMemCtrl)
    → IsRequest op.op
    → IsCounted s
    → Returns (send_lines c op n base left cur s)
unfolding send_lines
send_lines-Returns c op zero base left cur s h ok = (s, refl, ok)
send_lines-Returns c op (suc n) base left cur s h ok =
    let size = if ltb left c.line_size then left else c.line_size in
    bind-Returns (send_packet op (packet op base size (slice size cur op.membuf) (std_flags op)) s)
      (send_lines c op n (u64 (base + size)) (minus 64 left size) (u32 (cur + size)))
      (send_packet-Returns op (packet op base size (slice size cur op.membuf) (std_flags op)) s h
        ok)
      (λ s' ok'.
        send_lines-Returns c op n (u64 (base + size)) (minus 64 left size) (u32 (cur + size)) s' h
          ok')

abbrev sent_whole : RevBasicMemCtrl → Option (Bool × RevBasicMemCtrl)
sent_whole s = some (true, s)

true-not-false : true ≢ false
true-not-false e = ground (arith, e)

whole-Builds :
    (s : RevBasicMemCtrl) (o : Option RevBasicMemCtrl) → Returns o → Builds s (o >>= sent_whole)
whole-Builds s o (s', e, ok) = rw e ((true, s'), refl, ok, λ no. absurd (true-not-false no))

if-Builds :
    (s : RevBasicMemCtrl) (b : Bool) (x y : Option (Bool × RevBasicMemCtrl))
    → Builds s x
    → Builds s y
    → Builds s (if b then x else y)
if-Builds s true x y hx hy = hx
if-Builds s false x y hx hy = hy

slots_left_lem :
    (c : Limits) (k : MemOp) (s : RevBasicMemCtrl)
    → IsRequest k
    → (n : ℕ) × (slots_left c k s ≡ some n)
unfolding slots_left
slots_left_lem c MemOp.read s h = (minus 64 c.max_loads s.num_read, refl)
slots_left_lem c MemOp.write s h = (minus 64 c.max_stores s.num_write, refl)
slots_left_lem c MemOp.flush s h = (minus 64 c.max_flush s.num_flush, refl)
slots_left_lem c MemOp.readlock s h = (minus 64 c.max_readlock s.num_readlock, refl)
slots_left_lem c MemOp.writeunlock s h = (minus 64 c.max_writeunlock s.num_writeunlock, refl)
slots_left_lem c MemOp.loadlink s h = (minus 64 c.max_llsc s.num_llsc, refl)
slots_left_lem c MemOp.storecond s h = (minus 64 c.max_llsc s.num_llsc, refl)
slots_left_lem c MemOp.custom s h = (minus 64 c.max_custom s.num_custom, refl)
slots_left_lem c MemOp.fence s h = absurd (h.0 refl)
slots_left_lem c MemOp.amo s h = absurd (h.1 refl)

module _ (c : Limits) (op : RevMemOp) (h : IsRequest op.op) where
  build_lines-Builds :
      (slots : ℕ) (s : RevBasicMemCtrl) → IsCounted s → Builds s (build_lines c op slots s)
  unfolding build_lines
  build_lines-Builds slots s ok =
      let lines = get_num_cache_lines c op.addr op.size in
      let op' : RevMemOp = record op { split_rqst = lines } in
      let first =
        if ltb 1 lines then get_base_cache_line_size c.line_size op.addr op.size else op.size in
      let one = packet op' op.addr first (slice first 0 op.membuf) (std_flags op) in
      let others =
        send_lines c op' (lines - 1) (u64 (op.addr + first)) (minus 64 op.size first) first in
      if-Builds s (ltb slots lines) (some (false, s))
        (send_packet op' one s >>= others >>= sent_whole) ((false, s), refl, ok, λ _. refl)
        (whole-Builds s (send_packet op' one s >>= others) (
          bind-Returns (send_packet op' one s) others (send_packet-Returns op' one s h ok)
            (λ s' ok'.
              send_lines-Returns c op' (lines - 1) (u64 (op.addr + first)) (minus 64 op.size first)
                first s' h ok')))

  -- The request of a kind that makes one is always built, and is counted.
  pub build-Builds : (s : RevBasicMemCtrl) → IsCounted s → Builds s (build_standard_mem_rqst c op s)
  unfolding build_standard_mem_rqst build_cache_mem_rqst build_raw_mem_rqst
  build-Builds s ok =
      let raw : (flags : ℕ) → Builds s (build_raw_mem_rqst op flags s >>= sent_whole) = λ flags.
        whole-Builds s (send_packet op (packet op op.addr op.size op.membuf flags) s)
          (send_packet-Returns op (packet op op.addr op.size op.membuf flags) s h ok) in
      let (slots, e) = slots_left_lem c op.op s h in
      let cached : Builds s (build_cache_mem_rqst c op s) = rw e (build_lines-Builds slots s ok) in
      if-Builds s (c.has_cache && is_cacheable op) (build_cache_mem_rqst c op s)
        (if c.has_cache
          then build_raw_mem_rqst op (std_flags op) s >>= sent_whole
          else build_raw_mem_rqst op (non_cache_flags op) s >>= sent_whole)
        cached
        (if-Builds s c.has_cache (build_raw_mem_rqst op (std_flags op) s >>= sent_whole)
          (build_raw_mem_rqst op (non_cache_flags op) s >>= sent_whole) (raw (std_flags op))
          (raw (non_cache_flags op)))
