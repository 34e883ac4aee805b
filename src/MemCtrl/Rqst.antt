-- ===== src/MemCtrl/Rqst.antt =====
-- `buildRawMemRqst`, `buildCacheMemRqst` and `buildStandardMemRqst`: the packets that a queued object
-- makes. `none` stands for a fatal error.
use rev.Prelude.{
  ℕ, zero, suc, ◌+◌, ◌-◌, Bool, true, false, ◌==◌, ◌&&◌, ltb, List, [], ◌∷◌, ◌++◌, Option, some,
  none, ◌>>=◌, if◌then◌else◌,
}
use rev.Word.{u32, u64, minus}
use rev.MemCtrl.{
  MemOp, RevMemOp, std_flags, non_cache_flags, is_cacheable, Packet, Limits, RevBasicMemCtrl,
}
use rev.MemCtrl.Cache.{get_base_cache_line_size, get_num_cache_lines}

-- The counter of a kind, one up. A fence, or a kind of no request, is not counted.
unfoldable pub count_rqst : MemOp → RevBasicMemCtrl → Option RevBasicMemCtrl
count_rqst MemOp.read s = some (record s { num_read = u64 (s.num_read + 1) })
count_rqst MemOp.write s = some (record s { num_write = u64 (s.num_write + 1) })
count_rqst MemOp.flush s = some (record s { num_flush = u64 (s.num_flush + 1) })
count_rqst MemOp.readlock s = some (record s { num_readlock = u64 (s.num_readlock + 1) })
count_rqst MemOp.writeunlock s = some (record s { num_writeunlock = u64 (s.num_writeunlock + 1) })
count_rqst MemOp.loadlink s = some (record s { num_llsc = u64 (s.num_llsc + 1) })
count_rqst MemOp.storecond s = some (record s { num_llsc = u64 (s.num_llsc + 1) })
count_rqst MemOp.custom s = some (record s { num_custom = u64 (s.num_custom + 1) })
count_rqst _ s = none

-- `outstanding[id] = op`.
unfoldable pub put_outstanding : ℕ → RevMemOp → List (ℕ × RevMemOp) → List (ℕ × RevMemOp)
put_outstanding id op [] = (id, op) ∷ []
put_outstanding id op ((key, value) ∷ others) =
    let rest = put_outstanding id op others in
    if key == id then (id, op) ∷ others else (key, value) ∷ rest

-- `requests.push_back`, `outstanding[id] = op`, `send` and the counter.
unfoldable pub send_packet : RevMemOp → Packet → RevBasicMemCtrl → Option RevBasicMemCtrl
unfolding count_rqst put_outstanding
send_packet op p s = count_rqst op.op (record s {
  requests = s.requests ++ (s.next_id ∷ []);
  outstanding = put_outstanding s.next_id op s.outstanding;
  sent = s.sent ++ (p ∷ []);
  next_id = s.next_id + 1;
})

abbrev pub carries_data : MemOp → Bool
carries_data MemOp.write = true
carries_data MemOp.writeunlock = true
carries_data MemOp.storecond = true
carries_data _ = false

-- A custom request has neither address nor bytes.
unfoldable pub packet : RevMemOp → ℕ → ℕ → List ℕ → ℕ → Packet
packet op addr size data_bytes flags =
    let custom : Packet = record {
      inv = false;
      op = op.op;
      addr = 0;
      size = 0;
      membuf = [];
      flags = flags;
    } in
    elim op.op [
      | MemOp.custom ↦ custom
      | _ ↦ record {
        inv = op.inv;
        op = op.op;
        addr = addr;
        size = size;
        membuf = if carries_data op.op then data_bytes else [];
        flags = flags;
      }
    ]

unfoldable pub build_raw_mem_rqst : RevMemOp → ℕ → RevBasicMemCtrl → Option RevBasicMemCtrl
unfolding send_packet packet
build_raw_mem_rqst op flags s = send_packet op (packet op op.addr op.size op.membuf flags) s

-- `n` bytes of a buffer from an index on: reading past its end is undefined, here it is cut.
unfoldable pub slice : ℕ → ℕ → List ℕ → List ℕ
slice n zero [] = []
slice zero zero (b ∷ bs) = []
slice (suc n) zero (b ∷ bs) = b ∷ slice n zero bs
slice n (suc i) [] = []
slice n (suc i) (b ∷ bs) = slice n i bs

-- The slots that are left for the kind of an object, `max - num` on 64 bits.
unfoldable pub slots_left : Limits → MemOp → RevBasicMemCtrl → Option ℕ
slots_left c MemOp.read s = some (minus 64 c.max_loads s.num_read)
slots_left c MemOp.write s = some (minus 64 c.max_stores s.num_write)
slots_left c MemOp.flush s = some (minus 64 c.max_flush s.num_flush)
slots_left c MemOp.readlock s = some (minus 64 c.max_readlock s.num_readlock)
slots_left c MemOp.writeunlock s = some (minus 64 c.max_writeunlock s.num_writeunlock)
slots_left c MemOp.loadlink s = some (minus 64 c.max_llsc s.num_llsc)
slots_left c MemOp.storecond s = some (minus 64 c.max_llsc s.num_llsc)
slots_left c MemOp.custom s = some (minus 64 c.max_custom s.num_custom)
slots_left c _ s = none

-- The requests of the lines behind the first: `n` of them.
unfoldable pub send_lines :
    Limits → RevMemOp → ℕ → ℕ → ℕ → ℕ → RevBasicMemCtrl → Option RevBasicMemCtrl
unfolding send_packet packet slice
send_lines c op zero base left cur s = some s
send_lines c op (suc n) base left cur s = do
  let size = if ltb left c.line_size then left else c.line_size
  s' ← send_packet op (packet op base size (slice size cur op.membuf) (std_flags op)) s
  send_lines c op n (u64 (base + size)) (minus 64 left size) (u32 (cur + size)) s'

-- With the slots at hand: whether there were enough, and the state.
unfoldable pub build_lines :
    Limits → RevMemOp → ℕ → RevBasicMemCtrl → Option (Bool × RevBasicMemCtrl)
unfolding send_lines get_base_cache_line_size get_num_cache_lines
build_lines c op slots s =
    let lines = get_num_cache_lines c op.addr op.size in
    let op' : RevMemOp = record op { split_rqst = lines } in
    let first =
      if ltb 1 lines then get_base_cache_line_size c.line_size op.addr op.size else op.size in
    let sent =
      send_packet op' (packet op' op.addr first (slice first 0 op.membuf) (std_flags op)) s
      >>= send_lines c op' (lines - 1) (u64 (op.addr + first)) (minus 64 op.size first) first
      >>= (λ s'. some (true, s')) in
    if ltb slots lines then some (false, s) else sent

unfoldable pub build_cache_mem_rqst :
    Limits → RevMemOp → RevBasicMemCtrl → Option (Bool × RevBasicMemCtrl)
unfolding build_lines slots_left
build_cache_mem_rqst c op s = slots_left c op.op s >>= λ slots. build_lines c op slots s

unfoldable pub build_standard_mem_rqst :
    Limits → RevMemOp → RevBasicMemCtrl → Option (Bool × RevBasicMemCtrl)
unfolding build_cache_mem_rqst build_raw_mem_rqst
build_standard_mem_rqst c op s =
    if c.has_cache && is_cacheable op
    then build_cache_mem_rqst c op s
    else if c.has_cache
    then (build_raw_mem_rqst op (std_flags op) s >>= λ s'. some (true, s'))
    else (build_raw_mem_rqst op (non_cache_flags op) s >>= λ s'. some (true, s'))
