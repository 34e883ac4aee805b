-- ===== src/MemCtrl.antt =====
-- `RevBasicMemCtrl` of src/RevMemCtrl.cc: its state, and the requests that it queues. Statistics are
-- left out. A request object is told apart by `ident`; pointers are numbers, a null one is `none`.
pub mod Cache
pub mod Rqst
pub mod Arbiter
pub mod Counted
pub mod Order
pub mod Rounds
pub mod Resp
pub mod Modify
pub mod Answers
pub mod Reads
pub mod Reach
pub mod Laws
mod Tests
use rev.Prelude.{
  ℕ, zero, suc, ◌+◌, ◌*◌, ◌/◌, ◌%◌, ◌^◌, bit_and, Bool, true, false, not, ◌==◌, List, [], ◌∷◌, ◌++◌,
  Option, some, none, if◌then◌else◌,
}

-- `RevMemOp::MemOp`.
pub data MemOp : Type 0 where
  read write flush readlock writeunlock loadlink storecond custom fence amo : MemOp

pub record RevMemOp : Type 0 where
  pub ident : ℕ
  pub hart : ℕ
  pub addr : ℕ
  pub p_addr : ℕ
  pub size : ℕ
  pub inv : Bool
  pub op : MemOp
  pub custom_opc : ℕ
  pub split_rqst : ℕ
  pub membuf : List ℕ
  pub flags : ℕ
  pub target : Option ℕ
  pub hazard : Option ℕ

-- `getStdFlags`, `getNonCacheFlags` and `isCacheable`.
abbrev pub std_flags : RevMemOp → ℕ
std_flags op = bit_and op.flags 0b1111111111111111

abbrev pub non_cache_flags : RevMemOp → ℕ
non_cache_flags op = bit_and op.flags 0b1111111111111101

abbrev pub is_cacheable : RevMemOp → Bool
is_cacheable op = bit_and op.flags 0b10 == 0

-- An entry of `AMOTable`, with its key.
pub record AmoEntry : Type 0 where
  pub addr : ℕ
  pub hart : ℕ
  pub buffer : Option ℕ
  pub target : Option ℕ
  pub flags : ℕ
  pub mem_op : RevMemOp
  pub is_write : Bool

-- A request of the memory interface, with its kind, bytes, flags and the mark of an invalidation.
pub record Packet : Type 0 where
  pub inv : Bool
  pub op : MemOp
  pub addr : ℕ
  pub size : ℕ
  pub membuf : List ℕ
  pub flags : ℕ

pub record Limits : Type 0 where
  pub max_loads : ℕ
  pub max_stores : ℕ
  pub max_flush : ℕ
  pub max_llsc : ℕ
  pub max_readlock : ℕ
  pub max_writeunlock : ℕ
  pub max_custom : ℕ
  pub max_ops : ℕ
  pub has_cache : Bool
  pub line_size : ℕ

-- `next_id` is the ID that the interface gives the next request, `sent` what it has been sent, and
-- `next_ident` the next object. `hazards` holds the flags that the hazard pointers lead to,
-- `host` the bytes that the target pointers lead to.
pub record RevBasicMemCtrl : Type 0 where
  pub rqst_q : List RevMemOp
  pub amo_table : List AmoEntry
  pub requests : List ℕ
  pub outstanding : List (ℕ × RevMemOp)
  pub sent : List Packet
  pub next_id : ℕ
  pub next_ident : ℕ
  pub hazards : ℕ → Bool
  pub host : ℕ → ℕ
  pub num_read : ℕ
  pub num_write : ℕ
  pub num_flush : ℕ
  pub num_llsc : ℕ
  pub num_readlock : ℕ
  pub num_writeunlock : ℕ
  pub num_custom : ℕ
  pub num_fence : ℕ

-- The constructors of `RevMemOp`: what none of them sets is cleared.
abbrev pub mem_op : RevBasicMemCtrl → ℕ → ℕ → ℕ → ℕ → MemOp → List ℕ → Option ℕ → ℕ → ℕ → RevMemOp
mem_op s hart addr p_addr size op membuf target opc flags = record {
  ident = s.next_ident;
  hart = hart;
  addr = addr;
  p_addr = p_addr;
  size = size;
  inv = false;
  op = op;
  custom_opc = opc;
  split_rqst = 1;
  membuf = membuf;
  flags = flags;
  target = target;
  hazard = none;
}

-- `rqstQ.push_back(Op)`.
abbrev pub push_rqst : RevMemOp → RevBasicMemCtrl → RevBasicMemCtrl
push_rqst op s = record s { rqst_q = s.rqst_q ++ (op ∷ []); next_ident = s.next_ident + 1 }

-- `*Hazard = true`.
abbrev pub set_hazard : ℕ → Bool → RevBasicMemCtrl → RevBasicMemCtrl
set_hazard hazard value s = record s { hazards = λ p. if p == hazard then value else s.hazards p }

module _ (hart addr p_addr size : ℕ) where
  unfoldable pub send_flush_request : Bool → ℕ → RevBasicMemCtrl → RevBasicMemCtrl
  send_flush_request inv flags s =
      if size == 0
      then s
      else push_rqst
          (record (mem_op s hart addr p_addr size MemOp.flush [] none 0 flags) { inv = inv }) s

  unfoldable pub send_read_request : ℕ → ℕ → ℕ → RevBasicMemCtrl → RevBasicMemCtrl
  send_read_request target hazard flags s =
      let op : RevMemOp = mem_op s hart addr p_addr size MemOp.read [] (some target) 0 flags in
      if size == 0
      then s
      else push_rqst (record op { hazard = some hazard }) (set_hazard hazard true s)

  unfoldable pub send_write_request : List ℕ → ℕ → RevBasicMemCtrl → RevBasicMemCtrl
  send_write_request buffer flags s =
      if size == 0
      then s
      else push_rqst (mem_op s hart addr p_addr size MemOp.write buffer none 0 flags) s

  -- The first object of an atomic operation, a read, is in the table and in the queue.
  unfoldable pub send_amo_request : List ℕ → ℕ → ℕ → ℕ → ℕ → RevBasicMemCtrl → RevBasicMemCtrl
  send_amo_request bytes buffer target hazard flags s =
      let op : RevMemOp =
        record (mem_op s hart addr p_addr size MemOp.read bytes (some target) 0 flags) {
          hazard = some hazard;
        } in
      let entry : AmoEntry = record {
        addr = addr;
        hart = hart;
        buffer = some buffer;
        target = some target;
        flags = flags;
        mem_op = op;
        is_write = false;
      } in
      let set = set_hazard hazard true s in
      if size == 0
      then s
      else if bit_and flags 0x3FE00000 == 0
      then s
      else push_rqst op (record set { amo_table = s.amo_table ++ (entry ∷ []) })

  unfoldable pub send_readlock_request : ℕ → ℕ → ℕ → RevBasicMemCtrl → RevBasicMemCtrl
  send_readlock_request target hazard flags s =
      let op : RevMemOp = mem_op s hart addr p_addr size MemOp.readlock [] (some target) 0 flags in
      if size == 0
      then s
      else push_rqst (record op { hazard = some hazard }) (set_hazard hazard true s)

  unfoldable pub send_writelock_request : List ℕ → ℕ → RevBasicMemCtrl → RevBasicMemCtrl
  send_writelock_request buffer flags s =
      if size == 0
      then s
      else push_rqst (mem_op s hart addr p_addr size MemOp.writeunlock buffer none 0 flags) s

  unfoldable pub send_loadlink_request : ℕ → RevBasicMemCtrl → RevBasicMemCtrl
  send_loadlink_request flags s =
      if size == 0
      then s
      else push_rqst (mem_op s hart addr p_addr size MemOp.loadlink [] none 0 flags) s

  unfoldable pub send_storecond_request : List ℕ → ℕ → RevBasicMemCtrl → RevBasicMemCtrl
  send_storecond_request buffer flags s =
      if size == 0
      then s
      else push_rqst (mem_op s hart addr p_addr size MemOp.storecond buffer none 0 flags) s

  unfoldable pub send_customread_request : ℕ → ℕ → ℕ → RevBasicMemCtrl → RevBasicMemCtrl
  send_customread_request target opc flags s =
      if size == 0
      then s
      else push_rqst (mem_op s hart addr p_addr size MemOp.custom [] (some target) opc flags) s

  unfoldable pub send_customwrite_request : List ℕ → ℕ → ℕ → RevBasicMemCtrl → RevBasicMemCtrl
  send_customwrite_request buffer opc flags s =
      if size == 0
      then s
      else push_rqst (mem_op s hart addr p_addr size MemOp.custom buffer none opc flags) s

unfoldable pub send_fence : ℕ → RevBasicMemCtrl → RevBasicMemCtrl
send_fence hart s = push_rqst (mem_op s hart 0 0 0 MemOp.fence [] none 0 0) s
