-- ===== src/MemCtrl/Resp.antt =====
-- The responses: `handleFlagResp`, `getNumSplitRqsts`, `performAMO`, `handleAMO` and the handlers of the
-- five kinds. `none` stands for a fatal error, for a null pointer that the source follows, and for a
-- shift that C leaves undefined. Objects that are deleted are only dropped.
use rev.Prelude.{
  ℕ, zero, suc, ◌+◌, ◌-◌, ◌%◌, ◌^◌, bit_and, bit_or, bit_xor, Bool, true, false, not, ◌==◌, ◌&&◌,
  ◌||◌, ltb, leb, List, [], ◌∷◌, ◌++◌, length, Option, some, none, ◌>>=◌, if◌then◌else◌,
}
use rev.Word.{u32, u64, minus, sext, zext, lt_signed}
use rev.Mem.Amo.{f_sext32, f_sext64, word_of, byte_of, width}
use rev.MemCtrl.{MemOp, RevMemOp, AmoEntry, RevBasicMemCtrl, mem_op, push_rqst, set_hazard}

-- `n` bytes at a host pointer, low byte first.
unfoldable pub read_host : ℕ → ℕ → (ℕ → ℕ) → ℕ
unfolding word_of
read_host n p host = word_of n (λ k. host (p + k))

unfoldable pub write_host : ℕ → ℕ → (ℕ → ℕ) → (ℕ → ℕ) → ℕ → ℕ
write_host n p bytes host q = if leb p q && ltb q (p + n) then bytes (q - p) else host q

abbrev has : ℕ → ℕ → Bool
has flags flag = not (bit_and flags flag == 0)

-- The extension macros, on a target of 32 or of 64 bits.
unfoldable pub handle_flag_resp : ℕ → ℕ → (ℕ → ℕ) → ℕ → ℕ
unfolding read_host write_host sext zext
handle_flag_resp flags p host =
    let word = read_host 4 p host in
    let double = read_host 8 p host in
    if has flags f_sext32
    then write_host 4 p (byte_of (u32 (sext word 32))) host
    else if has flags f_sext64
    then write_host 8 p (byte_of (sext double 64)) host
    else if has flags (2 ^ 19)
    then write_host 4 p (byte_of (zext word 32)) host
    else if has flags (2 ^ 20)
    then write_host 8 p (byte_of (zext double 63)) host
    else host

abbrev pub get_num_split_rqsts : RevMemOp → List (ℕ × RevMemOp) → ℕ
get_num_split_rqsts op [] = 0
get_num_split_rqsts op ((key, value) ∷ others) =
    (if value.ident == op.ident then 1 else 0) + get_num_split_rqsts op others

-- `requests.erase(std::find(…))`, where the ID is there.
unfoldable pub erase_rqst : ℕ → List ℕ → Option (List ℕ)
erase_rqst id [] = none
erase_rqst id (r ∷ rs) =
    let rest = erase_rqst id rs in
    if r == id then some rs else rest >>= (λ others. some (r ∷ others))

unfoldable pub find_outstanding : ℕ → List (ℕ × RevMemOp) → Option RevMemOp
find_outstanding id [] = none
find_outstanding id ((key, value) ∷ others) =
    let rest = find_outstanding id others in if key == id then some value else rest

unfoldable pub erase_outstanding : ℕ → List (ℕ × RevMemOp) → List (ℕ × RevMemOp)
erase_outstanding id [] = []
erase_outstanding id ((key, value) ∷ others) =
    let rest = erase_outstanding id others in if key == id then rest else (key, value) ∷ rest

-- The start of each handler: the object of the response, and the state without the request.
unfoldable pub answered : ℕ → RevBasicMemCtrl → Option (RevMemOp × RevBasicMemCtrl)
unfolding erase_rqst find_outstanding
answered id s = erase_rqst id s.requests >>= (λ others.
    find_outstanding id s.outstanding >>= (λ op. some (op, record s { requests = others })))

unfoldable pub closed : ℕ → RevBasicMemCtrl → RevBasicMemCtrl
unfolding erase_outstanding
closed id s = record s { outstanding = erase_outstanding id s.outstanding }

abbrev pub minus_one : ℕ → ℕ
minus_one n = u64 (n + (2 ^ 64 - 1))

unfoldable pub handle_flush_resp : ℕ → RevBasicMemCtrl → Option RevBasicMemCtrl
unfolding answered closed
handle_flush_resp id s =
    answered id s
    >>= (λ (op, s'). some (record (closed id s') { num_flush = minus_one s'.num_flush }))

unfoldable pub handle_custom_resp : ℕ → RevBasicMemCtrl → Option RevBasicMemCtrl
unfolding answered closed
handle_custom_resp id s =
    answered id s
    >>= (λ (op, s'). some (record (closed id s') { num_custom = minus_one s'.num_custom }))

unfoldable pub handle_inv_resp : ℕ → RevBasicMemCtrl → Option RevBasicMemCtrl
unfolding answered closed
handle_inv_resp id s = answered id s >>= (λ (op, s'). some (closed id s'))

-- Whether an entry of the table belongs to an object.
abbrev pub is_entry : RevMemOp → AmoEntry → Bool
is_entry op e = (e.addr == op.addr) && (e.mem_op.ident == op.ident)

unfoldable pub erase_entries : RevMemOp → List AmoEntry → List AmoEntry
erase_entries op [] = []
erase_entries op (e ∷ es) =
    let rest = erase_entries op es in if is_entry op e then rest else e ∷ rest

-- The last of the requests of an object, or the only one.
abbrev pub is_last : RevMemOp → RevBasicMemCtrl → Bool
is_last op s = leb op.split_rqst 1 || (get_num_split_rqsts op s.outstanding == 1)

abbrev pub clear_hazard : Option ℕ → RevBasicMemCtrl → RevBasicMemCtrl
clear_hazard none s = s
clear_hazard (some hazard) s = set_hazard hazard false s

unfoldable pub handle_write_resp : ℕ → RevBasicMemCtrl → Option RevBasicMemCtrl
unfolding answered closed erase_entries
handle_write_resp id s = do
  (op, s1) ← answered id s
  let s2 = record s1 { amo_table = erase_entries op s1.amo_table }
  let s3 = if is_last op s2 then clear_hazard op.hazard s2 else s2
  some (record (closed id s3) { num_write = minus_one s3.num_write })

abbrev pub byte_at : List ℕ → ℕ → ℕ
byte_at [] k = 0
byte_at (b ∷ bs) zero = b
byte_at (b ∷ bs) (suc k) = byte_at bs k

-- `TmpBuf`: the bytes are shifted as an `int`, whose sign a wider target takes over.
unfoldable pub operand_of : ℕ → List ℕ → Option ℕ
unfolding word_of sext
operand_of w bytes =
    let word = word_of (length bytes) (byte_at bytes) in
    if ltb 4 (length bytes) then none else if w == 32 then some word else some (sext word 32)

unfoldable pub bytes_from : ℕ → (ℕ → ℕ) → ℕ → List ℕ
bytes_from zero host p = []
bytes_from (suc n) host p = host p ∷ bytes_from n host (p + 1)

-- The value of the target after the operation, by the flags in the order of their tests: without one it
-- stands. `min` and `max` are those of the standard library, and the signed addition is taken to wrap.
unfoldable pub modified : ℕ → ℕ → ℕ → ℕ → ℕ
modified flags w target operand =
    if has flags (2 ^ 21)
    then (target + operand) % 2 ^ w
    else if has flags (2 ^ 22)
    then bit_xor target operand
    else if has flags (2 ^ 23)
    then bit_and target operand
    else if has flags (2 ^ 24)
    then bit_or target operand
    else if has flags (2 ^ 25)
    then (if lt_signed w operand target then operand else target)
    else if has flags (2 ^ 26)
    then (if lt_signed w target operand then operand else target)
    else if has flags (2 ^ 27)
    then (if ltb operand target then operand else target)
    else if has flags (2 ^ 28)
    then (if ltb target operand then operand else target)
    else if has flags (2 ^ 29)
    then operand
    else target

-- The write of the result, pushed after the modification of the target.
unfoldable pub write_back : RevMemOp → ℕ → ℕ → RevBasicMemCtrl → RevBasicMemCtrl
unfolding bytes_from
write_back op target hazard s =
    let bytes = bytes_from op.size s.host target in
    let write : RevMemOp =
      record (mem_op s op.hart op.addr op.p_addr op.size MemOp.write bytes none 0 op.flags) {
        hazard = some hazard;
      } in
    let entry : AmoEntry = record {
      addr = op.addr;
      hart = op.hart;
      buffer = none;
      target = none;
      flags = op.flags;
      mem_op = write;
      is_write = true;
    } in
    let set = set_hazard hazard true s in
    push_rqst write (record set { amo_table = s.amo_table ++ (entry ∷ []) })

unfoldable pub perform_amo : AmoEntry → RevBasicMemCtrl → Option RevBasicMemCtrl
unfolding write_back modified operand_of read_host write_host
perform_amo e s = do
  let op = e.mem_op
  let n = if op.size == 4 then 4 else 8
  target ← op.target
  operand ← operand_of (width op.size) op.membuf
  hazard ← op.hazard
  let value = modified op.flags (width op.size) (read_host n target s.host) operand
  some
      (write_back op target hazard (record s { host = write_host n target (byte_of value) s.host }))

-- The entry of an object, and the others.
unfoldable pub take_entry : RevMemOp → List AmoEntry → Option (AmoEntry × List AmoEntry)
take_entry op [] = none
take_entry op (e ∷ es) =
    let rest = take_entry op es in
    if is_entry op e then some (e, es) else rest >>= (λ (found, others). some (found, e ∷ others))

-- The entry is erased, and that of the write stands behind the others. Without an entry for the object
-- nothing is done.
unfoldable pub handle_amo : RevMemOp → RevBasicMemCtrl → Option RevBasicMemCtrl
unfolding take_entry perform_amo
handle_amo op s = elim (take_entry op s.amo_table) [
  | none ↦ some s
  | some (e, others) ↦ perform_amo e (record s { amo_table = others })
]

-- The end of a read: the extension, the modification, and the hazard, whose pointer the branch of split
-- requests follows unasked.
unfoldable pub finish_read : RevMemOp → ℕ → RevBasicMemCtrl → Option RevBasicMemCtrl
unfolding handle_flag_resp handle_amo
finish_read op target s = do
  s' ← handle_amo op (record s { host = handle_flag_resp op.flags target s.host })
  elim op.hazard [
    | some hazard ↦ some (set_hazard hazard false s')
    | none ↦ if ltb 1 op.split_rqst then none else some s'
  ]

-- A response carries a physical address, a size and bytes. The offset of a split one is cut to a byte.
unfoldable pub handle_read_resp : ℕ → ℕ → ℕ → (ℕ → ℕ) → RevBasicMemCtrl → Option RevBasicMemCtrl
unfolding answered closed write_host finish_read
handle_read_resp id p_addr size bytes s = do
  (op, s1) ← answered id s
  target ← op.target
  let start = minus 64 p_addr op.addr % 2 ^ 8
  let at = if ltb 1 op.split_rqst then target + start else target
  let n = if ltb 1 op.split_rqst then size else op.size
  let s2 = record s1 { host = write_host n at bytes s1.host }
  s3 ← (if is_last op s2 then finish_read op target s2 else some s2)
  some (record (closed id s3) { num_read = minus_one s3.num_read })
