-- ===== src/MemCtrl/Modify.antt =====
-- The modification of an atomic operation on 32 bits: what `performAMO` writes back.
use rev.Word.{lt_signed}
use rev.Prelude.{
  ℕ, ◌+◌, ◌%◌, ◌^◌, ◌==◌, ◌≡◌, refl, ap, ◌∙◌, arith, bit_and, bit_or, bit_xor, Bool, true, false,
  not, ltb, List, [], ◌∷◌, ◌++◌, length, some, none, ◌>>=◌, if◌then◌else◌, some-injective,
}
use rev.Mem.Amo.{AmoOp, amo_with, amo_select, amo_apply, word_of, byte_of}
use rev.Mem.Bytes.{Memory, read_mem, write_mem}
use rev.MemCtrl.{MemOp, RevMemOp, AmoEntry, RevBasicMemCtrl, mem_op}
use rev.MemCtrl.Resp.{
  read_host, write_host, byte_at, operand_of, bytes_from, modified, write_back, perform_amo,
}

-- Four bytes written are read back.
bytes-written :
    (p : ℕ) (bytes host : ℕ → ℕ)
    → bytes_from 4 (write_host 4 p bytes host) p ≡ bytes 0 ∷ bytes 1 ∷ bytes 2 ∷ bytes 3 ∷ []
unfolding bytes_from write_host
bytes-written p bytes host = ground arith

-- The object that writes the result of an operation of four bytes back.
abbrev pub written : RevBasicMemCtrl → RevMemOp → ℕ → ℕ → RevMemOp
written s op hazard value =
    let bytes = byte_of value 0 ∷ byte_of value 1 ∷ byte_of value 2 ∷ byte_of value 3 ∷ [] in
    record (mem_op s op.hart op.addr op.p_addr op.size MemOp.write bytes none 0 op.flags) {
      hazard = some hazard;
    }

applied_lem :
    (o o' : AmoOp) (w target operand : ℕ)
    → some o ≡ some o'
    → amo_apply o w target operand ≡ amo_apply o' w target operand
applied_lem o o' w target operand e =
    ap (λ (p : AmoOp). amo_apply p w target operand) (some-injective o o' e)

-- Both chains of tests choose by the first flag that is set.
chains_lem :
    (b1 b2 b3 b4 b5 b6 b7 b8 b9 : Bool) (o : AmoOp) (w target operand : ℕ)
    → (if b1
        then some AmoOp.amoadd
        else if b2
        then some AmoOp.amoxor
        else if b3
        then some AmoOp.amoand
        else if b4
        then some AmoOp.amoor
        else if b5
        then some AmoOp.amomin
        else if b6
        then some AmoOp.amomax
        else if b7
        then some AmoOp.amominu
        else if b8
        then some AmoOp.amomaxu
        else if b9
        then some AmoOp.amoswap
        else none)
      ≡ some o
    → (if b1
        then (target + operand) % 2 ^ w
        else if b2
        then bit_xor target operand
        else if b3
        then bit_and target operand
        else if b4
        then bit_or target operand
        else if b5
        then (if lt_signed w operand target then operand else target)
        else if b6
        then (if lt_signed w target operand then operand else target)
        else if b7
        then (if ltb operand target then operand else target)
        else if b8
        then (if ltb target operand then operand else target)
        else if b9
        then operand
        else target)
      ≡ amo_apply o w target operand
unfolding amo_apply
chains_lem true b2 b3 b4 b5 b6 b7 b8 b9 o w target operand e =
    applied_lem AmoOp.amoadd o w target operand e
chains_lem false true b3 b4 b5 b6 b7 b8 b9 o w target operand e =
    applied_lem AmoOp.amoxor o w target operand e
chains_lem false false true b4 b5 b6 b7 b8 b9 o w target operand e =
    applied_lem AmoOp.amoand o w target operand e
chains_lem false false false true b5 b6 b7 b8 b9 o w target operand e =
    applied_lem AmoOp.amoor o w target operand e
chains_lem false false false false true b6 b7 b8 b9 o w target operand e =
    applied_lem AmoOp.amomin o w target operand e
chains_lem false false false false false true b7 b8 b9 o w target operand e =
    applied_lem AmoOp.amomax o w target operand e
chains_lem false false false false false false true b8 b9 o w target operand e =
    applied_lem AmoOp.amominu o w target operand e
chains_lem false false false false false false false true b9 o w target operand e =
    applied_lem AmoOp.amomaxu o w target operand e
chains_lem false false false false false false false false true o w target operand e =
    applied_lem AmoOp.amoswap o w target operand e
chains_lem false false false false false false false false false o w target operand e =
    absurd (ground (arith, e))

modified_lem :
    (o : AmoOp) (flags target operand : ℕ)
    → amo_select flags ≡ some o
    → modified flags 32 target operand ≡ amo_apply o 32 target operand
unfolding modified amo_select
modified_lem o flags target operand flag =
    chains_lem (not (bit_and flags (2 ^ 21) == 0)) (not (bit_and flags (2 ^ 22) == 0))
      (not (bit_and flags (2 ^ 23) == 0)) (not (bit_and flags (2 ^ 24) == 0))
      (not (bit_and flags (2 ^ 25) == 0)) (not (bit_and flags (2 ^ 26) == 0))
      (not (bit_and flags (2 ^ 27) == 0)) (not (bit_and flags (2 ^ 28) == 0))
      (not (bit_and flags (2 ^ 29) == 0)) o 32 target operand flag

operand_of_lem :
    (buf : List ℕ) → length buf ≡ 4 → operand_of 32 buf ≡ some (word_of 4 (byte_at buf))
unfolding operand_of
operand_of_lem buf four = rw four refl

write_back-queue :
    (op : RevMemOp) (target hazard value : ℕ) (s : RevBasicMemCtrl)
    → op.size ≡ 4
    → (write_back op target hazard
        (record s { host = write_host 4 target (byte_of value) s.host })).rqst_q
      ≡ s.rqst_q ++ (written s op hazard value ∷ [])
unfolding write_back
write_back-queue op target hazard value s size =
    let read : bytes_from op.size (write_host 4 target (byte_of value) s.host) target
        ≡ byte_of value 0 ∷ byte_of value 1 ∷ byte_of value 2 ∷ byte_of value 3 ∷ [] =
      ap (λ n. bytes_from n (write_host 4 target (byte_of value) s.host) target) size
      ∙ bytes-written target (byte_of value) s.host in
    rw read refl

write_back-hazard :
    (op : RevMemOp) (target hazard : ℕ) (s : RevBasicMemCtrl)
    → (write_back op target hazard s).hazards hazard ≡ true
unfolding write_back
write_back-hazard op target hazard s = ground arith

-- What `performAMO` and, on the memory without a controller, `AMOMem` come to.
abbrev pub AgreesWithMemory :
    AmoOp → AmoEntry → ℕ → ℕ → ℕ → RevBasicMemCtrl → Memory → Memory → Type 0
AgreesWithMemory o e hazard addr operand s m m1 =
    (value : ℕ) × (s' : RevBasicMemCtrl) × (perform_amo e s ≡ some s')
    × (s'.rqst_q ≡ s.rqst_q ++ (written s e.mem_op hazard value ∷ []))
    × (s'.hazards hazard ≡ true)
    × (amo_with (some o) addr 4 (some operand) m
        ≡ (write_mem addr 4 (byte_of value) m1 >>= (λ m2. some (some value, m2))))

-- Where the response has left at the target of an atomic operation of four bytes the word that the
-- memory holds at an address, `performAMO` succeeds and queues, under the hazard of the operation, a
-- write of the four bytes that `AMOMem` without a controller writes to that address when its operand
-- is the word of the operation's buffer, so not the target itself (rs2 is not rd).
pub perform_amo-AgreesWithMemory :
    (o : AmoOp) (e : AmoEntry) (target hazard addr : ℕ) (buf : List ℕ) (s : RevBasicMemCtrl)
    (bytes : ℕ → ℕ) (m m1 : Memory)
    → amo_select e.mem_op.flags ≡ some o
    → e.mem_op.size ≡ 4
    → e.mem_op.membuf ≡ buf
    → length buf ≡ 4
    → e.mem_op.target ≡ some target
    → e.mem_op.hazard ≡ some hazard
    → read_mem addr 4 (λ _. 0) m ≡ some (bytes, m1)
    → word_of 4 bytes ≡ read_host 4 target s.host
    → AgreesWithMemory o e hazard addr (word_of 4 (byte_at buf)) s m m1
unfolding perform_amo amo_with
perform_amo-AgreesWithMemory o e target hazard addr buf s bytes m m1 flag size is_buf four to under
      read same =
    let value = amo_apply o 32 (read_host 4 target s.host) (word_of 4 (byte_at buf)) in
    let s1 : RevBasicMemCtrl = record s { host = write_host 4 target (byte_of value) s.host } in
    (
      value,
      write_back e.mem_op target hazard s1,
      rw
          (
            size,
            is_buf,
            to,
            operand_of_lem buf four,
            under,
            modified_lem o e.mem_op.flags (read_host 4 target s.host) (word_of 4 (byte_at buf))
                flag,
          )
          refl,
      write_back-queue e.mem_op target hazard value s size,
      write_back-hazard e.mem_op target hazard s1,
      rw (read, same) refl,
    )
