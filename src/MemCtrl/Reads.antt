-- ===== src/MemCtrl/Reads.antt =====
-- The response to a read, with the modification of an atomic operation, and the counters.
use mathlib.Core.Path.{subst}
use rev.Prelude.{
  ℕ, ◌+◌, ◌%◌, ◌^◌, ◌≡◌, inl, inr, refl, arith, Bool, true, false, ◌==◌, ltb, Option, some, none,
  ◌>>=◌, if◌then◌else◌, Option-cases, bind-some, some-injective,
}
use rev.Word.{minus}
use rev.Mem.Amo.{byte_of, width}
use rev.MemCtrl.{RevMemOp, AmoEntry, RevBasicMemCtrl, set_hazard}
use rev.MemCtrl.Order.{NotAmo}
use rev.Prelude.{All-append}
use rev.MemCtrl.Resp.{
  write_host, answered, closed, minus_one, is_last, write_back, perform_amo, take_entry, handle_amo,
  finish_read, handle_read_resp, handle_flag_resp, read_host, modified, operand_of,
}
use rev.MemCtrl.Answers.{
  Keeps, less-Keeps, answered-OneLess, StaysCounted, Keeps-refl, Keeps-trans, one_read,
}

write_back-Keeps :
    (op : RevMemOp) (target hazard : ℕ) (s : RevBasicMemCtrl)
    → Keeps s (write_back op target hazard s)
unfolding write_back
write_back-Keeps op target hazard s =
    (refl, refl, λ known. All-append NotAmo s.rqst_q _ known (λ e. ground (arith, e), tt))

perform_amo-Keeps : (e : AmoEntry) (s s' : RevBasicMemCtrl) → perform_amo e s ≡ some s' → Keeps s s'
unfolding perform_amo
perform_amo-Keeps e s s' h =
    let op = e.mem_op in
    let n = if op.size == 4 then 4 else 8 in
    let done = λ (target operand hazard : ℕ).
      let value = modified op.flags (width op.size) (read_host n target s.host) operand in
      write_back op target hazard
        (record s { host = write_host n target (byte_of value) s.host }) in
    let (target, e1, h1) =
      bind-some op.target
        (λ target.
          operand_of (width op.size) op.membuf
          >>= (λ operand. op.hazard >>= (λ hazard. some (done target operand hazard))))
        s' h in
    let (operand, e2, h2) =
      bind-some (operand_of (width op.size) op.membuf)
        (λ operand. op.hazard >>= (λ hazard. some (done target operand hazard))) s' h1 in
    let (hazard, e3, last) =
      bind-some op.hazard (λ hazard. some (done target operand hazard)) s' h2 in
    let value = modified op.flags (width op.size) (read_host n target s.host) operand in
    subst (Keeps s) (some-injective (done target operand hazard) s' last) (
      write_back-Keeps op target hazard
        (record s { host = write_host n target (byte_of value) s.host }))

handle_amo-Keeps : (op : RevMemOp) (s s' : RevBasicMemCtrl) → handle_amo op s ≡ some s' → Keeps s s'
unfolding handle_amo
handle_amo-Keeps op s s' h = elim (Option-cases (take_entry op s.amo_table)) [
  | inl no_entry ↦
      subst (Keeps s) (some-injective s s' (rw (handle_amo, no_entry) at h)) (Keeps-refl s)
  | inr ((e, others), found) ↦
      perform_amo-Keeps e (record s { amo_table = others }) s' (rw (handle_amo, found) at h)
]

end_of_read-Keeps :
    (h : Option ℕ) (split : Bool) (s s' : RevBasicMemCtrl)
    → (elim h [
      | some hazard ↦ some (set_hazard hazard false s)
      | none ↦ if split then none else some s
    ])
      ≡ some s'
    → Keeps s s'
end_of_read-Keeps (some p) split s s' h =
    subst (Keeps s) (some-injective (set_hazard p false s) s' h) (refl, refl, λ known. known)
end_of_read-Keeps none true s s' h = absurd (ground (arith, h))
end_of_read-Keeps none false s s' h = subst (Keeps s) (some-injective s s' h) (Keeps-refl s)

finish_read-Keeps :
    (op : RevMemOp) (target : ℕ) (s s' : RevBasicMemCtrl)
    → finish_read op target s ≡ some s'
    → Keeps s s'
unfolding finish_read
finish_read-Keeps op target s s' h =
    let s1 : RevBasicMemCtrl = record s { host = handle_flag_resp op.flags target s.host } in
    let rest : RevBasicMemCtrl → Option RevBasicMemCtrl = λ s2. elim op.hazard [
      | some hazard ↦ some (set_hazard hazard false s2)
      | none ↦ if ltb 1 op.split_rqst then none else some s2
    ] in
    let (s2, e, last) = bind-some (handle_amo op s1) rest s' h in
    Keeps-trans s s2 s' (handle_amo-Keeps op s1 s2 e)
      (end_of_read-Keeps op.hazard (ltb 1 op.split_rqst) s2 s' last)

if_some-Keeps :
    (b : Bool) (o : Option RevBasicMemCtrl) (s s' : RevBasicMemCtrl)
    → (o ≡ some s' → Keeps s s')
    → (if b then o else some s) ≡ some s'
    → Keeps s s'
if_some-Keeps true o s s' f h = f h
if_some-Keeps false o s s' f h = subst (Keeps s) (some-injective s s' h) (Keeps-refl s)

pub handle_read_resp-StaysCounted :
    (id p_addr size : ℕ) (bytes : ℕ → ℕ) (s s' : RevBasicMemCtrl)
    → StaysCounted s
    → handle_read_resp id p_addr size bytes s ≡ some s'
    → StaysCounted s'
unfolding handle_read_resp
handle_read_resp-StaysCounted id p_addr size bytes s s' ok h =
    let written = λ (op : RevMemOp) (s1 : RevBasicMemCtrl) (target : ℕ).
      let start = minus 64 p_addr op.addr % 2 ^ 8 in
      let at = if ltb 1 op.split_rqst then target + start else target in
      let n = if ltb 1 op.split_rqst then size else op.size in
      record s1 { host = write_host n at bytes s1.host } in
    let finished =
      λ (s3 : RevBasicMemCtrl). some (record (closed id s3) { num_read = minus_one s3.num_read }) in
    let second = λ (op : RevMemOp) (s1 : RevBasicMemCtrl) (target : ℕ).
      let s2 = written op s1 target in
      (if is_last op s2 then finish_read op target s2 else some s2) >>= finished in
    let ((op, s1), e, h1) =
      bind-some (answered id s) (λ (op, s1). op.target >>= second op s1) s' h in
    let (target, e2, h2) = bind-some op.target (second op s1) s' h1 in
    let s2 = written op s1 target in
    let (s3, e3, last) =
      bind-some (if is_last op s2 then finish_read op target s2 else some s2) finished s' h2 in
    let keeps : Keeps s2 s3 =
      if_some-Keeps (is_last op s2) (finish_read op target s2) s2 s3
        (finish_read-Keeps op target s2 s3) e3 in
    subst StaysCounted
      (some-injective (record (closed id s3) { num_read = minus_one s3.num_read }) s' last)
      (one_read id s s3 ok (less-Keeps s s1 s3 (answered-OneLess id s s1 op e) keeps))
