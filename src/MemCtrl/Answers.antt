-- ===== src/MemCtrl/Answers.antt =====
-- Responses and the counters: every answered request leaves `requests` and its counter.
use mathlib.Core.Path.{subst}
use rev.Prelude.{
  ℕ, suc, ◌+◌, ◌-◌, ◌%◌, ◌^◌, ◌≡◌, inl, inr, refl, sym, ap, ◌∙◌, arith, Bool, true, false, ◌==◌,
  List, [], ◌∷◌, All, length, Option, some, none, ◌>>=◌, if◌then◌else◌, Bool-cases, bind-some,
  some-injective,
}
use rev.MemCtrl.{RevMemOp, RevBasicMemCtrl}
use rev.MemCtrl.Counted.{counted, IsCounted}
use rev.MemCtrl.Order.{NotAmo}
use rev.MemCtrl.Resp.{
  erase_rqst, find_outstanding, answered, closed, minus_one, handle_flush_resp, handle_custom_resp,
  erase_entries, is_last, clear_hazard, handle_write_resp,
}

-- The requests, the counters and the kinds of the queue are kept.
abbrev pub Keeps : RevBasicMemCtrl → RevBasicMemCtrl → Type 0
Keeps s s' =
    (s'.requests ≡ s.requests)
    × (counted s' ≡ counted s)
    × (All NotAmo s.rqst_q → All NotAmo s'.rqst_q)

-- One request is gone.
abbrev OneLess : RevBasicMemCtrl → RevBasicMemCtrl → Type 0
OneLess s s' =
    (length s.requests ≡ suc (length s'.requests))
    × (counted s' ≡ counted s)
    × (All NotAmo s.rqst_q → All NotAmo s'.rqst_q)

pub less-Keeps : (s s1 s2 : RevBasicMemCtrl) → OneLess s s1 → Keeps s1 s2 → OneLess s s2
less-Keeps s s1 s2 (less, sum, known) (same, sum', known') =
    (less ∙ ap (λ rs. suc (length rs)) (sym same), sum' ∙ sum, λ h. known' (known h))

erase_rqst-length :
    (id : ℕ) (rs others : List ℕ) → erase_rqst id rs ≡ some others → length rs ≡ suc (length others)
unfolding erase_rqst
erase_rqst-length id [] others h = absurd (ground (arith, h))
erase_rqst-length id (r ∷ rs) others h = elim (Bool-cases (r == id)) [
  | inl here ↦ ap (λ l. suc (length l)) (some-injective rs others (rw here at h))
  | inr there ↦
      let (l, e, last) = bind-some (erase_rqst id rs) (λ l. some (r ∷ l)) others (rw there at h) in
      ap suc (erase_rqst-length id rs l e)
      ∙ ap (λ l. suc (length l)) (some-injective (r ∷ l) others last)
]

pub answered-OneLess :
    (id : ℕ) (s s1 : RevBasicMemCtrl) (op : RevMemOp) → answered id s ≡ some (op, s1) → OneLess s s1
unfolding answered
answered-OneLess id s s1 op h =
    let found = λ (others : List ℕ).
      find_outstanding id s.outstanding >>= (λ op. some (op, record s { requests = others })) in
    let (others, e, h1) = bind-some (erase_rqst id s.requests) found (op, s1) h in
    let (op', e', last) =
      bind-some (find_outstanding id s.outstanding)
        (λ op. some (op, record s { requests = others })) (op, s1) h1 in
    let pair = some-injective (op', record s { requests = others }) (op, s1) last in
    subst (λ (p : RevMemOp × RevBasicMemCtrl). OneLess s p.1) pair
      (erase_rqst-length id s.requests others e, refl, λ known. known)

-- What a handler ends in, when its request has left and its counter is one down.
abbrev pub StaysCounted : RevBasicMemCtrl → Type 0
StaysCounted s = IsCounted s × All NotAmo s.rqst_q

less-StaysCounted :
    (s s1 s2 : RevBasicMemCtrl)
    → StaysCounted s
    → OneLess s s1
    → s2.requests ≡ s1.requests
    → s2.rqst_q ≡ s1.rqst_q
    → counted s2 % 2 ^ 64 ≡ (counted s1 + (2 ^ 64 - 1)) % 2 ^ 64
    → StaysCounted s2
unfolding IsCounted
less-StaysCounted s s1 s2 (ok, known) (less, sum, known') same same_q down = (
  omega (arith, ok, less, sum, down, ap length same),
  subst (All NotAmo) (sym same_q) (known' known),
)

pub handle_flush_resp-StaysCounted :
    (id : ℕ) (s s' : RevBasicMemCtrl)
    → StaysCounted s
    → handle_flush_resp id s ≡ some s'
    → StaysCounted s'
unfolding handle_flush_resp closed
handle_flush_resp-StaysCounted id s s' ok h =
    let ((op, s1), e, last) =
      bind-some (answered id s)
        (λ (op, s'). some (record (closed id s') { num_flush = minus_one s'.num_flush })) s' h in
    let s2 = record (closed id s1) { num_flush = minus_one s1.num_flush } in
    subst StaysCounted (some-injective s2 s' last)
      (less-StaysCounted s s1 s2 ok (answered-OneLess id s s1 op e) refl refl (omega arith))

pub handle_custom_resp-StaysCounted :
    (id : ℕ) (s s' : RevBasicMemCtrl)
    → StaysCounted s
    → handle_custom_resp id s ≡ some s'
    → StaysCounted s'
unfolding handle_custom_resp closed
handle_custom_resp-StaysCounted id s s' ok h =
    let ((op, s1), e, last) =
      bind-some (answered id s)
        (λ (op, s'). some (record (closed id s') { num_custom = minus_one s'.num_custom })) s' h in
    let s2 = record (closed id s1) { num_custom = minus_one s1.num_custom } in
    subst StaysCounted (some-injective s2 s' last)
      (less-StaysCounted s s1 s2 ok (answered-OneLess id s s1 op e) refl refl (omega arith))

pub Keeps-refl : (s : RevBasicMemCtrl) → Keeps s s
Keeps-refl s = (refl, refl, λ known. known)

pub Keeps-trans : (s s1 s2 : RevBasicMemCtrl) → Keeps s s1 → Keeps s1 s2 → Keeps s s2
Keeps-trans s s1 s2 (same, sum, known) (same', sum', known') =
    (same' ∙ same, sum' ∙ sum, λ h. known' (known h))

clear_hazard-Keeps : (h : Option ℕ) (s : RevBasicMemCtrl) → Keeps s (clear_hazard h s)
clear_hazard-Keeps none s = Keeps-refl s
clear_hazard-Keeps (some p) s = (refl, refl, λ known. known)

if-Keeps :
    (b : Bool) (s x y : RevBasicMemCtrl) → Keeps s x → Keeps s y → Keeps s (if b then x else y)
if-Keeps true s x y hx hy = hx
if-Keeps false s x y hx hy = hy

one_write :
    (id : ℕ) (s s3 : RevBasicMemCtrl)
    → StaysCounted s
    → OneLess s s3
    → StaysCounted (record (closed id s3) { num_write = minus_one s3.num_write })
unfolding closed
one_write id s s3 ok less =
    less-StaysCounted s s3 (record (closed id s3) { num_write = minus_one s3.num_write }) ok less
      refl refl (omega arith)

pub one_read :
    (id : ℕ) (s s3 : RevBasicMemCtrl)
    → StaysCounted s
    → OneLess s s3
    → StaysCounted (record (closed id s3) { num_read = minus_one s3.num_read })
unfolding closed
one_read id s s3 ok less =
    less-StaysCounted s s3 (record (closed id s3) { num_read = minus_one s3.num_read }) ok less refl
      refl (omega arith)

pub handle_write_resp-StaysCounted :
    (id : ℕ) (s s' : RevBasicMemCtrl)
    → StaysCounted s
    → handle_write_resp id s ≡ some s'
    → StaysCounted s'
unfolding handle_write_resp
handle_write_resp-StaysCounted id s s' ok h =
    let cleared = λ (op : RevMemOp) (s1 : RevBasicMemCtrl).
      let s2 : RevBasicMemCtrl = record s1 { amo_table = erase_entries op s1.amo_table } in
      if is_last op s2 then clear_hazard op.hazard s2 else s2 in
    let ((op, s1), e, last) =
      bind-some (answered id s)
        (λ (op, s1).
          let s3 = cleared op s1 in
          some (record (closed id s3) { num_write = minus_one s3.num_write }))
        s' h in
    let s2 : RevBasicMemCtrl = record s1 { amo_table = erase_entries op s1.amo_table } in
    let s3 = cleared op s1 in
    let keeps : Keeps s1 s3 =
      if-Keeps (is_last op s2) s1 (clear_hazard op.hazard s2) s2 (clear_hazard-Keeps op.hazard s2)
        (Keeps-refl s2) in
    let s4 : RevBasicMemCtrl = record (closed id s3) { num_write = minus_one s3.num_write } in
    subst StaysCounted {x = s4} (some-injective s4 s' last)
      (one_write id s s3 ok (less-Keeps s s1 s3 (answered-OneLess id s s1 op e) keeps))
