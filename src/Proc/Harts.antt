-- ===== src/Proc/Harts.antt =====
-- `GetHartID` of src/RevProc.cc: the harts that are clear to start are `cts`, `count` is
-- `_REV_HART_COUNT_`.
use rev.Prelude.{
  ℕ, zero, suc, ◌+◌, ◌-◌, ◌%◌, ◌≤◌, ◌<◌, ◌≡◌, ◌≢◌, ◌⊎◌, refl, ◌∙◌, ap, sym, arith, Bool, true,
  false, ltb, leb, ◌==◌, Bool-cases, inl, inr, if◌then◌else◌,
}

-- `HART_CTS.none()`.
unfoldable pub none_ready : (ℕ → Bool) → ℕ → Bool
none_ready cts zero = true
none_ready cts (suc n) = let rest = none_ready cts n in if cts n then false else rest

-- `nextID++; if( nextID >= _REV_HART_COUNT_ ) nextID = 0;`
abbrev pub next_id : ℕ → ℕ → ℕ
next_id count id = if leb count ((id + 1) % 65536) then 0 else (id + 1) % 65536

-- The loop, for the rounds that are left.
unfoldable pub scan : (ℕ → Bool) → ℕ → ℕ → ℕ → ℕ
scan cts count zero id = id
scan cts count (suc rounds) id =
    let next = next_id count id in
    let rest = scan cts count rounds next in if cts next then next else rest

unfoldable pub get_hart_id : (ℕ → Bool) → ℕ → ℕ → ℕ
unfolding none_ready scan
get_hart_id cts count hart_to_decode =
    let next = scan cts count count hart_to_decode in
    if none_ready cts count
    then hart_to_decode
    else if cts hart_to_decode
    then hart_to_decode
    else next

-- The hart that lies `k` places after `id` in the ring.
abbrev pub ring : ℕ → ℕ → ℕ → ℕ
ring count id k = if ltb (id + k) count then id + k else id + k - count

module _ (cts : ℕ → Bool) (count : ℕ) where
  -- What the loop finds: the first hart after `id` that is ready, within the rounds.
  pub record Found (id rounds found : ℕ) : Type 0 where
    pub distance : ℕ
    pub positive : 0 < distance
    pub within : distance ≤ rounds
    pub place : found ≡ ring count id distance
    pub ready : cts found ≡ true
    pub first : (k : ℕ) → 0 < k → k < distance → cts (ring count id k) ≡ false

module _ (cts : ℕ → Bool) (count : ℕ) (narrow : count < 65536) where
  -- A round goes to the next hart in the ring.
  next_lem : (id : ℕ) → id < count → next_id count id ≡ ring count id 1
  next_lem id h = ground (arith, narrow)

  ring-ring :
      (id k : ℕ)
      → id < count
      → suc k ≤ count
      → ring count (ring count id 1) k ≡ ring count id (suc k)
  ring-ring id k h hk = ground arith

  ring-lt : (id k : ℕ) → id < count → k ≤ count → ring count id k < count
  ring-lt id k h hk = ground arith

  further_first :
      (id rounds : ℕ)
      → cts (ring count id 1) ≡ false
      → id < count
      → suc rounds ≤ count
      → (distance : ℕ) → distance ≤ rounds
      → ((k : ℕ) → 0 < k → k < distance → cts (ring count (ring count id 1) k) ≡ false)
      → (k : ℕ) → 0 < k
      → k < suc distance
      → cts (ring count id k) ≡ false
  further_first id rounds not_here h hr distance within first zero positive below =
      absurd (omega (arith, positive))
  further_first id rounds not_here h hr distance within first (suc zero) positive below = not_here
  further_first id rounds not_here h hr distance within first (suc (suc k)) positive below =
      ap cts (sym (ring-ring id (suc k) h (omega (arith, below, within, hr))))
      ∙ first (suc k) (omega arith) (omega (arith, below))

  further :
      (id rounds : ℕ)
      → cts (ring count id 1) ≡ false
      → id < count
      → suc rounds ≤ count
      → {found : ℕ} → Found cts count (ring count id 1) rounds found
      → Found cts count id (suc rounds) found
  further id rounds not_here h hr t = record {
    distance = suc t.distance;
    positive = omega arith;
    within = omega (arith, t.within);
    place = t.place ∙ ring-ring id t.distance h (omega (arith, t.within, hr));
    ready = t.ready;
    first = further_first id rounds not_here h hr t.distance t.within t.first;
  }

  here-Found :
      (id rounds : ℕ)
      → cts (ring count id 1) ≡ true
      → Found cts count id (suc rounds) (ring count id 1)
  here-Found id rounds here = record {
    distance = 1;
    positive = omega arith;
    within = omega arith;
    place = refl;
    ready = here;
    first = λ k positive below. absurd (omega (arith, positive, below));
  }

  -- A ready hart within the rounds is found, or one before it.
  scan-Found :
      (id rounds m : ℕ)
      → id < count
      → rounds ≤ count
      → m < rounds
      → cts (ring count id (suc m)) ≡ true
      → Found cts count id rounds (scan cts count rounds id)
  unfolding scan
  scan-Found id zero m h hr hm e = absurd (omega (arith, hm))
  scan-Found id (suc rounds) zero h hr hm e = rw (next_lem id h, e) (here-Found id rounds e)
  scan-Found id (suc rounds) (suc m) h hr hm e = elim (Bool-cases (cts (ring count id 1))) [
    | inl here ↦ rw (next_lem id h, here) (here-Found id rounds here)
    | inr not_here ↦
        let e' : cts (ring count (ring count id 1) (suc m)) ≡ true =
          ap cts (ring-ring id (suc m) h (omega (arith, hm, hr))) ∙ e in
        rw (next_lem id h, not_here)
          (further id rounds not_here h hr (
            scan-Found (ring count id 1) rounds m (ring-lt id 1 h (omega (arith, hr)))
              (omega (arith, hr)) (omega (arith, hm)) e'))
  ]

  -- A ready hart lies some places after the hart.
  reach_ready :
      (hart j : ℕ)
      → hart < count
      → j < count
      → cts hart ≡ false
      → cts j ≡ true
      → Found cts count hart count (scan cts count count hart)
  reach_ready hart j h below not_ready ready = elim (Bool-cases (ltb hart j)) [
    | inl after ↦
        let place : ring count hart (suc (j - hart - 1)) ≡ j = ground (arith, after, below) in
        scan-Found hart count (j - hart - 1) h (omega arith) (omega (arith, below))
          (ap cts place ∙ ready)
    | inr before ↦
        let differ : j ≢ hart = λ e. absurd (ground (arith, sym ready ∙ ap cts e ∙ not_ready)) in
        let place : ring count hart (suc (j + count - hart - 1)) ≡ j =
          ground (arith, before, differ, h, below) in
        let within : j + count - hart - 1 < count = ground (arith, before, differ, h, below) in
        scan-Found hart count (j + count - hart - 1) h (omega arith) within (ap cts place ∙ ready)
  ]

  none_ready-none : (n : ℕ) → none_ready cts n ≡ true → (j : ℕ) → j < n → cts j ≡ false
  unfolding none_ready
  none_ready-none zero e j h = absurd (omega (arith, h))
  none_ready-none (suc n) e j h = elim (Bool-cases (j == n)) [
    | inl same ↦ let last : j ≡ n = ground (arith, same) in ap cts last ∙ ground (arith, e)
    | inr other ↦ none_ready-none n (ground (arith, e)) j (ground (arith, other, h))
  ]

  none_ready-some : (n : ℕ) → none_ready cts n ≡ false → (j : ℕ) × (j < n) × (cts j ≡ true)
  unfolding none_ready
  none_ready-some zero e = absurd (ground arith)
  none_ready-some (suc n) e = elim (Bool-cases (cts n)) [
    | inl ready ↦ (n, omega arith, ready)
    | inr not_ready ↦
        let (j, below, ready) = none_ready-some n (ground (arith, e, not_ready)) in
        (j, omega (arith, below), ready)
  ]

  -- Where no hart is ready GetHartID keeps the hart; where the hart is ready it keeps it too; and
  -- otherwise it finds the first ready hart after it in the ring, which is below the count. The
  -- hart is below the count, and the count fits 16 bits.
  pub get_hart_id-cases :
      (hart : ℕ)
      → hart < count
      → (((j : ℕ) → j < count → cts j ≡ false) × (get_hart_id cts count hart ≡ hart))
        ⊎ ((cts hart ≡ true) × (get_hart_id cts count hart ≡ hart))
        ⊎ ((cts hart ≡ false) × Found cts count hart count (get_hart_id cts count hart))
  unfolding get_hart_id
  get_hart_id-cases hart h = elim (Bool-cases (none_ready cts count)) [
    | inl none ↦ inl (none_ready-none count none, rw none refl)
    | inr some ↦ elim (Bool-cases (cts hart)) [
      | inl ready ↦ inr (inl (ready, rw (some, ready) refl))
      | inr not_ready ↦
          let (j, below, ready) = none_ready-some count some in
          inr (inr (not_ready, rw (some, not_ready) (reach_ready hart j h below not_ready ready)))
    ]
  ]
