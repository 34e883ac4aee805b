-- ===== src/Mem/Paging/Translate.antt =====
-- Translations: `CalcPhysAddr` through the TLB and the page map, and the states that it keeps.
use rev.Prelude.{
  List, [], ◌∷◌, ℕ, ◌+◌, ◌*◌, ◌/◌, ◌%◌, ◌^◌, ◌≤◌, ◌<◌, ◌≡◌, refl, sym, ap, ◌∙◌, arith, Option, some,
  none, ◌==◌, true, false, Bool-cases, inl, inr, ◌⊎◌,
}
use rev.Bits.{bit_and_mask}
use rev.Mem.Tlb.{Tlb, searched, search_tlb, added, add_to_tlb, update, evicted, invalid_addr}
use rev.Mem.Paging.{RevMem, is_valid_virt_addr, phys_addr, touch, walk, calc_phys_addr}

-- The byte `v` of the virtual memory stands at `p`: its page has a frame, and `p` is the same
-- offset in the frame.
pub record Translates (s : RevMem) (v p : ℕ) : Type 0 where
  pub frame : ℕ
  pub mapped : s.page_map (v / 2 ^ 18) ≡ some frame
  pub place : p ≡ frame * 2 ^ 18 + v % 2 ^ 18

-- Frames are handed out in order and to one page each, they fit a physical memory of 4 GiB, and
-- the TLB holds translations only.
pub record IsCoherent (s : RevMem) : Type 0 where
  pub used : (page frame : ℕ) → s.page_map page ≡ some frame → frame < s.next_page
  pub owned :
      (page other frame : ℕ)
      → s.page_map page ≡ some frame
      → s.page_map other ≡ some frame
      → page ≡ other
  pub cached : (v p : ℕ) → s.tlb.tlb v ≡ some p → Translates s v p
  pub fits : s.next_page ≤ 2 ^ 14

pub translate-injective :
    (s : RevMem) (v w p : ℕ) → IsCoherent s → Translates s v p → Translates s w p → v ≡ w
translate-injective s v w p ok tv tw =
    let same : tv.frame ≡ tw.frame = omega (arith, tv.place, tw.place) in
    omega (
      arith,
      tv.place,
      tw.place,
      ok.owned (v / 2 ^ 18) (w / 2 ^ 18) tv.frame tv.mapped (tw.mapped ∙ ap some (sym same)),
    )

phys_addr_lem : (frame v : ℕ) → frame < 2 ^ 14 → phys_addr frame v ≡ frame * 2 ^ 18 + v % 2 ^ 18
phys_addr_lem frame v h = omega (arith, bit_and_mask 18 v)

evicted-entries :
    (q : List ℕ) (n : ℕ) (t : Tlb) (u p : ℕ) → (evicted q n t).tlb u ≡ some p → t.tlb u ≡ some p
unfolding evicted update
evicted-entries [] n t u p e = e
evicted-entries (x ∷ xs) n t u p e = ground arith

-- What stands in the TLB after an insertion.
added-entries :
    (o : Option ℕ) (n v phys : ℕ) (t : Tlb) (u p : ℕ)
    → (added o n v phys t).tlb u ≡ some p
    → ((u ≡ v) × (p ≡ phys)) ⊎ (t.tlb u ≡ some p)
unfolding added update
added-entries (some old) n v phys t u p e = elim (Bool-cases (u == v)) [
  | inl same ↦ ground arith
  | inr other ↦ ground arith
]
added-entries none n v phys t u p e = elim (Bool-cases (u == v)) [
  | inl same ↦ ground arith
  | inr other ↦ inr (evicted-entries t.lru_queue n t u p (ground arith))
]

searched-tlb : (o : Option ℕ) (v : ℕ) (t : Tlb) → (searched o v t).1.tlb ≡ t.tlb
unfolding searched
searched-tlb none v t = refl
searched-tlb (some p) v t = refl

-- The pages after a touch.
module _ (s : RevMem) (v : ℕ) (ok : IsCoherent s) (room : s.next_page < 2 ^ 14) where
  -- What was mapped stays mapped.
  touch-kept :
      (o : Option ℕ) (page u frame : ℕ)
      → s.page_map page ≡ o
      → s.page_map u ≡ some frame
      → (touch o page s).1.page_map u ≡ some frame
  unfolding touch
  touch-kept (some f) page u frame e h = h
  touch-kept none page u frame e h = elim (Bool-cases (u == page)) [
    | inl same ↦ grind arith
    | inr other ↦ rw other h
  ]

  touch-mapped :
      (o : Option ℕ) (page : ℕ)
      → s.page_map page ≡ o
      → (touch o page s).1.page_map page ≡ some (touch o page s).0
  unfolding touch
  touch-mapped (some f) page e = e
  touch-mapped none page e = ground arith

  -- What is mapped is the touched page, or was mapped.
  touch-entries :
      (o : Option ℕ) (page u frame : ℕ)
      → (touch o page s).1.page_map u ≡ some frame
      → ((u ≡ page) × (frame ≡ (touch o page s).0)) ⊎ (s.page_map u ≡ some frame)
  unfolding touch
  touch-entries (some f) page u frame h = inr h
  touch-entries none page u frame h = elim (Bool-cases (u == page)) [
    | inl same ↦ ground arith
    | inr other ↦ ground arith
  ]

  touch-used :
      (o : Option ℕ) (page : ℕ)
      → s.page_map page ≡ o
      → (u frame : ℕ) → (touch o page s).1.page_map u ≡ some frame
      → frame < (touch o page s).1.next_page
  unfolding touch
  touch-used (some f) page e u frame h = ok.used u frame h
  touch-used none page e u frame h = elim (touch-entries none page u frame h) [
    | inl (same, new) ↦ omega arith
    | inr old ↦ omega (arith, ok.used u frame old)
  ]

  -- The frame of a touched page is no other page's.
  touch-fresh :
      (o : Option ℕ) (page u : ℕ)
      → s.page_map page ≡ o
      → s.page_map u ≡ some (touch o page s).0
      → u ≡ page
  unfolding touch
  touch-fresh (some f) page u e h = ok.owned u page f h e
  touch-fresh none page u e h = absurd (omega (arith, ok.used u s.next_page h))

  touch-owned :
      (o : Option ℕ) (page : ℕ)
      → s.page_map page ≡ o
      → (u w frame : ℕ) → (touch o page s).1.page_map u ≡ some frame
      → (touch o page s).1.page_map w ≡ some frame
      → u ≡ w
  touch-owned o page e u w frame hu hw = elim (touch-entries o page u frame hu) [
    | inl (u_page, new) ↦ elim (touch-entries o page w frame hw) [
      | inl (w_page, _) ↦ u_page ∙ sym w_page
      | inr old ↦ u_page ∙ sym (touch-fresh o page w e (old ∙ ap some new))
    ]
    | inr old ↦ elim (touch-entries o page w frame hw) [
      | inl (w_page, new) ↦ touch-fresh o page u e (old ∙ ap some new) ∙ sym w_page
      | inr old' ↦ ok.owned u w frame old old'
    ]
  ]

  touch-fits : (o : Option ℕ) (page : ℕ) → (touch o page s).1.next_page ≤ 2 ^ 14
  unfolding touch
  touch-fits (some f) page = ok.fits
  touch-fits none page = omega arith

  touch-frame : (o : Option ℕ) (page : ℕ) → s.page_map page ≡ o → (touch o page s).0 < 2 ^ 14
  unfolding touch
  touch-frame (some f) page e = omega (arith, ok.used page f e, room)
  touch-frame none page e = room

  touch-grown : (o : Option ℕ) (page : ℕ) → (touch o page s).1.next_page ≤ s.next_page + 1
  unfolding touch
  touch-grown (some f) page = omega arith
  touch-grown none page = omega arith

  touch-steady :
      (o : Option ℕ) (page frame : ℕ)
      → s.page_map page ≡ o
      → s.page_map page ≡ some frame
      → (touch o page s).1.next_page ≡ s.next_page
  unfolding touch
  touch-steady (some f) page frame e h = refl
  touch-steady none page frame e h = absurd (ground (arith, sym e ∙ h))

  touch-valid :
      (o : Option ℕ) (page u : ℕ) → is_valid_virt_addr (touch o page s).1 u ≡ is_valid_virt_addr s u
  unfolding touch is_valid_virt_addr
  touch-valid (some f) page u = refl
  touch-valid none page u = refl

  touch-tlb : (o : Option ℕ) (page : ℕ) → (touch o page s).1.tlb ≡ s.tlb
  unfolding touch
  touch-tlb (some f) page = refl
  touch-tlb none page = refl

-- A translation of `v` to `p` that leaves `s'`: `s'` is coherent and translates so, and every
-- translation of `s` holds in `s'`. A frame is taken only for a page that had none.
pub record Translated (s : RevMem) (v p : ℕ) (s' : RevMem) : Type 0 where
  pub coherent : IsCoherent s'
  pub translates : Translates s' v p
  pub kept : (u q : ℕ) → Translates s u q → Translates s' u q
  pub same_valid : (u : ℕ) → is_valid_virt_addr s' u ≡ is_valid_virt_addr s u
  pub grown : s'.next_page ≤ s.next_page + 1
  pub steady : (frame : ℕ) → s.page_map (v / 2 ^ 18) ≡ some frame → s'.next_page ≡ s.next_page

with_tlb :
    (s : RevMem) (t : Tlb) → IsCoherent s → t.tlb ≡ s.tlb.tlb → IsCoherent (record s { tlb = t })
with_tlb s t ok e = record {
  used = ok.used;
  owned = ok.owned;
  cached = λ v p h.
      let tr = ok.cached v p (ap (λ (m : ℕ → Option ℕ). m v) (sym e) ∙ h) in
      record { frame = tr.frame; mapped = tr.mapped; place = tr.place };
  fits = ok.fits;
}

-- The state after a walk.
walked : ℕ → RevMem → RevMem
walked v s =
    let page = v / 2 ^ 18 in
    let touched = touch (s.page_map page) page s in
    let phys = phys_addr touched.0 v in
    record touched.1 { tlb = add_to_tlb s.tlb_size v phys touched.1.tlb }

module _ (s : RevMem) (v : ℕ) (ok : IsCoherent s) (room : s.next_page < 2 ^ 14) where
  walked_kept : (u q : ℕ) → Translates s u q → Translates (walked v s) u q
  unfolding walked
  walked_kept u q tr = record {
    frame = tr.frame;
    mapped = touch-kept s v ok room _ _ (u / 2 ^ 18) tr.frame refl tr.mapped;
    place = tr.place;
  }

  walked_place :
      (p : ℕ)
      → p ≡ phys_addr (touch (s.page_map (v / 2 ^ 18)) (v / 2 ^ 18) s).0 v
      → Translates (walked v s) v p
  unfolding walked
  walked_place p e = record {
    frame = _;
    mapped = touch-mapped s v ok room _ _ refl;
    place = e ∙ phys_addr_lem _ v (touch-frame s v ok room _ _ refl);
  }

  walked_cached : (u p : ℕ) → (walked v s).tlb.tlb u ≡ some p → Translates (walked v s) u p
  unfolding walked add_to_tlb
  walked_cached u p h = elim (added-entries _ s.tlb_size v _ _ u p h) [
    | inl (same, new) ↦ rw same (walked_place p new)
    | inr old ↦
        walked_kept u p
          (ok.cached u p (ap (λ (t : Tlb). t.tlb u) (sym (touch-tlb s v ok room _ _)) ∙ old))
  ]

  walked-Translated :
      Translated s v (phys_addr (touch (s.page_map (v / 2 ^ 18)) (v / 2 ^ 18) s).0 v) (walked v s)
  unfolding walked touch is_valid_virt_addr
  walked-Translated = record {
    coherent = record {
      used = touch-used s v ok room _ _ refl;
      owned = touch-owned s v ok room _ _ refl;
      cached = walked_cached;
      fits = touch-fits s v ok room _ _;
    };
    translates = walked_place _ refl;
    kept = walked_kept;
    same_valid = touch-valid s v ok room _ _;
    grown = touch-grown s v ok room _ _;
    steady = λ frame h. touch-steady s v ok room _ (v / 2 ^ 18) frame refl h;
  }

  walk-Translated :
      is_valid_virt_addr s v ≡ true
      → (p : ℕ) × (s' : RevMem) × (walk (v / 2 ^ 18) v s ≡ some (p, s')) × Translated s v p s'
  unfolding walk walked
  walk-Translated valid = (_, _, rw valid refl, walked-Translated)

hit-lem :
    (o : Option ℕ) (v : ℕ) (t : Tlb)
    → (searched o v t).0 == invalid_addr ≡ false
    → o ≡ some (searched o v t).0
unfolding searched
hit-lem none v t e = absurd (ground arith)
hit-lem (some p) v t e = refl

-- For an address that is valid, in a coherent state with a frame left, `CalcPhysAddr` gives a
-- result, on a hit as on a miss: the physical address is the frame of the page plus the offset,
-- the state after it is coherent, and no other page's translation has changed.
pub calc_phys_addr-Translated :
    (s : RevMem) (v : ℕ)
    → IsCoherent s
    → s.next_page < 2 ^ 14
    → is_valid_virt_addr s v ≡ true
    → (p : ℕ) × (s' : RevMem) × (calc_phys_addr (v / 2 ^ 18) v s ≡ some (p, s'))
      × Translated s v p s'
unfolding calc_phys_addr search_tlb is_valid_virt_addr
calc_phys_addr-Translated s v ok room valid =
    let t = (search_tlb v s.tlb).1 in
    let same = searched-tlb (s.tlb.tlb v) v s.tlb in
    let ok' = with_tlb s t ok same in
    elim (Bool-cases ((search_tlb v s.tlb).0 == invalid_addr)) [
      | inl miss ↦
          let (p, s', e, tr) = walk-Translated (record s { tlb = t }) v ok' room valid in
          (
            p,
            s',
            rw miss e,
            record {
              coherent = tr.coherent;
              translates = tr.translates;
              kept = λ u q h.
                  tr.kept u q (record { frame = h.frame; mapped = h.mapped; place = h.place });
              same_valid = λ u. tr.same_valid u;
              grown = tr.grown;
              steady = λ frame h. tr.steady frame h;
            },
          )
      | inr hit ↦
          let cached = ok.cached v _ (hit-lem (s.tlb.tlb v) v s.tlb hit) in
          (
            _,
            _,
            rw hit refl,
            record {
              coherent = ok';
              translates = record {
                frame = cached.frame;
                mapped = cached.mapped;
                place = cached.place;
              };
              kept = λ u q h. record { frame = h.frame; mapped = h.mapped; place = h.place };
              same_valid = λ u. refl;
              grown = omega arith;
              steady = λ frame h. refl;
            },
          )
    ]

-- An address that is neither valid nor in the TLB ends the simulation.
pub calc_phys_addr-fault :
    (s : RevMem) (page v : ℕ)
    → is_valid_virt_addr s v ≡ false
    → s.tlb.tlb v ≡ none
    → calc_phys_addr page v s ≡ none
unfolding calc_phys_addr search_tlb searched walk is_valid_virt_addr
calc_phys_addr-fault s page v fault miss = rw (miss, fault) refl
