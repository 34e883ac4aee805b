-- ===== src/Mem/Tlb/Laws.antt =====
-- The queue and the map of the TLB stay in step, and the TLB keeps to its size.
use rev.Prelude.{
  ℕ, suc, ◌+◌, ◌-◌, ◌%◌, ◌^◌, ◌≤◌, ◌<◌, ◌≡◌, refl, ap, ◌∙◌, arith, List, [], ◌∷◌, Option, some,
  none, ◌==◌, Bool-cases, inl, inr, if◌then◌else◌, length,
}
use rev.Mem.Tlb.{
  Tlb, erase, back, pop_back, update, flush_tlb, searched, search_tlb, evicted, added, add_to_tlb,
}

unfoldable pub count : ℕ → List ℕ → ℕ
count v [] = 0
count v (x ∷ xs) = let rest = count v xs in if v == x then suc rest else rest

unfoldable pub present : Option ℕ → ℕ
present none = 0
present (some p) = 1

-- Each address with an entry is in the queue once, no other address is, and the queue is no longer
-- than the TLB's size.
pub record IsTlb (tlb_size : ℕ) (s : Tlb) : Type 0 where
  pub queued : (v : ℕ) → count v s.lru_queue ≡ present (s.tlb v)
  pub bounded : length s.lru_queue ≤ tlb_size

count-erase :
    (u v : ℕ) (xs : List ℕ) → count u (erase v xs) ≡ (if u == v then count u xs - 1 else count u xs)
unfolding count erase
count-erase u v [] = ground arith
count-erase u v (x ∷ xs) = ground (arith, count-erase u v xs)

length-erase :
    (v : ℕ) (xs : List ℕ) → length (erase v xs) + (if count v xs == 0 then 0 else 1) ≡ length xs
unfolding count erase
length-erase v [] = ground arith
length-erase v (x ∷ xs) = ground (arith, length-erase v xs)

count-pop_back :
    (v x : ℕ) (xs : List ℕ)
    → count v (pop_back x xs) + (if v == back x xs then 1 else 0) ≡ count v (x ∷ xs)
unfolding count pop_back back
count-pop_back v x [] = ground arith
count-pop_back v x (y ∷ ys) = ground (arith, count-pop_back v y ys)

length-pop_back : (x : ℕ) (xs : List ℕ) → length (pop_back x xs) ≡ length xs
unfolding pop_back
length-pop_back x [] = refl
length-pop_back x (y ∷ ys) = omega (arith, length-pop_back y ys)

flush_tlb-IsTlb : (n : ℕ) (s : Tlb) → IsTlb n (flush_tlb s)
unfolding flush_tlb count present
flush_tlb-IsTlb n s = record { queued = λ v. refl; bounded = omega arith }

-- Moving an address that has an entry to the front.
module _ (n v : ℕ) (s : Tlb) (ok : IsTlb n s) where
  entry_queued : (old : ℕ) → s.tlb v ≡ some old → count v s.lru_queue ≡ 1
  unfolding present
  entry_queued old e = ok.queued v ∙ ap present e

  front_queued :
      (phys old : ℕ)
      → s.tlb v ≡ some old
      → (u : ℕ) → count u (v ∷ erase v s.lru_queue) ≡ present (update s.tlb v (some phys) u)
  unfolding count present update
  front_queued phys old e u =
      grind (arith, count-erase u v s.lru_queue, ok.queued u, entry_queued old e)

  kept_queued :
      (old : ℕ)
      → s.tlb v ≡ some old
      → (u : ℕ) → count u (v ∷ erase v s.lru_queue) ≡ present (s.tlb u)
  unfolding count present
  kept_queued old e u = grind (arith, count-erase u v s.lru_queue, ok.queued u, entry_queued old e)

  front_bounded : (old : ℕ) → s.tlb v ≡ some old → length (v ∷ erase v s.lru_queue) ≤ n
  front_bounded old e = ground (arith, length-erase v s.lru_queue, entry_queued old e, ok.bounded)

  searched-IsTlb : (o : Option ℕ) → s.tlb v ≡ o → IsTlb n (searched o v s).1
  unfolding searched
  searched-IsTlb none e = record { queued = ok.queued; bounded = ok.bounded }
  searched-IsTlb (some old) e = record { queued = kept_queued old e; bounded = front_bounded old e }

-- Making room.
module _ (n : ℕ) (s : Tlb) (ok : IsTlb n s) where
  popped_queued :
      (x : ℕ) (xs : List ℕ)
      → s.lru_queue ≡ x ∷ xs
      → (u : ℕ) → count u (pop_back x xs) ≡ present (update s.tlb (back x xs) none u)
  unfolding present update
  popped_queued x xs e u = grind (arith, count-pop_back u x xs, ok.queued u, ap (count u) e)

  evicted-IsTlb : (q : List ℕ) → s.lru_queue ≡ q → IsTlb n (evicted q n s)
  unfolding evicted
  evicted-IsTlb [] e = ok
  evicted-IsTlb (x ∷ xs) e = elim (Bool-cases (length (x ∷ xs) == n)) [
    | inl full ↦
        rw full
          (record { queued = popped_queued x xs e; bounded = ground (arith, length-pop_back x xs) })
    | inr room ↦ rw room ok
  ]

  evicted-room : (q : List ℕ) → s.lru_queue ≡ q → 0 < n → length (evicted q n s).lru_queue < n
  unfolding evicted
  evicted-room [] e some_size = rw e some_size
  evicted-room (x ∷ xs) e some_size = ground (arith, length-pop_back x xs, ok.bounded, ap length e)

  evicted-none : (q : List ℕ) (v : ℕ) → s.tlb v ≡ none → (evicted q n s).tlb v ≡ none
  unfolding evicted update
  evicted-none [] v e = e
  evicted-none (x ∷ xs) v e = ground arith

module _ (n v phys : ℕ) (s : Tlb) (ok : IsTlb n s) where
  new_queued :
      s.tlb v ≡ none → (u : ℕ) → count u (v ∷ s.lru_queue) ≡ present (update s.tlb v (some phys) u)
  unfolding count present update
  new_queued e u =
      let absent : count v s.lru_queue ≡ 0 = ok.queued v ∙ ap present e in
      grind (arith, ok.queued u)

module _ (n v phys : ℕ) (s : Tlb) (ok : IsTlb n s) (some_size : 0 < n) where
  added-IsTlb : (o : Option ℕ) → s.tlb v ≡ o → IsTlb n (added o n v phys s)
  unfolding added
  added-IsTlb (some old) e = record {
    queued = front_queued n v s ok phys old e;
    bounded = front_bounded n v s ok old e;
  }
  added-IsTlb none e =
      let s' = evicted s.lru_queue n s in
      let ok' = evicted-IsTlb n s ok s.lru_queue refl in
      record {
        queued = new_queued n v phys s' ok' (evicted-none n s ok s.lru_queue v e);
        bounded = omega (arith, evicted-room n s ok s.lru_queue refl some_size);
      }

-- Every operation of the TLB keeps it well formed: each address with an entry is in the LRU queue
-- exactly once, no other address is, and the queue holds at most `n` addresses, for a size `n` above
-- zero.
pub tlb_invariant :
    (n : ℕ) (s : Tlb)
    → 0 < n
    → IsTlb n s
    → ((v : ℕ) → IsTlb n (search_tlb v s).1)
      × ((v phys : ℕ) → IsTlb n (add_to_tlb n v phys s))
      × IsTlb n (flush_tlb s)
unfolding search_tlb add_to_tlb
tlb_invariant n s some_size ok = (
  λ v. searched-IsTlb n v s ok (s.tlb v) refl,
  λ v phys. added-IsTlb n v phys s ok some_size (s.tlb v) refl,
  flush_tlb-IsTlb n s,
)

added-find : (o : Option ℕ) (n v phys : ℕ) (s : Tlb) → (added o n v phys s).tlb v ≡ some phys
unfolding added update
added-find none n v phys s = ground arith
added-find (some old) n v phys s = ground arith

-- A search right after an insertion hits, gives the inserted address and puts `v` at the front of
-- the LRU queue.
pub search_tlb-add_to_tlb :
    (n v phys : ℕ) (s : Tlb)
    → let found = search_tlb v (add_to_tlb n v phys s) in
      (found.0 ≡ phys)
      × (found.1.tlb_hits ≡ ((add_to_tlb n v phys s).tlb_hits + 1) % 2 ^ 64)
      × (found.1.tlb v ≡ some phys)
unfolding search_tlb searched add_to_tlb
search_tlb-add_to_tlb n v phys s =
    let found = added-find (s.tlb v) n v phys s in rw found (refl, refl, found)
