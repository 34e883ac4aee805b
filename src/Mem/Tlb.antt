-- ===== src/Mem/Tlb.antt =====
-- `FlushTLB`, `SearchTLB` and `AddToTLB` of src/RevMem.cc. The `unordered_map` is a function from
-- addresses, and the list iterator that an entry holds is the place of its address in the queue.
pub mod Laws
use rev.Prelude.{
  ℕ, suc, ◌+◌, ◌^◌, ◌%◌, List, [], ◌∷◌, Option, some, none, ◌==◌, if◌then◌else◌, length,
}

-- `_INVALID_ADDR_`.
abbrev pub invalid_addr : ℕ
invalid_addr = 0xFFFFFFFFFFFFFFFF

pub record Tlb : Type 0 where
  pub tlb : ℕ → Option ℕ
  pub lru_queue : List ℕ
  pub tlb_hits : ℕ
  pub tlb_misses : ℕ

-- `LRUQueue.erase` at the entry of `v`.
unfoldable pub erase : ℕ → List ℕ → List ℕ
erase v [] = []
erase v (x ∷ xs) = let rest = erase v xs in if v == x then xs else x ∷ rest

-- `LRUQueue.back()` and `LRUQueue.pop_back()`.
unfoldable pub back : ℕ → List ℕ → ℕ
back x [] = x
back x (y ∷ ys) = back y ys

unfoldable pub pop_back : ℕ → List ℕ → List ℕ
pop_back x [] = []
pop_back x (y ∷ ys) = x ∷ pop_back y ys

-- `TLB[v] = entry` and `TLB.erase(v)`.
unfoldable pub update : (ℕ → Option ℕ) → ℕ → Option ℕ → ℕ → Option ℕ
update tlb v entry u = if u == v then entry else tlb u

unfoldable pub flush_tlb : Tlb → Tlb
flush_tlb s = record s { tlb = λ _. none; lru_queue = [] }

-- `SearchTLB`, by what `TLB.find` gives.
unfoldable pub searched : Option ℕ → ℕ → Tlb → ℕ × Tlb
searched none v s = (invalid_addr, record s { tlb_misses = (s.tlb_misses + 1) % 2 ^ 64 })
searched (some phys) v s =
    (phys, record s { tlb_hits = (s.tlb_hits + 1) % 2 ^ 64; lru_queue = v ∷ erase v s.lru_queue })

unfoldable pub search_tlb : ℕ → Tlb → ℕ × Tlb
unfolding searched
search_tlb v s = searched (s.tlb v) v s

-- The eviction where `LRUQueue.size() == tlbSize`, by the queue. An empty queue has no back.
unfoldable pub evicted : List ℕ → ℕ → Tlb → Tlb
evicted [] tlb_size s = s
evicted (x ∷ xs) tlb_size s =
    if length (x ∷ xs) == tlb_size
    then record s { tlb = update s.tlb (back x xs) none; lru_queue = pop_back x xs }
    else s

-- `AddToTLB`, by what `TLB.find` gives.
unfoldable pub added : Option ℕ → ℕ → ℕ → ℕ → Tlb → Tlb
unfolding evicted
added (some old) tlb_size v phys s = record s {
  tlb = update s.tlb v (some phys);
  lru_queue = v ∷ erase v s.lru_queue;
}
added none tlb_size v phys s =
    let s' = evicted s.lru_queue tlb_size s in
    record s' { tlb = update s'.tlb v (some phys); lru_queue = v ∷ s'.lru_queue }

unfoldable pub add_to_tlb : ℕ → ℕ → ℕ → Tlb → Tlb
unfolding added
add_to_tlb tlb_size v phys s = added (s.tlb v) tlb_size v phys s
