-- ===== src/Prefetcher/Arrival.antt =====
-- A word that is asked for twice arrives.
use rev.Prelude.{
  ℕ, ◌+◌, ◌-◌, ◌*◌, ◌%◌, ◌^◌, ◌<◌, ◌≤◌, ◌≡◌, ◌≢◌, ◌⊎◌, inl, inr, refl, arith, Bool-cases, true,
  false, List, [], ◌∷◌, ◌++◌, Option, none, some, ◌>>=◌, ◌==◌, ne→==, ltb,
}
use rev.Word.{u64}
use rev.RegFile.{RevFeature}
use rev.MemPort.{MemPort}
use rev.Prefetcher.{
  init_addr, Stream, RevPrefetcher, Fetch, stalled, fetched, delete_stream, holds, offset, at_word,
  search, fill, finish, fetch_from, inst_fetch,
}
use rev.Prefetcher.Laws.{
  IsStream, IsPrefetcher, FillBy, All-snoc, delete-IsPrefetcher, fill_lem, aligned_word, offset-lt,
  at_word_lem, IsFound, search-IsFound,
}

-- A stream at the end that holds the address is found where no other is.
search-snoc :
    (depth addr i : ℕ) (sts : List Stream) (st : Stream)
    → search depth addr i sts ≡ none
    → holds depth st addr ≡ true
    → (k : ℕ) × (search depth addr i (sts ++ (st ∷ [])) ≡ some (k, st))
unfolding search
search-snoc depth addr i [] st e held = (i, rw held refl)
search-snoc depth addr i (x ∷ sts) st e held = elim (Bool-cases (holds depth x addr)) [
  | inl here ↦ absurd (ground (arith, e, here))
  | inr passed ↦
      let (k, found) = search-snoc depth addr (i + 1) sts st (rw passed at e) held in
      (k, rw passed found)
]

module _ {ℓ} {Mem : Type ℓ} (depth : ℕ) (code : ℕ → ℕ) (positive : 0 < depth)
    (short : depth * 4 < 2 ^ 32) (port : MemPort Mem) (f : RevFeature) (IsCode : Mem → Type 0)
    (low high : ℕ) (small : high < 2 ^ 64)
    (reads : (a : ℕ) (m : Mem)
      → IsCode m
      → low ≤ a
      → a + 4 ≤ high
      → (m' : Mem) × (port.read_val f.hart a 4 m ≡ some (m', code a)) × IsCode m')
    (addr : ℕ) (aligned : addr % 4 ≡ 0) (lower : low ≤ addr) (room : addr + 2 + depth * 4 ≤ high)
    (other : code addr ≢ init_addr) where
  -- The word arrives at this fetch.
  Arrives : Option (Fetch × RevPrefetcher Mem) → Type ℓ
  Arrives o = (s' : RevPrefetcher Mem) × (o ≡ some (fetched (code addr), s'))

  refilled-Arrives :
      (s : RevPrefetcher Mem)
      → FillBy depth code positive short port f IsCode low high small reads (addr + 2) s
      → Arrives (fill depth port f (addr + 2) s >>= λ s'. some (fetched (code addr), s'))
  unfolding Arrives FillBy
  refilled-Arrives s (st, m', e, h, held, ok') =
      (record { streams = s.streams ++ (st ∷ []); mem = m' }, rw e refl)

  finish-Arrives :
      (i off : ℕ) (s : RevPrefetcher Mem)
      → IsPrefetcher depth code positive short port f IsCode low high small reads s
      → Arrives (finish depth port f i off addr (code addr) s)
  unfolding finish Arrives
  finish-Arrives i off s ok =
      let next : u64 (addr + 2) ≡ addr + 2 = omega (arith, room, small) in
      let s1 = delete_stream i s in
      elim (Bool-cases (off == depth - 1)) [
        | inl last ↦
            rw (last, next)
              (refilled-Arrives s1 (
                fill_lem depth code positive short port f IsCode low high small reads (addr + 2) s1
                  ((delete-IsPrefetcher depth code positive short port f IsCode low high small reads
                    i s ok).1)
                  (omega (arith, lower, aligned)) room))
        | inr before ↦ rw before (s, refl)
      ]

  -- It does where a stream holds the address.
  held-Arrives :
      (i : ℕ) (st : Stream) (s : RevPrefetcher Mem)
      → IsPrefetcher depth code positive short port f IsCode low high small reads s
      → IsStream depth code st
      → holds depth st addr ≡ true
      → Arrives (fetch_from depth port f (some (i, st)) addr s)
  unfolding fetch_from
  held-Arrives i st s ok h held =
      let off = offset depth st addr in
      let inside : ltb (depth - 1) off ≡ false =
        ground (arith, offset-lt depth code positive short st h addr held) in
      let word = aligned_word depth code positive short st h addr held aligned in
      let there : (code addr == init_addr) ≡ false = ne→== (code addr) init_addr other in
      let here : at_word depth st addr ≡ true =
        ground (arith, at_word_lem depth code positive short st h addr held, aligned) in
      rw (inside, word, there, here) (finish-Arrives i off s ok)

  -- It does at the fetch after the fill.
  filled-Arrives :
      (s : RevPrefetcher Mem) (st : Stream) (m' : Mem)
      → search depth addr 0 s.streams ≡ none
      → IsPrefetcher depth code positive short port f IsCode low high small reads
          (record { streams = s.streams ++ (st ∷ []); mem = m' })
      → IsStream depth code st
      → holds depth st addr ≡ true
      → Arrives
          (inst_fetch depth port f addr (record { streams = s.streams ++ (st ∷ []); mem = m' }))
  unfolding inst_fetch
  filled-Arrives s st m' missed ok h held =
      let (k, found) = search-snoc depth addr 0 s.streams st missed held in
      rw found (held-Arrives k st (record { streams = s.streams ++ (st ∷ []); mem = m' }) ok h held)

  ArrivesBy : RevPrefetcher Mem → Type ℓ
  ArrivesBy s =
      Arrives (inst_fetch depth port f addr s)
      ⊎ ((s' : RevPrefetcher Mem) × (inst_fetch depth port f addr s ≡ some (stalled, s'))
          × Arrives (inst_fetch depth port f addr s'))

  missed-ArrivesBy :
      (s : RevPrefetcher Mem)
      → search depth addr 0 s.streams ≡ none
      → IsPrefetcher depth code positive short port f IsCode low high small reads s
      → FillBy depth code positive short port f IsCode low high small reads addr s
      → ArrivesBy s
  unfolding ArrivesBy inst_fetch FillBy fetch_from
  missed-ArrivesBy s missed ok (st, m', e, h, held, ok') = inr (
    record { streams = s.streams ++ (st ∷ []); mem = m' },
    rw (missed, e) refl,
    unfold inst_fetch in
        filled-Arrives s st m' missed
          (
            All-snoc depth code positive short port f IsCode low high small reads s.streams st
                (ok.0) h,
            ok',
          )
          h held,
  )

  found_cases :
      (o : Option (ℕ × Stream)) (s : RevPrefetcher Mem)
      → search depth addr 0 s.streams ≡ o
      → IsPrefetcher depth code positive short port f IsCode low high small reads s
      → IsFound depth code positive short port f IsCode low high small reads addr o
      → ArrivesBy s
  unfolding ArrivesBy inst_fetch IsFound
  found_cases none s e ok h = missed-ArrivesBy s e ok (
      fill_lem depth code positive short port f IsCode low high small reads addr s (ok.1)
        (omega (arith, lower, aligned)) (omega (arith, room)))
  found_cases (some (i, st)) s e ok (h, held) = inl (rw e (held-Arrives i st s ok h held))

  -- InstFetch of an aligned address fetches its word at the first or, after a stall, at the second
  -- call, where the word is not the mark of an unfilled entry (0xdeadbeef), the memory holds the code
  -- from `low` to `high`, a read of four bytes there succeeds with the word of the code and keeps the
  -- code in place, and the words of a stream that would begin at the address or two bytes behind it
  -- lie there. The memory ends below 2^64, and a stream has at least one word and fewer than 2^30.
  pub inst_fetch-arrives :
      (s : RevPrefetcher Mem)
      → IsPrefetcher depth code positive short port f IsCode low high small reads s
      → ((s' : RevPrefetcher Mem) × (inst_fetch depth port f addr s
            ≡ some (fetched (code addr), s')))
        ⊎ ((s' : RevPrefetcher Mem) × (s'' : RevPrefetcher Mem) × (inst_fetch depth port f addr s
              ≡ some (stalled, s'))
            × (inst_fetch depth port f addr s' ≡ some (fetched (code addr), s'')))
  unfolding ArrivesBy Arrives
  inst_fetch-arrives s ok =
      elim (found_cases (search depth addr 0 s.streams) s refl ok (
        search-IsFound depth code positive short port f IsCode low high small reads addr 0 s.streams
          (ok.0))) [
            | inl now ↦ inl now
            | inr (s', first, (s'', second)) ↦ inr (s', s'', first, second)
          ]
