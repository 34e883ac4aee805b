-- ===== src/Prefetcher/Laws.antt =====
-- A fetch gives the instruction in memory, and a missed word is there at the next fetch.
use rev.Prelude.{
  ℕ, zero, suc, ◌+◌, ◌-◌, ◌*◌, ◌/◌, ◌%◌, ◌^◌, ◌≤◌, ◌<◌, ◌≡◌, inl, inr, refl, ap, ◌∙◌, arith,
  bit_and, bit_or, Bool-cases, true, false, List, [], ◌∷◌, ◌++◌, Option, none, some, ◌>>=◌, ◌==◌,
  ◌!=◌, ltb, if◌then◌else◌, length, All,
}
use rev.Bits.{bit_and_field, bit_or_high}
use rev.Word.{u32, u64}
use rev.RegFile.{RevFeature}
use rev.MemPort.{MemPort}
use rev.Prefetcher.{
  init_addr, Stream, RevPrefetcher, Fetch, failed, stalled, fetched, Upper, bad, filling, missing,
  upper, drop_at, delete_stream, holds, offset, at_word, search, scan_upper, fill_words, fill,
  settle_upper, fetch_upper, finish, join, fetch_from, inst_fetch,
}

-- The instruction at an even address: a word, or the halves of two.
abbrev pub instruction : (ℕ → ℕ) → ℕ → ℕ
instruction code addr =
    if addr % 4 == 0
    then code addr
    else code (addr - 2) / 2 ^ 16 + code (addr + 2) % 2 ^ 16 * 2 ^ 16

module _ (depth : ℕ) (code : ℕ → ℕ) where
  -- A stream holds the words of the memory from its base on.
  pub record IsStream (st : Stream) : Type 0 where
    pub aligned : st.base_addr % 4 ≡ 0
    pub room : st.base_addr + depth * 4 < 2 ^ 64
    pub filled : (y : ℕ) → y < depth → st.i_stack y ≡ code (st.base_addr + y * 4)

  -- What an outcome says of the instruction that was asked for.
  unfoldable pub IsRight : Fetch → ℕ → Type 0
  IsRight failed w = ⊥
  IsRight stalled w = Unit
  IsRight (fetched v) w = v ≡ w

  module _ (positive : 0 < depth) (short : depth * 4 < 2 ^ 32) where
    module _ (st : Stream) (h : IsStream st) (addr : ℕ) (held : holds depth st addr ≡ true) where
      offset_lem : (offset depth st addr ≡ (addr - st.base_addr) / 4)
      offset_lem = ground (arith, held, short, h.room)

      pub offset-lt : offset depth st addr < depth
      offset-lt = ground (arith, held, short, h.room, offset_lem)

      pub aligned_word : addr % 4 ≡ 0 → st.i_stack (offset depth st addr) ≡ code addr
      aligned_word even =
          let place : st.base_addr + offset depth st addr * 4 ≡ addr =
            ground (arith, held, short, h.room, h.aligned, offset_lem, even) in
          h.filled (offset depth st addr) offset-lt ∙ ap code place

      inner_word : addr % 4 ≡ 2 → st.i_stack (offset depth st addr) ≡ code (addr - 2)
      inner_word odd =
          let place : st.base_addr + offset depth st addr * 4 ≡ addr - 2 =
            ground (arith, held, short, h.room, h.aligned, offset_lem, odd) in
          h.filled (offset depth st addr) offset-lt ∙ ap code place

      pub at_word_lem : addr % 2 ≡ 0 → at_word depth st addr ≡ (addr % 4 == 0)
      at_word_lem even = ground (arith, held, short, h.room, h.aligned, offset_lem, even)

    module _ {ℓ} {Mem : Type ℓ} (port : MemPort Mem) (f : RevFeature) (IsCode : Mem → Type 0)
        (low high : ℕ) (small : high < 2 ^ 64)
        (reads : (a : ℕ) (m : Mem)
          → IsCode m
          → low ≤ a
          → a + 4 ≤ high
          → (m' : Mem) × (port.read_val f.hart a 4 m ≡ some (m', code a)) × IsCode m') where
      -- The streams hold words of the memory, which holds the code.
      abbrev pub IsPrefetcher : RevPrefetcher Mem → Type 0
      IsPrefetcher s = All IsStream s.streams × IsCode s.mem

      WordsBy : ℕ → ℕ → ℕ → (ℕ → ℕ) → Mem → Type ℓ
      WordsBy rounds y addr words m =
          (m' : Mem) × (words' : ℕ → ℕ) × (fill_words depth port f rounds y addr words m
            ≡ some (m', words'))
          × ((k : ℕ) → k < y + rounds → words' k ≡ code (addr + k * 4))
          × IsCode m'

      fill_words_lem :
          (rounds y addr : ℕ) (words : ℕ → ℕ) (m : Mem)
          → IsCode m
          → low ≤ addr
          → y + rounds ≤ depth
          → addr + depth * 4 ≤ high
          → ((k : ℕ) → k < y → words k ≡ code (addr + k * 4))
          → WordsBy rounds y addr words m
      unfolding fill_words WordsBy
      fill_words_lem zero y addr words m ok lower hr room done =
          (m, words, refl, (λ k h. done k (omega (arith, h))), ok)
      fill_words_lem (suc rounds) y addr words m ok lower hr room done =
          let place : u64 (addr + u32 (y * 4)) ≡ addr + y * 4 =
            omega (arith, hr, room, short, small) in
          let (m1, read, ok1) =
            reads (addr + y * 4) m ok (omega (arith, lower)) (omega (arith, hr, room)) in
          let (m', words', e, all, ok') =
            fill_words_lem rounds (y + 1) addr
              (λ k. if k == y then code (addr + y * 4) else words k) m1 ok1 lower
              (omega (arith, hr)) room (more addr y words done) in
          let read' : port.read_val f.hart (u64 (addr + u32 (y * 4))) 4 m
              ≡ some (m1, code (addr + y * 4)) =
            ap (λ a. port.read_val f.hart a 4 m) place ∙ read in
          (
            m',
            words',
            ap (λ o. o >>= next y addr words) read' ∙ e,
            (λ k h. all k (omega (arith, h))),
            ok',
          )
        where
          next : (y addr : ℕ) (words : ℕ → ℕ) → Mem × ℕ → Option (Mem × (ℕ → ℕ))
          next y addr words (m', word) =
              fill_words depth port f rounds (y + 1) addr (λ k. if k == y then word else words k) m'

          more :
              (addr y : ℕ) (words : ℕ → ℕ)
              → ((k : ℕ) → k < y → words k ≡ code (addr + k * 4))
              → (k : ℕ) → k < y + 1
              → (if k == y then code (addr + y * 4) else words k) ≡ code (addr + k * 4)
          more addr y words done k h = elim (Bool-cases (k == y)) [
            | inl last ↦ let same : k ≡ y = ground (arith, last) in rw (last, same) refl
            | inr other ↦ rw other (done k (ground (arith, other, h)))
          ]

      -- A fill adds a stream with the words of the memory that holds the address.
      unfoldable pub FillBy : ℕ → RevPrefetcher Mem → Type ℓ
      FillBy addr s =
          (st : Stream) × (m' : Mem) × (fill depth port f addr s
            ≡ some (record { streams = s.streams ++ (st ∷ []); mem = m' }))
          × IsStream st
          × (holds depth st addr ≡ true)
          × IsCode m'

      fill_from :
          (addr : ℕ) (s : RevPrefetcher Mem)
          → low + addr % 4 ≤ addr
          → addr + depth * 4 ≤ high
          → WordsBy depth 0 (addr - addr % 4) (λ _. init_addr) s.mem
          → FillBy addr s
      unfolding fill FillBy WordsBy
      fill_from addr s lower room (m', words, e, all, ok') =
          let base : (if addr % 4 != 0 then bit_and addr 0xFFFFFFFFFFFFFFFC else addr)
              ≡ addr - addr % 4 =
            ground (arith, bit_and_field 62 2 addr, room, small) in
          (
            record { base_addr = addr - addr % 4; i_stack = words },
            m',
            rw (base, e) refl,
            record {
              aligned = omega arith;
              room = omega (arith, room, small);
              filled = λ y h. all y (omega (arith, h));
            },
            ground (arith, positive, short, room, small),
            ok',
          )

      pub fill_lem :
          (addr : ℕ) (s : RevPrefetcher Mem)
          → IsCode s.mem
          → low + addr % 4 ≤ addr
          → addr + depth * 4 ≤ high
          → FillBy addr s
      fill_lem addr s ok lower room = fill_from addr s lower room (
          fill_words_lem depth 0 (addr - addr % 4) (λ _. init_addr) s.mem ok (omega (arith, lower))
            (omega arith) (omega (arith, room)) (λ k h. absurd (omega (arith, h))))

      -- A result, the state it leaves, and what it says of the instruction `w`.
      RightBy : ℕ → Option (Fetch × RevPrefetcher Mem) → Type ℓ
      RightBy w o =
          (r : Fetch) × (s' : RevPrefetcher Mem) × (o ≡ some (r, s'))
          × IsPrefetcher s'
          × IsRight r w

      pub All-snoc :
          (sts : List Stream) (st : Stream)
          → All IsStream sts
          → IsStream st
          → All IsStream (sts ++ (st ∷ []))
      All-snoc [] st hs h = (h, tt)
      All-snoc (x ∷ sts) st (hx, hs) h = (hx, All-snoc sts st hs h)

      All-drop_at : (i : ℕ) (sts : List Stream) → All IsStream sts → All IsStream (drop_at i sts)
      unfolding drop_at
      All-drop_at i [] hs = tt
      All-drop_at zero (st ∷ sts) (h, hs) = hs
      All-drop_at (suc i) (st ∷ sts) (h, hs) = (h, All-drop_at i sts hs)

      -- A fill in front of an outcome that is right.
      fill-RightBy :
          (addr w : ℕ) (r : Fetch) (s : RevPrefetcher Mem)
          → IsPrefetcher s
          → IsRight r w
          → FillBy addr s
          → RightBy w (fill depth port f addr s >>= λ s'. some (r, s'))
      unfolding FillBy RightBy
      fill-RightBy addr w r s ok right (st, m', e, h, held, ok') = (
        r,
        record { streams = s.streams ++ (st ∷ []); mem = m' },
        rw e refl,
        (All-snoc s.streams st (ok.0) h, ok'),
        right,
      )

      pub delete-IsPrefetcher :
          (i : ℕ) (s : RevPrefetcher Mem) → IsPrefetcher s → IsPrefetcher (delete_stream i s)
      unfolding delete_stream
      delete-IsPrefetcher i s (ok, good) = elim (Bool-cases (ltb (length s.streams - 1) i)) [
        | inl none_such ↦ rw none_such (ok, good)
        | inr there ↦ rw there (All-drop_at i s.streams ok, good)
      ]

      finish-RightBy :
          (i off addr inst w : ℕ) (s : RevPrefetcher Mem)
          → IsPrefetcher s
          → inst ≡ w
          → low + addr % 4 ≤ addr
          → addr + 2 + depth * 4 ≤ high
          → RightBy w (finish depth port f i off addr inst s)
      unfolding finish RightBy IsRight
      finish-RightBy i off addr inst w s ok same lower room =
          let next : u64 (addr + 2) ≡ addr + 2 = omega (arith, room, small) in
          let s1 = delete_stream i s in
          let ok1 = delete-IsPrefetcher i s ok in
          elim (Bool-cases (off == depth - 1)) [
            | inl last ↦
                rw (last, next)
                  (fill-RightBy (addr + 2) w (fetched inst) s1 ok1 same
                    (fill_lem (addr + 2) s1 (ok1.1) (omega (arith, lower)) room))
            | inr other ↦ rw other (fetched inst, s, refl, ok, same)
          ]

      -- What the loop of FetchUpper says of the word at an aligned address.
      IsUpper : Upper → ℕ → Type 0
      IsUpper bad u = ⊥
      IsUpper filling u = Unit
      IsUpper missing u = Unit
      IsUpper (upper v) u = v ≡ u

      scan_upper-IsUpper :
          (addr : ℕ) (sts : List Stream)
          → All IsStream sts
          → addr % 4 ≡ 0
          → IsUpper (scan_upper depth addr sts) (u32 (code addr * 2 ^ 16))
      unfolding scan_upper IsUpper
      scan_upper-IsUpper addr [] hs even = tt
      scan_upper-IsUpper addr (st ∷ sts) (h, hs) even = elim (Bool-cases (holds depth st addr)) [
        | inr passed ↦ rw passed (scan_upper-IsUpper addr sts hs even)
        | inl held ↦
            let below = offset-lt st h addr held in
            let word = aligned_word st h addr held even in
            let inside : ltb (depth - 1) (offset depth st addr) ≡ false = ground (arith, below) in
            let whole : at_word depth st addr ≡ true =
              ground (arith, at_word_lem st h addr held, even) in
            elim (Bool-cases (code addr == init_addr)) [
              | inl unfilled ↦ rw (held, inside, word, unfilled) tt
              | inr there ↦ rw (held, inside, word, there, whole) refl
            ]
      ]

      settle_upper-RightBy :
          (o : Upper) (addr u : ℕ) (s : RevPrefetcher Mem)
          → IsPrefetcher s
          → low + addr % 4 ≤ addr
          → addr + depth * 4 ≤ high
          → IsUpper o u
          → RightBy u (settle_upper depth port f o addr s)
      unfolding settle_upper IsUpper RightBy IsRight
      settle_upper-RightBy bad addr u s ok lower room h = elim h [ ]
      settle_upper-RightBy filling addr u s ok lower room h = (stalled, s, refl, ok, tt)
      settle_upper-RightBy missing addr u s ok lower room h =
          fill-RightBy addr u stalled s ok tt (fill_lem addr s (ok.1) lower room)
      settle_upper-RightBy (upper v) addr u s ok lower room h = (fetched v, s, refl, ok, h)

      -- FetchUpper at an aligned address.
      fetch_upper-RightBy :
          (addr : ℕ) (s : RevPrefetcher Mem)
          → IsPrefetcher s
          → addr % 4 ≡ 0
          → low ≤ addr
          → addr + depth * 4 ≤ high
          → RightBy (u32 (code addr * 2 ^ 16)) (fetch_upper depth port f addr s)
      unfolding fetch_upper
      fetch_upper-RightBy addr s ok even lower room =
          settle_upper-RightBy (scan_upper depth addr s.streams) addr (u32 (code addr * 2 ^ 16)) s
            ok (omega (arith, even, lower)) room (scan_upper-IsUpper addr s.streams (ok.0) even)

      join-RightBy :
          (i off addr low_half u w : ℕ) (o : Option (Fetch × RevPrefetcher Mem))
          → low + addr % 4 ≤ addr
          → addr + 2 + depth * 4 ≤ high
          → bit_or low_half u ≡ w
          → RightBy u o
          → RightBy w (o >>= join depth port f i off addr low_half)
      unfolding RightBy join IsRight
      join-RightBy i off addr low_half u w o lower room same (failed, s', e, ok, h) = elim h [ ]
      join-RightBy i off addr low_half u w o lower room same (stalled, s', e, ok, h) =
          (stalled, s', rw e refl, ok, tt)
      join-RightBy i off addr low_half u w o lower room same (fetched v, s', e, ok, h) = rw e (
          finish-RightBy i off addr (bit_or low_half v) w s' ok (ap (bit_or low_half) h ∙ same)
            lower room)

      -- The first stream that holds the address.
      unfoldable pub IsFound : ℕ → Option (ℕ × Stream) → Type 0
      IsFound addr none = Unit
      IsFound addr (some r) = IsStream r.1 × (holds depth r.1 addr ≡ true)

      pub search-IsFound :
          (addr i : ℕ) (sts : List Stream)
          → All IsStream sts
          → IsFound addr (search depth addr i sts)
      unfolding search IsFound
      search-IsFound addr i [] hs = tt
      search-IsFound addr i (st ∷ sts) (h, hs) = elim (Bool-cases (holds depth st addr)) [
        | inl held ↦ rw held (h, held)
        | inr passed ↦ rw passed (search-IsFound addr (i + 1) sts hs)
      ]

      module _ (fits : (a : ℕ) → code a < 2 ^ 32) (addr : ℕ) (even : addr % 2 ≡ 0)
          (lower : low + addr % 4 ≤ addr) (room : addr + 2 + depth * 4 ≤ high) where
        halves :
            addr % 4 ≡ 2
            → bit_or (code (addr - 2) / 2 ^ 16) (u32 (code (addr + 2) * 2 ^ 16))
              ≡ instruction code addr
        halves odd = ground (
          arith,
          odd,
          fits (addr - 2),
          bit_or_high 16 (code (addr + 2) % 2 ^ 16) (code (addr - 2) / 2 ^ 16),
        )

        found-RightBy :
            (i : ℕ) (st : Stream) (s : RevPrefetcher Mem)
            → IsPrefetcher s
            → IsStream st
            → holds depth st addr ≡ true
            → RightBy (instruction code addr) (fetch_from depth port f (some (i, st)) addr s)
        unfolding fetch_from RightBy IsRight
        found-RightBy i st s ok h held =
            let off = offset depth st addr in
            let inside : ltb (depth - 1) off ≡ false = ground (arith, offset-lt st h addr held) in
            elim (Bool-cases (st.i_stack off == init_addr)) [
              | inl unfilled ↦ rw (inside, unfilled) (stalled, s, refl, ok, tt)
              | inr there ↦ elim (Bool-cases (addr % 4 == 0)) [
                | inl whole ↦
                    let here : at_word depth st addr ≡ true =
                      at_word_lem st h addr held even ∙ whole in
                    let word : st.i_stack off ≡ instruction code addr =
                      rw whole (aligned_word st h addr held (ground arith)) in
                    rw (inside, there, here)
                      (finish-RightBy i off addr (st.i_stack off) _ s ok word lower room)
                | inr half ↦
                    let odd : addr % 4 ≡ 2 = ground (arith, half, even) in
                    let here : at_word depth st addr ≡ false =
                      at_word_lem st h addr held even ∙ half in
                    let next : u64 (addr + 2) ≡ addr + 2 = omega (arith, room, small) in
                    rw (inside, there, here, next, inner_word st h addr held odd)
                      (join-RightBy i off addr (code (addr - 2) / 2 ^ 16)
                        (u32 (code (addr + 2) * 2 ^ 16)) _ _ lower room (halves odd)
                        (fetch_upper-RightBy (addr + 2) s ok (omega (arith, odd))
                          (omega (arith, lower)) room))
              ]
            ]

        fetch_from-RightBy :
            (o : Option (ℕ × Stream)) (s : RevPrefetcher Mem)
            → IsPrefetcher s
            → IsFound addr o
            → RightBy (instruction code addr) (fetch_from depth port f o addr s)
        unfolding IsFound fetch_from IsRight
        fetch_from-RightBy none s ok h =
            fill-RightBy addr (instruction code addr) stalled s ok tt
              (fill_lem addr s (ok.1) lower (omega (arith, room)))
        fetch_from-RightBy (some (i, st)) s ok (h, held) = found-RightBy i st s ok h held

        -- Where the memory holds the code, words of 32 bits, from `low` to `high`, a read of four
        -- bytes there succeeds with the word of the code and keeps the code in place, and the words of
        -- a stream that would begin at the address or two bytes behind it lie there, InstFetch never
        -- fails, and the word that it fetches is the instruction in memory, also across two words and
        -- two streams; the streams then hold words of the memory again, and the memory the code. The
        -- address is even, the memory ends below 2^64, and a stream has at least one word and fewer
        -- than 2^30.
        pub inst_fetch-IsRight :
            (s : RevPrefetcher Mem)
            → IsPrefetcher s
            → (r : Fetch) × (s' : RevPrefetcher Mem) × (inst_fetch depth port f addr s
                ≡ some (r, s'))
              × IsPrefetcher s'
              × IsRight r (instruction code addr)
        unfolding inst_fetch RightBy
        inst_fetch-IsRight s ok =
            fetch_from-RightBy (search depth addr 0 s.streams) s ok
              (search-IsFound addr 0 s.streams (ok.0))
