-- ===== src/Prefetcher.antt =====
-- src/RevPrefetcher.cc: the streams of instruction words and their fetches, over the memory port.
-- The reference `Inst` is read only where `Fetched` is true, so an outcome has a word only there.
-- `depth` is the length of each stream.
pub mod Laws
pub mod Arrival
mod Tests
use rev.Prelude.{
  ℕ, zero, suc, ◌+◌, ◌-◌, ◌*◌, ◌/◌, ◌%◌, ◌^◌, bit_and, bit_or, Bool, true, false, List, [], ◌∷◌,
  ◌++◌, Option, none, some, ◌>>=◌, ◌==◌, ◌!=◌, ◌&&◌, leb, ltb, if◌then◌else◌, length,
}
use rev.Word.{u32, u64}
use rev.RegFile.{RevFeature}
use rev.MemPort.{MemPort}

-- `REVPREF_INIT_ADDR`.
abbrev pub init_addr : ℕ
init_addr = 0xdeadbeef

-- `baseAddr[i]` and `iStack[i]`.
pub record Stream : Type 0 where
  pub base_addr : ℕ
  pub i_stack : ℕ → ℕ

pub record RevPrefetcher {ℓ} (Mem : Type ℓ) : Type ℓ where
  pub streams : List Stream
  pub mem : Mem

-- The result of `InstFetch`: false, or true with `Fetched` false or true.
pub data Fetch : Type 0 where
  failed stalled : Fetch
  fetched : ℕ → Fetch

-- What `FetchUpper` finds in the streams.
pub data Upper : Type 0 where
  bad filling missing : Upper
  upper : ℕ → Upper

-- `DeleteStream`.
unfoldable pub drop_at : ℕ → List Stream → List Stream
drop_at i [] = []
drop_at zero (st ∷ sts) = sts
drop_at (suc i) (st ∷ sts) = st ∷ drop_at i sts

unfoldable pub delete_stream {ℓ} : {Mem : Type ℓ} → ℕ → RevPrefetcher Mem → RevPrefetcher Mem
unfolding drop_at
delete_stream i s =
    if ltb (length s.streams - 1) i then s else record s { streams = drop_at i s.streams }

module _ (depth : ℕ) where
  -- `(Addr >= baseAddr[i]) && (Addr < lastAddr)`.
  abbrev pub holds : Stream → ℕ → Bool
  holds st addr = leb st.base_addr addr && ltb addr (u64 (st.base_addr + u32 (depth * 4)))

  abbrev pub offset : Stream → ℕ → ℕ
  offset st addr = if addr == st.base_addr then 0 else u32 ((addr - st.base_addr) / 4)

  -- `Addr == (baseAddr[i]+(Off*4))`.
  abbrev pub at_word : Stream → ℕ → Bool
  at_word st addr = addr == u64 (st.base_addr + u32 (offset st addr * 4))

  -- The first stream that holds the address, with its place.
  unfoldable pub search : ℕ → ℕ → List Stream → Option (ℕ × Stream)
  search addr i [] = none
  search addr i (st ∷ sts) =
      let rest = search addr (i + 1) sts in if holds st addr then some (i, st) else rest

  -- The loop of `FetchUpper`: an address inside a word goes on to the next stream.
  unfoldable pub scan_upper : ℕ → List Stream → Upper
  scan_upper addr [] = missing
  scan_upper addr (st ∷ sts) =
      let rest = scan_upper addr sts in
      let word = st.i_stack (offset st addr) in
      if holds st addr
      then (if ltb (depth - 1) (offset st addr)
          then bad
          else if word == init_addr
          then filling
          else if at_word st addr
          then upper (u32 (word * 2 ^ 16))
          else rest)
      else rest

  module _ {ℓ} {Mem : Type ℓ} (port : MemPort Mem) (f : RevFeature) where
    -- The loop of `Fill` over the words of the new stream.
    unfoldable pub fill_words : ℕ → ℕ → ℕ → (ℕ → ℕ) → Mem → Option (Mem × (ℕ → ℕ))
    fill_words zero y addr words m = some (m, words)
    fill_words (suc rounds) y addr words m = do
      (m', word) ← port.read_val f.hart (u64 (addr + u32 (y * 4))) 4 m
      fill_words rounds (y + 1) addr (λ k. if k == y then word else words k) m'

    unfoldable pub fill : ℕ → RevPrefetcher Mem → Option (RevPrefetcher Mem)
    unfolding fill_words
    fill addr s = do
      let base = if addr % 4 != 0 then bit_and addr 0xFFFFFFFFFFFFFFFC else addr
      (m', words) ← fill_words depth 0 base (λ _. init_addr) s.mem
      some (record {
        streams = s.streams ++ (record { base_addr = base; i_stack = words } ∷ []);
        mem = m';
      })

    -- `FetchUpper`, by what its loop finds.
    unfoldable pub settle_upper : Upper → ℕ → RevPrefetcher Mem → Option (Fetch × RevPrefetcher Mem)
    unfolding fill
    settle_upper bad addr s = some (failed, s)
    settle_upper filling addr s = some (stalled, s)
    settle_upper missing addr s = fill addr s >>= λ s'. some (stalled, s')
    settle_upper (upper u) addr s = some (fetched u, s)

    unfoldable pub fetch_upper : ℕ → RevPrefetcher Mem → Option (Fetch × RevPrefetcher Mem)
    unfolding settle_upper scan_upper
    fetch_upper addr s = settle_upper (scan_upper addr s.streams) addr s

    -- The end of `InstFetch`: behind its last word a stream is deleted.
    unfoldable pub finish : ℕ → ℕ → ℕ → ℕ → RevPrefetcher Mem → Option (Fetch × RevPrefetcher Mem)
    unfolding fill delete_stream
    finish i off addr inst s =
        let next = fill (u64 (addr + 2)) (delete_stream i s) >>= λ s'. some (fetched inst, s') in
        if off == depth - 1 then next else some (fetched inst, s)

    -- An instruction across two words, by what `FetchUpper` gives.
    unfoldable pub join :
        ℕ → ℕ → ℕ → ℕ → Fetch × RevPrefetcher Mem → Option (Fetch × RevPrefetcher Mem)
    unfolding finish
    join i off addr low (failed, s) = some (failed, s)
    join i off addr low (stalled, s) = some (stalled, s)
    join i off addr low (fetched u, s) = finish i off addr (bit_or low u) s

    -- `InstFetch`, by the first stream that holds the address.
    unfoldable pub fetch_from :
        Option (ℕ × Stream) → ℕ → RevPrefetcher Mem → Option (Fetch × RevPrefetcher Mem)
    unfolding fill finish join fetch_upper
    fetch_from none addr s = fill addr s >>= λ s'. some (stalled, s')
    fetch_from (some (i, st)) addr s =
        let off = offset st addr in
        let word = st.i_stack off in
        let whole = finish i off addr word s in
        let halves = fetch_upper (u64 (addr + 2)) s >>= join i off addr (word / 2 ^ 16) in
        if ltb (depth - 1) off
        then some (failed, s)
        else if word == init_addr
        then some (stalled, s)
        else if at_word st addr
        then whole
        else halves

    unfoldable pub inst_fetch : ℕ → RevPrefetcher Mem → Option (Fetch × RevPrefetcher Mem)
    unfolding fetch_from search
    inst_fetch addr s = fetch_from (search addr 0 s.streams) addr s

    -- What `IsAvail` makes of the upper half.
    unfoldable pub upper_available : Fetch → Bool
    upper_available failed = false
    upper_available stalled = false
    upper_available (fetched u) = true

    -- `IsAvail`, by the first stream that holds the address.
    unfoldable pub available_in :
        Option (ℕ × Stream) → ℕ → RevPrefetcher Mem → Option (Bool × RevPrefetcher Mem)
    unfolding fill fetch_upper upper_available
    available_in none addr s = fill addr s >>= λ s'. some (false, s')
    available_in (some (i, st)) addr s =
        let off = offset st addr in
        let halves = fetch_upper (u64 (addr + 2)) s >>= λ r. some (upper_available r.0, r.1) in
        if ltb (depth - 1) off
        then some (false, s)
        else if st.i_stack off == init_addr
        then some (false, s)
        else if ltb (u64 (u64 (st.base_addr + u32 (depth * 4)) + 2 ^ 64 - addr)) 4
        then halves
        else some (true, s)

    unfoldable pub is_avail : ℕ → RevPrefetcher Mem → Option (Bool × RevPrefetcher Mem)
    unfolding available_in search
    is_avail addr s = available_in (search addr 0 s.streams) addr s
