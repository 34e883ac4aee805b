-- ===== src/Mem/Bytes.antt =====
-- `ReadMem` and `WriteMem` of src/RevMem.cc without a memory controller, with the physical bytes,
-- the futures and the counters that they change. The prints of a write to 0xDEADBEEF are left out.
pub mod Copies
pub mod RoundTrip
use rev.Prelude.{
  ℕ, zero, suc, ◌+◌, ◌-◌, ◌*◌, ◌/◌, ◌%◌, ◌^◌, List, Option, some, none, ◌==◌, ltb, if◌then◌else◌,
  ◌>>=◌,
}
use rev.Word.{u32, u64, minus}
use rev.Mem.Tlb.{erase}
use rev.Mem.Paging.{RevMem, calc_phys_addr}

pub record Memory : Type 0 where
  pub paging : RevMem
  pub phys_mem : ℕ → ℕ
  pub future_res : List ℕ
  pub bytes_read : ℕ
  pub bytes_written : ℕ

-- `for( unsigned i=0; i<n; i++ ) target[at + i] = source[from + i];`
unfoldable pub copy_bytes : ℕ → (ℕ → ℕ) → ℕ → (ℕ → ℕ) → ℕ → ℕ → ℕ
copy_bytes zero target at source from = target
copy_bytes (suc n) target at source from =
    copy_bytes n (λ q. if q == at then source from else target q) (at + 1) source (from + 1)

-- `pageMap[pageNum].first`: a missing key is made with the frame 0.
unfoldable pub index_page : Option ℕ → ℕ → RevMem → ℕ × RevMem
index_page (some frame) page_num s = (frame, s)
index_page none page_num s =
    (0, record s { page_map = λ p. if p == page_num then some 0 else s.page_map p })

-- `(frame << addrShift) + pageSize`, on 32 bits.
abbrev pub end_of_page : ℕ → ℕ
end_of_page frame = u32 (u32 (frame * 2 ^ 18) + 2 ^ 18)

-- An access of `len` bytes, cut at the end of the page: the physical address and the length of the
-- first part, and of the part on the adjacent page.
pub record Access : Type 0 where
  pub paging : RevMem
  pub phys : ℕ
  pub first : ℕ
  pub adj_phys : ℕ
  pub span : ℕ

-- The start of both `ReadMem` and `WriteMem`, up to the copies.
unfoldable pub locate : ℕ → ℕ → RevMem → Option Access
unfolding index_page
locate addr len s = do
  (phys, s1) ← calc_phys_addr (addr / 2 ^ 18) addr s
  let indexed = index_page (s1.page_map (addr / 2 ^ 18)) (addr / 2 ^ 18) s1
  let end = end_of_page indexed.0
  let span = u32 (minus 64 (u64 (phys + len)) end)
  let adj_addr = minus 64 (u64 (addr + len)) span
  let crossing = calc_phys_addr (u32 (adj_addr / 2 ^ 18)) adj_addr indexed.1 >>= (λ adj.
      some (record {
        paging = adj.1;
        phys = phys;
        first = minus 64 len span;
        adj_phys = adj.0;
        span = span;
      }))
  if ltb end (u64 (phys + len))
      then crossing
      else some (record { paging = indexed.1; phys = phys; first = len; adj_phys = 0; span = 0 })

-- `RevokeFuture`: the first entry of the address is erased.
abbrev pub revoke_future : ℕ → List ℕ → List ℕ
revoke_future addr futures = erase addr futures

-- The copies of `WriteMem`, and the counter.
unfoldable pub finish_write : ℕ → ℕ → (ℕ → ℕ) → Memory → Access → Memory
unfolding copy_bytes
finish_write addr len bytes s a =
    let written = copy_bytes a.first s.phys_mem a.phys bytes 0 in
    record {
      paging = a.paging;
      phys_mem = copy_bytes a.span written a.adj_phys bytes a.first;
      future_res = revoke_future addr s.future_res;
      bytes_read = s.bytes_read;
      bytes_written = u32 (s.bytes_written + len);
    }

unfoldable pub write_mem : ℕ → ℕ → (ℕ → ℕ) → Memory → Option Memory
unfolding locate finish_write
write_mem addr len bytes s = do a ← locate addr len s.paging; some (finish_write addr len bytes s a)

-- The copies of `ReadMem` to `target`, and the counter.
unfoldable pub finish_read : ℕ → (ℕ → ℕ) → Memory → Access → (ℕ → ℕ) × Memory
unfolding copy_bytes
finish_read len target s a =
    let taken = copy_bytes a.first target 0 s.phys_mem a.phys in
    (
      copy_bytes a.span taken a.first s.phys_mem a.adj_phys,
      record s { paging = a.paging; bytes_read = u32 (s.bytes_read + len) },
    )

unfoldable pub read_mem : ℕ → ℕ → (ℕ → ℕ) → Memory → Option ((ℕ → ℕ) × Memory)
unfolding locate finish_read
read_mem addr len target s = do a ← locate addr len s.paging; some (finish_read len target s a)
