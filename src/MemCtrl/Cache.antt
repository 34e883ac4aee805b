-- ===== src/MemCtrl/Cache.antt =====
-- `getBaseCacheLineSize` and `getNumCacheLines`, for a line size above 0: with 0 the source divides
-- by it.
use rev.Prelude.{ℕ, ◌+◌, ◌-◌, ◌/◌, ◌%◌, not, ◌==◌, ltb, leb, if◌then◌else◌}
use rev.Word.{u32, u64, minus}
use rev.Loader.{base_cache_addr}
use rev.MemCtrl.{Limits}

-- The loop that looks for the start of the line is that of `WriteCacheLine`.
unfoldable pub get_base_cache_line_size : ℕ → ℕ → ℕ → ℕ
unfolding base_cache_addr
get_base_cache_line_size line addr size =
    let base = base_cache_addr line addr in
    if addr == base
    then (if ltb size line then size else line)
    else if leb (u64 (addr + size)) (u64 (base + line))
    then size
    else u32 (minus 64 (u64 (base + line)) addr)

unfoldable pub get_num_cache_lines : Limits → ℕ → ℕ → ℕ
get_num_cache_lines c addr size =
    let line = c.line_size in
    let rest = addr % line in
    if not c.has_cache
    then 1
    else if not (rest == 0)
    then (if leb size (line - rest)
        then 1
        else if ltb size line
        then 2
        else u32 (size / line + (if ltb 1 rest then 1 else 0)))
    else if leb size line
    then 1
    else u32 (size / line + 1)
