-- ===== src/Ext/Seed.antt =====
-- `SeedInstTable` of src/RevProc.cc. The objects of the extensions are a parameter.
use rev.Prelude.{
  ℕ, ◌^◌, ◌≡◌, eq→==, arith, Bool, true, false, not, ◌&&◌, ◌==◌, bit_and, if◌then◌else◌,
}
use rev.RegFile.{RevFeature}
use rev.Ext.{RevExt, Enabled, enable_ext}
use rev.Ext.Laws.{FitsExt, IsMapped}
use rev.Ext.Enable.{enable_ext-IsMapped}

-- The extensions that the function makes.
pub record Exts : Type 0 where
  pub rv32i : RevExt
  pub rv64i : RevExt
  pub rv32m : RevExt
  pub rv64m : RevExt
  pub rv32a : RevExt
  pub rv64a : RevExt
  pub rv32f : RevExt
  pub rv64f : RevExt
  pub rv32d : RevExt
  pub rv64d : RevExt
  pub rv64p : RevExt

-- `RevFeature::IsModeEnabled`, by the number of the mode.
abbrev pub is_mode_enabled : RevFeature → ℕ → Bool
is_mode_enabled f mode = not (bit_and f.features (2 ^ mode) == 0)

module _ (f : RevFeature) (x : Exts) where
  unfoldable pub seed_i : Enabled → Enabled
  seed_i s =
      if is_mode_enabled f 1
      then (if f.xlen == 64
          then enable_ext f x.rv64i false (enable_ext f x.rv32i false s)
          else enable_ext f x.rv32i true s)
      else s

  -- An extension, and the second where registers have 64 bits: M, A and D.
  unfoldable pub seed_pair : ℕ → RevExt → RevExt → Enabled → Enabled
  seed_pair mode narrow wide s =
      let s' = enable_ext f narrow false s in
      if is_mode_enabled f mode
      then (if f.xlen == 64 then enable_ext f wide false s' else s')
      else s

  unfoldable pub seed_f : Enabled → Enabled
  seed_f s =
      if is_mode_enabled f 4
      then (if not (is_mode_enabled f 5) && (f.xlen == 32)
          then enable_ext f x.rv32f true s
          else enable_ext f x.rv64f false (enable_ext f x.rv32f false s))
      else s

  unfoldable pub seed_p : Enabled → Enabled
  seed_p s = if is_mode_enabled f 20 then enable_ext f x.rv64p false s else s

  unfoldable pub seed_inst_table : Enabled → Enabled
  unfolding seed_i seed_pair seed_f seed_p
  seed_inst_table s = seed_p (
      seed_pair 5 x.rv32d x.rv64d
        (seed_f (seed_pair 3 x.rv32a x.rv64a (seed_pair 2 x.rv32m x.rv64m (seed_i s)))))

pub record FitsExts (x : Exts) : Type 0 where
  pub rv32i_fits : FitsExt x.rv32i
  pub rv64i_fits : FitsExt x.rv64i
  pub rv32m_fits : FitsExt x.rv32m
  pub rv64m_fits : FitsExt x.rv64m
  pub rv32a_fits : FitsExt x.rv32a
  pub rv64a_fits : FitsExt x.rv64a
  pub rv32f_fits : FitsExt x.rv32f
  pub rv64f_fits : FitsExt x.rv64f
  pub rv32d_fits : FitsExt x.rv32d
  pub rv64d_fits : FitsExt x.rv64d
  pub rv64p_fits : FitsExt x.rv64p

choice-IsMapped :
    (b : Bool) (s t : Enabled) → IsMapped s → IsMapped t → IsMapped (if b then s else t)
choice-IsMapped true s t first second = first
choice-IsMapped false s t first second = second

module _ (f : RevFeature) (x : Exts) (wide : f.xlen ≡ 64) where
  both-IsMapped :
      (mode : ℕ) (e e' : RevExt) (s : Enabled)
      → FitsExt e
      → FitsExt e'
      → IsMapped s
      → IsMapped
          (if is_mode_enabled f mode then enable_ext f e' false (enable_ext f e false s) else s)
  both-IsMapped mode e e' s fits fits' ok =
      let once = enable_ext-IsMapped f e s fits ok in
      choice-IsMapped (is_mode_enabled f mode) (enable_ext f e' false (enable_ext f e false s)) s
        (enable_ext-IsMapped f e' (enable_ext f e false s) fits' once) ok

  seed_i-IsMapped : (s : Enabled) → FitsExts x → IsMapped s → IsMapped (seed_i f x s)
  unfolding seed_i
  seed_i-IsMapped s fits ok =
      rw (eq→== f.xlen 64 wide)
        (both-IsMapped 1 x.rv32i x.rv64i s fits.rv32i_fits fits.rv64i_fits ok)

  seed_pair-IsMapped :
      (mode : ℕ) (e e' : RevExt) (s : Enabled)
      → FitsExt e
      → FitsExt e'
      → IsMapped s
      → IsMapped (seed_pair f x mode e e' s)
  unfolding seed_pair
  seed_pair-IsMapped mode e e' s fits fits' ok =
      rw (eq→== f.xlen 64 wide) (both-IsMapped mode e e' s fits fits' ok)

  seed_f-IsMapped : (s : Enabled) → FitsExts x → IsMapped s → IsMapped (seed_f f x s)
  unfolding seed_f
  seed_f-IsMapped s fits ok =
      let narrow : (not (is_mode_enabled f 5) && (f.xlen == 32)) ≡ false = ground (arith, wide) in
      rw narrow (both-IsMapped 4 x.rv32f x.rv64f s fits.rv32f_fits fits.rv64f_fits ok)

  seed_p-IsMapped : (s : Enabled) → FitsExts x → IsMapped s → IsMapped (seed_p f x s)
  unfolding seed_p
  seed_p-IsMapped s fits ok =
      choice-IsMapped (is_mode_enabled f 20) (enable_ext f x.rv64p false s) s
        (enable_ext-IsMapped f x.rv64p s fits.rv64p_fits ok) ok

  -- Where registers have 64 bits, SeedInstTable keeps the instruction table mapped for every set of
  -- modes: each entry runs the function of its own row, in whichever extension and order it was
  -- enabled. The rows of each extension are marked as their table asks, and no compressed table is
  -- longer than the extension's first table.
  pub seed_inst_table-IsMapped :
      (s : Enabled) → FitsExts x → IsMapped s → IsMapped (seed_inst_table f x s)
  unfolding seed_inst_table
  seed_inst_table-IsMapped s fits ok =
      let i = seed_i-IsMapped s fits ok in
      let m = seed_pair-IsMapped 2 x.rv32m x.rv64m _ fits.rv32m_fits fits.rv64m_fits i in
      let a = seed_pair-IsMapped 3 x.rv32a x.rv64a _ fits.rv32a_fits fits.rv64a_fits m in
      let d =
        seed_pair-IsMapped 5 x.rv32d x.rv64d _ fits.rv32d_fits fits.rv64d_fits
          (seed_f-IsMapped _ fits a) in
      seed_p-IsMapped _ fits d
