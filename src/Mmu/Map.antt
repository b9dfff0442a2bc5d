-- ===== src/Mmu/Map.antt =====
-- The entry points of mmu.c: one page, a range of pages, and the set-up of the table.
pub mod Range
pub mod Page
pub mod Region
pub mod Span
pub mod Fill
pub mod GuestPages
pub mod Spaces
pub mod Lookup
pub mod Hv
pub mod Init
pub mod Sdr1
pub mod Keeps
use prephv.Base.{
  ℕ, zero, suc, ◌+◌, ◌-◌, ◌*◌, ◌/◌, ◌%◌, ◌^◌, Bool, true, false, Option, Run, done, ◌>>=◌, ◌>>◌,
  bug_on, ltb, ◌==◌, ◌!=◌, if◌then◌else◌, bit_and, bit_or, lnot64, ◌-64◌, u64, [], not, align_up,
  mb,
}
use prephv.Ppc.{
  pteg_size, sdr1_mask, page_mask_16m, pp_rwxx, ail_vectors, ail_aspace_end, msr_ir, msr_dr,
}
use prephv.Guest.State.{Guest}
use prephv.Mmu.Types.{PageSize, page_4k, page_16m, size_of, Mmu, ptr_2_ra}
use prephv.Mmu.Address.{ea_2_seg_size, ea_2_base_size, ea_2_vpn}
use prephv.Mmu.Encode.{pteg_count}
use prephv.Mmu.Htab.{mmu_map_vpn, mmu_unmap_vpn}

module _ (guest : Option Guest) where
  unfoldable pub mmu_unmap : ℕ → PageSize → Mmu → Run Mmu
  mmu_unmap ea actual m = do
    bug_on (bit_and ea (lnot64 (size_of actual - 1)) != ea)
    vpn ← ea_2_vpn guest ea
    seg ← ea_2_seg_size guest ea
    base ← ea_2_base_size guest ea
    (found, m') ← mmu_unmap_vpn seg base actual vpn m
    bug_on (not found)
    done m'

  unfoldable pub mmu_map : ℕ → ℕ → ℕ → PageSize → Mmu → Run Mmu
  mmu_map ea ra pp actual m = do
    bug_on (bit_and ea (lnot64 (size_of actual - 1)) != ea)
    vpn ← ea_2_vpn guest ea
    seg ← ea_2_seg_size guest ea
    base ← ea_2_base_size guest ea
    (mapped, m') ← mmu_map_vpn seg base actual ra pp vpn m
    bug_on (not mapped)
    done m'

  -- The loop of `mmu_map_range` on fuel: the address that it has come to, and the table.
  unfoldable pub map_range_loop : ℕ → ℕ → ℕ → ℕ → ℕ → PageSize → Mmu → Run (ℕ × Mmu)
  map_range_loop zero addr ea_end ra prot actual m = done (addr, m)
  map_range_loop (suc fuel) addr ea_end ra prot actual m = elim (ltb addr ea_end) [
    | true ↦ do
      m' ← mmu_map addr ra prot actual m
      map_range_loop fuel (u64 (addr + size_of actual)) ea_end (u64 (ra + size_of actual)) prot
          actual m'
    | false ↦ done (addr, m)
  ]

  unfoldable pub mmu_map_range : ℕ → ℕ → ℕ → ℕ → PageSize → Mmu → Run Mmu
  unfolding map_range_loop
  mmu_map_range ea_start ea_end ra_start prot actual m = do
    bug_on ((ea_end -64 ea_start) % size_of actual != 0)
    let fuel = (ea_end - ea_start) / size_of actual
    (addr, m') ← map_range_loop fuel ea_start ea_end ra_start prot actual m
    done m'

-- `__ilog2` of include/defs.h: the position of the highest bit that is set.
ilog2_from : ℕ → ℕ → ℕ
ilog2_from zero x = 0
ilog2_from (suc k) x = let rest = ilog2_from k x in if ltb x (2 ^ suc k) then rest else suc k

unfoldable pub ilog2 : ℕ → ℕ
unfolding ilog2_from
ilog2 x = ilog2_from 63 x

-- What `mmu_init` sets up: the state of the table, and the value for SDR1.
-- `htab` is what `mem_memalign` returned, and `start` and `end` are the linker's `_start` and
-- `_end`. The machine instructions between (`slb_init`, `tlbia`) are not part of this state.
unfoldable pub mmu_init : ℕ → ℕ → ℕ → ℕ → Run (Mmu × ℕ)
unfolding ilog2
mmu_init htab start end ram_size = do
  let ptegs = pteg_count ram_size
  let htab_size = u64 (ptegs * pteg_size)
  let m : Mmu = record {
    htab = λ _. record { v = 0; r = 0 };
    ptegs = ptegs;
    htab_size = htab_size;
    htab_hash_mask = ptegs -64 1;
    tlbies = [];
  }
  htab_ra ← ptr_2_ra htab
  bug_on (bit_and htab_ra sdr1_mask != htab_ra)
  let sdr1 = u64 (u64 (htab_ra + ilog2 ptegs) + 2 ^ 64 - 11)
  m₁ ←
      mmu_map_range Option.none (bit_and htab page_mask_16m)
        (align_up (u64 (htab + htab_size)) (mb 16)) (bit_and htab_ra page_mask_16m) pp_rwxx page_16m
        m
  start_ra ← ptr_2_ra start
  m₂ ←
      mmu_map_range Option.none (bit_and start page_mask_16m) (align_up end (mb 16))
        (bit_and start_ra page_mask_16m) pp_rwxx page_16m m₁
  m₃ ← mmu_map_range Option.none ail_vectors ail_aspace_end 0 pp_rwxx page_4k m₂
  done (m₃, sdr1)

unfoldable pub mmu_enable : ℕ → ℕ
mmu_enable msr = bit_or (bit_or msr msr_ir) msr_dr

unfoldable pub mmu_disable : ℕ → ℕ
mmu_disable msr = bit_and msr (lnot64 (bit_or msr_ir msr_dr))

unfoldable pub mmu_enabled : ℕ → Bool
mmu_enabled msr = bit_and msr (bit_or msr_ir msr_dr) == bit_or msr_ir msr_dr
