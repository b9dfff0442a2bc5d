-- ===== src/Mmu/Types.antt =====
-- The types of mmu.c and include/mmu.h. The enums have two values each, so the source's checks
-- that a page size is one of the two always pass and are not repeated.
use prephv.Base.{
  ℕ, Bool, true, false, bit_and, bit_or, lnot64, Run, done, ◌>>◌, bug_on, ltb, leb, ◌==◌,
  if◌then◌else◌, List,
}
use prephv.Ppc.{hv_aspace, page_size, page_size_16m}

pub data SegSize : Type 0 where
  seg_256m seg_1t : SegSize

pub data PageSize : Type 0 where
  page_4k page_16m : PageSize

abbrev pub is_1t : SegSize → Bool
is_1t seg_256m = false
is_1t seg_1t = true

abbrev pub is_16m : PageSize → Bool
is_16m page_4k = false
is_16m page_16m = true

-- The `base_size` and `actual_size` that the functions work out from a page size.
unfoldable pub size_of : PageSize → ℕ
size_of page_4k = page_size
size_of page_16m = page_size_16m

-- `pte_t`: both words are kept big-endian in memory.
pub record Pte : Type 0 where
  pub v : ℕ
  pub r : ℕ

-- The static variables of mmu.c: the table as a function of the entry's index, and its mask.
-- `tlbies` are the operands of the `tlbie` instructions issued, the latest first.
pub record Mmu : Type 0 where
  pub htab : ℕ → Pte
  pub ptegs : ℕ
  pub htab_size : ℕ
  pub htab_hash_mask : ℕ
  pub tlbies : List ℕ

abbrev pub write_pte : (ℕ → Pte) → ℕ → Pte → ℕ → Pte
write_pte h p e q = if p == q then e else h q

unfoldable pub ptr_2_ra : ℕ → Run ℕ
ptr_2_ra ea = bug_on (ltb ea hv_aspace) >> done (bit_and ea (lnot64 hv_aspace))

unfoldable pub ra_2_ptr : ℕ → Run ℕ
ra_2_ptr ra = bug_on (leb hv_aspace ra) >> done (bit_or ra hv_aspace)
