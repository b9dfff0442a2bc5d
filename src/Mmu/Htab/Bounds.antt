-- ===== src/Mmu/Htab/Bounds.antt =====
-- The entries that mmu.c reads and writes lie within the table that `mmu_init` allocates.
use prephv.Base.{ℕ, ◌+◌, ◌-◌, ◌*◌, ◌%◌, ◌^◌, ◌≤◌, ◌<◌, ◌≡◌, arith}
use prephv.Base.Bits.{and_low}
use native.Mathlib.Nat.{one-le-pow}
use prephv.Ppc.{ptes_per_group}
use prephv.Mmu.Types.{SegSize, PageSize, Mmu}
use prephv.Mmu.Encode.{pteg_count, vpn_hash}
use prephv.Mmu.Htab.{pteg_of}

-- Whatever the RAM size, the table has from 2 ^ 11 to 2 ^ 39 groups.
pub pteg_count_bounds :
    (ram_size : ℕ) → (2 ^ 11 ≤ pteg_count ram_size) × (pteg_count ram_size ≤ 2 ^ 39)
unfolding pteg_count
pteg_count_bounds ram_size = omega arith

-- With a table of 2 ^ k groups and their mask, each of the eight entries of the group of any page
-- lies in the table, and the group is aligned to its size.
pub pteg_of_bounds :
    (m : Mmu) (k : ℕ) (vpn : ℕ) (seg : SegSize) (base : PageSize) (i : ℕ)
    → m.ptegs ≡ 2 ^ k
    → m.htab_hash_mask ≡ m.ptegs - 1
    → i < ptes_per_group
    → (pteg_of m vpn seg base + i < m.ptegs * ptes_per_group)
      × (pteg_of m vpn seg base % ptes_per_group ≡ 0)
unfolding pteg_of
pteg_of_bounds m k vpn seg base i e mask lt =
    ground (arith, and_low k (vpn_hash vpn seg base), one-le-pow k 2)
