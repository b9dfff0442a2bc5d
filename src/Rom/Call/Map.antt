-- ===== src/Rom/Call/Map.antt =====
-- The method "map" of rom.c: where in the machine's memory the guest's pages come to lie.
use prephv.Base.{
  ℕ, zero, suc, ◌+◌, ◌-◌, ◌/◌, ◌%◌, ◌^◌, ◌≤◌, ◌<◌, ◌≡◌, refl, arith, true, false, none, some, done,
  bit_or, u32, u64, ◌-64◌, ltb, is_aligned,
}
use prephv.Base.Bits.{and_low, and_field}
use prephv.Ppc.{page_size, pp_rwrw}
use prephv.Guest.State.{Guest, the_guest, guest_is_mmu_off}
use prephv.Mmu.Types.{seg_256m, page_4k, size_of, Mmu, ptr_2_ra}
use prephv.Mmu.Htab.{rflags}
use prephv.Mmu.Htab.Refine.{walk, HasFree}
use prephv.Mmu.Map.{mmu_map, map_range_loop, mmu_map_range}
use prephv.Mmu.Map.Page.{guest_page, Gains, mmu_map-Gains}
use prephv.Rom.Claim.{align_up_32}
use prephv.Rom.Library.{Platform}
use prephv.Rom.Call.{RomVm, map_pages}

module _ (g : Guest) (on : guest_is_mmu_off (some g) ≡ done false) (virt : ℕ) (m : Mmu)
    (page : virt % 2 ^ 12 ≡ 0) (low : virt + 2 ^ 12 < 2 ^ 32)
    (free : HasFree m (guest_page g virt) seg_256m page_4k)
    (absent : walk m (guest_page g virt) seg_256m page_4k ≡ none) where
  range_step :
      (ra : ℕ) (m' : Mmu)
      → mmu_map (some g) virt ra pp_rwrw page_4k m ≡ done m'
      → mmu_map_range (some g) virt (virt + 2 ^ 12) ra pp_rwrw page_4k m ≡ done m'
  unfolding mmu_map_range map_range_loop size_of
  range_step ra m' e =
      let whole : (virt + 2 ^ 12 -64 virt) % 2 ^ 12 ≡ 0 = omega arith in
      let fuel : (virt + 2 ^ 12 - virt) / 2 ^ 12 ≡ suc zero = omega arith in
      let more : ltb virt (virt + 2 ^ 12) ≡ true = ground arith in
      rw (whole, fuel, map_range_loop, more, e) refl

  range_of_one :
      (ra : ℕ)
      → ra % 2 ^ 12 ≡ 0
      → ra < 2 ^ 60
      → (m' : Mmu) × (mmu_map_range (some g) virt (virt + 2 ^ 12) ra pp_rwrw page_4k m ≡ done m')
        × Gains m (guest_page g virt) (bit_or ra (rflags pp_rwrw)) m'
  unfolding size_of
  range_of_one ra al lt =
      let (m', e, gains) =
        mmu_map-Gains g on virt (omega arith) ra pp_rwrw m page (omega arith) (al, lt) free
          absent in
      (m', range_step ra m' e, gains)

  end_of_one :
      (size : ℕ)
      → 0 < size
      → size ≤ 2 ^ 12
      → align_up_32 (u32 (virt + size)) page_size ≡ virt + 2 ^ 12
  unfolding align_up_32 is_aligned
  end_of_one size pos le =
      ground (arith, and_low 12 (virt + size), and_field 12 20 (virt + size + (2 ^ 12 - 1)))

  module _ (p : Platform) where
    -- With the guest's MMU on, a page of the guest that is not mapped, in the last but one page of
    -- its 4 GB at most, whose group has a free entry, and a physical page below 4 GB: mapping one
    -- to the other never stops the machine, and the page is then found at the guest's RAM plus the
    -- physical address, writable; pages of another group or number are found as before. The
    -- physical address may be anywhere, the size of the guest's RAM does not come in.
    pub map_pages_lem :
        (phys size : ℕ) (vm : RomVm p)
        → vm.guest ≡ some g
        → vm.mmu ≡ m
        → 0 < size
        → size ≤ 2 ^ 12
        → phys < 2 ^ 32
        → phys % 2 ^ 12 ≡ 0
        → 2 ^ 63 ≤ g.ram
        → g.ram < 2 ^ 63 + 2 ^ 59
        → g.ram % 2 ^ 12 ≡ 0
        → (m' : Mmu) × (map_pages p virt phys size vm ≡ done (record vm { mmu = m' }))
          × Gains m (guest_page g virt) (bit_or (g.ram - 2 ^ 63 + phys) (rflags pp_rwrw)) m'
    unfolding map_pages the_guest ptr_2_ra
    map_pages_lem phys size vm is table pos le small frame high bound aligned =
        let ra = g.ram - 2 ^ 63 + phys in
        let at : ptr_2_ra (u64 (phys + g.ram)) ≡ done ra =
          ground (arith, and_low 63 (phys + g.ram)) in
        let (m', e, gains) = range_of_one ra (omega arith) (omega arith) in
        (m', rw (is, table, at, end_of_one size pos le, e) refl, gains)
