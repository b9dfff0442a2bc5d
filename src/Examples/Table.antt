-- ===== src/Examples/Table.antt =====
-- The page table and the segment buffer on a small table.
use prephv.Base.{ℕ, ◌+◌, ◌^◌, ◌<◌, ◌≡◌, refl, arith, true, false, none, some, done, bit_or, ◌∷◌}
use prephv.Endian.{swab64}
use prephv.Guest.State.{guest_is_mmu_off, the_guest}
use prephv.Mmu.Types.{SegSize, PageSize, seg_256m, page_4k, Mmu, size_of}
use prephv.Mmu.Encode.{tlbie}
use prephv.Mmu.Htab.{is_valid, rflags, mmu_map_vpn, mmu_unmap_vpn}
use prephv.Mmu.Htab.Scan.{hit}
use prephv.Mmu.Htab.Refine.{walk, HasFree, OtherPage, map-walk}
use prephv.Mmu.Htab.Unmap.{unmap-map}
use prephv.Mmu.Slb.{mmu_guest_fault_seg, err_none, err_unsupported}
use prephv.Mmu.Slb.Fault.{fault_then_present}
use prephv.Examples.Machine.{an_mmu, table_slb, table_slb-ReadsBack, no_segments, a_guest}

is_empty : walk an_mmu 0x123 seg_256m page_4k ≡ none
unfolding walk hit is_valid swab64
is_empty = refl

has_free : HasFree an_mmu 0x123 seg_256m page_4k
unfolding is_valid swab64
has_free = (0, omega arith, refl)

map-walk_example :
    (m' : Mmu) × (mmu_map_vpn seg_256m page_4k page_4k 0x5000 2 0x123 an_mmu ≡ done (true, m'))
    × (walk m' 0x123 seg_256m page_4k ≡ some (bit_or 0x5000 (rflags 2)))
    × ((vpn' : ℕ) (seg' : SegSize) (page' : PageSize)
        → vpn' < 2 ^ 64
        → OtherPage an_mmu 0x123 seg_256m page_4k vpn' seg' page'
        → walk m' vpn' seg' page' ≡ walk an_mmu vpn' seg' page')
unfolding size_of
map-walk_example =
    map-walk an_mmu 0x123 seg_256m page_4k 0x5000 2 (omega arith) (omega arith) (refl, omega arith)
      has_free is_empty

unmap-map_example :
    (m' m'' : Mmu) × (mmu_map_vpn seg_256m page_4k page_4k 0x5000 2 0x123 an_mmu ≡ done (true, m'))
    × (mmu_unmap_vpn seg_256m page_4k page_4k 0x123 m' ≡ done (true, m''))
    × (m''.tlbies ≡ tlbie 0x123 seg_256m page_4k page_4k ∷ an_mmu.tlbies)
    × ((vpn' : ℕ) (seg' : SegSize) (page' : PageSize)
        → walk m'' vpn' seg' page' ≡ walk an_mmu vpn' seg' page')
unfolding size_of
unmap-map_example =
    unmap-map an_mmu 0x123 seg_256m page_4k 0x5000 2 (omega arith) (refl, omega arith) has_free
      is_empty

is_on : guest_is_mmu_off (some a_guest) ≡ done false
unfolding guest_is_mmu_off the_guest
is_on = refl

fault_then_present_example :
    (s' : ℕ → ℕ × ℕ) × (mmu_guest_fault_seg table_slb (some a_guest) 0x10003456 no_segments
      ≡ done (err_none, s'))
    × (table_slb.slbmfee 4 s' ≡ 2 ^ 28 + 2 ^ 27)
    × (mmu_guest_fault_seg table_slb (some a_guest) 0x10000000 s' ≡ done (err_unsupported, s'))
fault_then_present_example =
    fault_then_present table_slb table_slb-ReadsBack a_guest 0x10003456 0x10000000 no_segments
      (omega arith) refl is_on refl
