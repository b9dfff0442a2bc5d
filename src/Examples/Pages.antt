-- ===== src/Examples/Pages.antt =====
-- The page table of the whole machine: what `mmu_init`, `guest_init` and `c_main` map.
use prephv.Base.{
  is_aligned, get_or, List, ◌∷◌, [], ℕ, ◌+◌, ◌*◌, ◌/◌, ◌^◌, ◌≤◌, ◌<◌, ◌≡◌, refl, arith, none, some,
  done, IfDone, bit_or, inl, true, false, Bool, Run, halt, if◌then◌else◌, ◌↔◌, align_up,
}
use prephv.Guest.Init.{guest_init}
use prephv.Guest.Trap.{guest_exc_try}
use prephv.Guest.Laws.Ram.{Started, guest_init_pages}
use prephv.Mmu.Types.{
  seg_1t, seg_256m, page_4k, page_16m, size_of, ptr_2_ra, SegSize, PageSize, Mmu, write_pte,
}
use prephv.Mmu.Address.{hv_vsid, ea_2_vpn, ea_2_seg_size, ea_2_base_size}
use prephv.Mmu.Encode.{pte_v_compare, pteg_count, vpn_hash, avpn_encode, rpn_encode}
use prephv.Mmu.Htab.{
  pteg_of, rflags, is_valid, mmu_map_vpn, map_loop, map_round, vflags, rounds, scan_free,
}
use prephv.Mmu.Htab.Pages.{span, page_of_entry}
use prephv.Mmu.Htab.Refine.{walk, new_entry}
use prephv.Mmu.Htab.Scan.{walk_from, hit}
use prephv.Endian.{swab64}
use prephv.Mmu.Map.{mmu_map_range, mmu_init, map_range_loop, mmu_map, ilog2}
use prephv.Mmu.Map.Init.{HasHvPages, mmu_init_pages}
use prephv.Mmu.Map.Hv.{down, up, hv_page}
use prephv.Guest.Memory.{Memory}
use prephv.Mmu.Map.Lookup.{in_range, map_range_lookup}
use prephv.Mmu.Map.Region.{lookup}
use prephv.Mmu.Map.Sdr1.{Agrees, mmu_init_sdr1}
use prephv.Mmu.Map.Span.{frame_at}
use prephv.Mmu.Map.Spaces.{hv-IsRegion}
use prephv.Examples.Interface.{a_platform, a_rom_vm}
use prephv.Rom.Call.{RomVm, rom_call, call_of, dispatch, do_call_method, method_map, map_pages}
use prephv.Rom.Claim.{align_up_32}
use prephv.Guest.State.{the_guest, guest_is_mmu_off}
use prephv.Guest.Memory.{is_string, load32}
use prephv.Guest.Trap.{try_other}
use prephv.Examples.Machine.{an_mmu, table_slb, no_segments}

nothing_found : (vpn : ℕ) (seg : SegSize) (page : PageSize) → walk an_mmu vpn seg page ≡ none
unfolding walk walk_from hit is_valid swab64
nothing_found vpn seg page = refl

page_of_entry_example :
    ((pteg_of an_mmu 0x12345 seg_256m page_4k ≡ pteg_of an_mmu 0x12346 seg_256m page_4k)
      × (pte_v_compare
            (bit_or (avpn_encode 0x12345 page_4k) (vflags seg_256m page_4k))
            (avpn_encode 0x12346 page_4k)
          ≡ true))
    ↔ (0x12345 / span page_4k ≡ 0x12346 / span page_4k)
page_of_entry_example =
    page_of_entry an_mmu seg_256m 0x12345 0x12346 page_4k page_4k refl (omega arith) (omega arith)

-- 32 MB of the hypervisor's space.
map_range_lookup_example :
    IfDone
      (λ m'.
        (ea : ℕ)
        → 2 ^ 63 ≤ ea
        → ea < 2 ^ 63 + 2 ^ 40
        → lookup none m' ea ≡ (
            if in_range 0x8000000001000000 0x8000000003000000 ea
            then done (some (bit_or (frame_at page_16m 0x8000000001000000 0x1000000 ea) (rflags 0)))
            else lookup none an_mmu ea))
      (mmu_map_range none 0x8000000001000000 0x8000000003000000 0x1000000 0 page_16m an_mmu)
unfolding size_of
map_range_lookup_example =
    map_range_lookup none (2 ^ 63) (2 ^ 63 + 2 ^ 40) (hv_vsid * 2 ^ 28) seg_1t page_16m
      (hv-IsRegion none) 0x8000000001000000 0x8000000003000000 0 (omega arith) (omega arith)
      (omega arith) refl refl an_mmu 0x1000000 (omega arith) refl (omega arith) refl
      (λ ea a b. nothing_found _ seg_1t page_16m)

large_count : pteg_count (4 * 1024 * 1024 * 1024) ≡ 2 ^ 19
unfolding pteg_count
large_count = refl

mmu_init_pages_example :
    IfDone
      (λ r.
        HasHvPages
          (down 0x8000000014000000)
          (up (0x8000000014000000 + pteg_count (4 * 1024 * 1024 * 1024) * 128))
          (down 0x8000000020000000)
          (up 0x8000000020123456)
          r.0)
      (mmu_init 0x8000000014000000 0x8000000020000000 0x8000000020123456 (4 * 1024 * 1024 * 1024))
mmu_init_pages_example =
    mmu_init_pages 0x8000000014000000 0x8000000020000000 0x8000000020123456 (4 * 1024 * 1024 * 1024)
      (omega arith) (omega (arith, large_count)) (omega arith) (omega arith) (omega arith)
      (inl (omega (arith, large_count))) refl

mmu_init_sdr1_example :
    IfDone
      (Agrees 19 0x8000000014000000)
      (mmu_init 0x8000000014000000 0x8000000020000000 0x8000000020123456 (2 ^ 19 * 2 ^ 13))
mmu_init_sdr1_example =
    mmu_init_sdr1 19 0x8000000014000000 0x8000000020000000 0x8000000020123456 (omega arith)
      (omega arith) (omega arith) (omega arith)

ram_at : ptr_2_ra 0x8000000010000000 ≡ done 0x10000000
unfolding ptr_2_ra
ram_at = refl

guest_init_pages_example :
    IfDone
      (λ r. Started 0x8000000010000000 0x2000000 0x10000000 an_mmu r.1 r.3)
      (guest_init table_slb true 0x8000000010000000 0x2000000 no_segments an_mmu)
guest_init_pages_example =
    guest_init_pages table_slb 0x8000000010000000 0x2000000 0x10000000 true no_segments an_mmu
      ram_at (omega arith) refl (omega arith) refl
      (λ ea lt. (nothing_found _ seg_1t page_16m, nothing_found _ seg_256m page_4k))

-- The arguments of the method "map" at 0: 0x1000 bytes, from 0x3000 of the guest's RAM, at 0x10003000.
abbrev map_memory : Memory
map_memory a = get_or map_bytes a 0
  where
    map_bytes : List ℕ
    map_bytes =
        64 ∷ 0 ∷ 0 ∷ 0 ∷ 0 ∷ 0 ∷ 0 ∷ 0 ∷ 0 ∷ 0 ∷ 0 ∷ 0 ∷ 80 ∷ 0 ∷ 0 ∷ 0 ∷ 0 ∷ 0 ∷ 0 ∷ 0 ∷ 0 ∷ 0 ∷ 0
        ∷ 0 ∷ 0 ∷ 0x10 ∷ 0 ∷ 0 ∷ 0 ∷ 0x30 ∷ 0 ∷ 0x10 ∷ 0 ∷ 0x30 ∷ 0 ∷ 0 ∷ 0 ∷ 0 ∷ 0 ∷ 0 ∷ 0 ∷ 0 ∷ 0
        ∷ 0 ∷ 0 ∷ 0 ∷ 0 ∷ 0 ∷ 0 ∷ 0 ∷ 0 ∷ 0 ∷ 0 ∷ 0 ∷ 0 ∷ 0 ∷ 0 ∷ 0 ∷ 0 ∷ 0 ∷ 0 ∷ 0 ∷ 0 ∷ 0 ∷ 99
        ∷ 97 ∷ 108 ∷ 108 ∷ 45 ∷ 109 ∷ 101 ∷ 116 ∷ 104 ∷ 111 ∷ 100 ∷ 0 ∷ 0 ∷ 0 ∷ 0 ∷ 0 ∷ 109 ∷ 97
        ∷ 112 ∷ 0 ∷ []

-- A table with the page of the hypervisor's image, and a guest that maps a page.
abbrev image_mmu : Mmu
image_mmu = record an_mmu {
  htab =
      write_pte an_mmu.htab (pteg_of an_mmu (hv_page 0x8000000020001234) seg_1t page_16m)
        (new_entry (hv_page 0x8000000020001234) seg_1t page_16m (0x20000000 + 2));
}

abbrev map_vm : RomVm a_platform
map_vm = record a_rom_vm { mem = map_memory; mmu = image_mmu }

-- The start of the table does not stop on these inputs.
abbrev pub returns {ℓ} : {A : Type ℓ} → Run A → Bool
returns (done a) = true
returns halt = false

mmu_init-returns :
    returns
      (mmu_init 0x8000000014000000 0x8000000020000000 0x8000000020123456 (4 * 1024 * 1024 * 1024))
    ≡ true
unfolding mmu_init mmu_map_range map_range_loop mmu_map ea_2_vpn ea_2_seg_size ea_2_base_size
    mmu_map_vpn map_loop map_round vpn_hash avpn_encode rpn_encode vflags rflags rounds size_of
    pteg_count pteg_of scan_free is_valid swab64 ptr_2_ra align_up ilog2
mmu_init-returns = refl

-- The guest's "map" goes through.
map_vm-returns : returns (guest_exc_try a_platform.hw (rom_call a_platform) 0 map_vm) ≡ true
unfolding guest_exc_try try_other rom_call call_of is_string load32 dispatch do_call_method
    method_map map_pages align_up_32 is_aligned the_guest mmu_map_range map_range_loop mmu_map
    ea_2_vpn ea_2_seg_size ea_2_base_size guest_is_mmu_off mmu_map_vpn map_loop map_round vpn_hash
    avpn_encode rpn_encode vflags rflags rounds size_of pteg_of scan_free is_valid swab64 ptr_2_ra
map_vm-returns = refl
