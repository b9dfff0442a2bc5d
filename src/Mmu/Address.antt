-- ===== src/Mmu/Address.antt =====
-- How mmu.c classifies an effective address: its segment size, base page size and virtual page.
use prephv.Base.{
  ℕ, ◌-◌, ◌*◌, ◌^◌, Bool, ◌&&◌, Option, Run, done, ◌>>=◌, ◌>>◌, bug_on, leb, ◌!=◌, if◌then◌else◌,
  bit_and, bit_or, u32, lnot64, ◌-64◌, ◌<<<◌, ◌>>>◌, get_or,
}
use prephv.Ppc.{hv_aspace, ail_aspace_start, ail_aspace_end, sid_shift_1t, sid_shift_256mb}
use prephv.Guest.State.{Guest, is_null, the_guest, guest_is_mmu_off}
use prephv.Mmu.Types.{SegSize, seg_256m, seg_1t, PageSize, page_4k, page_16m}

abbrev pub vpn_shift : ℕ
vpn_shift = 12

abbrev pub hv_vsid : ℕ
hv_vsid = 0x876543210

abbrev pub ail_vsid : ℕ
ail_vsid = 0x876543210123

abbrev pub grm_vsid : ℕ
grm_vsid = 0x555555555

-- LAYOUT_VM_START and LAYOUT_VM_END of include/layout.h
abbrev pub layout_vm_start : ℕ
layout_vm_start = 0

abbrev pub layout_vm_end : ℕ
layout_vm_end = 0x100000000

abbrev pub is_ail : ℕ → Bool
is_ail ea = leb ail_aspace_start ea && leb ea ail_aspace_end

unfoldable pub ea_2_seg_size : Option Guest → ℕ → Run SegSize
ea_2_seg_size guest ea =
    if is_ail ea then done seg_256m else if bit_and ea hv_aspace != 0 then done seg_1t else do
      bug_on (leb layout_vm_end ea)
      bug_on (is_null guest)
      off ← guest_is_mmu_off guest
      done (if off then seg_1t else seg_256m)

unfoldable pub ea_2_base_size : Option Guest → ℕ → Run PageSize
ea_2_base_size guest ea =
    if is_ail ea then done page_4k else if leb hv_aspace ea then done page_16m else do
      bug_on (leb layout_vm_end ea)
      bug_on (is_null guest)
      off ← guest_is_mmu_off guest
      done (if off then page_16m else page_4k)

abbrev pub sid_shift : SegSize → ℕ
sid_shift seg_1t = sid_shift_1t
sid_shift seg_256m = sid_shift_256mb

-- SR_INDEX(ea)
abbrev pub sr_index : ℕ → ℕ
sr_index ea = ea >>> 28

-- The segment registers are `uint32_t`, so the last shift drops what leaves 32 bits.
unfoldable pub ea_2_vpn : Option Guest → ℕ → Run ℕ
unfolding ea_2_seg_size
ea_2_vpn guest ea = do
  seg ← ea_2_seg_size guest ea
  let shift = sid_shift seg - vpn_shift
  if is_ail ea
      then done (bit_or ((ea -64 ail_aspace_start) >>> vpn_shift) (ail_vsid <<< shift))
      else if bit_and ea hv_aspace != 0
      then done (bit_or (bit_and ea (lnot64 hv_aspace) >>> vpn_shift) (hv_vsid <<< shift))
      else do
        bug_on (leb layout_vm_end ea)
        g ← the_guest guest
        off ← guest_is_mmu_off guest
        done (
            if off
            then bit_or ((ea -64 layout_vm_start) >>> vpn_shift) (grm_vsid <<< shift)
            else bit_or ((ea -64 layout_vm_start) >>> vpn_shift)
                (u32 (get_or g.sr (sr_index ea) 0 * 2 ^ shift)))
