-- ===== src/Mmu/Slb.antt =====
-- The segment lookaside buffer of mmu.c: the entries it makes, and what it does with them.
-- The instructions are the processor's, so they come as an interface.
pub mod Fault
use prephv.Base.{
  ℕ, zero, suc, ◌+◌, ◌*◌, ◌/◌, ◌%◌, ◌^◌, Bool, true, false, Option, Run, done, halt, ◌>>=◌, ◌>>◌,
  bug_on, leb, ltb, ◌==◌, ◌!=◌, if◌then◌else◌, bit_and, bit_or, u32, ◌<<<◌, ◌>>>◌, get_or,
}
use prephv.Ppc.{
  hv_aspace, ail_aspace_start, esid_mask_1t, esid_mask_256mb, slb_esid_v, slb_vsid_kp,
  slb_vsid_shift_1t, slb_vsid_shift_256mb, slb_vsid_b_1t, slb_vsid_l, slb_vsid_lp_16m,
  slb_vsid_lp_4k, slb_vsid_lp_shift, slbie_b_1t, sr_count, sr_vsid_mask,
}
use prephv.Guest.State.{Guest, the_guest, guest_is_mmu_off}
use prephv.Mmu.Types.{SegSize, seg_256m, seg_1t, PageSize, page_4k, page_16m}
use prephv.Mmu.Address.{hv_vsid, ail_vsid, grm_vsid, layout_vm_start, sr_index}

-- `slbmte rs rb` writes an entry, `slbmfee` and `slbmfev` read the halves of one, `slbie`
-- drops the entry of an address and `slbia` all entries but the first.
pub record SlbUnit : Type 1 where
  pub Slb : Type 0
  pub slbmte : ℕ → ℕ → Slb → Slb
  pub slbmfee : ℕ → Slb → ℕ
  pub slbmfev : ℕ → Slb → ℕ
  pub slbie : ℕ → Slb → Slb
  pub slbia : Slb → Slb

-- `err_t` of include/types.h
pub data Err : Type 0 where
  err_none err_not_ready err_unsupported err_no_mem err_not_found err_invalid : Err

abbrev pub hv_slot : ℕ
hv_slot = 0

abbrev pub ail_slot : ℕ
ail_slot = 1

abbrev pub grm_slot : ℕ
grm_slot = 2

abbrev pub sr_index_to_slb_slot : ℕ → ℕ
sr_index_to_slb_slot x = x + 3

-- SR_INDEX_TO_EA
abbrev pub sr_index_to_ea : ℕ → ℕ
sr_index_to_ea i = i <<< 28

unfoldable pub slb_make_esid : ℕ → SegSize → ℕ → ℕ
slb_make_esid ea seg_1t slot = bit_or (bit_or (bit_and ea esid_mask_1t) slb_esid_v) slot
slb_make_esid ea seg_256m slot = bit_or (bit_or (bit_and ea esid_mask_256mb) slb_esid_v) slot

vsid_flags : ℕ → SegSize → ℕ
vsid_flags vsid seg_1t = bit_or slb_vsid_kp (bit_or (vsid <<< slb_vsid_shift_1t) slb_vsid_b_1t)
vsid_flags vsid seg_256m = bit_or slb_vsid_kp (vsid <<< slb_vsid_shift_256mb)

unfoldable pub slb_make_vsid : ℕ → SegSize → PageSize → ℕ
unfolding vsid_flags
slb_make_vsid vsid seg page_16m =
    bit_or (bit_or (vsid_flags vsid seg) slb_vsid_l) (slb_vsid_lp_16m <<< slb_vsid_lp_shift)
slb_make_vsid vsid seg page_4k = bit_or (vsid_flags vsid seg) (slb_vsid_lp_4k <<< slb_vsid_lp_shift)

-- The operand of `slbie`.
unfoldable pub slb_invalidate_operand : ℕ → SegSize → ℕ
slb_invalidate_operand ea seg_1t = bit_or slbie_b_1t (bit_and ea esid_mask_1t)
slb_invalidate_operand ea seg_256m = bit_or 0 (bit_and ea esid_mask_256mb)

module _ (hw : SlbUnit) where
  open hw use {Slb, slbmte, slbmfee, slbie, slbia}

  unfoldable pub slb_invalidate : ℕ → SegSize → Slb → Slb
  slb_invalidate ea seg s = slbie (slb_invalidate_operand ea seg) s

  unfoldable pub slb_init : Slb → Slb
  slb_init s =
      slbmte (slb_make_vsid ail_vsid seg_256m page_4k)
        (slb_make_esid ail_aspace_start seg_256m ail_slot)
        (slbmte (slb_make_vsid hv_vsid seg_1t page_16m) (slb_make_esid hv_aspace seg_1t hv_slot)
          (slbia s))

  -- The loop over the segment registers, with `left` rounds to go.
  invalidate_srs : ℕ → ℕ → Slb → Slb
  unfolding slb_invalidate
  invalidate_srs zero i s = s
  invalidate_srs (suc left) i s =
      invalidate_srs left (i + 1) (slb_invalidate (sr_index_to_ea i) seg_256m s)

  unfoldable pub mmu_guest_update : Bool → Slb → Slb
  unfolding slb_invalidate invalidate_srs
  mmu_guest_update true s = slb_invalidate layout_vm_start seg_1t s
  mmu_guest_update false s =
      slbmte (slb_make_vsid grm_vsid seg_1t page_16m)
        (slb_make_esid layout_vm_start seg_1t grm_slot) (invalidate_srs sr_count 0 s)

  -- `sr_index` and `slb_slot` are `unsigned`.
  unfoldable pub mmu_guest_fault_seg : Option Guest → ℕ → Slb → Run (Err × Slb)
  mmu_guest_fault_seg guest ea s = do
    let sr = u32 (sr_index ea)
    let slot = u32 (sr_index_to_slb_slot sr)
    bug_on (leb sr_count sr)
    if bit_and (slbmfee slot s) slb_esid_v != 0 then done (err_unsupported, s) else do
      off ← guest_is_mmu_off guest
      bug_on off
      g ← the_guest guest
      done (
        err_none,
        slbmte (slb_make_vsid (bit_and (get_or g.sr sr 0) sr_vsid_mask) seg_256m page_4k)
            (slb_make_esid ea seg_256m slot) s,
      )
