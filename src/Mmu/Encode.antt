-- ===== src/Mmu/Encode.antt =====
-- How mmu.c encodes and hashes: the hash of a virtual page, the two words of a page table entry
-- and the operand of `tlbie`.
pub mod Hash
use prephv.Base.{
  ℕ, zero, suc, ◌+◌, ◌-◌, ◌*◌, ◌/◌, ◌%◌, ◌^◌, Bool, true, false, Run, done, halt, ◌>>=◌, ◌>>◌,
  bug_on, ◌==◌, ◌!=◌, if◌then◌else◌, bit_and, bit_or, bit_xor, lnot64, ◌-64◌, ◌<<<◌, ◌>>>◌, min,
  max,
}
use prephv.Ppc.{
  page_shift, page_shift_16m, min_ptegs, max_ptegs, pte_r_lp_4k_16m, pte_r_lp_16m_16m,
  pte_r_lp_4k_4k, pte_r_rpn_16m, pte_r_rpn_4k, pte_r_lp_shift, pte_v_avpn_shift, pte_v_avpn,
  tlbie_rb_1tb, tlbie_rb_l, tlbie_rb_ap_4k_16m, tlbie_rb_ap_shift, tlbie_rb_lp_16m_16m,
  tlbie_rb_lp_shift,
}
use prephv.Mmu.Types.{SegSize, seg_256m, seg_1t, PageSize, page_4k, page_16m, is_1t, is_16m}
use prephv.Mmu.Address.{vpn_shift, sid_shift}

unfoldable pub pteg_count : ℕ → ℕ
pteg_count ram_size = min (max (ram_size >>> (page_shift + 1)) min_ptegs) max_ptegs

abbrev pub page_shift_of : PageSize → ℕ
page_shift_of page_4k = page_shift
page_shift_of page_16m = page_shift_16m

unfoldable pub vpn_hash : ℕ → SegSize → PageSize → ℕ
vpn_hash vpn seg base =
    let mask = (1 <<< (sid_shift seg - vpn_shift)) -64 1 in
    let vsid = vpn >>> (sid_shift seg - vpn_shift) in
    let hash =
      bit_xor (bit_xor vsid (vsid <<< 25))
        (bit_and vpn mask >>> (page_shift_of base - vpn_shift)) in
    bit_and hash 0x7fffffffff

lp_of : PageSize → PageSize → ℕ
lp_of page_4k page_16m = pte_r_lp_4k_16m
lp_of page_16m page_16m = pte_r_lp_16m_16m
lp_of base page_4k = pte_r_lp_4k_4k

rpn_mask : PageSize → ℕ
rpn_mask page_16m = pte_r_rpn_16m
rpn_mask page_4k = pte_r_rpn_4k

unfoldable pub rpn_encode : ℕ → PageSize → PageSize → Run ℕ
unfolding lp_of rpn_mask
rpn_encode ra base actual = do
  bug_on (bit_and ra (rpn_mask actual) != ra)
  done (bit_or (bit_and ra (rpn_mask actual)) (lp_of base actual <<< pte_r_lp_shift))

unfoldable pub avpn_encode : ℕ → PageSize → ℕ
avpn_encode vpn base =
    let v = vpn >>> (23 - vpn_shift) in
    (if is_16m base then bit_and v (lnot64 1) else v) <<< pte_v_avpn_shift

-- PTE_V_COMPARE
unfoldable pub pte_v_compare : ℕ → ℕ → Bool
pte_v_compare x y = bit_and (bit_xor x y) pte_v_avpn == 0

size_bits : ℕ → PageSize → PageSize → ℕ → ℕ
size_bits vpn page_4k page_16m va =
    bit_or va (bit_or tlbie_rb_l (tlbie_rb_ap_4k_16m <<< tlbie_rb_ap_shift))
size_bits vpn page_16m page_16m va =
    bit_or (bit_or va (tlbie_rb_lp_16m_16m <<< tlbie_rb_lp_shift)) (bit_and vpn 0xfe)
size_bits vpn base page_4k va = va

-- The operand that `tlbie` gives its instruction.
unfoldable pub tlbie : ℕ → SegSize → PageSize → PageSize → ℕ
unfolding size_bits
tlbie vpn seg base actual =
    let va = bit_and (vpn <<< vpn_shift) (lnot64 ((1 <<< page_shift_of actual) -64 1)) in
    size_bits vpn base actual (if is_1t seg then bit_or va tlbie_rb_1tb else va)
