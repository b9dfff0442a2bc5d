-- ===== src/Ppc.antt =====
-- The constants of include/ppc-defs.h that the modelled code uses, as 64-bit values: bits of
-- the machine state register, special purpose registers, exception vectors, the segment
-- lookaside buffer and the hashed page table.
use Prim.Native.Nat.{ℕ}

abbrev pub msr_sf : ℕ
msr_sf = 0x8000000000000000

abbrev pub msr_ee : ℕ
msr_ee = 0x8000

abbrev pub msr_pr : ℕ
msr_pr = 0x4000

abbrev pub msr_ir : ℕ
msr_ir = 0x20

abbrev pub msr_dr : ℕ
msr_dr = 0x10

abbrev pub msr_ri : ℕ
msr_ri = 2

abbrev pub hid0_hile : ℕ
hid0_hile = 0x100000000000

abbrev pub lpcr_ile : ℕ
lpcr_ile = 0x2000000

abbrev pub lpcr_ail1 : ℕ
lpcr_ail1 = 0x1000000

abbrev pub lpcr_ail0 : ℕ
lpcr_ail0 = 0x800000

abbrev pub lpcr_lpes : ℕ
lpcr_lpes = 8

abbrev pub sprn_srr0 : ℕ
sprn_srr0 = 0x1a

abbrev pub sprn_srr1 : ℕ
sprn_srr1 = 0x1b

abbrev pub sprn_sdr1 : ℕ
sprn_sdr1 = 0x19

abbrev pub sprn_sprg0 : ℕ
sprn_sprg0 = 0x110

abbrev pub sprn_sprg3 : ℕ
sprn_sprg3 = 0x113

abbrev pub sprn_pvr : ℕ
sprn_pvr = 0x11f

abbrev pub sprn_ibat0u : ℕ
sprn_ibat0u = 0x210

abbrev pub sprn_dbat3l : ℕ
sprn_dbat3l = 0x21f

abbrev pub dsisr_not_mapped : ℕ
dsisr_not_mapped = 0x40000000

abbrev pub srr1_isi_not_mapped : ℕ
srr1_isi_not_mapped = 0x40000000

abbrev pub dec_disable : ℕ
dec_disable = 0x7fffffff

abbrev pub exc_dsi : ℕ
exc_dsi = 0x300

abbrev pub exc_dseg : ℕ
exc_dseg = 0x380

abbrev pub exc_isi : ℕ
exc_isi = 0x400

abbrev pub exc_iseg : ℕ
exc_iseg = 0x480

abbrev pub exc_prog : ℕ
exc_prog = 0x700

abbrev pub exc_dec : ℕ
exc_dec = 0x900

abbrev pub exc_sc : ℕ
exc_sc = 0xc00

abbrev pub exc_hea : ℕ
exc_hea = 0xe40

abbrev pub hv_aspace : ℕ
hv_aspace = 0x8000000000000000

abbrev pub ail_aspace_start : ℕ
ail_aspace_start = 0xc000000000000000

abbrev pub ail_vectors : ℕ
ail_vectors = 0xc000000000004000

abbrev pub ail_aspace_end : ℕ
ail_aspace_end = 0xc000000000100000

abbrev pub tlbie_rb_1tb : ℕ
tlbie_rb_1tb = 0x200

abbrev pub tlbie_rb_l : ℕ
tlbie_rb_l = 1

abbrev pub tlbie_rb_ap_shift : ℕ
tlbie_rb_ap_shift = 7

abbrev pub tlbie_rb_ap_4k_16m : ℕ
tlbie_rb_ap_4k_16m = 4

abbrev pub tlbie_rb_lp_shift : ℕ
tlbie_rb_lp_shift = 0x13

abbrev pub tlbie_rb_lp_16m_16m : ℕ
tlbie_rb_lp_16m_16m = 0

abbrev pub sid_shift_1t : ℕ
sid_shift_1t = 0x28

abbrev pub esid_mask_1t : ℕ
esid_mask_1t = 0xffffff0000000000

abbrev pub sid_shift_256mb : ℕ
sid_shift_256mb = 0x1c

abbrev pub esid_mask_256mb : ℕ
esid_mask_256mb = 0xfffffffff0000000

abbrev pub slbie_b_1t : ℕ
slbie_b_1t = 0x2000000

abbrev pub slb_esid_v : ℕ
slb_esid_v = 0x8000000

abbrev pub slb_vsid_shift_1t : ℕ
slb_vsid_shift_1t = 0x18

abbrev pub slb_vsid_shift_256mb : ℕ
slb_vsid_shift_256mb = 0xc

abbrev pub slb_vsid_b_1t : ℕ
slb_vsid_b_1t = 0x4000000000000000

abbrev pub slb_vsid_kp : ℕ
slb_vsid_kp = 0x400

abbrev pub slb_vsid_l : ℕ
slb_vsid_l = 0x100

abbrev pub slb_vsid_lp_shift : ℕ
slb_vsid_lp_shift = 5

abbrev pub slb_vsid_lp_16m : ℕ
slb_vsid_lp_16m = 0

abbrev pub slb_vsid_lp_4k : ℕ
slb_vsid_lp_4k = 0

abbrev pub sr_count : ℕ
sr_count = 0x10

abbrev pub sr_vsid_mask : ℕ
sr_vsid_mask = 0xffffff

abbrev pub sr_vsid_shift : ℕ
sr_vsid_shift = 0

abbrev pub pteg_size : ℕ
pteg_size = 0x80

abbrev pub ptes_per_group : ℕ
ptes_per_group = 8

abbrev pub min_ptegs : ℕ
min_ptegs = 0x800

abbrev pub max_ptegs : ℕ
max_ptegs = 0x8000000000

abbrev pub htab_align : ℕ
htab_align = 0x40000

abbrev pub sdr1_mask : ℕ
sdr1_mask = 0xfffffffffffc0000

abbrev pub page_shift : ℕ
page_shift = 0xc

abbrev pub page_size : ℕ
page_size = 0x1000

abbrev pub page_shift_16m : ℕ
page_shift_16m = 0x18

abbrev pub page_size_16m : ℕ
page_size_16m = 0x1000000

abbrev pub page_mask_16m : ℕ
page_mask_16m = 0xffffffffff000000

abbrev pub pte_v_1tb_seg : ℕ
pte_v_1tb_seg = 0x4000000000000000

abbrev pub pte_v_avpn_shift : ℕ
pte_v_avpn_shift = 7

abbrev pub pte_v_avpn : ℕ
pte_v_avpn = 0x3fffffffffffff80

abbrev pub pte_v_large : ℕ
pte_v_large = 4

abbrev pub pte_v_valid : ℕ
pte_v_valid = 1

abbrev pub pte_r_rpn_4k : ℕ
pte_r_rpn_4k = 0xffffffffffff000

abbrev pub pte_r_rpn_16m : ℕ
pte_r_rpn_16m = 0xfffffffff000000

abbrev pub pte_r_m : ℕ
pte_r_m = 0x10

abbrev pub pte_r_lp_shift : ℕ
pte_r_lp_shift = 0xc

abbrev pub pte_r_lp_4k_4k : ℕ
pte_r_lp_4k_4k = 0

abbrev pub pte_r_lp_4k_16m : ℕ
pte_r_lp_4k_16m = 0x38

abbrev pub pte_r_lp_16m_16m : ℕ
pte_r_lp_16m_16m = 0

abbrev pub pp_rwxx : ℕ
pp_rwxx = 0

abbrev pub pp_rwrw : ℕ
pp_rwrw = 2
