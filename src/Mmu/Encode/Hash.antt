-- ===== src/Mmu/Encode/Hash.antt =====
-- What the encodings of mmu.c keep of their inputs.
use prephv.Base.{
  ℕ, ◌+◌, ◌-◌, ◌*◌, ◌/◌, ◌%◌, ◌^◌, ◌<◌, ◌≡◌, arith, Option, some, done, bit_and, bit_or, get_or,
  false,
}
use prephv.Base.Bits.{and_field, and_low, or_add, or_split, or_fields_swap}
use prephv.Guest.State.{Guest, the_guest, guest_is_mmu_off}
use prephv.Mmu.Types.{seg_1t, SegSize, PageSize, ptr_2_ra, ra_2_ptr}
use prephv.Mmu.Address.{ea_2_seg_size, ea_2_vpn, hv_vsid}
use prephv.Mmu.Encode.{vpn_hash}

-- A hash has 39 bits.
pub vpn_hash-lt : (vpn : ℕ) (seg : SegSize) (base : PageSize) → vpn_hash vpn seg base < 2 ^ 39
unfolding vpn_hash
vpn_hash-lt vpn seg base = rw (and_low 39) (omega arith)

-- A real address below 2 ^ 63 goes to its hypervisor alias and back.
pub ptr_2_ra-ra_2_ptr :
    (ra : ℕ)
    → ra < 2 ^ 63
    → (p : ℕ) × (ra_2_ptr ra ≡ done p) × (p < 2 ^ 64) × (ptr_2_ra p ≡ done ra)
unfolding ra_2_ptr ptr_2_ra
ptr_2_ra-ra_2_ptr ra h = (
  ra + 2 ^ 63,
  ground (arith, or_fields_swap 63 1 ra),
  omega arith,
  ground (arith, and_low 63 (ra + 2 ^ 63)),
)

-- In the first terabyte of the hypervisor's space, the segment is one of 1T, and the virtual
-- page is that of the address, behind the hypervisor's segment identifier.
pub hv_vpn :
    (guest : Option Guest) (off : ℕ)
    → off < 2 ^ 40
    → (ea_2_seg_size guest (2 ^ 63 + off) ≡ done seg_1t)
      × (ea_2_vpn guest (2 ^ 63 + off) ≡ done (hv_vsid * 2 ^ 28 + off / 2 ^ 12))
unfolding ea_2_seg_size ea_2_vpn
hv_vpn guest off h =
    let bit : bit_and (2 ^ 63 + off) (2 ^ 63) ≡ 2 ^ 63 =
      rw (and_field 63 1 (2 ^ 63 + off)) (omega arith) in
    let low : bit_and (2 ^ 63 + off) (2 ^ 63 - 1) ≡ off =
      rw (and_low 63 (2 ^ 63 + off)) (omega arith) in
    (ground (arith, bit), ground (arith, bit, low, or_fields_swap 28 hv_vsid (off / 2 ^ 12)))

-- With the guest's MMU on, the virtual page of a guest address is the page within the segment,
-- behind the low 16 bits of the segment register `|` the index of the register.
pub guest_vpn :
    (g : Guest) (ea : ℕ)
    → ea < 2 ^ 32
    → guest_is_mmu_off (some g) ≡ done false
    → ea_2_vpn (some g) ea
      ≡ done (
          bit_or (ea / 2 ^ 28) (get_or g.sr (ea / 2 ^ 28) 0 % 2 ^ 16) * 2 ^ 16
          + ea / 2 ^ 12 % 2 ^ 16)
unfolding ea_2_seg_size ea_2_vpn the_guest
guest_vpn g ea h on = ground (
  arith,
  and_field 63 1 ea,
  or_split 16 (ea / 2 ^ 28) (ea / 2 ^ 12 % 2 ^ 16) (get_or g.sr (ea / 2 ^ 28) 0 % 2 ^ 16) 0,
  or_add 0 (ea / 2 ^ 12 % 2 ^ 16) 0,
)
