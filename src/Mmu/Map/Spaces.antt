-- ===== src/Mmu/Map/Spaces.antt =====
-- The stretches of addresses that mmu.c maps: the hypervisor's space, the vectors, and the
-- guest's addresses with its MMU off and on.
use prephv.Base.{
  ℕ, ◌+◌, ◌-◌, ◌*◌, ◌/◌, ◌^◌, ◌≤◌, ◌<◌, ◌≡◌, arith, Option, some, done, true, false, get_or, refl,
}
use prephv.Base.Bits.{and_field, or_fields_swap}
use prephv.Base.Bits.Cancel.{or_self}
use prephv.Ppc.{ail_aspace_start, ail_aspace_end}
use prephv.Guest.State.{Guest, the_guest, guest_is_mmu_off}
use prephv.Mmu.Types.{seg_256m, seg_1t, page_4k, page_16m}
use prephv.Mmu.Address.{ea_2_seg_size, ea_2_base_size, ea_2_vpn, hv_vsid, ail_vsid, grm_vsid}
use prephv.Mmu.Encode.Hash.{hv_vpn, guest_vpn}
use prephv.Mmu.Map.Region.{IsRegion, vpn_of}

-- The first terabyte of the hypervisor's space.
module _ (guest : Option Guest) where
  hv_base_size :
      (ea : ℕ) → 2 ^ 63 ≤ ea → ea < 2 ^ 63 + 2 ^ 40 → ea_2_base_size guest ea ≡ done page_16m
  unfolding ea_2_base_size
  hv_base_size ea a b = ground arith

  hv_seg_size : (ea : ℕ) → 2 ^ 63 ≤ ea → ea < 2 ^ 63 + 2 ^ 40 → ea_2_seg_size guest ea ≡ done seg_1t
  hv_seg_size ea a b =
      let e : 2 ^ 63 + (ea - 2 ^ 63) ≡ ea = omega arith in
      rw e at ((hv_vpn guest (ea - 2 ^ 63) (omega arith)).0)

  hv_page_number :
      (ea : ℕ)
      → 2 ^ 63 ≤ ea
      → ea < 2 ^ 63 + 2 ^ 40
      → ea_2_vpn guest ea ≡ done (vpn_of (2 ^ 63) (hv_vsid * 2 ^ 28) ea)
  hv_page_number ea a b =
      let e : 2 ^ 63 + (ea - 2 ^ 63) ≡ ea = omega arith in
      ground (arith, hv_vpn guest (ea - 2 ^ 63) (omega arith), e)

  pub hv-IsRegion : IsRegion guest (2 ^ 63) (2 ^ 63 + 2 ^ 40) (hv_vsid * 2 ^ 28) seg_1t page_16m
  hv-IsRegion = record {
    seg_size = hv_seg_size;
    base_size = hv_base_size;
    page_number = hv_page_number;
    top = omega arith;
    base_aligned = refl;
    vpn_aligned = refl;
    room = omega arith;
  }

  -- The vectors' space, below its last address.
  ail_seg_size :
      (ea : ℕ)
      → ail_aspace_start ≤ ea
      → ea < ail_aspace_end
      → ea_2_seg_size guest ea ≡ done seg_256m
  unfolding ea_2_seg_size
  ail_seg_size ea a b = ground arith

  ail_base_size :
      (ea : ℕ)
      → ail_aspace_start ≤ ea
      → ea < ail_aspace_end
      → ea_2_base_size guest ea ≡ done page_4k
  unfolding ea_2_base_size
  ail_base_size ea a b = ground arith

  ail_page_number :
      (ea : ℕ)
      → ail_aspace_start ≤ ea
      → ea < ail_aspace_end
      → ea_2_vpn guest ea ≡ done (vpn_of ail_aspace_start (ail_vsid * 2 ^ 16) ea)
  unfolding ea_2_vpn
  ail_page_number ea a b =
      ground
        (arith, ail_seg_size ea a b, or_fields_swap 16 ail_vsid ((ea - ail_aspace_start) / 2 ^ 12))

  pub ail-IsRegion :
      IsRegion guest ail_aspace_start ail_aspace_end (ail_vsid * 2 ^ 16) seg_256m page_4k
  ail-IsRegion = record {
    seg_size = ail_seg_size;
    base_size = ail_base_size;
    page_number = ail_page_number;
    top = omega arith;
    base_aligned = refl;
    vpn_aligned = refl;
    room = omega arith;
  }

-- The addresses of the guest while its MMU is off.
module _ (g : Guest) (off : guest_is_mmu_off (some g) ≡ done true) where
  off_seg_size : (ea : ℕ) → 0 ≤ ea → ea < 2 ^ 32 → ea_2_seg_size (some g) ea ≡ done seg_1t
  unfolding ea_2_seg_size
  off_seg_size ea a b = ground (arith, and_field 63 1 ea)

  off_base_size : (ea : ℕ) → 0 ≤ ea → ea < 2 ^ 32 → ea_2_base_size (some g) ea ≡ done page_16m
  unfolding ea_2_base_size
  off_base_size ea a b = ground arith

  off_page_number :
      (ea : ℕ)
      → 0 ≤ ea
      → ea < 2 ^ 32
      → ea_2_vpn (some g) ea ≡ done (vpn_of 0 (grm_vsid * 2 ^ 28) ea)
  unfolding ea_2_vpn the_guest
  off_page_number ea a b =
      ground
        (arith, off_seg_size ea a b, and_field 63 1 ea, or_fields_swap 28 grm_vsid (ea / 2 ^ 12))

  pub off-IsRegion : IsRegion (some g) 0 (2 ^ 32) (grm_vsid * 2 ^ 28) seg_1t page_16m
  off-IsRegion = record {
    seg_size = off_seg_size;
    base_size = off_base_size;
    page_number = off_page_number;
    top = omega arith;
    base_aligned = refl;
    vpn_aligned = refl;
    room = omega arith;
  }

-- The addresses of the guest while its MMU is on and each segment register has its index.
module _ (g : Guest) (on : guest_is_mmu_off (some g) ≡ done false)
    (srs : (i : ℕ) → i < 16 → get_or g.sr i 0 ≡ i) where
  on_seg_size : (ea : ℕ) → 0 ≤ ea → ea < 2 ^ 32 → ea_2_seg_size (some g) ea ≡ done seg_256m
  unfolding ea_2_seg_size
  on_seg_size ea a b = ground (arith, and_field 63 1 ea)

  on_base_size : (ea : ℕ) → 0 ≤ ea → ea < 2 ^ 32 → ea_2_base_size (some g) ea ≡ done page_4k
  unfolding ea_2_base_size
  on_base_size ea a b = ground arith

  on_page_number : (ea : ℕ) → 0 ≤ ea → ea < 2 ^ 32 → ea_2_vpn (some g) ea ≡ done (vpn_of 0 0 ea)
  on_page_number ea a b =
      ground (arith, guest_vpn g ea b on, srs (ea / 2 ^ 28) (omega arith), or_self (ea / 2 ^ 28))

  pub on-IsRegion : IsRegion (some g) 0 (2 ^ 32) 0 seg_256m page_4k
  on-IsRegion = record {
    seg_size = on_seg_size;
    base_size = on_base_size;
    page_number = on_page_number;
    top = omega arith;
    base_aligned = refl;
    vpn_aligned = refl;
    room = omega arith;
  }
