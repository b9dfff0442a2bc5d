-- ===== src/Mmu/Map/Hv.antt =====
-- The ranges of the hypervisor that `mmu_init` of mmu.c maps, one at a time.
use prephv.Base.{
  ℕ, ◌+◌, ◌-◌, ◌*◌, ◌/◌, ◌%◌, ◌^◌, ◌≤◌, ◌<◌, ◌≡◌, ◌≢◌, refl, arith, Option, none, some, done,
  bit_and, bit_or, IfDone, mb, if◌then◌else◌, inr, ◌⊎◌, align_up, is_aligned, u64, ◌-64◌, [],
}
use prephv.Base.Bits.{and_field, and_low}
use prephv.Ppc.{page_mask_16m, pp_rwxx, ail_aspace_start, ail_aspace_end, ail_vectors, pteg_size}
use prephv.Mmu.Types.{
  Mmu, SegSize, seg_1t, seg_256m, PageSize, page_4k, page_16m, size_of, ptr_2_ra,
}
use prephv.Mmu.Address.{hv_vsid, ail_vsid}
use prephv.Mmu.Encode.{pteg_count}
use prephv.Mmu.Htab.{rflags, is_valid}
use prephv.Mmu.Htab.Entry.{avpn}
use prephv.Mmu.Htab.Scan.{walk_from, hit}
use prephv.Mmu.Htab.Refine.{walk}
use prephv.Mmu.Map.{mmu_map_range}
use prephv.Mmu.Map.Region.{vpn_of}
use prephv.Mmu.Map.Fill.{IsLarge, Fills, fill_range}
use prephv.Mmu.Map.Lookup.{in_range, walk-Fills}
use prephv.Mmu.Map.Spaces.{hv-IsRegion}
use prephv.Endian.{swab64}

-- Down and up to a multiple of 16 MB.
abbrev pub down : ℕ → ℕ
down x = x / 2 ^ 24 * 2 ^ 24

abbrev pub up : ℕ → ℕ
up x = down (x + (2 ^ 24 - 1))

pub mask_down : (x : ℕ) → x < 2 ^ 64 → bit_and x page_mask_16m ≡ down x
mask_down x lt = ground (arith, and_field 24 40 x)

pub align_up_lem : (x : ℕ) → x + 2 ^ 24 ≤ 2 ^ 64 → align_up x (mb 16) ≡ up x
unfolding align_up is_aligned
align_up_lem x le = ground (arith, and_low 24 x, and_field 24 40 (x + (2 ^ 24 - 1)))

pub ptr_2_ra_lem : (x : ℕ) → 2 ^ 63 ≤ x → x < 2 ^ 64 → ptr_2_ra x ≡ done (x - 2 ^ 63)
unfolding ptr_2_ra
ptr_2_ra_lem x a b = ground (arith, and_low 63 x)

-- The table of `mmu_init` before anything is mapped.
abbrev pub empty_mmu : ℕ → Mmu
empty_mmu ram_size = record {
  htab = λ _. record { v = 0; r = 0 };
  ptegs = pteg_count ram_size;
  htab_size = u64 (pteg_count ram_size * pteg_size);
  htab_hash_mask = pteg_count ram_size -64 1;
  tlbies = [];
}

pub walk-empty :
    (ram_size vpn : ℕ) (seg : SegSize) (page : PageSize)
    → walk (empty_mmu ram_size) vpn seg page ≡ none
unfolding walk walk_from hit is_valid swab64
walk-empty ram_size vpn seg page = refl

pub empty-IsLarge : (ram_size : ℕ) → ram_size % 2 ^ 24 ≡ 0 → IsLarge (empty_mmu ram_size)
unfolding pteg_count
empty-IsLarge ram_size h = omega arith

abbrev pub hv_page : ℕ → ℕ
hv_page ea = vpn_of (2 ^ 63) (hv_vsid * 2 ^ 28) ea

abbrev pub ail_page : ℕ → ℕ
ail_page ea = vpn_of ail_aspace_start (ail_vsid * 2 ^ 16) ea

-- The hypervisor's addresses that are direct-mapped: the first 64 GB.
abbrev pub IsHv : ℕ → Type 0
IsHv ea = (2 ^ 63 ≤ ea) × (ea < 2 ^ 63 + 2 ^ 36)

-- The entry of a direct-mapped address.
abbrev pub hv_frame : ℕ → Option ℕ
hv_frame ea = some (bit_or (down (ea - 2 ^ 63)) (rflags pp_rwxx))

abbrev pub HvFills : ℕ → ℕ → Mmu → Mmu → Type 0
HvFills a b m m' = Fills (2 ^ 63) (hv_vsid * 2 ^ 28) seg_1t page_16m b pp_rwxx m a (a - 2 ^ 63) m'

abbrev pub AilFills : Mmu → Mmu → Type 0
AilFills m m' =
    Fills ail_aspace_start (ail_vsid * 2 ^ 16) seg_256m page_4k ail_aspace_end pp_rwxx m ail_vectors
      0 m'

module _ (a b : ℕ) (low : 2 ^ 63 ≤ a) (le : a ≤ b) (high : b ≤ 2 ^ 63 + 2 ^ 36)
    (al : a % 2 ^ 24 ≡ 0) (al' : b % 2 ^ 24 ≡ 0) (m : Mmu) (large : IsLarge m) where
  pub hv_filled :
      ((ea : ℕ) → a ≤ ea → ea < b → walk m (hv_page ea) seg_1t page_16m ≡ none)
      → IfDone (HvFills a b m) (mmu_map_range none a b (a - 2 ^ 63) pp_rwxx page_16m m)
  unfolding size_of
  hv_filled free =
      fill_range none (2 ^ 63) (2 ^ 63 + 2 ^ 40) (hv_vsid * 2 ^ 28) seg_1t page_16m
        (hv-IsRegion none) b pp_rwxx (omega arith) (omega arith) a (a - 2 ^ 63) m low le al
        (omega arith) (omega arith) (omega arith) large free

  pub hv_found :
      (m' : Mmu) (ea : ℕ)
      → HvFills a b m m'
      → IsHv ea
      → walk m' (hv_page ea) seg_1t page_16m
        ≡ (if in_range a b ea then hv_frame ea else walk m (hv_page ea) seg_1t page_16m)
  unfolding size_of
  hv_found m' ea fills (p, q) =
      let found =
        walk-Fills none (2 ^ 63) (2 ^ 63 + 2 ^ 40) (hv_vsid * 2 ^ 28) seg_1t page_16m
          (hv-IsRegion none) a b pp_rwxx (omega arith) low le al (omega arith) m m' (a - 2 ^ 63) ea
          large fills p (omega arith) in
      let frame : a ≤ ea → a - 2 ^ 63 + (ea - a) / 2 ^ 24 * 2 ^ 24 ≡ down (ea - 2 ^ 63) =
        λ c. omega arith in
      ground (arith, frame)

  -- All pages but the hypervisor's are as before.
  pub hv_kept :
      (m' : Mmu) (vpn : ℕ) (seg : SegSize) (page : PageSize)
      → HvFills a b m m'
      → vpn < 2 ^ 64
      → (avpn vpn page < hv_vsid * 2 ^ 17) ⊎ (hv_vsid * 2 ^ 17 + 2 ^ 13 ≤ avpn vpn page)
      → walk m' vpn seg page ≡ walk m vpn seg page
  hv_kept m' vpn seg page fills lt apart =
      fills.1 vpn seg page lt (λ ea c d. inr (λ e. ground arith))

module _ (m m' : Mmu) (fills : AilFills m m') where
  pub ail_kept :
      (vpn : ℕ) (seg : SegSize) (page : PageSize)
      → vpn < 2 ^ 64
      → avpn vpn page ≢ ail_vsid * 2 ^ 5
      → walk m' vpn seg page ≡ walk m vpn seg page
  ail_kept vpn seg page lt apart =
      fills.1 vpn seg page lt (λ ea c d. inr (λ e. apart (omega arith)))
