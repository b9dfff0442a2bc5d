-- ===== src/Mmu/Map/Page.antt =====
-- `mmu_map` of mmu.c for a page of the guest, while the guest's MMU is on.
use prephv.Base.{
  ℕ, ◌+◌, ◌-◌, ◌*◌, ◌/◌, ◌%◌, ◌^◌, ◌<◌, ◌≡◌, arith, false, none, some, done, bit_and, bit_or,
  get_or, lnot64,
}
use prephv.Base.Bits.{and_field, or-lt}
use prephv.Guest.State.{Guest, guest_is_mmu_off}
use prephv.Mmu.Types.{SegSize, PageSize, seg_256m, page_4k, size_of, Mmu}
use prephv.Mmu.Address.{ea_2_seg_size, ea_2_base_size}
use prephv.Mmu.Encode.Hash.{guest_vpn}
use prephv.Mmu.Htab.{rflags}
use prephv.Mmu.Htab.Refine.{walk, HasFree, OtherPage, IsFrame, map-walk}
use prephv.Mmu.Map.{mmu_map}

-- The virtual page of an address of the guest.
abbrev pub guest_page : Guest → ℕ → ℕ
guest_page g ea =
    bit_or (ea / 2 ^ 28) (get_or g.sr (ea / 2 ^ 28) 0 % 2 ^ 16) * 2 ^ 16 + ea / 2 ^ 12 % 2 ^ 16

-- The page table with one page more: the page is found, and every other as before.
abbrev pub Gains : Mmu → ℕ → ℕ → Mmu → Type 0
Gains m vpn r m' =
    (walk m' vpn seg_256m page_4k ≡ some r)
    × ((vpn' : ℕ) (seg' : SegSize) (page' : PageSize)
        → vpn' < 2 ^ 64
        → OtherPage m vpn seg_256m page_4k vpn' seg' page'
        → walk m' vpn' seg' page' ≡ walk m vpn' seg' page')

module _ (g : Guest) (on : guest_is_mmu_off (some g) ≡ done false) (ea : ℕ)
    (low : ea < 2 ^ 32) where
  guest_page-lt : guest_page g ea < 2 ^ 64
  guest_page-lt =
      let h =
        or-lt 16 (ea / 2 ^ 28) (get_or g.sr (ea / 2 ^ 28) 0 % 2 ^ 16) (omega arith) (omega arith) in
      omega arith

  pub is_256m : ea_2_seg_size (some g) ea ≡ done seg_256m
  unfolding ea_2_seg_size
  is_256m = ground (arith, and_field 63 1 ea)

  pub is_4k : ea_2_base_size (some g) ea ≡ done page_4k
  unfolding ea_2_base_size
  is_4k = ground arith

  pub mmu_map-Gains :
      (ra pp : ℕ) (m : Mmu)
      → ea % 2 ^ 12 ≡ 0
      → pp < 2 ^ 64
      → IsFrame ra page_4k
      → HasFree m (guest_page g ea) seg_256m page_4k
      → walk m (guest_page g ea) seg_256m page_4k ≡ none
      → (m' : Mmu) × (mmu_map (some g) ea ra pp page_4k m ≡ done m')
        × Gains m (guest_page g ea) (bit_or ra (rflags pp)) m'
  unfolding mmu_map size_of
  mmu_map-Gains ra pp m al lt frame free absent =
      let (m', e, found, others) =
        map-walk m (guest_page g ea) seg_256m page_4k ra pp guest_page-lt lt frame free absent in
      let start : bit_and ea (lnot64 (2 ^ 12 - 1)) ≡ ea = ground (arith, and_field 12 52 ea) in
      (m', rw (start, guest_vpn g ea low on, is_256m, is_4k, e) (ground arith), (found, others))
