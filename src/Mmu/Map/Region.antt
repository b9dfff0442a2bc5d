-- ===== src/Mmu/Map/Region.antt =====
-- A stretch of effective addresses with one segment size, one base page size and consecutive
-- virtual pages, as mmu.c classifies them, and what `mmu_map` does for one page of it.
use prephv.Base.{
  ℕ, ◌+◌, ◌-◌, ◌/◌, ◌%◌, ◌^◌, ◌≤◌, ◌<◌, ◌≡◌, arith, Option, none, some, Run, done, ◌>>=◌, ◌>>◌,
  bug_on, not, bit_and, bit_or, lnot64, inl, inr, IfDone,
}
use prephv.Base.Bits.{and_field}
use prephv.Guest.State.{Guest}
use prephv.Mmu.Types.{SegSize, PageSize, page_4k, page_16m, size_of, Mmu}
use prephv.Mmu.Address.{ea_2_seg_size, ea_2_base_size, ea_2_vpn}
use prephv.Mmu.Htab.{rflags, mmu_map_vpn}
use prephv.Mmu.Htab.Refine.{walk, OtherPage, IsFrame, map-walk, map_one, map_or_full, mapped}
use prephv.Mmu.Map.{mmu_map}

-- What the table gives for an address: the second word of the entry for its page.
unfoldable pub lookup : Option Guest → Mmu → ℕ → Run (Option ℕ)
lookup guest m ea = do
  vpn ← ea_2_vpn guest ea
  seg ← ea_2_seg_size guest ea
  base ← ea_2_base_size guest ea
  done (walk m vpn seg base)

-- The virtual page of an address, if page `vpn` is that of `lo`.
abbrev pub vpn_of : ℕ → ℕ → ℕ → ℕ
vpn_of lo vpn ea = vpn + (ea - lo) / 2 ^ 12

pub record IsRegion (guest : Option Guest) (lo hi vpn : ℕ) (seg : SegSize) (page : PageSize)
    : Type 0 where
  pub seg_size : (ea : ℕ) → lo ≤ ea → ea < hi → ea_2_seg_size guest ea ≡ done seg
  pub base_size : (ea : ℕ) → lo ≤ ea → ea < hi → ea_2_base_size guest ea ≡ done page
  pub page_number : (ea : ℕ) → lo ≤ ea → ea < hi → ea_2_vpn guest ea ≡ done (vpn_of lo vpn ea)
  pub top : hi < 2 ^ 64
  pub base_aligned : lo % 2 ^ 24 ≡ 0
  pub vpn_aligned : vpn % 2 ^ 12 ≡ 0
  pub room : vpn + (hi - lo) / 2 ^ 12 < 2 ^ 64

-- The table with one page more, and all others as before.
abbrev pub Adds : Mmu → ℕ → SegSize → PageSize → ℕ → Mmu → Type 0
Adds m vpn seg page r m' =
    (walk m' vpn seg page ≡ some r)
    × ((vpn' : ℕ) (seg' : SegSize) (page' : PageSize)
        → vpn' < 2 ^ 64
        → OtherPage m vpn seg page vpn' seg' page'
        → walk m' vpn' seg' page' ≡ walk m vpn' seg' page')
    × (m'.htab_hash_mask ≡ m.htab_hash_mask)

map_vpn-Adds :
    (m : Mmu) (vpn : ℕ) (seg : SegSize) (page : PageSize) (ra pp : ℕ)
    → vpn < 2 ^ 64
    → pp < 2 ^ 64
    → IsFrame ra page
    → walk m vpn seg page ≡ none
    → IfDone
        (Adds m vpn seg page (bit_or ra (rflags pp)))
        (mmu_map_vpn seg page page ra pp vpn m >>= λ r. bug_on (not r.0) >> done r.1)
map_vpn-Adds m vpn seg page ra pp lt lt' frame absent =
    elim (map_or_full m vpn seg page ra pp frame) [
      | inl full ↦ rw full tt
      | inr free ↦
          let (m', e, found, others) = map-walk m vpn seg page ra pp lt lt' frame free absent in
          let one = map_one m vpn seg page ra pp frame free in
          let same : m' ≡ mapped m vpn seg page ra pp = cc in rw e (found, others, rw same)
    ]

pub size-le : (page : PageSize) → (2 ^ 12 ≤ size_of page) × (size_of page ≤ 2 ^ 24)
unfolding size_of
size-le page_4k = omega arith
size-le page_16m = omega arith

aligned-and :
    (x : ℕ) (page : PageSize)
    → x < 2 ^ 64
    → x % size_of page ≡ 0
    → bit_and x (lnot64 (size_of page - 1)) ≡ x
unfolding size_of
aligned-and x page_4k lt al = ground (arith, and_field 12 52 x)
aligned-and x page_16m lt al = ground (arith, and_field 24 40 x)

module _ (guest : Option Guest) (lo hi vpn : ℕ) (seg : SegSize) (page : PageSize)
    (region : IsRegion guest lo hi vpn seg page) where
  pub vpn_of-lt : (ea : ℕ) → lo ≤ ea → ea < hi → vpn_of lo vpn ea < 2 ^ 64
  vpn_of-lt ea a b = omega (arith, region.room)

  pub lookup_in :
      (m : Mmu) (ea : ℕ)
      → lo ≤ ea
      → ea < hi
      → lookup guest m ea ≡ done (walk m (vpn_of lo vpn ea) seg page)
  unfolding lookup
  lookup_in m ea a b =
      rw (region.page_number ea a b, region.seg_size ea a b, region.base_size ea a b)

  pub mmu_map-Adds :
      (addr ra pp : ℕ) (m : Mmu)
      → lo ≤ addr
      → addr < hi
      → addr % size_of page ≡ 0
      → pp < 2 ^ 64
      → IsFrame ra page
      → walk m (vpn_of lo vpn addr) seg page ≡ none
      → IfDone
          (Adds m (vpn_of lo vpn addr) seg page (bit_or ra (rflags pp)))
          (mmu_map guest addr ra pp page m)
  unfolding mmu_map
  mmu_map-Adds addr ra pp m a b al lt frame absent =
      let small : addr < 2 ^ 64 = omega (arith, region.top) in
      let start = aligned-and addr page small al in
      rw (start, region.page_number addr a b, region.seg_size addr a b, region.base_size addr a b)
        (ground (
          arith,
          map_vpn-Adds m (vpn_of lo vpn addr) seg page ra pp (vpn_of-lt addr a b) lt frame absent,
        ))
