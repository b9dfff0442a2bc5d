-- ===== src/Mmu/Map/Lookup.antt =====
-- `mmu_map_range` of mmu.c, seen through the addresses: what each address of a region is found as
-- before and after.
use prephv.Base.{
  ℕ, ◌+◌, ◌-◌, ◌/◌, ◌%◌, ◌^◌, ◌≤◌, ◌<◌, ◌≡◌, ◌≢◌, arith, Bool, true, false, ◌&&◌, Option, some,
  done, bit_or, IfDone, IfDone-map, ltb, leb, if◌then◌else◌, inl, inr, ◌⊎◌,
}
use prephv.Guest.State.{Guest}
use prephv.Mmu.Types.{SegSize, PageSize, page_4k, page_16m, size_of, Mmu}
use prephv.Mmu.Htab.{rflags}
use prephv.Mmu.Htab.Pages.{span, other_page}
use prephv.Mmu.Htab.Refine.{walk}
use prephv.Mmu.Map.{mmu_map_range}
use prephv.Mmu.Map.Region.{vpn_of, IsRegion, vpn_of-lt, lookup, lookup_in}
use prephv.Mmu.Map.Fill.{IsLarge, Unmapped, Fills, fill_range}
use prephv.Mmu.Map.Span.{frame_at}

-- The address is in the range.
abbrev pub in_range : ℕ → ℕ → ℕ → Bool
in_range ea_start ea_end ea = leb ea_start ea && ltb ea ea_end

range_cases :
    (ea_start ea_end ea : ℕ)
    → ((in_range ea_start ea_end ea ≡ true) × (ea_start ≤ ea) × (ea < ea_end))
      ⊎ ((in_range ea_start ea_end ea ≡ false) × ((ea < ea_start) ⊎ (ea_end ≤ ea)))
range_cases ea_start ea_end ea = ground arith

-- A whole number of pages, from the start of a region on.
end_aligned :
    (page : PageSize) (ea_start ea_end : ℕ)
    → ea_start ≤ ea_end
    → ea_start % size_of page ≡ 0
    → (ea_end - ea_start) % size_of page ≡ 0
    → ea_end % size_of page ≡ 0
unfolding size_of
end_aligned page_4k ea_start ea_end le al whole = omega arith
end_aligned page_16m ea_start ea_end le al whole = omega arith

module _ (lo vpn : ℕ) (base : lo % 2 ^ 24 ≡ 0) (aligned : vpn % 2 ^ 12 ≡ 0) (ea_start ea_end : ℕ)
    (above : lo ≤ ea_start) where
  -- A page of the range is none outside of it.
  pub apart_span :
      (page : PageSize) (ea ea' : ℕ)
      → ea_start % size_of page ≡ 0
      → ea_end % size_of page ≡ 0
      → lo ≤ ea
      → (ea < ea_start) ⊎ (ea_end ≤ ea)
      → ea_start ≤ ea'
      → ea' < ea_end
      → vpn_of lo vpn ea' / span page ≢ vpn_of lo vpn ea / span page
  unfolding size_of
  apart_span page_4k ea ea' al al' low (inl c) a b e = omega arith
  apart_span page_4k ea ea' al al' low (inr c) a b e = omega arith
  apart_span page_16m ea ea' al al' low (inl c) a b e = omega arith
  apart_span page_16m ea ea' al al' low (inr c) a b e = omega arith

module _ (guest : Option Guest) (lo hi vpn : ℕ) (seg : SegSize) (page : PageSize)
    (region : IsRegion guest lo hi vpn seg page) (ea_start ea_end pp : ℕ) (within : ea_end ≤ hi)
    (above : lo ≤ ea_start) (le : ea_start ≤ ea_end) (al : ea_start % size_of page ≡ 0)
    (whole : (ea_end - ea_start) % size_of page ≡ 0) where
  -- A filled range, page by page of the region.
  pub walk-Fills :
      (m m' : Mmu) (ra ea : ℕ)
      → IsLarge m
      → Fills lo vpn seg page ea_end pp m ea_start ra m'
      → lo ≤ ea
      → ea < hi
      → walk m' (vpn_of lo vpn ea) seg page ≡ (
          if in_range ea_start ea_end ea
          then some (bit_or (frame_at page ea_start ra ea) (rflags pp))
          else walk m (vpn_of lo vpn ea) seg page)
  walk-Fills m m' ra ea large (inside, outside, mask) a b = elim (range_cases ea_start ea_end ea) [
    | inl (t, p, q) ↦ rw t (inside ea p q)
    | inr (t, out) ↦ rw t (
        outside (vpn_of lo vpn ea) seg page (vpn_of-lt guest lo hi vpn seg page region ea a b)
          (λ ea' p q. other_page m seg (vpn_of lo vpn ea') (vpn_of lo vpn ea) page large (
            apart_span lo vpn region.base_aligned region.vpn_aligned ea_start ea_end above page ea
              ea' al (end_aligned page ea_start ea_end le al whole) a out p q)))
  ]

  -- In a region of addresses that mmu.c gives one segment size, one base page size and consecutive
  -- virtual pages, on a table of at least 2 ^ 11 groups, with a 64-bit protection: mapping a range
  -- of whole pages, none of which is found yet, to whole real pages below 2 ^ 60 either stops the
  -- machine, or leaves every address of the range found with the real address of its page and the
  -- protection, and every other address of the region found as before.
  pub map_range_lookup :
      (m : Mmu) (ra : ℕ)
      → pp < 2 ^ 64
      → ra % size_of page ≡ 0
      → ra + (ea_end - ea_start) ≤ 2 ^ 60
      → IsLarge m
      → Unmapped lo vpn seg page ea_end pp m ea_start
      → IfDone
          (λ m'.
            (ea : ℕ)
            → lo ≤ ea
            → ea < hi
            → lookup guest m' ea ≡ (
                if in_range ea_start ea_end ea
                then done (some (bit_or (frame_at page ea_start ra ea) (rflags pp)))
                else lookup guest m ea))
          (mmu_map_range guest ea_start ea_end ra pp page m)
  map_range_lookup m ra lt al' room large free =
      IfDone-map (Fills lo vpn seg page ea_end pp m ea_start ra) _
        (mmu_map_range guest ea_start ea_end ra pp page m)
        (fill_range guest lo hi vpn seg page region ea_end pp within lt ea_start ra m above le al
          whole al' room large free)
        (λ m' fills ea a b.
          let found = walk-Fills m m' ra ea large fills a b in
          rw
            (
              lookup_in guest lo hi vpn seg page region m' ea a b,
              lookup_in guest lo hi vpn seg page region m ea a b,
              found,
            )
            (ground arith))
