-- ===== src/Mmu/Htab/Unmap.antt =====
-- `mmu_unmap_vpn`: what it does to a page that is mapped, and to one that is not.
use prephv.Base.{ℕ, ◌+◌, ◌^◌, ◌<◌, ◌≡◌, refl, true, false, arith, inl, inr, none, done, ◌∷◌}
use native.Mathlib.Decide.{ℕ_discrete}
use prephv.Endian.{swab64}
use prephv.Mmu.Types.{SegSize, PageSize, Mmu, write_pte}
use prephv.Mmu.Encode.{avpn_encode, tlbie}
use prephv.Mmu.Htab.{pteg_of, scan_match, unmap_round, unmap_loop, mmu_unmap_vpn, mmu_map_vpn}
use prephv.Mmu.Htab.Scan.{
  walk_from_same, walk_from-none, scan_match-none, scan_match_first, SameFor, write_pte_self,
  write_pte_ne,
}
use prephv.Mmu.Htab.Refine.{
  walk, IsFrame, HasFree, miss_of_invalid, cleared_miss, rounds_self, hit-new_entry, pteg, slot,
  mapped, slot-lt, slot_free, map_one, mapped_at, mapped_off,
}

-- A page of its segment's base size that is not found is not unmapped: nothing is written, no
-- `tlbie` is issued, and the result is -1.
pub unmap_absent :
    (m : Mmu) (vpn : ℕ) (seg : SegSize) (page : PageSize)
    → walk m vpn seg page ≡ none
    → mmu_unmap_vpn seg page page vpn m ≡ done (false, m)
unfolding mmu_unmap_vpn unmap_loop unmap_round walk
unmap_absent m vpn seg page absent = ground (
  arith,
  rounds_self page,
  scan_match-none m.htab (pteg_of m vpn seg page) (avpn_encode vpn page) 8 0,
)

module _ (m : Mmu) (vpn : ℕ) (seg : SegSize) (page : PageSize) (ra pp : ℕ) where
  abbrev here : ℕ
  here = pteg m vpn seg page ra pp + slot m vpn seg page ra pp

  abbrev full : Mmu
  full = mapped m vpn seg page ra pp

  -- The table after the page is mapped and unmapped again.
  abbrev cleared : Mmu
  cleared = record full {
    htab = write_pte full.htab here (record { v = swab64 0; r = (full.htab here).r });
    tlbies = tlbie vpn seg page page ∷ m.tlbies;
  }

  match_slot :
      vpn < 2 ^ 64
      → HasFree m vpn seg page
      → walk m vpn seg page ≡ none
      → scan_match full.htab (pteg m vpn seg page ra pp) (avpn_encode vpn page) 8 0
        ≡ slot m vpn seg page ra pp
  unfolding walk pteg_of
  match_slot lt free absent =
      scan_match_first full.htab (pteg m vpn seg page ra pp) (avpn_encode vpn page) 8 0
        (slot m vpn seg page ra pp) (omega arith)
        (let small = slot-lt m vpn seg page ra pp free in omega arith)
        (rw (mapped_at m vpn seg page ra pp) (hit-new_entry vpn seg page _ lt))
        (λ j a b.
          rw (mapped_off m vpn seg page ra pp (pteg m vpn seg page ra pp + j) (omega arith)) (
            walk_from-none m.htab (pteg m vpn seg page ra pp) (avpn_encode vpn page) 8 0 j absent a
              (let small = slot-lt m vpn seg page ra pp free in omega arith)))

  unmap_one :
      vpn < 2 ^ 64
      → HasFree m vpn seg page
      → walk m vpn seg page ≡ none
      → mmu_unmap_vpn seg page page vpn full ≡ done (true, cleared)
  unfolding mmu_unmap_vpn unmap_loop unmap_round pteg_of
  unmap_one lt free absent =
      ground (arith, rounds_self page, match_slot lt free absent, slot-lt m vpn seg page ra pp free)

  same_after : HasFree m vpn seg page → (a q : ℕ) → SameFor a (cleared.htab q) (m.htab q)
  same_after free a q = elim (ℕ_discrete here q) [
    | no ne ↦ inl (rw (write_pte_ne full.htab here _ q ne) (mapped_off m vpn seg page ra pp q ne))
    | yes e ↦ inr (
      rw (← e, write_pte_self full.htab here _) (cleared_miss a _),
      rw (← e) (miss_of_invalid a _ (slot_free m vpn seg page ra pp free)),
    )
  ]

  -- Mapping a page of its segment's base size that is not mapped, into a group with a free entry
  -- and to a real address of its alignment below 2 ^ 60, and then unmapping it gives back every
  -- page as it was found before; the one `tlbie` issued is that of the page.
  pub unmap-map :
      vpn < 2 ^ 64
      → IsFrame ra page
      → HasFree m vpn seg page
      → walk m vpn seg page ≡ none
      → (m' m'' : Mmu) × (mmu_map_vpn seg page page ra pp vpn m ≡ done (true, m'))
        × (mmu_unmap_vpn seg page page vpn m' ≡ done (true, m''))
        × (m''.tlbies ≡ tlbie vpn seg page page ∷ m.tlbies)
        × ((vpn' : ℕ) (seg' : SegSize) (page' : PageSize)
            → walk m'' vpn' seg' page' ≡ walk m vpn' seg' page')
  unfolding walk pteg_of
  unmap-map lt frame free absent = (
    full,
    cleared,
    map_one m vpn seg page ra pp frame free,
    unmap_one lt free absent,
    refl,
    λ vpn' seg' page'.
        walk_from_same cleared.htab (pteg_of m vpn' seg' page') (avpn_encode vpn' page') m.htab 8 0
          (λ j a b. same_after free (avpn_encode vpn' page') (pteg_of m vpn' seg' page' + j)),
  )
