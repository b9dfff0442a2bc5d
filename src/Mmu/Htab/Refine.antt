-- ===== src/Mmu/Htab/Refine.antt =====
-- The page table as a map from pages to second words: what mapping and unmapping a page do to
-- it, where one entry holds the page.
use prephv.Base.{
  ℕ, ◌+◌, ◌-◌, ◌%◌, ◌^◌, ◌<◌, ◌≡◌, refl, ◌≢◌, true, false, arith, inl, inr, ◌⊎◌, Option, none, some,
  done, ◌∙◌, ap, bit_and, bit_or, lnot64,
}
use prephv.Base.Bits.{and_field, or-lt, or_add}
use prephv.Endian.{swab64}
use prephv.Endian.Swap.{swab64-swab64}
use prephv.Ppc.{ptes_per_group}
use prephv.Mmu.Types.{SegSize, PageSize, page_4k, page_16m, size_of, Pte, Mmu, write_pte}
use prephv.Mmu.Encode.{rpn_encode, avpn_encode}
use prephv.Mmu.Htab.{is_valid, scan_free, pteg_of, rounds, rflags, map_round, map_loop, mmu_map_vpn}
use prephv.Mmu.Htab.Entry.{avpn, entry_v, is_valid-entry_v, compare-entry_v, entry_v-lt}
use prephv.Mmu.Htab.Scan.{
  hit, walk_from, walk_from_same, walk_from-none, walk_from_first, scan_free_bounds,
  scan_free_sound, scan_free_full, SameFor, write_pte_self, write_pte_ne,
}
use native.Mathlib.Decide.{ℕ_discrete}

-- The second word under which a page is mapped: the first match in the page's group.
unfoldable pub walk : Mmu → ℕ → SegSize → PageSize → Option ℕ
unfolding walk_from
walk m vpn seg base =
    walk_from m.htab (pteg_of m vpn seg base) (avpn_encode vpn base) ptes_per_group 0

-- Pages that no entry can be taken for both of: other groups, or other page numbers.
abbrev pub OtherPage : Mmu → ℕ → SegSize → PageSize → ℕ → SegSize → PageSize → Type 0
OtherPage m vpn seg base vpn' seg' base' =
    (pteg_of m vpn seg base ≢ pteg_of m vpn' seg' base') ⊎ (avpn vpn base ≢ avpn vpn' base')

-- The real address fits the page and the 60 bits of the entry.
abbrev pub IsFrame : ℕ → PageSize → Type 0
IsFrame ra page = (ra % size_of page ≡ 0) × (ra < 2 ^ 60)

-- Some entry of the page's group is free.
abbrev pub HasFree : Mmu → ℕ → SegSize → PageSize → Type 0
HasFree m vpn seg base =
    (j : ℕ) × (j < ptes_per_group) × (is_valid (m.htab (pteg_of m vpn seg base + j)) ≡ false)

rpn_encode_lem : (ra : ℕ) (page : PageSize) → IsFrame ra page → rpn_encode ra page page ≡ done ra
unfolding rpn_encode size_of
rpn_encode_lem ra page_4k (al, lt) = ground (arith, and_field 12 48 ra, or_add 12 ra 0)
rpn_encode_lem ra page_16m (al, lt) = ground (arith, and_field 24 36 ra, or_add 24 ra 0)

pub miss_of_invalid : (a : ℕ) (e : Pte) → is_valid e ≡ false → hit a e ≡ false
unfolding hit
miss_of_invalid a e h = rw h

pub cleared_miss : (a r : ℕ) → hit a (record { v = swab64 0; r = r }) ≡ false
unfolding hit is_valid swab64
cleared_miss a r = refl

-- The entry that mapping a page writes.
abbrev pub new_entry : ℕ → SegSize → PageSize → ℕ → Pte
new_entry vpn seg page r = record { v = swab64 (entry_v vpn seg page page); r = r }

module _ (vpn : ℕ) (seg : SegSize) (page : PageSize) (r : ℕ) (in_range : vpn < 2 ^ 64) where
  pub hit-new_entry : hit (avpn_encode vpn page) (new_entry vpn seg page r) ≡ true
  unfolding hit
  hit-new_entry = ground (
    arith,
    is_valid-entry_v vpn seg page page r in_range,
    swab64-swab64 (entry_v vpn seg page page),
    entry_v-lt vpn seg page page in_range,
    compare-entry_v vpn vpn seg page page page in_range in_range,
  )

  pub miss-new_entry :
      (vpn' : ℕ) (page' : PageSize)
      → vpn' < 2 ^ 64
      → avpn vpn page ≢ avpn vpn' page'
      → hit (avpn_encode vpn' page') (new_entry vpn seg page r) ≡ false
  unfolding hit
  miss-new_entry vpn' page' lt ne = ground (
    arith,
    is_valid-entry_v vpn seg page page r in_range,
    swab64-swab64 (entry_v vpn seg page page),
    entry_v-lt vpn seg page page in_range,
    compare-entry_v vpn vpn' seg page page' page in_range lt,
  )

pub rounds_self : (page : PageSize) → rounds page page ≡ 1
unfolding rounds size_of
rounds_self page_4k = refl
rounds_self page_16m = refl

aligned-lt :
    (ra : ℕ) (page : PageSize) → IsFrame ra page → bit_and ra (lnot64 (size_of page - 1)) ≡ ra
unfolding size_of
aligned-lt ra page_4k (al, lt) = ground (arith, and_field 12 52 ra)
aligned-lt ra page_16m (al, lt) = ground (arith, and_field 24 40 ra)

module _ (m : Mmu) (vpn : ℕ) (seg : SegSize) (page : PageSize) (ra pp : ℕ) where
  abbrev pub pteg : ℕ
  pteg = pteg_of m vpn seg page

  abbrev pub slot : ℕ
  slot = scan_free m.htab pteg ptes_per_group 0

  -- The table after the page is mapped.
  abbrev pub mapped : Mmu
  mapped = record m {
    htab = write_pte m.htab (pteg + slot) (new_entry vpn seg page (swab64 (bit_or ra (rflags pp))));
  }

  pub slot-lt : HasFree m vpn seg page → slot < ptes_per_group
  slot-lt (j, lt, free) =
      ground (arith, scan_free_bounds m.htab pteg 8 0, scan_free_full m.htab pteg 8 0 j)

  pub slot_free : HasFree m vpn seg page → is_valid (m.htab (pteg + slot)) ≡ false
  slot_free f = scan_free_sound m.htab pteg 8 0 (let lt = slot-lt f in ground arith)

  pub map_one :
      IsFrame ra page
      → HasFree m vpn seg page
      → mmu_map_vpn seg page page ra pp vpn m ≡ done (true, mapped)
  unfolding mmu_map_vpn map_loop map_round
  map_one frame free = ground (
    arith,
    rounds_self page,
    aligned-lt ra page frame,
    rpn_encode_lem ra page frame,
    slot-lt free,
  )

  -- A page of its segment's base size whose group is full is not mapped to any real address of its
  -- alignment below 2 ^ 60: nothing is written, and the result is -1.
  pub map_full :
      IsFrame ra page
      → ((j : ℕ) → j < ptes_per_group → is_valid (m.htab (pteg + j)) ≡ true)
      → mmu_map_vpn seg page page ra pp vpn m ≡ done (false, m)
  unfolding mmu_map_vpn map_loop map_round
  map_full frame full = ground (
    arith,
    rounds_self page,
    aligned-lt ra page frame,
    scan_free_bounds m.htab pteg 8 0,
    scan_free_sound m.htab pteg 8 0,
    full slot,
  )

  pub map_or_full :
      IsFrame ra page
      → (mmu_map_vpn seg page page ra pp vpn m ≡ done (false, m)) ⊎ HasFree m vpn seg page
  unfolding mmu_map_vpn map_loop map_round
  map_or_full frame = elim (ℕ_discrete slot 8) [
    | yes e ↦ inl (ground (arith, rounds_self page, aligned-lt ra page frame))
    | no ne ↦ inr (
      slot,
      let b = scan_free_bounds m.htab pteg 8 0 in omega arith,
      scan_free_sound m.htab pteg 8 0 (λ e. ne (omega arith)),
    )
  ]

  r-lt : IsFrame ra page → pp < 2 ^ 64 → bit_or ra (rflags pp) < 2 ^ 64
  unfolding rflags
  r-lt frame lt = or-lt 64 ra (bit_or pp 0x10) (omega arith) (or-lt 64 pp 0x10 lt (omega arith))

  pub mapped_at :
      mapped.htab (pteg + slot) ≡ new_entry vpn seg page (swab64 (bit_or ra (rflags pp)))
  mapped_at = write_pte_self m.htab (pteg + slot) _

  pub mapped_off : (q : ℕ) → pteg + slot ≢ q → mapped.htab q ≡ m.htab q
  mapped_off q ne = write_pte_ne m.htab (pteg + slot) _ q ne

  walk-mapped :
      vpn < 2 ^ 64
      → pp < 2 ^ 64
      → IsFrame ra page
      → HasFree m vpn seg page
      → walk m vpn seg page ≡ none
      → walk mapped vpn seg page ≡ some (bit_or ra (rflags pp))
  unfolding walk pteg_of
  walk-mapped lt lt' frame free absent =
      walk_from_first mapped.htab pteg (avpn_encode vpn page) 8 0 slot (omega arith)
        (let small = slot-lt free in omega arith) (rw mapped_at (hit-new_entry vpn seg page _ lt))
        (λ j a b. rw (mapped_off (pteg + j) (omega arith)) (
          walk_from-none m.htab pteg (avpn_encode vpn page) 8 0 j absent a
            (let small = slot-lt free in omega arith)))
      ∙ ap some (ap (λ (e : Pte). swab64 e.r) mapped_at ∙ swab64-swab64 _ (r-lt frame lt'))

  other_slot :
      (vpn' : ℕ) (seg' : SegSize) (page' : PageSize) (j : ℕ)
      → HasFree m vpn seg page
      → j < 8
      → pteg + slot ≡ pteg_of m vpn' seg' page' + j
      → pteg ≡ pteg_of m vpn' seg' page'
  unfolding pteg_of
  other_slot vpn' seg' page' j free small e = let lt = slot-lt free in omega arith

  SameFor-other :
      (vpn' : ℕ) (seg' : SegSize) (page' : PageSize)
      → vpn < 2 ^ 64
      → vpn' < 2 ^ 64
      → HasFree m vpn seg page
      → OtherPage m vpn seg page vpn' seg' page'
      → (j : ℕ) → j < 8
      → SameFor
          (avpn_encode vpn' page')
          (mapped.htab (pteg_of m vpn' seg' page' + j))
          (m.htab (pteg_of m vpn' seg' page' + j))
  SameFor-other vpn' seg' page' lt lt' free other j small =
      elim (ℕ_discrete (pteg + slot) (pteg_of m vpn' seg' page' + j)) [
        | no ne ↦ inl (mapped_off _ ne)
        | yes e ↦ elim other [
          | inl group ↦ absurd (group (other_slot vpn' seg' page' j free small e))
          | inr number ↦ inr (
            rw (← e, mapped_at) (miss-new_entry vpn seg page _ lt vpn' page' lt' number),
            rw (← e) (miss_of_invalid _ _ (slot_free free)),
          )
        ]
      ]

  -- A page of its segment's base size that is not mapped, whose group has a free entry, is mapped
  -- to a real address of its alignment below 2 ^ 60, for a 64-bit page number and protection: the
  -- result is 0, the page is then found with its real address and flags, and every page of another
  -- group or another abbreviated number is found as before.
  pub map-walk :
      vpn < 2 ^ 64
      → pp < 2 ^ 64
      → IsFrame ra page
      → HasFree m vpn seg page
      → walk m vpn seg page ≡ none
      → (m' : Mmu) × (mmu_map_vpn seg page page ra pp vpn m ≡ done (true, m'))
        × (walk m' vpn seg page ≡ some (bit_or ra (rflags pp)))
        × ((vpn' : ℕ) (seg' : SegSize) (page' : PageSize)
            → vpn' < 2 ^ 64
            → OtherPage m vpn seg page vpn' seg' page'
            → walk m' vpn' seg' page' ≡ walk m vpn' seg' page')
  unfolding walk pteg_of
  map-walk lt lt' frame free absent = (
    mapped,
    map_one frame free,
    walk-mapped lt lt' frame free absent,
    λ vpn' seg' page' small other.
        walk_from_same mapped.htab (pteg_of m vpn' seg' page') (avpn_encode vpn' page') m.htab 8 0
          (λ j a b. SameFor-other vpn' seg' page' lt small free other j (omega arith)),
  )
