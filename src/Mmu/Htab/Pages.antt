-- ===== src/Mmu/Htab/Pages.antt =====
-- A group of the page table and an abbreviated virtual page number name one page: what the
-- comment in `avpn_encode` of mmu.c says of the bits that the number leaves out.
use prephv.Base.{
  ℕ, ◌-◌, ◌/◌, ◌%◌, ◌^◌, ◌<◌, ◌≡◌, ◌≢◌, arith, bit_xor, bit_or, true, ap, ◌↔◌, inl, inr, ◌<<<◌,
}
use native.Mathlib.Decide.{ℕ_discrete}
use prephv.Base.Bits.{and_low}
use prephv.Base.Bits.Cancel.{xor_cancel, and_mod, xor_mod}
use prephv.Mmu.Types.{SegSize, seg_256m, seg_1t, PageSize, page_4k, page_16m, Mmu}
use prephv.Mmu.Encode.{vpn_hash, avpn_encode, pte_v_compare}
use prephv.Mmu.Htab.{pteg_of, vflags}
use prephv.Mmu.Htab.Entry.{avpn, avpn_encode_lem, compare-entry_v}
use prephv.Mmu.Htab.Refine.{walk, OtherPage}

-- The number of 4 KB pages that a page covers.
abbrev pub span : PageSize → ℕ
span page_4k = 1
span page_16m = 2 ^ 12

-- The bits of the segment alone in the hash of a 4 KB page.
abbrev seg_hash : ℕ → SegSize → ℕ
seg_hash vpn seg_1t = bit_xor (vpn / 2 ^ 28) ((vpn / 2 ^ 28) <<< 25) % 2 ^ 11
seg_hash vpn seg_256m = bit_xor (vpn / 2 ^ 16) ((vpn / 2 ^ 16) <<< 25) % 2 ^ 11

hash_low :
    (vpn : ℕ) (seg : SegSize)
    → vpn_hash vpn seg page_4k % 2 ^ 11 ≡ bit_xor (seg_hash vpn seg) (vpn % 2 ^ 11)
unfolding vpn_hash
hash_low vpn seg_1t = ground (
  arith,
  and_low 28 vpn,
  xor_mod 11 (bit_xor (vpn / 2 ^ 28) ((vpn / 2 ^ 28) <<< 25)) (vpn % 2 ^ 28),
  and_low 39 (bit_xor (bit_xor (vpn / 2 ^ 28) ((vpn / 2 ^ 28) <<< 25)) (vpn % 2 ^ 28)),
)
hash_low vpn seg_256m = ground (
  arith,
  and_low 16 vpn,
  xor_mod 11 (bit_xor (vpn / 2 ^ 16) ((vpn / 2 ^ 16) <<< 25)) (vpn % 2 ^ 16),
  and_low 39 (bit_xor (bit_xor (vpn / 2 ^ 16) ((vpn / 2 ^ 16) <<< 25)) (vpn % 2 ^ 16)),
)

-- The hash of a 16 MB page does not depend on where in the page the number is.
hash_high :
    (vpn vpn' : ℕ) (seg : SegSize)
    → vpn / 2 ^ 12 ≡ vpn' / 2 ^ 12
    → vpn_hash vpn seg page_16m ≡ vpn_hash vpn' seg page_16m
unfolding vpn_hash
hash_high vpn vpn' seg_1t e = ground (arith, and_low 28 vpn, and_low 28 vpn')
hash_high vpn vpn' seg_256m e = ground (arith, and_low 16 vpn, and_low 16 vpn')

seg_hash-same :
    (vpn vpn' : ℕ) (seg : SegSize)
    → vpn / 2 ^ 11 ≡ vpn' / 2 ^ 11
    → seg_hash vpn seg ≡ seg_hash vpn' seg
seg_hash-same vpn vpn' seg_1t e = let same : vpn / 2 ^ 28 ≡ vpn' / 2 ^ 28 = omega arith in rw same
seg_hash-same vpn vpn' seg_256m e = let same : vpn / 2 ^ 16 ≡ vpn' / 2 ^ 16 = omega arith in rw same

module _ (m : Mmu) (seg : SegSize) (vpn vpn' : ℕ) where
  -- Everywhere in a page, the group and the abbreviated number are the same.
  pub within_page :
      (page : PageSize)
      → vpn / span page ≡ vpn' / span page
      → (pteg_of m vpn seg page ≡ pteg_of m vpn' seg page) × (avpn vpn page ≡ avpn vpn' page)
  unfolding pteg_of
  within_page page_4k e = let same : vpn ≡ vpn' = omega arith in (rw same, rw same)
  within_page page_16m e = (rw (hash_high vpn vpn' seg e), omega arith)

  group_4k :
      m.htab_hash_mask % 2 ^ 11 ≡ 2 ^ 11 - 1
      → pteg_of m vpn seg page_4k ≡ pteg_of m vpn' seg page_4k
      → vpn_hash vpn seg page_4k % 2 ^ 11 ≡ vpn_hash vpn' seg page_4k % 2 ^ 11
  unfolding pteg_of
  group_4k low e = omega (
    arith,
    and_mod 11 (vpn_hash vpn seg page_4k) m.htab_hash_mask low,
    and_mod 11 (vpn_hash vpn' seg page_4k) m.htab_hash_mask low,
    ap (λ (x : ℕ). x % 2 ^ 14) e,
  )

  same_page :
      (page : PageSize)
      → m.htab_hash_mask % 2 ^ 11 ≡ 2 ^ 11 - 1
      → pteg_of m vpn seg page ≡ pteg_of m vpn' seg page
      → avpn vpn page ≡ avpn vpn' page
      → vpn / span page ≡ vpn' / span page
  same_page page_16m low e number = omega arith
  same_page page_4k low e number =
      let same = seg_hash-same vpn vpn' seg number in
      let h = group_4k low e in
      let c : vpn % 2 ^ 11 ≡ vpn' % 2 ^ 11 =
        xor_cancel (seg_hash vpn seg) (vpn % 2 ^ 11) (vpn' % 2 ^ 11)
          (ground (arith, hash_low vpn seg, hash_low vpn' seg)) in
      omega arith

  -- On a table of at least 2 ^ 11 groups, whose mask has the low 11 bits set: the search for a
  -- virtual page comes to the group of another one, of the same segment size and base page size,
  -- and `PTE_V_COMPARE` takes the first word that was made for that one, for its own, if and only if
  -- both lie in the same page. So no entry is taken for another page.
  pub page_of_entry :
      (page actual : PageSize)
      → m.htab_hash_mask % 2 ^ 11 ≡ 2 ^ 11 - 1
      → vpn < 2 ^ 64
      → vpn' < 2 ^ 64
      → ((pteg_of m vpn seg page ≡ pteg_of m vpn' seg page)
          × (pte_v_compare
                (bit_or (avpn_encode vpn page) (vflags seg actual))
                (avpn_encode vpn' page)
              ≡ true))
        ↔ (vpn / span page ≡ vpn' / span page)
  page_of_entry page actual low lt lt' =
      let compared = compare-entry_v vpn vpn' seg page page actual lt lt' in
      (
        λ (e, taken). same_page page low e (ground arith),
        λ same. let (group, number) = within_page page same in (group, ground arith),
      )

  pub other_page :
      (page : PageSize)
      → m.htab_hash_mask % 2 ^ 11 ≡ 2 ^ 11 - 1
      → vpn / span page ≢ vpn' / span page
      → OtherPage m vpn seg page vpn' seg page
  other_page page low ne = elim (ℕ_discrete (pteg_of m vpn seg page) (pteg_of m vpn' seg page)) [
    | no group ↦ inl group
    | yes e ↦ inr (λ number. ne (same_page page low e number))
  ]

  -- Everywhere in a page the same entry is found.
  pub walk-within :
      (page : PageSize)
      → vpn < 2 ^ 64
      → vpn' < 2 ^ 64
      → vpn / span page ≡ vpn' / span page
      → walk m vpn seg page ≡ walk m vpn' seg page
  unfolding walk
  walk-within page lt lt' e =
      let (group, number) = within_page page e in
      rw (group, avpn_encode_lem vpn page lt, avpn_encode_lem vpn' page lt', number)
