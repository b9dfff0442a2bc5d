-- ===== src/Mmu/Htab.antt =====
-- The hashed page table of mmu.c: the loops of `mmu_map_vpn` and `mmu_unmap_vpn`. The table's
-- words are big-endian. `while (actual_size != 0)` takes `base_size` off a multiple of it in each
-- round, so it runs `actual_size / base_size` times, once unless base pages are smaller.
pub mod Scan
pub mod Entry
pub mod Refine
pub mod Unmap
pub mod Bounds
pub mod Pages
use prephv.Base.{
  ℕ, zero, suc, ◌+◌, ◌-◌, ◌*◌, ◌/◌, ◌%◌, ◌^◌, Bool, true, false, Run, done, halt, ◌>>=◌, ◌>>◌,
  bug_on, ltb, ◌==◌, ◌!=◌, if◌then◌else◌, bit_and, bit_or, lnot64, ◌-64◌, u64, ◌∷◌, not,
}
use prephv.Endian.{swab64}
use prephv.Ppc.{pte_v_valid, pte_v_large, pte_v_1tb_seg, pte_r_m, ptes_per_group}
use prephv.Mmu.Types.{SegSize, PageSize, is_1t, is_16m, size_of, Pte, Mmu, write_pte}
use prephv.Mmu.Address.{vpn_shift}
use prephv.Mmu.Encode.{vpn_hash, rpn_encode, avpn_encode, pte_v_compare, tlbie}

-- `be64_to_cpu(pte->v) & PTE_V_VALID`
unfoldable pub is_valid : Pte → Bool
is_valid e = bit_and (swab64 e.v) pte_v_valid != 0

-- The index of the first entry of a page's group.
unfoldable pub pteg_of : Mmu → ℕ → SegSize → PageSize → ℕ
pteg_of m vpn seg base = bit_and (vpn_hash vpn seg base) m.htab_hash_mask * ptes_per_group

module _ (h : ℕ → Pte) (pteg : ℕ) where
  -- The search for a free entry, from entry `i` of the group on with `left` rounds to go: the
  -- `i` at which the loop ends.
  unfoldable pub scan_free : ℕ → ℕ → ℕ
  scan_free zero i = i
  scan_free (suc left) i =
      let next = scan_free left (i + 1) in if is_valid (h (pteg + i)) then next else i

  -- The search for a valid entry with an abbreviated virtual page number.
  unfoldable pub scan_match : ℕ → ℕ → ℕ → ℕ
  scan_match avpn zero i = i
  scan_match avpn (suc left) i =
      let next = scan_match avpn left (i + 1) in
      if not (is_valid (h (pteg + i)))
      then next
      else if pte_v_compare (swab64 (h (pteg + i)).v) avpn
      then i
      else next

-- The number of rounds; an actual size below the base size stops the machine before.
unfoldable pub rounds : PageSize → PageSize → ℕ
rounds base actual = size_of actual / size_of base

-- `rflags` and `vflags` of `mmu_map_vpn`
unfoldable pub rflags : ℕ → ℕ
rflags pp = bit_or pp pte_r_m

unfoldable pub vflags : SegSize → PageSize → ℕ
vflags seg actual =
    let v = bit_or (bit_or pte_r_m pte_v_valid) (if is_16m actual then pte_v_large else 0) in
    if is_1t seg then bit_or v pte_v_1tb_seg else v

module _ (seg : SegSize) (base actual : PageSize) where
  -- One round of `mmu_unmap_vpn`; the flag tells whether an entry was found.
  unfoldable pub unmap_round : ℕ → Mmu → Run (Bool × Mmu)
  unmap_round vpn m =
      let pteg = pteg_of m vpn seg base in
      let i = scan_match m.htab pteg (avpn_encode vpn base) ptes_per_group 0 in
      if i == ptes_per_group
      then done (false, m)
      else done (
        true,
        record m {
          htab = write_pte m.htab (pteg + i) (record { v = swab64 0; r = (m.htab (pteg + i)).r });
          tlbies = tlbie vpn seg base actual ∷ m.tlbies;
        },
      )

  -- The rounds of `mmu_unmap_vpn`. The flag is false for the return value -1.
  unfoldable pub unmap_loop : ℕ → ℕ → Mmu → Run (Bool × Mmu)
  unmap_loop zero vpn m = done (true, m)
  unmap_loop (suc n) vpn m = do
    (found, m') ← unmap_round vpn m
    if found then unmap_loop n (u64 (vpn + size_of base / 2 ^ vpn_shift)) m' else done (false, m')

  unfoldable pub mmu_unmap_vpn : ℕ → Mmu → Run (Bool × Mmu)
  mmu_unmap_vpn vpn m = do
    bug_on (ltb (size_of actual) (size_of base))
    unmap_loop (rounds base actual) vpn m

  module _ (ra pp : ℕ) where
    -- One round of `mmu_map_vpn`; the flag is false when the group is full.
    unfoldable pub map_round : ℕ → Mmu → Run (Bool × Mmu)
    map_round vpn m =
        let pteg = pteg_of m vpn seg base in
        let i = scan_free m.htab pteg ptes_per_group 0 in
        if i == ptes_per_group then done (false, m) else do
          rpn ← rpn_encode ra base actual
          let v = bit_or (avpn_encode vpn base) (vflags seg actual)
          let r = bit_or rpn (rflags pp)
          done (
            true,
            record m { htab = write_pte m.htab (pteg + i) (record { v = swab64 v; r = swab64 r }) },
          )

    unfoldable pub map_loop : ℕ → ℕ → Mmu → Run (Bool × Mmu)
    map_loop zero vpn m = done (true, m)
    map_loop (suc n) vpn m = do
      (mapped, m') ← map_round vpn m
      if mapped then map_loop n (u64 (vpn + size_of base / 2 ^ vpn_shift)) m' else done (false, m')

    unfoldable pub mmu_map_vpn : ℕ → Mmu → Run (Bool × Mmu)
    mmu_map_vpn vpn m = do
      bug_on (ltb (size_of actual) (size_of base))
      bug_on (bit_and ra (lnot64 (size_of actual - 1)) != ra)
      map_loop (rounds base actual) vpn m
