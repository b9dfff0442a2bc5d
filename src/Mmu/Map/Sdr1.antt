-- ===== src/Mmu/Map/Sdr1.antt =====
-- The size of the page table, as `mmu_init` of mmu.c tells it to the processor in SDR1.
use prephv.Base.{
  ℕ, zero, suc, ◌+◌, ◌-◌, ◌*◌, ◌/◌, ◌%◌, ◌^◌, ◌≤◌, ◌<◌, ◌≡◌, refl, arith, false, Option, none,
  bit_and, lnot64, IfDone, IfDone->>=, IfDone-after, IfDone-bug_on, IfDone-if, IfDone-map, ltb,
  ◌!=◌, not, ◌∙◌, sym, u64, Bool-cases, inl, inr, ◌-64◌,
}
use native.Mathlib.Nat.{one-le-pow, pow-suc, pow-le-pow_right}
use native.Mathlib.Decide.{dec_lt}
use prephv.Base.Bits.{and_field}
use prephv.Guest.State.{Guest}
use prephv.Mmu.Types.{SegSize, PageSize, page_4k, page_16m, size_of, Mmu, ptr_2_ra}
use prephv.Mmu.Address.{ea_2_seg_size, ea_2_base_size, ea_2_vpn}
use prephv.Mmu.Encode.{pteg_count}
use prephv.Mmu.Htab.{mmu_map_vpn, map_loop, map_round, rounds}
use prephv.Mmu.Map.{mmu_map, map_range_loop, mmu_map_range, ilog2_from, ilog2, mmu_init}
use prephv.Mmu.Map.Range.{loop_go, loop_stop}
use prephv.Mmu.Map.Hv.{ptr_2_ra_lem}
use prephv.Ppc.{sdr1_mask}

-- The table keeps its size.
abbrev SameMask : Mmu → Mmu → Type 0
SameMask m m' = m'.htab_hash_mask ≡ m.htab_hash_mask

abbrev SameMask₁ {ℓ} : {A : Type ℓ} → Mmu → A × Mmu → Type 0
SameMask₁ m r = SameMask m r.1

module _ (seg : SegSize) (base actual : PageSize) (ra pp : ℕ) where
  round_mask : (vpn : ℕ) (m : Mmu) → IfDone (SameMask₁ m) (map_round seg base actual ra pp vpn m)
  unfolding map_round
  round_mask vpn m = ground arith

  loop_mask : (n vpn : ℕ) (m : Mmu) → IfDone (SameMask₁ m) (map_loop seg base actual ra pp n vpn m)
  unfolding map_loop
  loop_mask zero vpn m = refl
  loop_mask (suc n) vpn m =
      IfDone->>= (SameMask₁ m) (SameMask₁ m) (map_round seg base actual ra pp vpn m) _
        (round_mask vpn m)
        (λ (mapped, m') same.
          IfDone-if (SameMask₁ m) mapped _ _
            (IfDone-map (SameMask₁ m') (SameMask₁ m) _
              (loop_mask n (u64 (vpn + size_of base / 2 ^ 12)) m') (λ r e. e ∙ same))
            same)

  vpn_mask : (vpn : ℕ) (m : Mmu) → IfDone (SameMask₁ m) (mmu_map_vpn seg base actual ra pp vpn m)
  unfolding mmu_map_vpn
  vpn_mask vpn m = ground (arith, loop_mask (rounds base actual) vpn m)

module _ (guest : Option Guest) (prot : ℕ) (actual : PageSize) where
  page_mask : (ea ra : ℕ) (m : Mmu) → IfDone (SameMask m) (mmu_map guest ea ra prot actual m)
  unfolding mmu_map
  page_mask ea ra m =
      IfDone-bug_on (SameMask m) (bit_and ea (lnot64 (size_of actual - 1)) != ea) _ (
        IfDone-after (SameMask m) (ea_2_vpn guest ea) _ (λ vpn.
          IfDone-after (SameMask m) (ea_2_seg_size guest ea) _ (λ seg.
            IfDone-after (SameMask m) (ea_2_base_size guest ea) _ (λ base.
              IfDone->>= (SameMask₁ m) (SameMask m) (mmu_map_vpn seg base actual ra prot vpn m) _
                (vpn_mask seg base actual ra prot vpn m)
                (λ (mapped, m') same. IfDone-bug_on (SameMask m) (not mapped) _ same)))))

  range_loop_mask :
      (fuel addr ea_end ra : ℕ) (m : Mmu)
      → IfDone (SameMask₁ m) (map_range_loop guest fuel addr ea_end ra prot actual m)
  range_loop_mask zero addr ea_end ra m = unfold map_range_loop in refl
  range_loop_mask (suc fuel) addr ea_end ra m = elim (Bool-cases (ltb addr ea_end)) [
    | inl t ↦ rw (loop_go guest prot actual fuel addr ea_end ra m t) (
        IfDone->>= (SameMask m) (SameMask₁ m) (mmu_map guest addr ra prot actual m) _
          (page_mask addr ra m)
          (λ m' same.
            IfDone-map (SameMask₁ m') (SameMask₁ m) _
              (range_loop_mask fuel (u64 (addr + size_of actual)) ea_end (u64 (ra + size_of actual))
                m')
              (λ r e. e ∙ same)))
    | inr f ↦ rw (loop_stop guest prot actual fuel addr ea_end ra m f) refl
  ]

  range_mask :
      (ea_start ea_end ra : ℕ) (m : Mmu)
      → IfDone (SameMask m) (mmu_map_range guest ea_start ea_end ra prot actual m)
  unfolding mmu_map_range
  range_mask ea_start ea_end ra m =
      IfDone-bug_on (SameMask m) ((ea_end -64 ea_start) % size_of actual != 0) _ (
        IfDone->>= (SameMask₁ m) (SameMask m)
          (map_range_loop guest ((ea_end - ea_start) / size_of actual) ea_start ea_end ra prot
            actual m)
          _ (range_loop_mask ((ea_end - ea_start) / size_of actual) ea_start ea_end ra m)
          (λ r e. e))

-- The highest bit of a power of two is its exponent.
ilog2_from-pow : (k j : ℕ) → j ≤ k → ilog2_from k (2 ^ j) ≡ j
unfolding ilog2_from
ilog2_from-pow zero j h = omega arith
ilog2_from-pow (suc k) j h = elim (dec_lt k j) [
  | yes p ↦ let e : j ≡ suc k = omega arith in rw e (ground arith)
  | no p ↦ ground (
    arith,
    pow-suc 2 k,
    one-le-pow k 2,
    pow-le-pow_right {n = 2} (omega arith) {i = j} {j = k} (omega arith),
    ilog2_from-pow k j (omega arith),
  )
]

-- The table's real address and the mask for the hash, as the processor takes them from SDR1: the
-- low 5 bits say how many bits of the hash are used above the first 11.
abbrev pub sdr1_base : ℕ → ℕ
sdr1_base sdr1 = sdr1 / 2 ^ 18 * 2 ^ 18

abbrev pub sdr1_hash_mask : ℕ → ℕ
sdr1_hash_mask sdr1 = 2 ^ (11 + sdr1 % 2 ^ 5) - 1

module _ (k : ℕ) (ge : 11 ≤ k) (le : k ≤ 39) where
  pow_bounds : (2 ^ 11 ≤ 2 ^ k) × (2 ^ k ≤ 2 ^ 39)
  pow_bounds = (
    pow-le-pow_right {n = 2} (omega arith) {i = 11} {j = k} ge,
    pow-le-pow_right {n = 2} (omega arith) {i = k} {j = 39} le,
  )

  pteg_count-pow : pteg_count (2 ^ k * 2 ^ 13) ≡ 2 ^ k
  unfolding pteg_count
  pteg_count-pow = omega (arith, pow_bounds)

  ilog2-pow : ilog2 (2 ^ k) ≡ k
  unfolding ilog2
  ilog2-pow = ilog2_from-pow 63 k (omega arith)

-- What `mmu_init` says to the processor agrees with what it does itself.
abbrev pub Agrees : ℕ → ℕ → Mmu × ℕ → Type 0
Agrees k htab (m, sdr1) =
    (sdr1_base sdr1 ≡ htab - 2 ^ 63)
    × (m.htab_hash_mask ≡ 2 ^ k - 1)
    × (sdr1_hash_mask sdr1 ≡ m.htab_hash_mask)

sdr1_fits :
    (ra k : ℕ)
    → ra < 2 ^ 60
    → 11 ≤ k
    → k ≤ 39
    → (bit_and ra sdr1_mask != ra) ≡ false
    → let sdr1 = u64 (u64 (ra + k) + 2 ^ 64 - 11) in
      (sdr1_base sdr1 ≡ ra) × (sdr1_hash_mask sdr1 ≡ 2 ^ k - 1)
sdr1_fits ra k lt a b ok =
    let whole : ra % 2 ^ 18 ≡ 0 = ground (arith, and_field 18 46 ra) in
    let e : u64 (u64 (ra + k) + 2 ^ 64 - 11) ≡ ra + (k - 11) = omega arith in
    let n : 11 + (ra + (k - 11)) % 2 ^ 5 ≡ k = omega arith in (rw e (omega arith), rw (e, n))

-- With RAM of 2 ^ (k + 13) bytes, 2 ^ 24 to 2 ^ 52, and the table at an address of the hypervisor's
-- space below 2 ^ 63 + 2 ^ 60: whenever no BUG_ON stops `mmu_init`, the value for SDR1 has the table's real
-- address, and the processor takes from it the very mask for the hash that mmu.c uses, for 2 ^ k
-- groups.
pub mmu_init_sdr1 :
    (k htab start end : ℕ)
    → 11 ≤ k
    → k ≤ 39
    → 2 ^ 63 ≤ htab
    → htab < 2 ^ 63 + 2 ^ 60
    → IfDone (Agrees k htab) (mmu_init htab start end (2 ^ k * 2 ^ 13))
unfolding mmu_init
mmu_init_sdr1 k htab start end a b p q =
    let ptr = ptr_2_ra_lem htab p (omega arith) in
    elim (Bool-cases (bit_and (htab - 2 ^ 63) sdr1_mask != (htab - 2 ^ 63))) [
      | inl bad ↦ rw (ptr, bad) tt
      | inr ok ↦
          let (base, size) = sdr1_fits (htab - 2 ^ 63) k (omega arith) a b ok in
          let bounds = pow_bounds k a b in
          let large : 2 ^ k -64 1 ≡ 2 ^ k - 1 = omega arith in
          rw (ptr, ok, pteg_count-pow k a b, ilog2-pow k a b)
            (IfDone->>= (λ (m : Mmu). m.htab_hash_mask ≡ 2 ^ k -64 1) (Agrees k htab) _ _
              (range_mask none _ page_16m _ _ _ _)
              (λ m₁ one. IfDone-after (Agrees k htab) (ptr_2_ra start) _ (λ start_ra.
                IfDone->>= (λ (m : Mmu). m.htab_hash_mask ≡ 2 ^ k -64 1) (Agrees k htab) _ _
                  (IfDone-map (SameMask m₁) _ _ (range_mask none _ page_16m _ _ _ m₁)
                    (λ m e. e ∙ one))
                  (λ m₂ two.
                    IfDone->>= (SameMask m₂) (Agrees k htab) _ _
                      (range_mask none _ page_4k _ _ _ m₂)
                      (λ m₃ three.
                        let mask = three ∙ two ∙ large in (base, mask, size ∙ sym mask))))))
    ]
