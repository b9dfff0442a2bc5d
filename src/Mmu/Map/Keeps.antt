-- ===== src/Mmu/Map/Keeps.antt =====
-- `mmu_map` and `mmu_map_range` of mmu.c for the guest's addresses in pages of 4 KB: whatever they
-- write, no page of the hypervisor is found otherwise, with no assumption on the table or the guest.
use prephv.Base.{
  ℕ, zero, suc, ◌+◌, ◌-◌, ◌*◌, ◌/◌, ◌%◌, ◌^◌, ◌≤◌, ◌<◌, ◌≡◌, refl, arith, Bool, true, false, Option,
  none, some, Run, done, halt, bit_and, lnot64, IfDone, IfDone->>=, IfDone-after, IfDone-bug_on,
  IfDone-map, ltb, ◌==◌, ◌!=◌, ◌∙◌, u64, Bool-cases, inl, inr, ◌⊎◌, ◌-64◌, not, get_or,
}
use native.Mathlib.Decide.{ℕ_discrete}
use prephv.Base.Bits.{or-lt, and_field}
use prephv.Guest.State.{Guest, guest_is_mmu_off}
use prephv.Mmu.Types.{
  SegSize, seg_1t, seg_256m, PageSize, page_4k, page_16m, size_of, Mmu, write_pte,
}
use prephv.Mmu.Address.{ea_2_seg_size, ea_2_vpn, grm_vsid}
use prephv.Mmu.Encode.{avpn_encode, rpn_encode}
use prephv.Mmu.Encode.Hash.{guest_vpn}
use prephv.Mmu.Htab.{is_valid, pteg_of, scan_free, mmu_map_vpn, map_loop, map_round}
use prephv.Mmu.Htab.Entry.{avpn}
use prephv.Mmu.Htab.Scan.{walk_from_same, write_pte_self, write_pte_ne, scan_free_sound}
use prephv.Mmu.Htab.Refine.{walk, new_entry, miss-new_entry, miss_of_invalid, rounds_self}
use prephv.Mmu.Map.{mmu_map, map_range_loop, mmu_map_range}
use prephv.Mmu.Map.Region.{vpn_of}
use prephv.Mmu.Map.Range.{loop_go, loop_stop}
use prephv.Mmu.Map.Page.{guest_page, is_256m, is_4k}
use prephv.Mmu.Map.Spaces.{off-IsRegion}

-- Pages whose abbreviated number is above those of the guest's pages of 4 KB are found as before.
abbrev pub KeepsHigh : Mmu → Mmu → Type 0
KeepsHigh m m' =
    (vpn : ℕ) (seg : SegSize) (page : PageSize)
    → vpn < 2 ^ 64
    → 2 ^ 21 ≤ avpn vpn page
    → walk m' vpn seg page ≡ walk m vpn seg page

pub KeepsHigh-refl : (m : Mmu) → KeepsHigh m m
KeepsHigh-refl m vpn seg page lt high = refl

pub KeepsHigh-trans : (m m₁ m₂ : Mmu) → KeepsHigh m m₁ → KeepsHigh m₁ m₂ → KeepsHigh m m₂
KeepsHigh-trans m m₁ m₂ a b vpn seg page lt high = b vpn seg page lt high ∙ a vpn seg page lt high

module _ (seg : SegSize) (vpn : ℕ) (low : vpn < 2 ^ 32) (m : Mmu) where
  abbrev group : ℕ
  group = pteg_of m vpn seg page_4k

  abbrev written : ℕ → ℕ → Mmu
  written i r = record m { htab = write_pte m.htab (group + i) (new_entry vpn seg page_4k r) }

  -- An entry for the page in a place that was free.
  written-KeepsHigh : (i r : ℕ) → is_valid (m.htab (group + i)) ≡ false → KeepsHigh m (written i r)
  unfolding walk pteg_of
  written-KeepsHigh i r free vpn' seg' page' lt high =
      walk_from_same (written i r).htab (pteg_of m vpn' seg' page') (avpn_encode vpn' page') m.htab
        8 0
        (λ j a b. elim (ℕ_discrete (group + i) (pteg_of m vpn' seg' page' + j)) [
          | no ne ↦ inl (write_pte_ne m.htab (group + i) _ _ ne)
          | yes e ↦ inr (
            rw (← e, write_pte_self m.htab (group + i) _)
                (miss-new_entry vpn seg page_4k r (omega arith) vpn' page' lt
                  (λ same. omega arith)),
            rw (← e) (miss_of_invalid _ _ free),
          )
        ])

  abbrev RoundKeeps : Bool × Mmu → Type 0
  RoundKeeps r = KeepsHigh m r.1

  round-KeepsHigh : (ra pp : ℕ) → IfDone RoundKeeps (map_round seg page_4k page_4k ra pp vpn m)
  unfolding map_round
  round-KeepsHigh ra pp = elim (Bool-cases (scan_free m.htab group 8 0 == 8)) [
    | inl full ↦ rw full (KeepsHigh-refl m)
    | inr free ↦ rw free (
        IfDone-after RoundKeeps (rpn_encode ra page_4k page_4k) _ (λ rpn.
          written-KeepsHigh (scan_free m.htab group 8 0) _
            (scan_free_sound m.htab group 8 0 (λ e. ground arith))))
  ]

  vpn-KeepsHigh : (ra pp : ℕ) → IfDone RoundKeeps (mmu_map_vpn seg page_4k page_4k ra pp vpn m)
  unfolding mmu_map_vpn map_loop
  vpn-KeepsHigh ra pp =
      let round = map_round seg page_4k page_4k ra pp vpn m in
      ground (arith, rounds_self page_4k, round-KeepsHigh ra pp)

run_cases : (r : Run Bool) → (r ≡ halt) ⊎ (r ≡ done true) ⊎ (r ≡ done false)
run_cases halt = inl refl
run_cases (done true) = inr (inl refl)
run_cases (done false) = inr (inr refl)

-- A page of 4 KB cannot be mapped while the guest's pages are of 16 MB.
too_small :
    (seg : SegSize) (ra pp vpn : ℕ) (m : Mmu) → mmu_map_vpn seg page_16m page_4k ra pp vpn m ≡ halt
unfolding mmu_map_vpn size_of
too_small seg ra pp vpn m = refl

module _ (ea ra pp : ℕ) (low : ea < 2 ^ 32) (m : Mmu) where
  no_guest : ea_2_seg_size none ea ≡ halt
  unfolding ea_2_seg_size
  no_guest = ground (arith, and_field 63 1 ea)

  unclear : (g : Guest) → guest_is_mmu_off (some g) ≡ halt → ea_2_seg_size (some g) ea ≡ halt
  unfolding ea_2_seg_size
  unclear g h = ground (arith, and_field 63 1 ea)

  page_number-lt : (g : Guest) → guest_page g ea < 2 ^ 32
  page_number-lt g =
      let h =
        or-lt 16 (ea / 2 ^ 28) (get_or g.sr (ea / 2 ^ 28) 0 % 2 ^ 16) (omega arith) (omega arith) in
      omega arith

  vpn_halts : (guest : Option Guest) → ea_2_seg_size guest ea ≡ halt → ea_2_vpn guest ea ≡ halt
  unfolding ea_2_vpn
  vpn_halts guest h = rw h

  -- Whatever the guest's state, `mmu_map` of one of its pages.
  page-KeepsHigh : (guest : Option Guest) → IfDone (KeepsHigh m) (mmu_map guest ea ra pp page_4k m)
  unfolding mmu_map
  page-KeepsHigh none =
      IfDone-bug_on (KeepsHigh m) (bit_and ea (lnot64 (size_of page_4k - 1)) != ea) _
        (rw (vpn_halts none no_guest) tt)
  page-KeepsHigh (some g) =
      IfDone-bug_on (KeepsHigh m) (bit_and ea (lnot64 (size_of page_4k - 1)) != ea) _
        (elim (run_cases (guest_is_mmu_off (some g))) [
          | inl h ↦ rw (vpn_halts (some g) (unclear g h)) tt
          | inr (inl off) ↦
              let region = off-IsRegion g off in
              let number = region.page_number ea (omega arith) low in
              let seg = region.seg_size ea (omega arith) low in
              let base = region.base_size ea (omega arith) low in
              rw (number, seg, base, too_small seg_1t ra pp (vpn_of 0 (grm_vsid * 2 ^ 28) ea) m) tt
          | inr (inr on) ↦
              let number = guest_vpn g ea low on in
              rw (number, is_256m g on ea low, is_4k g on ea low)
                (IfDone->>= (RoundKeeps seg_256m (guest_page g ea) (page_number-lt g) m)
                  (KeepsHigh m) (mmu_map_vpn seg_256m page_4k page_4k ra pp (guest_page g ea) m) _
                  (vpn-KeepsHigh seg_256m (guest_page g ea) (page_number-lt g) m ra pp)
                  (λ r k. IfDone-bug_on (KeepsHigh m) (not r.0) _ k))
        ])

module _ (guest : Option Guest) (ea_end pp : ℕ) (low : ea_end ≤ 2 ^ 32) where
  abbrev LoopKeeps : Mmu → ℕ × Mmu → Type 0
  LoopKeeps m r = KeepsHigh m r.1

  loop-KeepsHigh :
      (fuel addr ra : ℕ) (m : Mmu)
      → IfDone (LoopKeeps m) (map_range_loop guest fuel addr ea_end ra pp page_4k m)
  loop-KeepsHigh zero addr ra m = unfold map_range_loop in KeepsHigh-refl m
  loop-KeepsHigh (suc fuel) addr ra m = elim (Bool-cases (ltb addr ea_end)) [
    | inl t ↦ rw (loop_go guest pp page_4k fuel addr ea_end ra m t) (
        IfDone->>= (KeepsHigh m) (LoopKeeps m) (mmu_map guest addr ra pp page_4k m) _
          (page-KeepsHigh addr ra pp (ground arith) m guest)
          (λ m₁ one.
            IfDone-map (LoopKeeps m₁) (LoopKeeps m) _
              (loop-KeepsHigh fuel (u64 (addr + size_of page_4k)) (u64 (ra + size_of page_4k)) m₁)
              (λ r rest. KeepsHigh-trans m m₁ r.1 one rest)))
    | inr f ↦ rw (loop_stop guest pp page_4k fuel addr ea_end ra m f) (KeepsHigh-refl m)
  ]

  pub range-KeepsHigh :
      (ea_start ra : ℕ) (m : Mmu)
      → IfDone (KeepsHigh m) (mmu_map_range guest ea_start ea_end ra pp page_4k m)
  unfolding mmu_map_range
  range-KeepsHigh ea_start ra m =
      let n = (ea_end - ea_start) / size_of page_4k in
      IfDone-bug_on (KeepsHigh m) ((ea_end -64 ea_start) % size_of page_4k != 0) _ (
        IfDone->>= (LoopKeeps m) (KeepsHigh m)
          (map_range_loop guest n ea_start ea_end ra pp page_4k m) _
          (loop-KeepsHigh n ea_start ra m) (λ r k. k))
