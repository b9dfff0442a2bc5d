-- ===== src/Mmu/Map/Range.antt =====
-- The loop of `mmu_map_range` in mmu.c reaches the end of the range on the fuel it is given.
use prephv.Base.{
  ℕ, zero, suc, ◌+◌, ◌-◌, ◌*◌, ◌/◌, ◌%◌, ◌^◌, ◌≤◌, ◌<◌, ◌≡◌, refl, arith, true, false, done, Option,
  ◌>>=◌, IfDone, IfDone->>=, IfDone-const, ltb, u64,
}
use native.Mathlib.Nat.{suc-mul, mod-add-div'}
use prephv.Guest.State.{Guest}
use prephv.Mmu.Types.{PageSize, page_4k, page_16m, size_of, Mmu}
use prephv.Mmu.Map.{mmu_map, map_range_loop}

size_of-pos : (p : PageSize) → 0 < size_of p
unfolding size_of
size_of-pos page_4k = omega arith
size_of-pos page_16m = omega arith

-- One round of the loop, and its end.
module _ (guest : Option Guest) (prot : ℕ) (actual : PageSize) where
  pub loop_stop :
      (k addr ea_end ra : ℕ) (m : Mmu)
      → ltb addr ea_end ≡ false
      → map_range_loop guest (suc k) addr ea_end ra prot actual m ≡ done (addr, m)
  unfolding map_range_loop
  loop_stop k addr ea_end ra m f = rw (map_range_loop, f) refl

  pub loop_go :
      (k addr ea_end ra : ℕ) (m : Mmu)
      → ltb addr ea_end ≡ true
      → map_range_loop guest (suc k) addr ea_end ra prot actual m ≡ (
          mmu_map guest addr ra prot actual m >>= λ m'.
          map_range_loop guest k
            (u64 (addr + size_of actual))
            ea_end
            (u64 (ra + size_of actual))
            prot
            actual
            m')
  unfolding map_range_loop
  loop_go k addr ea_end ra m t = rw (map_range_loop, t) refl

module _ (guest : Option Guest) (ea_end prot : ℕ) (actual : PageSize) (fits : ea_end < 2 ^ 64) where
  pub loop_step :
      (k addr ra : ℕ) (m : Mmu)
      → ltb addr ea_end ≡ true
      → map_range_loop guest (suc k) addr ea_end ra prot actual m ≡ (
          mmu_map guest addr ra prot actual m >>= λ m'.
          map_range_loop guest k
            (u64 (addr + size_of actual))
            ea_end
            (u64 (ra + size_of actual))
            prot
            actual
            m')
  unfolding map_range_loop
  loop_step k addr ra m t = rw (map_range_loop, t) refl

  loop_ends :
      (k addr ra : ℕ) (m : Mmu)
      → ea_end ≡ addr + k * size_of actual
      → IfDone (λ r. r.0 ≡ ea_end) (map_range_loop guest k addr ea_end ra prot actual m)
  unfolding map_range_loop
  loop_ends zero addr ra m e = omega arith
  loop_ends (suc k) addr ra m e =
      let s = suc-mul k (size_of actual) in
      let pos = size_of-pos actual in
      let t : ltb addr ea_end ≡ true = ground arith in
      let next = u64 (addr + size_of actual) in
      let next_ra = u64 (ra + size_of actual) in
      let one = mmu_map guest addr ra prot actual m in
      rw (loop_step k addr ra m t) (
        IfDone->>= (λ _. Unit {0}) (λ r. r.0 ≡ ea_end) one
          (λ m'. map_range_loop guest k next ea_end next_ra prot actual m') (IfDone-const one tt)
          (λ m' _. loop_ends k next next_ra m' (ground arith)))

  -- A range of whole pages that ends where it starts or above is mapped to its end: on the fuel
  -- that `mmu_map_range` gives, the loop ends, if no page stops the machine, at the range's end.
  pub map_range_ends :
      (ea_start ra : ℕ) (m : Mmu)
      → ea_start ≤ ea_end
      → (ea_end - ea_start) % size_of actual ≡ 0
      → IfDone
          (λ r. r.0 ≡ ea_end)
          (map_range_loop guest
            ((ea_end - ea_start) / size_of actual)
            ea_start
            ea_end
            ra
            prot
            actual
            m)
  map_range_ends ea_start ra m le whole =
      loop_ends ((ea_end - ea_start) / size_of actual) ea_start ra m
        (let e = mod-add-div' (ea_end - ea_start) (size_of actual) in ground arith)
