-- ===== src/Mmu/Map/Fill.antt =====
-- `mmu_map_range` of mmu.c page by page: what every address of the range, and every page outside
-- of it, is found as when it returns.
use prephv.Base.{
  ℕ, zero, suc, ◌+◌, ◌-◌, ◌*◌, ◌/◌, ◌%◌, ◌^◌, ◌≤◌, ◌<◌, ◌≡◌, refl, arith, true, Option, none, some,
  bit_or, IfDone, IfDone->>=, IfDone-map, IfDone-bug_on, ltb, u64, ◌∙◌, sym, inl, inr, ap, ◌-64◌,
  ◌!=◌,
}
use native.Mathlib.Nat.{suc-mul, mod-add-div'}
use native.Mathlib.Decide.{dec_lt}
use prephv.Guest.State.{Guest}
use prephv.Mmu.Types.{SegSize, PageSize, size_of, Mmu}
use prephv.Mmu.Htab.{pteg_of, rflags}
use prephv.Mmu.Htab.Pages.{other_page, walk-within}
use prephv.Mmu.Htab.Refine.{walk, OtherPage}
use prephv.Mmu.Map.{mmu_map, map_range_loop, mmu_map_range}
use prephv.Mmu.Map.Range.{loop_step}
use prephv.Mmu.Map.Span.{same_span, other_span, frame_at, frame_first, frame_next, next_aligned}
use prephv.Mmu.Map.Region.{vpn_of, IsRegion, Adds, vpn_of-lt, mmu_map-Adds, size-le}

-- A table of at least 2 ^ 11 groups.
abbrev pub IsLarge : Mmu → Type 0
IsLarge m = m.htab_hash_mask % 2 ^ 11 ≡ 2 ^ 11 - 1

OtherPage-mask :
    (m m' : Mmu) (vpn : ℕ) (seg : SegSize) (page : PageSize) (vpn' : ℕ) (seg' : SegSize)
    (page' : PageSize)
    → m'.htab_hash_mask ≡ m.htab_hash_mask
    → OtherPage m vpn seg page vpn' seg' page'
    → OtherPage m' vpn seg page vpn' seg' page'
unfolding pteg_of
OtherPage-mask m m' vpn seg page vpn' seg' page' e (inl group) = inl (rw e group)
OtherPage-mask m m' vpn seg page vpn' seg' page' e (inr number) = inr number

module _ (lo vpn : ℕ) (seg : SegSize) (page : PageSize) (ea_end pp : ℕ) where
  -- No page of the range is found.
  abbrev pub Unmapped : Mmu → ℕ → Type 0
  Unmapped m addr = (ea : ℕ) → addr ≤ ea → ea < ea_end → walk m (vpn_of lo vpn ea) seg page ≡ none

  abbrev pub Outside : Mmu → ℕ → ℕ → SegSize → PageSize → Type 0
  Outside m addr vpn' seg' page' =
      (ea : ℕ) → addr ≤ ea → ea < ea_end → OtherPage m (vpn_of lo vpn ea) seg page vpn' seg' page'

  -- The pages from `addr` to the end are found from `ra` on, and all others as before.
  abbrev pub Fills : Mmu → ℕ → ℕ → Mmu → Type 0
  Fills m addr ra m' =
      ((ea : ℕ)
        → addr ≤ ea
        → ea < ea_end
        → walk m' (vpn_of lo vpn ea) seg page
          ≡ some (bit_or (frame_at page addr ra ea) (rflags pp)))
      × ((vpn' : ℕ) (seg' : SegSize) (page' : PageSize)
          → vpn' < 2 ^ 64
          → Outside m addr vpn' seg' page'
          → walk m' vpn' seg' page' ≡ walk m vpn' seg' page')
      × (m'.htab_hash_mask ≡ m.htab_hash_mask)

module _ (guest : Option Guest) (lo hi vpn : ℕ) (seg : SegSize) (page : PageSize)
    (region : IsRegion guest lo hi vpn seg page) (ea_end pp : ℕ) (within : ea_end ≤ hi)
    (lt_pp : pp < 2 ^ 64) where
  module _ (addr : ℕ) (above : lo ≤ addr) (al : addr % size_of page ≡ 0) where
    -- A page and a page further on in the range.
    later_page :
        (m : Mmu) (ea : ℕ)
        → IsLarge m
        → addr + size_of page ≤ ea
        → OtherPage m (vpn_of lo vpn ea) seg page (vpn_of lo vpn addr) seg page
    later_page m ea large a =
        other_page m seg (vpn_of lo vpn ea) (vpn_of lo vpn addr) page large
          (other_span lo vpn region.base_aligned region.vpn_aligned addr ea above page al a)

    in_page :
        (m : Mmu) (ea : ℕ)
        → addr ≤ ea
        → ea < addr + size_of page
        → ea < ea_end
        → walk m (vpn_of lo vpn ea) seg page ≡ walk m (vpn_of lo vpn addr) seg page
    in_page m ea a b c = sym (
        walk-within m seg (vpn_of lo vpn addr) (vpn_of lo vpn ea) page
          (vpn_of-lt guest lo hi vpn seg page region addr above (omega arith))
          (vpn_of-lt guest lo hi vpn seg page region ea (omega arith) (omega arith))
          (same_span lo vpn region.base_aligned region.vpn_aligned addr ea above page al a b))

    -- After the first page the rest of the range is still free.
    Unmapped-next :
        (m m₁ : Mmu) (r : ℕ)
        → IsLarge m
        → Adds m (vpn_of lo vpn addr) seg page r m₁
        → Unmapped lo vpn seg page ea_end pp m addr
        → Unmapped lo vpn seg page ea_end pp m₁ (addr + size_of page)
    Unmapped-next m m₁ r large (found, others, mask) free ea a b =
        others (vpn_of lo vpn ea) seg page
          (vpn_of-lt guest lo hi vpn seg page region ea (omega arith) (omega arith))
          (other_page m seg (vpn_of lo vpn addr) (vpn_of lo vpn ea) page large (λ e.
            other_span lo vpn region.base_aligned region.vpn_aligned addr ea above page al a
              (sym e)))
        ∙ free ea (omega arith) b

    -- One page and the rest of the range make the range.
    Fills-cons :
        (m m₁ m' : Mmu) (ra : ℕ)
        → addr < ea_end
        → IsLarge m
        → Adds m (vpn_of lo vpn addr) seg page (bit_or ra (rflags pp)) m₁
        → Fills lo vpn seg page ea_end pp m₁ (addr + size_of page) (ra + size_of page) m'
        → Fills lo vpn seg page ea_end pp m addr ra m'
    Fills-cons m m₁ m' ra lt large (found, others, mask) (rest, outside, mask') = (
      λ ea a b. elim (dec_lt ea (addr + size_of page)) [
        | yes c ↦
            in_page m' ea a c b
            ∙ outside (vpn_of lo vpn addr) seg page
                (vpn_of-lt guest lo hi vpn seg page region addr above (omega arith))
                (λ ea' a' b'. later_page m₁ ea' (rw mask large) a')
            ∙ found
            ∙ ap (λ (x : ℕ). some (bit_or x (rflags pp))) (sym (frame_first page addr ra ea c))
        | no c ↦
            rest ea (omega arith) b
            ∙ ap (λ (x : ℕ). some (bit_or x (rflags pp))) (frame_next page addr ra ea (omega arith))
      ],
      λ vpn' seg' page' small out.
          outside vpn' seg' page' small (λ ea a b.
            OtherPage-mask m m₁ (vpn_of lo vpn ea) seg page vpn' seg' page' mask
              (out ea (omega arith) b))
          ∙ others vpn' seg' page' small (out addr (omega arith) lt),
      mask' ∙ mask,
    )

  fill_loop :
      (k addr ra : ℕ) (m : Mmu)
      → ea_end ≡ addr + k * size_of page
      → lo ≤ addr
      → addr % size_of page ≡ 0
      → ra % size_of page ≡ 0
      → ra + k * size_of page ≤ 2 ^ 60
      → IsLarge m
      → Unmapped lo vpn seg page ea_end pp m addr
      → IfDone
          (λ r. Fills lo vpn seg page ea_end pp m addr ra r.1)
          (map_range_loop guest k addr ea_end ra pp page m)
  unfolding map_range_loop
  fill_loop zero addr ra m e above al al' room large free =
      (λ ea a b. absurd (omega arith), λ _ _ _ _ _. refl, refl)
  fill_loop (suc k) addr ra m e above al al' room large free =
      let s = suc-mul k (size_of page) in
      let pos = size-le page in
      let top = region.top in
      let t : ltb addr ea_end ≡ true = ground arith in
      let next : u64 (addr + size_of page) ≡ addr + size_of page = omega arith in
      let next_ra : u64 (ra + size_of page) ≡ ra + size_of page = omega arith in
      let one = mmu_map guest addr ra pp page m in
      rw (loop_step guest ea_end pp page (omega arith) k addr ra m t, next, next_ra)
        (IfDone->>= (Adds m (vpn_of lo vpn addr) seg page (bit_or ra (rflags pp)))
          (λ r. Fills lo vpn seg page ea_end pp m addr ra r.1) one
          (λ m₁. map_range_loop guest k (addr + size_of page) ea_end (ra + size_of page) pp page m₁)
          (mmu_map-Adds guest lo hi vpn seg page region addr ra pp m above (omega arith) al lt_pp
            (al', omega arith) (free addr (omega arith) (omega arith)))
          (λ m₁ added.
            IfDone-map
              (λ r.
                Fills lo vpn seg page ea_end pp m₁ (addr + size_of page) (ra + size_of page) r.1)
              (λ r. Fills lo vpn seg page ea_end pp m addr ra r.1) _
              (fill_loop k (addr + size_of page) (ra + size_of page) m₁ (omega arith) (omega arith)
                (next_aligned page addr al) (next_aligned page ra al') (omega arith)
                (rw (added.2) large)
                (Unmapped-next addr above al m m₁ (bit_or ra (rflags pp)) large added free))
              (λ r rest. Fills-cons addr above al m m₁ r.1 ra (omega arith) large added rest)))

  -- What `mmu_map_range` leaves behind, if no page stops the machine: every address of the range
  -- is found, with the real address of its page and the protection, in a table where every page
  -- that none of the range's is taken for is found as before.
  pub fill_range :
      (ea_start ra : ℕ) (m : Mmu)
      → lo ≤ ea_start
      → ea_start ≤ ea_end
      → ea_start % size_of page ≡ 0
      → (ea_end - ea_start) % size_of page ≡ 0
      → ra % size_of page ≡ 0
      → ra + (ea_end - ea_start) ≤ 2 ^ 60
      → IsLarge m
      → Unmapped lo vpn seg page ea_end pp m ea_start
      → IfDone
          (Fills lo vpn seg page ea_end pp m ea_start ra)
          (mmu_map_range guest ea_start ea_end ra pp page m)
  unfolding mmu_map_range
  fill_range ea_start ra m above le al whole al' room large free =
      let n = (ea_end - ea_start) / size_of page in
      let e = mod-add-div' (ea_end - ea_start) (size_of page) in
      let run = map_range_loop guest n ea_start ea_end ra pp page m in
      IfDone-bug_on (Fills lo vpn seg page ea_end pp m ea_start ra)
        ((ea_end -64 ea_start) % size_of page != 0) _
        (IfDone->>= (λ r. Fills lo vpn seg page ea_end pp m ea_start ra r.1)
          (Fills lo vpn seg page ea_end pp m ea_start ra) run _
          (fill_loop n ea_start ra m (omega arith) above al al' (omega arith) large free)
          (λ r filled. filled))
