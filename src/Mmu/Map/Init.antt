-- ===== src/Mmu/Map/Init.antt =====
-- What `mmu_init` of mmu.c maps: the page table and the hypervisor's image, each at its own real
-- address, and the exception vectors.
use prephv.Base.{
  ℕ, ◌+◌, ◌-◌, ◌*◌, ◌%◌, ◌^◌, ◌≤◌, ◌<◌, ◌≡◌, refl, arith, ◌||◌, Option, none, some, done, bit_and,
  bit_or, IfDone, IfDone->>=, IfDone-bug_on, ◌!=◌, if◌then◌else◌, inl, inr, ◌⊎◌, ◌∙◌, ap, u64,
}
use prephv.Ppc.{
  page_mask_16m, pp_rwxx, ail_aspace_start, ail_aspace_end, ail_vectors, pteg_size, sdr1_mask,
}
use prephv.Guest.State.{Guest}
use prephv.Mmu.Map.GuestPages.{NoGuestPages, off_vpn, on_vpn}
use prephv.Mmu.Types.{Mmu, SegSize, seg_1t, seg_256m, PageSize, page_4k, page_16m, size_of}
use prephv.Mmu.Address.{hv_vsid, ail_vsid}
use prephv.Mmu.Encode.{pteg_count}
use prephv.Mmu.Htab.{rflags}
use prephv.Mmu.Htab.Entry.{avpn}
use prephv.Mmu.Htab.Refine.{walk}
use prephv.Mmu.Map.{mmu_map_range, mmu_init}
use prephv.Mmu.Map.Region.{lookup, lookup_in}
use prephv.Mmu.Map.Fill.{IsLarge, fill_range}
use prephv.Mmu.Map.Span.{frame_at}
use prephv.Mmu.Map.Lookup.{in_range, walk-Fills}
use prephv.Mmu.Map.Spaces.{hv-IsRegion, ail-IsRegion}
use prephv.Mmu.Map.Hv.{
  down, up, mask_down, align_up_lem, ptr_2_ra_lem, empty_mmu, walk-empty, empty-IsLarge, hv_page,
  ail_page, IsHv, hv_frame, HvFills, AilFills, hv_filled, hv_found, hv_kept, ail_kept,
}

-- Exactly the two ranges of the hypervisor's first 64 GB are found, each address at its own place.
abbrev pub HasDirect : ℕ → ℕ → ℕ → ℕ → Mmu → Type 0
HasDirect a b c d m =
    (guest : Option Guest) (ea : ℕ)
    → IsHv ea
    → lookup guest m ea ≡ done (if in_range a b ea || in_range c d ea then hv_frame ea else none)

-- The vectors are found at real address 0, and nothing else of their space is.
abbrev pub HasVectors : Mmu → Type 0
HasVectors m =
    (guest : Option Guest) (ea : ℕ)
    → ail_aspace_start ≤ ea
    → ea < ail_aspace_end
    → lookup guest m ea
      ≡ done (
          if in_range ail_vectors ail_aspace_end ea
          then some (bit_or (frame_at page_4k ail_vectors 0 ea) (rflags pp_rwxx))
          else none)

abbrev pub HasHvPages : ℕ → ℕ → ℕ → ℕ → Mmu → Type 0
HasHvPages a b c d m = HasDirect a b c d m × HasVectors m × NoGuestPages m × IsLarge m

-- Two ranges of whole pages of 16 MB in the hypervisor's first 64 GB, apart from each other.
pub record ArePlaced (a b c d : ℕ) : Type 0 where
  pub low : 2 ^ 63 ≤ a
  pub le : a ≤ b
  pub high : b ≤ 2 ^ 63 + 2 ^ 36
  pub a_aligned : a % 2 ^ 24 ≡ 0
  pub b_aligned : b % 2 ^ 24 ≡ 0
  pub low' : 2 ^ 63 ≤ c
  pub le' : c ≤ d
  pub high' : d ≤ 2 ^ 63 + 2 ^ 36
  pub c_aligned : c % 2 ^ 24 ≡ 0
  pub d_aligned : d % 2 ^ 24 ≡ 0
  pub apart : (b ≤ c) ⊎ (d ≤ a)

module _ (a b c d ram_size : ℕ) (placed : ArePlaced a b c d) (whole : ram_size % 2 ^ 24 ≡ 0) where
  open placed use {
    low, le, high, a_aligned, b_aligned, low', le', high', c_aligned, d_aligned, apart,
  }

  abbrev m₀ : Mmu
  m₀ = empty_mmu ram_size

  first_filled : IfDone (HvFills a b m₀) (mmu_map_range none a b (a - 2 ^ 63) pp_rwxx page_16m m₀)
  first_filled =
      hv_filled a b low le high a_aligned b_aligned m₀ (empty-IsLarge ram_size whole)
        (λ ea p q. walk-empty ram_size (hv_page ea) seg_1t page_16m)

  module _ (m₁ : Mmu) (first : HvFills a b m₀ m₁) where
    large₁ : IsLarge m₁
    large₁ = rw (first.2) (empty-IsLarge ram_size whole)

    image_free : (ea : ℕ) → c ≤ ea → ea < d → walk m₁ (hv_page ea) seg_1t page_16m ≡ none
    image_free ea p q = ground (
      arith,
      hv_found a b low le high a_aligned b_aligned m₀ (empty-IsLarge ram_size whole) m₁ ea first,
      walk-empty ram_size (hv_page ea) seg_1t page_16m,
    )

    second_filled :
        IfDone (HvFills c d m₁) (mmu_map_range none c d (c - 2 ^ 63) pp_rwxx page_16m m₁)
    second_filled = hv_filled c d low' le' high' c_aligned d_aligned m₁ large₁ image_free

    module _ (m₂ : Mmu) (second : HvFills c d m₁ m₂) where
      large₂ : IsLarge m₂
      large₂ = rw (second.2) large₁

      -- What is not the hypervisor's is still free.
      others_free :
          (vpn : ℕ) (seg : SegSize) (page : PageSize)
          → vpn < 2 ^ 64
          → (avpn vpn page < hv_vsid * 2 ^ 17) ⊎ (hv_vsid * 2 ^ 17 + 2 ^ 13 ≤ avpn vpn page)
          → walk m₂ vpn seg page ≡ none
      others_free vpn seg page lt out =
          hv_kept c d low' le' high' c_aligned d_aligned m₁ large₁ m₂ vpn seg page second lt out
          ∙ hv_kept a b low le high a_aligned b_aligned m₀ (empty-IsLarge ram_size whole) m₁ vpn seg
              page first lt out
          ∙ walk-empty ram_size vpn seg page

      vectors_free :
          (ea : ℕ)
          → ail_aspace_start ≤ ea
          → ea < ail_aspace_end
          → walk m₂ (ail_page ea) seg_256m page_4k ≡ none
      vectors_free ea p q =
          others_free (ail_page ea) seg_256m page_4k (omega arith) (inr (omega arith))

      third_filled :
          IfDone (AilFills m₂) (mmu_map_range none ail_vectors ail_aspace_end 0 pp_rwxx page_4k m₂)
      unfolding size_of
      third_filled =
          fill_range none ail_aspace_start ail_aspace_end (ail_vsid * 2 ^ 16) seg_256m page_4k
            (ail-IsRegion none) ail_aspace_end pp_rwxx (omega arith) (omega arith) ail_vectors 0 m₂
            (omega arith) (omega arith) refl refl refl (omega arith) large₂
            (λ ea p q. vectors_free ea (omega arith) q)

      hv_walk :
          (ea : ℕ)
          → IsHv ea
          → walk m₂ (hv_page ea) seg_1t page_16m
            ≡ (if in_range a b ea || in_range c d ea then hv_frame ea else none)
      hv_walk ea hv = ground (
        arith,
        hv_found c d low' le' high' c_aligned d_aligned m₁ large₁ m₂ ea second hv,
        hv_found a b low le high a_aligned b_aligned m₀ (empty-IsLarge ram_size whole) m₁ ea first
            hv,
        walk-empty ram_size (hv_page ea) seg_1t page_16m,
      )

      all_filled : (m₃ : Mmu) → AilFills m₂ m₃ → HasHvPages a b c d m₃
      unfolding size_of
      all_filled m₃ third = (
        λ guest ea (p, q).
            lookup_in guest (2 ^ 63) (2 ^ 63 + 2 ^ 40) (hv_vsid * 2 ^ 28) seg_1t page_16m
              (hv-IsRegion guest) m₃ ea p (omega arith)
            ∙ ap done (
                ail_kept m₂ m₃ third (hv_page ea) seg_1t page_16m (omega arith) (λ e. omega arith)
                ∙ hv_walk ea (p, q)),
        λ guest ea p q.
            lookup_in guest ail_aspace_start ail_aspace_end (ail_vsid * 2 ^ 16) seg_256m page_4k
              (ail-IsRegion guest) m₃ ea p q
            ∙ ap done (
                rw (vectors_free ea p q) at (
                  walk-Fills none ail_aspace_start ail_aspace_end (ail_vsid * 2 ^ 16) seg_256m
                    page_4k (ail-IsRegion none) ail_vectors ail_aspace_end pp_rwxx (omega arith)
                    (omega arith) (omega arith) refl refl m₂ m₃ 0 ea large₂ third p q)),
        λ ea lt. (
          ail_kept m₂ m₃ third (off_vpn ea) seg_1t page_16m (omega arith) (λ e. omega arith)
              ∙ others_free (off_vpn ea) seg_1t page_16m (omega arith) (inl (omega arith)),
          ail_kept m₂ m₃ third (on_vpn ea) seg_256m page_4k (omega arith) (λ e. omega arith)
              ∙ others_free (on_vpn ea) seg_256m page_4k (omega arith) (inl (omega arith)),
        ),
        rw (third.2) large₂,
      )

-- With the page table and the hypervisor's image in the first 64 GB of the hypervisor's space, not
-- in the same page of 16 MB, and a RAM size of whole pages of 16 MB: whenever no BUG_ON stops
-- `mmu_init`, of those 64 GB exactly the pages of 16 MB around the table and the image are found,
-- each address at the real address that it has without the top bit; the vectors are found from real
-- address 0 on, and nothing else of their space; no address of the guest is found; and the mask for
-- the hash leaves at least 2 ^ 11 groups.
pub mmu_init_pages :
    (htab start end ram_size : ℕ)
    → 2 ^ 63 ≤ htab
    → htab + pteg_count ram_size * pteg_size ≤ 2 ^ 63 + 2 ^ 36
    → 2 ^ 63 ≤ start
    → start ≤ end
    → end ≤ 2 ^ 63 + 2 ^ 36
    → (up (htab + pteg_count ram_size * pteg_size) ≤ down start) ⊎ (up end ≤ down htab)
    → ram_size % 2 ^ 24 ≡ 0
    → IfDone
        (λ r.
          HasHvPages
            (down htab)
            (up (htab + pteg_count ram_size * pteg_size))
            (down start)
            (up end)
            r.0)
        (mmu_init htab start end ram_size)
unfolding mmu_init
mmu_init_pages htab start end ram_size p q p' le q' apart whole =
    let n = pteg_count ram_size * pteg_size in
    let placed : ArePlaced (down htab) (up (htab + n)) (down start) (up end) = record {
      low = omega arith;
      le = omega arith;
      high = omega arith;
      a_aligned = omega arith;
      b_aligned = omega arith;
      low' = omega arith;
      le' = omega arith;
      high' = omega arith;
      c_aligned = omega arith;
      d_aligned = omega arith;
      apart = apart;
    } in
    let end_of : u64 (htab + u64 n) ≡ htab + n = omega arith in
    let first = mask_down htab (omega arith) in
    let first_ra : bit_and (htab - 2 ^ 63) page_mask_16m ≡ down htab - 2 ^ 63 =
      mask_down (htab - 2 ^ 63) (omega arith) ∙ omega arith in
    let second = mask_down start (omega arith) in
    let second_ra : bit_and (start - 2 ^ 63) page_mask_16m ≡ down start - 2 ^ 63 =
      mask_down (start - 2 ^ 63) (omega arith) ∙ omega arith in
    let P : Mmu × ℕ → Type 0 =
      λ r. HasHvPages (down htab) (up (htab + n)) (down start) (up end) r.0 in
    rw
      (
        ptr_2_ra_lem htab p (omega arith),
        ptr_2_ra_lem start p' (omega arith),
        end_of,
        first,
        first_ra,
        second,
        second_ra,
        align_up_lem (htab + n) (omega arith),
        align_up_lem end (omega arith),
      )
      (IfDone-bug_on P (bit_and (htab - 2 ^ 63) sdr1_mask != (htab - 2 ^ 63)) _ (
        IfDone->>= _ P _ _
          (first_filled (down htab) (up (htab + n)) (down start) (up end) ram_size placed whole)
          (λ m₁ one.
            IfDone->>= _ P _ _
              (second_filled (down htab) (up (htab + n)) (down start) (up end) ram_size placed whole
                m₁ one)
              (λ m₂ two.
                IfDone->>= _ P _ _
                  (third_filled (down htab) (up (htab + n)) (down start) (up end) ram_size placed
                    whole m₁ one m₂ two)
                  (λ m₃ three.
                    all_filled (down htab) (up (htab + n)) (down start) (up end) ram_size placed
                      whole m₁ one m₂ two m₃ three)))))
