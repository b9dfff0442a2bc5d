-- ===== src/Guest/Laws/Ram.antt =====
-- `guest_init` of guest.c maps the guest's RAM twice: for its MMU off, in pages of 16 MB, and for
-- its MMU on, in pages of 4 KB.
use prephv.Base.{
  ℕ, ◌+◌, ◌*◌, ◌%◌, ◌^◌, ◌≤◌, ◌<◌, ◌≡◌, refl, arith, Bool, true, false, Option, none, some, List,
  done, ◌>>=◌, bit_or, get_or, IfDone, IfDone->>=, IfDone-bug_on, ltb, ◌!=◌, mb, if◌then◌else◌, inl,
  inr, ◌∙◌, ap, Bool-cases, suc, zero,
}
use prephv.Ppc.{msr_ir, msr_dr, pp_rwrw}
use prephv.Guest.State.{Guest, the_guest, guest_is_mmu_off}
use prephv.Guest.Vm.{guest_update_msr}
use prephv.Guest.Init.{init_srs, fresh_guest, guest_init}
use prephv.Mmu.Types.{
  Mmu, SegSize, seg_1t, seg_256m, PageSize, page_4k, page_16m, size_of, ptr_2_ra,
}
use prephv.Mmu.Address.{layout_vm_start, grm_vsid}
use prephv.Mmu.Htab.{rflags}
use prephv.Mmu.Htab.Refine.{walk}
use prephv.Mmu.Map.{mmu_map_range}
use prephv.Mmu.Map.GuestPages.{
  off_vpn, on_vpn, NoGuestPages, IsForeign, KeepsForeign, off_on, on_off,
}
use prephv.Mmu.Map.Region.{lookup, lookup_in}
use prephv.Mmu.Map.Fill.{IsLarge, Fills, fill_range}
use prephv.Mmu.Map.Span.{frame_at}
use prephv.Mmu.Map.Lookup.{in_range, walk-Fills}
use prephv.Mmu.Map.Spaces.{off-IsRegion, on-IsRegion}
use prephv.Mmu.Slb.{SlbUnit, Err, err_none, mmu_guest_update}

-- The entry of a page of the guest's RAM, from `ra` on in real memory, and none behind the RAM.
abbrev pub ram_page : PageSize → ℕ → ℕ → ℕ → Option ℕ
ram_page page ram_size ra ea =
    if in_range 0 ram_size ea then some (bit_or (frame_at page 0 ra ea) (rflags pp_rwrw)) else none

-- Exactly the RAM is found, with the guest's MMU off, and on with these segment registers.
abbrev pub HasRamPages : ℕ → ℕ → List ℕ → Mmu → Type 0
HasRamPages ram_size ra sr m =
    ((g : Guest) (ea : ℕ)
      → guest_is_mmu_off (some g) ≡ done true
      → ea < 2 ^ 32
      → lookup (some g) m ea ≡ done (ram_page page_16m ram_size ra ea))
    × ((g : Guest) (ea : ℕ)
        → guest_is_mmu_off (some g) ≡ done false
        → g.sr ≡ sr
        → ea < 2 ^ 32
        → lookup (some g) m ea ≡ done (ram_page page_4k ram_size ra ea))

get_or-init_srs : (n s i : ℕ) → i < n → get_or (init_srs n s) i 0 ≡ s + i
unfolding init_srs
get_or-init_srs zero s i h = absurd (omega arith)
get_or-init_srs (suc n) s zero h = omega arith
get_or-init_srs (suc n) s (suc i) h = omega (arith, get_or-init_srs n (s + 1) i (omega arith))

-- The guest while `guest_init` maps its RAM for the MMU on.
abbrev started : ℕ → ℕ → Guest
started ram ram_size = record (fresh_guest ram ram_size) { msr = 0x30 }

module _ (ram ram_size : ℕ) where
  fresh_sr : (i : ℕ) → i < 16 → get_or (fresh_guest ram ram_size).sr i 0 ≡ i
  unfolding fresh_guest
  fresh_sr i h = omega (arith, get_or-init_srs 16 0 i h)

  fresh_off : guest_is_mmu_off (some (fresh_guest ram ram_size)) ≡ done true
  unfolding guest_is_mmu_off the_guest fresh_guest
  fresh_off = refl

  started_on : guest_is_mmu_off (some (started ram ram_size)) ≡ done false
  unfolding guest_is_mmu_off the_guest fresh_guest
  started_on = refl

  switched_on :
      (hw : SlbUnit) (s : hw.Slb)
      → guest_update_msr hw (bit_or msr_ir msr_dr) (some (fresh_guest ram ram_size)) s
        ≡ done (started ram ram_size, mmu_guest_update hw true s)
  unfolding guest_update_msr guest_is_mmu_off the_guest fresh_guest
  switched_on hw s = refl

  started_sr : (i : ℕ) → i < 16 → get_or (started ram ram_size).sr i 0 ≡ i
  unfolding fresh_guest
  started_sr i h = fresh_sr i h

module _ (ram ram_size ra : ℕ) where
  -- What `guest_init` does to the table, or nothing if there is no memory for the guest.
  abbrev pub Started : Mmu → Option Guest → Mmu → Type 0
  Started m none m' = m' ≡ m
  Started m (some g) m' =
      (g.ram ≡ ram) × (g.ram_size ≡ ram_size) × HasRamPages ram_size ra g.sr m' × KeepsForeign m m'

module _ (ram ram_size ra : ℕ) (small : ram_size ≤ 2 ^ 32) (whole : ram_size % 2 ^ 24 ≡ 0)
    (al : ra % 2 ^ 24 ≡ 0) (room : ra + ram_size ≤ 2 ^ 60) where
  abbrev FillsOff : Mmu → Mmu → Type 0
  FillsOff m m' = Fills 0 (grm_vsid * 2 ^ 28) seg_1t page_16m ram_size pp_rwrw m 0 ra m'

  abbrev FillsOn : Mmu → Mmu → Type 0
  FillsOn m m' = Fills 0 0 seg_256m page_4k ram_size pp_rwrw m 0 ra m'

  abbrev fresh : Guest
  fresh = fresh_guest ram ram_size

  off_filled :
      (m : Mmu)
      → IsLarge m
      → NoGuestPages m
      → IfDone (FillsOff m) (mmu_map_range (some fresh) 0 ram_size ra pp_rwrw page_16m m)
  unfolding size_of
  off_filled m large free =
      fill_range (some fresh) 0 (2 ^ 32) (grm_vsid * 2 ^ 28) seg_1t page_16m
        (off-IsRegion fresh (fresh_off ram ram_size)) ram_size pp_rwrw small (omega arith) 0 ra m
        (omega arith) (omega arith) refl (omega arith) al (omega arith) large
        (λ ea a b. (free ea (omega arith)).0)

  on_filled :
      (m m₁ : Mmu)
      → IsLarge m
      → NoGuestPages m
      → FillsOff m m₁
      → IfDone
          (FillsOn m₁)
          (mmu_map_range (some (started ram ram_size)) 0 ram_size ra pp_rwrw page_4k m₁)
  unfolding size_of
  on_filled m m₁ large free (inside, outside, mask) =
      fill_range (some (started ram ram_size)) 0 (2 ^ 32) 0 seg_256m page_4k
        (on-IsRegion (started ram ram_size) (started_on ram ram_size) (started_sr ram ram_size))
        ram_size pp_rwrw small (omega arith) 0 ra m₁ (omega arith) (omega arith) refl (omega arith)
        (omega arith) (omega arith) (rw mask large)
        (λ ea a b.
          outside (on_vpn ea) seg_256m page_4k (omega arith)
            (λ ea' a' b'. off_on m ea' ea (omega arith) (omega arith))
          ∙ (free ea (omega arith)).1)

  both_filled :
      (m m₁ m₂ : Mmu)
      → IsLarge m
      → NoGuestPages m
      → FillsOff m m₁
      → FillsOn m₁ m₂
      → HasRamPages ram_size ra fresh.sr m₂
  unfolding size_of
  both_filled m m₁ m₂ large free first second = (
    λ g ea off lt.
        lookup_in (some g) 0 (2 ^ 32) (grm_vsid * 2 ^ 28) seg_1t page_16m (off-IsRegion g off) m₂ ea
          (omega arith) lt
        ∙ ap done (
            second.1 (off_vpn ea) seg_1t page_16m (omega arith)
              (λ ea' a' b'. on_off m₁ ea' ea (omega arith) lt)
            ∙ rw ((free ea lt).0) at (
                walk-Fills (some g) 0 (2 ^ 32) (grm_vsid * 2 ^ 28) seg_1t page_16m
                  (off-IsRegion g off) 0 ram_size pp_rwrw small (omega arith) (omega arith) refl
                  (omega arith) m m₁ ra ea large first (omega arith) lt)),
    λ g ea on sr lt.
        let srs : (i : ℕ) → i < 16 → get_or g.sr i 0 ≡ i =
          λ i h. rw sr (fresh_sr ram ram_size i h) in
        let absent : walk m₁ (on_vpn ea) seg_256m page_4k ≡ none =
          first.1 (on_vpn ea) seg_256m page_4k (omega arith)
            (λ ea' a' b'. off_on m ea' ea (omega arith) lt)
          ∙ (free ea lt).1 in
        lookup_in (some g) 0 (2 ^ 32) 0 seg_256m page_4k (on-IsRegion g on srs) m₂ ea (omega arith)
          lt
        ∙ ap done (
            rw absent at (
              walk-Fills (some g) 0 (2 ^ 32) 0 seg_256m page_4k (on-IsRegion g on srs) 0 ram_size
                pp_rwrw small (omega arith) (omega arith) refl (omega arith) m₁ m₂ ra ea
                (rw (first.2) large) second (omega arith) lt)),
  )

  both_kept :
      (m m₁ m₂ : Mmu)
      → FillsOff m m₁
      → FillsOn m₁ m₂
      → (vpn : ℕ) (seg : SegSize) (page : PageSize) → vpn < 2 ^ 64
      → IsForeign vpn page
      → walk m₂ vpn seg page ≡ walk m vpn seg page
  both_kept m m₁ m₂ first second vpn seg page lt (above, apart) =
      second.1 vpn seg page lt (λ ea a b. inr (λ e. omega arith))
      ∙ first.1 vpn seg page lt (λ ea a b. inr (λ e. ground arith))

  module _ (hw : SlbUnit) (m : Mmu) (large : IsLarge m) (free : NoGuestPages m) where
    abbrev StartedBy : Err × Option Guest × hw.Slb × Mmu → Type 0
    StartedBy r = Started ram ram_size ra m r.1 r.3

    -- What follows the two BUG_ON and `ptr_2_ra`.
    mapped_twice :
        (s : hw.Slb)
        → IfDone StartedBy (
            mmu_map_range (some fresh) 0 ram_size ra pp_rwrw page_16m m >>= λ m₁.
            guest_update_msr hw (bit_or msr_ir msr_dr) (some fresh) s >>= λ r.
            mmu_map_range (some r.0) 0 ram_size ra pp_rwrw page_4k m₁ >>= λ m₂.
            done (err_none, some r.0, r.1, m₂))
    mapped_twice s =
        IfDone->>= (FillsOff m) StartedBy
          (mmu_map_range (some fresh) 0 ram_size ra pp_rwrw page_16m m) _ (off_filled m large free)
          (λ m₁ first. rw (switched_on ram ram_size hw s) (
            IfDone->>= (FillsOn m₁) StartedBy
              (mmu_map_range (some (started ram ram_size)) 0 ram_size ra pp_rwrw page_4k m₁) _
              (on_filled m m₁ large free first)
              (λ m₂ second.
                unfold fresh_guest in
                (
                  refl,
                  refl,
                  unfold fresh_guest in both_filled m m₁ m₂ large free first second,
                  both_kept m m₁ m₂ first second,
                ))))

module _ (hw : SlbUnit) (ram ram_size ra : ℕ) where
  -- With RAM of at most 4 GB in whole real pages of 16 MB below 2 ^ 60, on a table of at least
  -- 2 ^ 11 groups that has no page of the guest: `guest_init`, whenever no BUG_ON stops it, either
  -- has no memory and leaves the table as it is, or makes a guest with that RAM whose addresses are
  -- found exactly up to the RAM's size, each at its own place in the RAM and writable, and no
  -- address behind the RAM is found; both with the guest's MMU off, in pages of 16 MB, and on, with
  -- the segment registers that the guest starts with, in pages of 4 KB. Pages with an abbreviated
  -- number that no page of the guest has are found as before.
  pub guest_init_pages :
      (has_mem : Bool) (s : hw.Slb) (m : Mmu)
      → ptr_2_ra ram ≡ done ra
      → ram_size ≤ 2 ^ 32
      → ra % 2 ^ 24 ≡ 0
      → ra + ram_size ≤ 2 ^ 60
      → IsLarge m
      → NoGuestPages m
      → IfDone (λ r. Started ram ram_size ra m r.1 r.3) (guest_init hw has_mem ram ram_size s m)
  unfolding guest_init
  guest_init_pages false s m at small al room large free = refl
  guest_init_pages true s m at small al room large free =
      IfDone-bug_on _ (ltb ram_size (mb 32)) _ (elim (Bool-cases (ram_size % mb 16 != 0)) [
        | inl n ↦ rw n tt
        | inr n ↦
            rw (n, at)
              (let whole : ram_size % 2 ^ 24 ≡ 0 = ground arith in
                let e : layout_vm_start + ram_size ≡ ram_size = omega arith in
                rw e (
                  mapped_twice ram ram_size ra small whole al room hw m large free
                    (mmu_guest_update hw false s)))
      ])
