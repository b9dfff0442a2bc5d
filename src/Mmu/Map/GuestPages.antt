-- ===== src/Mmu/Map/GuestPages.antt =====
-- The virtual pages of the guest, as mmu.c numbers them with the guest's MMU off and on, and the
-- pages that cannot be taken for them.
use prephv.Base.{ℕ, ◌+◌, ◌*◌, ◌^◌, ◌≤◌, ◌<◌, ◌≡◌, arith, none, inr, ◌⊎◌}
use prephv.Mmu.Types.{Mmu, SegSize, seg_1t, seg_256m, PageSize, page_4k, page_16m}
use prephv.Mmu.Address.{grm_vsid}
use prephv.Mmu.Htab.Entry.{avpn}
use prephv.Mmu.Htab.Refine.{walk, OtherPage}
use prephv.Mmu.Map.Region.{vpn_of}

-- The virtual page of a guest address with the MMU off, and on with the registers of the start.
abbrev pub off_vpn : ℕ → ℕ
off_vpn ea = vpn_of 0 (grm_vsid * 2 ^ 28) ea

abbrev pub on_vpn : ℕ → ℕ
on_vpn ea = vpn_of 0 0 ea

-- No page of the guest is found.
abbrev pub NoGuestPages : Mmu → Type 0
NoGuestPages m =
    (ea : ℕ)
    → ea < 2 ^ 32
    → (walk m (off_vpn ea) seg_1t page_16m ≡ none) × (walk m (on_vpn ea) seg_256m page_4k ≡ none)

-- An abbreviated page number that no page of the guest has.
abbrev pub IsForeign : ℕ → PageSize → Type 0
IsForeign vpn page =
    (2 ^ 9 ≤ avpn vpn page)
    × ((avpn vpn page < grm_vsid * 2 ^ 17) ⊎ (grm_vsid * 2 ^ 17 + 2 ^ 17 ≤ avpn vpn page))

-- All pages but the guest's are found as before.
abbrev pub KeepsForeign : Mmu → Mmu → Type 0
KeepsForeign m m' =
    (vpn : ℕ) (seg : SegSize) (page : PageSize)
    → vpn < 2 ^ 64
    → IsForeign vpn page
    → walk m' vpn seg page ≡ walk m vpn seg page

-- The pages for the MMU off and on have no abbreviated number in common.
pub off_on :
    (m : Mmu) (ea ea' : ℕ)
    → ea < 2 ^ 32
    → ea' < 2 ^ 32
    → OtherPage m (off_vpn ea) seg_1t page_16m (on_vpn ea') seg_256m page_4k
off_on m ea ea' a b = inr (λ e. omega arith)

pub on_off :
    (m : Mmu) (ea ea' : ℕ)
    → ea < 2 ^ 32
    → ea' < 2 ^ 32
    → OtherPage m (on_vpn ea) seg_256m page_4k (off_vpn ea') seg_1t page_16m
on_off m ea ea' a b = inr (λ e. omega arith)
