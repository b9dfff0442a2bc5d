-- ===== src/Mmu/Map/Span.antt =====
-- The arithmetic of a range of pages: its virtual pages and its frames.
use prephv.Base.{ℕ, ◌+◌, ◌-◌, ◌*◌, ◌/◌, ◌%◌, ◌^◌, ◌≤◌, ◌<◌, ◌≡◌, ◌≢◌, arith}
use prephv.Mmu.Types.{PageSize, page_4k, page_16m, size_of}
use prephv.Mmu.Htab.Pages.{span}
use prephv.Mmu.Map.Region.{vpn_of}

-- The virtual pages of a region, page by page.
module _ (lo vpn : ℕ) (base : lo % 2 ^ 24 ≡ 0) (aligned : vpn % 2 ^ 12 ≡ 0) (addr ea : ℕ)
    (above : lo ≤ addr) where
  pub same_span :
      (page : PageSize)
      → addr % size_of page ≡ 0
      → addr ≤ ea
      → ea < addr + size_of page
      → vpn_of lo vpn addr / span page ≡ vpn_of lo vpn ea / span page
  unfolding size_of
  same_span page_4k al a b = omega arith
  same_span page_16m al a b = omega arith

  pub other_span :
      (page : PageSize)
      → addr % size_of page ≡ 0
      → addr + size_of page ≤ ea
      → vpn_of lo vpn ea / span page ≢ vpn_of lo vpn addr / span page
  unfolding size_of
  other_span page_4k al a e = omega arith
  other_span page_16m al a e = omega arith

-- The real address of the page around an address of the range.
abbrev pub frame_at : PageSize → ℕ → ℕ → ℕ → ℕ
frame_at page addr ra ea = ra + (ea - addr) / size_of page * size_of page

pub frame_first :
    (page : PageSize) (addr ra ea : ℕ) → ea < addr + size_of page → frame_at page addr ra ea ≡ ra
unfolding size_of
frame_first page_4k addr ra ea b = omega arith
frame_first page_16m addr ra ea b = omega arith

pub frame_next :
    (page : PageSize) (addr ra ea : ℕ)
    → addr + size_of page ≤ ea
    → frame_at page (addr + size_of page) (ra + size_of page) ea ≡ frame_at page addr ra ea
unfolding size_of
frame_next page_4k addr ra ea b = omega arith
frame_next page_16m addr ra ea b = omega arith

pub next_aligned :
    (page : PageSize) (x : ℕ) → x % size_of page ≡ 0 → (x + size_of page) % size_of page ≡ 0
unfolding size_of
next_aligned page_4k x h = omega arith
next_aligned page_16m x h = omega arith
