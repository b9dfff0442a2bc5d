-- ===== src/Mem.antt =====
-- The page allocator of mem.c after `mem_init` has found the memory, and the boot-time one
-- before it.
pub mod Pages
pub mod Init
use prephv.Base.{
  ℕ, ◌+◌, ◌-◌, ◌*◌, ◌/◌, ◌%◌, ◌^◌, Bool, true, false, ◌&&◌, [], ◌∷◌, Run, done, halt, ◌>>=◌, ◌>>◌,
  bug_on, ltb, leb, ◌==◌, ◌!=◌, if◌then◌else◌, u64, ◌-64◌, align, align_up,
}
use prephv.Ppc.{page_size}
use prephv.Ranges.{Range, Ranges, Malloc, range_remove}
use prephv.Mmu.Types.{ra_2_ptr}

-- The static variables of mem.c. `early_memory` is the address where the linker puts the array.
pub record Mem : Type 0 where
  pub mem_free_ranges : Ranges
  pub mem_early : Bool
  pub early_memory : ℕ
  pub sbrk : ℕ

-- EARLY_MEMORY
abbrev pub early_size : ℕ
early_size = page_size * 64

unfoldable pub base_aligned : Range → ℕ
base_aligned r = align_up r.base page_size

unfoldable pub limit_aligned : Range → ℕ
limit_aligned r = align r.limit page_size

-- Whether `length` bytes in whole pages can be taken from a range.
unfoldable pub is_usable : ℕ → Range → Bool
unfolding base_aligned limit_aligned
is_usable length r =
    ltb (base_aligned r) (limit_aligned r) && leb length (limit_aligned r -64 base_aligned r)

-- The branch of `mem_get_pages` before `mem_init` is done.
unfoldable pub early_pages : ℕ → Mem → Run (ℕ × Mem)
early_pages length m =
    let sbrk = u64 (align_up m.sbrk page_size + length) in
    bug_on (ltb early_size (sbrk -64 m.early_memory))
    >> done (sbrk -64 length, record m { sbrk = sbrk })

module _ (mem : Malloc) (length : ℕ) where
  -- The loop of `mem_get_pages`, at `left`, over the list `all`. NULL is 0; the message behind
  -- the loop is never given, since the `BUG_ON` there tests NULL.
  unfoldable pub late_pages : Ranges → Ranges → Run (ℕ × Ranges)
  unfolding is_usable base_aligned
  late_pages all [] = done (0, all)
  late_pages all (r ∷ left) =
      let rest = late_pages all left in
      if is_usable length r
      then (do
        ranges ← range_remove mem (base_aligned r) (u64 (base_aligned r + length) -64 1) all
        p ← ra_2_ptr (base_aligned r)
        done (p, ranges))
      else rest

  unfoldable pub mem_get_pages : Mem → Run (ℕ × Mem)
  unfolding late_pages early_pages
  mem_get_pages m = do
    bug_on (length == 0)
    bug_on (length % page_size != 0)
    if m.mem_early then early_pages length m else (do
      (p, ranges) ← late_pages m.mem_free_ranges m.mem_free_ranges
      done (p, record m { mem_free_ranges = ranges }))
