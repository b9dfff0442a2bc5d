-- ===== src/Ranges.antt =====
-- lib/ranges.c and include/ranges.h: address ranges kept on a list. The circular list of
-- include/list.h is a `List`, from the head's successor on: `list_add_tail(&r->link,
-- &range->link)` puts `r` in front of `range`, and at the list's head it appends.
pub mod Cut
pub mod Add
pub mod Remove
pub mod Paged
pub mod Subtract
use prephv.Base.{
  ℕ, ◌+◌, ◌≡◌, Bool, ◌&&◌, ◌||◌, List, [], ◌∷◌, ◌++◌, Run, done, ◌>>=◌, ◌>>◌, bug_on, ltb, leb,
  if◌then◌else◌, not, length, u64, ◌-64◌,
}

-- The limit is the last address of the range.
pub record Range : Type 0 where
  pub base : ℕ
  pub limit : ℕ

abbrev pub Ranges : Type 0
Ranges = List Range

abbrev pub range : ℕ → ℕ → Range
range b l = record { base = b; limit = l }

-- `mem_malloc` is the allocator's, which is not modelled: for each range it says whether there
-- is memory for its `range_t`.
abbrev pub Malloc : Type 0
Malloc = ℕ → ℕ → Bool

unfoldable pub range_init : Ranges
range_init = []

unfoldable pub range_count : Ranges → ℕ
range_count ranges = length ranges

unfoldable pub range_alloc : Malloc → ℕ → ℕ → Run Range
range_alloc mem base limit = bug_on (not (mem base limit)) >> done (range base limit)

-- The loop of `range_add`.
unfoldable pub insert : Range → Ranges → Run Ranges
insert r [] = done (r ∷ [])
insert r (x ∷ xs) = do
  bug_on (leb x.base r.base && leb r.limit x.limit)
  if ltb r.limit x.base then done (r ∷ x ∷ xs) else (do ys ← insert r xs; done (x ∷ ys))

unfoldable pub range_add : Malloc → Ranges → ℕ → ℕ → Run Ranges
unfolding range_alloc insert
range_add mem ranges base limit = do
  r ← range_alloc mem base limit
  bug_on (leb limit base)
  insert r ranges

module _ (mem : Malloc) (base limit : ℕ) where
  -- One round of the loop of `range_remove`, at `x` with `pre` before it: what then stands
  -- before the next entry. `range_add` runs over the whole list there, but `x` now begins above
  -- `base - 1`, so it stops at `x` at the latest and does not look at what follows.
  unfoldable pub remove_step : Ranges → Range → Run Ranges
  unfolding range_add
  remove_step pre x =
      if ltb limit x.base || ltb x.limit base
      then done (pre ++ x ∷ [])
      else if leb base x.base && leb x.limit limit
      then done pre
      else if leb base x.base
      then done (pre ++ range (u64 (limit + 1)) x.limit ∷ [])
      else if leb x.limit limit
      then done (pre ++ range x.base (base -64 1) ∷ [])
      else range_add mem (pre ++ range (u64 (limit + 1)) x.limit ∷ []) x.base (base -64 1)

  unfoldable pub remove_loop : Ranges → Ranges → Run Ranges
  unfolding remove_step
  remove_loop pre [] = done pre
  remove_loop pre (x ∷ xs) = do pre' ← remove_step pre x; remove_loop pre' xs

  unfoldable pub range_remove : Ranges → Run Ranges
  unfolding remove_loop
  range_remove ranges = bug_on (leb limit base) >> remove_loop [] ranges
