-- ===== src/Ranges/Remove.antt =====
-- `range_remove` of lib/ranges.c takes an interval out of a sorted list, unless it has to leave
-- a single address in front of the interval.
use prephv.Base.{
  ℕ, ◌+◌, ◌-◌, ◌^◌, ◌≤◌, ◌<◌, ◌≡◌, true, ◌&&◌, ◌||◌, not, [], ◌∷◌, ◌++◌, arith, done, ltb,
  Bool-cases, inl, inr, ◌⊎◌,
}
use prephv.Ranges.{Range, Ranges, range, Malloc, remove_step, remove_loop, range_remove}
use prephv.Ranges.Cut.{
  inside, covers, IsSorted, IsBelow, IsBelow-append, IsBelow-weaken, cut, cut_all, covers-cut_all,
  IsSorted-cut_all,
}
use prephv.Ranges.Add.{insert-before}
use mathlib.Core.List.{append_assoc, append-nil}

-- The range begins at least two addresses before `base` if it reaches past both ends.
abbrev pub HasRoom : ℕ → ℕ → Range → Type 0
HasRoom base limit x = (base ≤ x.base) ⊎ (x.limit ≤ limit) ⊎ (x.base + 1 < base)

abbrev pub AllHaveRoom : ℕ → ℕ → Ranges → Type 0
AllHaveRoom base limit [] = Unit {0}
AllHaveRoom base limit (x ∷ xs) = HasRoom base limit x × AllHaveRoom base limit xs

module _ (mem : Malloc) (base limit : ℕ) (has_mem : (b l : ℕ) → mem b l ≡ true)
    (ordered : base < limit) (fits : limit < 2 ^ 64) where
  step-cut :
      (pre : Ranges) (x : Range)
      → x.base ≤ x.limit
      → x.limit < 2 ^ 64
      → IsBelow x.base pre
      → HasRoom base limit x
      → remove_step mem base limit pre x ≡ done (pre ++ cut base limit x)
  unfolding remove_step cut
  step-cut pre x h u b room = ground (
    arith,
    has_mem x.base (base - 1),
    append-nil pre,
    insert-before (range x.base (base - 1)) (range (limit + 1) x.limit) pre,
  )

  IsBelow-cut : (x : Range) → x.base ≤ x.limit → IsBelow (x.limit + 1) (cut base limit x)
  unfolding cut
  IsBelow-cut x h = elim (Bool-cases (ltb limit x.base || ltb x.limit base)) [
    | inl out ↦ rw out (h, omega arith, tt)
    | inr meets ↦ rw meets (elim (Bool-cases (ltb x.base base)) [
      | inl left ↦ rw left (elim (Bool-cases (ltb limit x.limit)) [
        | inl right ↦ rw right (ground arith, ground arith, (ground arith, ground arith, tt))
        | inr clear ↦ rw clear (ground arith, ground arith, tt)
      ])
      | inr clear ↦ rw clear (elim (Bool-cases (ltb limit x.limit)) [
        | inl right ↦ rw right (ground arith, ground arith, tt)
        | inr clear' ↦ rw clear' tt
      ])
    ])
  ]

  loop-cut_all :
      (pre xs : Ranges) (lo : ℕ)
      → IsBelow lo pre
      → IsSorted lo xs
      → AllHaveRoom base limit xs
      → remove_loop mem base limit pre xs ≡ done (pre ++ cut_all base limit xs)
  unfolding remove_loop cut_all
  loop-cut_all pre [] lo b s room = rw append-nil
  loop-cut_all pre (x ∷ xs) lo b s room =
      let below : IsBelow x.base pre = IsBelow-weaken lo x.base pre s.0 b in
      rw (step-cut pre x s.1 s.2 below room.0) (
        rw (← append_assoc) (
          loop-cut_all (pre ++ cut base limit x) xs (x.limit + 1)
            (IsBelow-append x.base (x.limit + 1) pre (cut base limit x) below (omega arith)
              (IsBelow-cut x s.1))
            s.3 room.1))

  pub range_remove-cut_all :
      (xs : Ranges)
      → IsSorted 0 xs
      → AllHaveRoom base limit xs
      → range_remove mem base limit xs ≡ done (cut_all base limit xs)
  unfolding range_remove
  range_remove-cut_all xs s room = ground (arith, loop-cut_all [] xs 0 tt s room)

  -- A non-empty interval of 64-bit addresses is taken out of a sorted list, given memory for
  -- the nodes and, in front of the interval, no range that keeps one address alone: the list
  -- stays sorted, and it covers exactly what it covered outside of the interval.
  pub range_remove-covers :
      (xs : Ranges)
      → IsSorted 0 xs
      → AllHaveRoom base limit xs
      → (ys : Ranges) × (range_remove mem base limit xs ≡ done ys)
        × IsSorted 0 ys
        × ((a : ℕ) → covers ys a ≡ (covers xs a && not (inside base limit a)))
  range_remove-covers xs s room = (
    cut_all base limit xs,
    range_remove-cut_all xs s room,
    IsSorted-cut_all base limit 0 xs (omega arith) s,
    λ a. covers-cut_all base limit xs a (omega arith),
  )
