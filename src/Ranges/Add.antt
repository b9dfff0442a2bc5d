-- ===== src/Ranges/Add.antt =====
-- `range_add` of lib/ranges.c: where it puts a range, and what the list then covers.
use prephv.Base.{
  ℕ, ◌+◌, ◌^◌, ◌≤◌, ◌<◌, ◌≡◌, refl, true, ◌||◌, [], ◌∷◌, ◌++◌, arith, done, halt, ltb,
  if◌then◌else◌, Bool-cases, inl, inr, ◌⊎◌,
}
use prephv.Ranges.{Range, Ranges, range, Malloc, insert, range_add}
use prephv.Ranges.Cut.{inside, covers, IsSorted, IsBelow}

-- A range that starts above all those of `pre` and ends below `x` goes between them.
pub insert-before :
    (r x : Range) (pre : Ranges)
    → r.base ≤ r.limit
    → r.limit < x.base
    → IsBelow r.base pre
    → insert r (pre ++ x ∷ []) ≡ done (pre ++ r ∷ x ∷ [])
unfolding insert
insert-before r x [] h lt b = ground arith
insert-before r x (y ∷ ys) h lt b = ground (arith, insert-before r x ys)

-- No address of the interval is in a range of the list.
abbrev pub IsFree : ℕ → ℕ → Ranges → Type 0
IsFree base limit [] = Unit {0}
IsFree base limit (x ∷ xs) = ((limit < x.base) ⊎ (x.limit < base)) × IsFree base limit xs

-- Where a range goes that meets none of the list.
place : Range → Ranges → Ranges
place r [] = r ∷ []
place r (x ∷ xs) = if ltb r.limit x.base then r ∷ x ∷ xs else x ∷ place r xs

insert-place :
    (r : Range) (xs : Ranges) (lo : ℕ)
    → r.base ≤ r.limit
    → IsSorted lo xs
    → IsFree r.base r.limit xs
    → insert r xs ≡ done (place r xs)
unfolding insert place
insert-place r [] lo h s f = refl
insert-place r (x ∷ xs) lo h s f = ground (arith, insert-place r xs (x.limit + 1))

IsSorted-place :
    (r : Range) (xs : Ranges) (lo : ℕ)
    → lo ≤ r.base
    → r.base ≤ r.limit
    → r.limit < 2 ^ 64
    → IsSorted lo xs
    → IsFree r.base r.limit xs
    → IsSorted lo (place r xs)
unfolding place
IsSorted-place r [] lo p q u s f = (p, q, u, tt)
IsSorted-place r (x ∷ xs) lo p q u s f = elim (Bool-cases (ltb r.limit x.base)) [
  | inl lt ↦ rw lt (p, q, u, (ground arith, s.1, s.2, s.3))
  | inr ge ↦ rw ge (s.0, s.1, s.2, IsSorted-place r xs (x.limit + 1) (ground arith) q u s.3 f.1)
]

covers-place :
    (r : Range) (xs : Ranges) (a : ℕ)
    → covers (place r xs) a ≡ (inside r.base r.limit a || covers xs a)
unfolding place covers
covers-place r [] a = refl
covers-place r (x ∷ xs) a = ground (arith, covers-place r xs a)

-- With memory for its node, a non-empty interval of 64-bit addresses that meets no range of a
-- sorted list is added: the list stays sorted, and covers exactly what it covered and the
-- interval.
pub range_add-covers :
    (mem : Malloc) (xs : Ranges) (base limit : ℕ)
    → mem base limit ≡ true
    → base < limit
    → limit < 2 ^ 64
    → IsSorted 0 xs
    → IsFree base limit xs
    → (ys : Ranges) × (range_add mem xs base limit ≡ done ys)
      × IsSorted 0 ys
      × ((a : ℕ) → covers ys a ≡ (inside base limit a || covers xs a))
unfolding range_add
range_add-covers mem xs base limit m lt u s f = (
  place (range base limit) xs,
  ground (arith, insert-place (range base limit) xs 0),
  IsSorted-place (range base limit) xs 0 (omega arith) (omega arith) u s f,
  covers-place (range base limit) xs,
)

insert-within :
    (r x : Range) (pre post : Ranges)
    → r.base ≤ r.limit
    → x.base ≤ r.base
    → r.limit ≤ x.limit
    → IsBelow r.base pre
    → insert r (pre ++ x ∷ post) ≡ halt
unfolding insert
insert-within r x [] post h p q b = ground arith
insert-within r x (y ∷ ys) post h p q b = ground (arith, insert-within r x ys post)

-- Behind ranges that all lie below it, an interval that lies within the next range stops the
-- machine, whatever stands behind that range; so does an interval of one address or none.
pub range_add-halt :
    (mem : Malloc) (pre post : Ranges) (x : Range) (base limit : ℕ)
    → IsBelow base pre
    → (limit ≤ base) ⊎ ((x.base ≤ base) × (limit ≤ x.limit))
    → range_add mem (pre ++ x ∷ post) base limit ≡ halt
unfolding range_add
range_add-halt mem pre post x base limit b why =
    ground (arith, insert-within (range base limit) x pre post)
