-- ===== src/Ranges/Cut.antt =====
-- What a list of ranges stands for, and what is left of it without an interval.
use prephv.Base.{
  ℕ, ◌+◌, ◌-◌, ◌^◌, ◌≤◌, ◌<◌, ◌≡◌, refl, Bool, false, ◌&&◌, ◌||◌, not, [], ◌∷◌, ◌++◌, arith, ltb,
  leb, Bool-cases, inl, inr, if◌then◌else◌,
}
use prephv.Ranges.{Range, Ranges, range}

-- Whether an address lies in an interval, and in some range of a list.
unfoldable pub inside : ℕ → ℕ → ℕ → Bool
inside base limit a = leb base a && leb a limit

unfoldable pub covers : Ranges → ℕ → Bool
unfolding inside
covers [] a = false
covers (x ∷ xs) a = inside x.base x.limit a || covers xs a

-- The ranges stand in order from `lo` on, none is empty, none meets another, and all lie below
-- 2 ^ 64.
abbrev pub IsSorted : ℕ → Ranges → Type 0
IsSorted lo [] = Unit {0}
IsSorted lo (x ∷ xs) =
    (lo ≤ x.base) × (x.base ≤ x.limit) × (x.limit < 2 ^ 64) × IsSorted (x.limit + 1) xs

-- Every range ends below `b`.
abbrev pub IsBelow : ℕ → Ranges → Type 0
IsBelow b [] = Unit {0}
IsBelow b (x ∷ xs) = (x.base ≤ x.limit) × (x.limit < b) × IsBelow b xs

pub IsBelow-weaken : (b c : ℕ) (xs : Ranges) → b ≤ c → IsBelow b xs → IsBelow c xs
IsBelow-weaken b c [] h s = tt
IsBelow-weaken b c (x ∷ xs) h s = (s.0, omega arith, IsBelow-weaken b c xs h s.2)

pub IsBelow-append :
    (b c : ℕ) (xs ys : Ranges) → IsBelow b xs → b ≤ c → IsBelow c ys → IsBelow c (xs ++ ys)
IsBelow-append b c [] ys h le k = k
IsBelow-append b c (x ∷ xs) ys h le k = (h.0, omega arith, IsBelow-append b c xs ys h.2 le k)

-- What is left of one range without the interval from `base` to `limit`.
unfoldable pub cut : ℕ → ℕ → Range → Ranges
cut base limit x =
    if ltb limit x.base || ltb x.limit base
    then x ∷ []
    else (if ltb x.base base then range x.base (base - 1) ∷ [] else [])
      ++ (if ltb limit x.limit then range (limit + 1) x.limit ∷ [] else [])

unfoldable pub cut_all : ℕ → ℕ → Ranges → Ranges
unfolding cut
cut_all base limit [] = []
cut_all base limit (x ∷ xs) = cut base limit x ++ cut_all base limit xs

pub covers-append : (xs ys : Ranges) (a : ℕ) → covers (xs ++ ys) a ≡ (covers xs a || covers ys a)
unfolding covers
covers-append [] ys a = refl
covers-append (x ∷ xs) ys a = ground (arith, covers-append xs ys a)

covers-cut :
    (base limit : ℕ) (x : Range) (a : ℕ)
    → base ≤ limit
    → covers (cut base limit x) a ≡ (inside x.base x.limit a && not (inside base limit a))
unfolding cut covers
covers-cut base limit x a h = ground arith

pub covers-cut_all :
    (base limit : ℕ) (xs : Ranges) (a : ℕ)
    → base ≤ limit
    → covers (cut_all base limit xs) a ≡ (covers xs a && not (inside base limit a))
unfolding cut_all
covers-cut_all base limit [] a h = unfold covers in refl
covers-cut_all base limit (x ∷ xs) a h =
    rw
      (
        covers-append (cut base limit x) (cut_all base limit xs) a,
        covers-cut base limit x a h,
        covers-cut_all base limit xs a h,
      )
      (unfold covers in ground arith)

pub IsSorted-weaken : (lo lo' : ℕ) (xs : Ranges) → lo' ≤ lo → IsSorted lo xs → IsSorted lo' xs
IsSorted-weaken lo lo' [] h s = tt
IsSorted-weaken lo lo' (x ∷ xs) h s = (omega arith, s.1, s.2, s.3)

IsSorted-cut_from :
    (base limit lo : ℕ) (x : Range) (ys : Ranges)
    → base ≤ limit
    → lo ≤ x.base
    → x.base ≤ x.limit
    → x.limit < 2 ^ 64
    → IsSorted (x.limit + 1) ys
    → IsSorted lo (cut base limit x ++ ys)
unfolding cut
IsSorted-cut_from base limit lo x ys h p q r s =
    elim (Bool-cases (ltb limit x.base || ltb x.limit base)) [
      | inl out ↦ rw out (p, q, r, s)
      | inr meets ↦ rw meets (elim (Bool-cases (ltb x.base base)) [
        | inl left ↦ rw left (elim (Bool-cases (ltb limit x.limit)) [
          | inl right ↦ rw right (p, ground arith, ground arith, (ground arith, ground arith, r, s))
          | inr none ↦
              rw none (p, ground arith, ground arith, IsSorted-weaken _ _ ys (ground arith) s)
        ])
        | inr none ↦ rw none (elim (Bool-cases (ltb limit x.limit)) [
          | inl right ↦ rw right (ground arith, ground arith, r, s)
          | inr none' ↦ rw none' (IsSorted-weaken _ _ ys (ground arith) s)
        ])
      ])
    ]

pub IsSorted-cut_all :
    (base limit lo : ℕ) (xs : Ranges)
    → base ≤ limit
    → IsSorted lo xs
    → IsSorted lo (cut_all base limit xs)
unfolding cut_all
IsSorted-cut_all base limit lo [] h s = tt
IsSorted-cut_all base limit lo (x ∷ xs) h s =
    IsSorted-cut_from base limit lo x _ h s.0 s.1 s.2
      (IsSorted-cut_all base limit (x.limit + 1) xs h s.3)
