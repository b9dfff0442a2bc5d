-- ===== src/Ranges/Paged.antt =====
-- Lists of ranges that begin and end at page boundaries.
use prephv.Base.{
  ℕ, ◌+◌, ◌%◌, ◌^◌, ◌<◌, ◌≡◌, arith, true, ◌&&◌, ◌||◌, not, [], ◌∷◌, ◌++◌, ltb, leb, Bool-cases,
  inl, inr, done, halt, >>=-halts_or, bug_on, refl, ◌⊎◌, ◌-64◌, IfDone,
}
use prephv.Ranges.{
  Range, Ranges, Malloc, range_add, range_alloc, remove_step, remove_loop, range_remove,
}
use prephv.Ranges.Cut.{inside, covers, IsSorted, cut, cut_all, covers-cut_all, IsSorted-cut_all}
use prephv.Ranges.Remove.{AllHaveRoom, range_remove-cut_all}

abbrev pub IsPaged : Ranges → Type 0
IsPaged [] = Unit {0}
IsPaged (x ∷ xs) = (x.base % 4096 ≡ 0) × ((x.limit + 1) % 4096 ≡ 0) × IsPaged xs

paged_room : (b l : ℕ) (xs : Ranges) → b % 4096 ≡ 0 → IsPaged xs → AllHaveRoom b l xs
paged_room b l [] h p = tt
paged_room b l (x ∷ xs) h p = (
  elim (Bool-cases (leb b x.base)) [
    | inl le ↦ inl (ground arith)
    | inr gt ↦ inr (inr (let e = p.0 in ground arith))
  ],
  paged_room b l xs h p.2,
)

module _ (base limit : ℕ) (first : base % 4096 ≡ 0) (last : (limit + 1) % 4096 ≡ 0) where
  IsPaged-cut_from :
      (x : Range) (ys : Ranges)
      → x.base % 4096 ≡ 0
      → (x.limit + 1) % 4096 ≡ 0
      → IsPaged ys
      → IsPaged (cut base limit x ++ ys)
  unfolding cut
  IsPaged-cut_from x ys p q r = elim (Bool-cases (ltb limit x.base || ltb x.limit base)) [
    | inl out ↦ rw out (p, q, r)
    | inr meets ↦ rw meets (elim (Bool-cases (ltb x.base base)) [
      | inl left ↦ rw left (elim (Bool-cases (ltb limit x.limit)) [
        | inl right ↦ rw right (p, ground arith, (last, q, r))
        | inr clear ↦ rw clear (p, ground arith, r)
      ])
      | inr clear ↦ rw clear (elim (Bool-cases (ltb limit x.limit)) [
        | inl right ↦ rw right (last, q, r)
        | inr clear' ↦ rw clear' r
      ])
    ])
  ]

  IsPaged-cut_all : (xs : Ranges) → IsPaged xs → IsPaged (cut_all base limit xs)
  unfolding cut_all
  IsPaged-cut_all [] p = tt
  IsPaged-cut_all (x ∷ xs) p =
      IsPaged-cut_from x (cut_all base limit xs) p.0 p.1 (IsPaged-cut_all xs p.2)

-- Taking a non-empty interval of whole pages of 64-bit addresses out of a sorted list of ranges of
-- whole pages never stops the machine, given memory for the nodes, and leaves such a list, which
-- covers what it covered but those pages.
pub range_remove-IsPaged :
    (mem : Malloc) (base limit : ℕ) (xs : Ranges)
    → ((b l : ℕ) → mem b l ≡ true)
    → base < limit
    → limit < 2 ^ 64
    → base % 4096 ≡ 0
    → (limit + 1) % 4096 ≡ 0
    → IsSorted 0 xs
    → IsPaged xs
    → (ys : Ranges) × (range_remove mem base limit xs ≡ done ys)
      × IsSorted 0 ys
      × IsPaged ys
      × ((a : ℕ) → covers ys a ≡ (covers xs a && not (inside base limit a)))
range_remove-IsPaged mem base limit xs has_mem ordered fits first last sorted paged =
    let room = paged_room base limit xs first paged in
    (
      cut_all base limit xs,
      range_remove-cut_all mem base limit has_mem ordered fits xs sorted room,
      IsSorted-cut_all base limit 0 xs (omega arith) sorted,
      IsPaged-cut_all base limit first last xs paged,
      (λ a. covers-cut_all base limit xs a (omega arith)),
    )

-- Without memory for the node of a range that falls in two, the machine stops.
step_without :
    (mem : Malloc) (base limit : ℕ) (pre : Ranges) (x : Range)
    → (remove_step mem base limit pre x ≡ halt)
      ⊎ (remove_step mem base limit pre x ≡ remove_step (λ b l. true) base limit pre x)
unfolding remove_step range_add range_alloc
step_without mem base limit pre x = elim (Bool-cases (mem x.base (base -64 1))) [
  | inl has ↦ inr (rw has refl)
  | inr none ↦ ground arith
]

loop_without :
    (mem : Malloc) (base limit : ℕ) (pre xs : Ranges)
    → (remove_loop mem base limit pre xs ≡ halt)
      ⊎ (remove_loop mem base limit pre xs ≡ remove_loop (λ b l. true) base limit pre xs)
unfolding remove_loop
loop_without mem base limit pre [] = inr refl
loop_without mem base limit pre (x ∷ xs) = elim (step_without mem base limit pre x) [
  | inl stops ↦ inl (rw stops refl)
  | inr same ↦ rw same (
      >>=-halts_or (remove_step (λ b l. true) base limit pre x)
        (λ pre'. remove_loop mem base limit pre' xs)
        (λ pre'. remove_loop (λ b l. true) base limit pre' xs)
        (λ pre'. loop_without mem base limit pre' xs))
]

remove_without :
    (mem : Malloc) (base limit : ℕ) (xs : Ranges)
    → (range_remove mem base limit xs ≡ halt)
      ⊎ (range_remove mem base limit xs ≡ range_remove (λ b l. true) base limit xs)
unfolding range_remove
remove_without mem base limit xs =
    >>=-halts_or (bug_on (leb limit base)) (λ _. remove_loop mem base limit [] xs)
      (λ _. remove_loop (λ b l. true) base limit [] xs) (λ _. loop_without mem base limit [] xs)

empty_remove :
    (mem : Malloc) (base limit : ℕ) (xs : Ranges)
    → leb limit base ≡ true
    → range_remove mem base limit xs ≡ halt
unfolding range_remove
empty_remove mem base limit xs h = rw h refl

-- Taking whole pages out leaves whole pages, if it does not stop the machine.
pub range_remove-keeps :
    (mem : Malloc) (base limit : ℕ) (xs : Ranges)
    → limit < 2 ^ 64
    → base % 4096 ≡ 0
    → (limit + 1) % 4096 ≡ 0
    → IsSorted 0 xs
    → IsPaged xs
    → IfDone (λ ys. IsSorted 0 ys × IsPaged ys) (range_remove mem base limit xs)
range_remove-keeps mem base limit xs fits first last sorted paged =
    elim (Bool-cases (leb limit base)) [
      | inl empty ↦ rw (empty_remove mem base limit xs empty) tt
      | inr full ↦ elim (remove_without mem base limit xs) [
        | inl stops ↦ rw stops tt
        | inr same ↦
            let (ys, e, s, p, c) =
              range_remove-IsPaged (λ b l. true) base limit xs (λ b l. refl) (ground arith) fits
                first last sorted paged in
            rw (same, e) (s, p)
      ]
    ]
