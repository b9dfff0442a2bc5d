-- ===== src/Ranges/Subtract.antt =====
-- What the operations of lib/ranges.c do to the addresses that a list covers, whatever its order,
-- when they return.
use prephv.Base.{
  ℕ, ◌+◌, ◌^◌, ◌≤◌, ◌<◌, ◌≡◌, refl, arith, Bool, ◌&&◌, ◌||◌, not, [], ◌∷◌, ◌++◌, done, ltb, leb,
  sym, ◌∙◌, IfDone-map, u64, ◌-64◌, IfDone, IfDone->>=, Bool-cases, inl, inr,
}
use prephv.Ranges.{
  Range, Ranges, range, Malloc, insert, range_alloc, range_add, remove_step, remove_loop,
  range_remove,
}
use prephv.Ranges.Cut.{inside, covers, covers-append, IsBelow, IsBelow-append}

-- A list whose ranges are not empty and lie below 2 ^ 64, and that covers these addresses.
abbrev pub Covers : (ℕ → Bool) → Ranges → Type 0
Covers f ys = IsBelow (2 ^ 64) ys × ((a : ℕ) → covers ys a ≡ f a)

module _ (r : Range) (h : r.base ≤ r.limit) (u : r.limit < 2 ^ 64) where
  insert-Covers :
      (xs : Ranges)
      → IsBelow (2 ^ 64) xs
      → IfDone (Covers (λ a. inside r.base r.limit a || covers xs a)) (insert r xs)
  unfolding insert
  insert-Covers [] b = ((h, u, tt), (λ a. unfold covers in refl))
  insert-Covers (x ∷ xs) b = elim (Bool-cases (leb x.base r.base && leb r.limit x.limit)) [
    | inl within ↦ rw within tt
    | inr apart ↦ rw apart (elim (Bool-cases (ltb r.limit x.base)) [
      | inl lt ↦ rw lt ((h, u, b), (λ a. unfold covers in refl))
      | inr ge ↦ rw ge (
          IfDone->>= (Covers (λ a. inside r.base r.limit a || covers xs a))
            (Covers (λ a. inside r.base r.limit a || covers (x ∷ xs) a)) (insert r xs)
            (λ ys. done (x ∷ ys)) (insert-Covers xs b.2)
            (λ ys c. ((b.0, b.1, c.0), (λ a. let e = c.1 a in unfold covers in ground arith))))
    ])
  ]

append_one :
    (pre : Ranges) (y : Range) (f : ℕ → Bool)
    → IsBelow (2 ^ 64) pre
    → y.base ≤ y.limit
    → y.limit < 2 ^ 64
    → ((a : ℕ) → inside y.base y.limit a ≡ f a)
    → Covers (λ a. covers pre a || f a) (pre ++ y ∷ [])
append_one pre y f b h u same = (
  IsBelow-append (2 ^ 64) (2 ^ 64) pre (y ∷ []) b (omega arith) (h, u, tt),
  (λ a. rw (covers-append pre (y ∷ []) a, sym (same a)) (unfold covers in ground arith)),
)

module _ (mem : Malloc) where
  pub range_add-Covers :
      (xs : Ranges) (base limit : ℕ)
      → limit < 2 ^ 64
      → IsBelow (2 ^ 64) xs
      → IfDone (Covers (λ a. inside base limit a || covers xs a)) (range_add mem xs base limit)
  unfolding range_add range_alloc
  range_add-Covers xs base limit u b = elim (Bool-cases (mem base limit)) [
    | inl has ↦ rw has (elim (Bool-cases (leb limit base)) [
      | inl empty ↦ rw empty tt
      | inr full ↦ rw full (insert-Covers (range base limit) (ground arith) u xs b)
    ])
    | inr none ↦ rw none tt
  ]

  module _ (base limit : ℕ) (ordered : base < limit) (fits : limit < 2 ^ 64) where
    -- What is left of a range, behind what stands before it.
    abbrev left_of : Ranges → Range → ℕ → Bool
    left_of pre x a = covers pre a || (inside x.base x.limit a && not (inside base limit a))

    both_sides :
        (pre : Ranges) (x : Range)
        → IsBelow (2 ^ 64) pre
        → x.base ≤ x.limit
        → x.limit < 2 ^ 64
        → x.base < base
        → limit < x.limit
        → IfDone
            (Covers (left_of pre x))
            (range_add mem (pre ++ range (u64 (limit + 1)) x.limit ∷ []) x.base (base -64 1))
    both_sides pre x b h u lo hi =
        let high = range (u64 (limit + 1)) x.limit in
        let (b', c) =
          append_one pre high (inside high.base high.limit) b (omega arith) u (λ a. refl) in
        IfDone-map (Covers (λ a. inside x.base (base -64 1) a || covers (pre ++ high ∷ []) a))
          (Covers (left_of pre x)) (range_add mem (pre ++ high ∷ []) x.base (base -64 1))
          (range_add-Covers (pre ++ high ∷ []) x.base (base -64 1) (omega arith) b')
          (λ ys k. (k.0, (λ a. k.1 a ∙ (rw (c a) (unfold inside in ground arith)))))

    step-Covers :
        (pre : Ranges) (x : Range)
        → IsBelow (2 ^ 64) pre
        → x.base ≤ x.limit
        → x.limit < 2 ^ 64
        → IfDone (Covers (left_of pre x)) (remove_step mem base limit pre x)
    unfolding remove_step
    step-Covers pre x b h u =
        let low = range x.base (base -64 1) in
        let high = range (u64 (limit + 1)) x.limit in
        let left : ℕ → Bool = λ a. inside x.base x.limit a && not (inside base limit a) in
        elim (Bool-cases (ltb limit x.base || ltb x.limit base)) [
          | inl out ↦ rw out (append_one pre x left b h u (λ a. unfold inside in ground arith))
          | inr meets ↦ rw meets (elim (Bool-cases (leb base x.base && leb x.limit limit)) [
            | inl all ↦ rw all (b, (λ a. unfold inside in ground arith))
            | inr some_left ↦ rw some_left (elim (Bool-cases (leb base x.base)) [
              | inl from ↦
                  rw from (
                    append_one pre high left b (ground arith) u
                      (λ a. unfold inside in ground arith))
              | inr before ↦ rw before (elim (Bool-cases (leb x.limit limit)) [
                | inl to ↦ rw to (
                    append_one pre low left b (ground arith) (omega arith)
                      (λ a. unfold inside in ground arith))
                | inr behind ↦ rw behind (both_sides pre x b h u (ground arith) (ground arith))
              ])
            ])
          ])
        ]

    loop-Covers :
        (pre xs : Ranges)
        → IsBelow (2 ^ 64) pre
        → IsBelow (2 ^ 64) xs
        → IfDone
            (Covers (λ a. covers pre a || (covers xs a && not (inside base limit a))))
            (remove_loop mem base limit pre xs)
    unfolding remove_loop
    loop-Covers pre [] b b' = (b, (λ a. unfold covers in ground arith))
    loop-Covers pre (x ∷ xs) b b' =
        IfDone->>= (Covers (left_of pre x))
          (Covers (λ a. covers pre a || (covers (x ∷ xs) a && not (inside base limit a))))
          (remove_step mem base limit pre x) (λ pre'. remove_loop mem base limit pre' xs)
          (step-Covers pre x b b'.0 b'.1)
          (λ pre' c.
            IfDone-map (Covers (λ a. covers pre' a || (covers xs a && not (inside base limit a))))
              (Covers (λ a. covers pre a || (covers (x ∷ xs) a && not (inside base limit a))))
              (remove_loop mem base limit pre' xs) (loop-Covers pre' xs c.0 b'.2)
              (λ ys k. (k.0, (λ a. k.1 a ∙ rw (c.1 a) (unfold covers in ground arith)))))

  -- Whatever the order of the list, if `range_remove` returns, what is left covers what was
  -- covered but the interval, and the interval is not empty.
  pub range_remove-Covers :
      (base limit : ℕ) (xs : Ranges)
      → limit < 2 ^ 64
      → IsBelow (2 ^ 64) xs
      → IfDone
          (Covers (λ a. covers xs a && not (inside base limit a)))
          (range_remove mem base limit xs)
  unfolding range_remove
  range_remove-Covers base limit xs fits b = elim (Bool-cases (leb limit base)) [
    | inl empty ↦ rw empty tt
    | inr full ↦ rw full (
        IfDone-map (Covers (λ a. covers [] a || (covers xs a && not (inside base limit a))))
          (Covers (λ a. covers xs a && not (inside base limit a)))
          (remove_loop mem base limit [] xs) (loop-Covers base limit (ground arith) fits [] xs tt b)
          (λ ys k. (k.0, (λ a. k.1 a ∙ (unfold covers in refl)))))
  ]
