-- ===== src/Mem/Pages.antt =====
-- `mem_get_pages` of mem.c takes whole pages from the free ranges, and no page twice.
use prephv.Base.{
  ℕ, ◌+◌, ◌-◌, ◌*◌, ◌/◌, ◌%◌, ◌^◌, ◌≤◌, ◌<◌, ◌≡◌, ◌≢◌, refl, arith, true, false, ◌&&◌, not, [], ◌∷◌,
  done, leb, u64, ◌-64◌, align, align_up, is_aligned, Bool-cases, ◌!=◌, halt, ◌==◌, ltb, inl, inr,
  ◌⊎◌,
}
use prephv.Base.Bits.{and_low, and_field, or_fields_swap}
use prephv.Ppc.{page_size}
use prephv.Ranges.{Range, Ranges, Malloc, range_remove}
use prephv.Ranges.Cut.{inside, covers, IsSorted}
use prephv.Ranges.Remove.{AllHaveRoom, range_remove-covers}
use prephv.Mmu.Types.{ra_2_ptr}
use prephv.Mem.{
  early_size, early_pages, Mem, base_aligned, limit_aligned, is_usable, late_pages, mem_get_pages,
}

pub align-page : (x : ℕ) → x < 2 ^ 64 → align x page_size ≡ x / 4096 * 4096
unfolding align
align-page x h = ground (arith, and_field 12 52 x)

pub align_up-page : (x : ℕ) → x + 4095 < 2 ^ 64 → align_up x page_size ≡ (x + 4095) / 4096 * 4096
unfolding align_up is_aligned
align_up-page x h = ground (arith, and_low 12 x, and_field 12 52 (x + 4095))

pub ra_2_ptr-low : (ra : ℕ) → ra < 2 ^ 63 → ra_2_ptr ra ≡ done (ra + 2 ^ 63)
unfolding ra_2_ptr
ra_2_ptr-low ra h = ground (arith, or_fields_swap 63 1 ra)

-- Every range lies in the lower half of the address space, and none begins at the last byte of
-- a page.
abbrev pub FitsPages : Ranges → Type 0
FitsPages [] = Unit {0}
FitsPages (x ∷ xs) = (x.limit + 4096 < 2 ^ 63) × (x.base % 4096 ≢ 4095) × FitsPages xs

-- No range has `length` bytes from a page boundary on, and one address more behind them.
abbrev pub NoneHasPages : ℕ → Ranges → Type 0
NoneHasPages length [] = Unit {0}
NoneHasPages length (x ∷ xs) =
    ((b : ℕ) → b % 4096 ≡ 0 → x.base ≤ b → x.limit < b + length) × NoneHasPages length xs

have_room : (b l : ℕ) (xs : Ranges) → b % 4096 ≡ 0 → FitsPages xs → AllHaveRoom b l xs
have_room b l [] h f = tt
have_room b l (x ∷ xs) h f = (
  elim (Bool-cases (leb b x.base)) [
    | inl le ↦ inl (ground arith)
    | inr gt ↦ inr (inr (let ne = f.1 in ground arith))
  ],
  have_room b l xs h f.2,
)

module _ (mem : Malloc) (length : ℕ) where
  -- What `ys` has lost against `xs`: `length` bytes from a page boundary on, all of them there.
  abbrev pub Taken : Ranges → ℕ → Ranges → Type 0
  Taken xs b ys =
      (b % 4096 ≡ 0)
      × IsSorted 0 ys
      × ((a : ℕ) → inside b (b + length - 1) a ≡ true → covers xs a ≡ true)
      × ((a : ℕ) → covers ys a ≡ (covers xs a && not (inside b (b + length - 1) a)))

  usable :
      (x : Range)
      → x.base ≤ x.limit
      → x.limit + 4096 < 2 ^ 63
      → 0 < length
      → ((is_usable length x ≡ true)
          × ((x.base + 4095) / 4096 * 4096 + length ≤ x.limit / 4096 * 4096))
        ⊎ ((is_usable length x ≡ false)
            × (x.limit / 4096 * 4096 < (x.base + 4095) / 4096 * 4096 + length))
  unfolding is_usable base_aligned limit_aligned
  usable x h u pos =
      rw (align_up-page x.base (omega arith), align-page x.limit (omega arith))
        (let b : ℕ = (x.base + 4095) / 4096 * 4096 in
          let l : ℕ = x.limit / 4096 * 4096 in
          elim (Bool-cases (leb (b + length) l)) [
            | inl le ↦ inl (ground arith, ground arith)
            | inr gt ↦ inr (ground arith, ground arith)
          ])

  take :
      (all : Ranges) (x : Range)
      → ((b l : ℕ) → mem b l ≡ true)
      → IsSorted 0 all
      → FitsPages all
      → x.base ≤ x.limit
      → x.limit + 4096 < 2 ^ 63
      → 1 < length
      → (x.base + 4095) / 4096 * 4096 + length ≤ x.limit / 4096 * 4096
      → ((a : ℕ) → inside x.base x.limit a ≡ true → covers all a ≡ true)
      → let b = base_aligned x in
        (ys : Ranges) × (range_remove mem b (u64 (b + length) -64 1) all ≡ done ys)
        × (ra_2_ptr b ≡ done (b + 2 ^ 63))
        × Taken all b ys
  unfolding base_aligned inside
  take all x has_mem sorted fits h u pos enough part = rw (align_up-page x.base (omega arith)) (
      let b : ℕ = (x.base + 4095) / 4096 * 4096 in
      let l : u64 (b + length) -64 1 ≡ b + length - 1 = omega arith in
      let (ys, e, s, c) =
        range_remove-covers mem b (b + length - 1) has_mem (omega arith) (omega arith) all sorted
          (have_room b (b + length - 1) all (omega arith) fits) in
      rw l
        (ys, e, ra_2_ptr-low b (omega arith), (omega arith, s, (λ a i. part a (ground arith)), c)))

  late_pages_lem :
      (all xs : Ranges)
      → ((b l : ℕ) → mem b l ≡ true)
      → IsSorted 0 all
      → FitsPages all
      → 1 < length
      → length % 4096 ≡ 0
      → (lo : ℕ) → IsSorted lo xs
      → FitsPages xs
      → ((a : ℕ) → covers xs a ≡ true → covers all a ≡ true)
      → ((late_pages mem length all xs ≡ done (0, all)) × NoneHasPages length xs)
        ⊎ ((b : ℕ) × (ys : Ranges) × (late_pages mem length all xs ≡ done (b + 2 ^ 63, ys))
            × Taken all b ys)
  unfolding late_pages
  late_pages_lem all [] has_mem sorted fits pos pages lo s f part = inl (refl, tt)
  late_pages_lem all (x ∷ xs) has_mem sorted fits pos pages lo s f part =
      elim (usable x s.1 f.0 (omega arith)) [
        | inl can ↦
            let (ys, e, p, t) =
              take all x has_mem sorted fits s.1 f.0 pos can.1
                (λ a i. part a (unfold covers in ground arith)) in
            inr (base_aligned x, ys, rw (can.0, e, p) refl, t)
        | inr un ↦
            elim (late_pages_lem all xs has_mem sorted fits pos pages (x.limit + 1) s.3 f.2
              (λ a c. part a (unfold covers in ground arith))) [
                | inl none ↦
                    inl (
                      rw (un.0) (none.0),
                      ((λ b whole low. let short = un.1 in omega arith), none.1),
                    )
                | inr found ↦ let (b, ys, e, t) = found in inr (b, ys, rw (un.0) e, t)
              ]
      ]

-- After `mem_init`, with memory for the nodes and a sorted list of free ranges below 2 ^ 63 -
-- 4096, none of which begins at the last byte of a page, a request of one or more whole pages
-- either gets NULL and leaves the list as it is, and then no range has so many bytes from a page
-- boundary on with one address to spare behind them (pages that end with the last address of a
-- range are passed over); or it gets the kernel's address of pages that were free, all of them, and
-- these alone are free no more.
pub mem_get_pages_lem :
    (mem : Malloc) (length : ℕ) (m : Mem)
    → ((b l : ℕ) → mem b l ≡ true)
    → m.mem_early ≡ false
    → IsSorted 0 m.mem_free_ranges
    → FitsPages m.mem_free_ranges
    → 0 < length
    → length % 4096 ≡ 0
    → ((mem_get_pages mem length m ≡ done (0, m)) × NoneHasPages length m.mem_free_ranges)
      ⊎ ((b : ℕ) × (ys : Ranges) × (mem_get_pages mem length m
            ≡ done (b + 2 ^ 63, record m { mem_free_ranges = ys }))
          × Taken mem length m.mem_free_ranges b ys)
unfolding mem_get_pages
mem_get_pages_lem mem length m has_mem late sorted fits pos pages =
    elim (late_pages_lem mem length m.mem_free_ranges m.mem_free_ranges has_mem sorted fits
      (omega arith) pages 0 sorted fits (λ a c. c)) [
        | inl none ↦ inl (ground (arith, none.0), none.1)
        | inr found ↦ let (b, ys, e, t) = found in inr (b, ys, ground arith, t)
      ]

-- Before `mem_init`, with the allocated part of the early memory below 2 ^ 64 - 2 ^ 33 and within
-- its array, a request of one or more whole pages, less than 2 ^ 32 bytes: either the array has
-- not the room behind the next page boundary, and the machine stops; or the request gets whole
-- pages behind all that was given before, within the array, and the allocated part then ends
-- where they end.
pub early_pages_lem :
    (mem : Malloc) (length : ℕ) (m : Mem)
    → m.mem_early ≡ true
    → m.early_memory ≤ m.sbrk
    → m.sbrk < 2 ^ 64 - 2 ^ 33
    → 0 < length
    → length < 2 ^ 32
    → length % 4096 ≡ 0
    → let p = (m.sbrk + 4095) / 4096 * 4096 in
      ((m.early_memory + early_size < p + length) × (mem_get_pages mem length m ≡ halt))
      ⊎ ((m.sbrk ≤ p)
          × (p % 4096 ≡ 0)
          × (p + length ≤ m.early_memory + early_size)
          × (mem_get_pages mem length m ≡ done (p, record m { sbrk = p + length })))
unfolding mem_get_pages early_pages
early_pages_lem mem length m early low high pos small whole =
    let p : ℕ = (m.sbrk + 4095) / 4096 * 4096 in
    let a = align_up-page m.sbrk (omega arith) in
    let w : u64 (p + length) ≡ p + length = omega arith in
    let d : (p + length) -64 length ≡ p = omega arith in
    let o : (p + length) -64 m.early_memory ≡ p + length - m.early_memory = omega arith in
    let z : (length == 0) ≡ false = ground arith in
    let e : (length % page_size != 0) ≡ false = ground arith in
    elim (Bool-cases (ltb (m.early_memory + early_size) (p + length))) [
      | inl over ↦
          let t : ltb early_size (p + length - m.early_memory) ≡ true = ground arith in
          inl (ground arith, rw (z, e, early) (rw a (rw w (rw o (rw t refl)))))
      | inr room ↦
          let t : ltb early_size (p + length - m.early_memory) ≡ false = ground arith in
          inr (
            omega arith,
            omega arith,
            ground arith,
            rw (z, e, early) (rw a (rw w (rw (o, t) (rw d refl)))),
          )
    ]
