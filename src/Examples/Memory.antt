-- ===== src/Examples/Memory.antt =====
-- Ranges, pages and claims on small lists.
use prephv.Base.{
  ℕ, ◌*◌, ◌%◌, ◌/◌, true, ◌+◌, ◌^◌, ◌≤◌, ◌<◌, ◌≡◌, refl, arith, false, ◌&&◌, ◌||◌, not, [], ◌∷◌,
  done, halt, ◌⊎◌, inl, inr, align_up, is_aligned,
}
use prephv.Ranges.{Ranges, range, range_add, range_remove}
use prephv.Ranges.Cut.{inside, covers, IsSorted}
use prephv.Ranges.Add.{range_add-covers}
use prephv.Ranges.Remove.{range_remove-covers}
use prephv.Ranges.Paged.{IsPaged, range_remove-IsPaged}
use prephv.Mem.{early_size, Mem, mem_get_pages}
use prephv.Mem.Pages.{Taken, NoneHasPages, mem_get_pages_lem, early_pages_lem}
use prephv.Rom.Claim.{rom_claim}
use prephv.Rom.Claim.Laws.{LostPages, rom_claim_arena}
use prephv.Examples.Machine.{enough, always_enough, a_rom}

abbrev two : Ranges
two = range 0 0xfffff ∷ range 0x200000 0x1ffffff ∷ []

two-IsSorted : IsSorted 0 two
two-IsSorted = (omega arith, omega arith, omega arith, (omega arith, omega arith, omega arith, tt))

two-IsPaged : IsPaged two
two-IsPaged = (refl, refl, (refl, refl, tt))

range_add-covers_example :
    (ys : Ranges) × (range_add enough two 0x100000 0x100fff ≡ done ys)
    × IsSorted 0 ys
    × ((a : ℕ) → covers ys a ≡ (inside 0x100000 0x100fff a || covers two a))
range_add-covers_example =
    range_add-covers enough two 0x100000 0x100fff refl (omega arith) (omega arith) two-IsSorted
      (inr (omega arith), (inl (omega arith), tt))

range_remove-covers_example :
    (ys : Ranges) × (range_remove enough 0x3000 0x2fffff two ≡ done ys)
    × IsSorted 0 ys
    × ((a : ℕ) → covers ys a ≡ (covers two a && not (inside 0x3000 0x2fffff a)))
range_remove-covers_example =
    range_remove-covers enough 0x3000 0x2fffff always_enough (omega arith) (omega arith) two
      two-IsSorted (inr (inl (omega arith)), (inl (omega arith), tt))

range_remove-IsPaged_example :
    (ys : Ranges) × (range_remove enough 0x3000 0x5fff two ≡ done ys)
    × IsSorted 0 ys
    × IsPaged ys
    × ((a : ℕ) → covers ys a ≡ (covers two a && not (inside 0x3000 0x5fff a)))
range_remove-IsPaged_example =
    range_remove-IsPaged enough 0x3000 0x5fff two always_enough (omega arith) (omega arith) refl
      refl two-IsSorted two-IsPaged

abbrev a_mem : Mem
a_mem = record {
  mem_free_ranges = two;
  mem_early = false;
  early_memory = 0x8000000000100000;
  sbrk = 0x8000000000100000;
}

mem_get_pages_lem_example :
    ((mem_get_pages enough 0x200000 a_mem ≡ done (0, a_mem)) × NoneHasPages 0x200000 two)
    ⊎ ((b : ℕ) × (ys : Ranges) × (mem_get_pages enough 0x200000 a_mem
          ≡ done (b + 2 ^ 63, record a_mem { mem_free_ranges = ys }))
        × Taken enough 0x200000 two b ys)
mem_get_pages_lem_example =
    mem_get_pages_lem enough 0x200000 a_mem always_enough refl two-IsSorted
      (omega arith, omega arith, (omega arith, omega arith, tt)) (omega arith) refl

rom_claim_arena_example :
    let p = align_up 0x1000000 0x1000 in
    ((0x2000000 < p + 0x1234) × (rom_claim enough 0 0x1234 0x1000 (a_rom, two) ≡ halt))
    ⊎ ((p + 0x1234 ≤ 0x2000000)
        × ((ys : Ranges) × (rom_claim enough 0 0x1234 0x1000 (a_rom, two)
              ≡ done (p, record a_rom { claim_arena_ptr = p + 0x1234 }, ys))
            × LostPages two p 0x1234 ys))
unfolding align_up is_aligned
rom_claim_arena_example =
    rom_claim_arena enough always_enough two two-IsSorted two-IsPaged 0 0x1234 0x1000 a_rom
      (omega arith) (omega arith) (omega arith) (omega arith) (omega arith)

abbrev an_early_mem : Mem
an_early_mem = record a_mem { mem_early = true; sbrk = 0x8000000000100010 }

early_pages_lem_example :
    let p = (0x8000000000100010 + 4095) / 4096 * 4096 in
    ((0x8000000000100000 + early_size < p + 0x2000)
      × (mem_get_pages enough 0x2000 an_early_mem ≡ halt))
    ⊎ ((0x8000000000100010 ≤ p)
        × (p % 4096 ≡ 0)
        × (p + 0x2000 ≤ 0x8000000000100000 + early_size)
        × (mem_get_pages enough 0x2000 an_early_mem
            ≡ done (p, record an_early_mem { sbrk = p + 0x2000 })))
early_pages_lem_example =
    early_pages_lem enough 0x2000 an_early_mem refl (omega arith) (omega arith) (omega arith)
      (omega arith) refl
