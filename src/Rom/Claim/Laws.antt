-- ===== src/Rom/Claim/Laws.antt =====
-- What `rom_claim` of rom.c takes from the available ranges, and where.
use prephv.Base.{
  ℕ, ◌+◌, ◌-◌, ◌*◌, ◌/◌, ◌^◌, ◌≤◌, ◌<◌, ◌≡◌, ◌≢◌, refl, arith, true, false, ◌&&◌, not, done, halt,
  ltb, leb, ◌!=◌, u32, u64, is_aligned, align, align_up, ◌⊎◌, inl, inr, Bool-cases,
}
use prephv.Base.Bits.{and_low, and_field}
use prephv.Ppc.{page_size}
use prephv.Guest.State.{Rom}
use prephv.Ranges.{Ranges, Malloc, range_remove}
use prephv.Ranges.Cut.{inside, covers, IsSorted}
use prephv.Ranges.Paged.{IsPaged, range_remove-IsPaged}
use prephv.Mem.Pages.{align-page}
use prephv.Rom.Claim.{align_up_32, claim_address, rom_claim}

align_up_32-page : (x : ℕ) → x + 4096 < 2 ^ 32 → align_up_32 x page_size ≡ (x + 4095) / 4096 * 4096
unfolding align_up_32 is_aligned
align_up_32-page x h = ground (arith, and_low 12 x, and_field 12 20 (x + 4095))

-- The first byte of the page of an address, and the last byte of that of `out + size - 1`.
abbrev pub first_byte : ℕ → ℕ
first_byte out = out / 4096 * 4096

abbrev pub last_byte : ℕ → ℕ → ℕ
last_byte out size = (out + size + 4095) / 4096 * 4096 - 1

-- A page-granular sorted list, and what it has lost.
abbrev pub LostPages : Ranges → ℕ → ℕ → Ranges → Type 0
LostPages avail out size ys =
    IsSorted 0 ys
    × IsPaged ys
    × ((a : ℕ)
        → covers ys a ≡ (covers avail a && not (inside (first_byte out) (last_byte out size) a)))

module _ (mem : Malloc) (has_mem : (b l : ℕ) → mem b l ≡ true) (avail : Ranges)
    (sorted : IsSorted 0 avail) (paged : IsPaged avail) where
  remove_pages :
      (out size : ℕ)
      → 0 < size
      → out + size + 4096 < 2 ^ 32
      → (ys : Ranges) × (range_remove mem
            (align out page_size)
            (u32 (align_up_32 (u32 (out + size)) page_size + (2 ^ 32 - 1)))
            avail
          ≡ done ys)
        × LostPages avail out size ys
  remove_pages out size pos fits =
      let w : u32 (out + size) ≡ out + size = omega arith in
      let l : u32 ((out + size + 4095) / 4096 * 4096 + (2 ^ 32 - 1)) ≡ last_byte out size =
        omega arith in
      rw (w, align-page out (omega arith), align_up_32-page (out + size) fits, l)
        (let (ys, e, s, p, c) =
            range_remove-IsPaged mem (first_byte out) (last_byte out size) avail has_mem
              (omega arith) (omega arith) (omega arith) (omega arith) sorted paged in
          (ys, e, (s, p, c)))

  -- Given memory for the nodes and a sorted list of ranges of whole pages, a claim of at least one
  -- byte at an address, ending below 2 ^ 32 - 4096, gives that address, leaves the arena alone,
  -- and takes the pages that meet the claim, these only, from the available ranges.
  pub rom_claim_fixed :
      (addr size : ℕ) (rom : Rom)
      → 0 < size
      → addr + size + 4096 < 2 ^ 32
      → (ys : Ranges) × (rom_claim mem addr size 0 (rom, avail) ≡ done (addr, rom, ys))
        × LostPages avail addr size ys
  unfolding rom_claim claim_address
  rom_claim_fixed addr size rom pos fits =
      let (ys, e, lost) = remove_pages addr size pos fits in (ys, rw e refl, lost)

  -- Given memory for the nodes and a sorted list of ranges of whole pages, for a claim of 1 to 2 ^
  -- 32 - 1 bytes with an alignment, from an arena that ends below 2 ^ 32 - 4096: either the arena
  -- has the room, and the claim gives its next address of that alignment, moves the arena behind
  -- the claim and takes the pages that meet the claim, these only, from the available ranges; or
  -- it has not, and the machine stops.
  pub rom_claim_arena :
      (addr size align_to : ℕ) (rom : Rom)
      → align_to ≢ 0
      → 0 < size
      → size < 2 ^ 32
      → align_up rom.claim_arena_ptr align_to < 2 ^ 63
      → rom.claim_arena_end + 4096 < 2 ^ 32
      → let p = align_up rom.claim_arena_ptr align_to in
        ((rom.claim_arena_end < p + size) × (rom_claim mem addr size align_to (rom, avail) ≡ halt))
        ⊎ ((p + size ≤ rom.claim_arena_end)
            × ((ys : Ranges) × (rom_claim mem addr size align_to (rom, avail)
                  ≡ done (p, record rom { claim_arena_ptr = p + size }, ys))
                × LostPages avail p size ys))
  unfolding rom_claim claim_address
  rom_claim_arena addr size align_to rom aligned pos small low fits =
      let p = align_up rom.claim_arena_ptr align_to in
      elim (Bool-cases (ltb rom.claim_arena_end (p + size))) [
        | inl over ↦ inl (ground arith, ground arith)
        | inr room ↦
            let (ys, e, lost) = remove_pages p size pos (ground arith) in
            let w : u32 p ≡ p = ground arith in
            let w' : u64 (p + size) ≡ p + size = ground arith in
            let t : leb rom.claim_arena_end p ≡ false = ground arith in
            let n : (align_to != 0) ≡ true = ground arith in
            inr (ground arith, (ys, rw (n, t, w', room) (rw w (rw e refl)), lost))
      ]
