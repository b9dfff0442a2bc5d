-- ===== src/Rom/Claim.antt =====
-- `rom_claim` of rom.c: memory for the guest, at an address or from an arena.
pub mod Laws
use prephv.Base.{
  ℕ, ◌+◌, ◌-◌, ◌*◌, ◌/◌, ◌%◌, ◌^◌, Run, done, halt, ◌>>=◌, ◌>>◌, bug_on, ltb, leb, ◌==◌, ◌!=◌,
  if◌then◌else◌, bit_and, u32, u64, is_aligned, align, align_up,
}
use prephv.Ppc.{page_size}
use prephv.Guest.State.{Rom}
use prephv.Ranges.{Ranges, Malloc, range_remove}

-- ALIGN_UP at `uint32_t`
unfoldable pub align_up_32 : ℕ → ℕ → ℕ
align_up_32 x a = if is_aligned x a then x else bit_and (u32 (x + (a - 1))) (2 ^ 32 - 1 - (a - 1))

-- The address, and the arena behind it.
unfoldable pub claim_address : ℕ → ℕ → ℕ → Rom → Run (ℕ × Rom)
claim_address addr size align rom =
    if align != 0
    then (do
      let ptr = align_up rom.claim_arena_ptr align
      bug_on (leb rom.claim_arena_end ptr)
      bug_on (ltb rom.claim_arena_end (u64 (ptr + size)))
      done (u32 ptr, record rom { claim_arena_ptr = u64 (ptr + size) }))
    else done (addr, rom)

-- The state is the guest's `rom` and `guest_mem_avail_ranges`.
unfoldable pub rom_claim : Malloc → ℕ → ℕ → ℕ → Rom × Ranges → Run (ℕ × Rom × Ranges)
unfolding claim_address align_up_32
rom_claim mem addr size align_to (rom, avail) = do
  (out, rom') ← claim_address addr size align_to rom
  avail' ←
      range_remove mem (align out page_size)
        (u32 (align_up_32 (u32 (out + size)) page_size + (2 ^ 32 - 1))) avail
  done (out, rom', avail')
