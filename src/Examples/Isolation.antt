-- ===== src/Examples/Isolation.antt =====
-- What the guest can reach: the theorems on memory, on the method "map" and on the names of the
-- client interface at a machine that runs there.
use prephv.Base.{
  ℕ, ◌+◌, ◌*◌, ◌^◌, ◌≡◌, refl, arith, true, false, none, some, done, bit_or, IfDone, ◌==◌,
  if◌then◌else◌,
}
use mathlib.Core.List.{Memᴰ}
use Prim.Native.String.{String}
use prephv.Exc.{exc_handler}
use prephv.Exc.Above.{exception-SameAbove}
use prephv.Guest.Memory.{Memory, is_string}
use prephv.Guest.Memory.Above.{SameAbove}
use prephv.Guest.State.{guest_is_mmu_off, the_guest}
use prephv.Mmu.Types.{seg_256m, page_4k}
use prephv.Endian.{swab64}
use prephv.Mmu.Htab.{is_valid, rflags}
use prephv.Mmu.Htab.Scan.{hit}
use prephv.Mmu.Htab.Refine.{walk, HasFree}
use prephv.Mmu.Map.Page.{Gains}
use prephv.Mmu.Types.{Mmu}
use prephv.Rom.Call.{Call, call_of, peer, rom_call, map_pages, unknown_call}
use prephv.Rom.Call.Map.{map_pages_lem}
use prephv.Rom.Call.Names.{services, call_of_lem}
use prephv.Examples.Interface.{
  a_platform, a_platform-IsBounded, a_rom_vm, a_system, stay, no_memory,
}
use prephv.Examples.Machine.{a_guest, an_mmu, table_slb}

exception-SameAbove_example :
    IfDone
      (λ r. SameAbove (2 ^ 34) no_memory r.1.vm.mem)
      (exc_handler table_slb (rom_call a_platform) stay 0 0 a_system)
exception-SameAbove_example =
    exception-SameAbove a_platform a_platform-IsBounded stay 0 0 a_system (omega arith)
      (omega arith)

is_on : guest_is_mmu_off (some a_guest) ≡ done false
unfolding guest_is_mmu_off the_guest
is_on = refl

-- The virtual page of 0x10003000: register 1 holds 16.
abbrev a_page : ℕ
a_page = bit_or 1 16 * 2 ^ 16 + 3

is_empty : walk an_mmu a_page seg_256m page_4k ≡ none
unfolding walk hit is_valid swab64
is_empty = refl

has_free : HasFree an_mmu a_page seg_256m page_4k
unfolding is_valid swab64
has_free = (0, omega arith, refl)

-- A page at 80 MB, for a guest of 32 MB.
map_pages_lem_example :
    (m' : Mmu) × (map_pages a_platform 0x10003000 0x5000000 0x1000 a_rom_vm
      ≡ done (record a_rom_vm { mmu = m' }))
    × Gains an_mmu a_page (bit_or (0x10000000 + 0x5000000) (rflags 2)) m'
map_pages_lem_example =
    map_pages_lem a_guest is_on 0x10003000 an_mmu (omega arith) (omega arith) has_free is_empty
      a_platform 0x5000000 0x1000 a_rom_vm refl refl (omega arith) (omega arith) (omega arith)
      (omega arith) (omega arith) (omega arith) (omega arith)

-- "peer" at 0x100
abbrev peer_memory : Memory
peer_memory a =
    if a == 0x100
    then 112
    else if a == 0x101
    then 101
    else if a == 0x102
    then 101
    else if a == 0x103
    then 114
    else 0

call_of_lem_example :
    ((s : String) (c : Call)
      → Memᴰ (s, c) services
      → is_string s peer_memory 0x100 ≡ true
      → call_of peer_memory 0x100 ≡ c)
    × (((s : String) (c : Call) → Memᴰ (s, c) services → is_string s peer_memory 0x100 ≡ false)
        → call_of peer_memory 0x100 ≡ unknown_call)
call_of_lem_example = call_of_lem peer_memory 0x100

peer_is_called : call_of peer_memory 0x100 ≡ peer
unfolding is_string
peer_is_called =
    (call_of_lem peer_memory 0x100).0 "peer" peer (Memᴰ.tail (Memᴰ.tail (Memᴰ.head refl))) refl
