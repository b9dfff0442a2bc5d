-- ===== src/Boot/Main/Pages.antt =====
-- The page table with which `c_main` of main.c enters the guest.
use prephv.Base.{◌+◌, ◌-◌, ◌%◌, ◌^◌, ◌≤◌, ◌≡◌, Option, none, some, mb, ◌⊎◌}
use prephv.Boot.Cpu.{Cpu}
use prephv.Boot.Main.{Start, Machine}
use prephv.Guest.State.{Guest}
use prephv.Guest.Laws.Ram.{HasRamPages}
use prephv.Mem.{Mem}
use prephv.Mmu.Map.Hv.{down, up}
use prephv.Mmu.Map.Init.{HasDirect, HasVectors, HasHvPages}
use prephv.Mmu.Types.{Mmu}
use prephv.Rom.Call.{RomVm}
use prephv.Rom.Library.{Platform}

-- Where the allocator puts the page table, of 64 MB, and the guest's RAM, and where the image is: in
-- the hypervisor's first 64 GB, the table and the image not in the same page of 16 MB.
pub record IsPlaced (at : Start) : Type 0 where
  pub htab_low : 2 ^ 63 ≤ at.htab
  pub htab_high : at.htab + 2 ^ 26 ≤ 2 ^ 63 + 2 ^ 36
  pub start_low : 2 ^ 63 ≤ at.places.start
  pub start-end : at.places.start ≤ at.places.end
  pub end_high : at.places.end ≤ 2 ^ 63 + 2 ^ 36
  pub apart : (up (at.htab + 2 ^ 26) ≤ down at.places.start) ⊎ (up at.places.end ≤ down at.htab)
  pub ram_low : 2 ^ 63 ≤ at.ram
  pub ram_high : at.ram ≤ 2 ^ 63 + 2 ^ 36
  pub ram_aligned : at.ram % 2 ^ 24 ≡ 0

-- The guest's RAM in the table, and the hypervisor's own pages.
abbrev pub Mapped : Start → Option Guest → Mmu → Type 0
Mapped at none m = ⊥
Mapped at (some g) m =
    (g.ram ≡ at.ram)
    × (g.ram_size ≡ mb 32)
    × HasRamPages (mb 32) (at.ram - 2 ^ 63) g.sr m
    × HasDirect (down at.htab) (up (at.htab + 2 ^ 26)) (down at.places.start) (up at.places.end) m
    × HasVectors m

abbrev HvMapped : Start → Mmu → Type 0
HvMapped at m =
    HasHvPages (down at.htab) (up (at.htab + 2 ^ 26)) (down at.places.start) (up at.places.end) m

module _ (p : Platform) (at : Start) (placed : IsPlaced at) where
  open p use {hw}

  abbrev VmMapped : RomVm p → Type 0
  VmMapped vm = Mapped at vm.guest vm.mmu

-- The machine when the guest is entered.
module _ (p : Platform) (at : Start) where
  abbrev pub EntersMapped : Option (Machine p) → Type 0
  EntersMapped none = ⊥
  EntersMapped (some s) = Mapped at s.vm.guest s.vm.mmu
