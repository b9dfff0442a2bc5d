-- ===== src/Rom/Init/Same.antt =====
-- `rom_init` of rom.c leaves the page table alone, and of the guest its segment registers and RAM.
use prephv.Base.{
  ℕ, ◌+◌, ◌-◌, ◌^◌, ◌≡◌, refl, Option, none, some, leb, ◌==◌, ◌!=◌, not, u32, ◌-64◌, mb, IfDone,
  IfDone->>=, IfDone-after, IfDone-if, IfDone-bug_on,
}
use prephv.Guest.State.{Guest, the_guest}
use prephv.Guest.Memory.{store32}
use prephv.Mmu.Address.{layout_vm_start}
use prephv.Mmu.Types.{Mmu}
use prephv.Mmu.Slb.{Err, err_none}
use prephv.Ranges.{range_init, range_add}
use prephv.Rom.Claim.{rom_claim}
use prephv.Rom.Library.{Platform, Fdt, literal}
use prephv.Rom.Device.{Dev}
use prephv.Rom.Disk.{rom_disk_init, guest_disk_read}
use prephv.Rom.Call.{RomVm, claim_at}
use prephv.Rom.Init.{
  int_64, int_of, init_ranges, init_trampoline, load_veneer, open_veneer, attach_disk, after_disk,
  rom_init, veneer_base, veneer_header,
}

-- A guest with the segment registers and the RAM of another.
abbrev pub SameGuest : Guest → Option Guest → Type 0
SameGuest g none = ⊥
SameGuest g (some g') = (g'.sr ≡ g.sr) × (g'.ram ≡ g.ram) × (g'.ram_size ≡ g.ram_size)

module _ (p : Platform) (g : Guest) (m : Mmu) where
  open p use {fat, fdt, malloc, host}

  abbrev pub Same : RomVm p → Type 0
  Same vm = (vm.mmu ≡ m) × SameGuest g vm.guest

  pub same_guest :
      (guest : Option Guest)
      → SameGuest g guest
      → (g' : Guest) × (guest ≡ some g') × SameGuest g (some g')
  same_guest none s = absurd s
  same_guest (some g') s = (g', refl, s)

  claim_at-Same :
      (addr size align_to : ℕ) (vm : RomVm p)
      → Same vm
      → IfDone (λ (r : ℕ × RomVm p). Same r.1) (claim_at p addr size align_to vm)
  unfolding claim_at the_guest
  claim_at-Same addr size align_to vm (table, s) =
      let (g', is, same) = same_guest vm.guest s in
      rw is (
        IfDone-after (λ (r : ℕ × RomVm p). Same r.1)
          (rom_claim malloc addr size align_to (g'.rom, vm.dev.avail)) _ (λ r. (table, same)))

  ranges-Same : (vm : RomVm p) → Same vm → IfDone Same (init_ranges p vm)
  unfolding init_ranges the_guest
  ranges-Same vm (table, s) =
      let (g', is, same) = same_guest vm.guest s in
      let ram = range_add malloc range_init 0 (g'.ram_size -64 1) in
      let n = int_of (fdt.fdt_node_offset_by_dtype (2 ^ 32 - 1) (literal "memory")) in
      rw is (
        IfDone-bug_on Same (leb g'.ram_size (mb 16)) _ (
          IfDone-after Same ram _ (λ avail.
            IfDone-after Same ram _
              (λ memory_reg. IfDone-bug_on Same (n == 2 ^ 32 - 1) _ (table, same)))))

  abbrev pub SameRom : Err × RomVm p → Type 0
  SameRom r = Same r.1

  trampoline-Same : (vm : RomVm p) → Same vm → IfDone SameRom (init_trampoline p vm)
  unfolding init_trampoline the_guest
  trampoline-Same vm (table, s) =
      let (g₁, is, same) = same_guest vm.guest s in
      let rom = record g₁.rom { cif_trampoline = 4 } in
      rw is (
        IfDone->>= (λ (r : ℕ × RomVm p). Same r.1) SameRom _ _
          (claim_at-Same 4 4 0 (record vm { guest = some (record g₁ { rom = rom }) }) (table, same))
          (λ (out, vm₁) (table₁, s₁).
            let (g₂, is₂, same₂) = same_guest vm₁.guest s₁ in
            let stack_end = g₂.rom.claim_arena_start in
            let stack_start = stack_end -64 mb 1 in
            let rom₂ = record g₂.rom { stack_start = stack_start; stack_end = stack_end } in
            rw is₂ (
              IfDone->>= (λ (r : ℕ × RomVm p). Same r.1) SameRom _ _
                (claim_at-Same (u32 stack_start) (u32 (stack_end -64 stack_start)) 0
                  (record vm₁ {
                    mem = store32 vm₁.mem (layout_vm_start + 4) 0x44000022;
                    guest = some (record g₂ { rom = rom₂ });
                  })
                  (table₁, same₂))
                (λ r s₂. s₂))))

  module _ (fl : fat.File) (vm : RomVm p) (s : Same vm) where
    veneer-Same : IfDone SameRom (load_veneer p fl vm)
    unfolding load_veneer
    veneer-Same =
        let end = fat.fl_fseek_end fl 0 vm.dev.files in
        let start = fat.fl_fseek_set fl veneer_header end.1 in
        let veneer_len = fat.fl_ftell fl end.1 -64 veneer_header in
        let set = record vm { dev = record vm.dev { files = start.1 } } in
        let r = fat.fl_fread (u32 veneer_len) fl start.1 in
        IfDone-if SameRom (not end.0) _ _ s (
          IfDone-if SameRom (not start.0) _ _ s (
            IfDone->>= (λ (r : ℕ × RomVm p). Same r.1) SameRom
              (claim_at p veneer_base (u32 veneer_len) 0 set) _
              (claim_at-Same veneer_base (u32 veneer_len) 0 set s)
              (λ (out, vm₁) s₁.
                IfDone-if SameRom (int_64 r.0 != veneer_len) _ _ s₁ (trampoline-Same _ s₁))))

  open_veneer-Same :
      (vm : RomVm p) (o : Option fat.File) → Same vm → IfDone SameRom (open_veneer p vm o)
  unfolding open_veneer
  open_veneer-Same vm none s = s
  open_veneer-Same vm (some fl) s = veneer-Same fl vm s

  attach-Same : (vm : RomVm p) → Same vm → IfDone SameRom (attach_disk p vm)
  unfolding attach_disk
  attach-Same vm s =
      let attached = fat.fl_attach_media (guest_disk_read host vm.dev.guest_disk) fat.fl_init in
      IfDone-if SameRom attached.0 _ _ (open_veneer-Same _ _ s) s

  after_disk-Same :
      (vm : RomVm p) (r : Err × Dev fat) → Same vm → IfDone SameRom (after_disk p vm r)
  unfolding after_disk
  after_disk-Same vm (err_none, dev) s = attach-Same (record vm { dev = dev }) s
  after_disk-Same vm (_, dev) s = s

  -- Whatever it finds in the trees and on the disk, `rom_init`, if no BUG_ON stops it, leaves the
  -- page table as it was, and a guest with the segment registers and the RAM that it had.
  pub rom_init-Same :
      (boot_fdt : Fdt) (vm : RomVm p) → Same vm → IfDone SameRom (rom_init p boot_fdt vm)
  unfolding rom_init
  rom_init-Same boot_fdt vm s =
      IfDone->>= Same SameRom (init_ranges p vm) _ (ranges-Same vm s) (λ vm' s'.
        IfDone-after SameRom (rom_disk_init boot_fdt vm'.dev) _ (λ r. after_disk-Same vm' r s'))
