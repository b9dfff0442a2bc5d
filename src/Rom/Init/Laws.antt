-- ===== src/Rom/Init/Laws.antt =====
-- `rom_init` of rom.c sets the invariant of the client interface up.
use prephv.Base.{
  ℕ, ◌+◌, ◌-◌, ◌%◌, ◌^◌, ◌<◌, ◌≡◌, arith, Option, none, some, List, done, leb, ◌==◌, ◌!=◌,
  if◌then◌else◌, not, u32, ◌-64◌, mb, IfDone, IfDone->>=, IfDone-if, IfDone-bug_on,
}
use prephv.Guest.State.{Guest, the_guest}
use prephv.Guest.Laws.Invariant.{IsValid, some_guest}
use prephv.Guest.Memory.{store32, store_bytes}
use prephv.Mmu.Address.{layout_vm_start}
use prephv.Mmu.Slb.{Err, err_none, err_unsupported}
use prephv.Ranges.{Malloc, insert, range_init, range_alloc, range_add}
use prephv.Rom.Library.{Platform, Fdt, literal}
use prephv.Rom.Device.{Dev}
use prephv.Rom.Disk.{rom_disk_init, guest_disk_read}
use prephv.Rom.Disk.Laws.{DiskOk, rom_disk_init-DiskOk}
use prephv.Rom.Call.{RomVm, claim_at}
use prephv.Rom.Call.Laws.{AvailOk, RomOk, rom-IsValid, claim_at-RomOk}
use prephv.Rom.Init.{
  int_64, int_of, with_arena, init_ranges, init_trampoline, load_veneer, open_veneer, attach_disk,
  after_disk, rom_init, veneer_base, veneer_header,
}

whole-AvailOk :
    (mem : Malloc) (ram_size : ℕ)
    → ram_size < 2 ^ 64
    → ram_size % mb 16 ≡ 0
    → IfDone AvailOk (range_add mem range_init 0 (ram_size -64 1))
unfolding range_add range_alloc range_init insert
whole-AvailOk mem ram_size lt whole = ground arith

module _ (p : Platform) where
  open p use {fat, fdt, malloc, host}

  abbrev pub ReadyOk : Err × RomVm p → Type 0
  ReadyOk r = RomOk p r.1

  trampoline-ReadyOk : (vm : RomVm p) → RomOk p vm → IfDone ReadyOk (init_trampoline p vm)
  unfolding init_trampoline the_guest
  trampoline-ReadyOk vm ok =
      let (g, is, v) = some_guest vm.guest ok.0 in
      let rom = record g.rom { cif_trampoline = 4 } in
      rw is (
        IfDone->>= (λ r. RomOk p r.1) ReadyOk _ _
          (claim_at-RomOk p 4 4 0 (record vm { guest = some (record g { rom = rom }) })
            (rom-IsValid p g rom v, ok.1))
          (λ (out, vm₁) ok₁.
            let (g₂, is₂, v₂) = some_guest vm₁.guest ok₁.0 in
            let stack_end = g₂.rom.claim_arena_start in
            let stack_start = stack_end -64 mb 1 in
            let rom₂ = record g₂.rom { stack_start = stack_start; stack_end = stack_end } in
            rw is₂ (
              IfDone->>= (λ r. RomOk p r.1) ReadyOk _ _
                (claim_at-RomOk p (u32 stack_start) (u32 (stack_end -64 stack_start)) 0
                  (record vm₁ {
                    mem = store32 vm₁.mem (layout_vm_start + 4) 0x44000022;
                    guest = some (record g₂ { rom = rom₂ });
                  })
                  (rom-IsValid p g₂ rom₂ v₂, ok₁.1))
                (λ r ok₂. ok₂))))

  module _ (fl : fat.File) (vm : RomVm p) (ok : RomOk p vm) where
    fread-ReadyOk :
        (veneer_len : ℕ) (files : fat.State) (r : ℕ × List ℕ × fat.State) (vm₁ : RomVm p)
        → RomOk p vm₁
        → let vm₂ = record vm₁ {
          mem = store_bytes vm₁.mem (layout_vm_start + veneer_base) r.1;
          dev = record vm₁.dev { files = r.2 };
        } in
          IfDone ReadyOk (
            if int_64 r.0 != veneer_len
            then done (err_unsupported, vm₂)
            else init_trampoline p
                (record vm₂ { dev = record vm₂.dev { files = fat.fl_fclose fl vm₂.dev.files } }))
    fread-ReadyOk veneer_len files r vm₁ k =
        IfDone-if ReadyOk (int_64 r.0 != veneer_len) _ _ k (trampoline-ReadyOk _ k)

    veneer-ReadyOk : IfDone ReadyOk (load_veneer p fl vm)
    unfolding load_veneer
    veneer-ReadyOk =
        let end = fat.fl_fseek_end fl 0 vm.dev.files in
        let start = fat.fl_fseek_set fl veneer_header end.1 in
        let veneer_len = fat.fl_ftell fl end.1 -64 veneer_header in
        let set = record vm { dev = record vm.dev { files = start.1 } } in
        IfDone-if ReadyOk (not end.0) _ _ ok (
          IfDone-if ReadyOk (not start.0) _ _ ok (
            IfDone->>= (λ r. RomOk p r.1) ReadyOk (claim_at p veneer_base (u32 veneer_len) 0 set) _
              (claim_at-RomOk p veneer_base (u32 veneer_len) 0 set ok)
              (λ (out, vm₁) k.
                fread-ReadyOk veneer_len start.1 (fat.fl_fread (u32 veneer_len) fl start.1) vm₁ k)))

  open_veneer-ReadyOk :
      (vm : RomVm p) (o : Option fat.File) → RomOk p vm → IfDone ReadyOk (open_veneer p vm o)
  unfolding open_veneer
  open_veneer-ReadyOk vm none ok = ok
  open_veneer-ReadyOk vm (some fl) ok = veneer-ReadyOk fl vm ok

  attach-ReadyOk : (vm : RomVm p) → RomOk p vm → IfDone ReadyOk (attach_disk p vm)
  unfolding attach_disk
  attach-ReadyOk vm ok =
      let attached = fat.fl_attach_media (guest_disk_read host vm.dev.guest_disk) fat.fl_init in
      IfDone-if ReadyOk attached.0 _ _ (open_veneer-ReadyOk _ _ ok) ok

  after_disk-ReadyOk :
      (vm : RomVm p) (r : Err × Dev fat)
      → RomOk p vm
      → DiskOk vm.dev r
      → IfDone ReadyOk (after_disk p vm r)
  unfolding after_disk
  after_disk-ReadyOk vm (err_none, dev) ok same =
      attach-ReadyOk (record vm { dev = dev }) (ok.0, rw same ok.1)
  after_disk-ReadyOk vm (_, dev) ok same = (ok.0, rw same ok.1)

  ranges-RomOk :
      (vm : RomVm p) (g : Guest)
      → vm.guest ≡ some g
      → IsValid g
      → g.ram_size < 2 ^ 64
      → g.ram_size % mb 16 ≡ 0
      → IfDone (RomOk p) (init_ranges p vm)
  unfolding init_ranges the_guest
  ranges-RomOk vm g is v lt whole =
      let ram = range_add malloc range_init 0 (g.ram_size -64 1) in
      let n = int_of (fdt.fdt_node_offset_by_dtype (2 ^ 32 - 1) (literal "memory")) in
      rw is (
        IfDone-bug_on (RomOk p) (leb g.ram_size (mb 16)) _ (
          IfDone->>= AvailOk (RomOk p) ram _ (whole-AvailOk malloc g.ram_size lt whole) (λ avail ok.
            IfDone->>= AvailOk (RomOk p) ram _ (whole-AvailOk malloc g.ram_size lt whole)
              (λ memory_reg _.
                IfDone-bug_on (RomOk p) (n == 2 ^ 32 - 1) _
                  (rom-IsValid p g (with_arena g).rom v, ok)))))

  -- From a guest with its invariant whose RAM is a multiple of 16 MB below 2 ^ 64 bytes,
  -- `rom_init`, whatever it finds in the trees and on the disk, ends, whenever no BUG_ON stops it,
  -- with the invariant that every later call of the client interface keeps.
  pub rom_init-ReadyOk :
      (boot_fdt : Fdt) (vm : RomVm p) (g : Guest)
      → vm.guest ≡ some g
      → IsValid g
      → g.ram_size < 2 ^ 64
      → g.ram_size % mb 16 ≡ 0
      → IfDone ReadyOk (rom_init p boot_fdt vm)
  unfolding rom_init
  rom_init-ReadyOk boot_fdt vm g is v lt whole =
      IfDone->>= (RomOk p) ReadyOk (init_ranges p vm) _ (ranges-RomOk vm g is v lt whole) (λ vm' ok.
        IfDone->>= (DiskOk vm'.dev) ReadyOk (rom_disk_init boot_fdt vm'.dev) _
          (rom_disk_init-DiskOk vm'.dev boot_fdt) (λ r same. after_disk-ReadyOk vm' r ok same))
