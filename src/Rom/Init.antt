-- ===== src/Rom/Init.antt =====
-- `rom_init` of rom.c: the memory that the guest may claim, its disk, the veneer that is its first
-- program, the entry of the client interface and the stack.
pub mod Laws
pub mod Same
use prephv.Base.{
  ℕ, ◌+◌, ◌-◌, ◌*◌, ◌^◌, ◌%◌, Bool, true, false, Option, none, some, List, Run, done, halt, ◌>>=◌,
  ◌>>◌, bug_on, leb, ◌==◌, ◌!=◌, if◌then◌else◌, not, u32, u64, ◌-64◌, mb,
}
use prephv.Guest.State.{Rom, Guest, the_guest}
use prephv.Guest.Memory.{Memory, store32, store_bytes}
use prephv.Guest.Vm.{Vm}
use prephv.Mmu.Address.{layout_vm_start}
use prephv.Mmu.Slb.{Err, err_none, err_not_found, err_unsupported}
use prephv.Ranges.{range_init, range_add}
use prephv.Rom.Library.{Platform, Fdt, Fat, Found, node, error, literal}
use prephv.Rom.Device.{Dev}
use prephv.Rom.Disk.{rom_disk_init, guest_disk_read}
use prephv.Rom.Call.{RomVm, claim_at}

-- The `int` of a node or an error, as its 32 bits.
abbrev pub int_of : Found → ℕ
int_of (node n) = n
int_of (error e) = 2 ^ 32 - e

-- An `int`, kept as its 32 bits, as `uint64_t`
abbrev pub int_64 : ℕ → ℕ
int_64 n = if leb (2 ^ 31) n then n + 2 ^ 64 - 2 ^ 32 else n

-- The place of the veneer, and how much of its file goes before it.
abbrev pub veneer_base : ℕ
veneer_base = 0x50000

abbrev pub veneer_header : ℕ
veneer_header = 0x200

-- The guest's claim arena is the last 16 MB of its RAM.
abbrev pub with_arena : Guest → Guest
with_arena g = record g {
  rom = record g.rom {
    claim_arena_start = g.ram_size -64 mb 16;
    claim_arena_ptr = g.ram_size -64 mb 16;
    claim_arena_end = g.ram_size;
  };
}

module _ (p : Platform) where
  open p use {fat, fdt, malloc, host}

  -- The ranges, the arena and the number of the memory node.
  unfoldable pub init_ranges : RomVm p → Run (RomVm p)
  init_ranges vm = do
    g ← the_guest vm.guest
    bug_on (leb g.ram_size (mb 16))
    avail ← range_add malloc range_init 0 (g.ram_size -64 1)
    memory_reg ← range_add malloc range_init 0 (g.ram_size -64 1)
    let n = int_of (fdt.fdt_node_offset_by_dtype (2 ^ 32 - 1) (literal "memory"))
    bug_on (n == 2 ^ 32 - 1)
    done (record vm {
      guest = some (with_arena g);
      dev = record vm.dev { avail = avail; memory_reg = memory_reg; memory_node = n };
    })

  -- The trampoline is the instruction sc 1 at address 4; the stack is the MB below the arena.
  unfoldable pub init_trampoline : RomVm p → Run (Err × RomVm p)
  init_trampoline vm = do
    g ← the_guest vm.guest
    let set = record vm { guest = some (record g { rom = record g.rom { cif_trampoline = 4 } }) }
    (_, vm₁) ← claim_at p 4 4 0 set
    let vm₂ = record vm₁ { mem = store32 vm₁.mem (layout_vm_start + 4) 0x44000022 }
    g₂ ← the_guest vm₂.guest
    let stack_end = g₂.rom.claim_arena_start
    let stack_start = stack_end -64 mb 1
    let rom = record g₂.rom { stack_start = stack_start; stack_end = stack_end }
    (_, vm₃) ←
        claim_at p (u32 stack_start) (u32 (stack_end -64 stack_start)) 0
          (record vm₂ { guest = some (record g₂ { rom = rom }) })
    done (err_none, vm₃)

  -- The file behind its header goes to the place of the veneer.
  unfoldable pub load_veneer : fat.File → RomVm p → Run (Err × RomVm p)
  unfolding init_trampoline
  load_veneer fl vm =
      let end = fat.fl_fseek_end fl 0 vm.dev.files in
      let start = fat.fl_fseek_set fl veneer_header end.1 in
      let veneer_len = fat.fl_ftell fl end.1 -64 veneer_header in
      if not end.0
      then done (err_unsupported, record vm { dev = record vm.dev { files = end.1 } })
      else if not start.0
      then done (err_unsupported, record vm { dev = record vm.dev { files = start.1 } })
      else (do
        (_, vm₁) ←
            claim_at p veneer_base (u32 veneer_len) 0
              (record vm { dev = record vm.dev { files = start.1 } })
        let r = fat.fl_fread (u32 veneer_len) fl start.1
        let vm₂ = record vm₁ {
          mem = store_bytes vm₁.mem (layout_vm_start + veneer_base) r.1;
          dev = record vm₁.dev { files = r.2 };
        }
        (if int_64 r.0 != veneer_len
            then done (err_unsupported, vm₂)
            else init_trampoline
                (record vm₂ { dev = record vm₂.dev { files = fat.fl_fclose fl vm₂.dev.files } })))

  unfoldable pub open_veneer : RomVm p → Option fat.File → Run (Err × RomVm p)
  unfolding load_veneer
  open_veneer vm none = done (err_not_found, vm)
  open_veneer vm (some fl) = load_veneer fl vm

  unfoldable pub attach_disk : RomVm p → Run (Err × RomVm p)
  unfolding open_veneer
  attach_disk vm =
      let attached = fat.fl_attach_media (guest_disk_read host vm.dev.guest_disk) fat.fl_init in
      let opened = fat.fl_fopen (literal "/veneer.exe") attached.1 in
      if attached.0
      then open_veneer (record vm { dev = record vm.dev { files = opened.1 } }) opened.0
      else done (err_unsupported, record vm { dev = record vm.dev { files = attached.1 } })

  unfoldable pub after_disk : RomVm p → Err × Dev fat → Run (Err × RomVm p)
  unfolding attach_disk
  after_disk vm (err_none, dev) = attach_disk (record vm { dev = dev })
  after_disk vm (err, dev) = done (err, record vm { dev = dev })

  -- `boot_fdt` is the firmware's tree, and that of the platform the one that the guest sees.
  unfoldable pub rom_init : Fdt → RomVm p → Run (Err × RomVm p)
  unfolding init_ranges after_disk
  rom_init boot_fdt vm = do
    vm' ← init_ranges vm
    r ← rom_disk_init boot_fdt vm'.dev
    after_disk vm' r
