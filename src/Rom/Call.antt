-- ===== src/Rom/Call.antt =====
-- `rom_call` of rom.c: which call a name is, the calls that claim or map the guest's memory, and
-- the dispatcher. The interface keeps the guest running at `lr`.
pub mod Laws
pub mod Above
pub mod Names
pub mod Map
pub mod Pages
use prephv.Base.{
  ℕ, ◌+◌, ◌%◌, ◌^◌, Bool, Option, some, Run, done, halt, ◌>>=◌, ◌==◌, if◌then◌else◌, u32, u64, ◌||◌,
}
use prephv.Ppc.{page_size, pp_rwrw}
use prephv.Guest.State.{Guest, the_guest}
use prephv.Guest.Memory.{Memory, load32, is_string}
use prephv.Guest.Vm.{Frame, reg, set_reg, Vm}
use prephv.Mmu.Types.{page_4k, ptr_2_ra}
use prephv.Mmu.Slb.{Err, err_none}
use prephv.Mmu.Map.{mmu_map_range}
use prephv.Rom.Claim.{rom_claim, align_up_32}
use prephv.Rom.Library.{Platform}
use prephv.Rom.Device.{Dev, Reply, arg, put_cell, returns, cell}
use prephv.Rom.Calls.{
  do_finddevice, do_milliseconds, do_peer, do_child, do_parent, do_write, do_getproplen, do_getprop,
  do_instance_to_package, do_instance_to_path, do_package_to_path,
}
use prephv.Rom.Calls.Disk.{do_open, do_close, do_seek, do_read}

-- The branches in their order. "exit" and "boot" stop the machine.
pub data Call : Type 0 where
  finddevice milliseconds peer child parent exit_or_boot write read getproplen getprop call_method
        claim :
      Call
  instance_to_package instance_to_path package_to_path open_device close seek unknown_call : Call

unfoldable pub call_of : Memory → ℕ → Call
call_of mem a =
    if is_string "finddevice" mem a
    then finddevice
    else if is_string "milliseconds" mem a
    then milliseconds
    else if is_string "peer" mem a
    then peer
    else if is_string "child" mem a
    then child
    else if is_string "parent" mem a
    then parent
    else if is_string "exit" mem a || is_string "boot" mem a
    then exit_or_boot
    else if is_string "write" mem a
    then write
    else if is_string "read" mem a
    then read
    else if is_string "getproplen" mem a
    then getproplen
    else if is_string "getprop" mem a
    then getprop
    else if is_string "call-method" mem a
    then call_method
    else if is_string "claim" mem a
    then claim
    else if is_string "instance-to-package" mem a
    then instance_to_package
    else if is_string "instance-to-path" mem a
    then instance_to_path
    else if is_string "package-to-path" mem a
    then package_to_path
    else if is_string "open" mem a
    then open_device
    else if is_string "close" mem a
    then close
    else if is_string "seek" mem a
    then seek
    else unknown_call

module _ (p : Platform) where
  open p use {hw, fat, malloc}

  abbrev pub RomVm : Type 0
  RomVm = Vm hw (Dev fat)

  -- What a call sees, and the guest with its reply.
  abbrev pub reply_of : RomVm → Reply fat
  reply_of vm = record { mem = vm.mem; r3 = reg vm.frame 3; dev = vm.dev }

  abbrev pub replied : RomVm → Reply fat → RomVm
  replied vm s = record vm { mem = s.mem; frame = set_reg vm.frame 3 s.r3; dev = s.dev }

  -- `rom_claim`, at the cells of its three arguments, and the two cells that are written.
  unfoldable pub claim_at : ℕ → ℕ → ℕ → RomVm → Run (ℕ × RomVm)
  claim_at addr size align_to vm = do
    g ← the_guest vm.guest
    (out, rom, avail) ← rom_claim malloc addr size align_to (g.rom, vm.dev.avail)
    done (
      out,
      record vm { guest = some (record g { rom = rom }); dev = record vm.dev { avail = avail } },
    )

  unfoldable pub do_claim : ℕ → RomVm → Run RomVm
  unfolding claim_at
  do_claim cia vm = do
    let s = reply_of vm
    (out, vm') ← claim_at (arg cia 3 s) (arg cia 4 s) (arg cia 5 s) vm
    done (replied vm' (returns 0 (put_cell cia 6 out (reply_of vm'))))

  unfoldable pub method_claim : ℕ → RomVm → Run RomVm
  unfolding claim_at
  method_claim cia vm = do
    let s = reply_of vm
    (out, vm') ← claim_at (arg cia 7 s) (arg cia 6 s) (arg cia 5 s) vm
    done (replied vm' (returns 0 (put_cell cia 9 0 (put_cell cia 8 out (reply_of vm')))))

  -- A mapping of real to effective addresses that differ goes into the page table.
  unfoldable pub map_pages : ℕ → ℕ → ℕ → RomVm → Run RomVm
  map_pages virt phys size vm = do
    g ← the_guest vm.guest
    ra ← ptr_2_ra (u64 (phys + g.ram))
    m ←
        mmu_map_range vm.guest virt (align_up_32 (u32 (virt + size)) page_size) ra pp_rwrw page_4k
          vm.mmu
    done (record vm { mmu = m })

  unfoldable pub method_map : ℕ → RomVm → Run RomVm
  unfolding map_pages
  method_map cia vm = do
    let s = reply_of vm
    let virt = arg cia 7 s
    let phys = arg cia 8 s
    vm' ← (if phys == virt then done vm else map_pages virt phys (arg cia 6 s) vm)
    done (replied vm' (returns 0 (put_cell cia 9 0 (reply_of vm'))))

  -- Any other method does nothing and leaves r3 alone.
  unfoldable pub do_call_method : ℕ → RomVm → Run RomVm
  unfolding method_claim method_map
  do_call_method cia vm =
      let name = arg cia 3 (reply_of vm) in
      if is_string "claim" vm.mem name
      then method_claim cia vm
      else if is_string "map" vm.mem name
      then method_map cia vm
      else done vm

  unfoldable pub device_call : Run (Reply fat) → RomVm → Run RomVm
  device_call m vm = do s ← m; done (replied vm s)

  unfoldable pub dispatch : Call → ℕ → RomVm → Run RomVm
  unfolding device_call do_claim do_call_method
  dispatch finddevice cia vm = device_call (do_finddevice p cia (reply_of vm)) vm
  dispatch milliseconds cia vm = device_call (do_milliseconds p cia (reply_of vm)) vm
  dispatch peer cia vm = device_call (do_peer p cia (reply_of vm)) vm
  dispatch child cia vm = device_call (do_child p cia (reply_of vm)) vm
  dispatch parent cia vm = device_call (do_parent p cia (reply_of vm)) vm
  dispatch exit_or_boot cia vm = halt
  dispatch write cia vm = device_call (do_write p cia (reply_of vm)) vm
  dispatch read cia vm = device_call (do_read p cia (reply_of vm)) vm
  dispatch getproplen cia vm = device_call (do_getproplen p cia (reply_of vm)) vm
  dispatch getprop cia vm = device_call (do_getprop p cia (reply_of vm)) vm
  dispatch call_method cia vm = do_call_method cia vm
  dispatch claim cia vm = do_claim cia vm
  dispatch instance_to_package cia vm = device_call (do_instance_to_package p cia (reply_of vm)) vm
  dispatch instance_to_path cia vm = device_call (do_instance_to_path p cia (reply_of vm)) vm
  dispatch package_to_path cia vm = device_call (do_package_to_path p cia (reply_of vm)) vm
  dispatch open_device cia vm = device_call (do_open p cia (reply_of vm)) vm
  dispatch close cia vm = device_call (do_close p cia (reply_of vm)) vm
  dispatch seek cia vm = device_call (do_seek p cia (reply_of vm)) vm
  dispatch unknown_call cia vm = done vm

  unfoldable pub rom_call : RomVm → Run (Err × RomVm)
  unfolding dispatch
  rom_call vm = do
    let cia = reg vm.frame 3
    vm' ← dispatch (call_of vm.mem (load32 vm.mem cia)) cia vm
    done (err_none, record vm' { frame = record vm'.frame { hsrr0 = vm'.frame.lr } })
