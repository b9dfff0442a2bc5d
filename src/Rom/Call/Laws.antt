-- ===== src/Rom/Call/Laws.antt =====
-- The client interface keeps the invariant of the guest, and that of its own ranges.
use prephv.Base.{
  ℕ, ◌+◌, ◌-◌, ◌%◌, ◌^◌, ◌≡◌, refl, arith, some, Run, done, ◌==◌, u32, u64, IfDone, IfDone->>=,
  IfDone-const, IfDone-if, is_aligned, align,
}
use prephv.Base.Bits.{and_low, and_field}
use prephv.Ppc.{page_size, pp_rwrw}
use prephv.Mmu.Map.{mmu_map_range}
use prephv.Guest.State.{Rom, Guest, the_guest}
use prephv.Guest.Memory.{load32, is_string}
use prephv.Guest.Vm.{reg}
use prephv.Guest.Laws.Invariant.{IsValid, VmOk, some_guest}
use prephv.Mmu.Types.{page_4k, ptr_2_ra}
use prephv.Ranges.{Ranges, Malloc, range_remove}
use prephv.Ranges.Cut.{IsSorted}
use prephv.Ranges.Paged.{IsPaged, range_remove-keeps}
use prephv.Rom.Claim.{rom_claim, claim_address, align_up_32}
use prephv.Rom.Library.{Platform}
use prephv.Rom.Device.{Dev, Reply, arg}
use prephv.Rom.Calls.{
  do_finddevice, do_milliseconds, do_peer, do_child, do_parent, do_write, do_getproplen, do_getprop,
  do_instance_to_package, do_instance_to_path, do_package_to_path,
}
use prephv.Rom.Calls.Disk.{do_open, do_close, do_seek, do_read}
use prephv.Rom.Calls.Laws.{
  Keeps, finddevice-Keeps, peer-Keeps, child-Keeps, parent-Keeps, do_getproplen-Keeps,
  do_getprop-Keeps, package-Keeps, instance_path-Keeps, package_path-Keeps, open-Keeps, close-Keeps,
  seek-Keeps, read-Keeps,
}
use prephv.Rom.Call.{
  Call, RomVm, reply_of, replied, claim_at, do_claim, method_claim, map_pages, method_map,
  do_call_method, device_call, dispatch, call_of, rom_call, finddevice, milliseconds, peer, child,
  parent, exit_or_boot, write, read, getproplen, getprop, call_method, claim, instance_to_package,
  instance_to_path, package_to_path, open_device, close, seek, unknown_call,
}

-- The available ranges are in order, and whole pages.
abbrev pub AvailOk : Ranges → Type 0
AvailOk r = IsSorted 0 r × IsPaged r

first_page : (x : ℕ) → align x page_size % 4096 ≡ 0
unfolding align
first_page x = ground (arith, and_field 12 52 x)

last_page : (x : ℕ) → (u32 (align_up_32 x page_size + (2 ^ 32 - 1)) + 1) % 4096 ≡ 0
unfolding align_up_32 is_aligned
last_page x = ground (arith, and_low 12 x, and_field 12 20 (u32 (x + 4095)))

module _ (malloc : Malloc) where
  pub rom_claim-AvailOk :
      (addr size align_to : ℕ) (rom : Rom) (avail : Ranges)
      → AvailOk avail
      → IfDone (λ r. AvailOk r.2) (rom_claim malloc addr size align_to (rom, avail))
  unfolding rom_claim
  rom_claim-AvailOk addr size align_to rom avail ok =
      IfDone->>= (λ _. AvailOk avail) (λ r. AvailOk r.2) (claim_address addr size align_to rom) _
        (IfDone-const (claim_address addr size align_to rom) ok)
        (λ (out, rom') o.
          IfDone->>= AvailOk (λ r. AvailOk r.2)
            (range_remove malloc (align out page_size)
              (u32 (align_up_32 (u32 (out + size)) page_size + (2 ^ 32 - 1))) avail)
            _
            (range_remove-keeps malloc (align out page_size)
              (u32 (align_up_32 (u32 (out + size)) page_size + (2 ^ 32 - 1))) avail (omega arith)
              (first_page out) (last_page (u32 (out + size))) o.0 o.1)
            (λ ys p. p))

module _ (p : Platform) where
  open p use {hw, fat, malloc}

  abbrev pub DevOk : Dev fat → Type 0
  DevOk dev = AvailOk dev.avail

  -- The guest has its invariant, and the ranges theirs.
  abbrev pub RomOk : RomVm p → Type 0
  RomOk vm = VmOk hw DevOk vm

  pub rom-IsValid : (g : Guest) (rom : Rom) → IsValid g → IsValid (record g { rom = rom })
  rom-IsValid g rom v = record {
    arrays = record {
      ibats = v.arrays.ibats;
      dbats = v.arrays.dbats;
      srs = v.arrays.srs;
      sprgs = v.arrays.sprgs;
    };
    consistent = v.consistent;
    width = ground arith;
  }

  device_call-RomOk :
      (f : Reply fat → Run (Reply fat)) (cia : ℕ) (vm : RomVm p)
      → RomOk vm
      → ((s : Reply fat) → IfDone (Keeps p cia s) (f s))
      → IfDone RomOk (device_call p (f (reply_of p vm)) vm)
  unfolding device_call
  device_call-RomOk f cia vm ok keeps =
      let s = reply_of p vm in
      IfDone->>= (Keeps p cia s) RomOk (f s) (λ r. done (replied p vm r)) (keeps s)
        (λ r k. (ok.0, rw k ok.1))

  pub claim_at-RomOk :
      (addr size align_to : ℕ) (vm : RomVm p)
      → RomOk vm
      → IfDone (λ r. RomOk r.1) (claim_at p addr size align_to vm)
  unfolding claim_at the_guest
  claim_at-RomOk addr size align_to vm ok =
      let (g, is, v) = some_guest vm.guest ok.0 in
      rw is (
        IfDone->>= (λ r. AvailOk r.2) (λ r. RomOk r.1)
          (rom_claim malloc addr size align_to (g.rom, vm.dev.avail)) _
          (rom_claim-AvailOk malloc addr size align_to g.rom vm.dev.avail ok.1)
          (λ (out, rom, avail) a. (rom-IsValid g rom v, a)))

  do_claim-RomOk : (cia : ℕ) (vm : RomVm p) → RomOk vm → IfDone RomOk (do_claim p cia vm)
  unfolding do_claim
  do_claim-RomOk cia vm ok =
      let s = reply_of p vm in
      IfDone->>= (λ r. RomOk r.1) RomOk (claim_at p (arg cia 3 s) (arg cia 4 s) (arg cia 5 s) vm) _
        (claim_at-RomOk (arg cia 3 s) (arg cia 4 s) (arg cia 5 s) vm ok) (λ r k. k)

  method_claim-RomOk : (cia : ℕ) (vm : RomVm p) → RomOk vm → IfDone RomOk (method_claim p cia vm)
  unfolding method_claim
  method_claim-RomOk cia vm ok =
      let s = reply_of p vm in
      IfDone->>= (λ r. RomOk r.1) RomOk (claim_at p (arg cia 7 s) (arg cia 6 s) (arg cia 5 s) vm) _
        (claim_at-RomOk (arg cia 7 s) (arg cia 6 s) (arg cia 5 s) vm ok) (λ r k. k)

  map_pages-RomOk :
      (virt phys size : ℕ) (vm : RomVm p) → RomOk vm → IfDone RomOk (map_pages p virt phys size vm)
  unfolding map_pages the_guest
  map_pages-RomOk virt phys size vm ok =
      let (g, is, v) = some_guest vm.guest ok.0 in
      rw is (
        IfDone->>= (λ _. RomOk vm) RomOk (ptr_2_ra (u64 (phys + g.ram))) _
          (IfDone-const (ptr_2_ra (u64 (phys + g.ram))) ok)
          (λ ra _.
            let m =
              mmu_map_range (some g) virt (align_up_32 (u32 (virt + size)) page_size) ra pp_rwrw
                page_4k vm.mmu in
            IfDone->>= (λ _. RomOk vm) RomOk m _ (IfDone-const m ok) (λ mmu k. (v, k.1))))

  method_map-RomOk : (cia : ℕ) (vm : RomVm p) → RomOk vm → IfDone RomOk (method_map p cia vm)
  unfolding method_map
  method_map-RomOk cia vm ok =
      let s = reply_of p vm in
      IfDone->>= RomOk RomOk _ _
        (IfDone-if RomOk (arg cia 8 s == arg cia 7 s) _
          (map_pages p (arg cia 7 s) (arg cia 8 s) (arg cia 6 s) vm) ok
          (map_pages-RomOk (arg cia 7 s) (arg cia 8 s) (arg cia 6 s) vm ok))
        (λ vm' k. k)

  call_method-RomOk : (cia : ℕ) (vm : RomVm p) → RomOk vm → IfDone RomOk (do_call_method p cia vm)
  unfolding do_call_method
  call_method-RomOk cia vm ok =
      let name = arg cia 3 (reply_of p vm) in
      IfDone-if RomOk (is_string "claim" vm.mem name) (method_claim p cia vm) _
        (method_claim-RomOk cia vm ok)
        (IfDone-if RomOk (is_string "map" vm.mem name) (method_map p cia vm) (done vm)
          (method_map-RomOk cia vm ok) ok)

  dispatch-RomOk :
      (c : Call) (cia : ℕ) (vm : RomVm p) → RomOk vm → IfDone RomOk (dispatch p c cia vm)
  unfolding dispatch do_milliseconds do_write
  dispatch-RomOk finddevice cia vm ok =
      device_call-RomOk (do_finddevice p cia) cia vm ok (finddevice-Keeps p cia)
  dispatch-RomOk milliseconds cia vm ok =
      device_call-RomOk (do_milliseconds p cia) cia vm ok (λ s. refl)
  dispatch-RomOk peer cia vm ok = device_call-RomOk (do_peer p cia) cia vm ok (peer-Keeps p cia)
  dispatch-RomOk child cia vm ok = device_call-RomOk (do_child p cia) cia vm ok (child-Keeps p cia)
  dispatch-RomOk parent cia vm ok =
      device_call-RomOk (do_parent p cia) cia vm ok (parent-Keeps p cia)
  dispatch-RomOk write cia vm ok = device_call-RomOk (do_write p cia) cia vm ok (λ s. refl)
  dispatch-RomOk read cia vm ok = device_call-RomOk (do_read p cia) cia vm ok (read-Keeps p cia)
  dispatch-RomOk getproplen cia vm ok =
      device_call-RomOk (do_getproplen p cia) cia vm ok (do_getproplen-Keeps p cia)
  dispatch-RomOk getprop cia vm ok =
      device_call-RomOk (do_getprop p cia) cia vm ok (do_getprop-Keeps p cia)
  dispatch-RomOk instance_to_package cia vm ok =
      device_call-RomOk (do_instance_to_package p cia) cia vm ok (package-Keeps p cia)
  dispatch-RomOk instance_to_path cia vm ok =
      device_call-RomOk (do_instance_to_path p cia) cia vm ok (instance_path-Keeps p cia)
  dispatch-RomOk package_to_path cia vm ok =
      device_call-RomOk (do_package_to_path p cia) cia vm ok (package_path-Keeps p cia)
  dispatch-RomOk open_device cia vm ok =
      device_call-RomOk (do_open p cia) cia vm ok (open-Keeps p cia)
  dispatch-RomOk close cia vm ok = device_call-RomOk (do_close p cia) cia vm ok (close-Keeps p cia)
  dispatch-RomOk seek cia vm ok = device_call-RomOk (do_seek p cia) cia vm ok (seek-Keeps p cia)
  dispatch-RomOk exit_or_boot cia vm ok = tt
  dispatch-RomOk call_method cia vm ok = call_method-RomOk cia vm ok
  dispatch-RomOk claim cia vm ok = do_claim-RomOk cia vm ok
  dispatch-RomOk unknown_call cia vm ok = ok

  -- No call of the client interface, whatever the guest asks, makes the guest go away, changes the
  -- lengths of its register arrays, sets one of IR and DR alone, or leaves the available ranges
  -- out of order or with part of a page: with all this in order before, it is so behind
  -- `rom_call`, if that returns.
  pub rom_call-RomOk : (vm : RomVm p) → RomOk vm → IfDone (λ r. RomOk r.1) (rom_call p vm)
  unfolding rom_call
  rom_call-RomOk vm ok =
      let cia = reg vm.frame 3 in
      let c = call_of vm.mem (load32 vm.mem cia) in
      IfDone->>= RomOk (λ r. RomOk r.1) (dispatch p c cia vm) _ (dispatch-RomOk c cia vm ok)
        (λ vm' k. k)
