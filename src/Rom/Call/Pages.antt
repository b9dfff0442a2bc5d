-- ===== src/Rom/Call/Pages.antt =====
-- `rom_call` of rom.c and the page table: only the method "map" writes it, and it writes pages of
-- the guest.
use prephv.Base.{
  ℕ, ◌+◌, ◌-◌, ◌^◌, ◌≤◌, ◌<◌, arith, Run, done, u32, u64, ◌==◌, is_aligned, IfDone, IfDone->>=,
  IfDone-after, IfDone-if,
}
use prephv.Base.Bits.{and_field}
use prephv.Ppc.{page_size, pp_rwrw}
use prephv.Guest.State.{the_guest}
use prephv.Guest.Memory.{load32, is_string}
use prephv.Guest.Vm.{reg}
use prephv.Mmu.Slb.{Err}
use prephv.Mmu.Types.{page_4k, ptr_2_ra}
use prephv.Mmu.Map.{mmu_map_range}
use prephv.Mmu.Map.Keeps.{KeepsHigh, KeepsHigh-refl, range-KeepsHigh}
use prephv.Rom.Claim.{rom_claim, align_up_32}
use prephv.Rom.Library.{Platform}
use prephv.Rom.Device.{Reply, arg}
use prephv.Rom.Calls.{
  do_finddevice, do_milliseconds, do_peer, do_child, do_parent, do_getproplen, do_getprop,
  do_instance_to_package, do_instance_to_path, do_package_to_path, do_write,
}
use prephv.Rom.Call.{
  RomVm, reply_of, Call, finddevice, milliseconds, peer, child, parent, exit_or_boot, write, read,
  getproplen, getprop, call_method, claim, instance_to_package, instance_to_path, package_to_path,
  open_device, close, seek, unknown_call, call_of, claim_at, do_claim, method_claim, map_pages,
  method_map, do_call_method, device_call, dispatch, rom_call,
}
use prephv.Rom.Calls.Disk.{do_read, do_open, do_close, do_seek}

-- The end of a range that "map" is asked for is at most 4 GB.
end-le : (x : ℕ) → x < 2 ^ 32 → align_up_32 x page_size ≤ 2 ^ 32
unfolding align_up_32 is_aligned
end-le x lt = ground (arith, and_field 12 20 (u32 (x + (2 ^ 12 - 1))))

module _ (p : Platform) where
  open p use {malloc}

  module _ (vm : RomVm p) where
    abbrev pub KeepsPages : RomVm p → Type 0
    KeepsPages vm' = KeepsHigh vm.mmu vm'.mmu

    device-KeepsPages : (m : Run (Reply p.fat)) → IfDone KeepsPages (device_call p m vm)
    unfolding device_call
    device-KeepsPages m = IfDone-after KeepsPages m _ (λ s. KeepsHigh-refl vm.mmu)

    abbrev ClaimKeeps : ℕ × RomVm p → Type 0
    ClaimKeeps r = KeepsPages r.1

    claim_at-KeepsPages :
        (addr size align_to : ℕ) → IfDone ClaimKeeps (claim_at p addr size align_to vm)
    unfolding claim_at
    claim_at-KeepsPages addr size align_to = IfDone-after ClaimKeeps (the_guest vm.guest) _ (λ g.
        IfDone-after ClaimKeeps (rom_claim malloc addr size align_to (g.rom, vm.dev.avail)) _
          (λ r. KeepsHigh-refl vm.mmu))

    do_claim-KeepsPages : (cia : ℕ) → IfDone KeepsPages (do_claim p cia vm)
    unfolding do_claim
    do_claim-KeepsPages cia =
        let s = reply_of p vm in
        IfDone->>= ClaimKeeps KeepsPages (claim_at p (arg cia 3 s) (arg cia 4 s) (arg cia 5 s) vm) _
          (claim_at-KeepsPages (arg cia 3 s) (arg cia 4 s) (arg cia 5 s)) (λ r k. k)

    method_claim-KeepsPages : (cia : ℕ) → IfDone KeepsPages (method_claim p cia vm)
    unfolding method_claim
    method_claim-KeepsPages cia =
        let s = reply_of p vm in
        IfDone->>= ClaimKeeps KeepsPages (claim_at p (arg cia 7 s) (arg cia 6 s) (arg cia 5 s) vm) _
          (claim_at-KeepsPages (arg cia 7 s) (arg cia 6 s) (arg cia 5 s)) (λ r k. k)

    map_pages-KeepsPages : (virt phys size : ℕ) → IfDone KeepsPages (map_pages p virt phys size vm)
    unfolding map_pages
    map_pages-KeepsPages virt phys size =
        let ea_end = align_up_32 (u32 (virt + size)) page_size in
        IfDone-after KeepsPages (the_guest vm.guest) _ (λ g.
          IfDone-after KeepsPages (ptr_2_ra (u64 (phys + g.ram))) _ (λ ra.
            IfDone->>= (KeepsHigh vm.mmu) KeepsPages
              (mmu_map_range vm.guest virt ea_end ra pp_rwrw page_4k vm.mmu) _
              (range-KeepsHigh vm.guest ea_end pp_rwrw (end-le (u32 (virt + size)) (omega arith))
                virt ra vm.mmu)
              (λ m k. k)))

    method_map-KeepsPages : (cia : ℕ) → IfDone KeepsPages (method_map p cia vm)
    unfolding method_map
    method_map-KeepsPages cia =
        let s = reply_of p vm in
        IfDone->>= KeepsPages KeepsPages _ _
          (IfDone-if KeepsPages (arg cia 8 s == arg cia 7 s) _
            (map_pages p (arg cia 7 s) (arg cia 8 s) (arg cia 6 s) vm) (KeepsHigh-refl vm.mmu)
            (map_pages-KeepsPages (arg cia 7 s) (arg cia 8 s) (arg cia 6 s)))
          (λ vm' k. k)

    call_method-KeepsPages : (cia : ℕ) → IfDone KeepsPages (do_call_method p cia vm)
    unfolding do_call_method
    call_method-KeepsPages cia =
        let name = arg cia 3 (reply_of p vm) in
        IfDone-if KeepsPages (is_string "claim" vm.mem name) (method_claim p cia vm) _
          (method_claim-KeepsPages cia)
          (IfDone-if KeepsPages (is_string "map" vm.mem name) (method_map p cia vm) (done vm)
            (method_map-KeepsPages cia) (KeepsHigh-refl vm.mmu))

    dispatch-KeepsPages : (c : Call) (cia : ℕ) → IfDone KeepsPages (dispatch p c cia vm)
    unfolding dispatch
    dispatch-KeepsPages finddevice cia = device-KeepsPages (do_finddevice p cia (reply_of p vm))
    dispatch-KeepsPages milliseconds cia = device-KeepsPages (do_milliseconds p cia (reply_of p vm))
    dispatch-KeepsPages peer cia = device-KeepsPages (do_peer p cia (reply_of p vm))
    dispatch-KeepsPages child cia = device-KeepsPages (do_child p cia (reply_of p vm))
    dispatch-KeepsPages parent cia = device-KeepsPages (do_parent p cia (reply_of p vm))
    dispatch-KeepsPages write cia = device-KeepsPages (do_write p cia (reply_of p vm))
    dispatch-KeepsPages read cia = device-KeepsPages (do_read p cia (reply_of p vm))
    dispatch-KeepsPages getproplen cia = device-KeepsPages (do_getproplen p cia (reply_of p vm))
    dispatch-KeepsPages getprop cia = device-KeepsPages (do_getprop p cia (reply_of p vm))
    dispatch-KeepsPages instance_to_package cia =
        device-KeepsPages (do_instance_to_package p cia (reply_of p vm))
    dispatch-KeepsPages instance_to_path cia =
        device-KeepsPages (do_instance_to_path p cia (reply_of p vm))
    dispatch-KeepsPages package_to_path cia =
        device-KeepsPages (do_package_to_path p cia (reply_of p vm))
    dispatch-KeepsPages open_device cia = device-KeepsPages (do_open p cia (reply_of p vm))
    dispatch-KeepsPages close cia = device-KeepsPages (do_close p cia (reply_of p vm))
    dispatch-KeepsPages seek cia = device-KeepsPages (do_seek p cia (reply_of p vm))
    dispatch-KeepsPages exit_or_boot cia = tt
    dispatch-KeepsPages call_method cia = call_method-KeepsPages cia
    dispatch-KeepsPages claim cia = do_claim-KeepsPages cia
    dispatch-KeepsPages unknown_call cia = KeepsHigh-refl vm.mmu

    -- No call of the client interface, whatever the guest asks, changes a page that is not the
    -- guest's.
    pub rom_call-KeepsPages : IfDone (λ (r : Err × RomVm p). KeepsPages r.1) (rom_call p vm)
    unfolding rom_call
    rom_call-KeepsPages =
        let cia = reg vm.frame 3 in
        let c = call_of vm.mem (load32 vm.mem cia) in
        IfDone->>= KeepsPages (λ (r : Err × RomVm p). KeepsPages r.1) (dispatch p c cia vm) _
          (dispatch-KeepsPages c cia) (λ vm' k. k)
