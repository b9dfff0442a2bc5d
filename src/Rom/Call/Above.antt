-- ===== src/Rom/Call/Above.antt =====
-- No call of the client interface writes above the guest's memory.
use prephv.Base.{
  ℕ, ◌+◌, ◌^◌, ◌<◌, ◌≡◌, arith, Run, done, ◌==◌, IfDone, IfDone->>=, IfDone-const, IfDone-if, u32,
  u64, refl,
}
use prephv.Ppc.{page_size, pp_rwrw}
use prephv.Guest.State.{the_guest}
use prephv.Guest.Memory.{load32, is_string}
use prephv.Guest.Memory.Above.{SameAbove, SameAbove-refl, SameAbove-trans}
use prephv.Guest.Vm.{reg}
use prephv.Mmu.Types.{page_4k, ptr_2_ra}
use prephv.Mmu.Map.{mmu_map_range}
use prephv.Rom.Claim.{rom_claim, align_up_32}
use prephv.Rom.Library.{Platform}
use prephv.Rom.Device.{Reply, arg, put_cell, returns}
use prephv.Rom.Calls.Above.{
  out_of_reach, IsBounded, Under, put_cell-Under, finddevice-Under, milliseconds-Under, peer-Under,
  child-Under, parent-Under, write-Under, getproplen-Under, getprop_call-Under, package-Under,
  instance_path-Under, package_path-Under,
}
use prephv.Rom.Calls.Disk.Above.{open-Fine, close-Fine, seek-Fine, read-Fine}
use prephv.Rom.Call.{
  Call, RomVm, reply_of, replied, claim_at, do_claim, method_claim, map_pages, method_map,
  do_call_method, device_call, dispatch, call_of, rom_call, finddevice, milliseconds, peer, child,
  parent, exit_or_boot, write, read, getproplen, getprop, call_method, claim, instance_to_package,
  instance_to_path, package_to_path, open_device, close, seek, unknown_call,
}

module _ (p : Platform) (bounded : IsBounded p) (cia : ℕ) (small : cia < 2 ^ 32) where
  open p use {hw, fat, malloc}

  abbrev pub Below : RomVm p → RomVm p → Type 0
  Below vm vm' = SameAbove out_of_reach vm.mem vm'.mem

  device_call-Below :
      (vm : RomVm p) (m : Run (Reply fat))
      → IfDone (Under p bounded cia small (reply_of p vm)) m
      → IfDone (Below vm) (device_call p m vm)
  unfolding device_call
  device_call-Below vm m h =
      IfDone->>= (Under p bounded cia small (reply_of p vm)) (Below vm) m
        (λ s. done (replied p vm s)) h (λ s k. k)

  -- A claim leaves memory to its caller.
  claim_at-mem :
      (addr size align_to : ℕ) (vm : RomVm p)
      → IfDone (λ r. r.1.mem ≡ vm.mem) (claim_at p addr size align_to vm)
  unfolding claim_at
  claim_at-mem addr size align_to vm =
      IfDone->>= (λ _. Unit {0}) (λ r. r.1.mem ≡ vm.mem) (the_guest vm.guest) _
        (IfDone-const (the_guest vm.guest) tt)
        (λ g _.
          let c = rom_claim malloc addr size align_to (g.rom, vm.dev.avail) in
          IfDone->>= (λ _. Unit {0}) (λ r. r.1.mem ≡ vm.mem) c _ (IfDone-const c tt) (λ r _. refl))

  cell-Below :
      (k v : ℕ) (vm vm' : RomVm p)
      → k < 16
      → vm'.mem ≡ vm.mem
      → Below vm (replied p vm' (returns 0 (put_cell cia k v (reply_of p vm'))))
  cell-Below k v vm vm' h e = rw e (put_cell-Under p bounded cia small k v (reply_of p vm) h)

  do_claim-Below : (vm : RomVm p) → IfDone (Below vm) (do_claim p cia vm)
  unfolding do_claim
  do_claim-Below vm =
      let s = reply_of p vm in
      IfDone->>= (λ r. r.1.mem ≡ vm.mem) (Below vm)
        (claim_at p (arg cia 3 s) (arg cia 4 s) (arg cia 5 s) vm) _
        (claim_at-mem (arg cia 3 s) (arg cia 4 s) (arg cia 5 s) vm)
        (λ (out, vm') e. cell-Below 6 out vm vm' (omega arith) e)

  method_claim-Below : (vm : RomVm p) → IfDone (Below vm) (method_claim p cia vm)
  unfolding method_claim
  method_claim-Below vm =
      let s = reply_of p vm in
      IfDone->>= (λ r. r.1.mem ≡ vm.mem) (Below vm)
        (claim_at p (arg cia 7 s) (arg cia 6 s) (arg cia 5 s) vm) _
        (claim_at-mem (arg cia 7 s) (arg cia 6 s) (arg cia 5 s) vm)
        (λ (out, vm') e.
          let one = replied p vm' (put_cell cia 8 out (reply_of p vm')) in
          SameAbove-trans out_of_reach vm.mem one.mem _ (cell-Below 8 out vm vm' (omega arith) e)
            (put_cell-Under p bounded cia small 9 0 (reply_of p one) (omega arith)))

  map_pages-mem :
      (virt phys size : ℕ) (vm : RomVm p)
      → IfDone (λ r. r.mem ≡ vm.mem) (map_pages p virt phys size vm)
  unfolding map_pages
  map_pages-mem virt phys size vm =
      IfDone->>= (λ _. Unit {0}) (λ r. r.mem ≡ vm.mem) (the_guest vm.guest) _
        (IfDone-const (the_guest vm.guest) tt)
        (λ g _.
          IfDone->>= (λ _. Unit {0}) (λ r. r.mem ≡ vm.mem) (ptr_2_ra (u64 (phys + g.ram))) _
            (IfDone-const (ptr_2_ra (u64 (phys + g.ram))) tt)
            (λ ra _.
              let m =
                mmu_map_range vm.guest virt (align_up_32 (u32 (virt + size)) page_size) ra pp_rwrw
                  page_4k vm.mmu in
              IfDone->>= (λ _. Unit {0}) (λ r. r.mem ≡ vm.mem) m _ (IfDone-const m tt)
                (λ mmu _. refl)))

  method_map-Below : (vm : RomVm p) → IfDone (Below vm) (method_map p cia vm)
  unfolding method_map
  method_map-Below vm =
      let s = reply_of p vm in
      IfDone->>= (λ r. r.mem ≡ vm.mem) (Below vm) _ _
        (IfDone-if (λ r. r.mem ≡ vm.mem) (arg cia 8 s == arg cia 7 s) (done vm)
          (map_pages p (arg cia 7 s) (arg cia 8 s) (arg cia 6 s) vm) refl
          (map_pages-mem (arg cia 7 s) (arg cia 8 s) (arg cia 6 s) vm))
        (λ vm' e. cell-Below 9 0 vm vm' (omega arith) e)

  call_method-Below : (vm : RomVm p) → IfDone (Below vm) (do_call_method p cia vm)
  unfolding do_call_method
  call_method-Below vm =
      let name = arg cia 3 (reply_of p vm) in
      IfDone-if (Below vm) (is_string "claim" vm.mem name) _ _ (method_claim-Below vm) (
        IfDone-if (Below vm) (is_string "map" vm.mem name) _ _ (method_map-Below vm)
          (SameAbove-refl out_of_reach vm.mem))

  dispatch-Below : (c : Call) (vm : RomVm p) → IfDone (Below vm) (dispatch p c cia vm)
  unfolding dispatch
  dispatch-Below finddevice vm =
      device_call-Below vm _ (finddevice-Under p bounded cia small (reply_of p vm))
  dispatch-Below milliseconds vm =
      device_call-Below vm _ (milliseconds-Under p bounded cia small (reply_of p vm))
  dispatch-Below peer vm = device_call-Below vm _ (peer-Under p bounded cia small (reply_of p vm))
  dispatch-Below child vm = device_call-Below vm _ (child-Under p bounded cia small (reply_of p vm))
  dispatch-Below parent vm =
      device_call-Below vm _ (parent-Under p bounded cia small (reply_of p vm))
  dispatch-Below write vm = device_call-Below vm _ (write-Under p bounded cia small (reply_of p vm))
  dispatch-Below read vm = device_call-Below vm _ (read-Fine p bounded cia small (reply_of p vm))
  dispatch-Below getproplen vm =
      device_call-Below vm _ (getproplen-Under p bounded cia small (reply_of p vm))
  dispatch-Below getprop vm =
      device_call-Below vm _ (getprop_call-Under p bounded cia small (reply_of p vm))
  dispatch-Below instance_to_package vm =
      device_call-Below vm _ (package-Under p bounded cia small (reply_of p vm))
  dispatch-Below instance_to_path vm =
      device_call-Below vm _ (instance_path-Under p bounded cia small (reply_of p vm))
  dispatch-Below package_to_path vm =
      device_call-Below vm _ (package_path-Under p bounded cia small (reply_of p vm))
  dispatch-Below open_device vm =
      device_call-Below vm _ (open-Fine p bounded cia small (reply_of p vm))
  dispatch-Below close vm = device_call-Below vm _ (close-Fine p bounded cia small (reply_of p vm))
  dispatch-Below seek vm = device_call-Below vm _ (seek-Fine p bounded cia small (reply_of p vm))
  dispatch-Below exit_or_boot vm = tt
  dispatch-Below call_method vm = call_method-Below vm
  dispatch-Below claim vm = do_claim-Below vm
  dispatch-Below unknown_call vm = SameAbove-refl out_of_reach vm.mem

module _ (p : Platform) (bounded : IsBounded p) where
  -- With the argument cells at a 32-bit address, and libraries that give no more bytes than they
  -- are asked for, no call of the client interface, whatever its arguments, writes memory from
  -- 2 ^ 34 on, where the hypervisor is.
  pub rom_call-SameAbove :
      (vm : RomVm p)
      → reg vm.frame 3 < 2 ^ 32
      → IfDone (λ r. SameAbove out_of_reach vm.mem r.1.mem) (rom_call p vm)
  unfolding rom_call
  rom_call-SameAbove vm small =
      let cia = reg vm.frame 3 in
      let c = call_of vm.mem (load32 vm.mem cia) in
      IfDone->>= (Below p bounded cia small vm) (λ r. SameAbove out_of_reach vm.mem r.1.mem)
        (dispatch p c cia vm) _ (dispatch-Below p bounded cia small c vm) (λ vm' k. k)
