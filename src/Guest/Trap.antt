-- ===== src/Guest/Trap.antt =====
-- `guest_exc_try` of guest.c: what the hypervisor does with an exception of the guest.
-- The `mtmsrd` of the source around `rom_call` change the hypervisor's own state register only,
-- and the messages have no effect on the state.
use prephv.Base.{ℕ, ◌||◌, Run, done, ◌>>=◌, ◌>>◌, bug_on, leb, ◌==◌, ◌!=◌, if◌then◌else◌, bit_and}
use prephv.Ppc.{msr_sf, msr_pr, exc_dseg, exc_iseg, exc_prog, exc_hea, exc_sc}
use prephv.Guest.Vm.{Vm}
use prephv.Guest.Memory.{load32}
use prephv.Guest.Decode.{Insn, mfsr, mfmsr, mtmsr, mtspr, mfspr, rfi, op31, unknown, decode}
use prephv.Guest.Emulate.{do_mfsr, do_mfmsr, do_mtmsr, do_mtspr, do_mfspr, do_rfi, do_op31}
use prephv.Mmu.Address.{layout_vm_end}
use prephv.Mmu.Slb.{SlbUnit, Err, err_none, err_unsupported, mmu_guest_fault_seg}

module _ {D : Type 0} (hw : SlbUnit) where
  -- The outcome of an instruction that has been emulated.
  emulated : Run (Vm hw D) → Run (Err × Vm hw D)
  emulated m = do vm ← m; done (err_none, vm)

  unfoldable pub emulate : Insn → ℕ → Vm hw D → Run (Err × Vm hw D)
  unfolding emulated
  emulate mfsr i vm = emulated (do_mfsr hw i vm)
  emulate mfmsr i vm = emulated (do_mfmsr hw i vm)
  emulate mtmsr i vm = emulated (do_mtmsr hw i vm)
  emulate mtspr i vm = emulated (do_mtspr hw i vm)
  emulate mfspr i vm = emulated (do_mfspr hw i vm)
  emulate rfi i vm = emulated (do_rfi hw vm)
  emulate op31 i vm = emulated (do_op31 hw i vm)
  emulate unknown i vm = done (err_unsupported, vm)

  -- A segment fault at an address, which is no guest address from `layout_vm_end` on.
  unfoldable pub try_segment : ℕ → Vm hw D → Run (Err × Vm hw D)
  try_segment ea vm = do
    (err, s) ← mmu_guest_fault_seg hw vm.guest ea vm.slb
    done (err, record vm { slb = s })

  -- `rom_call` is that of rom.c, and `dar` the data address register.
  module _ (rom_call : Vm hw D → Run (Err × Vm hw D)) (dar : ℕ) where
    -- What follows the segment faults.
    unfoldable pub try_other : Vm hw D → Run (Err × Vm hw D)
    unfolding emulate
    try_other vm = if bit_and vm.frame.hsrr1 msr_sf != 0 then done (err_unsupported, vm) else do
      bug_on (bit_and vm.frame.hsrr1 msr_pr == 0)
      if vm.frame.vec == exc_prog || vm.frame.vec == exc_hea
          then emulate (decode (load32 vm.mem vm.frame.hsrr0)) (load32 vm.mem vm.frame.hsrr0) vm
          else if vm.frame.vec == exc_sc
          then rom_call vm
          else done (err_unsupported, vm)

    -- A segment that was put in ends the matter.
    unfoldable pub after_segment : Err × Vm hw D → Run (Err × Vm hw D)
    unfolding try_other
    after_segment (err_none, vm) = done (err_none, vm)
    after_segment (err, vm) = try_other vm

    unfoldable pub guest_exc_try : Vm hw D → Run (Err × Vm hw D)
    unfolding try_segment after_segment try_other
    guest_exc_try vm =
        if vm.frame.vec == exc_dseg
        then (if leb layout_vm_end dar
            then done (err_unsupported, vm)
            else try_segment dar vm >>= after_segment)
        else if vm.frame.vec == exc_iseg
        then (if leb layout_vm_end vm.frame.hsrr0
            then done (err_unsupported, vm)
            else try_segment vm.frame.hsrr0 vm >>= after_segment)
        else try_other vm
