-- ===== src/Exc/Above.antt =====
-- exc.c, guest.c and rom.c together: what an exception writes to memory.
use prephv.Base.{
  ℕ, ◌+◌, ◌^◌, ◌≤◌, ◌<◌, ◌≡◌, refl, arith, ◌&&◌, ◌||◌, Run, done, ◌>>=◌, leb, ◌==◌, ◌!=◌,
  if◌then◌else◌, bit_and, IfDone, IfDone->>=, IfDone-if, IfDone-bug_on, IfDone-after,
}
use prephv.Ppc.{
  msr_ri, msr_sf, msr_pr, exc_dseg, exc_iseg, exc_prog, exc_hea, exc_sc, exc_isi, exc_dsi, exc_dec,
  hv_aspace, srr1_isi_not_mapped, dsisr_not_mapped, page_mask_16m, pp_rwxx,
}
use prephv.Guest.State.{the_guest}
use prephv.Guest.Memory.{Memory, load32}
use prephv.Guest.Memory.Above.{SameAbove, SameAbove-refl, store32-SameAbove}
use prephv.Guest.Vm.{Vm, reg, guest_update_msr}
use prephv.Guest.Spr.{Spr, sprg, spr_of, mtspr_switch, sprg_load}
use prephv.Guest.Decode.{
  Insn, mfsr, mfmsr, mtmsr, mtspr, mfspr, rfi, op31, unknown, decode, reg_field, spr_field,
}
use prephv.Guest.Emulate.{patch, do_mfsr, do_mfmsr, do_mtmsr, do_mtspr, do_mfspr, do_rfi, do_op31}
use prephv.Guest.Trap.{emulate, try_segment, try_other, after_segment, guest_exc_try}
use prephv.Mmu.Address.{layout_vm_end}
use prephv.Mmu.Types.{page_16m, ptr_2_ra}
use prephv.Mmu.Map.{mmu_map}
use prephv.Mmu.Slb.{SlbUnit, Err, err_none, err_unsupported, mmu_guest_fault_seg}
use prephv.Exc.{Exit, World, map_hv, hv_exc, after_guest, exc_handler}
use prephv.Rom.Library.{Platform}
use prephv.Rom.Calls.Above.{out_of_reach, IsBounded}
use prephv.Rom.Call.{rom_call}
use prephv.Rom.Call.Above.{rom_call-SameAbove}

-- The patched instruction is the one that trapped.
patch-SameAbove :
    (top : ℕ) (s : Spr) (mem : Memory) (at : ℕ) → at + 4 ≤ top → SameAbove top mem (patch s mem at)
unfolding patch
patch-SameAbove top (sprg i) mem at h = store32-SameAbove top mem at (sprg_load (load32 mem at) i) h
patch-SameAbove top _ mem at h = SameAbove-refl top mem

module _ {D : Type 0} (hw : SlbUnit) (top : ℕ) where
  -- What an exception of a machine leaves of its memory.
  abbrev Kept : Vm hw D → Vm hw D → Type 0
  Kept vm vm' = SameAbove top vm.mem vm'.mem

  module _ (vm : Vm hw D) where
    abbrev pub After : Err × Vm hw D → Type 0
    After r = Kept vm r.1

    emulated-Kept :
        (m : Run (Vm hw D)) → IfDone (Kept vm) m → IfDone After (m >>= λ vm'. done (err_none, vm'))
    emulated-Kept m h = IfDone->>= (Kept vm) After m _ h (λ _ k. k)

    emulate-Kept :
        vm.frame.hsrr0 + 4 ≤ top → (insn : Insn) (i : ℕ) → IfDone After (emulate hw insn i vm)
    unfolding emulate do_mfsr do_mfmsr do_mtmsr do_mtspr do_mfspr do_rfi do_op31
    emulate-Kept h mfsr i =
        emulated-Kept (do_mfsr hw i vm)
          (IfDone-after (Kept vm) (the_guest vm.guest) _ (λ g. SameAbove-refl top vm.mem))
    emulate-Kept h mfmsr i =
        emulated-Kept (do_mfmsr hw i vm)
          (IfDone-after (Kept vm) (the_guest vm.guest) _ (λ g. SameAbove-refl top vm.mem))
    emulate-Kept h mtmsr i = emulated-Kept (do_mtmsr hw i vm) (
        IfDone-after (Kept vm) (guest_update_msr hw (reg vm.frame (reg_field i)) vm.guest vm.slb) _
          (λ r. SameAbove-refl top vm.mem))
    emulate-Kept h mtspr i = emulated-Kept (do_mtspr hw i vm) (
        IfDone-after (Kept vm) (the_guest vm.guest) _ (λ g.
          IfDone-after (Kept vm)
            (mtspr_switch g (spr_of (spr_field i)) (reg vm.frame (reg_field i))) _
            (λ g'. SameAbove-refl top vm.mem)))
    emulate-Kept h mfspr i = emulated-Kept (do_mfspr hw i vm) (
        IfDone-after (Kept vm) (the_guest vm.guest) _
          (λ g. patch-SameAbove top (spr_of (spr_field i)) vm.mem vm.frame.hsrr0 h))
    emulate-Kept h rfi i = emulated-Kept (do_rfi hw vm) (
        IfDone-after (Kept vm) (the_guest vm.guest) _ (λ g.
          IfDone-after (Kept vm) (guest_update_msr hw g.srr1 vm.guest vm.slb) _
            (λ r. SameAbove-refl top vm.mem)))
    emulate-Kept h op31 i = SameAbove-refl top vm.mem
    emulate-Kept h unknown i = SameAbove-refl top vm.mem

  module _ (rom : Vm hw D → Run (Err × Vm hw D)) (dar : ℕ) (vm : Vm hw D)
      (fetch : vm.frame.hsrr0 + 4 ≤ top)
      (calls : (s : hw.Slb) → IfDone (After vm) (rom (record vm { slb = s }))) where
    -- The SLB may have changed by then.
    other-Kept : (s : hw.Slb) → IfDone (After vm) (try_other hw rom dar (record vm { slb = s }))
    unfolding try_other
    other-Kept s =
        let on = record vm { slb = s } in
        let i = load32 vm.mem vm.frame.hsrr0 in
        IfDone-if (After vm) (bit_and vm.frame.hsrr1 msr_sf != 0) _ _ (SameAbove-refl top vm.mem) (
          IfDone-bug_on (After vm) (bit_and vm.frame.hsrr1 msr_pr == 0) _ (
            IfDone-if (After vm) (vm.frame.vec == exc_prog || vm.frame.vec == exc_hea) _ _
              (emulate-Kept on fetch (decode i) i)
              (IfDone-if (After vm) (vm.frame.vec == exc_sc) _ _ (calls s)
                (SameAbove-refl top vm.mem))))

    after_segment-Kept :
        (e : Err) (s : hw.Slb)
        → IfDone (After vm) (after_segment hw rom dar (e, record vm { slb = s }))
    unfolding after_segment
    after_segment-Kept err_none s = SameAbove-refl top vm.mem
    after_segment-Kept _ s = other-Kept s

    abbrev Faulted : Err × Vm hw D → Type 0
    Faulted r = (e : Err) × (s : hw.Slb) × (r ≡ (e, record vm { slb = s }))

    segment-Kept :
        (ea : ℕ)
        → IfDone (After vm) (
            if leb layout_vm_end ea
            then done (err_unsupported, vm)
            else try_segment hw ea vm >>= after_segment hw rom dar)
    unfolding try_segment
    segment-Kept ea = IfDone-if (After vm) (leb layout_vm_end ea) _ _ (SameAbove-refl top vm.mem) (
        IfDone->>= Faulted (After vm) (try_segment hw ea vm) _
          (IfDone-after Faulted (mmu_guest_fault_seg hw vm.guest ea vm.slb) _
            (λ r. (r.0, r.1, refl)))
          (λ r (e, s, is). rw is (after_segment-Kept e s)))

    pub guest_exc_try-Kept : IfDone (After vm) (guest_exc_try hw rom dar vm)
    unfolding guest_exc_try
    guest_exc_try-Kept = IfDone-if (After vm) (vm.frame.vec == exc_dseg) _ _ (segment-Kept dar) (
        IfDone-if (After vm) (vm.frame.vec == exc_iseg) _ _ (segment-Kept vm.frame.hsrr0)
          (other-Kept vm.slb))

module _ {T D : Type 0} (hw : SlbUnit) (rom : Vm hw D → Run (Err × Vm hw D))
    (time_handle : T → Run T) (top : ℕ) where
  abbrev pub ExitKept : World hw rom time_handle → Exit × World hw rom time_handle → Type 0
  ExitKept w r = SameAbove top w.vm.mem r.1.vm.mem

  module _ (w : World hw rom time_handle) where
    map_hv-Kept :
        (ea : ℕ) (v : World hw rom time_handle)
        → SameAbove top w.vm.mem v.vm.mem
        → IfDone (ExitKept w) (map_hv hw rom time_handle ea v)
    unfolding map_hv
    map_hv-Kept ea v k = IfDone-after (ExitKept w) (ptr_2_ra (bit_and ea page_mask_16m)) _ (λ ra.
        IfDone-after (ExitKept w)
          (mmu_map v.vm.guest (bit_and ea page_mask_16m) ra pp_rwxx page_16m v.vm.mmu) _ (λ m. k))

    hv_exc-Kept :
        (dar dsisr : ℕ) (v : World hw rom time_handle)
        → SameAbove top w.vm.mem v.vm.mem
        → IfDone (ExitKept w) (hv_exc hw rom time_handle dar dsisr v)
    unfolding hv_exc
    hv_exc-Kept dar dsisr v k =
        let f = v.vm.frame in
        IfDone-if (ExitKept w)
          (f.vec == exc_isi && leb hv_aspace f.hsrr0 && bit_and f.hsrr1 srr1_isi_not_mapped != 0) _
          _ (map_hv-Kept f.hsrr0 v k)
          (IfDone-if (ExitKept w)
            (f.vec == exc_dsi && leb hv_aspace dar && bit_and dsisr dsisr_not_mapped != 0) _ _
            (map_hv-Kept dar v k)
            (IfDone-if (ExitKept w) (f.vec == exc_dec) _ _
              (IfDone-after (ExitKept w) (time_handle v.time) _ (λ t. k)) k))

    after_guest-Kept :
        (dar dsisr : ℕ) (r : Err × Vm hw D)
        → SameAbove top w.vm.mem r.1.mem
        → IfDone (ExitKept w) (after_guest hw rom time_handle dar dsisr w r)
    unfolding after_guest
    after_guest-Kept dar dsisr (err_none, vm) k = k
    after_guest-Kept dar dsisr (_, vm) k = hv_exc-Kept dar dsisr (record w { vm = vm }) k

    exc_handler-Kept :
        (dar dsisr : ℕ)
        → w.vm.frame.hsrr0 + 4 ≤ top
        → ((s : hw.Slb) → IfDone (After hw top w.vm) (rom (record w.vm { slb = s })))
        → IfDone (ExitKept w) (exc_handler hw rom time_handle dar dsisr w)
    unfolding exc_handler
    exc_handler-Kept dar dsisr fetch calls =
        IfDone-if (ExitKept w) (bit_and w.vm.frame.hsrr1 msr_ri == 0) _ _
          (SameAbove-refl top w.vm.mem)
          (IfDone->>= (After hw top w.vm) (ExitKept w) (guest_exc_try hw rom dar w.vm) _
            (guest_exc_try-Kept hw top rom dar w.vm fetch calls) (after_guest-Kept dar dsisr))

-- Whatever traps, from a guest whose instruction and whose arguments of the client interface are
-- at 32-bit addresses, and with libraries that give no more bytes than they are asked for: the
-- handler, be it by an emulated instruction or by a call of the client interface, writes no memory
-- from 2 ^ 34 on, where the hypervisor is.
pub exception-SameAbove :
    {T : Type 0} (p : Platform) (bounded : IsBounded p) (time_handle : T → Run T) (dar dsisr : ℕ)
    (w : World p.hw (rom_call p) time_handle)
    → w.vm.frame.hsrr0 < 2 ^ 32
    → reg w.vm.frame 3 < 2 ^ 32
    → IfDone
        (λ r. SameAbove out_of_reach w.vm.mem r.1.vm.mem)
        (exc_handler p.hw (rom_call p) time_handle dar dsisr w)
exception-SameAbove p bounded time_handle dar dsisr w fetch args =
    exc_handler-Kept p.hw (rom_call p) time_handle out_of_reach w dar dsisr (omega arith)
      (λ s. rom_call-SameAbove p bounded (record w.vm { slb = s }) args)
