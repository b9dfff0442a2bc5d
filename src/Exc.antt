-- ===== src/Exc.antt =====
-- `exc_handler` of exc.c: an exception of the guest or of the hypervisor itself.
pub mod Laws
pub mod Client
pub mod Above
pub mod Pages
pub mod Flags
pub mod Init
use prephv.Base.{
  ℕ, ◌+◌, ◌%◌, ◌^◌, Bool, true, false, ◌&&◌, Option, Run, done, halt, ◌>>=◌, ◌>>◌, bug_on, leb,
  ◌==◌, ◌!=◌, if◌then◌else◌, bit_and,
}
use prephv.Ppc.{
  msr_ri, exc_isi, exc_dsi, exc_dec, hv_aspace, srr1_isi_not_mapped, dsisr_not_mapped,
  page_mask_16m, pp_rwxx,
}
use prephv.Guest.Vm.{Frame, Vm}
use prephv.Guest.Trap.{guest_exc_try}
use prephv.Mmu.Types.{Mmu, page_16m, ptr_2_ra}
use prephv.Mmu.Slb.{SlbUnit, Err, err_none}
use prephv.Mmu.Map.{mmu_map}

-- How the handler ends: `exc_rfi`, which does not return, or the loop behind the dump.
pub data Exit : Type 0 where
  resumes hangs : Exit

-- `T` is the state of the timers and `time_handle` what time.c does to it.
module _ {T D : Type 0} (hw : SlbUnit) (rom_call : Vm hw D → Run (Err × Vm hw D))
    (time_handle : T → Run T) where
  pub record World : Type 0 where
    pub vm : Vm hw D
    pub time : T

  -- A fault of the hypervisor's own mapping puts the page of 16 MB in.
  unfoldable pub map_hv : ℕ → World → Run (Exit × World)
  map_hv ea w = do
    ra ← ptr_2_ra (bit_and ea page_mask_16m)
    m ← mmu_map w.vm.guest (bit_and ea page_mask_16m) ra pp_rwxx page_16m w.vm.mmu
    done (resumes, record w { vm = record w.vm { mmu = m } })

  -- What follows `guest_exc_try`, at the data address register and the DSISR.
  unfoldable pub hv_exc : ℕ → ℕ → World → Run (Exit × World)
  unfolding map_hv
  hv_exc dar dsisr w =
      let f = w.vm.frame in
      if f.vec == exc_isi && leb hv_aspace f.hsrr0 && bit_and f.hsrr1 srr1_isi_not_mapped != 0
      then map_hv f.hsrr0 w
      else if f.vec == exc_dsi && leb hv_aspace dar && bit_and dsisr dsisr_not_mapped != 0
      then map_hv dar w
      else if f.vec == exc_dec
      then (do t ← time_handle w.time; done (resumes, record w { time = t }))
      else done (hangs, w)

  unfoldable pub after_guest : ℕ → ℕ → World → Err × Vm hw D → Run (Exit × World)
  unfolding hv_exc
  after_guest dar dsisr w (err_none, vm) = done (resumes, record w { vm = vm })
  after_guest dar dsisr w (err, vm) = hv_exc dar dsisr (record w { vm = vm })

  unfoldable pub exc_handler : ℕ → ℕ → World → Run (Exit × World)
  unfolding after_guest
  exc_handler dar dsisr w =
      if bit_and w.vm.frame.hsrr1 msr_ri == 0
      then done (hangs, w)
      else guest_exc_try hw rom_call dar w.vm >>= after_guest dar dsisr w
