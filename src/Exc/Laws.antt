-- ===== src/Exc/Laws.antt =====
-- What `exc_handler` of exc.c keeps, and what it does with a fault of the hypervisor itself.
use prephv.Base.{
  ℕ, ◌&&◌, Run, done, ◌>>=◌, leb, ◌==◌, ◌!=◌, bit_and, IfDone, IfDone->>=, IfDone-const, Bool-cases,
  inl, inr,
}
use prephv.Ppc.{
  msr_ri, exc_isi, exc_dsi, exc_dec, hv_aspace, srr1_isi_not_mapped, dsisr_not_mapped,
  page_mask_16m, pp_rwxx,
}
use prephv.Guest.Vm.{Vm}
use prephv.Guest.Trap.{guest_exc_try}
use prephv.Guest.Laws.Invariant.{VmOk, ResultOk, guest_exc_try-VmOk}
use prephv.Mmu.Types.{Mmu, page_16m, ptr_2_ra}
use prephv.Mmu.Slb.{SlbUnit, Err, err_none}
use prephv.Mmu.Map.{mmu_map}
use prephv.Exc.{Exit, resumes, World, map_hv, hv_exc, after_guest, exc_handler}

module _ {T D : Type 0} (hw : SlbUnit) (rom_call : Vm hw D → Run (Err × Vm hw D))
    (time_handle : T → Run T) (DevOk : D → Type 0) where
  -- The guest of the world has its invariant.
  abbrev pub ExitOk : Exit × World hw rom_call time_handle → Type 0
  ExitOk r = VmOk hw DevOk r.1.vm

  map_hv-ExitOk :
      (ea : ℕ) (w : World hw rom_call time_handle)
      → VmOk hw DevOk w.vm
      → IfDone ExitOk (map_hv hw rom_call time_handle ea w)
  unfolding map_hv
  map_hv-ExitOk ea w ok =
      let ra = ptr_2_ra (bit_and ea page_mask_16m) in
      let map : ℕ → Run Mmu =
        λ a. mmu_map w.vm.guest (bit_and ea page_mask_16m) a pp_rwxx page_16m w.vm.mmu in
      IfDone->>= (λ _. VmOk hw DevOk w.vm) ExitOk ra
        (λ a. map a >>= λ m. done (resumes, record w { vm = record w.vm { mmu = m } }))
        (IfDone-const ra ok)
        (λ a o.
          IfDone->>= (λ _. VmOk hw DevOk w.vm) ExitOk (map a)
            (λ m. done (resumes, record w { vm = record w.vm { mmu = m } }))
            (IfDone-const (map a) o) (λ m p. p))

  hv_exc-ExitOk :
      (dar dsisr : ℕ) (w : World hw rom_call time_handle)
      → VmOk hw DevOk w.vm
      → IfDone ExitOk (hv_exc hw rom_call time_handle dar dsisr w)
  unfolding hv_exc
  hv_exc-ExitOk dar dsisr w ok =
      let f = w.vm.frame in
      elim (Bool-cases
        (f.vec == exc_isi && leb hv_aspace f.hsrr0 && bit_and f.hsrr1 srr1_isi_not_mapped != 0)) [
          | inl e ↦ rw e (map_hv-ExitOk f.hsrr0 w ok)
          | inr e ↦
              rw e
                (elim (Bool-cases
                  (f.vec == exc_dsi && leb hv_aspace dar && bit_and dsisr dsisr_not_mapped != 0)) [
                    | inl d ↦ rw d (map_hv-ExitOk dar w ok)
                    | inr d ↦ rw d (elim (Bool-cases (f.vec == exc_dec)) [
                      | inl t ↦ rw t (
                          IfDone->>= (λ _. VmOk hw DevOk w.vm) ExitOk (time_handle w.time)
                            (λ s. done (resumes, record w { time = s }))
                            (IfDone-const (time_handle w.time) ok) (λ s p. p))
                      | inr t ↦ rw t ok
                    ])
                  ])
        ]

  -- If the client interface keeps the guest's invariant (there is a guest, its arrays have their
  -- lengths, its registers 32 bits, its IR and DR agree) and one of its own state, so does the handler of exceptions,
  -- whenever no BUG_ON stops it, whether it returns to what was interrupted or ends in its dump.
  pub exc_handler-ExitOk :
      (rom_ok : (vm : Vm hw D) → VmOk hw DevOk vm → IfDone (ResultOk hw DevOk) (rom_call vm))
      (dar dsisr : ℕ) (w : World hw rom_call time_handle)
      → VmOk hw DevOk w.vm
      → IfDone ExitOk (exc_handler hw rom_call time_handle dar dsisr w)
  unfolding exc_handler after_guest
  exc_handler-ExitOk rom_ok dar dsisr w ok =
      elim (Bool-cases (bit_and w.vm.frame.hsrr1 msr_ri == 0)) [
        | inl e ↦ rw e ok
        | inr e ↦ rw e (
            IfDone->>= (ResultOk hw DevOk) ExitOk (guest_exc_try hw rom_call dar w.vm)
              (after_guest hw rom_call time_handle dar dsisr w)
              (guest_exc_try-VmOk hw DevOk rom_call dar rom_ok w.vm ok) after)
      ]
    where
      after :
          (r : Err × Vm hw D)
          → ResultOk hw DevOk r
          → IfDone ExitOk (after_guest hw rom_call time_handle dar dsisr w r)
      after (err_none, vm) o = o
      after (_, vm) o = hv_exc-ExitOk dar dsisr (record w { vm = vm }) o
