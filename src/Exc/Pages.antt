-- ===== src/Exc/Pages.antt =====
-- guest.c and rom.c together: what an exception of the guest does to the hypervisor's own pages.
use prephv.Base.{ℕ, ◌+◌, ◌^◌, ◌≤◌, ◌<◌, ◌≡◌, Run, IfDone, ◌⊎◌}
use prephv.Ppc.{ail_aspace_start, ail_aspace_end}
use prephv.Guest.State.{Guest}
use prephv.Guest.Vm.{Vm}
use prephv.Mmu.Types.{Mmu}
use prephv.Mmu.Slb.{SlbUnit, Err}
use prephv.Mmu.Map.Keeps.{KeepsHigh}

module _ {D : Type 0} (hw : SlbUnit) (vm : Vm hw D) where
  abbrev Kept : Vm hw D → Type 0
  Kept vm' = KeepsHigh vm.mmu vm'.mmu

  abbrev After : Err × Vm hw D → Type 0
  After r = Kept r.1

module _ {D : Type 0} (hw : SlbUnit) (vm : Vm hw D) where
  module _ (rom : Vm hw D → Run (Err × Vm hw D)) (dar : ℕ)
      (calls : (s : hw.Slb) → IfDone (After hw vm) (rom (record vm { slb = s }))) where
    abbrev Faulted : Err × Vm hw D → Type 0
    Faulted r = (e : Err) × (s : hw.Slb) × (r ≡ (e, record vm { slb = s }))

-- The addresses that `mmu_init` maps for the hypervisor: its first terabyte, and the vectors' space.
abbrev pub IsOwn : ℕ → Type 0
IsOwn ea =
    ((2 ^ 63 ≤ ea) × (ea < 2 ^ 63 + 2 ^ 40)) ⊎ ((ail_aspace_start ≤ ea) × (ea < ail_aspace_end))
