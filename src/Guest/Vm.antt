-- ===== src/Guest/Vm.antt =====
-- The `eframe_t` of include/exc.h, what the hypervisor keeps for a guest that has trapped, and
-- `guest_update_msr` of guest.c.
use prephv.Base.{
  ℕ, Bool, true, false, Option, some, List, Run, done, ◌>>=◌, not, u32, get_or, set, if◌then◌else◌,
}
use prephv.Guest.State.{Guest, the_guest, guest_is_mmu_off}
use prephv.Guest.Memory.{Memory}
use prephv.Mmu.Types.{Mmu}
use prephv.Mmu.Slb.{SlbUnit, mmu_guest_update}

-- `r0` to `r31` stand in a row, and the source indexes them as the array `R`.
pub record Frame : Type 0 where
  pub vec : ℕ
  pub gpr : List ℕ
  pub lr : ℕ
  pub ctr : ℕ
  pub xer : ℕ
  pub cr : ℕ
  pub hsrr0 : ℕ
  pub hsrr1 : ℕ

abbrev pub reg : Frame → ℕ → ℕ
reg f i = get_or f.gpr i 0

abbrev pub set_reg : Frame → ℕ → ℕ → Frame
set_reg f i v = record f { gpr = set f.gpr i v }

-- `rtc0` is the static of guest.c, `mmu` the state of mmu.c and `dev` that of the parts that the
-- client interface of rom.c reaches. `mem` is the memory by the addresses that the guest and the
-- client interface write it at; the statics and the page table stand apart from it. They are what
-- the assignments of the source make of them as long as no such write comes to where they lie, from
-- 2 ^ 34 on (Exc/Above); what needs that has it as a hypothesis, or says so.
pub record Vm (hw : SlbUnit) (D : Type 0) : Type 0 where
  pub guest : Option Guest
  pub frame : Frame
  pub slb : hw.Slb
  pub mem : Memory
  pub rtc0 : ℕ
  pub mmu : Mmu
  pub dev : D

abbrev pub differ : Bool → Bool → Bool
differ true b = not b
differ false b = b

module _ (hw : SlbUnit) where
  unfoldable pub guest_update_msr : ℕ → Option Guest → hw.Slb → Run (Guest × hw.Slb)
  guest_update_msr new guest s = do
    was ← guest_is_mmu_off guest
    g ← the_guest guest
    let g' = record g { msr = u32 new }
    off ← guest_is_mmu_off (some g')
    done (g', if differ was off then mmu_guest_update hw (not off) s else s)
