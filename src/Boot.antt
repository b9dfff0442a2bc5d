-- ===== src/Boot.antt =====
-- The second half of `c_main` of main.c: the guest is made, its memory and its client interface
-- are set up, and it is entered.
pub mod Laws
pub mod Cpu
pub mod Main
use prephv.Base.{
  ℕ, ◌+◌, ◌-◌, ◌*◌, ◌^◌, ◌%◌, Bool, true, false, Option, none, some, List, Run, done, ◌>>=◌, ◌>>◌,
  bug_on, bit_or, bit_xor, ◌-64◌, mb, set, replicate, u64,
}
use prephv.Ppc.{msr_sf, msr_pr}
use prephv.Guest.State.{Guest, the_guest}
use prephv.Guest.Vm.{Frame, Vm}
use prephv.Guest.Init.{guest_init}
use prephv.Mmu.Types.{Mmu}
use prephv.Mmu.Address.{layout_vm_start}
use prephv.Mmu.Slb.{Err, err_none}
use prephv.Rom.Library.{Platform, Fdt}
use prephv.Rom.Call.{RomVm}
use prephv.Rom.Init.{veneer_base, rom_init}

-- `err != ERR_NONE`
abbrev pub is_error : Err → Bool
is_error err_none = false
is_error _ = true

-- STACKFRAMESIZE
abbrev pub stack_frame_size : ℕ
stack_frame_size = 256

-- `uframe`, at what `mfmsr` reads: all 0 but the stack, the entry of the client interface, the
-- veneer and the state register.
unfoldable pub uframe : ℕ → Guest → Frame
uframe mfmsr g = record {
  vec = 0;
  gpr =
      set (set (replicate 32 0) 1 (u64 (layout_vm_start + g.rom.stack_end) -64 stack_frame_size)) 5
        (u64 (layout_vm_start + g.rom.cif_trampoline));
  lr = 0;
  ctr = 0;
  xer = 0;
  cr = 0;
  hsrr0 = layout_vm_start + veneer_base;
  hsrr1 = bit_or (bit_xor mfmsr msr_sf) msr_pr;
}

module _ (p : Platform) where
  open p use {hw}

  -- `has_mem` and `ram` are those of `guest_init`, and the state is that before the guest is there.
  unfoldable pub start_guest : Bool → ℕ → ℕ → Fdt → RomVm p → Run (RomVm p)
  unfolding uframe
  start_guest has_mem ram mfmsr boot_fdt vm = do
    (err, guest, slb, mmu) ← guest_init hw has_mem ram (mb 32) vm.slb vm.mmu
    bug_on (is_error err)
    (err', vm') ← rom_init p boot_fdt (record vm { guest = guest; slb = slb; mmu = mmu })
    bug_on (is_error err')
    g ← the_guest vm'.guest
    done (record vm' { frame = uframe mfmsr g })
