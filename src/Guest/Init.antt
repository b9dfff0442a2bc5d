-- ===== src/Guest/Init.antt =====
-- `guest_init` of guest.c: the guest as it is before its first instruction.
use prephv.Base.{
  ℕ, zero, suc, ◌+◌, ◌%◌, Bool, false, not, Option, none, some, List, [], ◌∷◌, Run, done, ◌>>=◌,
  ◌>>◌, bug_on, ltb, ◌!=◌, if◌then◌else◌, bit_or, mb, replicate,
}
use prephv.Ppc.{msr_ir, msr_dr, pp_rwrw, sr_count}
use prephv.Guest.State.{Guest}
use prephv.Guest.Vm.{guest_update_msr}
use prephv.Mmu.Types.{Mmu, page_4k, page_16m, ptr_2_ra}
use prephv.Mmu.Address.{layout_vm_start}
use prephv.Mmu.Slb.{SlbUnit, Err, err_none, err_no_mem, mmu_guest_update}
use prephv.Mmu.Map.{mmu_map_range}

-- The loop that gives each segment register its index; SR_VSID_SHIFT is 0.
unfoldable pub init_srs : ℕ → ℕ → List ℕ
init_srs zero i = []
init_srs (suc left) i = i ∷ init_srs left (i + 1)

-- The fields that `memset` and the assignments behind it leave.
unfoldable pub fresh_guest : ℕ → ℕ → Guest
unfolding init_srs
fresh_guest ram ram_size = record {
  sdr1 = 0;
  pvr = 0x00010001;
  msr = 0;
  srr0 = 0;
  srr1 = 0;
  ibat = replicate 8 0;
  dbat = replicate 8 0;
  sr = init_srs sr_count 0;
  hid0 = 0;
  ram_size = ram_size;
  ram = ram;
  rom = record {
    cif_trampoline = 0;
    claim_arena_start = 0;
    claim_arena_ptr = 0;
    claim_arena_end = 0;
    stack_start = 0;
    stack_end = 0;
  };
  sprg = replicate 4 0;
}

module _ (hw : SlbUnit) where
  -- `has_mem` tells whether `mem_malloc` has memory for the guest, and `ram` is what
  -- `mem_memalign` returns for its RAM. The RAM itself, which is cleared, is not in this state.
  unfoldable pub guest_init : Bool → ℕ → ℕ → hw.Slb → Mmu → Run (Err × Option Guest × hw.Slb × Mmu)
  unfolding fresh_guest
  guest_init has_mem ram ram_size s m = if not has_mem then done (err_no_mem, none, s, m) else (do
    bug_on (ltb ram_size (mb 32))
    bug_on (ram_size % mb 16 != 0)
    let g = fresh_guest ram ram_size
    let s₁ = mmu_guest_update hw false s
    ra ← ptr_2_ra ram
    m₁ ← mmu_map_range (some g) layout_vm_start (layout_vm_start + ram_size) ra pp_rwrw page_16m m
    (g', s₂) ← guest_update_msr hw (bit_or msr_ir msr_dr) (some g) s₁
    m₂ ← mmu_map_range (some g') layout_vm_start (layout_vm_start + ram_size) ra pp_rwrw page_4k m₁
    done (err_none, some g', s₂, m₂))
