-- ===== src/Boot/Cpu/Laws.antt =====
-- What `cpu_init` of main.c leaves in the queue of timers.
use prephv.Base.{
  ℕ, ◌-◌, ◌*◌, ◌^◌, ◌≡◌, refl, Option, none, some, List, [], IfDone, IfDone->>=, IfDone-const,
}
use prephv.Mmu.Map.{mmu_init}
use prephv.Rom.Library.{Fdt, node, error, literal}
use prephv.Boot.Cpu.{Cpu, prop_or, cpu_of_node, cpu_of, cpu_init}

module _ (fdt : Fdt) (clock : ℕ → ℕ) (htab start end : ℕ) (readings : List ℕ) (c : Cpu) where
  -- No timer is queued, and the processor is as the node says, with the defaults.
  abbrev pub IsQuiet : ℕ → Option Cpu → Type 0
  IsQuiet n none = ⊥
  IsQuiet n (some c') =
      (c'.reqs ≡ [])
      × (c'.slb_size ≡ prop_or 32 (fdt.fdt_getprop n (literal "slb-size")))
      × (c'.tb_freq ≡ prop_or 512000000 (fdt.fdt_getprop n (literal "timebase-frequency")))

  -- If the tree has a processor, and the library returns an error for the node -1, which is what
  -- `fdt_node_check_compatible` is asked for, then `cpu_init`, whenever no BUG_ON stops it,
  -- returns with the processor's numbers set and with no timer queued, whatever heartbeat the
  -- tree asks for.
  pub cpu_init-IsQuiet :
      (n e : ℕ)
      → fdt.fdt_node_offset_by_dtype (2 ^ 32 - 1) (literal "cpu") ≡ node n
      → fdt.fdt_node_check_compatible (2 ^ 32 - 1) (literal "ibm,opal-v3") ≡ error e
      → IfDone (IsQuiet n) (cpu_init fdt clock htab start end readings c)
  unfolding cpu_init cpu_of cpu_of_node
  cpu_init-IsQuiet n e cpu none_such =
      let m = mmu_init htab start end (4 * 1024 * 1024 * 1024) in
      rw (cpu, none_such)
        (IfDone->>= (λ _. Unit {0}) (IsQuiet n) m _ (IfDone-const m tt) (λ r _. (refl, refl, refl)))
