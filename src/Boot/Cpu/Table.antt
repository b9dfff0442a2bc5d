-- ===== src/Boot/Cpu/Table.antt =====
-- `cpu_init` of main.c leaves the page table that `mmu_init` has made.
use prephv.Base.{
  ℕ, ◌-◌, ◌*◌, ◌^◌, ◌≡◌, Option, none, some, List, [], ◌∷◌, ◌!=◌, IfDone, IfDone->>=, IfDone-after,
  IfDone-if,
}
use prephv.Mmu.Types.{Mmu}
use prephv.Mmu.Map.{mmu_init}
use prephv.Rom.Library.{Fdt, node, literal}
use prephv.Time.{time_init}
use prephv.Time.Handle.{Handled, time_enqueue}
use prephv.Boot.Cpu.{
  Cpu, prop_or, opal_ms_of, opal_when, opal_timer_cb, with_queue, start_heartbeat, cpu_of_node,
  cpu_of, cpu_init,
}

-- What holds of the table, if the timebase has not run out.
abbrev pub TableHas : (Mmu → Type 0) → Option Cpu → Type 0
TableHas P none = Unit
TableHas P (some c) = P c.mmu

module _ (fdt : Fdt) (clock : ℕ → ℕ) (P : Mmu → Type 0) where
  queued : (c : Cpu) (r : Option (Handled × ℕ)) → P c.mmu → TableHas P (with_queue fdt clock c r)
  unfolding with_queue
  queued c none h = tt
  queued c (some r) h = h

  heartbeat :
      (ms : ℕ) (readings : List ℕ) (c : Cpu)
      → P c.mmu
      → IfDone (TableHas P) (start_heartbeat fdt clock ms readings c)
  unfolding start_heartbeat
  heartbeat ms [] c h = tt
  heartbeat ms (now ∷ readings) c h =
      IfDone-after (TableHas P)
        (time_enqueue (opal_timer_cb c.tb_freq ms clock)
          (record { id = 1; when = opal_when c.tb_freq ms now }) readings c.reqs)
        _ (λ r. queued c r h)

  pub cpu_init-table :
      (htab start end : ℕ) (readings : List ℕ) (c : Cpu) (n : ℕ)
      → fdt.fdt_node_offset_by_dtype (2 ^ 32 - 1) (literal "cpu") ≡ node n
      → IfDone (λ r. P r.0) (mmu_init htab start end (4 * 1024 * 1024 * 1024))
      → IfDone (TableHas P) (cpu_init fdt clock htab start end readings c)
  unfolding cpu_init cpu_of cpu_of_node
  cpu_init-table htab start end readings c n cpu made =
      let opal_ms =
        opal_ms_of fdt (fdt.fdt_node_check_compatible (2 ^ 32 - 1) (literal "ibm,opal-v3")) in
      rw cpu (
        IfDone->>= (λ r. P r.0) (TableHas P) (mmu_init htab start end (4 * 1024 * 1024 * 1024)) _
          made
          (λ (m, sdr1) h.
            let c' = record c {
              slb_size = prop_or 32 (fdt.fdt_getprop n (literal "slb-size"));
              tb_freq = prop_or 512000000 (fdt.fdt_getprop n (literal "timebase-frequency"));
              mmu = m;
              sdr1 = sdr1;
              reqs = time_init;
            } in
            IfDone-if (TableHas P) (opal_ms != 0) _ _ (heartbeat opal_ms readings c' h) h))
