-- ===== src/Boot/Cpu.antt =====
-- `cpu_init` of main.c: what the tree says of the processor, the page table, and the timer of the
-- firmware's heartbeat. `exc_init` and `exc_enable_ee`, which only change registers of the
-- processor, are left out.
pub mod Laws
pub mod Table
use prephv.Base.{
  ℕ, ◌+◌, ◌*◌, ◌-◌, ◌%◌, ◌^◌, Option, none, some, List, [], ◌∷◌, Run, done, ◌>>=◌, ◌!=◌,
  if◌then◌else◌, u64,
}
use prephv.Mem.Init.{fdt32}
use prephv.Mmu.Types.{Mmu}
use prephv.Mmu.Map.{mmu_init}
use prephv.Rom.Library.{Fdt, Found, node, error, literal}
use prephv.Time.{Req, time_init, ms_to_tb}
use prephv.Time.Handle.{Handled, Callback, time_enqueue}

-- The two fields of `kpcr_t` that are set here, the table and the queue with the decrementer.
pub record Cpu : Type 0 where
  pub slb_size : ℕ
  pub tb_freq : ℕ
  pub mmu : Mmu
  pub sdr1 : ℕ
  pub reqs : List Req
  pub dec : ℕ

-- The number in a property of four bytes, or what is assumed without it.
abbrev pub prop_or : ℕ → Option (List ℕ) → ℕ
prop_or assumed none = assumed
prop_or assumed (some prop) = fdt32 prop 0

-- `opal_ms`, at what `fdt_node_check_compatible` returns
abbrev pub opal_ms_of : Fdt → Found → ℕ
opal_ms_of fdt (node n) = prop_or 0 (fdt.fdt_getprop n (literal "ibm,heartbeat-ms"))
opal_ms_of fdt (error e) = 0

-- The time that the callback gives its timer, at what `mftb` reads there, and `time_prep_ms`
unfoldable pub opal_when : ℕ → ℕ → ℕ → ℕ
opal_when tb_freq ms mftb = u64 (ms_to_tb tb_freq ms + mftb)

-- `clock` is what `mftb` reads in a callback that the loop of `time_handle` calls at a reading.
abbrev pub opal_timer_cb : ℕ → ℕ → (ℕ → ℕ) → Callback
opal_timer_cb tb_freq ms clock t now = some (opal_when tb_freq ms (clock now))

module _ (fdt : Fdt) (clock : ℕ → ℕ) where
  with_queue : Cpu → Option (Handled × ℕ) → Option Cpu
  with_queue c none = none
  with_queue c (some (h, dec)) = some (record c { reqs = h.reqs; dec = dec })

  -- The address of the timer is taken to be 1.
  unfoldable pub start_heartbeat : ℕ → List ℕ → Cpu → Run (Option Cpu)
  unfolding opal_when with_queue
  start_heartbeat ms [] c = done none
  start_heartbeat ms (now ∷ readings) c = do
    let t : Req = record { id = 1; when = opal_when c.tb_freq ms now }
    r ← time_enqueue (opal_timer_cb c.tb_freq ms clock) t readings c.reqs
    done (with_queue c r)

  -- `htab`, `start` and `end` are those of `mmu_init`, for 4 GB of memory.
  unfoldable pub cpu_of_node : ℕ → ℕ → ℕ → List ℕ → Cpu → ℕ → Run (Option Cpu)
  unfolding start_heartbeat
  cpu_of_node htab start end readings c n = do
    let slb_size = prop_or 32 (fdt.fdt_getprop n (literal "slb-size"))
    let tb_freq = prop_or 512000000 (fdt.fdt_getprop n (literal "timebase-frequency"))
    let opal_ms =
        opal_ms_of fdt (fdt.fdt_node_check_compatible (2 ^ 32 - 1) (literal "ibm,opal-v3"))
    (m, sdr1) ← mmu_init htab start end (4 * 1024 * 1024 * 1024)
    let c' = record c {
      slb_size = slb_size;
      tb_freq = tb_freq;
      mmu = m;
      sdr1 = sdr1;
      reqs = time_init;
    }
    (if opal_ms != 0 then start_heartbeat opal_ms readings c' else done (some c'))

  cpu_of : ℕ → ℕ → ℕ → List ℕ → Cpu → Found → Run (Option Cpu)
  unfolding cpu_of_node
  cpu_of htab start end readings c (node n) = cpu_of_node htab start end readings c n
  cpu_of htab start end readings c (error e) = done (some c)

  -- Without a node for a processor nothing is set up.
  unfoldable pub cpu_init : ℕ → ℕ → ℕ → List ℕ → Cpu → Run (Option Cpu)
  unfolding cpu_of
  cpu_init htab start end readings c =
      cpu_of htab start end readings c (fdt.fdt_node_offset_by_dtype (2 ^ 32 - 1) (literal "cpu"))
