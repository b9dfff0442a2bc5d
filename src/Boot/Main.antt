-- ===== src/Boot/Main.antt =====
-- `c_main` of main.c from the start to the guest's first instruction: the memory, the processor,
-- the guest. Messages have no effect on the state.
pub mod Laws
pub mod Pages
use prephv.Base.{
  ℕ, ◌*◌, ◌-◌, ◌^◌, Bool, Option, none, some, List, Run, done, ◌>>=◌, ◌>>◌, bug_on, ◌!=◌,
  if◌then◌else◌,
}
use prephv.Boot.{is_error, start_guest}
use prephv.Boot.Cpu.{Cpu, opal_ms_of, cpu_init}
use prephv.Exc.Flags.{Processor, exc_disable_ee, exc_restore_ee, exc_enable_ee}
use prephv.Exc.Init.{Registers, exc_init}
use prephv.Mem.{Mem}
use prephv.Mem.Init.{Places, mem_init}
use prephv.Mmu.Map.{mmu_enable}
use prephv.Mmu.Slb.{Err, slb_init}
use prephv.Mmu.Types.{ra_2_ptr}
use prephv.Rom.Call.{RomVm}
use prephv.Rom.Library.{Platform, Fdt, Found, node, error, literal}

-- What the firmware and the allocator answer while the machine starts: whether HILE is refused, the
-- page of the stack for unrecoverable exceptions, the page table, the exception vectors, the readings
-- of the timebase, and the results of `guest_init`'s allocation.
pub record Start : Type 0 where
  pub places : Places
  pub no_hile : Bool
  pub kpcr : ℕ
  pub page : ℕ
  pub exc_base : ℕ
  pub exc_end : ℕ
  pub htab : ℕ
  pub clock : ℕ → ℕ
  pub readings : List ℕ
  pub has_mem : Bool
  pub ram : ℕ

pub record Machine (p : Platform) : Type 0 where
  pub memory : Mem
  pub registers : Registers
  pub cpu : Cpu
  pub vm : RomVm p

module _ (power : Processor) (fdt : Fdt) (at : Start) where
  -- `time_enqueue` has the external interrupts off while it queues the timer.
  unfoldable pub msr_of_heartbeat : ℕ → ℕ → ℕ
  msr_of_heartbeat opal_ms msr =
      let (flags, off) = exc_disable_ee power msr in
      if opal_ms != 0 then exc_restore_ee power flags off else msr

  -- The registers behind `cpu_init`, whose `exc_init`, `mmu_enable`, `time_enqueue` and
  -- `exc_enable_ee` write them, in this order, if there is a processor.
  unfoldable pub registers_of : Found → Registers → Registers
  unfolding msr_of_heartbeat
  registers_of (error e) r = r
  registers_of (node n) r =
      let r' = exc_init power at.no_hile at.kpcr at.page at.exc_base at.exc_end r in
      let msr = power.mtmsr r'.msr (mmu_enable r'.msr) in
      let opal_ms =
        opal_ms_of fdt (fdt.fdt_node_check_compatible (2 ^ 32 - 1) (literal "ibm,opal-v3")) in
      record r' { msr = exc_enable_ee power (msr_of_heartbeat opal_ms msr) }

module _ (p : Platform) (power : Processor) (fdt : Fdt) (at : Start) where
  open p use {hw}

  -- `mmu_init` sets up the segments too.
  slb_of : Found → hw.Slb → hw.Slb
  slb_of (error e) s = s
  slb_of (node n) s = slb_init hw s

  -- Behind `cpu_init`: the guest, and the interrupts off for the way out.
  unfoldable pub enter_guest : Mem → Registers → Option Cpu → RomVm p → Run (Option (Machine p))
  enter_guest m r none vm = done none
  enter_guest m r (some c) vm = do
    vm' ← start_guest p at.has_mem at.ram r.msr fdt (record vm { mmu = c.mmu })
    done (
        some (record {
          memory = m;
          registers = record r { msr = (exc_disable_ee power r.msr).1 };
          cpu = c;
          vm = vm';
        }))

  -- Behind `mem_init`.
  unfoldable pub after_mem_init : Option (Err × Mem) → Machine p → Run (Option (Machine p))
  unfolding registers_of enter_guest slb_of
  after_mem_init none s = done none
  after_mem_init (some (err, m)) s = do
    bug_on (is_error err)
    c ← cpu_init fdt at.clock at.htab at.places.start at.places.end at.readings s.cpu
    let n = fdt.fdt_node_offset_by_dtype (2 ^ 32 - 1) (literal "cpu")
    enter_guest m (registers_of power fdt at n s.registers) c
        (record s.vm { slb = slb_of n s.vm.slb })

  -- `fuel` is that of the loop over the memory nodes, and `none` says that it or the readings of
  -- the timebase have run out.
  unfoldable pub c_main : ℕ → ℕ → Machine p → Run (Option (Machine p))
  unfolding after_mem_init
  c_main fuel fdt_ra s = do
    tree ← ra_2_ptr fdt_ra
    r ← mem_init p.malloc fdt fuel (record at.places { tree = tree }) s.memory
    after_mem_init r s
