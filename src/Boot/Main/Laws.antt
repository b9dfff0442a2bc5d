-- ===== src/Boot/Main/Laws.antt =====
-- The guest that `c_main` of main.c enters, and the state register that it enters it with.
use prephv.Base.{
  true, ℕ, ◌-◌, ◌^◌, ◌≡◌, ◌≢◌, refl, arith, Bool, Option, none, some, ◌!=◌, bit_or, bit_xor, mb,
  IfDone, IfDone->>=, IfDone-after, IfDone-bug_on, IfDone-both, if-cases, ◌∙◌,
}
use prephv.Base.Bits.At.{bit_at, or_bit, xor_bit}
use prephv.Boot.{is_error, uframe, start_guest}
use prephv.Boot.Cpu.{Cpu, opal_ms_of, cpu_init}
use prephv.Boot.Laws.{start_guest-RomOk}
use prephv.Boot.Main.{
  Start, Machine, msr_of_heartbeat, registers_of, enter_guest, slb_of, after_mem_init, c_main,
}
use prephv.Exc.Flags.{
  Processor, IsPower, exc_disable_ee, exc_restore_ee, enable_ee_lem, restore-disable,
}
use prephv.Exc.Init.{Registers, exc_init}
use prephv.Guest.State.{the_guest}
use prephv.Guest.Init.{guest_init}
use prephv.Boot.Cpu.Laws.{IsQuiet, cpu_init-IsQuiet}
use prephv.Mem.Init.Laws.{nodes_end, first_node}
use prephv.Mem.Init.Ends.{HasEnded, mem_init-HasEnded}
use prephv.Mem.{Mem}
use prephv.Mem.Init.{mem_init}
use prephv.Mmu.Map.{mmu_enable}
use prephv.Mmu.Slb.{Err}
use prephv.Mmu.Types.{ra_2_ptr}
use prephv.Ppc.{msr_sf, msr_pr, msr_ir, msr_dr, msr_ri}
use prephv.Rom.Call.{RomVm}
use prephv.Rom.Call.Laws.{RomOk}
use prephv.Rom.Init.{rom_init}
use prephv.Rom.Library.{Platform, Fdt, node, error, literal}

module _ (p : Platform) where
  open p use {hw}

  start_guest-hsrr1 :
      (has_mem : Bool) (ram mfmsr : ℕ) (boot_fdt : Fdt) (vm : RomVm p)
      → IfDone
          (λ vm'. vm'.frame.hsrr1 ≡ bit_or (bit_xor mfmsr msr_sf) msr_pr)
          (start_guest p has_mem ram mfmsr boot_fdt vm)
  unfolding start_guest uframe
  start_guest-hsrr1 has_mem ram mfmsr boot_fdt vm =
      let Q : RomVm p → Type 0 = λ vm'. vm'.frame.hsrr1 ≡ bit_or (bit_xor mfmsr msr_sf) msr_pr in
      IfDone-after Q (guest_init hw has_mem ram (mb 32) vm.slb vm.mmu) _ (λ (err, guest, slb, mmu).
        IfDone-bug_on Q (is_error err) _ (
          IfDone-after Q (rom_init p boot_fdt (record vm { guest = guest; slb = slb; mmu = mmu })) _
            (λ (err', vm').
              IfDone-bug_on Q (is_error err') _
                (IfDone-after Q (the_guest vm'.guest) _ (λ g. refl)))))

-- Bits of the guest's state register: recoverable, external interrupts on, problem state, 32-bit.
abbrev pub MsrOk : ℕ → Type 0
MsrOk msr = (bit_at 1 msr ≡ 1) × (bit_at 15 msr ≡ 1) × (bit_at 14 msr ≡ 1) × (bit_at 63 msr ≡ 0)

guest_msr :
    (msr : ℕ)
    → bit_at 1 msr ≡ 1
    → bit_at 15 msr ≡ 1
    → bit_at 63 msr ≡ 1
    → MsrOk (bit_or (bit_xor msr msr_sf) msr_pr)
guest_msr msr ri ee sf = (
  omega (arith, or_bit 1 (bit_xor msr msr_sf) msr_pr, xor_bit 1 msr msr_sf),
  omega (arith, or_bit 15 (bit_xor msr msr_sf) msr_pr, xor_bit 15 msr msr_sf),
  omega (arith, or_bit 14 (bit_xor msr msr_sf) msr_pr),
  omega (arith, or_bit 63 (bit_xor msr msr_sf) msr_pr, xor_bit 63 msr msr_sf),
)

module _ (power : Processor) (law : IsPower power) (fdt : Fdt) (at : Start) where
  heartbeat_kept :
      (opal_ms msr k : ℕ)
      → k ≢ 15
      → bit_at k (msr_of_heartbeat power fdt at opal_ms msr) ≡ bit_at k msr
  unfolding msr_of_heartbeat
  heartbeat_kept opal_ms msr k ne =
      let off = (exc_disable_ee power msr).1 in
      let is_off = (restore-disable power law msr 0 refl).0 in
      let (_, disabled, _, restored) = restore-disable power law msr off is_off in
      if-cases (λ m. bit_at k m ≡ bit_at k msr) (opal_ms != 0)
        (exc_restore_ee power (exc_disable_ee power msr).0 off) msr
        (λ _. restored k ne ∙ disabled k ne) (λ _. refl)

  registers_lem :
      (n : ℕ) (r : Registers)
      → let msr = (registers_of power fdt at (node n) r).msr in
        (bit_at 1 msr ≡ 1) × (bit_at 15 msr ≡ 1) × (bit_at 63 msr ≡ bit_at 63 r.msr)
  unfolding registers_of exc_init mmu_enable
  registers_lem n r =
      let d = power.mtmsrd r.msr msr_ri in
      let m = power.mtmsr d (mmu_enable d) in
      let ms =
        opal_ms_of fdt (fdt.fdt_node_check_compatible (2 ^ 32 - 1) (literal "ibm,opal-v3")) in
      let h = msr_of_heartbeat power fdt at ms m in
      let (on, others) = enable_ee_lem power law h in
      let ri : bit_at 1 d ≡ 1 = law.mtmsrd_ri r.msr msr_ri ∙ refl in
      let kept_ri : bit_at 1 (mmu_enable d) ≡ 1 =
        omega (arith, or_bit 1 (bit_or d msr_ir) msr_dr, or_bit 1 d msr_ir) in
      (
        others 1 (omega arith)
            ∙ heartbeat_kept ms m 1 (omega arith)
            ∙ law.mtmsr_ri d (mmu_enable d)
            ∙ kept_ri,
        on,
        others 63 (omega arith)
            ∙ heartbeat_kept ms m 63 (omega arith)
            ∙ law.mtmsr_high d (mmu_enable d) 63 (omega arith)
            ∙ law.mtmsrd_kept r.msr msr_ri 63 (omega arith) (omega arith),
      )

module _ (p : Platform) (power : Processor) (law : IsPower power) (fdt : Fdt) (at : Start) where
  -- What holds when the guest is entered.
  abbrev pub Entered : Option (Machine p) → Type 0
  Entered none = ⊥
  Entered (some s) = RomOk p s.vm × MsrOk s.vm.frame.hsrr1 × (bit_at 15 s.registers.msr ≡ 0)

  enter_guest-Entered :
      (m : Mem) (r : Registers) (c : Cpu) (vm : RomVm p)
      → bit_at 1 r.msr ≡ 1
      → bit_at 15 r.msr ≡ 1
      → bit_at 63 r.msr ≡ 1
      → IfDone Entered (enter_guest p power fdt at m r (some c) vm)
  unfolding enter_guest
  enter_guest-Entered m r c vm ri ee sf =
      let on = record vm { mmu = c.mmu } in
      let started = start_guest p at.has_mem at.ram r.msr fdt on in
      let P : RomVm p → Type 0 = λ vm'. vm'.frame.hsrr1 ≡ bit_or (bit_xor r.msr msr_sf) msr_pr in
      IfDone->>= (λ vm'. RomOk p vm' × P vm') Entered started _
        (IfDone-both (RomOk p) P started (start_guest-RomOk p at.has_mem at.ram r.msr fdt on)
          (start_guest-hsrr1 p at.has_mem at.ram r.msr fdt on))
        (λ vm' (ok, e).
          (ok, rw e (guest_msr r.msr ri ee sf), (restore-disable power law r.msr 0 refl).0))

  after_mem_init-Entered :
      (n e : ℕ) (r : Option (Err × Mem)) (s : Machine p)
      → HasEnded r
      → fdt.fdt_node_offset_by_dtype (2 ^ 32 - 1) (literal "cpu") ≡ node n
      → fdt.fdt_node_check_compatible (2 ^ 32 - 1) (literal "ibm,opal-v3") ≡ error e
      → bit_at 63 s.registers.msr ≡ 1
      → IfDone Entered (after_mem_init p power fdt at r s)
  unfolding after_mem_init
  after_mem_init-Entered n e none s ended cpu compatible sf = absurd ended
  after_mem_init-Entered n e (some (err, m)) s ended cpu compatible sf =
      let (ri, ee, kept) = registers_lem power law fdt at n s.registers in
      IfDone-bug_on Entered (is_error err) _ (
        IfDone->>= (IsQuiet fdt at.clock at.htab at.places.start at.places.end at.readings s.cpu n)
          Entered (cpu_init fdt at.clock at.htab at.places.start at.places.end at.readings s.cpu) _
          (cpu_init-IsQuiet fdt at.clock at.htab at.places.start at.places.end at.readings s.cpu n e
            cpu compatible)
          (λ c quiet. entered n c m s quiet cpu ri ee (kept ∙ sf)))
    where
      entered :
          (n : ℕ) (c : Option Cpu) (m : Mem) (s : Machine p)
          → IsQuiet fdt at.clock at.htab at.places.start at.places.end at.readings s.cpu n c
          → fdt.fdt_node_offset_by_dtype (2 ^ 32 - 1) (literal "cpu") ≡ node n
          → let r = registers_of power fdt at (node n) s.registers in
            bit_at 1 r.msr ≡ 1
            → bit_at 15 r.msr ≡ 1
            → bit_at 63 r.msr ≡ 1
            → let f = fdt.fdt_node_offset_by_dtype (2 ^ 32 - 1) (literal "cpu") in
              IfDone Entered (
                enter_guest p power fdt at m
                  (registers_of power fdt at f s.registers)
                  c
                  (record s.vm { slb = slb_of p power fdt at f s.vm.slb }))
      entered n none m s quiet cpu ri ee sf = absurd quiet
      entered n (some c) m s quiet cpu ri ee sf = rw cpu (
          enter_guest-Entered m (registers_of power fdt at (node n) s.registers) c
            (record s.vm { slb = slb_of p power fdt at (node n) s.vm.slb }) ri ee sf)

  -- With a processor in the firmware's tree, with fuel for its memory nodes, with an error for the
  -- node -1, which is what libfdt is asked about, and entered in 64-bit mode by the firmware:
  -- `c_main`, whenever no BUG_ON or FATAL stops it, comes as far as the guest, and enters it with the invariant that every exception keeps (there
  -- is a guest, its arrays have their lengths, its registers 32 bits, IR and DR agree, the available ranges are ordered
  -- whole pages), with external interrupts off on the way, and with a state register from which
  -- every exception is recoverable and handled: RI, EE and PR are set and SF is clear.
  pub c_main-Entered :
      (fuel fdt_ra n e : ℕ) (s : Machine p)
      → nodes_end fdt fuel (first_node fdt) ≡ true
      → fdt.fdt_node_offset_by_dtype (2 ^ 32 - 1) (literal "cpu") ≡ node n
      → fdt.fdt_node_check_compatible (2 ^ 32 - 1) (literal "ibm,opal-v3") ≡ error e
      → bit_at 63 s.registers.msr ≡ 1
      → IfDone Entered (c_main p power fdt at fuel fdt_ra s)
  unfolding c_main
  c_main-Entered fuel fdt_ra n e s ends cpu compatible sf =
      IfDone-after Entered (ra_2_ptr fdt_ra) _ (λ tree.
        IfDone->>= HasEnded Entered
          (mem_init p.malloc fdt fuel (record at.places { tree = tree }) s.memory) _
          (mem_init-HasEnded fdt p.malloc (record at.places { tree = tree }) s.memory fuel ends)
          (λ r ended. after_mem_init-Entered n e r s ended cpu compatible sf))
