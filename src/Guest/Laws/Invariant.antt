-- ===== src/Guest/Laws/Invariant.antt =====
-- The invariant of the guest through everything that `guest_exc_try` does.
use prephv.Base.{
  ℕ, ◌^◌, ◌<◌, ltb, if-cases, ◌-◌, ◌≡◌, refl, arith, Run, done, ◌>>=◌, Option, none, some, u32,
  ◌==◌, if◌then◌else◌, IfDone, IfDone->>=, IfDone-const, Bool-cases, inl, inr, length-set, set, leb,
  ◌!=◌, bit_and, ◌||◌,
}
use prephv.Guest.State.{Guest, the_guest, ir_bit, dr_bit}
use prephv.Guest.Vm.{Vm, guest_update_msr}
use prephv.Guest.Memory.{load32}
use prephv.Guest.Decode.{
  Insn, mfsr, mfmsr, mtmsr, mtspr, mfspr, rfi, op31, unknown, decode, spr_field,
}
use prephv.Guest.Spr.{Spr, srr0, bat, sprg, mtspr_switch, spr_of, write_bat, sdr1, logged}
use prephv.Guest.Emulate.{do_mfsr, do_mfmsr, do_mtmsr, do_mtspr, do_mfspr, do_rfi, do_op31}
use prephv.Guest.Trap.{emulate, try_segment, try_other, after_segment, guest_exc_try}
use prephv.Guest.Laws.Registers.{HasArrays, logged_done}
use prephv.Guest.Laws.Width.{InWidth, set-IsWords}
use prephv.Guest.Laws.Msr.{IsConsistent, guest_update_msr_lem}
use prephv.Mmu.Slb.{SlbUnit, Err, err_none, err_unsupported, mmu_guest_fault_seg}
use prephv.Mmu.Address.{layout_vm_end}
use prephv.Ppc.{msr_sf, msr_pr, exc_dseg, exc_iseg, exc_prog, exc_hea, exc_sc}

-- The arrays of the guest have their lengths, IR and DR agree, and its registers hold 32 bits.
pub record IsValid (g : Guest) : Type 0 where
  pub arrays : HasArrays g
  pub consistent : IsConsistent g.msr
  pub width : InWidth g

abbrev pub GuestOk : Option Guest → Type 0
GuestOk none = ⊥
GuestOk (some g) = IsValid g

pub some_guest : (o : Option Guest) → GuestOk o → (g : Guest) × (o ≡ some g) × IsValid g
some_guest none h = absurd h
some_guest (some g) h = (g, refl, h)

module _ (hw : SlbUnit) where
  pub update-IsValid :
      (new : ℕ) (g : Guest) (s : hw.Slb)
      → IsValid g
      → IfDone (λ r. IsValid r.0) (guest_update_msr hw new (some g) s)
  update-IsValid new g s v =
      rw (guest_update_msr_lem hw new g s v.consistent)
        (elim (Bool-cases (ir_bit (u32 new) == dr_bit (u32 new))) [
          | inl same ↦ rw same (ground arith)
          | inr diff ↦ rw diff tt
        ])

  pub update-ram :
      (new : ℕ) (g : Guest) (s : hw.Slb)
      → IsValid g
      → IfDone (λ r. r.0.ram_size ≡ g.ram_size) (guest_update_msr hw new (some g) s)
  update-ram new g s v =
      rw (guest_update_msr_lem hw new g s v.consistent)
        (elim (Bool-cases (ir_bit (u32 new) == dr_bit (u32 new))) [
          | inl same ↦ rw same refl
          | inr diff ↦ rw diff tt
        ])

  write_bat-IsValid : (g : Guest) (i v : ℕ) → v < 2 ^ 32 → IsValid g → IsValid (write_bat g i v)
  unfolding write_bat
  write_bat-IsValid g i v lt ok =
      let ibats = set-IsWords g.ibat i v ok.width.ibat_fits lt in
      let dbats = set-IsWords g.dbat (i - 8) v ok.width.dbat_fits lt in
      if-cases IsValid (ltb i 8) (record g { ibat = set g.ibat i v })
        (record g { dbat = set g.dbat (i - 8) v }) (λ _. ground (arith, length-set g.ibat i v))
        (λ _. ground (arith, length-set g.dbat (i - 8) v))

  logged-IsValid : (g : Guest) → IsValid g → IfDone IsValid (logged g)
  logged-IsValid g ok = rw (logged_done g ok.consistent) ok

  mtspr-IsValid : (g : Guest) (s : Spr) (v : ℕ) → IsValid g → IfDone IsValid (mtspr_switch g s v)
  unfolding mtspr_switch
  mtspr-IsValid g srr0 v ok = ground arith
  mtspr-IsValid g (bat i) v ok = logged-IsValid _ (write_bat-IsValid g i (u32 v) (omega arith) ok)
  mtspr-IsValid g (sprg i) v ok =
      let sprgs = set-IsWords g.sprg i (u32 v) ok.width.sprg_fits (omega arith) in
      logged-IsValid (record g { sprg = set g.sprg i (u32 v) })
        (ground (arith, length-set g.sprg i (u32 v)))
  mtspr-IsValid g sdr1 v ok = logged-IsValid (record g { sdr1 = u32 v }) (ground arith)
  mtspr-IsValid g _ v ok = ground arith

-- `DevOk` is what is to hold of the parts that the client interface reaches.
module _ {D : Type 0} (hw : SlbUnit) (DevOk : D → Type 0) where
  abbrev pub VmOk : Vm hw D → Type 0
  VmOk vm = GuestOk vm.guest × DevOk vm.dev

  -- What every step leaves behind.
  abbrev pub ResultOk : Err × Vm hw D → Type 0
  ResultOk r = VmOk r.1

  module _ (g : Guest) (vm : Vm hw D) (is : vm.guest ≡ some g) (ok : IsValid g)
      (dev : DevOk vm.dev) where
    mtmsr-VmOk : (i : ℕ) → IfDone VmOk (do_mtmsr hw i vm)
    unfolding do_mtmsr
    mtmsr-VmOk i =
        rw is (
          IfDone->>= (λ r. IsValid r.0) VmOk _ _ (update-IsValid hw _ g vm.slb ok)
            (λ r v. (v, dev)))

    mtspr-VmOk : (i : ℕ) → IfDone VmOk (do_mtspr hw i vm)
    unfolding do_mtspr the_guest
    mtspr-VmOk i = rw is (
        IfDone->>= IsValid VmOk _ _ (mtspr-IsValid hw g (spr_of (spr_field i)) _ ok)
          (λ r v. (v, dev)))

    rfi-VmOk : IfDone VmOk (do_rfi hw vm)
    unfolding do_rfi the_guest
    rfi-VmOk = rw is (
        IfDone->>= (λ r. IsValid r.0) VmOk _ _ (update-IsValid hw g.srr1 g vm.slb ok)
          (λ r v. (v, dev)))

    emulate-VmOk : (insn : Insn) (i : ℕ) → IfDone ResultOk (emulate hw insn i vm)
    unfolding emulate do_mfsr do_mfmsr do_mfspr do_op31 the_guest
    emulate-VmOk mfsr i = rw is (ok, dev)
    emulate-VmOk mfmsr i = rw is (ok, dev)
    emulate-VmOk mtmsr i = IfDone->>= VmOk ResultOk _ _ (mtmsr-VmOk i) (λ r v. v)
    emulate-VmOk mtspr i = IfDone->>= VmOk ResultOk _ _ (mtspr-VmOk i) (λ r v. v)
    emulate-VmOk mfspr i = rw is (ok, dev)
    emulate-VmOk rfi i = IfDone->>= VmOk ResultOk _ _ rfi-VmOk (λ r v. v)
    emulate-VmOk op31 i = rw is (ok, dev)
    emulate-VmOk unknown i = rw is (ok, dev)

  segment-VmOk : (ea : ℕ) (vm : Vm hw D) → VmOk vm → IfDone ResultOk (try_segment hw ea vm)
  unfolding try_segment
  segment-VmOk ea vm ok =
      let fault = mmu_guest_fault_seg hw vm.guest ea vm.slb in
      IfDone->>= (λ _. VmOk vm) ResultOk fault (λ r. done (r.0, record vm { slb = r.1 }))
        (IfDone-const fault ok) (λ r v. v)

  module _ (rom_call : Vm hw D → Run (Err × Vm hw D)) (dar : ℕ)
      (rom_ok : (vm : Vm hw D) → VmOk vm → IfDone ResultOk (rom_call vm)) where
    trap-VmOk :
        (vm : Vm hw D)
        → VmOk vm
        → IfDone ResultOk (
            if vm.frame.vec == exc_prog || vm.frame.vec == exc_hea
            then emulate hw
                (decode (load32 vm.mem vm.frame.hsrr0))
                (load32 vm.mem vm.frame.hsrr0)
                vm
            else if vm.frame.vec == exc_sc
            then rom_call vm
            else done (err_unsupported, vm))
    trap-VmOk vm ok = elim (Bool-cases (vm.frame.vec == exc_prog || vm.frame.vec == exc_hea)) [
      | inl e ↦ rw e (
          let (g, is, v) = some_guest vm.guest ok.0 in
          emulate-VmOk g vm is v ok.1 (decode (load32 vm.mem vm.frame.hsrr0))
            (load32 vm.mem vm.frame.hsrr0))
      | inr e ↦ rw e (elim (Bool-cases (vm.frame.vec == exc_sc)) [
        | inl sc ↦ rw sc (rom_ok vm ok)
        | inr ns ↦ rw ns ok
      ])
    ]

    other-VmOk : (vm : Vm hw D) → VmOk vm → IfDone ResultOk (try_other hw rom_call dar vm)
    unfolding try_other
    other-VmOk vm ok = elim (Bool-cases (bit_and vm.frame.hsrr1 msr_sf != 0)) [
      | inl e ↦ rw e ok
      | inr e ↦ rw e (elim (Bool-cases (bit_and vm.frame.hsrr1 msr_pr == 0)) [
        | inl b ↦ rw b tt
        | inr b ↦ rw b (trap-VmOk vm ok)
      ])
    ]

    after-VmOk :
        (r : Err × Vm hw D) → ResultOk r → IfDone ResultOk (after_segment hw rom_call dar r)
    unfolding after_segment
    after-VmOk (err_none, vm) ok = ok
    after-VmOk (_, vm) ok = other-VmOk vm ok

    segment_then_other :
        (ea : ℕ) (vm : Vm hw D)
        → VmOk vm
        → IfDone ResultOk (
            if leb layout_vm_end ea
            then done (err_unsupported, vm)
            else try_segment hw ea vm >>= after_segment hw rom_call dar)
    segment_then_other ea vm ok = elim (Bool-cases (leb layout_vm_end ea)) [
      | inl e ↦ rw e ok
      | inr e ↦ rw e (
          IfDone->>= ResultOk ResultOk (try_segment hw ea vm) (after_segment hw rom_call dar)
            (segment-VmOk ea vm ok) after-VmOk)
    ]

    -- If the client interface keeps the guest's invariant and an invariant of its own state, so
    -- does every exception: from a guest that is there, whose registers are all 32-bit numbers,
    -- whose arrays have their lengths and whose IR and DR agree, and with that state as it should
    -- be, `guest_exc_try` ends, whenever neither BUG_ON nor FATAL stops it, with such a guest and
    -- such a state.
    pub guest_exc_try-VmOk :
        (vm : Vm hw D) → VmOk vm → IfDone ResultOk (guest_exc_try hw rom_call dar vm)
    unfolding guest_exc_try
    guest_exc_try-VmOk vm ok = elim (Bool-cases (vm.frame.vec == exc_dseg)) [
      | inl e ↦ rw e (segment_then_other dar vm ok)
      | inr e ↦ rw e (elim (Bool-cases (vm.frame.vec == exc_iseg)) [
        | inl i ↦ rw i (segment_then_other vm.frame.hsrr0 vm ok)
        | inr i ↦ rw i (other-VmOk vm ok)
      ])
    ]
