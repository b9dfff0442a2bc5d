-- ===== src/Guest/Emulate.antt =====
-- The instructions that guest.c emulates, one function for each branch. The flag of the source,
-- `ERR_NONE` after each of them, is left to the caller.
use prephv.Base.{
  ℕ, zero, suc, ◌+◌, ◌-◌, ◌^◌, Run, done, ◌>>=◌, some, ltb, ◌==◌, if◌then◌else◌, bit_and, u32, u64,
  get_or, mask_off,
}
use prephv.Guest.State.{the_guest}
use prephv.Guest.Vm.{Frame, reg, set_reg, Vm, guest_update_msr}
use prephv.Guest.Memory.{Memory, load32, store32}
use prephv.Guest.Decode.{reg_field, sr_field, spr_field}
use prephv.Guest.Spr.{
  Spr, sprg, spr_of, mtspr_switch, mfspr_switch, mfspr_clock, sprg_load, Read, value, untouched,
}
use prephv.Mmu.Slb.{SlbUnit}

-- `__builtin_clz` of the compiler, for a 32-bit value that is not 0.
unfoldable pub clz_from : ℕ → ℕ → ℕ
clz_from zero v = 32
clz_from (suc k) v = let rest = clz_from k v in if ltb v (2 ^ k) then rest else 31 - k

unfoldable pub cntlzw : ℕ → ℕ
unfolding clz_from
cntlzw v = if v == 0 then 32 else clz_from 32 v

-- `frame->hsrr0 += 4`
abbrev pub skip : Frame → Frame
skip f = record f { hsrr0 = u64 (f.hsrr0 + 4) }

-- `R(reg) = ...`, if the switch gives a value
abbrev pub put_read : Frame → ℕ → Read → Frame
put_read f i (value v) = set_reg f i v
put_read f i untouched = f

-- The rewriting of the instruction behind the read of an SPRG.
unfoldable pub patch : Spr → Memory → ℕ → Memory
patch (sprg i) mem at = store32 mem at (sprg_load (load32 mem at) i)
patch spr mem at = mem

module _ {D : Type 0} (hw : SlbUnit) where
  unfoldable pub do_mfsr : ℕ → Vm hw D → Run (Vm hw D)
  do_mfsr i vm = do
    g ← the_guest vm.guest
    done (record vm { frame = skip (set_reg vm.frame (reg_field i) (get_or g.sr (sr_field i) 0)) })

  unfoldable pub do_mfmsr : ℕ → Vm hw D → Run (Vm hw D)
  do_mfmsr i vm = do
    g ← the_guest vm.guest
    done (record vm { frame = skip (set_reg vm.frame (reg_field i) g.msr) })

  unfoldable pub do_mtmsr : ℕ → Vm hw D → Run (Vm hw D)
  do_mtmsr i vm = do
    (g, s) ← guest_update_msr hw (reg vm.frame (reg_field i)) vm.guest vm.slb
    done (record vm { guest = some g; slb = s; frame = skip vm.frame })

  unfoldable pub do_mtspr : ℕ → Vm hw D → Run (Vm hw D)
  do_mtspr i vm = do
    g ← the_guest vm.guest
    g' ← mtspr_switch g (spr_of (spr_field i)) (reg vm.frame (reg_field i))
    done (record vm { guest = some g'; frame = skip vm.frame })

  unfoldable pub do_mfspr : ℕ → Vm hw D → Run (Vm hw D)
  unfolding patch
  do_mfspr i vm = do
    g ← the_guest vm.guest
    let spr = spr_of (spr_field i)
    let read = mfspr_switch g vm.rtc0 spr
    done (record vm {
      frame = skip (put_read vm.frame (reg_field i) read);
      mem = patch spr vm.mem vm.frame.hsrr0;
      rtc0 = mfspr_clock vm.rtc0 spr;
    })

  unfoldable pub do_rfi : Vm hw D → Run (Vm hw D)
  do_rfi vm = do
    g ← the_guest vm.guest
    (g', s) ← guest_update_msr hw g.srr1 vm.guest vm.slb
    done (record vm { guest = some g'; slb = s; frame = record vm.frame { hsrr0 = g'.srr0 } })

  -- The last branch, for any other word with opcode 31: `!0xf0000000` is 0.
  unfoldable pub do_op31 : ℕ → Vm hw D → Run (Vm hw D)
  unfolding cntlzw mask_off
  do_op31 i vm =
      let r_a = mask_off i 15 11 in
      let r_s = mask_off i 10 6 in
      let r_c = mask_off i 31 30 in
      let f = set_reg vm.frame r_a (cntlzw (u32 (reg vm.frame r_s))) in
      done
        (record vm { frame = skip (record f { cr = if r_c == 0 then f.cr else bit_and f.cr 0 }) })
