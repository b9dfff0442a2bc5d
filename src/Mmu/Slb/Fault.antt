-- ===== src/Mmu/Slb/Fault.antt =====
-- `mmu_guest_fault_seg`: a segment fault of the guest puts its segment in, once.
use prephv.Base.{
  ℕ, ◌+◌, ◌*◌, ◌/◌, ◌%◌, ◌^◌, ◌<◌, ◌≡◌, ◌≢◌, false, arith, Option, some, done, sym, ap, ◌∙◌,
  bit_and, u32, get_or,
}
use prephv.Base.Bits.{and_field, or_add}
use prephv.Ppc.{slb_esid_v, sr_vsid_mask}
use prephv.Guest.State.{Guest, the_guest, guest_is_mmu_off}
use prephv.Mmu.Types.{seg_256m, page_4k}
use prephv.Mmu.Slb.{
  SlbUnit, err_none, err_unsupported, slb_make_esid, slb_make_vsid, mmu_guest_fault_seg,
}

-- The first word of the entry for a guest address.
pub guest_esid :
    (ea : ℕ)
    → ea < 2 ^ 32
    → slb_make_esid ea seg_256m (ea / 2 ^ 28 + 3)
      ≡ ea / 2 ^ 28 * 2 ^ 28 + 2 ^ 27 + (ea / 2 ^ 28 + 3)
unfolding slb_make_esid
guest_esid ea h = ground (
  arith,
  and_field 28 36 ea,
  or_add 28 (ea / 2 ^ 28 * 2 ^ 28) (2 ^ 27),
  or_add 27 (ea / 2 ^ 28 * 2 ^ 28 + 2 ^ 27) (ea / 2 ^ 28 + 3),
)

module _ (hw : SlbUnit) where
  open hw use {Slb, slbmte, slbmfee}

  -- Of an entry that was written as a valid one, at one of the 32 indices that every processor has,
  -- `slbmfee` gives the segment and the bit V back, and zeros below them.
  abbrev pub ReadsBack : Type 0
  ReadsBack =
      (rs rb : ℕ) (s : Slb)
      → rb / 2 ^ 27 % 2 ≡ 1
      → rb % 2 ^ 12 < 32
      → slbmfee (rb % 2 ^ 12) (slbmte rs rb s) ≡ rb / 2 ^ 27 * 2 ^ 27

  -- An entry that is valid is left alone.
  pub fault_present :
      (guest : Option Guest) (ea : ℕ) (s : Slb)
      → ea < 2 ^ 32
      → bit_and (slbmfee (ea / 2 ^ 28 + 3) s) slb_esid_v ≢ 0
      → mmu_guest_fault_seg hw guest ea s ≡ done (err_unsupported, s)
  unfolding mmu_guest_fault_seg
  fault_present guest ea s lt ne =
      let e : u32 (u32 (ea / 2 ^ 28) + 3) ≡ ea / 2 ^ 28 + 3 = omega arith in rw e (ground arith)

  fault_absent :
      (g : Guest) (ea : ℕ) (s : Slb)
      → ea < 2 ^ 32
      → guest_is_mmu_off (some g) ≡ done false
      → bit_and (slbmfee (ea / 2 ^ 28 + 3) s) slb_esid_v ≡ 0
      → mmu_guest_fault_seg hw (some g) ea s
        ≡ done (
          err_none,
          slbmte
              (slb_make_vsid
                (bit_and (get_or g.sr (u32 (ea / 2 ^ 28)) 0) sr_vsid_mask)
                seg_256m
                page_4k)
              (slb_make_esid ea seg_256m (ea / 2 ^ 28 + 3))
              s,
        )
  unfolding mmu_guest_fault_seg the_guest
  fault_absent g ea s lt on clear =
      let e : u32 (u32 (ea / 2 ^ 28) + 3) ≡ ea / 2 ^ 28 + 3 = omega arith in rw e (ground arith)

  -- On a processor that reads back the segment and the bit V of a valid entry: with the guest's MMU on and a
  -- 32-bit address whose segment is not in the buffer, a fault puts the segment in as a valid
  -- entry, and a second fault at any address of the segment is then not taken for a missing
  -- segment.
  pub fault_then_present :
      (reads_back : ReadsBack) (g : Guest) (ea ea' : ℕ) (s : Slb)
      → ea < 2 ^ 32
      → ea' / 2 ^ 28 ≡ ea / 2 ^ 28
      → guest_is_mmu_off (some g) ≡ done false
      → bit_and (slbmfee (ea / 2 ^ 28 + 3) s) slb_esid_v ≡ 0
      → (s' : Slb) × (mmu_guest_fault_seg hw (some g) ea s ≡ done (err_none, s'))
        × (slbmfee (ea / 2 ^ 28 + 3) s' ≡ ea / 2 ^ 28 * 2 ^ 28 + 2 ^ 27)
        × (mmu_guest_fault_seg hw (some g) ea' s' ≡ done (err_unsupported, s'))
  fault_then_present reads_back g ea ea' s lt same on clear =
      (s', fault_absent g ea s lt on clear, read, fault_present (some g) ea' s' (omega arith) still)
    where
      rb : ℕ
      rb = slb_make_esid ea seg_256m (ea / 2 ^ 28 + 3)

      s' : Slb
      s' =
          slbmte
            (slb_make_vsid (bit_and (get_or g.sr (u32 (ea / 2 ^ 28)) 0) sr_vsid_mask) seg_256m
              page_4k)
            rb s

      index : rb % 2 ^ 12 ≡ ea / 2 ^ 28 + 3
      index = let e = guest_esid ea lt in omega arith

      valid : rb / 2 ^ 27 % 2 ≡ 1
      valid = let e = guest_esid ea lt in omega arith

      read : slbmfee (ea / 2 ^ 28 + 3) s' ≡ ea / 2 ^ 28 * 2 ^ 28 + 2 ^ 27
      read =
          ap (λ (k : ℕ). slbmfee k s') (sym index)
          ∙ reads_back _ rb s valid (let e = guest_esid ea lt in omega arith)
          ∙ (let e = guest_esid ea lt in omega arith)

      still : bit_and (slbmfee (ea' / 2 ^ 28 + 3) s') slb_esid_v ≢ 0
      still = rw (same, read, and_field 27 1 (ea / 2 ^ 28 * 2 ^ 28 + 2 ^ 27)) (omega arith)
