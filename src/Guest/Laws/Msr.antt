-- ===== src/Guest/Laws/Msr.antt =====
-- `guest_update_msr` of guest.c: the guest's instruction and data translation go together.
use prephv.Base.{
  ℕ, zero, suc, refl, not, ap, ◌/◌, ◌^◌, ◌<◌, ◌≡◌, arith, Bool, false, done, halt, some, u32, ◌==◌,
  if◌then◌else◌, bit_and, Bool-cases, inl, inr,
}
use prephv.Base.Bits.{and_low}
use prephv.Guest.State.{Guest, the_guest, ir_bit, dr_bit, guest_is_mmu_off}
use prephv.Guest.Vm.{differ, guest_update_msr}
use prephv.Mmu.Slb.{SlbUnit, mmu_guest_update}

abbrev pub IsConsistent : ℕ → Type 0
IsConsistent msr = ir_bit msr ≡ dr_bit msr

pub is_mmu_off_lem :
    (g : Guest) → IsConsistent g.msr → guest_is_mmu_off (some g) ≡ done (ir_bit g.msr == 0)
unfolding guest_is_mmu_off
is_mmu_off_lem g c = ground arith

is_mmu_off_halt :
    (g : Guest) → (ir_bit g.msr == dr_bit g.msr) ≡ false → guest_is_mmu_off (some g) ≡ halt
unfolding guest_is_mmu_off
is_mmu_off_halt g c = ground arith

bit_cases : (x : ℕ) → bit_and x 1 < 2
bit_cases x = rw (and_low 1) (omega arith)

switched :
    {A : Type 0} (x y : ℕ) (s : A) (f : Bool → A)
    → x < 2
    → y < 2
    → (if differ (x == 0) (y == 0) then f (not (y == 0)) else s)
      ≡ (if x == y then s else f (y == 1))
switched zero zero s f p q = refl
switched zero (suc zero) s f p q = refl
switched (suc zero) zero s f p q = refl
switched (suc zero) (suc zero) s f p q = refl
switched zero (suc (suc y)) s f p q = absurd (omega arith)
switched (suc zero) (suc (suc y)) s f p q = absurd (omega arith)
switched (suc (suc x)) y s f p q = absurd (omega arith)

-- From a guest whose IR and DR bits agree: a new value where they agree too becomes the state
-- register, cut to 32 bits, and the segments change only if translation is switched, to on or
-- off as the new bits say; any other value stops the machine.
pub guest_update_msr_lem :
    (hw : SlbUnit) (new : ℕ) (g : Guest) (s : hw.Slb)
    → IsConsistent g.msr
    → guest_update_msr hw new (some g) s ≡ (
        if ir_bit (u32 new) == dr_bit (u32 new)
        then done (
          record g { msr = u32 new },
          if ir_bit g.msr == ir_bit (u32 new)
              then s
              else mmu_guest_update hw (ir_bit (u32 new) == 1) s,
        )
        else halt)
unfolding guest_update_msr the_guest
guest_update_msr_lem hw new g s c = elim (Bool-cases (ir_bit (u32 new) == dr_bit (u32 new))) [
  | inl same ↦
      rw (is_mmu_off_lem g c, is_mmu_off_lem (record g { msr = u32 new }) (ground arith), same)
        (ap (λ t. done (record g { msr = u32 new }, t))
          (switched (ir_bit g.msr) (ir_bit (u32 new)) s (λ on. mmu_guest_update hw on s)
            (bit_cases (g.msr / 2 ^ 5)) (bit_cases (u32 new / 2 ^ 5))))
  | inr diff ↦ rw (is_mmu_off_lem g c, is_mmu_off_halt (record g { msr = u32 new }) diff, diff)
]
