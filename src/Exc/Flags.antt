-- ===== src/Exc/Flags.antt =====
-- The external interrupts of exc.c: `exc_disable_ee`, `exc_restore_ee` and `exc_enable_ee`, on the
-- machine state register. What the processor makes of `mtmsrd` and `mtmsr` is a parameter.
use prephv.Base.{ℕ, ◌≤◌, ◌≡◌, ◌≢◌, arith, bit_and, bit_or, lnot64}
use prephv.Base.Bits.At.{bit_at, and_bit, or_bit}
use prephv.Ppc.{msr_ee}
use native.Mathlib.Decide.{ℕ_discrete}

-- `mtmsrd` is `mtmsrd(val, 1)` of include/ppc.h: the register behind it, at the register before
-- and the value. `mtmsr` is the same of `mtmsr(val)`.
pub record Processor : Type 0 where
  pub mtmsrd : ℕ → ℕ → ℕ
  pub mtmsr : ℕ → ℕ → ℕ

-- Bit 15 is MSR_EE and bit 1 is MSR_RI. With 1, `mtmsrd` writes these two only. `mtmsr` writes
-- RI, and leaves the high half.
pub record IsPower (cpu : Processor) : Type 0 where
  pub mtmsrd_ee : (msr v : ℕ) → bit_at 15 (cpu.mtmsrd msr v) ≡ bit_at 15 v
  pub mtmsrd_ri : (msr v : ℕ) → bit_at 1 (cpu.mtmsrd msr v) ≡ bit_at 1 v
  pub mtmsrd_kept : (msr v k : ℕ) → k ≢ 15 → k ≢ 1 → bit_at k (cpu.mtmsrd msr v) ≡ bit_at k msr
  pub mtmsr_ri : (msr v : ℕ) → bit_at 1 (cpu.mtmsr msr v) ≡ bit_at 1 v
  pub mtmsr_high : (msr v k : ℕ) → 32 ≤ k → bit_at k (cpu.mtmsr msr v) ≡ bit_at k msr

module _ (cpu : Processor) where
  -- The flags and the register.
  unfoldable pub exc_disable_ee : ℕ → ℕ × ℕ
  exc_disable_ee msr = (bit_and msr msr_ee, cpu.mtmsrd msr (bit_and msr (lnot64 msr_ee)))

  unfoldable pub exc_restore_ee : ℕ → ℕ → ℕ
  exc_restore_ee flags msr = cpu.mtmsrd msr (bit_or msr (bit_and flags msr_ee))

  unfoldable pub exc_enable_ee : ℕ → ℕ
  exc_enable_ee msr = cpu.mtmsrd msr (bit_or msr msr_ee)

  module _ (power : IsPower cpu) where
    -- A value that has the register's bits but bit 15.
    other_bits :
        (msr v k : ℕ)
        → bit_at 1 v ≡ bit_at 1 msr
        → k ≢ 15
        → bit_at k (cpu.mtmsrd msr v) ≡ bit_at k msr
    other_bits msr v k same ne = elim (ℕ_discrete k 1) [
      | yes e ↦ rw (e, power.mtmsrd_ri) same
      | no other ↦ power.mtmsrd_kept msr v k ne other
    ]

    pub enable_ee_lem :
        (msr : ℕ)
        → (bit_at 15 (exc_enable_ee msr) ≡ 1)
          × ((k : ℕ) → k ≢ 15 → bit_at k (exc_enable_ee msr) ≡ bit_at k msr)
    unfolding exc_enable_ee
    enable_ee_lem msr = (
      omega (arith, power.mtmsrd_ee msr (bit_or msr msr_ee), or_bit 15 msr msr_ee),
      λ k ne. other_bits msr (bit_or msr msr_ee) k (omega (arith, or_bit 1 msr msr_ee)) ne,
    )

    -- Between `exc_disable_ee` and `exc_restore_ee` of its flags external interrupts are off, and
    -- no other bit has changed. If what runs between leaves them off, they are afterwards as they
    -- were before `exc_disable_ee`, off if the pair is inside of another, and the other bits are
    -- as they were left.
    pub restore-disable :
        (msr inner : ℕ)
        → bit_at 15 inner ≡ 0
        → (bit_at 15 (exc_disable_ee msr).1 ≡ 0)
          × ((k : ℕ) → k ≢ 15 → bit_at k (exc_disable_ee msr).1 ≡ bit_at k msr)
          × (bit_at 15 (exc_restore_ee (exc_disable_ee msr).0 inner) ≡ bit_at 15 msr)
          × ((k : ℕ)
              → k ≢ 15
              → bit_at k (exc_restore_ee (exc_disable_ee msr).0 inner) ≡ bit_at k inner)
    unfolding exc_disable_ee exc_restore_ee
    restore-disable msr inner off =
        let clear = bit_and msr (lnot64 msr_ee) in
        let set = bit_or inner (bit_and (bit_and msr msr_ee) msr_ee) in
        let flag = bit_and msr msr_ee in
        (
          omega (arith, power.mtmsrd_ee msr clear, and_bit 15 msr (lnot64 msr_ee)),
          λ k ne. other_bits msr clear k (omega (arith, and_bit 1 msr (lnot64 msr_ee))) ne,
          omega (
            arith,
            power.mtmsrd_ee inner set,
            or_bit 15 inner (bit_and flag msr_ee),
            and_bit 15 flag msr_ee,
            and_bit 15 msr msr_ee,
          ),
          λ k ne.
              other_bits inner set k
                (omega (arith, or_bit 1 inner (bit_and flag msr_ee), and_bit 1 flag msr_ee)) ne,
        )
