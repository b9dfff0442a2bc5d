-- ===== src/Examples/Processor.antt =====
-- A processor's state register, and the theorems on the start of the machine there.
use prephv.Base.{
  ℕ, ◌+◌, ◌*◌, ◌%◌, ◌^◌, ◌≤◌, ◌≡◌, ◌≢◌, refl, arith, ◌∙◌, min, bit_and, bit_xor, true, some, [],
  ◌∷◌, ◌++◌,
}
use prephv.Base.Bits.At.{bit_at, and_bit, or_bit, xor_bit, pow_bit}
use native.Mathlib.Nat.{pow-le-pow_right, div-eq_of_lt}
use prephv.Boot.Main.{Start}
use prephv.Exc.Flags.{Processor, IsPower, exc_disable_ee, exc_restore_ee, restore-disable}
use prephv.Exc.Init.{Registers, exc_init}
use prephv.Time.Delay.{ticks, time_delay, time_delay_lem}
use prephv.Examples.Start.{boot_places}

-- A register with the bits of a mask replaced.
abbrev with_bits : ℕ → ℕ → ℕ → ℕ
with_bits mask msr v = bit_xor msr (bit_and (bit_xor msr v) mask)

-- `mtmsrd` with 1 writes EE and RI, `mtmsr` the low half.
abbrev pub a_processor : Processor
a_processor = record { mtmsrd = with_bits 0x8002; mtmsr = with_bits 0xffffffff }

with_bits_lem :
    (mask msr v k b : ℕ)
    → bit_at k mask ≡ b
    → bit_at k (with_bits mask msr v) ≡ (bit_at k msr + min ((bit_at k msr + bit_at k v) % 2) b) % 2
with_bits_lem mask msr v k b e = rw (xor_bit k, and_bit k (bit_xor msr v) mask, xor_bit k, e) refl

no_other_bit : (k : ℕ) → k ≢ 15 → k ≢ 1 → bit_at k 0x8002 ≡ 0
no_other_bit k p q = or_bit k 0x8000 2 ∙ rw (pow_bit k 15 p, pow_bit k 1 q) refl

no_high_bit : (k : ℕ) → 32 ≤ k → bit_at k 0xffffffff ≡ 0
no_high_bit k h =
    let more : 2 ^ 32 ≤ 2 ^ k = pow-le-pow_right (omega arith) h in
    rw (div-eq_of_lt {n = 0xffffffff} {m = 2 ^ k} (omega arith)) refl

pub a_processor-IsPower : IsPower a_processor
a_processor-IsPower = record {
  mtmsrd_ee = λ msr v. rw (with_bits_lem 0x8002 msr v 15 1 refl) (omega arith);
  mtmsrd_ri = λ msr v. rw (with_bits_lem 0x8002 msr v 1 1 refl) (omega arith);
  mtmsrd_kept =
      λ msr v k p q. rw (with_bits_lem 0x8002 msr v k 0 (no_other_bit k p q)) (omega arith);
  mtmsr_ri = λ msr v. rw (with_bits_lem 0xffffffff msr v 1 1 refl) (omega arith);
  mtmsr_high = λ msr v k h. rw (with_bits_lem 0xffffffff msr v k 0 (no_high_bit k h)) (omega arith);
}

-- Inside of another pair: the interrupts are off at the start, and at the end.
restore-disable_example :
    (bit_at 15 (exc_disable_ee a_processor 0x1002).1 ≡ 0)
    × ((k : ℕ) → k ≢ 15 → bit_at k (exc_disable_ee a_processor 0x1002).1 ≡ bit_at k 0x1002)
    × (bit_at 15 (exc_restore_ee a_processor (exc_disable_ee a_processor 0x1002).0 0x1000) ≡ 0)
    × ((k : ℕ)
        → k ≢ 15
        → bit_at k (exc_restore_ee a_processor (exc_disable_ee a_processor 0x1002).0 0x1000)
          ≡ bit_at k 0x1000)
restore-disable_example =
    restore-disable a_processor a_processor-IsPower 0x1002 0x1000 (omega arith)

abbrev some_memory : ℕ → ℕ
some_memory a = a % 251

abbrev pub the_registers : Registers
the_registers = record {
  msr = 0x9000000000001001;
  lpcr = 8;
  hid0 = 0;
  hsprg0 = 0;
  unrec_sp = 0;
  mem = some_memory;
}

abbrev after_exc_init : Registers
after_exc_init =
    exc_init a_processor true 0x8000000000400000 0x8000000000500000 0x8000000000300000
      0x8000000000303000 the_registers

-- A delay of 100 ticks from 10 ticks before the timebase wraps around, with one tick of 50 for
-- each reading.
abbrev by_50 : ℕ → ℕ
by_50 i = i * 50

time_delay_lem_example :
    time_delay 100 (0xfffffffffffffff6 ∷ (ticks 0xfffffffffffffff6 by_50 0 3 ++ 7 ∷ [])) ≡ some 90
time_delay_lem_example =
    time_delay_lem 0xfffffffffffffff6 100 by_50 (omega arith) (omega arith) (7 ∷ []) 2
      (λ j h. omega arith) (omega arith) (omega arith)

abbrev pub a_start : Start
a_start = record {
  places = boot_places;
  no_hile = true;
  kpcr = 0x8000000000400000;
  page = 0x8000000000500000;
  exc_base = 0x8000000000300000;
  exc_end = 0x8000000000303000;
  htab = 0x8000000014000000;
  clock = λ t. t;
  readings = 7 ∷ [];
  has_mem = true;
  ram = 0x8000000010000000;
}
