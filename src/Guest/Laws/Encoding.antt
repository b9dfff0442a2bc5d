-- ===== src/Guest/Laws/Encoding.antt =====
-- The decoder of guest.c against the instruction formats of the processor: opcode, register,
-- the two halves of the register number the other way round, and extended opcode.
use prephv.Base.{ℕ, ◌+◌, ◌*◌, ◌/◌, ◌%◌, ◌^◌, ◌<◌, ◌≡◌, arith, bit_and}
use prephv.Base.Bits.{and_field, and_low, and_split, or_add}
use prephv.Guest.Decode.{
  mfsr, mfmsr, mtmsr, mtspr, mfspr, decode, reg_field, sr_field, spr_field, ppc_inst_mask,
}

-- mtspr spr, rs and mfspr rt, spr, with their extended opcode `xo`
abbrev pub spr_word : ℕ → ℕ → ℕ → ℕ
spr_word xo r spr = 31 * 2 ^ 26 + r * 2 ^ 21 + spr % 32 * 2 ^ 16 + spr / 32 * 2 ^ 11 + xo * 2

-- mfsr rt, sr
abbrev pub mfsr_word : ℕ → ℕ → ℕ
mfsr_word r sr = 31 * 2 ^ 26 + r * 2 ^ 21 + sr * 2 ^ 16 + 595 * 2

-- mtmsr rs and mfmsr rt
abbrev pub msr_word : ℕ → ℕ → ℕ
msr_word xo r = 31 * 2 ^ 26 + r * 2 ^ 21 + xo * 2

masked_lem :
    (i : ℕ) → i < 2 ^ 32 → bit_and i ppc_inst_mask ≡ i / 2 ^ 26 * 2 ^ 26 + i % 2 ^ 11 / 2 * 2
masked_lem i h = ground (
  arith,
  and_split 11 (i / 2 ^ 11) (i % 2 ^ 11) 0x1f8000 0x7fe,
  and_field 15 6 (i / 2 ^ 11),
  and_field 1 10 (i % 2 ^ 11),
)

reg_field_lem : (i : ℕ) → reg_field i ≡ i / 2 ^ 21 % 32
unfolding reg_field
reg_field_lem i = and_low 5 (i / 2 ^ 21)

sr_field_lem : (i : ℕ) → sr_field i ≡ i / 2 ^ 16 % 16
unfolding sr_field
sr_field_lem i = and_low 4 (i / 2 ^ 16)

spr_field_lem : (i : ℕ) → spr_field i ≡ i / 2 ^ 11 % 2 ^ 10 % 32 * 32 + i / 2 ^ 11 % 2 ^ 10 / 32
unfolding spr_field
spr_field_lem i = ground (
  arith,
  and_low 10 (i / 2 ^ 11),
  and_low 5 (i / 2 ^ 11 % 2 ^ 10),
  and_field 5 5 (i / 2 ^ 11 % 2 ^ 10),
  or_add 5 (i / 2 ^ 11 % 2 ^ 10 % 32 * 32) (i / 2 ^ 11 % 2 ^ 10 / 32),
)

-- Every instruction word that moves a general register to a special purpose register, with either
-- half of the register number in its place, is decoded as such a move, of its register and its
-- number.
pub decode-mtspr :
    (r spr : ℕ)
    → r < 32
    → spr < 1024
    → let i = spr_word 467 r spr in (decode i ≡ mtspr) × (reg_field i ≡ r) × (spr_field i ≡ spr)
unfolding decode
decode-mtspr r spr hr hs =
    let i : ℕ = spr_word 467 r spr in
    (
      ground (arith, masked_lem i (omega arith)),
      rw (reg_field_lem i) (omega arith),
      rw (spr_field_lem i) (omega arith),
    )

-- Every instruction word that moves a special purpose register to a general register, with either
-- half of the register number in its place, is decoded as such a move, of its register and its
-- number.
pub decode-mfspr :
    (r spr : ℕ)
    → r < 32
    → spr < 1024
    → let i = spr_word 339 r spr in (decode i ≡ mfspr) × (reg_field i ≡ r) × (spr_field i ≡ spr)
unfolding decode
decode-mfspr r spr hr hs =
    let i : ℕ = spr_word 339 r spr in
    (
      ground (arith, masked_lem i (omega arith)),
      rw (reg_field_lem i) (omega arith),
      rw (spr_field_lem i) (omega arith),
    )

-- Every instruction word that moves a segment register to a general register is decoded as such a
-- move, with its two registers, and so are the words that move a general register to and from the
-- machine state register, with their register.
pub decode-mfsr_mtmsr_mfmsr :
    (r sr : ℕ)
    → r < 32
    → sr < 16
    → let i = mfsr_word r sr in
      (decode i ≡ mfsr)
      × (reg_field i ≡ r)
      × (sr_field i ≡ sr)
      × (decode (msr_word 146 r) ≡ mtmsr)
      × (reg_field (msr_word 146 r) ≡ r)
      × (decode (msr_word 83 r) ≡ mfmsr)
      × (reg_field (msr_word 83 r) ≡ r)
unfolding decode
decode-mfsr_mtmsr_mfmsr r sr hr hs =
    let i : ℕ = mfsr_word r sr in
    (
      ground (arith, masked_lem i (omega arith)),
      rw (reg_field_lem i) (omega arith),
      rw (sr_field_lem i) (omega arith),
      ground (arith, masked_lem (msr_word 146 r) (omega arith)),
      rw (reg_field_lem (msr_word 146 r)) (omega arith),
      ground (arith, masked_lem (msr_word 83 r) (omega arith)),
      rw (reg_field_lem (msr_word 83 r)) (omega arith),
    )
