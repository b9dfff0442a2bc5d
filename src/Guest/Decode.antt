-- ===== src/Guest/Decode.antt =====
-- The instruction words that `guest_exc_try` of guest.c emulates, and their fields.
use prephv.Base.{ℕ, bit_and, bit_or, ◌==◌, ◌<<<◌, ◌>>>◌, mask_off, if◌then◌else◌}

abbrev pub ppc_inst_mask : ℕ
ppc_inst_mask = 0xfc0007fe

abbrev pub ppc_inst_mtspr : ℕ
ppc_inst_mtspr = 0x7c0003a6

abbrev pub ppc_inst_mfspr : ℕ
ppc_inst_mfspr = 0x7c0002a6

abbrev pub ppc_inst_mtmsr : ℕ
ppc_inst_mtmsr = 0x7c000124

abbrev pub ppc_inst_mfmsr : ℕ
ppc_inst_mfmsr = 0x7c0000a6

abbrev pub ppc_inst_mfsr : ℕ
ppc_inst_mfsr = 0x7c0004a6

abbrev pub ppc_inst_rfi : ℕ
ppc_inst_rfi = 0x4c000064

-- The branches of the chain of `if`s, in order; `op31` is the last one, by the opcode alone.
pub data Insn : Type 0 where
  mfsr mfmsr mtmsr mtspr mfspr rfi op31 unknown : Insn

unfoldable pub decode : ℕ → Insn
decode i =
    let masked = bit_and i ppc_inst_mask in
    if masked == ppc_inst_mfsr
    then mfsr
    else if masked == ppc_inst_mfmsr
    then mfmsr
    else if masked == ppc_inst_mtmsr
    then mtmsr
    else if masked == ppc_inst_mtspr
    then mtspr
    else if masked == ppc_inst_mfspr
    then mfspr
    else if masked == ppc_inst_rfi
    then rfi
    else if i >>> 26 == 0x1f
    then op31
    else unknown

-- `reg`, `sr` and `spr` of an instruction word.
unfoldable pub reg_field : ℕ → ℕ
unfolding mask_off
reg_field i = mask_off i 25 21

unfoldable pub sr_field : ℕ → ℕ
unfolding mask_off
sr_field i = mask_off i 19 16

unfoldable pub spr_field : ℕ → ℕ
unfolding mask_off
spr_field i =
    let spr = mask_off i 20 11 in bit_or (bit_and spr 0x1f <<< 5) (bit_and spr 0x3e0 >>> 5)
