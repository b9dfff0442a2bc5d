-- ===== src/Guest/Spr.antt =====
-- The special purpose registers of the guest: the two `switch` statements of guest.c.
use prephv.Base.{
  ℕ, ◌+◌, ◌-◌, ◌&&◌, Run, done, halt, ◌>>=◌, some, leb, ltb, ◌==◌, if◌then◌else◌, bit_and, bit_or,
  u32, get_or, set,
}
use prephv.Ppc.{
  sprn_srr0, sprn_srr1, sprn_sdr1, sprn_sprg0, sprn_sprg3, sprn_pvr, sprn_ibat0u, sprn_dbat3l,
}
use prephv.Guest.State.{Guest, guest_is_mmu_off}

-- The case labels of a `switch` on the number of a register.
pub data Spr : Type 0 where
  srr0 srr1 pvr sdr1 rtcu rtcl hid0 other : Spr
  bat : ℕ → Spr
  sprg : ℕ → Spr

unfoldable pub spr_of : ℕ → Spr
spr_of n =
    if n == sprn_srr0
    then srr0
    else if n == sprn_srr1
    then srr1
    else if n == sprn_pvr
    then pvr
    else if leb sprn_ibat0u n && leb n sprn_dbat3l
    then bat (n - sprn_ibat0u)
    else if leb sprn_sprg0 n && leb n sprn_sprg3
    then sprg (n - sprn_sprg0)
    else if n == sprn_sdr1
    then sdr1
    else if n == 4
    then rtcu
    else if n == 5
    then rtcl
    else if n == 1008
    then hid0
    else other

-- `guest->ibat` as the source indexes it: `dbat` follows it in the struct, so entries 8 to 15
-- are those of `dbat`.
unfoldable pub read_bat : Guest → ℕ → ℕ
read_bat g i = if ltb i 8 then get_or g.ibat i 0 else get_or g.dbat (i - 8) 0

unfoldable pub write_bat : Guest → ℕ → ℕ → Guest
write_bat g i v =
    if ltb i 8 then record g { ibat = set g.ibat i v } else record g { dbat = set g.dbat (i - 8) v }

-- The ERROR message behind a write asks whether the guest's MMU is off.
unfoldable pub logged : Guest → Run Guest
logged g = guest_is_mmu_off (some g) >>= λ _. done g

-- The `switch` of the MTSPR branch, at the low 32 bits of the register. The FATAL of its default
-- stops the machine; PVR and the clock have no case there.
unfoldable pub mtspr_switch : Guest → Spr → ℕ → Run Guest
unfolding write_bat logged
mtspr_switch g srr0 v = done (record g { srr0 = u32 v })
mtspr_switch g srr1 v = done (record g { srr1 = u32 v })
mtspr_switch g (bat i) v = logged (write_bat g i (u32 v))
mtspr_switch g (sprg i) v = logged (record g { sprg = set g.sprg i (u32 v) })
mtspr_switch g sdr1 v = logged (record g { sdr1 = u32 v })
mtspr_switch g hid0 v = done (record g { hid0 = u32 v })
mtspr_switch g pvr v = halt
mtspr_switch g rtcu v = halt
mtspr_switch g rtcl v = halt
mtspr_switch g other v = halt

-- What the `switch` of the MFSPR branch puts into the register, if anything, from the guest and
-- the clock.
pub data Read : Type 0 where
  value : ℕ → Read
  untouched : Read

unfoldable pub mfspr_switch : Guest → ℕ → Spr → Read
unfolding read_bat
mfspr_switch g rtc0 srr0 = value g.srr0
mfspr_switch g rtc0 srr1 = value g.srr1
mfspr_switch g rtc0 pvr = value g.pvr
mfspr_switch g rtc0 (bat i) = value (read_bat g i)
mfspr_switch g rtc0 (sprg i) = value (get_or g.sprg i 0)
mfspr_switch g rtc0 sdr1 = value g.sdr1
mfspr_switch g rtc0 rtcu = value rtc0
mfspr_switch g rtc0 rtcl = value 0
mfspr_switch g rtc0 hid0 = value g.hid0
mfspr_switch g rtc0 other = untouched

-- The clock after the read: `rtc0++`, for its one register.
unfoldable pub mfspr_clock : ℕ → Spr → ℕ
mfspr_clock rtc0 rtcu = u32 (rtc0 + 1)
mfspr_clock rtc0 spr = rtc0

-- The instruction that the read of an SPRG leaves in the place of the one emulated.
unfoldable pub sprg_load : ℕ → ℕ → ℕ
sprg_load isn i = bit_or (bit_or 0xe8000000 (bit_and isn 0x03e00000)) (bit_and (0 + i) 0x0000fffc)
