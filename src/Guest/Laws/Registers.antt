-- ===== src/Guest/Laws/Registers.antt =====
-- The special purpose registers as a register file: a write is what is read back, and changes
-- no other register.
use prephv.Base.{
  ℕ, ◌+◌, ◌-◌, ◌*◌, ◌/◌, ◌%◌, ◌^◌, ◌<◌, ◌≡◌, ◌≢◌, refl, sym, ap, arith, done, length, u32,
  get_or-set_self, get_or-set_ne, length-set, set,
}
use prephv.Base.Bits.{and_field, or_add}
use prephv.Guest.State.{Guest}
use prephv.Guest.Laws.Msr.{IsConsistent, is_mmu_off_lem}
use prephv.Guest.Spr.{
  logged, Spr, srr0, srr1, pvr, bat, sprg, sdr1, rtcu, rtcl, hid0, other, spr_of, mtspr_switch,
  mfspr_switch, read_bat, write_bat, value, sprg_load,
}

-- The lengths of the arrays in `guest_t`.
pub record HasArrays (g : Guest) : Type 0 where
  pub ibats : length g.ibat ≡ 8
  pub dbats : length g.dbat ≡ 8
  pub srs : length g.sr ≡ 16
  pub sprgs : length g.sprg ≡ 4

-- The cases that a write has, with their arrays' bounds.
abbrev pub IsWritable : Spr → Type 0
IsWritable srr0 = Unit {0}
IsWritable srr1 = Unit {0}
IsWritable sdr1 = Unit {0}
IsWritable hid0 = Unit {0}
IsWritable (bat i) = i < 16
IsWritable (sprg i) = i < 4
IsWritable pvr = ⊥
IsWritable rtcu = ⊥
IsWritable rtcl = ⊥
IsWritable other = ⊥

-- The registers with a number for a `case` have their index in range.
pub spr_of_range : (n i : ℕ) → ((spr_of n ≡ bat i) → i < 16) × ((spr_of n ≡ sprg i) → i < 4)
unfolding spr_of
spr_of_range n i = (λ e. ground arith, λ e. ground arith)

-- Two numbers with the same case are the same, unless they have none.
pub spr_of_inj : (n k : ℕ) → spr_of n ≡ spr_of k → spr_of n ≢ other → n ≡ k
unfolding spr_of
spr_of_inj n k e ne = ground arith

bat_same : (g : Guest) (i v : ℕ) → HasArrays g → i < 16 → read_bat (write_bat g i v) i ≡ v
unfolding read_bat write_bat
bat_same g i v a lt =
    ground (arith, get_or-set_self g.ibat i v 0, get_or-set_self g.dbat (i - 8) v 0)

bat_other : (g : Guest) (i j v : ℕ) → i ≢ j → read_bat (write_bat g i v) j ≡ read_bat g j
unfolding read_bat write_bat
bat_other g i j v ne =
    ground (arith, get_or-set_ne g.ibat i j v 0, get_or-set_ne g.dbat (i - 8) (j - 8) v 0)

-- The guest after a write.
written : Guest → Spr → ℕ → Guest
written g srr0 v = record g { srr0 = u32 v }
written g srr1 v = record g { srr1 = u32 v }
written g sdr1 v = record g { sdr1 = u32 v }
written g hid0 v = record g { hid0 = u32 v }
written g (bat i) v = write_bat g i (u32 v)
written g (sprg i) v = record g { sprg = set g.sprg i (u32 v) }
written g s v = g

pub logged_done : (g : Guest) → IsConsistent g.msr → logged g ≡ done g
unfolding logged
logged_done g c = rw (is_mmu_off_lem g c) refl

pub write_bat_msr : (g : Guest) (i v : ℕ) → (write_bat g i v).msr ≡ g.msr
unfolding write_bat
write_bat_msr g i v = ground arith

write_done :
    (g : Guest) (s : Spr) (v : ℕ)
    → IsConsistent g.msr
    → IsWritable s
    → mtspr_switch g s v ≡ done (written g s v)
unfolding mtspr_switch written
write_done g srr0 v c w = refl
write_done g srr1 v c w = refl
write_done g sdr1 v c w = logged_done _ c
write_done g hid0 v c w = refl
write_done g (bat i) v c w = logged_done _ (rw (write_bat_msr g i (u32 v)) c)
write_done g (sprg i) v c w = logged_done _ c
write_done g _ v c w = elim w [ ]

write_read :
    (g : Guest) (s : Spr) (v rtc : ℕ)
    → HasArrays g
    → IsWritable s
    → mfspr_switch (written g s v) rtc s ≡ value (u32 v)
unfolding mfspr_switch written
write_read g srr0 v rtc a w = refl
write_read g srr1 v rtc a w = refl
write_read g sdr1 v rtc a w = refl
write_read g hid0 v rtc a w = refl
write_read g (bat i) v rtc a w = rw (bat_same g i (u32 v) a w)
write_read g (sprg i) v rtc a w = ground (arith, get_or-set_self g.sprg i (u32 v) 0)
write_read g _ v rtc a w = elim w [ ]

write_other :
    (g : Guest) (s t : Spr) (v rtc : ℕ)
    → t ≢ s
    → mfspr_switch (written g s v) rtc t ≡ mfspr_switch g rtc t
unfolding mfspr_switch written write_bat read_bat
write_other g srr0 t v rtc ne = ground arith
write_other g srr1 t v rtc ne = ground arith
write_other g sdr1 t v rtc ne = ground arith
write_other g hid0 t v rtc ne = ground arith
write_other g (bat i) (bat j) v rtc ne =
    ap value (bat_other g i j (u32 v) (λ e. ne (ap bat (sym e))))
write_other g (bat i) t v rtc ne = ground arith
write_other g (sprg i) (sprg j) v rtc ne =
    ap value (get_or-set_ne g.sprg i j (u32 v) 0 (λ e. ne (ap sprg (sym e))))
write_other g (sprg i) t v rtc ne = ground arith
write_other g _ t v rtc ne = refl

HasArrays-written : (g : Guest) (s : Spr) (v : ℕ) → HasArrays g → HasArrays (written g s v)
unfolding written write_bat
HasArrays-written g srr0 v a = ground arith
HasArrays-written g (bat i) v a =
    ground (arith, length-set g.ibat i (u32 v), length-set g.dbat (i - 8) (u32 v))
HasArrays-written g (sprg i) v a = ground (arith, length-set g.sprg i (u32 v))
HasArrays-written g _ v a = ground arith

-- The numbers that the MTSPR `switch` has a case for.
abbrev pub HasCase : Spr → Type 0
HasCase (bat i) = Unit {0}
HasCase (sprg i) = Unit {0}
HasCase s = IsWritable s

IsWritable-of : (n : ℕ) (s : Spr) → spr_of n ≡ s → HasCase s → IsWritable s
IsWritable-of n (bat i) e c = (spr_of_range n i).0 e
IsWritable-of n (sprg i) e c = (spr_of_range n i).1 e
IsWritable-of n _ e c = c

ne-other : (s : Spr) → HasCase s → s ≢ other
ne-other other c e = c
ne-other _ c e = cc

-- In a guest whose arrays have their lengths and whose IR and DR agree, a write to a register that
-- the MTSPR branch has a case for is read back as its low 32 bits, every other register number,
-- with a case or without, reads as before, and the arrays keep their lengths.
pub mtspr-mfspr :
    (g : Guest) (n v rtc : ℕ)
    → HasArrays g
    → IsConsistent g.msr
    → HasCase (spr_of n)
    → (g' : Guest) × (mtspr_switch g (spr_of n) v ≡ done g')
      × HasArrays g'
      × (mfspr_switch g' rtc (spr_of n) ≡ value (u32 v))
      × ((k : ℕ) → k ≢ n → mfspr_switch g' rtc (spr_of k) ≡ mfspr_switch g rtc (spr_of k))
mtspr-mfspr g n v rtc a same c =
    let w = IsWritable-of n (spr_of n) refl c in
    (
      written g (spr_of n) v,
      write_done g (spr_of n) v same w,
      HasArrays-written g (spr_of n) v a,
      write_read g (spr_of n) v rtc a w,
      λ k ne.
          write_other g (spr_of n) (spr_of k) v rtc
            (λ e. ne (sym (spr_of_inj n k (sym e) (ne-other (spr_of n) c)))),
    )

-- The instruction put in the place of a read is the same for all four SPRGs: a doubleword load
-- of address 0 into the register that the read names.
pub sprg_load_same :
    (isn i : ℕ) → isn < 2 ^ 32 → i < 4 → sprg_load isn i ≡ 58 * 2 ^ 26 + isn / 2 ^ 21 % 32 * 2 ^ 21
unfolding sprg_load
sprg_load_same isn i h lt = ground (
  arith,
  and_field 21 5 isn,
  and_field 2 14 i,
  or_add 26 (58 * 2 ^ 26) (isn / 2 ^ 21 % 32 * 2 ^ 21),
  or_add 21 (58 * 2 ^ 26 + isn / 2 ^ 21 % 32 * 2 ^ 21) 0,
)
