-- ===== src/Guest/Laws/Width.antt =====
-- The registers of `guest_t`, which are `uint32_t`, hold 32 bits.
use prephv.Base.{ℕ, zero, suc, ◌^◌, ◌<◌, List, [], ◌∷◌, set}
use prephv.Guest.State.{Guest}

-- Every entry of an array is a 32-bit number.
abbrev pub IsWords : List ℕ → Type 0
IsWords [] = Unit
IsWords (v ∷ vs) = (v < 2 ^ 32) × IsWords vs

pub set-IsWords : (vs : List ℕ) (i v : ℕ) → IsWords vs → v < 2 ^ 32 → IsWords (set vs i v)
set-IsWords [] i v h lt = tt
set-IsWords (w ∷ vs) zero v h lt = (lt, h.1)
set-IsWords (w ∷ vs) (suc i) v h lt = (h.0, set-IsWords vs i v h.1 lt)

pub record InWidth (g : Guest) : Type 0 where
  pub sdr1_fits : g.sdr1 < 2 ^ 32
  pub pvr_fits : g.pvr < 2 ^ 32
  pub msr_fits : g.msr < 2 ^ 32
  pub srr0_fits : g.srr0 < 2 ^ 32
  pub srr1_fits : g.srr1 < 2 ^ 32
  pub hid0_fits : g.hid0 < 2 ^ 32
  pub ibat_fits : IsWords g.ibat
  pub dbat_fits : IsWords g.dbat
  pub sr_fits : IsWords g.sr
  pub sprg_fits : IsWords g.sprg
