-- ===== src/Exc/Init/Laws.antt =====
-- The state that `exc_init` of exc.c leaves the processor in.
use prephv.Base.{zero, suc, ◌&&◌, ◌==◌, ℕ, ◌≡◌, Bool, true}
use prephv.Base.Bits.At.{bit_at}

-- ILE and both bits of AIL are set, and LPES is clear.
abbrev pub LpcrOk : ℕ → Type 0
LpcrOk lpcr =
    (bit_at 25 lpcr ≡ 1) × (bit_at 24 lpcr ≡ 1) × (bit_at 23 lpcr ≡ 1) × (bit_at 3 lpcr ≡ 0)

-- The low `n` bits of a number are all set.
ones_below : ℕ → ℕ → Bool
ones_below zero x = true
ones_below (suc n) x = (bit_at n x == 1) && ones_below n x
