-- ===== src/Guest/State.antt =====
-- `guest_t` of include/guest.h with the `rom_t` and the magic page inside it. A pointer to host
-- memory is its address. The global `guest` is an option, `none` before `guest_init`.
use prephv.Base.{
  ℕ, Bool, true, false, Option, none, some, List, Run, done, halt, ◌>>=◌, ◌>>◌, bug_on, bit_and,
  ◌==◌, ◌!=◌, ◌>>>◌,
}

pub record Rom : Type 0 where
  pub cif_trampoline : ℕ
  pub claim_arena_start : ℕ
  pub claim_arena_ptr : ℕ
  pub claim_arena_end : ℕ
  pub stack_start : ℕ
  pub stack_end : ℕ

pub record Guest : Type 0 where
  pub sdr1 : ℕ
  pub pvr : ℕ
  pub msr : ℕ
  pub srr0 : ℕ
  pub srr1 : ℕ
  pub ibat : List ℕ
  pub dbat : List ℕ
  pub sr : List ℕ
  pub hid0 : ℕ
  pub ram_size : ℕ
  pub ram : ℕ
  pub rom : Rom
  pub sprg : List ℕ

-- `guest == NULL`
abbrev pub is_null : Option Guest → Bool
is_null none = true
is_null (some g) = false

-- The guest behind the pointer; reading it through NULL stops the machine.
unfoldable pub the_guest : Option Guest → Run Guest
the_guest none = halt
the_guest (some g) = done g

-- `(msr >> MSR_IR_LG) & 1` and `(msr >> MSR_DR_LG) & 1`
abbrev pub ir_bit : ℕ → ℕ
ir_bit msr = bit_and (msr >>> 5) 1

abbrev pub dr_bit : ℕ → ℕ
dr_bit msr = bit_and (msr >>> 4) 1

unfoldable pub guest_is_mmu_off : Option Guest → Run Bool
unfolding the_guest
guest_is_mmu_off guest = do
  g ← the_guest guest
  bug_on (ir_bit g.msr != dr_bit g.msr)
  done (ir_bit g.msr == 0)
