-- ===== src/Examples/Machine.antt =====
-- A processor's segment buffer as a function, a guest, and memory that is never short.
use prephv.Base.{
  ℕ, ◌-◌, ◌*◌, ◌/◌, ◌%◌, ◌^◌, ◌≡◌, refl, true, arith, some, List, [], ◌∷◌, ◌==◌, if◌then◌else◌,
}
use prephv.Guest.State.{Rom, Guest}
use prephv.Guest.Vm.{Frame, Vm}
use prephv.Guest.Laws.Registers.{HasArrays}
use prephv.Guest.Laws.Invariant.{IsValid}
use prephv.Mmu.Slb.{SlbUnit}
use prephv.Mmu.Slb.Fault.{ReadsBack}
use prephv.Mmu.Types.{Mmu}
use prephv.Ranges.{Malloc}

abbrev pub table_slb : SlbUnit
table_slb = record {
  Slb = ℕ → ℕ × ℕ;
  slbmte = λ rs rb s i. if i == rb % 2 ^ 12 then (rb / 2 ^ 27 * 2 ^ 27, rs) else s i;
  slbmfee = λ i s. (s i).0;
  slbmfev = λ i s. (s i).1;
  slbie = λ rb s i. if (s i).0 / 2 ^ 28 == rb / 2 ^ 28 then (0, 0) else s i;
  slbia = λ s i. if i == 0 then s 0 else (0, 0);
}

pub table_slb-ReadsBack : ReadsBack table_slb
table_slb-ReadsBack rs rb s valid known = ground arith

abbrev pub no_segments : ℕ → ℕ × ℕ
no_segments i = (0, 0)

abbrev pub zeros : List ℕ
zeros = 0 ∷ 0 ∷ 0 ∷ 0 ∷ 0 ∷ 0 ∷ 0 ∷ 0 ∷ []

abbrev pub a_rom : Rom
a_rom = record {
  cif_trampoline = 4;
  claim_arena_start = 0x1000000;
  claim_arena_ptr = 0x1000000;
  claim_arena_end = 0x2000000;
  stack_start = 0xf00000;
  stack_end = 0x1000000;
}

abbrev pub a_guest : Guest
a_guest = record {
  sdr1 = 0;
  pvr = 0x10001;
  msr = 0x30;
  srr0 = 0;
  srr1 = 0;
  ibat = zeros;
  dbat = zeros;
  sr = 0 ∷ 16 ∷ 32 ∷ 48 ∷ 64 ∷ 80 ∷ 96 ∷ 112 ∷ 128 ∷ 144 ∷ 160 ∷ 176 ∷ 192 ∷ 208 ∷ 224 ∷ 240 ∷ [];
  hid0 = 0;
  ram_size = 0x2000000;
  ram = 0x8000000010000000;
  rom = a_rom;
  sprg = 0 ∷ 0 ∷ 0 ∷ 0 ∷ [];
}

pub a_guest-HasArrays : HasArrays a_guest
a_guest-HasArrays = record { ibats = refl; dbats = refl; srs = refl; sprgs = refl }

pub a_guest-IsValid : IsValid a_guest
a_guest-IsValid = record { arrays = a_guest-HasArrays; consistent = refl; width = ground arith }

-- A frame at an address, of an exception, with a state register.
abbrev pub a_frame : ℕ → ℕ → ℕ → Frame
a_frame vec pc msr = record {
  vec = vec;
  gpr = zeros;
  lr = 0;
  ctr = 0;
  xer = 0;
  cr = 0;
  hsrr0 = pc;
  hsrr1 = msr;
}

abbrev pub an_mmu : Mmu
an_mmu = record {
  htab = λ _. record { v = 0; r = 0 };
  ptegs = 2 ^ 11;
  htab_size = 2 ^ 18;
  htab_hash_mask = 2 ^ 11 - 1;
  tlbies = [];
}

abbrev pub a_vm : ℕ → ℕ → ℕ → Vm table_slb Unit
a_vm vec pc msr = record {
  guest = some a_guest;
  frame = a_frame vec pc msr;
  slb = no_segments;
  mem = λ a. 0;
  rtc0 = 0;
  mmu = an_mmu;
  dev = tt;
}

abbrev pub enough : Malloc
enough base limit = true

pub always_enough : (b l : ℕ) → enough b l ≡ true
always_enough b l = refl
