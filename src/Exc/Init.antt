-- ===== src/Exc/Init.antt =====
-- `exc_init` of exc.c: the registers of the processor that decide how exceptions are taken, the
-- stack for the unrecoverable ones, and the copy of the vectors.
pub mod Laws
use prephv.Base.{
  ℕ, ◌-◌, ◌+◌, ◌*◌, ◌^◌, ◌%◌, Bool, ◌-64◌, u64, bit_and, bit_or, lnot64, if◌then◌else◌,
}
use prephv.Exc.Flags.{Processor}
use prephv.Guest.Memory.{Memory, load_bytes, store_bytes}
use prephv.Ppc.{msr_ri, hid0_hile, lpcr_lpes, lpcr_ile, lpcr_ail0, lpcr_ail1, page_size}

-- What is written: MSR, LPCR, HID0, HSPRG0, `unrec_sp` of `kpcr_t`, and memory.
pub record Registers : Type 0 where
  pub msr : ℕ
  pub lpcr : ℕ
  pub hid0 : ℕ
  pub hsprg0 : ℕ
  pub unrec_sp : ℕ
  pub mem : Memory

-- `sizeof(eframe_t)`: 39 registers
abbrev pub sizeof_eframe : ℕ
sizeof_eframe = 312

-- LPCR
abbrev pub lpcr_of : ℕ → ℕ
lpcr_of lpcr =
    bit_or (bit_or (bit_or (bit_and lpcr (lnot64 lpcr_lpes)) lpcr_ile) lpcr_ail0) lpcr_ail1

-- `no_hile` tells whether the firmware refuses HILE, `kpcr` is `kpcr_get()`, `page` what
-- `mem_memalign` returns, and `base` and `end` are `&exc_base` and `&exc_end`.
unfoldable pub exc_init : Processor → Bool → ℕ → ℕ → ℕ → ℕ → Registers → Registers
exc_init cpu no_hile kpcr page base end r = record {
  msr = cpu.mtmsrd r.msr msr_ri;
  lpcr = lpcr_of r.lpcr;
  hid0 = if no_hile then bit_or r.hid0 hid0_hile else r.hid0;
  hsprg0 = kpcr;
  unrec_sp = u64 (page + page_size) -64 sizeof_eframe;
  mem = store_bytes r.mem 0 (load_bytes r.mem base (end -64 base));
}
