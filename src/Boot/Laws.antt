-- ===== src/Boot/Laws.antt =====
-- Everything from `c_main` of main.c on, with no assumption on what the guest does.
use prephv.Base.{
  ℕ, refl, arith, Bool, Option, none, some, done, ◌>>=◌, ◌>>◌, bug_on, mb, IfDone, IfDone->>=,
  IfDone-bug_on,
}
use prephv.Guest.State.{Guest, the_guest}
use prephv.Guest.Init.{guest_init}
use prephv.Guest.Laws.Invariant.{some_guest}
use prephv.Guest.Laws.Start.{InitOk, guest_init-InitOk}
use prephv.Mmu.Types.{Mmu}
use prephv.Mmu.Slb.{Err, err_none}
use prephv.Rom.Library.{Platform, Fdt}
use prephv.Rom.Call.{RomVm}
use prephv.Rom.Call.Laws.{RomOk}
use prephv.Rom.Init.{rom_init}
use prephv.Rom.Init.Laws.{ReadyOk, rom_init-ReadyOk}
use prephv.Boot.{is_error, uframe, start_guest}

module _ (p : Platform) where
  open p use {hw, fdt}

  after_rom_init :
      (mfmsr : ℕ) (r : Err × RomVm p)
      → ReadyOk p r
      → IfDone (RomOk p) (
          bug_on (is_error r.0)
          >> (the_guest r.1.guest >>= λ g. done (record r.1 { frame = uframe mfmsr g })))
  unfolding the_guest
  after_rom_init mfmsr r ok =
      let (g, is, v) = some_guest r.1.guest ok.0 in
      IfDone-bug_on (RomOk p) (is_error r.0) _ (rw is (v, ok.1))

  after_guest_init :
      (mfmsr : ℕ) (boot_fdt : Fdt) (vm : RomVm p) (r : Err × Option Guest × hw.Slb × Mmu)
      → InitOk hw (mb 32) r
      → IfDone (RomOk p) (
          bug_on (is_error r.0)
          >> (rom_init p boot_fdt (record vm { guest = r.1; slb = r.2; mmu = r.3 }) >>= λ r'.
              bug_on (is_error r'.0)
              >> (the_guest r'.1.guest >>= λ g. done (record r'.1 { frame = uframe mfmsr g }))))
  after_guest_init mfmsr boot_fdt vm (err_none, some g, slb, mmu) ok =
      let vm' = record vm { guest = some g; slb = slb; mmu = mmu } in
      IfDone->>= (ReadyOk p) (RomOk p) (rom_init p boot_fdt vm') _
        (rom_init-ReadyOk p boot_fdt vm' g refl ok.0 (omega arith) (omega arith))
        (after_rom_init mfmsr)
  after_guest_init mfmsr boot_fdt vm (err_none, none, slb, mmu) ok = absurd ok
  after_guest_init mfmsr boot_fdt vm (_, guest, slb, mmu) ok = tt

  -- Whatever the firmware's tree and the disk hold, if the start of the guest comes as far as
  -- entering it, there is a guest whose arrays have their lengths, whose registers have 32 bits and whose IR and DR agree, and
  -- the available ranges are in order and whole pages.
  pub start_guest-RomOk :
      (has_mem : Bool) (ram mfmsr : ℕ) (boot_fdt : Fdt) (vm : RomVm p)
      → IfDone (RomOk p) (start_guest p has_mem ram mfmsr boot_fdt vm)
  unfolding start_guest
  start_guest-RomOk has_mem ram mfmsr boot_fdt vm =
      IfDone->>= (InitOk hw (mb 32)) (RomOk p) (guest_init hw has_mem ram (mb 32) vm.slb vm.mmu) _
        (guest_init-InitOk hw (mb 32) has_mem ram vm.slb vm.mmu)
        (after_guest_init mfmsr boot_fdt vm)
