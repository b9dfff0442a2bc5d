-- ===== src/Guest/Laws/Start.antt =====
-- `guest_init` of guest.c sets the invariant of the guest up.
use prephv.Base.{
  ℕ, ◌+◌, ◌%◌, ◌≡◌, refl, arith, Bool, true, false, Option, none, some, Run, done, ◌>>=◌, ltb, ◌!=◌,
  bit_or, mb, IfDone, IfDone->>=, IfDone-const, IfDone-both, ◌∙◌, Bool-cases, inl, inr,
}
use prephv.Ppc.{msr_ir, msr_dr, pp_rwrw}
use prephv.Guest.State.{Guest}
use prephv.Guest.Vm.{guest_update_msr}
use prephv.Guest.Init.{init_srs, fresh_guest, guest_init}
use prephv.Guest.Laws.Invariant.{IsValid, update-IsValid, update-ram}
use prephv.Mmu.Types.{Mmu, PageSize, page_4k, page_16m, ptr_2_ra}
use prephv.Mmu.Address.{layout_vm_start}
use prephv.Mmu.Slb.{SlbUnit, Err, err_none, mmu_guest_update}
use prephv.Mmu.Map.{mmu_map_range}

fresh-IsValid : (ram ram_size : ℕ) → IsValid (fresh_guest ram ram_size)
unfolding fresh_guest init_srs
fresh-IsValid ram ram_size = record {
  arrays = record { ibats = refl; dbats = refl; srs = refl; sprgs = refl };
  consistent = refl;
  width = ground arith;
}

-- A guest that is valid and has the RAM.
abbrev pub HasRam : ℕ → Option Guest → Type 0
HasRam ram_size none = ⊥
HasRam ram_size (some g) = IsValid g × (g.ram_size ≡ ram_size)

-- Such a guest if there is no error, and no guest if there is one.
abbrev pub StartOk : ℕ → Err → Option Guest → Type 0
StartOk ram_size err_none guest = HasRam ram_size guest
StartOk ram_size err guest = guest ≡ none

module _ (hw : SlbUnit) (ram_size : ℕ) where
  abbrev pub InitOk : Err × Option Guest × hw.Slb × Mmu → Type 0
  InitOk r = StartOk ram_size r.0 r.1

  -- The two calls of `mmu_map_range`, which only change the table.
  map_ram : Guest → ℕ → PageSize → Mmu → Run Mmu
  map_ram g ra page m =
      mmu_map_range (some g) layout_vm_start (layout_vm_start + ram_size) ra pp_rwrw page m

  map_ram-InitOk :
      (g : Guest) (ra : ℕ) (page : PageSize) (m : Mmu)
      (next : Mmu → Run (Err × Option Guest × hw.Slb × Mmu))
      → ((m' : Mmu) → IfDone InitOk (next m'))
      → IfDone InitOk (map_ram g ra page m >>= next)
  map_ram-InitOk g ra page m next ok =
      IfDone->>= (λ _. Unit {0}) InitOk (map_ram g ra page m) next
        (IfDone-const (map_ram g ra page m) tt) (λ m' _. ok m')

  -- What follows the two BUG_ON and `ptr_2_ra`.
  mapped-InitOk :
      (g : Guest) (ra : ℕ) (s : hw.Slb) (m : Mmu)
      → IsValid g
      → g.ram_size ≡ ram_size
      → IfDone InitOk (
          map_ram g ra page_16m m >>= λ m₁.
          guest_update_msr hw (bit_or msr_ir msr_dr) (some g) s >>= λ r.
          map_ram r.0 ra page_4k m₁ >>= λ m₂. done (err_none, some r.0, r.1, m₂))
  mapped-InitOk g ra s m v size = map_ram-InitOk g ra page_16m m _ (λ m₁.
      let new = bit_or msr_ir msr_dr in
      let update = guest_update_msr hw new (some g) s in
      IfDone->>= (λ r. IsValid r.0 × (r.0.ram_size ≡ g.ram_size)) InitOk update _
        (IfDone-both (λ r. IsValid r.0) (λ r. r.0.ram_size ≡ g.ram_size) update
          (update-IsValid hw new g s v) (update-ram hw new g s v))
        (λ r valid. map_ram-InitOk r.0 ra page_4k m₁ _ (λ m₂. (valid.0, valid.1 ∙ size))))

  -- `guest_init` returns, whenever no BUG_ON stops it, either no error and a guest whose arrays
  -- have their lengths, whose registers are 32-bit numbers, whose IR and DR agree and whose RAM has
  -- the size, or an error and no guest.
  pub guest_init-InitOk :
      (has_mem : Bool) (ram : ℕ) (s : hw.Slb) (m : Mmu)
      → IfDone InitOk (guest_init hw has_mem ram ram_size s m)
  unfolding guest_init map_ram
  guest_init-InitOk false ram s m = refl
  guest_init-InitOk true ram s m = elim (Bool-cases (ltb ram_size (mb 32))) [
    | inl e ↦ rw e tt
    | inr e ↦ rw e (elim (Bool-cases (ram_size % mb 16 != 0)) [
      | inl n ↦ rw n tt
      | inr n ↦ rw n (
          IfDone->>= (λ _. Unit {0}) InitOk (ptr_2_ra ram) _ (IfDone-const (ptr_2_ra ram) tt)
            (λ ra _.
              mapped-InitOk (fresh_guest ram ram_size) ra (mmu_guest_update hw false s) m
                (fresh-IsValid ram ram_size) (unfold fresh_guest in refl)))
    ])
  ]
