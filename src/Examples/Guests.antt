-- ===== src/Examples/Guests.antt =====
-- Exceptions, registers and instructions of a small guest.
use prephv.Base.{ℕ, ◌≡◌, ◌≢◌, refl, false, some, done, u32}
use prephv.Guest.State.{Guest}
use prephv.Guest.Vm.{guest_update_msr}
use prephv.Guest.Spr.{spr_of, mtspr_switch, mfspr_switch, value}
use prephv.Guest.Laws.Registers.{HasArrays, mtspr-mfspr}
use prephv.Guest.Laws.Msr.{guest_update_msr_lem}
use prephv.Mmu.Slb.{mmu_guest_update}
use prephv.Examples.Machine.{table_slb, no_segments, a_guest, a_guest-HasArrays}

mtspr-mfspr_example :
    (g' : Guest) × (mtspr_switch a_guest (spr_of 26) 0x100000005 ≡ done g')
    × HasArrays g'
    × (mfspr_switch g' 0 (spr_of 26) ≡ value (u32 0x100000005))
    × ((k : ℕ) → k ≢ 26 → mfspr_switch g' 0 (spr_of k) ≡ mfspr_switch a_guest 0 (spr_of k))
unfolding spr_of
mtspr-mfspr_example = mtspr-mfspr a_guest 26 0x100000005 0 a_guest-HasArrays refl tt

guest_update_msr_lem_example :
    guest_update_msr table_slb 0 (some a_guest) no_segments
    ≡ done (record a_guest { msr = 0 }, mmu_guest_update table_slb false no_segments)
guest_update_msr_lem_example = guest_update_msr_lem table_slb 0 a_guest no_segments refl

abbrev a_word : ℕ
a_word = 0x1234
