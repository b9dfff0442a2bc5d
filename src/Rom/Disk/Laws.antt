-- ===== src/Rom/Disk/Laws.antt =====
-- What `guest_disk_read` of rom.c writes.
use prephv.Base.{
  ℕ, zero, suc, ◌+◌, ◌-◌, ◌*◌, ◌^◌, ◌<◌, ◌≡◌, refl, arith, if◌then◌else◌, u32, ◌==◌, IfDone,
  IfDone->>=, IfDone-const, IfDone-if, ◌-64◌,
}
use prephv.Guest.Memory.{Memory, load_bytes, store_bytes}
use prephv.Guest.Memory.Copy.{with_block, copy_lem}
use prephv.Mmu.Types.{ra_2_ptr}
use prephv.Mmu.Slb.{Err}
use prephv.Rom.Library.{Fat, Fdt, Found, node, error, literal}
use prephv.Rom.Device.{Dev}
use prephv.Rom.Disk.{
  disk_at, disk_of_chosen, rom_disk_init, sector_size, read_rounds, guest_disk_read,
}

rounds_lem :
    (host mem : Memory) (disk count rounds sector buffer x : ℕ)
    → 0 < count
    → count < 2 ^ 23
    → sector + rounds < 2 ^ 23
    → read_rounds host disk count rounds sector buffer mem x
      ≡ with_block host
          (disk + sector * 512)
          (if rounds == 0 then 0 else (rounds + count - 1) * 512)
          mem
          buffer
          x
unfolding read_rounds
rounds_lem host mem disk count zero sector buffer x pos small fits = ground arith
rounds_lem host mem disk count (suc rounds) sector buffer x pos small fits =
    let d = disk + u32 (sector * sector_size) in
    let n = u32 (count * sector_size) in
    let m = store_bytes mem buffer (load_bytes host d n) in
    let s : u32 (sector + 1) ≡ sector + 1 = omega arith in
    let e : u32 (sector * sector_size) ≡ sector * 512 = omega arith in
    let l : u32 (count * sector_size) ≡ count * 512 = omega arith in
    rw
      (
        s,
        rounds_lem host m disk count rounds (sector + 1) (buffer + 512) x pos small (omega arith),
        copy_lem host mem d buffer n x,
        e,
        l,
      )
      (ground arith)

-- For fewer than 2 ^ 22 sectors that end below sector 2 ^ 23, the buffer gets the sectors of the
-- image in order, but not only those that were asked for: one less than that number of sectors
-- more, from the image behind them, goes to the memory behind the buffer. Nothing else is
-- written.
pub guest_disk_read_lem :
    (host mem : Memory) (disk sector buffer sector_count x : ℕ)
    → sector_count < 2 ^ 22
    → sector + sector_count < 2 ^ 23
    → guest_disk_read host disk sector buffer sector_count mem x
      ≡ with_block host (disk + sector * 512) ((2 * sector_count - 1) * 512) mem buffer x
unfolding guest_disk_read
guest_disk_read_lem host mem disk sector buffer zero x small fits =
    unfold read_rounds in ground arith
guest_disk_read_lem host mem disk sector buffer (suc n) x small fits =
    let e : (if suc n == 0 then 0 else (suc n + suc n - 1) * 512) ≡ (2 * suc n - 1) * 512 =
      ground arith in
    rw
      (
        rounds_lem host mem disk (suc n) (suc n) sector buffer x (omega arith) (omega arith)
            (omega arith),
        e,
      )
      refl

module _ {fat : Fat} (dev : Dev fat) where
  -- The available ranges stay.
  abbrev pub DiskOk : Err × Dev fat → Type 0
  DiskOk r = r.1.avail ≡ dev.avail

  disk_at-DiskOk : (start end : ℕ) → IfDone DiskOk (disk_at start end dev)
  unfolding disk_at
  disk_at-DiskOk start end = IfDone-if DiskOk ((end -64 start) == 0) _ _ refl (
      IfDone->>= (λ _. Unit {0}) DiskOk (ra_2_ptr start) _ (IfDone-const (ra_2_ptr start) tt)
        (λ d _. refl))

  chosen-DiskOk : (fdt : Fdt) (n : Found) → IfDone DiskOk (disk_of_chosen fdt n dev)
  unfolding disk_of_chosen
  chosen-DiskOk fdt (error e) = refl
  chosen-DiskOk fdt (node n) = disk_at-DiskOk _ _

  pub rom_disk_init-DiskOk : (fdt : Fdt) → IfDone DiskOk (rom_disk_init fdt dev)
  unfolding rom_disk_init
  rom_disk_init-DiskOk fdt = chosen-DiskOk fdt (fdt.fdt_path_offset (literal "/chosen"))
