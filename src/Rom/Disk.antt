-- ===== src/Rom/Disk.antt =====
-- The guest's disk in rom.c: `rom_disk_init` finds the image that the firmware loaded, and
-- `guest_disk_read` gives its sectors to the FAT library.
pub mod Laws
use prephv.Base.{
  ℕ, zero, suc, ◌+◌, ◌*◌, ◌%◌, ◌^◌, Option, none, some, List, Run, done, ◌>>=◌, ◌==◌, if◌then◌else◌,
  u32, u64, ◌-64◌, get_or,
}
use prephv.Guest.Memory.{Memory, load_bytes, store_bytes}
use prephv.Mmu.Types.{ra_2_ptr}
use prephv.Mmu.Slb.{Err, err_none, err_not_found}
use prephv.Rom.Library.{Fat, Fdt, Found, node, error, literal}
use prephv.Rom.Device.{Dev}

-- `be32_to_cpu(*data)`, of a property that is taken to have its four bytes
abbrev pub be32 : List ℕ → ℕ
be32 bytes = u32 (
    get_or bytes 0 0 * 2 ^ 24
    + get_or bytes 1 0 * 2 ^ 16
    + get_or bytes 2 0 * 2 ^ 8
    + get_or bytes 3 0)

-- A bound of the image, 0 without its property.
abbrev pub initrd_bound : Option (List ℕ) → ℕ
initrd_bound none = 0
initrd_bound (some bytes) = be32 bytes

module _ {fat : Fat} where
  unfoldable pub disk_at : ℕ → ℕ → Dev fat → Run (Err × Dev fat)
  disk_at initrd_start initrd_end dev =
      if (initrd_end -64 initrd_start) == 0 then done (err_not_found, dev) else (do
        disk ← ra_2_ptr initrd_start
        done (
          err_none,
          record dev { guest_disk = disk; guest_disk_len = initrd_end -64 initrd_start },
        ))

  unfoldable pub disk_of_chosen : Fdt → Found → Dev fat → Run (Err × Dev fat)
  unfolding disk_at
  disk_of_chosen fdt (error e) dev = done (err_not_found, dev)
  disk_of_chosen fdt (node n) dev =
      disk_at (initrd_bound (fdt.fdt_getprop n (literal "linux,initrd-start")))
        (initrd_bound (fdt.fdt_getprop n (literal "linux,initrd-end"))) dev

  unfoldable pub rom_disk_init : Fdt → Dev fat → Run (Err × Dev fat)
  unfolding disk_of_chosen
  rom_disk_init fdt dev = disk_of_chosen fdt (fdt.fdt_path_offset (literal "/chosen")) dev

-- FAT_SECTOR_SIZE
abbrev pub sector_size : ℕ
sector_size = 512

-- Each of the first `rounds` rounds copies all `sector_count` sectors, from its own sector on.
-- `disk` is `guest_disk`; the products are `uint32_t`. `host`, which holds the image, is not
-- written.
unfoldable pub read_rounds : Memory → ℕ → ℕ → ℕ → ℕ → ℕ → Memory → Memory
read_rounds host disk sector_count zero sector buffer mem = mem
read_rounds host disk sector_count (suc rounds) sector buffer mem =
    read_rounds host disk sector_count rounds (u32 (sector + 1)) (buffer + sector_size) (
      store_bytes mem buffer
        (load_bytes host (disk + u32 (sector * sector_size)) (u32 (sector_count * sector_size))))

unfoldable pub guest_disk_read : Memory → ℕ → ℕ → ℕ → ℕ → Memory → Memory
unfolding read_rounds
guest_disk_read host disk sector buffer sector_count mem =
    read_rounds host disk sector_count sector_count sector buffer mem
