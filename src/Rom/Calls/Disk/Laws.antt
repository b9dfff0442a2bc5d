-- ===== src/Rom/Calls/Disk/Laws.antt =====
-- Where the client interface's "read" takes the bytes of the disk image from.
use prephv.Base.{
  ℕ, ◌+◌, ◌-◌, ◌^◌, ◌≤◌, ◌<◌, ◌≡◌, arith, true, leb, ltb, u32, ◌⊎◌, inl, inr, Bool-cases,
}
use prephv.Guest.Memory.{Memory, store32, store_bytes, load_bytes}
use prephv.Rom.Library.{Platform}
use prephv.Rom.Device.{Reply, arg, cell}
use prephv.Guest.Memory.Above.{load32-lt}
use prephv.Guest.Memory.Copy.{with_block, copy_lem}
use prephv.Rom.Calls.Disk.{read_disk, disk_address}

store32_other : (mem : Memory) (a v x : ℕ) → (x < a) ⊎ (a + 4 ≤ x) → store32 mem a v x ≡ mem x
unfolding store32
store32_other mem a v x h = ground arith

module _ (p : Platform) (cia : ℕ) where
  open p use {fat, host}

  -- A byte of memory behind the read: that of the image at an address, in the buffer.
  abbrev pub Filled : Reply fat → ℕ → ℕ → Type 0
  Filled s x start =
      (read_disk p cia s).mem x ≡ with_block host start (arg cia 5 s) s.mem (arg cia 4 s) x

  read_disk-address :
      (s : Reply fat) (x start : ℕ)
      → u32 (s.dev.guest_disk_offset + arg cia 5 s) ≤ s.dev.guest_disk_len
      → (x < cell cia 6) ⊎ (cell cia 6 + 4 ≤ x)
      → disk_address s.dev.guest_disk s.dev.guest_disk_offset ≡ start
      → (read_disk p cia s).mem x ≡ with_block host start (arg cia 5 s) s.mem (arg cia 4 s) x
  unfolding read_disk
  read_disk-address s x start fits out e =
      let len = arg cia 5 s in
      let t : leb (u32 (s.dev.guest_disk_offset + len)) s.dev.guest_disk_len ≡ true =
        ground arith in
      let m =
        store_bytes s.mem (arg cia 4 s)
          (load_bytes host (disk_address s.dev.guest_disk s.dev.guest_disk_offset) len) in
      rw (t, store32_other m (cell cia 6) len x out, e)
        (copy_lem host s.mem start (arg cia 4 s) len x)

  -- What is tested of a read is the sum of the offset and the length, in 32 bits, against the
  -- length of the image. Where it passes, for an image of less than 4 GB in the upper addresses,
  -- the read fills the guest's buffer, and nothing else but the cell of the length, in one of three
  -- ways: from the image, all of it inside; from the image with an offset below 2 ^ 31 but with a
  -- sum that has wrapped around, and then the bytes run past the end of the image; or, with an
  -- offset from 2 ^ 31 on, from 2 ^ 32 - `offset` bytes before the start of the image.
  pub read_disk_lem :
      (s : Reply fat) (x : ℕ)
      → s.dev.guest_disk_offset < 2 ^ 32
      → s.dev.guest_disk_len < 2 ^ 32
      → 2 ^ 32 ≤ s.dev.guest_disk
      → s.dev.guest_disk + 2 ^ 32 ≤ 2 ^ 64
      → u32 (s.dev.guest_disk_offset + arg cia 5 s) ≤ s.dev.guest_disk_len
      → (x < cell cia 6) ⊎ (cell cia 6 + 4 ≤ x)
      → let disk = s.dev.guest_disk in
        let disk_len = s.dev.guest_disk_len in
        let offset = s.dev.guest_disk_offset in
        let len = arg cia 5 s in
        ((offset < 2 ^ 31) × (offset + len ≤ disk_len) × Filled s x (disk + offset))
        ⊎ (((offset < 2 ^ 31)
              × (2 ^ 32 ≤ offset + len)
              × (disk_len < offset + len)
              × Filled s x (disk + offset))
            ⊎ ((2 ^ 31 ≤ offset) × Filled s x (disk - (2 ^ 32 - offset))))
  read_disk_lem s x o small_disk lo hi fits out =
      let disk = s.dev.guest_disk in
      let offset = s.dev.guest_disk_offset in
      let len = arg cia 5 s in
      let word = load32-lt s.mem (cell cia 5) in
      elim (Bool-cases (ltb offset (2 ^ 31))) [
        | inl small ↦
            let filled = read_disk-address s x (disk + offset) fits out (rw small (omega arith)) in
            elim (Bool-cases (ltb (offset + len) (2 ^ 32))) [
              | inl inside ↦ inl (ground arith, (ground arith), filled)
              | inr wrapped ↦ inr (inl (ground arith, ground arith, ground arith, filled))
            ]
        | inr large ↦ inr (
            inr (
              ground arith,
              read_disk-address s x (disk - (2 ^ 32 - offset)) fits out (rw large (ground arith)),
            ))
      ]
