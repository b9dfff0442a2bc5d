-- ===== src/Rom/Calls/Disk.antt =====
-- The calls on files and on the disk image: open, close, seek and read.
pub mod Laws
pub mod Above
use prephv.Base.{
  ℕ, ◌+◌, ◌-◌, ◌*◌, ◌/◌, ◌%◌, ◌^◌, Bool, true, false, Option, none, some, Run, done, halt, ◌>>=◌,
  leb, ltb, ◌==◌, if◌then◌else◌, u32, u64, length, replicate, not, List,
}
use prephv.Guest.Memory.{Memory, load_bytes, store_bytes, is_string}
use prephv.Rom.Library.{Platform, Fat, CString, string_at, literal}
use prephv.Rom.Device.{Dev, Reply, minus_one, arg, put_cell, returns}
use prephv.Rom.Stdio.{rom_stdin}

-- The three handles that `open` gives out.
abbrev pub file_handle : ℕ
file_handle = 0xffffffff

abbrev pub disk1_handle : ℕ
disk1_handle = 0xdddddddd

abbrev pub disk0_handle : ℕ
disk0_handle = 0xcccccccc

-- `guest_disk + guest_disk_offset`, with the offset as an `int`
abbrev pub disk_address : ℕ → ℕ → ℕ
disk_address disk offset =
    if ltb offset (2 ^ 31) then u64 (disk + offset) else u64 (disk + offset + 2 ^ 64 - 2 ^ 32)

-- The path of a file: that behind "/fake-storage/disk:1", with '/' for its first character. The
-- copy that the source makes is taken to have its memory.
abbrev pub file_path : Memory → ℕ → CString
file_path mem path i = if i == 0 then 47 else string_at mem (path + 20) i

module _ (p : Platform) (cia : ℕ) where
  open p use {fat, strstr, host}

  unfoldable pub opened : Option fat.File → Reply fat → Reply fat
  opened none s = returns minus_one s
  opened (some f) s = put_cell cia 4 file_handle s

  unfoldable pub open_file : Reply fat → Run (Reply fat)
  unfolding opened
  open_file s = elim s.dev.cur_file [
    | some f ↦ halt
    | none ↦
        let r = fat.fl_fopen (file_path s.mem (arg cia 3 s)) s.dev.files in
        done (opened r.0 (record s { dev = record s.dev { cur_file = r.0; files = r.1 } }))
  ]

  unfoldable pub do_open : Reply fat → Run (Reply fat)
  unfolding open_file
  do_open s =
      let path = arg cia 3 s in
      let s' = returns 0 s in
      if strstr (string_at s.mem path) (literal "/fake-storage/disk:1,")
      then open_file s'
      else if is_string "/fake-storage/disk:1" s.mem path
      then done
          (record (put_cell cia 4 disk1_handle s') { dev = record s.dev { guest_disk_offset = 0 } })
      else if is_string "/fake-storage/disk:0" s.mem path
      then done (put_cell cia 4 disk0_handle s')
      else done (put_cell cia 4 0 (returns minus_one s))

  unfoldable pub close_file : Reply fat → Option fat.File → Run (Reply fat)
  close_file s none = halt
  close_file s (some f) = done (
      returns 0
        (record s { dev = record s.dev { cur_file = none; files = fat.fl_fclose f s.dev.files } }))

  unfoldable pub do_close : Reply fat → Run (Reply fat)
  unfolding close_file
  do_close s =
      let ih = arg cia 3 s in
      if ih == file_handle
      then close_file s s.dev.cur_file
      else if ih == disk1_handle
      then done (returns 0 (record s { dev = record s.dev { guest_disk_offset = 0 } }))
      else if ih == disk0_handle
      then done (returns 0 s)
      else done (returns minus_one s)

  unfoldable pub seek_file : ℕ → Reply fat → Option fat.File → Run (Reply fat)
  seek_file offset s none = halt
  seek_file offset s (some f) =
      let r = fat.fl_fseek_set f offset s.dev.files in
      done
        (returns (if r.0 then 0 else minus_one) (record s { dev = record s.dev { files = r.1 } }))

  -- The offset is `hi << 32 | lo`; the disk keeps it as an `int`.
  unfoldable pub do_seek : Reply fat → Run (Reply fat)
  unfolding seek_file
  do_seek s =
      let ih = arg cia 3 s in
      let offset = arg cia 4 s * 2 ^ 32 + arg cia 5 s in
      if ih == file_handle
      then seek_file offset s s.dev.cur_file
      else if ih == disk1_handle
      then done (returns 0 (record s { dev = record s.dev { guest_disk_offset = u32 offset } }))
      else if ih == disk0_handle
      then done (returns 0 s)
      else done (returns minus_one s)

  unfoldable pub read_file : Reply fat → Option fat.File → Run (Reply fat)
  read_file s none = halt
  read_file s (some f) =
      let r = fat.fl_fread (arg cia 5 s) f s.dev.files in
      done (
        put_cell cia 6 (r.0) (record s {
          mem = store_bytes s.mem (arg cia 4 s) r.1;
          dev = record s.dev { files = r.2 };
        }))

  -- The sum of the offset and the length is taken in 32 bits. A read that does not pass the test
  -- leaves `*outlen` as it is.
  unfoldable pub read_disk : Reply fat → Reply fat
  read_disk s =
      let len = arg cia 5 s in
      let offset = s.dev.guest_disk_offset in
      if leb (u32 (offset + len)) s.dev.guest_disk_len
      then put_cell cia 6 len (record s {
        mem =
            store_bytes s.mem (arg cia 4 s)
              (load_bytes host (disk_address s.dev.guest_disk offset) len);
        dev = record s.dev { guest_disk_offset = u32 (offset + len) };
      })
      else s

  -- The empty disk fills as many bytes as the guest left in `*outlen`.
  unfoldable pub read_empty : Reply fat → Reply fat
  read_empty s = record s { mem = store_bytes s.mem (arg cia 4 s) (replicate (arg cia 6 s) 0xff) }

  unfoldable pub read_terminal : Reply fat → Reply fat
  read_terminal s =
      let r = rom_stdin (arg cia 5 s) s.dev.stdin_csi s.dev.input in
      put_cell cia 6 (length r.out) (record s {
        mem = store_bytes s.mem (arg cia 4 s) r.out;
        dev = record s.dev { stdin_csi = r.pending; input = r.rest };
      })

  unfoldable pub do_read : Reply fat → Run (Reply fat)
  unfolding read_file read_disk read_empty read_terminal
  do_read s = do
    s' ←
        (let ih = arg cia 3 s in
          if ih == file_handle
          then read_file s s.dev.cur_file
          else if ih == disk1_handle
          then done (read_disk s)
          else if ih == disk0_handle
          then done (read_empty s)
          else done (read_terminal s))
    done (returns 0 s')
