-- ===== src/Rom/Calls/Disk/Above.antt =====
-- The calls on files and on the disk image write nothing above the guest's memory.
use prephv.Base.{
  ℕ, ◌+◌, ◌*◌, ◌^◌, ◌≤◌, ◌<◌, ◌≡◌, refl, arith, Option, some, none, List, Run, done, ◌==◌,
  if◌then◌else◌, leb, u32, length, replicate, IfDone, IfDone->>=, IfDone-if, if-cases,
}
use prephv.Guest.Memory.{store32, store_bytes, load_bytes, is_string}
use prephv.Guest.Memory.Above.{
  SameAbove, SameAbove-refl, load32-lt, length-load_bytes, length-replicate,
}
use prephv.Rom.Library.{Platform, string_at, literal}
use prephv.Rom.Device.{Reply, arg, cell, put_cell, returns}
use prephv.Rom.Stdio.{rom_stdin, rom_stdin_split}
use prephv.Rom.Calls.Above.{
  out_of_reach, IsBounded, Under, put_cell-Under, bytes-Under, bytes_cell-Under,
}
use prephv.Rom.Calls.Disk.{
  file_handle, disk1_handle, disk0_handle, disk_address, do_open, do_close, do_seek, do_read,
  open_file, opened, close_file, seek_file, read_file, read_disk, read_empty, read_terminal,
}

module _ (p : Platform) (bounded : IsBounded p) (cia : ℕ) (small : cia < 2 ^ 32) where
  open p use {fat, strstr, host}

  abbrev Fine : Reply fat → Reply fat → Type 0
  Fine s s' = Under p bounded cia small s s'

  same : (s : Reply fat) → Fine s s
  same s = SameAbove-refl out_of_reach s.mem

  one_cell : (k v : ℕ) (s : Reply fat) → k < 16 → Fine s (put_cell cia k v s)
  one_cell k v s h = put_cell-Under p bounded cia small k v s h

  opened-Fine : (o : Option fat.File) (s : Reply fat) → Fine s (opened p cia o s)
  unfolding opened
  opened-Fine none s = same s
  opened-Fine (some f) s = one_cell 4 file_handle s (omega arith)

  open_file-Fine :
      (o : Option fat.File) (s : Reply fat)
      → s.dev.cur_file ≡ o
      → IfDone (Fine s) (open_file p cia s)
  unfolding open_file
  open_file-Fine none s h = rw h (opened-Fine _ _)
  open_file-Fine (some f) s h = rw h tt

  pub open-Fine : (s : Reply fat) → IfDone (Fine s) (do_open p cia s)
  unfolding do_open
  open-Fine s =
      let s' = returns 0 s in
      IfDone-if (Fine s) (strstr (string_at s.mem (arg cia 3 s)) (literal "/fake-storage/disk:1,"))
        _ _ (open_file-Fine s.dev.cur_file s' refl)
        (IfDone-if (Fine s) (is_string "/fake-storage/disk:1" s.mem (arg cia 3 s)) _ _
          (one_cell 4 disk1_handle s' (omega arith))
          (IfDone-if (Fine s) (is_string "/fake-storage/disk:0" s.mem (arg cia 3 s)) _ _
            (one_cell 4 disk0_handle s' (omega arith)) (one_cell 4 0 s' (omega arith))))

  by_handle :
      (s : Reply fat) (ih : ℕ) (f : Run (Reply fat)) (m n k : Reply fat)
      → IfDone (Fine s) f
      → Fine s m
      → Fine s n
      → Fine s k
      → IfDone (Fine s) (
          if ih == file_handle
          then f
          else if ih == disk1_handle
          then done m
          else if ih == disk0_handle
          then done n
          else done k)
  by_handle s ih f m n k pf pm pn pk = IfDone-if (Fine s) (ih == file_handle) _ _ pf (
      IfDone-if (Fine s) (ih == disk1_handle) _ _ pm
        (IfDone-if (Fine s) (ih == disk0_handle) _ _ pn pk))

  close_file-Fine : (s : Reply fat) (o : Option fat.File) → IfDone (Fine s) (close_file p cia s o)
  unfolding close_file
  close_file-Fine s none = tt
  close_file-Fine s (some f) = same s

  pub close-Fine : (s : Reply fat) → IfDone (Fine s) (do_close p cia s)
  unfolding do_close
  close-Fine s =
      by_handle s (arg cia 3 s) (close_file p cia s s.dev.cur_file) _ _ _
        (close_file-Fine s s.dev.cur_file) (same s) (same s) (same s)

  seek_file-Fine :
      (i : ℕ) (s : Reply fat) (o : Option fat.File) → IfDone (Fine s) (seek_file p cia i s o)
  unfolding seek_file
  seek_file-Fine i s none = tt
  seek_file-Fine i s (some f) = same s

  pub seek-Fine : (s : Reply fat) → IfDone (Fine s) (do_seek p cia s)
  unfolding do_seek
  seek-Fine s =
      let i = arg cia 4 s * 2 ^ 32 + arg cia 5 s in
      by_handle s (arg cia 3 s) (seek_file p cia i s s.dev.cur_file) _ _ _
        (seek_file-Fine i s s.dev.cur_file) (same s) (same s) (same s)

  -- A buffer at the second argument, and the cell of its length.
  answer :
      (v : ℕ) (vs : List ℕ) (s : Reply fat)
      → length vs ≤ 2 ^ 32
      → SameAbove out_of_reach s.mem (store32 (store_bytes s.mem (arg cia 4 s) vs) (cell cia 6) v)
  answer v vs s l =
      bytes_cell-Under p bounded cia small (arg cia 4 s) 6 v vs s (omega arith)
        (load32-lt s.mem (cell cia 4)) l

  read_file-Fine : (s : Reply fat) (o : Option fat.File) → IfDone (Fine s) (read_file p cia s o)
  unfolding read_file
  read_file-Fine s none = tt
  read_file-Fine s (some f) =
      let r = fat.fl_fread (arg cia 5 s) f s.dev.files in
      let room = load32-lt s.mem (cell cia 5) in
      let l = bounded.fread_bounded (arg cia 5 s) f s.dev.files in answer r.0 r.1 s (omega arith)

  read_disk-Fine : (s : Reply fat) → Fine s (read_disk p cia s)
  unfolding read_disk
  read_disk-Fine s =
      let len = arg cia 5 s in
      let room = load32-lt s.mem (cell cia 5) in
      let vs = load_bytes host (disk_address s.dev.guest_disk s.dev.guest_disk_offset) len in
      let l = length-load_bytes host (disk_address s.dev.guest_disk s.dev.guest_disk_offset) len in
      if-cases (Fine s) (leb (u32 (s.dev.guest_disk_offset + len)) s.dev.guest_disk_len) _ s
        (λ _. answer len vs s (omega arith)) (λ _. same s)

  read_empty-Fine : (s : Reply fat) → Fine s (read_empty p cia s)
  unfolding read_empty
  read_empty-Fine s =
      let room = load32-lt s.mem (cell cia 6) in
      let l = length-replicate (arg cia 6 s) 0xff in
      bytes-Under p bounded cia small (arg cia 4 s) (replicate (arg cia 6 s) 0xff) s
        (load32-lt s.mem (cell cia 4)) (omega arith)

  read_terminal-Fine : (s : Reply fat) → Fine s (read_terminal p cia s)
  unfolding read_terminal
  read_terminal-Fine s =
      let r = rom_stdin (arg cia 5 s) s.dev.stdin_csi s.dev.input in
      let room = load32-lt s.mem (cell cia 5) in
      let l = (rom_stdin_split (arg cia 5 s) 0 s.dev.stdin_csi s.dev.input).0 in
      answer (length r.out) r.out s (omega arith)

  pub read-Fine : (s : Reply fat) → IfDone (Fine s) (do_read p cia s)
  unfolding do_read
  read-Fine s =
      IfDone->>= (Fine s) (Fine s) _ (λ s'. done (returns 0 s'))
        (by_handle s (arg cia 3 s) (read_file p cia s s.dev.cur_file) _ _ _
          (read_file-Fine s s.dev.cur_file) (read_disk-Fine s) (read_empty-Fine s)
          (read_terminal-Fine s))
        (λ s' k. k)
