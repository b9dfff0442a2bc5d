-- ===== src/Rom/Calls/Laws.antt =====
-- What the calls of Calls and Calls/Disk leave alone of the statics of rom.c.
use prephv.Base.{
  ℕ, ◌+◌, ◌*◌, ◌^◌, ◌≡◌, refl, Bool, true, false, Option, some, none, Run, done, halt, ◌>>=◌, ◌==◌,
  if◌then◌else◌, IfDone, IfDone->>=, IfDone-if, u32, leb,
}
use prephv.Guest.Memory.{is_string, Memory}
use prephv.Rom.Library.{Platform, Found, node, error, string_at, literal}
use prephv.Rom.Device.{Reply, arg, reply_node, node_demunge, minus_one, returns}
use prephv.Rom.Calls.{
  finddevice_reply, do_finddevice, do_peer, do_child, do_parent, do_getproplen, do_getprop,
  do_instance_to_package, do_instance_to_path, do_package_to_path, path_of_found, reply_path,
}
use prephv.Rom.Calls.Disk.{
  file_handle, disk1_handle, disk0_handle, do_open, do_close, do_seek, do_read, open_file, opened,
  close_file, seek_file, read_file, read_disk, read_empty, read_terminal,
}

module _ (p : Platform) (cia : ℕ) where
  open p use {fat, fdt, strstr}

  -- The available ranges are those of before the call.
  abbrev pub Keeps : Reply fat → Reply fat → Type 0
  Keeps s s' = s'.dev.avail ≡ s.dev.avail

  Keeps-if : (b : Bool) (s m n : Reply fat) → Keeps s m → Keeps s n → Keeps s (if b then m else n)
  Keeps-if true s m n p q = p
  Keeps-if false s m n p q = q

  reply_node-Keeps : (n : Found) (s : Reply fat) → Keeps s (reply_node cia n s)
  unfolding reply_node
  reply_node-Keeps (node n) s = refl
  reply_node-Keeps (error e) s = refl

  reply-Keeps : (n : Found) (s : Reply fat) → Keeps s (finddevice_reply p cia n s)
  unfolding finddevice_reply
  reply-Keeps (node n) s = refl
  reply-Keeps (error e) s = refl

  pub finddevice-Keeps : (s : Reply fat) → IfDone (Keeps s) (do_finddevice p cia s)
  unfolding do_finddevice
  finddevice-Keeps s = reply-Keeps _ s

  pub peer-Keeps : (s : Reply fat) → IfDone (Keeps s) (do_peer p cia s)
  unfolding do_peer
  peer-Keeps s = reply_node-Keeps _ s

  -- "child" and "parent" are the same but for what they ask of the tree.
  from_node :
      (b : Bool) (n : Found) (s : Reply fat)
      → Keeps s (if b then returns minus_one s else reply_node cia n s)
  from_node true n s = refl
  from_node false n s = reply_node-Keeps n s

  pub child-Keeps : (s : Reply fat) → IfDone (Keeps s) (do_child p cia s)
  unfolding do_child
  child-Keeps s = from_node _ _ s

  pub parent-Keeps : (s : Reply fat) → IfDone (Keeps s) (do_parent p cia s)
  unfolding do_parent
  parent-Keeps s = from_node _ _ s

  getprop-Keeps :
      (m : Run (ℕ × Memory)) (s : Reply fat)
      → IfDone (Keeps s) (m >>= λ (r, mem). done (record s { mem = mem; r3 = r }))
  getprop-Keeps (done r) s = refl
  getprop-Keeps halt s = tt

  pub do_getproplen-Keeps : (s : Reply fat) → IfDone (Keeps s) (do_getproplen p cia s)
  unfolding do_getproplen
  do_getproplen-Keeps s = getprop-Keeps _ s

  pub do_getprop-Keeps : (s : Reply fat) → IfDone (Keeps s) (do_getprop p cia s)
  unfolding do_getprop
  do_getprop-Keeps s = getprop-Keeps _ s

  pub package-Keeps : (s : Reply fat) → IfDone (Keeps s) (do_instance_to_package p cia s)
  unfolding do_instance_to_package
  package-Keeps s = reply_node-Keeps _ s

  reply_path-Keeps : (n : ℕ) (s : Reply fat) → Keeps s (reply_path p cia n s)
  unfolding reply_path
  reply_path-Keeps n s = Keeps-if (fdt.fdt_get_path n (arg cia 5 s)).0 s _ _ refl refl

  path_of_found-Keeps : (n : Found) (s : Reply fat) → Keeps s (path_of_found p cia n s)
  unfolding path_of_found
  path_of_found-Keeps (node n) s = reply_path-Keeps n s
  path_of_found-Keeps (error e) s = refl

  pub instance_path-Keeps : (s : Reply fat) → IfDone (Keeps s) (do_instance_to_path p cia s)
  unfolding do_instance_to_path
  instance_path-Keeps s = Keeps-if (arg cia 5 s == 0) s _ _ refl (path_of_found-Keeps _ s)

  pub package_path-Keeps : (s : Reply fat) → IfDone (Keeps s) (do_package_to_path p cia s)
  unfolding do_package_to_path
  package_path-Keeps s =
      Keeps-if (arg cia 5 s == 0) s _ _ refl
        (Keeps-if (leb (2 ^ 31) (node_demunge (arg cia 3 s))) s _ _ refl (reply_path-Keeps _ s))

  opened-Keeps : (o : Option fat.File) (s : Reply fat) → Keeps s (opened p cia o s)
  unfolding opened
  opened-Keeps none s = refl
  opened-Keeps (some f) s = refl

  open_file-Keeps :
      (o : Option fat.File) (s : Reply fat)
      → s.dev.cur_file ≡ o
      → IfDone (Keeps s) (open_file p cia s)
  unfolding open_file
  open_file-Keeps none s h = rw h (opened-Keeps _ _)
  open_file-Keeps (some f) s h = rw h tt

  pub open-Keeps : (s : Reply fat) → IfDone (Keeps s) (do_open p cia s)
  unfolding do_open
  open-Keeps s =
      IfDone-if (Keeps s) (strstr (string_at s.mem (arg cia 3 s)) (literal "/fake-storage/disk:1,"))
        _ _ (open_file-Keeps s.dev.cur_file (returns 0 s) refl)
        (IfDone-if (Keeps s) (is_string "/fake-storage/disk:1" s.mem (arg cia 3 s)) _ _ refl (
          IfDone-if (Keeps s) (is_string "/fake-storage/disk:0" s.mem (arg cia 3 s)) _ _ refl refl))

  -- A file that is open, or not, and the other handles.
  by_handle :
      (s : Reply fat) (o : Option fat.File) (ih : ℕ) (f : Option fat.File → Run (Reply fat))
      (m n k : Reply fat)
      → IfDone (Keeps s) (f o)
      → Keeps s m
      → Keeps s n
      → Keeps s k
      → IfDone (Keeps s) (
          if ih == file_handle
          then f o
          else if ih == disk1_handle
          then done m
          else if ih == disk0_handle
          then done n
          else done k)
  by_handle s o ih f m n k pf pm pn pk = IfDone-if (Keeps s) (ih == file_handle) _ _ pf (
      IfDone-if (Keeps s) (ih == disk1_handle) _ _ pm
        (IfDone-if (Keeps s) (ih == disk0_handle) _ _ pn pk))

  close_file-Keeps : (s : Reply fat) (o : Option fat.File) → IfDone (Keeps s) (close_file p cia s o)
  unfolding close_file
  close_file-Keeps s none = tt
  close_file-Keeps s (some f) = refl

  pub close-Keeps : (s : Reply fat) → IfDone (Keeps s) (do_close p cia s)
  unfolding do_close
  close-Keeps s =
      by_handle s s.dev.cur_file (arg cia 3 s) (close_file p cia s) _ _ _
        (close_file-Keeps s s.dev.cur_file) refl refl refl

  seek_file-Keeps :
      (i : ℕ) (s : Reply fat) (o : Option fat.File) → IfDone (Keeps s) (seek_file p cia i s o)
  unfolding seek_file
  seek_file-Keeps i s none = tt
  seek_file-Keeps i s (some f) = refl

  pub seek-Keeps : (s : Reply fat) → IfDone (Keeps s) (do_seek p cia s)
  unfolding do_seek
  seek-Keeps s =
      let i = arg cia 4 s * 2 ^ 32 + arg cia 5 s in
      by_handle s s.dev.cur_file (arg cia 3 s) (seek_file p cia i s) _ _ _
        (seek_file-Keeps i s s.dev.cur_file) refl refl refl

  read_file-Keeps : (s : Reply fat) (o : Option fat.File) → IfDone (Keeps s) (read_file p cia s o)
  unfolding read_file
  read_file-Keeps s none = tt
  read_file-Keeps s (some f) = refl

  read_disk-Keeps : (s : Reply fat) → Keeps s (read_disk p cia s)
  unfolding read_disk
  read_disk-Keeps s =
      Keeps-if (leb (u32 (s.dev.guest_disk_offset + arg cia 5 s)) s.dev.guest_disk_len) s _ _ refl
        refl

  pub read-Keeps : (s : Reply fat) → IfDone (Keeps s) (do_read p cia s)
  unfolding do_read read_empty read_terminal
  read-Keeps s =
      IfDone->>= (Keeps s) (Keeps s) _ (λ s'. done (returns 0 s'))
        (by_handle s s.dev.cur_file (arg cia 3 s) (read_file p cia s) _ _ _
          (read_file-Keeps s s.dev.cur_file) (read_disk-Keeps s) refl refl)
        (λ s' k. k)
