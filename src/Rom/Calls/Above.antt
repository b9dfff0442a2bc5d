-- ===== src/Rom/Calls/Above.antt =====
-- The calls of Calls and Calls/Disk write nothing above the guest's memory.
use prephv.Base.{
  ℕ, ◌+◌, ◌^◌, ◌≤◌, ◌<◌, arith, Bool, true, false, List, Run, done, halt, ◌>>=◌, ◌==◌,
  if◌then◌else◌, leb, u64, length, IfDone, if-cases,
}
use prephv.Guest.Memory.{Memory, store32, store_bytes}
use prephv.Guest.Memory.Above.{
  SameAbove, SameAbove-refl, SameAbove-trans, store32-SameAbove, store_bytes-SameAbove, load32-lt,
}
use prephv.Rom.Library.{Platform, Found, node, error}
use prephv.Rom.Device.{
  Reply, arg, cell, put_cell, returns, reply_node, node_demunge, node_munge, minus_one,
  minus_one_32,
}
use prephv.Rom.Property.{rom_getprop}
use prephv.Rom.Property.Above.{rom_getprop-Fine}
use prephv.Rom.Calls.{
  finddevice_reply, do_finddevice, do_milliseconds, do_peer, do_child, do_parent, do_write,
  do_getproplen, do_getprop, do_instance_to_package, do_instance_to_path, do_package_to_path,
  path_of_found, reply_path,
}

-- No buffer that 32-bit numbers describe reaches this address.
abbrev pub out_of_reach : ℕ
out_of_reach = 2 ^ 34

-- The libraries give no more bytes than they are asked for.
pub record IsBounded (p : Platform) : Type 0 where
  pub fread_bounded :
      (len : ℕ) (f : p.fat.File) (s : p.fat.State) → length (p.fat.fl_fread len f s).1 ≤ len
  pub path_bounded : (n len : ℕ) → length (p.fdt.fdt_get_path n len).1 ≤ len

module _ (p : Platform) (bounded : IsBounded p) (cia : ℕ) (small : cia < 2 ^ 32) where
  open p use {fat, fdt, strstr, host}

  abbrev pub Under : Reply fat → Reply fat → Type 0
  Under s s' = SameAbove out_of_reach s.mem s'.mem

  pub put_cell-Under : (k v : ℕ) (s : Reply fat) → k < 16 → Under s (put_cell cia k v s)
  put_cell-Under k v s h = store32-SameAbove out_of_reach s.mem (cell cia k) v (omega arith)

  -- A buffer and then a cell.
  pub bytes-Under :
      (a : ℕ) (vs : List ℕ) (s : Reply fat)
      → a < 2 ^ 32
      → length vs ≤ 2 ^ 32
      → Under s (record s { mem = store_bytes s.mem a vs })
  bytes-Under a vs s h l = store_bytes-SameAbove out_of_reach s.mem a vs (omega arith)

  pub bytes_cell-Under :
      (a k v : ℕ) (vs : List ℕ) (s : Reply fat)
      → k < 16
      → a < 2 ^ 32
      → length vs ≤ 2 ^ 32
      → SameAbove out_of_reach s.mem (store32 (store_bytes s.mem a vs) (cell cia k) v)
  bytes_cell-Under a k v vs s hk h l =
      let s' = record s { mem = store_bytes s.mem a vs } in
      SameAbove-trans out_of_reach s.mem s'.mem _ (bytes-Under a vs s h l)
        (put_cell-Under k v s' hk)

  reply_node-Under : (n : Found) (s : Reply fat) → Under s (reply_node cia n s)
  unfolding reply_node
  reply_node-Under (node n) s = put_cell-Under 4 (node_munge n) s (omega arith)
  reply_node-Under (error e) s = SameAbove-refl out_of_reach s.mem

  finddevice_reply-Under : (n : Found) (s : Reply fat) → Under s (finddevice_reply p cia n s)
  unfolding finddevice_reply
  finddevice_reply-Under (node n) s = put_cell-Under 4 (node_munge n) s (omega arith)
  finddevice_reply-Under (error e) s = put_cell-Under 4 minus_one_32 s (omega arith)

  pub finddevice-Under : (s : Reply fat) → IfDone (Under s) (do_finddevice p cia s)
  unfolding do_finddevice
  finddevice-Under s = finddevice_reply-Under _ s

  pub milliseconds-Under : (s : Reply fat) → IfDone (Under s) (do_milliseconds p cia s)
  unfolding do_milliseconds
  milliseconds-Under s = put_cell-Under 3 _ s (omega arith)

  pub peer-Under : (s : Reply fat) → IfDone (Under s) (do_peer p cia s)
  unfolding do_peer
  peer-Under s = reply_node-Under _ s

  from_node :
      (b : Bool) (n : Found) (s : Reply fat)
      → Under s (if b then returns minus_one s else reply_node cia n s)
  from_node true n s = SameAbove-refl out_of_reach s.mem
  from_node false n s = reply_node-Under n s

  pub child-Under : (s : Reply fat) → IfDone (Under s) (do_child p cia s)
  unfolding do_child
  child-Under s = from_node _ _ s

  pub parent-Under : (s : Reply fat) → IfDone (Under s) (do_parent p cia s)
  unfolding do_parent
  parent-Under s = from_node _ _ s

  pub write-Under : (s : Reply fat) → IfDone (Under s) (do_write p cia s)
  unfolding do_write
  write-Under s = put_cell-Under 6 (arg cia 5 s) s (omega arith)

  getprop-Under :
      (m : Run (ℕ × Memory)) (s : Reply fat)
      → IfDone (λ r. SameAbove out_of_reach s.mem r.1) m
      → IfDone (Under s) (m >>= λ (r, mem). done (record s { mem = mem; r3 = r }))
  getprop-Under (done r) s h = h
  getprop-Under halt s h = tt

  pub getproplen-Under : (s : Reply fat) → IfDone (Under s) (do_getproplen p cia s)
  unfolding do_getproplen
  getproplen-Under s =
      getprop-Under
        (rom_getprop fdt s.dev s.mem (arg cia 4 s) (u64 (cia + 20)) 0 0
          (node_demunge (arg cia 3 s)))
        s
        (rom_getprop-Fine fdt s.dev s.mem (arg cia 4 s) (u64 (cia + 20)) 0 0 out_of_reach
          (omega arith) (omega arith) (node_demunge (arg cia 3 s)))

  pub getprop_call-Under : (s : Reply fat) → IfDone (Under s) (do_getprop p cia s)
  unfolding do_getprop
  getprop_call-Under s =
      let buffer = load32-lt s.mem (cell cia 5) in
      getprop-Under
        (rom_getprop fdt s.dev s.mem (arg cia 4 s) (u64 (cia + 28)) (arg cia 5 s) (arg cia 6 s)
          (node_demunge (arg cia 3 s)))
        s
        (rom_getprop-Fine fdt s.dev s.mem (arg cia 4 s) (u64 (cia + 28)) (arg cia 5 s) (arg cia 6 s)
          out_of_reach (omega arith) (omega arith) (node_demunge (arg cia 3 s)))

  pub package-Under : (s : Reply fat) → IfDone (Under s) (do_instance_to_package p cia s)
  unfolding do_instance_to_package
  package-Under s = reply_node-Under _ s

  reply_path-Under : (n : ℕ) (s : Reply fat) → Under s (reply_path p cia n s)
  unfolding reply_path
  reply_path-Under n s =
      let buffer = load32-lt s.mem (cell cia 4) in
      let room = load32-lt s.mem (cell cia 5) in
      let r = fdt.fdt_get_path n (arg cia 5 s) in
      let s' = record s { mem = store_bytes s.mem (arg cia 4 s) r.1 } in
      let wrote : Under s s' =
        bytes-Under (arg cia 4 s) r.1 s buffer
          (let l = bounded.path_bounded n (arg cia 5 s) in omega arith) in
      if-cases (Under s) r.0 _ (returns minus_one s')
        (λ _.
          SameAbove-trans out_of_reach s.mem s'.mem _ wrote
            (put_cell-Under 6 (arg cia 5 s) s' (omega arith)))
        (λ _. wrote)

  path_of_found-Under : (n : Found) (s : Reply fat) → Under s (path_of_found p cia n s)
  unfolding path_of_found
  path_of_found-Under (node n) s = reply_path-Under n s
  path_of_found-Under (error e) s = SameAbove-refl out_of_reach s.mem

  pub instance_path-Under : (s : Reply fat) → IfDone (Under s) (do_instance_to_path p cia s)
  unfolding do_instance_to_path
  instance_path-Under s =
      if-cases (Under s) (arg cia 5 s == 0) _ _ (λ _. put_cell-Under 6 120 s (omega arith))
        (λ _. path_of_found-Under _ s)

  pub package_path-Under : (s : Reply fat) → IfDone (Under s) (do_package_to_path p cia s)
  unfolding do_package_to_path
  package_path-Under s =
      if-cases (Under s) (arg cia 5 s == 0) _ _ (λ _. put_cell-Under 6 120 s (omega arith))
        (λ _.
          if-cases (Under s) (leb (2 ^ 31) (node_demunge (arg cia 3 s))) _ _
            (λ _. SameAbove-refl out_of_reach s.mem) (λ _. reply_path-Under _ s))
