-- ===== src/Rom/Calls.antt =====
-- The calls of `rom_call` in rom.c that leave the guest's own state alone, one function for each
-- branch. `cia` is the address of the argument cells.
pub mod Disk
pub mod Laws
pub mod Above
use prephv.Base.{
  ℕ, ◌+◌, ◌-◌, ◌*◌, ◌/◌, ◌%◌, ◌^◌, Bool, true, false, Option, none, some, ◌++◌, Run, done, halt,
  ◌>>=◌, leb, ltb, ◌==◌, if◌then◌else◌, u32, u64, not,
}
use prephv.Guest.Memory.{Memory, load_bytes, store_bytes, is_string}
use prephv.Log.{con_puts}
use prephv.Time.{tb_to_ms}
use prephv.Rom.Library.{Platform, Fdt, Fat, Found, node, error, CString, string_at, literal}
use prephv.Rom.Device.{
  Dev, Reply, node_munge, node_demunge, minus_one, minus_one_32, arg, put_cell, returns, reply_node,
}
use prephv.Rom.Property.{rom_getprop}
use prephv.Rom.Stdio.{rom_stdout}

module _ (p : Platform) (cia : ℕ) where
  open p use {fat, fdt, tb_freq}

  -- An unknown device is the handle -1, and no error.
  unfoldable pub finddevice_reply : Found → Reply fat → Reply fat
  finddevice_reply (node n) s = returns 0 (put_cell cia 4 (node_munge n) s)
  finddevice_reply (error e) s = put_cell cia 4 minus_one_32 (returns 0 s)

  unfoldable pub do_finddevice : Reply fat → Run (Reply fat)
  unfolding finddevice_reply
  do_finddevice s = done (finddevice_reply (fdt.fdt_path_offset (string_at s.mem (arg cia 3 s))) s)

  unfoldable pub do_milliseconds : Reply fat → Run (Reply fat)
  do_milliseconds s = done (returns 0 (put_cell cia 3 (tb_to_ms tb_freq s.dev.timebase) s))

  unfoldable pub do_peer : Reply fat → Run (Reply fat)
  unfolding reply_node
  do_peer s =
      let n = arg cia 3 s in
      done (reply_node cia (if n == 0 then node 0 else fdt.fdt_sibling (node_demunge n)) s)

  unfoldable pub do_child : Reply fat → Run (Reply fat)
  unfolding reply_node
  do_child s =
      let n = arg cia 3 s in
      done (
        if n == 0 then returns minus_one s else reply_node cia (fdt.fdt_subnode (node_demunge n)) s)

  unfoldable pub do_parent : Reply fat → Run (Reply fat)
  unfolding reply_node
  do_parent s =
      let n = arg cia 3 s in
      done (
        if n == 0
        then returns minus_one s
        else reply_node cia (fdt.fdt_parent_offset (node_demunge n)) s)

  -- Each character goes through `con_putchar`.
  unfoldable pub do_write : Reply fat → Run (Reply fat)
  do_write s =
      let text = rom_stdout (load_bytes s.mem (arg cia 4 s) (arg cia 5 s)) in
      let dev = record s.dev { output = s.dev.output ++ con_puts text } in
      done (returns 0 (put_cell cia 6 (arg cia 5 s) (record s { dev = dev })))

  unfoldable pub do_getproplen : Reply fat → Run (Reply fat)
  unfolding rom_getprop
  do_getproplen s = do
    (r, mem) ←
        rom_getprop fdt s.dev s.mem (arg cia 4 s) (u64 (cia + 20)) 0 0 (node_demunge (arg cia 3 s))
    done (record s { mem = mem; r3 = r })

  unfoldable pub do_getprop : Reply fat → Run (Reply fat)
  unfolding rom_getprop
  do_getprop s = do
    (r, mem) ←
        rom_getprop fdt s.dev s.mem (arg cia 4 s) (u64 (cia + 28)) (arg cia 5 s) (arg cia 6 s)
          (node_demunge (arg cia 3 s))
    done (record s { mem = mem; r3 = r })

  unfoldable pub do_instance_to_package : Reply fat → Run (Reply fat)
  unfolding reply_node
  do_instance_to_package s = done (reply_node cia (fdt.fdt_node_offset_by_phandle (arg cia 3 s)) s)

  -- The path of a node goes to the buffer, and its length to `*(cia + 6)` if it is there.
  unfoldable pub reply_path : ℕ → Reply fat → Reply fat
  reply_path n s =
      let r = fdt.fdt_get_path n (arg cia 5 s) in
      let s' = record s { mem = store_bytes s.mem (arg cia 4 s) r.1 } in
      if r.0 then put_cell cia 6 (arg cia 5 s) (returns 0 s') else returns minus_one s'

  unfoldable pub path_of_found : Found → Reply fat → Reply fat
  unfolding reply_path
  path_of_found (node n) s = reply_path n s
  path_of_found (error e) s = returns minus_one s

  unfoldable pub do_instance_to_path : Reply fat → Run (Reply fat)
  unfolding path_of_found
  do_instance_to_path s = done (
      if arg cia 5 s == 0
      then returns 0 (put_cell cia 6 120 s)
      else path_of_found (fdt.fdt_node_offset_by_phandle (arg cia 3 s)) s)

  -- A munged node below 0x10000000 is a negative one.
  unfoldable pub do_package_to_path : Reply fat → Run (Reply fat)
  unfolding reply_path
  do_package_to_path s =
      let n = node_demunge (arg cia 3 s) in
      done (
        if arg cia 5 s == 0
        then returns 0 (put_cell cia 6 120 s)
        else if leb (2 ^ 31) n
        then returns minus_one s
        else reply_path n s)
