-- ===== src/Rom/Property.antt =====
-- `rom_memory_getprop` and `rom_getprop` of rom.c.
pub mod Laws
pub mod Above
use mathlib.Core.List
use prephv.Base.{
  ℕ, zero, suc, ◌+◌, ◌-◌, ◌*◌, ◌/◌, ◌%◌, ◌^◌, min, Bool, true, false, ◌||◌, Option, none, some,
  List, [], ◌∷◌, Run, done, halt, ◌>>=◌, ◌>>◌, bug_on, leb, ◌==◌, ◌!=◌, if◌then◌else◌, u32, ◌-64◌,
  length, take,
}
use prephv.Endian.{swab32}
use prephv.Ppc.{page_size}
use prephv.Guest.Memory.{Memory, store32, store_bytes, is_string}
use prephv.Ranges.{Range, Ranges, range_count}
use prephv.Rom.Library.{Fdt, Fat, string_at}
use prephv.Rom.Device.{Dev, minus_one}

-- `len <= 0`, of an `int`
abbrev pub is_spent : ℕ → Bool
is_spent len = len == 0 || leb (2 ^ 31) len

-- `len -= sizeof(uint32_t)`
abbrev pub less_word : ℕ → ℕ
less_word len = u32 (len + 2 ^ 32 - 4)

-- The size of a range, as `uint32_t`.
abbrev pub size_32 : Range → ℕ
size_32 r = u32 ((r.limit -64 r.base) + 1)

-- The two words of one range, as far as `len` goes.
unfoldable pub put_range : Memory → ℕ → ℕ → Range → Memory
put_range mem d len r =
    if is_spent len
    then mem
    else (let mem' = store32 mem d (swab32 (u32 r.base)) in
        if is_spent (less_word len) then mem' else store32 mem' (d + 4) (swab32 (size_32 r)))

-- The loop for "reg". Behind a `break` the source writes nothing more, and neither does this, as
-- `len` stays spent.
unfoldable pub put_reg : Memory → ℕ → ℕ → Ranges → Memory
unfolding put_range
put_reg mem d len [] = mem
put_reg mem d len (r ∷ rs) =
    if is_spent len
    then mem
    else put_reg (put_range mem d len r) (d + 8) (less_word (less_word len)) rs

-- The loop for "available", with its two BUG_ON for each range.
unfoldable pub put_available : Memory → ℕ → ℕ → Ranges → Run Memory
unfolding put_range
put_available mem d len [] = done mem
put_available mem d len (r ∷ rs) = do
  bug_on (u32 r.base % page_size != 0)
  bug_on (size_32 r % page_size != 0)
  let rest = put_available (put_range mem d len r) (d + 8) (less_word (less_word len)) rs
  if is_spent len then done mem else rest

-- `*dest_len`, for a length and the size of the buffer
abbrev pub told_len : ℕ → ℕ → ℕ
told_len len max_data = if max_data == 0 then len else min len max_data

module _ {fat : Fat} (fdt : Fdt) (dev : Dev fat) (mem : Memory)
    (name dest_len dest_data max_data : ℕ) where
  unfoldable pub reg_prop : Run (ℕ × Memory)
  unfolding put_reg
  reg_prop =
      let len = u32 (range_count dev.memory_reg * 8) in
      let mem' = store32 mem dest_len (told_len len max_data) in
      done (0, if dest_data == 0 then mem' else put_reg mem' dest_data len dev.memory_reg)

  unfoldable pub available_prop : Run (ℕ × Memory)
  unfolding put_available
  available_prop =
      let len = u32 (range_count dev.avail * 8) in
      let mem' = store32 mem dest_len (told_len len max_data) in
      if dest_data == 0
      then done (0, mem')
      else (do mem'' ← put_available mem' dest_data len dev.avail; done (0, mem''))

  -- Any other property of the memory node comes from the tree.
  unfoldable pub memory_tree_prop : Option (List ℕ) → Run (ℕ × Memory)
  memory_tree_prop none = done (minus_one, mem)
  memory_tree_prop (some bytes) =
      let len = u32 (length bytes) in
      let mem' = store32 mem dest_len (told_len len max_data) in
      done (
        0,
        if dest_data == 0 then mem' else store_bytes mem' dest_data (take (min len max_data) bytes),
      )

  unfoldable pub rom_memory_getprop : Run (ℕ × Memory)
  unfolding reg_prop available_prop memory_tree_prop
  rom_memory_getprop =
      if is_string "reg" mem name
      then reg_prop
      else if is_string "available" mem name
      then available_prop
      else memory_tree_prop (fdt.fdt_getprop dev.memory_node (string_at mem name))

  -- What `rom_getprop` does with what it found.
  unfoldable pub tree_prop : Option (List ℕ) → Run (ℕ × Memory)
  tree_prop none = done (minus_one, mem)
  tree_prop (some bytes) =
      let len = u32 (length bytes) in
      let mem' = store32 mem dest_len len in
      done (
        0,
        if dest_data == 0 then mem' else store_bytes mem' dest_data (take (min len max_data) bytes),
      )

  -- The name of a node, which the library must have.
  unfoldable pub name_prop : Option (List ℕ) → Run (ℕ × Memory)
  unfolding tree_prop
  name_prop none = halt
  name_prop (some bytes) = tree_prop (some bytes)

  unfoldable pub rom_getprop : ℕ → Run (ℕ × Memory)
  unfolding rom_memory_getprop tree_prop name_prop
  rom_getprop node =
      if is_string "name" mem name
      then (if node == 0 then tree_prop (some (47 ∷ [])) else name_prop (fdt.fdt_get_name node))
      else if node == dev.memory_node
      then rom_memory_getprop
      else tree_prop (fdt.fdt_getprop node (string_at mem name))
